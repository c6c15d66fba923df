-- ===== src/Messages/Search/Rounds.antt =====
-- The rounds of `searchHandler` (server/search.go).
use hexeris_beta.Base.{
  ℕ, zero, suc, ◌+◌, ◌*◌, ◌≤◌, ◌≡◌, refl, subst, sym, String, Option, none, some, Bool, true, false,
  [], ◌∷◌, length, ltb, leb, if◌then◌else◌, arith, ◌⊎◌, inl, inr,
}
use hexeris_beta.Messages.Table.{Row, Table, last}
use hexeris_beta.Messages.Search.{
  Source, Text, Match, no_match, panics, snippet, Scan, scan_batch, max_scan, max_hits, scan_rounds,
  scan_from, match_row, found, passed, after_match, scan_rows, in_scan, end_round, scan_round,
  running, and_then, scan_loop,
}

module _ (s : Source) (me : String) (q_lower : Text) where
  -- `got` and `scanned` are counted together; the scan of `n` rows goes on at `got`.
  abbrev Counted : ℕ → ℕ → Option (ℕ × Scan) → Type 0
  Counted got n none = Unit {0}
  Counted got n (some (got', sc')) = sc'.scanned + got ≡ n + got'

  after_match-Counted :
      (r : Row) (m : Match) (got : ℕ) (sc : Scan) (go_on : Scan → Option (ℕ × Scan))
      → ((next : Scan) → next.scanned ≡ sc.scanned → Counted got sc.scanned (go_on next))
      → Counted got sc.scanned (after_match s me r m got sc go_on)
  unfolding after_match found
  after_match-Counted r no_match got sc go_on h = h sc refl
  after_match-Counted r panics got sc go_on h = tt
  after_match-Counted r (snippet t) got sc go_on h =
      by_test (leb max_hits (length (found s me r t sc).hits)) (h (found s me r t sc) refl)
    where
      by_test :
          (b : Bool)
          → Counted got sc.scanned (go_on (found s me r t sc))
          → Counted got sc.scanned
              (if b then some (got, found s me r t sc) else go_on (found s me r t sc))
      by_test true later = refl
      by_test false later = later

  Counted-shift :
      (got n : ℕ) (o : Option (ℕ × Scan)) → Counted (got + 1) (n + 1) o → Counted got n o
  Counted-shift got n none h = tt
  Counted-shift got n (some (got', sc')) h = omega (arith, h)

  scan_rows-Counted :
      (rows : Table) (got : ℕ) (sc : Scan)
      → Counted got sc.scanned (scan_rows s me q_lower rows got sc)
  unfolding scan_rows
  scan_rows-Counted [] got sc = refl
  scan_rows-Counted (r ∷ rs) got sc = Counted-shift got sc.scanned _ (
      after_match-Counted r (match_row s q_lower r) (got + 1) (passed r sc) _ (λ next e.
        subst (λ (n : ℕ). Counted (got + 1) n (scan_rows s me q_lower rs (got + 1) next)) e
          (scan_rows-Counted rs (got + 1) next)))

  -- A round that is not the last has read a whole batch.
  abbrev Advanced : Scan → Option Scan → Type 0
  Advanced sc none = Unit {0}
  Advanced sc (some next) = (next.exhausted ≡ true) ⊎ (sc.scanned + scan_batch ≤ next.scanned)

  end_round-Advanced :
      (sc : Scan) (o : Option (ℕ × Scan)) → Counted 0 sc.scanned o → Advanced sc (end_round o)
  unfolding end_round
  end_round-Advanced sc none h = tt
  end_round-Advanced sc (some (got, next)) h = by_test (ltb got scan_batch) refl
    where
      by_test :
          (b : Bool)
          → ltb got scan_batch ≡ b
          → Advanced sc (some (if b then record next { exhausted = true } else next))
      by_test true e = inl refl
      by_test false e = inr (ground (arith, e, h))

  abbrev pub Stopped : Option Scan → Type 0
  Stopped none = Unit {0}
  Stopped (some sc) = running sc ≡ false

  pub scan_loop-exhausted :
      (n : ℕ) (t : Table) (sc : Scan) → running sc ≡ false → scan_loop s n me q_lower t sc ≡ some sc
  unfolding scan_loop
  scan_loop-exhausted zero t sc h = refl
  scan_loop-exhausted (suc n) t sc h = rw h refl

  scan_loop-Stopped :
      (n : ℕ) (t : Table) (sc : Scan)
      → max_scan ≤ sc.scanned + scan_batch * n
      → Stopped (scan_loop s n me q_lower t sc)
  unfolding scan_loop running scan_round in_scan last
  scan_loop-Stopped zero t sc h = ground (arith, h)
  scan_loop-Stopped (suc n) t sc h =
      by_test (running sc) refl (scan_round s me q_lower t sc)
        (end_round-Advanced sc _
          (scan_rows-Counted (last scan_batch (in_scan s me sc.cursor) t) 0 sc))
        (λ next enough. scan_loop-Stopped n t next enough)
    where
      by_test :
          (b : Bool)
          → running sc ≡ b
          → (o : Option Scan) → Advanced sc o
          → ((next : Scan)
              → max_scan ≤ next.scanned + scan_batch * n
              → Stopped (scan_loop s n me q_lower t next))
          → Stopped (if b then and_then o (λ next. scan_loop s n me q_lower t next) else some sc)
      by_test false e o a ih = e
      by_test true e none a ih = tt
      by_test true e (some next) (inr far) ih = ih next (omega (arith, far, h))
      by_test true e (some next) (inl done) ih =
          let still : running next ≡ false = ground (arith, done) in
          subst Stopped (sym (scan_loop-exhausted n t next still)) still

  -- However many messages there are, ten rounds are enough: the state in which the scan ends, if it
  -- does not panic, is one in which the condition of the loop is false.
  pub scan_rounds-Stopped :
      (t : Table) (before : ℕ) → Stopped (scan_loop s scan_rounds me q_lower t (scan_from before))
  scan_rounds-Stopped t before = scan_loop-Stopped scan_rounds t (scan_from before) (omega arith)
