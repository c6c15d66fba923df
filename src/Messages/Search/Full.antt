-- ===== src/Messages/Search/Full.antt =====
-- A page of `searchHandler` (server/search.go) that fills within its first batch.
use hexeris_beta.Base.{
  ℕ, ◌+◌, ◌≡◌, refl, ap, ◌∙◌, subst, sym, String, Option, some, Bool, true, false, not, List, [],
  ◌∷◌, ◌++◌, map, length, length-append, ltb, leb, if◌then◌else◌, arith,
}
use hexeris_beta.Limiter.{RateLimiter, is_blocked, record_failure}
use hexeris_beta.Messages.Table.{Row, Table, last}
use hexeris_beta.Messages.Search.{
  Source, Text, Match, snippet, Hit, Scan, scan_batch, max_hits, scan_rounds, scan_from, match_row,
  found, passed, after_match, scan_rows, in_scan, end_round, scan_round, running, and_then,
  scan_loop, Answer, refused, results, answer_scan, search_handler,
}
use hexeris_beta.Messages.Search.Rounds.{scan_loop-exhausted}

module _ (s : Source) (me : String) (q_lower : Text) where
  abbrev pub AllMatch : Table → Type 0
  AllMatch [] = Unit {0}
  AllMatch (r ∷ rs) = ((t : Text) × (match_row s q_lower r ≡ snippet t)) × AllMatch rs

  -- The scan ends in a full page.
  abbrev Filled : ℕ → Option (ℕ × Scan) → Type 0
  Filled got o =
      (sc : Scan) × (o ≡ some (got, sc)) × (length sc.hits ≡ max_hits) × (sc.scanned ≡ got)

  hit : Row → Text → Scan → Scan
  hit r t sc = found s me r t (passed r sc)

  choose : Bool → ℕ → Scan → Option (ℕ × Scan) → Option (ℕ × Scan)
  choose b got sc rest = if b then some (got, sc) else rest

  scan_rows-hit :
      (r : Row) (t : Text) (rs : Table) (got : ℕ) (sc : Scan)
      → match_row s q_lower r ≡ snippet t
      → scan_rows s me q_lower (r ∷ rs) got sc
        ≡ choose
            (leb max_hits (length sc.hits + 1))
            (got + 1)
            (hit r t sc)
            (scan_rows s me q_lower rs (got + 1) (hit r t sc))
  unfolding scan_rows after_match found hit choose
  scan_rows-hit r t rs got sc e =
      ap
        (λ (m : Match).
          after_match s me r m (got + 1) (passed r sc)
            (λ next. scan_rows s me q_lower rs (got + 1) next))
        e
      ∙ ap
          (λ (n : ℕ).
            choose (leb max_hits n) (got + 1) (hit r t sc)
              (scan_rows s me q_lower rs (got + 1) (hit r t sc)))
          (length-append sc.hits _)

  length-hit : (r : Row) (t : Text) (sc : Scan) → length (hit r t sc).hits ≡ length sc.hits + 1
  unfolding hit found
  length-hit r t sc = length-append sc.hits _

  scanned-hit : (r : Row) (t : Text) (sc : Scan) → (hit r t sc).scanned ≡ sc.scanned + 1
  unfolding hit found
  scanned-hit r t sc = refl

  scan_rows-Filled :
      (r : Row) (front back : Table) (got : ℕ) (sc : Scan)
      → AllMatch (r ∷ front)
      → length sc.hits + length (r ∷ front) ≡ max_hits
      → sc.scanned ≡ got
      → Filled (got + length (r ∷ front)) (scan_rows s me q_lower (r ∷ (front ++ back)) got sc)
  unfolding choose
  scan_rows-Filled r [] back got sc all few count =
      let t : Text = all.0.0 in
      let full : leb max_hits (length sc.hits + 1) ≡ true = ground (arith, few) in
      (
        hit r t sc,
        scan_rows-hit r t back got sc all.0.1 ∙ rw full refl,
        length-hit r t sc ∙ few,
        scanned-hit r t sc ∙ omega (arith, count),
      )
  scan_rows-Filled r (x ∷ xs) back got sc all few count =
      let t : Text = all.0.0 in
      let not_full : leb max_hits (length sc.hits + 1) ≡ false = ground (arith, few) in
      subst (λ (n : ℕ). Filled n (scan_rows s me q_lower (r ∷ x ∷ (xs ++ back)) got sc))
        (omega arith)
        (subst (Filled (got + 1 + length (x ∷ xs)))
          (sym (scan_rows-hit r t (x ∷ (xs ++ back)) got sc all.0.1 ∙ rw not_full refl))
          (scan_rows-Filled x xs back (got + 1) (hit r t sc) all.1
            (omega (arith, few, length-hit r t sc)) (scanned-hit r t sc ∙ omega (arith, count))))

  abbrev Page : Answer → Type 0
  Page answer = (hits : List Hit) × (answer ≡ results hits 0 max_hits) × (length hits ≡ max_hits)

  scan_loop-Filled :
      (t : Table) (before : ℕ)
      → Filled max_hits
          (scan_rows s me q_lower (last scan_batch (in_scan s me before) t) 0 (scan_from before))
      → Page (answer_scan (scan_loop s scan_rounds me q_lower t (scan_from before)))
  unfolding scan_loop scan_round end_round answer_scan running
  scan_loop-Filled t before (sc, e, hits, scanned) =
      let next : Scan = record sc { exhausted = true } in
      let over : running next ≡ false = ground arith in
      (
        sc.hits,
        ap
              (λ (o : Option (ℕ × Scan)).
                answer_scan (and_then (end_round o) (λ n. scan_loop s 9 me q_lower t n)))
              e
            ∙ ap answer_scan (scan_loop-exhausted s me q_lower 9 t next over)
            ∙ ap (results sc.hits 0) scanned,
        hits,
      )

-- A request that is let through.
pub search_handler-scan :
    (s : Source) (me : String) (q : Text) (before : ℕ) (t : Table) (limiter : RateLimiter)
    → (is_blocked limiter s.now_unix me).0 ≡ false
    → ltb (length q) 2 ≡ false
    → s.up ≡ true
    → (search_handler s me q before t limiter).0
      ≡ answer_scan (scan_loop s scan_rounds me (map s.lower q) t (scan_from before))
unfolding search_handler
search_handler-scan s me q before t limiter allowed long up =
    by_tests (answer_scan (scan_loop s scan_rounds me (map s.lower q) t (scan_from before)))
      (is_blocked limiter s.now_unix me).0 (ltb (length q) 2) s.up allowed long up
  where
    by_tests :
        (a : Answer) (b c d : Bool)
        → b ≡ false
        → c ≡ false
        → d ≡ true
        → (if◌then◌else◌ {A = Answer × RateLimiter} b
            (refused 429, (is_blocked limiter s.now_unix me).1)
            (if c then (refused 400, (is_blocked limiter s.now_unix me).1) else (
              if not d then refused 500 else a,
              record_failure (is_blocked limiter s.now_unix me).1 s.now_unix me,
            ))).0
          ≡ a
    by_tests a b c d e f g = ground arith

-- When the newest thirty messages of the first batch all match, a request that is let through is
-- answered with thirty hits and the cursor 0, which says that nothing is left, whatever messages
-- stand behind them.
pub search_handler-AllMatch :
    (s : Source) (me : String) (q : Text) (before : ℕ) (t : Table) (limiter : RateLimiter) (r : Row)
    (front back : Table)
    → (is_blocked limiter s.now_unix me).0 ≡ false
    → ltb (length q) 2 ≡ false
    → s.up ≡ true
    → last scan_batch (in_scan s me before) t ≡ r ∷ (front ++ back)
    → length (r ∷ front) ≡ max_hits
    → AllMatch s me (map s.lower q) (r ∷ front)
    → (hits : List Hit) × ((search_handler s me q before t limiter).0 ≡ results hits 0 max_hits)
      × (length hits ≡ max_hits)
search_handler-AllMatch s me q before t limiter r front back allowed long up batch thirty all =
    let q' : Text = map s.lower q in
    let filled =
      scan_rows-Filled s me q' r front back 0 (scan_from before) all (omega (arith, thirty)) refl in
    let paged = scan_loop-Filled s me q' t before (
      subst
        (λ (rows : Table). Filled s me q' max_hits (scan_rows s me q' rows 0 (scan_from before)))
        (sym batch)
        (subst
          (λ (n : ℕ).
            Filled s me q' n (scan_rows s me q' (r ∷ (front ++ back)) 0 (scan_from before)))
          (omega (arith, thirty)) filled)) in
    (paged.0, search_handler-scan s me q before t limiter allowed long up ∙ paged.1, paged.2)
