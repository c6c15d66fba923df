-- ===== src/Messages/Search/Found.antt =====
-- What `searchHandler` (server/search.go) finds.
use hexeris_beta.Base.{
  ℕ, zero, suc, ◌+◌, ◌≡◌, refl, String, Option, none, some, Bool, true, false, not, List, [], ◌∷◌,
  ◌++◌, map, length, ltb, ◌=s=◌, ◌&&◌, ◌||◌, if◌then◌else◌, arith,
}
use hexeris_beta.Limiter.{RateLimiter, is_blocked, record_failure}
use hexeris_beta.Messages.Table.{Row, Table, one_of, Every, Every-map, Every-last}
use hexeris_beta.Messages.Search.{
  Source, Text, Match, no_match, panics, snippet, Hit, Scan, scan_batch, scan_rounds, scan_from,
  contains, searched_text, match_in, match_row, found, passed, after_match, scan_rows, in_scan,
  end_round, scan_round, running, and_then, scan_loop, Answer, refused, crashed, results,
  answer_scan, search_handler,
}

unfoldable pub may_read : Source → String → Row → Bool
unfolding one_of
may_read s me r = r.sender =s= me || r.recipient =s= me || one_of r.recipient (s.group_ids me)

abbrev pub matched : (ℕ → ℕ) → Text → Option Text → Bool
matched lower q_lower none = false
matched lower q_lower (some t) = contains q_lower (map lower t)

module _ (s : Source) (me : String) (q_lower : Text) where
  -- A hit is a message that the user may read, that is not deleted, and whose text or file name has
  -- the query in it.
  pub record Sound (h : Hit) : Type 0 where
    pub readable : may_read s me h.row ≡ true
    pub kept : h.row.deleted ≡ false
    pub matching : matched s.lower q_lower (searched_text s h.row) ≡ true

  abbrev pub AllSound : List Hit → Type 0
  AllSound [] = Unit {0}
  AllSound (h ∷ hs) = Sound h × AllSound hs

  AllSound-append : (hs : List Hit) (h : Hit) → AllSound hs → Sound h → AllSound (hs ++ h ∷ [])
  AllSound-append [] h a b = (b, tt)
  AllSound-append (x ∷ xs) h a b = (a.0, AllSound-append xs h a.1 b)

  match_row-matched :
      (r : Row) (t : Text)
      → match_row s q_lower r ≡ snippet t
      → matched s.lower q_lower (searched_text s r) ≡ true
  unfolding match_row match_in
  match_row-matched r t = by_text (r.media_type =s= "") (searched_text s r)
    where
      by_text :
          (b : Bool) (o : Option Text)
          → match_in s b q_lower o ≡ snippet t
          → matched s.lower q_lower o ≡ true
      by_text b none e = absurd (cc e)
      by_text b (some u) e = ground (arith, e)

  abbrev Scanned : Option (ℕ × Scan) → Type 0
  Scanned none = Unit {0}
  Scanned (some (got, sc)) = AllSound sc.hits

  -- Rows that the user may read.
  abbrev Offered : Table → Type 0
  Offered rows = Every (λ r. (may_read s me r && not r.deleted) ≡ true) rows

  scan_rows-AllSound :
      (rows : Table) (got : ℕ) (sc : Scan)
      → Offered rows
      → AllSound sc.hits
      → Scanned (scan_rows s me q_lower rows got sc)
  unfolding scan_rows after_match found
  scan_rows-AllSound [] got sc offered a = a
  scan_rows-AllSound (r ∷ rs) got sc offered a =
      by_match (match_row s q_lower r) refl
        (λ next b. scan_rows-AllSound rs (got + 1) next offered.1 b)
    where
      go_on : Scan → Option (ℕ × Scan)
      go_on next = scan_rows s me q_lower rs (got + 1) next

      with_hit : Text → Scan
      with_hit t = found s me r t (passed r sc)

      sound : (t : Text) → match_row s q_lower r ≡ snippet t → AllSound (with_hit t).hits
      sound t e = AllSound-append sc.hits _ a (record {
        readable = ground (arith, offered.0);
        kept = ground (arith, offered.0);
        matching = match_row-matched r t e;
      })

      by_test :
          (b : Bool) (t : Text)
          → AllSound (with_hit t).hits
          → Scanned (go_on (with_hit t))
          → Scanned (if b then some (got + 1, with_hit t) else go_on (with_hit t))
      by_test true t b c = b
      by_test false t b c = c

      by_match :
          (m : Match)
          → match_row s q_lower r ≡ m
          → ((next : Scan) → AllSound next.hits → Scanned (go_on next))
          → Scanned (after_match s me r m (got + 1) (passed r sc) go_on)
      by_match no_match e ih = ih (passed r sc) a
      by_match panics e ih = tt
      by_match (snippet t) e ih = by_test _ t (sound t e) (ih (with_hit t) (sound t e))

  abbrev Ended : Option Scan → Type 0
  Ended none = Unit {0}
  Ended (some sc) = AllSound sc.hits

  end_round-AllSound : (o : Option (ℕ × Scan)) → Scanned o → Ended (end_round o)
  unfolding end_round
  end_round-AllSound none h = tt
  end_round-AllSound (some (got, sc)) h = by_test (ltb got scan_batch)
    where
      by_test : (b : Bool) → Ended (some (if b then record sc { exhausted = true } else sc))
      by_test true = h
      by_test false = h

  in_scan-offered :
      (cursor : ℕ) (r : Row)
      → in_scan s me cursor r ≡ true
      → (may_read s me r && not r.deleted) ≡ true
  unfolding in_scan may_read
  in_scan-offered cursor r h = ground arith

  scan_round-AllSound :
      (t : Table) (sc : Scan) → AllSound sc.hits → Ended (scan_round s me q_lower t sc)
  unfolding scan_round
  scan_round-AllSound t sc a = end_round-AllSound _ (
      scan_rows-AllSound _ 0 sc
        (Every-map _ _ _ (in_scan-offered sc.cursor)
          (Every-last (in_scan s me sc.cursor) scan_batch t))
        a)

  scan_loop-AllSound :
      (n : ℕ) (t : Table) (sc : Scan) → AllSound sc.hits → Ended (scan_loop s n me q_lower t sc)
  unfolding scan_loop
  scan_loop-AllSound zero t sc a = a
  scan_loop-AllSound (suc n) t sc a =
      by_test (running sc) (scan_round s me q_lower t sc) (scan_round-AllSound t sc a)
        (λ next b. scan_loop-AllSound n t next b)
    where
      by_test :
          (b : Bool) (o : Option Scan)
          → Ended o
          → ((next : Scan) → AllSound next.hits → Ended (scan_loop s n me q_lower t next))
          → Ended (if b then and_then o (λ next. scan_loop s n me q_lower t next) else some sc)
      by_test false o e ih = a
      by_test true none e ih = tt
      by_test true (some next) e ih = ih next e

abbrev pub hits_of : Answer → List Hit
hits_of (refused code) = []
hits_of crashed = []
hits_of (results hits next scanned) = hits

hits-answer_scan :
    (s : Source) (me : String) (q_lower : Text) (o : Option Scan)
    → Ended s me q_lower o
    → AllSound s me q_lower (hits_of (answer_scan o))
unfolding answer_scan
hits-answer_scan s me q_lower none h = tt
hits-answer_scan s me q_lower (some sc) h = h

-- Every hit of a search is a message that is not deleted, that the caller has sent or received or
-- that is in one of the caller's groups, and whose decrypted text, or whose file name, contains the
-- query, both in lower case.
pub search_handler-AllSound :
    (s : Source) (me : String) (q : Text) (before : ℕ) (t : Table) (limiter : RateLimiter)
    → AllSound s me (map s.lower q) (hits_of (search_handler s me q before t limiter).0)
unfolding search_handler
search_handler-AllSound s me q before t limiter =
    let q' : Text = map s.lower q in
    let scanned =
      hits-answer_scan s me q' (scan_loop s scan_rounds me q' t (scan_from before))
        (scan_loop-AllSound s me q' scan_rounds t (scan_from before) tt) in
    by_tests (is_blocked limiter s.now_unix me).0 (ltb (length q) 2) s.up scanned
  where
    ended : Answer
    ended = answer_scan (scan_loop s scan_rounds me (map s.lower q) t (scan_from before))

    by_tests :
        (b c d : Bool)
        → AllSound s me (map s.lower q) (hits_of ended)
        → AllSound s me (map s.lower q) (
            hits_of
              (if◌then◌else◌ {A = Answer × RateLimiter} b
                (refused 429, (is_blocked limiter s.now_unix me).1)
                (if c then (refused 400, (is_blocked limiter s.now_unix me).1) else (
                  if not d then refused 500 else ended,
                  record_failure (is_blocked limiter s.now_unix me).1 s.now_unix me,
                ))).0)
    by_tests true c d h = tt
    by_tests false true d h = tt
    by_tests false false true h = h
    by_tests false false false h = tt
