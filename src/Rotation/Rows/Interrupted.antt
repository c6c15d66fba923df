-- ===== src/Rotation/Rows/Interrupted.antt =====
-- The pages of `rotateMessages` (server/rotatekey.go) when reads of them fail or break off.
use mathlib.Core.List.{append_assoc}
use hexeris_beta.Base.{
  ℕ, zero, suc, ◌≤◌, ◌<◌, ◌≡◌, ◌≢◌, refl, sym, ap, ◌∙◌, subst, Option, some, Bool, true, false,
  List, [], ◌∷◌, ◌++◌, arith, take, drop, length,
}
use hexeris_beta.Rotation.Rows.{
  Keys, Rotation, Row, Counts, Progress, PageRead, unreadable, whole, broken_off, next_page,
  last_seq, on_page, on_read, rotate_pages, rotate_batch_size,
}
use hexeris_beta.Rotation.Rows.Walk.{
  Ascending, Below, Below-weaken, between, walk, rotate_batch-walk, walk-Below,
}
use hexeris_beta.Rotation.Rows.Paging.{
  above-cursor, take-append-drop, last_seq-Ascending, Below-append,
}
use hexeris_beta.Rotation.Rows.Reading.{Keeps, Keeps-self, Moved, walk-Keeps, walk-Moved}

Keeps-append :
    (keys : Keys) (rs rs' ss ss' : List Row)
    → Keeps keys rs rs'
    → Keeps keys ss ss'
    → Keeps keys (rs ++ ss) (rs' ++ ss')
Keeps-append keys [] [] ss ss' k l = l
Keeps-append keys [] (r' ∷ rs') ss ss' k l = elim k [ ]
Keeps-append keys (r ∷ rs) [] ss ss' k l = elim k [ ]
Keeps-append keys (r ∷ rs) (r' ∷ rs') ss ss' k l = (k.0, Keeps-append keys rs rs' ss ss' k.1 l)

Moved-append :
    (keys : Keys) (rs rs' ss ss' : List Row)
    → Moved keys rs rs'
    → Moved keys ss ss'
    → Moved keys (rs ++ ss) (rs' ++ ss')
Moved-append keys [] [] ss ss' k l = l
Moved-append keys [] (r' ∷ rs') ss ss' k l = elim k [ ]
Moved-append keys (r ∷ rs) [] ss ss' k l = elim k [ ]
Moved-append keys (r ∷ rs) (r' ∷ rs') ss ss' k l = (k.0, Moved-append keys rs rs' ss ss' k.1 l)

length-append_rest : (page rest : List Row) → length rest ≤ length (page ++ rest)
length-append_rest [] rest = omega arith
length-append_rest (r ∷ page) rest = omega (arith, length-append_rest page rest)

module _ (ro : Rotation) (up : ℕ → Bool) where
  -- No read of a page is broken off.
  abbrev pub Unbroken : Type 0
  Unbroken = (cursor n : ℕ) → ro.reads cursor ≢ broken_off n

  -- What the pages leave of the rows `todo` behind those that are done.
  record Ended (done todo : List Row) (o : Option Progress) : Type 0 where
    pub end : Progress
    pub is : o ≡ some end
    pub rows : List Row
    pub table : end.0 ≡ done ++ rows
    pub keeps : Keeps ro.keys todo rows
    pub moves : Unbroken → ro.dry ≡ false → end.2 ≡ true → Moved ro.keys todo rows

  abbrev Onward : ℕ → Type 0
  Onward fuel =
      (cursor : ℕ) (done todo : List Row) (c : Counts)
      → Below cursor done
      → Ascending cursor todo
      → length todo < fuel
      → Ended done todo (rotate_pages ro up fuel cursor (done ++ todo) c)

  after_page :
      (fuel cursor : ℕ) (done page rest : List Row) (p : Progress)
      → Onward fuel
      → Below cursor done
      → Below cursor p.0
      → Ascending cursor rest
      → length rest < fuel
      → Keeps ro.keys page p.0
      → (ro.dry ≡ false → p.2 ≡ true → Moved ro.keys page p.0)
      → Ended done (page ++ rest) (next_page (between done rest p) (rotate_pages ro up fuel cursor))
  after_page fuel cursor done page rest (t, c, true) later b bt a h k m =
      let e = later cursor (done ++ t) rest c (Below-append cursor done t b bt) a h in
      record {
        end = e.end;
        is =
            ap (λ (l : List Row). rotate_pages ro up fuel cursor l c)
              (sym (append_assoc done t rest))
            ∙ e.is;
        rows = t ++ e.rows;
        table = e.table ∙ append_assoc done t e.rows;
        keeps = Keeps-append ro.keys page t rest e.rows k e.keeps;
        moves = λ unbroken d alive.
            Moved-append ro.keys page t rest e.rows (m d refl) (e.moves unbroken d alive);
      }
  after_page fuel cursor done page rest (t, c, false) later b bt a h k m = record {
    end = (done ++ (t ++ rest), c, false);
    is = refl;
    rows = t ++ rest;
    table = refl;
    keeps = Keeps-append ro.keys page t rest rest k (Keeps-self ro.keys rest);
    moves = λ unbroken d alive. absurd (cc alive);
  }

  -- The rows that come, whether they are all of the page or not.
  one_page :
      (fuel cursor : ℕ) (done page rest : List Row) (c : Counts)
      → Onward fuel
      → Below cursor done
      → Ascending cursor (page ++ rest)
      → length (page ++ rest) < suc fuel
      → (Unbroken → page ≡ [] → rest ≡ [])
      → Ended done
          (page ++ rest)
          (on_page ro up (rotate_pages ro up fuel) cursor page (done ++ (page ++ rest)) c)
  unfolding on_page
  one_page fuel cursor done [] rest c later b a h full = record {
    end = (done ++ rest, c, true);
    is = refl;
    rows = rest;
    table = refl;
    keeps = Keeps-self ro.keys rest;
    moves = λ unbroken d alive.
        subst (λ (l : List Row). Moved ro.keys l l) (sym (full unbroken refl)) tt;
  }
  one_page fuel cursor done (r ∷ page) rest c later b a h full =
      let (le, bp, ar) = last_seq-Ascending cursor (r ∷ page) rest a in
      let last = last_seq cursor (r ∷ page) in
      subst
        (λ (p : Progress).
          Ended done (r ∷ page ++ rest) (next_page p (rotate_pages ro up fuel last)))
        (sym (rotate_batch-walk ro up cursor (r ∷ page) done rest c b a))
        (after_page fuel last done (r ∷ page) rest (walk ro up (r ∷ page) c) later
          (Below-weaken cursor last done le b) (walk-Below ro up last (r ∷ page) c bp) ar
          (omega (arith, h, length-append_rest page rest)) (walk-Keeps ro up (r ∷ page) c)
          (walk-Moved ro up (r ∷ page) c))

  prefix_page :
      (fuel cursor : ℕ) (done page rest todo : List Row) (c : Counts)
      → todo ≡ page ++ rest
      → Onward fuel
      → Below cursor done
      → Ascending cursor todo
      → length todo < suc fuel
      → (Unbroken → page ≡ [] → rest ≡ [])
      → Ended done todo (on_page ro up (rotate_pages ro up fuel) cursor page (done ++ todo) c)
  prefix_page fuel cursor done page rest todo c parts later b a h full =
      subst
        (λ (l : List Row).
          Ended done l (on_page ro up (rotate_pages ro up fuel) cursor page (done ++ l) c))
        (sym parts)
        (one_page fuel cursor done page rest c later b (subst (Ascending cursor) parts a)
          (subst (λ (l : List Row). length l < suc fuel) parts h) full)

  pages-Ended : (fuel : ℕ) → Onward fuel
  unfolding rotate_pages on_read
  pages-Ended zero cursor done todo c b a h = absurd (omega arith)
  pages-Ended (suc fuel) cursor done todo c b a h =
      subst
        (λ (l : List Row). Ended done todo (
          on_read ro up (rotate_pages ro up fuel) cursor (ro.reads cursor)
            (take rotate_batch_size l) (done ++ todo) c))
        (sym (above-cursor cursor done todo b a))
        (by_read (ro.reads cursor) refl (pages-Ended fuel))
    where
      empty :
          (rows : List Row) → take rotate_batch_size rows ≡ [] → drop rotate_batch_size rows ≡ []
      empty [] e = refl
      empty (r ∷ rs) e = absurd (cc e)

      by_read :
          (x : PageRead)
          → ro.reads cursor ≡ x
          → Onward fuel
          → Ended done todo (
              on_read ro up
                (rotate_pages ro up fuel)
                cursor
                x
                (take rotate_batch_size todo)
                (done ++ todo)
                c)
      by_read unreadable e later = record {
        end = (done ++ todo, c, false);
        is = refl;
        rows = todo;
        table = refl;
        keeps = Keeps-self ro.keys todo;
        moves = λ unbroken d alive. absurd (cc alive);
      }
      by_read whole e later =
          prefix_page fuel cursor done (take rotate_batch_size todo) (drop rotate_batch_size todo)
            todo c (take-append-drop rotate_batch_size todo) later b a h (λ unbroken. empty todo)
      by_read (broken_off n) e later =
          let page = take rotate_batch_size todo in
          prefix_page fuel cursor done (take n page) (drop n page ++ drop rotate_batch_size todo)
            todo c
            (take-append-drop rotate_batch_size todo
              ∙ ap (λ (l : List Row). l ++ drop rotate_batch_size todo) (take-append-drop n page)
              ∙ append_assoc (take n page) (drop n page) (drop rotate_batch_size todo))
            later b a h (λ unbroken. absurd (unbroken cursor n e))

  -- Whatever reads and updates fail or break off, the loop over pages ends, every text that could be
  -- read can still be read with one of the two keys, and, where no read is broken off and the pass
  -- gets to its end, with the new key: the table in the strict order of its positive seqs, and more
  -- fuel than rows.
  pub rotate_pages-Keeps :
      (fuel : ℕ) (t : List Row) (c : Counts)
      → Ascending 0 t
      → length t < fuel
      → (p : Progress) × (rotate_pages ro up fuel 0 t c ≡ some p)
        × Keeps ro.keys t p.0
        × (Unbroken → ro.dry ≡ false → p.2 ≡ true → Moved ro.keys t p.0)
  rotate_pages-Keeps fuel t c a h =
      let e = pages-Ended fuel 0 [] t c tt a h in
      (
        e.end,
        e.is,
        subst (Keeps ro.keys t) (sym e.table) e.keeps,
        λ unbroken d alive. subst (Moved ro.keys t) (sym e.table) (e.moves unbroken d alive),
      )
