-- ===== src/Rotation/Rows/Paging.antt =====
-- The pages of `rotateMessages` (server/rotatekey.go) visit every row once, in order.
use mathlib.Core.List.{append_assoc}
use hexeris_beta.Base.{
  ℕ, zero, suc, ◌≤◌, ◌<◌, ◌≡◌, refl, sym, ap, ◌∙◌, subst, some, Bool, true, false, List, [], ◌∷◌,
  ◌++◌, arith, take, drop, length, length-drop,
}
use hexeris_beta.Rotation.Rows.{
  Rotation, Row, Counts, Progress, next_page, rotate_batch, above, last_seq, on_page, on_read,
  rotate_pages, whole, rotate_batch_size,
}
use hexeris_beta.Rotation.Rows.Walk.{
  Ascending, Below, Below-weaken, between, carry, walk, rotate_batch-walk, walk-append, walk-Below,
}

Ascending-weaken : (m n : ℕ) (rs : List Row) → m ≤ n → Ascending n rs → Ascending m rs
Ascending-weaken m n [] h a = tt
Ascending-weaken m n (r ∷ rs) h a = (omega (arith, a.0), a.1)

above-Ascending : (n : ℕ) (rs : List Row) → Ascending n rs → above n rs ≡ rs
unfolding above
above-Ascending n [] a = refl
above-Ascending n (r ∷ rs) a =
    ground (arith, above-Ascending n rs (Ascending-weaken n r.seq rs (omega (arith, a.0)) a.1), a.0)

above-done : (n : ℕ) (done rs : List Row) → Below n done → above n (done ++ rs) ≡ above n rs
unfolding above
above-done n [] rs b = refl
above-done n (d ∷ done) rs b = ground (arith, above-done n done rs b.1, b.0)

pub take-append-drop : (n : ℕ) (rs : List Row) → rs ≡ take n rs ++ drop n rs
take-append-drop zero rs = refl
take-append-drop (suc n) [] = refl
take-append-drop (suc n) (r ∷ rs) = ap (◌∷◌ r) (take-append-drop n rs)

-- The last seq of a page bounds the page and starts the rest.
pub last_seq-Ascending :
    (n : ℕ) (page rest : List Row)
    → Ascending n (page ++ rest)
    → (n ≤ last_seq n page) × Below (last_seq n page) page × Ascending (last_seq n page) rest
unfolding last_seq
last_seq-Ascending n [] rest a = (omega arith, tt, a)
last_seq-Ascending n (r ∷ page) rest a =
    let ih = last_seq-Ascending r.seq page rest a.1 in
    (omega (arith, a.0, ih.0), (ih.0, ih.1), ih.2)

pub Below-append : (n : ℕ) (xs ys : List Row) → Below n xs → Below n ys → Below n (xs ++ ys)
Below-append n [] ys hx hy = hy
Below-append n (x ∷ xs) ys hx hy = (hx.0, Below-append n xs ys hx.1 hy)

-- The rows that are done, in front of the progress with the others.
abbrev behind : List Row → Progress → Progress
behind done (t, c, alive) = (done ++ t, c, alive)

pub above-cursor :
    (cursor : ℕ) (done todo : List Row)
    → Below cursor done
    → Ascending cursor todo
    → above cursor (done ++ todo) ≡ todo
above-cursor cursor done todo b a = above-done cursor done todo b ∙ above-Ascending cursor todo a

length-drop_page : (r : Row) (rs : List Row) → length (drop rotate_batch_size (r ∷ rs)) ≤ length rs
length-drop_page r rs = omega (arith, length-drop rotate_batch_size (r ∷ rs))

module _ (ro : Rotation) (up : ℕ → Bool) (every : (cursor : ℕ) → ro.reads cursor ≡ whole) where
  -- The loop from a cursor on, over the rows that are not done yet.
  Onward : ℕ → Type 0
  Onward fuel =
      (cursor : ℕ) (done todo : List Row) (c : Counts)
      → Below cursor done
      → Ascending cursor todo
      → length todo < fuel
      → rotate_pages ro up fuel cursor (done ++ todo) c ≡ some (behind done (walk ro up todo c))

  after_page :
      (fuel cursor : ℕ) (done rest : List Row) (p : Progress)
      → Onward fuel
      → Below cursor done
      → Below cursor p.0
      → Ascending cursor rest
      → length rest < fuel
      → next_page (between done rest p) (rotate_pages ro up fuel cursor)
        ≡ some (behind done (carry ro up p rest))
  unfolding Onward
  after_page fuel cursor done rest (t, c, true) later b bt a h =
      ap (λ (l : List Row). rotate_pages ro up fuel cursor l c) (sym (append_assoc done t rest))
      ∙ later cursor (done ++ t) rest c (Below-append cursor done t b bt) a h
      ∙ ap (λ (l : List Row). some (l, (walk ro up rest c).1, (walk ro up rest c).2))
          (append_assoc done t (walk ro up rest c).0)
  after_page fuel cursor done rest (t, c, false) later b bt a h = refl

  one_page :
      (fuel cursor : ℕ) (page rest done : List Row) (c : Counts)
      → Onward fuel
      → Below cursor done
      → Ascending cursor (page ++ rest)
      → length rest < fuel
      → next_page
          (rotate_batch ro up page (done ++ (page ++ rest)) c)
          (rotate_pages ro up fuel (last_seq cursor page))
        ≡ some (behind done (walk ro up (page ++ rest) c))
  one_page fuel cursor page rest done c later b a h =
      let (le, bp, ar) = last_seq-Ascending cursor page rest a in
      ap (λ (p : Progress). next_page p (rotate_pages ro up fuel (last_seq cursor page)))
        (rotate_batch-walk ro up cursor page done rest c b a)
      ∙ after_page fuel (last_seq cursor page) done rest (walk ro up page c) later
          (Below-weaken cursor (last_seq cursor page) done le b)
          (walk-Below ro up (last_seq cursor page) page c bp) ar h
      ∙ ap (λ (p : Progress). some (behind done p)) (sym (walk-append ro up page rest c))

  read_whole :
      (fuel cursor : ℕ) (t : List Row) (c : Counts)
      → rotate_pages ro up (suc fuel) cursor t c
        ≡ on_page ro up
            (rotate_pages ro up fuel)
            cursor
            (take rotate_batch_size (above cursor t))
            t
            c
  unfolding rotate_pages on_read
  read_whole fuel cursor t c = rw (every cursor) refl

  rotate_pages-walk : (fuel : ℕ) → Onward fuel
  unfolding rotate_pages Onward walk
  rotate_pages-walk zero cursor done todo c b a h = absurd (omega arith)
  rotate_pages-walk (suc fuel) cursor done [] c b a h =
      read_whole fuel cursor (done ++ []) c
      ∙ ap
          (λ (l : List Row).
            on_page ro up (rotate_pages ro up fuel) cursor (take rotate_batch_size l) (done ++ [])
              c)
          (above-cursor cursor done [] b a)
  rotate_pages-walk (suc fuel) cursor done (r ∷ rs) c b a h =
      read_whole fuel cursor (done ++ r ∷ rs) c
      ∙ ap
          (λ (l : List Row).
            on_page ro up (rotate_pages ro up fuel) cursor (take rotate_batch_size l)
              (done ++ r ∷ rs) c)
          (above-cursor cursor done (r ∷ rs) b a)
      ∙ (let page = take rotate_batch_size (r ∷ rs) in
          subst
            (λ (l : List Row).
              next_page (rotate_batch ro up page (done ++ l) c)
                (rotate_pages ro up fuel (last_seq cursor page))
              ≡ some (behind done (walk ro up l c)))
            (sym (take-append-drop rotate_batch_size (r ∷ rs)))
            (one_page fuel cursor page (drop rotate_batch_size (r ∷ rs)) done c
              (rotate_pages-walk fuel) b
              (subst (Ascending cursor) (take-append-drop rotate_batch_size (r ∷ rs)) a)
              (omega (arith, length-drop_page r rs))))

  -- Where every page is read whole, whatever updates fail, the loop over pages does to the table and to the counters what one pass
  -- over all the rows does, and it ends: the table in the strict order of its positive seqs, and
  -- more fuel than rows.
  pub rotate_pages_lem :
      (fuel : ℕ) (t : List Row) (c : Counts)
      → Ascending 0 t
      → length t < fuel
      → rotate_pages ro up fuel 0 t c ≡ some (walk ro up t c)
  unfolding Onward
  rotate_pages_lem fuel t c a h = rotate_pages-walk fuel 0 [] t c tt a h
