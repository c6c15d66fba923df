-- ===== src/Messages/Table/Order.antt =====
-- The order of the rows of a page (server/history.go, server/attachments.go).
use hexeris_beta.Base.{
  ℕ, zero, suc, ◌≤◌, ◌<◌, ◌≡◌, refl, ap, ◌∙◌, Bool, true, false, [], ◌∷◌, ◌++◌, take, drop, length,
  ltb, ◌&&◌, if◌then◌else◌, arith,
}
use hexeris_beta.Messages.Table.{
  Row, Table, Ascending, select, descending, Every, Every-map, Every-descending,
}

Ascending-weaken : (m n : ℕ) (t : Table) → m ≤ n → Ascending n t → Ascending m t
Ascending-weaken m n [] h a = tt
Ascending-weaken m n (r ∷ rs) h a = (omega (arith, a.0), a.1)

pub Ascending-select :
    (p : Row → Bool) (from : ℕ) (t : Table) → Ascending from t → Ascending from (select p t)
unfolding select
Ascending-select p from [] a = tt
Ascending-select p from (r ∷ rs) a = by_test (p r) (Ascending-select p r.seq rs a.1)
  where
    by_test :
        (b : Bool)
        → Ascending r.seq (select p rs)
        → Ascending from (if b then r ∷ select p rs else select p rs)
    by_test true later = (a.0, later)
    by_test false later = Ascending-weaken from r.seq (select p rs) (omega (arith, a.0)) later

-- Rows in the strict descending order of their positive seqs.
abbrev pub Below : ℕ → Table → Type 0
Below b [] = Unit {0}
Below b (r ∷ rs) = (r.seq < b) × (0 < r.seq) × Below r.seq rs

pub select-ext : (p q : Row → Bool) (t : Table) → ((r : Row) → p r ≡ q r) → select p t ≡ select q t
unfolding select
select-ext p q [] h = refl
select-ext p q (r ∷ rs) h = rw (h r, select-ext p q rs h) refl

select-append : (p : Row → Bool) (t u : Table) → select p (t ++ u) ≡ select p t ++ select p u
unfolding select
select-append p [] u = refl
select-append p (r ∷ rs) u = by_test (p r) (select-append p rs u)
  where
    by_test :
        (b : Bool)
        → select p (rs ++ u) ≡ select p rs ++ select p u
        → (if b then r ∷ select p (rs ++ u) else select p (rs ++ u))
          ≡ (if b then r ∷ select p rs else select p rs) ++ select p u
    by_test true e = ap (◌∷◌ r) e
    by_test false e = e

pub select-select :
    (p q : Row → Bool) (t : Table) → select q (select p t) ≡ select (λ r. p r && q r) t
unfolding select
select-select p q [] = refl
select-select p q (r ∷ rs) = by_test (p r) (q r) refl (select-select p q rs)
  where
    by_test :
        (b c : Bool)
        → q r ≡ c
        → select q (select p rs) ≡ select (λ x. p x && q x) rs
        → select q (if b then r ∷ select p rs else select p rs)
          ≡ (if b && c then r ∷ select (λ x. p x && q x) rs else select (λ x. p x && q x) rs)
    by_test true true e h = rw e (ap (◌∷◌ r) h)
    by_test true false e h = rw e h
    by_test false c e h = h

append_nil : (t : Table) → t ++ [] ≡ t
append_nil [] = refl
append_nil (r ∷ rs) = ap (◌∷◌ r) (append_nil rs)

pub select-descending :
    (p : Row → Bool) (t : Table) → select p (descending t) ≡ descending (select p t)
unfolding select descending
select-descending p [] = refl
select-descending p (r ∷ rs) =
    select-append p (descending rs) (r ∷ []) ∙ by_test (p r) (select-descending p rs)
  where
    by_test :
        (b : Bool)
        → select p (descending rs) ≡ descending (select p rs)
        → select p (descending rs) ++ (if b then r ∷ [] else [])
          ≡ descending (if b then r ∷ select p rs else select p rs)
    by_test true e = ap (λ (l : Table). l ++ r ∷ []) e
    by_test false e = append_nil (select p (descending rs)) ∙ e

Below-snoc :
    (b : ℕ) (t : Table) (r : Row)
    → Below b t
    → Every (λ x. r.seq < x.seq) t
    → 0 < r.seq
    → r.seq < b
    → Below b (t ++ r ∷ [])
Below-snoc b [] r h above pos low = (low, pos, tt)
Below-snoc b (x ∷ xs) r h above pos low = (h.0, h.1, Below-snoc x.seq xs r h.2 above.1 pos above.0)

Ascending-above : (n : ℕ) (t : Table) → Ascending n t → Every (λ x. n < x.seq) t
Ascending-above n [] a = tt
Ascending-above n (r ∷ rs) a =
    (a.0, Every-map _ _ rs (λ x h. omega (arith, h, a.0)) (Ascending-above r.seq rs a.1))

pub Below-descending :
    (b n : ℕ) (t : Table) → Ascending n t → Every (λ x. x.seq < b) t → Below b (descending t)
unfolding descending
Below-descending b n [] a low = tt
Below-descending b n (r ∷ rs) a low =
    Below-snoc b (descending rs) r (Below-descending b r.seq rs a.1 low.1)
      (Every-descending _ rs (Ascending-above r.seq rs a.1)) (omega (arith, a.0)) low.0

pub select-all : (b x : ℕ) (t : Table) → Below b t → b ≤ x → select (λ r. ltb r.seq x) t ≡ t
unfolding select
select-all b x [] h le = refl
select-all b x (r ∷ rs) h le =
    let in_it : ltb r.seq x ≡ true = ground (arith, h.0, le) in
    rw in_it (ap (◌∷◌ r) (select-all r.seq x rs h.2 (omega (arith, h.0, le))))

pub take-drop : (n : ℕ) (t : Table) → take n t ++ drop n t ≡ t
take-drop zero t = refl
take-drop (suc n) [] = refl
take-drop (suc n) (r ∷ rs) = ap (◌∷◌ r) (take-drop n rs)

pub take_all : (n : ℕ) (t : Table) → length t ≤ n → take n t ≡ t
take_all zero [] h = refl
take_all zero (r ∷ rs) h = absurd (omega (arith, h))
take_all (suc n) [] h = refl
take_all (suc n) (r ∷ rs) h = ap (◌∷◌ r) (take_all n rs (omega (arith, h)))

pub length-take_full : (n : ℕ) (t : Table) → n ≤ length t → length (take n t) ≡ n
length-take_full zero t h = refl
length-take_full (suc n) [] h = absurd (omega (arith, h))
length-take_full (suc n) (r ∷ rs) h = omega (arith, length-take_full n rs (omega (arith, h)))
