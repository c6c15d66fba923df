-- ===== src/Messages/History/Union.antt =====
-- The UNION of limited branches in `historyHandler` (server/history.go), against the one condition
-- that it replaces.
use mathlib.Core.Path.{ap₂}
use hexeris_beta.Base.{
  ℕ, zero, suc, ◌-◌, ◌≤◌, ◌<◌, ◌≡◌, refl, ap, ◌∙◌, String, Bool, true, false, List, [], ◌∷◌, take,
  ltb, ◌=s=◌, ◌&&◌, ◌||◌, if◌then◌else◌, arith,
}
use hexeris_beta.Messages.Table.{Row, Table, Ascending, select, first, one_of, has_seq}
use hexeris_beta.Messages.Table.Order.{Ascending-select}
use hexeris_beta.Messages.History.{Branch, in_union, branches, all_conversations}

-- A row that meets the condition of a branch.
unfoldable pub meets : List Branch → Row → Bool
meets [] r = false
meets (b ∷ bs) r = b.1 r || meets bs r

-- No branch is cut off before the whole.
abbrev Covers : ℕ → List Branch → Type 0
Covers n [] = Unit {0}
Covers n (b ∷ bs) = (n ≤ b.0) × Covers n bs

-- The branches behind a row: those that have taken it may take one fewer.
abbrev behind : Row → List Branch → List Branch
behind r [] = []
behind r (b ∷ bs) = (if b.1 r then b.0 - 1 else b.0, b.1) ∷ behind r bs

or_true : (b : Bool) → (b || true) ≡ true
or_true true = refl
or_true false = refl

has_seq-above : (n from : ℕ) (t : Table) → n ≤ from → Ascending from t → has_seq n t ≡ false
unfolding has_seq
has_seq-above n from [] h a = refl
has_seq-above n from (r ∷ rs) h a =
    ground (arith, a.0, has_seq-above n r.seq rs (omega (arith, a.0)) a.1)

Ascending-take : (n from : ℕ) (t : Table) → Ascending from t → Ascending from (take n t)
Ascending-take zero from t a = tt
Ascending-take (suc n) from [] a = tt
Ascending-take (suc n) from (r ∷ rs) a = (a.0, Ascending-take n r.seq rs a.1)

select_same :
    (p q : Row → Bool) (from : ℕ) (t : Table)
    → Ascending from t
    → ((r : Row) → from < r.seq → p r ≡ q r)
    → select p t ≡ select q t
unfolding select
select_same p q from [] a h = refl
select_same p q from (r ∷ rs) a h =
    rw (h r a.0, select_same p q r.seq rs a.1 (λ x above. h x (omega (arith, a.0, above)))) refl

has_seq-take_first :
    (n : ℕ) (c : Bool) (r : Row) (rest : Table) (m : ℕ)
    → r.seq < m
    → has_seq m (take n (if c then r ∷ rest else rest))
      ≡ has_seq m (take (if c then n - 1 else n) rest)
unfolding has_seq
has_seq-take_first zero true r rest m h = refl
has_seq-take_first (suc n) true r rest m h = ground (arith, h)
has_seq-take_first n false r rest m h = refl

-- A branch over a row and the rest, seen by a later row.
first-behind :
    (b : Branch) (r : Row) (rs : Table) (m : ℕ)
    → r.seq < m
    → has_seq m (first b.0 b.1 (r ∷ rs)) ≡ has_seq m (first (if b.1 r then b.0 - 1 else b.0) b.1 rs)
unfolding first select
first-behind b r rs m h = has_seq-take_first b.0 (b.1 r) r (select b.1 rs) m h

in_union-behind :
    (bs : List Branch) (r : Row) (rs : Table) (m : ℕ)
    → r.seq < m
    → in_union bs (r ∷ rs) m ≡ in_union (behind r bs) rs m
unfolding in_union
in_union-behind [] r rs m h = refl
in_union-behind (b ∷ bs) r rs m h = ap₂ ◌||◌ (first-behind b r rs m h) (in_union-behind bs r rs m h)

has_seq-first_taken :
    (n : ℕ) (r : Row) (rest : Table) → 1 ≤ n → has_seq r.seq (take n (r ∷ rest)) ≡ true
unfolding has_seq
has_seq-first_taken zero r rest h = absurd (omega arith)
has_seq-first_taken (suc n) r rest h = ground arith

in_union-taken :
    (n : ℕ) (bs : List Branch) (r : Row) (rs : Table)
    → Covers (suc n) bs
    → meets bs r ≡ true
    → in_union bs (r ∷ rs) r.seq ≡ true
unfolding in_union meets first select
in_union-taken n [] r rs c h = absurd (cc h)
in_union-taken n (b ∷ bs) r rs c h = by_test (b.1 r) h (λ e. in_union-taken n bs r rs c.1 e)
  where
    later : Bool
    later = in_union bs (r ∷ rs) r.seq

    by_test :
        (t : Bool)
        → (t || meets bs r) ≡ true
        → (meets bs r ≡ true → later ≡ true)
        → (has_seq r.seq (take b.0 (if t then r ∷ select b.1 rs else select b.1 rs)) || later)
          ≡ true
    by_test true e rest =
        ap (λ (x : Bool). x || later)
          (has_seq-first_taken b.0 r (select b.1 rs) (omega (arith, c.0)))
    by_test false e rest =
        ap (λ (x : Bool). has_seq r.seq (take b.0 (select b.1 rs)) || x) (rest e)
        ∙ or_true (has_seq r.seq (take b.0 (select b.1 rs)))

in_union-passed :
    (bs : List Branch) (r : Row) (rs : Table)
    → Ascending r.seq rs
    → meets bs r ≡ false
    → in_union bs (r ∷ rs) r.seq ≡ false
unfolding in_union meets first select
in_union-passed [] r rs a h = refl
in_union-passed (b ∷ bs) r rs a h = by_test (b.1 r) h (λ e. in_union-passed bs r rs a e)
  where
    by_test :
        (t : Bool)
        → (t || meets bs r) ≡ false
        → (meets bs r ≡ false → in_union bs (r ∷ rs) r.seq ≡ false)
        → (has_seq r.seq (take b.0 (if t then r ∷ select b.1 rs else select b.1 rs))
            || in_union bs (r ∷ rs) r.seq)
          ≡ false
    by_test true e rest = absurd (cc e)
    by_test false e rest =
        ap₂ ◌||◌
          (has_seq-above r.seq r.seq (take b.0 (select b.1 rs)) (omega arith)
            (Ascending-take b.0 r.seq (select b.1 rs) (Ascending-select b.1 r.seq rs a)))
          (rest e)

meets-behind : (bs : List Branch) (r x : Row) → meets (behind r bs) x ≡ meets bs x
unfolding meets
meets-behind [] r x = refl
meets-behind (b ∷ bs) r x = ap (λ (t : Bool). b.1 x || t) (meets-behind bs r x)

behind_same : (bs : List Branch) (r : Row) → meets bs r ≡ false → behind r bs ≡ bs
unfolding meets
behind_same [] r h = refl
behind_same (b ∷ bs) r h =
    let no : b.1 r ≡ false = ground (arith, h) in
    rw no (ap (◌∷◌ b) (behind_same bs r (ground (arith, h))))

Covers-behind : (n : ℕ) (bs : List Branch) (r : Row) → Covers (suc n) bs → Covers n (behind r bs)
Covers-behind n [] r c = tt
Covers-behind n (b ∷ bs) r c = (by_test (b.1 r), Covers-behind n bs r c.1)
  where
    by_test : (t : Bool) → n ≤ (if t then b.0 - 1 else b.0)
    by_test true = omega (arith, c.0)
    by_test false = omega (arith, c.0)

-- The rows of the union are the rows that meet one of the conditions.
pub first-in_union :
    (n : ℕ) (bs : List Branch) (from : ℕ) (t : Table)
    → Ascending from t
    → Covers n bs
    → first n (λ r. in_union bs t r.seq) t ≡ first n (meets bs) t
unfolding first select
first-in_union n bs from [] a c = refl
first-in_union zero bs from (r ∷ rs) a c = refl
first-in_union (suc n) bs from (r ∷ rs) a c =
    by_test (meets bs r) refl (first-in_union n (behind r bs) r.seq rs a.1 (Covers-behind n bs r c))
      (first-in_union (suc n) bs r.seq rs a.1 c)
  where
    later : List Branch → Table
    later cs = select (λ x. in_union cs rs x.seq) rs

    tail : select (λ x. in_union bs (r ∷ rs) x.seq) rs ≡ later (behind r bs)
    tail = select_same _ _ r.seq rs a.1 (λ x above. in_union-behind bs r rs x.seq above)

    with_head : Bool → Table
    with_head b =
        let rest = select (λ x. in_union bs (r ∷ rs) x.seq) rs in
        take (suc n) (if b then r ∷ rest else rest)

    by_test :
        (b : Bool)
        → meets bs r ≡ b
        → first n (λ x. in_union (behind r bs) rs x.seq) rs ≡ first n (meets (behind r bs)) rs
        → first (suc n) (λ x. in_union bs rs x.seq) rs ≡ first (suc n) (meets bs) rs
        → first (suc n) (λ x. in_union bs (r ∷ rs) x.seq) (r ∷ rs)
          ≡ take (suc n) (if b then r ∷ select (meets bs) rs else select (meets bs) rs)
    by_test true e fewer same =
        ap with_head (in_union-taken n bs r rs c e)
        ∙ ap (λ (l : Table). r ∷ take n l) tail
        ∙ ap (◌∷◌ r) fewer
        ∙ ap (λ (l : Table). r ∷ take n l)
            (select_same _ _ r.seq rs a.1 (λ x above. meets-behind bs r x))
    by_test false e fewer same =
        ap with_head (in_union-passed bs r rs a.1 e)
        ∙ ap (take (suc n)) tail
        ∙ ap (λ (cs : List Branch). take (suc n) (later cs)) (behind_same bs r e)
        ∙ same

-- The condition that the branches stand for.
unfoldable pub concerns : String → ℕ → List String → Row → Bool
unfolding one_of
concerns me since groups r =
    (r.sender =s= me || r.recipient =s= me || one_of r.recipient groups) && ltb since r.seq

meets-branches :
    (me : String) (since n : ℕ) (groups : List String) (r : Row)
    → meets (branches me since n groups) r ≡ concerns me since groups r
unfolding meets branches concerns one_of
meets-branches me since n [] r = ground arith
meets-branches me since n (g ∷ gs) r = ground arith

-- The page of all conversations, that the UNION of two or three limited branches finds by seq, is
-- the page of the one condition: the first rows above the cursor that the user sent, received, or
-- whose recipient is one of the user's groups. The table stands in the strict order of its positive
-- seqs.
pub all_conversations_lem :
    (me : String) (since n : ℕ) (groups : List String) (t : Table)
    → Ascending 0 t
    → all_conversations me since n groups t ≡ first n (concerns me since groups) t
unfolding all_conversations first
all_conversations_lem me since n groups t a =
    first-in_union n (branches me since n groups) 0 t a (covers groups)
    ∙ ap (take n) (select_same _ _ 0 t a (λ r above. meets-branches me since n groups r))
  where
    covers : (gs : List String) → Covers n (branches me since n gs)
    covers [] = (omega arith, (omega arith, tt))
    covers (g ∷ gs) = (omega arith, (omega arith, (omega arith, tt)))
