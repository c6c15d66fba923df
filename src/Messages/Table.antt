-- ===== src/Messages/Table.antt =====
-- The table of messages as the queries of server/history.go, server/search.go and
-- server/attachments.go see it: its rows stand in the order of seq.
pub mod Order
use hexeris_beta.Base.{
  ℕ, zero, suc, ◌<◌, ◌≡◌, refl, String, Bool, true, false, List, [], ◌∷◌, ◌++◌, take, ◌==◌, ◌=s=◌,
  ◌&&◌, ◌||◌, if◌then◌else◌,
}

pub record Row : Type 0 where
  pub seq : ℕ
  pub id : String
  pub sender : String
  pub recipient : String
  pub body : String
  pub media_type : String
  pub reply_to : String
  pub forwarded : Bool
  pub delivered : Bool
  pub read : Bool
  pub deleted : Bool
  pub edited : Bool
  pub created_at : ℕ

abbrev pub Table : Type 0
Table = List Row

-- seq is the primary key, and positive.
abbrev pub Ascending : ℕ → Table → Type 0
Ascending from [] = Unit {0}
Ascending from (r ∷ rs) = (from < r.seq) × Ascending r.seq rs

-- `WHERE`
unfoldable pub select : (Row → Bool) → Table → Table
select p [] = []
select p (r ∷ rs) = let rest = select p rs in if p r then r ∷ rest else rest

-- `ORDER BY seq DESC`
unfoldable pub descending : Table → Table
descending [] = []
descending (r ∷ rs) = descending rs ++ r ∷ []

-- `WHERE … ORDER BY seq ASC LIMIT n`
unfoldable pub first : ℕ → (Row → Bool) → Table → Table
unfolding select
first n p t = take n (select p t)

-- `WHERE … ORDER BY seq DESC LIMIT n`
unfoldable pub last : ℕ → (Row → Bool) → Table → Table
unfolding select descending
last n p t = take n (descending (select p t))

unfoldable pub one_of : String → List String → Bool
one_of x [] = false
one_of x (y ∷ ys) = y =s= x || one_of x ys

unfoldable pub has_seq : ℕ → Table → Bool
has_seq n [] = false
has_seq n (r ∷ rs) = r.seq == n || has_seq n rs

-- The messages of a pair of users.
unfoldable pub between : String → String → Row → Bool
between a b r =
    ((r.sender =s= a) && (r.recipient =s= b)) || ((r.sender =s= b) && (r.recipient =s= a))

abbrev pub Every : (Row → Type 0) → Table → Type 0
Every P [] = Unit {0}
Every P (r ∷ rs) = P r × Every P rs

pub Every-select : (p : Row → Bool) (t : Table) → Every (λ r. p r ≡ true) (select p t)
unfolding select
Every-select p [] = tt
Every-select p (r ∷ rs) = by_test (p r) refl (Every-select p rs)
  where
    by_test :
        (b : Bool)
        → p r ≡ b
        → Every (λ x. p x ≡ true) (select p rs)
        → Every (λ x. p x ≡ true) (if b then r ∷ select p rs else select p rs)
    by_test true e later = (e, later)
    by_test false e later = later

pub Every-take : (P : Row → Type 0) (n : ℕ) (t : Table) → Every P t → Every P (take n t)
Every-take P zero t h = tt
Every-take P (suc n) [] h = tt
Every-take P (suc n) (r ∷ rs) h = (h.0, Every-take P n rs h.1)

Every-append : (P : Row → Type 0) (t u : Table) → Every P t → Every P u → Every P (t ++ u)
Every-append P [] u h k = k
Every-append P (r ∷ rs) u h k = (h.0, Every-append P rs u h.1 k)

pub Every-descending : (P : Row → Type 0) (t : Table) → Every P t → Every P (descending t)
unfolding descending
Every-descending P [] h = tt
Every-descending P (r ∷ rs) h =
    Every-append P (descending rs) (r ∷ []) (Every-descending P rs h.1) (h.0, tt)

pub Every-map : (P Q : Row → Type 0) (t : Table) → ((r : Row) → P r → Q r) → Every P t → Every Q t
Every-map P Q [] f h = tt
Every-map P Q (r ∷ rs) f h = (f r h.0, Every-map P Q rs f h.1)

pub Every-first : (p : Row → Bool) (n : ℕ) (t : Table) → Every (λ r. p r ≡ true) (first n p t)
unfolding first
Every-first p n t = Every-take (λ r. p r ≡ true) n (select p t) (Every-select p t)

pub Every-last : (p : Row → Bool) (n : ℕ) (t : Table) → Every (λ r. p r ≡ true) (last n p t)
unfolding last
Every-last p n t =
    Every-take (λ r. p r ≡ true) n (descending (select p t))
      (Every-descending (λ r. p r ≡ true) (select p t) (Every-select p t))
