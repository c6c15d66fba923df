-- ===== src/Rotation/Rows/Walk.antt =====
-- One pass over the rows of `rotateMessages` (server/rotatekey.go), and what a page of them leaves.
use mathlib.Core.List.{append_assoc}
use hexeris_beta.Base.{
  ℕ, ◌+◌, ◌≤◌, ◌<◌, ◌≡◌, refl, sym, ap, ◌∙◌, String, Bool, true, false, List, [], ◌∷◌, ◌++◌, arith,
  if◌then◌else◌,
}
use hexeris_beta.Rotation.Rows.{
  Rotation, Verdict, dies, would_rotate, renewed, judge, Row, Counts, Progress, go_on, set_body,
  apply, rotate_batch,
}

-- The rows stand in the strict order of their seq, which starts above `from`.
abbrev pub Ascending : ℕ → List Row → Type 0
Ascending from [] = Unit {0}
Ascending from (r ∷ rs) = (from < r.seq) × Ascending r.seq rs

abbrev pub Below : ℕ → List Row → Type 0
Below n [] = Unit {0}
Below n (r ∷ rs) = (r.seq ≤ n) × Below n rs

abbrev pub put_first : Row → Progress → Progress
put_first r (t, c, alive) = (r ∷ t, c, alive)

-- One row, with the rows behind it walked on in `later`.
abbrev pub walk_row :
    (ℕ → Bool) → Verdict → Row → List Row → Counts → (Counts → Progress) → Progress
walk_row up Verdict.already r rs c later =
    put_first r (later (record c { already = c.already + 1 }))
walk_row up Verdict.foreign r rs c later =
    put_first r (later (record c { foreign = c.foreign + 1 }))
walk_row up would_rotate r rs c later = put_first r (later (record c { rotated = c.rotated + 1 }))
walk_row up dies r rs c later = (r ∷ rs, c, false)
walk_row up (renewed enc) r rs c later =
    if up r.seq
    then put_first (record r { body = enc }) (later (record c { rotated = c.rotated + 1 }))
    else (r ∷ rs, c, false)

-- The rows in one pass, each looked at where it stands.
unfoldable pub walk : Rotation → (ℕ → Bool) → List Row → Counts → Progress
walk ro up [] c = ([], c, true)
walk ro up (r ∷ rs) c = walk_row up (judge ro r.seq r.body) r rs c (walk ro up rs)

pub Below-weaken : (m n : ℕ) (rs : List Row) → m ≤ n → Below m rs → Below n rs
Below-weaken m n [] h b = tt
Below-weaken m n (r ∷ rs) h b = (omega (arith, b.0), Below-weaken m n rs h b.1)

Below-snoc : (n : ℕ) (rs : List Row) (r : Row) → r.seq ≤ n → Below n rs → Below n (rs ++ r ∷ [])
Below-snoc n [] r h b = (h, tt)
Below-snoc n (x ∷ rs) r h b = (b.0, Below-snoc n rs r h b.1)

set_body-above :
    (seq from : ℕ) (body : String) (rs : List Row)
    → seq ≤ from
    → Ascending from rs
    → set_body seq body rs ≡ rs
unfolding set_body
set_body-above seq from body [] h a = refl
set_body-above seq from body (r ∷ rs) h a =
    ground (arith, set_body-above seq r.seq body rs (omega (arith, a.0)) a.1, a.0)

-- The row of a seq is the only one that an UPDATE changes.
set_body-middle :
    (n : ℕ) (body : String) (done rs : List Row) (r : Row)
    → Below n done
    → n < r.seq
    → Ascending r.seq rs
    → set_body r.seq body (done ++ r ∷ rs) ≡ done ++ record r { body = body } ∷ rs
unfolding set_body
set_body-middle n body [] rs r b h a =
    ground (arith, set_body-above r.seq r.seq body rs (omega arith) a)
set_body-middle n body (d ∷ done) rs r b h a =
    ground (arith, set_body-middle n body done rs r b.1 h a, b.0)

-- A part of the table, between the rows that are done and the rest.
abbrev pub between : List Row → List Row → Progress → Progress
between done rest (t, c, alive) = (done ++ (t ++ rest), c, alive)

between-snoc :
    (done rest : List Row) (r : Row) (p : Progress)
    → between (done ++ r ∷ []) rest p ≡ between done rest (put_first r p)
between-snoc done rest r (t, c, alive) =
    ap (λ (l : List Row). (l, c, alive)) (append_assoc done (r ∷ []) (t ++ rest))

module _ (ro : Rotation) (up : ℕ → Bool) where
  pub rotate_batch-walk :
      (n : ℕ) (page done rest : List Row) (c : Counts)
      → Below n done
      → Ascending n (page ++ rest)
      → rotate_batch ro up page (done ++ (page ++ rest)) c ≡ between done rest (walk ro up page c)
  unfolding rotate_batch walk apply
  rotate_batch-walk n [] done rest c b a = refl
  rotate_batch-walk n (r ∷ page) done rest c b a =
      by_verdict (λ done' c' b'. rotate_batch-walk r.seq page done' rest c' b' a.1)
        (judge ro r.seq r.body)
    where
      Later : Type 0
      Later =
          (done' : List Row) (c' : Counts)
          → Below r.seq done'
          → rotate_batch ro up page (done' ++ (page ++ rest)) c'
            ≡ between done' rest (walk ro up page c')

      -- The rows behind `r`, with `r'` where it stood.
      onwards :
          Later
          → (r' : Row) (c' : Counts) → r'.seq ≡ r.seq
          → rotate_batch ro up page (done ++ r' ∷ (page ++ rest)) c'
            ≡ between done rest (put_first r' (walk ro up page c'))
      onwards later r' c' e =
          ap (λ (t : List Row). rotate_batch ro up page t c')
            (sym (append_assoc done (r' ∷ []) (page ++ rest)))
          ∙ later (done ++ r' ∷ []) c' (
              Below-snoc r.seq done r' (omega arith)
                (Below-weaken n r.seq done (omega (arith, a.0)) b))
          ∙ between-snoc done rest r' (walk ro up page c')

      by_verdict :
          Later
          → (v : Verdict)
          → go_on (apply up r.seq v (done ++ r ∷ (page ++ rest)) c) (rotate_batch ro up page)
            ≡ between done rest (walk_row up v r page c (walk ro up page))
      by_verdict later Verdict.already = onwards later r _ refl
      by_verdict later Verdict.foreign = onwards later r _ refl
      by_verdict later would_rotate = onwards later r _ refl
      by_verdict later dies = refl
      by_verdict later (renewed enc) = by_update (up r.seq)
        where
          new : Counts
          new = record c { rotated = c.rotated + 1 }

          by_update :
              (ok : Bool)
              → go_on
                  (if ok
                    then (set_body r.seq enc (done ++ r ∷ (page ++ rest)), new, true)
                    else (done ++ r ∷ (page ++ rest), c, false))
                  (rotate_batch ro up page)
                ≡ between done rest (
                    if ok
                    then put_first (record r { body = enc }) (walk ro up page new)
                    else (r ∷ page, c, false))
          by_update false = refl
          by_update true =
              ap (λ (t : List Row). rotate_batch ro up page t new)
                (set_body-middle n enc done (page ++ rest) r b a.0 a.1)
              ∙ onwards later (record r { body = enc }) new refl

  -- What is left to do behind a part of the rows.
  abbrev pub carry : Progress → List Row → Progress
  carry (t, c, true) rest =
      (t ++ (walk ro up rest c).0, (walk ro up rest c).1, (walk ro up rest c).2)
  carry (t, c, false) rest = (t ++ rest, c, false)

  carry-put_first :
      (r : Row) (p : Progress) (rest : List Row)
      → carry (put_first r p) rest ≡ put_first r (carry p rest)
  carry-put_first r (t, c, true) rest = refl
  carry-put_first r (t, c, false) rest = refl

  pub walk-append : (p q : List Row) (c : Counts) → walk ro up (p ++ q) c ≡ carry (walk ro up p c) q
  unfolding walk
  walk-append [] q c = refl
  walk-append (r ∷ p) q c = by_verdict (λ c'. walk-append p q c') (judge ro r.seq r.body)
    where
      by_verdict :
          ((c' : Counts) → walk ro up (p ++ q) c' ≡ carry (walk ro up p c') q)
          → (v : Verdict)
          → walk_row up v r (p ++ q) c (walk ro up (p ++ q))
            ≡ carry (walk_row up v r p c (walk ro up p)) q
      by_verdict later Verdict.already =
          ap (put_first r) (later _) ∙ sym (carry-put_first r (walk ro up p _) q)
      by_verdict later Verdict.foreign =
          ap (put_first r) (later _) ∙ sym (carry-put_first r (walk ro up p _) q)
      by_verdict later would_rotate =
          ap (put_first r) (later _) ∙ sym (carry-put_first r (walk ro up p _) q)
      by_verdict later dies = refl
      by_verdict later (renewed enc) = by_update (up r.seq)
        where
          new : Counts
          new = record c { rotated = c.rotated + 1 }

          by_update :
              (ok : Bool)
              → (if ok
                  then put_first (record r { body = enc }) (walk ro up (p ++ q) new)
                  else (r ∷ (p ++ q), c, false))
                ≡ carry
                    (if ok
                      then put_first (record r { body = enc }) (walk ro up p new)
                      else (r ∷ p, c, false))
                    q
          by_update true =
              ap (put_first (record r { body = enc })) (later new)
              ∙ sym (carry-put_first (record r { body = enc }) (walk ro up p new) q)
          by_update false = refl

  -- A row keeps its seq.
  pub walk-Below : (n : ℕ) (rs : List Row) (c : Counts) → Below n rs → Below n (walk ro up rs c).0
  unfolding walk
  walk-Below n [] c b = tt
  walk-Below n (r ∷ rs) c b = by_verdict (λ c'. walk-Below n rs c' b.1) (judge ro r.seq r.body)
    where
      by_verdict :
          ((c' : Counts) → Below n (walk ro up rs c').0)
          → (v : Verdict) → Below n (walk_row up v r rs c (walk ro up rs)).0
      by_verdict later Verdict.already = (b.0, later _)
      by_verdict later Verdict.foreign = (b.0, later _)
      by_verdict later would_rotate = (b.0, later _)
      by_verdict later dies = b
      by_verdict later (renewed enc) = by_update (up r.seq)
        where
          by_update :
              (ok : Bool)
              → Below n
                  (if ok
                    then put_first
                        (record r { body = enc })
                        (walk ro up rs (record c { rotated = c.rotated + 1 }))
                    else (r ∷ rs, c, false)).0
          by_update true = (b.0, later _)
          by_update false = b
