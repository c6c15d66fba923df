-- ===== src/Rotation/Rows/Restart.antt =====
-- Interrupted and repeated runs of `rotateMessages` (server/rotatekey.go).
use hexeris_beta.Base.{
  ℕ, suc, ◌≡◌, sym, ap, ◌∙◌, subst, Option, none, some, Bool, true, false, List, [], ◌∷◌, length,
  arith,
}
use hexeris_beta.Rotation.Rows.{
  Keys, Rotation, Row, Counts, Progress, PageRead, whole, rotate_messages,
}
use hexeris_beta.Rotation.Rows.Walk.{Ascending, walk}
use hexeris_beta.Rotation.Rows.Paging.{rotate_pages_lem}
use hexeris_beta.Rotation.Rows.Interrupted.{rotate_pages-Keeps}
use hexeris_beta.Rotation.Rows.Reading.{
  Keeps, Keeps-self, Keeps-trans, Keeps-Ascending, Keeps-Moved, Moved, walk-Moved, walk_alive,
}

-- What differs between two runs with the same keys: dry or not, the random source, the reads of
-- pages, and the updates that fail.
pub record Attempt : Type 0 where
  pub dry : Bool
  pub nonce : ℕ → Option (List ℕ)
  pub reads : ℕ → PageRead
  pub up : ℕ → Bool

abbrev pub no_counts : Counts
no_counts = record { rotated = 0; already = 0; foreign = 0 }

abbrev rotation_of : Keys → Attempt → Rotation
rotation_of keys a = record { keys = keys; dry = a.dry; nonce = a.nonce; reads = a.reads }

unfoldable pub attempt : Keys → Attempt → List Row → Option Progress
attempt keys a t = rotate_messages (rotation_of keys a) a.up t no_counts

abbrev progress_of : List Row → Option Progress → Progress
progress_of t none = (t, no_counts, false)
progress_of t (some p) = p

-- The table after several attempts, each on what the one before it has left.
unfoldable pub after_attempts : Keys → List Attempt → List Row → List Row
unfolding attempt
after_attempts keys [] t = t
after_attempts keys (a ∷ as') t = after_attempts keys as' (progress_of t (attempt keys a t)).0

module _ (keys : Keys) where
  attempt-walk :
      (a : Attempt) (t : List Row)
      → ((cursor : ℕ) → a.reads cursor ≡ whole)
      → Ascending 0 t
      → attempt keys a t ≡ some (walk (rotation_of keys a) a.up t no_counts)
  unfolding attempt rotate_messages
  attempt-walk a t every asc =
      rotate_pages_lem (rotation_of keys a) a.up every (suc (length t)) t no_counts asc
        (omega arith)

  -- A run of any kind, whatever fails in it and wherever it stops, ends with a table in which the
  -- rows keep their seqs, every text that could be read can still be read with one of the two keys,
  -- and a body that neither key opens is as before: the table in the strict order of its seqs.
  pub attempt-Keeps :
      (a : Attempt) (t : List Row)
      → Ascending 0 t
      → (p : Progress) × (attempt keys a t ≡ some p) × Keeps keys t p.0
  unfolding attempt rotate_messages
  attempt-Keeps a t asc =
      let (p, e, k, m) =
        rotate_pages-Keeps (rotation_of keys a) a.up (suc (length t)) t no_counts asc
          (omega arith) in
      (p, e, k)

  after_attempts-Keeps :
      (as' : List Attempt) (t : List Row) → Ascending 0 t → Keeps keys t (after_attempts keys as' t)
  unfolding after_attempts
  after_attempts-Keeps [] t asc = Keeps-self keys t
  after_attempts-Keeps (a ∷ as') t asc =
      let (p, e, k) = attempt-Keeps a t asc in
      Keeps-trans keys t p.0 _ k (
        subst (λ q. Keeps keys p.0 (after_attempts keys as' (progress_of t q).0)) (sym e)
          (after_attempts-Keeps as' p.0 (Keeps-Ascending keys 0 t p.0 k asc)))

  -- After any attempts, dry, failed, interrupted or with reads that fail or break off, a run that is
  -- not dry, in which every page of the table is read whole, every update works and the random source
  -- answers, gets to its end, and then every text that could be read at first opens with the new key:
  -- the table in the strict order of its seqs.
  pub after_attempts-attempt :
      (as' : List Attempt) (a : Attempt) (t : List Row)
      → Ascending 0 t
      → a.dry ≡ false
      → ((cursor : ℕ) → a.reads cursor ≡ whole)
      → ((seq : ℕ) → a.up seq ≡ true)
      → ((item : ℕ) → (nonce : List ℕ) × (a.nonce item ≡ some nonce))
      → (t' : List Row) × (c : Counts) × (attempt keys a (after_attempts keys as' t)
          ≡ some (t', c, true))
        × Moved keys t t'
  after_attempts-attempt as' a t asc d every ok random =
      let before = after_attempts keys as' t in
      let kept = after_attempts-Keeps as' t asc in
      let ro : Rotation = rotation_of keys a in
      let p = walk ro a.up before no_counts in
      let alive = walk_alive ro a.up before no_counts ok random in
      (
        p.0,
        p.1,
        attempt-walk a before every (Keeps-Ascending keys 0 t before kept asc)
            ∙ ap (λ (b : Bool). some (p.0, p.1, b)) alive,
        Keeps-Moved keys t before p.0 kept (walk-Moved ro a.up before no_counts d alive),
      )
