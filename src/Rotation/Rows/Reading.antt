-- ===== src/Rotation/Rows/Reading.antt =====
-- What a pass of server/rotatekey.go over message bodies leaves readable, whatever fails on the way.
use hexeris_beta.Base.{
  ℕ, ◌+◌, ◌≡◌, refl, sym, ◌∙◌, subst, String, Option, none, some, Bool, true, false, List, [], ◌∷◌,
  if◌then◌else◌, inl, inr, ◌⊎◌, arith,
}
use hexeris_beta.Rotation.Rows.{
  Keys, Rotation, Verdict, dies, would_rotate, renewed, encrypt_with, with_old_key, judge, Row,
  Counts,
}
use hexeris_beta.Rotation.Rows.Walk.{Ascending, walk, walk_row, put_first}

-- The text that a stored body holds for one who tries the new key, then the old one.
abbrev pub Reads : Keys → String → String → Type 0
Reads keys stored plain =
    (keys.gcm.unseal keys.new_key stored ≡ some plain)
    ⊎ (keys.gcm.unseal keys.new_key stored ≡ none)
      × (keys.gcm.unseal keys.old_key stored ≡ some plain)

-- A body that neither key opens.
abbrev pub Foreign : Keys → String → Type 0
Foreign keys stored =
    (keys.gcm.unseal keys.new_key stored ≡ none) × (keys.gcm.unseal keys.old_key stored ≡ none)

-- Why `judge` says what it says.
pub data Judged (ro : Rotation) (item : ℕ) (stored : String) : Verdict → Type 0 where
  is_new :
      (plain : String)
      → ro.keys.gcm.unseal ro.keys.new_key stored ≡ some plain
      → Judged ro item stored Verdict.already
  is_foreign : Foreign ro.keys stored → Judged ro item stored Verdict.foreign
  is_old : ro.dry ≡ true → Judged ro item stored would_rotate
  has_no_nonce : ro.nonce item ≡ none → Judged ro item stored dies
  is_renewed :
      (plain enc : String)
      → ro.keys.gcm.unseal ro.keys.new_key stored ≡ none
      → ro.keys.gcm.unseal ro.keys.old_key stored ≡ some plain
      → ro.keys.gcm.unseal ro.keys.new_key enc ≡ some plain
      → ro.dry ≡ false
      → Judged ro item stored (renewed enc)

module _ (ro : Rotation) (item : ℕ) (stored : String) where
  encrypt_with-Judged :
      (plain : String) (e : Option (List ℕ))
      → ro.nonce item ≡ e
      → ro.keys.gcm.unseal ro.keys.new_key stored ≡ none
      → ro.keys.gcm.unseal ro.keys.old_key stored ≡ some plain
      → ro.dry ≡ false
      → Judged ro item stored (elim e [
        | none ↦ dies
        | some nonce ↦ renewed (ro.keys.gcm.seal ro.keys.new_key nonce plain)
      ])
  encrypt_with-Judged plain none m n o d = has_no_nonce m
  encrypt_with-Judged plain (some nonce) m n o d =
      is_renewed plain _ n o (ro.keys.gcm.unseal_seal ro.keys.new_key nonce plain) d

  with_dry-Judged :
      (plain : String) (dry : Bool)
      → ro.keys.gcm.unseal ro.keys.new_key stored ≡ none
      → ro.keys.gcm.unseal ro.keys.old_key stored ≡ some plain
      → ro.dry ≡ dry
      → Judged ro item stored (if dry then would_rotate else encrypt_with ro item plain)
  unfolding encrypt_with
  with_dry-Judged plain true n o d = is_old d
  with_dry-Judged plain false n o d = encrypt_with-Judged plain (ro.nonce item) refl n o d

  with_old_key-Judged :
      (e : Option String)
      → ro.keys.gcm.unseal ro.keys.new_key stored ≡ none
      → ro.keys.gcm.unseal ro.keys.old_key stored ≡ e
      → Judged ro item stored (with_old_key ro item e)
  unfolding with_old_key
  with_old_key-Judged none n o = is_foreign (n, o)
  with_old_key-Judged (some plain) n o = with_dry-Judged plain ro.dry n o refl

  pub judge-Judged : Judged ro item stored (judge ro item stored)
  unfolding judge
  judge-Judged = by_new (ro.keys.gcm.unseal ro.keys.new_key stored) refl
    where
      by_new :
          (e : Option String)
          → ro.keys.gcm.unseal ro.keys.new_key stored ≡ e
          → Judged ro item stored (elim e [
            | some plain ↦ Verdict.already
            | none ↦ with_old_key ro item (ro.keys.gcm.unseal ro.keys.old_key stored)
          ])
      by_new (some plain) n = is_new plain n
      by_new none n = with_old_key-Judged (ro.keys.gcm.unseal ro.keys.old_key stored) n refl

-- What becomes of a keysw: it reads as before, and what is not ours is not touched.
pub record Kept (keys : Keys) (r r' : Row) : Type 0 where
  pub seq : r'.seq ≡ r.seq
  pub reads : (plain : String) → Reads keys r.body plain → Reads keys r'.body plain
  pub untouched : Foreign keys r.body → r'.body ≡ r.body

abbrev pub Keeps : Keys → List Row → List Row → Type 0
Keeps keys [] [] = Unit {0}
Keeps keys [] (r' ∷ rs') = ⊥
Keeps keys (r ∷ rs) [] = ⊥
Keeps keys (r ∷ rs) (r' ∷ rs') = Kept keys r r' × Keeps keys rs rs'

-- What is readable in the first table opens with the new key in the second one.
abbrev pub Moved : Keys → List Row → List Row → Type 0
Moved keys [] [] = Unit {0}
Moved keys [] (r' ∷ rs') = ⊥
Moved keys (r ∷ rs) [] = ⊥
Moved keys (r ∷ rs) (r' ∷ rs') =
    ((plain : String) → Reads keys r.body plain → keys.gcm.unseal keys.new_key r'.body ≡ some plain)
    × Moved keys rs rs'

Kept-self : (keys : Keys) (r : Row) → Kept keys r r
Kept-self keys r = record { seq = refl; reads = λ plain h. h; untouched = λ h. refl }

pub Keeps-self : (keys : Keys) (rs : List Row) → Keeps keys rs rs
Keeps-self keys [] = tt
Keeps-self keys (r ∷ rs) = (Kept-self keys r, Keeps-self keys rs)

Kept-trans : (keys : Keys) (r s t : Row) → Kept keys r s → Kept keys s t → Kept keys r t
Kept-trans keys r s t a b = record {
  seq = b.seq ∙ a.seq;
  reads = λ plain h. b.reads plain (a.reads plain h);
  untouched = λ f. b.untouched (subst (Foreign keys) (sym (a.untouched f)) f) ∙ a.untouched f;
}

pub Keeps-trans :
    (keys : Keys) (rs ss ts : List Row) → Keeps keys rs ss → Keeps keys ss ts → Keeps keys rs ts
Keeps-trans keys [] [] ts a b = b
Keeps-trans keys [] (s ∷ ss) ts a b = elim a [ ]
Keeps-trans keys (r ∷ rs) [] ts a b = elim a [ ]
Keeps-trans keys (r ∷ rs) (s ∷ ss) [] a b = elim b [ ]
Keeps-trans keys (r ∷ rs) (s ∷ ss) (t ∷ ts) a b =
    (Kept-trans keys r s t a.0 b.0, Keeps-trans keys rs ss ts a.1 b.1)

pub Keeps-Ascending :
    (keys : Keys) (n : ℕ) (rs ss : List Row) → Keeps keys rs ss → Ascending n rs → Ascending n ss
Keeps-Ascending keys n [] [] k a = tt
Keeps-Ascending keys n [] (s ∷ ss) k a = elim k [ ]
Keeps-Ascending keys n (r ∷ rs) [] k a = elim k [ ]
Keeps-Ascending keys n (r ∷ rs) (s ∷ ss) k a = (
  omega (arith, a.0, k.0.seq),
  subst (λ m. Ascending m ss) (sym k.0.seq) (Keeps-Ascending keys r.seq rs ss k.1 a.1),
)

pub Keeps-Moved :
    (keys : Keys) (rs ss ts : List Row) → Keeps keys rs ss → Moved keys ss ts → Moved keys rs ts
Keeps-Moved keys [] [] ts k m = m
Keeps-Moved keys [] (s ∷ ss) ts k m = elim k [ ]
Keeps-Moved keys (r ∷ rs) [] ts k m = elim k [ ]
Keeps-Moved keys (r ∷ rs) (s ∷ ss) [] k m = elim m [ ]
Keeps-Moved keys (r ∷ rs) (s ∷ ss) (t ∷ ts) k m =
    (λ plain h. m.0 plain (k.0.reads plain h), Keeps-Moved keys rs ss ts k.1 m.1)

Reads-new :
    (keys : Keys) (stored plain p : String)
    → keys.gcm.unseal keys.new_key stored ≡ some plain
    → Reads keys stored p
    → keys.gcm.unseal keys.new_key stored ≡ some p
Reads-new keys stored plain p n (inl h) = h
Reads-new keys stored plain p n (inr h) = absurd (cc (n, h.0))

Reads-old :
    (keys : Keys) (stored plain p enc : String)
    → keys.gcm.unseal keys.new_key stored ≡ none
    → keys.gcm.unseal keys.old_key stored ≡ some plain
    → keys.gcm.unseal keys.new_key enc ≡ some plain
    → Reads keys stored p
    → keys.gcm.unseal keys.new_key enc ≡ some p
Reads-old keys stored plain p enc n o e (inl h) = absurd (cc (n, h))
Reads-old keys stored plain p enc n o e (inr h) = cc (o, e, h.1)

Foreign-Reads : (keys : Keys) (stored p : String) → Foreign keys stored → Reads keys stored p → ⊥
Foreign-Reads keys stored p f (inl h) = cc (f.0, h)
Foreign-Reads keys stored p f (inr h) = cc (f.1, h.1)

module _ (ro : Rotation) (up : ℕ → Bool) where
  Kept-renewed :
      (r : Row) (plain enc : String)
      → ro.keys.gcm.unseal ro.keys.new_key r.body ≡ none
      → ro.keys.gcm.unseal ro.keys.old_key r.body ≡ some plain
      → ro.keys.gcm.unseal ro.keys.new_key enc ≡ some plain
      → Kept ro.keys r (record r { body = enc })
  Kept-renewed r plain enc n o e = record {
    seq = refl;
    reads = λ p h. inl (Reads-old ro.keys r.body plain p enc n o e h);
    untouched = λ f. absurd (cc (f.1, o));
  }

  pub walk-Keeps : (rs : List Row) (c : Counts) → Keeps ro.keys rs (walk ro up rs c).0
  unfolding walk
  walk-Keeps [] c = tt
  walk-Keeps (r ∷ rs) c =
      by_verdict (λ c'. walk-Keeps rs c') (judge ro r.seq r.body) (judge-Judged ro r.seq r.body)
    where
      by_verdict :
          ((c' : Counts) → Keeps ro.keys rs (walk ro up rs c').0)
          → (v : Verdict) → Judged ro r.seq r.body v
          → Keeps ro.keys (r ∷ rs) (walk_row up v r rs c (walk ro up rs)).0
      by_verdict later _ (is_new plain n) = (Kept-self ro.keys r, later _)
      by_verdict later _ (is_foreign f) = (Kept-self ro.keys r, later _)
      by_verdict later _ (is_old d) = (Kept-self ro.keys r, later _)
      by_verdict later _ (has_no_nonce m) = Keeps-self ro.keys (r ∷ rs)
      by_verdict later _ (is_renewed plain enc n o e d) = by_update (up r.seq)
        where
          by_update :
              (ok : Bool)
              → Keeps ro.keys
                  (r ∷ rs)
                  (if ok
                    then put_first
                        (record r { body = enc })
                        (walk ro up rs (record c { rotated = c.rotated + 1 }))
                    else (r ∷ rs, c, false)).0
          by_update true = (Kept-renewed r plain enc n o e, later _)
          by_update false = Keeps-self ro.keys (r ∷ rs)

  pub walk-Moved :
      (rs : List Row) (c : Counts)
      → ro.dry ≡ false
      → (walk ro up rs c).2 ≡ true
      → Moved ro.keys rs (walk ro up rs c).0
  unfolding walk
  walk-Moved [] c d = λ alive. tt
  walk-Moved (r ∷ rs) c d =
      by_verdict (λ c'. walk-Moved rs c' d) (judge ro r.seq r.body) (judge-Judged ro r.seq r.body)
    where
      by_verdict :
          ((c' : Counts) → (walk ro up rs c').2 ≡ true → Moved ro.keys rs (walk ro up rs c').0)
          → (v : Verdict) → Judged ro r.seq r.body v
          → (walk_row up v r rs c (walk ro up rs)).2 ≡ true
          → Moved ro.keys (r ∷ rs) (walk_row up v r rs c (walk ro up rs)).0
      by_verdict later _ (is_new plain n) alive =
          ((λ p h. Reads-new ro.keys r.body plain p n h), later _ alive)
      by_verdict later _ (is_foreign f) alive =
          ((λ p h. absurd (Foreign-Reads ro.keys r.body p f h)), later _ alive)
      by_verdict later _ (is_old e) alive = absurd (cc (e, d))
      by_verdict later _ (has_no_nonce m) alive = absurd (cc alive)
      by_verdict later _ (is_renewed plain enc n o e dry) alive = by_update (up r.seq) alive
        where
          new : Counts
          new = record c { rotated = c.rotated + 1 }

          by_update :
              (ok : Bool)
              → (if ok
                  then put_first (record r { body = enc }) (walk ro up rs new)
                  else (r ∷ rs, c, false)).2
                ≡ true
              → Moved ro.keys
                  (r ∷ rs)
                  (if ok
                    then put_first (record r { body = enc }) (walk ro up rs new)
                    else (r ∷ rs, c, false)).0
          by_update true alive =
              ((λ p h. Reads-old ro.keys r.body plain p enc n o e h), later _ alive)
          by_update false alive = absurd (cc alive)

  -- Nothing ends the pass where every update works and the random source answers.
  pub walk_alive :
      (rs : List Row) (c : Counts)
      → ((seq : ℕ) → up seq ≡ true)
      → ((item : ℕ) → (nonce : List ℕ) × (ro.nonce item ≡ some nonce))
      → (walk ro up rs c).2 ≡ true
  unfolding walk
  walk_alive [] c ok random = refl
  walk_alive (r ∷ rs) c ok random =
      by_verdict (λ c'. walk_alive rs c' ok random) (judge ro r.seq r.body)
        (judge-Judged ro r.seq r.body)
    where
      by_verdict :
          ((c' : Counts) → (walk ro up rs c').2 ≡ true)
          → (v : Verdict) → Judged ro r.seq r.body v
          → (walk_row up v r rs c (walk ro up rs)).2 ≡ true
      by_verdict later _ (is_new plain n) = later _
      by_verdict later _ (is_foreign f) = later _
      by_verdict later _ (is_old e) = later _
      by_verdict later _ (has_no_nonce m) = absurd (cc (m, (random r.seq).1))
      by_verdict later _ (is_renewed plain enc n o e dry) = by_update (up r.seq) (ok r.seq)
        where
          by_update :
              (b : Bool)
              → b ≡ true
              → (if b
                  then put_first
                      (record r { body = enc })
                      (walk ro up rs (record c { rotated = c.rotated + 1 }))
                  else (r ∷ rs, c, false)).2
                ≡ true
          by_update true h = later _
          by_update false h = absurd (cc h)
