-- ===== src/Msgwriter/Waiters.antt =====
-- The `uniq` and `waiters` of `flushMessageBatch` (server/msgwriter.go): lemmas on one pass over
-- the batch, for any result that depends on the id alone.
use mathlib.Core.List.{append-nil, append_assoc, perm_middle, Perm}
use mathlib.Core.List.Perm
use text.Mathlib.TextPositions.{eq_refl}
use hexeris_beta.Base.{
  ℕ, String, ◌≡◌, refl, sym, ap, subst, Option, none, some, Bool, true, false, List, [], ◌∷◌, ◌++◌,
  ◌||◌, if◌then◌else◌, ◌=s=◌, eq_iff, arith, Bool-cases, inl, inr, ◌∙◌, ◌↔◌,
}
use hexeris_beta.Base.Dict.{Dict, lookup, insert, delete, lookup-insert, lookup-delete}
use hexeris_beta.Msgwriter.{
  SaveResult, SaveRequest, Reply, waiting, send_all, deliver_each, Collected, collect_one, collect,
  note_waiter,
}

abbrev pub has : String → List SaveRequest → Bool
has id [] = false
has id (u ∷ us) = u.msg.id =s= id || has id us

-- No two requests have one id.
abbrev pub Distinct : List SaveRequest → Type 0
Distinct [] = Unit {0}
Distinct (u ∷ us) = (has u.msg.id us ≡ false) × Distinct us

-- One reply to each request, by its id.
abbrev pub expected : (String → SaveResult) → List SaveRequest → List Reply
expected f [] = []
expected f (r ∷ rs) = (r.reply, f r.msg.id) ∷ expected f rs

module _ (f : String → SaveResult) where
  -- What the waiters of `us` are sent.
  abbrev pub answers : Dict (List ℕ) → List SaveRequest → List Reply
  answers w [] = []
  answers w (u ∷ us) = send_all (f u.msg.id) (waiting w u.msg.id) ++ answers w us

waiting-insert :
    (w : Dict (List ℕ)) (k j : String) (v : List ℕ)
    → waiting (insert k v w) j ≡ (if k =s= j then v else waiting w j)
unfolding waiting
waiting-insert w k j v = rw (lookup-insert k j v w, waiting) (ground arith)

waiting-delete :
    (w : Dict (List ℕ)) (k j : String)
    → waiting (delete k w) j ≡ (if k =s= j then [] else waiting w j)
unfolding waiting
waiting-delete w k j = rw (lookup-delete k j w, waiting) (ground arith)

send_all-append :
    (res : SaveResult) (chs : List ℕ) (ch : ℕ)
    → send_all res (chs ++ ch ∷ []) ≡ send_all res chs ++ (ch, res) ∷ []
unfolding send_all
send_all-append res [] ch = refl
send_all-append res (c ∷ chs) ch = ap (◌∷◌ (c, res)) (send_all-append res chs ch)

has-append :
    (id : String) (us : List SaveRequest) (r : SaveRequest)
    → has id (us ++ r ∷ []) ≡ (has id us || (r.msg.id =s= id))
has-append id [] r = ground arith
has-append id (u ∷ us) r = ground (arith, has-append id us r)

Distinct-append :
    (us : List SaveRequest) (r : SaveRequest)
    → Distinct us
    → has r.msg.id us ≡ false
    → Distinct (us ++ r ∷ [])
Distinct-append [] r d h = (refl, tt)
Distinct-append (u ∷ us) r d h = (
  ground (arith, has-append u.msg.id us r, eq_iff u.msg.id r.msg.id, eq_iff r.msg.id u.msg.id),
  Distinct-append us r d.1 (ground arith),
)

module _ (f : String → SaveResult) where
  pub answers-delete :
      (w : Dict (List ℕ)) (k : String) (us : List SaveRequest)
      → has k us ≡ false
      → answers f (delete k w) us ≡ answers f w us
  answers-delete w k [] h = refl
  answers-delete w k (u ∷ us) h = ground (
    arith,
    waiting-delete w k u.msg.id,
    eq_iff u.msg.id k,
    eq_iff k u.msg.id,
    answers-delete w k us,
  )

  answers-insert :
      (w : Dict (List ℕ)) (k : String) (v : List ℕ) (us : List SaveRequest)
      → has k us ≡ false
      → answers f (insert k v w) us ≡ answers f w us
  answers-insert w k v [] h = refl
  answers-insert w k v (u ∷ us) h = ground (
    arith,
    waiting-insert w k u.msg.id v,
    eq_iff u.msg.id k,
    eq_iff k u.msg.id,
    answers-insert w k v us,
  )

  pub answers-append :
      (w : Dict (List ℕ)) (us : List SaveRequest) (r : SaveRequest)
      → answers f w (us ++ r ∷ []) ≡ answers f w us ++ send_all (f r.msg.id) (waiting w r.msg.id)
  answers-append w [] r = append-nil _
  answers-append w (u ∷ us) r =
      ap (◌++◌ (send_all (f u.msg.id) (waiting w u.msg.id))) (answers-append w us r)
      ∙ sym (append_assoc (send_all (f u.msg.id) (waiting w u.msg.id)) (answers f w us) _)

  -- Delivering in turn, with the entry of each id deleted behind it, reaches every waiter.
  pub deliver_each-eq-answers :
      (w : Dict (List ℕ)) (us : List SaveRequest)
      → Distinct us
      → deliver_each (λ r. f r.msg.id) w us ≡ answers f w us
  unfolding deliver_each
  deliver_each-eq-answers w [] d = refl
  deliver_each-eq-answers w (u ∷ us) d =
      ap (◌++◌ (send_all (f u.msg.id) (waiting w u.msg.id)))
        (deliver_each-eq-answers (delete u.msg.id w) us d.1 ∙ answers-delete w u.msg.id us d.0)

  snoc_perm : (xs ys : List Reply) (x : Reply) → Perm ((xs ++ x ∷ []) ++ ys) (x ∷ (xs ++ ys))
  snoc_perm xs ys x = rw (append_assoc xs (x ∷ []) ys) (perm_middle xs ys)

  insert_head :
      (w : Dict (List ℕ)) (u : SaveRequest) (ch : ℕ) (us : List SaveRequest)
      → has u.msg.id us ≡ false
      → Perm
          (answers f (insert u.msg.id (waiting w u.msg.id ++ ch ∷ []) w) (u ∷ us))
          ((ch, f u.msg.id) ∷ answers f w (u ∷ us))
  insert_head w u ch us h =
      rw
        (
          waiting-insert w u.msg.id u.msg.id (waiting w u.msg.id ++ ch ∷ []),
          eq_refl u.msg.id,
          send_all-append (f u.msg.id) (waiting w u.msg.id) ch,
          answers-insert w u.msg.id (waiting w u.msg.id ++ ch ∷ []) us h,
        )
        (snoc_perm (send_all (f u.msg.id) (waiting w u.msg.id)) (answers f w us) (ch, f u.msg.id))

  flip : (k : String) (u : SaveRequest) → (u.msg.id =s= k) ≡ false → (k =s= u.msg.id) ≡ false
  flip k u h = ground (arith, eq_iff k u.msg.id, eq_iff u.msg.id k)

  -- One more channel under an id that is known is one more reply.
  answers-insert_known :
      (w : Dict (List ℕ)) (k : String) (ch : ℕ) (us : List SaveRequest)
      → Distinct us
      → has k us ≡ true
      → Perm (answers f (insert k (waiting w k ++ ch ∷ []) w) us) ((ch, f k) ∷ answers f w us)
  answers-insert_known w k ch [] d h = absurd (ground arith)
  answers-insert_known w k ch (u ∷ us) d h = elim (Bool-cases (u.msg.id =s= k)) [
    | inl same ↦
        let eq = (eq_iff u.msg.id k).0 same in
        subst
          (λ id.
            Perm (answers f (insert id (waiting w id ++ ch ∷ []) w) (u ∷ us))
              ((ch, f id) ∷ answers f w (u ∷ us)))
          eq (insert_head w u ch us d.0)
    | inr other ↦
        rw
          (
            waiting-insert w k u.msg.id (waiting w k ++ ch ∷ []),
            ap (λ (b : Bool). if b then waiting w k ++ ch ∷ [] else waiting w u.msg.id)
                (flip k u other),
          )
          (Perm.trans
            (Perm.append_left (send_all (f u.msg.id) (waiting w u.msg.id))
              (answers-insert_known w k ch us d.1 (ground arith)))
            (perm_middle (send_all (f u.msg.id) (waiting w u.msg.id)) (answers f w us)))
  ]

-- The waiters know exactly the ids of `uniq`.
abbrev pub Known : Collected → Type 0
Known c = (id : String) → (lookup id c.1 ≡ none) ↔ (has id c.0 ≡ false)

module _ (f : String → SaveResult) where
  abbrev Grown : Collected → Collected → SaveRequest → Type 0
  Grown c c' r =
      Distinct c'.0
      × Known c'
      × Perm (answers f c'.1 c'.0) ((r.reply, f r.msg.id) ∷ answers f c.1 c.0)

  waiting-some :
      (w : Dict (List ℕ)) (k : String) (chs : List ℕ) → lookup k w ≡ some chs → waiting w k ≡ chs
  waiting-some w k chs e = unfold waiting in rw (e, waiting) refl

  grown-none :
      (uniq : List SaveRequest) (w : Dict (List ℕ)) (r : SaveRequest)
      → Distinct uniq
      → Known (uniq, w)
      → lookup r.msg.id w ≡ none
      → Perm
          (answers f (insert r.msg.id (r.reply ∷ []) w) (uniq ++ r ∷ []))
          ((r.reply, f r.msg.id) ∷ answers f w uniq)
  unfolding send_all
  grown-none uniq w r d kn e =
      rw
        (
          answers-append f (insert r.msg.id (r.reply ∷ []) w) uniq r,
          waiting-insert w r.msg.id r.msg.id (r.reply ∷ []),
          eq_refl r.msg.id,
          answers-insert f w r.msg.id (r.reply ∷ []) uniq ((kn r.msg.id).0 e),
        )
        (Perm.trans (perm_middle (answers f w uniq) [])
          (rw (append-nil (answers f w uniq)) (Perm.refl _)))

  note_waiter-answers :
      (o : Option (List ℕ)) (uniq : List SaveRequest) (w : Dict (List ℕ)) (r : SaveRequest)
      → Distinct uniq
      → Known (uniq, w)
      → lookup r.msg.id w ≡ o
      → Grown (uniq, w) (note_waiter o uniq w r) r
  unfolding note_waiter
  note_waiter-answers none uniq w r d kn e =
      let fresh = (kn r.msg.id).0 e in
      (
        Distinct-append uniq r d fresh,
        λ id. (
          λ h.
              ground
                (arith, kn id, lookup-insert r.msg.id id (r.reply ∷ []) w, has-append id uniq r),
          λ h.
              ground
                (arith, kn id, lookup-insert r.msg.id id (r.reply ∷ []) w, has-append id uniq r),
        ),
        grown-none uniq w r d kn e,
      )
  note_waiter-answers (some chs) uniq w r d kn e = elim (Bool-cases (has r.msg.id uniq)) [
    | inr unseen ↦ absurd (cc ((kn r.msg.id).1 unseen))
    | inl seen ↦ (
      d,
      λ id. (
        λ h.
            ground
              (arith, kn id, lookup-insert r.msg.id id (chs ++ r.reply ∷ []) w, eq_iff r.msg.id id),
        λ h.
            ground
              (arith, kn id, lookup-insert r.msg.id id (chs ++ r.reply ∷ []) w, eq_iff r.msg.id id),
      ),
      subst
          (λ l.
            Perm (answers f (insert r.msg.id (l ++ r.reply ∷ []) w) uniq)
              ((r.reply, f r.msg.id) ∷ answers f w uniq))
          (waiting-some w r.msg.id chs e) (answers-insert_known f w r.msg.id r.reply uniq d seen),
    )
  ]

  -- After one pass over a batch the waiters of the distinct requests are, up to order, the
  -- channels of the whole batch, each with the result of its id.
  pub collect-answers :
      (uniq : List SaveRequest) (w : Dict (List ℕ)) (batch : List SaveRequest)
      → Distinct uniq
      → Known (uniq, w)
      → Distinct (collect (uniq, w) batch).0
        × Perm
            (answers f (collect (uniq, w) batch).1 (collect (uniq, w) batch).0)
            (expected f batch ++ answers f w uniq)
  unfolding collect collect_one
  collect-answers uniq w [] d kn = (d, Perm.refl _)
  collect-answers uniq w (r ∷ rs) d kn =
      let grown = note_waiter-answers (lookup r.msg.id w) uniq w r d kn refl in
      let next = note_waiter (lookup r.msg.id w) uniq w r in
      let rest = collect-answers next.0 next.1 rs grown.0 grown.1 in
      (
        rest.0,
        Perm.trans rest.1 (
            Perm.trans (Perm.append_left (expected f rs) grown.2)
              (perm_middle (expected f rs) (answers f w uniq))),
      )
