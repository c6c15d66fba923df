-- ===== src/Groups/Coherence.antt =====
-- The membership cache of server/groups.go across any sequence of requests to the endpoints.
use hexeris_beta.Base.{
  ℕ, ◌≡◌, refl, ◌∙◌, String, Option, none, some, Bool, true, false, List, if◌then◌else◌, ◌=s=◌,
  Bool-cases, Option-cases, inl, inr,
}
use hexeris_beta.Base.Dict.{Dict, lookup, insert, delete, lookup-insert, lookup-delete}
use hexeris_beta.Limiter.{RateLimiter}
use hexeris_beta.Groups.Store.{
  Role, admin, GroupRow, State, Query, add_row, remove_rows, set_role, promote_first,
  is_group_member, is_group_admin,
}
use hexeris_beta.Groups.Handlers.{
  World, Response, refused, others, valid_group_name, group_name_taken, create_group,
  change_members,
}
use hexeris_beta.Groups.Updates.{
  edit_group, update_name, update_description, finish_update, then_description, delete_rows,
  change_role, after_leave,
}
use hexeris_beta.Groups.Cache.{
  Reads, Coherent, CoherentBut, weaken, load_group-Coherent, invalidate_group-Coherent,
  notify_group-Coherent, with_members, add_members-CoherentBut, remove_members-CoherentBut,
  roles_of-add_row, roles_of-remove_rows, roles_of-set_role, roles_of-promote_first,
}

more_events : (s : State) (es : List String) → Coherent s → Coherent (record s { events = es })
more_events s es h = record {
  at = λ k g found.
      let a = h.at k g found in
      record { row = a.row; stored = a.stored; name = a.name; roles = a.roles };
}

-- A change of the row of one group leaves the others.
with_groups :
    (s : State) (gid : String) (gs : Dict GroupRow)
    → CoherentBut gid s
    → ((k : String) → (gid =s= k) ≡ false → lookup k gs ≡ lookup k s.groups)
    → CoherentBut gid (record s { groups = gs })
with_groups s gid gs h same = record {
  at = λ k g apart found.
      let a = h.at k g apart found in
      record { row = a.row; stored = same k apart ∙ a.stored; name = a.name; roles = a.roles };
}

without_group :
    (s : State) (gid : String)
    → CoherentBut gid s
    → CoherentBut gid (record s { groups = delete gid s.groups })
without_group s gid h =
    with_groups s gid (delete gid s.groups) h
      (λ k apart. rw (lookup-delete gid k s.groups, apart) refl)

with_group :
    (s : State) (gid : String) (g : GroupRow)
    → CoherentBut gid s
    → CoherentBut gid (record s { groups = insert gid g s.groups })
with_group s gid g h =
    with_groups s gid (insert gid g s.groups) h
      (λ k apart. rw (lookup-insert gid k g s.groups, apart) refl)

pub if-CoherentBut :
    (gid : String) (b : Bool) (s t : State)
    → CoherentBut gid s
    → CoherentBut gid t
    → CoherentBut gid (if b then s else t)
if-CoherentBut gid true s t hs ht = hs
if-CoherentBut gid false s t hs ht = ht

if-Coherent : (b : Bool) (s t : State) → Coherent s → Coherent t → Coherent (if b then s else t)
if-Coherent true s t hs ht = hs
if-Coherent false s t hs ht = ht

pub if-under {ℓ} :
    {A : Type ℓ}
    → (f : A → State) (b : Bool) (x y : A) → Coherent (f x)
    → Coherent (f y)
    → Coherent (f (if b then x else y))
if-under f true x y hx hy = hx
if-under f false x y hx hy = hy

abbrev pub answered : Response × State → State
answered r = r.1

module _ (w : World) (up : Query → Bool) (reads : Reads up) where
  pub delete_rows-Coherent :
      (gid : String) (s : State) → Coherent s → Coherent (delete_rows w up gid s)
  unfolding delete_rows
  delete_rows-Coherent gid s h = invalidate_group-Coherent up reads _ gid (
      if-CoherentBut gid (up Query.delete_group) _ _ (without_group _ gid without_rows)
        without_rows)
    where
      without_rows :
          CoherentBut gid (
            if up Query.delete_members then record s { members = remove_rows gid s.members } else s)
      without_rows =
          if-CoherentBut gid (up Query.delete_members) _ s
            (with_members up reads s gid (remove_rows gid s.members) (weaken gid s h)
              (λ k apart. roles_of-remove_rows gid k apart s.members))
            (weaken gid s h)

  pub change_role-Coherent :
      (s : State) (me gid user : String) (role : Role)
      → Coherent s
      → Coherent (change_role w up s me gid user role).1
  unfolding change_role
  change_role-Coherent s me gid user role h =
      if-under answered _ (refused 409, s) _ h
        (notify_group-Coherent up reads _ gid (
          if-CoherentBut gid (up Query.update_role) _ s
            (with_members up reads s gid (set_role gid user role s.members) (weaken gid s h)
              (λ k apart. roles_of-set_role gid k apart user role s.members))
            (weaken gid s h)))

  pub after_leave-Coherent :
      (s : State) (gid : String) → CoherentBut gid s → Coherent (after_leave w up s gid)
  unfolding after_leave
  after_leave-Coherent s gid h =
      if-Coherent _ _ _
        (invalidate_group-Coherent up reads _ gid
          (if-CoherentBut gid (up Query.delete_group) _ s (without_group s gid h) h))
        (notify_group-Coherent up reads _ gid (
          if-CoherentBut gid _ _ s
            (with_members up reads s gid (promote_first gid s.members) h
              (λ k apart. roles_of-promote_first gid k apart s.members))
            h))

  pub is_group_admin-Coherent :
      (s : State) (gid user : String) → Coherent s → Coherent (is_group_admin up s gid user).1
  unfolding is_group_admin
  is_group_admin-Coherent s gid user h = load_group-Coherent up reads s gid h

  pub is_group_member-Coherent :
      (s : State) (gid user : String) → Coherent s → Coherent (is_group_member up s gid user).1
  unfolding is_group_member
  is_group_member-Coherent s gid user h = load_group-Coherent up reads s gid h

  finish_update-Coherent :
      (r : Option ℕ × State) (gid : String)
      → ((status : ℕ) → r.0 ≡ some status → Coherent r.1)
      → CoherentBut gid r.1
      → Coherent (finish_update w up r gid).1
  unfolding finish_update
  finish_update-Coherent (some status, s) gid kept h = kept status refl
  finish_update-Coherent (none, s) gid kept h =
      notify_group-Coherent up reads _ gid
        (weaken gid _ (invalidate_group-Coherent up reads s gid h))

  edit_group-CoherentBut :
      (gid : String) (f : GroupRow → GroupRow) (s : State)
      → CoherentBut gid s
      → CoherentBut gid (edit_group w up gid f s)
  edit_group-CoherentBut gid f s h = by_row (lookup gid s.groups)
    where
      by_row :
          (o : Option GroupRow)
          → CoherentBut gid
              (elim o [ none ↦ s | some g ↦ record s { groups = insert gid (f g) s.groups } ])
      by_row none = h
      by_row (some g) = with_group s gid (f g) h

  pub change_members-Coherent :
      (s : State) (me gid : String) (add remove : List String)
      → Coherent s
      → Coherent (change_members w up s me gid add remove).1
  unfolding change_members
  change_members-Coherent s me gid add remove h =
      if-under answered _ (refused 409, s) _ h
        (more_events _ _ (
          notify_group-Coherent up reads _ gid (
            remove_members-CoherentBut up reads w me gid remove _
              (add_members-CoherentBut up reads w gid add s (weaken gid s h)))))

  -- A row of the group was changed, and the update is finished.
  saved-Coherent :
      (s : State) (gid : String) (f : GroupRow → GroupRow)
      → Coherent s
      → Coherent (finish_update w up (none, edit_group w up gid f s) gid).1
  unfolding finish_update
  saved-Coherent s gid f h = notify_group-Coherent up reads _ gid (
      weaken gid _ (
        invalidate_group-Coherent up reads _ gid (edit_group-CoherentBut gid f s (weaken gid s h))))

  refusal-Coherent :
      (s : State) (gid : String) (status : ℕ)
      → Coherent s
      → Coherent (finish_update w up (some status, s) gid).1
  unfolding finish_update
  refusal-Coherent s gid status h = h

  pub describe-Coherent :
      (s : State) (gid : String) (description : Option String)
      → Coherent s
      → Coherent (finish_update w up (update_description w up s gid description) gid).1
  unfolding update_description
  describe-Coherent s gid none h =
      unfold finish_update in
      notify_group-Coherent up reads _ gid
        (weaken gid _ (invalidate_group-Coherent up reads s gid (weaken gid s h)))
  describe-Coherent s gid (some raw) h =
      if-under finished _ (some 400, s) _ (refusal-Coherent s gid 400 h)
        (if-under finished _ (some 500, s) _ (refusal-Coherent s gid 500 h)
          (saved-Coherent s gid (λ g. record g { description = w.trim raw }) h))
    where
      finished : Option ℕ × State → State
      finished r = (finish_update w up r gid).1

  pub rename-Coherent :
      (s : State) (gid : String) (name : String)
      → Coherent s
      → Coherent
          (finish_update w up
            (then_description w up (update_name w up s gid (some name)) gid none)
            gid).1
  unfolding update_name then_description update_description
  rename-Coherent s gid name h = elim (Bool-cases (valid_group_name w up name).1) [
    | inr bad ↦ rw bad (refusal-Coherent s gid 400 h)
    | inl okay ↦ elim (Bool-cases (group_name_taken w up s (valid_group_name w up name).0 gid)) [
      | inl taken ↦ rw (okay, taken) (refusal-Coherent s gid 409 h)
      | inr free ↦ elim (Bool-cases (up Query.update_name)) [
        | inr fails ↦ rw (okay, free, fails) (refusal-Coherent s gid 500 h)
        | inl works ↦
            rw (okay, free, works)
              (saved-Coherent s gid (λ g. record g { name = (valid_group_name w up name).0 }) h)
      ]
    ]
  ]

  pub create_group-Coherent :
      (s : State) (lim : RateLimiter) (now : ℕ) (me gid name : String) (ms : List String)
      → Coherent s
      → Coherent (create_group w up s lim now me gid name ms).1
  unfolding create_group
  create_group-Coherent s lim now me gid name ms h = elim (Option-cases (lookup gid s.groups)) [
    | inr (g, e) ↦ rw (create_group, e) h
    | inl e ↦ elim (Bool-cases (up Query.insert_group)) [
      | inr fails ↦ rw (create_group, e, fails) h
      | inl works ↦
          rw (create_group, e, works)
            (notify_group-Coherent up reads _ gid
              (add_members-CoherentBut up reads w gid (others w up me ms) _ created))
    ]
  ]
    where
      made : State
      made = record s {
        groups = insert gid (record { name = name; description = ""; created_by = me }) s.groups;
      }

      founded : CoherentBut gid made
      founded =
          with_group s gid (record { name = name; description = ""; created_by = me })
            (weaken gid s h)

      created : CoherentBut gid (
          if up Query.insert_admin
          then record made { members = add_row gid me admin made.members }
          else made)
      created =
          if-CoherentBut gid (up Query.insert_admin) _ made
            (with_members up reads made gid (add_row gid me admin made.members) founded
              (λ k apart. roles_of-add_row gid k apart me admin made.members))
            founded
