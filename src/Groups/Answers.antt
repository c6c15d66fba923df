-- ===== src/Groups/Answers.antt =====
-- What the endpoints of server/groups.go answer: admin requests against the tables, and two ways
-- in which a failure half-way leaves a change behind.
use text.Mathlib.TextPositions.{eq_refl}
use hexeris_beta.Base.{
  ◌≡◌, refl, String, Option, none, some, Bool, true, false, List, [], ◌∷◌, ltb, Bool-cases,
  Option-cases, inl, inr, ap, ◌∙◌, sym, ◌=s=◌, eq_iff, arith,
}
use hexeris_beta.Base.Dict.{lookup, insert, lookup-delete}
use hexeris_beta.Groups.Store.{
  Role, admin, member, is_admin, GroupRow, Member, CachedGroup, State, Query, roles_of, role_in,
  is_group, fresh_entry, load_fresh, load_missing, load_group, remove_row, is_group_member,
  is_group_admin,
}
use hexeris_beta.Groups.Handlers.{
  World, refused, max_group_description_len, valid_group_name, group_name_taken,
}
use hexeris_beta.Groups.Updates.{
  edit_group, update_name, update_description, then_description, finish_update, update_handler,
  after_leave, leave_handler,
}
use hexeris_beta.Groups.Cache.{Reads, scanned_all, Coherent}
use hexeris_beta.Groups.Requests.{Endpoint, serve_all}
use hexeris_beta.Groups.Served.{AllRead, serve_all-Coherent}

only_admin :
    (o : Option Role) → elim o [ none ↦ false | some r ↦ is_admin r ] ≡ true → o ≡ some admin
only_admin none e = absurd (cc e)
only_admin (some admin) e = refl
only_admin (some member) e = absurd (cc e)

edit_group-found :
    (w : World) (up : Query → Bool) (gid : String) (f : GroupRow → GroupRow) (s : State)
    (g : GroupRow)
    → lookup gid s.groups ≡ some g
    → edit_group w up gid f s ≡ record s { groups = insert gid (f g) s.groups }
edit_group-found w up gid f s g row = rw (edit_group, row) refl

-- What `loadGroup` finds has the roles of the table.
module _ (up : Query → Bool) (reads : Reads up) where
  load_fresh-roles :
      (s : State) (gid : String) (row : Option GroupRow) (g : CachedGroup)
      → (load_fresh up s gid row).0 ≡ some g
      → g.roles ≡ roles_of gid s.members
  unfolding load_fresh fresh_entry
  load_fresh-roles s gid none g e = absurd (cc e)
  load_fresh-roles s gid (some r) g e = elim (Bool-cases (up Query.select_members)) [
    | inr fails ↦ absurd (cc (rw fails at e))
    | inl works ↦ cc (rw works at e, scanned_all up reads (roles_of gid s.members))
  ]

  load_group-roles :
      (s : State) (gid : String) (g : CachedGroup)
      → Coherent s
      → (load_group up s gid).0 ≡ some g
      → g.roles ≡ roles_of gid s.members
  unfolding load_group load_missing
  load_group-roles s gid g h e = by_entry (lookup gid s.cache) refl e
    where
      by_entry :
          (o : Option CachedGroup)
          → lookup gid s.cache ≡ o
          → (load_missing up s gid o).0 ≡ some g
          → g.roles ≡ roles_of gid s.members
      by_entry (some c) found same = let a = h.at gid c found in cc (a.roles, same)
      by_entry none missing e' = elim (Bool-cases (up Query.select_group)) [
        | inr fails ↦ absurd (cc (rw fails at e'))
        | inl works ↦ load_fresh-roles s gid (lookup gid s.groups) g (rw works at e')
      ]

  is_group_admin-role :
      (s : State) (gid user : String)
      → Coherent s
      → (is_group_admin up s gid user).0 ≡ true
      → role_in user (roles_of gid s.members) ≡ some admin
  unfolding is_group_admin
  is_group_admin-role s gid user h e = elim (Option-cases (load_group up s gid).0) [
    | inl nobody ↦ absurd (cc (rw (is_group_admin, nobody) at e))
    | inr (g, found) ↦
        ap (role_in user) (sym (load_group-roles s gid g h found))
        ∙ only_admin (role_in user g.roles) (rw (is_group_admin, found) at e)
  ]

-- Behind any sequence of requests that starts with a cache that agrees with the tables, and reads
-- rows of members completely, whoever is taken for an admin of a group has the role of an admin in
-- the table of the moment.
pub admin_in_table :
    (w : World) (es : List ((Query → Bool) × Endpoint)) (s : State) (up : Query → Bool)
    (gid user : String)
    → AllRead es
    → Reads up
    → Coherent s
    → (is_group_admin up (serve_all w es s) gid user).0 ≡ true
    → role_in user (roles_of gid (serve_all w es s).members) ≡ some admin
admin_in_table w es s up gid user all reads h e =
    is_group_admin-role up reads (serve_all w es s) gid user (serve_all-Coherent w es s all h) e

-- An admin's update of a group with a new name that is valid and free and a description that is too
-- long is answered 400, and the row has the new name all the same; the cache is left as it was.
pub update_refused_renames :
    (w : World) (up : Query → Bool) (s : State) (me gid name text : String) (g : GroupRow)
    → is_group gid ≡ true
    → (is_group_admin up s gid me).0 ≡ true
    → (valid_group_name w up name).1 ≡ true
    → group_name_taken w up (is_group_admin up s gid me).1 (w.trim name) gid ≡ false
    → up Query.update_name ≡ true
    → ltb max_group_description_len (w.runes (w.trim text)) ≡ true
    → lookup gid (is_group_admin up s gid me).1.groups ≡ some g
    → update_handler w up s (some me) true (some (gid, some name, some text)) ≡ (
      refused 400,
      record (is_group_admin up s gid me).1 {
        groups = insert gid (record g { name = w.trim name }) (is_group_admin up s gid me).1.groups;
      },
    )
update_refused_renames w up s me gid name text g id allowed okay free works long row =
    unfold update_handler in
    rw (id, allowed)
      (unfold update_name in
        rw (okay, free, works)
          (unfold then_description in
            unfold update_description in
            unfold finish_update in
            rw long (
              ap (λ t. (refused 400, t))
                (edit_group-found w up gid _ (is_group_admin up s gid me).1 g row))))

module _ (gid me user : String) (apart : (me =s= user) ≡ false) where
  -- The deletion of one member's row leaves the role of any other.
  role_in-remove_row :
      (ms : List Member)
      → role_in user (roles_of gid (remove_row gid me ms)) ≡ role_in user (roles_of gid ms)
  unfolding remove_row roles_of role_in
  role_in-remove_row [] = refl
  role_in-remove_row (m ∷ ms) =
      ground (arith, role_in-remove_row ms, eq_iff m.username me, eq_iff m.username user)

-- A look into the cache changes no row.
load_group-members :
    (up : Query → Bool) (s : State) (gid : String) → (load_group up s gid).1.members ≡ s.members
unfolding load_group load_missing load_fresh
load_group-members up s gid = ground (arith, lookup gid s.cache, lookup gid s.groups)

-- Where the count of the members fails, the last step of leaving takes the group for empty: the row
-- of the group is deleted, and every other user has the role of before in the table of members.
pub leave_deletes_group :
    (w : World) (up : Query → Bool) (s : State) (me gid user : String)
    → (is_group_member up s gid me).0 ≡ true
    → up (Query.delete_member me) ≡ true
    → up Query.count_members ≡ false
    → up Query.delete_group ≡ true
    → (me =s= user) ≡ false
    → (lookup gid (leave_handler w up s (some me) true (some gid)).1.groups ≡ none)
      × (role_in user (roles_of gid (leave_handler w up s (some me) true (some gid)).1.members)
          ≡ role_in user (roles_of gid s.members))
leave_deletes_group w up s me gid user allowed gone uncounted works apart =
    unfold leave_handler in
    unfold after_leave in
    rw (allowed, gone, uncounted, works)
      (
        rw (lookup-delete gid gid (is_group_member up s gid me).1.groups, eq_refl gid) refl,
        role_in-remove_row gid me user apart (is_group_member up s gid me).1.members
            ∙ ap (λ ms. role_in user (roles_of gid ms)) (load_group-members up s gid),
      )
