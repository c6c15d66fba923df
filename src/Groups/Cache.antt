-- ===== src/Groups/Cache.antt =====
-- The membership cache of server/groups.go agrees with the tables after every endpoint that
-- announces its change; an update that is refused half-way is the exception.
use hexeris_beta.Base.{
  ◌≡◌, refl, sym, subst, ◌∙◌, String, Option, none, some, Bool, true, false, List, [], ◌∷◌, ◌++◌,
  arith, ◌&&◌, not, if◌then◌else◌, ◌=s=◌, eq_iff, Bool-cases, inl, inr,
}
use hexeris_beta.Base.Dict.{lookup, insert, lookup-insert, lookup-delete}
use hexeris_beta.Groups.Store.{
  Role, member, GroupRow, Member, CachedGroup, State, Query, roles_of, add_row, remove_row,
  remove_rows, set_role, promote_first, Roles, scanned, fresh_entry, load_fresh, load_missing,
  load_group, invalidate_group, group_members, notify_group,
}
use hexeris_beta.Groups.Handlers.{World, add_members, remove_members}

roles_of-append :
    (k : String) (ms : List Member) (m : Member)
    → roles_of k (ms ++ m ∷ [])
      ≡ (if m.group_id =s= k then roles_of k ms ++ (m.username, m.role) ∷ [] else roles_of k ms)
unfolding roles_of
roles_of-append k [] m = ground arith
roles_of-append k (x ∷ ms) m = ground (arith, roles_of-append k ms m)

-- Each statement on the members of one group leaves the others as they are.
module _ (gid k : String) (apart : (gid =s= k) ≡ false) where
  pub roles_of-add_row :
      (user : String) (role : Role) (ms : List Member)
      → roles_of k (add_row gid user role ms) ≡ roles_of k ms
  unfolding add_row
  roles_of-add_row user role ms =
      ground (arith, roles_of-append k ms (record { group_id = gid; username = user; role = role }))

  pub roles_of-remove_row :
      (user : String) (ms : List Member) → roles_of k (remove_row gid user ms) ≡ roles_of k ms
  unfolding roles_of remove_row
  roles_of-remove_row user [] = refl
  roles_of-remove_row user (m ∷ ms) =
      ground (arith, roles_of-remove_row user ms, eq_iff m.group_id gid)

  pub roles_of-remove_rows : (ms : List Member) → roles_of k (remove_rows gid ms) ≡ roles_of k ms
  unfolding roles_of remove_rows
  roles_of-remove_rows [] = refl
  roles_of-remove_rows (m ∷ ms) = ground (arith, roles_of-remove_rows ms, eq_iff m.group_id gid)

  pub roles_of-set_role :
      (user : String) (role : Role) (ms : List Member)
      → roles_of k (set_role gid user role ms) ≡ roles_of k ms
  unfolding roles_of set_role
  roles_of-set_role user role [] = refl
  roles_of-set_role user role (m ∷ ms) =
      ground (arith, roles_of-set_role user role ms, eq_iff m.group_id gid)

  pub roles_of-promote_first :
      (ms : List Member) → roles_of k (promote_first gid ms) ≡ roles_of k ms
  unfolding roles_of promote_first
  roles_of-promote_first [] = refl
  roles_of-promote_first (m ∷ ms) = ground (arith, roles_of-promote_first ms, eq_iff m.group_id gid)

-- What a cache entry must be for the tables of the moment.
pub record Agrees (s : State) (gid : String) (g : CachedGroup) : Type 0 where
  pub row : GroupRow
  pub stored : lookup gid s.groups ≡ some row
  pub name : g.name ≡ row.name
  pub roles : g.roles ≡ roles_of gid s.members

-- Every entry of the cache is the group as the tables have it.
pub record Coherent (s : State) : Type 0 where
  pub at : (gid : String) (g : CachedGroup) → lookup gid s.cache ≡ some g → Agrees s gid g

-- The same for the groups other than `gid`.
pub record CoherentBut (gid : String) (s : State) : Type 0 where
  pub at :
      (k : String) (g : CachedGroup)
      → (gid =s= k) ≡ false
      → lookup k s.cache ≡ some g
      → Agrees s k g

pub weaken : (gid : String) (s : State) → Coherent s → CoherentBut gid s
weaken gid s h = record { at = λ k g apart e. h.at k g e }

-- Every row of the members of a group that is read comes, and its Scan works.
abbrev pub Reads : (Query → Bool) → Type 0
Reads up = (user : String) → up (Query.scan_member user) ≡ true

pub scanned_all : (up : Query → Bool) → Reads up → (rs : Roles) → scanned up rs ≡ rs
unfolding scanned
scanned_all up reads [] = refl
scanned_all up reads ((u, r) ∷ rs) = ground (arith, reads u, scanned_all up reads rs)

module _ (up : Query → Bool) (reads : Reads up) where
  load_fresh-Coherent :
      (s : State) (gid : String) (o : Option GroupRow)
      → lookup gid s.groups ≡ o
      → Coherent s
      → Coherent (load_fresh up s gid o).1
  load_fresh-Coherent s gid none e h = unfold load_fresh in h
  load_fresh-Coherent s gid (some g) e h = elim (Bool-cases (up Query.select_members)) [
    | inr fails ↦ unfold load_fresh in rw fails h
    | inl works ↦
        unfold load_fresh in
        rw works (record {
          at = λ k c found. elim (Bool-cases (gid =s= k)) [
            | inl same ↦
                cached k c ((eq_iff gid k).0 same)
                  (rw (lookup-insert gid k (fresh_entry up gid g s.members) s.cache, same) at found)
            | inr apart ↦
                let a = h.at k c (
                  rw (lookup-insert gid k (fresh_entry up gid g s.members) s.cache, apart) at
                    found) in
                record { row = a.row; stored = a.stored; name = a.name; roles = a.roles }
          ];
        })
  ]
    where
      cached :
          (k : String) (c : CachedGroup)
          → gid ≡ k
          → ◌≡◌ {A = Option CachedGroup} (some (fresh_entry up gid g s.members)) (some c)
          → Agrees (record s { cache = insert gid (fresh_entry up gid g s.members) s.cache }) k c
      cached k c same found = record {
        row = g;
        stored = subst (λ x. lookup x s.groups ≡ some g) same e;
        name = unfold fresh_entry in cc found;
        roles =
            unfold fresh_entry in cc (found, same, scanned_all up reads (roles_of gid s.members));
      }

  pub load_group-Coherent :
      (s : State) (gid : String) → Coherent s → Coherent (load_group up s gid).1
  unfolding load_group
  load_group-Coherent s gid h = by_entry (lookup gid s.cache)
    where
      by_entry : (o : Option CachedGroup) → Coherent (load_missing up s gid o).1
      by_entry (some g) = unfold load_missing in h
      by_entry none = elim (Bool-cases (up Query.select_group)) [
        | inr fails ↦ unfold load_missing in rw fails h
        | inl works ↦
            unfold load_missing in rw works (load_fresh-Coherent s gid (lookup gid s.groups) refl h)
      ]

  pub invalidate_group-Coherent :
      (s : State) (gid : String) → CoherentBut gid s → Coherent (invalidate_group up s gid)
  unfolding invalidate_group
  invalidate_group-Coherent s gid h = record {
    at = λ k g found. elim (Bool-cases (gid =s= k)) [
      | inl same ↦ absurd (cc (rw (lookup-delete gid k s.cache, same) at found))
      | inr apart ↦
          let a = h.at k g apart (rw (lookup-delete gid k s.cache, apart) at found) in
          record { row = a.row; stored = a.stored; name = a.name; roles = a.roles }
    ];
  }

  pub notify_group-Coherent :
      (s : State) (gid : String) → CoherentBut gid s → Coherent (notify_group up s gid)
  unfolding notify_group group_members
  notify_group-Coherent s gid h =
      let h' =
        load_group-Coherent (invalidate_group up s gid) gid (invalidate_group-Coherent s gid h) in
      record {
        at = λ k g found.
            let a = h'.at k g found in
            record { row = a.row; stored = a.stored; name = a.name; roles = a.roles };
      }

  -- A statement on the members of `gid` that leaves the roles of the other groups.
  pub with_members :
      (s : State) (gid : String) (ms : List Member)
      → CoherentBut gid s
      → ((k : String) → (gid =s= k) ≡ false → roles_of k ms ≡ roles_of k s.members)
      → CoherentBut gid (record s { members = ms })
  with_members s gid ms h same = record {
    at = λ k g apart found.
        let a = h.at k g apart found in
        record {
          row = a.row;
          stored = a.stored;
          name = a.name;
          roles = a.roles ∙ sym (same k apart);
        };
  }

  module _ (w : World) where
    pub add_members-CoherentBut :
        (gid : String) (ms : List String) (s : State)
        → CoherentBut gid s
        → CoherentBut gid (add_members w up gid ms s)
    unfolding add_members
    add_members-CoherentBut gid [] s h = h
    add_members-CoherentBut gid (m ∷ ms) s h =
        elim (Bool-cases (w.user_exists m && up (Query.insert_member m))) [
          | inr skipped ↦ rw skipped (add_members-CoherentBut gid ms s h)
          | inl added ↦ rw added (
              add_members-CoherentBut gid ms _ (
                with_members s gid (add_row gid m member s.members) h
                  (λ k apart. roles_of-add_row gid k apart m member s.members)))
        ]

    pub remove_members-CoherentBut :
        (me gid : String) (ms : List String) (s : State)
        → CoherentBut gid s
        → CoherentBut gid (remove_members w up me gid ms s)
    unfolding remove_members
    remove_members-CoherentBut me gid [] s h = h
    remove_members-CoherentBut me gid (m ∷ ms) s h =
        elim (Bool-cases (not (m =s= me) && up (Query.delete_member m))) [
          | inr skipped ↦ rw skipped (remove_members-CoherentBut me gid ms s h)
          | inl removed ↦ rw removed (
              remove_members-CoherentBut me gid ms _ (
                with_members s gid (remove_row gid m s.members) h
                  (λ k apart. roles_of-remove_row gid k apart m s.members)))
        ]
