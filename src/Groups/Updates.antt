-- ===== src/Groups/Updates.antt =====
-- Updating a group, deleting it, its roles and leaving it, of server/groups.go. `me` is what
-- `validateToken` says of the request's token; a body that does not decode is `none`.
use hexeris_beta.Base.{
  ℕ, String, Option, none, some, Bool, true, false, ◌&&◌, not, ltb, ◌==◌, if◌then◌else◌, ◌=s=◌,
}
use hexeris_beta.Base.Dict.{lookup, insert, delete}
use hexeris_beta.Groups.Store.{
  Role, is_admin, GroupRow, State, Query, is_group, count, admins, remove_row, remove_rows,
  set_role, promote_first, invalidate_group, is_group_member, is_group_admin, notify_group,
}
use hexeris_beta.Groups.Handlers.{
  World, Response, refused, no_content, info, max_group_description_len, load_group_info,
  valid_group_name, group_name_taken,
}

module _ (w : World) (up : Query → Bool) where
  abbrev pub edit_group : String → (GroupRow → GroupRow) → State → State
  edit_group gid f s = elim (lookup gid s.groups) [
    | none ↦ s
    | some g ↦ record s { groups = insert gid (f g) s.groups }
  ]

  -- The change of the name, or the refusal.
  unfoldable pub update_name : State → String → Option String → Option ℕ × State
  unfolding valid_group_name group_name_taken
  update_name s gid none = (none, s)
  update_name s gid (some raw) =
      let (name, okay) = valid_group_name w up raw in
      if not okay
      then (some 400, s)
      else if group_name_taken w up s name gid
      then (some 409, s)
      else if not (up Query.update_name)
      then (some 500, s)
      else (none, edit_group gid (λ g. record g { name = name }) s)

  unfoldable pub update_description : State → String → Option String → Option ℕ × State
  update_description s gid none = (none, s)
  update_description s gid (some raw) =
      let d = w.trim raw in
      if ltb max_group_description_len (w.runes d)
      then (some 400, s)
      else if not (up Query.update_description)
      then (some 500, s)
      else (none, edit_group gid (λ g. record g { description = d }) s)

  unfoldable pub finish_update : Option ℕ × State → String → Response × State
  finish_update (some status, s) gid = (refused status, s)
  finish_update (none, s) gid =
      let s' = notify_group up (invalidate_group up s gid) gid in
      (info (load_group_info w up s' gid), s')

  unfoldable pub then_description : Option ℕ × State → String → Option String → Option ℕ × State
  unfolding update_description
  then_description (some status, s) gid descr = (some status, s)
  then_description (none, s) gid descr = update_description s gid descr

  abbrev is_nothing : Option String → Option String → Bool
  is_nothing none none = true
  is_nothing none (some d) = false
  is_nothing (some n) d = false

  -- POST /groups/update: a field that is `none` is left unchanged.
  unfoldable pub update_handler :
      State
      → Option String
      → Bool
      → Option (String × Option String × Option String)
      → Response × State
  unfolding finish_update then_description update_name is_group_admin
  update_handler s none is_post req = (refused 401, s)
  update_handler s (some me) is_post none = (refused (if is_post then 400 else 401), s)
  update_handler s (some me) is_post (some (gid, name, descr)) =
      let (allowed, s') = is_group_admin up s gid me in
      if not is_post
      then (refused 401, s)
      else if not (is_group gid)
      then (refused 400, s)
      else if not allowed
      then (refused 403, s')
      else if is_nothing name descr
      then (refused 400, s')
      else finish_update (then_description (update_name s' gid name) gid descr) gid

  unfoldable pub delete_rows : String → State → State
  unfolding remove_rows invalidate_group
  delete_rows gid s =
      let s1 =
        if up Query.delete_members then record s { members = remove_rows gid s.members } else s in
      let s2 = if up Query.delete_group then record s1 { groups = delete gid s1.groups } else s1 in
      invalidate_group up s2 gid

  -- POST /groups/delete
  unfoldable pub delete_handler : State → Option String → Bool → Option String → Response × State
  unfolding delete_rows is_group_admin
  delete_handler s none is_post req = (refused 401, s)
  delete_handler s (some me) is_post none = (refused (if is_post then 400 else 401), s)
  delete_handler s (some me) is_post (some gid) =
      let (allowed, s') = is_group_admin up s gid me in
      if not is_post
      then (refused 401, s)
      else if not (is_group gid)
      then (refused 400, s)
      else if not allowed
      then (refused 403, s')
      else (no_content, delete_rows gid (notify_group up s' gid))

  unfoldable pub change_role : State → String → String → String → Role → Response × State
  unfolding set_role
  change_role s me gid user role =
      let n = if up Query.count_admins then admins gid s.members else 0 in
      let s1 =
        if up Query.update_role
        then record s { members = set_role gid user role s.members }
        else s in
      let demotes = not (is_admin role) in
      if (user =s= me) && demotes && ltb n 2
      then (refused 409, s)
      else (no_content, notify_group up s1 gid)

  -- POST /groups/role: a role of another spelling does not decode to a request.
  unfoldable pub role_handler :
      State → Option String → Bool → Option (String × String × Role) → Response × State
  unfolding change_role is_group_admin
  role_handler s none is_post req = (refused 401, s)
  role_handler s (some me) is_post none = (refused (if is_post then 400 else 401), s)
  role_handler s (some me) is_post (some (gid, user, role)) =
      let (allowed, s') = is_group_admin up s gid me in
      if not is_post
      then (refused 401, s)
      else if not allowed
      then (refused 403, s')
      else change_role s' me gid user role

  -- Behind the deletion of the leaver's own row.
  unfoldable pub after_leave : State → String → State
  unfolding promote_first invalidate_group
  after_leave s gid =
      let n = if up Query.count_members then count gid s.members else 0 in
      let a = if up Query.count_admins then admins gid s.members else 0 in
      let emptied =
        if up Query.delete_group then record s { groups = delete gid s.groups } else s in
      let promoted =
        if (a == 0) && up Query.promote
        then record s { members = promote_first gid s.members }
        else s in
      if n == 0 then invalidate_group up emptied gid else notify_group up promoted gid

  -- POST /groups/leave
  unfoldable pub leave_handler : State → Option String → Bool → Option String → Response × State
  unfolding after_leave remove_row is_group_member
  leave_handler s none is_post req = (refused 401, s)
  leave_handler s (some me) is_post none = (refused (if is_post then 400 else 401), s)
  leave_handler s (some me) is_post (some gid) =
      let (allowed, s') = is_group_member up s gid me in
      let s1 =
        if up (Query.delete_member me)
        then record s' { members = remove_row gid me s'.members }
        else s' in
      if not is_post
      then (refused 401, s)
      else if not allowed
      then (refused 403, s')
      else (no_content, after_leave s1 gid)
