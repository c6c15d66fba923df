-- ===== src/Groups/Handlers.antt =====
-- Creating a group and changing its members, of server/groups.go. `me` is what `validateToken` says of the request's token; a
-- body that does not decode is `none`. The texts are cut and counted by `strings` and `unicode`.
use hexeris_beta.Base.{
  ℕ, ◌+◌, ◌-◌, String, Option, none, some, Bool, List, [], ◌∷◌, ◌++◌, ◌&&◌, not, ltb, leb, length,
  if◌then◌else◌, ◌=s=◌,
}
use hexeris_beta.Base.Dict.{lookup, insert}
use hexeris_beta.Limiter.{RateLimiter, is_blocked, record_failure}
use hexeris_beta.Groups.Store.{
  admin, member, GroupRow, Roles, State, Query, is_group, roles_of, count, add_row, remove_row,
  name_is_taken, is_group_admin, notify_group,
}

abbrev pub max_group_members : ℕ
max_group_members = 200

abbrev pub max_group_description_len : ℕ
max_group_description_len = 280

-- `strings.TrimSpace`, the number of runes of a text, and `userExists` at the time of the request.
pub record World : Type 0 where
  pub trim : String → String
  pub runes : String → ℕ
  pub user_exists : String → Bool

pub record GroupInfo : Type 0 where
  pub id : String
  pub row : GroupRow
  pub members : Roles

pub data Response : Type 0 where
  refused : ℕ → Response
  no_content : Response
  info : Option GroupInfo → Response

module _ (w : World) (up : Query → Bool) where
  unfoldable pub load_group_info : State → String → Option GroupInfo
  unfolding roles_of
  load_group_info s gid =
      if up Query.select_info && up Query.select_members
      then elim (lookup gid s.groups) [
        | none ↦ none
        | some g ↦ some (record { id = gid; row = g; members = roles_of gid s.members })
      ]
      else none

  unfoldable pub valid_group_name : String → String × Bool
  valid_group_name name =
      let name' = w.trim name in (name', not (name' =s= "") && leb (w.runes name') 64)

  -- A query that fails leaves `exists` false.
  unfoldable pub group_name_taken : State → String → String → Bool
  unfolding name_is_taken
  group_name_taken s name except = up Query.name_taken && name_is_taken name except s.groups

  unfoldable pub add_members : String → List String → State → State
  unfolding add_row
  add_members gid [] s = s
  add_members gid (m ∷ ms) s = add_members gid ms (
      if w.user_exists m && up (Query.insert_member m)
      then record s { members = add_row gid m member s.members }
      else s)

  -- The members named at the creation, but the creator.
  abbrev pub others : String → List String → List String
  others me [] = []
  others me (m ∷ ms) = let rest = others me ms in if m =s= me then rest else m ∷ rest

  unfoldable pub create_group :
      State
      → RateLimiter
      → ℕ
      → String
      → String
      → String
      → List String
      → Response × State × RateLimiter
  unfolding add_members add_row
  create_group s lim now me gid name ms = elim (lookup gid s.groups) [
    | some g ↦ (refused 500, s, lim)
    | none ↦
        if not (up Query.insert_group)
        then (refused 500, s, lim)
        else (let s1 = record s {
          groups = insert gid (record { name = name; description = ""; created_by = me }) s.groups;
        } in
            let s2 =
              if up Query.insert_admin
              then record s1 { members = add_row gid me admin s1.members }
              else s1 in
            let s3 = notify_group up (add_members gid (others me ms) s2) gid in
            (info (load_group_info s3 gid), s3, record_failure lim now me))
  ]

  -- POST /groups, `gid` being the new random id.
  unfoldable pub create_handler :
      State
      → RateLimiter
      → ℕ
      → Option String
      → Option (String × List String)
      → String
      → Response × State × RateLimiter
  unfolding create_group valid_group_name group_name_taken is_blocked
  create_handler s lim now none req gid = (refused 401, s, lim)
  create_handler s lim now (some me) none gid = (refused 400, s, lim)
  create_handler s lim now (some me) (some (raw, ms)) gid =
      let (name, okay) = valid_group_name raw in
      let (blocked, lim') = is_blocked lim now me in
      if not okay
      then (refused 400, s, lim)
      else if ltb (max_group_members - 1) (length ms)
      then (refused 409, s, lim)
      else if blocked
      then (refused 429, s, lim')
      else if group_name_taken s name ""
      then (refused 409, s, lim')
      else create_group s lim' now me gid name ms

  unfoldable pub remove_members : String → String → List String → State → State
  unfolding remove_row
  remove_members me gid [] s = s
  remove_members me gid (m ∷ ms) s = remove_members me gid ms (
      if not (m =s= me) && up (Query.delete_member m)
      then record s { members = remove_row gid m s.members }
      else s)

  unfoldable pub change_members :
      State → String → String → List String → List String → Response × State
  unfolding add_members remove_members
  change_members s me gid add remove =
      let current = if up Query.count_members then count gid s.members else 0 in
      if ltb 0 (length add) && ltb max_group_members (current + length add)
      then (refused 409, s)
      else (let s1 = notify_group up (remove_members me gid remove (add_members gid add s)) gid in
          (no_content, record s1 { events = s1.events ++ others me remove }))

  -- POST /groups/members: the group id, whom to add and whom to remove.
  unfoldable pub members_handler :
      State → Option String → Bool → Option (String × List String × List String) → Response × State
  unfolding change_members is_group_admin
  members_handler s none is_post req = (refused 401, s)
  members_handler s (some me) is_post none = (refused (if is_post then 400 else 401), s)
  members_handler s (some me) is_post (some (gid, add, remove)) =
      let (allowed, s') = is_group_admin up s gid me in
      if not is_post
      then (refused 401, s)
      else if not (is_group gid)
      then (refused 400, s)
      else if not allowed
      then (refused 403, s')
      else change_members s' me gid add remove
