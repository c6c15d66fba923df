-- ===== src/Groups/Store.antt =====
-- The tables of server/groups.go, its statements of SQL, and the membership cache in front of them.
-- The rows of group_members stand in the order of joined_at; `up q` is false where statement `q`
-- fails, and then it has changed nothing.
use text.Mathlib.Text.{starts_with}
use hexeris_beta.Base.{
  ℕ, suc, String, Option, none, some, Bool, true, false, List, [], ◌∷◌, ◌++◌, ◌&&◌, ◌||◌, not,
  if◌then◌else◌, ◌=s=◌,
}
use hexeris_beta.Base.Dict.{Dict, lookup, insert, delete}

pub data Role : Type 0 where
  admin member : Role

abbrev pub is_admin : Role → Bool
is_admin admin = true
is_admin member = false

pub record GroupRow : Type 0 where
  pub name : String
  pub description : String
  pub created_by : String

pub record Member : Type 0 where
  pub group_id : String
  pub username : String
  pub role : Role

abbrev pub Roles : Type 0
Roles = List (String × Role)

pub record CachedGroup : Type 0 where
  pub name : String
  pub roles : Roles

-- `events` lists the users to whom a group event was pushed, in order.
pub record State : Type 0 where
  pub groups : Dict GroupRow
  pub members : List Member
  pub cache : Dict CachedGroup
  pub events : List String

pub data Query : Type 0 where
  select_group select_members select_info name_taken insert_group insert_admin : Query
  scan_member insert_member delete_member : String → Query
  count_members count_admins update_name update_description update_role : Query
  delete_members delete_group promote select_groups : Query

unfoldable pub is_group : String → Bool
is_group id = starts_with id "g:"

-- `SELECT username, role FROM group_members WHERE group_id=$1`
unfoldable pub roles_of : String → List Member → Roles
roles_of gid [] = []
roles_of gid (m ∷ ms) =
    let rest = roles_of gid ms in if m.group_id =s= gid then (m.username, m.role) ∷ rest else rest

unfoldable pub count : String → List Member → ℕ
count gid [] = 0
count gid (m ∷ ms) = let n = count gid ms in if m.group_id =s= gid then suc n else n

unfoldable pub admins : String → List Member → ℕ
admins gid [] = 0
admins gid (m ∷ ms) =
    let n = admins gid ms in if (m.group_id =s= gid) && is_admin m.role then suc n else n

unfoldable pub is_row : String → String → List Member → Bool
is_row gid user [] = false
is_row gid user (m ∷ ms) = ((m.group_id =s= gid) && (m.username =s= user)) || is_row gid user ms

-- `INSERT … ON CONFLICT DO NOTHING`
unfoldable pub add_row : String → String → Role → List Member → List Member
unfolding is_row
add_row gid user role ms =
    if is_row gid user ms
    then ms
    else ms ++ record { group_id = gid; username = user; role = role } ∷ []

unfoldable pub remove_row : String → String → List Member → List Member
remove_row gid user [] = []
remove_row gid user (m ∷ ms) =
    let rest = remove_row gid user ms in
    if (m.group_id =s= gid) && (m.username =s= user) then rest else m ∷ rest

unfoldable pub remove_rows : String → List Member → List Member
remove_rows gid [] = []
remove_rows gid (m ∷ ms) =
    let rest = remove_rows gid ms in if m.group_id =s= gid then rest else m ∷ rest

unfoldable pub set_role : String → String → Role → List Member → List Member
set_role gid user role [] = []
set_role gid user role (m ∷ ms) =
    let rest = set_role gid user role ms in
    if (m.group_id =s= gid) && (m.username =s= user)
    then record m { role = role } ∷ rest
    else m ∷ rest

-- The member who joined first becomes an admin.
unfoldable pub promote_first : String → List Member → List Member
promote_first gid [] = []
promote_first gid (m ∷ ms) =
    let rest = promote_first gid ms in
    if m.group_id =s= gid then record m { role = admin } ∷ ms else m ∷ rest

unfoldable pub name_is_taken : String → String → Dict GroupRow → Bool
name_is_taken name except [] = false
name_is_taken name except ((id, g) ∷ gs) =
    ((g.name =s= name) && not (id =s= except)) || name_is_taken name except gs

unfoldable pub role_in : String → Roles → Option Role
role_in user [] = none
role_in user ((u, r) ∷ rs) = if u =s= user then some r else role_in user rs

abbrev pub names_of : Roles → List String
names_of [] = []
names_of ((u, r) ∷ rs) = u ∷ names_of rs

module _ (up : Query → Bool) where
  -- The rows that come and whose Scan works; the code does not notice the others.
  unfoldable pub scanned : Roles → Roles
  scanned [] = []
  scanned ((u, r) ∷ rs) =
      let rest = scanned rs in if up (Query.scan_member u) then (u, r) ∷ rest else rest

  unfoldable pub fresh_entry : String → GroupRow → List Member → CachedGroup
  unfolding roles_of scanned
  fresh_entry gid g ms = record { name = g.name; roles = scanned (roles_of gid ms) }

  unfoldable pub load_fresh : State → String → Option GroupRow → Option CachedGroup × State
  unfolding fresh_entry
  load_fresh s gid none = (none, s)
  load_fresh s gid (some g) =
      let fresh = fresh_entry gid g s.members in
      if up Query.select_members
      then (some fresh, record s { cache = insert gid fresh s.cache })
      else (none, s)

  unfoldable pub load_missing : State → String → Option CachedGroup → Option CachedGroup × State
  unfolding load_fresh
  load_missing s gid (some g) = (some g, s)
  load_missing s gid none =
      if up Query.select_group then load_fresh s gid (lookup gid s.groups) else (none, s)

  -- From the cache, reading through on a miss; `none` is nil.
  unfoldable pub load_group : State → String → Option CachedGroup × State
  unfolding load_missing
  load_group s gid = load_missing s gid (lookup gid s.cache)

  unfoldable pub invalidate_group : State → String → State
  invalidate_group s gid = record s { cache = delete gid s.cache }

  unfoldable pub is_group_member : State → String → String → Bool × State
  unfolding load_group role_in
  is_group_member s gid user =
      let (o, s') = load_group s gid in
      (
        elim o [
          | none ↦ false
          | some g ↦ elim (role_in user g.roles) [ none ↦ false | some r ↦ true ]
        ],
        s',
      )

  unfoldable pub is_group_admin : State → String → String → Bool × State
  unfolding load_group role_in
  is_group_admin s gid user =
      let (o, s') = load_group s gid in
      (
        elim o [
          | none ↦ false
          | some g ↦ elim (role_in user g.roles) [ none ↦ false | some r ↦ is_admin r ]
        ],
        s',
      )

  unfoldable pub group_members : State → String → List String × State
  unfolding load_group
  group_members s gid =
      let (o, s') = load_group s gid in (elim o [ none ↦ [] | some g ↦ names_of g.roles ], s')

  -- The cache entry is dropped before the members are read.
  unfoldable pub notify_group : State → String → State
  unfolding invalidate_group group_members
  notify_group s gid =
      let (ms, s') = group_members (invalidate_group s gid) gid in
      record s' { events = s'.events ++ ms }
