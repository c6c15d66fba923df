-- ===== src/Examples/Chats.antt =====
-- server/groups.go on one group.
use hexeris_beta.Base.{
  ◌≡◌, refl, none, some, Bool, true, false, List, [], ◌∷◌, if◌then◌else◌, ◌=s=◌,
}
use hexeris_beta.Base.Dict.{lookup}
use hexeris_beta.Groups.Store.{
  admin, member, GroupRow, State, Query, roles_of, role_in, is_group_member,
}
use hexeris_beta.Groups.Handlers.{World}
use hexeris_beta.Groups.Updates.{leave_handler}
use hexeris_beta.Groups.Cache.{Coherent}
use hexeris_beta.Groups.Requests.{Endpoint, members, role, leave, serve_all}
use hexeris_beta.Groups.Served.{serve_all-Coherent}
use hexeris_beta.Groups.Answers.{leave_deletes_group}

abbrev world : World
world = record {
  trim = λ s. s;
  runes = λ s. if s =s= "a long text" then 300 else 3;
  user_exists = λ user. true;
}

abbrev up : Query → Bool
up q = true

abbrev uncounted : Query → Bool
uncounted Query.count_members = false
uncounted _ = true

abbrev row : GroupRow
row = record { name = "old"; description = ""; created_by = "ann" }

abbrev start : State
start = record {
  groups = ("g:1", row) ∷ [];
  members =
      record { group_id = "g:1"; username = "ann"; role = admin }
      ∷ record { group_id = "g:1"; username = "bob"; role = member }
      ∷ [];
  cache = [];
  events = [];
}

start-Coherent : Coherent start
unfolding lookup
start-Coherent = record { at = λ gid g found. absurd (cc found) }

abbrev requests : List ((Query → Bool) × Endpoint)
requests =
    (up, role (some "ann") true (some ("g:1", "bob", admin)))
    ∷ (uncounted, members (some "bob") true (some ("g:1", "cid" ∷ [], [])))
    ∷ (up, leave (some "ann") true (some "g:1"))
    ∷ []

serve_all-Coherent_example : Coherent (serve_all world requests start)
serve_all-Coherent_example =
    serve_all-Coherent world requests start ((λ user. refl), ((λ user. refl), ((λ user. refl), tt)))
      start-Coherent

-- Bob is still a member of the group that is gone.
leave_deletes_group_example :
    (lookup "g:1" (leave_handler world uncounted start (some "ann") true (some "g:1")).1.groups
      ≡ none)
    × (role_in "bob" (
          roles_of "g:1"
            (leave_handler world uncounted start (some "ann") true (some "g:1")).1.members)
        ≡ role_in "bob" (roles_of "g:1" start.members))
unfolding is_group_member lookup
leave_deletes_group_example =
    leave_deletes_group world uncounted start "ann" "g:1" "bob" refl refl refl refl refl
