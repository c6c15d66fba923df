-- ===== src/Groups/Requests.antt =====
-- Sequences of requests to the endpoints of server/groups.go, with any statement of any request
-- failing. An update that changes both the name and the description is not among them.
use hexeris_beta.Base.{ℕ, String, Option, none, some, Bool, List, [], ◌∷◌}
use hexeris_beta.Limiter.{RateLimiter}
use hexeris_beta.Groups.Store.{Role, State, Query}
use hexeris_beta.Groups.Handlers.{World, create_handler, members_handler}
use hexeris_beta.Groups.Updates.{update_handler, delete_handler, role_handler, leave_handler}

-- A request, with its token's user, whether it is a POST, and its body.
pub data Endpoint : Type 0 where
  create : RateLimiter → ℕ → Option String → Option (String × List String) → String → Endpoint
  members : Option String → Bool → Option (String × List String × List String) → Endpoint
  rename : Option String → Bool → String → String → Endpoint
  describe : Option String → Bool → String → String → Endpoint
  erase : Option String → Bool → Option String → Endpoint
  role : Option String → Bool → Option (String × String × Role) → Endpoint
  leave : Option String → Bool → Option String → Endpoint

unfoldable pub serve : World → (Query → Bool) → Endpoint → State → State
unfolding create_handler members_handler update_handler delete_handler role_handler leave_handler
serve w up (create lim now me req gid) s = (create_handler w up s lim now me req gid).1
serve w up (members me post req) s = (members_handler w up s me post req).1
serve w up (rename me post gid name) s =
    (update_handler w up s me post (some (gid, some name, none))).1
serve w up (describe me post gid text) s =
    (update_handler w up s me post (some (gid, none, some text))).1
serve w up (erase me post req) s = (delete_handler w up s me post req).1
serve w up (role me post req) s = (role_handler w up s me post req).1
serve w up (leave me post req) s = (leave_handler w up s me post req).1

-- The requests in order, each with the statements that work while it is served.
unfoldable pub serve_all : World → List ((Query → Bool) × Endpoint) → State → State
unfolding serve
serve_all w [] s = s
serve_all w ((up, e) ∷ es) s = serve_all w es (serve w up e s)
