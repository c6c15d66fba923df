-- ===== src/Hub/Sockets.antt =====
-- The connections of server/main.go (`Client`, `send`, `close`) and their registry `clients`, with
-- `removeClientLocked` and `snapshotClients` of server/ws.go. A connection is known by a number, so
-- that the registry and a handler speak of the same one; the mutex makes each function atomic.
pub mod Sending
pub mod Queue
use hexeris_beta.Base.{
  ℕ, ◌+◌, String, Option, none, some, Bool, true, false, List, [], ◌∷◌, ◌++◌, map, ltb, ◌==◌, ◌||◌,
  length, if◌then◌else◌,
}
use hexeris_beta.Base.Dict.{Dict, lookup, insert, delete}

abbrev pub client_send_buffer : ℕ
client_send_buffer = 256

-- A connection and the frames that wait in its queue.
pub record Socket : Type 0 where
  pub id : ℕ
  pub username : String
  pub out : List (List ℕ)
  pub closed : Bool

abbrev pub Sockets : Type 0
Sockets = List Socket

-- A full queue closes the connection.
unfoldable pub offer : List ℕ → Socket → Socket
offer frame s =
    if s.closed
    then s
    else if ltb (length s.out) client_send_buffer
    then record s { out = s.out ++ frame ∷ [] }
    else record s { closed = true }

-- Whether `send` returns no error.
unfoldable pub accepts : Socket → Bool
accepts s = if s.closed then false else ltb (length s.out) client_send_buffer

unfoldable pub send : ℕ → List ℕ → Sockets → Sockets
unfolding offer
send id frame [] = []
send id frame (s ∷ rest) = (if s.id == id then offer frame s else s) ∷ send id frame rest

unfoldable pub send_works : ℕ → Sockets → Bool
unfolding accepts
send_works id [] = false
send_works id (s ∷ rest) = let later = send_works id rest in if s.id == id then accepts s else later

unfoldable pub close : ℕ → Sockets → Sockets
close id [] = []
close id (s ∷ rest) = (if s.id == id then record s { closed = true } else s) ∷ close id rest

-- The loop over a list of connections, and whether one of them has taken the frame.
unfoldable pub send_each : List ℕ → List ℕ → Sockets → Sockets
unfolding send
send_each [] frame ss = ss
send_each (id ∷ ids) frame ss = send_each ids frame (send id frame ss)

unfoldable pub one_takes : List ℕ → List ℕ → Sockets → Bool
unfolding send_works send
one_takes [] frame ss = false
one_takes (id ∷ ids) frame ss = send_works id ss || one_takes ids frame (send id frame ss)

abbrev pub Clients : Type 0
Clients = Dict (List ℕ)

-- `snapshotClients`; a missing key reads as the empty slice.
unfoldable pub snapshot_clients : String → Clients → List ℕ
snapshot_clients username clients = elim (lookup username clients) [ none ↦ [] | some ids ↦ ids ]

unfoldable pub without : ℕ → List ℕ → List ℕ
without id [] = []
without id (x ∷ xs) = let rest = without id xs in if x == id then rest else x ∷ rest

-- `clients[username] = append(clients[username], client)`
unfoldable pub add_client : String → ℕ → Clients → Clients
unfolding snapshot_clients
add_client username id clients =
    insert username (snapshot_clients username clients ++ id ∷ []) clients

abbrev keep_or_drop : String → List ℕ → Clients → Clients × ℕ
keep_or_drop username [] clients = (delete username clients, 0)
keep_or_drop username (x ∷ xs) clients = (insert username (x ∷ xs) clients, length (x ∷ xs))

-- The registry that is left, and the number of the user's connections in it.
unfoldable pub remove_client_locked : String → ℕ → Clients → Clients × ℕ
unfolding snapshot_clients without
remove_client_locked username id clients =
    keep_or_drop username (without id (snapshot_clients username clients)) clients
