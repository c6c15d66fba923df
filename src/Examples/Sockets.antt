-- ===== src/Examples/Sockets.antt =====
-- server/ws.go and server/delivery.go with two users and three connections.
use hexeris_beta.Base.{ℕ, ◌≡◌, refl, String, none, some, true, false, [], ◌∷◌, map, ◌=s=◌, arith}
use hexeris_beta.Base.Dict.{lookup, delete}
use hexeris_beta.Limiter.{new_limiter}
use hexeris_beta.Groups.Store.{is_group}
use hexeris_beta.Hub.Marks.{Marks, mark_delivered, mark, took, run}
use hexeris_beta.Hub.Marks.Kept.{In, drain, mark_delivered-written}
use hexeris_beta.Hub.Sockets.{Socket, send_each, one_takes, snapshot_clients}
use hexeris_beta.Hub.Routing.{
  Message, Services, replied, Hub, Client, ack_of, stamped, user_exists, save_message,
  route_message,
}
use hexeris_beta.Hub.Routing.Addressees.{sees_direct, status_of, route_message-sockets}
use hexeris_beta.Hub.Routing.Refusals.{route_message_refuses}

abbrev services : Services
services = record {
  marshal = λ m. m.seq ∷ m.created_at ∷ [];
  encrypt_body = λ body. body;
  is_group_member = λ group user. false;
  group_members = λ group. [];
  user_row = λ user. user =s= "bob";
  chat_muted = λ user peer. false;
  wait = λ msg. replied (some (7, 1000));
  mark_read = λ peer reader. none;
  reaction_target = λ id. none;
  fresh_id = "fresh";
  visited = λ calls. calls;
  now = 5;
  now_unix = 0;
}

abbrev socket : ℕ → String → Socket
socket id user = record { id = id; username = user; out = []; closed = false }

-- Ann has two connections, Bob one; Cid and Dan are calling Bob.
abbrev hub : Hub
hub = record {
  sockets = socket 1 "ann" ∷ socket 2 "ann" ∷ socket 3 "bob" ∷ [];
  clients = ("ann", 1 ∷ 2 ∷ []) ∷ ("bob", 3 ∷ []) ∷ [];
  call_map = ("cid", "bob") ∷ ("dan", "bob") ∷ [];
  queues = [];
  known_users = [];
  saved = [];
  marks = [];
  pushes = [];
  pending_offline = [];
  statuses = [];
  reaction_limiter = new_limiter 30 60;
  reactions = [];
}

abbrev message : String → String → String → Message
message kind from to = record {
  kind = kind;
  id = "m1";
  seq = 0;
  from = from;
  to = to;
  body = "hi";
  media_type = "";
  emoji = "";
  reply_to = "";
  forwarded = false;
  created_at = 0;
  reason = "";
}

abbrev ann : Client
ann = record { number = 1; username = "ann" }

abbrev bob : Client
bob = record { number = 3; username = "bob" }

abbrev title : String → String → String
title from group = from

route_message-sockets_example :
    let m = stamped services (message "message" "ann" "bob") (7, 1000) in
    let taken = one_takes (snapshot_clients "bob" hub.clients) (services.marshal m) hub.sockets in
    (route_message services title (message "message" "ann" "bob") ann hub).sockets
    ≡ map (sees_direct services m ann (status_of taken) hub) hub.sockets
unfolding is_group user_exists save_message lookup
route_message-sockets_example =
    route_message-sockets services title (message "message" "ann" "bob") ann hub (7, 1000) refl refl
      refl

-- Eve is not there.
route_message_refuses_example :
    route_message services title (message "message" "ann" "eve") ann hub ≡ record hub {
      sockets =
          send_each
            (1 ∷ [])
            (services.marshal (ack_of services "m1" "failed" 0 "no_user" 0))
            hub.sockets;
    }
unfolding is_group lookup delete
route_message_refuses_example =
    route_message_refuses services title (message "message" "ann" "eve") ann hub
      (λ g. absurd (cc g)) (λ g. refl) (λ t found. absurd (cc found))

abbrev no_marks : Marks
no_marks = record { queue = []; batch = []; delivered = [] }

mark_delivered-written_example :
    In "m1"
      (drain 1
        (run (mark true "m2" ∷ took true ∷ []) (mark_delivered true "m1" no_marks))).delivered
unfolding run
mark_delivered-written_example =
    mark_delivered-written "m1" no_marks (mark true "m2" ∷ took true ∷ []) 1 (refl, (refl, tt))
      (omega arith)
