-- ===== src/Hub/Routing.antt =====
-- The routing of messages in server/ws.go: userExists, saveMessage, routeMessage, routeGroupMessage,
-- routeMessageNoSave, handleRead and the acknowledgements.
pub mod Addressees
pub mod Refusals
use hexeris_beta.Base.{
  ℕ, ◌+◌, String, Option, none, some, Bool, true, false, not, List, [], ◌∷◌, ◌++◌, map, ltb, ◌==◌,
  ◌||◌, ◌&&◌, ◌=s=◌, if◌then◌else◌,
}
use hexeris_beta.Base.Dict.{Dict, lookup, insert, delete}
use hexeris_beta.Limiter.{RateLimiter}
use hexeris_beta.Calls.{Queues}
use hexeris_beta.Groups.Store.{is_group}
use hexeris_beta.Hub.Sockets.{Sockets, send_each, one_takes, Clients, snapshot_clients, without}

-- `Message` without the fields of a profile, which no function here sets or reads.
pub record Message : Type 0 where
  pub kind : String
  pub id : String
  pub seq : ℕ
  pub from : String
  pub to : String
  pub body : String
  pub media_type : String
  pub emoji : String
  pub reply_to : String
  pub forwarded : Bool
  pub created_at : ℕ
  pub reason : String

-- How a message's turn in the queue of the writers comes out: the queue stays full, a reply (`none`
-- is an error) or no reply in time.
pub data Wait : Type 0 where
  not_queued no_reply : Wait
  replied : Option (ℕ × ℕ) → Wait

-- What the hub asks elsewhere: JSON, `encryptBody`, the membership of groups (server/groups.go), the
-- table of users, the mutes (server/chatprefs.go), the writers (server/msgwriter.go), the UPDATE of
-- read marks with the ids it returns, the sender and recipient of a message (`none` for a failed query
-- too), `generateID`, the order in which a range statement visits the entries of a map, and the clock
-- in nanoseconds and in seconds.
pub record Services : Type 0 where
  pub marshal : Message → List ℕ
  pub encrypt_body : String → String
  pub is_group_member : String → String → Bool
  pub group_members : String → List String
  pub user_row : String → Bool
  pub chat_muted : String → String → Bool
  pub wait : Message → Wait
  pub mark_read : String → String → Option (List String)
  pub reaction_target : String → Option (String × String)
  pub fresh_id : String
  pub visited : Dict String → Dict String
  pub now : ℕ
  pub now_unix : ℕ

pub data Push : Type 0 where
  notify_call_push : String → String → Push
  notify_offline_push : String → String → String → Push

-- `saved` are the messages and bodies that reached the writers' queue, `marks` the ids that were
-- given to markDelivered (Hub/Marks), `pushes` the notifications. `pending_offline` has the times at
-- which the deferred broadcasts go off, `statuses` those that went out, and `reactions` the toggles
-- that were sent to the table.
pub record Hub : Type 0 where
  pub sockets : Sockets
  pub clients : Clients
  pub call_map : Dict String
  pub queues : Queues
  pub known_users : Dict ℕ
  pub saved : List (Message × String)
  pub marks : List String
  pub pushes : List Push
  pub pending_offline : Dict ℕ
  pub statuses : List (String × String)
  pub reaction_limiter : RateLimiter
  pub reactions : List (String × String × String)

-- Ten minutes.
abbrev pub known_user_ttl : ℕ
known_user_ttl = 600_000_000_000

-- One connection, as a handler holds it.
pub record Client : Type 0 where
  pub number : ℕ
  pub username : String

module _ (sv : Services) where
  unfoldable pub ask_users : String → Dict ℕ → Bool × Dict ℕ
  ask_users username known =
      if sv.user_row username then (true, insert username sv.now known) else (false, known)

  unfoldable pub user_exists : String → Dict ℕ → Bool × Dict ℕ
  unfolding ask_users
  user_exists username known = elim (lookup username known) [
    | none ↦ ask_users username known
    | some cached_at ↦
        if ltb sv.now (cached_at + known_user_ttl)
        then (true, known)
        else ask_users username (delete username known)
  ]

  abbrev queued : Message → String → Hub → Hub
  queued msg body h = record h { saved = h.saved ++ (msg, body) ∷ [] }

  unfoldable pub enqueue : Message → String → Wait → Hub → Option (ℕ × ℕ) × Hub
  enqueue msg body not_queued h = (none, h)
  enqueue msg body no_reply h = (none, queued msg body h)
  enqueue msg body (replied result) h = (result, queued msg body h)

  unfoldable pub save_message : Message → Hub → Option (ℕ × ℕ) × Hub
  unfolding enqueue
  save_message msg h =
      if not (msg.kind =s= "") && not (msg.kind =s= "message")
      then (some (0, 0), h)
      else enqueue msg (if msg.media_type =s= "" then sv.encrypt_body msg.body else msg.body)
          (sv.wait msg) h

  abbrev pub ack_of : String → String → ℕ → String → ℕ → Message
  ack_of msg_id status seq reason created_at = record {
    kind = "ack";
    id = msg_id;
    seq = seq;
    from = "";
    to = "";
    body = status;
    media_type = "";
    emoji = "";
    reply_to = "";
    forwarded = false;
    created_at = created_at;
    reason = reason;
  }

  abbrev pub send_out : List ℕ → Message → Hub → Hub
  send_out ids msg h = record h { sockets = send_each ids (sv.marshal msg) h.sockets }

  unfoldable pub send_ack_reason : Client → String → String → ℕ → String → ℕ → Hub → Hub
  unfolding send_each
  send_ack_reason c msg_id status seq reason created_at =
      send_out (c.number ∷ []) (ack_of msg_id status seq reason created_at)

  unfoldable pub send_ack : Client → String → String → ℕ → ℕ → Hub → Hub
  unfolding send_ack_reason
  send_ack c msg_id status seq created_at = send_ack_reason c msg_id status seq "" created_at

  unfoldable pub send_ack_to_all : String → String → String → ℕ → Hub → Hub
  unfolding send_each snapshot_clients
  send_ack_to_all username msg_id status seq h =
      send_out (snapshot_clients username h.clients) (ack_of msg_id status seq "" 0) h

  abbrev marked : String → Hub → Hub
  marked id h = record h { marks = h.marks ++ id ∷ [] }

  abbrev pushed : Push → Hub → Hub
  pushed p h = record h { pushes = h.pushes ++ p ∷ [] }

  -- Behind the delivery of a saved message.
  unfoldable pub settle : Message → Client → Bool → Hub → Hub
  unfolding send_ack
  settle msg sender true h =
      send_ack sender msg.id "delivered" msg.seq msg.created_at (marked msg.id h)
  settle msg sender false h =
      let told =
        if sv.chat_muted msg.to msg.from
        then h
        else pushed (notify_offline_push msg.to msg.from msg.media_type) h in
      send_ack sender msg.id "sent" msg.seq msg.created_at told

  -- A message that is stored goes to the recipient's connections and the sender's other ones.
  unfoldable pub deliver : Message → Client → Hub → Hub
  unfolding settle send_each one_takes snapshot_clients without
  deliver msg sender h =
      let recipients = snapshot_clients msg.to h.clients in
      let others = without sender.number (snapshot_clients sender.username h.clients) in
      settle msg sender (one_takes recipients (sv.marshal msg) h.sockets)
        (send_out others msg (send_out recipients msg h))

  abbrev pub stamped : Message → ℕ × ℕ → Message
  stamped msg (seq, created_at) = record msg { seq = seq; created_at = created_at }

  unfoldable pub after_save : Message → Client → Option (ℕ × ℕ) × Hub → Hub
  unfolding deliver send_ack_to_all
  after_save msg sender (none, h) = send_ack_to_all sender.username msg.id "failed" 0 h
  after_save msg sender (some result, h) = deliver (stamped msg result) sender h

  -- A connection gets the frame for each of the members, less the sender's own.
  unfoldable pub fan_out : List String → Message → Client → Hub → Hub
  unfolding send_each snapshot_clients without
  fan_out [] msg sender h = h
  fan_out (m ∷ ms) msg sender h =
      fan_out ms msg sender (send_out (without sender.number (snapshot_clients m h.clients)) msg h)

  abbrev is_empty : List ℕ → Bool
  is_empty [] = true
  is_empty (x ∷ xs) = false

  -- The members who are offline and have not muted the group are notified; `title` is the sender
  -- and the name of the group.
  unfoldable pub notify_offline : List String → String → Message → Client → Hub → Hub
  unfolding snapshot_clients
  notify_offline [] title msg sender h = h
  notify_offline (m ∷ ms) title msg sender h =
      let silent =
        m =s= sender.username
        || not (is_empty (snapshot_clients m h.clients))
        || sv.chat_muted m msg.to in
      notify_offline ms title msg sender
        (if silent then h else pushed (notify_offline_push m title msg.media_type) h)

  unfoldable pub after_group_save :
      (String → String → String) → Message → Client → Option (ℕ × ℕ) × Hub → Hub
  unfolding fan_out notify_offline send_ack send_ack_to_all
  after_group_save title msg sender (none, h) = send_ack_to_all sender.username msg.id "failed" 0 h
  after_group_save title msg sender (some (seq, created_at), h) =
      let m = stamped msg (seq, created_at) in
      let members = sv.group_members msg.to in
      send_ack sender msg.id "delivered" seq created_at (
        notify_offline members (title msg.from msg.to) m sender
          (fan_out members m sender (marked msg.id h)))

  module _ (title : String → String → String) where
    unfoldable pub route_group_message : Message → Client → Hub → Hub
    unfolding after_group_save save_message send_ack_reason
    route_group_message msg sender h =
        if sv.is_group_member msg.to sender.username
        then after_group_save title msg sender (save_message msg h)
        else send_ack_reason sender msg.id "failed" 0 "not_member" 0 h

    unfoldable pub route_direct : Message → Client → Hub → Hub
    unfolding user_exists after_save save_message send_ack_reason
    route_direct msg sender h =
        let (exists', known) = user_exists msg.to h.known_users in
        let asked = record h { known_users = known } in
        if exists'
        then after_save msg sender (save_message msg asked)
        else send_ack_reason sender msg.id "failed" 0 "no_user" 0 asked

    unfoldable pub route_message : Message → Client → Hub → Hub
    unfolding is_group route_group_message route_direct
    route_message msg sender h =
        if is_group msg.to then route_group_message msg sender h else route_direct msg sender h
