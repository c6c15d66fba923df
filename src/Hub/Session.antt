-- ===== src/Hub/Session.antt =====
-- `wsHandler` of server/ws.go: a connection opens, its frames are handled one by one, and it closes.
-- The token, the block and the upgrade come before; deliverPending (server/messages.go) and the
-- presence broadcasts of other files are left out.
use Prim.Native.String.{len, count}
use hexeris_beta.Base.{
  ℕ, ◌+◌, String, Option, none, some, Bool, false, List, [], ◌∷◌, ◌++◌, ltb, ◌==◌, ◌||◌, ◌=s=◌,
  if◌then◌else◌,
}
use hexeris_beta.Base.Dict.{Dict, insert, delete}
use hexeris_beta.Calls.{flush_call_signals}
use hexeris_beta.Limiter.{is_blocked, record_failure}
use hexeris_beta.Groups.Store.{is_group}
use hexeris_beta.Hub.Sockets.{
  Socket, Sockets, send_each, close, snapshot_clients, without, add_client, remove_client_locked,
}
use hexeris_beta.Hub.Routing.{
  Message, Services, Hub, Client, send_out, send_ack_reason, route_message,
}
use hexeris_beta.Hub.Signals.{route_message_no_save, relay_typing, handle_read}

abbrev pub max_message_runes : ℕ
max_message_runes = 4096

-- Six seconds.
abbrev pub offline_delay : ℕ
offline_delay = 6_000_000_000

-- The caller of the user that the range statement comes to first.
unfoldable pub caller_of : String → Dict String → Option String
caller_of username [] = none
caller_of username ((caller, callee) ∷ rest) =
    if callee =s= username then some caller else caller_of username rest

-- `visited` has the order in which the entries are visited. One entry goes, then `break`.
unfoldable pub drop_caller : (Dict String → Dict String) → String → Dict String → Dict String
unfolding caller_of
drop_caller visited username calls = elim (caller_of username (visited calls)) [
  | none ↦ calls
  | some caller ↦ delete caller calls
]

unfoldable pub send_frames : ℕ → List (List ℕ) → Sockets → Sockets
unfolding send_each
send_frames id [] ss = ss
send_frames id (frame ∷ frames) ss = send_frames id frames (send_each (id ∷ []) frame ss)

module _ (sv : Services) where
  -- The signals of a call that rings go to the new connection.
  unfoldable pub connect : Client → Hub → Hub
  unfolding add_client flush_call_signals send_frames
  connect c h =
      let (frames, queues) = flush_call_signals h.queues sv.now c.username in
      let socket : Socket = record {
        id = c.number;
        username = c.username;
        out = [];
        closed = false;
      } in
      record h {
        clients = add_client c.username c.number h.clients;
        pending_offline = delete c.username h.pending_offline;
        queues = queues;
        sockets = send_frames c.number frames (h.sockets ++ socket ∷ []);
      }

  abbrev left_alone : Client → ℕ → Hub → Hub
  left_alone c n h =
      if n == 0
      then record h {
        pending_offline = insert c.username (sv.now + offline_delay) h.pending_offline;
        call_map = drop_caller sv.visited c.username (delete c.username h.call_map);
      }
      else h

  unfoldable pub disconnect : Client → Hub → Hub
  unfolding remove_client_locked drop_caller close
  disconnect c h =
      let (clients, n) = remove_client_locked c.username c.number h.clients in
      let gone = left_alone c n (record h { clients = clients }) in
      record gone { sockets = close c.number gone.sockets }

  -- The deferred broadcast, unless the user is back.
  unfoldable pub offline_timer : String → Hub → Hub
  unfolding snapshot_clients
  offline_timer username h =
      let fired = record h { pending_offline = delete username h.pending_offline } in
      elim (snapshot_clients username h.clients) [
        | [] ↦ record fired { statuses = h.statuses ++ (username, "offline") ∷ [] }
        | c ∷ cs ↦ fired
      ]

  abbrev is_text : Message → Bool
  is_text msg = msg.kind =s= "message" || msg.kind =s= ""

  -- The author of a frame is the user of the connection, whatever the frame says.
  abbrev pub authored : Client → Message → Message
  authored c msg = record msg {
    from = c.username;
    id = if ltb 64 (len msg.id) then sv.fresh_id else msg.id;
  }

  abbrev with_id : Message → Message
  with_id msg = record msg { id = if msg.id =s= "" then sv.fresh_id else msg.id }

  -- Whether the user may react to the message with this sender and recipient.
  abbrev may_react : String → Option (String × String) → Bool
  may_react username none = false
  may_react username (some (sender, recipient)) =
      if is_group recipient
      then sv.is_group_member recipient username
      else sender =s= username || recipient =s= username

  -- A reaction that is allowed is toggled, echoed to the author's other connections and relayed.
  unfoldable pub react : Client → Message → Hub → Hub
  unfolding send_each snapshot_clients without route_message_no_save record_failure is_group
  react c msg h =
      let counted = record h {
        reaction_limiter = record_failure h.reaction_limiter sv.now_unix c.username;
      } in
      let toggled = record counted {
        reactions = counted.reactions ++ (msg.id, c.username, msg.emoji) ∷ [];
      } in
      if may_react c.username (sv.reaction_target msg.id)
      then route_message_no_save sv (with_id msg)
          (send_out sv (without c.number (snapshot_clients c.username h.clients)) msg toggled)
      else counted

  unfoldable pub limited_reaction : Client → Message → Hub → Hub
  unfolding react is_blocked
  limited_reaction c msg h =
      let (blocked, limiter) = is_blocked h.reaction_limiter sv.now_unix c.username in
      let asked = record h { reaction_limiter = limiter } in
      if blocked then asked else react c msg asked

  module _ (title : String → String → String) (allowed_emoji : String → Bool) where
    unfoldable pub handle_authored : Client → Message → Hub → Hub
    unfolding limited_reaction handle_read relay_typing route_message route_message_no_save
        send_ack_reason
    handle_authored c msg h =
        if is_text msg
        then if ltb max_message_runes (count msg.body)
          then send_ack_reason sv c msg.id "failed" 0 "too_long" 0 h
          else route_message sv title (with_id msg) c h
        else if msg.kind =s= "ping"
        then h
        else if msg.kind =s= "typing"
        then relay_typing sv msg h
        else if msg.kind =s= "read"
        then handle_read sv msg h
        else if msg.kind =s= "reaction"
        then if allowed_emoji msg.emoji then limited_reaction c msg h else h
        else route_message_no_save sv (with_id msg) h

    -- One frame of the read loop, decoded.
    unfoldable pub handle_frame : Client → Message → Hub → Hub
    unfolding handle_authored
    handle_frame c msg h = handle_authored c (authored c msg) h
