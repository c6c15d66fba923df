-- ===== src/Hub/Signals.antt =====
-- What server/ws.go relays without storing it: call frames with the map of calls, typing, read
-- receipts.
pub mod Calls
use hexeris_beta.Base.{
  ℕ, String, Option, none, some, Bool, true, false, List, [], ◌∷◌, ◌++◌, ◌||◌, ◌=s=◌, if◌then◌else◌,
}
use hexeris_beta.Base.Dict.{Dict, lookup, insert, delete}
use hexeris_beta.Calls.{Queues, queue_call_signal, clear_call_queue}
use hexeris_beta.Groups.Store.{is_group}
use hexeris_beta.Hub.Sockets.{send_each, snapshot_clients}
use hexeris_beta.Hub.Routing.{Message, Services, Hub, Push, notify_call_push, send_out, ack_of}

-- The map of calls, caller to callee; `none` drops the frame: a second offer of one caller.
unfoldable pub track_call : Message → Dict String → Option (Dict String)
track_call msg calls =
    if msg.kind =s= "call-offer"
    then elim (lookup msg.from calls) [
      | none ↦ some (insert msg.from msg.to calls)
      | some callee ↦ none
    ]
    else if msg.kind =s= "call-end" || msg.kind =s= "call-reject"
    then some (delete msg.to (delete msg.from calls))
    else some calls

module _ (sv : Services) where
  -- To the members of a group, less one.
  unfoldable pub relay_members : List String → String → Message → Hub → Hub
  unfolding send_each snapshot_clients
  relay_members [] author msg h = h
  relay_members (m ∷ ms) author msg h =
      relay_members ms author msg
        (if m =s= author then h else send_out sv (snapshot_clients m h.clients) msg h)

  -- A callee without a connection.
  unfoldable pub keep_signal : Message → Hub → Hub
  unfolding queue_call_signal clear_call_queue
  keep_signal msg h =
      let offered = queue_call_signal h.queues sv.now msg.to (sv.marshal msg) true in
      let added = queue_call_signal h.queues sv.now msg.to (sv.marshal msg) false in
      if msg.kind =s= "call-offer"
      then record h { queues = offered; pushes = h.pushes ++ notify_call_push msg.to msg.from ∷ [] }
      else if msg.kind =s= "call-ice"
      then record h { queues = added }
      else if msg.kind =s= "call-end" || msg.kind =s= "call-reject"
      then record h { queues = clear_call_queue h.queues msg.to }
      else h

  abbrev to_recipients : List ℕ → Message → Hub → Hub
  to_recipients [] msg h = keep_signal msg h
  to_recipients (c ∷ cs) msg h = send_out sv (c ∷ cs) msg h

  unfoldable pub relay : Message → Hub → Hub
  unfolding relay_members keep_signal send_each is_group snapshot_clients
  relay msg h =
      if is_group msg.to
      then relay_members (sv.group_members msg.to) msg.from msg h
      else to_recipients (snapshot_clients msg.to h.clients) msg h

  abbrev pub tracked : Option (Dict String) → Message → Hub → Hub
  tracked none msg h = h
  tracked (some calls) msg h = relay msg (record h { call_map = calls })

  unfoldable pub route_message_no_save : Message → Hub → Hub
  unfolding track_call relay
  route_message_no_save msg h = tracked (track_call msg h.call_map) msg h

  -- `{"type":"typing"}` reaches the other members, or the recipient's connections.
  unfoldable pub relay_typing : Message → Hub → Hub
  unfolding relay_members send_each is_group snapshot_clients
  relay_typing msg h =
      if is_group msg.to
      then relay_members (sv.group_members msg.to) msg.from msg h
      else send_out sv (snapshot_clients msg.to h.clients) msg h

  unfoldable pub send_read_acks : List String → String → Hub → Hub
  unfolding send_each snapshot_clients
  send_read_acks [] peer h = h
  send_read_acks (id ∷ ids) peer h =
      send_read_acks ids peer
        (send_out sv (snapshot_clients peer h.clients) (ack_of sv id "read" 0 "" 0) h)

  -- The messages of the peer to the reader are marked read, and the peer is told.
  unfoldable pub handle_read : Message → Hub → Hub
  unfolding send_read_acks is_group
  handle_read msg h =
      if is_group msg.to
      then h
      else elim (sv.mark_read msg.to msg.from) [ none ↦ h | some ids ↦ send_read_acks ids msg.to h ]
