-- ===== src/Hub/Routing/Addressees.antt =====
-- Who sees a message that server/ws.go routes, and how often.
use mathlib.Core.Path.{ap₂}
use hexeris_beta.Base.{
  ℕ, ◌≡◌, refl, ap, ◌∙◌, String, Option, some, Bool, true, false, List, [], ◌∷◌, ◌++◌, map, ◌=s=◌,
  not, ◌&&◌, if◌then◌else◌,
}
use hexeris_beta.Groups.Store.{is_group}
use hexeris_beta.Hub.Sockets.{Socket, Sockets, send_each, one_takes, snapshot_clients, without}
use hexeris_beta.Hub.Sockets.Sending.{
  times, offer_times, send_each-map, send_each-map_after, id-offer_times,
}
use hexeris_beta.Hub.Routing.{
  Message, Services, Wait, not_queued, no_reply, replied, enqueue, notify_offline_push, Hub, Client,
  user_exists, save_message, ack_of, settle, deliver, stamped, after_save, route_direct,
  route_message, send_out, send_ack, send_ack_reason,
}

abbrev pub status_of : Bool → String
status_of true = "delivered"
status_of false = "sent"

module _ (sv : Services) where
  -- What a connection gets of a message between two users: the frame as often as it is registered
  -- for the recipient, and again as often as for the sender if it is not the sender's own; the
  -- sender's own connection gets the acknowledgement last.
  abbrev pub sees_direct : Message → Client → String → Hub → Socket → Socket
  sees_direct msg c status h s =
      let ids = snapshot_clients msg.to h.clients in
      let others = without c.number (snapshot_clients c.username h.clients) in
      let frame = sv.marshal msg in
      let ack = sv.marshal (ack_of sv msg.id status msg.seq "" msg.created_at) in
      offer_times (times s.id (c.number ∷ [])) ack
        (offer_times (times s.id others) frame (offer_times (times s.id ids) frame s))

  three_loops :
      (ids others own : List ℕ) (frame ack : List ℕ) (ss : Sockets)
      → send_each own ack (send_each others frame (send_each ids frame ss))
        ≡ map
            (λ s.
              offer_times
                (times s.id own)
                ack
                (offer_times (times s.id others) frame (offer_times (times s.id ids) frame s)))
            ss
  three_loops ids others own frame ack ss =
      ap (λ (t : Sockets). send_each own ack (send_each others frame t))
        (send_each-map ids frame ss)
      ∙ ap (send_each own ack) (
          send_each-map_after others frame (λ s. offer_times (times s.id ids) frame s) ss
            (λ s. id-offer_times (times s.id ids) frame s))
      ∙ send_each-map_after own ack
          (λ s. offer_times (times s.id others) frame (offer_times (times s.id ids) frame s)) ss
          (λ s.
            id-offer_times (times s.id others) frame (offer_times (times s.id ids) frame s)
            ∙ id-offer_times (times s.id ids) frame s)

  settle-sockets :
      (msg : Message) (c : Client) (taken : Bool) (h : Hub)
      → let status = status_of taken in
        (settle sv msg c taken h).sockets
        ≡ send_each
            (c.number ∷ [])
            (sv.marshal (ack_of sv msg.id status msg.seq "" msg.created_at))
            h.sockets
  unfolding settle send_ack send_ack_reason
  settle-sockets msg c true h = refl
  settle-sockets msg c false h = by_mute (sv.chat_muted msg.to msg.from)
    where
      ack : List ℕ
      ack = sv.marshal (ack_of sv msg.id "sent" msg.seq "" msg.created_at)

      told : Hub
      told = record h {
        pushes = h.pushes ++ notify_offline_push msg.to msg.from msg.media_type ∷ [];
      }

      by_mute :
          (b : Bool)
          → send_each (c.number ∷ []) ack (if b then h else told).sockets
            ≡ send_each (c.number ∷ []) ack h.sockets
      by_mute true = refl
      by_mute false = refl

  deliver-sockets :
      (msg : Message) (c : Client) (h : Hub)
      → let taken = one_takes (snapshot_clients msg.to h.clients) (sv.marshal msg) h.sockets in
        (deliver sv msg c h).sockets ≡ map (sees_direct msg c (status_of taken) h) h.sockets
  unfolding deliver
  deliver-sockets msg c h =
      let ids = snapshot_clients msg.to h.clients in
      let others = without c.number (snapshot_clients c.username h.clients) in
      let frame = sv.marshal msg in
      let taken = one_takes ids frame h.sockets in
      let status = status_of taken in
      settle-sockets msg c taken (send_out sv others msg (send_out sv ids msg h))
      ∙ three_loops ids others (c.number ∷ []) frame
          (sv.marshal (ack_of sv msg.id status msg.seq "" msg.created_at)) h.sockets

  -- To save a message touches nothing else.
  pub save_message_only :
      (msg : Message) (h : Hub)
      → (save_message sv msg h).1 ≡ record h { saved = (save_message sv msg h).1.saved }
  unfolding save_message enqueue
  save_message_only msg h =
      by_kind (not (msg.kind =s= "") && not (msg.kind =s= "message")) (sv.wait msg)
    where
      body : String
      body = if msg.media_type =s= "" then sv.encrypt_body msg.body else msg.body

      by_kind :
          (b : Bool) (w : Wait)
          → let p : Option (ℕ × ℕ) × Hub =
              if b then (some (0, 0), h) else enqueue sv msg body w h in
            p.1 ≡ record h { saved = p.1.saved }
      by_kind true w = refl
      by_kind false not_queued = refl
      by_kind false no_reply = refl
      by_kind false (replied r) = refl

  -- A message between two users that is stored: every connection sees exactly the frame, with the
  -- seq and the time of the store, as often as it is registered for the recipient or is another
  -- one of the sender's, and the sender's own connection the acknowledgement behind it, which says
  -- delivered if a connection of the recipient has taken the frame; the others see nothing. A
  -- connection that is closed or whose queue is full takes nothing. The recipient is known.
  pub route_message-sockets :
      (title : String → String → String) (msg : Message) (c : Client) (h : Hub) (result : ℕ × ℕ)
      → is_group msg.to ≡ false
      → (user_exists sv msg.to h.known_users).0 ≡ true
      → (save_message sv msg (record h { known_users = (user_exists sv msg.to h.known_users).1 })).0
        ≡ some result
      → let m = stamped sv msg result in
        let taken = one_takes (snapshot_clients msg.to h.clients) (sv.marshal m) h.sockets in
        (route_message sv title msg c h).sockets
        ≡ map (sees_direct m c (status_of taken) h) h.sockets
  unfolding route_message route_direct after_save
  route_message-sockets title msg c h result g u e =
      let asked : Hub = record h { known_users = (user_exists sv msg.to h.known_users).1 } in
      let p = save_message sv msg asked in
      let pair : p ≡ (some result, record asked { saved = p.1.saved }) =
        ap₂ (λ (a : Option (ℕ × ℕ)) (b : Hub). (a, b)) e (save_message_only msg asked) in
      rw (g, u)
        (ap (λ (q : Option (ℕ × ℕ) × Hub). (after_save sv msg c q).sockets) pair
          ∙ deliver-sockets (stamped sv msg result) c (record asked { saved = p.1.saved }))
