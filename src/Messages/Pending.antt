-- ===== src/Messages/Pending.antt =====
-- `deliverPending` of server/history.go: what waits for a user goes out on a connection.
pub mod Prefix
use hexeris_beta.Base.{
  ℕ, String, Option, none, some, Bool, true, false, not, List, [], ◌∷◌, leb, ◌=s=◌, ◌&&◌, ◌||◌,
  if◌then◌else◌,
}
use hexeris_beta.Base.Dict.{Dict, lookup}
use hexeris_beta.Hub.Sockets.{send, send_works}
use hexeris_beta.Hub.Routing.{Message, Services, Hub, Client, send_ack_to_all}
use hexeris_beta.Messages.Table.{Row, Table, first, one_of}

abbrev pub max_pending_per_connect : ℕ
max_pending_per_connect = 1000

unfoldable pub is_pending : String → Row → Bool
is_pending username r = r.recipient =s= username && not r.delivered

abbrev boundary : Option ℕ → ℕ
boundary none = 0
boundary (some seq) = seq

-- The key of the conversation is the sender.
unfoldable pub is_hidden : Dict ℕ → Row → Bool
is_hidden [] r = false
is_hidden (c ∷ cs) r = leb r.seq (boundary (lookup r.sender (c ∷ cs)))

-- `UPDATE messages SET delivered=true WHERE id = ANY($1)`
unfoldable pub set_delivered : List String → Table → Table
unfolding one_of
set_delivered ids [] = []
set_delivered ids (r ∷ rs) =
    (if one_of r.id ids then record r { delivered = true } else r) ∷ set_delivered ids rs

-- `decryptBody`, and the boundaries of chatprefs.go.
module _ (sv : Services) (decrypt_body : String → String) (client : Client) (cleared : Dict ℕ) where
  unfoldable pub message_of : Row → Message
  message_of r = record {
    kind = "message";
    id = r.id;
    seq = r.seq;
    from = r.sender;
    to = client.username;
    body = if r.media_type =s= "" then decrypt_body r.body else r.body;
    media_type = r.media_type;
    emoji = "";
    reply_to = r.reply_to;
    forwarded = r.forwarded;
    created_at = r.created_at;
    reason = "";
  }

  unfoldable pub written : Row → Hub → Hub
  unfolding send message_of
  written r h = record h { sockets = send client.number (sv.marshal (message_of r)) h.sockets }

  -- Whether the loop goes on behind the row, and the hub then.
  unfoldable pub deliver_one : Row → Hub → Bool × Hub
  unfolding is_hidden written send_works send_ack_to_all
  deliver_one r h =
      let told : Hub → Hub = send_ack_to_all sv r.sender r.id "delivered" r.seq in
      if is_hidden cleared r
      then (true, told h)
      else if send_works client.number h.sockets
      then (true, told (written r h))
      else (false, written r h)

  -- The ids of the rows that are delivered.
  unfoldable pub deliver_rows : Table → Hub → List String × Hub
  unfolding deliver_one
  deliver_rows [] h = ([], h)
  deliver_rows (r ∷ rs) h =
      let (goes_on, h') = deliver_one r h in
      let rest = deliver_rows rs h' in if goes_on then (r.id ∷ rest.0, rest.1) else ([], h')

  abbrev after_loop : Bool → Table → List String × Hub → Table × Hub
  after_loop up t (ids, h) = (if up then set_delivered ids t else t, h)

  -- Whether the query and the UPDATE work.
  unfoldable pub deliver_pending : Bool → Bool → Table → Hub → Table × Hub
  unfolding deliver_rows is_pending set_delivered first
  deliver_pending up_query up_update t h =
      if up_query
      then after_loop up_update t
          (deliver_rows (first max_pending_per_connect (is_pending client.username) t) h)
      else (t, h)
