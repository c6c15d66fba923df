-- ===== src/Messages/Changes.antt =====
-- server/messages.go: a message is deleted or edited, and the event goes to the conversation.
pub mod Own
pub mod Deleted
use hexeris_beta.Base.{
  ℕ, String, Option, none, some, Bool, true, false, not, List, [], ◌∷◌, ltb, ◌=s=◌, ◌||◌,
  if◌then◌else◌,
}
use hexeris_beta.Groups.Store.{is_group}
use hexeris_beta.Limiter.{RateLimiter, is_blocked, record_failure}
use hexeris_beta.Hub.Sockets.{Sockets, Clients, snapshot_clients, send_each}
use hexeris_beta.Hub.Routing.{Message}
use hexeris_beta.Hub.Session.{max_message_runes}
use hexeris_beta.Messages.Table.{Row, Table}

-- JSON, the count of characters, the trimming of white space, `encryptBody`, groups.go, the clock,
-- and whether the UPDATE works.
pub record Services : Type 0 where
  pub marshal : Message → List ℕ
  pub rune_count : String → ℕ
  pub trim_space : String → String
  pub encrypt_body : String → String
  pub group_members : String → List String
  pub now_unix : ℕ
  pub up : Bool

pub record Store : Type 0 where
  pub table : Table
  pub sockets : Sockets
  pub clients : Clients
  pub msg_mutate_limiter : RateLimiter

unfoldable pub find_id : String → Table → Option Row
find_id id [] = none
find_id id (r ∷ rs) = let later = find_id id rs in if r.id =s= id then some r else later

-- `UPDATE messages SET … WHERE id=$1`
unfoldable pub update_id : String → (Row → Row) → Table → Table
update_id id f [] = []
update_id id f (r ∷ rs) = (if r.id =s= id then f r else r) ∷ update_id id f rs

abbrev pub event : String → String → String → String → String → Message
event kind id from to body = record {
  kind = kind;
  id = id;
  seq = 0;
  from = from;
  to = to;
  body = body;
  media_type = "";
  emoji = "";
  reply_to = "";
  forwarded = false;
  created_at = 0;
  reason = "";
}

abbrev pub delete_row : Row → Row
delete_row r = record r { deleted = true; body = "[deleted]" }

abbrev pub edit_row : String → Row → Row
edit_row stored r = record r { body = stored; edited = true }

module _ (sv : Services) where
  unfoldable pub send_members : List String → List ℕ → Clients → Sockets → Sockets
  unfolding send_each snapshot_clients
  send_members [] frame clients ss = ss
  send_members (m ∷ ms) frame clients ss =
      send_members ms frame clients (send_each (snapshot_clients m clients) frame ss)

  unfoldable pub broadcast_to_conversation : List ℕ → String → String → Store → Store
  unfolding send_members is_group
  broadcast_to_conversation frame sender recipient s =
      if is_group recipient
      then record s {
        sockets = send_members (sv.group_members recipient) frame s.clients s.sockets;
      }
      else record s { sockets = send_members (recipient ∷ sender ∷ []) frame s.clients s.sockets }

  -- The change of a row that the user may change is counted.
  abbrev counted : String → RateLimiter → Store → Store
  counted username limiter s = record s {
    msg_mutate_limiter = record_failure limiter sv.now_unix username;
  }

  abbrev updated : String → (Row → Row) → Store → Store
  updated id f s = record s { table = if sv.up then update_id id f s.table else s.table }

  abbrev pub when_allowed : String → Store → (RateLimiter → ℕ × Store) → ℕ × Store
  when_allowed username s next =
      let (blocked, checked) = is_blocked s.msg_mutate_limiter sv.now_unix username in
      if blocked then (429, record s { msg_mutate_limiter = checked }) else next checked

  unfoldable pub change_and_tell : Message → (Row → Row) → RateLimiter → Store → Store
  unfolding broadcast_to_conversation update_id record_failure
  change_and_tell e f limiter s =
      broadcast_to_conversation (sv.marshal e) e.from e.to
        (updated e.id f (counted e.from limiter s))

  -- A POST with a decoded body. The result of the UPDATE is not looked at.
  unfoldable pub delete_found : String → String → Option Row → RateLimiter → Store → ℕ × Store
  unfolding change_and_tell
  delete_found username msg_id none limiter s = (404, record s { msg_mutate_limiter = limiter })
  delete_found username msg_id (some r) limiter s =
      if r.sender =s= username
      then (
        200,
        change_and_tell (event "deleted" msg_id username r.recipient "") delete_row limiter s,
      )
      else (403, record s { msg_mutate_limiter = limiter })

  unfoldable pub delete_message_handler : String → String → Store → ℕ × Store
  unfolding delete_found find_id is_blocked
  delete_message_handler username msg_id s = when_allowed username s (λ limiter.
      if msg_id =s= ""
      then (400, record s { msg_mutate_limiter = limiter })
      else delete_found username msg_id (find_id msg_id s.table) limiter s)

  unfoldable pub edit_found :
      String → String → String → Option Row → RateLimiter → Store → ℕ × Store
  unfolding change_and_tell record_failure
  edit_found username msg_id body none limiter s = (404, record s { msg_mutate_limiter = limiter })
  edit_found username msg_id body (some r) limiter s =
      if not (r.sender =s= username)
      then (403, record s { msg_mutate_limiter = limiter })
      else if not (r.media_type =s= "")
      then (400, record s { msg_mutate_limiter = limiter })
      else if not sv.up
      then (500, counted username limiter s)
      else (
        200,
        change_and_tell (event "edited" msg_id username r.recipient body)
            (edit_row (sv.encrypt_body body)) limiter s,
      )

  unfoldable pub edit_message_handler : String → String → String → Store → ℕ × Store
  unfolding edit_found find_id is_blocked
  edit_message_handler username msg_id body s = when_allowed username s (λ limiter.
      if msg_id =s= "" || sv.trim_space body =s= ""
      then (400, record s { msg_mutate_limiter = limiter })
      else if ltb max_message_runes (sv.rune_count body)
      then (413, record s { msg_mutate_limiter = limiter })
      else edit_found username msg_id body (find_id msg_id s.table) limiter s)
