-- ===== src/Messages/Changes/Deleted.antt =====
-- Requests of server/messages.go whose UPDATE fails, or whose message is deleted.
use hexeris_beta.Base.{
  ℕ, ◌≡◌, refl, sym, ap, ◌∙◌, subst, String, some, Bool, true, false, [], ◌∷◌, ltb, ◌=s=◌,
  if◌then◌else◌, arith,
}
use mathlib.Core.Option.{some-injective}
use hexeris_beta.Limiter.{RateLimiter, is_blocked, record_failure}
use hexeris_beta.Hub.Routing.{Message}
use hexeris_beta.Hub.Session.{max_message_runes}
use hexeris_beta.Messages.Table.{Row, Table}
use hexeris_beta.Messages.Changes.{
  Services, Store, find_id, update_id, event, delete_row, edit_row, broadcast_to_conversation,
  change_and_tell, delete_found, delete_message_handler, edit_found, edit_message_handler,
}
use hexeris_beta.Messages.Changes.Own.{broadcast-table}

-- The user's request is let through, and names a message of theirs.
pub record OwnMessage (sv : Services) (username msg_id : String) (r : Row) (s : Store)
    : Type 0 where
  pub allowed : (is_blocked s.msg_mutate_limiter sv.now_unix username).0 ≡ false
  pub named : (msg_id =s= "") ≡ false
  pub found : find_id msg_id s.table ≡ some r
  pub mine : (r.sender =s= username) ≡ true

abbrev charged : Services → String → Store → Store
charged sv username s = record s {
  msg_mutate_limiter =
      record_failure (is_blocked s.msg_mutate_limiter sv.now_unix username).1 sv.now_unix username;
}

delete_own :
    (sv : Services) (username msg_id : String) (r : Row) (s : Store)
    → OwnMessage sv username msg_id r s
    → delete_message_handler sv username msg_id s ≡ (
      200,
      change_and_tell sv
          (event "deleted" msg_id username r.recipient "")
          delete_row
          (is_blocked s.msg_mutate_limiter sv.now_unix username).1
          s,
    )
unfolding delete_message_handler delete_found
delete_own sv username msg_id r s h = rw (h.allowed, h.named, h.found, h.mine) refl

-- When the UPDATE fails, the request to delete one's own message is answered with 200 and the event
-- "deleted" goes to the conversation, while no row of the table has changed.
pub delete_message_handler_failed_update :
    (sv : Services) (username msg_id : String) (r : Row) (s : Store)
    → OwnMessage sv username msg_id r s
    → sv.up ≡ false
    → delete_message_handler sv username msg_id s ≡ (
      200,
      broadcast_to_conversation sv
          (sv.marshal (event "deleted" msg_id username r.recipient ""))
          username
          r.recipient
          (charged sv username s),
    )
unfolding change_and_tell
delete_message_handler_failed_update sv username msg_id r s h failed =
    delete_own sv username msg_id r s h ∙ rw failed refl

find_id-update_id :
    (id : String) (f : Row → Row) (r : Row) (t : Table)
    → ((x : Row) → (f x).id ≡ x.id)
    → find_id id t ≡ some r
    → find_id id (update_id id f t) ≡ some (f r)
unfolding find_id update_id
find_id-update_id id f r [] keeps h = absurd (cc h)
find_id-update_id id f r (x ∷ xs) keeps h =
    by_test (x.id =s= id) refl h (λ e. find_id-update_id id f r xs keeps e)
  where
    by_test :
        (b : Bool)
        → (x.id =s= id) ≡ b
        → (if b then some x else find_id id xs) ≡ some r
        → (find_id id xs ≡ some r → find_id id (update_id id f xs) ≡ some (f r))
        → (if (if b then f x else x).id =s= id
            then some (if b then f x else x)
            else find_id id (update_id id f xs))
          ≡ some (f r)
    by_test true e found rest =
        ap (λ (b : Bool). if b then some (f x) else find_id id (update_id id f xs))
          (subst (λ (i : String). (i =s= id) ≡ true) (sym (keeps x)) e)
        ∙ ap (λ (y : Row). some (f y)) (some-injective _ _ found)
    by_test false e found rest = rw e (rest found)

-- What the request says is within the limits.
pub record Editable (sv : Services) (body : String) (r : Row) : Type 0 where
  pub written : (sv.trim_space body =s= "") ≡ false
  pub short : ltb max_message_runes (sv.rune_count body) ≡ false
  pub text : (r.media_type =s= "") ≡ true

edit_own :
    (sv : Services) (username msg_id body : String) (r : Row) (s : Store)
    → OwnMessage sv username msg_id r s
    → Editable sv body r
    → sv.up ≡ true
    → edit_message_handler sv username msg_id body s ≡ (
      200,
      change_and_tell sv
          (event "edited" msg_id username r.recipient body)
          (edit_row (sv.encrypt_body body))
          (is_blocked s.msg_mutate_limiter sv.now_unix username).1
          s,
    )
unfolding edit_message_handler edit_found
edit_own sv username msg_id body r s h e up =
    rw (h.allowed, h.named, e.written, e.short, h.found, h.mine, e.text, up) refl

change_and_tell-sockets :
    (sv : Services) (e : Message) (f : Row → Row) (limiter : RateLimiter) (s : Store)
    → (change_and_tell sv e f limiter s).sockets
      ≡ (broadcast_to_conversation sv (sv.marshal e) e.from e.to s).sockets
unfolding change_and_tell broadcast_to_conversation
change_and_tell-sockets sv e f limiter s = ground arith

change_and_tell-table :
    (sv : Services) (e : Message) (f : Row → Row) (limiter : RateLimiter) (s : Store)
    → sv.up ≡ true
    → (change_and_tell sv e f limiter s).table ≡ update_id e.id f s.table
unfolding change_and_tell
change_and_tell-table sv e f limiter s up =
    broadcast-table sv (sv.marshal e) e.from e.to _
    ∙ ap (λ (b : Bool). if b then update_id e.id f s.table else s.table) up

-- An own text message that is deleted can be edited: the request is answered with 200, the event
-- "edited" with the new text goes to the conversation, and the deleted row has the new text. The
-- UPDATE works.
pub edit_message_handler_deleted_message :
    (sv : Services) (username msg_id body : String) (r : Row) (s : Store)
    → OwnMessage sv username msg_id r s
    → Editable sv body r
    → sv.up ≡ true
    → r.deleted ≡ true
    → let after = edit_message_handler sv username msg_id body s in
      (after.0 ≡ 200)
      × (after.1.sockets
          ≡ (broadcast_to_conversation sv
              (sv.marshal (event "edited" msg_id username r.recipient body))
              username
              r.recipient
              s).sockets)
      × (find_id msg_id after.1.table
          ≡ some (record r { body = sv.encrypt_body body; edited = true; deleted = true }))
unfolding change_and_tell broadcast_to_conversation
edit_message_handler_deleted_message sv username msg_id body r s h e up gone =
    let b = edit_own sv username msg_id body r s h e up in
    (
      ap (λ (x : ℕ × Store). x.0) b,
      ap (λ (x : ℕ × Store). x.1.sockets) b ∙ change_and_tell-sockets sv _ _ _ s,
      ap (λ (x : ℕ × Store). find_id msg_id x.1.table) b
          ∙ ap (find_id msg_id) (change_and_tell-table sv _ _ _ s up)
          ∙ find_id-update_id msg_id (edit_row (sv.encrypt_body body)) r s.table (λ x. refl) h.found
          ∙ ap
              (λ (d : Bool).
                some (record r { body = sv.encrypt_body body; edited = true; deleted = d }))
              gone,
    )
