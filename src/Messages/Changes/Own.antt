-- ===== src/Messages/Changes/Own.antt =====
-- Whose rows a request of server/messages.go changes.
use hexeris_beta.Base.{
  ℕ, ◌≡◌, refl, sym, ap, subst, ◌∙◌, String, Option, none, some, Bool, true, false, List, [], ◌∷◌,
  ◌=s=◌, if◌then◌else◌, eq_iff, arith,
}
use mathlib.Core.Option.{some-injective}
use hexeris_beta.Limiter.{RateLimiter, is_blocked}
use hexeris_beta.Hub.Routing.{Message}
use hexeris_beta.Messages.Table.{Row, Table}
use hexeris_beta.Messages.Changes.{
  Services, Store, find_id, update_id, delete_row, edit_row, event, broadcast_to_conversation,
  change_and_tell, delete_found, delete_message_handler, edit_found, edit_message_handler,
}

-- `id` is a unique column.
abbrev pub UniqueIds : Table → Type 0
UniqueIds [] = Unit {0}
UniqueIds (r ∷ rs) = (find_id r.id rs ≡ none) × UniqueIds rs

-- What a change leaves of a row.
pub record SameMessage (before after : Row) : Type 0 where
  pub seq : after.seq ≡ before.seq
  pub id : after.id ≡ before.id
  pub sender : after.sender ≡ before.sender
  pub recipient : after.recipient ≡ before.recipient
  pub media_type : after.media_type ≡ before.media_type
  pub delivered : after.delivered ≡ before.delivered
  pub read : after.read ≡ before.read

-- One table after another, in which the rows of a user may differ in body and marks.
pub data OwnChanged (username : String) : Table → Table → Type 0 where
  none_left : OwnChanged username [] []
  same :
      {r : Row} {rs rs' : Table}
      → OwnChanged username rs rs'
      → OwnChanged username (r ∷ rs) (r ∷ rs')
  own :
      {r r' : Row} {rs rs' : Table}
      → r.sender ≡ username
      → SameMessage r r'
      → OwnChanged username rs rs'
      → OwnChanged username (r ∷ rs) (r' ∷ rs')

unchanged : (username : String) (t : Table) → OwnChanged username t t
unchanged username [] = none_left
unchanged username (r ∷ rs) = same (unchanged username rs)

update_id-absent :
    (id : String) (f : Row → Row) (t : Table) → find_id id t ≡ none → update_id id f t ≡ t
unfolding update_id find_id
update_id-absent id f [] h = refl
update_id-absent id f (r ∷ rs) h = ground (arith, update_id-absent id f rs)

update_id-OwnChanged :
    (username id : String) (f : Row → Row) (r : Row) (t : Table)
    → ((x : Row) → SameMessage x (f x))
    → r.sender ≡ username
    → UniqueIds t
    → find_id id t ≡ some r
    → OwnChanged username t (update_id id f t)
unfolding find_id update_id
update_id-OwnChanged username id f r [] same_f mine u h = none_left
update_id-OwnChanged username id f r (x ∷ xs) same_f mine u h =
    by_test (x.id =s= id) refl h (λ e. update_id-OwnChanged username id f r xs same_f mine u.1 e)
  where
    tail : x.id ≡ id → update_id id f xs ≡ xs
    tail e = update_id-absent id f xs (ap (λ (i : String). find_id i xs) (sym e) ∙ u.0)

    by_test :
        (b : Bool)
        → (x.id =s= id) ≡ b
        → (if b then some x else find_id id xs) ≡ some r
        → (find_id id xs ≡ some r → OwnChanged username xs (update_id id f xs))
        → OwnChanged username (x ∷ xs) ((if b then f x else x) ∷ update_id id f xs)
    by_test true e found rest =
        own (ap Row.sender (some-injective _ _ found) ∙ mine) (same_f x) (
          subst (OwnChanged username xs) (sym (tail ((eq_iff x.id id).0 e)))
            (unchanged username xs))
    by_test false e found rest = same (rest found)

same-delete_row : (r : Row) → SameMessage r (delete_row r)
same-delete_row r = record {
  seq = refl;
  id = refl;
  sender = refl;
  recipient = refl;
  media_type = refl;
  delivered = refl;
  read = refl;
}

same-edit_row : (stored : String) (r : Row) → SameMessage r (edit_row stored r)
same-edit_row stored r = record {
  seq = refl;
  id = refl;
  sender = refl;
  recipient = refl;
  media_type = refl;
  delivered = refl;
  read = refl;
}

pub broadcast-table :
    (sv : Services) (frame : List ℕ) (sender recipient : String) (s : Store)
    → (broadcast_to_conversation sv frame sender recipient s).table ≡ s.table
unfolding broadcast_to_conversation
broadcast-table sv frame sender recipient s = ground arith

-- An update that works or fails.
if_up :
    (username id : String) (f : Row → Row) (r : Row) (t : Table) (up : Bool)
    → ((x : Row) → SameMessage x (f x))
    → (r.sender =s= username) ≡ true
    → UniqueIds t
    → find_id id t ≡ some r
    → OwnChanged username t (if up then update_id id f t else t)
if_up username id f r t true same_f mine u h =
    update_id-OwnChanged username id f r t same_f ((eq_iff r.sender username).0 mine) u h
if_up username id f r t false same_f mine u h = unchanged username t

change_and_tell-OwnChanged :
    (sv : Services) (e : Message) (f : Row → Row) (r : Row) (limiter : RateLimiter) (s : Store)
    → ((x : Row) → SameMessage x (f x))
    → UniqueIds s.table
    → find_id e.id s.table ≡ some r
    → (r.sender =s= e.from) ≡ true
    → OwnChanged e.from s.table (change_and_tell sv e f limiter s).table
unfolding change_and_tell
change_and_tell-OwnChanged sv e f r limiter s same_f u h mine =
    subst (OwnChanged e.from s.table) (sym (broadcast-table sv (sv.marshal e) e.from e.to _))
      (if_up e.from e.id f r s.table sv.up same_f mine u h)

-- An answer with the store, by its table.
abbrev After : String → Table → ℕ × Store → Type 0
After username t (code, s) = OwnChanged username t s.table

delete_found-OwnChanged :
    (sv : Services) (username id : String) (found : Option Row) (limiter : RateLimiter) (s : Store)
    → UniqueIds s.table
    → find_id id s.table ≡ found
    → After username s.table (delete_found sv username id found limiter s)
unfolding delete_found
delete_found-OwnChanged sv username id none limiter s u h = unchanged username s.table
delete_found-OwnChanged sv username id (some r) limiter s u h = ground (
  arith,
  unchanged username s.table,
  change_and_tell-OwnChanged sv (event "deleted" id username r.recipient "") delete_row r limiter s
      same-delete_row u h,
)

edit_found-OwnChanged :
    (sv : Services) (username id body : String) (found : Option Row) (limiter : RateLimiter)
    (s : Store)
    → UniqueIds s.table
    → find_id id s.table ≡ found
    → After username s.table (edit_found sv username id body found limiter s)
unfolding edit_found
edit_found-OwnChanged sv username id body none limiter s u h = unchanged username s.table
edit_found-OwnChanged sv username id body (some r) limiter s u h = ground (
  arith,
  unchanged username s.table,
  change_and_tell-OwnChanged sv (event "edited" id username r.recipient body)
      (edit_row (sv.encrypt_body body)) r limiter s (same-edit_row (sv.encrypt_body body)) u h,
)

deleted-OwnChanged :
    (sv : Services) (username msg_id : String) (s : Store)
    → UniqueIds s.table
    → OwnChanged username s.table (delete_message_handler sv username msg_id s).1.table
unfolding delete_message_handler
deleted-OwnChanged sv username msg_id s u = ground (
  arith,
  unchanged username s.table,
  delete_found-OwnChanged sv username msg_id (find_id msg_id s.table)
      (is_blocked s.msg_mutate_limiter sv.now_unix username).1 s u refl,
)

edited-OwnChanged :
    (sv : Services) (username msg_id body : String) (s : Store)
    → UniqueIds s.table
    → OwnChanged username s.table (edit_message_handler sv username msg_id body s).1.table
unfolding edit_message_handler
edited-OwnChanged sv username msg_id body s u = ground (
  arith,
  unchanged username s.table,
  edit_found-OwnChanged sv username msg_id body (find_id msg_id s.table)
      (is_blocked s.msg_mutate_limiter sv.now_unix username).1 s u refl,
)

-- Whatever is asked, and whatever comes of it, a request to delete or to edit a message changes no
-- row but the caller's own messages, and of those neither the number, the parties, the media type
-- nor the marks of delivery and reading. The ids are unique.
pub handlers-OwnChanged :
    (sv : Services) (username msg_id body : String) (s : Store)
    → UniqueIds s.table
    → OwnChanged username s.table (delete_message_handler sv username msg_id s).1.table
      × OwnChanged username s.table (edit_message_handler sv username msg_id body s).1.table
handlers-OwnChanged sv username msg_id body s u =
    (deleted-OwnChanged sv username msg_id s u, edited-OwnChanged sv username msg_id body s u)
