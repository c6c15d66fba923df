-- ===== src/Examples/History.antt =====
-- The table of messages (server/history.go, server/messages.go, server/attachments.go) with a few rows.
use hexeris_beta.Base.{ℕ, ◌≡◌, refl, String, none, some, true, false, [], ◌∷◌, arith}
use hexeris_beta.Base.Dict.{Dict, lookup}
use hexeris_beta.Groups.Store.{is_group}
use hexeris_beta.Limiter.{RateLimiter, new_limiter, is_blocked}
use hexeris_beta.Hub.Routing as Routing
use hexeris_beta.Messages.Table.{Row, Table, Ascending, first}
use hexeris_beta.Messages.History.{
  Request, Source, all_conversations, is_cleared, cleared_seqs, page_limit, history_handler,
}
use hexeris_beta.Messages.History.Answer.{page}
use hexeris_beta.Messages.History.Union.{concerns, all_conversations_lem}
use hexeris_beta.Messages.History.Shown.{AllVisible, page_of, history_handler-AllVisible}
use hexeris_beta.Messages.History.Cleared.{history_handler-AllCleared}
use hexeris_beta.Messages.Changes as Changes
use hexeris_beta.Messages.Changes.Own.{UniqueIds, OwnChanged, handlers-OwnChanged}
use hexeris_beta.Messages.Changes.Deleted.{
  OwnMessage, Editable, edit_message_handler_deleted_message,
}
use hexeris_beta.Messages.Pending.{deliver_pending}
use hexeris_beta.Messages.Pending.Prefix.{Drained, deliver_pending_lem}
use hexeris_beta.Messages.Attachments.{is_attachment}
use hexeris_beta.Messages.Attachments.Pages.{all_pages, older_rows, all_pages_lem}

abbrev row : ℕ → String → String → String → String → Row
row seq id sender recipient media_type = record {
  seq = seq;
  id = id;
  sender = sender;
  recipient = recipient;
  body = "hi";
  media_type = media_type;
  reply_to = "";
  forwarded = false;
  delivered = false;
  read = false;
  deleted = false;
  edited = false;
  created_at = seq;
}

abbrev table : Table
table =
    row 1 "m1" "bob" "ann" ""
    ∷ row 2 "m2" "ann" "bob" "image"
    ∷ row 3 "m3" "cid" "g:1" ""
    ∷ row 4 "m4" "bob" "ann" "image"
    ∷ []

table-Ascending : Ascending 0 table
table-Ascending = (omega arith, (omega arith, (omega arith, (omega arith, tt))))

-- Ann has cleared what Bob and she have written so far.
abbrev source : Dict ℕ → Source
source boundaries = record {
  is_group_member = λ group user. true;
  decrypt_body = λ body. body;
  cleared_rows = λ user. some boundaries;
  user_group_ids = λ user. some ("g:1" ∷ []);
  reactions = none;
  query_ok = true;
  now_unix = 9;
}

abbrev everything : Request
everything = record { peer = ""; since = 0; before = 0; limit = 2 }

abbrev limiter : RateLimiter
limiter = new_limiter 30 60

all_conversations_lem_example :
    all_conversations "ann" 0 2 ("g:1" ∷ []) table ≡ first 2 (concerns "ann" 0 ("g:1" ∷ [])) table
all_conversations_lem_example = all_conversations_lem "ann" 0 2 ("g:1" ∷ []) table table-Ascending

history_handler-AllVisible_example :
    AllVisible
      (source (("bob", 1) ∷ []))
      "ann"
      table
      (page_of (history_handler (source (("bob", 1) ∷ [])) "ann" everything table limiter).0)
history_handler-AllVisible_example =
    history_handler-AllVisible (source (("bob", 1) ∷ [])) "ann" everything table limiter
      table-Ascending

-- The message in the group is not on the page.
history_handler-AllCleared_example :
    (history_handler (source (("bob", 2) ∷ [])) "ann" everything table limiter).0 ≡ page []
unfolding is_blocked new_limiter hexeris_beta.Limiter.live hexeris_beta.Limiter.attempts_of lookup
    first page_limit concerns is_cleared cleared_seqs is_group
history_handler-AllCleared_example =
    history_handler-AllCleared (source (("bob", 2) ∷ [])) "ann" everything table limiter
      ("g:1" ∷ []) table-Ascending refl refl refl refl (refl, (refl, tt))

abbrev services : Changes.Services
services = record {
  marshal = λ m. m.seq ∷ [];
  rune_count = λ body. 5;
  trim_space = λ body. body;
  encrypt_body = λ body. body;
  group_members = λ group. [];
  now_unix = 9;
  up = true;
}

abbrev deleted_row : Row
deleted_row = record (row 5 "m5" "ann" "bob" "") { deleted = true; body = "[deleted]" }

abbrev store : Changes.Store
store = record {
  table = deleted_row ∷ table;
  sockets = record { id = 1; username = "bob"; out = []; closed = false } ∷ [];
  clients = ("bob", 1 ∷ []) ∷ [];
  msg_mutate_limiter = limiter;
}

store-UniqueIds : UniqueIds store.table
unfolding Changes.find_id
store-UniqueIds = (refl, (refl, (refl, (refl, (refl, tt)))))

handlers-OwnChanged_example :
    OwnChanged "ann" store.table (Changes.delete_message_handler services "ann" "m2" store).1.table
    × OwnChanged "ann" store.table
        (Changes.edit_message_handler services "ann" "m2" "new" store).1.table
handlers-OwnChanged_example = handlers-OwnChanged services "ann" "m2" "new" store store-UniqueIds

own : OwnMessage services "ann" "m5" deleted_row store
unfolding is_blocked new_limiter hexeris_beta.Limiter.live hexeris_beta.Limiter.attempts_of lookup
    Changes.find_id
own = record { allowed = refl; named = refl; found = refl; mine = refl }

editable : Editable services "again" deleted_row
editable = record { written = refl; short = refl; text = refl }

edit_message_handler_deleted_message_example :
    let after = Changes.edit_message_handler services "ann" "m5" "again" store in
    (after.0 ≡ 200)
    × (after.1.sockets
        ≡ (Changes.broadcast_to_conversation services
            (services.marshal (Changes.event "edited" "m5" "ann" "bob" "again"))
            "ann"
            "bob"
            store).sockets)
    × (Changes.find_id "m5" after.1.table
        ≡ some (record deleted_row { body = "again"; edited = true; deleted = true }))
edit_message_handler_deleted_message_example =
    edit_message_handler_deleted_message services "ann" "m5" "again" deleted_row store own editable
      refl refl

abbrev routing : Routing.Services
routing = record {
  marshal = λ m. m.seq ∷ m.created_at ∷ [];
  encrypt_body = λ body. body;
  is_group_member = λ group user. false;
  group_members = λ group. [];
  user_row = λ user. true;
  chat_muted = λ user peer. false;
  wait = λ msg. Routing.replied (some (7, 1000));
  mark_read = λ peer reader. none;
  reaction_target = λ id. none;
  fresh_id = "fresh";
  visited = λ calls. calls;
  now = 5;
  now_unix = 0;
}

abbrev hub : Routing.Hub
hub = record {
  sockets = record { id = 1; username = "ann"; out = []; closed = false } ∷ [];
  clients = ("ann", 1 ∷ []) ∷ [];
  call_map = [];
  queues = [];
  known_users = [];
  saved = [];
  marks = [];
  pushes = [];
  pending_offline = [];
  statuses = [];
  reaction_limiter = limiter;
  reactions = [];
}

abbrev ann : Routing.Client
ann = record { number = 1; username = "ann" }

deliver_pending_lem_example :
    (n : ℕ) × Drained routing
      (λ body. body)
      ann
      (("bob", 1) ∷ [])
      table
      (deliver_pending routing (λ body. body) ann (("bob", 1) ∷ []) true true table hub)
      n
deliver_pending_lem_example =
    deliver_pending_lem routing (λ body. body) ann (("bob", 1) ∷ []) table hub

-- Pages of one attachment each.
all_pages_lem_example :
    all_pages 3 1 (is_attachment "ann" "bob" ("image" ∷ [])) 9 table
    ≡ older_rows (is_attachment "ann" "bob" ("image" ∷ [])) 9 table
unfolding older_rows is_attachment
all_pages_lem_example =
    all_pages_lem 3 0 (is_attachment "ann" "bob" ("image" ∷ [])) 9 table table-Ascending
      (omega arith)
