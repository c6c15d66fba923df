-- ===== src/Msgwriter.antt =====
-- server/msgwriter.go: batched message writes. A batch is written by one INSERT, and every waiter
-- of the batch gets a reply. PostgreSQL is a parameter: `insert` runs one multi-row INSERT.
pub mod Waiters
pub mod Replies
pub mod Panics
pub mod Drain
use hexeris_beta.Base.{
  ℕ, ◌+◌, String, Option, none, some, Bool, true, false, List, [], ◌∷◌, ◌++◌, map, length, ◌||◌,
  if◌then◌else◌, ◌=s=◌,
}
use hexeris_beta.Base.Dict.{Dict, lookup, insert, delete}

-- `pq_error` is an error of PostgreSQL with the class of its code; anything else is the network,
-- the driver or the context.
pub data SaveError : Type 0 where
  pq_error : String → SaveError
  other_error no_returning_row writer_panic save_overloaded save_timeout : SaveError

pub record SaveResult : Type 0 where
  pub seq : ℕ
  pub created_at : ℕ
  pub err : Option SaveError

abbrev pub failed : SaveError → SaveResult
failed e = record { seq = 0; created_at = 0; err = some e }

pub record Message : Type 0 where
  pub id : String
  pub sender : String
  pub recipient : String
  pub media_type : String
  pub reply_to : String
  pub forwarded : Bool

-- `reply` is the identity of the request's channel.
pub record SaveRequest : Type 0 where
  pub msg : Message
  pub body : String
  pub reply : ℕ

-- What `insertMessageRows` returns: the rows of RETURNING by id, or the error.
pub data Inserted : Type 0 where
  rows : Dict SaveResult → Inserted
  insert_error : SaveError → Inserted

-- A value sent to a channel.
abbrev pub Reply : Type 0
Reply = ℕ × SaveResult

-- `rowLevelFailure`: an integrity violation or an invalid value.
unfoldable pub row_level_failure : SaveError → Bool
row_level_failure (pq_error class) = class =s= "23" || class =s= "22"
row_level_failure _ = false

-- `waiters[id]`, which is nil for a missing id.
unfoldable pub waiting : Dict (List ℕ) → String → List ℕ
waiting waiters id = elim (lookup id waiters) [ none ↦ [] | some chs ↦ chs ]

unfoldable pub send_all : SaveResult → List ℕ → List Reply
send_all res [] = []
send_all res (ch ∷ chs) = (ch, res) ∷ send_all res chs

-- What is sent, and the waiters that are left.
unfoldable pub deliver_save_result :
    Dict (List ℕ) → String → SaveResult → List Reply × Dict (List ℕ)
unfolding waiting send_all
deliver_save_result waiters id res = (send_all res (waiting waiters id), delete id waiters)

-- The requests with the first of each id, in order, and the channels of each id.
abbrev pub Collected : Type 0
Collected = List SaveRequest × Dict (List ℕ)

-- The entry of the request's id, if it was seen, gets one more channel.
unfoldable pub note_waiter :
    Option (List ℕ) → List SaveRequest → Dict (List ℕ) → SaveRequest → Collected
note_waiter none uniq waiters r = (uniq ++ r ∷ [], insert r.msg.id (r.reply ∷ []) waiters)
note_waiter (some chs) uniq waiters r = (uniq, insert r.msg.id (chs ++ r.reply ∷ []) waiters)

unfoldable pub collect_one : Collected → SaveRequest → Collected
unfolding note_waiter
collect_one (uniq, waiters) r = note_waiter (lookup r.msg.id waiters) uniq waiters r

unfoldable pub collect : Collected → List SaveRequest → Collected
unfolding collect_one
collect c [] = c
collect c (r ∷ rs) = collect (collect_one c r) rs

-- One result for each of the requests, delivered in turn.
unfoldable pub deliver_each :
    (SaveRequest → SaveResult) → Dict (List ℕ) → List SaveRequest → List Reply
unfolding deliver_save_result
deliver_each result waiters [] = []
deliver_each result waiters (r ∷ rs) =
    let (sent, rest) = deliver_save_result waiters r.msg.id (result r) in
    sent ++ deliver_each result rest rs

pub record Stats : Type 0 where
  pub batches : ℕ
  pub batch_rows : ℕ
  pub batch_retry : ℕ
  pub batch_fast_fail : ℕ

-- RETURNING gave no row: the save counts as failed.
unfoldable pub row_result : Dict SaveResult → String → SaveResult
row_result rs id = elim (lookup id rs) [ none ↦ failed no_returning_row | some res ↦ res ]

-- A row of its own: here a missing row is a result with no error.
unfoldable pub retry_result : String → Inserted → SaveResult
retry_result id (insert_error e) = failed e
retry_result id (rows rs) = elim (lookup id rs) [
  | none ↦ record { seq = 0; created_at = 0; err = none }
  | some got ↦ got
]

module _ {S : Type 0} (insert_rows : S → List SaveRequest → Inserted × S) where
  unfoldable pub retry_each : S → Dict (List ℕ) → List SaveRequest → List Reply × S
  unfolding deliver_save_result retry_result
  retry_each db waiters [] = ([], db)
  retry_each db waiters (r ∷ rs) =
      let (one, db') = insert_rows db (r ∷ []) in
      let (sent, rest) = deliver_save_result waiters r.msg.id (retry_result r.msg.id one) in
      let (later, db'') = retry_each db' rest rs in (sent ++ later, db'')

  unfoldable pub finish_batch :
      Stats → Inserted × S → List SaveRequest → Dict (List ℕ) → List Reply × Stats × S
  unfolding deliver_each row_result row_level_failure retry_each
  finish_batch st (rows rs, db) uniq waiters = (
    deliver_each (λ r. row_result rs r.msg.id) waiters uniq,
    record st { batches = st.batches + 1; batch_rows = st.batch_rows + length uniq },
    db,
  )
  finish_batch st (insert_error e, db) uniq waiters =
      let (sent, db') = retry_each db waiters uniq in
      if row_level_failure e then (sent, record st { batch_retry = st.batch_retry + 1 }, db') else (
        deliver_each (λ r. failed e) waiters uniq,
        record st { batch_fast_fail = st.batch_fast_fail + 1 },
        db,
      )

  -- The replies in the order in which they are sent, the counters and the database.
  unfoldable pub flush_message_batch : Stats → S → List SaveRequest → List Reply × Stats × S
  unfolding collect finish_batch
  flush_message_batch st db batch =
      let (uniq, waiters) = collect ([], []) batch in
      finish_batch st (insert_rows db uniq) uniq waiters
