-- ===== src/Examples/Messages.antt =====
-- server/msgwriter.go on concrete batches.
use mathlib.Core.List.{Perm}
use hexeris_beta.Base.{
  ℕ, zero, suc, ◌+◌, ◌≤◌, String, ◌≡◌, refl, Option, none, some, Bool, true, false, List, [], ◌∷◌,
  arith, length,
}
use hexeris_beta.Base.Dict.{lookup}
use hexeris_beta.Msgwriter.{
  other_error, pq_error, no_returning_row, SaveResult, failed, SaveRequest, Inserted, rows,
  insert_error, Stats, flush_message_batch,
}
use hexeris_beta.Msgwriter.Waiters.{expected}
use hexeris_beta.Msgwriter.Replies.{flush_answers_all}
use hexeris_beta.Msgwriter.Drain.{run_message_writer, join, Sized, run_message_writer_cuts}

abbrev request : String → ℕ → SaveRequest
request id ch = record {
  msg = record {
    id = id;
    sender = "ann";
    recipient = "bob";
    media_type = "";
    reply_to = "";
    forwarded = false;
  };
  body = "sealed";
  reply = ch;
}

-- The client sends one message twice.
abbrev batch : List SaveRequest
batch = request "m1" 1 ∷ request "m2" 2 ∷ request "m1" 3 ∷ []

abbrev stats : Stats
stats = record { batches = 0; batch_rows = 0; batch_retry = 0; batch_fast_fail = 0 }

-- A database that counts the statements and has no row for "m2".
abbrev insert_rows : ℕ → List SaveRequest → Inserted × ℕ
insert_rows n rs = (rows (("m1", record { seq = 7; created_at = 9; err = none }) ∷ []), n + 1)

-- A database that is down.
abbrev insert_down : ℕ → List SaveRequest → Inserted × ℕ
insert_down n rs = (insert_error other_error, n + 1)

flush_answers_all_example :
    (result : String → SaveResult) × Perm
      (flush_message_batch insert_rows stats 0 batch).0
      (expected result batch)
flush_answers_all_example = flush_answers_all insert_rows stats 0 batch

flush_test :
    (flush_message_batch insert_rows stats 0 batch).0
    ≡ (1, record { seq = 7; created_at = 9; err = none })
      ∷ (3, record { seq = 7; created_at = 9; err = none })
      ∷ (2, failed no_returning_row)
      ∷ []
unfolding flush_message_batch lookup hexeris_beta.Base.Dict.insert hexeris_beta.Base.Dict.delete
flush_test = refl

-- The row is refused in the batch, and missing in the retry.
abbrev insert_missing : ℕ → List SaveRequest → Inserted × ℕ
insert_missing zero rs = (insert_error (pq_error "23"), 1)
insert_missing (suc n) rs = (rows [], suc (suc n))

run_message_writer_cuts_example :
    (join (run_message_writer 3 batch) ≡ batch) × Sized (run_message_writer 3 batch)
run_message_writer_cuts_example = run_message_writer_cuts 3 batch (omega arith)
