-- ===== src/Msgwriter/Drain.antt =====
-- `runMessageWriter` of server/msgwriter.go: how the queue is cut into batches. The queue is what
-- stands in the channel; nothing arrives while one writer is looked at.
use hexeris_beta.Base.{
  ℕ, zero, suc, ◌-◌, ◌≤◌, ◌<◌, ◌≡◌, refl, ap, ◌∙◌, List, [], ◌∷◌, ◌++◌, arith, length,
}
use hexeris_beta.Msgwriter.{SaveRequest}

abbrev pub msg_batch_max_rows : ℕ
msg_batch_max_rows = 200

-- `for len(batch) < msgBatchMaxRows`, by the rows that are still free: the batch and what is left.
unfoldable pub drain : ℕ → List SaveRequest → List SaveRequest × List SaveRequest
drain zero queue = ([], queue)
drain (suc free) [] = ([], [])
drain (suc free) (r ∷ queue) = let (batch, rest) = drain free queue in (r ∷ batch, rest)

-- The batches that one writer flushes until the channel is empty and closed.
unfoldable pub run_message_writer : ℕ → List SaveRequest → List (List SaveRequest)
unfolding drain
run_message_writer zero queue = []
run_message_writer (suc fuel) [] = []
run_message_writer (suc fuel) (req ∷ queue) =
    let (batch, rest) = drain (msg_batch_max_rows - 1) queue in
    (req ∷ batch) ∷ run_message_writer fuel rest

abbrev pub join : List (List SaveRequest) → List SaveRequest
join [] = []
join (b ∷ bs) = b ++ join bs

-- Every batch has a request, and no more than the limit.
abbrev pub Sized : List (List SaveRequest) → Type 0
Sized [] = Unit {0}
Sized (b ∷ bs) = (0 < length b) × (length b ≤ msg_batch_max_rows) × Sized bs

drain_join : (n : ℕ) (q : List SaveRequest) → (drain n q).0 ++ (drain n q).1 ≡ q
unfolding drain
drain_join zero q = refl
drain_join (suc n) [] = refl
drain_join (suc n) (r ∷ q) = ap (◌∷◌ r) (drain_join n q)

drain_bounds :
    (n : ℕ) (q : List SaveRequest) → (length (drain n q).0 ≤ n) × (length (drain n q).1 ≤ length q)
unfolding drain
drain_bounds zero q = (omega arith, omega arith)
drain_bounds (suc n) [] = (omega arith, omega arith)
drain_bounds (suc n) (r ∷ q) = omega (arith, (drain_bounds n q).0, (drain_bounds n q).1)

-- With a round for each request at most, the batches are the queue cut in order: no request is
-- lost, repeated or moved, none of the batches is empty and none is longer than the limit.
pub run_message_writer_cuts :
    (fuel : ℕ) (queue : List SaveRequest)
    → length queue ≤ fuel
    → (join (run_message_writer fuel queue) ≡ queue) × Sized (run_message_writer fuel queue)
unfolding run_message_writer
run_message_writer_cuts zero [] h = (refl, tt)
run_message_writer_cuts zero (r ∷ q) h = absurd (omega arith)
run_message_writer_cuts (suc fuel) [] h = (refl, tt)
run_message_writer_cuts (suc fuel) (r ∷ q) h =
    let b = drain_bounds 199 q in
    let rest = run_message_writer_cuts fuel (drain 199 q).1 (omega (arith, b.1)) in
    (
      ap (◌∷◌ r) (ap (λ l. (drain 199 q).0 ++ l) rest.0 ∙ drain_join 199 q),
      (omega arith, omega (arith, b.0), rest.1),
    )
