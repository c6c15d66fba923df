-- ===== src/Calls.antt =====
-- server/calls.go: the queue of call signals for a callee who is briefly offline. Times are in
-- nanoseconds, as `time.Duration` counts them; the mutex makes each function atomic.
pub mod Delivery
use hexeris_beta.Base.{
  ℕ, ◌+◌, String, Option, none, some, Bool, true, false, List, [], ◌∷◌, ◌++◌, map, ltb, length,
  ◌&&◌, ◌||◌, if◌then◌else◌,
}
use hexeris_beta.Base.Dict.{Dict, lookup, insert, delete}

abbrev pub call_queue_ttl : ℕ
call_queue_ttl = 45_000_000_000

abbrev pub call_queue_cap : ℕ
call_queue_cap = 40

pub record QueuedSignal : Type 0 where
  pub payload : List ℕ
  pub at : ℕ

abbrev pub Queues : Type 0
Queues = Dict (List QueuedSignal)

-- A missing key reads as the empty slice.
unfoldable pub queue_of : Queues → String → List QueuedSignal
queue_of qs to = elim (lookup to qs) [ none ↦ [] | some q ↦ q ]

unfoldable pub queue_call_signal : Queues → ℕ → String → List ℕ → Bool → Queues
queue_call_signal qs now to payload true =
    insert to (record { payload = payload; at = now } ∷ []) qs
queue_call_signal qs now to payload false =
    let q = queue_of qs to in
    if ltb 0 (length q) && ltb (length q) call_queue_cap
    then insert to (q ++ record { payload = payload; at = now } ∷ []) qs
    else qs

unfoldable pub clear_call_queue : Queues → String → Queues
clear_call_queue qs to = delete to qs

-- `len(q) == 0 || time.Since(q[0].at) > callQueueTTL`
unfoldable pub is_expired : ℕ → List QueuedSignal → Bool
is_expired now [] = true
is_expired now (sig ∷ q) = ltb (sig.at + call_queue_ttl) now

-- The frames that are sent to the client, in order, and the queues that are left.
unfoldable pub flush_call_signals : Queues → ℕ → String → List (List ℕ) × Queues
flush_call_signals qs now username =
    let q = queue_of qs username in
    (if is_expired now q then [] else map (λ sig. sig.payload) q, delete username qs)

unfoldable pub cleanup_call_queues : Queues → ℕ → Queues
cleanup_call_queues [] now = []
cleanup_call_queues ((to, q) ∷ qs) now =
    let rest = cleanup_call_queues qs now in
    if is_expired now q then delete to rest else (to, q) ∷ rest
