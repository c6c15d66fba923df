-- ===== src/Calls/Delivery.antt =====
-- What a callee finds on opening a socket (server/calls.go): the call that rang last, in order.
use hexeris_beta.Base.{
  ℕ, zero, suc, ◌+◌, ◌≤◌, String, ◌≡◌, refl, true, false, List, [], ◌∷◌, ◌++◌, map, ltb, length,
  take, length-append, if◌then◌else◌, ◌=s=◌, eq_iff, arith, subst, Bool-cases, inl, inr,
}
use mathlib.Core.List.{append-nil, append_assoc}
use text.Mathlib.TextPositions.{eq_refl}
use hexeris_beta.Base.Dict.{lookup, insert, delete, lookup-insert, lookup-delete}
use hexeris_beta.Calls.{
  QueuedSignal, Queues, queue_of, queue_call_signal, flush_call_signals, cleanup_call_queues,
  clear_call_queue, is_expired, call_queue_cap, call_queue_ttl,
}

pub data Event : Type 0 where
  offers candidates : String → List ℕ → Event
  clears flushes : String → Event
  sweeps : Event

unfoldable pub step : Queues → ℕ → Event → Queues
unfolding queue_call_signal clear_call_queue flush_call_signals
step qs now (offers to payload) = queue_call_signal qs now to payload true
step qs now (candidates to payload) = queue_call_signal qs now to payload false
step qs now (clears to) = clear_call_queue qs to
step qs now (flushes user) = (flush_call_signals qs now user).1
step qs now sweeps = cleanup_call_queues qs now

unfoldable pub run : Queues → List (ℕ × Event) → Queues
unfolding step
run qs [] = qs
run qs ((now, e) ∷ es) = run (step qs now e) es

queue_of-insert :
    (qs : Queues) (k j : String) (q : List QueuedSignal)
    → queue_of (insert k q qs) j ≡ (if k =s= j then q else queue_of qs j)
unfolding queue_of
queue_of-insert qs k j q = rw (lookup-insert k j q qs, queue_of) (ground arith)

queue_of-delete :
    (qs : Queues) (k j : String)
    → queue_of (delete k qs) j ≡ (if k =s= j then [] else queue_of qs j)
unfolding queue_of
queue_of-delete qs k j = rw (lookup-delete k j qs, queue_of) (ground arith)

-- A sweep drops the queues that have expired, and keeps the others as they are.
pub queue_of-cleanup :
    (qs : Queues) (now : ℕ) (j : String)
    → queue_of (cleanup_call_queues qs now) j
      ≡ (if is_expired now (queue_of qs j) then [] else queue_of qs j)
unfolding queue_of cleanup_call_queues lookup
queue_of-cleanup [] now j = ground arith
queue_of-cleanup ((to, q) ∷ qs) now j =
    ground (arith, queue_of-cleanup qs now j, lookup-delete to j (cleanup_call_queues qs now))

step-bounded :
    (qs : Queues) (now : ℕ) (e : Event)
    → ((to : String) → length (queue_of qs to) ≤ call_queue_cap)
    → (j : String) → length (queue_of (step qs now e) j) ≤ call_queue_cap
unfolding step
step-bounded qs now (offers k p) h j =
    ground (arith, queue_of-insert qs k j (record { payload = p; at = now } ∷ []), h j)
step-bounded qs now (candidates k p) h j = ground (
  arith,
  queue_of-insert qs k j (queue_of qs k ++ record { payload = p; at = now } ∷ []),
  length-append (queue_of qs k) (record { payload = p; at = now } ∷ []),
  h j,
)
step-bounded qs now (clears k) h j = ground (arith, queue_of-delete qs k j, h j)
step-bounded qs now (flushes k) h j = ground (arith, queue_of-delete qs k j, h j)
step-bounded qs now sweeps h j = ground (arith, queue_of-cleanup qs now j, h j)

-- From queues within the cap, no sequence of events makes any queue longer than the cap.
pub run-bounded :
    (qs : Queues) (es : List (ℕ × Event))
    → ((to : String) → length (queue_of qs to) ≤ call_queue_cap)
    → (to : String) → length (queue_of (run qs es) to) ≤ call_queue_cap
unfolding run
run-bounded qs [] h to = h to
run-bounded qs ((now, e) ∷ es) h to = run-bounded (step qs now e) es (step-bounded qs now e h) to

-- No event of `es` starts, clears or takes the call of `callee`, and no sweep comes after the
-- offer of time `at` has expired.
abbrev pub Rings : String → ℕ → List (ℕ × Event) → Type 0
Rings callee at [] = Unit {0}
Rings callee at ((now, offers k p) ∷ es) = ((k =s= callee) ≡ false) × Rings callee at es
Rings callee at ((now, candidates k p) ∷ es) = Rings callee at es
Rings callee at ((now, clears k) ∷ es) = ((k =s= callee) ≡ false) × Rings callee at es
Rings callee at ((now, flushes k) ∷ es) = ((k =s= callee) ≡ false) × Rings callee at es
Rings callee at ((now, sweeps) ∷ es) = (now ≤ at + call_queue_ttl) × Rings callee at es

-- The candidates of `es` for `callee`, in the order in which they came.
abbrev pub candidates_for : String → List (ℕ × Event) → List QueuedSignal
candidates_for callee [] = []
candidates_for callee ((now, candidates k p) ∷ es) =
    let rest = candidates_for callee es in
    if k =s= callee then record { payload = p; at = now } ∷ rest else rest
candidates_for callee (_ ∷ es) = candidates_for callee es

take-snoc :
    (n : ℕ) (xs : List QueuedSignal) (x : QueuedSignal)
    → take n (xs ++ x ∷ [])
      ≡ (if ltb (length (take n xs)) n then take n xs ++ x ∷ [] else take n xs)
take-snoc zero xs x = refl
take-snoc (suc zero) [] x = refl
take-snoc (suc (suc n)) [] x = ground arith
take-snoc (suc n) (y ∷ xs) x = ground (arith, take-snoc n xs x)

module _ (callee : String) (first : QueuedSignal) where
  queue_of-run :
      (qs : Queues) (es : List (ℕ × Event)) (xs : List QueuedSignal)
      → Rings callee first.at es
      → queue_of qs callee ≡ take call_queue_cap (first ∷ xs)
      → queue_of (run qs es) callee ≡ take call_queue_cap (first ∷ (xs ++ candidates_for callee es))
  unfolding run
  queue_of-run qs [] xs r e = ground (arith, append-nil xs)
  queue_of-run qs ((now, offers k p) ∷ es) xs r e =
      queue_of-run (step qs now (offers k p)) es xs r.1 (
        unfold step in
        ground (arith, queue_of-insert qs k callee (record { payload = p; at = now } ∷ [])))
  queue_of-run qs ((now, clears k) ∷ es) xs r e =
      queue_of-run (step qs now (clears k)) es xs r.1
        (unfold step in ground (arith, queue_of-delete qs k callee))
  queue_of-run qs ((now, flushes k) ∷ es) xs r e =
      queue_of-run (step qs now (flushes k)) es xs r.1
        (unfold step in ground (arith, queue_of-delete qs k callee))
  queue_of-run qs ((now, sweeps) ∷ es) xs r e =
      queue_of-run (step qs now sweeps) es xs r.1
        (unfold step is_expired in ground (arith, queue_of-cleanup qs now callee))
  queue_of-run qs ((now, candidates k p) ∷ es) xs r e = elim (Bool-cases (k =s= callee)) [
    | inl same ↦
        let x : QueuedSignal = record { payload = p; at = now } in
        rw same (
          subst
            (λ l.
              queue_of (run (step qs now (candidates k p)) es) callee
              ≡ take call_queue_cap (first ∷ l))
            (append_assoc xs (x ∷ []) (candidates_for callee es))
            (queue_of-run (step qs now (candidates k p)) es (xs ++ x ∷ []) r (
              unfold step in
              ground (
                arith,
                eq_iff k callee,
                take-snoc call_queue_cap (first ∷ xs) x,
                queue_of-insert qs k callee (queue_of qs k ++ x ∷ []),
              ))))
    | inr other ↦ rw other (
        queue_of-run (step qs now (candidates k p)) es xs r (
          unfold step in
          ground (
            arith,
            queue_of-insert qs k callee (queue_of qs k ++ record { payload = p; at = now } ∷ []),
          )))
  ]

-- A callee who opens a socket while the call rings receives its offer and then its candidates in
-- order, forty frames at most, whatever was queued before, happened to other callees or was swept
-- in between; and the queue of the callee is empty afterwards.
pub flush-Rings :
    (qs : Queues) (callee : String) (at now : ℕ) (offer : List ℕ) (es : List (ℕ × Event))
    → Rings callee at es
    → now ≤ at + call_queue_ttl
    → let ringing = run qs ((at, offers callee offer) ∷ es) in
      let frames = record { payload = offer; at = at } ∷ candidates_for callee es in
      ((flush_call_signals ringing now callee).0
        ≡ map (λ sig. sig.payload) (take call_queue_cap frames))
      × (queue_of (flush_call_signals ringing now callee).1 callee ≡ [])
unfolding run flush_call_signals step is_expired
flush-Rings qs callee at now offer es r live = ground (
  arith,
  queue_of-run callee (record { payload = offer; at = at })
      (insert callee (record { payload = offer; at = at } ∷ []) qs) es [] r,
  queue_of-insert qs callee callee (record { payload = offer; at = at } ∷ []),
  eq_refl callee,
  queue_of-delete (run (insert callee (record { payload = offer; at = at } ∷ []) qs) es) callee
      callee,
)
