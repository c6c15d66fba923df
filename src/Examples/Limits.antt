-- ===== src/Examples/Limits.antt =====
-- server/limiter.go and server/calls.go on concrete calls.
use hexeris_beta.Base.{
  ℕ, String, ◌≡◌, ◌≤◌, refl, Bool, true, false, List, [], ◌∷◌, arith, leb, length, map, take,
}
use hexeris_beta.Limiter.{new_limiter, live, is_blocked}
use hexeris_beta.Limiter.History.{Call, checks, records, cleans, failures, is_blocked-run}
use hexeris_beta.Limiter.History
use hexeris_beta.Calls.{Queues, queue_of, call_queue_cap, flush_call_signals}
use hexeris_beta.Calls.Delivery
use hexeris_beta.Calls.Delivery.{
  Event, offers, candidates, sweeps, candidates_for, run-bounded, flush-Rings,
}

abbrev calls : List (ℕ × Call)
calls = (100, records "ip") ∷ (200, checks "ip") ∷ (300, records "ip") ∷ (400, cleans) ∷ []

is_blocked-run_example :
    (is_blocked (History.run (new_limiter 2 600) calls) 500 "ip").0
    ≡ leb 2 (length (live 600 500 (failures "ip" calls)))
is_blocked-run_example =
    is_blocked-run 2 600 0 calls 500 "ip"
      (omega arith, (omega arith, (omega arith, (omega arith, omega arith))))

is_blocked_test : (is_blocked (History.run (new_limiter 2 600) calls) 500 "ip").0 ≡ true
unfolding is_blocked History.run new_limiter live hexeris_beta.Limiter.attempts_of
    hexeris_beta.Base.Dict.lookup hexeris_beta.Base.Dict.insert
is_blocked_test = refl

abbrev ringing : List (ℕ × Event)
ringing = (11, candidates "ann" (2 ∷ [])) ∷ (12, offers "bob" (3 ∷ [])) ∷ (13, sweeps) ∷ []

flush-Rings_example :
    ((flush_call_signals (Delivery.run [] ((10, offers "ann" (1 ∷ [])) ∷ ringing)) 14 "ann").0
      ≡ map
          (λ sig. sig.payload)
          (take call_queue_cap
            (record { payload = 1 ∷ []; at = 10 } ∷ candidates_for "ann" ringing)))
    × (queue_of
          (flush_call_signals (Delivery.run [] ((10, offers "ann" (1 ∷ [])) ∷ ringing)) 14 "ann").1
          "ann"
        ≡ [])
flush-Rings_example =
    flush-Rings [] "ann" 10 14 (1 ∷ []) ringing (refl, (omega arith, tt)) (omega arith)

flush_test :
    (flush_call_signals (Delivery.run [] ((10, offers "ann" (1 ∷ [])) ∷ ringing)) 14 "ann").0
    ≡ (1 ∷ []) ∷ (2 ∷ []) ∷ []
unfolding flush_call_signals Delivery.run hexeris_beta.Calls.is_expired queue_of
    hexeris_beta.Base.Dict.lookup hexeris_beta.Calls.cleanup_call_queues
    hexeris_beta.Base.Dict.insert
flush_test = refl
