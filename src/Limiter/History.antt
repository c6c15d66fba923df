-- ===== src/Limiter/History.antt =====
-- What server/limiter.go promises, as a refinement: a verdict depends only on the failures that
-- were recorded within the window, whatever checks and cleanups ran in between.
use mathlib.Core.List.{append-nil, append_assoc}
use hexeris_beta.Base.{
  ℕ, ◌≤◌, String, ◌≡◌, refl, sym, ap, ◌∙◌, List, [], ◌∷◌, ◌++◌, arith, leb, length, if◌then◌else◌,
  ◌=s=◌, eq_iff,
}
use hexeris_beta.Base.Dict.{lookup}
use hexeris_beta.Limiter.{
  RateLimiter, new_limiter, attempts_of, live, is_blocked, record_failure, cleanup,
}
use hexeris_beta.Limiter.Window.{live-live, live-append, attempts_of-insert, attempts_of-cleanup}

-- One call on the limiter, at its time.
pub data Call : Type 0 where
  checks records : String → Call
  cleans : Call

unfoldable pub step : RateLimiter → ℕ → Call → RateLimiter
unfolding is_blocked record_failure cleanup
step rl now (checks key) = (is_blocked rl now key).1
step rl now (records key) = record_failure rl now key
step rl now cleans = cleanup rl now

unfoldable pub run : RateLimiter → List (ℕ × Call) → RateLimiter
unfolding step
run rl [] = rl
run rl ((now, c) ∷ cs) = run (step rl now c) cs

-- The times at which failures of `key` were recorded.
unfoldable pub noted : String → ℕ → Call → List ℕ
noted key now (records k) = if k =s= key then now ∷ [] else []
noted key now (checks k) = []
noted key now cleans = []

unfoldable pub failures : String → List (ℕ × Call) → List ℕ
unfolding noted
failures key [] = []
failures key ((now, c) ∷ cs) = noted key now c ++ failures key cs

-- The clock does not run backwards: no call is later than `now`, nor earlier than the one before.
abbrev pub Ordered : ℕ → List (ℕ × Call) → ℕ → Type 0
Ordered from [] now = from ≤ now
Ordered from ((t, c) ∷ cs) now = (from ≤ t) × Ordered t cs now

window_secs-step :
    (rl : RateLimiter) (t : ℕ) (c : Call) → (step rl t c).window_secs ≡ rl.window_secs
unfolding step
window_secs-step rl t (checks k) = refl
window_secs-step rl t (records k) = refl
window_secs-step rl t cleans = refl

max_attempts-step :
    (rl : RateLimiter) (t : ℕ) (c : Call) → (step rl t c).max_attempts ≡ rl.max_attempts
unfolding step
max_attempts-step rl t (checks k) = refl
max_attempts-step rl t (records k) = refl
max_attempts-step rl t cleans = refl

attempts-step :
    (rl : RateLimiter) (t now : ℕ) (c : Call) (key : String)
    → t ≤ now
    → live rl.window_secs now (attempts_of (step rl t c).attempts key)
      ≡ live rl.window_secs now (attempts_of rl.attempts key ++ noted key t c)
unfolding step noted
attempts-step rl t now (checks k) key h = ground (
  arith,
  attempts_of-insert rl.attempts k key (live rl.window_secs t (attempts_of rl.attempts k)),
  live-live rl.window_secs t now (attempts_of rl.attempts k) h,
  append-nil (attempts_of rl.attempts key),
  eq_iff k key,
)
attempts-step rl t now (records k) key h = ground (
  arith,
  attempts_of-insert rl.attempts k key (attempts_of rl.attempts k ++ t ∷ []),
  append-nil (attempts_of rl.attempts key),
  eq_iff k key,
)
attempts-step rl t now cleans key h = ground (
  arith,
  attempts_of-cleanup rl.window_secs t rl.attempts key,
  live-live rl.window_secs t now (attempts_of rl.attempts key) h,
  append-nil (attempts_of rl.attempts key),
)

le_of_Ordered : (from : ℕ) (cs : List (ℕ × Call)) (now : ℕ) → Ordered from cs now → from ≤ now
le_of_Ordered from [] now h = h
le_of_Ordered from ((t, c) ∷ cs) now h = omega (arith, le_of_Ordered t cs now h.1)

-- What the window shows at `now` after a run is what it shows of the recorded failures.
live-run :
    (rl : RateLimiter) (from : ℕ) (cs : List (ℕ × Call)) (now : ℕ) (key : String)
    → Ordered from cs now
    → live rl.window_secs now (attempts_of (run rl cs).attempts key)
      ≡ live rl.window_secs now (attempts_of rl.attempts key ++ failures key cs)
unfolding run failures
live-run rl from [] now key h = ap (live rl.window_secs now) (sym (append-nil _))
live-run rl from ((t, c) ∷ cs) now key h = ground (
  arith,
  live-run (step rl t c) t cs now key h.1,
  window_secs-step rl t c,
  attempts-step rl t now c key (le_of_Ordered t cs now h.1),
  live-append rl.window_secs now (attempts_of (step rl t c).attempts key) (failures key cs),
  live-append rl.window_secs now (attempts_of rl.attempts key ++ noted key t c) (failures key cs),
  append_assoc (attempts_of rl.attempts key) (noted key t c) (failures key cs),
)

window_secs-run :
    (rl : RateLimiter) (cs : List (ℕ × Call)) → (run rl cs).window_secs ≡ rl.window_secs
unfolding run
window_secs-run rl [] = refl
window_secs-run rl ((t, c) ∷ cs) = window_secs-run (step rl t c) cs ∙ window_secs-step rl t c

max_attempts-run :
    (rl : RateLimiter) (cs : List (ℕ × Call)) → (run rl cs).max_attempts ≡ rl.max_attempts
unfolding run
max_attempts-run rl [] = refl
max_attempts-run rl ((t, c) ∷ cs) = max_attempts-run (step rl t c) cs ∙ max_attempts-step rl t c

-- After any calls whose clock does not run backwards, a new limiter blocks a key exactly when at
-- least `max` of the failures recorded for that key are younger than the window; the checks and
-- cleanups in between have no influence.
pub is_blocked-run :
    (max window from : ℕ) (cs : List (ℕ × Call)) (now : ℕ) (key : String)
    → Ordered from cs now
    → (is_blocked (run (new_limiter max window) cs) now key).0
      ≡ leb max (length (live window now (failures key cs)))
unfolding is_blocked new_limiter attempts_of lookup
is_blocked-run max window from cs now key h = ground (
  arith,
  live-run (new_limiter max window) from cs now key h,
  window_secs-run (new_limiter max window) cs,
  max_attempts-run (new_limiter max window) cs,
)
