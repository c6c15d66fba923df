-- ===== src/Limiter.antt =====
-- server/limiter.go: the sliding-window limiter of sign-in and of every costly endpoint.
-- The mutex of the source makes each operation atomic; time is an argument of each call.
pub mod Window
pub mod History
use hexeris_beta.Base.{
  ℕ, ◌+◌, String, Option, none, some, Bool, List, [], ◌∷◌, ◌++◌, ltb, leb, length, if◌then◌else◌,
}
use hexeris_beta.Base.Dict.{Dict, lookup, insert, delete}

pub record RateLimiter : Type 0 where
  pub attempts : Dict (List ℕ)
  pub max_attempts : ℕ
  pub window_secs : ℕ

unfoldable pub new_limiter : ℕ → ℕ → RateLimiter
new_limiter max window = record { attempts = []; max_attempts = max; window_secs = window }

-- A missing key reads as the empty slice.
unfoldable pub attempts_of : Dict (List ℕ) → String → List ℕ
attempts_of m k = elim (lookup k m) [ none ↦ [] | some ts ↦ ts ]

-- `t > now - windowSecs`, which the source computes in signed integers.
unfoldable pub live : ℕ → ℕ → List ℕ → List ℕ
live w now [] = []
live w now (t ∷ ts) = let rest = live w now ts in if ltb now (t + w) then t ∷ rest else rest

unfoldable pub is_blocked : RateLimiter → ℕ → String → Bool × RateLimiter
is_blocked rl now key =
    let valid = live rl.window_secs now (attempts_of rl.attempts key) in
    (leb rl.max_attempts (length valid), record rl { attempts = insert key valid rl.attempts })

unfoldable pub record_failure : RateLimiter → ℕ → String → RateLimiter
record_failure rl now key = record rl {
  attempts = insert key (attempts_of rl.attempts key ++ now ∷ []) rl.attempts;
}

-- A key whose attempts have all aged out is deleted.
pub keep_alive : String → List ℕ → Dict (List ℕ) → Dict (List ℕ)
keep_alive key [] rest = delete key rest
keep_alive key (t ∷ ts) rest = (key, t ∷ ts) ∷ rest

pub cleanup_attempts : ℕ → ℕ → Dict (List ℕ) → Dict (List ℕ)
cleanup_attempts w now [] = []
cleanup_attempts w now ((key, times) ∷ m) =
    keep_alive key (live w now times) (cleanup_attempts w now m)

unfoldable pub cleanup : RateLimiter → ℕ → RateLimiter
unfolding cleanup_attempts keep_alive
cleanup rl now = record rl { attempts = cleanup_attempts rl.window_secs now rl.attempts }
