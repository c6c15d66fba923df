-- ===== src/Limiter/Window.antt =====
-- The window of server/limiter.go: what one operation does to what the later ones can see.
use hexeris_beta.Base.{ℕ, ◌≤◌, String, ◌≡◌, refl, List, [], ◌∷◌, ◌++◌, arith, if◌then◌else◌, ◌=s=◌}
use hexeris_beta.Base.Dict.{Dict, lookup, insert, lookup-insert, lookup-delete}
use hexeris_beta.Limiter.{live, attempts_of, cleanup_attempts, keep_alive}

pub live-live : (w a b : ℕ) (ts : List ℕ) → a ≤ b → live w b (live w a ts) ≡ live w b ts
unfolding live
live-live w a b [] h = refl
live-live w a b (t ∷ ts) h = ground (arith, live-live w a b ts h)

pub live-append : (w a : ℕ) (xs ys : List ℕ) → live w a (xs ++ ys) ≡ live w a xs ++ live w a ys
unfolding live
live-append w a [] ys = refl
live-append w a (x ∷ xs) ys = ground (arith, live-append w a xs ys)

pub attempts_of-insert :
    (m : Dict (List ℕ)) (k j : String) (v : List ℕ)
    → attempts_of (insert k v m) j ≡ (if k =s= j then v else attempts_of m j)
unfolding attempts_of
attempts_of-insert m k j v = rw (lookup-insert k j v m, attempts_of) (ground arith)

attempts_of-keep_alive :
    (w now : ℕ) (key j : String) (ts : List ℕ) (rest : Dict (List ℕ))
    → attempts_of (keep_alive key ts rest) j ≡ (if key =s= j then ts else attempts_of rest j)
unfolding attempts_of keep_alive lookup
attempts_of-keep_alive w now key j [] rest =
    rw (lookup-delete key j rest, attempts_of) (ground arith)
attempts_of-keep_alive w now key j (t ∷ ts) rest = ground arith

-- A cleanup takes away what has aged out of the window, at every key, and nothing else.
pub attempts_of-cleanup :
    (w now : ℕ) (m : Dict (List ℕ)) (j : String)
    → attempts_of (cleanup_attempts w now m) j ≡ live w now (attempts_of m j)
unfolding attempts_of cleanup_attempts lookup live
attempts_of-cleanup w now [] j = refl
attempts_of-cleanup w now ((key, times) ∷ m) j = ground (
  arith,
  attempts_of-keep_alive w now key j (live w now times) (cleanup_attempts w now m),
  attempts_of-cleanup w now m j,
)
