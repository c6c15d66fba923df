-- ===== src/Hub/Sockets/Queue.antt =====
-- A frame in the queue of a connection (server/main.go).
use hexeris_beta.Base.{
  ℕ, ◌≡◌, refl, ◌∙◌, Bool, true, false, List, [], ◌∷◌, ◌++◌, ◌==◌, if◌then◌else◌, arith, ◌⊎◌, inl,
  inr,
}
use hexeris_beta.Hub.Sockets.{Socket, Sockets, offer, accepts, send, send_works, send_each}

abbrev pub Among : List ℕ → List (List ℕ) → Type 0
Among frame [] = ⊥
Among frame (x ∷ xs) = (x ≡ frame) ⊎ Among frame xs

-- A frame waits in the queue of a connection, or has been written from it.
abbrev pub Queued : ℕ → List ℕ → Sockets → Type 0
Queued id frame [] = ⊥
Queued id frame (s ∷ rest) = ((s.id ≡ id) × Among frame s.out) ⊎ Queued id frame rest

Among-append : (frame : List ℕ) (xs ys : List (List ℕ)) → Among frame xs → Among frame (xs ++ ys)
Among-append frame [] ys h = elim h [ ]
Among-append frame (x ∷ xs) ys (inl e) = inl e
Among-append frame (x ∷ xs) ys (inr h) = inr (Among-append frame xs ys h)

Among-last : (frame : List ℕ) (xs : List (List ℕ)) → Among frame (xs ++ frame ∷ [])
Among-last frame [] = inl refl
Among-last frame (x ∷ xs) = inr (Among-last frame xs)

Among-offer : (frame f : List ℕ) (s : Socket) → Among frame s.out → Among frame (offer f s).out
unfolding offer
Among-offer frame f s h = ground (arith, Among-append frame s.out (f ∷ []) h)

id-offer : (f : List ℕ) (s : Socket) → (offer f s).id ≡ s.id
unfolding offer
id-offer f s = ground arith

pub Queued-send :
    (id : ℕ) (frame : List ℕ) (n : ℕ) (f : List ℕ) (ss : Sockets)
    → Queued id frame ss
    → Queued id frame (send n f ss)
unfolding send
Queued-send id frame n f [] h = h
Queued-send id frame n f (s ∷ rest) (inr h) = inr (Queued-send id frame n f rest h)
Queued-send id frame n f (s ∷ rest) (inl (e, h)) = inl (by_test (s.id == n))
  where
    by_test :
        (b : Bool)
        → ((if b then offer f s else s).id ≡ id) × Among frame (if b then offer f s else s).out
    by_test true = (id-offer f s ∙ e, Among-offer frame f s h)
    by_test false = (e, h)

pub Queued-send_each :
    (id : ℕ) (frame : List ℕ) (ids : List ℕ) (f : List ℕ) (ss : Sockets)
    → Queued id frame ss
    → Queued id frame (send_each ids f ss)
unfolding send_each
Queued-send_each id frame [] f ss h = h
Queued-send_each id frame (n ∷ ns) f ss h =
    Queued-send_each id frame ns f (send n f ss) (Queued-send id frame n f ss h)

Among-accepted : (frame : List ℕ) (s : Socket) → accepts s ≡ true → Among frame (offer frame s).out
unfolding offer accepts
Among-accepted frame s h = ground (arith, Among-last frame s.out)

pub Queued-send_works :
    (id : ℕ) (frame : List ℕ) (ss : Sockets)
    → send_works id ss ≡ true
    → Queued id frame (send id frame ss)
unfolding send send_works
Queued-send_works id frame [] h = absurd (cc h)
Queued-send_works id frame (s ∷ rest) h =
    by_test (s.id == id) refl h (λ ok. Queued-send_works id frame rest ok)
  where
    by_test :
        (b : Bool)
        → (s.id == id) ≡ b
        → (if b then accepts s else send_works id rest) ≡ true
        → (send_works id rest ≡ true → Queued id frame (send id frame rest))
        → Queued id frame ((if b then offer frame s else s) ∷ send id frame rest)
    by_test true e ok later = inl (id-offer frame s ∙ ground (arith, e), Among-accepted frame s ok)
    by_test false e ok later = inr (later ok)

refuses-offer : (f : List ℕ) (s : Socket) → accepts s ≡ false → accepts (offer f s) ≡ false
unfolding offer accepts
refuses-offer f s h = ground arith

-- A connection that does not take a frame takes none afterwards.
pub send_works-send :
    (id : ℕ) (f : List ℕ) (ss : Sockets)
    → send_works id ss ≡ false
    → send_works id (send id f ss) ≡ false
unfolding send send_works
send_works-send id f [] h = refl
send_works-send id f (s ∷ rest) h =
    ground (arith, id-offer f s, refuses-offer f s, send_works-send id f rest)
