-- ===== src/Hub/Sockets/Sending.antt =====
-- What a loop of `send` (server/main.go) makes of the connections.
use mathlib.Core.Path.{ap₂}
use hexeris_beta.Base.{
  ℕ, zero, suc, ◌≡◌, refl, sym, ap, ◌∙◌, Bool, true, false, List, [], ◌∷◌, map, ◌==◌, if◌then◌else◌,
  arith,
}
use hexeris_beta.Hub.Sockets.{Socket, Sockets, offer, send, send_each}

-- How often a connection is in a list.
unfoldable pub times : ℕ → List ℕ → ℕ
times id [] = 0
times id (x ∷ xs) = let n = times id xs in if id == x then suc n else n

unfoldable pub offer_times : ℕ → List ℕ → Socket → Socket
unfolding offer
offer_times zero frame s = s
offer_times (suc n) frame s = offer_times n frame (offer frame s)

id-offer : (frame : List ℕ) (s : Socket) → (offer frame s).id ≡ s.id
unfolding offer
id-offer frame s = ground arith

offer_none : (frame : List ℕ) (s : Socket) → offer_times (times s.id []) frame s ≡ s
unfolding offer_times times
offer_none frame s = refl

-- A send of one frame, before what `f` does to every connection.
map-send :
    (id : ℕ) (frame : List ℕ) (f g : Socket → Socket) (ss : Sockets)
    → ((s : Socket) → f (if s.id == id then offer frame s else s) ≡ g s)
    → map f (send id frame ss) ≡ map g ss
unfolding send
map-send id frame f g [] h = refl
map-send id frame f g (s ∷ rest) h = ap₂ ◌∷◌ (h s) (map-send id frame f g rest h)

pub map-pointwise :
    (f g : Socket → Socket) (ss : Sockets) → ((s : Socket) → f s ≡ g s) → map f ss ≡ map g ss
map-pointwise f g [] h = refl
map-pointwise f g (s ∷ rest) h = ap₂ ◌∷◌ (h s) (map-pointwise f g rest h)

map_same : (f : Socket → Socket) (ss : Sockets) → ((s : Socket) → f s ≡ s) → map f ss ≡ ss
map_same f [] h = refl
map_same f (s ∷ rest) h = ap₂ ◌∷◌ (h s) (map_same f rest h)

offer_times-send :
    (x : ℕ) (ids : List ℕ) (frame : List ℕ) (s : Socket)
    → let t = if s.id == x then offer frame s else s in
      offer_times (times t.id ids) frame t ≡ offer_times (times s.id (x ∷ ids)) frame s
unfolding times offer_times
offer_times-send x ids frame s = by_id (s.id == x)
  where
    by_id :
        (b : Bool)
        → let t = if b then offer frame s else s in
          offer_times (times t.id ids) frame t
          ≡ offer_times (if b then suc (times s.id ids) else times s.id ids) frame s
    by_id true = ap (λ (i : ℕ). offer_times (times i ids) frame (offer frame s)) (id-offer frame s)
    by_id false = refl

-- A loop over a list offers the frame to a connection as often as the list has it, and touches no
-- other connection.
pub send_each-map :
    (ids : List ℕ) (frame : List ℕ) (ss : Sockets)
    → send_each ids frame ss ≡ map (λ s. offer_times (times s.id ids) frame s) ss
unfolding send_each
send_each-map [] frame ss = sym (map_same _ ss (λ s. offer_none frame s))
send_each-map (x ∷ ids) frame ss =
    send_each-map ids frame (send x frame ss)
    ∙ map-send x frame _ _ ss (offer_times-send x ids frame)

pub id-offer_times : (n : ℕ) (frame : List ℕ) (s : Socket) → (offer_times n frame s).id ≡ s.id
unfolding offer_times
id-offer_times zero frame s = refl
id-offer_times (suc n) frame s = id-offer_times n frame (offer frame s) ∙ id-offer frame s

pub map-map_sockets :
    (f g : Socket → Socket) (ss : Sockets) → map f (map g ss) ≡ map (λ s. f (g s)) ss
map-map_sockets f g [] = refl
map-map_sockets f g (s ∷ rest) = ap (◌∷◌ (f (g s))) (map-map_sockets f g rest)

-- A second loop finds every connection under the number it had.
pub send_each-map_after :
    (ids : List ℕ) (frame : List ℕ) (g : Socket → Socket) (ss : Sockets)
    → ((s : Socket) → (g s).id ≡ s.id)
    → send_each ids frame (map g ss) ≡ map (λ s. offer_times (times s.id ids) frame (g s)) ss
send_each-map_after ids frame g ss h =
    send_each-map ids frame (map g ss)
    ∙ map-map_sockets _ g ss
    ∙ map-pointwise _ _ ss (λ s. ap (λ (i : ℕ). offer_times (times i ids) frame (g s)) (h s))
