-- ===== src/Hub/Marks/Kept.antt =====
-- No mark of server/delivery.go is lost while the UPDATEs work, and each is written.
use hexeris_beta.Base.{
  ℕ, zero, suc, ◌≤◌, ◌≡◌, refl, sym, ap, subst, String, Bool, true, false, List, [], ◌∷◌, ◌++◌, ltb,
  leb, length, if◌then◌else◌, arith, ◌⊎◌, inl, inr,
}
use hexeris_beta.Hub.Marks.{
  Marks, mark_delivered, flush, take_first, receive, Event, mark, took, tick, step, run,
  delivered_queue_cap, delivered_max_batch,
}

abbrev pub In : String → List String → Type 0
In id [] = ⊥
In id (x ∷ xs) = (x ≡ id) ⊎ In id xs

-- The mark is in the channel, in the batch or in the table.
abbrev pub Held : String → Marks → Type 0
Held id m = In id m.queue ⊎ In id m.batch ⊎ In id m.delivered

-- The UPDATE of the event, if there is one, works.
abbrev pub Works : Event → Type 0
Works (mark up id) = up ≡ true
Works (took up) = up ≡ true
Works (tick up) = up ≡ true

abbrev pub AllWork : List Event → Type 0
AllWork [] = Unit {0}
AllWork (e ∷ es) = Works e × AllWork es

In-left : (id : String) (xs ys : List String) → In id xs → In id (xs ++ ys)
In-left id [] ys h = elim h [ ]
In-left id (x ∷ xs) ys (inl e) = inl e
In-left id (x ∷ xs) ys (inr h) = inr (In-left id xs ys h)

In-right : (id : String) (xs ys : List String) → In id ys → In id (xs ++ ys)
In-right id [] ys h = h
In-right id (x ∷ xs) ys h = inr (In-right id xs ys h)

flush-Held : (id : String) (m : Marks) → Held id m → Held id (flush true m)
unfolding flush
flush-Held id m h = by_batch (ltb 0 (length m.batch)) h
  where
    by_batch :
        (b : Bool)
        → Held id m
        → Held id (if b then record m { batch = []; delivered = m.batch ++ m.delivered } else m)
    by_batch true (inl q) = inl q
    by_batch true (inr (inl b)) = inr (inr (In-left id m.batch m.delivered b))
    by_batch true (inr (inr d)) = inr (inr (In-right id m.batch m.delivered d))
    by_batch false h' = h'

receive-Held : (id : String) (m : Marks) → Held id m → Held id (receive true m)
unfolding receive take_first
receive-Held id m h = by_queue m.queue h
  where
    by_queue :
        (q : List String)
        → In id q ⊎ In id m.batch ⊎ In id m.delivered
        → Held id (take_first true q m)
    by_queue [] g = h
    by_queue (x ∷ rest) g = by_size (leb delivered_max_batch (length (m.batch ++ x ∷ []))) (moved g)
      where
        taken : Marks
        taken = record m { queue = rest; batch = m.batch ++ x ∷ [] }

        moved : In id (x ∷ rest) ⊎ In id m.batch ⊎ In id m.delivered → Held id taken
        moved (inl (inl e)) = inr (inl (In-right id m.batch (x ∷ []) (inl e)))
        moved (inl (inr r)) = inl r
        moved (inr (inl b)) = inr (inl (In-left id m.batch (x ∷ []) b))
        moved (inr (inr d)) = inr (inr d)

        by_size : (b : Bool) → Held id taken → Held id (if b then flush true taken else taken)
        by_size true t = flush-Held id taken t
        by_size false t = t

mark_delivered-Held :
    (id other : String) (m : Marks) → Held id m → Held id (mark_delivered true other m)
unfolding mark_delivered
mark_delivered-Held id other m h = by_size (ltb (length m.queue) delivered_queue_cap) h
  where
    by_size :
        (b : Bool)
        → Held id m
        → Held id (
            if b
            then record m { queue = m.queue ++ other ∷ [] }
            else record m { delivered = other ∷ m.delivered })
    by_size true (inl q) = inl (In-left id m.queue (other ∷ []) q)
    by_size true (inr g) = inr g
    by_size false (inl q) = inl q
    by_size false (inr (inl b)) = inr (inl b)
    by_size false (inr (inr d)) = inr (inr (inr d))

mark_delivered_holds : (id : String) (m : Marks) → Held id (mark_delivered true id m)
unfolding mark_delivered
mark_delivered_holds id m = by_size (ltb (length m.queue) delivered_queue_cap)
  where
    by_size :
        (b : Bool)
        → Held id (
            if b
            then record m { queue = m.queue ++ id ∷ [] }
            else record m { delivered = id ∷ m.delivered })
    by_size true = inl (In-right id m.queue (id ∷ []) (inl refl))
    by_size false = inr (inr (inl refl))

step-Held : (id : String) (e : Event) (m : Marks) → Works e → Held id m → Held id (step e m)
unfolding step
step-Held id (mark up other) m w h =
    subst (λ u. Held id (mark_delivered u other m)) (sym w) (mark_delivered-Held id other m h)
step-Held id (took up) m w h = subst (λ u. Held id (receive u m)) (sym w) (receive-Held id m h)
step-Held id (tick up) m w h = subst (λ u. Held id (flush u m)) (sym w) (flush-Held id m h)

run-Held : (id : String) (es : List Event) (m : Marks) → AllWork es → Held id m → Held id (run es m)
unfolding run
run-Held id [] m w h = h
run-Held id (e ∷ es) m w h = run-Held id es (step e m) w.1 (step-Held id e m w.0 h)

-- The batcher alone: it takes what is in the channel, and its ticker goes off.
abbrev pub drain : ℕ → Marks → Marks
drain zero m = flush true m
drain (suc n) m = drain n (receive true m)

flush-queue : (m : Marks) → length (flush true m).queue ≡ length m.queue
unfolding flush
flush-queue m = by_batch (ltb 0 (length m.batch))
  where
    by_batch :
        (b : Bool)
        → length
            (if b then record m { batch = []; delivered = m.batch ++ m.delivered } else m).queue
          ≡ length m.queue
    by_batch true = refl
    by_batch false = refl

length-queue-receive :
    (m : Marks) (n : ℕ) → length m.queue ≤ suc n → length (receive true m).queue ≤ n
unfolding receive take_first flush
length-queue-receive m n h = by_queue m.queue refl
  where
    by_queue : (q : List String) → m.queue ≡ q → length (take_first true q m).queue ≤ n
    by_queue [] e = omega (arith, ap length e)
    by_queue (x ∷ rest) e = by_size (leb delivered_max_batch (length (m.batch ++ x ∷ [])))
      where
        taken : Marks
        taken = record m { queue = rest; batch = m.batch ++ x ∷ [] }

        by_size : (b : Bool) → length (if b then flush true taken else taken).queue ≤ n
        by_size true = omega (arith, flush-queue taken, ap length e, h)
        by_size false = omega (arith, ap length e, h)

In-length : (id : String) (xs : List String) → In id xs → 1 ≤ length xs
In-length id [] h = elim h [ ]
In-length id (x ∷ xs) h = omega arith

flush-delivered :
    (id : String) (m : Marks) → In id m.batch ⊎ In id m.delivered → In id (flush true m).delivered
unfolding flush
flush-delivered id m h = by_batch (ltb 0 (length m.batch)) refl h
  where
    by_batch :
        (b : Bool)
        → ltb 0 (length m.batch) ≡ b
        → In id m.batch ⊎ In id m.delivered
        → In id
            (if b then record m { batch = []; delivered = m.batch ++ m.delivered } else m).delivered
    by_batch true e (inl x) = In-left id m.batch m.delivered x
    by_batch true e (inr d) = In-right id m.batch m.delivered d
    by_batch false e (inl x) = absurd (ground (arith, In-length id m.batch x, e))
    by_batch false e (inr d) = d

drained :
    (id : String) (n : ℕ) (m : Marks) → length m.queue ≤ n → Held id m → In id (drain n m).delivered
drained id zero m h (inl q) = absurd (omega (arith, In-length id m.queue q))
drained id zero m h (inr g) = flush-delivered id m g
drained id (suc n) m h held =
    drained id n (receive true m) (length-queue-receive m n h) (receive-Held id m held)

-- A mark that was handed over is written, whatever marks, receipts and ticks follow, once the
-- batcher has taken what is in the channel and its ticker goes off: the UPDATEs work.
pub mark_delivered-written :
    (id : String) (m : Marks) (es : List Event) (n : ℕ)
    → AllWork es
    → length (run es (mark_delivered true id m)).queue ≤ n
    → In id (drain n (run es (mark_delivered true id m))).delivered
mark_delivered-written id m es n w h =
    drained id n (run es (mark_delivered true id m)) h
      (run-Held id es (mark_delivered true id m) w (mark_delivered_holds id m))
