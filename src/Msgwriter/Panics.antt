-- ===== src/Msgwriter/Panics.antt =====
-- `safeFlush` of server/msgwriter.go: a panic inside a write leaves no waiter without a reply.
use hexeris_beta.Base.{
  ℕ, ◌+◌, ◌≡◌, refl, Option, none, some, List, [], ◌∷◌, ◌++◌, arith, ◌==◌, if◌then◌else◌, ◌⊎◌, inl,
  ==_iff,
}
use hexeris_beta.Msgwriter.{SaveResult, SaveRequest, Reply, failed, SaveError}

-- How a flush ends, with what it had sent by then.
pub data Flushed : Type 0 where
  returned panicked : List Reply → Flushed

-- The value in a channel's buffer of one.
unfoldable pub buffered : ℕ → List Reply → Option SaveResult
buffered ch [] = none
buffered ch ((c, res) ∷ sent) = if c == ch then some res else buffered ch sent

-- A send under `select` with a default: it is dropped where the buffer is full.
unfoldable pub offer : List Reply → ℕ → SaveResult → List Reply
offer sent ch res = elim (buffered ch sent) [ none ↦ sent ++ (ch, res) ∷ [] | some r ↦ sent ]

pub offer_panic : List Reply → List SaveRequest → List Reply
unfolding offer buffered
offer_panic sent [] = sent
offer_panic sent (r ∷ rs) = offer_panic (offer sent r.reply (failed SaveError.writer_panic)) rs

-- What is sent, and the number of panics that were recovered.
pub safe_flush : List SaveRequest → Flushed → ℕ → List Reply × ℕ
unfolding offer_panic
safe_flush batch (returned sent) panics = (sent, panics)
safe_flush batch (panicked sent) panics = (offer_panic sent batch, panics + 1)

buffered-append :
    (ch : ℕ) (sent more : List Reply)
    → buffered ch (sent ++ more)
      ≡ elim (buffered ch sent) [ none ↦ buffered ch more | some r ↦ some r ]
unfolding buffered
buffered-append ch [] more = refl
buffered-append ch ((c, res) ∷ sent) more = ground (arith, buffered-append ch sent more)

buffered-offer :
    (ch c : ℕ) (res : SaveResult) (sent : List Reply)
    → buffered ch (offer sent c res)
      ≡ elim (buffered ch sent) [ none ↦ if c == ch then some res else none | some r ↦ some r ]
unfolding offer buffered
buffered-offer ch c res sent = ground (arith, ==_iff c ch, buffered-append ch sent ((c, res) ∷ []))

-- What a channel holds is kept.
offer_panic-keeps :
    (batch : List SaveRequest) (sent : List Reply) (ch : ℕ) (res : SaveResult)
    → buffered ch sent ≡ some res
    → buffered ch (offer_panic sent batch) ≡ some res
unfolding offer_panic
offer_panic-keeps [] sent ch res h = h
offer_panic-keeps (r ∷ rs) sent ch res h =
    offer_panic-keeps rs (offer sent r.reply (failed SaveError.writer_panic)) ch res
      (ground (arith, buffered-offer ch r.reply (failed SaveError.writer_panic) sent))

-- A reply that the write had sent, or the panic's error where it had sent none.
abbrev pub settled : List Reply → ℕ → SaveResult
settled sent ch = elim (buffered ch sent) [ none ↦ failed SaveError.writer_panic | some r ↦ r ]

abbrev pub Settled : List Reply → List Reply → List SaveRequest → Type 0
Settled sent final [] = Unit {0}
Settled sent final (r ∷ rs) =
    (buffered r.reply final ≡ some (settled sent r.reply)) × Settled sent final rs

-- `later` holds what `sent` held, and where that was nothing, at most the panic's error.
abbrev Grown : List Reply → List Reply → Type 0
Grown sent later =
    (ch : ℕ)
    → (buffered ch later ≡ buffered ch sent)
      ⊎ ((buffered ch sent ≡ none) × (buffered ch later ≡ some (failed SaveError.writer_panic)))

offer-Grown :
    (sent later : List Reply) (c : ℕ)
    → Grown sent later
    → Grown sent (offer later c (failed SaveError.writer_panic))
offer-Grown sent later c h ch =
    ground (arith, h ch, buffered-offer ch c (failed SaveError.writer_panic) later)

offer-settled :
    (sent later : List Reply) (c : ℕ)
    → Grown sent later
    → buffered c (offer later c (failed SaveError.writer_panic)) ≡ some (settled sent c)
offer-settled sent later c h =
    ground (arith, h c, ==_iff c c, buffered-offer c c (failed SaveError.writer_panic) later)

offer_panic-Settled :
    (sent later : List Reply) (batch : List SaveRequest)
    → Grown sent later
    → Settled sent (offer_panic later batch) batch
unfolding offer_panic
offer_panic-Settled sent later [] h = tt
offer_panic-Settled sent later (r ∷ rs) h =
    let next = offer later r.reply (failed SaveError.writer_panic) in
    (
      offer_panic-keeps rs next r.reply (settled sent r.reply) (offer-settled sent later r.reply h),
      offer_panic-Settled sent next rs (offer-Grown sent later r.reply h),
    )

-- After a panic in a write, every request of the batch finds in its channel the reply that had
-- been sent before the panic, and the panic's error where there was none; the panic is counted.
pub safe_flush_settles :
    (batch : List SaveRequest) (sent : List Reply) (panics : ℕ)
    → Settled sent (safe_flush batch (panicked sent) panics).0 batch
      × ((safe_flush batch (panicked sent) panics).1 ≡ panics + 1)
unfolding safe_flush
safe_flush_settles batch sent panics = (offer_panic-Settled sent sent batch (λ ch. inl refl), refl)
