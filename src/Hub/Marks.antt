-- ===== src/Hub/Marks.antt =====
-- server/delivery.go: the marks of delivered messages, written in batches. The channel is a queue,
-- and an event is one step of a caller or of the batcher; its Boolean says whether the UPDATE in
-- it, if there is one, works.
pub mod Kept
use hexeris_beta.Base.{
  ℕ, ◌+◌, String, Bool, true, false, List, [], ◌∷◌, ◌++◌, ltb, leb, length, if◌then◌else◌,
}

abbrev pub delivered_queue_cap : ℕ
delivered_queue_cap = 4096

abbrev pub delivered_max_batch : ℕ
delivered_max_batch = 500

-- `delivered` are the ids that an UPDATE has named.
pub record Marks : Type 0 where
  pub queue : List String
  pub batch : List String
  pub delivered : List String

-- A full queue makes the caller write the mark itself.
unfoldable pub mark_delivered : Bool → String → Marks → Marks
mark_delivered up id m =
    if ltb (length m.queue) delivered_queue_cap
    then record m { queue = m.queue ++ id ∷ [] }
    else if up
    then record m { delivered = id ∷ m.delivered }
    else m

-- A batch whose UPDATE fails is dropped.
unfoldable pub flush : Bool → Marks → Marks
flush up m =
    if ltb 0 (length m.batch)
    then record m { batch = []; delivered = if up then m.batch ++ m.delivered else m.delivered }
    else m

unfoldable pub take_first : Bool → List String → Marks → Marks
unfolding flush
take_first up [] m = m
take_first up (id ∷ rest) m =
    let taken = record m { queue = rest; batch = m.batch ++ id ∷ [] } in
    if leb delivered_max_batch (length taken.batch) then flush up taken else taken

-- The batcher takes an id from the channel; an empty channel gives it nothing to do.
unfoldable pub receive : Bool → Marks → Marks
unfolding take_first
receive up m = take_first up m.queue m

pub data Event : Type 0 where
  mark : Bool → String → Event
  took : Bool → Event
  tick : Bool → Event

unfoldable pub step : Event → Marks → Marks
unfolding mark_delivered receive flush
step (mark up id) m = mark_delivered up id m
step (took up) m = receive up m
step (tick up) m = flush up m

unfoldable pub run : List Event → Marks → Marks
unfolding step
run [] m = m
run (e ∷ es) m = run es (step e m)
