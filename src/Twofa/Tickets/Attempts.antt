-- ===== src/Twofa/Tickets/Attempts.antt =====
-- A ticket of server/twofa.go grants five attempts, however the calls on the tickets interleave.
use text.Mathlib.TextPositions.{eq_refl}
use hexeris_beta.Base.{
  ℕ, ◌+◌, ◌-◌, ◌≤◌, ◌≡◌, refl, String, Option, none, some, Bool, false, List, [], ◌∷◌, arith,
  if◌then◌else◌, ◌=s=◌, eq_iff, suc,
}
use hexeris_beta.Base.Dict.{Dict, lookup, lookup-insert, lookup-delete}
use hexeris_beta.Twofa.Tickets.{
  Ticket, sweep_tickets, issue_ticket, spend_attempt, claim_attempt, drop_ticket, ticket_attempts,
  ticket_ttl,
}

-- A call: a sign-in that issues a ticket under a new id, a claim, or a ticket that is dropped.
pub data Call : Type 0 where
  issues : String → String → Call
  claims drops : String → Call

unfoldable pub step : Dict Ticket → ℕ → Call → Dict Ticket
unfolding issue_ticket claim_attempt drop_ticket
step ts now (issues user id) = (issue_ticket ts now user (some id)).1
step ts now (claims id) = (claim_attempt ts now id).1
step ts now (drops id) = drop_ticket ts id

-- Whether the call is a claim on `id` that is granted.
unfoldable pub granted : Dict Ticket → ℕ → String → Call → Bool
unfolding claim_attempt
granted ts now id (claims j) = elim (claim_attempt ts now j).0 [
  | none ↦ false
  | some user ↦ j =s= id
]
granted ts now id (issues user j) = false
granted ts now id (drops j) = false

-- How many claims on `id` are granted along the calls.
unfoldable pub grants : String → Dict Ticket → List (ℕ × Call) → ℕ
unfolding step granted
grants id ts [] = 0
grants id ts ((now, c) ∷ cs) =
    let rest = grants id (step ts now c) cs in if granted ts now id c then suc rest else rest

-- The random ids are new: none of the calls issues `id` again.
abbrev pub NotReissued : String → List (ℕ × Call) → Type 0
NotReissued id [] = Unit {0}
NotReissued id ((now, issues user j) ∷ cs) = ((j =s= id) ≡ false) × NotReissued id cs
NotReissued id ((now, claims j) ∷ cs) = NotReissued id cs
NotReissued id ((now, drops j) ∷ cs) = NotReissued id cs

-- The attempts that a stored ticket has left.
abbrev pub left : Option Ticket → ℕ
left none = 0
left (some t) = ticket_attempts - t.attempts

lookup-sweep :
    (ts : Dict Ticket) (now : ℕ) (id : String)
    → left (lookup id (sweep_tickets ts now)) ≤ left (lookup id ts)
unfolding lookup sweep_tickets
lookup-sweep [] now id = omega arith
lookup-sweep ((j, t) ∷ ts) now id =
    ground (arith, lookup-sweep ts now id, lookup-delete j id (sweep_tickets ts now), eq_iff j id)

spend-left :
    (ts : Dict Ticket) (now : ℕ) (id j : String) (o : Option Ticket)
    → lookup j ts ≡ o
    → (if elim (spend_attempt ts now j o).0 [ none ↦ false | some user ↦ j =s= id ] then 1 else 0)
        + left (lookup id (spend_attempt ts now j o).1)
      ≤ left (lookup id ts)
unfolding spend_attempt
spend-left ts now id j none e = ground (arith, lookup-delete j id ts, eq_iff j id)
spend-left ts now id j (some t) e = ground (
  arith,
  lookup-delete j id ts,
  lookup-insert j id (record t { attempts = t.attempts + 1 }) ts,
  eq_iff j id,
)

-- A call takes an attempt for what it grants, and gives none back.
step-left :
    (ts : Dict Ticket) (now : ℕ) (id : String) (c : Call)
    → NotReissued id ((now, c) ∷ [])
    → (if granted ts now id c then 1 else 0) + left (lookup id (step ts now c))
      ≤ left (lookup id ts)
unfolding step granted
step-left ts now id (issues user j) fresh = ground (
  arith,
  lookup-insert j id (record { username = user; expires = now + ticket_ttl; attempts = 0 })
      (sweep_tickets ts now),
  lookup-sweep ts now id,
)
step-left ts now id (drops j) fresh = ground (arith, lookup-delete j id ts)
step-left ts now id (claims j) fresh = spend-left ts now id j (lookup j ts) refl

NotReissued-head :
    (id : String) (now : ℕ) (c : Call) (cs : List (ℕ × Call))
    → NotReissued id ((now, c) ∷ cs)
    → NotReissued id ((now, c) ∷ []) × NotReissued id cs
NotReissued-head id now (issues user j) cs h = ((h.0, tt), h.1)
NotReissued-head id now (claims j) cs h = (tt, h)
NotReissued-head id now (drops j) cs h = (tt, h)

grants-le-left :
    (id : String) (ts : Dict Ticket) (cs : List (ℕ × Call))
    → NotReissued id cs
    → grants id ts cs ≤ left (lookup id ts)
unfolding grants
grants-le-left id ts [] h = omega arith
grants-le-left id ts ((now, c) ∷ cs) h =
    let h' = NotReissued-head id now c cs h in
    ground (arith, grants-le-left id (step ts now c) cs h'.1, step-left ts now id c h'.0)

-- From the moment it is issued, a ticket grants at most five claims, whatever other tickets are
-- issued, claimed and dropped in between, and at whatever times; its random id is not issued again.
pub issued_grants_five :
    (ts : Dict Ticket) (now : ℕ) (user id : String) (cs : List (ℕ × Call))
    → NotReissued id cs
    → grants id (issue_ticket ts now user (some id)).1 cs ≤ ticket_attempts
unfolding issue_ticket
issued_grants_five ts now user id cs h = ground (
  arith,
  grants-le-left id (issue_ticket ts now user (some id)).1 cs h,
  lookup-insert id id (record { username = user; expires = now + ticket_ttl; attempts = 0 })
      (sweep_tickets ts now),
  eq_refl id,
)

-- A ticket that has not expired, and of which at most four attempts are spent, is granted to its
-- owner, and one attempt more is spent.
pub claim_granted :
    (ts : Dict Ticket) (now : ℕ) (id : String) (t : Ticket)
    → lookup id ts ≡ some t
    → now ≤ t.expires
    → t.attempts + 1 ≤ ticket_attempts
    → ((claim_attempt ts now id).0 ≡ some t.username)
      × (lookup id (claim_attempt ts now id).1 ≡ some (record t { attempts = t.attempts + 1 }))
unfolding claim_attempt spend_attempt
claim_granted ts now id t e live room =
    ground (arith, lookup-insert id id (record t { attempts = t.attempts + 1 }) ts, eq_refl id)
