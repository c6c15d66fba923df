-- ===== src/Twofa/Tickets.antt =====
-- The ticket between password and code (server/twofa.go): `twoFAIssueTicket`, `twoFAClaimAttempt`
-- and `twoFADropTicket`. Times are nanoseconds; a mutex makes each function atomic.
pub mod Attempts
use hexeris_beta.Base.{ℕ, ◌+◌, String, Option, none, some, Bool, List, [], ◌∷◌, ltb, if◌then◌else◌}
use hexeris_beta.Base.Dict.{Dict, lookup, insert, delete}

abbrev pub ticket_ttl : ℕ
ticket_ttl = 300_000_000_000

abbrev pub ticket_attempts : ℕ
ticket_attempts = 5

pub record Ticket : Type 0 where
  pub username : String
  pub expires : ℕ
  pub attempts : ℕ

unfoldable pub sweep_tickets : Dict Ticket → ℕ → Dict Ticket
sweep_tickets [] now = []
sweep_tickets ((id, t) ∷ ts) now =
    let rest = sweep_tickets ts now in if ltb t.expires now then delete id rest else (id, t) ∷ rest

-- `id` is what the random source returned, `none` its failure.
unfoldable pub issue_ticket : Dict Ticket → ℕ → String → Option String → Option String × Dict Ticket
unfolding sweep_tickets
issue_ticket ts now username none = (none, ts)
issue_ticket ts now username (some id) = (
  some id,
  insert id (record { username = username; expires = now + ticket_ttl; attempts = 0 })
      (sweep_tickets ts now),
)

-- The ticket is stored with one attempt more, or is gone.
unfoldable pub spend_attempt :
    Dict Ticket → ℕ → String → Option Ticket → Option String × Dict Ticket
spend_attempt ts now id none = (none, delete id ts)
spend_attempt ts now id (some t) =
    if ltb t.expires now
    then (none, delete id ts)
    else if ltb ticket_attempts (t.attempts + 1)
    then (none, delete id ts)
    else (some t.username, insert id (record t { attempts = t.attempts + 1 }) ts)

-- The owner of the ticket, or a refusal.
unfoldable pub claim_attempt : Dict Ticket → ℕ → String → Option String × Dict Ticket
unfolding spend_attempt
claim_attempt ts now id = spend_attempt ts now id (lookup id ts)

unfoldable pub drop_ticket : Dict Ticket → String → Dict Ticket
drop_ticket ts id = delete id ts
