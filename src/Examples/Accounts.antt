-- ===== src/Examples/Accounts.antt =====
-- server/twofa.go on one account, with toy crypto.
use hexeris_beta.Base.{
  ℕ, ◌+◌, ◌≤◌, ◌<◌, ◌≡◌, refl, String, Option, none, some, Bool, true, false, List, [], ◌∷◌, ◌++◌,
  arith, ◌=s=◌,
}
use hexeris_beta.Base.Dict.{Dict, lookup}
use hexeris_beta.Limiter.{RateLimiter, new_limiter, is_blocked, record_failure}
use hexeris_beta.Totp.{totp_verify}
use hexeris_beta.Twofa.Tickets.{Ticket, issue_ticket, ticket_attempts}
use hexeris_beta.Twofa.Tickets.Attempts.{Call, issues, claims, drops, grants, issued_grants_five}
use hexeris_beta.Twofa.Store.{User, Database, Query, Crypto, twofa_consume, twofa_use_recovery}
use hexeris_beta.Twofa.Store.Reuse.{consume_no_reuse, use_recovery_once}
use hexeris_beta.Twofa.Handlers.{Server, setup_handler, verify_handler}
use hexeris_beta.Twofa.Handlers.Session.{Proved, verify_handler_session}
use hexeris_beta.Twofa.Handlers.Enabling.{setup_handler_read_failure}
use hexeris_beta.Examples.Codes.{toy_hotp, code_of_two}

abbrev pub crypto : Crypto
crypto = record {
  decrypt_body = λ s. s;
  encrypt_body = λ s. s;
  hash_recovery = λ code. "hash";
  matches = λ hash password. hash =s= password;
  hotp = toy_hotp;
}

abbrev user : Bool → User
user on = record {
  password_hash = "pw";
  blocked = false;
  must_change_password = false;
  totp_secret = some "S";
  totp_enabled = on;
  totp_last_step = 1;
  forced_logout_at = 0;
}

abbrev db : Bool → Database
db on = record {
  users = ("ann", user on) ∷ [];
  recovery = record { username = "ann"; code_hash = "hash"; used = false } ∷ [];
}

abbrev pub up : Query → Bool
up q = true

abbrev read_fails : Query → Bool
read_fails Query.read_enabled = false
read_fails _ = true

abbrev pub minute : ℕ
minute = 60_000_000_000

abbrev ticket : Ticket
ticket = record { username = "ann"; expires = 300_000_000_000; attempts = 0 }

abbrev pub server : Bool → Server
server on = record {
  db = db on;
  tickets = ("t", ticket) ∷ [];
  login_limiter = new_limiter 5 600;
  sign_ins = [];
}

abbrev pub sign : String → ℕ → String
sign username now = username

abbrev wrong : List ℕ
wrong = b'9' ∷ []

-- A database in which the recovery code is used up.
abbrev spent : Database
spent = record (db true) { recovery = [] }

abbrev guesses : List (ℕ × Call)
guesses = (2, claims "t") ∷ (3, issues "bob" "u") ∷ (4, claims "t") ∷ (5, drops "u") ∷ []

issued_grants_five_example :
    grants "t" (issue_ticket [] 1 "ann" (some "t")).1 guesses ≤ ticket_attempts
issued_grants_five_example = issued_grants_five [] 1 "ann" "t" guesses (refl, tt)

consume_no_reuse_example :
    (twofa_consume crypto up
      (twofa_consume crypto up (db true) "ann" code_of_two 60).1
      "ann"
      code_of_two
      90).0
    ≡ false
unfolding lookup totp_verify hexeris_beta.Totp.totp_code_at hexeris_beta.Totp.same_bytes
    twofa_consume
consume_no_reuse_example =
    consume_no_reuse crypto up up (db true) "ann" (user true) code_of_two code_of_two 60 90 2 2 refl
      refl refl refl (omega arith)

use_recovery_once_example :
    (twofa_use_recovery crypto up
      (twofa_use_recovery crypto up (db true) "ann" wrong).1
      "ann"
      wrong).0
    ≡ false
unfolding twofa_use_recovery
use_recovery_once_example = use_recovery_once crypto up up (db true) "ann" wrong refl

verify_handler_session_example :
    (true ≡ true)
    × Proved crypto up sign
        (server true)
        (verify_handler crypto up sign (server true) true "ip" "t" code_of_two minute).1
        "ip"
        "t"
        code_of_two
        minute
unfolding verify_handler new_limiter hexeris_beta.Limiter.live hexeris_beta.Limiter.attempts_of
    lookup totp_verify hexeris_beta.Totp.totp_code_at hexeris_beta.Totp.same_bytes
    hexeris_beta.Base.Dict.insert
verify_handler_session_example =
    verify_handler_session crypto up sign (server true) true "ip" "t" code_of_two minute tt

setup_handler_read_failure_example :
    lookup "ann"
      (setup_handler crypto read_fails (server true) (some "ann") true (some "N")).1.db.users
    ≡ some (record (user true) { totp_secret = some "N"; totp_enabled = false })
unfolding lookup
setup_handler_read_failure_example =
    setup_handler_read_failure crypto read_fails (server true) "ann" "N" (user true) refl refl refl
