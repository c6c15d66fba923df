-- ===== src/Twofa/Handlers/Session.antt =====
-- What a session of `twoFAVerifyHandler` (server/twofa.go) proves of the request.
use hexeris_beta.Base.{
  ℕ, ◌≡◌, refl, String, Option, none, some, Bool, true, false, List, [], ◌∷◌, ◌++◌, arith,
  Bool-cases, inl, inr,
}
use text.Mathlib.TextPositions.{eq_refl}
use hexeris_beta.Base.Dict.{lookup, lookup-delete}
use hexeris_beta.Limiter.{is_blocked, record_failure}
use hexeris_beta.Twofa.Tickets.{claim_attempt, drop_ticket}
use hexeris_beta.Twofa.Store.{Query, Crypto}
use hexeris_beta.Twofa.Handlers.{
  Server, Response, refused, session, unix, user_blocked, second_factor, sign_in, verify_claimed,
  verify_handler, Outcome,
}

abbrev pub IsSession : Response → Type 0
IsSession (session token username must_change used_recovery left) = Unit {0}
IsSession _ = ⊥

module _ (c : Crypto) (up : Query → Bool) (sign : String → ℕ → String) where
  -- A session is given only behind an address that is not blocked, to the owner of a ticket with
  -- an attempt left, for a code that is accepted in the database of that moment, to an account
  -- that does not read as blocked; and the ticket is gone.
  pub record Proved (s s' : Server) (ip ticket : String) (code : List ℕ) (now : ℕ) : Type 0 where
    pub username : String
    pub address : (is_blocked s.login_limiter (unix now) ip).0 ≡ false
    pub owner : (claim_attempt s.tickets now ticket).0 ≡ some username
    pub factor : (second_factor c up s.db username code now).0 ≡ true
    pub allowed : user_blocked up (second_factor c up s.db username code now).2 username ≡ false
    pub stored : s'.db ≡ (second_factor c up s.db username code now).2
    pub spent : lookup ticket s'.tickets ≡ none

  sign_in_session :
      (s : Server) (ticket username : String) (recovered : Bool) (now : ℕ)
      → IsSession (sign_in c up sign s ticket username recovered now).0
      → (user_blocked up s.db username ≡ false)
        × ((sign_in c up sign s ticket username recovered now).1.db ≡ s.db)
        × (lookup ticket (sign_in c up sign s ticket username recovered now).1.tickets ≡ none)
  unfolding sign_in drop_ticket
  sign_in_session s ticket username recovered now h =
      elim (Bool-cases (user_blocked up s.db username)) [
        | inl blocked ↦ absurd (rw blocked at h)
        | inr allowed ↦ (
          allowed,
          rw allowed,
          rw allowed (ground (arith, lookup-delete ticket ticket s.tickets, eq_refl ticket)),
        )
      ]

  verify_claimed_session :
      (s : Server) (ip ticket : String) (code : List ℕ) (now : ℕ) (owner : Option String)
      → IsSession (verify_claimed c up sign s ip ticket code now owner).0
      → (username : String) × (owner ≡ some username)
        × ((second_factor c up s.db username code now).0 ≡ true)
        × (user_blocked up (second_factor c up s.db username code now).2 username ≡ false)
        × ((verify_claimed c up sign s ip ticket code now owner).1.db
            ≡ (second_factor c up s.db username code now).2)
        × (lookup ticket (verify_claimed c up sign s ip ticket code now owner).1.tickets ≡ none)
  unfolding verify_claimed
  verify_claimed_session s ip ticket code now none h = absurd h
  verify_claimed_session s ip ticket code now (some username) h =
      elim (Bool-cases (second_factor c up s.db username code now).0) [
        | inr wrong ↦ absurd (rw wrong at h)
        | inl passed ↦
            let db' = (second_factor c up s.db username code now).2 in
            let r =
              sign_in_session (record s { db = db' }) ticket username
                (second_factor c up s.db username code now).1 now (rw passed at h) in
            (username, refl, passed, r.0, rw passed r.1, rw passed r.2)
      ]

  -- A session is given only to a POST, from an address that the limiter lets through, to the owner
  -- of a ticket with an attempt left, for a code of the app or a recovery code that is accepted in
  -- the database of that moment, and to an account that does not read as blocked: a missing row reads
  -- as blocked, a query that fails does not. What is stored is what that code wrote, and the ticket is
  -- gone.
  pub verify_handler_session :
      (s : Server) (is_post : Bool) (ip ticket : String) (code : List ℕ) (now : ℕ)
      → IsSession (verify_handler c up sign s is_post ip ticket code now).0
      → (is_post ≡ true)
        × Proved s (verify_handler c up sign s is_post ip ticket code now).1 ip ticket code now
  unfolding verify_handler
  verify_handler_session s false ip ticket code now h = absurd h
  verify_handler_session s true ip ticket code now h =
      elim (Bool-cases (is_blocked s.login_limiter (unix now) ip).0) [
        | inl blocked ↦ absurd (rw blocked at h)
        | inr open' ↦
            let claimed = claim_attempt s.tickets now ticket in
            let s' : Server = record s {
              login_limiter = (is_blocked s.login_limiter (unix now) ip).1;
              tickets = claimed.1;
            } in
            let r = verify_claimed_session s' ip ticket code now claimed.0 (rw open' at h) in
            (
              refl,
              record {
                username = r.0;
                address = open';
                owner = r.1;
                factor = r.2;
                allowed = r.3;
                stored = rw open' r.4;
                spent = rw open' r.5;
              },
            )
      ]

  -- A wrong code is one more failure of its address, changes no account, and leaves a trace in the
  -- sign-in audit; the attempt on the ticket is spent.
  pub verify_handler_wrong_code :
      (s : Server) (ip ticket username : String) (code : List ℕ) (now : ℕ)
      → (is_blocked s.login_limiter (unix now) ip).0 ≡ false
      → (claim_attempt s.tickets now ticket).0 ≡ some username
      → (second_factor c up s.db username code now).0 ≡ false
      → let (response, s') = verify_handler c up sign s true ip ticket code now in
        (response ≡ refused 401)
        × (s'.db ≡ (second_factor c up s.db username code now).2)
        × (s'.tickets ≡ (claim_attempt s.tickets now ticket).1)
        × (s'.login_limiter
            ≡ record_failure (is_blocked s.login_limiter (unix now) ip).1 (unix now) ip)
        × (s'.sign_ins ≡ s.sign_ins ++ (username, Outcome.login_2fa_bad) ∷ [])
  unfolding verify_handler verify_claimed
  verify_handler_wrong_code s ip ticket username code now open' owner wrong =
      rw (open', owner, wrong) (refl, refl, refl, refl, refl)
