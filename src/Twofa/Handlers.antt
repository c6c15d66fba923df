-- ===== src/Twofa/Handlers.antt =====
-- The endpoints of server/twofa.go and the block check of server/admin.go. A request comes with its
-- time in nanoseconds; `me` is what `validateToken` says of its token.
pub mod Session
pub mod Enabling
use hexeris_beta.Base.{
  ℕ, ◌/◌, String, Option, none, some, Bool, true, false, List, [], ◌∷◌, ◌++◌, ◌||◌, not,
  if◌then◌else◌, ◌=s=◌,
}
use hexeris_beta.Base.Dict.{Dict, lookup}
use hexeris_beta.Limiter.{RateLimiter, is_blocked, record_failure}
use hexeris_beta.Totp.{totp_verify}
use hexeris_beta.Twofa.Tickets.{Ticket, claim_attempt, drop_ticket}
use hexeris_beta.Twofa.Store.{
  User, Database, Query, Crypto, twofa_secret, twofa_enabled, twofa_consume, twofa_use_recovery,
  twofa_recovery_left, twofa_new_recovery_codes, twofa_reset, update_user,
}

pub data Outcome : Type 0 where
  login_ok login_bad_creds login_blocked login_rate_limit login_2fa_bad : Outcome

pub record Server : Type 0 where
  pub db : Database
  pub tickets : Dict Ticket
  pub login_limiter : RateLimiter
  pub sign_ins : List (String × Outcome)

-- `http.Error` with its status, or the fields of the JSON answer. A session carries the token that
-- is also set as the cookie.
pub data Response : Type 0 where
  refused : ℕ → Response
  status : Bool → ℕ → Response
  setup : String → Response
  enabled : Option (List (List ℕ)) → Response
  disabled : Response
  session : (token username : String) (must_change used_recovery : Bool) (left : ℕ) → Response

abbrev pub unix : ℕ → ℕ
unix now = now / 1_000_000_000

abbrev pub record_login : String → Outcome → Server → Server
record_login username o s = record s { sign_ins = s.sign_ins ++ (username, o) ∷ [] }

-- `userBlocked` of server/admin.go: a missing row is blocked, a failing query is not.
unfoldable pub user_blocked : (Query → Bool) → Database → String → Bool
user_blocked up db username =
    if up Query.read_blocked
    then elim (lookup username db.users) [ none ↦ true | some u ↦ u.blocked ]
    else false

-- `mustChangePassword` of server/auth.go
unfoldable pub must_change_password : (Query → Bool) → Database → String → Bool
must_change_password up db username =
    if up Query.read_must_change
    then elim (lookup username db.users) [ none ↦ false | some u ↦ u.must_change_password ]
    else false

module _ (c : Crypto) (up : Query → Bool) where
  unfoldable pub status_handler : Server → Option String → Response × Server
  status_handler s none = (refused 401, s)
  status_handler s (some me) =
      (status (twofa_enabled up s.db me) (twofa_recovery_left up s.db me), s)

  unfoldable pub store_secret : Server → String → String → Response × Server
  unfolding update_user
  store_secret s me secret =
      if up Query.write_secret
      then (
        setup secret,
        record s {
          db =
              update_user me
                (λ u. record u { totp_secret = some (c.encrypt_body secret); totp_enabled = false })
                s.db;
        },
      )
      else (refused 500, s)

  -- `fresh` is the new random secret, `none` a failure of the random source.
  unfoldable pub setup_handler : Server → Option String → Bool → Option String → Response × Server
  unfolding store_secret twofa_enabled
  setup_handler s none is_post fresh = (refused 401, s)
  setup_handler s (some me) is_post fresh =
      if not is_post
      then (refused 401, s)
      else if twofa_enabled up s.db me
      then (refused 409, s)
      else elim fresh [ none ↦ (refused 500, s) | some secret ↦ store_secret s me secret ]

  unfoldable pub turn_on : Server → String → Option (List (List ℕ)) → Option ℕ → Response × Server
  unfolding update_user twofa_new_recovery_codes
  turn_on s me codes none = (refused 401, s)
  turn_on s me codes (some step) =
      if not (up Query.enable_user)
      then (refused 500, s)
      else (let on =
            update_user me (λ u. record u { totp_enabled = true; totp_last_step = step }) s.db in
          let (shown, db') = twofa_new_recovery_codes c up on me codes in
          (enabled shown, record s { db = db' }))

  unfoldable pub enable_with :
      Server
      → String
      → List ℕ
      → ℕ
      → Option (List (List ℕ))
      → Option (String × Bool)
      → Response × Server
  unfolding turn_on
  enable_with s me code now codes none = (refused 400, s)
  enable_with s me code now codes (some (secret, on)) =
      if secret =s= ""
      then (refused 400, s)
      else if on
      then (refused 409, s)
      else turn_on s me codes (totp_verify c.hotp secret code (unix now))

  unfoldable pub enable_handler :
      Server → Option String → Bool → List ℕ → ℕ → Option (List (List ℕ)) → Response × Server
  unfolding enable_with twofa_secret
  enable_handler s none is_post code now codes = (refused 401, s)
  enable_handler s (some me) is_post code now codes =
      if not is_post
      then (refused 401, s)
      else enable_with s me code now codes (twofa_secret c up s.db me)

  -- The code of the app, or else a recovery code; the second says which it was.
  unfoldable pub second_factor : Database → String → List ℕ → ℕ → Bool × Bool × Database
  unfolding twofa_consume twofa_use_recovery
  second_factor db username code now =
      let (consumed, db') = twofa_consume c up db username code (unix now) in
      let (recovered, db'') = twofa_use_recovery c up db' username code in
      if consumed then (true, false, db') else (recovered, recovered, db'')

  unfoldable pub password_ok : Database → String → String → Bool
  password_ok db me password =
      if up Query.read_hash
      then elim (lookup me db.users) [ none ↦ false | some u ↦ c.matches u.password_hash password ]
      else false

  unfoldable pub disable_handler :
      Server → Option String → Bool → String → List ℕ → ℕ → Response × Server
  unfolding password_ok second_factor twofa_reset
  disable_handler s none is_post password code now = (refused 401, s)
  disable_handler s (some me) is_post password code now =
      if not is_post || not (password_ok s.db me password)
      then (refused 401, s)
      else (let (passed, recovered, db') = second_factor s.db me code now in
          let (reset, db'') = twofa_reset up db' me in
          if not passed
          then (refused 401, record s { db = db' })
          else if reset
          then (disabled, record s { db = db'' })
          else (refused 500, record s { db = db'' }))

  -- Behind the second factor: the ticket is spent, and a block is looked at again.
  unfoldable pub sign_in :
      (sign : String → ℕ → String) → Server → String → String → Bool → ℕ → Response × Server
  unfolding user_blocked must_change_password twofa_recovery_left drop_ticket
  sign_in sign s ticket username recovered now =
      let s' = record s { tickets = drop_ticket s.tickets ticket } in
      if user_blocked up s'.db username
      then (refused 403, record_login username login_blocked s')
      else (
        session (sign username (unix now)) username (must_change_password up s'.db username)
            recovered (twofa_recovery_left up s'.db username),
        record_login username login_ok s',
      )

  unfoldable pub verify_claimed :
      (sign : String → ℕ → String)
      → Server
      → String
      → String
      → List ℕ
      → ℕ
      → Option String
      → Response × Server
  unfolding second_factor sign_in record_failure
  verify_claimed sign s ip ticket code now none = (refused 401, s)
  verify_claimed sign s ip ticket code now (some username) =
      let (passed, recovered, db') = second_factor s.db username code now in
      let s' = record s { db = db' } in
      if passed then sign_in sign s' ticket username recovered now else (
        refused 401,
        record_login username login_2fa_bad
            (record s' { login_limiter = record_failure s'.login_limiter (unix now) ip }),
      )

  -- `sign` is `generateToken` at a time.
  unfoldable pub verify_handler :
      (sign : String → ℕ → String)
      → Server
      → Bool
      → String
      → String
      → List ℕ
      → ℕ
      → Response × Server
  unfolding verify_claimed claim_attempt is_blocked
  verify_handler sign s is_post ip ticket code now =
      if not is_post
      then (refused 405, s)
      else (let (blocked, limiter) = is_blocked s.login_limiter (unix now) ip in
          let s' = record s { login_limiter = limiter } in
          let (owner, tickets) = claim_attempt s'.tickets now ticket in
          if blocked
          then (refused 429, s')
          else verify_claimed sign (record s' { tickets = tickets }) ip ticket code now owner)
