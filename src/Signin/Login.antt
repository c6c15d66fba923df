-- ===== src/Signin/Login.antt =====
-- `loginHandler` of server/auth.go, with `ensureLDAPUser` of server/ldap.go. The directory is a
-- service, and `strings.TrimSpace` and the match of `usernameRe` are the libraries'.
use hexeris_beta.Base.{
  ℕ, String, Option, none, some, Bool, false, ◌&&◌, ◌||◌, not, if◌then◌else◌, ◌=s=◌,
}
use hexeris_beta.Base.Dict.{Dict, lookup, insert}
use hexeris_beta.Limiter.{RateLimiter, is_blocked, record_failure}
use hexeris_beta.Twofa.Tickets.{Ticket, issue_ticket}
use hexeris_beta.Twofa.Store.{User, Database, Query, Crypto, twofa_enabled}
use hexeris_beta.Twofa.Handlers.{
  Server, login_ok, login_bad_creds, login_blocked, login_rate_limit, unix, record_login,
  user_blocked, must_change_password, password_ok,
}

-- `enabled` is `ldapEnabled`; a directory that is out of reach does not authenticate.
pub record Directory : Type 0 where
  pub enabled : Bool
  pub authenticate : String → String → Bool
  pub plain_name : String → Bool
  pub trim : String → String

-- The server behind the sign-in: the limiter by user name and the forced-logout stamps besides.
pub record Gate : Type 0 where
  pub server : Server
  pub user_limiter : RateLimiter
  pub cutoffs : Dict ℕ

pub data Answer : Type 0 where
  refused : ℕ → Answer
  ticket_required : (ticket username : String) → Answer
  signed_in : (token username : String) (must_change : Bool) → Answer

abbrev pub ldap_sentinel : String
ldap_sentinel = "!ldap"

abbrev provisioned : User
provisioned = record {
  password_hash = ldap_sentinel;
  blocked = false;
  must_change_password = false;
  totp_secret = none;
  totp_enabled = false;
  totp_last_step = 0;
  forced_logout_at = 0;
}

-- `INSERT … ON CONFLICT (username) DO NOTHING`
unfoldable pub ensure_ldap_user : String → Database → Database
ensure_ldap_user username db = elim (lookup username db.users) [
  | none ↦ record db { users = insert username provisioned db.users }
  | some u ↦ db
]

unfoldable pub issued : Gate → String → Option String × Dict Ticket → Answer × Gate
issued g username (none, tickets) = (refused 500, g)
issued g username (some id, tickets) =
    (ticket_required id username, record g { server = record g.server { tickets = tickets } })

module _ (c : Crypto) (up : Query → Bool) (d : Directory) (sign : String → ℕ → String) where
  -- Behind the password: a block, then the second factor, then the session.
  unfoldable pub after_password : Gate → String → ℕ → Option String → Answer × Gate
  unfolding user_blocked twofa_enabled must_change_password issued issue_ticket
  after_password g username now fresh =
      if user_blocked up g.server.db username
      then (refused 403, record g { server = record_login username login_blocked g.server })
      else if twofa_enabled up g.server.db username
      then issued g username (issue_ticket g.server.tickets now username fresh)
      else (
        signed_in (sign username (unix now)) username
            (must_change_password up g.server.db username),
        record g { server = record_login username login_ok g.server },
      )

  unfoldable pub wrong_password : Gate → String → String → ℕ → Answer × Gate
  unfolding record_failure
  wrong_password g ip username now =
      let s = g.server in
      let s' = record s { login_limiter = record_failure s.login_limiter (unix now) ip } in
      (
        refused 401,
        record g {
          server = record_login username login_bad_creds s';
          user_limiter = record_failure g.user_limiter (unix now) username;
        },
      )

  -- The directory accepts the password.
  unfoldable pub from_directory : Gate → String → ℕ → Option String → Answer × Gate
  unfolding after_password ensure_ldap_user
  from_directory g username now fresh =
      let s = g.server in
      let g' = record g { server = record s { db = ensure_ldap_user username s.db } } in
      if not (d.plain_name username)
      then (refused 400, g)
      else if not (up Query.ensure_ldap_user)
      then (refused 500, g)
      else after_password g' username now fresh

  unfoldable pub try_password : Gate → String → String → String → ℕ → Option String → Answer × Gate
  unfolding password_ok after_password from_directory wrong_password is_blocked
  try_password g ip username password now fresh =
      let (blocked, limiter) = is_blocked g.user_limiter (unix now) username in
      let g' = record g { user_limiter = limiter } in
      if blocked
      then (refused 429, g')
      else if password_ok c up g.server.db username password
      then after_password g' username now fresh
      else if d.enabled && d.authenticate username password
      then from_directory g' username now fresh
      else wrong_password g' ip username now

  -- A body that does not decode is `none`; `fresh` is the id of a new ticket, `none` the failure of
  -- the random source.
  unfoldable pub login_body :
      Gate → String → Option (String × String) → ℕ → Option String → Answer × Gate
  unfolding try_password
  login_body g ip none now fresh = (refused 400, g)
  login_body g ip (some (username, password)) now fresh =
      if username =s= "" || password =s= ""
      then (refused 400, g)
      else try_password g ip (d.trim username) password now fresh

  unfoldable pub login_handler :
      Gate → Bool → String → Option (String × String) → ℕ → Option String → Answer × Gate
  unfolding login_body is_blocked
  login_handler g is_post ip req now fresh =
      let s = g.server in
      let (blocked, limiter) = is_blocked s.login_limiter (unix now) ip in
      let s' = record s { login_limiter = limiter } in
      if not is_post
      then (refused 405, g)
      else if blocked
      then (refused 429, record g { server = record_login "" login_rate_limit s' })
      else login_body (record g { server = s' }) ip req now fresh
