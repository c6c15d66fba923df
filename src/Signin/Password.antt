-- ===== src/Signin/Password.antt =====
-- `changePasswordHandler` of server/auth.go. `size` is the length of a text in bytes, and
-- `generate` bcrypt's hash, `none` its failure. Closing the user's open sockets is left out.
use hexeris_beta.Base.{
  ℕ, ◌+◌, String, Option, none, some, Bool, true, false, not, ltb, if◌then◌else◌, ◌=s=◌,
}
use hexeris_beta.Base.Dict.{lookup}
use hexeris_beta.Limiter.{is_blocked, record_failure}
use hexeris_beta.Twofa.Store.{User, Query, Crypto, update_user}
use hexeris_beta.Signin.Tokens.{Jwt, generate_token_at, set_logout_cutoff}
use hexeris_beta.Signin.Login.{Gate, ldap_sentinel}

abbrev pub min_password_len : ℕ
min_password_len = 8

pub data Changed : Type 0 where
  refused : ℕ → Changed
  changed : (token : String) → Changed

module _ (c : Crypto) (jwt : Jwt) (up : Query → Bool) (size : String → ℕ)
    (generate : String → Option String) where
  -- The new hash is stored and the sessions so far are revoked.
  unfoldable pub store_password : Gate → String → ℕ → Option String → Changed × Gate
  unfolding update_user set_logout_cutoff generate_token_at
  store_password g me now none = (refused 500, g)
  store_password g me now (some hash) =
      let s = g.server in
      let stamp : User → User = λ u. record u {
        password_hash = hash;
        must_change_password = false;
        forced_logout_at = now;
      } in
      if not (up Query.write_password) then (refused 500, g) else (
        changed (generate_token_at jwt me (now + 1)),
        record g {
          server = record s { db = update_user me stamp s.db };
          cutoffs = set_logout_cutoff me now g.cutoffs;
        },
      )

  unfoldable pub check_old : Gate → String → String → String → ℕ → Option User → Changed × Gate
  unfolding store_password record_failure
  check_old g me old new now none = (refused 401, g)
  check_old g me old new now (some u) =
      if u.password_hash =s= ldap_sentinel
      then (refused 409, g)
      else if not (c.matches u.password_hash old)
      then (refused 401, record g { user_limiter = record_failure g.user_limiter now me })
      else store_password g me now (generate new)

  unfoldable pub change_body : Gate → String → Option (String × String) → ℕ → Changed × Gate
  unfolding check_old
  change_body g me none now = (refused 400, g)
  change_body g me (some (old, new)) now =
      if ltb (size new) min_password_len
      then (refused 400, g)
      else if new =s= old
      then (refused 400, g)
      else if not (up Query.read_hash)
      then (refused 500, g)
      else check_old g me old new now (lookup me g.server.db.users)

  -- `me` is what `validateToken` says of the request's token; times are Unix seconds.
  unfoldable pub change_password_handler :
      Gate → Option String → Bool → Option (String × String) → ℕ → Changed × Gate
  unfolding change_body is_blocked
  change_password_handler g me false req now = (refused 405, g)
  change_password_handler g none true req now = (refused 401, g)
  change_password_handler g (some me) true req now =
      let (blocked, limiter) = is_blocked g.user_limiter now me in
      let g' = record g { user_limiter = limiter } in
      if blocked then (refused 429, g') else change_body g' me req now
