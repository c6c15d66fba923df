-- ===== src/Signin/Revocation.antt =====
-- What a change of one's password does, and what a cut-off does to tokens (server/auth.go).
use text.Mathlib.TextPositions.{eq_refl}
use hexeris_beta.Base.{
  ℕ, ◌+◌, ◌≤◌, ◌<◌, String, ◌≡◌, refl, ap, ◌∙◌, Option, none, some, Bool, true, false, arith, ltb,
  if◌then◌else◌, ◌=s=◌, ◌&&◌, Bool-cases, inl, inr,
}
use hexeris_beta.Base.Dict.{Dict, lookup, lookup-insert}
use hexeris_beta.Limiter.{is_blocked}
use hexeris_beta.Twofa.Store.{User, Query, Crypto}
use hexeris_beta.Twofa.Handlers.Enabling.{lookup-update_user}
use hexeris_beta.Signin.Tokens.{
  Jwt, Claims, token_life, generate_token_at, set_logout_cutoff, after_cutoff, check_claims,
  validate_token,
}
use hexeris_beta.Signin.Login.{Gate, ldap_sentinel}
use hexeris_beta.Signin.Password.{
  changed, min_password_len, store_password, check_old, change_body, change_password_handler,
}

validate_token-generate_token_at :
    (jwt : Jwt) (cutoffs : Dict ℕ) (username : String) (iat now : ℕ)
    → validate_token jwt cutoffs now (generate_token_at jwt username iat) ≡ (
        if ltb now (iat + token_life)
        then after_cutoff username iat (lookup username cutoffs)
        else none)
unfolding validate_token generate_token_at check_claims
validate_token-generate_token_at jwt cutoffs username iat now =
    let claims : Claims = record { sub = some username; iat = iat; exp = iat + token_life } in
    ap (check_claims cutoffs) (jwt.parse_sign now claims) ∙ by_life (ltb now (iat + token_life))
  where
    by_life :
        (b : Bool)
        → check_claims cutoffs (
            if b
            then some (record { sub = some username; iat = iat; exp = iat + token_life })
            else none)
          ≡ (if b then after_cutoff username iat (lookup username cutoffs) else none)
    by_life true = refl
    by_life false = refl

-- A token is accepted until it expires, if it was issued after the cut-off of its user; the
-- cut-off of one user says nothing about the tokens of another.
pub validate_token-set_logout_cutoff :
    (jwt : Jwt) (cutoffs : Dict ℕ) (username other : String) (at iat now : ℕ)
    → validate_token jwt
        (set_logout_cutoff username at cutoffs)
        now
        (generate_token_at jwt other iat)
      ≡ (if username =s= other
          then if ltb at iat && ltb now (iat + token_life) then some other else none
          else validate_token jwt cutoffs now (generate_token_at jwt other iat))
unfolding set_logout_cutoff after_cutoff
validate_token-set_logout_cutoff jwt cutoffs username other at iat now = ground (
  arith,
  validate_token-generate_token_at jwt (set_logout_cutoff username at cutoffs) other iat now,
  validate_token-generate_token_at jwt cutoffs other iat now,
  lookup-insert username other at cutoffs,
)

module _ (c : Crypto) (jwt : Jwt) (up : Query → Bool) (size : String → ℕ)
    (generate : String → Option String) where
  -- What a change takes, and what it leaves behind.
  pub record NewPassword (g g' : Gate) (me old new token : String) (now : ℕ) : Type 0 where
    pub user : User
    pub hash : String
    pub found : lookup me g.server.db.users ≡ some user
    pub matched : c.matches user.password_hash old ≡ true
    pub hashed : generate new ≡ some hash
    pub stored :
        lookup me g'.server.db.users
        ≡ some (record user {
          password_hash = hash;
          must_change_password = false;
          forced_logout_at = now;
        })
    pub revoked : g'.cutoffs ≡ set_logout_cutoff me now g.cutoffs
    pub issued : token ≡ generate_token_at jwt me (now + 1)

  store_password-NewPassword :
      (g : Gate) (me old new token : String) (now : ℕ) (u : User) (o : Option String)
      → lookup me g.server.db.users ≡ some u
      → c.matches u.password_hash old ≡ true
      → generate new ≡ o
      → (store_password c jwt up size generate g me now o).0 ≡ changed token
      → NewPassword g (store_password c jwt up size generate g me now o).1 me old new token now
  unfolding store_password
  store_password-NewPassword g me old new token now u none found matched hashed h = absurd (cc h)
  store_password-NewPassword g me old new token now u (some hash) found matched hashed h =
      elim (Bool-cases (up Query.write_password)) [
        | inr fails ↦ absurd (cc (rw fails at h))
        | inl works ↦ rw works (record {
          user = u;
          hash = hash;
          found = found;
          matched = matched;
          hashed = hashed;
          stored =
              lookup-update_user me
                (λ v. record v {
                  password_hash = hash;
                  must_change_password = false;
                  forced_logout_at = now;
                })
                g.server.db u found;
          revoked = refl;
          issued = cc (rw works at h);
        })
      ]

  check_old-NewPassword :
      (g : Gate) (me old new token : String) (now : ℕ) (o : Option User)
      → lookup me g.server.db.users ≡ o
      → (check_old c jwt up size generate g me old new now o).0 ≡ changed token
      → NewPassword g (check_old c jwt up size generate g me old new now o).1 me old new token now
  unfolding check_old
  check_old-NewPassword g me old new token now none found h = absurd (cc h)
  check_old-NewPassword g me old new token now (some u) found h =
      elim (Bool-cases (u.password_hash =s= ldap_sentinel)) [
        | inl managed ↦ absurd (cc (rw managed at h))
        | inr own ↦ elim (Bool-cases (c.matches u.password_hash old)) [
          | inr wrong ↦ absurd (cc (rw (own, wrong) at h))
          | inl right ↦
              rw (own, right)
                (store_password-NewPassword g me old new token now u (generate new) found right refl
                  (rw (own, right) at h))
        ]
      ]

  change_body-NewPassword :
      (g : Gate) (me old new token : String) (now : ℕ)
      → (change_body c jwt up size generate g me (some (old, new)) now).0 ≡ changed token
      → NewPassword g
          (change_body c jwt up size generate g me (some (old, new)) now).1
          me
          old
          new
          token
          now
  unfolding change_body
  change_body-NewPassword g me old new token now h =
      elim (Bool-cases (ltb (size new) min_password_len)) [
        | inl short ↦ absurd (cc (rw short at h))
        | inr long ↦ elim (Bool-cases (new =s= old)) [
          | inl same ↦ absurd (cc (rw (long, same) at h))
          | inr other ↦ elim (Bool-cases (up Query.read_hash)) [
            | inr fails ↦ absurd (cc (rw (long, other, fails) at h))
            | inl works ↦
                rw (long, other, works)
                  (check_old-NewPassword g me old new token now (lookup me g.server.db.users) refl
                    (rw (long, other, works) at h))
          ]
        ]
      ]

  -- A password is changed only with the old one, for an account that is there: the hash of the new
  -- one is stored, and the sign-ins so far are cut off.
  pub change_password_changed :
      (g : Gate) (me old new token : String) (now : ℕ)
      → (change_password_handler c jwt up size generate g (some me) true (some (old, new)) now).0
        ≡ changed token
      → NewPassword g
          (change_password_handler c jwt up size generate g (some me) true (some (old, new)) now).1
          me
          old
          new
          token
          now
  unfolding change_password_handler
  change_password_changed g me old new token now h =
      elim (Bool-cases (is_blocked g.user_limiter now me).0) [
        | inl blocked ↦ absurd (cc (rw blocked at h))
        | inr free ↦
            let g1 = record g { user_limiter = (is_blocked g.user_limiter now me).1 } in
            let r = change_body-NewPassword g1 me old new token now (rw free at h) in
            rw free (record {
              user = r.user;
              hash = r.hash;
              found = r.found;
              matched = r.matched;
              hashed = r.hashed;
              stored = r.stored;
              revoked = r.revoked;
              issued = r.issued;
            })
      ]

  -- With the cut-offs that a change of the password has left, the new token is accepted until it
  -- expires, and every token that was issued to the account up to the second of the change is refused.
  pub change_password_revokes :
      (g : Gate) (me old new token : String) (now later iat : ℕ)
      → (change_password_handler c jwt up size generate g (some me) true (some (old, new)) now).0
        ≡ changed token
      → later < now + 1 + token_life
      → iat ≤ now
      → let g' =
          (change_password_handler c jwt up size generate g
            (some me)
            true
            (some (old, new))
            now).1 in
        (validate_token jwt g'.cutoffs later token ≡ some me)
        × (validate_token jwt g'.cutoffs later (generate_token_at jwt me iat) ≡ none)
  change_password_revokes g me old new token now later iat h lives before =
      let r = change_password_changed g me old new token now h in
      (
        rw (r.revoked, r.issued)
            (ground (
              arith,
              validate_token-set_logout_cutoff jwt g.cutoffs me me now (now + 1) later,
              eq_refl me,
            )),
        rw r.revoked (
            ground (
              arith,
              validate_token-set_logout_cutoff jwt g.cutoffs me me now iat later,
              eq_refl me,
            )),
      )
