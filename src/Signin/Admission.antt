-- ===== src/Signin/Admission.antt =====
-- Whom `loginHandler` of server/auth.go lets in, and what a wrong password leaves behind.
use hexeris_beta.Base.{
  ℕ, String, ◌≡◌, refl, Option, none, some, Bool, true, false, [], ◌∷◌, ◌++◌, ◌&&◌, ◌||◌, ◌=s=◌,
  Bool-cases, ◌⊎◌, inl, inr,
}
use hexeris_beta.Base.Dict.{Dict}
use hexeris_beta.Limiter.{is_blocked, record_failure}
use hexeris_beta.Twofa.Tickets.{Ticket, issue_ticket}
use hexeris_beta.Twofa.Store.{Query, Crypto, twofa_enabled}
use hexeris_beta.Twofa.Handlers.{Outcome, unix, user_blocked, password_ok}
use hexeris_beta.Signin.Login.{
  Directory, Gate, Answer, refused, signed_in, issued, after_password, wrong_password,
  from_directory, try_password, login_body, login_handler,
}

abbrev pub IsSignedIn : Answer → Type 0
IsSignedIn (signed_in token username must_change) = Unit {0}
IsSignedIn _ = ⊥

module _ (c : Crypto) (up : Query → Bool) (d : Directory) (sign : String → ℕ → String) where
  -- The account is open, and has no second factor that could be read.
  pub record Open (g' : Gate) (username : String) : Type 0 where
    pub allowed : user_blocked up g'.server.db username ≡ false
    pub single : twofa_enabled up g'.server.db username ≡ false

  -- What a session takes.
  pub record Admitted (g g' : Gate) (ip : String) (req : Option (String × String)) (now : ℕ)
      : Type 0 where
    pub raw : String
    pub password : String
    pub body : req ≡ some (raw, password)
    pub address : (is_blocked g.server.login_limiter (unix now) ip).0 ≡ false
    pub account : (is_blocked g.user_limiter (unix now) (d.trim raw)).0 ≡ false
    pub accepted :
        (password_ok c up g.server.db (d.trim raw) password ≡ true)
        ⊎ (d.enabled && d.authenticate (d.trim raw) password ≡ true)
    pub admits : Open g' (d.trim raw)

  issued-refuses :
      (g : Gate) (username : String) (r : Option String × Dict Ticket)
      → IsSignedIn (issued g username r).0
      → ⊥
  unfolding issued
  issued-refuses g username (none, ts) h = h
  issued-refuses g username (some id, ts) h = h

  after_password-Open :
      (g : Gate) (username : String) (now : ℕ) (fresh : Option String)
      → IsSignedIn (after_password c up d sign g username now fresh).0
      → Open (after_password c up d sign g username now fresh).1 username
  unfolding after_password
  after_password-Open g username now fresh h =
      elim (Bool-cases (user_blocked up g.server.db username)) [
        | inl blocked ↦ absurd (rw blocked at h)
        | inr allowed ↦ elim (Bool-cases (twofa_enabled up g.server.db username)) [
          | inl on ↦ absurd (
              issued-refuses g username (issue_ticket g.server.tickets now username fresh)
                (rw (allowed, on) at h))
          | inr single ↦ rw (allowed, single) (record { allowed = allowed; single = single })
        ]
      ]

  from_directory-Open :
      (g : Gate) (username : String) (now : ℕ) (fresh : Option String)
      → IsSignedIn (from_directory c up d sign g username now fresh).0
      → Open (from_directory c up d sign g username now fresh).1 username
  unfolding from_directory
  from_directory-Open g username now fresh h = elim (Bool-cases (d.plain_name username)) [
    | inr odd ↦ absurd (rw odd at h)
    | inl plain ↦ elim (Bool-cases (up Query.ensure_ldap_user)) [
      | inr fails ↦ absurd (rw (plain, fails) at h)
      | inl works ↦
          rw (plain, works) (after_password-Open _ username now fresh (rw (plain, works) at h))
    ]
  ]

  try_password-Open :
      (g : Gate) (ip username password : String) (now : ℕ) (fresh : Option String)
      → IsSignedIn (try_password c up d sign g ip username password now fresh).0
      → ((is_blocked g.user_limiter (unix now) username).0 ≡ false)
        × ((password_ok c up g.server.db username password ≡ true)
            ⊎ (d.enabled && d.authenticate username password ≡ true))
        × Open (try_password c up d sign g ip username password now fresh).1 username
  unfolding try_password
  try_password-Open g ip username password now fresh h =
      elim (Bool-cases (is_blocked g.user_limiter (unix now) username).0) [
        | inl blocked ↦ absurd (rw blocked at h)
        | inr free ↦ elim (Bool-cases (password_ok c up g.server.db username password)) [
          | inl right ↦ (
            free,
            inl right,
            rw (free, right) (after_password-Open _ username now fresh (rw (free, right) at h)),
          )
          | inr wrong ↦ elim (Bool-cases (d.enabled && d.authenticate username password)) [
            | inr unknown ↦ absurd (unfold wrong_password in (rw (free, wrong, unknown) at h))
            | inl known ↦ (
              free,
              inr known,
              rw (free, wrong, known)
                  (from_directory-Open _ username now fresh (rw (free, wrong, known) at h)),
            )
          ]
        ]
      ]

  -- A session is given only to a POST, from an address and to an account that the limiters let
  -- through, for a password that the stored hash or the directory accepts, and only where the
  -- account of that moment does not read as blocked (a missing row does, a query that fails does
  -- not) and its second factor does not read as on.
  pub login_handler_session :
      (g : Gate) (is_post : Bool) (ip : String) (req : Option (String × String)) (now : ℕ)
      (fresh : Option String)
      → IsSignedIn (login_handler c up d sign g is_post ip req now fresh).0
      → (is_post ≡ true)
        × Admitted g (login_handler c up d sign g is_post ip req now fresh).1 ip req now
  unfolding login_handler
  login_handler_session g false ip req now fresh h = absurd h
  login_handler_session g true ip req now fresh h =
      elim (Bool-cases (is_blocked g.server.login_limiter (unix now) ip).0) [
        | inl blocked ↦ absurd (rw blocked at h)
        | inr free ↦ (refl, rw free (admit free req (rw free at h)))
      ]
    where
      entered : Gate
      entered = record g {
        server = record g.server {
          login_limiter = (is_blocked g.server.login_limiter (unix now) ip).1;
        };
      }

      admit :
          (is_blocked g.server.login_limiter (unix now) ip).0 ≡ false
          → (r : Option (String × String))
          → IsSignedIn (login_body c up d sign entered ip r now fresh).0
          → Admitted g (login_body c up d sign entered ip r now fresh).1 ip r now
      admit free none signed = absurd (unfold login_body in signed)
      admit free (some (raw, password)) signed = elim (Bool-cases (raw =s= "" || password =s= "")) [
        | inl empty ↦ absurd (unfold login_body in (rw empty at signed))
        | inr given ↦
            let r =
              try_password-Open entered ip (d.trim raw) password now fresh
                (unfold login_body in (rw given at signed)) in
            record {
              raw = raw;
              password = password;
              body = refl;
              address = free;
              account = r.0;
              accepted = r.1;
              admits = unfold login_body in rw given r.2;
            }
      ]

  -- A wrong password, from an address and for an account that the limiters let through, is one more
  -- failure of both, is in the sign-in audit, and changes neither an account nor a ticket.
  pub login_handler_wrong_password :
      (g : Gate) (ip raw password : String) (now : ℕ) (fresh : Option String)
      → raw =s= "" || password =s= "" ≡ false
      → (is_blocked g.server.login_limiter (unix now) ip).0 ≡ false
      → (is_blocked g.user_limiter (unix now) (d.trim raw)).0 ≡ false
      → password_ok c up g.server.db (d.trim raw) password ≡ false
      → d.enabled && d.authenticate (d.trim raw) password ≡ false
      → let (answer, g') = login_handler c up d sign g true ip (some (raw, password)) now fresh in
        (answer ≡ refused 401)
        × (g'.server.db ≡ g.server.db)
        × (g'.server.tickets ≡ g.server.tickets)
        × (g'.server.login_limiter
            ≡ record_failure (is_blocked g.server.login_limiter (unix now) ip).1 (unix now) ip)
        × (g'.user_limiter
            ≡ record_failure
                (is_blocked g.user_limiter (unix now) (d.trim raw)).1
                (unix now)
                (d.trim raw))
        × (g'.server.sign_ins ≡ g.server.sign_ins ++ (d.trim raw, Outcome.login_bad_creds) ∷ [])
  unfolding login_handler login_body try_password wrong_password
  login_handler_wrong_password g ip raw password now fresh given free let_in wrong unknown =
      rw (free, given, let_in, wrong, unknown) (refl, refl, refl, refl, refl, refl)
