-- ===== src/Twofa/Handlers/Enabling.antt =====
-- Turning the second factor on and off (server/twofa.go): what the endpoints ask for.
use hexeris_beta.Base.{
  ℕ, ◌≡◌, refl, String, Option, none, some, Bool, true, false, List, arith, if◌then◌else◌, ◌=s=◌,
  Bool-cases, inl, inr,
}
use text.Mathlib.TextPositions.{eq_refl}
use hexeris_beta.Base.Dict.{lookup, lookup-insert}
use hexeris_beta.Totp.{totp_verify}
use hexeris_beta.Twofa.Store.{
  User, Database, Query, Crypto, twofa_secret, update_user, twofa_new_recovery_codes,
}
use hexeris_beta.Twofa.Handlers.{
  Server, Response, refused, enabled, disabled, unix, second_factor, password_ok, setup_handler,
  enable_handler, enable_with, turn_on, disable_handler,
}

abbrev pub IsEnabled : Response → Type 0
IsEnabled (enabled codes) = Unit {0}
IsEnabled _ = ⊥

abbrev pub IsDisabled : Response → Type 0
IsDisabled disabled = Unit {0}
IsDisabled _ = ⊥

pub lookup-update_user :
    (me : String) (f : User → User) (db : Database) (u : User)
    → lookup me db.users ≡ some u
    → lookup me (update_user me f db).users ≡ some (f u)
unfolding update_user
lookup-update_user me f db u e = ground (arith, lookup-insert me me (f u) db.users, eq_refl me)

new_recovery_codes-users :
    (c : Crypto) (up : Query → Bool) (db : Database) (me : String) (codes : Option (List (List ℕ)))
    → (twofa_new_recovery_codes c up db me codes).1.users ≡ db.users
unfolding twofa_new_recovery_codes
new_recovery_codes-users c up db me none = refl
new_recovery_codes-users c up db me (some codes) = elim (Bool-cases (up Query.drop_recovery)) [
  | inl works ↦ rw works
  | inr fails ↦ rw fails
]

module _ (c : Crypto) (up : Query → Bool) where
  turn_on_enabled :
      (s : Server) (me : String) (codes : Option (List (List ℕ))) (o : Option ℕ)
      → IsEnabled (turn_on c up s me codes o).0
      → (step : ℕ) × (o ≡ some step)
        × ((turn_on c up s me codes o).1.db.users
            ≡ (update_user me
                (λ u. record u { totp_enabled = true; totp_last_step = step })
                s.db).users)
  turn_on_enabled s me codes none h = absurd (unfold turn_on in h)
  turn_on_enabled s me codes (some step) h = elim (Bool-cases (up Query.enable_user)) [
    | inr fails ↦ absurd (unfold turn_on in (rw fails at h))
    | inl works ↦ (
      step,
      refl,
      unfold turn_on in
          rw works (
            new_recovery_codes-users c up
              (update_user me (λ u. record u { totp_enabled = true; totp_last_step = step }) s.db)
              me codes),
    )
  ]

  enable_with_enabled :
      (s : Server) (me : String) (code : List ℕ) (now : ℕ) (codes : Option (List (List ℕ)))
      (o : Option (String × Bool))
      → IsEnabled (enable_with c up s me code now codes o).0
      → (secret : String) × (step : ℕ) × (o ≡ some (secret, false))
        × (totp_verify c.hotp secret code (unix now) ≡ some step)
        × ((enable_with c up s me code now codes o).1.db.users
            ≡ (update_user me
                (λ u. record u { totp_enabled = true; totp_last_step = step })
                s.db).users)
  enable_with_enabled s me code now codes none h = absurd (unfold enable_with in h)
  enable_with_enabled s me code now codes (some (secret, on)) h =
      elim (Bool-cases (secret =s= "")) [
        | inl empty ↦ absurd (unfold enable_with in (rw empty at h))
        | inr given ↦ by_state on (unfold enable_with in (rw given at h)) given
      ]
    where
      by_state :
          (on : Bool)
          → IsEnabled
              (if on
                then (refused 409, s)
                else turn_on c up s me codes (totp_verify c.hotp secret code (unix now))).0
          → (secret =s= "") ≡ false
          → (secret' : String) × (step : ℕ) × (◌≡◌ {A = Option (String × Bool)}
              (some (secret, on))
              (some (secret', false)))
            × (totp_verify c.hotp secret' code (unix now) ≡ some step)
            × ((enable_with c up s me code now codes (some (secret, on))).1.db.users
                ≡ (update_user me
                    (λ u. record u { totp_enabled = true; totp_last_step = step })
                    s.db).users)
      by_state true h given = absurd h
      by_state false h given =
          let (step, verified, users) =
            turn_on_enabled s me codes (totp_verify c.hotp secret code (unix now)) h in
          (secret, step, refl, verified, unfold enable_with in rw given users)

  -- The second factor is turned on only by a POST with a code that the secret of the account, not
  -- yet in force, gives for the time of the request; the window of that code is stored with it, so
  -- that it is the first that counts as used.
  pub enable_handler_enabled :
      (s : Server) (me : String) (is_post : Bool) (code : List ℕ) (now : ℕ)
      (codes : Option (List (List ℕ))) (u : User)
      → lookup me s.db.users ≡ some u
      → IsEnabled (enable_handler c up s (some me) is_post code now codes).0
      → (secret : String) × (step : ℕ) × (is_post ≡ true)
        × (twofa_secret c up s.db me ≡ some (secret, false))
        × (totp_verify c.hotp secret code (unix now) ≡ some step)
        × (lookup me (enable_handler c up s (some me) is_post code now codes).1.db.users
            ≡ some (record u { totp_enabled = true; totp_last_step = step }))
  enable_handler_enabled s me false code now codes u e h = absurd (unfold enable_handler in h)
  enable_handler_enabled s me true code now codes u e h =
      let r =
        enable_with_enabled s me code now codes (twofa_secret c up s.db me)
          (unfold enable_handler in h) in
      (
        r.0,
        r.1,
        refl,
        r.2,
        r.3,
        unfold enable_handler in
            rw r.4 (
              lookup-update_user me (λ v. record v { totp_enabled = true; totp_last_step = r.1 })
                s.db u e),
      )

  -- The second factor is turned off only by a POST with the account's password and a code of the
  -- app or a recovery code that is accepted.
  pub disable_handler_disabled :
      (s : Server) (me password : String) (is_post : Bool) (code : List ℕ) (now : ℕ)
      → IsDisabled (disable_handler c up s (some me) is_post password code now).0
      → (is_post ≡ true)
        × (password_ok c up s.db me password ≡ true)
        × ((second_factor c up s.db me code now).0 ≡ true)
  disable_handler_disabled s me password false code now h = absurd (unfold disable_handler in h)
  disable_handler_disabled s me password true code now h =
      elim (Bool-cases (password_ok c up s.db me password)) [
        | inr wrong ↦ absurd (unfold disable_handler in (rw wrong at h))
        | inl known ↦ elim (Bool-cases (second_factor c up s.db me code now).0) [
          | inr refused' ↦ absurd (unfold disable_handler in (rw (known, refused') at h))
          | inl passed ↦ (refl, known, passed)
        ]
      ]

  -- A setup while the factor is on is refused and changes nothing, where the state can be read.
  pub setup_handler_conflict :
      (s : Server) (me : String) (is_post : Bool) (fresh : Option String) (u : User)
      → up Query.read_enabled ≡ true
      → lookup me s.db.users ≡ some u
      → u.totp_enabled ≡ true
      → (setup_handler c up s (some me) is_post fresh).1 ≡ s
  unfolding setup_handler
  setup_handler_conflict s me false fresh u works e on = refl
  setup_handler_conflict s me true fresh u works e on = rw (works, e, on)

  -- Where the state cannot be read, the factor of an account counts as off: a setup replaces the
  -- secret and turns the factor off.
  pub setup_handler_read_failure :
      (s : Server) (me secret : String) (u : User)
      → up Query.read_enabled ≡ false
      → up Query.write_secret ≡ true
      → lookup me s.db.users ≡ some u
      → lookup me (setup_handler c up s (some me) true (some secret)).1.db.users
        ≡ some (record u { totp_secret = some (c.encrypt_body secret); totp_enabled = false })
  unfolding setup_handler
  setup_handler_read_failure s me secret u fails works e =
      rw (fails, works)
        (lookup-update_user me
          (λ v. record v { totp_secret = some (c.encrypt_body secret); totp_enabled = false }) s.db
          u e)
