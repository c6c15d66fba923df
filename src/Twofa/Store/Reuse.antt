-- ===== src/Twofa/Store/Reuse.antt =====
-- No code of server/twofa.go works twice: neither one from an authenticator nor a recovery code.
use text.Mathlib.TextPositions.{eq_refl}
use mathlib.Core.Option.{some-injective}
use hexeris_beta.Base.{
  ℕ, ◌+◌, ◌≤◌, ◌<◌, ◌≡◌, refl, sym, ap, subst, ◌∙◌, String, Option, none, some, Bool, true, false,
  List, [], ◌∷◌, arith, ltb, ◌=s=◌, Option-cases, Bool-cases, inl, inr,
}
use hexeris_beta.Base.Dict.{lookup, insert, lookup-insert}
use hexeris_beta.Totp.{totp_verify}
use hexeris_beta.Twofa.Store.{
  User, Recovery, Database, Query, Crypto, open_secret, twofa_secret, raise_last_step,
  write_last_step, consume_step, consume_with, twofa_consume, mark_used, twofa_use_recovery,
  unused_of,
}

module _ (c : Crypto) where
  -- What it takes for a code to be accepted, and what is written.
  pub record Accepted (db db' : Database) (username : String) (code : List ℕ) (now : ℕ)
      : Type 0 where
    pub user : User
    pub step : ℕ
    pub found : lookup username db.users ≡ some user
    pub enabled : user.totp_enabled ≡ true
    pub verified : totp_verify c.hotp (open_secret c user).0 code now ≡ some step
    pub newer : user.totp_last_step < step
    pub written :
        db' ≡ record db { users = insert username (record user { totp_last_step = step }) db.users }

  raise_last_step-true :
      (db : Database) (username : String) (step : ℕ) (o : Option User)
      → (raise_last_step db username step o).0 ≡ true
      → (u : User) × (o ≡ some u)
        × (u.totp_last_step < step)
        × ((raise_last_step db username step o).1
            ≡ record db { users = insert username (record u { totp_last_step = step }) db.users })
  unfolding raise_last_step
  raise_last_step-true db username step none h = absurd (ground arith)
  raise_last_step-true db username step (some u) h = elim (Bool-cases (ltb u.totp_last_step step)) [
    | inl less ↦ (u, refl, ground arith, rw less)
    | inr over ↦ absurd (ground arith)
  ]

  write_last_step-true :
      (up : Query → Bool) (db : Database) (username : String) (step : ℕ)
      → (write_last_step up db username step).0 ≡ true
      → write_last_step up db username step
        ≡ raise_last_step db username step (lookup username db.users)
  unfolding write_last_step
  write_last_step-true up db username step h = elim (Bool-cases (up Query.write_step)) [
    | inl works ↦ rw works
    | inr fails ↦ absurd (ground arith)
  ]

  consume_step-true :
      (up : Query → Bool) (db : Database) (username : String) (o : Option ℕ)
      → (consume_step up db username o).0 ≡ true
      → (step : ℕ) × (o ≡ some step)
        × (consume_step up db username o
            ≡ raise_last_step db username step (lookup username db.users))
  unfolding consume_step
  consume_step-true up db username none h = absurd (ground arith)
  consume_step-true up db username (some step) h =
      (step, refl, write_last_step-true up db username step h)

  consume_with-true :
      (up : Query → Bool) (db : Database) (username : String) (code : List ℕ) (now : ℕ)
      (o : Option (String × Bool))
      → (consume_with c up db username code now o).0 ≡ true
      → (secret : String) × (o ≡ some (secret, true))
        × (consume_with c up db username code now o
            ≡ consume_step up db username (totp_verify c.hotp secret code now))
  unfolding consume_with
  consume_with-true up db username code now none h = absurd (ground arith)
  consume_with-true up db username code now (some (secret, false)) h = absurd (ground arith)
  consume_with-true up db username code now (some (secret, true)) h =
      elim (Bool-cases (secret =s= "")) [
        | inl empty ↦ absurd (ground arith)
        | inr given ↦ (secret, refl, rw given)
      ]

  twofa_secret-some :
      (up : Query → Bool) (db : Database) (username secret : String)
      → twofa_secret c up db username ≡ some (secret, true)
      → (u : User) × (lookup username db.users ≡ some u)
        × (u.totp_enabled ≡ true)
        × ((open_secret c u).0 ≡ secret)
  unfolding twofa_secret open_secret
  twofa_secret-some up db username secret h = elim (Option-cases (lookup username db.users)) [
    | inl missing ↦ absurd (ground arith)
    | inr (u, found) ↦ (u, found, ground arith, ground arith)
  ]

  -- A code is accepted only of a user whose second factor is on, if it is the code of a window
  -- newer than the last one that was accepted; that window is what is written, and nothing else.
  pub consume_accepts :
      (up : Query → Bool) (db : Database) (username : String) (code : List ℕ) (now : ℕ)
      → (twofa_consume c up db username code now).0 ≡ true
      → Accepted db (twofa_consume c up db username code now).1 username code now
  unfolding twofa_consume
  consume_accepts up db username code now h =
      let (secret, known, e1) =
        consume_with-true up db username code now (twofa_secret c up db username) h in
      let (u, found, on, opened) = twofa_secret-some up db username secret known in
      let (step, verified, e2) =
        consume_step-true up db username (totp_verify c.hotp secret code now)
          (subst (λ (r : Bool × Database). r.0 ≡ true) e1 h) in
      let (u', same, newer, e3) =
        raise_last_step-true db username step (lookup username db.users)
          (subst (λ (r : Bool × Database). r.0 ≡ true) (e1 ∙ e2) h) in
      let eq : u' ≡ u = some-injective _ _ (sym same ∙ found) in
      record {
        user = u;
        step = step;
        found = found;
        enabled = on;
        verified = ap (λ s. totp_verify c.hotp s code now) opened ∙ verified;
        newer = subst (λ (v : User). v.totp_last_step < step) eq newer;
        written =
            ap (λ (r : Bool × Database). r.1) (e1 ∙ e2)
            ∙ e3
            ∙ ap
                (λ (v : User). record db {
                  users = insert username (record v { totp_last_step = step }) db.users;
                })
                eq;
      }

  consume_step-false :
      (up : Query → Bool) (db : Database) (username : String) (o : Option ℕ)
      → (consume_step up db username o).0 ≡ false
      → (consume_step up db username o).1 ≡ db
  unfolding consume_step write_last_step
  consume_step-false up db username none h = refl
  consume_step-false up db username (some step) h = elim (Bool-cases (up Query.write_step)) [
    | inr fails ↦ rw fails
    | inl works ↦
        rw works (raise_last_step-false db username step (lookup username db.users) (rw works at h))
  ]
    where
      raise_last_step-false :
          (db : Database) (username : String) (step : ℕ) (o : Option User)
          → (raise_last_step db username step o).0 ≡ false
          → (raise_last_step db username step o).1 ≡ db
      raise_last_step-false db username step none h = unfold raise_last_step in refl
      raise_last_step-false db username step (some u) h = unfold raise_last_step in ground arith

  consume_with-false :
      (up : Query → Bool) (db : Database) (username : String) (code : List ℕ) (now : ℕ)
      (o : Option (String × Bool))
      → (consume_with c up db username code now o).0 ≡ false
      → (consume_with c up db username code now o).1 ≡ db
  unfolding consume_with
  consume_with-false up db username code now none h = refl
  consume_with-false up db username code now (some (secret, enabled)) h =
      ground (arith, consume_step-false up db username (totp_verify c.hotp secret code now))

  -- A refused code leaves the database as it was.
  pub consume_refuses :
      (up : Query → Bool) (db : Database) (username : String) (code : List ℕ) (now : ℕ)
      → (twofa_consume c up db username code now).0 ≡ false
      → (twofa_consume c up db username code now).1 ≡ db
  unfolding twofa_consume
  consume_refuses up db username code now h =
      consume_with-false up db username code now (twofa_secret c up db username) h

  consume_again :
      (up up' : Query → Bool) (db : Database) (username : String) (code again : List ℕ)
      (now later : ℕ) (accepted : (twofa_consume c up db username code now).0 ≡ true) (s : ℕ)
      → totp_verify c.hotp
          (open_secret c (consume_accepts up db username code now accepted).user).0
          again
          later
        ≡ some s
      → s ≤ (consume_accepts up db username code now accepted).step
      → (twofa_consume c up' (twofa_consume c up db username code now).1 username again later).0
        ≡ false
  consume_again up up' db username code again now later accepted s e old =
      let a = consume_accepts up db username code now accepted in
      let db' = (twofa_consume c up db username code now).1 in
      elim (Bool-cases (twofa_consume c up' db' username again later).0) [
        | inr refused ↦ refused
        | inl twice ↦
            let b = consume_accepts up' db' username again later twice in
            let u : User = record a.user { totp_last_step = a.step } in
            let stored : lookup username (insert username u db.users) ≡ some u =
              ground (arith, lookup-insert username username u db.users, eq_refl username) in
            let eq : b.user ≡ u =
              some-injective _ _
                (sym b.found ∙ ap (λ (d : Database). lookup username d.users) a.written ∙ stored) in
            let newer : a.step < b.step =
              subst (λ (v : User). v.totp_last_step < b.step) eq b.newer in
            let secret : (open_secret c b.user).0 ≡ (open_secret c a.user).0 =
              unfold open_secret in ap (λ (v : User). (open_secret c v).0) eq in
            let same : b.step ≡ s =
              some-injective _ _
                (sym b.verified ∙ ap (λ k. totp_verify c.hotp k again later) secret ∙ e) in
            absurd (omega arith)
      ]

  -- In the database that the acceptance of a code of an account has left, every code of that account
  -- whose window is not newer than the accepted one is refused, the same code included, whenever it
  -- is presented and whatever fails.
  pub consume_no_reuse :
      (up up' : Query → Bool) (db : Database) (username : String) (u : User) (code again : List ℕ)
      (now later step s : ℕ)
      → lookup username db.users ≡ some u
      → totp_verify c.hotp (open_secret c u).0 code now ≡ some step
      → (twofa_consume c up db username code now).0 ≡ true
      → totp_verify c.hotp (open_secret c u).0 again later ≡ some s
      → s ≤ step
      → (twofa_consume c up' (twofa_consume c up db username code now).1 username again later).0
        ≡ false
  consume_no_reuse up up' db username u code again now later step s found verified accepted e old =
      let a = consume_accepts up db username code now accepted in
      let user : a.user ≡ u = some-injective _ _ (sym a.found ∙ found) in
      let newest : a.step ≡ step = some-injective _ _ (
        sym a.verified
        ∙ ap (λ (v : User). totp_verify c.hotp (open_secret c v).0 code now) user
        ∙ verified) in
      consume_again up up' db username code again now later accepted s
        (ap (λ (v : User). totp_verify c.hotp (open_secret c v).0 again later) user ∙ e)
        (omega (arith, newest))

mark_used-again :
    (username hash : String) (rs : List Recovery)
    → (mark_used username hash (mark_used username hash rs).1).0 ≡ 0
unfolding mark_used
mark_used-again username hash [] = refl
mark_used-again username hash (r ∷ rs) = ground (arith, mark_used-again username hash rs)

-- A recovery code that was accepted is refused in the database that its acceptance has left, whatever
-- fails in either request.
pub use_recovery_once :
    (c : Crypto) (up up' : Query → Bool) (db : Database) (username : String) (code : List ℕ)
    → (twofa_use_recovery c up db username code).0 ≡ true
    → (twofa_use_recovery c up' (twofa_use_recovery c up db username code).1 username code).0
      ≡ false
unfolding twofa_use_recovery
use_recovery_once c up up' db username code h =
    ground (arith, mark_used-again username (c.hash_recovery code) db.recovery)

unused_of-mark_used :
    (username hash : String) (rs : List Recovery)
    → unused_of username (mark_used username hash rs).1 + (mark_used username hash rs).0
      ≡ unused_of username rs
unfolding mark_used unused_of
unused_of-mark_used username hash [] = refl
unused_of-mark_used username hash (r ∷ rs) = ground (arith, unused_of-mark_used username hash rs)

-- A recovery code that is accepted is one fewer that is left.
pub use_recovery_spends :
    (c : Crypto) (up : Query → Bool) (db : Database) (username : String) (code : List ℕ)
    → (twofa_use_recovery c up db username code).0 ≡ true
    → unused_of username (twofa_use_recovery c up db username code).1.recovery + 1
      ≡ unused_of username db.recovery
unfolding twofa_use_recovery
use_recovery_spends c up db username code h =
    ground (arith, unused_of-mark_used username (c.hash_recovery code) db.recovery)
