-- ===== src/Twofa/Store.antt =====
-- The database side of server/twofa.go: secrets, the last accepted window and recovery codes. A
-- statement of SQL runs atomically; `up q` is false where statement `q` fails, and then it has
-- changed nothing.
pub mod Reuse
use hexeris_beta.Base.{
  ℕ, zero, suc, ◌+◌, String, Option, none, some, Bool, true, false, List, [], ◌∷◌, ◌++◌, ltb, ◌==◌,
  ◌&&◌, ◌||◌, not, if◌then◌else◌, ◌=s=◌, ◌/◌,
}
use hexeris_beta.Base.Dict.{Dict, lookup, insert}
use hexeris_beta.Totp.{Hotp, totp_verify}

pub record User : Type 0 where
  pub password_hash : String
  pub blocked : Bool
  pub must_change_password : Bool
  pub totp_secret : Option String
  pub totp_enabled : Bool
  pub totp_last_step : ℕ
  pub forced_logout_at : ℕ

pub record Recovery : Type 0 where
  pub username : String
  pub code_hash : String
  pub used : Bool

pub record Database : Type 0 where
  pub users : Dict User
  pub recovery : List Recovery

pub data Query : Type 0 where
  read_secret read_enabled write_step mark_recovery count_recovery : Query
  reset_user drop_recovery write_secret enable_user read_hash read_blocked read_must_change : Query
  ensure_ldap_user write_password : Query
  add_recovery : String → Query

-- What the handlers use of crypto: `decryptBody` and `encryptBody` (main.go), the SHA-256 of
-- `twoFAHashRecovery`, and bcrypt's comparison of a hash and a password.
pub record Crypto : Type 0 where
  pub decrypt_body : String → String
  pub encrypt_body : String → String
  pub hash_recovery : List ℕ → String
  pub matches : String → String → Bool
  pub hotp : Hotp

unfoldable pub open_secret : Crypto → User → String × Bool
open_secret c u = elim u.totp_secret [
  | none ↦ ("", u.totp_enabled)
  | some stored ↦ (if stored =s= "" then "" else c.decrypt_body stored, u.totp_enabled)
]

-- The secret and whether the factor is on; `none` is an error of the query, a missing row too.
unfoldable pub twofa_secret : Crypto → (Query → Bool) → Database → String → Option (String × Bool)
unfolding open_secret
twofa_secret c up db username =
    if up Query.read_secret
    then elim (lookup username db.users) [ none ↦ none | some u ↦ some (open_secret c u) ]
    else none

unfoldable pub twofa_enabled : (Query → Bool) → Database → String → Bool
twofa_enabled up db username =
    if up Query.read_enabled
    then elim (lookup username db.users) [ none ↦ false | some u ↦ u.totp_enabled ]
    else false

-- `UPDATE users SET totp_last_step=$2 WHERE username=$1 AND totp_last_step < $2`
unfoldable pub raise_last_step : Database → String → ℕ → Option User → Bool × Database
raise_last_step db username step none = (false, db)
raise_last_step db username step (some u) =
    if ltb u.totp_last_step step
    then (true, record db { users = insert username (record u { totp_last_step = step }) db.users })
    else (false, db)

unfoldable pub write_last_step : (Query → Bool) → Database → String → ℕ → Bool × Database
unfolding raise_last_step
write_last_step up db username step =
    if up Query.write_step
    then raise_last_step db username step (lookup username db.users)
    else (false, db)

unfoldable pub consume_step : (Query → Bool) → Database → String → Option ℕ → Bool × Database
unfolding write_last_step
consume_step up db username none = (false, db)
consume_step up db username (some step) = write_last_step up db username step

unfoldable pub consume_with :
    Crypto
    → (Query → Bool)
    → Database
    → String
    → List ℕ
    → ℕ
    → Option (String × Bool)
    → Bool × Database
unfolding consume_step
consume_with c up db username code now none = (false, db)
consume_with c up db username code now (some (secret, enabled)) =
    if secret =s= "" || not enabled
    then (false, db)
    else consume_step up db username (totp_verify c.hotp secret code now)

-- `now` in Unix seconds.
unfoldable pub twofa_consume :
    Crypto → (Query → Bool) → Database → String → List ℕ → ℕ → Bool × Database
unfolding consume_with twofa_secret
twofa_consume c up db username code now =
    consume_with c up db username code now (twofa_secret c up db username)

-- The rows that `UPDATE twofa_recovery … AND used_at IS NULL` marks, and their number.
unfoldable pub mark_used : String → String → List Recovery → ℕ × List Recovery
mark_used username hash [] = (0, [])
mark_used username hash (r ∷ rs) =
    let (n, rs') = mark_used username hash rs in
    if (r.username =s= username) && (r.code_hash =s= hash) && not r.used
    then (suc n, record r { used = true } ∷ rs')
    else (n, r ∷ rs')

unfoldable pub twofa_use_recovery :
    Crypto → (Query → Bool) → Database → String → List ℕ → Bool × Database
unfolding mark_used
twofa_use_recovery c up db username code =
    if up Query.mark_recovery
    then (let (n, recovery) = mark_used username (c.hash_recovery code) db.recovery in
        (n == 1, record db { recovery = recovery }))
    else (false, db)

unfoldable pub unused_of : String → List Recovery → ℕ
unused_of username [] = 0
unused_of username (r ∷ rs) =
    let n = unused_of username rs in if (r.username =s= username) && not r.used then suc n else n

unfoldable pub twofa_recovery_left : (Query → Bool) → Database → String → ℕ
unfolding unused_of
twofa_recovery_left up db username =
    if up Query.count_recovery then unused_of username db.recovery else 0

unfoldable pub without_user : String → List Recovery → List Recovery
without_user username [] = []
without_user username (r ∷ rs) =
    let rest = without_user username rs in if r.username =s= username then rest else r ∷ rest

pub has_row : String → String → List Recovery → Bool
has_row username hash [] = false
has_row username hash (r ∷ rs) =
    ((r.username =s= username) && (r.code_hash =s= hash)) || has_row username hash rs

-- One INSERT for each code; it fails on a key that is there.
pub add_codes : (Query → Bool) → String → List String → List Recovery → Bool × List Recovery
unfolding has_row
add_codes up username [] rows = (true, rows)
add_codes up username (h ∷ hs) rows =
    let later =
      add_codes up username hs
        (rows ++ record { username = username; code_hash = h; used = false } ∷ []) in
    if up (Query.add_recovery h) && not (has_row username h rows) then later else (false, rows)

abbrev hashes : Crypto → List (List ℕ) → List String
hashes c [] = []
hashes c (code ∷ codes) = c.hash_recovery code ∷ hashes c codes

-- `codes` is what the random source returned. The codes are shown only if every row was written.
unfoldable pub twofa_new_recovery_codes :
    Crypto
    → (Query → Bool)
    → Database
    → String
    → Option (List (List ℕ))
    → Option (List (List ℕ)) × Database
unfolding without_user add_codes
twofa_new_recovery_codes c up db username none = (none, db)
twofa_new_recovery_codes c up db username (some codes) =
    let (all_written, rows) =
      add_codes up username (hashes c codes) (without_user username db.recovery) in
    if up Query.drop_recovery
    then (if all_written then some codes else none, record db { recovery = rows })
    else (none, db)

abbrev cleared : User → User
cleared u = record u { totp_secret = none; totp_enabled = false; totp_last_step = 0 }

unfoldable pub update_user : String → (User → User) → Database → Database
update_user username f db = elim (lookup username db.users) [
  | none ↦ db
  | some u ↦ record db { users = insert username (f u) db.users }
]

-- `false` is the error of either statement.
unfoldable pub twofa_reset : (Query → Bool) → Database → String → Bool × Database
unfolding update_user without_user
twofa_reset up db username =
    if up Query.reset_user
    then (let db' = update_user username cleared db in
        if up Query.drop_recovery
        then (true, record db' { recovery = without_user username db'.recovery })
        else (false, db'))
    else (false, db)
