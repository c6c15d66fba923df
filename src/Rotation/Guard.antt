-- ===== src/Rotation/Guard.antt =====
-- server/enckeyguard.go: a server does not start with another key than the one its database was
-- encrypted with. `trim` is `strings.TrimSpace`.
use hexeris_beta.Base.{
  String, Option, none, some, Bool, true, false, not, ◌=s=◌, ◌≡◌, ◌≢◌, if◌then◌else◌, arith, eq_iff,
}

-- The row `enc_key_fingerprint` of server_meta.
abbrev pub Meta : Type 0
Meta = Option String

-- How the queries come out.
pub record MetaFaults : Type 0 where
  pub read : Bool
  pub insert : Bool
  pub update : Bool

-- The fingerprint that is reported and whether the start is allowed; a fatal end of the process.
pub data Status : Type 0 where
  status : String → Bool → Status
  fatal : Status

module _ (trim : String → String) (up : MetaFaults) where
  unfoldable acknowledged : String → String → String → Status × Meta
  acknowledged fp ack stored =
      if not (trim ack =s= fp)
      then (status stored false, some stored)
      else if up.update
      then (status stored true, some fp)
      else (fatal, some stored)

  unfoldable compare_key : String → String → Meta → Status × Meta
  unfolding acknowledged
  compare_key fp ack none = (status fp true, if up.insert then some fp else none)
  compare_key fp ack (some stored) =
      if stored =s= fp then (status stored true, some stored) else acknowledged fp ack stored

  -- Nobody else writes the row at the same time.
  unfoldable pub enc_key_guard_status : String → String → Meta → Status × Meta
  unfolding compare_key
  enc_key_guard_status fp ack meta =
      if up.read then compare_key fp ack meta else (status "" true, meta)

  abbrev pub may_start : Status → Bool
  may_start (status stored ok) = ok
  may_start fatal = false

  -- Whether the server goes on with its start, and the row it leaves.
  unfoldable pub check_enc_key_unchanged : Bool → String → String → Meta → Bool × Meta
  unfolding enc_key_guard_status
  check_enc_key_unchanged true fp ack meta = (true, meta)
  check_enc_key_unchanged false fp ack meta =
      let (result, left) = enc_key_guard_status fp ack meta in (may_start result, left)

  -- With the recorded key a server starts, and the row stays.
  pub check_enc_key_unchanged_same :
      (fp ack : String) → check_enc_key_unchanged false fp ack (some fp) ≡ (true, some fp)
  unfolding check_enc_key_unchanged
  check_enc_key_unchanged_same fp ack = ground (arith, eq_iff fp fp)

  -- With another key that nobody acknowledges it does not, and the row stays.
  pub check_enc_key_unchanged_other :
      (fp ack stored : String)
      → up.read ≡ true
      → stored ≢ fp
      → trim ack ≢ fp
      → check_enc_key_unchanged false fp ack (some stored) ≡ (false, some stored)
  unfolding check_enc_key_unchanged
  check_enc_key_unchanged_other fp ack stored r s a =
      ground (arith, eq_iff stored fp, eq_iff (trim ack) fp)
