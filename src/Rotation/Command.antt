-- ===== src/Rotation/Command.antt =====
-- `runRotateEncKey` and `rotateLoadKeys` of server/rotatekey.go: the run of `rotate-enc-key`.
pub mod Laws
use hexeris_beta.Base.{
  ℕ, zero, suc, ◌+◌, String, Option, none, some, Bool, true, false, not, List, [], ◌∷◌, ltb, ◌==◌,
  ◌||◌, ◌&&◌, ◌=s=◌, length, if◌then◌else◌,
}
use hexeris_beta.Filecrypt.Stream.{Aes}
use hexeris_beta.Rotation.Rows.{
  Gcm, Keys, Rotation, Row, Counts, Progress, PageRead, rotate_messages,
}
use hexeris_beta.Rotation.Secrets.{Secrets, SecretProgress, rotate_totp_secrets}
use hexeris_beta.Rotation.Files.{
  Faults, FileRotation, FileCounts, Folder, FileProgress, rotate_files,
}
use hexeris_beta.Rotation.Guard.{Meta}

-- What the run takes from elsewhere: the ciphers, SHA-256 in `encKeyFingerprint`, base64, and
-- `strings.TrimSpace`.
pub record Tools : Type 0 where
  pub aes : Aes
  pub gcm : Gcm
  pub fingerprint : List ℕ → String
  pub decode_base64 : String → Option (List ℕ)
  pub trim : String → String

-- The two variables of the environment.
pub record Environment : Type 0 where
  pub server_enc_key : String
  pub server_enc_key_new : String

pub record World : Type 0 where
  pub messages : List Row
  pub secrets : Secrets
  pub folder : Folder
  pub meta : Meta

-- How the operations of the run come out. `read_meta` is false for an error of the query.
pub record Luck : Type 0 where
  pub read_meta : Bool
  pub write_meta : Bool
  pub read_messages : ℕ → PageRead
  pub update_message : ℕ → Bool
  pub read_secrets : Bool
  pub update_secret : String → Bool
  pub read_dir : Bool
  pub faults : String → Faults
  pub message_nonce : ℕ → Option (List ℕ)
  pub secret_nonce : ℕ → Option (List ℕ)

pub data RunEnd : Type 0 where
  unknown_argument bad_keys wrong_old_key not_confirmed stopped dry_finished : RunEnd
  files_failed meta_failed written : RunEnd

-- The flags of a dry run and of the consent.
unfoldable pub read_args : List String → Bool × Bool → Option (Bool × Bool)
read_args [] flags = some flags
read_args (a ∷ rest) (dry, consent) =
    let as_dry = read_args rest (true, consent) in
    let as_yes = read_args rest (dry, true) in
    if a =s= "--dry-run" || a =s= "-n"
    then as_dry
    else if a =s= "--yes" || a =s= "-y"
    then as_yes
    else none

module _ (tools : Tools) where
  unfoldable pub parse_key : String → Option (List ℕ)
  parse_key value =
      let raw = tools.trim value in
      if raw =s= "" then none else elim (tools.decode_base64 raw) [
        | none ↦ none
        | some key ↦ if length key == 32 then some key else none
      ]

  unfoldable different : List ℕ → List ℕ → Option (List ℕ × List ℕ)
  different old_key new_key =
      if tools.fingerprint old_key =s= tools.fingerprint new_key
      then none
      else some (old_key, new_key)

  unfoldable both_keys : Option (List ℕ) → Option (List ℕ) → Option (List ℕ × List ℕ)
  unfolding different
  both_keys none new_key = none
  both_keys (some old_key) none = none
  both_keys (some old_key) (some new_key) = different old_key new_key

  unfoldable pub rotate_load_keys : Environment → Option (List ℕ × List ℕ)
  unfolding parse_key both_keys
  rotate_load_keys env = both_keys (parse_key env.server_enc_key) (parse_key env.server_enc_key_new)

  -- Whether the row of server_meta speaks for the declared old key, or for a run that was finished.
  unfoldable pub speaks_for : String → String → Meta → Bool
  speaks_for old_fp new_fp none = true
  speaks_for old_fp new_fp (some stored) = stored =s= new_fp || stored =s= old_fp

  module _ (luck : Luck) (old_key new_key : List ℕ) (dry : Bool) where
    abbrev pub file_rotation : FileRotation
    file_rotation = record {
      aes = tools.aes;
      old_key = old_key;
      new_key = new_key;
      new_fp = tools.fingerprint new_key;
      dry = dry;
    }

    abbrev pub rotation : (ℕ → Option (List ℕ)) → Rotation
    rotation nonce = record {
      keys = record { gcm = tools.gcm; old_key = old_key; new_key = new_key };
      dry = dry;
      nonce = nonce;
      reads = luck.read_messages;
    }

    abbrev no_counts : Counts
    no_counts = record { rotated = 0; already = 0; foreign = 0 }

    -- Behind the three passes.
    unfoldable pub conclude : FileCounts → World → World × RunEnd
    conclude c w =
        if dry
        then (w, dry_finished)
        else if ltb 0 c.failed
        then (w, files_failed)
        else if luck.write_meta
        then (record w { meta = some (tools.fingerprint new_key) }, written)
        else (w, meta_failed)

    abbrev after_files : FileProgress → World → World × RunEnd
    after_files (d, c, true) w = conclude c (record w { folder = d })
    after_files (d, c, false) w = (record w { folder = d }, stopped)

    unfoldable pub files_pass : World → World × RunEnd
    unfolding conclude rotate_files
    files_pass w =
        if luck.read_dir
        then after_files
            (rotate_files file_rotation luck.faults w.folder
              (record { rotated = 0; already = 0; plain = 0; failed = 0 }))
            w
        else (w, stopped)

    abbrev after_secrets : SecretProgress → World → World × RunEnd
    after_secrets (t, c, true) w = files_pass (record w { secrets = t })
    after_secrets (t, c, false) w = (record w { secrets = t }, stopped)

    unfoldable pub secrets_pass : World → World × RunEnd
    unfolding files_pass
    secrets_pass w =
        after_secrets
          (rotate_totp_secrets (rotation luck.secret_nonce) luck.update_secret luck.read_secrets
            w.secrets no_counts)
          w

    abbrev after_messages : Option Progress → World → World × RunEnd
    after_messages none w = (w, stopped)
    after_messages (some (t, c, true)) w = secrets_pass (record w { messages = t })
    after_messages (some (t, c, false)) w = (record w { messages = t }, stopped)

    unfoldable pub messages_pass : World → World × RunEnd
    unfolding secrets_pass
    messages_pass w =
        after_messages
          (rotate_messages (rotation luck.message_nonce) luck.update_message w.messages no_counts) w

    unfoldable pub with_keys : Bool → World → World × RunEnd
    unfolding messages_pass speaks_for
    with_keys consent w =
        if luck.read_meta
          && not (speaks_for (tools.fingerprint old_key) (tools.fingerprint new_key) w.meta)
        then (w, wrong_old_key)
        else if dry || consent
        then messages_pass w
        else (w, not_confirmed)

  abbrev pub loaded : Luck → Bool × Bool → Option (List ℕ × List ℕ) → World → World × RunEnd
  loaded luck flags none w = (w, bad_keys)
  loaded luck flags (some (old_key, new_key)) w = with_keys luck old_key new_key flags.0 flags.1 w

  abbrev pub flagged : Luck → Environment → Option (Bool × Bool) → World → World × RunEnd
  flagged luck env none w = (w, unknown_argument)
  flagged luck env (some flags) w = loaded luck flags (rotate_load_keys env) w

  unfoldable pub run_rotate_enc_key : Luck → Environment → List String → World → World × RunEnd
  unfolding with_keys rotate_load_keys read_args
  run_rotate_enc_key luck env args w = flagged luck env (read_args args (false, false)) w
