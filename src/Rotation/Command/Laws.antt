-- ===== src/Rotation/Command/Laws.antt =====
-- What a run of `rotate-enc-key` (server/rotatekey.go) promises when it writes the new fingerprint,
-- and what the start of a server (server/enckeyguard.go) makes of it.
use mathlib.Core.Option.{some-injective}
use hexeris_beta.Base.{
  ℕ, suc, ◌≤◌, ◌≡◌, ◌≢◌, refl, sym, subst, String, Option, none, some, Bool, true, false, not,
  Bool-cases, List, ltb, ◌=s=◌, eq_iff, ◌||◌, ◌&&◌, length, if◌then◌else◌, arith, inl, inr,
}
use hexeris_beta.Rotation.Rows.{Keys, Rotation, Row, Counts, Progress, broken_off, rotate_messages}
use hexeris_beta.Rotation.Rows.Walk.{Ascending}
use hexeris_beta.Rotation.Rows.Interrupted.{rotate_pages-Keeps}
use hexeris_beta.Rotation.Rows.Reading.{Keeps, Keeps-self, Moved}
use hexeris_beta.Rotation.Files.{FileRotation, FileCounts, FileProgress, rotate_files}
use hexeris_beta.Rotation.Files.Directory.{
  Content, AllIntact, AllTurned, Legible, rotate_files-AllIntact, rotate_files-AllTurned,
}
use hexeris_beta.Rotation.Secrets.{SecretProgress, rotate_totp_secrets}
use hexeris_beta.Rotation.Guard.{
  Meta, MetaFaults, check_enc_key_unchanged, check_enc_key_unchanged_same,
  check_enc_key_unchanged_other,
}
use hexeris_beta.Rotation.Command.{
  Tools, Environment, World, Luck, RunEnd, wrong_old_key, not_confirmed, stopped, dry_finished,
  files_failed, meta_failed, written, read_args, rotate_load_keys, speaks_for, file_rotation,
  rotation, conclude, files_pass, secrets_pass, messages_pass, with_keys, run_rotate_enc_key,
  loaded, flagged, both_keys, parse_key, different, after_files, after_secrets, after_messages,
  no_counts,
}

module _ (tools : Tools) (luck : Luck) (old_key new_key : List ℕ) (dry : Bool)
    (contents : String → Content) (ok : (name : String) → Legible (luck.faults name))
    (unbroken : (cursor n : ℕ) → luck.read_messages cursor ≢ broken_off n) where
  abbrev pub keys : Keys
  keys = record { gcm = tools.gcm; old_key = old_key; new_key = new_key }

  abbrev fr : FileRotation
  fr = file_rotation tools luck old_key new_key dry

  -- What every end of the run keeps, and what the new fingerprint says: all is under the new key.
  pub record Kept (before : List Row) (p : World × RunEnd) : Type 0 where
    pub messages : Keeps keys before p.0.messages
    pub files : AllIntact fr contents p.0.folder
    pub says :
        p.1 ≡ written
        → (p.0.meta ≡ some (tools.fingerprint new_key))
          × Moved keys before p.0.messages
          × AllTurned fr contents p.0.folder

  conclude-Kept :
      (before : List Row) (c : FileCounts) (w : World)
      → Keeps keys before w.messages
      → AllIntact fr contents w.folder
      → (dry ≡ false → Moved keys before w.messages)
      → (dry ≡ false → c.failed ≤ 0 → AllTurned fr contents w.folder)
      → Kept before (conclude tools luck old_key new_key dry c w)
  unfolding conclude
  conclude-Kept before c w k i m t = by_dry dry refl
    where
      by_write :
          (b : Bool)
          → dry ≡ false
          → c.failed ≤ 0
          → Kept before (
              if b
              then (record w { meta = some (tools.fingerprint new_key) }, written)
              else (w, meta_failed))
      by_write true d n = record { messages = k; files = i; says = λ _. (refl, m d, t d n) }
      by_write false d n = record { messages = k; files = i; says = λ e. absurd (cc e) }

      by_dry :
          (b : Bool)
          → dry ≡ b
          → Kept before (
              if b
              then (w, dry_finished)
              else if ltb 0 c.failed
              then (w, files_failed)
              else if luck.write_meta
              then (record w { meta = some (tools.fingerprint new_key) }, written)
              else (w, meta_failed))
      by_dry true d = record { messages = k; files = i; says = λ e. absurd (cc e) }
      by_dry false d = elim (Bool-cases (ltb 0 c.failed)) [
        | inl h ↦ rw h (record { messages = k; files = i; says = λ e. absurd (cc e) })
        | inr h ↦ rw h (by_write luck.write_meta d (ground (arith, h)))
      ]

  files_pass-Kept :
      (before : List Row) (w : World)
      → Keeps keys before w.messages
      → AllIntact fr contents w.folder
      → (dry ≡ false → Moved keys before w.messages)
      → Kept before (files_pass tools luck old_key new_key dry w)
  unfolding files_pass
  files_pass-Kept before w k i m = by_dir luck.read_dir
    where
      zeros : FileCounts
      zeros = record { rotated = 0; already = 0; plain = 0; failed = 0 }

      by_progress :
          (p : FileProgress)
          → AllIntact fr contents p.0
          → (dry ≡ false → p.2 ≡ true → p.1.failed ≤ 0 → AllTurned fr contents p.0)
          → Kept before (after_files tools luck old_key new_key dry p w)
      by_progress (d, c, true) h t =
          conclude-Kept before c (record w { folder = d }) k h m (λ e. t e refl)
      by_progress (d, c, false) h t = record { messages = k; files = h; says = λ e. absurd (cc e) }

      by_dir :
          (b : Bool)
          → Kept before (
              if b
              then after_files tools luck old_key new_key dry
                  (rotate_files fr luck.faults w.folder zeros)
                  w
              else (w, stopped))
      by_dir true =
          by_progress (rotate_files fr luck.faults w.folder zeros)
            (rotate_files-AllIntact fr luck.faults contents ok w.folder zeros i)
            (rotate_files-AllTurned fr luck.faults contents ok w.folder zeros i)
      by_dir false = record { messages = k; files = i; says = λ e. absurd (cc e) }

  secrets_pass-Kept :
      (before : List Row) (w : World)
      → Keeps keys before w.messages
      → AllIntact fr contents w.folder
      → (dry ≡ false → Moved keys before w.messages)
      → Kept before (secrets_pass tools luck old_key new_key dry w)
  unfolding secrets_pass
  secrets_pass-Kept before w k i m = by_progress (
      rotate_totp_secrets (rotation tools luck old_key new_key dry luck.secret_nonce)
        luck.update_secret luck.read_secrets w.secrets (no_counts tools luck old_key new_key dry))
    where
      by_progress :
          (p : SecretProgress) → Kept before (after_secrets tools luck old_key new_key dry p w)
      by_progress (t, c, true) = files_pass-Kept before (record w { secrets = t }) k i m
      by_progress (t, c, false) = record { messages = k; files = i; says = λ e. absurd (cc e) }

  messages_pass-Kept :
      (w : World)
      → Ascending 0 w.messages
      → AllIntact fr contents w.folder
      → Kept w.messages (messages_pass tools luck old_key new_key dry w)
  unfolding messages_pass rotate_messages
  messages_pass-Kept w a i =
      let (p, e, k, m) =
        rotate_pages-Keeps ro luck.update_message (suc (length w.messages)) w.messages zeros a
          (omega arith) in
      subst (λ o. Kept w.messages (after_messages tools luck old_key new_key dry o w)) (sym e)
        (by_progress p k (m unbroken))
    where
      zeros : Counts
      zeros = record { rotated = 0; already = 0; foreign = 0 }

      ro : Rotation
      ro = rotation tools luck old_key new_key dry luck.message_nonce

      by_progress :
          (p : Progress)
          → Keeps keys w.messages p.0
          → (dry ≡ false → p.2 ≡ true → Moved keys w.messages p.0)
          → Kept w.messages (after_messages tools luck old_key new_key dry (some p) w)
      by_progress (t, c, true) k m =
          secrets_pass-Kept w.messages (record w { messages = t }) k i (λ d. m d refl)
      by_progress (t, c, false) k m = record { messages = k; files = i; says = λ e. absurd (cc e) }

  with_keys-Kept :
      (consent : Bool) (w : World)
      → Ascending 0 w.messages
      → AllIntact fr contents w.folder
      → Kept w.messages (with_keys tools luck old_key new_key dry consent w)
  unfolding with_keys
  with_keys-Kept consent w a i =
      by_meta
        (luck.read_meta
          && not (speaks_for tools (tools.fingerprint old_key) (tools.fingerprint new_key) w.meta))
        (dry || consent)
    where
      as_before : (e : RunEnd) → e ≢ written → Kept w.messages (w, e)
      as_before e h = record {
        messages = Keeps-self keys w.messages;
        files = i;
        says = λ p. absurd (h p);
      }

      by_meta :
          (wrong go : Bool)
          → Kept w.messages (
              if wrong
              then (w, wrong_old_key)
              else if go
              then messages_pass tools luck old_key new_key dry w
              else (w, not_confirmed))
      by_meta true go = as_before wrong_old_key (λ e. cc e)
      by_meta false true = messages_pass-Kept w a i
      by_meta false false = as_before not_confirmed (λ e. cc e)

  pub run_rotate_enc_key-Kept :
      (env : Environment) (args : List String) (consent : Bool) (w : World)
      → read_args args (false, false) ≡ some (dry, consent)
      → rotate_load_keys tools env ≡ some (old_key, new_key)
      → Ascending 0 w.messages
      → AllIntact fr contents w.folder
      → Kept w.messages (run_rotate_enc_key tools luck env args w)
  unfolding run_rotate_enc_key
  run_rotate_enc_key-Kept env args consent w flags load a i =
      subst (λ o. Kept w.messages (flagged tools luck env o w)) (sym flags)
        (subst (λ o. Kept w.messages (loaded tools luck (dry, consent) o w)) (sym load)
          (with_keys-Kept consent w a i))

  both_keys_differ :
      (p q : Option (List ℕ))
      → both_keys tools p q ≡ some (old_key, new_key)
      → tools.fingerprint old_key ≢ tools.fingerprint new_key
  unfolding both_keys different
  both_keys_differ none q e = absurd (cc e)
  both_keys_differ (some a) none e = absurd (cc e)
  both_keys_differ (some a) (some b) e =
      by_test (tools.fingerprint a =s= tools.fingerprint b) refl e
    where
      by_test :
          (t : Bool)
          → (tools.fingerprint a =s= tools.fingerprint b) ≡ t
          → if◌then◌else◌ {A = Option (List ℕ × List ℕ)} t none (some (a, b))
            ≡ some (old_key, new_key)
          → tools.fingerprint old_key ≢ tools.fingerprint new_key
      by_test true h e' = absurd (cc e')
      by_test false h e' =
          subst (λ (k : List ℕ × List ℕ). tools.fingerprint k.0 ≢ tools.fingerprint k.1)
            (some-injective _ _ e')
            (λ same. ground (arith, eq_iff (tools.fingerprint a) (tools.fingerprint b), h, same))

  differ :
      (env : Environment)
      → rotate_load_keys tools env ≡ some (old_key, new_key)
      → tools.fingerprint old_key ≢ tools.fingerprint new_key
  unfolding rotate_load_keys
  differ env =
      both_keys_differ (parse_key tools env.server_enc_key) (parse_key tools env.server_enc_key_new)

  -- After a run that has written the new fingerprint, a server starts with the new key; and one
  -- that can read the row does not start with the old key, unless its fingerprint is acknowledged.
  -- The conditions on the run are as for what it keeps.
  pub check_enc_key_unchanged-run_rotate_enc_key :
      (env : Environment) (args : List String) (consent : Bool) (w : World) (up : MetaFaults)
      (ack : String)
      → read_args args (false, false) ≡ some (dry, consent)
      → rotate_load_keys tools env ≡ some (old_key, new_key)
      → Ascending 0 w.messages
      → AllIntact fr contents w.folder
      → (run_rotate_enc_key tools luck env args w).1 ≡ written
      → up.read ≡ true
      → tools.trim ack ≢ tools.fingerprint old_key
      → let left = (run_rotate_enc_key tools luck env args w).0.meta in
        (check_enc_key_unchanged tools.trim up false (tools.fingerprint new_key) ack left
          ≡ (true, left))
        × (check_enc_key_unchanged tools.trim up false (tools.fingerprint old_key) ack left
            ≡ (false, left))
  check_enc_key_unchanged-run_rotate_enc_key env args consent w up ack flags load a i e r n =
      let says = (run_rotate_enc_key-Kept env args consent w flags load a i).says e in
      let old_fp = tools.fingerprint old_key in
      let new_fp = tools.fingerprint new_key in
      subst
        (λ (left : Meta).
          (check_enc_key_unchanged tools.trim up false new_fp ack left ≡ (true, left))
          × (check_enc_key_unchanged tools.trim up false old_fp ack left ≡ (false, left)))
        (sym says.0)
        (
          check_enc_key_unchanged_same tools.trim up new_fp ack,
          check_enc_key_unchanged_other tools.trim up old_fp ack new_fp r
              (λ same. differ env load (sym same)) n,
        )
