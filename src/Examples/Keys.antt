-- ===== src/Examples/Keys.antt =====
-- server/rotatekey.go and server/enckeyguard.go on two messages and two files, with toy ciphers in
-- place of AES.
use mathlib.Core.Option.{some-injective}
use Prim.Native.Char.{Char, code}
use Prim.Native.String.{◌∷◌ as ◌∷s◌}
use hexeris_beta.Base.{
  ℕ, zero, suc, ◌+◌, ◌%◌, ◌≡◌, ◌≢◌, refl, sym, ap, String, Option, none, some, true, false, List,
  [], ◌∷◌, ◌==◌, ◌=s=◌, arith, length, if◌then◌else◌,
}
use hexeris_beta.Filecrypt.Stream.{Aes, file_magic, xor_key_stream, encrypt_stream}
use hexeris_beta.Examples.Files.{swap, swap-swap}
use hexeris_beta.Rotation.Rows.{
  Gcm, Keys, Rotation, Row, Counts, whole, broken_off, rotate_pages, rotate_messages,
}
use hexeris_beta.Rotation.Rows.Walk.{walk}
use hexeris_beta.Rotation.Rows.Paging.{rotate_pages_lem}
use hexeris_beta.Rotation.Rows.Reading.{Moved}
use hexeris_beta.Rotation.Rows.Restart.{Attempt, attempt, after_attempts, after_attempts-attempt}
use hexeris_beta.Rotation.Files.{
  works, fails, halts, FileOp, Answer, read_journal, stat_temp, finish_move, remove_temp, read_head,
  open_source, create_temp, write_temp, sync_temp, close_temp, remove_failed, insert_journal,
  move_temp, Faults, Slot, FileRotation, file_rotated, has_fp, file_is_encrypted, rotate_file,
}
use hexeris_beta.Rotation.Files.Sound.{not_yet, Ends, rotate_file-Ends}
use hexeris_beta.Rotation.Files.Copy.{Holds}
use hexeris_beta.Rotation.Files.Journal.{rotate_file_unread_journal}
use hexeris_beta.Rotation.Files.Directory.{Content, encrypted, legacy, AllIntact, Legible}
use hexeris_beta.Rotation.Secrets.{rotate_totp_secrets}
use hexeris_beta.Rotation.Guard.{MetaFaults, check_enc_key_unchanged}
use hexeris_beta.Rotation.Command.{
  Tools, Environment, World, Luck, written, file_rotation, read_args, rotate_load_keys,
  run_rotate_enc_key,
}
use hexeris_beta.Rotation.Command.Laws.{check_enc_key_unchanged-run_rotate_enc_key}

abbrev rep : ℕ → ℕ → List ℕ
rep zero n = []
rep (suc k) n = n ∷ rep k n

abbrev old_key : List ℕ
old_key = rep 32 0

abbrev new_key : List ℕ
new_key = rep 32 1

-- A sealed text has the mark of its key in front.
abbrev mark : List ℕ → Char
mark [] = "o"
mark (zero ∷ ks) = "o"
mark (suc k ∷ ks) = "n"

abbrev open_with : List ℕ → String → Option String
open_with key String.[] = none
open_with key (String.◌∷◌ c s) = if code c == code (mark key) then some s else none

open_with-mark :
    (key nonce : List ℕ) (plain : String) → open_with key (mark key ∷s plain) ≡ some plain
open_with-mark [] nonce plain = refl
open_with-mark (zero ∷ ks) nonce plain = refl
open_with-mark (suc k ∷ ks) nonce plain = refl

abbrev toy_gcm : Gcm
toy_gcm = record {
  seal = λ key nonce plain. mark key ∷s plain;
  unseal = open_with;
  unseal_seal = open_with-mark;
}

abbrev toy_pad : List ℕ → ℕ → ℕ → ℕ
toy_pad [] block i = (block + i) % 2
toy_pad (k ∷ ks) block i = (k + block + i) % 2

abbrev toy_aes : Aes
toy_aes = record { pad = toy_pad; xor = swap; xor_xor = swap-swap }

abbrev toy_fingerprint : List ℕ → String
toy_fingerprint [] = "none"
toy_fingerprint (zero ∷ ks) = "old"
toy_fingerprint (suc k ∷ ks) = "new"

abbrev tools : Tools
tools = record {
  aes = toy_aes;
  gcm = toy_gcm;
  fingerprint = toy_fingerprint;
  decode_base64 = λ s. if s =s= "A" then some old_key else some new_key;
  trim = λ s. s;
}

abbrev env : Environment
env = record { server_enc_key = "A"; server_enc_key_new = "B" }

abbrev all_work : FileOp → Answer
all_work op = works

abbrev iv : List ℕ
iv = rep 16 5

abbrev calm : Faults
calm = record { answer = all_work; cut = 0; iv = some iv; committed = false }

abbrev luck : Luck
luck = record {
  read_meta = true;
  write_meta = true;
  read_messages = λ cursor. whole;
  update_message = λ seq. true;
  read_secrets = true;
  update_secret = λ user. true;
  read_dir = true;
  faults = λ name. calm;
  message_nonce = λ item. some [];
  secret_nonce = λ item. some [];
}

abbrev messages : List Row
messages = record { seq = 3; body = "ohi" } ∷ record { seq = 7; body = "plain" } ∷ []

abbrev plain : List ℕ
plain = 1 ∷ 0 ∷ 7 ∷ []

abbrev old_file : List ℕ
old_file =
    72 ∷ 88 ∷ 69 ∷ 49 ∷ 0 ∷ 0 ∷ 0 ∷ 0 ∷ 0 ∷ 0 ∷ 0 ∷ 0 ∷ 0 ∷ 0 ∷ 0 ∷ 0 ∷ 0 ∷ 0 ∷ 0 ∷ 0 ∷ 1 ∷ 1 ∷ 7
    ∷ []

abbrev old_slot : Slot
old_slot = record { bytes = old_file; temp = some (9 ∷ []); journal = [] }

abbrev world : World
world = record {
  messages = messages;
  secrets = ("ann", some "osecret") ∷ ("bob", none) ∷ [];
  folder = ("a", old_slot) ∷ ("b", record { bytes = 1 ∷ 2 ∷ []; temp = none; journal = [] }) ∷ [];
  meta = some "old";
}

abbrev contents : String → Content
contents name = if name =s= "a" then encrypted plain else legacy (1 ∷ 2 ∷ [])

iv_sixteen : (n : List ℕ) → some iv ≡ some n → length n ≡ 16
iv_sixteen n e = ap length (sym (some-injective _ _ e))

calm_Legible : (name : String) → Legible (luck.faults name)
calm_Legible name = record {
  journal = λ p. cc p;
  stat = λ p. cc p;
  iv = iv_sixteen;
  undone = λ p. refl;
}

unbroken : (cursor n : ℕ) → luck.read_messages cursor ≢ broken_off n
unbroken cursor n e = cc e

abbrev fr : FileRotation
fr = file_rotation tools luck old_key new_key false

intact : AllIntact fr contents world.folder
unfolding has_fp file_is_encrypted encrypt_stream xor_key_stream
    hexeris_beta.Filecrypt.Counter.read_counter hexeris_beta.Filecrypt.Stream.xor_from
intact = (not_yet refl (rep 16 0, refl, refl), ((refl, refl, refl), tt))

written_run : (run_rotate_enc_key tools luck env ("--yes" ∷ []) world).1 ≡ written
unfolding run_rotate_enc_key rotate_messages rotate_totp_secrets
written_run = refl

loads : rotate_load_keys tools env ≡ some (old_key, new_key)
unfolding rotate_load_keys
loads = refl

confirmed : read_args ("--yes" ∷ []) (false, false) ≡ some (false, true)
unfolding read_args
confirmed = refl

check_enc_key_unchanged-run_rotate_enc_key_example :
    let up : MetaFaults = record { read = true; insert = true; update = true } in
    let left = (run_rotate_enc_key tools luck env ("--yes" ∷ []) world).0.meta in
    (check_enc_key_unchanged tools.trim up false "new" "" left ≡ (true, left))
    × (check_enc_key_unchanged tools.trim up false "old" "" left ≡ (false, left))
check_enc_key_unchanged-run_rotate_enc_key_example =
    check_enc_key_unchanged-run_rotate_enc_key tools luck old_key new_key false contents
      calm_Legible unbroken env ("--yes" ∷ []) true world
      (record { read = true; insert = true; update = true }) "" confirmed loads
      (omega arith, (omega arith, tt)) intact written_run refl (λ p. cc p)

-- The process ends in the rename.
abbrev cut_off : FileOp → Answer
cut_off move_temp = halts
cut_off op = works

abbrev crash : Faults
crash = record { answer = cut_off; cut = 0; iv = some iv; committed = false }

rotate_file-Ends_example : Ends fr plain (rotate_file fr crash old_slot)
rotate_file-Ends_example =
    rotate_file-Ends fr crash plain iv_sixteen (λ p. refl) old_slot (λ p. cc p) (λ p. cc p) intact.0

abbrev keys : Keys
keys = record { gcm = toy_gcm; old_key = old_key; new_key = new_key }

-- The update of the second row fails in the first attempt.
abbrev failing : Attempt
failing = record {
  dry = false;
  nonce = λ item. some [];
  reads = λ cursor. whole;
  up = λ seq. seq == 3;
}

abbrev complete : Attempt
complete = record {
  dry = false;
  nonce = λ item. some [];
  reads = λ cursor. whole;
  up = λ seq. true;
}

after_attempts-attempt_example :
    (t' : List Row) × (c : Counts) × (attempt keys complete
        (after_attempts keys (failing ∷ []) messages)
      ≡ some (t', c, true))
    × Moved keys messages t'
after_attempts-attempt_example =
    after_attempts-attempt keys (failing ∷ []) complete messages (omega arith, (omega arith, tt))
      refl (λ cursor. refl) (λ seq. refl) (λ item. ([], refl))

abbrev rotation : Rotation
rotation = record { keys = keys; dry = false; nonce = λ item. some []; reads = λ cursor. whole }

abbrev zeros : Counts
zeros = record { rotated = 0; already = 0; foreign = 0 }

rotate_pages_lem_example :
    rotate_pages rotation (λ seq. true) 3 0 messages zeros
    ≡ some (walk rotation (λ seq. true) messages zeros)
rotate_pages_lem_example =
    rotate_pages_lem rotation (λ seq. true) (λ cursor. refl) 3 messages zeros
      (omega arith, (omega arith, tt)) (omega arith)

abbrev deaf : FileOp → Answer
deaf read_journal = fails
deaf op = works

deaf_works : (op : FileOp) → op ≢ read_journal → deaf op ≡ works
deaf_works read_journal h = absurd (h refl)
deaf_works stat_temp h = refl
deaf_works finish_move h = refl
deaf_works remove_temp h = refl
deaf_works read_head h = refl
deaf_works open_source h = refl
deaf_works create_temp h = refl
deaf_works write_temp h = refl
deaf_works sync_temp h = refl
deaf_works close_temp h = refl
deaf_works remove_failed h = refl
deaf_works insert_journal h = refl
deaf_works move_temp h = refl

abbrev unread : Faults
unread = record { answer = deaf; cut = 0; iv = some iv; committed = false }

-- The file `old_file` under the new key, and what the old key makes of it.
abbrev new_file : List ℕ
new_file =
    72 ∷ 88 ∷ 69 ∷ 49 ∷ 0 ∷ 0 ∷ 0 ∷ 0 ∷ 0 ∷ 0 ∷ 0 ∷ 0 ∷ 0 ∷ 0 ∷ 0 ∷ 0 ∷ 0 ∷ 0 ∷ 0 ∷ 0 ∷ 0 ∷ 0 ∷ 7
    ∷ []

abbrev garbled : List ℕ
garbled = 0 ∷ 1 ∷ 7 ∷ []

abbrev finished : Slot
finished = record { bytes = new_file; temp = none; journal = "new" ∷ [] }

rotate_file_unread_journal_example :
    ((rotate_file fr unread finished).1 ≡ file_rotated)
    × Holds fr.aes fr.new_key garbled (rotate_file fr unread finished).0.bytes
    × (Holds fr.aes fr.new_key plain (rotate_file fr unread finished).0.bytes → ⊥)
unfolding has_fp encrypt_stream xor_key_stream hexeris_beta.Filecrypt.Counter.read_counter
    hexeris_beta.Filecrypt.Stream.xor_from
rotate_file_unread_journal_example =
    rotate_file_unread_journal fr unread finished plain garbled iv refl refl deaf_works refl refl
      refl (rep 16 0, refl, refl) (rep 16 0, refl, refl) (λ e. cc e)
