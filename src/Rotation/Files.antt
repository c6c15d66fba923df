-- ===== src/Rotation/Files.antt =====
-- Uploaded files under a new key (server/rotatekey.go): the file, its `.rotating` neighbour and the
-- journal. Each operation on the disk or the database works, fails with an error, or is the one in
-- which the process ends; one that fails has changed nothing but a file it was writing, save that an
-- INSERT into the journal can have been committed all the same.
pub mod Copy
pub mod Sound
pub mod Journal
pub mod Directory
use hexeris_beta.Base.{
  ℕ, zero, suc, ◌+◌, String, Option, none, some, Bool, true, false, List, [], ◌∷◌, ◌++◌, ltb, ◌=s=◌,
  ◌||◌, length, take, drop, if◌then◌else◌,
}
use hexeris_beta.Filecrypt.Stream.{
  Aes, Stream, file_magic, file_header_size, xor_key_stream, encrypt_stream,
}
use hexeris_beta.Filecrypt.Counter.{read_counter, value}
use hexeris_beta.Filecrypt.Serve.{has_prefix}

pub data Answer : Type 0 where
  works fails halts : Answer

pub data FileOp : Type 0 where
  read_journal stat_temp finish_move remove_temp read_head open_source create_temp write_temp :
      FileOp
  sync_temp close_temp remove_failed insert_journal move_temp : FileOp

-- What the system answers for one file: `cut` is how much of a temporary file is on the disk when
-- its writing has stopped, `iv` what the random source returns, and `committed` whether the INSERT into
-- the journal has been committed where it reports an error or the process ends in it.
pub record Faults : Type 0 where
  pub answer : FileOp → Answer
  pub cut : ℕ
  pub iv : Option (List ℕ)
  pub committed : Bool

-- A name of the upload directory: the file, its `.rotating` neighbour, and the fingerprints under
-- which `enc_rotation` has it.
pub record Slot : Type 0 where
  pub bytes : List ℕ
  pub temp : Option (List ℕ)
  pub journal : List String

pub record FileRotation : Type 0 where
  pub aes : Aes
  pub old_key : List ℕ
  pub new_key : List ℕ
  pub new_fp : String
  pub dry : Bool

pub data Outcome : Type 0 where
  file_rotated file_already file_plain file_failed ended : Outcome

abbrev pub answered {ℓ} : {A : Type ℓ} → Answer → A → A → A → A
answered works a b c = a
answered fails a b c = b
answered halts a b c = c

unfoldable pub has_fp : String → List String → Bool
has_fp fp [] = false
has_fp fp (entry ∷ entries) = entry =s= fp || has_fp fp entries

-- Like the code, a query that fails is taken for a missing entry.
unfoldable pub rotation_done : Answer → String → Slot → Bool
unfolding has_fp
rotation_done works fp s = has_fp fp s.journal
rotation_done fails fp s = false
rotation_done halts fp s = false

-- `os.Rename(tmp, path)`
abbrev pub move : Slot → Slot
move s = elim s.temp [ none ↦ s | some t ↦ record s { bytes = t; temp = none } ]

abbrev pub remove : Slot → Slot
remove s = record s { temp = none }

-- Too short a file is not one of ours.
unfoldable pub file_is_encrypted : List ℕ → Bool
unfolding has_prefix
file_is_encrypted bytes = has_prefix bytes file_magic

module _ (fr : FileRotation) (f : Faults) where
  -- The bytes under the new key, behind a new IV.
  unfoldable pub renewed_bytes : List ℕ → List ℕ → List ℕ
  unfolding xor_key_stream
  renewed_bytes iv bytes =
      let old_iv = take 16 (drop 4 bytes) in
      let old_stream : Stream = record {
        key = fr.old_key;
        block = value (read_counter old_iv);
        spent = 0;
      } in
      let new_stream : Stream = record {
        key = fr.new_key;
        block = value (read_counter iv);
        spent = 0;
      } in
      file_magic
      ++ (iv
          ++ xor_key_stream fr.aes new_stream
              (xor_key_stream fr.aes old_stream (drop file_header_size bytes)))

  abbrev pub partly : List ℕ → Slot → Slot
  partly full s = record s { temp = some (take f.cut full) }

  -- From the creation of the temporary file to its closing.
  unfoldable pub write_out : List ℕ → Slot → Slot × Answer
  write_out full s =
      answered (f.answer create_temp)
        (answered (f.answer write_temp)
          (answered (f.answer sync_temp) (record s { temp = some full }, f.answer close_temp)
            (record s { temp = some full }, fails) (partly full s, halts))
          (partly full s, fails) (partly full s, halts))
        (s, fails) (s, halts)

  unfoldable pub with_iv : Option (List ℕ) → Slot → Slot × Answer
  unfolding write_out renewed_bytes
  with_iv none s = (s, fails)
  with_iv (some iv) s = write_out (renewed_bytes iv s.bytes) s

  unfoldable pub rotate_one_file : Slot → Slot × Answer
  unfolding with_iv
  rotate_one_file s =
      answered (f.answer open_source)
        (if ltb (length s.bytes) file_header_size then (s, fails) else with_iv f.iv s) (s, fails)
        (s, halts)

  -- A journal entry is there: only the move can be missing.
  unfoldable pub finish_with : Option (List ℕ) → Slot → Slot × Outcome
  finish_with none s = (s, file_already)
  finish_with (some t) s =
      answered (f.answer finish_move) (move s, file_already) (s, file_failed) (s, ended)

  unfoldable pub finish_rotation : Slot → Slot × Outcome
  unfolding finish_with
  finish_rotation s =
      answered (f.answer stat_temp) (finish_with s.temp s) (s, file_already) (s, ended)

  -- `os.Remove(tmp)` behind an error, whose own error is ignored.
  unfoldable pub give_up : Slot → Slot × Outcome
  give_up s = answered (f.answer remove_failed) (remove s, file_failed) (s, file_failed) (s, ended)

  -- The entry before the rename.
  unfoldable pub record_and_move : Slot → Slot × Outcome
  unfolding give_up has_fp
  record_and_move s =
      let known = record s {
        journal = if has_fp fr.new_fp s.journal then s.journal else fr.new_fp ∷ s.journal;
      } in
      answered (f.answer insert_journal)
        (answered (f.answer move_temp) (move known, file_rotated) (known, file_failed)
          (known, ended))
        (give_up (if f.committed then known else s)) (if f.committed then known else s, ended)

  unfoldable pub after_copy : Slot × Answer → Slot × Outcome
  unfolding record_and_move give_up
  after_copy (s, works) = record_and_move s
  after_copy (s, fails) = give_up s
  after_copy (s, halts) = (s, ended)

  unfoldable pub start_rotation : Slot → Slot × Outcome
  unfolding rotate_one_file after_copy file_is_encrypted
  start_rotation s =
      answered (f.answer read_head)
        (if file_is_encrypted s.bytes
          then if fr.dry then (s, file_rotated) else after_copy (rotate_one_file s)
          else (s, file_plain))
        (s, file_failed) (s, ended)

  -- No entry: what stands in `.rotating` is the rest of a run that was interrupted.
  unfoldable pub redo : Slot → Slot × Outcome
  unfolding start_rotation
  redo s = answered (f.answer remove_temp) (start_rotation (remove s)) (start_rotation s) (s, ended)

  -- The body of the loop in `rotateFiles`.
  unfoldable pub rotate_file : Slot → Slot × Outcome
  unfolding rotation_done finish_rotation redo
  rotate_file s =
      let todo =
        if rotation_done (f.answer read_journal) fr.new_fp s then finish_rotation s else redo s in
      answered (f.answer read_journal) todo todo (s, ended)

pub record FileCounts : Type 0 where
  pub rotated : ℕ
  pub already : ℕ
  pub plain : ℕ
  pub failed : ℕ

unfoldable pub tally : Outcome → FileCounts → FileCounts
tally file_rotated c = record c { rotated = c.rotated + 1 }
tally file_already c = record c { already = c.already + 1 }
tally file_plain c = record c { plain = c.plain + 1 }
tally file_failed c = record c { failed = c.failed + 1 }
tally ended c = c

-- The names that `os.ReadDir` lists, less the directories and the `.rotating` neighbours; the
-- counters, and whether the process goes on.
abbrev pub Folder : Type 0
Folder = List (String × Slot)

abbrev pub FileProgress : Type 0
FileProgress = Folder × FileCounts × Bool

abbrev pub keep_first : String × Slot → FileProgress → FileProgress
keep_first entry (d, c, alive) = (entry ∷ d, c, alive)

abbrev pub next_file :
    String → Slot × Outcome → Folder → FileCounts → (FileCounts → FileProgress) → FileProgress
next_file name (s, ended) rest c later = ((name, s) ∷ rest, c, false)
next_file name (s, file_rotated) rest c later = keep_first (name, s) (later (tally file_rotated c))
next_file name (s, file_already) rest c later = keep_first (name, s) (later (tally file_already c))
next_file name (s, file_plain) rest c later = keep_first (name, s) (later (tally file_plain c))
next_file name (s, file_failed) rest c later = keep_first (name, s) (later (tally file_failed c))

unfoldable pub rotate_files : FileRotation → (String → Faults) → Folder → FileCounts → FileProgress
unfolding rotate_file tally
rotate_files fr faults [] c = ([], c, true)
rotate_files fr faults ((name, s) ∷ rest) c =
    next_file name (rotate_file fr (faults name) s) rest c (rotate_files fr faults rest)
