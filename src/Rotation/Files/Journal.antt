-- ===== src/Rotation/Files/Journal.antt =====
-- Where the loop of `rotateFiles` (server/rotatekey.go) does not do what its comments say.
use mathlib.Core.Option.{some-injective}
use hexeris_beta.Base.{
  ℕ, ◌≡◌, ◌≢◌, ◌≤◌, refl, sym, ap, subst, ◌∙◌, none, some, true, false, List, ◌++◌, ltb, take, drop,
  take-append, drop-append, length, length-append, arith,
}
use hexeris_beta.Filecrypt.Stream.{Aes, xor_key_stream, xor_from, encrypt_stream}
use hexeris_beta.Filecrypt.Counter.{read_counter, value}
use hexeris_beta.Rotation.Files.Copy.{
  Holds, Holds-encrypted, renewed_bytes-Holds, xor_from-xor_from,
}
use hexeris_beta.Rotation.Files.{
  works, fails, FileOp, read_journal, remove_temp, read_head, open_source, create_temp, write_temp,
  sync_temp, close_temp, insert_journal, move_temp, stat_temp, finish_move, Faults, Slot,
  FileRotation, Outcome, file_already, file_rotated, has_fp, rotation_done, file_is_encrypted,
  renewed_bytes, write_out, with_iv, rotate_one_file, finish_with, finish_rotation, record_and_move,
  after_copy, start_rotation, redo, rotate_file,
}

module _ (fr : FileRotation) (f : Faults) where
  -- A run, dry or not, replaces a file with its `.rotating` neighbour, if the journal has an entry
  -- and the operations work.
  pub rotate_file_moves :
      (s : Slot) (t : List ℕ)
      → f.answer read_journal ≡ works
      → f.answer stat_temp ≡ works
      → f.answer finish_move ≡ works
      → has_fp fr.new_fp s.journal ≡ true
      → s.temp ≡ some t
      → rotate_file fr f s ≡ (record s { bytes = t; temp = none }, file_already)
  unfolding rotate_file rotation_done finish_rotation finish_with
  rotate_file_moves s t j m v e h = rw (j, e, m, h, v) refl

  -- What the run does when the query of the journal fails and all else works.
  rotate_file_as_before :
      (s : Slot) (iv : List ℕ)
      → fr.dry ≡ false
      → f.answer read_journal ≡ fails
      → ((op : FileOp) → op ≢ read_journal → f.answer op ≡ works)
      → f.iv ≡ some iv
      → file_is_encrypted s.bytes ≡ true
      → 20 ≤ length s.bytes
      → has_fp fr.new_fp s.journal ≡ true
      → rotate_file fr f s ≡ (
        record { bytes = renewed_bytes fr f iv s.bytes; temp = none; journal = s.journal },
        file_rotated,
      )
  unfolding rotate_file rotation_done redo start_rotation rotate_one_file with_iv write_out
      after_copy record_and_move
  rotate_file_as_before s iv dry j ok i enc l e =
      let long : ltb (length s.bytes) 20 ≡ false = ground (arith, l) in
      rw
        (
          j,
          ok remove_temp (λ p. cc p),
          ok read_head (λ p. cc p),
          enc,
          dry,
          ok open_source (λ p. cc p),
          long,
          i,
          ok create_temp (λ p. cc p),
          ok write_temp (λ p. cc p),
          ok sync_temp (λ p. cc p),
          ok close_temp (λ p. cc p),
          ok insert_journal (λ p. cc p),
          ok move_temp (λ p. cc p),
          e,
        )
        refl

-- A file that is encrypted has a header.
Holds-length :
    (aes : Aes) (key plain bytes : List ℕ) → Holds aes key plain bytes → 20 ≤ length bytes
unfolding encrypt_stream
Holds-length aes key plain bytes (iv, l, e) =
    subst (λ (bs : List ℕ). 20 ≤ length bs) (some-injective _ _ e)
      (omega (arith, l, length-append iv (xor_key_stream aes _ plain)))

-- The same bytes hold one content under a key.
Holds-unique :
    (aes : Aes) (key a b bytes : List ℕ) → Holds aes key a bytes → Holds aes key b bytes → a ≡ b
unfolding encrypt_stream xor_key_stream
Holds-unique aes key a b bytes (iv, l, e) (iv', l', e') =
    let body : List ℕ → List ℕ → List ℕ = λ n p. xor_from aes key (value (read_counter n)) 0 p in
    let same : iv ++ body iv a ≡ iv' ++ body iv' b =
      ap (drop 4) (some-injective _ _ (e ∙ sym e')) in
    let ivs : iv ≡ iv' =
      sym (take-append 16 iv (body iv a) l)
      ∙ ap (take 16) same
      ∙ take-append 16 iv' (body iv' b) l' in
    let bodies : body iv a ≡ body iv' b =
      sym (drop-append 16 iv (body iv a) l)
      ∙ ap (drop 16) same
      ∙ drop-append 16 iv' (body iv' b) l' in
    sym (xor_from-xor_from aes key (value (read_counter iv)) 0 a)
    ∙ ap (body iv) (bodies ∙ ap (λ n. body n b) (sym ivs))
    ∙ xor_from-xor_from aes key (value (read_counter iv)) 0 b

module _ (fr : FileRotation) (f : Faults) where
  -- A file with its entry in the journal, which holds its content under the new key, is rotated once
  -- more if the query of the journal fails and all else works, in a run that is not dry: its bytes are
  -- taken for old ones. Where the old key makes something else of them than the content, it is this
  -- that the file holds under the new key afterwards, and not the content.
  pub rotate_file_unread_journal :
      (s : Slot) (content garbled iv : List ℕ)
      → fr.dry ≡ false
      → f.answer read_journal ≡ fails
      → ((op : FileOp) → op ≢ read_journal → f.answer op ≡ works)
      → f.iv ≡ some iv
      → length iv ≡ 16
      → has_fp fr.new_fp s.journal ≡ true
      → Holds fr.aes fr.new_key content s.bytes
      → Holds fr.aes fr.old_key garbled s.bytes
      → garbled ≢ content
      → let (after, outcome) = rotate_file fr f s in
        (outcome ≡ file_rotated)
        × Holds fr.aes fr.new_key garbled after.bytes
        × (Holds fr.aes fr.new_key content after.bytes → ⊥)
  rotate_file_unread_journal s content garbled iv dry j ok i l entry new old other =
      let sixteen : (n : List ℕ) → f.iv ≡ some n → length n ≡ 16 =
        λ n e. subst (λ (m : List ℕ). length m ≡ 16) (some-injective _ _ (sym i ∙ e)) l in
      let enc = Holds-encrypted fr f garbled sixteen s.bytes old in
      let long = Holds-length fr.aes fr.new_key content s.bytes new in
      let run = rotate_file_as_before fr f s iv dry j ok i enc long entry in
      let renewed = renewed_bytes-Holds fr f garbled sixteen iv s.bytes l old in
      let bytes_after : (rotate_file fr f s).0.bytes ≡ renewed_bytes fr f iv s.bytes =
        ap (λ (r : Slot × Outcome). r.0.bytes) run in
      let holds : Holds fr.aes fr.new_key garbled (rotate_file fr f s).0.bytes =
        subst (Holds fr.aes fr.new_key garbled) (sym bytes_after) renewed in
      (
        ap (λ (r : Slot × Outcome). r.1) run,
        holds,
        λ h. other (Holds-unique fr.aes fr.new_key garbled content _ holds h),
      )
