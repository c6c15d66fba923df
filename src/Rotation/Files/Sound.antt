-- ===== src/Rotation/Files/Sound.antt =====
-- What a run of server/rotatekey.go makes of one encrypted file, wherever it fails or stops.
use hexeris_beta.Base.{
  ℕ, ◌≡◌, ◌≢◌, refl, sym, subst, String, none, some, Bool, true, false, Bool-cases, List, ◌∷◌,
  eq_iff, length, if◌then◌else◌, arith, inl, inr,
}
use hexeris_beta.Rotation.Files.Copy.{
  Holds, answered_cases, Old, Copied, Holds-encrypted, rotate_one_file-Copied,
}
use hexeris_beta.Rotation.Files.{
  Answer, works, fails, halts, read_journal, stat_temp, finish_move, remove_temp, read_head,
  remove_failed, insert_journal, move_temp, Faults, Slot, FileRotation, Outcome, file_rotated,
  file_already, file_plain, file_failed, ended, answered, has_fp, rotation_done, move, remove,
  file_is_encrypted, rotate_one_file, finish_with, finish_rotation, give_up, record_and_move,
  after_copy, start_rotation, redo, rotate_file,
}

module _ (fr : FileRotation) (plain : List ℕ) where
  -- Without an entry of the new key the file is under the old one, whatever the neighbour is; with
  -- an entry the neighbour is under the new key, and so is the file itself once it has been moved.
  pub data Sound (s : Slot) : Type 0 where
    not_yet : has_fp fr.new_fp s.journal ≡ false → Holds fr.aes fr.old_key plain s.bytes → Sound s
    to_move :
        (t : List ℕ)
        → has_fp fr.new_fp s.journal ≡ true
        → s.temp ≡ some t
        → Holds fr.aes fr.new_key plain t
        → Sound s
    moved :
        has_fp fr.new_fp s.journal ≡ true
        → s.temp ≡ none
        → Holds fr.aes fr.new_key plain s.bytes
        → Sound s

  -- The file is under the new key, with an entry and nothing left over.
  pub record Renewed (s : Slot) : Type 0 where
    pub entry : has_fp fr.new_fp s.journal ≡ true
    pub no_temp : s.temp ≡ none
    pub holds : Holds fr.aes fr.new_key plain s.bytes

  pub Renewed-Sound : (s : Slot) → Renewed s → Sound s
  Renewed-Sound s r = moved r.entry r.no_temp r.holds

  abbrev pub Ends : Slot × Outcome → Type 0
  Ends (s, file_rotated) = Sound s × (fr.dry ≡ false → Renewed s)
  Ends (s, file_already) = Renewed s
  Ends (s, file_plain) = ⊥
  Ends (s, file_failed) = Sound s
  Ends (s, ended) = Sound s

module _ (fr : FileRotation) (f : Faults) (plain : List ℕ)
    (iv_length : (iv : List ℕ) → f.iv ≡ some iv → length iv ≡ 16)
    (undone : f.answer insert_journal ≡ fails → f.committed ≡ false) where
  Old-Sound : (s : Slot) → Old fr plain s → Sound fr plain s
  Old-Sound s o = not_yet o.0 o.1

  give_up-Ends : (s : Slot) → Old fr plain s → Ends fr plain (give_up fr f s)
  unfolding give_up
  give_up-Ends s o =
      answered_cases (Ends fr plain) (f.answer remove_failed) _ _ _ (not_yet o.0 o.1)
        (λ e. Old-Sound s o) (Old-Sound s o)

  has_fp_known :
      (j : List String) → has_fp fr.new_fp (if has_fp fr.new_fp j then j else fr.new_fp ∷ j) ≡ true
  unfolding has_fp
  has_fp_known j = elim (Bool-cases (has_fp fr.new_fp j)) [
    | inl h ↦ rw (h, h) refl
    | inr h ↦ rw h (ground (arith, eq_iff fr.new_fp fr.new_fp))
  ]

  move-Renewed :
      (s : Slot) (t : List ℕ)
      → has_fp fr.new_fp s.journal ≡ true
      → s.temp ≡ some t
      → Holds fr.aes fr.new_key plain t
      → Renewed fr plain (move s)
  move-Renewed s t j e h =
      subst
        (λ o. Renewed fr plain (elim o [ none ↦ s | some u ↦ record s { bytes = u; temp = none } ]))
        (sym e) (record { entry = j; no_temp = refl; holds = h })

  either :
      (x y : Slot) (b : Bool)
      → Sound fr plain x
      → Sound fr plain y
      → Sound fr plain (if b then x else y)
  either x y true sx sy = sx
  either x y false sx sy = sy

  record_and_move-Ends :
      (s : Slot) (t : List ℕ)
      → Old fr plain s
      → s.temp ≡ some t
      → Holds fr.aes fr.new_key plain t
      → Ends fr plain (record_and_move fr f s)
  unfolding record_and_move
  record_and_move-Ends s t o e h =
      let known : Slot = record s {
        journal = if has_fp fr.new_fp s.journal then s.journal else fr.new_fp ∷ s.journal;
      } in
      answered_cases (Ends fr plain) (f.answer insert_journal) _ _ _
        (answered_cases (Ends fr plain) (f.answer move_temp) _ _ _
          (let r = move-Renewed known t (has_fp_known s.journal) e h in
            (Renewed-Sound fr plain (move known) r, λ d. r))
          (λ _. to_move t (has_fp_known s.journal) e h) (to_move t (has_fp_known s.journal) e h))
        (λ fails. rw (undone fails) (give_up-Ends s o))
        (either known s f.committed (to_move t (has_fp_known s.journal) e h) (Old-Sound s o))

  after_copy-Ends : (p : Slot × Answer) → Copied fr plain p → Ends fr plain (after_copy fr f p)
  unfolding after_copy
  after_copy-Ends (s, works) c = record_and_move-Ends s c.1 c.0 c.2 c.3
  after_copy-Ends (s, fails) c = give_up-Ends s c
  after_copy-Ends (s, halts) c = Old-Sound s c

  start_rotation-Ends : (s : Slot) → Old fr plain s → Ends fr plain (start_rotation fr f s)
  unfolding start_rotation
  start_rotation-Ends s o =
      answered_cases (Ends fr plain) (f.answer read_head) _ _ _
        (by_head (file_is_encrypted s.bytes) (Holds-encrypted fr f plain iv_length s.bytes o.1))
        (λ _. Old-Sound s o) (Old-Sound s o)
    where
      by_dry :
          (d : Bool)
          → fr.dry ≡ d
          → Ends fr plain
              (if d then (s, file_rotated) else after_copy fr f (rotate_one_file fr f s))
      by_dry true e = (Old-Sound s o, λ d. absurd (cc (e, d)))
      by_dry false e =
          after_copy-Ends (rotate_one_file fr f s) (rotate_one_file-Copied fr f plain iv_length s o)

      by_head :
          (b : Bool)
          → b ≡ true
          → Ends fr plain (
              if b
              then if fr.dry then (s, file_rotated) else after_copy fr f (rotate_one_file fr f s)
              else (s, file_plain))
      by_head true h = by_dry fr.dry refl
      by_head false h = absurd (cc h)

  redo-Ends : (s : Slot) → Old fr plain s → Ends fr plain (redo fr f s)
  unfolding redo
  redo-Ends s o =
      answered_cases (Ends fr plain) (f.answer remove_temp) _ _ _ (start_rotation-Ends (remove s) o)
        (λ _. start_rotation-Ends s o) (Old-Sound s o)

  finish_with-Ends :
      (s : Slot)
      → has_fp fr.new_fp s.journal ≡ true
      → Sound fr plain s
      → Ends fr plain (finish_with fr f s.temp s)
  unfolding finish_with
  finish_with-Ends s j (not_yet j' h) = absurd (cc (j, j'))
  finish_with-Ends s j (to_move t _ e h) =
      subst (λ o. Ends fr plain (finish_with fr f o s)) (sym e)
        (answered_cases (Ends fr plain) (f.answer finish_move) _ _ _ (move-Renewed s t j e h)
          (λ _. to_move t j e h) (to_move t j e h))
  finish_with-Ends s j (moved _ e h) =
      subst (λ o. Ends fr plain (finish_with fr f o s)) (sym e)
        (record { entry = j; no_temp = e; holds = h })

  finish_rotation-Ends :
      (s : Slot)
      → f.answer stat_temp ≢ fails
      → has_fp fr.new_fp s.journal ≡ true
      → Sound fr plain s
      → Ends fr plain (finish_rotation fr f s)
  unfolding finish_rotation
  finish_rotation-Ends s ok j sound =
      answered_cases (Ends fr plain) (f.answer stat_temp) _ _ _ (finish_with-Ends s j sound)
        (λ e. absurd (ok e)) sound

  Sound-Old : (s : Slot) → has_fp fr.new_fp s.journal ≡ false → Sound fr plain s → Old fr plain s
  Sound-Old s j (not_yet _ h) = (j, h)
  Sound-Old s j (to_move t j' e h) = absurd (cc (j, j'))
  Sound-Old s j (moved j' e h) = absurd (cc (j, j'))

  -- Whatever works, fails or ends the process on the way, save that a failed query of the journal
  -- or a failed look for the `.rotating` neighbour is taken for its absence, the content of an
  -- encrypted file is kept: it is under the old key without an entry, or under the new key, in the
  -- file or in its neighbour, with one. It is under the new key in the file where the outcome is
  -- that it was done earlier, or is re-encrypted in a run that is not dry; and it is never taken
  -- for an unencrypted file. The random source returns 16 bytes, and an INSERT into the journal that
  -- reports an error has not been committed; whether it has where the process ends in it is open.
  pub rotate_file-Ends :
      (s : Slot)
      → f.answer read_journal ≢ fails
      → f.answer stat_temp ≢ fails
      → Sound fr plain s
      → Ends fr plain (rotate_file fr f s)
  unfolding rotate_file rotation_done
  rotate_file-Ends s journal stat sound = by_journal (f.answer read_journal) journal
    where
      by_entry :
          (b : Bool)
          → has_fp fr.new_fp s.journal ≡ b
          → Ends fr plain (if b then finish_rotation fr f s else redo fr f s)
      by_entry true e = finish_rotation-Ends s stat e sound
      by_entry false e = redo-Ends s (Sound-Old s e sound)

      by_journal :
          (a : Answer)
          → a ≢ fails
          → Ends fr plain (
              let todo =
                if rotation_done a fr.new_fp s then finish_rotation fr f s else redo fr f s in
              answered a todo todo (s, ended))
      by_journal works h = by_entry (has_fp fr.new_fp s.journal) refl
      by_journal fails h = absurd (h refl)
      by_journal halts h = sound
