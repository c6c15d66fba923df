-- ===== src/Rotation/Files/Directory.antt =====
-- `rotateFiles` of server/rotatekey.go over a whole upload directory.
use hexeris_beta.Base.{
  ℕ, ◌≤◌, ◌≡◌, ◌≢◌, refl, sym, subst, String, some, Bool, true, false, List, [], ◌∷◌, length,
  if◌then◌else◌, arith,
}
use hexeris_beta.Rotation.Files.{
  insert_journal, works, fails, halts, read_journal, stat_temp, remove_temp, read_head, Faults,
  Slot, FileRotation, Answer, Outcome, file_rotated, file_already, file_plain, file_failed, ended,
  answered, has_fp, rotation_done, finish_rotation, after_copy, rotate_one_file, remove,
  file_is_encrypted, start_rotation, redo, rotate_file, FileCounts, tally, Folder, next_file,
  rotate_files,
}
use hexeris_beta.Rotation.Files.Copy.{answered_cases}
use hexeris_beta.Rotation.Files.Sound.{Sound, Renewed, Renewed-Sound, Ends, rotate_file-Ends}

-- What a file is to its users: a content that is stored encrypted, or bytes from the time before
-- encryption.
pub data Content : Type 0 where
  encrypted legacy : List ℕ → Content

module _ (fr : FileRotation) where
  abbrev pub Intact : Content → Slot → Type 0
  Intact (encrypted plain) s = Sound fr plain s
  Intact (legacy bytes) s =
      (s.bytes ≡ bytes) × (file_is_encrypted bytes ≡ false) × (has_fp fr.new_fp s.journal ≡ false)

  abbrev pub Turned : Content → Slot → Type 0
  Turned (encrypted plain) s = Renewed fr plain s
  Turned (legacy bytes) s = s.bytes ≡ bytes

  abbrev Closes : Content → Slot × Outcome → Type 0
  Closes content (s, file_rotated) = Intact content s × (fr.dry ≡ false → Turned content s)
  Closes content (s, file_already) = Intact content s × (fr.dry ≡ false → Turned content s)
  Closes content (s, file_plain) = Intact content s × (fr.dry ≡ false → Turned content s)
  Closes content (s, file_failed) = Intact content s
  Closes content (s, ended) = Intact content s

  abbrev pub AllIntact : (String → Content) → Folder → Type 0
  AllIntact contents [] = Unit {0}
  AllIntact contents ((name, s) ∷ rest) = Intact (contents name) s × AllIntact contents rest

  abbrev pub AllTurned : (String → Content) → Folder → Type 0
  AllTurned contents [] = Unit {0}
  AllTurned contents ((name, s) ∷ rest) = Turned (contents name) s × AllTurned contents rest

-- The two queries whose failure the code takes for an answer do not fail, the random source returns
-- 16 bytes, and an INSERT into the journal that reports an error has not been committed.
pub record Legible (f : Faults) : Type 0 where
  pub journal : f.answer read_journal ≢ fails
  pub stat : f.answer stat_temp ≢ fails
  pub iv : (n : List ℕ) → f.iv ≡ some n → length n ≡ 16
  pub undone : f.answer insert_journal ≡ fails → f.committed ≡ false

module _ (fr : FileRotation) (f : Faults) where
  Ends-Closes :
      (plain : List ℕ) (p : Slot × Outcome) → Ends fr plain p → Closes fr (encrypted plain) p
  Ends-Closes plain (s, file_rotated) e = e
  Ends-Closes plain (s, file_already) e = (Renewed-Sound fr plain s e, λ _. e)
  Ends-Closes plain (s, file_plain) e = absurd e
  Ends-Closes plain (s, file_failed) e = e
  Ends-Closes plain (s, ended) e = e

  start_rotation-Closes :
      (bytes : List ℕ) (s : Slot)
      → Intact fr (legacy bytes) s
      → Closes fr (legacy bytes) (start_rotation fr f s)
  unfolding start_rotation
  start_rotation-Closes bytes s i =
      answered_cases (Closes fr (legacy bytes)) (f.answer read_head) _ _ _
        (by_head (file_is_encrypted s.bytes)
          (subst (λ b. file_is_encrypted b ≡ false) (sym i.0) i.1))
        (λ _. i) i
    where
      by_head :
          (b : Bool)
          → b ≡ false
          → Closes fr (legacy bytes) (
              if b
              then if fr.dry then (s, file_rotated) else after_copy fr f (rotate_one_file fr f s)
              else (s, file_plain))
      by_head true h = absurd (cc h)
      by_head false h = (i, λ _. i.0)

  redo-Closes :
      (bytes : List ℕ) (s : Slot)
      → Intact fr (legacy bytes) s
      → Closes fr (legacy bytes) (redo fr f s)
  unfolding redo
  redo-Closes bytes s i =
      answered_cases (Closes fr (legacy bytes)) (f.answer remove_temp) _ _ _
        (start_rotation-Closes bytes (remove s) i) (λ _. start_rotation-Closes bytes s i) i

  rotate_file-legacy :
      (bytes : List ℕ) (s : Slot)
      → f.answer read_journal ≢ fails
      → Intact fr (legacy bytes) s
      → Closes fr (legacy bytes) (rotate_file fr f s)
  unfolding rotate_file rotation_done
  rotate_file-legacy bytes s ok i = by_journal (f.answer read_journal) ok
    where
      by_entry :
          (b : Bool)
          → b ≡ false
          → Closes fr (legacy bytes) (if b then finish_rotation fr f s else redo fr f s)
      by_entry true e = absurd (cc e)
      by_entry false e = redo-Closes bytes s i

      by_journal :
          (a : Answer)
          → a ≢ fails
          → Closes fr (legacy bytes) (
              let todo =
                if rotation_done a fr.new_fp s then finish_rotation fr f s else redo fr f s in
              answered a todo todo (s, ended))
      by_journal works h = by_entry (has_fp fr.new_fp s.journal) i.2
      by_journal fails h = absurd (h refl)
      by_journal halts h = i

  rotate_file-Closes :
      (content : Content) (s : Slot)
      → Legible f
      → Intact fr content s
      → Closes fr content (rotate_file fr f s)
  rotate_file-Closes (encrypted plain) s ok i =
      Ends-Closes plain (rotate_file fr f s)
        (rotate_file-Ends fr f plain ok.iv ok.undone s ok.journal ok.stat i)
  rotate_file-Closes (legacy bytes) s ok i = rotate_file-legacy bytes s ok.journal i

module _ (fr : FileRotation) (faults : String → Faults) (contents : String → Content)
    (ok : (name : String) → Legible (faults name)) where
  -- Whatever works, fails or ends the process at any file, each encrypted file keeps its content
  -- and each legacy one its bytes: the two queries whose failure passes for an answer do not fail.
  pub rotate_files-AllIntact :
      (d : Folder) (c : FileCounts)
      → AllIntact fr contents d
      → AllIntact fr contents (rotate_files fr faults d c).0
  unfolding rotate_files
  rotate_files-AllIntact [] c i = tt
  rotate_files-AllIntact ((name, s) ∷ rest) c i =
      by_outcome (rotate_file fr (faults name) s)
        (rotate_file-Closes fr (faults name) (contents name) s (ok name) i.0)
        (λ c'. rotate_files-AllIntact rest c' i.1)
    where
      by_outcome :
          (p : Slot × Outcome)
          → Closes fr (contents name) p
          → ((c' : FileCounts) → AllIntact fr contents (rotate_files fr faults rest c').0)
          → AllIntact fr contents (next_file name p rest c (rotate_files fr faults rest)).0
      by_outcome (s', file_rotated) h later = (h.0, later _)
      by_outcome (s', file_already) h later = (h.0, later _)
      by_outcome (s', file_plain) h later = (h.0, later _)
      by_outcome (s', file_failed) h later = (h, later _)
      by_outcome (s', ended) h later = (h, i.1)

  failed_grows : (d : Folder) (c : FileCounts) → c.failed ≤ (rotate_files fr faults d c).1.failed
  unfolding rotate_files tally
  failed_grows [] c = omega arith
  failed_grows ((name, s) ∷ rest) c =
      by_outcome (rotate_file fr (faults name) s) (λ c'. failed_grows rest c')
    where
      by_outcome :
          (p : Slot × Outcome)
          → ((c' : FileCounts) → c'.failed ≤ (rotate_files fr faults rest c').1.failed)
          → c.failed ≤ (next_file name p rest c (rotate_files fr faults rest)).1.failed
      by_outcome (s', file_rotated) later = later (tally file_rotated c)
      by_outcome (s', file_already) later = later (tally file_already c)
      by_outcome (s', file_plain) later = later (tally file_plain c)
      by_outcome (s', file_failed) later = omega (arith, later (tally file_failed c))
      by_outcome (s', ended) later = omega arith

  -- A run that is not dry, gets to its end and counts no failure leaves every encrypted file under
  -- the new key with nothing left over, and every legacy file as it was.
  pub rotate_files-AllTurned :
      (d : Folder) (c : FileCounts)
      → AllIntact fr contents d
      → fr.dry ≡ false
      → (rotate_files fr faults d c).2 ≡ true
      → (rotate_files fr faults d c).1.failed ≤ c.failed
      → AllTurned fr contents (rotate_files fr faults d c).0
  unfolding rotate_files tally
  rotate_files-AllTurned [] c i dry alive none_failed = tt
  rotate_files-AllTurned ((name, s) ∷ rest) c i dry alive none_failed =
      by_outcome (rotate_file fr (faults name) s)
        (rotate_file-Closes fr (faults name) (contents name) s (ok name) i.0)
        (λ c'. rotate_files-AllTurned rest c' i.1 dry) alive none_failed
    where
      by_outcome :
          (p : Slot × Outcome)
          → Closes fr (contents name) p
          → ((c' : FileCounts)
              → (rotate_files fr faults rest c').2 ≡ true
              → (rotate_files fr faults rest c').1.failed ≤ c'.failed
              → AllTurned fr contents (rotate_files fr faults rest c').0)
          → (next_file name p rest c (rotate_files fr faults rest)).2 ≡ true
          → (next_file name p rest c (rotate_files fr faults rest)).1.failed ≤ c.failed
          → AllTurned fr contents (next_file name p rest c (rotate_files fr faults rest)).0
      by_outcome (s', file_rotated) h later a n = (h.1 dry, later (tally file_rotated c) a n)
      by_outcome (s', file_already) h later a n = (h.1 dry, later (tally file_already c) a n)
      by_outcome (s', file_plain) h later a n = (h.1 dry, later (tally file_plain c) a n)
      by_outcome (s', file_failed) h later a n =
          absurd (omega (arith, failed_grows rest (tally file_failed c), n))
      by_outcome (s', ended) h later a n = absurd (cc a)
