-- ===== src/Rotation/Files/Copy.antt =====
-- `rotateOneFile` of server/rotatekey.go: the copy of a file under the new key.
use mathlib.Core.Option.{some-injective}
use hexeris_beta.Base.{
  ℕ, suc, ◌≡◌, refl, subst, Option, none, some, Bool, true, false, List, [], ◌∷◌, ltb, length,
  take-append, drop-append, if◌then◌else◌,
}
use hexeris_beta.Filecrypt.Stream.{Aes, file_header_size, xor_key_stream, xor_from, encrypt_stream}
use hexeris_beta.Filecrypt.Counter.{read_counter, value}
use hexeris_beta.Filecrypt.Serve.{has_prefix}
use hexeris_beta.Rotation.Files.{
  Answer, works, fails, halts, open_source, create_temp, write_temp, sync_temp, close_temp, Faults,
  Slot, FileRotation, answered, has_fp, file_is_encrypted, renewed_bytes, write_out, with_iv,
  rotate_one_file,
}

-- The bytes are the content, encrypted with the key behind some IV.
abbrev pub Holds : Aes → List ℕ → List ℕ → List ℕ → Type 0
Holds aes key plain bytes =
    (iv : List ℕ) × (length iv ≡ 16) × (encrypt_stream aes key (some iv) plain ≡ some bytes)

pub answered_cases {ℓ ℓ'} :
    {A : Type ℓ} (P : A → Type ℓ') (a : Answer) (x y z : A)
    → P x
    → (a ≡ fails → P y)
    → P z
    → P (answered a x y z)
answered_cases P works x y z px py pz = px
answered_cases P fails x y z px py pz = py refl
answered_cases P halts x y z px py pz = pz

pub xor_from-xor_from :
    (aes : Aes) (key : List ℕ) (block n : ℕ) (bs : List ℕ)
    → xor_from aes key block n (xor_from aes key block n bs) ≡ bs
unfolding xor_from
xor_from-xor_from aes key block n [] = refl
xor_from-xor_from aes key block n (b ∷ bs) =
    rw (aes.xor_xor b _, xor_from-xor_from aes key block (suc n) bs)

module _ (fr : FileRotation) (plain : List ℕ) where
  -- A slot without an entry, whose file is under the old key.
  abbrev pub Old : Slot → Type 0
  Old s = (has_fp fr.new_fp s.journal ≡ false) × Holds fr.aes fr.old_key plain s.bytes

  -- Behind the copy: the file and the journal are as before, and a copy that works is complete.
  abbrev pub Copied : Slot × Answer → Type 0
  Copied (s, works) = Old s × (t : List ℕ) × (s.temp ≡ some t) × Holds fr.aes fr.new_key plain t
  Copied (s, fails) = Old s
  Copied (s, halts) = Old s

module _ (fr : FileRotation) (f : Faults) (plain : List ℕ)
    (iv_length : (iv : List ℕ) → f.iv ≡ some iv → length iv ≡ 16) where
  -- What `rotateOneFile` writes is the same content under the new key.
  pub renewed_bytes-Holds :
      (iv bytes : List ℕ)
      → length iv ≡ 16
      → Holds fr.aes fr.old_key plain bytes
      → Holds fr.aes fr.new_key plain (renewed_bytes fr f iv bytes)
  unfolding renewed_bytes encrypt_stream xor_key_stream
  renewed_bytes-Holds iv bytes l (old_iv, l', e) =
      let old_block = value (read_counter old_iv) in
      let cipher = xor_from fr.aes fr.old_key old_block 0 plain in
      (
        iv,
        l,
        subst
            (λ bs.
              encrypt_stream fr.aes fr.new_key (some iv) plain ≡ some (renewed_bytes fr f iv bs))
            (some-injective _ _ e)
            (rw
              (
                take-append 16 old_iv cipher l',
                drop-append 16 old_iv cipher l',
                xor_from-xor_from fr.aes fr.old_key old_block 0 plain,
              )
              refl),
      )

  pub Holds-encrypted :
      (bytes : List ℕ) → Holds fr.aes fr.old_key plain bytes → file_is_encrypted bytes ≡ true
  unfolding file_is_encrypted has_prefix encrypt_stream
  Holds-encrypted bytes (iv, l, e) =
      subst (λ bs. file_is_encrypted bs ≡ true) (some-injective _ _ e) refl

  Copied-full :
      (s : Slot) (t : List ℕ) (a : Answer)
      → Old fr plain s
      → Holds fr.aes fr.new_key plain t
      → Copied fr plain (record s { temp = some t }, a)
  Copied-full s t works o h = (o, t, refl, h)
  Copied-full s t fails o h = o
  Copied-full s t halts o h = o

  write_out-Copied :
      (full : List ℕ) (s : Slot)
      → Old fr plain s
      → Holds fr.aes fr.new_key plain full
      → Copied fr plain (write_out fr f full s)
  unfolding write_out
  write_out-Copied full s o h =
      answered_cases (Copied fr plain) (f.answer create_temp) _ _ _
        (answered_cases (Copied fr plain) (f.answer write_temp) _ _ _
          (answered_cases (Copied fr plain) (f.answer sync_temp) _ _ _
            (Copied-full s full (f.answer close_temp) o h) (λ e. o) o)
          (λ e. o) o)
        (λ e. o) o

  with_iv-Copied :
      (iv : Option (List ℕ)) (s : Slot)
      → ((n : List ℕ) → iv ≡ some n → length n ≡ 16)
      → Old fr plain s
      → Copied fr plain (with_iv fr f iv s)
  unfolding with_iv
  with_iv-Copied none s l o = o
  with_iv-Copied (some n) s l o =
      write_out-Copied _ s o (renewed_bytes-Holds n s.bytes (l n refl) o.1)

  pub rotate_one_file-Copied :
      (s : Slot) → Old fr plain s → Copied fr plain (rotate_one_file fr f s)
  unfolding rotate_one_file
  rotate_one_file-Copied s o =
      answered_cases (Copied fr plain) (f.answer open_source) _ _ _
        (by_size (ltb (length s.bytes) file_header_size)) (λ e. o) o
    where
      by_size : (b : Bool) → Copied fr plain (if b then (s, fails) else with_iv fr f f.iv s)
      by_size true = o
      by_size false = with_iv-Copied f.iv s iv_length o
