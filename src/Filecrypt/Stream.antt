-- ===== src/Filecrypt/Stream.antt =====
-- `encryptStream` and `newCTRAt` of server/filecrypt.go, and the law behind serving a part of a
-- file: a stream that starts at an offset is the tail of the whole one.
use mathlib.Core.Path.{ap₂}
use native.Mathlib.Nat.{add-zero}
use hexeris_beta.Base.{
  ℕ, zero, suc, ◌+◌, ◌/◌, ◌%◌, ◌^◌, ◌<◌, ◌≡◌, refl, Option, none, some, List, [], ◌∷◌, ◌++◌, arith,
  length, take, drop, ap,
}
use hexeris_beta.Filecrypt.Counter.{
  Counter, read_counter, add_to_counter, value, value-add_to_counter,
}

-- AES on a 128-bit counter block, and the XOR of two bytes. The law is what decryption rests on.
pub record Aes : Type 0 where
  pub pad : List ℕ → ℕ → ℕ → ℕ
  pub xor : ℕ → ℕ → ℕ
  pub xor_xor : (a k : ℕ) → xor (xor a k) k ≡ a

abbrev pub file_magic : List ℕ
file_magic = b'H' ∷ b'X' ∷ b'E' ∷ b'1' ∷ []

abbrev pub file_iv_size : ℕ
file_iv_size = 16

abbrev pub file_header_size : ℕ
file_header_size = 4 + file_iv_size

-- `cipher.Stream` of `cipher.NewCTR`: the first counter block, and the bytes that are spent.
pub record Stream : Type 0 where
  pub key : List ℕ
  pub block : ℕ
  pub spent : ℕ

module _ (aes : Aes) where
  unfoldable pub key_byte : List ℕ → ℕ → ℕ → ℕ
  key_byte key block n = aes.pad key ((block + n / 16) % 2 ^ 128) (n % 16)

  -- `XORKeyStream` from byte n of the stream on.
  unfoldable pub xor_from : List ℕ → ℕ → ℕ → List ℕ → List ℕ
  unfolding key_byte
  xor_from key block n [] = []
  xor_from key block n (b ∷ bs) = aes.xor b (key_byte key block n) ∷ xor_from key block (suc n) bs

  unfoldable pub xor_key_stream : Stream → List ℕ → List ℕ
  xor_key_stream s bs = xor_from s.key s.block s.spent bs

  -- `iv` is what the random source returned, `none` its failure. The key is checked at start-up
  -- (`encKey`), so that `aes.NewCipher` accepts it.
  unfoldable pub encrypt_stream : List ℕ → Option (List ℕ) → List ℕ → Option (List ℕ)
  unfolding xor_key_stream
  encrypt_stream key none src = none
  encrypt_stream key (some iv) src =
      let stream : Stream = record { key = key; block = value (read_counter iv); spent = 0 } in
      some (file_magic ++ (iv ++ xor_key_stream stream src))

-- The stream at byte `offset`: the block number is added to the counter, and the bytes before the
-- offset within the block are burned.
unfoldable pub new_ctr_at : List ℕ → List ℕ → ℕ → Stream
new_ctr_at key iv offset =
    let ctr = add_to_counter (read_counter iv) (offset / 16) in
    record { key = key; block = value ctr; spent = offset % 16 }

module _ (aes : Aes) where
  pub length-xor_from :
      (key : List ℕ) (block n : ℕ) (bs : List ℕ) → length (xor_from aes key block n bs) ≡ length bs
  unfolding xor_from
  length-xor_from key block n [] = refl
  length-xor_from key block n (b ∷ bs) = ap suc (length-xor_from key block (suc n) bs)

  pub drop-xor_from :
      (key : List ℕ) (block n k : ℕ) (bs : List ℕ)
      → drop k (xor_from aes key block n bs) ≡ xor_from aes key block (n + k) (drop k bs)
  unfolding xor_from
  drop-xor_from key block n zero bs = rw add-zero
  drop-xor_from key block n (suc k) [] = refl
  drop-xor_from key block n (suc k) (b ∷ bs) =
      rw (drop-xor_from key block (suc n) k bs)
        (ap (λ (m : ℕ). xor_from aes key block m (drop k bs)) (omega arith))

  pub take-xor_from :
      (key : List ℕ) (block n k : ℕ) (bs : List ℕ)
      → take k (xor_from aes key block n bs) ≡ xor_from aes key block n (take k bs)
  unfolding xor_from
  take-xor_from key block n zero bs = refl
  take-xor_from key block n (suc k) [] = refl
  take-xor_from key block n (suc k) (b ∷ bs) = rw (take-xor_from key block (suc n) k bs)

  key_byte_at :
      (key : List ℕ) (c : Counter) (offset n : ℕ)
      → c.hi < 2 ^ 64
      → c.lo < 2 ^ 64
      → offset < 2 ^ 64
      → key_byte aes key (value (add_to_counter c (offset / 16))) (offset % 16 + n)
        ≡ key_byte aes key (value c) (offset + n)
  unfolding key_byte
  key_byte_at key c offset n h l m =
      ap₂ (aes.pad key) (rw (value-add_to_counter c (offset / 16) h l (omega arith)) (omega arith))
        (omega arith)

  undo_from :
      (key : List ℕ) (c : Counter) (offset n p q : ℕ) (bs : List ℕ)
      → c.hi < 2 ^ 64
      → c.lo < 2 ^ 64
      → offset < 2 ^ 64
      → p ≡ offset % 16 + n
      → q ≡ offset + n
      → xor_from aes key
          (value (add_to_counter c (offset / 16)))
          p
          (xor_from aes key (value c) q bs)
        ≡ bs
  unfolding xor_from
  undo_from key c offset n p q [] h l m e f = refl
  undo_from key c offset n p q (b ∷ bs) h l m e f =
      ap₂ ◌∷◌ (rw (e, f, key_byte_at key c offset n h l m) (aes.xor_xor b _))
        (undo_from key c offset (suc n) (suc p) (suc q) bs h l m (omega arith) (omega arith))

  -- For an IV of two 64-bit words, the stream that starts at an offset undoes the whole stream
  -- from that byte on.
  pub new_ctr_at_undo :
      (key iv : List ℕ) (offset : ℕ) (bs : List ℕ)
      → (read_counter iv).hi < 2 ^ 64
      → (read_counter iv).lo < 2 ^ 64
      → offset < 2 ^ 64
      → xor_key_stream aes
          (new_ctr_at key iv offset)
          (xor_from aes key (value (read_counter iv)) offset bs)
        ≡ bs
  unfolding xor_key_stream new_ctr_at
  new_ctr_at_undo key iv offset bs h l m =
      undo_from key (read_counter iv) offset 0 (offset % 16) offset bs h l m (omega arith)
        (omega arith)
