-- ===== src/Examples/Files.antt =====
-- server/filecrypt.go on a small file, with a toy cipher in place of AES.
use hexeris_beta.Base.{
  ℕ, zero, suc, ◌+◌, ◌%◌, ◌≡◌, refl, some, true, false, List, [], ◌∷◌, ◌++◌, arith, length, take,
  drop,
}
use hexeris_beta.Filecrypt.Counter.{read_counter, add_to_counter, value}
use hexeris_beta.Filecrypt.Range.{parse_single_range}
use hexeris_beta.Filecrypt.Stream.{
  Aes, file_magic, xor_from, xor_key_stream, encrypt_stream, new_ctr_at,
}
use hexeris_beta.Filecrypt.Serve.{
  Request, Response, contents, stream, Part, choose_part, serve_uploaded_file,
}
use hexeris_beta.Filecrypt.Serve.Laws.{serve-encrypt_stream}

-- An odd byte of the pad swaps the bytes 0 and 1.
abbrev flip : ℕ → ℕ
flip zero = 1
flip (suc zero) = 0
flip (suc (suc n)) = suc (suc n)

abbrev pub swap : ℕ → ℕ → ℕ
swap a zero = a
swap a (suc k) = flip a

flip-flip : (a : ℕ) → flip (flip a) ≡ a
flip-flip zero = refl
flip-flip (suc zero) = refl
flip-flip (suc (suc n)) = refl

pub swap-swap : (a k : ℕ) → swap (swap a k) k ≡ a
swap-swap a zero = refl
swap-swap a (suc k) = flip-flip a

abbrev toy : Aes
toy = record { pad = λ key block i. (block + i) % 2; xor = swap; xor_xor = swap-swap }

abbrev iv : List ℕ
iv = 0 ∷ 0 ∷ 0 ∷ 0 ∷ 0 ∷ 0 ∷ 0 ∷ 0 ∷ 255 ∷ 255 ∷ 255 ∷ 255 ∷ 255 ∷ 255 ∷ 255 ∷ 255 ∷ []

abbrev plain : List ℕ
plain = 1 ∷ 0 ∷ 7 ∷ 1 ∷ []

-- "bytes=1-2"
abbrev range : List ℕ
range = b'b' ∷ b'y' ∷ b't' ∷ b'e' ∷ b's' ∷ b'=' ∷ b'1' ∷ b'-' ∷ b'2' ∷ []

abbrev request : Request
request = record { is_head = false; range = some range; stat_ok = true; seek_ok = true }

abbrev stored : List ℕ
stored = file_magic ++ (iv ++ xor_from toy [] (value (read_counter iv)) 0 plain)

serve-encrypt_stream_example :
    (serve_uploaded_file toy [] request (contents stored)
      ≡ stream
          (choose_part (some range) 4).status
          (choose_part (some range) 4).content_range
          (choose_part (some range) 4).count
          (take (choose_part (some range) 4).count (drop (choose_part (some range) 4).start plain)))
    × (length
          (take (choose_part (some range) 4).count (drop (choose_part (some range) 4).start plain))
        ≡ (choose_part (some range) 4).count)
unfolding encrypt_stream
serve-encrypt_stream_example =
    serve-encrypt_stream toy [] iv plain refl (ground arith) (omega arith) request stored refl refl
      refl refl

serve_test :
    serve_uploaded_file toy [] request (contents stored)
    ≡ stream 206 (some (1, 2, 4)) 2 (0 ∷ 7 ∷ [])
unfolding serve_uploaded_file xor_from hexeris_beta.Filecrypt.Serve.has_prefix parse_single_range
    xor_key_stream new_ctr_at add_to_counter read_counter
serve_test = refl
