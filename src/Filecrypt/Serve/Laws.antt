-- ===== src/Filecrypt/Serve/Laws.antt =====
-- Serving what was encrypted (server/filecrypt.go): a client sees the plaintext, or the part of it
-- that the range names.
use native.Mathlib.Nat.{zero-add, add-sub_cancel_left}
use mathlib.Core.Option.{some-injective}
use hexeris_beta.Base.{
  ℕ, zero, suc, ◌+◌, ◌^◌, ◌≤◌, ◌<◌, ◌≡◌, refl, ap, Option, none, some, true, false, List, [], ◌∷◌,
  ◌++◌, arith, subst, length, take, drop, take-append, drop-append, length-append, length-drop, ltb,
  sym, ◌∙◌, Bool-cases, inl, inr, ltb→lt,
}
use hexeris_beta.Filecrypt.Counter.{IsBytes, read_counter, word, value}
use hexeris_beta.Filecrypt.Range.{parse_single_range, parse_single_range_bounds}
use hexeris_beta.Filecrypt.Stream.{
  Aes, file_magic, new_ctr_at, xor_key_stream, xor_from, encrypt_stream, length-xor_from,
  drop-xor_from, take-xor_from, new_ctr_at_undo,
}
use hexeris_beta.Filecrypt.Serve.{
  Request, contents, stream, choose_part, part_of, has_prefix, serve_uploaded_file,
}

-- Eight bytes make a word of 64 bits.
word-lt : (bs : List ℕ) → IsBytes bs → length bs ≡ 8 → word 0 bs < 2 ^ 64
unfolding word
word-lt (a ∷ b ∷ c ∷ d ∷ e ∷ f ∷ g ∷ h ∷ []) p q = omega arith
word-lt _ p q = absurd (omega arith)

drop-nil : (n : ℕ) → drop n (let l : List ℕ = [] in l) ≡ []
drop-nil zero = refl
drop-nil (suc n) = refl

add-suc_left : (m n : ℕ) → suc m + n ≡ suc (m + n)
add-suc_left m n = omega arith

drop-drop : (m n : ℕ) (xs : List ℕ) → drop (m + n) xs ≡ drop n (drop m xs)
drop-drop zero n xs = ap (λ (k : ℕ). drop k xs) (omega arith)
drop-drop (suc m) n [] = drop-nil (suc m + n) ∙ sym (drop-nil n)
drop-drop (suc m) n (x ∷ xs) = ap (λ (k : ℕ). drop k (x ∷ xs)) (add-suc_left m n) ∙ drop-drop m n xs

length-take : (n : ℕ) (xs : List ℕ) → n ≤ length xs → length (take n xs) ≡ n
length-take zero xs h = refl
length-take (suc n) [] h = absurd (omega arith)
length-take (suc n) (x ∷ xs) h = ap suc (length-take n xs (omega arith))

part_of-bounds :
    (size : ℕ) (o : Option (ℕ × ℕ))
    → ((s e : ℕ) → o ≡ some (s, e) → (s ≤ e) × (e < size))
    → (part_of size o).start + (part_of size o).count ≤ size
unfolding part_of
part_of-bounds size none h = omega arith
part_of-bounds size (some (s, e)) h = let b = h s e refl in omega (arith, b.0, b.1)

-- Whatever Range a request holds, the part that is served lies inside the file.
pub choose_part_bounds :
    (range : Option (List ℕ)) (size : ℕ)
    → (choose_part range size).start + (choose_part range size).count ≤ size
unfolding choose_part
choose_part_bounds none size = omega arith
choose_part_bounds (some []) size = omega arith
choose_part_bounds (some (c ∷ cs)) size = elim (Bool-cases (ltb 0 size)) [
  | inl pos ↦ rw pos (
      part_of-bounds size (parse_single_range (c ∷ cs) size)
        (λ s e h. parse_single_range_bounds (c ∷ cs) size s e (ltb→lt 0 size pos) h))
  | inr empty ↦ rw empty (omega arith)
]

module _ (aes : Aes) (key iv plain : List ℕ) (iv_length : length iv ≡ 16) (iv_bytes : IsBytes iv)
    (short : length plain < 2 ^ 63) where
  abbrev cipher : List ℕ
  cipher = xor_from aes key (value (read_counter iv)) 0 plain

  abbrev stored : List ℕ
  stored = file_magic ++ (iv ++ cipher)

  take-IsBytes : (n : ℕ) (bs : List ℕ) → IsBytes bs → IsBytes (take n bs)
  take-IsBytes zero bs h = tt
  take-IsBytes (suc n) [] h = tt
  take-IsBytes (suc n) (b ∷ bs) h = (h.0, take-IsBytes n bs h.1)

  drop-IsBytes : (n : ℕ) (bs : List ℕ) → IsBytes bs → IsBytes (drop n bs)
  drop-IsBytes zero bs h = h
  drop-IsBytes (suc n) [] h = tt
  drop-IsBytes (suc n) (b ∷ bs) h = drop-IsBytes n bs h.1

  hi-lt : (read_counter iv).hi < 2 ^ 64
  unfolding read_counter
  hi-lt = word-lt (take 8 iv) (take-IsBytes 8 iv iv_bytes) (length-take 8 iv (omega arith))

  lo-lt : (read_counter iv).lo < 2 ^ 64
  unfolding read_counter
  lo-lt =
      word-lt (take 8 (drop 8 iv)) (take-IsBytes 8 _ (drop-IsBytes 8 iv iv_bytes))
        (length-take 8 (drop 8 iv) (omega (arith, length-drop 8 iv)))

  length-stored : length stored ≡ 20 + length plain
  length-stored =
      omega
        (arith, length-append iv cipher, length-xor_from aes key (value (read_counter iv)) 0 plain)

  body :
      (start count : ℕ)
      → start < 2 ^ 64
      → xor_key_stream aes (new_ctr_at key iv start) (take count (drop (20 + start) stored))
        ≡ take count (drop start plain)
  body start count h =
      rw
        (
          drop-drop 20 start stored,
          drop-append 16 iv cipher iv_length,
          drop-xor_from aes key (value (read_counter iv)) 0 start plain,
          take-xor_from aes key (value (read_counter iv)) (0 + start) count (drop start plain),
          zero-add start,
        )
        (new_ctr_at_undo aes key iv start (take count (drop start plain)) hi-lt lo-lt h)

  serve_stored :
      (r : Request)
      → r.stat_ok ≡ true
      → r.seek_ok ≡ true
      → r.is_head ≡ false
      → let part = choose_part r.range (length plain) in
        serve_uploaded_file aes key r (contents stored)
        ≡ stream part.status part.content_range part.count (take part.count (drop part.start plain))
  unfolding serve_uploaded_file has_prefix
  serve_stored r s k g =
      let fits = choose_part_bounds r.range (length plain) in
      let e : ltb (length stored) 20 ≡ false = ground (arith, length-stored) in
      rw (e, s, k, g, take-append 16 iv cipher iv_length, length-stored, add-sub_cancel_left)
        (rw (
          body (choose_part r.range (length plain)).start (choose_part r.range (length plain)).count
            (omega arith)))

  -- A GET of a file that was stored by `encrypt_stream`, with no fault on the way, is answered by
  -- the plaintext or by the part of it that the range names, with exactly as many bytes as the
  -- Content-Length says. The IV is 16 bytes, and the file is below 2^63 bytes.
  pub serve-encrypt_stream :
      (r : Request) (bytes : List ℕ)
      → r.stat_ok ≡ true
      → r.seek_ok ≡ true
      → r.is_head ≡ false
      → encrypt_stream aes key (some iv) plain ≡ some bytes
      → let part = choose_part r.range (length plain) in
        let body = take part.count (drop part.start plain) in
        (serve_uploaded_file aes key r (contents bytes)
          ≡ stream part.status part.content_range part.count body)
        × (length body ≡ part.count)
  unfolding encrypt_stream
  serve-encrypt_stream r bytes s k g e =
      let fits = choose_part_bounds r.range (length plain) in
      (
        subst
            (λ b.
              serve_uploaded_file aes key r (contents b)
              ≡ stream (choose_part r.range (length plain)).status
                  (choose_part r.range (length plain)).content_range
                  (choose_part r.range (length plain)).count
                  (take (choose_part r.range (length plain)).count
                    (drop (choose_part r.range (length plain)).start plain)))
            (some-injective _ _ e) (serve_stored r s k g),
        length-take _ _
            (omega (arith, length-drop (choose_part r.range (length plain)).start plain)),
      )
