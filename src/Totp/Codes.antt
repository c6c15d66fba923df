-- ===== src/Totp/Codes.antt =====
-- The codes of server/totp.go: six digits, which the clean-up of an entered code leaves alone.
use hexeris_beta.Base.{
  ℕ, ◌+◌, ◌-◌, ◌*◌, ◌%◌, ◌^◌, ◌<◌, ◌≤◌, ◌≡◌, refl, String, Option, none, some, true, false, List,
  [], ◌∷◌, arith, length, ◌⊎◌, inl, inr,
}
use hexeris_beta.Totp.{
  Hotp, six_digits, normalise, same_bytes, totp_code_at, is_space, trim_left, trim_right,
  without_spaces, truncate, put_uint64,
}

abbrev pub IsDigit : ℕ → Type 0
IsDigit c = (b'0' ≤ c) × (c ≤ b'9')

abbrev pub AllDigits : List ℕ → Type 0
AllDigits [] = Unit {0}
AllDigits (c ∷ cs) = IsDigit c × AllDigits cs

pub six_digits-AllDigits : (v : ℕ) → AllDigits (six_digits v)
unfolding six_digits
six_digits-AllDigits v = omega arith

digit_not_space : (c : ℕ) → IsDigit c → is_space c ≡ false
unfolding is_space
digit_not_space c h = ground arith

trim_right-digits : (cs : List ℕ) → AllDigits cs → trim_right cs ≡ cs
unfolding trim_right
trim_right-digits [] h = refl
trim_right-digits (c ∷ []) h = rw (digit_not_space c h.0)
trim_right-digits (c ∷ d ∷ cs) h = ground (arith, trim_right-digits (d ∷ cs) h.1)

trim_left-digits : (cs : List ℕ) → AllDigits cs → trim_left cs ≡ cs
unfolding trim_left
trim_left-digits [] h = refl
trim_left-digits (c ∷ cs) h = rw (digit_not_space c h.0)

without_spaces-digits : (cs : List ℕ) → AllDigits cs → without_spaces cs ≡ cs
unfolding without_spaces
without_spaces-digits [] h = refl
without_spaces-digits (c ∷ cs) h = ground (arith, without_spaces-digits cs h.1)

pub normalise-digits : (cs : List ℕ) → AllDigits cs → normalise cs ≡ cs
normalise-digits cs h =
    unfold normalise in
    rw (trim_right-digits cs h, trim_left-digits cs h) (without_spaces-digits cs h)

pub same_bytes_refl : (cs : List ℕ) → same_bytes cs cs ≡ true
unfolding same_bytes
same_bytes_refl [] = refl
same_bytes_refl (c ∷ cs) = ground (arith, same_bytes_refl cs)

pub eq_of-same_bytes : (xs ys : List ℕ) → same_bytes xs ys ≡ true → xs ≡ ys
unfolding same_bytes
eq_of-same_bytes [] [] h = refl
eq_of-same_bytes [] (y ∷ ys) h = cc
eq_of-same_bytes (x ∷ xs) [] h = cc
eq_of-same_bytes (x ∷ xs) (y ∷ ys) h = ground (arith, eq_of-same_bytes xs ys)

-- The digits read back as the number.
abbrev pub read_digits : ℕ → List ℕ → ℕ
read_digits acc [] = acc
read_digits acc (c ∷ cs) = read_digits (acc * 10 + (c - b'0')) cs

-- Below a million, the six digits of a number, leading zeros included, read back as the number.
pub six_digits_read : (v : ℕ) → v < 1000000 → read_digits 0 (six_digits v) ≡ v
unfolding six_digits
six_digits_read v h = omega arith

module _ (h : Hotp) where
  -- Whether there is a code depends on the secret alone, and a code is six digits.
  pub totp_code_at-cases :
      (secret : String)
      → ((step : ℕ) → totp_code_at h secret step ≡ none)
        ⊎ ((step : ℕ)
            → (c : List ℕ) × (totp_code_at h secret step ≡ some c) × AllDigits c × (length c ≡ 6))
  unfolding totp_code_at
  totp_code_at-cases secret = by_key (h.decode secret) refl
    where
      by_key :
          (o : Option (List ℕ))
          → h.decode secret ≡ o
          → ((step : ℕ) → totp_code_at h secret step ≡ none)
            ⊎ ((step : ℕ)
                → (c : List ℕ) × (totp_code_at h secret step ≡ some c)
                  × AllDigits c
                  × (length c ≡ 6))
      by_key none e = inl (λ step. rw (e, totp_code_at))
      by_key (some key) e = inr λ step.
          let v = truncate (h.hmac key (put_uint64 step)) % 10 ^ 6 in
          (six_digits v, rw (e, totp_code_at), six_digits-AllDigits v, refl)
