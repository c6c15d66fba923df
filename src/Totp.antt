-- ===== src/Totp.antt =====
-- server/totp.go: one-time codes. HMAC-SHA1 and base32 are parameters; times are Unix seconds of a
-- clock past the first step, so that the window before the current one has a number.
pub mod Codes
pub mod Window
use hexeris_beta.Base.{
  ℕ, zero, suc, ◌+◌, ◌-◌, ◌*◌, ◌/◌, ◌%◌, ◌^◌, ◌≤◌, ◌<◌, ◌≡◌, String, Option, none, some, Bool, true,
  false, List, [], ◌∷◌, ◌==◌, ◌&&◌, ◌||◌, not, leb, length, if◌then◌else◌,
}

abbrev pub totp_step_seconds : ℕ
totp_step_seconds = 30

abbrev pub totp_digits : ℕ
totp_digits = 6

abbrev pub totp_skew : ℕ
totp_skew = 1

-- The secret's key, upper-cased and without spaces before the base32 decoding, and the HMAC of a
-- message under a key, as bytes.
pub record Hotp : Type 0 where
  pub decode : String → Option (List ℕ)
  pub hmac : List ℕ → List ℕ → List ℕ

unfoldable pub totp_step : ℕ → ℕ
totp_step now = now / totp_step_seconds

-- `binary.BigEndian.PutUint64`
unfoldable pub put_uint64 : ℕ → List ℕ
put_uint64 n =
    n / 2 ^ 56 % 256
    ∷ n / 2 ^ 48 % 256
    ∷ n / 2 ^ 40 % 256
    ∷ n / 2 ^ 32 % 256
    ∷ n / 2 ^ 24 % 256
    ∷ n / 2 ^ 16 % 256
    ∷ n / 2 ^ 8 % 256
    ∷ n % 256
    ∷ []

-- `sum[i]`, of a sum that is long enough.
unfoldable pub byte_at : List ℕ → ℕ → ℕ
byte_at [] i = 0
byte_at (b ∷ bs) zero = b
byte_at (b ∷ bs) (suc i) = byte_at bs i

-- The dynamic truncation: the shifted bytes do not overlap, so that `|` adds them.
unfoldable pub truncate : List ℕ → ℕ
unfolding byte_at
truncate sum =
    let off = byte_at sum (length sum - 1) % 16 in
    byte_at sum off % 128 * 2 ^ 24
    + byte_at sum (off + 1) * 2 ^ 16
    + byte_at sum (off + 2) * 2 ^ 8
    + byte_at sum (off + 3)

-- `%0*d` with six digits, of a number below a million.
unfoldable pub six_digits : ℕ → List ℕ
six_digits v =
    (b'0' + v / 100000 % 10)
    ∷ (b'0' + v / 10000 % 10)
    ∷ (b'0' + v / 1000 % 10)
    ∷ (b'0' + v / 100 % 10)
    ∷ (b'0' + v / 10 % 10)
    ∷ (b'0' + v % 10)
    ∷ []

-- The characters that `strings.TrimSpace` takes off: the white space of `unicode.IsSpace`. A code is
-- given by its characters.
unfoldable pub is_space : ℕ → Bool
is_space c =
    c == b' '
    || (leb 9 c && leb c 13)
    || c == 133
    || c == 160
    || c == 5_760
    || (leb 8_192 c && leb c 8_202)
    || c == 8_232
    || c == 8_233
    || c == 8_239
    || c == 8_287
    || c == 12_288

unfoldable pub trim_left : List ℕ → List ℕ
trim_left [] = []
trim_left (c ∷ cs) = let rest = trim_left cs in if is_space c then rest else c ∷ cs

unfoldable pub trim_right : List ℕ → List ℕ
trim_right [] = []
trim_right (c ∷ cs) = elim (trim_right cs) [
  | [] ↦ if is_space c then [] else c ∷ []
  | d ∷ ds ↦ c ∷ d ∷ ds
]

unfoldable pub without_spaces : List ℕ → List ℕ
without_spaces [] = []
without_spaces (c ∷ cs) = let rest = without_spaces cs in if c == b' ' then rest else c ∷ rest

unfoldable pub normalise : List ℕ → List ℕ
unfolding is_space trim_left trim_right without_spaces
normalise code = without_spaces (trim_left (trim_right code))

-- The constant-time comparison of two byte slices.
unfoldable pub same_bytes : List ℕ → List ℕ → Bool
same_bytes [] [] = true
same_bytes [] (b ∷ bs) = false
same_bytes (a ∷ as') [] = false
same_bytes (a ∷ as') (b ∷ bs) = a == b && same_bytes as' bs

module _ (h : Hotp) where
  unfoldable pub totp_code_at : String → ℕ → Option (List ℕ)
  unfolding put_uint64 truncate six_digits
  totp_code_at secret step = elim (h.decode secret) [
    | none ↦ none
    | some key ↦ some (six_digits (truncate (h.hmac key (put_uint64 step)) % 10 ^ 6))
  ]

  -- The loop over `d`, by the rounds that are left; `none` is the refusal.
  unfoldable pub try_steps : ℕ → String → List ℕ → ℕ → Option ℕ
  try_steps zero secret code step = none
  try_steps (suc rounds) secret code step =
      let later = try_steps rounds secret code (step + 1) in
      elim (totp_code_at secret step) [
        | none ↦ none
        | some want ↦ if same_bytes want code then some step else later
      ]

  unfoldable pub verify_code : String → List ℕ → ℕ → Option ℕ
  unfolding try_steps
  verify_code secret code cur =
      if length code == totp_digits
      then try_steps (2 * totp_skew + 1) secret code (cur - totp_skew)
      else none

  -- The number of the window that matched.
  unfoldable pub totp_verify : String → List ℕ → ℕ → Option ℕ
  unfolding verify_code normalise totp_step
  totp_verify secret code now = verify_code secret (normalise code) (totp_step now)
