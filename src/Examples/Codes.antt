-- ===== src/Examples/Codes.antt =====
-- server/totp.go on a toy HMAC, whose sum holds the low byte of the window's number.
use hexeris_beta.Base.{ℕ, ◌+◌, ◌≤◌, ◌≡◌, refl, none, some, List, [], ◌∷◌, arith}
use hexeris_beta.Totp.{Hotp, byte_at, normalise, totp_step, totp_code_at, totp_verify}
use hexeris_beta.Totp.Window.{totp_verify_sound, totp_verify_complete}

abbrev pub toy_hotp : Hotp
toy_hotp = record {
  decode = λ secret. some [];
  hmac = λ key msg. 0 ∷ 0 ∷ 0 ∷ byte_at msg 7 ∷ 0 ∷ [];
}

-- The code of window 2, as "000 002" and as "000002".
abbrev pub spaced : List ℕ
spaced = b'0' ∷ b'0' ∷ b'0' ∷ b' ' ∷ b'0' ∷ b'0' ∷ b'2' ∷ []

abbrev pub code_of_two : List ℕ
code_of_two = b'0' ∷ b'0' ∷ b'0' ∷ b'0' ∷ b'0' ∷ b'2' ∷ []

verify_test : totp_verify toy_hotp "S" spaced 90 ≡ some 2
unfolding totp_verify totp_code_at hexeris_beta.Totp.same_bytes
verify_test = refl

late_test : totp_verify toy_hotp "S" spaced 120 ≡ none
unfolding totp_verify totp_code_at hexeris_beta.Totp.same_bytes
late_test = refl

totp_verify_sound_example :
    (totp_step 90 ≤ 2 + 1)
    × (2 ≤ totp_step 90 + 1)
    × (totp_code_at toy_hotp "S" 2 ≡ some (normalise spaced))
unfolding totp_verify totp_code_at hexeris_beta.Totp.same_bytes
totp_verify_sound_example = totp_verify_sound toy_hotp "S" spaced 90 2 (omega arith) refl

totp_verify_complete_example : (t : ℕ) × (totp_verify toy_hotp "S" code_of_two 90 ≡ some t)
unfolding totp_step totp_code_at
totp_verify_complete_example =
    totp_verify_complete toy_hotp "S" code_of_two 90 2 (omega arith) (omega arith) (omega arith)
      refl
