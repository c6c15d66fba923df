-- ===== src/Examples/Sessions.antt =====
-- server/auth.go on one account, with toy tokens.
use Prim.Native.Char.{code}
use hexeris_beta.Base.{
  ℕ, zero, suc, ◌+◌, ◌<◌, ◌≤◌, String, ◌≡◌, refl, ap, ◌∙◌, Option, none, some, Bool, true, false,
  List, [], ◌∷◌, ◌++◌, arith, ltb, ◌==◌, ◌&&◌, if◌then◌else◌, ◌=s=◌,
}
use hexeris_beta.Base.Dict.{Dict}
use hexeris_beta.Limiter.{new_limiter, is_blocked, record_failure}
use hexeris_beta.Signin.Tokens.{Jwt, Claims, generate_token_at, validate_token}
use hexeris_beta.Signin.Login.{Directory, Gate, login_handler}
use hexeris_beta.Signin.Password.{change_password_handler}
use hexeris_beta.Signin.Revocation.{change_password_revokes}
use hexeris_beta.Signin.Admission.{Admitted, login_handler_session}
use hexeris_beta.Examples.Accounts.{crypto, up, server, minute, sign}

-- A token that is not signed: two numbers in strokes, and the user.
abbrev write_nat : ℕ → String → String
write_nat zero rest = String.◌∷◌ "." rest
write_nat (suc n) rest = String.◌∷◌ "i" (write_nat n rest)

abbrev read_nat : ℕ → String → ℕ × String
read_nat acc String.[] = (acc, "")
read_nat acc (String.◌∷◌ ch s) =
    let later = read_nat (suc acc) s in if code ch == b'.' then (acc, s) else later

read_nat-write_nat : (n acc : ℕ) (rest : String) → read_nat acc (write_nat n rest) ≡ (acc + n, rest)
read_nat-write_nat zero acc rest = ap (λ (k : ℕ). (k, rest)) (omega arith)
read_nat-write_nat (suc n) acc rest =
    read_nat-write_nat n (suc acc) rest ∙ ap (λ (k : ℕ). (k, rest)) (omega arith)

read-write_nat : (n : ℕ) (rest : String) → read_nat 0 (write_nat n rest) ≡ (n, rest)
read-write_nat n rest = read_nat-write_nat n 0 rest ∙ ap (λ (k : ℕ). (k, rest)) (omega arith)

abbrev write_sub : Option String → String
write_sub none = ""
write_sub (some username) = String.◌∷◌ "s" username

abbrev read_sub : String → Option String
read_sub String.[] = none
read_sub (String.◌∷◌ ch s) = some s

read_sub-write_sub : (o : Option String) → read_sub (write_sub o) ≡ o
read_sub-write_sub none = refl
read_sub-write_sub (some username) = refl

abbrev write_claims : Claims → String
write_claims cl = write_nat cl.iat (write_nat cl.exp (write_sub cl.sub))

abbrev read_claims : ℕ → String → Option Claims
read_claims now token =
    let (iat, rest) = read_nat 0 token in
    let (exp, sub) = read_nat 0 rest in
    if ltb now exp then some (record { sub = read_sub sub; iat = iat; exp = exp }) else none

read_claims-write_claims :
    (now : ℕ) (cl : Claims)
    → read_claims now (write_claims cl) ≡ (if ltb now cl.exp then some cl else none)
read_claims-write_claims now cl =
    rw
      (
        read-write_nat cl.iat (write_nat cl.exp (write_sub cl.sub)),
        read-write_nat cl.exp (write_sub cl.sub),
        read_sub-write_sub cl.sub,
      )
      refl

abbrev jwt : Jwt
jwt = record { sign = write_claims; parse = read_claims; parse_sign = read_claims-write_claims }

abbrev gate : Bool → Gate
gate on = record { server = server on; user_limiter = new_limiter 10 600; cutoffs = [] }

abbrev directory : Directory
directory = record {
  enabled = false;
  authenticate = λ username password. false;
  plain_name = λ username. true;
  trim = λ s. s;
}

abbrev size : String → ℕ
size s = 9

abbrev generate : String → Option String
generate password = some password

change_password_revokes_example :
    let g' =
      (change_password_handler crypto jwt up size generate
        (gate true)
        (some "ann")
        true
        (some ("pw", "another"))
        60).1 in
    (validate_token jwt g'.cutoffs 70 (generate_token_at jwt "ann" 61) ≡ some "ann")
    × (validate_token jwt g'.cutoffs 70 (generate_token_at jwt "ann" 50) ≡ none)
unfolding change_password_handler new_limiter hexeris_beta.Limiter.live
    hexeris_beta.Limiter.attempts_of hexeris_beta.Base.Dict.lookup
change_password_revokes_example =
    change_password_revokes crypto jwt up size generate (gate true) "ann" "pw" "another"
      (generate_token_at jwt "ann" 61) 60 70 50 refl (omega arith) (omega arith)

login_handler_session_example :
    (true ≡ true)
    × Admitted crypto up directory sign
        (gate false)
        (login_handler crypto up directory sign
          (gate false)
          true
          "ip"
          (some ("ann", "pw"))
          minute
          (some "t")).1
        "ip"
        (some ("ann", "pw"))
        minute
unfolding login_handler new_limiter hexeris_beta.Limiter.live hexeris_beta.Limiter.attempts_of
    hexeris_beta.Base.Dict.lookup
login_handler_session_example =
    login_handler_session crypto up directory sign (gate false) true "ip" (some ("ann", "pw"))
      minute (some "t") tt
