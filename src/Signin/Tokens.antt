-- ===== src/Signin/Tokens.antt =====
-- `generateTokenAt` and `validateToken` of server/auth.go, and the cut-offs of server/admin.go.
use hexeris_beta.Base.{ℕ, ◌+◌, String, ◌≡◌, Option, none, some, ltb, leb, if◌then◌else◌}
use hexeris_beta.Base.Dict.{Dict, lookup, insert}

-- The claims of a token; `sub` is `none` where it is no string.
pub record Claims : Type 0 where
  pub sub : Option String
  pub iat : ℕ
  pub exp : ℕ

-- The JWT library with the server's secret: a token that it signed parses to its claims until it
-- expires, and not from then on.
pub record Jwt : Type 0 where
  pub sign : Claims → String
  pub parse : ℕ → String → Option Claims
  pub parse_sign :
      (now : ℕ) (c : Claims) → parse now (sign c) ≡ (if ltb now c.exp then some c else none)

-- Thirty days, in seconds.
abbrev pub token_life : ℕ
token_life = 2_592_000

unfoldable pub generate_token_at : Jwt → String → ℕ → String
generate_token_at jwt username iat =
    jwt.sign (record { sub = some username; iat = iat; exp = iat + token_life })

unfoldable pub set_logout_cutoff : String → ℕ → Dict ℕ → Dict ℕ
set_logout_cutoff username at cutoffs = insert username at cutoffs

unfoldable pub after_cutoff : String → ℕ → Option ℕ → Option String
after_cutoff username iat none = some username
after_cutoff username iat (some cutoff) = if leb iat cutoff then none else some username

unfoldable pub check_claims : Dict ℕ → Option Claims → Option String
unfolding after_cutoff
check_claims cutoffs none = none
check_claims cutoffs (some c) = elim c.sub [
  | none ↦ none
  | some username ↦ after_cutoff username c.iat (lookup username cutoffs)
]

-- The user of a token, at a time.
unfoldable pub validate_token : Jwt → Dict ℕ → ℕ → String → Option String
unfolding check_claims
validate_token jwt cutoffs now token = check_claims cutoffs (jwt.parse now token)
