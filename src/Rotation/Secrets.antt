-- ===== src/Rotation/Secrets.antt =====
-- `rotateTOTPSecrets` of server/rotatekey.go: the column totp_secret of the table of users.
use hexeris_beta.Base.{
  ℕ, suc, ◌+◌, String, Option, none, some, Bool, true, false, List, [], ◌∷◌, ◌=s=◌, if◌then◌else◌,
}
use hexeris_beta.Base.Dict.{Dict}
use hexeris_beta.Rotation.Rows.{Rotation, Verdict, dies, would_rotate, renewed, judge, Counts}

-- `none` is NULL.
abbrev pub Secrets : Type 0
Secrets = Dict (Option String)

-- `WHERE totp_secret IS NOT NULL AND totp_secret <> ''`
unfoldable pub with_secret : Secrets → List (String × String)
with_secret [] = []
with_secret ((user, none) ∷ rest) = with_secret rest
with_secret ((user, some secret) ∷ rest) =
    let later = with_secret rest in if secret =s= "" then later else (user, secret) ∷ later

-- `UPDATE users SET totp_secret=$2 WHERE username=$1`
unfoldable pub set_secret : String → String → Secrets → Secrets
set_secret user secret [] = []
set_secret user secret (entry ∷ rest) =
    let later = set_secret user secret rest in
    if entry.0 =s= user then (entry.0, some secret) ∷ later else entry ∷ later

abbrev pub SecretProgress : Type 0
SecretProgress = Secrets × Counts × Bool

abbrev go_on_secrets : SecretProgress → (Secrets → Counts → SecretProgress) → SecretProgress
go_on_secrets (t, c, true) next = next t c
go_on_secrets (t, c, false) next = (t, c, false)

unfoldable apply_secret : Bool → String → Verdict → Secrets → Counts → SecretProgress
unfolding set_secret
apply_secret up user Verdict.already t c = (t, record c { already = c.already + 1 }, true)
apply_secret up user Verdict.foreign t c = (t, record c { foreign = c.foreign + 1 }, true)
apply_secret up user would_rotate t c = (t, record c { rotated = c.rotated + 1 }, true)
apply_secret up user dies t c = (t, c, false)
apply_secret up user (renewed enc) t c =
    if up
    then (set_secret user enc t, record c { rotated = c.rotated + 1 }, true)
    else (t, c, false)

-- `up` says for every user whether the UPDATE works; the item number is the place in the batch.
module _ (ro : Rotation) (up : String → Bool) where
  unfoldable rotate_each : ℕ → List (String × String) → Secrets → Counts → SecretProgress
  unfolding apply_secret judge
  rotate_each i [] t c = (t, c, true)
  rotate_each i ((user, secret) ∷ rest) t c =
      go_on_secrets (apply_secret (up user) user (judge ro i secret) t c) (rotate_each (suc i) rest)

  -- A database without the column is skipped.
  unfoldable pub rotate_totp_secrets : Bool → Secrets → Counts → SecretProgress
  unfolding rotate_each with_secret
  rotate_totp_secrets true t c = rotate_each 0 (with_secret t) t c
  rotate_totp_secrets false t c = (t, c, true)
