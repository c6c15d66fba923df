-- ===== src/Base/Dict.antt =====
-- A Go map with string keys, as an association list: a read, a write, `delete`.
use mathlib.Core.Path.{◌≡◌, refl}
use mathlib.Core.Option.{Option, none, some}
use mathlib.Core.List.{List, [], ◌∷◌}
use native.Mathlib.Omega.{arith}
use Prim.Native.String.{String}
use text.Mathlib.Text.{◌==◌}
use text.Mathlib.TextEquality.{eq_iff}
use hexeris_beta.Base.Tests.{if◌then◌else◌}

abbrev pub Dict {ℓ} : Type ℓ → Type ℓ
Dict V = List (String × V)

module _ {ℓ} {V : Type ℓ} where
  unfoldable pub lookup : String → Dict V → Option V
  lookup key [] = none
  lookup key (entry ∷ rest) =
      let later = lookup key rest in if entry.0 == key then some entry.1 else later

  -- The entry of the key is replaced where it stands, or added at the end.
  unfoldable pub insert : String → V → Dict V → Dict V
  insert key value [] = (key, value) ∷ []
  insert key value (entry ∷ rest) =
      let later = insert key value rest in
      if entry.0 == key then (key, value) ∷ rest else entry ∷ later

  unfoldable pub delete : String → Dict V → Dict V
  delete key [] = []
  delete key (entry ∷ rest) =
      let later = delete key rest in if entry.0 == key then later else entry ∷ later

  pub lookup-insert :
      (written read : String) (value : V) (entries : Dict V)
      → lookup read (insert written value entries)
        ≡ (if written == read then some value else lookup read entries)
  unfolding lookup insert
  lookup-insert written read value [] = refl
  lookup-insert written read value (entry ∷ rest) = ground (
    arith,
    lookup-insert written read value rest,
    eq_iff entry.0 read,
    eq_iff entry.0 written,
    eq_iff written read,
  )

  pub lookup-delete :
      (gone read : String) (entries : Dict V)
      → lookup read (delete gone entries) ≡ (if gone == read then none else lookup read entries)
  unfolding lookup delete
  lookup-delete gone read [] = ground arith
  lookup-delete gone read (entry ∷ rest) = ground (
    arith,
    eq_iff gone read,
    eq_iff entry.0 gone,
    eq_iff entry.0 read,
    lookup-delete gone read rest,
  )
