-- ===== src/Prelude/Dicts.antt =====
-- A Python dictionary with text keys: an association list in insertion order. A write to a key that
-- is there keeps its place.
use Prim.Native.String.{String}
use mathlib.Core.Path.{◌≡◌, refl}
use mathlib.Core.Bool.{Bool, false, ◌||◌}
use mathlib.Core.Option.{Option, none, some}
use mathlib.Core.List.{List, [], ◌∷◌}
use native.Mathlib.Omega.{arith}
use text.Mathlib.Text.{◌==◌ as str_eq}
use text.Mathlib.TextEquality.{eq_iff}
use log_foundry.Prelude.Tests.{if◌then◌else◌}

abbrev pub Dict {ℓ} : Type ℓ → Type ℓ
Dict Value = List (String × Value)

-- `key in names`
unfoldable pub member : String → List String → Bool
member key [] = false
member key (name ∷ names) = str_eq name key || member key names

module _ {ℓ} {Value : Type ℓ} where
  unfoldable pub lookup : String → Dict Value → Option Value
  lookup key [] = none
  lookup key ((name, held) ∷ rest) = if str_eq name key then some held else lookup key rest

  unfoldable pub insert : String → Value → Dict Value → Dict Value
  insert key value [] = (key, value) ∷ []
  insert key value ((name, held) ∷ rest) =
      if str_eq name key then (key, value) ∷ rest else (name, held) ∷ insert key value rest

  pub lookup-insert :
      (key asked : String) (value : Value) (dict : Dict Value)
      → lookup asked (insert key value dict)
        ≡ (if str_eq key asked then some value else lookup asked dict)
  unfolding lookup insert
  lookup-insert key asked value [] = refl
  lookup-insert key asked value ((name, held) ∷ rest) = ground (
    arith,
    eq_iff name asked,
    eq_iff name key,
    eq_iff key asked,
    lookup-insert key asked value rest,
  )
