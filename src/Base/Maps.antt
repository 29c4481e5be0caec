-- ===== src/Base/Maps.antt =====
-- Go's `map[string]V` as an association list, in the order in which `range` visits it.
use Prim.Native.String.{String}
use mathlib.Core.Path.{◌≡◌, refl}
use mathlib.Core.Option.{Option, none, some}
use mathlib.Core.List.{List, [], ◌∷◌}
use native.Mathlib.Omega.{arith}
use text.Mathlib.Text.{◌==◌}
use text.Mathlib.TextEquality.{eq_iff}
use picodata_operator.Base.Tests.{if◌then◌else◌}

module _ {ℓ} {V : Type ℓ} where
  -- `value, ok := m[key]`
  unfoldable pub lookup : String → List (String × V) → Option V
  lookup key [] = none
  lookup key ((name, value) ∷ rest) =
      let later = lookup key rest in if name == key then some value else later

  -- `m[key] = value`
  unfoldable pub insert : String → V → List (String × V) → List (String × V)
  insert key value [] = (key, value) ∷ []
  insert key value ((name, old) ∷ rest) =
      let later = insert key value rest in
      if name == key then (name, value) ∷ rest else (name, old) ∷ later

  pub lookup-insert :
      (rest : List (String × V)) (value : V) (key other : String)
      → lookup other (insert key value rest)
        ≡ (if key == other then some value else lookup other rest)
  unfolding lookup insert
  lookup-insert [] value key other = refl
  lookup-insert ((name, old) ∷ rest) value key other = ground (
    arith,
    lookup-insert rest value key other,
    eq_iff name other,
    eq_iff name key,
    eq_iff key other,
  )

abbrev pub Labels : Type 0
Labels = List (String × String)
