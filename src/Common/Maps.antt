-- ===== src/Common/Maps.antt =====
-- Go's map[string]V as an association list.
use Prim.Native.String.{String}
use mathlib.Core.Path.{◌≡◌, refl}
use mathlib.Core.List.{List, [], ◌∷◌}
use mathlib.Core.Option.{Option, none, some}
use native.Mathlib.Omega.{arith}
use text.Mathlib.TextEquality.{eq_iff}
use text.Mathlib.TextPositions.{eq_refl}
use saucepan.Common.Tests.{◌==◌, string_eq, if◌then◌else◌}

abbrev pub Mapping {ℓ} : Type ℓ → Type ℓ
Mapping V = List (String × V)

module _ {κ} {T : Type κ} where
  -- m[key], with `none` for a missing key
  unfoldable pub lookup : String → Mapping T → Option T
  lookup key [] = none
  lookup key ((head, value) ∷ rest) = if head == key then some value else lookup key rest

  -- delete(m, key)
  unfoldable pub delete : String → Mapping T → Mapping T
  delete key [] = []
  delete key ((head, value) ∷ rest) =
      let others = delete key rest in if head == key then others else (head, value) ∷ others

  -- m[key] = value: an entry that is there keeps its place.
  unfoldable pub insert : String → T → Mapping T → Mapping T
  insert key value [] = (key, value) ∷ []
  insert key value ((head, old) ∷ rest) =
      if head == key then (head, value) ∷ rest else (head, old) ∷ insert key value rest

  pub lookup-delete :
      (key wanted : String) (m : Mapping T)
      → lookup wanted (delete key m) ≡ (if key == wanted then none else lookup wanted m)
  unfolding lookup delete
  lookup-delete key wanted [] = ground arith
  lookup-delete key wanted ((head, value) ∷ rest) =
      let ih = lookup-delete key wanted rest in
      ground (arith, ih, eq_iff head wanted, eq_iff head key, eq_iff key wanted)

  pub lookup-insert :
      (key wanted : String) (value : T) (m : Mapping T)
      → lookup wanted (insert key value m) ≡ (if key == wanted then some value else lookup wanted m)
  unfolding lookup insert
  lookup-insert key wanted value [] = refl
  lookup-insert key wanted value ((head, old) ∷ rest) =
      let ih = lookup-insert key wanted value rest in
      ground (arith, ih, eq_iff head wanted, eq_iff head key, eq_iff key wanted)

pub ruleset mapping_laws = (lookup-insert, lookup-delete, eq_refl)
