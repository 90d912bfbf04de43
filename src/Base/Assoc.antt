-- ===== src/Base/Assoc.antt =====
-- Go maps with text keys, as association lists. The order of the list is the order of a `range`
-- loop, which Go leaves open: what holds for every list holds for every order.
use kube_loxilb.Base.Tests.{◌==◌, if◌then◌else◌, string_eq}
use Prim.Native.String.{String}
use mathlib.Core.Path.{◌≡◌, refl}
use mathlib.Core.Option.{Option, none, some}
use mathlib.Core.List.{List, [], ◌∷◌}
use native.Mathlib.Omega.{arith}
use text.Mathlib.TextEquality.{eq_iff}

abbrev pub Assoc {ℓ} : Type ℓ → Type ℓ
Assoc V = List (String × V)

module _ {ℓ} {V : Type ℓ} where
  unfoldable pub lookup : String → Assoc V → Option V
  lookup key [] = none
  lookup key ((name, val) ∷ rest) = if name == key then some val else lookup key rest

  unfoldable pub insert : String → V → Assoc V → Assoc V
  insert key new [] = (key, new) ∷ []
  insert key new ((name, val) ∷ rest) =
      let later = insert key new rest in
      if name == key then (key, new) ∷ rest else (name, val) ∷ later

  unfoldable pub remove : String → Assoc V → Assoc V
  remove key [] = []
  remove key ((name, val) ∷ rest) =
      let later = remove key rest in if name == key then later else (name, val) ∷ later

  pub lookup-insert :
      (key asked : String) (new : V) (map : Assoc V)
      → lookup asked (insert key new map) ≡ (if key == asked then some new else lookup asked map)
  unfolding lookup insert
  lookup-insert key asked new [] = refl
  lookup-insert key asked new ((name, val) ∷ rest) = ground (
    arith,
    lookup-insert key asked new rest,
    eq_iff key asked,
    eq_iff name key,
    eq_iff name asked,
  )

  pub lookup-remove :
      (key asked : String) (map : Assoc V)
      → lookup asked (remove key map) ≡ (if key == asked then none else lookup asked map)
  unfolding lookup remove
  lookup-remove key asked [] = ground arith
  lookup-remove key asked ((name, val) ∷ rest) =
      ground
        (arith, lookup-remove key asked rest, eq_iff key asked, eq_iff name key, eq_iff name asked)
