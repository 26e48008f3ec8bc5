-- ===== src/Base/Map.antt =====
-- HashMap, as an association list with one entry for a key. The source never iterates over a map.
use mathlib.Core.Path.{◌≡◌, refl}
use mathlib.Core.List.{List, [], ◌∷◌}
use mathlib.Core.Option.{Option, none, some}
use mathlib.Core.Logic.{◌≢◌}
use native.Mathlib.Omega.{arith}
use cofferwire.Base.Tests.{Comparable, ◌==◌, if◌then◌else◌}

abbrev pub Map {ℓ κ} : Type ℓ → Type κ → Type (ℓ ⊔ κ)
Map K V = List (K × V)

module _ {ℓ κ} {K : Type ℓ} {V : Type κ} ⦃e : Comparable K⦄ where
  unfoldable pub get : K → Map K V → Option V
  get key [] = none
  get key ((other, value) ∷ entries) = if other == key then some value else get key entries

  -- The entry of a key that is there is overwritten in its place.
  unfoldable pub insert : K → V → Map K V → Map K V
  insert key value [] = (key, value) ∷ []
  insert key value ((other, old) ∷ entries) =
      if other == key then (key, value) ∷ entries else (other, old) ∷ insert key value entries

  unfoldable pub remove : K → Map K V → Map K V
  remove key [] = []
  remove key ((other, value) ∷ entries) =
      let rest = remove key entries in if other == key then rest else (other, value) ∷ rest

  pub get-insert :
      (key other : K) (value : V) (entries : Map K V)
      → get other (insert key value entries)
        ≡ (if key == other then some value else get other entries)
  unfolding get insert
  get-insert key other value [] = refl
  get-insert key other value ((here, old) ∷ entries) = ground (
    arith,
    e.same_iff key other,
    e.same_iff here key,
    e.same_iff here other,
    get-insert key other value entries,
  )

  pub get-remove :
      (key other : K) (entries : Map K V)
      → get other (remove key entries) ≡ (if key == other then none else get other entries)
  unfolding get remove
  get-remove key other [] = ground arith
  get-remove key other ((here, old) ∷ entries) = ground (
    arith,
    e.same_iff key other,
    e.same_iff here key,
    e.same_iff here other,
    get-remove key other entries,
  )

  pub get-insert_self :
      (key : K) (value : V) (entries : Map K V) → get key (insert key value entries) ≡ some value
  get-insert_self key value entries =
      ground (arith, get-insert key key value entries, e.same_iff key key)

  pub get-insert_ne :
      (key other : K) (value : V) (entries : Map K V)
      → key ≢ other
      → get other (insert key value entries) ≡ get other entries
  get-insert_ne key other value entries h =
      ground (arith, get-insert key other value entries, e.same_iff key other)

  pub get-remove_self : (key : K) (entries : Map K V) → get key (remove key entries) ≡ none
  get-remove_self key entries = ground (arith, get-remove key key entries, e.same_iff key key)

  pub get-remove_ne :
      (key other : K) (entries : Map K V)
      → key ≢ other
      → get other (remove key entries) ≡ get other entries
  get-remove_ne key other entries h =
      ground (arith, get-remove key other entries, e.same_iff key other)
