-- ===== src/Base/Assoc.antt =====
-- Go maps with string keys, as association lists. A write replaces the entry of its key, or adds
-- one at the end; `delete` removes every entry of its key. Where the source ranges over a map, the
-- model goes through the entries in their order in the list.
use mathlib.Core.Path.{◌≡◌, refl}
use mathlib.Core.Bool.{Bool, true}
use mathlib.Core.Option.{Option, none, some}
use mathlib.Core.List.{List, [], ◌∷◌}
use native.Mathlib.Omega.{arith}
use finance_app.Base.Tests.{if◌then◌else◌}
use finance_app.Base.Text.{Text, text_eq, text_eq_iff}

abbrev pub Map {ℓ} : Type ℓ → Type ℓ
Map V = List (Text × V)

module _ {ℓ} {V : Type ℓ} where
  unfoldable pub lookup : Text → Map V → Option V
  lookup k [] = none
  lookup k ((j, v) ∷ m) = if text_eq j k then some v else lookup k m

  unfoldable pub insert : Text → V → Map V → Map V
  insert k v [] = (k, v) ∷ []
  insert k v ((j, w) ∷ m) = if text_eq j k then (k, v) ∷ m else (j, w) ∷ insert k v m

  unfoldable pub erase : Text → Map V → Map V
  erase k [] = []
  erase k ((j, w) ∷ m) = let rest = erase k m in if text_eq j k then rest else (j, w) ∷ rest

  abbrev pub values : Map V → List V
  values [] = []
  values ((_, v) ∷ m) = v ∷ values m

  -- The entries whose value passes a test: what is left after `for k, v := range m { if !p(v) {
  -- delete(m, k) } }`.
  abbrev pub keep_values : (V → Bool) → Map V → Map V
  keep_values p [] = []
  keep_values p ((k, v) ∷ m) = let rest = keep_values p m in if p v then (k, v) ∷ rest else rest

module _ {ℓ} {V : Type ℓ} where
  pub lookup-insert :
      (k j : Text) (v : V) (m : Map V)
      → lookup j (insert k v m) ≡ (if text_eq k j then some v else lookup j m)
  unfolding lookup insert
  lookup-insert k j v [] = refl
  lookup-insert k j v ((i, w) ∷ m) =
      ground (arith, text_eq_iff k j, text_eq_iff i k, text_eq_iff i j, lookup-insert k j v m)

  pub lookup-erase :
      (k j : Text) (m : Map V) → lookup j (erase k m) ≡ (if text_eq k j then none else lookup j m)
  unfolding lookup erase
  lookup-erase k j [] = ground arith
  lookup-erase k j ((i, w) ∷ m) =
      ground (arith, text_eq_iff k j, text_eq_iff i k, text_eq_iff i j, lookup-erase k j m)

  pub lookup-nil : (k : Text) → lookup {V = V} k [] ≡ none
  unfolding lookup
  lookup-nil k = refl

  -- No key is listed twice, as in a Go map.
  abbrev pub IsUnique : Map V → Type ℓ
  IsUnique [] = Unit
  IsUnique ((k, _) ∷ m) = (lookup k m ≡ none) × IsUnique m

  pub insert-IsUnique : (k : Text) (v : V) (m : Map V) → IsUnique m → IsUnique (insert k v m)
  unfolding insert
  insert-IsUnique k v [] u = (lookup-nil k, tt)
  insert-IsUnique k v ((j, w) ∷ m) u =
      ground (arith, text_eq_iff j k, text_eq_iff k j, insert-IsUnique k v m, lookup-insert k j v m)

  pub erase-IsUnique : (k : Text) (m : Map V) → IsUnique m → IsUnique (erase k m)
  unfolding erase
  erase-IsUnique k [] u = tt
  erase-IsUnique k ((j, w) ∷ m) u = ground (arith, erase-IsUnique k m, lookup-erase k j m)

  pub lookup-keep_values-none :
      (p : V → Bool) (k : Text) (m : Map V) → lookup k m ≡ none → lookup k (keep_values p m) ≡ none
  unfolding lookup
  lookup-keep_values-none p k [] h = refl
  lookup-keep_values-none p k ((j, w) ∷ m) h = ground (arith, lookup-keep_values-none p k m)

  pub lookup-keep_values :
      (p : V → Bool) (k : Text) (v : V) (m : Map V)
      → IsUnique m
      → lookup k (keep_values p m) ≡ some v
      → (lookup k m ≡ some v) × (p v ≡ true)
  unfolding lookup
  lookup-keep_values p k v [] u h = cc
  lookup-keep_values p k v ((j, w) ∷ m) u h =
      ground (arith, text_eq_iff j k, lookup-keep_values p k v m, lookup-keep_values-none p k m)
