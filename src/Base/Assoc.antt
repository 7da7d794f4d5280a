-- ===== src/Base/Assoc.antt =====
-- Go's `map[K]V` as an association list with one entry for each key, over an equality test.
use mathlib.Core.Path.{◌≡◌, refl}
use mathlib.Core.Logic.{◌↔◌}
use mathlib.Core.Bool.{Bool, true}
use mathlib.Core.Option.{Option, none, some}
use mathlib.Core.List.{List, [], ◌∷◌}
use native.Mathlib.Omega.{arith}
use cloudetcd.Base.Tests.{nat_beq, nat_beq_iff, if◌then◌else◌}
use cloudetcd.Base.Lists.{Bytes, bytes_equal, bytes_equal_iff}
use Prim.Native.Nat.{ℕ}

-- The test that `==` is on keys, and what it decides.
pub record Eq {ℓ} (K : Type ℓ) : Type ℓ where
  pub equals : K → K → Bool
  pub equals_iff : (k j : K) → (equals k j ≡ true) ↔ (k ≡ j)

abbrev pub ◌==◌ {ℓ} : {K : Type ℓ} ⦃keys : Eq K⦄ → K → K → Bool
◌==◌ ⦃keys⦄ = keys.equals

infix 50 ◌==◌
instance abbrev pub bytes_eq : Eq Bytes
bytes_eq = record { equals = bytes_equal; equals_iff = bytes_equal_iff }

instance abbrev pub nat_eq : Eq ℕ
nat_eq = record { equals = nat_beq; equals_iff = nat_beq_iff }

module _ {ℓ κ} {K : Type ℓ} {V : Type κ} ⦃keys : Eq K⦄ where
  -- `m[key]`, with the second result of the two.
  unfoldable pub lookup : K → List (K × V) → Option V
  lookup key [] = none
  lookup key ((k, v) ∷ entries) = if k == key then some v else lookup key entries

  -- `m[key] = value`.
  unfoldable pub insert : K → V → List (K × V) → List (K × V)
  insert key value [] = (key, value) ∷ []
  insert key value ((k, v) ∷ entries) =
      let rest = insert key value entries in
      if k == key then (key, value) ∷ entries else (k, v) ∷ rest

  -- `delete(m, key)`.
  unfoldable pub delete : K → List (K × V) → List (K × V)
  delete key [] = []
  delete key ((k, v) ∷ entries) =
      let rest = delete key entries in if k == key then rest else (k, v) ∷ rest

  pub lookup-insert :
      (key j : K) (value : V) (entries : List (K × V))
      → lookup j (insert key value entries) ≡ (if key == j then some value else lookup j entries)
  unfolding insert lookup
  lookup-insert key j value [] = refl
  lookup-insert key j value ((k, v) ∷ entries) =
      let ih = lookup-insert key j value entries in
      ground (arith, ih, keys.equals_iff k key, keys.equals_iff k j, keys.equals_iff key j)

  pub lookup-delete :
      (key j : K) (entries : List (K × V))
      → lookup j (delete key entries) ≡ (if key == j then none else lookup j entries)
  unfolding delete lookup
  lookup-delete key j [] = ground arith
  lookup-delete key j ((k, v) ∷ entries) =
      let ih = lookup-delete key j entries in
      ground (arith, ih, keys.equals_iff k key, keys.equals_iff k j, keys.equals_iff key j)
