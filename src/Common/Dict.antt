-- ===== src/Common/Dict.antt =====
-- Go maps as association lists over keys with a Boolean equality. The order of the list is the
-- order in which a `range` over the map meets the entries, which Go leaves open.
pub mod Entries
use mathlib.Core.Path.{◌≡◌, refl}
use mathlib.Core.Logic.{◌↔◌}
use mathlib.Core.Bool.{Bool, true}
use mathlib.Core.Option
use mathlib.Core.Option.{Option, none, some}
use mathlib.Core.List.{List, [], ◌∷◌}
use native.Mathlib.Omega.{arith}
use tinyrange_ad.Common.Tests.{if◌then◌else◌}
use tinyrange_ad.Common.Int.{ℤ, ◌==ℤ◌, ==ℤ_iff}
use tinyrange_ad.Common.Text.{Bytes, eqb, eqb_iff}

pub record Eq (K : Type 0) : Type 0 where
  pub beq : K → K → Bool
  pub beq_iff : (a b : K) → (beq a b ≡ true) ↔ (a ≡ b)

instance abbrev pub int_eq : Eq ℤ
int_eq = record { beq = ◌==ℤ◌; beq_iff = ==ℤ_iff }

instance abbrev pub bytes_eq : Eq Bytes
bytes_eq = record { beq = eqb; beq_iff = eqb_iff }

pub beq_refl : {K : Type 0} ⦃e : Eq K⦄ (k : K) → e.beq k k ≡ true
beq_refl ⦃e⦄ k = (e.beq_iff k k).1 refl

module _ {ℓ} {K : Type 0} {V : Type ℓ} ⦃e : Eq K⦄ where
  -- `m[k]`, with `none` for a missing key.
  unfoldable pub lookup : K → List (K × V) → Option V
  lookup k [] = none
  lookup k ((j, v) ∷ m) = if e.beq j k then some v else lookup k m

  -- `m[k] = v`.
  unfoldable pub insert : K → V → List (K × V) → List (K × V)
  insert k v [] = (k, v) ∷ []
  insert k v ((j, w) ∷ m) = if e.beq j k then (j, v) ∷ m else (j, w) ∷ insert k v m

  -- `delete(m, k)`.
  unfoldable pub delete : K → List (K × V) → List (K × V)
  delete k [] = []
  delete k ((j, w) ∷ m) = if e.beq j k then delete k m else (j, w) ∷ delete k m

  -- A write to the value that a stored pointer refers to; a missing key is left missing.
  unfoldable pub modify : K → (V → V) → List (K × V) → List (K × V)
  modify k f [] = []
  modify k f ((j, w) ∷ m) = if e.beq j k then (j, f w) ∷ m else (j, w) ∷ modify k f m

  pub lookup-insert :
      (k q : K) (v : V) (m : List (K × V))
      → lookup q (insert k v m) ≡ (if e.beq k q then some v else lookup q m)
  unfolding lookup insert
  lookup-insert k q v [] = refl
  lookup-insert k q v ((j, w) ∷ m) =
      ground (arith, e.beq_iff k q, e.beq_iff j k, e.beq_iff j q, lookup-insert k q v m)

  pub lookup-delete :
      (k q : K) (m : List (K × V))
      → lookup q (delete k m) ≡ (if e.beq k q then none else lookup q m)
  unfolding lookup delete
  lookup-delete k q [] = ground arith
  lookup-delete k q ((j, w) ∷ m) =
      ground (arith, e.beq_iff k q, e.beq_iff j k, e.beq_iff j q, lookup-delete k q m)

  pub lookup-modify :
      (k q : K) (f : V → V) (m : List (K × V))
      → lookup q (modify k f m) ≡ (if e.beq k q then Option.map f (lookup q m) else lookup q m)
  unfolding lookup modify
  lookup-modify k q f [] = ground arith
  lookup-modify k q f ((j, w) ∷ m) =
      ground (arith, e.beq_iff k q, e.beq_iff j k, e.beq_iff j q, lookup-modify k q f m)
