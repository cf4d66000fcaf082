-- ===== src/Common/Dict/Entries.antt =====
-- What holds of every entry of a map, after what the program does to maps.
use mathlib.Core.Path.{◌≡◌, subst, sym}
use mathlib.Core.Option.{some}
use mathlib.Core.List.{List, [], ◌∷◌}
use mathlib.Core.Logic.{inl, inr}
use native.Mathlib.Omega.{arith}
use tinyrange_ad.Common.Tests.{Bool-cases}
use tinyrange_ad.Common.Lists.{All}
use tinyrange_ad.Common.Dict.{Eq, lookup, insert, modify}

module _ {K V : Type 0} ⦃e : Eq K⦄ (P : K × V → Type 0) where
  pub All-insert : (k : K) (v : V) (m : List (K × V)) → P (k, v) → All P m → All P (insert k v m)
  unfolding insert
  All-insert k v [] here h = (here, tt)
  All-insert k v ((j, w) ∷ m) here h =
      let ih = All-insert k v m here h.1 in
      elim (Bool-cases (e.beq j k)) [
        | inl same ↦ rw same (subst (λ q. P (q, v)) (sym ((e.beq_iff j k).0 same)) here, h.1)
        | inr other ↦ rw other (h.0, ih)
      ]

  pub lookup-All : (k : K) (v : V) (m : List (K × V)) → lookup k m ≡ some v → All P m → P (k, v)
  unfolding lookup
  lookup-All k v [] found h = absurd (cc)
  lookup-All k v ((j, w) ∷ m) found h = elim (Bool-cases (e.beq j k)) [
    | inl same ↦
        let is_value : w ≡ v = ground (arith, found, same) in
        subst (λ x. P (k, x)) is_value (subst (λ q. P (q, w)) ((e.beq_iff j k).0 same) h.0)
    | inr other ↦ lookup-All k v m (ground (arith, found, other)) h.1
  ]

  pub All-modify :
      (k : K) (f : V → V) (m : List (K × V))
      → ((j : K) (w : V) → P (j, w) → P (j, f w))
      → All P m
      → All P (modify k f m)
  unfolding modify
  All-modify k f [] keeps h = tt
  All-modify k f ((j, w) ∷ m) keeps h =
      let ih = All-modify k f m keeps h.1 in
      elim (Bool-cases (e.beq j k)) [
        | inl same ↦ rw same (keeps j w h.0, h.1)
        | inr other ↦ rw other (h.0, ih)
      ]
