-- ===== src/Score/Ranking.antt =====
-- Scores and positions.
use mathlib.Core.List.{Perm, Pairwise, Pairwise-map}
use mathlib.Core.List.Perm
use mathlib.Core.List.Pairwise
use mathlib.Core.Path.{subst}
use native.Mathlib.Bridge.{le_prop}
use tinyrange_ad.Common.{
  ℕ, suc, ◌+◌, ◌≤◌, ◌<◌, ◌^◌, List, [], ◌∷◌, ℤ, pos, ◌≡◌, refl, sym, ap, arith, All, map,
}
use tinyrange_ad.Common.Int.{◌-ℤ◌, ◌≤ℤ◌, ltb_ℤ, wrap64, -ℤ_parts, pos_part, neg_part}
use tinyrange_ad.Common.Outcome.{ok}
use tinyrange_ad.Config.{Config}
use tinyrange_ad.Score.{
  Float, SortFunc, TeamState, ScoreboardState, score_teams, compare_points, number, rank,
}

-- The positions are the places in the list, from 1 on.
abbrev pub Numbered : {F : Type 0} → ℕ → List (ℤ × TeamState F) → Type 0
Numbered i [] = Unit
Numbered i ((id, t) ∷ teams) = (t.position ≡ i + 1) × Numbered (suc i) teams

-- A number that an int holds with room for a difference.
abbrev pub Small : ℤ → Type 0
Small z = (pos_part z < 2 ^ 62) × (neg_part z ≤ 2 ^ 62)

compare-Small :
    (a b : ℤ)
    → Small a
    → Small b
    → ltb_ℤ (wrap64 (b -ℤ a)) (pos 0) ≡ ltb_ℤ (pos 0 -ℤ a) (pos 0 -ℤ b)
unfolding wrap64 ◌-ℤ◌
compare-Small a b ha hb = ground arith

module _ (fl : Float) where
  open fl use {F, to_int}

  number-Numbered : (i : ℕ) (teams : List (ℤ × TeamState F)) → Numbered i (number fl i teams)
  unfolding number
  number-Numbered i [] = tt
  number-Numbered i (e ∷ teams) = (refl, number-Numbered (suc i) teams)

  -- An entry but for the position.
  abbrev pub unplaced : ℤ × TeamState F → ℤ × TeamState F
  unplaced e = (e.0, record e.1 { position = 0 })

  number-unplaced :
      (i : ℕ) (teams : List (ℤ × TeamState F))
      → map unplaced (number fl i teams) ≡ map unplaced teams
  unfolding number
  number-unplaced i [] = refl
  number-unplaced i (e ∷ teams) = ap (◌∷◌ (unplaced e)) (number-unplaced (suc i) teams)

  -- What the sort looks at.
  abbrev pub int_points : ℤ × TeamState F → ℤ
  int_points e = to_int e.1.points

  -- Every team keeps its data, the positions are 1, 2, … down the list, and no team stands behind
  -- one with a lower integer part of its points.
  pub record Ranked (scored teams : List (ℤ × TeamState F)) : Type 0 where
    pub same_teams : Perm (map unplaced scored) (map unplaced teams)
    pub numbered : Numbered 0 teams
    pub descending : Pairwise (λ x y. int_points y ≤ℤ int_points x) teams

  All-weaken :
      (P Q : ℤ × TeamState F → Type 0) (l : List (ℤ × TeamState F))
      → ((e : ℤ × TeamState F) → P e → Q e)
      → All P l
      → All Q l
  All-weaken P Q [] f h = tt
  All-weaken P Q (e ∷ l) f h = (f e h.0, All-weaken P Q l f h.1)

  compares :
      (l : List (ℤ × TeamState F))
      → All (λ e. Small (int_points e)) l
      → All
          (λ x.
            All
              (λ y.
                ltb_ℤ (compare_points fl x y) (pos 0)
                ≡ ltb_ℤ (pos 0 -ℤ int_points x) (pos 0 -ℤ int_points y))
              l)
          l
  unfolding compare_points
  compares l small =
      All-weaken _ _ l
        (λ x hx. All-weaken _ _ l (λ y hy. compare-Small (int_points x) (int_points y) hx hy) small)
        small

  neg_mono : (a b : ℤ) → pos 0 -ℤ a ≤ℤ pos 0 -ℤ b → b ≤ℤ a
  neg_mono a b h = omega (arith, -ℤ_parts (pos 0) a, -ℤ_parts (pos 0) b)

  number-int_points :
      (i : ℕ) (teams : List (ℤ × TeamState F))
      → map int_points (number fl i teams) ≡ map int_points teams
  unfolding number
  number-int_points i [] = refl
  number-int_points i (e ∷ teams) = ap (◌∷◌ (int_points e)) (number-int_points (suc i) teams)

  abbrev Descending : List ℤ → Type 0
  Descending = Pairwise (λ a b. b ≤ℤ a)

  number-Pairwise :
      (i : ℕ) (teams : List (ℤ × TeamState F))
      → Pairwise (λ x y. int_points y ≤ℤ int_points x) teams
      → Pairwise (λ x y. int_points y ≤ℤ int_points x) (number fl i teams)
  number-Pairwise i teams h = (Pairwise-map {R = λ a b. b ≤ℤ a} (λ a b. le_prop) int_points).0 (
      subst Descending (sym (number-int_points i teams))
        ((Pairwise-map {R = λ a b. b ≤ℤ a} (λ a b. le_prop) int_points).1 h))

  -- The board that `rank` returns has the scored teams, ranked by the integer parts of their points,
  -- if these leave an int's differences room.
  pub rank-Ranked :
      (sorter : SortFunc) (config : Config F) (result : ScoreboardState F)
      (scored : List (ℤ × TeamState F))
      → score_teams fl config result.teams ≡ ok scored
      → All (λ e. Small (int_points e)) scored
      → (teams : List (ℤ × TeamState F)) × (rank fl sorter config result
          ≡ ok (record result { teams = teams }))
        × Ranked scored teams
  unfolding rank
  rank-Ranked sorter config result scored h small =
      let sorted = sorter.sort (compare_points fl) scored in
      (
        number fl 0 sorted,
        rw h refl,
        record {
          same_teams =
              rw (number-unplaced 0 sorted)
                (Perm.map unplaced (sorter.sort-perm (compare_points fl) scored));
          numbered = number-Numbered 0 sorted;
          descending = number-Pairwise 0 sorted (
              Pairwise.imp (λ a b le. neg_mono (int_points a) (int_points b) le)
                (sorter.sort_sorted (compare_points fl) (λ e. pos 0 -ℤ int_points e) scored
                  (compares scored small)));
        },
      )
