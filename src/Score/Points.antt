-- ===== src/Score/Points.antt =====
-- The points of a team.
use mathlib.Core.List.{foldl}
use tinyrange_ad.Common.{
  ℕ, zero, suc, ◌<◌, List, [], ◌∷◌, Bool, true, none, some, if◌then◌else◌, ℤ, pos, negsuc, length,
  get_elem?, ◌≡◌, refl, arith, All, map, Bool-cases, inl, inr,
}
use tinyrange_ad.Common.Outcome.{ok}
use tinyrange_ad.Config.{Config, ServiceConfig}
use tinyrange_ad.Score.{
  Float, ServiceState, TeamState, set_service_overall_score, index_service, score_services,
  set_team_overall_score,
}

module _ (fl : Float) where
  open fl use {F, zero_f, add}

  -- An index into the configured services.
  abbrev pub InRange : Config F → ℤ → Type 0
  InRange config (pos n) = n < length config.vulnbox.services
  InRange config (negsuc n) = ⊥

  -- Whether the service at the index is private; the value out of range is never used.
  abbrev pub is_private : Config F → ℤ → Bool
  is_private config (pos n) = elim (get_elem? config.vulnbox.services n) [
    | none ↦ true
    | some c ↦ c.private_service
  ]
  is_private config (negsuc n) = true

  -- The points of the services that are not private, in the order of the map.
  unfoldable pub counted : Config F → List (ℤ × ServiceState F) → List F
  counted config [] = []
  counted config ((i, s) ∷ services) =
      let rest = counted config services in
      if is_private config i then rest else (set_service_overall_score fl config s).points ∷ rest

  -- The services with their points set.
  abbrev pub rescored : Config F → List (ℤ × ServiceState F) → List (ℤ × ServiceState F)
  rescored config = map (λ e. (e.0, set_service_overall_score fl config e.1))

  get_elem?-lt {ℓ} :
      {A : Type ℓ} (l : List A) (n : ℕ) → n < length l → (a : A) × (get_elem? l n ≡ some a)
  get_elem?-lt [] n h = absurd (omega arith)
  get_elem?-lt (x ∷ l) zero h = (x, refl)
  get_elem?-lt (x ∷ l) (suc n) h = get_elem?-lt l n (omega arith)

  index_service_lem :
      (config : Config F) (i : ℤ)
      → InRange config i
      → (c : ServiceConfig) × (index_service fl config.vulnbox.services i ≡ ok c)
        × (is_private config i ≡ c.private_service)
  unfolding index_service
  index_service_lem config (pos n) h =
      let (c, e) = get_elem?-lt config.vulnbox.services n h in
      (c, rw e refl, rw (e, is_private) refl)
  index_service_lem config (negsuc n) h = absurd h

  score_services-sum :
      (config : Config F) (score : F) (services : List (ℤ × ServiceState F))
      → All (λ e. InRange config e.0) services
      → score_services fl config score services
        ≡ ok (foldl add score (counted config services), rescored config services)
  unfolding score_services counted
  score_services-sum config score [] h = refl
  score_services-sum config score ((i, s) ∷ services) h =
      let (c, e, private) = index_service_lem config i h.0 in
      elim (Bool-cases c.private_service) [
        | inl p ↦ rw (e, private, p, score_services-sum config score services h.1)
        | inr p ↦ rw (
          e,
          private,
          p,
          score_services-sum config (add score (set_service_overall_score fl config s).points)
              services h.1,
        )
      ]

  -- With every service of the team among the configured ones, nothing panics; every service gets
  -- its points, and the team the sum of those that are not private, added up from 0.
  pub set_team_overall_score-sum :
      (config : Config F) (team : TeamState F)
      → All (λ e. InRange config e.0) team.services
      → set_team_overall_score fl config team
        ≡ ok (record team {
          points = foldl add zero_f (counted config team.services);
          services = rescored config team.services;
        })
  unfolding set_team_overall_score
  set_team_overall_score-sum config team h = rw (score_services-sum config zero_f team.services h)
