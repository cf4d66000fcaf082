-- ===== src/Score/Held.antt =====
-- Flags that a board holds are still there after the boards are summed up: `accumulate` of Score.
use mathlib.Core.List.{foldl}
use mathlib.Core.Option.{get_or}
use tinyrange_ad.Common.{
  List, [], ◌∷◌, ◌++◌, Bool, true, false, ◌&&◌, ◌||◌, Option, none, some, ℤ, ◌≡◌, ◌⊎◌, refl, arith,
  Bool-cases, inl, inr,
}
use tinyrange_ad.Common.Int.{◌==ℤ◌, ==ℤ_iff}
use tinyrange_ad.Common.Dict.{lookup, int_eq, lookup-insert}
use tinyrange_ad.Score.{
  FlagInfo, ServiceState, TeamState, ScoreboardState, new_service, new_team, add_service,
  merge_service, merge_team, merge_tick, accumulate,
}
use tinyrange_ad.Game.{has_flag}

module _ (team tick : ℤ) where
  pub has_flag-left :
      (xs ys : List FlagInfo) → has_flag team tick xs ≡ true → has_flag team tick (xs ++ ys) ≡ true
  unfolding has_flag
  has_flag-left [] ys h = absurd (cc)
  has_flag-left (f ∷ xs) ys h = ground (arith, has_flag-left xs ys)

  pub has_flag-right :
      (xs ys : List FlagInfo) → has_flag team tick ys ≡ true → has_flag team tick (xs ++ ys) ≡ true
  unfolding has_flag
  has_flag-right [] ys h = h
  has_flag-right (f ∷ xs) ys h = ground (arith, has_flag-right xs ys h)

  module _ {F : Type 0} (id service : ℤ) where
    -- An entry of a service, of a team, of a board that has the flag among its stolen ones.
    abbrev pub service_has : Option (ServiceState F) → Bool
    service_has none = false
    service_has (some s) = has_flag team tick s.stolen_flags

    abbrev pub team_has : Option (TeamState F) → Bool
    team_has none = false
    team_has (some t) = service_has (lookup service t.services)

    -- Some entry of the team has the flag, wherever it stands.
    abbrev pub anywhere : List (ℤ × TeamState F) → Bool
    anywhere [] = false
    anywhere (e ∷ teams) = e.0 ==ℤ id && team_has (some e.1) || anywhere teams

    pub lookup-anywhere :
        (teams : List (ℤ × TeamState F)) → team_has (lookup id teams) ≡ true → anywhere teams ≡ true
    unfolding lookup
    lookup-anywhere [] h = h
    lookup-anywhere ((j, t) ∷ teams) h = elim (Bool-cases (j ==ℤ id)) [
      | inl e ↦ let here : team_has (some t) ≡ true = rw e at h in rw (e, here) refl
      | inr e ↦
          let there : team_has (lookup id teams) ≡ true = rw e at h in
          rw (e, lookup-anywhere teams there) refl
    ]

    module _ (z : F) where
      merged_left :
          (o : Option (ServiceState F)) (s : ServiceState F)
          → service_has o ≡ true
          → service_has (some (add_service (get_or o (new_service z s.name)) s)) ≡ true
      unfolding add_service
      merged_left none s h = absurd (cc)
      merged_left (some a) s h = has_flag-left a.stolen_flags s.stolen_flags h

      merged_right :
          (a s : ServiceState F)
          → service_has (some s) ≡ true
          → service_has (some (add_service a s)) ≡ true
      unfolding add_service
      merged_right a s h = has_flag-right a.stolen_flags s.stolen_flags h

      merge_service-kept :
          (acc : List (ℤ × ServiceState F)) (j : ℤ) (s : ServiceState F)
          → service_has (lookup service acc) ≡ true
          → service_has (lookup service (merge_service z acc (j, s))) ≡ true
      unfolding merge_service
      merge_service-kept acc j s h =
          let new = add_service (get_or (lookup j acc) (new_service z s.name)) s in
          elim (Bool-cases (j ==ℤ service)) [
            | inl e ↦
                rw (lookup-insert j service new acc, e)
                  (merged_left (lookup j acc) s (rw ((==ℤ_iff j service).0 e) h))
            | inr e ↦ rw (lookup-insert j service new acc, e) h
          ]

      merge_services-kept :
          (services acc : List (ℤ × ServiceState F))
          → service_has (lookup service acc) ≡ true
          → service_has (lookup service (foldl (merge_service z) acc services)) ≡ true
      merge_services-kept [] acc h = h
      merge_services-kept ((j, s) ∷ services) acc h =
          merge_services-kept services (merge_service z acc (j, s)) (merge_service-kept acc j s h)

      merge_services-new :
          (services acc : List (ℤ × ServiceState F))
          → service_has (lookup service services) ≡ true
          → service_has (lookup service (foldl (merge_service z) acc services)) ≡ true
      unfolding lookup merge_service
      merge_services-new [] acc h = absurd (cc)
      merge_services-new ((j, s) ∷ services) acc h =
          let new = add_service (get_or (lookup j acc) (new_service z s.name)) s in
          elim (Bool-cases (j ==ℤ service)) [
            | inl e ↦
                let here : service_has (some s) ≡ true = rw e at h in
                merge_services-kept services (merge_service z acc (j, s)) (
                  rw (lookup-insert j service new acc, e)
                    (merged_right (get_or (lookup j acc) (new_service z s.name)) s here))
            | inr e ↦ merge_services-new services (merge_service z acc (j, s)) (rw e at h)
          ]

      old_kept :
          (o : Option (TeamState F)) (t : TeamState F)
          → team_has o ≡ true
          → service_has (
              lookup service (
                foldl
                  (merge_service z)
                  (get_or o (new_team z t.is_bot t.name)).services
                  t.services))
            ≡ true
      old_kept none t h = absurd (cc)
      old_kept (some a) t h = merge_services-kept t.services a.services h

      merge_team-kept :
          (acc : List (ℤ × TeamState F)) (j : ℤ) (t : TeamState F)
          → team_has (lookup id acc) ≡ true
          → team_has (lookup id (merge_team z acc (j, t))) ≡ true
      unfolding merge_team
      merge_team-kept acc j t h =
          let old = get_or (lookup j acc) (new_team z t.is_bot t.name) in
          let new : TeamState F = record old {
            services = foldl (merge_service z) old.services t.services;
          } in
          elim (Bool-cases (j ==ℤ id)) [
            | inl e ↦
                rw (lookup-insert j id new acc, e)
                  (old_kept (lookup j acc) t (rw ((==ℤ_iff j id).0 e) h))
            | inr e ↦ rw (lookup-insert j id new acc, e) h
          ]

      merge_team-new :
          (acc : List (ℤ × TeamState F)) (j : ℤ) (t : TeamState F)
          → (j ==ℤ id) ≡ true
          → team_has (some t) ≡ true
          → team_has (lookup id (merge_team z acc (j, t))) ≡ true
      unfolding merge_team
      merge_team-new acc j t e h =
          let old = get_or (lookup j acc) (new_team z t.is_bot t.name) in
          let new : TeamState F = record old {
            services = foldl (merge_service z) old.services t.services;
          } in
          rw (lookup-insert j id new acc, e) (merge_services-new t.services old.services h)

      merge_teams-kept :
          (teams acc : List (ℤ × TeamState F))
          → team_has (lookup id acc) ≡ true
          → team_has (lookup id (foldl (merge_team z) acc teams)) ≡ true
      merge_teams-kept [] acc h = h
      merge_teams-kept ((j, t) ∷ teams) acc h =
          merge_teams-kept teams (merge_team z acc (j, t)) (merge_team-kept acc j t h)

      merge_teams-new :
          (teams acc : List (ℤ × TeamState F))
          → anywhere teams ≡ true
          → team_has (lookup id (foldl (merge_team z) acc teams)) ≡ true
      merge_teams-new [] acc h = absurd (cc)
      merge_teams-new ((j, t) ∷ teams) acc h = elim (Bool-cases (j ==ℤ id && team_has (some t))) [
        | inl e ↦
            let same : (j ==ℤ id) ≡ true = ground (arith, e) in
            let here : team_has (some t) ≡ true = ground (arith, e) in
            merge_teams-kept teams (merge_team z acc (j, t)) (merge_team-new acc j t same here)
        | inr e ↦ merge_teams-new teams (merge_team z acc (j, t)) (rw e at h)
      ]

    -- Some board of a list has the flag.
    abbrev pub Among : List (ScoreboardState F) → Type 0
    Among [] = ⊥
    Among (b ∷ boards) = (anywhere b.teams ≡ true) ⊎ Among boards

    module _ (z : F) where
      merge_ticks-kept :
          (ticks : List (ScoreboardState F)) (b : ScoreboardState F)
          → team_has (lookup id b.teams) ≡ true
          → team_has (lookup id (foldl (merge_tick z) b ticks).teams) ≡ true
      unfolding merge_tick
      merge_ticks-kept [] b h = h
      merge_ticks-kept (t ∷ ticks) b h =
          merge_ticks-kept ticks (merge_tick z b t) (merge_teams-kept z t.teams b.teams h)

      merge_ticks-new :
          (ticks : List (ScoreboardState F)) (b : ScoreboardState F)
          → Among ticks
          → team_has (lookup id (foldl (merge_tick z) b ticks).teams) ≡ true
      unfolding merge_tick
      merge_ticks-new [] b h = absurd h
      merge_ticks-new (t ∷ ticks) b (inl h) =
          merge_ticks-kept ticks (merge_tick z b t) (merge_teams-new z t.teams b.teams h)
      merge_ticks-new (t ∷ ticks) b (inr h) = merge_ticks-new ticks (merge_tick z b t) h

      -- A flag that one of the boards has is found in the board that they are summed into.
      pub accumulate-held :
          (ticks : List (ScoreboardState F))
          → Among ticks
          → team_has (lookup id (accumulate z ticks).teams) ≡ true
      unfolding accumulate
      accumulate-held ticks h = merge_ticks-new ticks _ h
