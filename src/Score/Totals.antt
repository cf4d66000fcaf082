-- ===== src/Score/Totals.antt =====
-- What `summarizeState` sums up: for each team and service, the data of all ticks, in order.
use mathlib.Core.List.{foldl}
use mathlib.Core.Option.{get_or}
use tinyrange_ad.Common.{
  ℕ, ◌+◌, List, [], ◌∷◌, ◌++◌, false, Option, none, some, if◌then◌else◌, ℤ, ◌≡◌, refl, sym, ◌∙◌,
  arith, append-nil, append_assoc, All, Bool-cases, inl, inr, map,
}
use tinyrange_ad.Common.Int.{◌==ℤ◌, ==ℤ_iff}
use tinyrange_ad.Common.Dict.{lookup, int_eq, lookup-insert}
use tinyrange_ad.Score.{
  FlagInfo, ServiceState, TeamState, ScoreboardState, new_service, new_team, add_service,
  merge_service, merge_team, merge_tick, accumulate,
}

-- The raw data of one service of one team.
pub record Raw : Type 0 where
  pub lost : List FlagInfo
  pub stolen : List FlagInfo
  pub successful : ℕ
  pub failed : ℕ

abbrev pub no_data : Raw
no_data = record { lost = []; stolen = []; successful = 0; failed = 0 }

infixl 65 ◌⊕◌
unfoldable pub ◌⊕◌ : Raw → Raw → Raw
a ⊕ b = record {
  lost = a.lost ++ b.lost;
  stolen = a.stolen ++ b.stolen;
  successful = a.successful + b.successful;
  failed = a.failed + b.failed;
}

⊕-no_data : (a : Raw) → a ⊕ no_data ≡ a
unfolding ◌⊕◌
⊕-no_data a = ground (arith, append-nil a.lost, append-nil a.stolen)

no_data-⊕ : (a : Raw) → no_data ⊕ a ≡ a
unfolding ◌⊕◌
no_data-⊕ a = ground arith

⊕_assoc : (a b c : Raw) → a ⊕ b ⊕ c ≡ a ⊕ (b ⊕ c)
unfolding ◌⊕◌
⊕_assoc a b c =
    ground (arith, append_assoc a.lost b.lost c.lost, append_assoc a.stolen b.stolen c.stolen)

-- No key stands twice, as in every map.
abbrev pub Fresh {ℓ} : {V : Type ℓ} → ℤ → List (ℤ × V) → Type 0
Fresh k = All (λ e. (e.0 ==ℤ k) ≡ false)

abbrev pub Distinct {ℓ} : {V : Type ℓ} → List (ℤ × V) → Type 0
Distinct [] = Unit
Distinct ((k, v) ∷ m) = Fresh k m × Distinct m

lookup-Fresh {ℓ} : {V : Type ℓ} (k : ℤ) (m : List (ℤ × V)) → Fresh k m → lookup k m ≡ none
unfolding lookup
lookup-Fresh k [] h = refl
lookup-Fresh k ((j, v) ∷ m) h = rw (h.0) (lookup-Fresh k m h.1)

-- The data of several ticks, in the order of the ticks.
unfoldable pub sum : List Raw → Raw
sum [] = no_data
sum (a ∷ rest) = a ⊕ sum rest

module _ {F : Type 0} where
  abbrev pub raw_of : ServiceState F → Raw
  raw_of s = record {
    lost = s.lost_flags;
    stolen = s.stolen_flags;
    successful = s.successful;
    failed = s.failed;
  }

  abbrev raw_at : Option (ServiceState F) → Raw
  raw_at none = no_data
  raw_at (some s) = raw_of s

  -- The data of a service in a team's map, nothing where there is no entry.
  pub service_data : ℤ → List (ℤ × ServiceState F) → Raw
  service_data i services = raw_at (lookup i services)

  abbrev data_at : ℤ → Option (TeamState F) → Raw
  data_at i none = no_data
  data_at i (some t) = service_data i t.services

  -- The same in a scoreboard, for a team.
  unfoldable pub team_data : ℤ → ℤ → List (ℤ × TeamState F) → Raw
  team_data id i teams = data_at i (lookup id teams)

  add_or :
      (z : F) (o : Option (ServiceState F)) (s : ServiceState F)
      → raw_of (add_service (get_or o (new_service z s.name)) s) ≡ raw_at o ⊕ raw_of s
  unfolding add_service ◌⊕◌
  add_or z none s = refl
  add_or z (some a) s = refl

  module _ (z : F) where
    merge_service_data :
        (acc : List (ℤ × ServiceState F)) (j i : ℤ) (s : ServiceState F)
        → service_data i (merge_service z acc (j, s))
          ≡ (if j ==ℤ i then service_data i acc ⊕ raw_of s else service_data i acc)
    unfolding service_data merge_service
    merge_service_data acc j i s =
        let new = add_service (get_or (lookup j acc) (new_service z s.name)) s in
        elim (Bool-cases (j ==ℤ i)) [
          | inl e ↦
              rw (lookup-insert j i new acc, e, add_or z (lookup j acc) s, (==ℤ_iff j i).0 e) refl
          | inr e ↦ rw (lookup-insert j i new acc, e) refl
        ]

    cons_data :
        (services : List (ℤ × ServiceState F)) (j i : ℤ) (s : ServiceState F)
        → service_data i ((j, s) ∷ services)
          ≡ (if j ==ℤ i then raw_of s else service_data i services)
    unfolding service_data lookup
    cons_data services j i s = elim (Bool-cases (j ==ℤ i)) [ inl e ↦ rw e | inr e ↦ rw e ]

    Fresh-data :
        (services : List (ℤ × ServiceState F)) (i : ℤ)
        → Fresh i services
        → service_data i services ≡ no_data
    unfolding service_data
    Fresh-data services i h = rw (lookup-Fresh i services h)

    merge_services_data :
        (services acc : List (ℤ × ServiceState F)) (i : ℤ)
        → Distinct services
        → service_data i (foldl (merge_service z) acc services)
          ≡ service_data i acc ⊕ service_data i services
    merge_services_data [] acc i d = rw (Fresh-data [] i tt) (sym (⊕-no_data (service_data i acc)))
    merge_services_data ((j, s) ∷ services) acc i d =
        rw
          (
            merge_services_data services (merge_service z acc (j, s)) i d.1,
            merge_service_data acc j i s,
            cons_data services j i s,
          )
          (elim (Bool-cases (j ==ℤ i)) [
            | inl e ↦
                let fresh : Fresh i services = rw (← (==ℤ_iff j i).0 e) d.0 in
                rw (e, Fresh-data services i fresh) (⊕-no_data (service_data i acc ⊕ raw_of s))
            | inr e ↦ rw e
          ])

    merged : TeamState F → TeamState F → TeamState F
    merged old t = record old { services = foldl (merge_service z) old.services t.services }

    merged_data :
        (o : Option (TeamState F)) (i : ℤ) (t : TeamState F)
        → Distinct t.services
        → service_data i (merged (get_or o (new_team z t.is_bot t.name)) t).services
          ≡ data_at i o ⊕ service_data i t.services
    unfolding merged
    merged_data none i t d = merge_services_data t.services [] i d ∙ rw (Fresh-data [] i tt)
    merged_data (some a) i t d = merge_services_data t.services a.services i d

    merge_team_data :
        (acc : List (ℤ × TeamState F)) (k id i : ℤ) (t : TeamState F)
        → Distinct t.services
        → team_data id i (merge_team z acc (k, t)) ≡ (
            if k ==ℤ id then team_data id i acc ⊕ service_data i t.services else team_data id i acc)
    unfolding team_data merge_team merged
    merge_team_data acc k id i t d =
        let new = merged (get_or (lookup k acc) (new_team z t.is_bot t.name)) t in
        elim (Bool-cases (k ==ℤ id)) [
          | inl e ↦
              rw (lookup-insert k id new acc, e)
                (rw (merged_data (lookup k acc) i t d, (==ℤ_iff k id).0 e) refl)
          | inr e ↦ rw (lookup-insert k id new acc, e) refl
        ]

    cons_team :
        (teams : List (ℤ × TeamState F)) (k id i : ℤ) (t : TeamState F)
        → team_data id i ((k, t) ∷ teams)
          ≡ (if k ==ℤ id then service_data i t.services else team_data id i teams)
    unfolding team_data lookup
    cons_team teams k id i t = elim (Bool-cases (k ==ℤ id)) [ inl e ↦ rw e | inr e ↦ rw e ]

    Fresh-team :
        (teams : List (ℤ × TeamState F)) (id i : ℤ)
        → Fresh id teams
        → team_data id i teams ≡ no_data
    unfolding team_data
    Fresh-team teams id i h = rw (lookup-Fresh id teams h)

    merge_teams_data :
        (teams acc : List (ℤ × TeamState F)) (id i : ℤ)
        → Distinct teams
        → All (λ e. Distinct e.1.services) teams
        → team_data id i (foldl (merge_team z) acc teams)
          ≡ team_data id i acc ⊕ team_data id i teams
    merge_teams_data [] acc id i d ds = rw (Fresh-team [] id i tt) (sym (⊕-no_data _))
    merge_teams_data ((k, t) ∷ teams) acc id i d ds =
        rw
          (
            merge_teams_data teams (merge_team z acc (k, t)) id i d.1 ds.1,
            merge_team_data acc k id i t ds.0,
            cons_team teams k id i t,
          )
          (elim (Bool-cases (k ==ℤ id)) [
            | inl e ↦
                let fresh : Fresh id teams = rw (← (==ℤ_iff k id).0 e) d.0 in
                rw (e, Fresh-team teams id i fresh) (⊕-no_data _)
            | inr e ↦ rw e
          ])

  -- A scoreboard whose maps have each key once.
  abbrev pub HasKeys : ScoreboardState F → Type 0
  HasKeys b = Distinct b.teams × All (λ e. Distinct e.1.services) b.teams

  module _ (z : F) where
    merge_tick_data :
        (t b : ScoreboardState F) (id i : ℤ)
        → HasKeys t
        → team_data id i (merge_tick z b t).teams ≡ team_data id i b.teams ⊕ team_data id i t.teams
    unfolding merge_tick
    merge_tick_data t b id i h = merge_teams_data z t.teams b.teams id i h.0 h.1

    merge_ticks_data :
        (ticks : List (ScoreboardState F)) (b : ScoreboardState F) (id i : ℤ)
        → All HasKeys ticks
        → team_data id i (foldl (merge_tick z) b ticks).teams
          ≡ team_data id i b.teams ⊕ sum (map (λ t. team_data id i t.teams) ticks)
    unfolding sum
    merge_ticks_data [] b id i h = sym (⊕-no_data _)
    merge_ticks_data (t ∷ ticks) b id i h =
        merge_ticks_data ticks (merge_tick z b t) id i h.1
        ∙ rw (merge_tick_data t b id i h.0) (⊕_assoc _ _ _)

    -- For every team and service, the board that the ticks are summed into holds the flags lost and
    -- stolen in the ticks, in the order of the ticks, and the sums of their two counters; a team or
    -- service that a tick does not have adds nothing. The ticks' maps have each key once, as maps do.
    pub accumulate-sum :
        (ticks : List (ScoreboardState F)) (id i : ℤ)
        → All HasKeys ticks
        → team_data id i (accumulate z ticks).teams ≡ sum (map (λ t. team_data id i t.teams) ticks)
    unfolding accumulate
    accumulate-sum ticks id i h =
        merge_ticks_data ticks _ id i h ∙ rw (Fresh-team z [] id i tt) (no_data-⊕ _)
