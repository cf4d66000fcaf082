-- ===== src/Score.antt =====
-- The scoreboard: its data and `summarizeState`, cmd/ad/game.go.
use mathlib.Core.List.{Perm, Pairwise, foldl}
use mathlib.Core.Option.{get_or}
pub mod Held
pub mod Summed
pub mod Totals
pub mod Ranking
pub mod Points
pub mod Scored
use tinyrange_ad.Common.{
  ℕ, suc, ◌+◌, List, [], ◌∷◌, ◌++◌, Bool, true, false, not, Option, none, some, if◌then◌else◌, ℤ,
  pos, negsuc, length, get_elem?, ◌≡◌, ltb, All,
}
use tinyrange_ad.Common.Int.{◌-ℤ◌, ◌≤ℤ◌, ltb_ℤ, wrap64}
use tinyrange_ad.Common.Dict.{lookup, insert, int_eq}
use tinyrange_ad.Common.Outcome.{Outcome, ok, panic, ◌>>=◌, deref}
use tinyrange_ad.Common.Text.{Bytes}
use tinyrange_ad.Config.{Config, ServiceConfig}

-- float64: `of_int` is the conversion of an int, and `to_int` that to an int. No law is assumed.
pub record Float : Type 1 where
  pub F : Type 0
  pub zero_f : F
  pub of_int : ℤ → F
  pub add : F → F → F
  pub mul : F → F → F
  pub div : F → F → F
  pub to_int : F → ℤ

-- `slices.SortFunc`. It permutes; and where the sign of `cmp` is the order of some integer key, the
-- result is in the order of that key. Equal elements may come in any order.
pub record SortFunc : Type 1 where
  pub sort : {A : Type 0} → (A → A → ℤ) → List A → List A
  pub sort-perm : {A : Type 0} (cmp : A → A → ℤ) (l : List A) → Perm l (sort cmp l)
  pub sort_sorted :
      {A : Type 0} (cmp : A → A → ℤ) (key : A → ℤ) (l : List A)
      → All (λ x. All (λ y. ltb_ℤ (cmp x y) (pos 0) ≡ ltb_ℤ (key x) (key y)) l) l
      → Pairwise (λ x y. key x ≤ℤ key y) (sort cmp l)

pub record FlagInfo : Type 0 where
  pub team_id : ℤ
  pub tick_id : ℤ

-- The two counters only ever count up from 0.
pub record ServiceState (F : Type 0) : Type 0 where
  pub name : Bytes
  pub points : F
  pub tick_points : F
  pub attack_points : F
  pub defense_points : F
  pub uptime_points : F
  pub lost_flags : List FlagInfo
  pub stolen_flags : List FlagInfo
  pub successful : ℕ
  pub failed : ℕ

pub record TeamState (F : Type 0) : Type 0 where
  pub is_bot : Bool
  pub name : Bytes
  pub points : F
  pub position : ℕ
  pub services : List (ℤ × ServiceState F)

pub record ScoreboardState (F : Type 0) : Type 0 where
  pub tick : ℤ
  pub teams : List (ℤ × TeamState F)

module _ {F : Type 0} where
  -- The literals `&ServiceState{Name: …}` and `&TeamState{IsBot: …, Name: …}`; `z` is the float 0.
  abbrev pub new_service : F → Bytes → ServiceState F
  new_service z name = record {
    name = name;
    points = z;
    tick_points = z;
    attack_points = z;
    defense_points = z;
    uptime_points = z;
    lost_flags = [];
    stolen_flags = [];
    successful = 0;
    failed = 0;
  }

  abbrev pub new_team : F → Bool → Bytes → TeamState F
  new_team z is_bot name = record {
    is_bot = is_bot;
    name = name;
    points = z;
    position = 0;
    services = [];
  }

  add_service : ServiceState F → ServiceState F → ServiceState F
  add_service acc s = record acc {
    lost_flags = acc.lost_flags ++ s.lost_flags;
    stolen_flags = acc.stolen_flags ++ s.stolen_flags;
    successful = acc.successful + s.successful;
    failed = acc.failed + s.failed;
  }

  module _ (z : F) where
    -- One round of the innermost loop.
    merge_service : List (ℤ × ServiceState F) → ℤ × ServiceState F → List (ℤ × ServiceState F)
    unfolding add_service
    merge_service acc (i, s) =
        insert i (add_service (get_or (lookup i acc) (new_service z s.name)) s) acc

    -- One round of the loop over the teams of a tick.
    merge_team : List (ℤ × TeamState F) → ℤ × TeamState F → List (ℤ × TeamState F)
    unfolding merge_service
    merge_team acc (id, team) =
        let old = get_or (lookup id acc) (new_team z team.is_bot team.name) in
        insert id (record old { services = foldl merge_service old.services team.services }) acc

    merge_tick : ScoreboardState F → ScoreboardState F → ScoreboardState F
    unfolding merge_team
    merge_tick result tick = record {
      tick = if ltb_ℤ result.tick tick.tick then tick.tick else result.tick;
      teams = foldl merge_team result.teams tick.teams;
    }

    -- The first loop of `summarizeState`: the raw data of the ticks, summed up.
    unfoldable pub accumulate : List (ScoreboardState F) → ScoreboardState F
    unfolding merge_tick
    accumulate ticks = foldl merge_tick (record { tick = pos 0; teams = [] }) ticks

module _ (fl : Float) where
  open fl use {F, zero_f, of_int, add, mul, div, to_int}

  -- `setServiceOverallScore`.
  unfoldable pub set_service_overall_score : Config F → ServiceState F → ServiceState F
  set_service_overall_score config s =
      let total_ticks = of_int (pos (s.successful + s.failed)) in
      let tick_points = mul total_ticks config.scoring.points_per_tick in
      let attack_points =
        mul (of_int (pos (length s.stolen_flags))) config.scoring.points_per_stolen_flag in
      let defense_points =
        mul (of_int (pos (length s.lost_flags))) config.scoring.points_per_lost_flag in
      let uptime_points = div (of_int (pos s.successful)) total_ticks in
      record s {
        tick_points = tick_points;
        attack_points = attack_points;
        defense_points = defense_points;
        uptime_points = uptime_points;
        points = mul (add (add tick_points attack_points) defense_points) uptime_points;
      }

  -- `services[i]` of the configuration; an index out of range panics.
  index_service : List ServiceConfig → ℤ → Outcome ServiceConfig
  index_service services (pos n) = deref (get_elem? services n)
  index_service services (negsuc n) = panic

  -- The loop of `setTeamOverallScore` over the services that are left, with the score so far.
  score_services :
      Config F → F → List (ℤ × ServiceState F) → Outcome (F × List (ℤ × ServiceState F))
  unfolding set_service_overall_score index_service
  score_services config score [] = ok (score, [])
  score_services config score ((i, s) ∷ services) =
      let s' = set_service_overall_score config s in
      index_service config.vulnbox.services i >>= λ c.
      score_services config (if not c.private_service then add score s'.points else score) services
      >>= λ r. ok (r.0, (i, s') ∷ r.1)

  -- `setTeamOverallScore`.
  unfoldable pub set_team_overall_score : Config F → TeamState F → Outcome (TeamState F)
  unfolding score_services
  set_team_overall_score config team = score_services config zero_f team.services >>= λ r.
      ok (record team { services = r.1; points = r.0 })

  unfoldable pub score_teams : Config F → List (ℤ × TeamState F) → Outcome (List (ℤ × TeamState F))
  unfolding set_team_overall_score
  score_teams config [] = ok []
  score_teams config ((id, team) ∷ teams) = set_team_overall_score config team >>= λ t.
      score_teams config teams >>= λ ts. ok ((id, t) ∷ ts)

  -- `int(b.Points) - int(a.Points)`.
  unfoldable pub compare_points : ℤ × TeamState F → ℤ × TeamState F → ℤ
  compare_points a b = wrap64 (to_int b.1.points -ℤ to_int a.1.points)

  -- The last loop: positions from `i + 1` on.
  unfoldable pub number : ℕ → List (ℤ × TeamState F) → List (ℤ × TeamState F)
  number i [] = []
  number i ((id, team) ∷ teams) = (id, record team { position = i + 1 }) ∷ number (suc i) teams

  -- The second half of `summarizeState`. The map's entries are listed by position.
  unfoldable pub rank : SortFunc → Config F → ScoreboardState F → Outcome (ScoreboardState F)
  unfolding score_teams
  rank sorter config result = score_teams config result.teams >>= λ teams.
      ok (record result { teams = number 0 (sorter.sort compare_points teams) })

  -- `summarizeState`.
  unfoldable pub summarize_state :
      SortFunc → Config F → List (ScoreboardState F) → Outcome (ScoreboardState F)
  unfolding rank
  summarize_state sorter config ticks = rank sorter config (accumulate zero_f ticks)
