-- ===== src/Game/Theft.antt =====
-- What noting a theft changes in the boards.
use mathlib.Core.Option
use tinyrange_ad.Common.{
  [], ◌∷◌, ◌++◌, Bool, true, false, ◌&&◌, Option, none, some, if◌then◌else◌, ℤ, ◌≡◌, refl, ◌∙◌,
  arith, ◌>>=◌,
}
use tinyrange_ad.Common.Int.{◌==ℤ◌}
use tinyrange_ad.Common.Dict.{lookup, modify, int_eq, lookup-modify}
use tinyrange_ad.Common.Outcome.{ok, deref, >>=-eq-ok}
use tinyrange_ad.Team.{TargetInfo}
use tinyrange_ad.Score.{ServiceState, TeamState, ScoreboardState}
use tinyrange_ad.Game.{FlagStatus, Game, update_service, add_stolen, add_lost, record_theft}
use tinyrange_ad.Game.Submit.{deref-some}

pub ok_injective {ℓ} : {A : Type ℓ} {a b : A} → ok a ≡ ok b → a ≡ b
ok_injective h = cc

module _ {F : Type 0} where
  -- The entry of a service of a team.
  abbrev pub service_at : ScoreboardState F → ℤ → ℤ → Option (ServiceState F)
  service_at board id service = lookup id board.teams >>= λ t. lookup service t.services

  abbrev in_services : ℤ → (ServiceState F → ServiceState F) → TeamState F → TeamState F
  in_services service f t = record t { services = modify service f t.services }

  modify_entry :
      (o : Option (TeamState F)) (b : Bool) (service r : ℤ) (f : ServiceState F → ServiceState F)
      → ((if b then Option.map (in_services service f) o else o) >>= λ t. lookup r t.services) ≡ (
          if b && service ==ℤ r
          then Option.map f (o >>= λ t. lookup r t.services)
          else (o >>= λ t. lookup r t.services))
  modify_entry none true service r f = ground arith
  modify_entry none false service r f = refl
  modify_entry (some t) true service r f = lookup-modify service r f t.services
  modify_entry (some t) false service r f = refl

  service_at-modify :
      (board : ScoreboardState F) (id service q r : ℤ) (f : ServiceState F → ServiceState F)
      → service_at (record board { teams = modify id (in_services service f) board.teams }) q r ≡ (
          if id ==ℤ q && service ==ℤ r
          then Option.map f (service_at board q r)
          else service_at board q r)
  service_at-modify board id service q r f =
      rw (lookup-modify id q (in_services service f) board.teams)
        (modify_entry (lookup q board.teams) (id ==ℤ q) service r f)

  -- An update of a service that returns keeps the tick and changes this entry alone.
  pub update_service_lem :
      (board board' : ScoreboardState F) (id service q r : ℤ) (f : ServiceState F → ServiceState F)
      → update_service id service f board ≡ ok board'
      → (board'.tick ≡ board.tick)
        × (service_at board' q r ≡ (
            if id ==ℤ q && service ==ℤ r
            then Option.map f (service_at board q r)
            else service_at board q r))
  unfolding update_service
  update_service_lem board board' id service q r f h =
      let (team, e1, h1) = >>=-eq-ok (deref (lookup id board.teams)) _ h in
      let (s, e2, h2) = >>=-eq-ok (deref (lookup service team.services)) _ h1 in
      let e : record board { teams = modify id (in_services service f) board.teams } ≡ board' =
        ok_injective h2 in
      (rw (← e) refl, rw (← e) (service_at-modify board id service q r f))

  -- An entry with one more stolen flag, or one more lost flag, at the end of its list.
  abbrev pub more_stolen : ℤ → ℤ → ServiceState F → ServiceState F
  more_stolen team tick s = record {
    name = s.name;
    points = s.points;
    tick_points = s.tick_points;
    attack_points = s.attack_points;
    defense_points = s.defense_points;
    uptime_points = s.uptime_points;
    lost_flags = s.lost_flags;
    stolen_flags = s.stolen_flags ++ record { team_id = team; tick_id = tick } ∷ [];
    successful = s.successful;
    failed = s.failed;
  }

  abbrev pub more_lost : ℤ → ℤ → ServiceState F → ServiceState F
  more_lost team tick s = record {
    name = s.name;
    points = s.points;
    tick_points = s.tick_points;
    attack_points = s.attack_points;
    defense_points = s.defense_points;
    uptime_points = s.uptime_points;
    lost_flags = s.lost_flags ++ record { team_id = team; tick_id = tick } ∷ [];
    stolen_flags = s.stolen_flags;
    successful = s.successful;
    failed = s.failed;
  }

  -- The entry of a service after a theft by `thief` from `victim`, at the place `q`, `r`.
  abbrev pub after_theft : ℤ → ℤ → ℤ → ℤ → ℤ → ℤ → Option (ServiceState F) → Option (ServiceState F)
  after_theft thief victim service tick q r entry =
      let stolen =
        if thief ==ℤ q && service ==ℤ r
        then Option.map (more_stolen victim tick) entry
        else entry in
      if victim ==ℤ q && service ==ℤ r then Option.map (more_lost thief tick) stolen else stolen

  pub record_theft-after_theft :
      {K : Type 0} (game game' : Game F K) (info : TargetInfo) (status : FlagStatus)
      (tick team service : ℤ)
      → record_theft game info tick team service ≡ ok (status, game')
      → (current both : ScoreboardState F) × (game.current_state ≡ some current)
        × (game' ≡ record game { current_state = some both })
        × (both.tick ≡ current.tick)
        × ((q r : ℤ)
            → service_at both q r
              ≡ after_theft info.id team service tick q r (service_at current q r))
  unfolding record_theft add_stolen add_lost
  record_theft-after_theft game game' info status tick team service h =
      let (current, e1, h1) = >>=-eq-ok (deref game.current_state) _ h in
      let (noted, e2, h2) = >>=-eq-ok (update_service _ _ _ current) _ h1 in
      let (both, e3, h3) = >>=-eq-ok (update_service _ _ _ noted) _ h2 in
      (
        current,
        both,
        deref-some game.current_state e1,
        ground arith,
        (update_service_lem noted both _ _ team service _ e3).0
            ∙ (update_service_lem current noted _ _ team service _ e2).0,
        λ q r.
            (update_service_lem noted both _ _ q r _ e3).1
            ∙ rw ((update_service_lem current noted _ _ q r _ e2).1) refl,
      )
