-- ===== src/Game/Answers.antt =====
-- When `submitFlag` answers, whatever the flag.
use tinyrange_ad.Common.{
  ◌++◌, Bool, true, false, not, ◌||◌, Option, some, if◌then◌else◌, ℤ, pos, length, ◌≡◌, ◌≢◌, refl,
  ◌∙◌, arith, Bool-cases, Option-cases, >>=-eq-some, inl, inr,
}
use tinyrange_ad.Common.Int.{◌-ℤ◌, ◌≤ℤ◌, ltb_ℤ, ◌==ℤ◌, ==ℤ_iff, wrap64}
use tinyrange_ad.Common.Dict.{lookup, int_eq}
use tinyrange_ad.Common.Outcome
use tinyrange_ad.Common.Outcome.{Outcome, ok}
use tinyrange_ad.Common.Text.{Bytes}
use tinyrange_ad.Config.{flag_valid_ticks}
use tinyrange_ad.Flag.{Crypto, signer_public, verify}
use tinyrange_ad.Team.{TargetInfo}
use tinyrange_ad.Score.{ServiceState, ScoreboardState}
use tinyrange_ad.Game.{
  flag_expired, flag_not_yet_valid, flag_already_stolen, flag_from_own_team, invalid_service,
  invalid_flag, game_not_running, Game, has_flag, update_service, add_stolen, add_lost,
  flags_stolen_by, record_theft, check_tick, check_flag, submit_flag,
}
use tinyrange_ad.Game.Theft.{service_at, update_service_lem}
use tinyrange_ad.Game.Once.{stolen_in_of, flags_stolen_by_of}

-- The call returns.
abbrev pub Returns {ℓ} : {A : Type ℓ} → Outcome A → Type ℓ
Returns {A = A} m = (a : A) × (m ≡ ok a)

bind-Returns {ℓ κ} :
    {A : Type ℓ} {B : Type κ} (m : Outcome A) (f : A → Outcome B) (a : A)
    → m ≡ ok a
    → Returns (f a)
    → Returns (Outcome.◌>>=◌ m f)
bind-Returns m f a e r = (r.0, rw e r.1)

if_Returns {ℓ} :
    {A : Type ℓ} (b : Bool) (m n : Outcome A) → Returns m → Returns n → Returns (if b then m else n)
if_Returns true m n h k = h
if_Returns false m n h k = k

deref_returns {ℓ} : {A : Type ℓ} {o : Option A} {a : A} → o ≡ some a → Outcome.deref o ≡ ok a
deref_returns e = rw e refl

module _ {F : Type 0} where
  abbrev pub HasEntry : ScoreboardState F → ℤ → ℤ → Type 0
  HasEntry board id service = (s : ServiceState F) × (service_at board id service ≡ some s)

  update_service-Returns :
      (board : ScoreboardState F) (id service : ℤ) (f : ServiceState F → ServiceState F)
      → HasEntry board id service
      → Returns (update_service id service f board)
  unfolding update_service
  update_service-Returns board id service f (s, h) =
      let (team, e1, e2) = >>=-eq-some (lookup id board.teams) _ h in
      bind-Returns _ _ team (deref_returns e1) (bind-Returns _ _ s (deref_returns e2) (_, refl))

  kept_entry :
      (board board' : ScoreboardState F) (id other service : ℤ)
      (f : ServiceState F → ServiceState F)
      → update_service id service f board ≡ ok board'
      → other ≢ id
      → HasEntry board other service
      → HasEntry board' other service
  kept_entry board board' id other service f h apart (s, e) =
      let off : (id ==ℤ other) ≡ false = ground (arith, ==ℤ_iff id other) in
      (s, (update_service_lem board board' id service other service f h).1 ∙ rw off e)

  module _ {K : Type 0} where
    -- What a submission by a team of a flag of another one needs of the boards: both, and the entries
    -- of the service that it reads and changes.
    pub record Ready (game : Game F K) (id team service : ℤ) : Type 0 where
      pub current : ScoreboardState F
      pub is_current : game.current_state ≡ some current
      pub overall : ScoreboardState F
      pub is_overall : game.overall_state ≡ some overall
      pub own : HasEntry current id service
      pub own_before : HasEntry overall id service
      pub other : HasEntry current team service

    record_theft-Returns :
        (game : Game F K) (info : TargetInfo) (tick team service : ℤ)
        → team ≢ info.id
        → Ready game info.id team service
        → Returns (record_theft game info tick team service)
    unfolding record_theft
    record_theft-Returns game info tick team service apart r =
        let (noted, e1) =
          update_service-Returns r.current info.id service
            (add_stolen (record { team_id = team; tick_id = tick })) r.own in
        let (both, e2) =
          update_service-Returns noted team service
            (add_lost (record { team_id = info.id; tick_id = tick }))
            (kept_entry r.current noted info.id team service _ e1 apart r.other) in
        bind-Returns _ _ r.current (deref_returns r.is_current)
          (bind-Returns _ _ noted e1 (bind-Returns _ _ both e2 (_, refl)))

    check_tick-Returns :
        (game : Game F K) (info : TargetInfo) (tick team service valid : ℤ)
        → flag_valid_ticks game.config ≡ ok valid
        → team ≢ info.id
        → Ready game info.id team service
        → Returns (check_tick game info tick team service)
    unfolding check_tick
    check_tick-Returns game info tick team service valid is_valid apart r =
        let (s, at) = r.own in
        let (s0, at0) = r.own_before in
        let stolen =
          flags_stolen_by_of game info service r.overall r.current s0.stolen_flags s r.is_overall
            (stolen_in_of r.overall info.id service s0 at0) r.is_current at in
        bind-Returns _ _ r.current (deref_returns r.is_current) (
          bind-Returns _ _ valid is_valid (
            if_Returns (ltb_ℤ tick (wrap64 (r.current.tick -ℤ valid))) _ _
              ((flag_expired, game), refl)
              (if_Returns (ltb_ℤ r.current.tick tick) _ _ ((flag_not_yet_valid, game), refl)
                (bind-Returns (flags_stolen_by game info service)
                  (λ old.
                    if has_flag team tick old
                    then ok (flag_already_stolen, game)
                    else record_theft game info tick team service)
                  (s0.stolen_flags ++ s.stolen_flags) stolen
                  (if_Returns (has_flag team tick (s0.stolen_flags ++ s.stolen_flags)) _ _
                    ((flag_already_stolen, game), refl)
                    (record_theft-Returns game info tick team service apart r))))))

    check_flag-Returns :
        (game : Game F K) (info : TargetInfo) (tick team service valid : ℤ)
        → flag_valid_ticks game.config ≡ ok valid
        → (team ≢ info.id
            → pos 0 ≤ℤ service
            → ltb_ℤ service (pos (length game.config.vulnbox.services)) ≡ true
            → Ready game info.id team service)
        → Returns (check_flag game info (tick, team, service))
    unfolding check_flag
    check_flag-Returns game info tick team service valid is_valid ready =
        elim (Bool-cases (team ==ℤ info.id)) [
          | inl own ↦ ((flag_from_own_team, game), rw own refl)
          | inr other ↦
              elim (Bool-cases (
                ltb_ℤ service (pos 0)
                || not (ltb_ℤ service (pos (length game.config.vulnbox.services))))) [
                  | inl out ↦ ((invalid_service, game), rw (other, out) refl)
                  | inr served ↦
                      let apart : team ≢ info.id =
                        λ e. ground (arith, (==ℤ_iff team info.id).1 e, other) in
                      let r = ready apart (ground arith) (ground arith) in
                      rw (other, served)
                        (check_tick-Returns game info tick team service valid is_valid apart r)
                ]
        ]

-- If the ticks have a length, and for the ids of the flag, when it is verified for another team and a
-- service in range, both boards have the entries that are read and changed, then a submission
-- returns.
pub submit_flag-Returns :
    {F : Type 0} (c : Crypto) (game : Game F c.PrivateKey) (info : TargetInfo) (flag : Bytes)
    (valid : ℤ)
    → flag_valid_ticks game.config ≡ ok valid
    → ((tick team service : ℤ)
        → verify c game.flag_gen (signer_public c game.signer) flag ≡ some (tick, team, service)
        → team ≢ info.id
        → pos 0 ≤ℤ service
        → ltb_ℤ service (pos (length game.config.vulnbox.services)) ≡ true
        → Ready game info.id team service)
    → Returns (submit_flag c game info flag)
unfolding submit_flag
submit_flag-Returns c game info flag valid is_valid ready =
    if_Returns (not game.running) _ _ ((game_not_running, game), refl)
      (elim (Option-cases (verify c game.flag_gen (signer_public c game.signer) flag)) [
        | inl bad ↦ ((invalid_flag, game), rw bad refl)
        | inr (ids, good) ↦ rw good (
            check_flag-Returns game info ids.0 ids.1 ids.2 valid is_valid
              (ready ids.0 ids.1 ids.2 good))
      ])
