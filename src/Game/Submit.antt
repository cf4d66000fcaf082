-- ===== src/Game/Submit.antt =====
-- `submitFlag`: what is accepted, what it changes, and what changes nothing.
use mathlib.Core.Bool.{false≢true}
use tinyrange_ad.Common.{
  List, true, false, not, ◌||◌, Option, none, some, if◌then◌else◌, ℤ, pos, length, ◌≡◌, ◌≢◌, ◌⊎◌,
  sym, ◌∙◌, arith, Bool-cases, Option-cases, inl, inr,
}
use tinyrange_ad.Common.Int.{◌-ℤ◌, ◌≤ℤ◌, ltb_ℤ, ◌==ℤ◌, ==ℤ_iff, wrap64}
use tinyrange_ad.Common.Dict.{int_eq}
use tinyrange_ad.Common.Outcome.{ok, ◌>>=◌, deref, >>=-eq-ok}
use tinyrange_ad.Common.Text.{Bytes}
use tinyrange_ad.Config.{flag_valid_ticks}
use tinyrange_ad.Flag.{Crypto, signer_public, verify}
use tinyrange_ad.Team.{TargetInfo}
use tinyrange_ad.Score.{FlagInfo, ScoreboardState}
use tinyrange_ad.Game.{
  FlagStatus, flag_accepted, flag_already_stolen, Game, has_flag, update_service, flags_stolen_by,
  record_theft, check_tick, check_flag, submit_flag,
}

pub deref-some {ℓ} : {A : Type ℓ} (o : Option A) {a : A} → deref o ≡ ok a → o ≡ some a
deref-some none h = cc
deref-some (some a) h = cc

module _ {F K : Type 0} (game : Game F K) (info : TargetInfo) where
  record_theft_accepts :
      (tick team service : ℤ) (status : FlagStatus) (game' : Game F K)
      → record_theft game info tick team service ≡ ok (status, game')
      → status ≡ flag_accepted
  unfolding record_theft
  record_theft_accepts tick team service status game' h =
      let (current, e1, h1) = >>=-eq-ok (deref game.current_state) _ h in
      let (noted, e2, h2) = >>=-eq-ok (update_service _ _ _ current) _ h1 in
      let (both, e3, h3) = >>=-eq-ok (update_service _ _ _ noted) _ h2 in ground arith

  -- The tests that a flag passes before it is noted.
  pub record Passes (tick team service : ℤ) : Type 0 where
    pub current : ScoreboardState F
    pub is_current : game.current_state ≡ some current
    pub valid : ℤ
    pub is_valid : flag_valid_ticks game.config ≡ ok valid
    pub not_expired : ltb_ℤ tick (wrap64 (current.tick -ℤ valid)) ≡ false
    pub not_early : ltb_ℤ current.tick tick ≡ false
    pub stolen : List FlagInfo
    pub is_stolen : flags_stolen_by game info service ≡ ok stolen
    pub fresh : has_flag team tick stolen ≡ false

  check_tick_cases :
      (tick team service : ℤ) (status : FlagStatus) (game' : Game F K)
      → check_tick game info tick team service ≡ ok (status, game')
      → (status ≢ flag_accepted) × (game' ≡ game)
        ⊎ Passes tick team service × (record_theft game info tick team service ≡ ok (status, game'))
  unfolding check_tick
  check_tick_cases tick team service status game' h =
      let (current, e1, h1) = >>=-eq-ok (deref game.current_state) _ h in
      let (valid, e2, h2) = >>=-eq-ok (flag_valid_ticks game.config) _ h1 in
      elim (Bool-cases (ltb_ℤ tick (wrap64 (current.tick -ℤ valid)))) [
        | inl b ↦ inl (ground arith)
        | inr b ↦ elim (Bool-cases (ltb_ℤ current.tick tick)) [
          | inl b2 ↦ inl (ground arith)
          | inr b2 ↦
              let h3 : (flags_stolen_by game info service >>= λ stolen.
              if has_flag team tick stolen
              then ok (flag_already_stolen, game)
              else record_theft game info tick team service)
                  ≡ ok (status, game') =
                ground arith in
              let (stolen, e3, h4) = >>=-eq-ok (flags_stolen_by game info service) _ h3 in
              elim (Bool-cases (has_flag team tick stolen)) [
                | inl b3 ↦ inl (ground arith)
                | inr b3 ↦ inr (
                  record {
                    current = current;
                    is_current = deref-some game.current_state e1;
                    valid = valid;
                    is_valid = e2;
                    not_expired = b;
                    not_early = b2;
                    stolen = stolen;
                    is_stolen = e3;
                    fresh = b3;
                  },
                  ground arith,
                )
              ]
        ]
      ]

  check_flag_cases :
      (tick team service : ℤ) (status : FlagStatus) (game' : Game F K)
      → check_flag game info (tick, team, service) ≡ ok (status, game')
      → (status ≢ flag_accepted) × (game' ≡ game)
        ⊎ (team ≢ info.id)
          × (pos 0 ≤ℤ service)
          × (ltb_ℤ service (pos (length game.config.vulnbox.services)) ≡ true)
          × Passes tick team service
          × (record_theft game info tick team service ≡ ok (status, game'))
  unfolding check_flag
  check_flag_cases tick team service status game' h = elim (Bool-cases (team ==ℤ info.id)) [
    | inl own ↦ inl (ground arith)
    | inr other ↦
        elim (Bool-cases (
          ltb_ℤ service (pos 0)
          || not (ltb_ℤ service (pos (length game.config.vulnbox.services))))) [
            | inl out ↦ inl (ground arith)
            | inr served ↦ elim (check_tick_cases tick team service status game' (ground arith)) [
              | inl same ↦ inl same
              | inr (passes, noted) ↦ inr (
                λ e. false≢true (sym other ∙ (==ℤ_iff team info.id).1 e),
                ground arith,
                ground arith,
                passes,
                noted,
              )
            ]
          ]
  ]

module _ {F : Type 0} (c : Crypto) (game : Game F c.PrivateKey) (info : TargetInfo)
    (flag : Bytes) where
  -- Why a flag was accepted, and what was noted.
  pub record Accepted (game' : Game F c.PrivateKey) : Type 0 where
    pub tick : ℤ
    pub team : ℤ
    pub service : ℤ
    pub running : game.running ≡ true
    pub verified :
        verify c game.flag_gen (signer_public c game.signer) flag ≡ some (tick, team, service)
    pub foreign : team ≢ info.id
    pub not_negative : pos 0 ≤ℤ service
    pub in_range : ltb_ℤ service (pos (length game.config.vulnbox.services)) ≡ true
    pub passes : Passes game info tick team service
    pub noted : record_theft game info tick team service ≡ ok (flag_accepted, game')

  -- A submission that returns either is refused, and then nothing has changed, or is accepted, and
  -- then the game runs, the flag is verified under the game's key for a service in range of
  -- another team, its tick is within the valid ticks up to the current one, the submitting team has
  -- not stolen it before, and the new state is the one with the theft noted.
  pub submit_flag_cases :
      (status : FlagStatus) (game' : Game F c.PrivateKey)
      → submit_flag c game info flag ≡ ok (status, game')
      → (status ≢ flag_accepted) × (game' ≡ game) ⊎ (status ≡ flag_accepted) × Accepted game'
  unfolding submit_flag
  submit_flag_cases status game' h = elim (Bool-cases game.running) [
    | inr idle ↦ inl (ground arith)
    | inl runs ↦ elim (Option-cases (verify c game.flag_gen (signer_public c game.signer) flag)) [
      | inl bad ↦ inl (ground (arith, runs, bad))
      | inr (ids, good) ↦
          elim (check_flag_cases game info ids.0 ids.1 ids.2 status game'
            (ground (arith, runs, good))) [
              | inl same ↦ inl same
              | inr (foreign, not_negative, in_range, passes, noted) ↦
                  let accepts =
                    record_theft_accepts game info ids.0 ids.1 ids.2 status game' noted in
                  inr (
                    accepts,
                    record {
                      tick = ids.0;
                      team = ids.1;
                      service = ids.2;
                      running = runs;
                      verified = good;
                      foreign = foreign;
                      not_negative = not_negative;
                      in_range = in_range;
                      passes = passes;
                      noted = rw accepts at noted;
                    },
                  )
            ]
    ]
  ]
