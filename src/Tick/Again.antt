-- ===== src/Tick/Again.antt =====
-- A flag counts once for a team, over the whole game: `submitFlag` and `updateScoreboard` of
-- cmd/ad/game.go.
use mathlib.Core.Bool.{false≢true}
use tinyrange_ad.Common.{false, some, ◌≡◌, ◌≢◌, refl, sym, ◌∙◌, ap, inl, inr}
use tinyrange_ad.Common.Int.{==ℤ_refl}
use tinyrange_ad.Common.Dict.{int_eq}
use tinyrange_ad.Common.Outcome.{ok}
use tinyrange_ad.Common.Text.{Bytes}
use tinyrange_ad.Flag.{Crypto, signer_public, verify}
use tinyrange_ad.Score.{Float, SortFunc}
use tinyrange_ad.Team.{TargetInfo}
use tinyrange_ad.Game.{Game, FlagStatus, flag_accepted, has_flag, submit_flag}
use tinyrange_ad.Game.Submit.{submit_flag_cases, Accepted}
use tinyrange_ad.Game.Theft.{service_at, more_stolen, record_theft-after_theft}
use tinyrange_ad.Game.Once.{parts, has_flag-append, ==ℤ_ne, stored}
use tinyrange_ad.Tick.Recorded.{submitted, Steps, next, Recorded, Steps-Recorded}
use tinyrange_ad.Tick.Taken.{Taken, Taken-Steps, Taken-listed}

module _ (fl : Float) (sorter : SortFunc) (c : Crypto) where
  open fl use {F}

  Taken-Accepted :
      (game game' : Game F c.PrivateKey) (info : TargetInfo) (flag : Bytes)
      (a : Accepted c game info flag game')
      → Taken a.team a.tick info.id a.service fl sorter c game'
  Taken-Accepted game game' info flag a =
      let (current, both, is_current, is_game, _, effect) =
        record_theft-after_theft game game' info _ a.tick a.team a.service a.noted in
      let p = parts game info a.service a.passes.stolen a.passes.is_stolen in
      let same : p.current ≡ current = cc (p.is_current, is_current) in
      let entry : service_at current info.id a.service ≡ some p.entry = rw (← same) p.is_entry in
      let now : service_at both info.id a.service ≡ some (more_stolen a.team a.tick p.entry) =
        effect info.id a.service
        ∙ rw (==ℤ_refl info.id, ==ℤ_refl a.service, ==ℤ_ne a.team info.id a.foreign, entry) refl in
      rw is_game (inl (both, refl, rw now (has_flag-append a.team a.tick p.entry.stolen_flags)))

  -- In a game whose overall state is the summary of its ticks, once a flag of a team was accepted, no
  -- later submission by that team of a flag that is verified for the same three ids is accepted,
  -- whatever steps the game takes in between; and it changes nothing.
  pub submit_flag-once :
      (game game' later end : Game F c.PrivateKey) (info : TargetInfo) (flag flag' : Bytes)
      (status : FlagStatus)
      → Recorded fl sorter c game
      → submit_flag c game info flag ≡ ok (flag_accepted, game')
      → Steps fl sorter c game' later
      → verify c later.flag_gen (signer_public c later.signer) flag'
        ≡ verify c game.flag_gen (signer_public c game.signer) flag
      → submit_flag c later info flag' ≡ ok (status, end)
      → (status ≢ flag_accepted) × (end ≡ later)
  submit_flag-once game game' later end info flag flag' status recorded first steps same second =
      elim (submit_flag_cases c later info flag' status end second) [
        | inl refused ↦ refused
        | inr (_, b) ↦ elim (submit_flag_cases c game info flag flag_accepted game' first) [
          | inl (not_accepted, _) ↦ absurd (not_accepted refl)
          | inr (_, a) ↦
              let ids : (b.tick, b.team, b.service) ≡ (a.tick, a.team, a.service) =
                stored (sym b.verified ∙ same ∙ a.verified) in
              let whole = next (submitted info flag flag_accepted first) steps in
              let taken =
                Taken-Steps a.team a.tick info.id a.service fl sorter c steps
                  (Taken-Accepted game game' info flag a) in
              let listed =
                Taken-listed a.team a.tick info.id a.service fl sorter c later info b.passes.stolen
                  refl taken (Steps-Recorded fl sorter c whole recorded).0
                  (rw (← ap (λ x. x.2) ids) b.passes.is_stolen) in
              let fresh : has_flag a.team a.tick b.passes.stolen ≡ false =
                rw (← ap (λ x. x.0) ids, ← ap (λ x. x.1) ids) b.passes.fresh in
              absurd (false≢true (sym fresh ∙ listed))
        ]
      ]
