-- ===== src/Tick/Waiting.antt =====
-- `ForAllTeams`: when it succeeds, and when it cannot block.
use tinyrange_ad.Common.{
  ◌≤◌, List, [], ◌∷◌, Bool, false, length, ltb, ◌&&◌, ◌≡◌, ◌≢◌, ◌↔◌, refl, arith, All, Bool-cases,
  inl, inr,
}
use tinyrange_ad.Team.{Team, TargetInfo}
use tinyrange_ad.Tick.{targets, succeeded, blocked, failures, for_all_teams}

module _ (fails : TargetInfo → Bool) where
  failures_none : (ts : List TargetInfo) → (failures fails ts ≡ 0) ↔ All (λ t. fails t ≡ false) ts
  unfolding failures
  failures_none [] = (λ e. tt, λ h. refl)
  failures_none (t ∷ ts) =
      let ih = failures_none ts in
      elim (Bool-cases (fails t)) [
        | inl e ↦ (λ h. absurd (ground (arith, h, e)), λ h. absurd (ground (arith, e, h.0)))
        | inr e ↦ (λ h. (e, ih.0 (ground (arith, h, e))), λ h. rw e (ih.1 h.1))
      ]

  failures_le : (ts : List TargetInfo) → failures fails ts ≤ length ts
  unfolding failures
  failures_le [] = omega arith
  failures_le (t ∷ ts) = ground (arith, failures_le ts)

  -- The call succeeds exactly if `f` does for every team, and for every bot where these are asked
  -- for and enabled.
  for_all_teams_iff :
      (include_bots bot_enabled : Bool) (teams : List Team)
      → (for_all_teams include_bots bot_enabled teams fails ≡ succeeded)
        ↔ All (λ t. fails t ≡ false) (targets (include_bots && bot_enabled) teams)
  unfolding for_all_teams
  for_all_teams_iff include_bots bot_enabled teams =
      let ts = targets (include_bots && bot_enabled) teams in
      let none_failed = failures_none ts in
      (λ h. none_failed.0 (ground arith), λ h. let e = none_failed.1 h in ground (arith, e))

  length-targets : (teams : List Team) → length (targets false teams) ≡ length teams
  unfolding targets
  length-targets [] = refl
  length-targets (t ∷ teams) = omega (arith, length-targets teams)

  -- Without the bots the call ends, whatever fails: the channel has room for one error per team.
  for_all_teams_ends :
      (include_bots bot_enabled : Bool) (teams : List Team)
      → (include_bots && bot_enabled) ≡ false
      → for_all_teams include_bots bot_enabled teams fails ≢ blocked
  unfolding for_all_teams
  for_all_teams_ends include_bots bot_enabled teams off h =
      let room : failures fails (targets false teams) ≤ length teams =
        rw (← length-targets teams) (failures_le (targets false teams)) in
      let capped : ltb (length teams) (failures fails (targets false teams)) ≡ false =
        ground (arith, room) in
      ground (arith, rw (off, capped) at h)
