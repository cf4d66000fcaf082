-- ===== src/Tests/Submissions.antt =====
-- Submissions on concrete inputs.
use tinyrange_ad.Common.{sym, ℕ, ◌∙◌, [], ◌∷◌, none, some, ◌≡◌, ◌≢◌, ◌⊎◌, refl, ℤ, pos, arith}
use tinyrange_ad.Common.Text.{Bytes, codes}
use tinyrange_ad.Common.Dict.{lookup, modify}
use tinyrange_ad.Common.Int.{wrap64, ◌-ℤ◌, quot}
use tinyrange_ad.Config.{flag_valid_ticks}
use tinyrange_ad.Common.Outcome.{ok, panic}
use tinyrange_ad.Flag.{generate, verify, signer_public}
use tinyrange_ad.Flag.RoundTrip.{verify-generate}
use tinyrange_ad.Team.{info}
use tinyrange_ad.Score.{ServiceState, new_service}
use tinyrange_ad.Game.{
  Game, flag_accepted, submit_flag, check_flag, record_theft, flags_stolen_by, has_flag,
}
use tinyrange_ad.Game.Submit.{Accepted, submit_flag_cases}
use tinyrange_ad.Game.Answers.{Ready, Returns, submit_flag-Returns}
use tinyrange_ad.Game.FirstTick.{submit_flag-panic}
use tinyrange_ad.Game.Once.{submit_flag-check_flag}
use tinyrange_ad.Tests.{crypto, generator, alpha, game, board, state_of}

-- The flag of beta in the second tick.
abbrev pub flag : Bytes
flag = generate crypto generator (pos 2) (pos 1) (pos 0) 7

abbrev pub thief : ServiceState ℕ
thief = record (new_service 0 (codes "web")) {
  stolen_flags = record { team_id = pos 1; tick_id = pos 2 } ∷ [];
}

abbrev pub victim : ServiceState ℕ
victim = record (new_service 0 (codes "web")) {
  lost_flags = record { team_id = pos 0; tick_id = pos 2 } ∷ [];
}

-- The game after alpha has submitted it.
abbrev pub game_after : Game ℕ ℕ
game_after = record game {
  current_state = some (record board {
    teams =
        (pos 0, record (state_of (codes "alpha")) { services = (pos 0, thief) ∷ [] })
        ∷ (pos 1, record (state_of (codes "beta")) { services = (pos 0, victim) ∷ [] })
        ∷ [];
  });
}

pub verified : verify crypto generator (signer_public crypto 7) flag ≡ some (pos 2, pos 1, pos 0)
verified =
    verify-generate crypto generator 7 (pos 2) (pos 1) (pos 0) (ground arith) (ground arith)
      (ground arith)

pub accepts : submit_flag crypto game (info alpha) flag ≡ ok (flag_accepted, game_after)
unfolding check_flag info flag_valid_ticks wrap64 ◌-ℤ◌ quot flags_stolen_by lookup has_flag
    record_theft modify
accepts =
    submit_flag-check_flag crypto game (info alpha) flag (pos 2) (pos 1) (pos 0) refl verified
    ∙ refl

submit_flag_cases_example :
    (flag_accepted ≢ flag_accepted) × (game_after ≡ game)
    ⊎ (flag_accepted ≡ flag_accepted) × Accepted crypto game (info alpha) flag game_after
submit_flag_cases_example =
    submit_flag_cases crypto game (info alpha) flag flag_accepted game_after accepts

abbrev first_tick : Game ℕ ℕ
first_tick = record game { ticks = []; overall_state = none }

submit_flag-panic_example : submit_flag crypto first_tick (info alpha) flag ≡ panic
unfolding info flag_valid_ticks quot wrap64 ◌-ℤ◌
submit_flag-panic_example =
    submit_flag-panic crypto first_tick (info alpha) flag (pos 2) (pos 1) (pos 0) (pos 5) board refl
      verified (ground arith) (ground arith) refl refl refl refl refl refl

the_ids : {a b : ℤ × ℤ × ℤ} → some a ≡ some b → (a.1 ≡ b.1) × (a.2 ≡ b.2)
the_ids h = (cc, cc)

ready : Ready game (info alpha).id (pos 1) (pos 0)
unfolding info lookup
ready = record {
  current = board;
  is_current = refl;
  overall = board;
  is_overall = refl;
  own = (new_service 0 (codes "web"), refl);
  own_before = (new_service 0 (codes "web"), refl);
  other = (new_service 0 (codes "web"), refl);
}

submit_flag-Returns_example : Returns (submit_flag crypto game (info alpha) flag)
unfolding flag_valid_ticks quot
submit_flag-Returns_example =
    submit_flag-Returns crypto game (info alpha) flag (pos 5) refl (λ tick team service good _ _ _.
      let ids = the_ids (sym verified ∙ good) in rw (← ids.0, ← ids.1) ready)
