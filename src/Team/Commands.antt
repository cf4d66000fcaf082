-- ===== src/Team/Commands.antt =====
-- The commands that a team's machines run at their start, and their stop: cmd/ad/team.go.
use tinyrange_ad.Common.{
  ℕ, [], ◌∷◌, Bool, true, false, ◌&&◌, ◌||◌, ◌==◌, Option, none, some, if◌then◌else◌, ◌>>=◌,
}
use tinyrange_ad.Common.Outcome.{Outcome, ok, panic}
use tinyrange_ad.Flow.Router.{FlowInstance}
use tinyrange_ad.Common.Text.{Bytes, codes, eqb}
use tinyrange_ad.Net.{ip_string}
use tinyrange_ad.Instance.{TinyRangeInstance, stop}
use tinyrange_ad.Team.{Team, TargetInfo, team_ip, soc_ip, bot_ip}

-- The data that an init command is expanded with.
pub record InitData : Type 0 where
  pub ip : Bytes
  pub vulnbox_ip : Bytes
  pub bot_ip_text : Bytes
  pub socbox_ip : Bytes
  pub team_name : Bytes

blank : ℕ → Bool
blank c = c == b' ' || c == 10

trim_left : Bytes → Bytes
unfolding blank
trim_left [] = []
trim_left (c ∷ s) = let rest = trim_left s in if blank c then rest else c ∷ s

trim_right : Bytes → Bytes
unfolding blank
trim_right [] = []
trim_right (c ∷ s) = let rest = trim_right s in if blank c && eqb rest [] then [] else c ∷ rest

-- Whether an init command's answer says success, blanks and line ends around it left out; `none` is
-- a command that failed.
unfoldable pub init_succeeded : Option Bytes → Bool
unfolding trim_left trim_right
init_succeeded none = false
init_succeeded (some resp) = eqb (trim_right (trim_left resp)) (codes "success")

init_data : Team → TargetInfo → InitData
init_data t target = record {
  ip = ip_string target.ip;
  vulnbox_ip = ip_string (team_ip t);
  bot_ip_text = ip_string (bot_ip t);
  socbox_ip = ip_string (soc_ip t);
  team_name = target.name;
}

-- `runInitCommand`: `expand` is package template, and `run` the machine of the target.
unfoldable pub run_init_command :
    (Bytes → InitData → Option Bytes)
    → (TargetInfo → Bytes → Option Bytes)
    → Bytes
    → Bytes
    → Team
    → TargetInfo
    → Bool
unfolding init_data init_succeeded
run_init_command expand run vulnbox_template socbox_template t target =
    let template = if target.is_soc then socbox_template else vulnbox_template in
    init_succeeded (expand template (init_data t target) >>= λ command. run target command)

stop_one : Option TinyRangeInstance → Bool → Bool
stop_one none signalled = true
stop_one (some t) signalled = stop t signalled

-- `Stop`, for the team's and the bot's instance and whether each can be signalled: whether it
-- succeeds, and whether it has come to the bot.
unfoldable pub stop_team :
    Option TinyRangeInstance → Option TinyRangeInstance → Bool → Bool → Bool × Bool
unfolding stop_one
stop_team team bot team_signalled bot_signalled =
    if stop_one team team_signalled then (stop_one bot bot_signalled, true) else (false, false)

-- The data that a bot's command is expanded with. `S` is the type of float64.
pub record BotData (S : Type 0) : Type 0 where
  pub target_ip : Bytes
  pub own_ip : Bytes
  pub tick_seconds : S

on_bot : (FlowInstance → Bytes → Option Bytes) → Option FlowInstance → Bytes → Outcome Bool
on_bot run none command = panic
on_bot run (some bot) command = elim (run bot command) [ none ↦ ok false | some resp ↦ ok true ]

expanded : (FlowInstance → Bytes → Option Bytes) → Option FlowInstance → Option Bytes → Outcome Bool
unfolding on_bot
expanded run bot none = ok false
expanded run bot (some command) = on_bot run bot command

-- `runBotCommand`: whether it succeeds. `expand` is package template, and `run` the bot's machine; a
-- bot that is nil is a nil dereference.
unfoldable pub run_bot_command :
    {S : Type 0}
    → (Bytes → BotData S → Option Bytes)
    → (FlowInstance → Bytes → Option Bytes)
    → S
    → Option FlowInstance
    → TargetInfo
    → TargetInfo
    → Bytes
    → Outcome Bool
unfolding expanded
run_bot_command expand run seconds bot target own command = expanded run bot (
    expand command (record {
      target_ip = ip_string target.ip;
      own_ip = ip_string own.ip;
      tick_seconds = seconds;
    }))
