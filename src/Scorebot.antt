-- ===== src/Scorebot.antt =====
-- The scorebot, cmd/ad/scorebot.go: its checks, the wait for its health and the start of its instance.
pub mod Checks
use tinyrange_ad.Common.{
  map, ℕ, suc, List, [], ◌∷◌, Bool, true, false, Option, none, some, if◌then◌else◌, ◌>>=◌, ℤ, ltb,
  length,
}
use tinyrange_ad.Common.Outcome.{Outcome, ok, panic}
use tinyrange_ad.Common.Text.{Bytes, codes, eqb}
use tinyrange_ad.Common.Decimal.{itoa}
use tinyrange_ad.Tags.{ReplaceFunc}
use tinyrange_ad.Net.{ip_string}
use tinyrange_ad.Team.{TargetInfo}
use tinyrange_ad.Config.{ServiceConfig, InstanceConfig, get_service}
use tinyrange_ad.Flow.Router.{FlowService}
use tinyrange_ad.Tick.{Waited, succeeded, failed, blocked}
use tinyrange_ad.Instance.{TinyRangeInstance, parse_instance_flows, add_services}

pub record ScoreBotServiceConfig : Type 0 where
  pub id : ℤ
  pub command : Bytes
  pub timeout : ℤ

pub record ScoreBotConfig : Type 0 where
  pub instance_config : InstanceConfig
  pub services : List FlowService
  pub checks : List ScoreBotServiceConfig
  pub health_check_command : Bytes

-- The data that the command of a check is expanded with.
pub record CheckData : Type 0 where
  pub target_ip : Bytes
  pub flag_id : Bytes
  pub new_flag : Bytes
  pub service_port : Bytes

pub record ScoreBotResponse : Type 0 where
  pub status : Bytes
  pub message : Bytes

-- Package template: a text parses to a function of the data, which may fail; package json and the
-- command that the instance runs.
pub record Outside : Type 0 where
  pub parse_template : Bytes → Option (CheckData → Option Bytes)
  pub run_command : Bytes → Option Bytes
  pub decode_response : Bytes → Option ScoreBotResponse

answered : ScoreBotResponse → Bool × Bytes
answered r = (eqb r.status (codes "success"), r.message)

check_data : TargetInfo → Bytes → Bytes → ServiceConfig → CheckData
check_data target flag_id flag service = record {
  target_ip = ip_string target.ip;
  flag_id = flag_id;
  new_flag = flag;
  service_port = itoa service.service_port;
}

run_template :
    Outside
    → TargetInfo
    → Bytes
    → Bytes
    → (CheckData → Option Bytes)
    → Option ServiceConfig
    → Outcome (Option (Bool × Bytes))
unfolding answered check_data
run_template out target flag_id flag tpl none = panic
run_template out target flag_id flag tpl (some service) = ok (
    tpl (check_data target flag_id flag service) >>= λ command.
    out.run_command command >>= λ resp. out.decode_response resp >>= λ r. some (answered r))

parsed :
    Outside
    → List ServiceConfig
    → ScoreBotServiceConfig
    → TargetInfo
    → Bytes
    → Bytes
    → Option (CheckData → Option Bytes)
    → Outcome (Option (Bool × Bytes))
unfolding run_template
parsed out services check target flag_id flag none = ok none
parsed out services check target flag_id flag (some tpl) =
    run_template out target flag_id flag tpl (get_service services check.id)

-- `Run` of a check against a target, for a flag and its id: whether it was a success, with the
-- message; `none` is an error, and a check without a service of its id panics. The parsed template,
-- which the code keeps, is the same each time.
unfoldable pub run_check :
    Outside
    → List ServiceConfig
    → ScoreBotServiceConfig
    → TargetInfo
    → Bytes
    → Bytes
    → Outcome (Option (Bool × Bytes))
unfolding parsed
run_check out services check target flag_id flag =
    parsed out services check target flag_id flag (out.parse_template check.command)

-- `Wait`: the number of tries for the answers of the health check, in order, `none` for a failed
-- command; `none` while no answer has been `healthy`.
unfoldable pub wait : List (Option Bytes) → Option ℕ
wait [] = none
wait (none ∷ replies) = wait replies >>= λ n. some (suc n)
wait (some r ∷ replies) =
    let rest = wait replies in
    if eqb r (codes "healthy") then some 1 else (rest >>= λ n. some (suc n))

-- The calls, whose errors go into a channel of the capacity that holds some already. A send on the
-- full channel never ends, since nothing receives before all calls are done.
sends : ℕ → ℕ → List Bool → Waited
sends capacity held [] = if ltb 0 held then failed else succeeded
sends capacity held (false ∷ fails) = sends capacity held fails
sends capacity held (true ∷ fails) =
    let rest = sends capacity (suc held) fails in if ltb held capacity then rest else blocked

-- `ForEachService`: a call for each check, all at once, and a channel with room for an error of each
-- service of the scorebot.
unfoldable pub for_each_service : ScoreBotConfig → (ScoreBotServiceConfig → Bool) → Waited
unfolding sends
for_each_service config fails = sends (length config.services) 0 (map fails config.checks)

-- The scorebot's flows may have no variables.
no_variables : ReplaceFunc
no_variables = some (λ s. none)

-- `Start` from the started instance on, which becomes the scorebot's; `none` is the error of
-- `ParseFlows`.
unfoldable pub start_scorebot : ScoreBotConfig → TinyRangeInstance → Option TinyRangeInstance
unfolding no_variables
start_scorebot config t =
    parse_instance_flows t no_variables >>= λ t'. some (add_services t' config.services)
