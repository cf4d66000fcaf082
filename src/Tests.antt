-- ===== src/Tests.antt =====
-- Concrete inputs: a toy crypto, a toy float, a small game. The children run the theorems on them.
pub mod Again
pub mod Sorting
pub mod Flags
pub mod Flows
pub mod Scores
pub mod Submissions
pub mod Ticks
pub mod Pages
pub mod Api
pub mod Stores
pub mod Devices
pub mod Hosting
pub mod Proxying
pub mod Starts
pub mod Runs
pub mod Servers
pub mod Sites
use tinyrange_ad.Common.{
  ℕ, ◌+◌, ◌*◌, ◌/◌, ◌<◌, arith, List, [], ◌∷◌, ◌++◌, true, false, Option, none, some, ℤ, pos, refl,
}
use tinyrange_ad.Common.Int.{pos_part}
use tinyrange_ad.Common.Text.{Bytes, codes, eqb, eqb_refl}
use tinyrange_ad.Config.{
  Config, ServiceConfig, InstanceConfig, BotConfig, HealthCheckConfig, VulnboxConfig, SocboxConfig,
  DeviceGlobalConfig, ScoringConfig, kind_none,
}
use tinyrange_ad.Flag.{Crypto, FlagGenerator}
use tinyrange_ad.Flow.Router.{FlowInstance, FlowService}
use tinyrange_ad.Flow.{ParsedFlow}
use tinyrange_ad.Net.{ipv4}
use tinyrange_ad.Score.{Float, ServiceState, TeamState, ScoreboardState, new_service}
use tinyrange_ad.Team.{Team}
use tinyrange_ad.Game.{Game}

-- A signature is one fixed byte, and so is a public key.
pub small : {n : ℕ} → n < 3 → n < 256
small h = omega (arith, h)

abbrev pub crypto : Crypto
crypto = record {
  PrivateKey = ℕ;
  sign = λ k m. 1 ∷ [];
  public = λ k. 2 ∷ [];
  verify = λ p m s. eqb s (1 ∷ []);
  sha256 = λ m. m;
  sign-Byte = λ k m. (small (omega arith), tt);
  public-Byte = λ k. (small (omega arith), tt);
  verify-sign = λ k m. eqb_refl (1 ∷ []);
}

-- Numbers without a fraction.
abbrev pub whole : Float
whole = record {
  F = ℕ;
  zero_f = 0;
  of_int = pos_part;
  add = λ a b. a + b;
  mul = λ a b. a * b;
  div = λ a b. a / b;
  to_int = pos;
}

abbrev pub generator : FlagGenerator
generator = record { prefix = codes "flag{"; suffix = codes "}" }

abbrev pub web_service : ServiceConfig
web_service = record {
  id = pos 0;
  service_name = codes "web";
  service_port = pos 80;
  service_tags = codes "web" ∷ [];
  private_service = false;
}

abbrev pub instance_config : InstanceConfig
instance_config = record { template = []; tags = []; flows = []; ram = [] }

abbrev pub config : Config ℕ
config = record {
  vulnbox = record {
    instance_config = instance_config;
    init_template = [];
    health_check = record { kind = kind_none; url = []; expected_output = [] };
    services = web_service ∷ [];
    bot = record { instance_config = instance_config; enabled = false; events = [] };
  };
  socbox = record { instance_config = instance_config; init_template = []; services = [] };
  device = record { tags = []; flows = [] };
  tick_rate = pos 10;
  duration = pos 100;
  flag_valid_time = pos 50;
  scoring = record { points_per_tick = 1; points_per_stolen_flag = 10; points_per_lost_flag = 0 };
  timeline = [];
}

abbrev pub alpha : Team
alpha = record {
  id = 0;
  display_name = codes "alpha";
  team_instance = none;
  soc_instance = none;
  bot_instance = none;
}

abbrev pub beta : Team
beta = record {
  id = 1;
  display_name = codes "beta";
  team_instance = none;
  soc_instance = none;
  bot_instance = none;
}

abbrev pub state_of : Bytes → TeamState ℕ
state_of name = record {
  is_bot = false;
  name = name;
  points = 0;
  position = 0;
  services = (pos 0, new_service 0 (codes "web")) ∷ [];
}

abbrev pub board : ScoreboardState ℕ
board = record {
  tick = pos 2;
  teams = (pos 0, state_of (codes "alpha")) ∷ (pos 1, state_of (codes "beta")) ∷ [];
}

-- A game in its second tick.
abbrev pub game : Game ℕ ℕ
game = record {
  config = config;
  signer = 7;
  flag_gen = generator;
  current_tick = pos 2;
  teams = alpha ∷ beta ∷ [];
  running = true;
  current_state = some board;
  ticks = board ∷ [];
  overall_state = some board;
}

abbrev pub web : FlowService
web = record { name = codes "web"; port = pos 80; tags = codes "public" ∷ [] }

abbrev pub vulnbox : FlowInstance
vulnbox = record {
  hostname = codes "team_alpha";
  tags = codes "team/alpha" ∷ [];
  address = ipv4 10 40 10 10;
  services = web ∷ [];
  flows = [];
}

abbrev pub scorebot : FlowInstance
scorebot = record {
  hostname = codes "scorebot";
  tags = codes "scorebot" ∷ [];
  address = ipv4 10 40 0 2;
  services = [];
  flows = record { tag = codes "team"; instance_name = codes "*"; service = codes "public" } ∷ [];
}
