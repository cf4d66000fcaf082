-- ===== src/Config.antt =====
-- The parts of the configuration that the game reads: cmd/ad/config.go.
use tinyrange_ad.Common.{List, [], ◌∷◌, Bool, not, Option, none, some, if◌then◌else◌, ℤ, pos}
use tinyrange_ad.Common.Int.{◌==ℤ◌, quot}
use tinyrange_ad.Common.Outcome.{Outcome, ok, panic}
use tinyrange_ad.Common.Text.{Bytes}
use tinyrange_ad.Tags.{TagList}

pub record ServiceConfig : Type 0 where
  pub id : ℤ
  pub service_name : Bytes
  pub service_port : ℤ
  pub service_tags : TagList
  pub private_service : Bool

-- `InstanceConfig`.
pub record InstanceConfig : Type 0 where
  pub template : Bytes
  pub tags : TagList
  pub flows : List Bytes
  pub ram : Bytes

pub record EventDefinition : Type 0 where
  pub command : Bytes
  pub timeout : ℤ
  pub background : Bool

pub record BotConfig : Type 0 where
  pub instance_config : InstanceConfig
  pub enabled : Bool
  pub events : List (Bytes × EventDefinition)

-- `HealthCheckConfig.Kind` with its data; `other` is a kind that no code handles.
pub data HealthCheckKind : Type 0 where
  kind_none kind_http kind_other : HealthCheckKind

pub record HealthCheckConfig : Type 0 where
  pub kind : HealthCheckKind
  pub url : Bytes
  pub expected_output : Bytes

pub record VulnboxConfig : Type 0 where
  pub instance_config : InstanceConfig
  pub init_template : Bytes
  pub health_check : HealthCheckConfig
  pub services : List ServiceConfig
  pub bot : BotConfig

pub record SocboxConfig : Type 0 where
  pub instance_config : InstanceConfig
  pub init_template : Bytes
  pub services : List ServiceConfig

pub record DeviceGlobalConfig : Type 0 where
  pub tags : TagList
  pub flows : List Bytes

-- The points are floats, of a type `F`.
pub record ScoringConfig (F : Type 0) : Type 0 where
  pub points_per_tick : F
  pub points_per_stolen_flag : F
  pub points_per_lost_flag : F

-- `At` is in nanoseconds.
pub record TimelineEvent : Type 0 where
  pub at : ℤ
  pub event : Bytes

-- The durations are int64 numbers of nanoseconds.
pub record Config (F : Type 0) : Type 0 where
  pub vulnbox : VulnboxConfig
  pub socbox : SocboxConfig
  pub device : DeviceGlobalConfig
  pub tick_rate : ℤ
  pub duration : ℤ
  pub flag_valid_time : ℤ
  pub scoring : ScoringConfig F
  pub timeline : List TimelineEvent

-- Integer division, which panics on a divisor of 0.
unfoldable pub div : ℤ → ℤ → Outcome ℤ
div a b = if b ==ℤ pos 0 then panic else ok (quot a b)

-- `VulnboxConfig.GetService`: the first service with the id.
unfoldable pub get_service : List ServiceConfig → ℤ → Option ServiceConfig
get_service [] id = none
get_service (s ∷ services) id = if s.id ==ℤ id then some s else get_service services id

-- `VulnboxConfig.PublicServices`.
unfoldable pub public_services : List ServiceConfig → List ServiceConfig
public_services [] = []
public_services (s ∷ services) =
    let rest = public_services services in if not s.private_service then s ∷ rest else rest

module _ {F : Type 0} (config : Config F) where
  -- `AttackDefenseGame.TotalTicks`.
  unfoldable pub total_ticks : Outcome ℤ
  unfolding div
  total_ticks = div config.duration config.tick_rate

  -- `AttackDefenseGame.FlagValidTicks`.
  unfoldable pub flag_valid_ticks : Outcome ℤ
  unfolding div
  flag_valid_ticks = div config.flag_valid_time config.tick_rate

  -- `TimelineEvent.Tick`.
  unfoldable pub event_tick : TimelineEvent → Outcome ℤ
  unfolding div
  event_tick ev = div ev.at config.tick_rate
