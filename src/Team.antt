-- ===== src/Team.antt =====
-- Teams, their ids and addresses: cmd/ad/team.go and cmd/ad/common.go.
pub mod Ids
pub mod Commands
pub mod Lookup
pub mod Running
use tinyrange_ad.Common.{ℕ, ◌+◌, ◌%◌, ◌++◌, Bool, true, false, Option, ℤ, pos}
use tinyrange_ad.Common.Text.{Bytes, codes}
use tinyrange_ad.Net.{Ip, ipv4}
use tinyrange_ad.Flow.Router.{FlowInstance}

-- The address is kept as bytes; the code keeps its text.
pub record TargetInfo : Type 0 where
  pub id : ℤ
  pub name : Bytes
  pub ip : Ip
  pub is_bot : Bool
  pub is_soc : Bool

-- An id is an index into the list of teams. `none` is an instance that was not started.
pub record Team : Type 0 where
  pub id : ℕ
  pub display_name : Bytes
  pub team_instance : Option FlowInstance
  pub soc_instance : Option FlowInstance
  pub bot_instance : Option FlowInstance

abbrev pub bot_id_offset : ℕ
bot_id_offset = 0xffff

abbrev pub soc_id_offset : ℕ
soc_id_offset = 0x1ffff

unfoldable pub bot_id : Team → ℕ
bot_id t = t.id + bot_id_offset

unfoldable pub soc_id : Team → ℕ
soc_id t = t.id + soc_id_offset

-- `10 + byte(t.ID)` is computed in a byte.
unfoldable pub team_ip : Team → Ip
team_ip t = ipv4 10 40 10 ((10 + t.id % 256) % 256)

unfoldable pub soc_ip : Team → Ip
soc_ip t = ipv4 10 40 20 ((10 + t.id % 256) % 256)

unfoldable pub bot_ip : Team → Ip
bot_ip t = ipv4 10 40 30 ((10 + t.id % 256) % 256)

unfoldable pub info : Team → TargetInfo
info t = record {
  id = pos t.id;
  name = t.display_name;
  ip = team_ip t;
  is_bot = false;
  is_soc = false;
}

unfoldable pub bot_info : Team → TargetInfo
bot_info t = record {
  id = pos (bot_id t);
  name = t.display_name ++ codes "_bot";
  ip = bot_ip t;
  is_bot = true;
  is_soc = false;
}

unfoldable pub soc_info : Team → TargetInfo
soc_info t = record {
  id = pos (soc_id t);
  name = t.display_name ++ codes "_soc";
  ip = soc_ip t;
  is_bot = false;
  is_soc = true;
}
