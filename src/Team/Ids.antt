-- ===== src/Team/Ids.antt =====
-- Ids and addresses tell teams, bots and socs apart.
use tinyrange_ad.Common.{◌<◌, ◌≢◌, arith, ap}
use tinyrange_ad.Net.{Ip}
use tinyrange_ad.Team.{Team, bot_id, soc_id, team_ip, soc_ip, bot_ip, info, bot_info, soc_info}

-- With fewer than 65535 teams no id of a team, a bot or a soc is that of another kind.
pub ids_apart :
    (t u : Team)
    → t.id < 65535
    → u.id < 65535
    → ((info t).id ≢ (bot_info u).id)
      × ((info t).id ≢ (soc_info u).id)
      × ((bot_info t).id ≢ (soc_info u).id)
unfolding info bot_info soc_info bot_id soc_id
ids_apart t u ht hu = ground arith

-- Two teams with different ids below 256 have different addresses, and so do their bots and their
-- socs.
ips_apart :
    (t u : Team)
    → t.id < 256
    → u.id < 256
    → t.id ≢ u.id
    → ((info t).ip ≢ (info u).ip)
      × ((bot_info t).ip ≢ (bot_info u).ip)
      × ((soc_info t).ip ≢ (soc_info u).ip)
unfolding info bot_info soc_info team_ip bot_ip soc_ip
ips_apart t u ht hu apart = (
  λ e. apart (omega (arith, ap Ip.d e)),
  λ e. apart (omega (arith, ap Ip.d e)),
  λ e. apart (omega (arith, ap Ip.d e)),
)
