-- ===== src/Api.antt =====
-- The JSON handlers of the server for the teams, cmd/ad/private.go.
pub mod Window
pub mod Replies
use tinyrange_ad.Common.{
  zero, ℕ, suc, ◌+◌, List, [], ◌∷◌, ◌++◌, Bool, Option, none, some, if◌then◌else◌, ◌>>=◌, ℤ, pos,
  not, map, length,
}
use tinyrange_ad.Common.Int.{◌-ℤ◌, ltb_ℤ, ◌==ℤ◌, wrap64, pos_part}
use tinyrange_ad.Common.Text.{Bytes}
use tinyrange_ad.Config.{ServiceConfig, get_service, public_services}
use tinyrange_ad.Flag.{Crypto, FlagGenerator, generate, get_flag_id}
use tinyrange_ad.Net.{Ip}
use tinyrange_ad.Team.{Team, TargetInfo, team_ip}

pub record FlagIdApiResponse : Type 0 where
  pub tick : ℤ
  pub team : ℤ
  pub service : ℤ
  pub value : Bytes

pub record ServiceApiResponse : Type 0 where
  pub id : ℤ
  pub name : Bytes
  pub port : ℤ

pub record TeamApiResponse : Type 0 where
  pub self : Bool
  pub id : ℤ
  pub ip : Ip
  pub name : Bytes

-- The innermost loop of `GET /api/flagIds`: the ticks for the offsets from `i` on, `left` of them.
unfoldable pub past_ticks : ℤ → ℕ → ℕ → List ℤ
past_ticks current i zero = []
past_ticks current i (suc left) =
    let rest = past_ticks current (i + 1) left in
    if not (ltb_ℤ (pos i) (wrap64 (current -ℤ pos 1)))
    then rest
    else wrap64 (wrap64 (current -ℤ pos i) -ℤ pos 1) ∷ rest

module _ (c : Crypto) (gen : FlagGenerator) (key : c.PrivateKey) (current valid : ℤ) where
  flag_id_response : ℤ → ℤ → ℤ → FlagIdApiResponse
  flag_id_response team service tick = record {
    tick = tick;
    team = team;
    service = service;
    value = get_flag_id c (generate c gen tick team service key);
  }

  -- The flag ids of a team, check by check; `none` is the error of a check without a service.
  unfoldable pub team_flag_ids : List ServiceConfig → ℤ → List ℤ → Option (List FlagIdApiResponse)
  unfolding past_ticks flag_id_response
  team_flag_ids services team [] = some []
  team_flag_ids services team (check ∷ checks) = get_service services check >>= λ s.
      team_flag_ids services team checks >>= λ rest. some (
        map (flag_id_response team s.id) (past_ticks current 0 (pos_part (wrap64 (valid -ℤ pos 1))))
        ++ rest)

  -- `GET /api/flagIds`.
  unfoldable pub flag_ids :
      List ServiceConfig → List ℤ → List Team → Option (List FlagIdApiResponse)
  unfolding team_flag_ids
  flag_ids services checks [] = some []
  flag_ids services checks (t ∷ teams) = team_flag_ids services (pos t.id) checks >>= λ ids.
      flag_ids services checks teams >>= λ rest. some (ids ++ rest)

-- `GET /api/teams`; `none` is the error of a request from no team.
unfoldable pub team_list : Option TargetInfo → List Team → Option (List TeamApiResponse)
team_list player teams = player >>= λ p. some (
    map
      (λ t. record {
        self = pos t.id ==ℤ p.id;
        id = pos t.id;
        ip = team_ip t;
        name = t.display_name;
      })
      teams)

-- `GET /api/vulnbox/services`.
unfoldable pub service_list : List ServiceConfig → List ServiceApiResponse
service_list services =
    map (λ s. record { id = s.id; name = s.service_name; port = s.service_port })
      (public_services services)
