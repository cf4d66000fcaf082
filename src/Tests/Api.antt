-- ===== src/Tests/Api.antt =====
-- The lists of flag ids on concrete inputs.
use tinyrange_ad.Common.{List, [], ◌∷◌, some, ◌≡◌, refl, pos, arith, All}
use tinyrange_ad.Common.Int.{wrap64, ◌-ℤ◌}
use tinyrange_ad.Config.{get_service}
use tinyrange_ad.Api.{FlagIdApiResponse, flag_ids}
use tinyrange_ad.Api.Window.{IsPast, flag_ids-IsPast}
use tinyrange_ad.Flag.{generate, get_flag_id}
use tinyrange_ad.Tests.{crypto, generator, alpha, web_service}

-- In the third tick: those of the first two.
abbrev listed : List FlagIdApiResponse
listed =
    record {
      tick = pos 2;
      team = pos 0;
      service = pos 0;
      value = get_flag_id crypto (generate crypto generator (pos 2) (pos 0) (pos 0) 7);
    }
    ∷ record {
      tick = pos 1;
      team = pos 0;
      service = pos 0;
      value = get_flag_id crypto (generate crypto generator (pos 1) (pos 0) (pos 0) 7);
    }
    ∷ []

lists :
    flag_ids crypto generator 7 (pos 3) (pos 5) (web_service ∷ []) (pos 0 ∷ []) (alpha ∷ [])
    ≡ some listed
unfolding flag_ids get_service wrap64 ◌-ℤ◌
lists = refl

flag_ids-IsPast_example : All (IsPast crypto generator 7 3 (pos 5)) listed
flag_ids-IsPast_example =
    flag_ids-IsPast crypto generator 7 3 (pos 5) (web_service ∷ []) (pos 0 ∷ []) (alpha ∷ []) listed
      (omega arith) lists
