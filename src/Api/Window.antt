-- ===== src/Api/Window.antt =====
-- Which flag ids are listed.
use tinyrange_ad.Common.{
  ℕ, zero, suc, ◌+◌, ◌<◌, ◌^◌, List, [], ◌∷◌, true, some, ℤ, pos, map, ◌≡◌, arith, All, All-append,
  Bool-cases, inl, inr, >>=-eq-some,
}
use tinyrange_ad.Common.Int.{◌-ℤ◌, ◌≤ℤ◌, ltb_ℤ, wrap64}
use tinyrange_ad.Config.{ServiceConfig, get_service}
use tinyrange_ad.Flag.{Crypto, FlagGenerator}
use tinyrange_ad.Team.{Team}
use tinyrange_ad.Api.{FlagIdApiResponse, past_ticks, flag_id_response, team_flag_ids, flag_ids}

stored {ℓ} : {A : Type ℓ} {a b : A} → some a ≡ some b → a ≡ b
stored h = cc

-- A tick that is over, after the start.
abbrev pub Past : ℤ → ℤ → Type 0
Past current tick = (pos 1 ≤ℤ tick) × (ltb_ℤ tick current ≡ true)

past :
    (c i : ℕ)
    → c < 2 ^ 63
    → ltb_ℤ (pos i) (wrap64 (pos c -ℤ pos 1)) ≡ true
    → Past (pos c) (wrap64 (wrap64 (pos c -ℤ pos i) -ℤ pos 1))
unfolding wrap64 ◌-ℤ◌
past c i small h = ground (arith, small, h)

past_ticks-Past : (c i left : ℕ) → c < 2 ^ 63 → All (Past (pos c)) (past_ticks (pos c) i left)
unfolding past_ticks
past_ticks-Past c i zero small = tt
past_ticks-Past c i (suc left) small =
    let rest = past_ticks-Past c (i + 1) left small in
    elim (Bool-cases (ltb_ℤ (pos i) (wrap64 (pos c -ℤ pos 1)))) [
      | inl over ↦ rw over (past c i small over, rest)
      | inr still ↦ rw still rest
    ]

module _ (k : Crypto) (gen : FlagGenerator) (key : k.PrivateKey) (c : ℕ) (valid : ℤ) where
  -- The response is for a tick that is over.
  abbrev pub IsPast : FlagIdApiResponse → Type 0
  IsPast r = Past (pos c) r.tick

  responses-IsPast :
      (team service : ℤ) (ticks : List ℤ)
      → All (Past (pos c)) ticks
      → All IsPast (map (flag_id_response k gen key (pos c) valid team service) ticks)
  unfolding flag_id_response
  responses-IsPast team service [] h = tt
  responses-IsPast team service (t ∷ ticks) h = (h.0, responses-IsPast team service ticks h.1)

  team_flag_ids-IsPast :
      (services : List ServiceConfig) (team : ℤ) (checks : List ℤ) (ids : List FlagIdApiResponse)
      → c < 2 ^ 63
      → team_flag_ids k gen key (pos c) valid services team checks ≡ some ids
      → All IsPast ids
  unfolding team_flag_ids
  team_flag_ids-IsPast services team [] ids small h = rw (← stored h) tt
  team_flag_ids-IsPast services team (check ∷ checks) ids small h =
      let (s, _, h1) = >>=-eq-some (get_service services check) _ h in
      let (rest, e, h2) =
        >>=-eq-some (team_flag_ids k gen key (pos c) valid services team checks) _ h1 in
      rw (← stored h2) (
        All-append IsPast _ rest (responses-IsPast team s.id _ (past_ticks-Past c 0 _ small))
          (team_flag_ids-IsPast services team checks rest small e))

  -- Every flag id that is listed is of a tick from the first one on that is over: none is of the
  -- current tick, whose flags may not be in place.
  pub flag_ids-IsPast :
      (services : List ServiceConfig) (checks : List ℤ) (teams : List Team)
      (ids : List FlagIdApiResponse)
      → c < 2 ^ 63
      → flag_ids k gen key (pos c) valid services checks teams ≡ some ids
      → All IsPast ids
  unfolding flag_ids
  flag_ids-IsPast services checks [] ids small h = rw (← stored h) tt
  flag_ids-IsPast services checks (t ∷ teams) ids small h =
      let (own, e, h1) =
        >>=-eq-some (team_flag_ids k gen key (pos c) valid services (pos t.id) checks) _ h in
      let (rest, e2, h2) =
        >>=-eq-some (flag_ids k gen key (pos c) valid services checks teams) _ h1 in
      rw (← stored h2) (
        All-append IsPast own rest (team_flag_ids-IsPast services (pos t.id) checks own small e)
          (flag_ids-IsPast services checks teams rest small e2))
