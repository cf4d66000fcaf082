-- ===== src/Api/Replies.antt =====
-- Handlers with an answer of their own: flag submission over HTTP, the scoreboard of a tick, and
-- the forms of the public server; cmd/ad/private.go and cmd/ad/public.go.
pub mod Numbers
use tinyrange_ad.Common.{
  ℕ, suc, ◌+◌, List, [], ◌∷◌, ◌++◌, Bool, true, false, Option, none, some, if◌then◌else◌, ℤ, pos,
  length, get_elem?, ◌≡◌, ◌<◌, refl, arith, Option-cases, ◌⊎◌, inl, inr, ap, ◌∙◌,
}
use tinyrange_ad.Common.Int.{negsuc, ltb_ℤ, pos_part, ◌-ℤ◌, Int64, ◌≤ℤ◌}
use tinyrange_ad.Common.Text.{Bytes, codes, eqb}
use tinyrange_ad.Common.Decimal.{atoi, itoa, atoi-itoa}
use tinyrange_ad.Common.Outcome.{Outcome, ok, panic, ◌>>=◌}
use tinyrange_ad.Flag.{Crypto}
use tinyrange_ad.Team.{TargetInfo}
use tinyrange_ad.Game.{Game, submit_flag, status_text}
use tinyrange_ad.Score.{ScoreboardState}

-- What a request is answered: a body, an error with its status code, or a redirection.
pub data Reply (A : Type 0) : Type 0 where
  body : A → Reply A
  http_error : ℕ → Bytes → Reply A
  redirect : Bytes → Reply A

-- `POST /api/flag`, for the team of the request and the value of its form.
unfoldable pub post_flag :
    {F : Type 0} (c : Crypto)
    → Game F c.PrivateKey
    → Option TargetInfo
    → Bytes
    → Outcome (Reply Bytes × Game F c.PrivateKey)
post_flag c game none flag = ok (http_error 404 (codes "team not found"), game)
post_flag c game (some sender) flag =
    if eqb flag []
    then ok (http_error 400 (codes "flag not found"), game)
    else (submit_flag c game sender flag >>= λ r. ok (body (status_text r.0 ++ 10 ∷ []), r.1))

-- `game.Ticks[tick-1]`.
nth_tick : {A : Type 0} → List A → ℤ → Outcome A
nth_tick ticks (negsuc n) = panic
nth_tick ticks (pos n) = elim (get_elem? ticks n) [ none ↦ panic | some t ↦ ok t ]

tick_reply : {A : Type 0} → List A → Option ℤ → Outcome (Reply A)
unfolding nth_tick
tick_reply ticks none = ok (http_error 400 (codes "invalid tick"))
tick_reply ticks (some tick) =
    if ltb_ℤ (pos (length ticks)) tick
    then ok (http_error 404 (codes "tick not found"))
    else (nth_tick ticks (tick -ℤ pos 1) >>= λ t. ok (body t))

-- `GET /api/scoreboard/{tick}` of both servers.
unfoldable pub scoreboard_of_tick : {A : Type 0} → List A → Bytes → Outcome (Reply A)
unfolding tick_reply
scoreboard_of_tick ticks tick_text = tick_reply ticks (atoi tick_text)
