-- ===== src/Services/Sessions.antt =====
-- The flag submission service: what a connection is answered.
use mathlib.Core.Path.{subst}
use tinyrange_ad.Common.{Option, some, ℕ, zero, suc, List, [], ◌∷◌, ◌++◌, ◌≡◌, refl}
use tinyrange_ad.Common.Outcome.{ok, >>=-eq-ok}
use tinyrange_ad.Common.Text.{Bytes, codes, eqb}
use tinyrange_ad.Flag.{Crypto}
use tinyrange_ad.Team.{TargetInfo}
use tinyrange_ad.Game.{
  Game, FlagStatus, submit_flag, status_text, game_not_running, flag_accepted, flag_already_stolen,
  flag_expired, flag_not_yet_valid, flag_from_own_team, invalid_flag, invalid_service, invalid_team,
}
use tinyrange_ad.Game.Once.{submit_flag-already_stolen}
use tinyrange_ad.Game.Theft.{ok_injective}
use tinyrange_ad.Common.Dict.{lookup, bytes_eq}
use tinyrange_ad.Services.{answer_lines}

unfoldable pub repeat : {A : Type 0} → ℕ → A → List A
repeat zero a = []
repeat (suc n) a = a ∷ repeat n a

module _ {F : Type 0} (c : Crypto) where
  answer_next :
      (game game' game'' : Game F c.PrivateKey) (sender : TargetInfo) (flag : Bytes) (status : _)
      (flags replies : List Bytes)
      → submit_flag c game sender flag ≡ ok (status, game')
      → answer_lines c game' sender flags ≡ ok (replies, game'')
      → answer_lines c game sender (flag ∷ flags)
        ≡ ok ((status_text status ++ 10 ∷ []) ∷ replies, game'')
  unfolding answer_lines
  answer_next game game' game'' sender flag status flags replies h rest = rw (h, rest) refl

  answer_again :
      (game : Game F c.PrivateKey) (sender : TargetInfo) (flag : Bytes) (n : ℕ)
      → submit_flag c game sender flag ≡ ok (flag_already_stolen, game)
      → answer_lines c game sender (repeat n flag)
        ≡ ok (repeat n (codes "FLAG_ALREADY_STOLEN" ++ 10 ∷ []), game)
  unfolding answer_lines repeat status_text
  answer_again game sender flag zero h = refl
  answer_again game sender flag (suc n) h =
      answer_next game game game sender flag flag_already_stolen (repeat n flag)
        (repeat n (codes "FLAG_ALREADY_STOLEN" ++ 10 ∷ [])) h (answer_again game sender flag n h)

  -- A connection that sends an accepted flag again and again is told so once, and from then on that
  -- the flag is already stolen; the repetitions change nothing.
  pub answer_lines-repeat :
      (game game' : Game F c.PrivateKey) (sender : TargetInfo) (flag : Bytes) (n : ℕ)
      → submit_flag c game sender flag ≡ ok (flag_accepted, game')
      → answer_lines c game sender (flag ∷ repeat n flag)
        ≡ ok (
          (codes "FLAG_ACCEPTED" ++ 10 ∷ []) ∷ repeat n (codes "FLAG_ALREADY_STOLEN" ++ 10 ∷ []),
          game',
        )
  unfolding status_text
  answer_lines-repeat game game' sender flag n h =
      answer_next game game' game' sender flag flag_accepted (repeat n flag) _ h (
        answer_again game' sender flag n
          (submit_flag-already_stolen c game game' sender flag flag h refl))

-- How the protocol reads a line of a reply.
unfoldable pub reads_as : Bytes → Option FlagStatus
reads_as = λ text. lookup text (
    (codes "FLAG_ACCEPTED", flag_accepted)
    ∷ (codes "FLAG_ALREADY_STOLEN", flag_already_stolen)
    ∷ (codes "FLAG_EXPIRED", flag_expired)
    ∷ (codes "FLAG_NOT_YET_VALID", flag_not_yet_valid)
    ∷ (codes "FLAG_FROM_OWN_TEAM", flag_from_own_team)
    ∷ (codes "INVALID_FLAG", invalid_flag)
    ∷ (codes "INVALID_SERVICE", invalid_service)
    ∷ (codes "INVALID_TEAM", invalid_team)
    ∷ (codes "GAME_NOT_RUNNING", game_not_running)
    ∷ [])

-- The reply is one line, which the protocol reads as the status.
unfoldable pub Says : FlagStatus → Bytes → Type 0
Says status reply = (text : Bytes) × (reply ≡ text ++ 10 ∷ []) × (reads_as text ≡ some status)

status_text-Says : (status : FlagStatus) → Says status (status_text status ++ 10 ∷ [])
unfolding Says reads_as status_text lookup eqb
status_text-Says game_not_running = (codes "GAME_NOT_RUNNING", refl, refl)
status_text-Says flag_accepted = (codes "FLAG_ACCEPTED", refl, refl)
status_text-Says flag_already_stolen = (codes "FLAG_ALREADY_STOLEN", refl, refl)
status_text-Says flag_expired = (codes "FLAG_EXPIRED", refl, refl)
status_text-Says flag_not_yet_valid = (codes "FLAG_NOT_YET_VALID", refl, refl)
status_text-Says flag_from_own_team = (codes "FLAG_FROM_OWN_TEAM", refl, refl)
status_text-Says invalid_flag = (codes "INVALID_FLAG", refl, refl)
status_text-Says invalid_service = (codes "INVALID_SERVICE", refl, refl)
status_text-Says invalid_team = (codes "INVALID_TEAM", refl, refl)

module _ {F : Type 0} (c : Crypto) where
  -- The lines are submissions by the sender, one after the other, each with its reply.
  pub data Conversation (sender : TargetInfo)
      : Game F c.PrivateKey → List Bytes → List Bytes → Game F c.PrivateKey → Type 0 where
    over : {game : Game F c.PrivateKey} → Conversation sender game [] [] game
    line :
        {game mid game' : Game F c.PrivateKey} {flags replies : List Bytes} (flag reply : Bytes)
        (status : FlagStatus)
        → submit_flag c game sender flag ≡ ok (status, mid)
        → Says status reply
        → Conversation sender mid flags replies game'
        → Conversation sender game (flag ∷ flags) (reply ∷ replies) game'

  -- Every line of a connection that is answered to the end is a submission by its sender, in the
  -- order of the lines, and has one reply, a line that the protocol reads as the submission's status.
  pub answer_lines-Conversation :
      (game game' : Game F c.PrivateKey) (sender : TargetInfo) (flags replies : List Bytes)
      → answer_lines c game sender flags ≡ ok (replies, game')
      → Conversation sender game flags replies game'
  unfolding answer_lines
  answer_lines-Conversation game game' sender [] replies h =
      subst (λ (r : List Bytes × Game F c.PrivateKey). Conversation sender game [] r.0 r.1)
        (ok_injective h) over
  answer_lines-Conversation game game' sender (flag ∷ flags) replies h =
      let ((status, mid), submits, rest) = >>=-eq-ok (submit_flag c game sender flag) _ h in
      let ((later, final), answers, last) = >>=-eq-ok (answer_lines c mid sender flags) _ rest in
      let talk = answer_lines-Conversation mid final sender flags later answers in
      let said = status_text-Says status in
      subst
        (λ (r : List Bytes × Game F c.PrivateKey). Conversation sender game (flag ∷ flags) r.0 r.1)
        (ok_injective last) (line flag (status_text status ++ 10 ∷ []) status submits said talk)
