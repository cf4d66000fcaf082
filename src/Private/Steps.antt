-- ===== src/Private/Steps.antt =====
-- What the server for the teams does to the game.
use mathlib.Core.Path.{subst}
use tinyrange_ad.Common.{
  suc, List, [], ◌∷◌, Bool, Option, none, some, length, ◌≡◌, ◌⊎◌, some_injective, refl, sym, ap,
  ◌∙◌, Bool-cases, inl, inr,
}
use tinyrange_ad.Common.Outcome.{ok, >>=-eq-ok}
use tinyrange_ad.Common.Text.{Bytes, eqb}
use tinyrange_ad.Tags.{TagList}
use tinyrange_ad.Flag.{Crypto}
use tinyrange_ad.Score.{Float, SortFunc}
use tinyrange_ad.Team.{Team, TargetInfo}
use tinyrange_ad.Game.{Game, FlagStatus, submit_flag}
use tinyrange_ad.Game.Theft.{ok_injective}
use tinyrange_ad.Tick.Recorded.{Steps, done, next, submitted}
use tinyrange_ad.Services.{team_from_flow_instance, session_info}
use tinyrange_ad.Api.Replies.{Reply, post_flag}
use tinyrange_ad.Private.{
  TeamContent, TeamLook, TeamRequest, reading, submit_form, read_page, answer_team, answer_all,
  of_team, accept_web,
}

module _ (fl : Float) (sorter : SortFunc) (c : Crypto) where
  open fl use {F}

  -- The game is as it was, or it has made the step of a submission by the sender.
  unfoldable pub OneSubmission :
      Option TargetInfo → Game F c.PrivateKey → Game F c.PrivateKey → Type 0
  OneSubmission player game game' =
      (game' ≡ game)
      ⊎ (sender : TargetInfo) × (flag : Bytes) × (status : FlagStatus) × (player ≡ some sender)
        × (submit_flag c game sender flag ≡ ok (status, game'))

  post_flag-OneSubmission :
      (game game' : Game F c.PrivateKey) (player : Option TargetInfo) (flag : Bytes)
      (reply : Reply Bytes)
      → post_flag c game player flag ≡ ok (reply, game')
      → OneSubmission player game game'
  unfolding post_flag OneSubmission
  post_flag-OneSubmission game game' none flag reply h = inl (ap (λ x. x.1) (sym (ok_injective h)))
  post_flag-OneSubmission game game' (some sender) flag reply h = elim (Bool-cases (eqb flag [])) [
    | inl e ↦ inl (ap (λ x. x.1) (sym (ok_injective (rw e at h))))
    | inr e ↦
        let ((status, mid), submits, h1) =
          >>=-eq-ok (submit_flag c game sender flag) _ (rw e at h) in
        let same : mid ≡ game' = ap (λ x. x.1) (ok_injective h1) in
        inr (sender, flag, status, refl, submits ∙ ap (λ g. ok (status, g)) same)
  ]

  module _ (look : TeamLook F) where
    answer_team-OneSubmission :
        (game game' : Game F c.PrivateKey) (player : Option TargetInfo) (r : TeamRequest)
        (reply : Reply (TeamContent F))
        → answer_team c look game player r ≡ ok (reply, game')
        → OneSubmission player game game'
    unfolding answer_team OneSubmission
    answer_team-OneSubmission game game' player (reading r) reply h =
        let (_, _, h1) = >>=-eq-ok (read_page c look game player r) _ h in
        inl (ap (λ x. x.1) (sym (ok_injective h1)))
    answer_team-OneSubmission game game' player (submit_form flag) reply h =
        let ((posted, mid), posts, h1) = >>=-eq-ok (post_flag c game player flag) _ h in
        let same : mid ≡ game' = ap (λ x. x.1) (ok_injective h1) in
        post_flag-OneSubmission game game' player flag posted
          (posts ∙ ap (λ g. ok (posted, g)) same)

  -- Submissions by a sender, one after the other.
  pub data Submissions (sender : TargetInfo)
      : Game F c.PrivateKey → Game F c.PrivateKey → Type 0 where
    no_more : {game : Game F c.PrivateKey} → Submissions sender game game
    one_more :
        {game mid game' : Game F c.PrivateKey} (flag : Bytes) (status : FlagStatus)
        → submit_flag c game sender flag ≡ ok (status, mid)
        → Submissions sender mid game'
        → Submissions sender game game'

  -- Submissions are steps of the game, so that all that holds over steps holds over them.
  pub Submissions-Steps :
      (sender : TargetInfo) {game game' : Game F c.PrivateKey}
      → Submissions sender game game'
      → Steps fl sorter c game game'
  Submissions-Steps sender no_more = done
  Submissions-Steps sender (one_more flag status h rest) =
      next (submitted sender flag status h) (Submissions-Steps sender rest)

  prepend :
      (sender : TargetInfo) (game mid game' : Game F c.PrivateKey)
      → OneSubmission (some sender) game mid
      → Submissions sender mid game'
      → Submissions sender game game'
  unfolding OneSubmission
  prepend sender game mid game' (inl same) rest = subst (λ g. Submissions sender g game') same rest
  prepend sender game mid game' (inr (other, flag, status, is_sender, h)) rest =
      let who : other ≡ sender = some_injective (sym is_sender) in
      one_more flag status (subst (λ s. submit_flag c game s flag ≡ ok (status, mid)) who h) rest

  module _ (look : TeamLook F) where
    answer_all-Submissions :
        (rs : List TeamRequest) (game game' : Game F c.PrivateKey) (sender : TargetInfo)
        (replies : List (Reply (TeamContent F)))
        → answer_all c look game (some sender) rs ≡ ok (replies, game')
        → (length replies ≡ length rs) × Submissions sender game game'
    unfolding answer_all
    answer_all-Submissions [] game game' sender replies h =
        let same = ok_injective h in
        (
          ap (λ x. length x.0) (sym same),
          subst (λ g. Submissions sender game g) (ap (λ x. x.1) same) no_more,
        )
    answer_all-Submissions (r ∷ rs) game game' sender replies h =
        let ((reply, mid), first, h1) = >>=-eq-ok (answer_team c look game (some sender) r) _ h in
        let ((later, final), rest, h2) = >>=-eq-ok (answer_all c look mid (some sender) rs) _ h1 in
        let (count, steps) = answer_all-Submissions rs mid final sender later rest in
        let same = ok_injective h2 in
        (
          ap (λ x. length x.0) (sym same) ∙ ap suc count,
          subst (λ g. Submissions sender game g) (ap (λ x. x.1) same)
              (prepend sender game mid final
                (answer_team-OneSubmission look game mid (some sender) r reply first) steps),
        )

    -- What a connection to the web service from a source with the tags comes to.
    unfoldable pub Served :
        TagList
        → List TeamRequest
        → List (Reply (TeamContent F))
        → Game F c.PrivateKey
        → Game F c.PrivateKey
        → Type 0
    Served tags rs replies game game' =
        (team_from_flow_instance game.teams tags ≡ none) × (replies ≡ []) × (game' ≡ game)
        ⊎ (who : Team × Bool) × (team_from_flow_instance game.teams tags ≡ some who)
          × (length replies ≡ length rs)
          × Submissions (session_info who) game game'

    -- A connection to the web service that is answered to the end comes from a source of no team, gets
    -- nothing and changes nothing, or every request of it has a reply, and the game has made
    -- submissions by the team of the source's tags alone.
    pub accept_web-Served :
        (game game' : Game F c.PrivateKey) (tags : TagList) (rs : List TeamRequest)
        (replies : List (Reply (TeamContent F)))
        → accept_web c look game tags rs ≡ ok (replies, game')
        → Served tags rs replies game game'
    unfolding accept_web of_team Served
    accept_web-Served game game' tags rs replies h =
        of_team-Served (team_from_flow_instance game.teams tags) refl h
      where
        of_team-Served :
            (found : Option (Team × Bool))
            → team_from_flow_instance game.teams tags ≡ found
            → of_team c look game found rs ≡ ok (replies, game')
            → Served tags rs replies game game'
        of_team-Served none e made =
            let same = ok_injective made in
            inl (e, ap (λ x. x.0) (sym same), ap (λ x. x.1) (sym same))
        of_team-Served (some who) e made =
            let (count, steps) =
              answer_all-Submissions rs game game' (session_info who) replies made in
            inr (who, e, count, steps)
