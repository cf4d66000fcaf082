-- ===== src/Tick/Taken.antt =====
-- A flag that a team has stolen stays in the record of the game, over every step.
pub mod Boards
use mathlib.Core.Bool.{false≢true}
use mathlib.Core.Option
use mathlib.Core.Path.{subst}
use tinyrange_ad.Common.{
  List, [], ◌∷◌, ◌++◌, Bool, true, false, ◌&&◌, Option, none, some, if◌then◌else◌, ℤ, pos, ◌≡◌, ◌≢◌,
  ◌⊎◌, refl, sym, ◌∙◌, ap, Bool-cases, Option-cases, >>=-eq-some, inl, inr,
}
use tinyrange_ad.Common.Int.{◌==ℤ◌, ==ℤ_refl, ltb_ℤ, ◌+ℤ◌, wrap64}
use tinyrange_ad.Common.Dict.{lookup, int_eq}
use tinyrange_ad.Common.Outcome.{ok, deref, >>=-eq-ok}
use tinyrange_ad.Common.Text.{Bytes}
use tinyrange_ad.Config.{total_ticks}
use tinyrange_ad.Flag.{Crypto, signer_public, verify}
use tinyrange_ad.Score.{Float, SortFunc, FlagInfo, ServiceState, ScoreboardState, summarize_state}
use tinyrange_ad.Score.Held.{
  has_flag-left, has_flag-right, service_has, team_has, lookup-anywhere, Among,
}
use tinyrange_ad.Score.Summed.{Everywhere-lookup, summarize_state-held}
use tinyrange_ad.Team.{TargetInfo}
use tinyrange_ad.Game.{Game, FlagStatus, flag_accepted, has_flag, flags_stolen_by, submit_flag}
use tinyrange_ad.Game.Submit.{submit_flag_cases, deref-some, Accepted}
use tinyrange_ad.Game.Theft.{
  ok_injective, service_at, more_stolen, more_lost, after_theft, record_theft-after_theft,
  update_service_lem,
}
use tinyrange_ad.Game.Once.{parts, stolen_in_lem, has_flag-append, ==ℤ_ne, stored}
use tinyrange_ad.Tick.{
  close_tick, update_scoreboard, begin_tick, Answer, count_check, note_answers, count_answers,
  due_events,
}
use tinyrange_ad.Tick.Recorded.{
  Step, submitted, ticked, answered, finished, Steps, done, next, Recorded, Steps-Recorded,
}
use tinyrange_ad.Tick.Taken.Boards.{
  held_in, held_in-team, after_theft-held, count_answers-held, Among-left, Among-right,
}

module _ (team tick id service : ℤ) where
  module _ (fl : Float) (sorter : SortFunc) (c : Crypto) where
    open fl use {F}

    -- The flag stands in the current board or in that of a tick that is over.
    abbrev pub Taken : Game F c.PrivateKey → Type 0
    Taken game =
        ((board : ScoreboardState F) × (game.current_state ≡ some board)
          × (held_in team tick id service board ≡ true))
        ⊎ Among team tick id service game.ticks

    Taken-submit :
        (game game' : Game F c.PrivateKey) (info : TargetInfo) (flag : Bytes) (status : FlagStatus)
        → submit_flag c game info flag ≡ ok (status, game')
        → Taken game
        → Taken game'
    Taken-submit game game' info flag status h taken =
        elim (submit_flag_cases c game info flag status game' h) [
          | inl (_, same) ↦ rw same taken
          | inr (_, a) ↦
              let (current, both, is_current, is_game, _, effect) =
                record_theft-after_theft game game' info _ a.tick a.team a.service a.noted in
              rw is_game (elim taken [
                | inl (board, is_board, e) ↦
                    let same : current ≡ board = cc (is_current, is_board) in
                    inl (
                      both,
                      refl,
                      rw (effect id service) (
                          after_theft-held team tick id service info.id a.team a.tick a.service
                            (service_at current id service) (rw same e)),
                    )
                | inr e ↦ inr e
              ])
        ]

    Taken-note :
        (game game' : Game F c.PrivateKey) (answers : List Answer)
        → note_answers answers game ≡ ok game'
        → Taken game
        → Taken game'
    unfolding note_answers
    Taken-note game game' answers h taken =
        let (current, e1, h1) = >>=-eq-ok (deref game.current_state) _ h in
        let (counted, e2, h2) = >>=-eq-ok (count_answers answers current) _ h1 in
        rw (← ok_injective h2) (elim taken [
          | inl (board, is_board, e) ↦
              let same : current ≡ board = cc (deref-some game.current_state e1, is_board) in
              inl (
                counted,
                refl,
                count_answers-held team tick id service answers current counted e2 (rw same e),
              )
          | inr e ↦ inr e
        ])

    -- After the update the flag stands in the board of a tick that is over.
    close_tick-Among :
        (game closed : Game F c.PrivateKey) (current : Option (ScoreboardState F))
        → game.current_state ≡ current
        → close_tick fl sorter game current ≡ ok closed
        → Taken game
        → Among team tick id service closed.ticks
    unfolding close_tick
    close_tick-Among game closed none is_current h taken =
        rw (← ok_injective h)
          (elim taken [ inl (board, is_board, _) ↦ absurd (cc (is_current, is_board)) | inr e ↦ e ])
    close_tick-Among game closed (some current) is_current h taken =
        let (last, e, h1) = >>=-eq-ok (summarize_state fl sorter game.config (current ∷ [])) _ h in
        let (overall, _, h2) =
          >>=-eq-ok (summarize_state fl sorter game.config (game.ticks ++ last ∷ [])) _ h1 in
        rw (← ok_injective h2) (elim taken [
          | inl (board, is_board, held) ↦
              let same : current ≡ board = cc (is_current, is_board) in
              let there =
                lookup-anywhere team tick id service current.teams
                  (held_in-team team tick id service current (rw same held)) in
              Among-right team tick id service game.ticks (last ∷ []) (
                inl (
                  (summarize_state-held team tick id service fl game.config sorter (current ∷ [])
                    last e (inl there)).0))
          | inr over ↦ Among-left team tick id service game.ticks (last ∷ []) over
        ])

    Taken-update :
        (game game' : Game F c.PrivateKey)
        → update_scoreboard fl sorter game ≡ ok game'
        → Taken game
        → Taken game'
    unfolding update_scoreboard
    Taken-update game game' h taken =
        let (closed, e, h1) = >>=-eq-ok (close_tick fl sorter game game.current_state) _ h in
        rw (← ok_injective h1) (inr (close_tick-Among game closed game.current_state refl e taken))

    Taken-begin :
        (game game' : Game F c.PrivateKey) (events : List Bytes)
        → begin_tick fl sorter game ≡ ok (game', events)
        → Taken game
        → Taken game'
    unfolding begin_tick
    Taken-begin game game' events h taken =
        let (total, _, h1) = >>=-eq-ok (total_ticks game.config) _ h in
        elim (Bool-cases (ltb_ℤ game.current_tick total)) [
          | inr over ↦ subst (λ g. Taken g) (ap (λ r. r.0) (ok_injective (rw over at h1))) taken
          | inl on ↦
              let now : Game F c.PrivateKey = record game {
                current_tick = wrap64 (game.current_tick +ℤ pos 1);
              } in
              let (fresh, e, h2) = >>=-eq-ok (update_scoreboard fl sorter now) _ (rw on at h1) in
              let (due, _, h3) =
                >>=-eq-ok (due_events game.config fresh.current_tick game.config.timeline) _ h2 in
              subst (λ g. Taken g) (ap (λ r. r.0) (ok_injective h3))
                (Taken-update now fresh e taken)
        ]

    Taken-Step :
        {game game' : Game F c.PrivateKey} → Step fl sorter c game game' → Taken game → Taken game'
    Taken-Step {game} {game'} (submitted info flag status h) =
        Taken-submit game game' info flag status h
    Taken-Step {game} {game'} (ticked events h) = Taken-begin game game' events h
    Taken-Step {game} {game'} (answered answers h) = Taken-note game game' answers h
    Taken-Step {game} {game'} (finished h) = Taken-update game game' h

    pub Taken-Steps :
        {game game' : Game F c.PrivateKey} → Steps fl sorter c game game' → Taken game → Taken game'
    Taken-Steps done taken = taken
    Taken-Steps (next s steps) taken = Taken-Steps steps (Taken-Step s taken)

    -- What `flagsStolenBy` lists has the flag.
    pub Taken-listed :
        (game : Game F c.PrivateKey) (info : TargetInfo) (l : List FlagInfo)
        → info.id ≡ id
        → Taken game
        → Recorded fl sorter c game
        → flags_stolen_by game info service ≡ ok l
        → has_flag team tick l ≡ true
    Taken-listed game info l is_id taken recorded h =
        let p = parts game info service l h in
        subst (λ x. has_flag team tick x ≡ true) p.joined
          (elim taken [
            | inl (board, is_board, held) ↦
                let same : board ≡ p.current = cc (is_board, p.is_current) in
                has_flag-right team tick p.before p.entry.stolen_flags
                  (rw (same, ← is_id, p.is_entry) at held)
            | inr over ↦ elim recorded [
              | inl (no_ticks, _) ↦ absurd (rw no_ticks at over)
              | inr (overall, is_overall, e) ↦
                  let same : overall ≡ p.overall = cc (is_overall, p.is_overall) in
                  let (s, at, is_now) =
                    stolen_in_lem overall info.id service p.before (rw same p.is_before) in
                  let (t, there, of_service) = >>=-eq-some (lookup info.id overall.teams) _ at in
                  let all =
                    (summarize_state-held team tick id service fl game.config sorter game.ticks
                      overall e over).1 in
                  let found =
                    Everywhere-lookup team tick id service overall.teams t all
                      (rw (← is_id) there) in
                  has_flag-left team tick p.before p.entry.stolen_flags
                    (rw (← is_now) (rw of_service at found))
            ]
          ])
