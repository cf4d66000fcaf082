-- ===== src/Tick/Playable.antt =====
-- The ticker never makes the game panic: the start of a tick and the last update always return.
use mathlib.Core.Path.{subst}
use mathlib.Core.List.{foldl}
use tinyrange_ad.Common.{
  ℕ, suc, ◌+◌, ◌≤◌, List, [], ◌∷◌, ◌++◌, true, false, Option, none, some, if◌then◌else◌, ℤ, pos,
  length, ◌≡◌, ◌≢◌, refl, sym, ap, ◌∙◌, arith, inl, inr, All, All-append, Bool-cases,
}
use tinyrange_ad.Common.Int.{ltb_ℤ, ◌==ℤ◌, ◌+ℤ◌, wrap64, quot}
use tinyrange_ad.Common.Dict.{lookup, int_eq}
use tinyrange_ad.Common.Dict.Entries.{All-insert, All-modify}
use tinyrange_ad.Common.Outcome.{ok, deref, ◌>>=◌, >>=-eq-ok}
use tinyrange_ad.Common.Text.{Bytes, codes}
use tinyrange_ad.Config.{Config, ServiceConfig, TimelineEvent, total_ticks, event_tick, div}
use tinyrange_ad.Flag.{Crypto}
use tinyrange_ad.Score.{Float, SortFunc, ServiceState, TeamState, ScoreboardState, new_service}
use tinyrange_ad.Score.Points.{InRange}
use tinyrange_ad.Score.Scored.{Listed, Configured, summarize_state-Configured}
use tinyrange_ad.Team.{Team, TargetInfo, bot_id}
use tinyrange_ad.Game.{Game, FlagStatus, submit_flag, update_service, record_theft}
use tinyrange_ad.Game.Submit.{submit_flag_cases, deref-some}
use tinyrange_ad.Game.Theft.{ok_injective}
use tinyrange_ad.Tick.{
  fresh_services, fresh_team, add_fresh, fresh_board, close_tick, update_scoreboard, begin_tick,
  Answer, note_answers, count_answers, due_events,
}
use tinyrange_ad.Tick.Recorded.{Step, submitted, ticked, answered, finished, Steps, done, next}

module _ (fl : Float) where
  open fl use {F, zero_f}

  module _ (config : Config F) where
    fresh_services-InRange :
        (i : ℕ) (services : List ServiceConfig) (acc : List (ℤ × ServiceState F))
        → i + length services ≤ length config.vulnbox.services
        → All (λ s. InRange fl config s.0) acc
        → All (λ s. InRange fl config s.0) (fresh_services zero_f i services acc)
    unfolding fresh_services
    fresh_services-InRange i [] acc fits h = h
    fresh_services-InRange i (s ∷ services) acc fits h =
        fresh_services-InRange (suc i) services _ (omega (arith, fits)) (
          All-insert (λ s. InRange fl config s.0) (pos i) (new_service zero_f s.service_name) acc
            (omega (arith, fits)) h)

    add_fresh-Listed :
        (acc : List (ℤ × TeamState F)) (team : Team)
        → All (Listed fl config) acc
        → All (Listed fl config) (add_fresh zero_f config acc team)
    unfolding add_fresh fresh_team
    add_fresh-Listed acc team h =
        let all = config.vulnbox.services in
        let made = fresh_services-InRange 0 all [] (omega arith) tt in
        let own =
          All-insert (Listed fl config) (pos team.id)
            (fresh_team zero_f config false team.display_name) acc made h in
        elim (Bool-cases config.vulnbox.bot.enabled) [
          | inr e ↦ rw e own
          | inl e ↦ rw e (
              All-insert (Listed fl config) (pos (bot_id team))
                (fresh_team zero_f config true (team.display_name ++ codes "_bot")) _ made own)
        ]

    all_fresh-Listed :
        (teams : List Team) (acc : List (ℤ × TeamState F))
        → All (Listed fl config) acc
        → All (Listed fl config) (foldl (add_fresh zero_f config) acc teams)
    all_fresh-Listed [] acc h = h
    all_fresh-Listed (t ∷ teams) acc h = all_fresh-Listed teams _ (add_fresh-Listed acc t h)

    fresh_board-Configured :
        (tick : ℤ) (teams : List Team) → Configured fl config (fresh_board zero_f config tick teams)
    unfolding fresh_board
    fresh_board-Configured tick teams = all_fresh-Listed teams [] tt

    due_events-returns :
        (tick : ℤ) (queue : List TimelineEvent)
        → config.tick_rate ≢ pos 0
        → (events : List Bytes) × (due_events config tick queue ≡ ok events)
    unfolding due_events event_tick div
    due_events-returns tick [] rated = ([], refl)
    due_events-returns tick (ev ∷ queue) rated =
        let live : (config.tick_rate ==ℤ pos 0) ≡ false = ground (arith, rated) in
        let (events, e) = due_events-returns tick queue rated in
        (
          if quot ev.at config.tick_rate ==ℤ tick then ev.event ∷ events else events,
          rw (live, e) refl,
        )

    update_service-Configured :
        (id service : ℤ) (f : ServiceState F → ServiceState F) (b b' : ScoreboardState F)
        → Configured fl config b
        → update_service id service f b ≡ ok b'
        → Configured fl config b'
    unfolding update_service
    update_service-Configured id service f b b' h e =
        let (team, _, e1) = >>=-eq-ok (deref (lookup id b.teams)) _ e in
        let (s, _, e2) = >>=-eq-ok (deref (lookup service team.services)) _ e1 in
        rw (← ok_injective e2) (
          All-modify (Listed fl config) id _ b.teams
            (λ j t listed.
              All-modify (λ s. InRange fl config s.0) service f t.services (λ k w r. r) listed)
            h)

    count_answers-Configured :
        (answers : List Answer) (b b' : ScoreboardState F)
        → Configured fl config b
        → count_answers answers b ≡ ok b'
        → Configured fl config b'
    unfolding count_answers
    count_answers-Configured [] b b' h e = subst (Configured fl config) (ok_injective e) h
    count_answers-Configured ((id, service, success) ∷ answers) b b' h e =
        let (counted, e1, e2) = >>=-eq-ok (update_service id service _ b) _ e in
        count_answers-Configured answers counted b'
          (update_service-Configured id service _ b counted h e1) e2

    -- A state that there may be.
    abbrev pub Current : Option (ScoreboardState F) → Type 0
    Current none = Unit
    Current (some b) = Configured fl config b

  -- The ticks have a length, and every board has configured services only.
  pub record Playable {K : Type 0} (game : Game F K) : Type 0 where
    pub rated : game.config.tick_rate ≢ pos 0
    pub over : All (Configured fl game.config) game.ticks
    pub now : Current game.config game.current_state

module _ (fl : Float) (sorter : SortFunc) (c : Crypto) where
  open fl use {F, zero_f}

  closed-Playable :
      (game : Game F c.PrivateKey) (current : Option (ScoreboardState F))
      → Playable fl game
      → Current fl game.config current
      → (game' : Game F c.PrivateKey) × ((close_tick fl sorter game current >>= λ closed.
            ok (record closed {
              current_state = some (fresh_board zero_f game.config game.current_tick game.teams);
            }))
          ≡ ok game')
        × Playable fl game'
  unfolding close_tick
  closed-Playable game none p now =
      let fresh = fresh_board zero_f game.config game.current_tick game.teams in
      (
        record game { current_state = some fresh },
        refl,
        record {
          rated = p.rated;
          over = p.over;
          now = fresh_board-Configured fl game.config game.current_tick game.teams;
        },
      )
  closed-Playable game (some b) p now =
      let fresh = fresh_board zero_f game.config game.current_tick game.teams in
      let (last, e, kept) = summarize_state-Configured fl game.config sorter (b ∷ []) (now, tt) in
      let all = All-append (Configured fl game.config) game.ticks (last ∷ []) p.over (kept, tt) in
      let (overall, f, _) =
        summarize_state-Configured fl game.config sorter (game.ticks ++ last ∷ []) all in
      (
        record game {
          ticks = game.ticks ++ last ∷ [];
          overall_state = some overall;
          current_state = some fresh;
        },
        rw (e, f) refl,
        record {
          rated = p.rated;
          over = all;
          now = fresh_board-Configured fl game.config game.current_tick game.teams;
        },
      )

  pub update_scoreboard-Playable :
      (game : Game F c.PrivateKey)
      → Playable fl game
      → (game' : Game F c.PrivateKey) × (update_scoreboard fl sorter game ≡ ok game')
        × Playable fl game'
  unfolding update_scoreboard
  update_scoreboard-Playable game p = closed-Playable game game.current_state p p.now

  pub begin_tick-Playable :
      (game : Game F c.PrivateKey)
      → Playable fl game
      → (r : Game F c.PrivateKey × List Bytes) × (begin_tick fl sorter game ≡ ok r)
        × Playable fl r.0
  unfolding begin_tick total_ticks div
  begin_tick-Playable game p =
      let live : (game.config.tick_rate ==ℤ pos 0) ≡ false = ground (arith, p.rated) in
      let total = quot game.config.duration game.config.tick_rate in
      elim (Bool-cases (ltb_ℤ game.current_tick total)) [
        | inr e ↦ ((game, []), rw (live, e) refl, p)
        | inl e ↦
            let later : Game F c.PrivateKey = record game {
              current_tick = wrap64 (game.current_tick +ℤ pos 1);
            } in
            let (fresh, f, q) =
              update_scoreboard-Playable later
                (record { rated = p.rated; over = p.over; now = p.now }) in
            let (events, g) =
              due_events-returns fl game.config fresh.current_tick game.config.timeline p.rated in
            ((fresh, events), rw (live, e, f, g) refl, q)
      ]

  noted-Playable :
      (game game' : Game F c.PrivateKey) (b : ScoreboardState F)
      → Playable fl game
      → Configured fl game.config b
      → record game { current_state = some b } ≡ game'
      → Playable fl game'
  noted-Playable game game' b p now e =
      subst (Playable fl) e (record { rated = p.rated; over = p.over; now = now })

  submit_flag-Playable :
      (game game' : Game F c.PrivateKey) (info : TargetInfo) (flag : Bytes) (status : FlagStatus)
      → submit_flag c game info flag ≡ ok (status, game')
      → Playable fl game
      → Playable fl game'
  unfolding record_theft
  submit_flag-Playable game game' info flag status h p =
      elim (submit_flag_cases c game info flag status game' h) [
        | inl (_, same) ↦ subst (Playable fl) (sym same) p
        | inr (_, a) ↦
            let (b, is_b, h1) = >>=-eq-ok (deref game.current_state) _ a.noted in
            let (mid, e1, h2) = >>=-eq-ok (update_service info.id a.service _ b) _ h1 in
            let (both, e2, h3) = >>=-eq-ok (update_service a.team a.service _ mid) _ h2 in
            let now = subst (Current fl game.config) (deref-some game.current_state is_b) p.now in
            let first = update_service-Configured fl game.config info.id a.service _ b mid now e1 in
            noted-Playable game game' both p
              (update_service-Configured fl game.config a.team a.service _ mid both first e2)
              (ap (λ r. r.1) (ok_injective h3))
      ]

  note_answers-Playable :
      (game game' : Game F c.PrivateKey) (answers : List Answer)
      → note_answers answers game ≡ ok game'
      → Playable fl game
      → Playable fl game'
  unfolding note_answers
  note_answers-Playable game game' answers h p =
      let (b, is_b, h1) = >>=-eq-ok (deref game.current_state) _ h in
      let (counted, e, h2) = >>=-eq-ok (count_answers answers b) _ h1 in
      let now = subst (Current fl game.config) (deref-some game.current_state is_b) p.now in
      noted-Playable game game' counted p
        (count_answers-Configured fl game.config answers b counted now e) (ok_injective h2)

  pub Step-Playable :
      {game game' : Game F c.PrivateKey}
      → Step fl sorter c game game'
      → Playable fl game
      → Playable fl game'
  Step-Playable {game} {game'} (submitted info flag status h) p =
      submit_flag-Playable game game' info flag status h p
  Step-Playable {game} {game'} (ticked events h) p =
      let (r, e, q) = begin_tick-Playable game p in
      subst (λ (r : Game F c.PrivateKey × List Bytes). Playable fl r.0) (ok_injective (sym e ∙ h)) q
  Step-Playable {game} {game'} (answered answers h) p = note_answers-Playable game game' answers h p
  Step-Playable {game} {game'} (finished h) p =
      let (r, e, q) = update_scoreboard-Playable game p in
      subst (Playable fl) (ok_injective (sym e ∙ h)) q

  Steps-Playable :
      {game game' : Game F c.PrivateKey}
      → Steps fl sorter c game game'
      → Playable fl game
      → Playable fl game'
  Steps-Playable done p = p
  Steps-Playable (next s rest) p = Steps-Playable rest (Step-Playable s p)

  -- If the ticks have a length, then whatever steps a game has made since a start without any record,
  -- neither the next start of a tick nor the last update panics.
  pub Steps-goes_on :
      (game game' : Game F c.PrivateKey)
      → game.config.tick_rate ≢ pos 0
      → game.ticks ≡ []
      → game.current_state ≡ none
      → Steps fl sorter c game game'
      → ((r : Game F c.PrivateKey × List Bytes) × (begin_tick fl sorter game' ≡ ok r))
        × ((over : Game F c.PrivateKey) × (update_scoreboard fl sorter game' ≡ ok over))
  Steps-goes_on game game' rated no_ticks no_state steps =
      let p = Steps-Playable steps (record {
        rated = rated;
        over = subst (All (Configured fl game.config)) (sym no_ticks) tt;
        now = subst (Current fl game.config) (sym no_state) tt;
      }) in
      let (r, e, _) = begin_tick-Playable game' p in
      let (over, f, _) = update_scoreboard-Playable game' p in ((r, e), (over, f))
