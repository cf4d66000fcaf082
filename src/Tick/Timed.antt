-- ===== src/Tick/Timed.antt =====
-- The number of the tick over every step of a game.
use tinyrange_ad.Common.{
  ℕ, ◌+◌, ◌<◌, List, [], ◌∷◌, true, Option, none, some, ℤ, pos, negsuc, ◌≡◌, ◌⊎◌, refl, sym, ◌∙◌,
  ap, arith, Bool-cases, inl, inr,
}
use tinyrange_ad.Common.Int.{ltb_ℤ, ◌+ℤ◌, ◌≤ℤ◌, wrap64, wrap64_id, Int64}
use tinyrange_ad.Common.Outcome.{ok, deref, >>=-eq-ok}
use tinyrange_ad.Common.Text.{Bytes}
use tinyrange_ad.Config.{total_ticks}
use tinyrange_ad.Flag.{Crypto}
use tinyrange_ad.Score.{Float, SortFunc, ScoreboardState, summarize_state}
use tinyrange_ad.Team.{TargetInfo}
use tinyrange_ad.Game.{Game, FlagStatus, submit_flag, update_service}
use tinyrange_ad.Game.Submit.{submit_flag_cases, deref-some}
use tinyrange_ad.Game.Theft.{record_theft-after_theft, ok_injective, update_service_lem}
use tinyrange_ad.Tick.{
  fresh_board, close_tick, update_scoreboard, begin_tick, Answer, note_answers, count_answers,
  due_events,
}
use tinyrange_ad.Tick.Recorded.{Step, submitted, ticked, answered, finished, Steps, done, next}

-- The clock is within the game, and the current state, if there is one, is the current tick's.
pub record Timed {F K : Type 0} (total : ℤ) (game : Game F K) : Type 0 where
  pub low : pos 0 ≤ℤ game.current_tick
  pub high : game.current_tick ≤ℤ total
  pub board :
      (game.current_state ≡ none)
      ⊎ (b : ScoreboardState F) × (game.current_state ≡ some b) × (b.tick ≡ game.current_tick)

-- What a step that does not start a tick keeps of the clock.
record SameClock {F K : Type 0} (game game' : Game F K) : Type 0 where
  same_tick : game'.current_tick ≡ game.current_tick
  same_config : game'.config ≡ game.config
  board_tick :
      (game'.current_state ≡ game.current_state)
      ⊎ (b b' : ScoreboardState F) × (game.current_state ≡ some b)
        × (game'.current_state ≡ some b')
        × (b'.tick ≡ b.tick)

the_board :
    {F : Type 0} {o : Option (ScoreboardState F)} {b c : ScoreboardState F}
    → o ≡ some b
    → o ≡ some c
    → b ≡ c
the_board h k = cc

SameClock-Timed :
    {F K : Type 0} (total : ℤ) (game game' : Game F K)
    → SameClock game game'
    → Timed total game
    → Timed total game'
SameClock-Timed total game game' s t = record {
  low = rw s.same_tick t.low;
  high = rw s.same_tick t.high;
  board = elim s.board_tick [
    | inl same ↦ elim t.board [
      | inl none_yet ↦ inl (same ∙ none_yet)
      | inr (b, e, at) ↦ inr (b, same ∙ e, at ∙ sym s.same_tick)
    ]
    | inr (b, b', e, e', at) ↦ elim t.board [
      | inl none_yet ↦ absurd (ground (arith, none_yet, e))
      | inr (c, f, at') ↦
          inr (b', e', at ∙ ap (λ x. x.tick) (the_board e f) ∙ at' ∙ sym s.same_tick)
    ]
  ];
}

same_clock :
    {F K : Type 0} (game : Game F K) (b b' : ScoreboardState F) (game' : Game F K)
    → game.current_state ≡ some b
    → game' ≡ record game { current_state = some b' }
    → b'.tick ≡ b.tick
    → SameClock game game'
same_clock game b b' game' e h at =
    rw h (record { same_tick = refl; same_config = refl; board_tick = inr (b, b', e, refl, at) })

count_answers-tick :
    {F : Type 0} (answers : List Answer) (b b' : ScoreboardState F)
    → count_answers answers b ≡ ok b'
    → b'.tick ≡ b.tick
unfolding count_answers
count_answers-tick [] b b' h = ap (λ x. x.tick) (sym (ok_injective h))
count_answers-tick ((id, service, success) ∷ answers) b b' h =
    let (mid, e, h1) = >>=-eq-ok (update_service id service _ b) _ h in
    count_answers-tick answers mid b' h1 ∙ (update_service_lem b mid id service id service _ e).0

pub plus_one : (n : ℕ) → pos n +ℤ pos 1 ≡ pos (n + 1)
unfolding ◌+ℤ◌
plus_one n = ground arith

-- One more is no overflow below a total that an int64 holds.
one_more :
    (t total : ℤ)
    → pos 0 ≤ℤ t
    → ltb_ℤ t total ≡ true
    → Int64 total
    → (pos 0 ≤ℤ wrap64 (t +ℤ pos 1)) × (wrap64 (t +ℤ pos 1) ≤ℤ total)
one_more (negsuc n) total low below bounded = absurd (omega (arith, low))
one_more (pos n) (negsuc m) low below bounded = absurd (ground (arith, below))
one_more (pos n) (pos m) low below bounded =
    let less : n < m = ground (arith, below) in
    let fits : Int64 (pos (n + 1)) = (omega (arith, less, bounded.0), omega arith) in
    rw (plus_one n, wrap64_id (pos (n + 1)) fits) (omega arith, omega (arith, less))

module _ (fl : Float) (sorter : SortFunc) (c : Crypto) where
  open fl use {F, zero_f}

  SameClock-submit :
      (game game' : Game F c.PrivateKey) (info : TargetInfo) (flag : Bytes) (status : FlagStatus)
      → submit_flag c game info flag ≡ ok (status, game')
      → SameClock game game'
  SameClock-submit game game' info flag status h =
      elim (submit_flag_cases c game info flag status game' h) [
        | inl (_, same) ↦
            rw same (record { same_tick = refl; same_config = refl; board_tick = inl refl })
        | inr (_, a) ↦
            let (b, b', e, h1, at, _) =
              record_theft-after_theft game game' info _ a.tick a.team a.service a.noted in
            same_clock game b b' game' e h1 at
      ]

  SameClock-note :
      (game game' : Game F c.PrivateKey) (answers : List Answer)
      → note_answers answers game ≡ ok game'
      → SameClock game game'
  unfolding note_answers
  SameClock-note game game' answers h =
      let (b, e, h1) = >>=-eq-ok (deref game.current_state) _ h in
      let (b', e', h2) = >>=-eq-ok (count_answers answers b) _ h1 in
      same_clock game b b' game' (deref-some game.current_state e) (sym (ok_injective h2))
        (count_answers-tick answers b b' e')

  close_tick-tick :
      (game game' : Game F c.PrivateKey) (current : Option (ScoreboardState F))
      → close_tick fl sorter game current ≡ ok game'
      → (game'.current_tick ≡ game.current_tick) × (game'.config ≡ game.config)
  unfolding close_tick
  close_tick-tick game game' none h = rw (← ok_injective h) (refl, refl)
  close_tick-tick game game' (some current) h =
      let (_, _, h1) = >>=-eq-ok (summarize_state fl sorter game.config (current ∷ [])) _ h in
      let (_, _, h2) = >>=-eq-ok (summarize_state fl sorter game.config _) _ h1 in
      rw (← ok_injective h2) (refl, refl)

  -- After an update the current state is a fresh one of the current tick.
  update-tick :
      (game game' : Game F c.PrivateKey)
      → update_scoreboard fl sorter game ≡ ok game'
      → (game'.current_tick ≡ game.current_tick)
        × (game'.config ≡ game.config)
        × ((b : ScoreboardState F) × (game'.current_state ≡ some b) × (b.tick ≡ game.current_tick))
  unfolding update_scoreboard fresh_board
  update-tick game game' h =
      let (closed, e, h1) = >>=-eq-ok (close_tick fl sorter game game.current_state) _ h in
      let kept = close_tick-tick game closed game.current_state e in
      rw (← ok_injective h1)
        (kept.0, kept.1, (fresh_board zero_f game.config game.current_tick game.teams, refl, refl))

  update-Timed :
      (total : ℤ) (game game' : Game F c.PrivateKey)
      → update_scoreboard fl sorter game ≡ ok game'
      → pos 0 ≤ℤ game.current_tick
      → game.current_tick ≤ℤ total
      → Timed total game'
  update-Timed total game game' h low high =
      let (same, _, (b, e, at)) = update-tick game game' h in
      record { low = rw same low; high = rw same high; board = inr (b, e, at ∙ sym same) }

  begin-Timed :
      (total : ℤ) (game game' : Game F c.PrivateKey) (events : List Bytes)
      → begin_tick fl sorter game ≡ ok (game', events)
      → total_ticks game.config ≡ ok total
      → Int64 total
      → Timed total game
      → Timed total game' × (game'.config ≡ game.config)
  unfolding begin_tick
  begin-Timed total game game' events h is_total bounded t =
      let (total', e, h1) = >>=-eq-ok (total_ticks game.config) _ h in
      let same : total' ≡ total = ok_injective (sym e ∙ is_total) in
      elim (Bool-cases (ltb_ℤ game.current_tick total')) [
        | inr over ↦ rw (← ap (λ r. r.0) (ok_injective (rw over at h1))) (t, refl)
        | inl on ↦
            let tick = wrap64 (game.current_tick +ℤ pos 1) in
            let range = one_more game.current_tick total t.low (rw same at on) bounded in
            let (fresh, u, h2) =
              >>=-eq-ok (update_scoreboard fl sorter (record game { current_tick = tick })) _
                (rw on at h1) in
            let (due, _, h3) =
              >>=-eq-ok (due_events game.config fresh.current_tick game.config.timeline) _ h2 in
            rw (← ap (λ r. r.0) (ok_injective h3)) (
              update-Timed total (record game { current_tick = tick }) fresh u range.0 range.1,
              (update-tick (record game { current_tick = tick }) fresh u).1,
            )
      ]

  Step-Timed :
      (total : ℤ) {game game' : Game F c.PrivateKey}
      → Step fl sorter c game game'
      → total_ticks game.config ≡ ok total
      → Int64 total
      → Timed total game
      → Timed total game' × (game'.config ≡ game.config)
  Step-Timed total {game} {game'} (submitted info flag status h) is_total bounded t =
      let s = SameClock-submit game game' info flag status h in
      (SameClock-Timed total game game' s t, s.same_config)
  Step-Timed total {game} {game'} (ticked events h) is_total bounded t =
      begin-Timed total game game' events h is_total bounded t
  Step-Timed total {game} {game'} (answered answers h) is_total bounded t =
      let s = SameClock-note game game' answers h in
      (SameClock-Timed total game game' s t, s.same_config)
  Step-Timed total {game} {game'} (finished h) is_total bounded t =
      (update-Timed total game game' h t.low t.high, (update-tick game game' h).1)

  -- Whatever steps a game takes, the tick does not go below 0 or above the total number of ticks, if
  -- that is a 64-bit number, and the current state, if there is one, is that of the current tick.
  pub Steps-Timed :
      (total : ℤ) {game game' : Game F c.PrivateKey}
      → Steps fl sorter c game game'
      → total_ticks game.config ≡ ok total
      → Int64 total
      → Timed total game
      → Timed total game'
  Steps-Timed total done is_total bounded t = t
  Steps-Timed total (next s steps) is_total bounded t =
      let (after, same) = Step-Timed total s is_total bounded t in
      Steps-Timed total steps (ap (λ k. total_ticks k) same ∙ is_total) bounded after
