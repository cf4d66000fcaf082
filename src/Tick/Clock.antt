-- ===== src/Tick/Clock.antt =====
-- The game's clock as a whole: the loop of `Start` of cmd/ad/game.go, up to its last update.
pub mod Ends
use mathlib.Core.Path.{subst}
use tinyrange_ad.Common.{
  ℕ, suc, ◌+◌, ◌<◌, ◌≤◌, List, [], ◌∷◌, true, false, Option, none, some, if◌then◌else◌, ℤ, pos,
  length, ltb, ◌≡◌, refl, sym, ◌∙◌, ap, arith, Bool-cases, inl, inr, length-append,
}
use tinyrange_ad.Common.Int.{ltb_ℤ, ◌+ℤ◌, wrap64, wrap64_id, Int64}
use tinyrange_ad.Common.Outcome.{Outcome, ok, panic, deref, ◌>>=◌, >>=-eq-ok}
use tinyrange_ad.Common.Text.{Bytes}
use tinyrange_ad.Config.{total_ticks}
use tinyrange_ad.Flag.{Crypto}
use tinyrange_ad.Score.{Float, SortFunc, ScoreboardState, summarize_state}
use tinyrange_ad.Team.{TargetInfo}
use tinyrange_ad.Game.{Game, FlagStatus, submit_flag}
use tinyrange_ad.Game.Submit.{submit_flag_cases, deref-some}
use tinyrange_ad.Game.Theft.{record_theft-after_theft, ok_injective}
use tinyrange_ad.Tick.Timed.{plus_one}
use tinyrange_ad.Tick.{
  close_tick, update_scoreboard, begin_tick, Answer, note_answers, count_answers, due_events,
}

-- What can happen while the game runs: the ticker fires, a flag is submitted, answers of the
-- scorebot come.
pub data Moment : Type 0 where
  ticker_fired : Moment
  flag_submitted : TargetInfo → Bytes → Moment
  checks_answered : List Answer → Moment

-- How often the ticker fires.
unfoldable pub firings : List Moment → ℕ
firings [] = 0
firings (ticker_fired ∷ moments) = suc (firings moments)
firings (flag_submitted info flag ∷ moments) = firings moments
firings (checks_answered answers ∷ moments) = firings moments

module _ (fl : Float) (sorter : SortFunc) (c : Crypto) where
  open fl use {F}

  unfoldable pub happen : Moment → Game F c.PrivateKey → Outcome (Game F c.PrivateKey)
  happen ticker_fired game = begin_tick fl sorter game >>= λ r. ok r.0
  happen (flag_submitted info flag) game = submit_flag c game info flag >>= λ r. ok r.1
  happen (checks_answered answers) game = note_answers answers game

  -- The loop of `Start`, for what happens before the timer of the end fires, and the update after it.
  play : List Moment → Game F c.PrivateKey → Outcome (Game F c.PrivateKey)
  unfolding happen
  play [] game = update_scoreboard fl sorter game
  play (m ∷ moments) game = happen m game >>= λ game'. play moments game'

  -- `Start`. Its first message has the number of ticks, which is a division, and a ticker with a rate
  -- that is not positive panics. The time scale is taken as 1.
  unfoldable pub start_game : List Moment → Game F c.PrivateKey → Outcome (Game F c.PrivateKey)
  unfolding play
  start_game moments game = total_ticks game.config >>= λ _.
      if ltb_ℤ (pos 0) game.config.tick_rate
      then (play moments (record game { running = true }) >>= λ over.
          ok (record over { running = false }))
      else panic

unclosed : {F : Type 0} → Option (ScoreboardState F) → ℕ
unclosed none = 0
unclosed (some b) = 1

-- The clock shows `n`, and the ticks are counted: those that are over, and the one that is not.
record Counted {F K : Type 0} (n : ℕ) (game : Game F K) : Type 0 where
  at_tick : game.current_tick ≡ pos n
  count : n ≡ length game.ticks + unclosed game.current_state

-- What a step that starts no tick keeps.
record SameCount {F K : Type 0} (game game' : Game F K) : Type 0 where
  same_tick : game'.current_tick ≡ game.current_tick
  same_config : game'.config ≡ game.config
  same_count :
      length game'.ticks + unclosed game'.current_state
      ≡ length game.ticks + unclosed game.current_state

noted_board :
    {F K : Type 0} (game game' : Game F K) (b b' : ScoreboardState F)
    → game.current_state ≡ some b
    → game' ≡ record game { current_state = some b' }
    → SameCount game game'
unfolding unclosed
noted_board game game' b b' e h =
    rw (h, e) (record { same_tick = refl; same_config = refl; same_count = refl })

-- A ticker that was made has a positive rate.
ticker_made :
    {A : Type 0} (rate : ℤ) (first : Outcome A) (a : A)
    → (if ltb_ℤ (pos 0) rate then first else panic) ≡ ok a
    → first ≡ ok a
ticker_made rate first a h = elim (Bool-cases (ltb_ℤ (pos 0) rate)) [
  | inl e ↦ rw e at h
  | inr e ↦ absurd (ground (arith, e, h))
]

-- A number up to the total, and the next one up to it.
capped : ℕ → ℕ → ℕ
capped n total = if ltb n total then n else total

advanced : ℕ → ℕ → ℕ
advanced n total = if ltb n total then suc n else n

advanced_le : (n total : ℕ) → n ≤ total → advanced n total ≤ total
unfolding advanced
advanced_le n total below = ground (arith, below)

capped-advanced :
    (n total f : ℕ) → n ≤ total → capped (advanced n total + f) total ≡ capped (n + suc f) total
unfolding capped advanced
capped-advanced n total f below = ground (arith, below)

module _ (fl : Float) (sorter : SortFunc) (c : Crypto) where
  open fl use {F}

  submit-count :
      (game game' : Game F c.PrivateKey) (info : TargetInfo) (flag : Bytes) (status : FlagStatus)
      → submit_flag c game info flag ≡ ok (status, game')
      → SameCount game game'
  submit-count game game' info flag status h =
      elim (submit_flag_cases c game info flag status game' h) [
        | inl (_, same) ↦
            rw same (record { same_tick = refl; same_config = refl; same_count = refl })
        | inr (_, a) ↦
            let (b, b', e, h1, _, _) =
              record_theft-after_theft game game' info _ a.tick a.team a.service a.noted in
            noted_board game game' b b' e h1
      ]

  note-count :
      (game game' : Game F c.PrivateKey) (answers : List Answer)
      → note_answers answers game ≡ ok game'
      → SameCount game game'
  unfolding note_answers
  note-count game game' answers h =
      let (b, e, h1) = >>=-eq-ok (deref game.current_state) _ h in
      let (b', _, h2) = >>=-eq-ok (count_answers answers b) _ h1 in
      noted_board game game' b b' (deref-some game.current_state e) (sym (ok_injective h2))

  close-count :
      (game game' : Game F c.PrivateKey) (current : Option (ScoreboardState F))
      → close_tick fl sorter game current ≡ ok game'
      → (length game'.ticks ≡ length game.ticks + unclosed current)
        × (game'.current_tick ≡ game.current_tick)
        × (game'.config ≡ game.config)
  unfolding close_tick unclosed
  close-count game game' none h = rw (← ok_injective h) (omega arith, refl, refl)
  close-count game game' (some current) h =
      let (last, _, h1) = >>=-eq-ok (summarize_state fl sorter game.config (current ∷ [])) _ h in
      let (_, _, h2) = >>=-eq-ok (summarize_state fl sorter game.config _) _ h1 in
      rw (← ok_injective h2) (length-append game.ticks (last ∷ []), refl, refl)

  update-count :
      (game game' : Game F c.PrivateKey)
      → update_scoreboard fl sorter game ≡ ok game'
      → (length game'.ticks ≡ length game.ticks + unclosed game.current_state)
        × (unclosed game'.current_state ≡ 1)
        × (game'.current_tick ≡ game.current_tick)
        × (game'.config ≡ game.config)
  unfolding update_scoreboard unclosed
  update-count game game' h =
      let (closed, e, h1) = >>=-eq-ok (close_tick fl sorter game game.current_state) _ h in
      let (count, tick, config) = close-count game closed game.current_state e in
      rw (← ok_injective h1) (count, refl, tick, config)

  begin-Counted :
      (total n : ℕ) (game game' : Game F c.PrivateKey) (events : List Bytes)
      → begin_tick fl sorter game ≡ ok (game', events)
      → total_ticks game.config ≡ ok (pos total)
      → Int64 (pos total)
      → Counted n game
      → Counted (advanced n total) game' × (game'.config ≡ game.config)
  unfolding begin_tick advanced
  begin-Counted total n game game' events h is_total bounded counted =
      let (total', e, h1) = >>=-eq-ok (total_ticks game.config) _ h in
      let same : total' ≡ pos total = ok_injective (sym e ∙ is_total) in
      elim (Bool-cases (ltb n total)) [
        | inr over ↦
            let above : ltb_ℤ game.current_tick total' ≡ false =
              rw (same, counted.at_tick) (ground (arith, over)) in
            let still = rw above at h1 in
            let stays : advanced n total ≡ n = ground (arith, over) in
            subst (λ k. Counted k game' × (game'.config ≡ game.config)) (sym stays)
              (rw (← ap (λ r. r.0) (ok_injective still)) (counted, refl))
        | inl on ↦
            let tick = wrap64 (game.current_tick +ℤ pos 1) in
            let less : n < total = ground (arith, on) in
            let fits : Int64 (pos (n + 1)) = (omega (arith, less, bounded.0), omega arith) in
            let moved : tick ≡ pos (n + 1) =
              rw (counted.at_tick, plus_one n, wrap64_id (pos (n + 1)) fits) refl in
            let below : ltb_ℤ game.current_tick total' ≡ true =
              rw (same, counted.at_tick) (ground (arith, on)) in
            let goes_on : advanced n total ≡ n + 1 = ground (arith, on) in
            let (fresh, u, h2) =
              >>=-eq-ok (update_scoreboard fl sorter (record game { current_tick = tick })) _
                (rw below at h1) in
            let (_, _, h3) =
              >>=-eq-ok (due_events game.config fresh.current_tick game.config.timeline) _ h2 in
            let (ticks, one, at, config) =
              update-count (record game { current_tick = tick }) fresh u in
            let count : n + 1 ≡ length fresh.ticks + unclosed fresh.current_state =
              omega (arith, ticks, one, counted.count) in
            subst (λ k. Counted k game' × (game'.config ≡ game.config)) (sym goes_on)
              (rw (← ap (λ r. r.0) (ok_injective h3))
                (record { at_tick = at ∙ moved; count = count }, config))
      ]

  same-Counted :
      (n : ℕ) (game game' : Game F c.PrivateKey)
      → SameCount game game'
      → Counted n game
      → Counted n game' × (game'.config ≡ game.config)
  same-Counted n game game' s counted = (
    record { at_tick = s.same_tick ∙ counted.at_tick; count = counted.count ∙ sym s.same_count },
    s.same_config,
  )

  play-count :
      (total : ℕ) (moments : List Moment) (n : ℕ) (game game' : Game F c.PrivateKey)
      → play fl sorter c moments game ≡ ok game'
      → total_ticks game.config ≡ ok (pos total)
      → Int64 (pos total)
      → n ≤ total
      → Counted n game
      → (length game'.ticks ≡ capped (n + firings moments) total)
        × (game'.current_tick ≡ pos (length game'.ticks))
  unfolding play happen firings capped
  play-count total [] n game game' h is_total bounded below counted =
      let (ticks, _, at, _) = update-count game game' h in
      let all : length game'.ticks ≡ n = ticks ∙ sym counted.count in
      (ground (arith, all, below), at ∙ counted.at_tick ∙ ap pos (sym all))
  play-count total (ticker_fired ∷ moments) n game game' h is_total bounded below counted =
      let (mid, e, h1) = >>=-eq-ok (begin_tick fl sorter game >>= λ r. ok r.0) _ h in
      let (begun, b, h2) = >>=-eq-ok (begin_tick fl sorter game) _ e in
      let (after, config) = begin-Counted total n game begun.0 begun.1 b is_total bounded counted in
      let (ticks, tick) =
        play-count total moments (advanced n total) begun.0 game'
          (ap (play fl sorter c moments) (ok_injective h2) ∙ h1)
          (ap (λ k. total_ticks k) config ∙ is_total) bounded (advanced_le n total below) after in
      (ticks ∙ capped-advanced n total (firings moments) below, tick)
  play-count total (flag_submitted info flag ∷ moments) n game game' h is_total bounded below
        counted =
      let (mid, e, h1) = >>=-eq-ok (submit_flag c game info flag >>= λ r. ok r.1) _ h in
      let ((status, sub), b, h2) = >>=-eq-ok (submit_flag c game info flag) _ e in
      let (after, config) =
        same-Counted n game sub (submit-count game sub info flag status b) counted in
      play-count total moments n sub game' (ap (play fl sorter c moments) (ok_injective h2) ∙ h1)
        (ap (λ k. total_ticks k) config ∙ is_total) bounded below after
  play-count total (checks_answered answers ∷ moments) n game game' h is_total bounded below
        counted =
      let (mid, e, h1) = >>=-eq-ok (note_answers answers game) _ h in
      let (after, config) = same-Counted n game mid (note-count game mid answers e) counted in
      play-count total moments n mid game' h1 (ap (λ k. total_ticks k) config ∙ is_total) bounded
        below after

  -- A game that starts before its first tick, with no record of a tick, and that ends: it has as
  -- many finished ticks as the ticker fired, up to the total number of ticks, if that is a 64-bit
  -- number. The clock shows their number, and the game does not run any more.
  pub start_game-ticks :
      (total : ℕ) (moments : List Moment) (game game' : Game F c.PrivateKey)
      → start_game fl sorter c moments game ≡ ok game'
      → total_ticks game.config ≡ ok (pos total)
      → Int64 (pos total)
      → game.current_tick ≡ pos 0
      → game.ticks ≡ []
      → game.current_state ≡ none
      → (length game'.ticks ≡ (if ltb (firings moments) total then firings moments else total))
        × (game'.current_tick ≡ pos (length game'.ticks))
        × (game'.running ≡ false)
  unfolding start_game unclosed capped
  start_game-ticks total moments game game' h is_total bounded first no_ticks no_board =
      let started = record game { running = true } in
      let (_, _, h0) = >>=-eq-ok (total_ticks game.config) _ h in
      let (over, e, h1) =
        >>=-eq-ok (play fl sorter c moments started) _
          (ticker_made game.config.tick_rate _ game' h0) in
      let counted : Counted 0 started = record {
        at_tick = first;
        count = rw (no_ticks, no_board) (omega arith);
      } in
      let (ticks, tick) =
        play-count total moments 0 started over e is_total bounded (omega arith) counted in
      rw (← ok_injective h1) (ground (arith, ticks), tick, refl)
