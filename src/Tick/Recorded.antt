-- ===== src/Tick/Recorded.antt =====
-- The history of the scoreboard over every step of a game.
use tinyrange_ad.Common.{
  List, [], ◌∷◌, ◌++◌, Option, none, some, ℤ, pos, ◌≡◌, ◌⊎◌, refl, sym, ◌∙◌, ap, Bool-cases, inl,
  inr, append-nil, append_assoc,
}
use tinyrange_ad.Common.Int.{ltb_ℤ, ◌+ℤ◌, wrap64}
use tinyrange_ad.Common.Outcome.{ok, deref, >>=-eq-ok}
use tinyrange_ad.Common.Text.{Bytes}
use tinyrange_ad.Config.{total_ticks}
use tinyrange_ad.Flag.{Crypto}
use tinyrange_ad.Score.{Float, SortFunc, ScoreboardState, summarize_state}
use tinyrange_ad.Team.{TargetInfo}
use tinyrange_ad.Game.{Game, FlagStatus, submit_flag}
use tinyrange_ad.Game.Submit.{submit_flag_cases}
use tinyrange_ad.Game.Theft.{record_theft-after_theft, ok_injective}
use tinyrange_ad.Tick.{
  close_tick, update_scoreboard, begin_tick, Answer, note_answers, count_answers, due_events,
}

module _ (fl : Float) (sorter : SortFunc) (c : Crypto) where
  open fl use {F}

  -- What changes the scoreboard: a submitted flag, the start of a tick, the answers of the scorebot,
  -- and the last update, after the game's end.
  pub data Step : Game F c.PrivateKey → Game F c.PrivateKey → Type 0 where
    submitted :
        {game game' : Game F c.PrivateKey} (info : TargetInfo) (flag : Bytes) (status : FlagStatus)
        → submit_flag c game info flag ≡ ok (status, game')
        → Step game game'
    ticked :
        {game game' : Game F c.PrivateKey} (events : List Bytes)
        → begin_tick fl sorter game ≡ ok (game', events)
        → Step game game'
    answered :
        {game game' : Game F c.PrivateKey} (answers : List Answer)
        → note_answers answers game ≡ ok game'
        → Step game game'
    finished :
        {game game' : Game F c.PrivateKey}
        → update_scoreboard fl sorter game ≡ ok game'
        → Step game game'

  pub data Steps : Game F c.PrivateKey → Game F c.PrivateKey → Type 0 where
    done : {game : Game F c.PrivateKey} → Steps game game
    next :
        {game mid game' : Game F c.PrivateKey} → Step game mid → Steps mid game' → Steps game game'

  -- The overall state is the summary of the ticks that are over, and there is none before.
  abbrev pub Recorded : Game F c.PrivateKey → Type 0
  Recorded game =
      (game.ticks ≡ []) × (game.overall_state ≡ none)
      ⊎ (overall : ScoreboardState F) × (game.overall_state ≡ some overall)
        × (summarize_state fl sorter game.config game.ticks ≡ ok overall)

  -- What a step keeps: the configuration, the keys, the record, and the ticks that are over.
  record Kept (game game' : Game F c.PrivateKey) : Type 0 where
    same_config : game'.config ≡ game.config
    same_signer : game'.signer ≡ game.signer
    more : List (ScoreboardState F)
    ticks_grow : game'.ticks ≡ game.ticks ++ more
    recorded : Recorded game → Recorded game'

  same_record :
      (game : Game F c.PrivateKey) (current : Option (ScoreboardState F))
      (game' : Game F c.PrivateKey)
      → game' ≡ record game { current_state = current }
      → Kept game game'
  same_record game current game' e = rw e (record {
    same_config = refl;
    same_signer = refl;
    more = [];
    ticks_grow = sym (append-nil game.ticks);
    recorded = λ h. h;
  })

  Kept-submit :
      (game game' : Game F c.PrivateKey) (info : TargetInfo) (flag : Bytes) (status : FlagStatus)
      → submit_flag c game info flag ≡ ok (status, game')
      → Kept game game'
  Kept-submit game game' info flag status h =
      elim (submit_flag_cases c game info flag status game' h) [
        | inl (_, same) ↦ same_record game game.current_state game' same
        | inr (_, a) ↦
            let (_, both, _, e, _, _) =
              record_theft-after_theft game game' info _ a.tick a.team a.service a.noted in
            same_record game (some both) game' e
      ]

  Kept-note :
      (game game' : Game F c.PrivateKey) (answers : List Answer)
      → note_answers answers game ≡ ok game'
      → Kept game game'
  unfolding note_answers
  Kept-note game game' answers h =
      let (current, _, h1) = >>=-eq-ok (deref game.current_state) _ h in
      let (counted, _, h2) = >>=-eq-ok (count_answers answers current) _ h1 in
      same_record game (some counted) game' (sym (ok_injective h2))

  Kept-close :
      (game game' : Game F c.PrivateKey) (current : Option (ScoreboardState F))
      → close_tick fl sorter game current ≡ ok game'
      → Kept game game'
  unfolding close_tick
  Kept-close game game' none h = same_record game game.current_state game' (sym (ok_injective h))
  Kept-close game game' (some current) h =
      let (last, _, h1) = >>=-eq-ok (summarize_state fl sorter game.config (current ∷ [])) _ h in
      let (overall, e, h2) =
        >>=-eq-ok (summarize_state fl sorter game.config (game.ticks ++ last ∷ [])) _ h1 in
      rw (← ok_injective h2) (record {
        same_config = refl;
        same_signer = refl;
        more = last ∷ [];
        ticks_grow = refl;
        recorded = λ _. inr (overall, refl, e);
      })

  Kept-trans :
      {game mid game' : Game F c.PrivateKey} → Kept game mid → Kept mid game' → Kept game game'
  Kept-trans {game} {mid} {game'} k l = record {
    same_config = l.same_config ∙ k.same_config;
    same_signer = l.same_signer ∙ k.same_signer;
    more = k.more ++ l.more;
    ticks_grow =
        l.ticks_grow ∙ ap (λ t. t ++ l.more) k.ticks_grow ∙ append_assoc game.ticks k.more l.more;
    recorded = λ h. l.recorded (k.recorded h);
  }

  Kept-update :
      (game game' : Game F c.PrivateKey)
      → update_scoreboard fl sorter game ≡ ok game'
      → Kept game game'
  unfolding update_scoreboard
  Kept-update game game' h =
      let (closed, e, h1) = >>=-eq-ok (close_tick fl sorter game game.current_state) _ h in
      Kept-trans (Kept-close game closed game.current_state e)
        (same_record closed _ game' (sym (ok_injective h1)))

  same_tick :
      (game : Game F c.PrivateKey) (tick : ℤ) → Kept game (record game { current_tick = tick })
  same_tick game tick = record {
    same_config = refl;
    same_signer = refl;
    more = [];
    ticks_grow = sym (append-nil game.ticks);
    recorded = λ h. h;
  }

  Kept-begin :
      (game game' : Game F c.PrivateKey) (events : List Bytes)
      → begin_tick fl sorter game ≡ ok (game', events)
      → Kept game game'
  unfolding begin_tick
  Kept-begin game game' events h =
      let (total, _, h1) = >>=-eq-ok (total_ticks game.config) _ h in
      elim (Bool-cases (ltb_ℤ game.current_tick total)) [
        | inr over ↦
            same_record game game.current_state game'
              (sym (ap (λ r. r.0) (ok_injective (rw over at h1))))
        | inl on ↦
            let tick = wrap64 (game.current_tick +ℤ pos 1) in
            let (fresh, e, h2) =
              >>=-eq-ok (update_scoreboard fl sorter (record game { current_tick = tick })) _
                (rw on at h1) in
            let (due, _, h3) =
              >>=-eq-ok (due_events game.config fresh.current_tick game.config.timeline) _ h2 in
            rw (← ap (λ r. r.0) (ok_injective h3))
              (Kept-trans (same_tick game tick) (Kept-update _ fresh e))
      ]

  Kept-Step : {game game' : Game F c.PrivateKey} → Step game game' → Kept game game'
  Kept-Step {game} {game'} (submitted info flag status h) =
      Kept-submit game game' info flag status h
  Kept-Step {game} {game'} (ticked events h) = Kept-begin game game' events h
  Kept-Step {game} {game'} (answered answers h) = Kept-note game game' answers h
  Kept-Step {game} {game'} (finished h) = Kept-update game game' h

  Steps-Kept : {game game' : Game F c.PrivateKey} → Steps game game' → Kept game game'
  Steps-Kept {game} done = same_record game game.current_state game refl
  Steps-Kept (next s steps) = Kept-trans (Kept-Step s) (Steps-Kept steps)

  -- Whatever steps a game takes: if the overall state was the summary of the ticks that were over, or
  -- there was neither, then so it is after. The ticks that were over stay at the front of the list,
  -- and the configuration and the key stay.
  pub Steps-Recorded :
      {game game' : Game F c.PrivateKey}
      → Steps game game'
      → Recorded game
      → Recorded game'
        × ((more : List (ScoreboardState F)) × (game'.ticks ≡ game.ticks ++ more))
        × (game'.config ≡ game.config)
        × (game'.signer ≡ game.signer)
  Steps-Recorded steps h =
      let k = Steps-Kept steps in
      (k.recorded h, (k.more, k.ticks_grow), k.same_config, k.same_signer)
