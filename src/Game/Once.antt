-- ===== src/Game/Once.antt =====
-- A flag counts once for a team.
use mathlib.Core.Option
use tinyrange_ad.Common.{
  List, [], ◌∷◌, ◌++◌, true, false, some, ℤ, pos, length, ◌≡◌, ◌≢◌, refl, sym, ◌∙◌, ap, arith,
  >>=-eq-some, inl, inr, append_assoc,
}
use tinyrange_ad.Common.Int.{◌-ℤ◌, ◌≤ℤ◌, ltb_ℤ, ◌==ℤ◌, ==ℤ_iff, ==ℤ_refl, wrap64}
use tinyrange_ad.Common.Dict.{lookup, int_eq}
use tinyrange_ad.Common.Outcome
use tinyrange_ad.Common.Outcome.{Outcome, ok, panic, deref, >>=-eq-ok}
use tinyrange_ad.Common.Text.{Bytes}
use tinyrange_ad.Config.{flag_valid_ticks}
use tinyrange_ad.Flag.{Crypto, signer_public, verify}
use tinyrange_ad.Team.{TargetInfo}
use tinyrange_ad.Score.{FlagInfo, ServiceState, ScoreboardState}
use tinyrange_ad.Game.{
  flag_accepted, flag_already_stolen, Game, stolen_in, has_flag, add_stolen, flags_stolen_by,
  record_theft, check_tick, check_flag, submit_flag,
}
use tinyrange_ad.Game.Submit.{deref-some, Passes, submit_flag_cases}
use tinyrange_ad.Game.Theft.{ok_injective, service_at, after_theft, record_theft-after_theft}

pub ==ℤ_ne : (a b : ℤ) → a ≢ b → (a ==ℤ b) ≡ false
==ℤ_ne a b h = ground (arith, ==ℤ_iff a b)

pub stored {ℓ} : {A : Type ℓ} {a b : A} → some a ≡ some b → a ≡ b
stored h = cc

pub has_flag-append :
    (team tick : ℤ) (xs : List FlagInfo)
    → has_flag team tick (xs ++ record { team_id = team; tick_id = tick } ∷ []) ≡ true
unfolding has_flag
has_flag-append team tick [] = rw (==ℤ_refl team, ==ℤ_refl tick)
has_flag-append team tick (f ∷ xs) = ground (arith, has_flag-append team tick xs)

module _ {F : Type 0} where
  pub stolen_in_lem :
      (board : ScoreboardState F) (id service : ℤ) (l : List FlagInfo)
      → stolen_in board id service ≡ ok l
      → (s : ServiceState F) × (service_at board id service ≡ some s) × (s.stolen_flags ≡ l)
  unfolding stolen_in
  stolen_in_lem board id service l h =
      let (team, e1, h1) = Outcome.>>=-eq-ok (deref (lookup id board.teams)) _ h in
      let (s, e2, h2) = Outcome.>>=-eq-ok (deref (lookup service team.services)) _ h1 in
      (
        s,
        rw (deref-some (lookup id board.teams) e1) (deref-some (lookup service team.services) e2),
        ground arith,
      )

  pub stolen_in_of :
      (board : ScoreboardState F) (id service : ℤ) (s : ServiceState F)
      → service_at board id service ≡ some s
      → stolen_in board id service ≡ ok s.stolen_flags
  unfolding stolen_in
  stolen_in_of board id service s h =
      let (team, e1, h1) = >>=-eq-some (lookup id board.teams) _ h in rw (e1, h1) refl

  module _ {K : Type 0} where
    -- The two boards and the entries that `flagsStolenBy` reads.
    pub record Parts (game : Game F K) (info : TargetInfo) (service : ℤ) (l : List FlagInfo)
        : Type 0 where
      pub overall : ScoreboardState F
      pub is_overall : game.overall_state ≡ some overall
      pub before : List FlagInfo
      pub is_before : stolen_in overall info.id service ≡ ok before
      pub current : ScoreboardState F
      pub is_current : game.current_state ≡ some current
      pub entry : ServiceState F
      pub is_entry : service_at current info.id service ≡ some entry
      pub joined : before ++ entry.stolen_flags ≡ l

    pub parts :
        (game : Game F K) (info : TargetInfo) (service : ℤ) (l : List FlagInfo)
        → flags_stolen_by game info service ≡ ok l
        → Parts game info service l
    unfolding flags_stolen_by
    parts game info service l h =
        let (overall, e1, h1) = Outcome.>>=-eq-ok (deref game.overall_state) _ h in
        let (before, e2, h2) = Outcome.>>=-eq-ok (stolen_in overall info.id service) _ h1 in
        let (current, e3, h3) = Outcome.>>=-eq-ok (deref game.current_state) _ h2 in
        let (now, e4, h4) = Outcome.>>=-eq-ok (stolen_in current info.id service) _ h3 in
        let (s, at, is_now) = stolen_in_lem current info.id service now e4 in
        record {
          overall = overall;
          is_overall = deref-some game.overall_state e1;
          before = before;
          is_before = e2;
          current = current;
          is_current = deref-some game.current_state e3;
          entry = s;
          is_entry = at;
          joined = rw is_now (ok_injective h4);
        }

    pub flags_stolen_by_of :
        (game : Game F K) (info : TargetInfo) (service : ℤ) (overall current : ScoreboardState F)
        (before : List FlagInfo) (s : ServiceState F)
        → game.overall_state ≡ some overall
        → stolen_in overall info.id service ≡ ok before
        → game.current_state ≡ some current
        → service_at current info.id service ≡ some s
        → flags_stolen_by game info service ≡ ok (before ++ s.stolen_flags)
    unfolding flags_stolen_by
    flags_stolen_by_of game info service overall current before s e1 e2 e3 e4 =
        rw (e1, e2, e3, stolen_in_of current info.id service s e4) refl

    flags_stolen_by_after :
        (game : Game F K) (info : TargetInfo) (service : ℤ) (l : List FlagInfo) (f : FlagInfo)
        (current both : ScoreboardState F)
        → flags_stolen_by game info service ≡ ok l
        → game.current_state ≡ some current
        → service_at both info.id service
          ≡ Option.map (add_stolen f) (service_at current info.id service)
        → flags_stolen_by (record game { current_state = some both }) info service
          ≡ ok (l ++ f ∷ [])
    flags_stolen_by_after game info service l f current both h is_current effect =
        after (parts game info service l h)
      where
        after :
            Parts game info service l
            → flags_stolen_by (record game { current_state = some both }) info service
              ≡ ok (l ++ f ∷ [])
        after p =
            let same : p.current ≡ current = cc (p.is_current, is_current) in
            let entry' : service_at both info.id service ≡ some (add_stolen f p.entry) =
              effect ∙ rw (← same, p.is_entry) refl in
            flags_stolen_by_of (record game { current_state = some both }) info service p.overall
              both p.before (add_stolen f p.entry) p.is_overall p.is_before refl entry'
            ∙ ap ok (
                unfold add_stolen in
                (sym (append_assoc p.before p.entry.stolen_flags (f ∷ []))
                  ∙ ap (λ l. l ++ f ∷ []) p.joined))

    check_tick-already_stolen :
        (game : Game F K) (info : TargetInfo) (tick team service valid : ℤ)
        (current : ScoreboardState F) (l : List FlagInfo)
        → game.current_state ≡ some current
        → flag_valid_ticks game.config ≡ ok valid
        → ltb_ℤ tick (wrap64 (current.tick -ℤ valid)) ≡ false
        → ltb_ℤ current.tick tick ≡ false
        → flags_stolen_by game info service ≡ ok l
        → has_flag team tick l ≡ true
        → check_tick game info tick team service ≡ ok (flag_already_stolen, game)
    unfolding check_tick
    check_tick-already_stolen game info tick team service valid current l e1 e2 e3 e4 e5 e6 =
        simp (e1, e2, e3, e4, e5, e6)

    pub check_flag-check_tick :
        (game : Game F K) (info : TargetInfo) (tick team service : ℤ)
        → team ≢ info.id
        → pos 0 ≤ℤ service
        → ltb_ℤ service (pos (length game.config.vulnbox.services)) ≡ true
        → check_flag game info (tick, team, service) ≡ check_tick game info tick team service
    unfolding check_flag
    check_flag-check_tick game info tick team service other low high =
        ground (arith, ==ℤ_iff team info.id)

    check_flag-again :
        (game game' : Game F K) (info : TargetInfo) (tick team service : ℤ)
        → team ≢ info.id
        → pos 0 ≤ℤ service
        → ltb_ℤ service (pos (length game.config.vulnbox.services)) ≡ true
        → Passes game info tick team service
        → record_theft game info tick team service ≡ ok (flag_accepted, game')
        → check_flag game' info (tick, team, service) ≡ ok (flag_already_stolen, game')
    check_flag-again game game' info tick team service other low high p noted =
        again (record_theft-after_theft game game' info flag_accepted tick team service noted)
      where
        again :
            (current both : ScoreboardState F) × (game.current_state ≡ some current)
              × (game' ≡ record game { current_state = some both })
              × (both.tick ≡ current.tick)
              × ((q r : ℤ)
                  → service_at both q r
                    ≡ after_theft info.id team service tick q r (service_at current q r))
            → check_flag game' info (tick, team, service) ≡ ok (flag_already_stolen, game')
        again (current, both, is_current, is_game, same_tick, effect) =
            let at_tick : both.tick ≡ p.current.tick =
              same_tick ∙ ap (λ b. b.tick) (stored (sym is_current ∙ p.is_current)) in
            let thief : service_at both info.id service
                ≡ Option.map (add_stolen (record { team_id = team; tick_id = tick }))
                    (service_at current info.id service) =
              unfold add_stolen in
              effect info.id service
              ∙ rw (==ℤ_refl info.id, ==ℤ_refl service, ==ℤ_ne team info.id other) refl in
            rw is_game (
              check_flag-check_tick (record game { current_state = some both }) info tick team
                service other low high
              ∙ check_tick-already_stolen (record game { current_state = some both }) info tick team
                  service p.valid both _ refl p.is_valid (rw at_tick p.not_expired)
                  (rw at_tick p.not_early)
                  (flags_stolen_by_after game info service p.stolen _ current both p.is_stolen
                    is_current thief)
                  (has_flag-append team tick p.stolen))

module _ {F : Type 0} (c : Crypto) where
  pub submit_flag-check_flag :
      (game : Game F c.PrivateKey) (info : TargetInfo) (flag : Bytes) (tick team service : ℤ)
      → game.running ≡ true
      → verify c game.flag_gen (signer_public c game.signer) flag ≡ some (tick, team, service)
      → submit_flag c game info flag ≡ check_flag game info (tick, team, service)
  unfolding submit_flag
  submit_flag-check_flag game info flag tick team service runs good = ground (arith, runs, good)

  -- After a flag of a team was accepted, every flag that is verified for the same three ids, this
  -- one among them, is refused as already stolen when the same team submits it, and changes nothing.
  pub submit_flag-already_stolen :
      (game game' : Game F c.PrivateKey) (info : TargetInfo) (flag flag' : Bytes)
      → submit_flag c game info flag ≡ ok (flag_accepted, game')
      → verify c game.flag_gen (signer_public c game.signer) flag'
        ≡ verify c game.flag_gen (signer_public c game.signer) flag
      → submit_flag c game' info flag' ≡ ok (flag_already_stolen, game')
  submit_flag-already_stolen game game' info flag flag' h same =
      elim (submit_flag_cases c game info flag flag_accepted game' h) [
        | inl (refused, _) ↦ absurd (refused refl)
        | inr (_, a) ↦
            let (_, both, _, is_game, _, _) =
              record_theft-after_theft game game' info flag_accepted a.tick a.team a.service
                a.noted in
            submit_flag-check_flag game' info flag' a.tick a.team a.service
              (ap (λ g. g.running) is_game ∙ a.running) (rw is_game (same ∙ a.verified))
            ∙ check_flag-again game game' info a.tick a.team a.service a.foreign a.not_negative
                a.in_range a.passes a.noted
      ]
