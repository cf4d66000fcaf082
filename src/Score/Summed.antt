-- ===== src/Score/Summed.antt =====
-- A flag that a board holds is in the summary of the boards: `summarizeState` of cmd/ad/game.go.
use mathlib.Core.Bool.{Bool-set, false≢true}
use mathlib.Core.List.{foldl, Perm}
use mathlib.Core.List.Perm
use tinyrange_ad.Common.{
  ℕ, suc, List, [], ◌∷◌, Bool, true, false, ◌&&◌, ◌||◌, some, if◌then◌else◌, ℤ, ◌≡◌, refl, sym, ◌∙◌,
  ap, arith, All, Bool-cases, inl, inr,
}
use tinyrange_ad.Common.Int.{◌==ℤ◌, ==ℤ_iff, ==ℤ_refl}
use tinyrange_ad.Common.Dict.{lookup, insert, int_eq}
use tinyrange_ad.Common.Dict.Entries.{All-insert, lookup-All}
use tinyrange_ad.Common.Outcome.{ok, >>=-eq-ok}
use tinyrange_ad.Config.{Config}
use tinyrange_ad.Game.Theft.{ok_injective}
use tinyrange_ad.Score.{
  Float, SortFunc, ServiceState, TeamState, ScoreboardState, merge_team, merge_tick, accumulate,
  set_service_overall_score, index_service, score_services, set_team_overall_score, score_teams,
  compare_points, number, rank, summarize_state,
}
use tinyrange_ad.Score.Scored.{Perm-All}
use tinyrange_ad.Score.Totals.{Fresh, Distinct}
use tinyrange_ad.Score.Held.{
  service_has, team_has, anywhere, lookup-anywhere, Among, accumulate-held,
}

-- The keys of an accumulated map stay apart.
Distinct-insert :
    {V : Type 0} (k : ℤ) (v : V) (m : List (ℤ × V)) → Distinct m → Distinct (insert k v m)
unfolding insert
Distinct-insert k v [] d = (tt, tt)
Distinct-insert k v ((j, w) ∷ m) d = elim (Bool-cases (j ==ℤ k)) [
  | inl e ↦ rw e d
  | inr e ↦
      let apart : (k ==ℤ j) ≡ false = ground (arith, e, ==ℤ_iff j k, ==ℤ_iff k j) in
      rw e (All-insert (λ x. (x.0 ==ℤ j) ≡ false) k v m apart d.0, Distinct-insert k v m d.1)
]

module _ {F : Type 0} (z : F) where
  merge_teams-Distinct :
      (teams acc : List (ℤ × TeamState F))
      → Distinct acc
      → Distinct (foldl (merge_team z) acc teams)
  unfolding merge_team
  merge_teams-Distinct [] acc d = d
  merge_teams-Distinct ((j, t) ∷ teams) acc d =
      merge_teams-Distinct teams (merge_team z acc (j, t)) (Distinct-insert j _ acc d)

  merge_ticks-Distinct :
      (ticks : List (ScoreboardState F)) (b : ScoreboardState F)
      → Distinct b.teams
      → Distinct (foldl (merge_tick z) b ticks).teams
  unfolding merge_tick
  merge_ticks-Distinct [] b d = d
  merge_ticks-Distinct (t ∷ ticks) b d =
      merge_ticks-Distinct ticks (merge_tick z b t) (merge_teams-Distinct t.teams b.teams d)

module _ (team tick id service : ℤ) where
  module _ {F : Type 0} where
    -- An entry is not the team's, or it has the flag.
    abbrev marked : ℤ × TeamState F → Bool
    marked e = if e.0 ==ℤ id then team_has team tick id service (some e.1) else true

    abbrev unmarked : ℤ × TeamState F → Bool
    unmarked e = e.0 ==ℤ id && team_has team tick id service (some e.1)

    abbrev pub Everywhere : List (ℤ × TeamState F) → Type 0
    Everywhere = All (λ e. marked e ≡ true)

    Fresh-Everywhere :
        (j : ℤ) (teams : List (ℤ × TeamState F))
        → (j ==ℤ id) ≡ true
        → Fresh j teams
        → Everywhere teams
    Fresh-Everywhere j [] same fresh = tt
    Fresh-Everywhere j (e ∷ teams) same fresh =
        let other : (e.0 ==ℤ id) ≡ false = rw (← (==ℤ_iff j id).0 same) fresh.0 in
        (rw other refl, Fresh-Everywhere j teams same fresh.1)

    lookup-Everywhere :
        (teams : List (ℤ × TeamState F))
        → Distinct teams
        → team_has team tick id service (lookup id teams) ≡ true
        → Everywhere teams
    unfolding lookup
    lookup-Everywhere [] d h = tt
    lookup-Everywhere ((j, t) ∷ teams) d h = elim (Bool-cases (j ==ℤ id)) [
      | inl e ↦
          let here : team_has team tick id service (some t) ≡ true = rw e at h in
          (rw e here, Fresh-Everywhere j teams e d.0)
      | inr e ↦ (rw e refl, lookup-Everywhere teams d.1 (rw e at h))
    ]

    pub Everywhere-lookup :
        (teams : List (ℤ × TeamState F)) (t : TeamState F)
        → Everywhere teams
        → lookup id teams ≡ some t
        → team_has team tick id service (some t) ≡ true
    Everywhere-lookup teams t all found =
        let here : marked (id, t) ≡ true = lookup-All (λ e. marked e ≡ true) id t teams found all in
        rw (==ℤ_refl id) at here

    nowhere :
        (teams : List (ℤ × TeamState F))
        → anywhere team tick id service teams ≡ false
        → All (λ e. unmarked e ≡ false) teams
    nowhere [] h = tt
    nowhere (e ∷ teams) h =
        let here : unmarked e ≡ false = ground (arith, h) in
        let there : anywhere team tick id service teams ≡ false = ground (arith, h) in
        (here, nowhere teams there)

    nowhere_of :
        (teams : List (ℤ × TeamState F))
        → All (λ e. unmarked e ≡ false) teams
        → anywhere team tick id service teams ≡ false
    nowhere_of [] h = refl
    nowhere_of (e ∷ teams) h = rw (h.0, nowhere_of teams h.1) refl

    Perm-anywhere :
        (teams teams' : List (ℤ × TeamState F))
        → Perm teams teams'
        → anywhere team tick id service teams ≡ true
        → anywhere team tick id service teams' ≡ true
    Perm-anywhere teams teams' p h = elim (Bool-cases (anywhere team tick id service teams')) [
      | inl e ↦ e
      | inr e ↦
          let none_there = nowhere_of teams (
            Perm-All (λ e. unmarked e ≡ false) teams' teams (λ e. Bool-set (unmarked e) false)
              (Perm.symm p) (nowhere teams' e)) in
          absurd (false≢true (sym none_there ∙ h))
    ]

  module _ (fl : Float) (config : Config fl.F) where
    open fl use {F, zero_f}

    -- Scoring a team and placing it change no list of flags.
    score_services-kept :
        (services : List (ℤ × ServiceState F)) (score : F) (r : F × List (ℤ × ServiceState F))
        → score_services fl config score services ≡ ok r
        → service_has team tick id service (lookup service r.1)
          ≡ service_has team tick id service (lookup service services)
    unfolding score_services lookup set_service_overall_score
    score_services-kept [] score r h =
        ap
          (λ (x : F × List (ℤ × ServiceState F)).
            service_has team tick id service (lookup service x.1))
          (sym (ok_injective h))
    score_services-kept ((j, s) ∷ services) score r h =
        let (c, _, h1) = >>=-eq-ok (index_service fl config.vulnbox.services j) _ h in
        let (rest, e, h2) = >>=-eq-ok (score_services fl config _ services) _ h1 in
        rw (← ok_injective h2) (elim (Bool-cases (j ==ℤ service)) [
          | inl same ↦ rw same refl
          | inr other ↦ rw other (score_services-kept services _ rest e)
        ])

    set_team_overall_score-kept :
        (t t' : TeamState F)
        → set_team_overall_score fl config t ≡ ok t'
        → team_has team tick id service (some t') ≡ team_has team tick id service (some t)
    unfolding set_team_overall_score
    set_team_overall_score-kept t t' h =
        let (r, e, h1) = >>=-eq-ok (score_services fl config zero_f t.services) _ h in
        rw (← ok_injective h1) (score_services-kept t.services zero_f r e)

    score_teams-kept :
        (teams scored : List (ℤ × TeamState F))
        → score_teams fl config teams ≡ ok scored
        → (anywhere team tick id service teams ≡ true → anywhere team tick id service scored ≡ true)
          × (Everywhere teams → Everywhere scored)
    unfolding score_teams
    score_teams-kept [] scored h = rw (← ok_injective h) (λ a. a, λ a. a)
    score_teams-kept ((j, t) ∷ teams) scored h =
        let (t', e, h1) = >>=-eq-ok (set_team_overall_score fl config t) _ h in
        let (rest, f, h2) = >>=-eq-ok (score_teams fl config teams) _ h1 in
        let same = set_team_overall_score-kept t t' e in
        let ih = score_teams-kept teams rest f in
        rw (← ok_injective h2) (
          λ a. elim (Bool-cases (j ==ℤ id && team_has team tick id service (some t))) [
            | inl here ↦ rw (same, here) refl
            | inr not_here ↦ rw (same, not_here, ih.0 (rw not_here at a)) refl
          ],
          λ a. (rw same a.0, ih.1 a.1),
        )

    number-kept :
        (i : ℕ) (teams : List (ℤ × TeamState F))
        → (anywhere team tick id service (number fl i teams) ≡ anywhere team tick id service teams)
          × (Everywhere teams → Everywhere (number fl i teams))
    unfolding number
    number-kept i [] = (refl, λ a. a)
    number-kept i (e ∷ teams) =
        let ih = number-kept (suc i) teams in
        (
          ap (λ b. e.0 ==ℤ id && team_has team tick id service (some e.1) || b) ih.0,
          λ a. (a.0, ih.1 a.1),
        )

    -- A flag that some of the boards has is in their summary, and every entry of the team in the
    -- summary has it.
    pub summarize_state-held :
        (sorter : SortFunc) (ticks : List (ScoreboardState F)) (board : ScoreboardState F)
        → summarize_state fl sorter config ticks ≡ ok board
        → Among team tick id service ticks
        → (anywhere team tick id service board.teams ≡ true) × Everywhere board.teams
    unfolding summarize_state rank accumulate
    summarize_state-held sorter ticks board h among =
        let total = accumulate zero_f ticks in
        let (scored, e, h1) = >>=-eq-ok (score_teams fl config total.teams) _ h in
        let held = accumulate-held team tick id service zero_f ticks among in
        let apart : Distinct total.teams = merge_ticks-Distinct zero_f ticks _ tt in
        let (some_kept, all_kept) = score_teams-kept total.teams scored e in
        let sorted = sorter.sort (compare_points fl) scored in
        let p = sorter.sort-perm (compare_points fl) scored in
        let numbered = number-kept 0 sorted in
        rw (← ok_injective h1) (
          numbered.0
              ∙ Perm-anywhere scored sorted p
                  (some_kept (lookup-anywhere team tick id service total.teams held)),
          numbered.1 (
              Perm-All (λ e. marked e ≡ true) scored sorted (λ e. Bool-set (marked e) true) p
                (all_kept (lookup-Everywhere total.teams apart held))),
        )
