-- ===== src/Score/Scored.antt =====
-- Boards whose services are all configured can be summed up and scored.
use mathlib.Core.List.{foldl, Perm, Mem, mem-cons, mem-cons_self, mem-cons_of_mem, not-mem-nil}
use mathlib.Core.List.Perm
use mathlib.Core.Option.{get_or}
use mathlib.Core.HLevel.{⊥_prop, ×_prop}
use native.Mathlib.Bridge.{le_prop}
use tinyrange_ad.Common.{
  ℕ, suc, List, [], ◌∷◌, ℤ, pos, negsuc, ◌≡◌, refl, inl, inr, All, Option-cases,
}
use tinyrange_ad.Common.Dict.{lookup, int_eq}
use tinyrange_ad.Common.Dict.Entries.{All-insert, lookup-All}
use tinyrange_ad.Common.Outcome.{ok}
use tinyrange_ad.Config.{Config}
use tinyrange_ad.Score.{
  Float, SortFunc, ServiceState, TeamState, ScoreboardState, new_team, merge_service, merge_team,
  merge_tick, accumulate, score_teams, compare_points, number, rank, summarize_state,
}
use tinyrange_ad.Score.Points.{InRange, counted, rescored, set_team_overall_score-sum}

pub foldl-keeps :
    {A B : Type 0} (P : B → Type 0) (Q : A → Type 0) (f : B → A → B)
    → ((b : B) (a : A) → P b → Q a → P (f b a))
    → (l : List A) (b : B) → P b
    → All Q l
    → P (foldl f b l)
foldl-keeps P Q f keeps [] b hb h = hb
foldl-keeps P Q f keeps (a ∷ l) b hb h = foldl-keeps P Q f keeps l (f b a) (keeps b a hb h.0) h.1

All-prop : {A : Type 0} (P : A → Type 0) (l : List A) → ((a : A) → IsProp (P a)) → IsProp (All P l)
All-prop P [] prop = hlevel
All-prop P (x ∷ l) prop = ×_prop (prop x) (All-prop P l prop)

All-of-Mem : {A : Type 0} (P : A → Type 0) (l : List A) → ((a : A) → Mem a l → P a) → All P l
All-of-Mem P [] h = tt
All-of-Mem P (x ∷ l) h = (h x mem-cons_self, All-of-Mem P l (λ a m. h a (mem-cons_of_mem x m)))

Mem-of-All :
    {A : Type 0} (P : A → Type 0) (l : List A)
    → ((a : A) → IsProp (P a))
    → All P l
    → (a : A) → Mem a l
    → P a
Mem-of-All P [] prop h a m = absurd (not-mem-nil m)
Mem-of-All P (x ∷ l) prop h a m =
    ∥∥₁_rec (prop a) (λ d. elim d [ inl e ↦ rw e h.0 | inr t ↦ Mem-of-All P l prop h.1 a t ])
      (mem-cons.0 m)

pub Perm-All :
    {A : Type 0} (P : A → Type 0) (l l' : List A)
    → ((a : A) → IsProp (P a))
    → Perm l l'
    → All P l
    → All P l'
Perm-All P l l' prop p h = All-of-Mem P l' (λ a m. Mem-of-All P l prop h a ((Perm.mem_iff p).1 m))

module _ (fl : Float) where
  open fl use {F, zero_f, add}

  module _ (config : Config F) where
    -- Every service of the team, or of every team of the board, is a configured one.
    abbrev pub Listed : ℤ × TeamState F → Type 0
    Listed e = All (λ s. InRange fl config s.0) e.1.services

    abbrev pub Configured : ScoreboardState F → Type 0
    Configured board = All Listed board.teams

    InRange-prop : (i : ℤ) → IsProp (InRange fl config i)
    InRange-prop (pos n) = le_prop
    InRange-prop (negsuc n) = ⊥_prop

    Listed-prop : (e : ℤ × TeamState F) → IsProp (Listed e)
    Listed-prop e = All-prop _ e.1.services (λ s. InRange-prop s.0)

    merge_service-Listed :
        (acc : List (ℤ × ServiceState F)) (s : ℤ × ServiceState F)
        → All (λ s. InRange fl config s.0) acc
        → InRange fl config s.0
        → All (λ s. InRange fl config s.0) (merge_service zero_f acc s)
    unfolding merge_service
    merge_service-Listed acc s h here = All-insert (λ s. InRange fl config s.0) s.0 _ acc here h

    merge_team-Listed :
        (acc : List (ℤ × TeamState F)) (e : ℤ × TeamState F)
        → All Listed acc
        → Listed e
        → All Listed (merge_team zero_f acc e)
    unfolding merge_team
    merge_team-Listed acc (id, team) h here =
        let old : All (λ s. InRange fl config s.0)
            (get_or (lookup id acc) (new_team zero_f team.is_bot team.name)).services =
          elim (Option-cases (lookup id acc)) [
            | inl e ↦ rw e tt
            | inr (t, e) ↦ rw e (lookup-All Listed id t acc e h)
          ] in
        All-insert Listed id _ acc
          (foldl-keeps (All (λ s. InRange fl config s.0)) (λ s. InRange fl config s.0)
            (merge_service zero_f) merge_service-Listed team.services _ old here)
          h

    accumulate-Configured :
        (ticks : List (ScoreboardState F))
        → All Configured ticks
        → Configured (accumulate zero_f ticks)
    unfolding accumulate merge_tick
    accumulate-Configured ticks h =
        foldl-keeps Configured Configured (merge_tick zero_f)
          (λ b t hb ht.
            foldl-keeps (All Listed) Listed (merge_team zero_f) merge_team-Listed t.teams b.teams hb
              ht)
          ticks _ tt h

    rescored-Listed :
        (services : List (ℤ × ServiceState F))
        → All (λ s. InRange fl config s.0) services
        → All (λ s. InRange fl config s.0) (rescored fl config services)
    rescored-Listed [] h = tt
    rescored-Listed (s ∷ services) h = (h.0, rescored-Listed services h.1)

    score_teams-Listed :
        (teams : List (ℤ × TeamState F))
        → All Listed teams
        → (scored : List (ℤ × TeamState F)) × (score_teams fl config teams ≡ ok scored)
          × All Listed scored
    unfolding score_teams
    score_teams-Listed [] h = ([], refl, tt)
    score_teams-Listed ((id, team) ∷ teams) h =
        let e = set_team_overall_score-sum fl config team h.0 in
        let (scored, f, all) = score_teams-Listed teams h.1 in
        let team' : TeamState F = record team {
          points = foldl add zero_f (counted fl config team.services);
          services = rescored fl config team.services;
        } in
        ((id, team') ∷ scored, rw (e, f) refl, (rescored-Listed team.services h.0, all))

    number-Listed :
        (i : ℕ) (teams : List (ℤ × TeamState F)) → All Listed teams → All Listed (number fl i teams)
    unfolding number
    number-Listed i [] h = tt
    number-Listed i (e ∷ teams) h = (h.0, number-Listed (suc i) teams h.1)

    -- Boards whose services are all configured can be summarized, and the summary is such a board.
    pub summarize_state-Configured :
        (sorter : SortFunc) (ticks : List (ScoreboardState F))
        → All Configured ticks
        → (board : ScoreboardState F) × (summarize_state fl sorter config ticks ≡ ok board)
          × Configured board
    unfolding summarize_state rank
    summarize_state-Configured sorter ticks h =
        let total = accumulate zero_f ticks in
        let (scored, e, all) = score_teams-Listed total.teams (accumulate-Configured ticks h) in
        let sorted = sorter.sort (compare_points fl) scored in
        (
          record total { teams = number fl 0 sorted },
          rw e refl,
          number-Listed 0 sorted (
              Perm-All Listed scored sorted Listed-prop
                (sorter.sort-perm (compare_points fl) scored) all),
        )
