-- ===== src/Tick/Taken/Boards.antt =====
-- What a theft and the answers of the scorebot leave of the flags that a board has.
use mathlib.Core.Bool.{false≢true}
use mathlib.Core.Option
use mathlib.Core.Path.{subst}
use tinyrange_ad.Common.{
  List, [], ◌∷◌, ◌++◌, Bool, true, false, ◌&&◌, Option, none, some, if◌then◌else◌, ℤ, ◌≡◌,
  Bool-cases, Option-cases, inl, inr,
}
use tinyrange_ad.Common.Int.{◌==ℤ◌}
use tinyrange_ad.Common.Dict.{lookup, int_eq}
use tinyrange_ad.Common.Outcome.{ok, >>=-eq-ok}
use tinyrange_ad.Score.{ServiceState, ScoreboardState}
use tinyrange_ad.Score.Held.{has_flag-left, service_has, team_has, Among}
use tinyrange_ad.Game.{has_flag}
use tinyrange_ad.Game.Theft.{
  ok_injective, service_at, more_stolen, more_lost, after_theft, update_service_lem,
}
use tinyrange_ad.Tick.{Answer, count_check, count_answers}

module _ (team tick id service : ℤ) where
  module _ {F : Type 0} where
    -- The board has the flag among those that the team `id` has stolen.
    abbrev pub held_in : ScoreboardState F → Bool
    held_in board = service_has team tick id service (service_at board id service)

    pub held_in-team :
        (board : ScoreboardState F)
        → held_in board ≡ true
        → team_has team tick id service (lookup id board.teams) ≡ true
    held_in-team board h = elim (Option-cases (lookup id board.teams)) [
      | inl e ↦ absurd (false≢true (rw e at h))
      | inr (t, e) ↦ rw e (rw e at h)
    ]

    -- A change of an entry that takes no stolen flag away.
    changed :
        (b : Bool) (f : ServiceState F → ServiceState F) (entry : Option (ServiceState F))
        → ((s : ServiceState F)
            → has_flag team tick s.stolen_flags ≡ true
            → has_flag team tick (f s).stolen_flags ≡ true)
        → service_has team tick id service entry ≡ true
        → service_has team tick id service (if b then Option.map f entry else entry) ≡ true
    changed false f entry keeps h = h
    changed true f none keeps h = h
    changed true f (some s) keeps h = keeps s h

    pub after_theft-held :
        (thief victim at from : ℤ) (entry : Option (ServiceState F))
        → service_has team tick id service entry ≡ true
        → service_has team tick id service (after_theft thief victim from at id service entry)
          ≡ true
    after_theft-held thief victim at from entry h =
        changed (victim ==ℤ id && from ==ℤ service) (more_lost thief at) _ (λ s e. e)
          (changed (thief ==ℤ id && from ==ℤ service) (more_stolen victim at) entry
            (λ s e. has_flag-left team tick s.stolen_flags _ e) h)

    pub count_answers-held :
        (answers : List Answer) (board board' : ScoreboardState F)
        → count_answers answers board ≡ ok board'
        → held_in board ≡ true
        → held_in board' ≡ true
    unfolding count_answers
    count_answers-held [] board board' h e = subst (λ b. held_in b ≡ true) (ok_injective h) e
    count_answers-held ((q, r, good) ∷ answers) board board' h e =
        let (counted, h1, h2) = >>=-eq-ok _ _ h in
        let entry = (update_service_lem board counted q r id service (count_check good) h1).1 in
        count_answers-held answers counted board' h2 (
          rw entry (
            changed (q ==ℤ id && r ==ℤ service) (count_check good) (service_at board id service)
              (λ s e. elim (Bool-cases good) [ inl g ↦ rw g e | inr g ↦ rw g e ]) e))

    pub Among-left :
        (xs ys : List (ScoreboardState F))
        → Among team tick id service xs
        → Among team tick id service (xs ++ ys)
    Among-left [] ys h = absurd h
    Among-left (x ∷ xs) ys (inl h) = inl h
    Among-left (x ∷ xs) ys (inr h) = inr (Among-left xs ys h)

    pub Among-right :
        (xs ys : List (ScoreboardState F))
        → Among team tick id service ys
        → Among team tick id service (xs ++ ys)
    Among-right [] ys h = h
    Among-right (x ∷ xs) ys h = inr (Among-right xs ys h)
