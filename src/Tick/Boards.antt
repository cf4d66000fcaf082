-- ===== src/Tick/Boards.antt =====
-- The state that a tick starts with: every team and bot has an entry for every service.
use mathlib.Core.List.{foldl}
use tinyrange_ad.Common.{
  ℕ, zero, suc, ◌+◌, ◌<◌, List, [], ◌∷◌, ◌++◌, Bool, true, false, Option, some, ℤ, pos, get_elem?,
  ◌≡◌, ◌⊎◌, refl, ◌∙◌, ap, arith, Bool-cases, inl, inr,
}
use tinyrange_ad.Common.Int.{◌==ℤ◌, ==ℤ_iff, ==ℤ_refl}
use tinyrange_ad.Common.Dict.{lookup, insert, int_eq, lookup-insert}
use tinyrange_ad.Common.Text.{Bytes, codes}
use tinyrange_ad.Config.{Config, ServiceConfig}
use tinyrange_ad.Score.{ServiceState, TeamState, new_service}
use tinyrange_ad.Flow.Router.Policy.{Any}
use tinyrange_ad.Team.{Team, bot_id}
use tinyrange_ad.Game.Theft.{service_at}
use tinyrange_ad.Tick.{fresh_services, fresh_team, add_fresh, fresh_board}

stored {ℓ} : {A : Type ℓ} {a b : A} → some a ≡ some b → a ≡ b
stored h = cc

module _ {F : Type 0} (z : F) where
  fresh_services-below :
      (i n : ℕ) (services : List ServiceConfig) (acc : List (ℤ × ServiceState F))
      → n < i
      → lookup (pos n) (fresh_services z i services acc) ≡ lookup (pos n) acc
  unfolding fresh_services
  fresh_services-below i n [] acc h = refl
  fresh_services-below i n (s ∷ services) acc h =
      fresh_services-below (suc i) n services _ (omega (arith, h))
      ∙ rw (lookup-insert (pos i) (pos n) (new_service z s.service_name) acc) (ground (arith, h))

  fresh_services-at :
      (i n : ℕ) (services : List ServiceConfig) (acc : List (ℤ × ServiceState F))
      (c : ServiceConfig)
      → get_elem? services n ≡ some c
      → lookup (pos (i + n)) (fresh_services z i services acc) ≡ some (new_service z c.service_name)
  unfolding fresh_services
  fresh_services-at i n [] acc c h = cc
  fresh_services-at i zero (s ∷ services) acc c h =
      let same : i + 0 ≡ i = omega arith in
      rw same (
        fresh_services-below (suc i) i services _ (omega arith)
        ∙ rw (lookup-insert (pos i) (pos i) (new_service z s.service_name) acc, ==ℤ_refl (pos i))
            (ap (λ x. some (new_service z x.service_name)) (stored h)))
  fresh_services-at i (suc n) (s ∷ services) acc c h =
      let same : i + suc n ≡ suc i + n = omega arith in
      rw same (fresh_services-at (suc i) n services _ c h)

  -- An entry that `updateScoreboard` has made.
  abbrev pub Fresh : Config F → Option (TeamState F) → Type 0
  Fresh config o = (is_bot : Bool) × (name : Bytes) × (o ≡ some (fresh_team z config is_bot name))

  module _ (config : Config F) where
    insert-Fresh :
        (j k : ℤ) (is_bot : Bool) (name : Bytes) (acc : List (ℤ × TeamState F))
        → (j ≡ k) ⊎ Fresh config (lookup k acc)
        → Fresh config (lookup k (insert j (fresh_team z config is_bot name) acc))
    insert-Fresh j k is_bot name acc h = elim (Bool-cases (j ==ℤ k)) [
      | inl e ↦ (is_bot, name, lookup-insert j k (fresh_team z config is_bot name) acc ∙ rw e refl)
      | inr e ↦ elim h [
        | inl same ↦ absurd (ground (arith, e, (==ℤ_iff j k).1 same))
        | inr (b, n, f) ↦
            (b, n, lookup-insert j k (fresh_team z config is_bot name) acc ∙ rw (e, f) refl)
      ]
    ]

    add_fresh-Fresh :
        (acc : List (ℤ × TeamState F)) (team : Team) (k : ℤ)
        → Fresh config (lookup k acc)
          ⊎ (pos team.id ≡ k)
          ⊎ (config.vulnbox.bot.enabled ≡ true) × (pos (bot_id team) ≡ k)
        → Fresh config (lookup k (add_fresh z config acc team))
    unfolding add_fresh
    add_fresh-Fresh acc team k h =
        let with_bot =
          insert-Fresh (pos (bot_id team)) k true (team.display_name ++ codes "_bot") in
        let own = insert-Fresh (pos team.id) k false team.display_name acc in
        elim (Bool-cases config.vulnbox.bot.enabled) [
          | inl on ↦ rw on (elim h [
            | inl old ↦ with_bot _ (inr (own (inr old)))
            | inr (inl self) ↦ with_bot _ (inr (own (inl self)))
            | inr (inr (_, bot)) ↦ with_bot _ (inl bot)
          ])
          | inr off ↦ rw off (elim h [
            | inl old ↦ own (inr old)
            | inr (inl self) ↦ own (inl self)
            | inr (inr (on, _)) ↦ absurd (ground (arith, on, off))
          ])
        ]

    abbrev pub Entered : List Team → ℤ → Type 0
    Entered teams k =
        Any (λ t. (pos t.id ≡ k) ⊎ (config.vulnbox.bot.enabled ≡ true) × (pos (bot_id t) ≡ k)) teams

    foldl-Fresh :
        (teams : List Team) (acc : List (ℤ × TeamState F)) (k : ℤ)
        → Fresh config (lookup k acc) ⊎ Entered teams k
        → Fresh config (lookup k (foldl (add_fresh z config) acc teams))
    foldl-Fresh [] acc k (inl h) = h
    foldl-Fresh [] acc k (inr h) = absurd h
    foldl-Fresh (t ∷ teams) acc k (inl h) =
        foldl-Fresh teams _ k (inl (add_fresh-Fresh acc t k (inl h)))
    foldl-Fresh (t ∷ teams) acc k (inr (inl h)) =
        foldl-Fresh teams _ k (inl (add_fresh-Fresh acc t k (inr h)))
    foldl-Fresh (t ∷ teams) acc k (inr (inr h)) = foldl-Fresh teams _ k (inr h)

    -- The state that a tick starts with has, for every team of the game and, if bots are enabled, for
    -- the bot of every team, an entry for every configured service, with no flags and no checks.
    fresh_board-service_at :
        (tick : ℤ) (teams : List Team) (id : ℤ) (n : ℕ) (c : ServiceConfig)
        → Entered teams id
        → get_elem? config.vulnbox.services n ≡ some c
        → service_at (fresh_board z config tick teams) id (pos n)
          ≡ some (new_service z c.service_name)
    unfolding fresh_board fresh_team
    fresh_board-service_at tick teams id n c listed h =
        let (is_bot, name, e) = foldl-Fresh teams [] id (inr listed) in
        let start : 0 + n ≡ n = omega arith in
        rw e (rw start at (fresh_services-at 0 n config.vulnbox.services [] c h))
