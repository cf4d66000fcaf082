-- ===== src/Team/Lookup.antt =====
-- The lookup of the teams' instances by name: cmd/ad/game.go.
use tinyrange_ad.Common.{
  ◌⊎◌, sym, ◌∙◌, ap, some_injective, List, [], ◌∷◌, Bool, true, false, Option, none, some,
  if◌then◌else◌, ◌≡◌, ◌≢◌, Bool-cases, Option-cases, inl, inr, All,
}
use tinyrange_ad.Common.Outcome.{Outcome, ok, panic}
use tinyrange_ad.Common.Text.{Bytes, codes, eqb, eqb_iff}
use tinyrange_ad.Flow.Router.{FlowInstance}
use tinyrange_ad.Team.{Team}

named_in : Bytes → Option FlowInstance → Bool
named_in name none = false
named_in name (some inst) = eqb name inst.hostname

-- A team's instance of the name, and what the other teams give otherwise. The team's own instance is
-- read without a test for nil.
of_team :
    Bytes → Team → Outcome (Option (Option FlowInstance)) → Outcome (Option (Option FlowInstance))
unfolding named_in
of_team name t rest = elim t.team_instance [
  | none ↦ panic
  | some inst ↦
      if eqb name inst.hostname
      then ok (some (some inst))
      else if named_in name t.bot_instance
      then ok (some t.bot_instance)
      else if named_in name t.soc_instance
      then ok (some t.soc_instance)
      else rest
]

of_teams : Bytes → List Team → Outcome (Option (Option FlowInstance))
unfolding of_team
of_teams name [] = ok none
of_teams name (t ∷ teams) = of_team name t (of_teams name teams)

-- `instanceFromName`, for the scorebot's instance: `ok none` is its error, and the instance that it
-- returns may be nil.
unfoldable pub instance_from_name :
    Option FlowInstance → List Team → Bytes → Outcome (Option (Option FlowInstance))
unfolding of_teams
instance_from_name scorebot teams name =
    if eqb name (codes "scorebot") then ok (some scorebot) else of_teams name teams

-- The team's own instance is set.
unfoldable pub HasInstance : Team → Type 0
HasInstance t = (inst : FlowInstance) × (t.team_instance ≡ some inst)

of_team-returns :
    (name : Bytes) (t : Team) (rest : Outcome (Option (Option FlowInstance)))
    → HasInstance t
    → rest ≢ panic
    → of_team name t rest ≢ panic
unfolding of_team HasInstance
of_team-returns name t rest (inst, set) returns e = elim (Bool-cases (eqb name inst.hostname)) [
  | inl own ↦ cc
  | inr other ↦ elim (Bool-cases (named_in name t.bot_instance)) [
    | inl bot ↦ cc
    | inr no_bot ↦ elim (Bool-cases (named_in name t.soc_instance)) [
      | inl soc ↦ cc
      | inr no_soc ↦ returns (cc)
    ]
  ]
]

of_teams-returns :
    (name : Bytes) (teams : List Team) → All HasInstance teams → of_teams name teams ≢ panic
unfolding of_teams
of_teams-returns name [] h e = cc
of_teams-returns name (t ∷ teams) h e =
    of_team-returns name t (of_teams name teams) h.0 (of_teams-returns name teams h.1) e

-- While every team's own instance is set, a lookup by name returns.
pub instance_from_name-returns :
    (scorebot : Option FlowInstance) (teams : List Team) (name : Bytes)
    → All HasInstance teams
    → instance_from_name scorebot teams name ≢ panic
unfolding instance_from_name
instance_from_name-returns scorebot teams name h e =
    elim (Bool-cases (eqb name (codes "scorebot"))) [
      | inl own ↦ cc
      | inr other ↦ of_teams-returns name teams h (cc)
    ]

named_in-found : (name : Bytes) (o : Option FlowInstance) → named_in name o ≡ true → o ≢ none
unfolding named_in
named_in-found name none h e = cc
named_in-found name (some inst) h e = cc

of_team-found :
    (name : Bytes) (t : Team) (rest : Outcome (Option (Option FlowInstance)))
    → rest ≢ ok (some none)
    → of_team name t rest ≢ ok (some none)
unfolding of_team
of_team-found name t rest later e = elim (Option-cases t.team_instance) [
  | inl missing ↦ cc
  | inr (inst, set) ↦ elim (Bool-cases (eqb name inst.hostname)) [
    | inl own ↦ cc
    | inr other ↦ elim (Bool-cases (named_in name t.bot_instance)) [
      | inl bot ↦ named_in-found name t.bot_instance bot (cc)
      | inr no_bot ↦ elim (Bool-cases (named_in name t.soc_instance)) [
        | inl soc ↦ named_in-found name t.soc_instance soc (cc)
        | inr no_soc ↦ later (cc)
      ]
    ]
  ]
]

of_teams-found : (name : Bytes) (teams : List Team) → of_teams name teams ≢ ok (some none)
unfolding of_teams
of_teams-found name [] e = cc
of_teams-found name (t ∷ teams) e =
    of_team-found name t (of_teams name teams) (of_teams-found name teams) e

-- The instance that a lookup finds is not nil, if the scorebot's is not.
pub instance_from_name-found :
    (scorebot : Option FlowInstance) (teams : List Team) (name : Bytes)
    → scorebot ≢ none
    → instance_from_name scorebot teams name ≢ ok (some none)
unfolding instance_from_name
instance_from_name-found scorebot teams name up e =
    elim (Bool-cases (eqb name (codes "scorebot"))) [
      | inl own ↦ up (cc)
      | inr other ↦ of_teams-found name teams (cc)
    ]

-- One of the teams has the instance, as its own, its bot's or its SOC machine's.
unfoldable pub OfTeams : FlowInstance → List Team → Type 0
OfTeams inst [] = ⊥
OfTeams inst (t ∷ teams) =
    ((t.team_instance ≡ some inst) ⊎ (t.bot_instance ≡ some inst) ⊎ (t.soc_instance ≡ some inst))
    ⊎ OfTeams inst teams

named_in-hostname :
    (name : Bytes) (o : Option FlowInstance) (inst : FlowInstance)
    → named_in name o ≡ true
    → o ≡ some inst
    → inst.hostname ≡ name
unfolding named_in
named_in-hostname name none inst h e = cc
named_in-hostname name (some other) inst h e =
    let same : other ≡ inst = some_injective e in
    sym (ap (λ x. x.hostname) same) ∙ sym ((eqb_iff name other.hostname).0 h)

of_team-named :
    (name : Bytes) (t : Team) (rest : Outcome (Option (Option FlowInstance))) (inst : FlowInstance)
    → of_team name t rest ≡ ok (some (some inst))
    → (inst.hostname ≡ name)
        × ((t.team_instance ≡ some inst)
            ⊎ (t.bot_instance ≡ some inst)
            ⊎ (t.soc_instance ≡ some inst))
      ⊎ (rest ≡ ok (some (some inst)))
unfolding of_team
of_team-named name t rest inst h = elim (Option-cases t.team_instance) [
  | inl missing ↦ absurd (cc)
  | inr (own, set) ↦ elim (Bool-cases (eqb name own.hostname)) [
    | inl is_own ↦
        let same : some own ≡ some inst = cc in
        let hosts = sym (ap (λ x. x.hostname) (some_injective same)) in
        inl (hosts ∙ sym ((eqb_iff name own.hostname).0 is_own), inl (set ∙ same))
    | inr other ↦ elim (Bool-cases (named_in name t.bot_instance)) [
      | inl bot ↦
          let same : t.bot_instance ≡ some inst = cc in
          inl (named_in-hostname name t.bot_instance inst bot same, inr (inl same))
      | inr no_bot ↦ elim (Bool-cases (named_in name t.soc_instance)) [
        | inl soc ↦
            let same : t.soc_instance ≡ some inst = cc in
            inl (named_in-hostname name t.soc_instance inst soc same, inr (inr same))
        | inr no_soc ↦ inr (cc)
      ]
    ]
  ]
]

of_teams-named :
    (name : Bytes) (teams : List Team) (inst : FlowInstance)
    → of_teams name teams ≡ ok (some (some inst))
    → (inst.hostname ≡ name) × OfTeams inst teams
unfolding of_teams OfTeams
of_teams-named name [] inst h = absurd (cc)
of_teams-named name (t ∷ teams) inst h = elim (of_team-named name t (of_teams name teams) inst h) [
  | inl (hosts, has) ↦ (hosts, inl has)
  | inr later ↦ let (hosts, has) = of_teams-named name teams inst later in (hosts, inr has)
]

-- The instance that a lookup finds is the scorebot's, under its name, or a team's machine with the
-- name as its host name.
pub instance_from_name-named :
    (scorebot : Option FlowInstance) (teams : List Team) (name : Bytes) (inst : FlowInstance)
    → instance_from_name scorebot teams name ≡ ok (some (some inst))
    → (name ≡ codes "scorebot") × (scorebot ≡ some inst)
      ⊎ (inst.hostname ≡ name) × OfTeams inst teams
unfolding instance_from_name
instance_from_name-named scorebot teams name inst h =
    elim (Bool-cases (eqb name (codes "scorebot"))) [
      | inl own ↦ inl ((eqb_iff name (codes "scorebot")).0 own, cc)
      | inr other ↦ inr (of_teams-named name teams inst (cc))
    ]
