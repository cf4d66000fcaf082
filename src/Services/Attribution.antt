-- ===== src/Services/Attribution.antt =====
-- Which team a connection is counted for.
use tinyrange_ad.Common.{
  List, [], ◌∷◌, ◌++◌, Bool, true, false, Option, none, some, ◌≡◌, ◌⊎◌, inl, inr, refl, sym, ap,
  ◌∙◌, Bool-cases,
}
use tinyrange_ad.Common.Text.{
  Bytes, codes, eqb, eqb_iff, has_prefix, has_prefix_sound, trim_prefix, trim_prefix-append,
}
use tinyrange_ad.Tags.{TagList}
use tinyrange_ad.Team.{Team}
use tinyrange_ad.Services.{
  team_named, with_bot, team_from_tag, team_from_flow_instance, is_team_tag,
}

-- The team is one of the list.
unfoldable pub OneOf : List Team → Team → Type 0
OneOf [] t = ⊥
OneOf (s ∷ teams) t = (s ≡ t) ⊎ OneOf teams t

team_named-OneOf :
    (teams : List Team) (name : Bytes) (t : Team)
    → team_named teams name ≡ some t
    → OneOf teams t × (t.display_name ≡ name)
unfolding OneOf team_named
team_named-OneOf [] name t h = cc
team_named-OneOf (s ∷ teams) name t h = elim (Bool-cases (eqb s.display_name name)) [
  | inl e ↦
      let same : s ≡ t = cc in
      (inl same, ap (λ x. x.display_name) (sym same) ∙ (eqb_iff s.display_name name).0 e)
  | inr e ↦ let (found, named) = team_named-OneOf teams name t cc in (inr found, named)
]

-- A tag names a team: `bot/` its bot, and `team/` and `device/` the team itself.
unfoldable pub Names : Bytes → Team → Bool → Type 0
Names tag t bot =
    (bot ≡ false) × (tag ≡ codes "team/" ++ t.display_name)
    ⊎ (bot ≡ true) × (tag ≡ codes "bot/" ++ t.display_name)
    ⊎ (bot ≡ false) × (tag ≡ codes "device/" ++ t.display_name)

with_bot-some :
    (b bot : Bool) (found : Option Team) (t : Team)
    → with_bot b found ≡ some (t, bot)
    → (found ≡ some t) × (bot ≡ b)
unfolding with_bot
with_bot-some b bot none t h = cc
with_bot-some b bot (some s) t h = (cc, cc)

with_bot-named :
    (teams : List Team) (tag prefix : Bytes) (b bot : Bool) (t : Team)
    → has_prefix tag prefix ≡ true
    → with_bot b (team_named teams (trim_prefix tag prefix)) ≡ some (t, bot)
    → OneOf teams t × (bot ≡ b) × (tag ≡ prefix ++ t.display_name)
with_bot-named teams tag prefix b bot t starts h =
    let (found, same) = with_bot-some b bot (team_named teams (trim_prefix tag prefix)) t h in
    let (one, named) = team_named-OneOf teams (trim_prefix tag prefix) t found in
    let (rest, split) = has_prefix_sound tag prefix starts in
    (
      one,
      same,
      split
          ∙ ap (λ s. prefix ++ s)
              (sym (trim_prefix-append prefix rest)
                ∙ ap (λ s. trim_prefix s prefix) (sym split)
                ∙ sym named),
    )

team_from_tag-Names :
    (teams : List Team) (tag : Bytes) (t : Team) (bot : Bool)
    → team_from_tag teams tag ≡ some (t, bot)
    → OneOf teams t × Names tag t bot
unfolding team_from_tag Names
team_from_tag-Names teams tag t bot h = elim (Bool-cases (has_prefix tag (codes "team/"))) [
  | inl p ↦
      let (one, b, e) = with_bot-named teams tag (codes "team/") false bot t p cc in
      (one, inl (b, e))
  | inr p ↦ elim (Bool-cases (has_prefix tag (codes "bot/"))) [
    | inl q ↦
        let (one, b, e) = with_bot-named teams tag (codes "bot/") true bot t q cc in
        (one, inr (inl (b, e)))
    | inr q ↦ elim (Bool-cases (has_prefix tag (codes "device/"))) [
      | inl r ↦
          let (one, b, e) = with_bot-named teams tag (codes "device/") false bot t r cc in
          (one, inr (inr (b, e)))
      | inr r ↦ absurd (cc)
    ]
  ]
]

-- The tag that decides is the first that names a team.
unfoldable pub Decides : TagList → Bytes → Type 0
Decides [] tag = ⊥
Decides (s ∷ tags) tag =
    (is_team_tag s ≡ true) × (s ≡ tag) ⊎ (is_team_tag s ≡ false) × Decides tags tag

-- A connection is counted for a team of the game only if the first tag of its source that starts
-- with `team/`, `bot/` or `device/` goes on with that team's name, and for its bot only if that tag
-- starts with `bot/`.
pub team_from_flow_instance-Names :
    (teams : List Team) (tags : TagList) (t : Team) (bot : Bool)
    → team_from_flow_instance teams tags ≡ some (t, bot)
    → (tag : Bytes) × Decides tags tag × OneOf teams t × Names tag t bot
unfolding team_from_flow_instance Decides
team_from_flow_instance-Names teams [] t bot h = cc
team_from_flow_instance-Names teams (tag ∷ tags) t bot h = elim (Bool-cases (is_team_tag tag)) [
  | inl e ↦
      let (one, names) = team_from_tag-Names teams tag t bot cc in (tag, inl (e, refl), one, names)
  | inr e ↦
      let (first, decides, one, names) = team_from_flow_instance-Names teams tags t bot cc in
      (first, inr (e, decides), one, names)
]
