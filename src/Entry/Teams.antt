-- ===== src/Entry/Teams.antt =====
-- The game that the options give: its teams, and the version of its configuration.
use mathlib.Core.List.{foldl}
use tinyrange_ad.Common.{
  ℕ, suc, List, [], ◌∷◌, ◌++◌, none, some, pos, length, ◌≡◌, sym, ◌∙◌, ap, arith, Bool-cases, inl,
  inr, append-nil, append_assoc, length-append, >>=-eq-some, some_injective,
}
use tinyrange_ad.Common.Int.{◌==ℤ◌}
use tinyrange_ad.Common.Text.{Bytes, eqb}
use tinyrange_ad.Persist.{filepath_join}
use tinyrange_ad.Team.{Team}
use tinyrange_ad.Tick.{add_team}
use tinyrange_ad.Entry.{
  Options, Decoded, Surroundings, Startup, current_config_version, config_name, started, configured,
  find_tinyrange, find_vmm, app_main,
}

-- The teams of the names, with their places from `i` on as ids, and no machine yet.
unfoldable pub fresh_teams : ℕ → List Bytes → List Team
fresh_teams i [] = []
fresh_teams i (name ∷ names) =
    record {
      id = i;
      display_name = name;
      team_instance = none;
      soc_instance = none;
      bot_instance = none;
    }
    ∷ fresh_teams (suc i) names

foldl-add_team :
    (teams : List Team) (names : List Bytes)
    → foldl add_team teams names ≡ teams ++ fresh_teams (length teams) names
unfolding add_team fresh_teams
foldl-add_team teams [] = sym (append-nil teams)
foldl-add_team teams (name ∷ names) =
    let team : Team = record {
      id = length teams;
      display_name = name;
      team_instance = none;
      soc_instance = none;
      bot_instance = none;
    } in
    let more : length (teams ++ team ∷ []) ≡ suc (length teams) =
      omega (arith, length-append teams (team ∷ [])) in
    foldl-add_team (teams ++ team ∷ []) names
    ∙ ap (λ n. (teams ++ team ∷ []) ++ fresh_teams n names) more
    ∙ append_assoc teams (team ∷ []) (fresh_teams (suc (length teams)) names)

module _ {C : Type 0} (out : Surroundings C) where
  configured-version :
      (o : Options) (dir : Bytes) (config : Decoded C) (s : Startup C)
      → configured out o dir config ≡ some s
      → (config.version ≡ pos 1) × (s.config ≡ config.rest) × (s.teams ≡ fresh_teams 0 o.nop_teams)
  unfolding configured started
  configured-version o dir config s h =
      elim (Bool-cases (config.version ==ℤ current_config_version)) [
        | inr other ↦ absurd (ground (arith, h, other))
        | inl current ↦
            let (tinyrange, _, h1) = >>=-eq-some (find_tinyrange out o) _ (rw current at h) in
            let (vmm, _, h2) = >>=-eq-some (find_vmm out o) _ h1 in
            let built = some_injective h2 in
            (
              ground (arith, current),
              sym (ap (λ x. x.config) built),
              sym (ap (λ x. x.teams) built) ∙ foldl-add_team [] o.nop_teams,
            )
      ]

  -- A game that is run has the configuration of the file, of version 1, and a team for each name, in
  -- their order and with their places as ids.
  app_main-teams :
      (o : Options) (s : Startup C)
      → app_main out o ≡ some s
      → (text : Bytes) × (config : Decoded C) × (out.open_file o.config_file ≡ some text)
        × (out.decode text ≡ some config)
        × (config.version ≡ pos 1)
        × (s.config ≡ config.rest)
        × (s.teams ≡ fresh_teams 0 o.nop_teams)
  unfolding app_main
  app_main-teams o s h = elim (Bool-cases (eqb o.config_file [])) [
    | inl e ↦ absurd (ground (arith, h, e))
    | inr e ↦
        let dir = filepath_join (o.persistance_path ∷ config_name o.config_file ∷ []) in
        let (text, opened, h1) = >>=-eq-some (out.open_file o.config_file) _ (rw e at h) in
        elim (Bool-cases (out.mkdir_all dir)) [
          | inr no_dir ↦ absurd (ground (arith, h1, no_dir))
          | inl made ↦
              let (config, decoded, h2) = >>=-eq-some (out.decode text) _ (rw made at h1) in
              let (version, same, teams) = configured-version o dir config s h2 in
              (text, config, opened, decoded, version, same, teams)
        ]
  ]
