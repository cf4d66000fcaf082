-- ===== src/Run/Steps/Ready.antt =====
-- What the steps of `Run` before the clock leave: every machine has its instance.
use mathlib.Core.Path.{subst}
use tinyrange_ad.Common.{
  ℕ, ◌+◌, List, [], ◌∷◌, Bool, true, false, ◌&&◌, Option, none, some, ◌≡◌, ◌≢◌, refl, sym, ◌∙◌, ap,
  arith, Bool-cases, Option-cases, inl, inr,
}
use tinyrange_ad.Common.Progress.{and_then-reached, reached, reached_injective}
use tinyrange_ad.Common.Outcome.{ok, >>=-eq-ok}
use tinyrange_ad.Common.Text.{codes}
use tinyrange_ad.Net.{scorebot_ip}
use tinyrange_ad.Device.{load_devices}
use tinyrange_ad.Scorebot.{start_scorebot}
use tinyrange_ad.Tick.{add_event, remove_event}
use tinyrange_ad.Game.Theft.{ok_injective}
use tinyrange_ad.Team.{Team}
use tinyrange_ad.Team.Running.{start_team}
use tinyrange_ad.Team.Running.Started.{AllBooted, start_team-Booted}
use tinyrange_ad.Persist.Database.{Disk}
use tinyrange_ad.Wireguard.{Wireguard}
use tinyrange_ad.Instance.{TinyRangeInstance}
use tinyrange_ad.Instance.Machines.{Machines, start_instance_from_config}
use tinyrange_ad.Run.{start_event, World, RunConfig, Host}
use tinyrange_ad.Run.Steps.{
  start_each, with_teams, start_teams, await_start, prepare, load, boot_scorebot, wait_scorebot,
  booted, with_scorebot, with_devices, healthy,
}

module _ (os : Disk) (wg : Wireguard) {F K : Type 0} (setup : RunConfig F) (w : World K) where
  start_each-AllBooted :
      (n : ℕ) (g : Machines os) (teams : List Team) (r : Machines os × List Team × Bool)
      → start_each os wg setup w n g teams ≡ ok r
      → r.2 ≡ true
      → AllBooted setup.config.vulnbox.bot.enabled teams r.1
  unfolding start_each AllBooted
  start_each-AllBooted n g [] r h all =
      subst (λ ts. AllBooted setup.config.vulnbox.bot.enabled [] ts)
        (ap (λ x. x.1) (ok_injective h)) tt
  start_each-AllBooted n g (t ∷ teams) r h all =
      let (first, e, h1) =
        >>=-eq-ok
          (start_team os w.sha256 wg w.persist_dir w.vmm_path w.verbose w.build w.launch w.expand
            w.run_command w.expand_url w.fetch setup.config (w.seeds n) (w.seeds (n + 1))
            (w.seeds (n + 2)) (record { machines = g; team = t }))
          _ h in
      let (rest, f, h2) =
        >>=-eq-ok (start_each os wg setup w (n + 3) first.0.machines teams) _ h1 in
      let same = ok_injective h2 in
      let both : (first.1 && rest.2) ≡ true = ap (λ x. x.2) same ∙ all in
      let here : first.1 ≡ true = ground (arith, both) in
      let there : rest.2 ≡ true = ground (arith, both) in
      let own =
        start_team-Booted os w.sha256 wg w.persist_dir w.vmm_path w.verbose w.build w.launch
          w.expand w.run_command w.expand_url w.fetch setup.config (w.seeds n) (w.seeds (n + 1))
          (w.seeds (n + 2)) (record { machines = g; team = t }) first.0
          (e ∙ ap (λ b. ok (first.0, b)) here) in
      subst (λ ts. AllBooted setup.config.vulnbox.bot.enabled (t ∷ teams) ts) (ap (λ x. x.1) same)
        (own, start_each-AllBooted (n + 3) first.0.machines teams rest f there)

  with_teams-reached :
      (h h' : Host os wg) (r : Machines os × List Team × Bool)
      → with_teams os wg setup w h r ≡ reached h'
      → (r.2 ≡ true) × (h'.teams ≡ r.1) × (h'.scorebot ≡ h.scorebot)
  unfolding with_teams
  with_teams-reached h h' (g, teams, false) e = cc
  with_teams-reached h h' (g, teams, true) e = (refl, cc, cc)

  with_scorebot-up :
      (h h' : Host os wg) (t : Option TinyRangeInstance)
      → with_scorebot os wg setup w h t ≡ reached h'
      → (h'.scorebot ≢ none) × (h'.teams ≡ h.teams)
  unfolding with_scorebot
  with_scorebot-up h h' none e = absurd (cc)
  with_scorebot-up h h' (some t) e = (λ missing. cc, cc)

  booted-scorebot :
      (h h' : Host os wg) (r : Machines os × Option TinyRangeInstance)
      → booted os wg setup w h r ≡ reached h'
      → (h'.scorebot ≢ none) × (h'.teams ≡ h.teams)
  unfolding booted
  booted-scorebot h h' (g, none) e = absurd (cc)
  booted-scorebot h h' (g, some t) e =
      with_scorebot-up (record h { machines = g }) h' (start_scorebot setup.score_bot t) e

  boot_scorebot-up :
      (h h' : Host os wg)
      → boot_scorebot os wg setup w h ≡ ok (reached h')
      → (h'.scorebot ≢ none) × (h'.teams ≡ h.teams)
  unfolding boot_scorebot
  boot_scorebot-up h h' e =
      let (r, _, e1) =
        >>=-eq-ok
          (start_instance_from_config os w.sha256 wg w.persist_dir w.vmm_path w.verbose w.build
            w.launch (w.seeds 0) h.machines (codes "scorebot") scorebot_ip
            setup.score_bot.instance_config)
          (λ r. ok (booted os wg setup w h r)) e in
      booted-scorebot h h' r (ok_injective e1)

  load-teams : (h h' : Host os wg) → load os wg setup w h ≡ ok (reached h') → h'.teams ≡ h.teams
  unfolding load with_devices
  load-teams h h' e =
      elim (Option-cases (
        load_devices os w.json w.persist_dir w.sha256 wg setup.config.device (record {
          devices = h.devices;
          flow = h.machines.flow;
          router = h.machines.router;
          disk = h.machines.disk;
        }))) [ inl none_there ↦ cc | inr (d, there) ↦ cc ]

  -- The teams are the given ones with their machines, and the scorebot has an instance.
  pub record Ready (teams : List Team) (h : Host os wg) : Type 0 where
    pub teams_up : AllBooted setup.config.vulnbox.bot.enabled teams h.teams
    pub scorebot_up : h.scorebot ≢ none

  start_teams-Ready :
      (h h' : Host os wg)
      → start_teams os wg setup w h ≡ ok (reached h')
      → h.scorebot ≢ none
      → Ready h.teams h'
  unfolding start_teams
  start_teams-Ready h h' e up =
      let (r, made, e1) = >>=-eq-ok (start_each os wg setup w 1 h.machines h.teams) _ e in
      let (all, teams, scorebot) = with_teams-reached h h' r (ok_injective e1) in
      record {
        teams_up =
            subst (λ ts. AllBooted setup.config.vulnbox.bot.enabled h.teams ts) (sym teams)
              (start_each-AllBooted 1 h.machines h.teams r made all);
        scorebot_up = λ missing. up (sym scorebot ∙ missing);
      }

  await_start-Ready :
      (ts : List Team) (h h' : Host os wg)
      → await_start os wg setup w h ≡ ok (reached h')
      → Ready ts h
      → Ready ts h'
  unfolding await_start
  await_start-Ready ts h h' e ready = elim (Bool-cases setup.wait_for_start) [
    | inr at_once ↦
        let same : h ≡ h' = reached_injective (ok_injective (ground (arith, e, at_once))) in
        subst (λ x. Ready ts x) same ready
    | inl later ↦ elim (Bool-cases w.start_comes) [
      | inr never ↦ absurd (ground (arith, e, later, never))
      | inl comes ↦
          let over : Host os wg = record h {
            events = remove_event (add_event h.events (codes "start") start_event) (codes "start");
          } in
          let same : over ≡ h' =
            reached_injective (ok_injective (ground (arith, e, later, comes))) in
          subst (λ x. Ready ts x) same
            (record { teams_up = ready.teams_up; scorebot_up = ready.scorebot_up })
    ]
  ]

  healthy-same :
      (h h' : Host os wg) (tries : Option ℕ) → healthy os wg setup w h tries ≡ reached h' → h ≡ h'
  unfolding healthy
  healthy-same h h' none e = cc
  healthy-same h h' (some n) e = cc

  pub prepare-Ready :
      (h h' : Host os wg) → prepare os wg setup w h ≡ ok (reached h') → Ready h.teams h'
  unfolding prepare wait_scorebot
  prepare-Ready h h' e =
      let (h1, loaded, e1) = and_then-reached (load os wg setup w h) _ h' e in
      let (h2, boot, e2) = and_then-reached (boot_scorebot os wg setup w h1) _ h' e1 in
      let (h3, healthy_now, e3) = and_then-reached (wait_scorebot os wg setup w h2) _ h' e2 in
      let (h4, started, e4) = and_then-reached (start_teams os wg setup w h3) _ h' e3 in
      let same : h2 ≡ h3 = healthy-same h2 h3 _ (ok_injective healthy_now) in
      let (up, teams) = boot_scorebot-up h1 h2 boot in
      let from : h3.teams ≡ h.teams =
        sym (ap (λ x. x.teams) same) ∙ teams ∙ load-teams h h1 loaded in
      await_start-Ready h.teams h4 h' e4 (
        subst (λ ts. Ready ts h4) from
          (start_teams-Ready h3 h4 started (subst (λ x. x.scorebot ≢ none) same up)))
