-- ===== src/Team/Running/Started.antt =====
-- What a start that succeeds leaves of a team: cmd/ad/team.go.
use mathlib.Core.Path.{subst}
use tinyrange_ad.Common.{
  ℕ, List, [], ◌∷◌, ◌++◌, All, Bool, true, false, ◌||◌, Option, none, some, map, ◌≡◌, refl, sym, ap,
  ◌∙◌, ◌⊎◌, some_injective, >>=-eq-some, Bool-cases, inl, inr,
}
use tinyrange_ad.Flow.{parse_flows}
use tinyrange_ad.Tags.{parse_tags, ReplaceFunc}
use tinyrange_ad.Common.Outcome.{Outcome, ok, panic}
use tinyrange_ad.Common.Text.{Bytes, codes}
use tinyrange_ad.Net.{Ip}
use tinyrange_ad.Flow.Router.{FlowService, FlowInstance}
use tinyrange_ad.Config.{Config, ServiceConfig, InstanceConfig}
use tinyrange_ad.Game.Theft.{ok_injective}
use tinyrange_ad.Instance.{
  TinyRangeInstance, tiny_range_flow_instance, parse_instance_flows, add_services, add_service_to,
  HttpResponse, health_check,
}
use tinyrange_ad.Instance.Machines.{Machines, start_instance_from_config}
use tinyrange_ad.Instance.Machines.Starting.{start_instance_from_config-name}
use tinyrange_ad.Persist.Database.{Disk}
use tinyrange_ad.Wireguard.{Wireguard}
use tinyrange_ad.Team.{Team, TargetInfo, bot_ip, bot_info}
use tinyrange_ad.Team.Commands.{InitData, run_init_command}
use tinyrange_ad.Team.Lookup.{HasInstance}
use tinyrange_ad.Team.Running.{
  Slot, team_slot, bot_slot, soc_slot, set_slot, Running, prepared, started_machine, after_it, boot,
  boot_team, boot_bot, boot_soc, start_team, service_of, team_variables, no_check,
}

-- An instance is set, and has the host name.
unfoldable pub IsUp : Bytes → Option FlowInstance → Type 0
IsUp host place = (inst : FlowInstance) × (place ≡ some inst) × (inst.hostname ≡ host)

-- What a start makes of a team: it has its own machine, a machine for its SOC and, if bots are
-- enabled, one for its bot, under the names that they were started with.
unfoldable pub Booted : Bool → Team → Team → Type 0
unfolding IsUp
Booted bots team team' =
    (team'.id ≡ team.id)
    × (team'.display_name ≡ team.display_name)
    × IsUp (codes "team_" ++ team.display_name) team'.team_instance
    × IsUp (codes "team_" ++ team.display_name ++ codes "_soc") team'.soc_instance
    × ((bots ≡ false)
        ⊎ IsUp (codes "team_" ++ team.display_name ++ codes "_bot") team'.bot_instance)

pub Booted-HasInstance :
    (bots : Bool) (team team' : Team) → Booted bots team team' → HasInstance team'
unfolding Booted IsUp HasInstance
Booted-HasInstance bots team team' (_, _, (inst, is_set, _), _, _) = (inst, is_set)

-- The same of each team of a list, in its order.
unfoldable pub AllBooted : Bool → List Team → List Team → Type 0
unfolding Booted
AllBooted bots [] [] = Unit
AllBooted bots [] (team' ∷ teams') = ⊥
AllBooted bots (team ∷ teams) [] = ⊥
AllBooted bots (team ∷ teams) (team' ∷ teams') =
    Booted bots team team' × AllBooted bots teams teams'

pub AllBooted-HasInstance :
    (bots : Bool) (teams teams' : List Team) → AllBooted bots teams teams' → All HasInstance teams'
unfolding AllBooted
AllBooted-HasInstance bots [] [] all = tt
AllBooted-HasInstance bots [] (team' ∷ teams') all = absurd all
AllBooted-HasInstance bots (team ∷ teams) [] all = absurd all
AllBooted-HasInstance bots (team ∷ teams) (team' ∷ teams') (here, there) =
    (Booted-HasInstance bots team team' here, AllBooted-HasInstance bots teams teams' there)

add_services-name :
    (t : TinyRangeInstance) (services : List FlowService) → (add_services t services).name ≡ t.name
unfolding add_services add_service_to
add_services-name t [] = refl
add_services-name t (s ∷ services) = add_services-name (add_service_to t s) services

parse_instance_flows-name :
    (t t' : TinyRangeInstance) (f : ReplaceFunc)
    → parse_instance_flows t f ≡ some t'
    → t'.name ≡ t.name
unfolding parse_instance_flows
parse_instance_flows-name t t' f h =
    let (flows, _, h1) = >>=-eq-some (parse_flows t.config.flows f) _ h in
    let (tags, _, h2) = >>=-eq-some (parse_tags t.config.tags f) _ h1 in
    sym (ap (λ x. x.name) (some_injective h2))

-- A step of a start that succeeds has set its slot to an instance of the name.
unfoldable Sets : {os : Disk} → Slot → Bytes → Team → Running os → Type 0
Sets slot name team r = (t : TinyRangeInstance) × (r.team ≡ set_slot slot t team) × (t.name ≡ name)

prepared-Sets :
    {os : Disk} (slot : Slot) (services : List FlowService) (target : TargetInfo)
    (init : TargetInfo → Bool) (healthy : TinyRangeInstance → Bool) (g : Machines os) (team : Team)
    (t : TinyRangeInstance) (f : ReplaceFunc) (made : Option TinyRangeInstance)
    → parse_instance_flows t f ≡ made
    → Sets slot t.name team (prepared slot services target init healthy g team t made).0
unfolding prepared Sets
prepared-Sets slot services target init healthy g team t f none h = (t, refl, refl)
prepared-Sets slot services target init healthy g team t f (some t') h = (
  add_services t' services,
  refl,
  add_services-name t' services ∙ parse_instance_flows-name t t' f h,
)

started_machine-Sets :
    {os : Disk} (slot : Slot) (services : List FlowService) (target : TargetInfo)
    (init : TargetInfo → Bool) (healthy : TinyRangeInstance → Bool) (team : Team) (name : Bytes)
    (made : Outcome (Machines os × Option TinyRangeInstance)) (r : Running os)
    → ((g : Machines os) (t : TinyRangeInstance) → made ≡ ok (g, some t) → t.name ≡ name)
    → started_machine slot services target init healthy team made ≡ ok (r, true)
    → Sets slot name team r
unfolding started_machine
started_machine-Sets slot services target init healthy team name panic r named h = cc
started_machine-Sets slot services target init healthy team name (ok (g, none)) r named h = cc
started_machine-Sets {os} slot services target init healthy team name (ok (g, some t)) r named h =
    let parsed = parse_instance_flows t (team_variables team.display_name) in
    let same : prepared slot services target init healthy g team t parsed ≡ (r, true) =
      ok_injective h in
    subst (λ (x : Running os × Bool). Sets slot name team x.0) same
      (subst (λ n. Sets slot n team (prepared slot services target init healthy g team t parsed).0)
        (named g t refl)
        (prepared-Sets slot services target init healthy g team t (team_variables team.display_name)
          parsed refl))

-- What the start of the bot leaves.
unfoldable BotSets : {os : Disk} → Bool → Team → Running os → Type 0
BotSets bots team r =
    ((bots ≡ false) × (r.team ≡ team))
    ⊎ Sets bot_slot (codes "team_" ++ team.display_name ++ codes "_bot") team r

-- The three starts, one after the other.
Sets-Booted :
    {os : Disk} (bots : Bool) (team : Team) (r1 r2 r3 : Running os)
    → Sets team_slot (codes "team_" ++ team.display_name) team r1
    → BotSets bots r1.team r2
    → Sets soc_slot (codes "team_" ++ r2.team.display_name ++ codes "_soc") r2.team r3
    → Booted bots team r3.team
unfolding Sets BotSets set_slot Booted IsUp tiny_range_flow_instance
Sets-Booted bots team r1 r2 r3 (a, is1, n1) (inl (off, is2)) (u, is3, n3) =
    let name = ap (λ x. x.display_name) is2 ∙ ap (λ x. x.display_name) is1 in
    (
      ap (λ x. x.id) is3 ∙ ap (λ x. x.id) is2 ∙ ap (λ x. x.id) is1,
      ap (λ x. x.display_name) is3 ∙ name,
      (
        tiny_range_flow_instance a,
        ap (λ x. x.team_instance) is3
            ∙ ap (λ x. x.team_instance) is2
            ∙ ap (λ x. x.team_instance) is1,
        n1,
      ),
      (
        tiny_range_flow_instance u,
        ap (λ x. x.soc_instance) is3,
        n3 ∙ ap (λ n. codes "team_" ++ n ++ codes "_soc") name,
      ),
      inl off,
    )
Sets-Booted bots team r1 r2 r3 (a, is1, n1) (inr (v, is2, n2)) (u, is3, n3) =
    let first = ap (λ x. x.display_name) is1 in
    let name = ap (λ x. x.display_name) is2 ∙ first in
    (
      ap (λ x. x.id) is3 ∙ ap (λ x. x.id) is2 ∙ ap (λ x. x.id) is1,
      ap (λ x. x.display_name) is3 ∙ name,
      (
        tiny_range_flow_instance a,
        ap (λ x. x.team_instance) is3
            ∙ ap (λ x. x.team_instance) is2
            ∙ ap (λ x. x.team_instance) is1,
        n1,
      ),
      (
        tiny_range_flow_instance u,
        ap (λ x. x.soc_instance) is3,
        n3 ∙ ap (λ n. codes "team_" ++ n ++ codes "_soc") name,
      ),
      inr (
        tiny_range_flow_instance v,
        ap (λ x. x.bot_instance) is3 ∙ ap (λ x. x.bot_instance) is2,
        n2 ∙ ap (λ n. codes "team_" ++ n ++ codes "_bot") first,
      ),
    )

after_it-ok :
    {os : Disk} (first : Outcome (Running os × Bool))
    (next : Running os → Outcome (Running os × Bool)) (r : Running os)
    → after_it first next ≡ ok (r, true)
    → (mid : Running os) × (first ≡ ok (mid, true)) × (next mid ≡ ok (r, true))
unfolding after_it
after_it-ok panic next r h = cc
after_it-ok (ok (mid, false)) next r h = cc
after_it-ok (ok (mid, true)) next r h = (mid, refl, h)

module _ (os : Disk) (sha256 : Bytes → Bytes) (wg : Wireguard) (dir vmm : Bytes) (verbose : Bool)
    (build : Bytes → Bytes → Option Bytes) (launch : List Bytes → Bool)
    (expand : Bytes → InitData → Option Bytes) (run : TargetInfo → Bytes → Option Bytes)
    (expand_url : TinyRangeInstance → Bytes → Option Bytes) (fetch : Bytes → Option HttpResponse)
    {F : Type 0} (config : Config F) where
  boot-Sets :
      (seed : ℕ) (slot : Slot) (name : Bytes) (ip : Ip) (instance_config : InstanceConfig)
      (services : List ServiceConfig) (target : TargetInfo) (healthy : TinyRangeInstance → Bool)
      (r r' : Running os)
      → boot os sha256 wg dir vmm verbose build launch expand run expand_url fetch config seed slot
          name ip instance_config services target healthy r
        ≡ ok (r', true)
      → Sets slot name r.team r'
  unfolding boot
  boot-Sets seed slot name ip instance_config services target healthy r r' h =
      started_machine-Sets slot (map service_of services) target
        (run_init_command expand run config.vulnbox.init_template config.socbox.init_template
          r.team)
        healthy r.team name
        (start_instance_from_config os sha256 wg dir vmm verbose build launch seed r.machines name
          ip instance_config)
        r'
        (λ g t made.
          start_instance_from_config-name os sha256 wg dir vmm verbose build launch seed r.machines
            g name ip instance_config t made)
        h

  boot_team-Sets :
      (seed : ℕ) (r r' : Running os)
      → boot_team os sha256 wg dir vmm verbose build launch expand run expand_url fetch config seed
          r
        ≡ ok (r', true)
      → Sets team_slot (codes "team_" ++ r.team.display_name) r.team r'
  unfolding boot_team
  boot_team-Sets seed r r' h =
      boot-Sets seed team_slot _ _ _ _ _
        (λ t.
          no_check config.vulnbox.health_check.kind
          || health_check config.vulnbox.health_check (expand_url t) fetch)
        r r' h

  boot_soc-Sets :
      (seed : ℕ) (r r' : Running os)
      → boot_soc os sha256 wg dir vmm verbose build launch expand run expand_url fetch config seed r
        ≡ ok (r', true)
      → Sets soc_slot (codes "team_" ++ r.team.display_name ++ codes "_soc") r.team r'
  unfolding boot_soc
  boot_soc-Sets seed r r' h = boot-Sets seed soc_slot _ _ _ _ _ (λ t. true) r r' h

  boot_bot-BotSets :
      (seed : ℕ) (r r' : Running os)
      → boot_bot os sha256 wg dir vmm verbose build launch expand run expand_url fetch config seed r
        ≡ ok (r', true)
      → BotSets config.vulnbox.bot.enabled r.team r'
  unfolding boot_bot BotSets
  boot_bot-BotSets seed r r' h = elim (Bool-cases config.vulnbox.bot.enabled) [
    | inl on ↦ inr (
        boot-Sets seed bot_slot (codes "team_" ++ r.team.display_name ++ codes "_bot")
          (bot_ip r.team) config.vulnbox.bot.instance_config config.vulnbox.services
          (bot_info r.team) (λ t. true) r r' (cc))
    | inr off ↦
        let same : ok (r, true) ≡ ok (r', true) = cc in
        inl (off, sym (ap (λ (x : Running os × Bool). x.0.team) (ok_injective same)))
  ]

  -- A team that was started has its machines.
  pub start_team-Booted :
      (s1 s2 s3 : ℕ) (r r' : Running os)
      → start_team os sha256 wg dir vmm verbose build launch expand run expand_url fetch config s1
          s2 s3 r
        ≡ ok (r', true)
      → Booted config.vulnbox.bot.enabled r.team r'.team
  unfolding start_team
  start_team-Booted s1 s2 s3 r r' h =
      let bot =
        boot_bot os sha256 wg dir vmm verbose build launch expand run expand_url fetch config s2 in
      let soc =
        boot_soc os sha256 wg dir vmm verbose build launch expand run expand_url fetch config s3 in
      let team =
        boot_team os sha256 wg dir vmm verbose build launch expand run expand_url fetch config s1
          r in
      let (r2, both, last) = after_it-ok (after_it team (λ x. bot x)) (λ x. soc x) r' h in
      let (r1, first, second) = after_it-ok team (λ x. bot x) r2 both in
      Sets-Booted config.vulnbox.bot.enabled r.team r1 r2 r' (boot_team-Sets s1 r r1 first)
        (boot_bot-BotSets s2 r1 r2 second) (boot_soc-Sets s3 r2 r' last)
