-- ===== src/Lib.antt =====
-- The attack/defense game server: teams steal flags from each other's services and are scored tick
-- by tick.
--
-- The program (Go, cmd/ad and pkg) is one process. `AttackDefenseGame` (cmd/ad/game.go) holds the
-- teams, the configuration and the scoreboard; its clock starts the ticks, in each of which the
-- scorebot checks every service and puts a new flag into it; teams submit the flags that they have
-- stolen. Every virtual machine and device is an instance of the flow router (cmd/ad/flow.go), which
-- decides by tags which connection between instances is let through. Two web servers show the
-- state of the game, with pages built from the fragments of pkg/htm.
--
-- Which file models which part:
-- - Common and its children: what the program uses of Go itself. Int has integers with the wrap
--   around of 64 bits, Text strings as bytes with the functions of package strings, Decimal `Itoa` and
--   `Atoi`, Base64 the unpadded URL encoding and hexadecimal digits, Dict maps as association lists,
--   Outcome calls that may panic, Progress calls that may also fail or wait for ever.
-- - Flag: cmd/ad/crypto.go. `FlagGenerator.Generate` is `generate`, `FlagGenerator.Verify` is `verify`,
--   and the function `Verify` is `verify_text`.
-- - Tags: cmd/ad/common.go, the tag lists, and `ParseTag` of cmd/ad/flow.go.
-- - Flow: cmd/ad/flow.go, the rules and their text. Flow.Router is its router: `handleConnection` is
--   `handle_connection`, `HandleConn` is `handle_conn`, `DialContext` is `dial_context`. What the router
--   asks of instances and services through their interfaces is a record here.
-- - Net: addresses, `net.SplitHostPort` and the constants of cmd/ad/common.go.
-- - Config: the data of cmd/ad/config.go and the numbers of ticks.
-- - Team: ids and addresses, cmd/ad/team.go; Team.Running is the start of a team's machines,
--   Team.Commands their init commands, the commands of bots and their stop, Team.Lookup
--   `instanceFromName` of cmd/ad/game.go.
-- - Score: `summarizeState` of cmd/ad/game.go with all it calls: `accumulate` is its first loop and
--   `rank` the rest.
-- - Game: `submitFlag` of cmd/ad/game.go. The mutex makes a submission one step.
-- - Tick: `updateScoreboard`, `Tick` and the waiting form of `ForAllTeams` of cmd/ad/game.go. `Tick` is
--   `begin_tick` and then `note_answers` with the answers of the scorebot in the order in which they
--   come; Tick.Recorded has the steps of a game as a relation, and Score.Held and
--   Score.Summed what the summaries keep of a flag, for Tick.Taken. Tick.Clock is `Start`: whatever happens
--   while its loop runs, as a list in the order in which the locks let it happen, and the last update.
-- - Htm: pkg/htm/htm.go, fragments and their rendering. Its children are the elements and forms of
--   pkg/htm/html, the attributes of pkg/htm/htmx and the components of pkg/htm/bootstrap.
-- - Pages: the layouts and pages of cmd/ad/public.go and cmd/ad/private.go. `renderScoreboard` is
--   Pages.Scoreboard.
-- - Api: what the JSON handlers of cmd/ad/private.go answer, and the flag submission over HTTP.
-- - Persist: cmd/ad/persist.go, with the functions of package filepath that it calls.
-- - Wireguard: cmd/ad/wireguard.go. `AddEndpoint`, `AddDevice` and `RestoreDevice` are in Configs.
-- - Device: cmd/ad/device.go with `createDevice`, `AddDevice` and the loading of devices of
--   cmd/ad/game.go; it works on the flow router, the WireGuard router and the database.
-- - Instance: cmd/ad/tinyrange.go and the templates of cmd/ad/game.go; `StartInstanceFromConfig` is in
--   Instance.Machines, and what goes over SSH and the web socket in Instance.Remote: `clientConfig` is
--   `client_config`. An instance that the code changes through a pointer is replaced wherever the
--   pointer is held.
-- - Scorebot: cmd/ad/scorebot.go, with package template, package json and commands as parameters.
-- - Services: cmd/ad/services.go, the services of the host, and `teamFromTag` of cmd/ad/game.go.
-- - Proxy: pkg/common/proxy.go as a step relation; a broker is where its goroutine stands.
-- - Ssh: `startSshServer` of cmd/ad/game.go, the answers to the channels that a client opens.
-- - Public: `startPublicServer` of cmd/ad/public.go: every handler is a clause of `answer_request`.
-- - Private: `registerPrivateServer` of cmd/ad/private.go, and the web service of cmd/ad/services.go
--   that passes connections on to it.
-- - Run: `Run` of cmd/ad/game.go. Its steps are in Run.Steps, and the events that it registers, with
--   `RunEvent`, in Run.Events. It uses Tick.Clock for the game itself.
-- - Entry: `appMain` of cmd/ad/main.go, from the options to the game that is run.
-- - Tests: concrete inputs, and the theorems on them.
--
-- Parameters. `Crypto` has Ed25519 and SHA-256 as functions, with the laws that signatures and keys are
-- bytes and that a signature verifies under its key's public half. `Float` has the operations of
-- float64 without any law. `SortFunc` is `slices.SortFunc`, a permutation that is in order where the
-- comparison has the sign of a key. `html.Render` of golang.org/x/net is a function to bytes. What a
-- dynamic fragment's handler returns, the random ids of form fields and the answers of the scorebot
-- are inputs. `Disk` is the file system, whose writes change no other file, `Codec` the JSON form of
-- a value, without any law: a theorem that needs a value to be read back says so of that value.
-- `Wireguard` are the tunnels of github.com/tinyrange/wireguard, without any law.
--
-- Bounds. Strings are lists of bytes. Team ids are natural numbers, the other ints are integers; where
-- an int can overflow in the code the wrap around is written out, and counters of checks and list
-- lengths are taken as unbounded. Maps are listed in some order, and a `range` over a map takes that
-- order. All loops are by recursion on their data; no definition needs fuel. The time
-- scale of the clock is taken as 1.
--
-- Order. `Run` starts the teams side by side; here they are started one after the other. A request to a
-- server, an event and a submission are one step each.
--
-- Not modelled: the goroutines of events in the background, whose errors are only logged; the stops
-- that `Run` defers, and its wait after the game; the durations of timers; the set-up of a terminal's
-- session; the in-memory pipes between the router and the host's services; and the choice of a handler
-- by package http, SSH's own protocol, the YAML and JSON forms and logging, which are libraries.
pub mod Common
pub mod Flag
pub mod Tags
pub mod Flow
pub mod Net
pub mod Config
pub mod Score
pub mod Team
pub mod Game
pub mod Tick
pub mod Htm
pub mod Pages
pub mod Api
pub mod Persist
pub mod Wireguard
pub mod Device
pub mod Instance
pub mod Scorebot
pub mod Services
pub mod Proxy
pub mod Ssh
pub mod Public
pub mod Run
pub mod Entry
pub mod Private
pub mod Tests
