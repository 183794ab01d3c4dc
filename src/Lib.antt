-- ===== src/Lib.antt =====
-- A model of the Redis Sentinel reconciler and the theorems that make it safe.
--
-- The program asks each configured Sentinel which master it advertises, probes every Redis node it
-- hears of, takes the only writable master for the truth (the oracle), and, where a Sentinel
-- advertises another node, repairs that Sentinel with REMOVE and MONITOR when --apply is given.
--
-- Parts, and the code that each file is about:
--   Net               sameRedisEndpoint, resolveKey, endpointIPPort (internal/reconcile/reconcile.go)
--                     and the address functions of package net that they use
--   Oracle, Probe     internal/oracle/probe.go: ClassifyWritable; ProbeDial
--   Redisconn         internal/redisconn: dial.go, sni.go, tls.go
--   Commands          the commands that are sent, and the replies
--   Sentinel          internal/sentinel/client.go
--   HealPlan          internal/reconcile/heal_plan.go, failoverPromoteSafe
--   Epoch             internal/reconcile/epoch.go
--   Lease             internal/reconcile/lease.go
--   Metrics           internal/reconcile/metrics.go
--   Reconcile         internal/reconcile/reconcile.go: Config (the settings, New), Heal (healAPI,
--                     verifyHeal), Nodes and Tick (tick and Run), Safety;
--                     internal/reconcile/guards.go: Guards
--   Reconcile.Cooldown   the spacing of heal attempts by lastHeal and HealCooldown
--   EnvFile           cmd/reconciler/configfile.go: the config file, the choice of it, layerGetenv
--   EnvVars           cmd/reconciler/config.go: the settings that are read from the environment
--   Flags             the flags of parseConfig, multiFlag (cmd/reconciler/main.go), and FlagSet.Parse
--   Settings          cmd/reconciler/config.go: parseConfig and sentinelAddrFromOrdinal
--   Messages          cmd/reconciler/config.go: requiredAddrErr
--   Start             cmd/reconciler/main.go and version.go: main
--   Writer            cmd/writer/main.go: itoa, formatAddr, writeOnce, main
--   World             the state of a Reconciler (lastHeal, metrics), a journal of what was sent and
--                     alerted, and what the process touches, as operations on a world
--   Text, Text.Decimal   the functions of packages strings and strconv that the code uses
--   Prelude           numbers, lists and tests
--   Examples          a small deployment, and the theorems at it
--
-- A method is a function into M: from the state to a result and the next state. go-redis, the
-- clock, the host's name and the order of a ranged map are the operations of a record Env, which
-- answer as they like and from a state of their own; name resolution is taken to be stable while
-- the process runs. Text is a list of bytes, and letter case is that of ASCII. The Keeps lemmas of
-- the modules named Steady, Reads, Heals and Run say that a property that readings cannot change is
-- kept by a step when the commands of its heals keep it; Safety applies them.
--
-- The only fuel is that of Text.Decimal: a number is printed with as many rounds as its value and
-- one more, and each round divides it by ten. Run takes the waits that nextInterval draws before
-- the context is done as a list, so a run has as many ticks as that list has waits, and one more. The
-- writer takes the number of its ticks.
--
-- The settings come from the arguments, the environment and a config file: Settings chooses the file
-- (EnvFile), lays the environment over it, takes the defaults of the flags from there (EnvVars), and
-- parses the arguments (Flags). The flags are data types, one for each type of value, with a table of
-- names and defaults each; the FlagSet is a store for each. time.ParseDuration, strconv.ParseInt
-- and ParseFloat, and the reading of files are fields of a record Process. Start hands the config to
-- Run.
--
-- Not modelled: the text of usage and of the errors of the command line but requiredAddrErr, the value
-- of --interval-jitter and nextInterval (which work on a float64), the flags of the demo writer, the
-- log, the signals, the HTTP server of the metrics and its mutex, the closing of connections, and the
-- cancelling of a context inside a tick.
-- Times are natural numbers of nanoseconds and do not go back; a difference of times stops at 0.

pub mod Prelude
pub mod Text
pub mod Net
pub mod Oracle
pub mod Redisconn
pub mod Metrics
pub mod Commands
pub mod HealPlan
pub mod World
pub mod Sentinel
pub mod Probe
pub mod Epoch
pub mod Lease
pub mod Reconcile
pub mod EnvFile
pub mod Examples
pub mod EnvVars
pub mod Flags
pub mod Settings
pub mod Writer
pub mod Start
pub mod Messages
