-- ===== src/Lib.antt =====
-- ExactSurface scans the attack surface of domains that their owners have verified. This library
-- models the parts that decide what may be scanned, how fast, when, and who may ask for it, and
-- what becomes of the results. Paths are those of the repository.
--
-- The parts and their files:
--
-- Scope.Address, Scope.Host, Scope.Engine model core/scope.py: an address and a network are numbers
-- of a version, a host name is the list of its code points, and `classify_ip` and `evaluate` take
-- the rounds of the loop over the addresses as values (`Round`, `Scan`), the ValueError among them.
-- `Parsers` is a parameter for Python's ipaddress, whose tables differ between releases, and
-- `str.lower` one of Playground. What the verdicts grant and deny is in Scope.Rounds, Scope.Grants
-- and Scope.Denial. Scope.Confirm models `confirm_ip_scope` and how pipelines/orchestrate.py makes
-- a scope of a program and of its authorization; Scope.Confirm.Ownership and Scope.Confirm.Chain
-- follow a range from the request to the verdict.
--
-- Rate models core/ratelimit.py: `refill`, `spend` and `take` are the bucket, Rate.Shared the Redis
-- script, Rate.Degrading the store that falls back to a local bucket, Rate.Limiter the waiting, and
-- Rate.Subprocess the rates handed to tools. The floats are exact fixed point: microseconds, and
-- millionths of a token; the local buckets of Rate.Degrading count in shares of them, so that the
-- division by the size of the fleet is exact, and elsewhere a quotient is rounded down.
--
-- Modules models core/modules.py: Modules.Registry holds the table, Modules the resolution of a
-- choice; Modules.Closure and Modules.Choice prove what it answers, Modules.Spine is about the
-- essential modules.
--
-- Taskqueue.Cadence, Taskqueue.Timeouts and Taskqueue.Scheduler model the files of taskqueue with
-- these names and taskqueue/jobs.py. A tick reads the database through the record `World`, and the
-- loops over programs and pipelines pass the plan on.
--
-- Access models core/permissions.py, Access.Principal the resolution of the caller and the guards
-- of api/deps.py over a parameter for the repositories; Access.Narrowing and Access.Guards prove
-- what they let through.
--
-- Repository models db/base.py and db/findings.py over any collection that updates as MongoDB
-- documents it (Repository.Documents); a document is a function from fields to values. Lifecycle
-- models core/lifecycle.py, Severity core/severity.py and Liveness core/liveness.py.
--
-- Pipeline models pipelines/orchestrate.py: `run_full_pipeline` with the loop over its stages, in
-- Pipeline.Heartbeat the wait for one stage, and in Pipeline.Program `run_program`, with
-- `run_pipeline` of pipelines/dispatch.py. How a stage ends is an argument. Pipeline.Endings,
-- Pipeline.Settled and Pipeline.Gated are about the stored runs, Pipeline.Program.Authority about
-- what must be there before anything runs.
--
-- Playground models core/playground.py, in Playground.Order its sort, and pipelines/playground.py
-- in Playground.Targets (the names of a Target node) and Playground.Run (the run of a canvas over
-- any type of values). Playground.Counting, Playground.Waiting, Playground.Topological,
-- Playground.Built and Playground.Ordered lead to Playground.Acyclic; Playground.Wiring leads to
-- Playground.Ready; Playground.Run.Wired, Playground.Run.Follows, Playground.Run.Ends,
-- Playground.Run.Rounds and Playground.Run.Visits lead to Playground.Run.Total, and
-- Playground.Run.Freeform to Playground.Run.Waived.
--
-- Correlator models modules/intelligence/correlator.py: Correlator.Counted is about the counts of a
-- host, Correlator.Ranked and Correlator.Live about the report. Netguard models core/netguard.py
-- and modules/safe_http.py, Taskqueue.Cascade models taskqueue/cascade.py, Signals models
-- core/signal.py, and Deltas models modules/intelligence/delta_monitor.py.
--
-- Prelude holds what these share: tests on numbers, lists, equality by instances and Python's dict
-- as an association list. Examples applies the theorems to concrete inputs.
--
-- The scheduler reads the scope's authorization, the modules and the cadence; the scope engine
-- reads what Scope.Confirm has recorded; a full run resolves the modules, confirms the ranges and
-- makes the scope before its first stage; a canvas runs its nodes by the routes of the phases; the
-- repository stores the states of Lifecycle.
--
-- Bounds and fuel: `acquire` runs on one unit of fuel more than the microseconds of `max_wait`,
-- each round waiting at least one, and `acquire_total` shows that it returns; the settling of a
-- module choice runs on one unit more than the number of enabled modules, each round dropping one,
-- and `resolve-IsAnswer` shows that it answers. The wait for a stage runs on one unit more than its
-- budget in seconds, each round waiting at least one, and `run_stage_with_heartbeat-Ends` shows
-- that it ends; the sort of a canvas runs on one unit more than its nodes, each round placing one,
-- and `check_order-Sorted` shows that it answers. All other loops are structural.
--
-- Not modelled: the work of the stages of a scan and the tools that they run, the queue and its
-- worker, the catalogue of the playground, the alert policy, the routes of the API, and the
-- frontend. Time that passes between two database reads of a tick is not modelled either.
pub mod Prelude
pub mod Severity
pub mod Lifecycle
pub mod Scope
pub mod Rate
pub mod Modules
pub mod Taskqueue
pub mod Access
pub mod Repository
pub mod Liveness
pub mod Pipeline
pub mod Playground
pub mod Correlator
pub mod Netguard
pub mod Signals
pub mod Deltas
pub mod Examples
