-- ===== src/Lib.antt =====
-- phoneborg turns a set of phones into one inference cluster. Phones run a node agent that registers
-- with a controller, sends heartbeats and serves a language model; the controller keeps a registry
-- of the nodes and runs a gateway that routes requests to the ready ones.
--
-- Memplan models internal/memplan/memplan.go, which both the controller's planner and the agent use:
-- how much memory a model with a context and a cache type needs, and `Plan`, the search for a
-- configuration that fits. Fractions of a byte are exact here. The loop that halves the context
-- runs on fuel, the context itself, which is enough since every round makes it smaller.
--
-- Registry models controller/registry.go: the nodes by id, aliases and drained nodes, with one
-- function per method (`Register` is register, `Heartbeat` is heartbeat, `Sweep` is sweep, and so
-- on). Every method holds the lock of the registry from its start to its end, so a call is a step;
-- a history is a list of calls with the times they are made at. The callback of a state transition
-- is a log. Maps are association lists, times and durations are numbers.
--
-- Gateway models controller/gateway. Its children:
--   Backend: controller/gateway/picker.go, the backends and `LeastInflight`; `Spread` of
--     controller/gateway/targets.go has the same body.
--   Affinity: controller/gateway/picker.go, the policy that keeps a session on the node with its
--     prompt in cache.
--   Target: controller/gateway/targets.go, `Resolve` and the backends that a target allows.
--   Failover: controller/gateway/proxy.go, `serveTarget` and `candidates`. A routing policy enters by
--     an interface with its law, which Failover.Policies fills with the two policies. The cluster changes between attempts, so an attempt has
--     a view of its own, and the outcome of `forward` is a part of it.
--   Superborg: controller/gateway/superborg.go, the orchestrator and the workers of a pool, and
--     `fastestFree` of controller/gateway/jobs.go.
-- Loops over candidates are recursion on the list, the eviction of pins runs on fuel, the number of
-- pins, of which every round removes one; the loop of attempts counts down from `MaxAttempts`.
--
-- Jobs models controller/gateway/jobs.go, the long work that a model plans and workers write.
--   Jobs holds a job and its log, Names the document names (`docName`), Tools the orchestrator's
--   calls (`tool`), Life what users, the runner and the workers do, History the steps in any order,
--   Store the jobs in memory and on disk. The lock is held for a section of the code at a time, so
--   a section is a step; calls to models lie between steps, and what they answer is free.
--
-- Auth models controller/gateway/auth.go: Auth holds the key store (`StaticKeys`), Access who is
--   served by origin (`AccessControl`). The hash, random keys and the parsing of addresses are
--   arguments; a file is what it holds, and every write may fail.
--
-- Classes models controller/models/classes.go: device classes by memory.
--
-- Planner models controller/models/planner.go and the predictions of controller/models/perf.go: which
--   model each node should serve. Place is `DefaultPlanner.Plan`, with its warnings as data, and
--   Validate is `Validate`. It fits models with Memplan and Classes, as the code does. Measured floats
--   are numbers of a small unit, and what is computed from them is exact.
--
-- Fleet models `Backends` of controller/server.go: how the nodes of Registry become the backends of
--   Gateway.
--
-- Pools models controller/pools.go and `externalMembers` of controller/external.go: the validation of
--   pools (`normPool`), their conflicts, the handlers that set and delete them (Store), their members
--   and status (Members), and the resolver that Gateway.Target takes as a parameter (Target).
--
-- Placement models controller/placement.go: what the planner is given, the models that benchmarks force
--   onto nodes, replanning, and the answer to a heartbeat.
--
-- NodeAgent models node-agent/manager.go, node-agent/sizing.go and `evictLRU` of
--   node-agent/download.go (Evict): how a phone's agent switches its server
--   to the model that the controller orders (`reconcile`), backs off, falls back to the model before,
--   and joins and leaves a Big Brain pool (`enterRPC`, `leaveRPC`). What the phone answers is an
--   argument of each step; nothing loops, so there is no fuel.
--
-- Shared holds the libraries' names and the lemmas on lists, maps and texts.
--
-- Not modelled: HTTP and JSON, files, metrics, usage records and log lines, since they are input and
-- output; the prompts of jobs and the names of the documents that subtasks write; the rest
-- of the node agent (the transfer of files, the supervision of its server), the provisioner, the file of
-- the placement, the heads of Big Brain pools, and the command line client, which are parts of their own.
-- Numbers do not wrap around: what is int64 in the code is a sum or a product of file sizes, contexts
-- and times, taken to stay below 2^63. A failed write of a job's file, which the code only logs, is left
-- out, and so is the count of failures in a row, which a failed step is given. A tool call with its
-- record, for which the code takes the lock more than once, is one step.
pub mod Shared
pub mod Memplan
pub mod Registry
pub mod Gateway
pub mod Jobs
pub mod Auth
pub mod Classes
pub mod Planner
pub mod Fleet
pub mod Pools
pub mod Placement
pub mod NodeAgent
