-- ===== src/Lib.antt =====
-- Yokai deploys models on groups of devices. This library is about its grouped deployments
-- (internal/deployments), the recipes that they run (internal/bkc), the authorizations without which
-- a device does not start the most guarded of them (internal/launchauth), the agent on a device
-- (internal/agent), the recipes that others propose (internal/recipes), and the history of images and models (internal/config).
--
-- A client asks the daemon to create, start, test, stop or roll back a group of ranks, one container
-- per device. The engine keeps a journal of its steps in a store, acts on the devices through agents,
-- tears down what it launched when a step fails, restores what it stopped, and, after a restart of the
-- daemon, decides from the journal what an interrupted operation needs.
--
-- An agent makes and removes the containers. A launch of the pinned Qwen recipe needs a token that the
-- coordinator has signed for this very request; the agent checks it, and reserves its identifier in
-- a file before it starts anything. A launch under way is registered under its container's name, and a
-- removal waits for it.
--
-- The files and what they model:
--   Prelude and its children: numbers, lists, texts and tests that the rest shares.
--   Checks: chains of checks with Go's early returns.
--   Bkc/Qwen: the names of the Qwen recipe of internal/bkc/catalog_qwen38_dual.go.
--   LaunchAuth/Types, Authorization: internal/launchauth/authorization.go (NewClaims,
--     CandidateDigest, Sign, Verify). LaunchAuth/Replay: internal/launchauth/replay.go.
--     LaunchAuth/Clock: time.Time. LaunchAuth/Sample: one token for the tests.
--   Agent/Launch: internal/agent/launch_authorization.go, over a sequence of launches.
--   Agent/Barrier: internal/agent/deployment_launch.go (operationBarrierRegistry and
--     agentAdmissionLock); a critical section is a step.
--   Agent/LogTail: internal/agent/log_tail.go.
--   Agent/Containers: of internal/agent/docker.go and server.go, the container's name, its labels,
--     and cleanupFailedManagedRun.
--   Bkc/Types, Bkc/Catalog, Bkc/MultiDevice: internal/bkc/catalog.go (Config and its parts, LookupID)
--     and internal/bkc/multi_device.go (ValidateMultiDeviceRecipe and its helpers).
--   Recipes/Types, Validate, Store: of internal/recipes, the records of types.go, the checks of
--     validate.go and the store of store.go in memory, for recipes that agents and users propose.
--   Recipes/Handlers: the handlers of internal/daemon/agent_recipes.go, the gate of agent_swap.go, and
--     Fingerprint of types.go. Recipes/Trial: internal/daemon/agent_verify.go.
--   Config/History: the lists of internal/config/history.go.
--   Deployments/Types, Errors, Logs, Store: types.go, errors.go, logs.go and store.go of
--     internal/deployments.
--   Deployments/Env: the world of the engine. `Env` holds what the agents (Operations), the disk, the
--     clock, the timers, the hash and the path and address functions answer, each as a function of all
--     calls so far; `Sys` is the document of the store and the calls so far; a method of the engine is
--     a function `M A` from a `Sys` to its result and the next `Sys`.
--   Deployments/Members: the helpers on members of internal/deployments/engine.go.
--   Deployments/Engine and its children: the methods of Engine in internal/deployments/engine.go.
--     Journal (persistProgress and the actions around an effect), Request (normalizeRequest,
--     validateCreateRequest, requestHash), Candidate (buildCandidate), Create (CreateWithOutcome,
--     with children for the plan, the effects and a replay),
--     Readiness (waitReady), Stop (Stop, stopLocked, failStart), Start (Start, markUnsafeRunning),
--     Rollback (rollbackLocked, captureCandidateLogs), Recovery (Rollback, Reconcile, Test,
--     unsafeStateRecoveryFor, reconcileUnsafeStateLocked), Service (a run of requests).
--   Deployments/Safety and its children: when the engine may touch a container, for every operation.
--   Deployments/Outcome and its children: what the operations return, and what the calls that they
--     made show of it (Absence and Stop, each with a Round and a Loop).
--   Deployments/Tests: a group of two ranks and the theorems at it.
--
-- Correspondence: a method keeps its name in snake case; its loops and the tails of its body after an
-- effect are functions of their own, by clauses on the answer. A variable of Go that is assigned is a
-- value that is passed on; the object that `deployment.Rollback` and the local `result` share is the
-- field of the deployment. A method that returns an error with a deployment returns the pair.
-- Generations wrap as 64-bit integers do. Times are numbers of nanoseconds.
--
-- Packages that the agent calls (Ed25519, base64, hexadecimal, JSON, SHA-256) are the fields of `Codec`,
-- and what a disk answers to a reservation is the record `Disk`, with an error possible at every step.
-- Times of an authorization are Go's: signed seconds of 64 bits since year 1, where sums wrap or stop
-- as time.Unix and Add do, so that the product in the check of a lifetime wraps as in Go.
--
-- Bounds: the only loop of the engine with no structural bound is that of waitReady. The world gives
-- the number of intervals that pass before the readiness timer fires, which the loop recurs on; a
-- timer always fires, so each wait has such a number and the loop needs no other fuel.
--
-- Not modelled: the lock of the engine (a run is a sequence of requests, since each holds the lock),
-- the JSON form of the store, the atomic file write (its outcome is the world's answer), invalid UTF-8
-- in logs, whose bytes are characters here, the provenance that two recipes of the catalog pin (the
-- field `pinned` of the world), the data of the catalog, the key files of launchauth, the swap of a proposed recipe and its records of trials and swaps, the agent's
-- preflight, metrics and use of docker, the daemon's HTTP layer, the command line and the interfaces.
pub mod Agent
pub mod Bkc
pub mod Checks
pub mod Config
pub mod Deployments
pub mod LaunchAuth
pub mod Prelude
pub mod Recipes
