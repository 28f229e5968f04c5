-- ===== src/Lib.antt =====
-- Shipmunk runner: a daemon that claims queued coding attempts from a control plane, runs each in a
-- sandbox under a lease, publishes what came of it, and releases everything before the next claim.
-- Paths are from the repository's root.
--
-- The parts and their files:
--   Prelude      helpers: Boolean tests on the native ℕ, lists, byte strings, integers, results.
--   Json         JSON values as internal/protocol reads them, and a map's lookup and update.
--   Claim        `Claim` of internal/protocol/claim.go; Manifest is `claimFromValidatedManifest`.
--   Journal      internal/attemptstate/store.go: `State`, the record of the one attempt on disk; Valid
--                has `validateState`, Codec `stateFromObject`, `marshalState` and the checks of
--                `loadLocked` around them.
--   Supervisor   internal/supervisor. Calls has the calls of its interfaces and the error trees;
--                Action has the world and the actions: `World` is the trace of all calls so far with
--                the lease guard and the flag `blocked`, an `Action` takes a world to a result and a
--                world. Lease is lease.go, Recovery is `reconcile` and `cleanup`, Run is `RunOnce`,
--                `runClaim` and `publishExecution` of supervisor.go, Decode is `DecodeExecution` of
--                execution.go. Triples has pre- and
--                postconditions of actions; Held is about what may still run, Decoded about an accepted
--                execution, Journaled about the first state of a claim, Frames about the rest.
--   Archive      internal/workspace/tar.go: Header has the numbers, the checksum and the path of an
--                entry, Extension `paxAttributes`, Extract the loop of `Extract` and `decompress`.
--                Induction, Segments, Fuel, Below, Limits and Ends are about them.
--   Mediation    internal/codex/mediation.go: Requests has `decodeCommandRequest` and the types,
--                Encoding the JSON of a response, Handle the operation, History runs of frames.
--   Protocol     the strict JSON decoder of internal/protocol/protocol.go: Strings, Numbers and Lexemes
--                are the tokens of `encoding/json`, Escapes is `validateUnicodeEscapes`, Decode has
--                `decodeValue` and `decode`. Consumed, Shorter, Fuel and Document are about them.
--                Rational, Same, Schema, Rules and Contract are schema.go: numbers, `sameJSON`,
--                `validateSchema`, and `validateNode` in two files. Obeys and Validated are about it.
--   Codex        internal/codex/parser.go: Fields and Runes are the readers of one value, Failure
--                the classification of native failures, Usage, Evidence, Finding and Coverage the
--                parts of a result, Structured `dropNullMembers` and `parseResult`, Events and Stream
--                `Parse`.
--                Paths has `validRelativePath` with `path.Clean`. Relative, Sound, Accepted, Results,
--                Nulls, Mirror and the children of Stream are about them.
--                Review is the check of a result in internal/codex/review_evidence.go, and Patch the
--                changes of internal/codex/patch.go with `buildReviewEvidence`; the snapshots are
--                association lists, and git and SHA-256 an argument.
--   Sandbox      `Name` of internal/sandbox/docker.go; Reserved is about it. Input and Watch are
--                `RunWatchdogCommand` of watchdog.go, the process beside the supervisor, Control the
--                handle `Lease` on it, and Docker the removal of a container in docker.go with the
--                cleanup loop of watchdog.go. The children of Control are about the handle and the
--                process together, with the control channel between them; Kept, Guarded, Safe and
--                Cleaning about the loops.
--   Polling      the supervised loop of internal/command/runner_runtime.go.
--   Options      the validation of options in internal/command/options.go, with the URL parser as an
--                argument; Valid is about it.
--   Tests        runs at concrete inputs.
--
-- How the parts interact: the polling loop calls `run_once`. That reads the journal, ends the
-- attempt that it finds there, and then claims, prepares, runs, publishes and cleans up one attempt.
-- While the attempt runs, the lease guard renews its lease in a goroutine. Client, journal, sandbox,
-- watchdog, workspaces and executor are an environment `Env`: each answer may depend on the whole
-- trace of calls before it, so any server, any Docker and any interleaving of failures is one. The
-- journal on disk is what the saves and clears of a trace leave: a write that fails tells whether
-- the file was replaced.
--
-- Concurrency: the guard's mutex makes each of its operations one step. Between the calls of the
-- main goroutine `yield` runs as many rounds of the heartbeat loop as the environment says. A crash
-- is a prefix of a trace.
--
-- Fuel: `send_from` has as many rounds as there are events. Each round moves on by 100, and the
-- theorem on what it sends holds of the whole list, so that is enough. `records_from` has the
-- length of the payload and `extract_from` the length of the archive and one; a record takes four
-- bytes at least and an entry 512. `decode_value` has four times the length of the text and one: four
-- calls read a byte at least. `cleanup_rounds` has as many rounds as one looks at, since the source tries
-- again for as long as Docker does not answer. All else is structural.
--
-- The schema interpreter takes regular expressions and the parsing of a time as an argument, and its
-- errors have no text.
--
-- Not modelled: the run log and printed messages; contexts, except whether one is done; the
-- validation of a manifest and of a result by the supervisor, the sandbox's name and the workspace's
-- path, which are functions of its environment. The decoding of the sandbox's output is one too, and
-- Decode has it with the schemas, the JSON codec and SHA-256 as arguments. The mediator takes the JSON
-- decoder as an argument, since what is shown of it holds with any; the source's is `decode` of
-- Protocol.Decode, which the runs in Tests take. Each frame comes with the state of its context and the
-- executor's answer. The file system and the gzip reader of an extraction are an argument,
-- `makeDirectory` among their calls, and `unwrapGitHubSnapshot` is left out. The journal's codec takes
-- the two directions of the time format as arguments, and ends at the JSON value; the reading of a
-- manifest takes the parsing of a time. Snapshots are read from the disk and diffs made by git before
-- Patch begins. The reading of flags, the Codex executor with its transports and its review requests,
-- the session store, the profile lifecycle and the installer are not modelled, and of the sandbox neither
-- the creation, filling and reading of a container, nor the watchdog's arguments, its start and a Codex
-- run's volume. Docker is an argument, whose answers may depend on all calls before. Times are natural numbers. Fences and counts are signed integers; the increment of
-- a count wraps at 64 bits.
pub mod Prelude
pub mod Json
pub mod Claim
pub mod Journal
pub mod Supervisor
pub mod Archive
pub mod Mediation
pub mod Protocol
pub mod Codex
pub mod Sandbox
pub mod Polling
pub mod Options
mod Tests
