-- ===== src/Lib.antt =====
-- MemoRepo groups repositories into spaces, captures immutable snapshots of them and serves code
-- intelligence to agents. This library models the parts of it that carry its own logic and proves
-- what makes them correct.
--
-- The program's parts, and the files that model them:
--
--   EventBus: `DashboardEventBus` of apps/api/src/services/dashboardEventBus.ts, which collects
--   invalidations for 25 ms and hands them to its listeners. The record `Bus` holds its fields and,
--   in `delivered`, the calls of the listeners; `publish`, `subscribe`, `unsubscribe`, `close` and
--   `flush` are its methods. The timer is the flag `flush_timer`, and `flush` is what it runs.
--
--   Jobs: `JobRunner` of apps/api/src/services/jobRunner.ts, the queue of durable jobs that every
--   service submits to. Jobs/Store has the tables and the constraints of db/schema.ts, Jobs/Runner
--   the fields of the class, Jobs/Message the texts of events, Jobs/Events the writing of events
--   (buffered log events included), Jobs/Tick the scheduler and the run of a job, Jobs/Enqueue and
--   Jobs/Coalesce the two ways to submit a job, Jobs/Control the rest of the interface (retry,
--   cancel, recovery, start, stop, transactions). Jobs/Reach has the runs: any sequence of those
--   operations, of timers and of handlers that settle. Jobs/Table and the `Moves` modules say how
--   each operation changes the rows of the table `jobs`, which is where the invariants are proved.
--
--   Json: the JSON values of payloads and the canonical text that `stableJsonStringify` makes.
--
--   Agent: `AgentRuntime` of packages/agent-runtime/src/agentRuntime.ts, which keeps the active
--   agent runs, their sessions and the state of the provider's authentication (Agent/Runtime), the
--   limits of a run (Agent/Limits) and the course of one run up to its terminal event (Agent/Course).
--
--   Coverage: apps/api/src/services/snapshotIndexCoverage.ts, which tells how much of a snapshot's
--   source its index covers. Coverage/Paths has the paths, Coverage/Rows the counts by extension,
--   Coverage/Inventory what is read of a repository, and Coverage/Project the coverage of a project and
--   of a snapshot. What Node and its locale data give is
--   the record `Locale`; what the check of the source on the disk finds is the record `Verification`. A
--   ratio is kept as the fraction that the source prints with six digits.
--
--   SignIn: `GitHubOAuthService` of apps/api/src/services/githubOAuthService.ts, the sign-in at GitHub by a
--   device code. SignIn/Answers reads GitHub's answers, SignIn/Flow and SignIn/Poll have the
--   methods over a store of attempts, each cut at its waits, and SignIn/Runs the runs: any order of calls
--   and of answers. The credential that is stored is the row of
--   apps/api/src/services/githubCredentialStore.ts, and `Credential` is the cipher of that file, which puts
--   the token into an envelope of four parts; AES-GCM, base64url and UTF-8 are its record `Crypto`.
--
--   Spaces: `SpaceService` of apps/api/src/services/spaceService.ts. Spaces/Gate is the lock between the
--   readers of a space and its deletion, over a store of its state objects, with the runs in
--   Spaces/Gate/Runs. Spaces/Store has the tables, Spaces/Deletion the deletion of a space's rows, each
--   statement with the checks of the foreign keys, and
--   Spaces/Repositories and Spaces/Reconcile the repositories of a space, and Spaces/Creation how a space
--   is made and renamed. Its loop over slugs has a hundred rounds, as the source's.
--
--   Domain: helpers of apps/api/src/domain. Domain/Slug has `slugify` and `repoPathName`, Domain/Locator
--   `parseGitHubRepositoryLocator`, and Domain/Sanitize `sanitizePublicMessage`.
--
--   ToolStats: apps/api/src/services/mcpToolStats.ts, the figures that the gateway keeps of its tools.
--
--   Evidence: apps/api/src/services/cbmEvidence.ts, of which `compactCbmValue` and
--   `partitionTraceEdges` are modelled.
--
-- Prelude and Text hold what these share: Boolean tests, lists, association lists and texts over the
-- native numbers and strings. A JavaScript `Map` or `Set` is a list in insertion order.
--
-- Each method is a function on the state. A method that waits for something (`run`, `flush`) is cut at
-- the wait: `start_run` and `finish_run` are the parts of `run` before and behind the handler's
-- promise, and `settle` is its `finally` callback. What Node gives (identifiers, the clock, digests, what `JSON.parse` makes of a stored payload)
-- is the record `Env`, read at the count `draws`.
--
-- The loop `while (activeJobs < concurrency)` of `tick` recurs on `concurrency - activeJobs`, which each
-- round takes one from. The `while` loop of `replaceCaseInsensitive` runs on fuel, one more than the message
-- is long, which is enough since each round leaves less of the message to search. No other definition has a
-- bound of its own.
--
-- Not modelled: the reads that only format rows for routes, the HTTP routes, the MCP gateway, the
-- snapshot, operations, maintenance and agent services, the requests to GitHub, the key file of the
-- cipher, the file of the journal of a deletion and the clean-up behind it, the provider adapter, and the web and landing
-- sites. What the platform's `toLowerCase`, `localeCompare`, URL parser and paths answer is an argument.
-- The interval of a `slow_down` answer is a whole number of seconds, as GitHub documents it; the source
-- takes the field as it comes. A failed insert of a job event, which the database refuses only for a missing job, is not modelled.
pub mod Credential
pub mod Spaces
pub mod SignIn
pub mod Domain
pub mod ToolStats
pub mod Evidence
pub mod Coverage
pub mod Agent
pub mod Prelude
pub mod Text
pub mod Json
pub mod EventBus
pub mod Jobs
