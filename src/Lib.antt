-- ===== src/Lib.antt =====
-- Verification library of Saucepan, a network of telescopes. A task server assigns observations
-- to the nodes (piers) of volunteers, takes their uploads and plans ahead; a user server keeps
-- the accounts; and a pier may run the code of a researcher in a sandbox between two frames.
--
-- The parts and how they meet:
--   * The orchestrator claims a task for a node and writes a lease; the collector renews it from
--     telemetry; the reclaim sweep takes back what has lapsed; and the API server lets just the
--     nodes with an active assignment upload. They meet in the rows of tasks and
--     task_assignments.
--   * The orchestrator chooses the nodes: it filters the fleet by campaign, preferred sites and
--     standby roster, seats a cohort behind the best idle node, or else takes the single best
--     one, which may be busy with a less urgent task; a task near its end becomes more urgent.
--   * A researcher hands in a campaign as a pack; publishing it checks the pack and expands it into
--     tasks, which the orchestrator assigns while the campaign is active. The pack also says what
--     code runs on a pier and with which grants.
--   * The planner places the tasks of the planned lane on nodes ahead of time; the rosters rank
--     nodes for interrupts; the coverage planner chooses sites for continuous coverage.
--   * The user server rotates refresh sessions, and the API server limits the rate of logins.
--   * The pier agent fetches an artifact and hands it to the runner, which checks the kill
--     switch, the operator's consent and the hash, and lends the guest six host functions.
--
-- Files, with the code that each is about:
--   Common     lists, mappings, integers, sorting and texts, and float64 as an interface without
--              laws, so that theorems hold with rounding and NaN.
--   Assign     Lease: the lease policy of SaucepanServer/task-server/cmd/orchestrator/
--              orchestrator_reclaim.go (backoffWindow, taskInBackoff, decideReclaim). Store and
--              Reclaim: reclaimOne and reclaimExpiredLeases of the same file, as functions on
--              rows. Claim: the statements of orchestrator_assign.go (persistTaskAssignment,
--              insertCohortAssignment, clearTaskAssignment, releaseCohortAssignment),
--              renewTaskLease of cmd/collector/lease_renew.go and validateUploadAssignment of
--              cmd/apiserver/upload_assign.go. Once: assignOnce of orchestrator_assign.go, on the
--              functions of Claim; a Redis pipeline is applied as a whole or not at all.
--   Session    SaucepanServer/user-server/sessions.go, every statement of it.
--   RateLimit  SaucepanServer/task-server/cmd/apiserver/auth_rate_limit.go, with the backend in
--              memory.
--   Sky        shared/slew.go, safety_match.go, obstruction.go and psf.go of the task server.
--   Handoff    shared/handoff.go: urgencies, priorities, and the scan for the loss of a target.
--   Select     shared/selector.go (Gates, Preempt with plan_preempt.go, Best), shared/cohort/
--              cohort.go and scarcity.go (Vector), cohort_fill.go (Cohort); and in Ladder
--              selectAssignments and assignTask of cmd/orchestrator/orchestrator_assign.go.
--   Lanes      SaucepanServer/task-server/shared/lanes: Planner is BuildAgenda of planner.go,
--              Roster is RankStandby and PreferRoster of roster.go, Classify is lane.go.
--   Coverage   SaucepanServer/task-server/shared/coverage/plan.go: GreedyFill, EvaluateGates and
--              CircularLonSpanDeg.
--   Campaign   shared/campaign/pack.go of the task server: Check is its checks and Expand ExpandPack,
--              Grants what it sends to a pier with applyPierCodeFromPack of cmd/orchestrator/
--              orchestrator_pg.go. Publish: handleCreateCampaign, handlePublishCampaign,
--              handleAddCampaignTask and transitionCampaignStatus of cmd/apiserver/campaigns.go,
--              the inserts of campaigns_store.go, and maybeCompleteCampaign of budget.go. Life: any
--              sequence of these, with the second statement of a transition at any later time, and
--              with persistCampaignCoverage of cmd/apiserver/coverage.go in between.
--   Pier       Actions, Capture, Artifact and Address: shared/wire/piercode.go and
--              shared/pierjob/pierjob.go. Consent: shared/consent/consent.go. Host:
--              cmd/saucepan-runner/host.go. Runner: main.go and sandbox.go beside it.
--
-- How it is modelled:
--   * A transaction is a function on the rows that it reads and writes; the row locks of the code
--     make transactions one after the other. The rows of a table are a list, a Redis hash or a Go
--     map an association list. Where a query picks a row, the first that fits is it.
--   * Times are nanoseconds since the zero time, in ℕ; shifts and products of durations wrap at
--     int64 where the code can reach that. Ids of rows are numbers. Reads of a clock are arguments.
--   * What a service, a third-party package or the standard library decides (hashes, URL and JSON
--     parsing, the wasm runtime, the file system) is a parameter or an argument with every outcome.
--   * Loops are recursion on lists or on the number of rounds left, so none needs fuel, but for two
--     whose fuel is shown to be enough: the guest's loop over recv, and the scan for the loss of
--     a target, which has two rounds more than there are steps up to the search horizon.
--   * The functions of package math and the calendar fields of a time are parameters; integers
--     wrap at int64. Sorting is stable insertion, one of the orders that sort.Slice may give.
--
-- Not modelled: uploads, the handlers of handoffs and those that only read a campaign, and the other
-- HTTP handlers, which are glue around services; MQTT and Redis clients, metrics, device protocols, and the Python
-- services.
pub mod Assign
pub mod Campaign
pub mod Common
pub mod Coverage
pub mod Handoff
pub mod Lanes
pub mod Pier
pub mod RateLimit
pub mod Select
pub mod Session
pub mod Sky
