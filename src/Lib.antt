-- ===== src/Lib.antt =====
-- GreenShift: a carbon-aware scheduler of batch workloads. A submitted job is scheduled into an
-- hour in which it costs least carbon (or money, as the policy of its company says), approved,
-- dispatched to Kubernetes, and every step is recorded in a tamper-evident audit ledger.
--
-- Parts and files. A function keeps its name; a leading underscore is dropped.
-- - Policy: app/decide/optimization_policy.py. Validation of the carbon tolerance, and the ranking
--   of feasible candidates under the three policies.
-- - Cluster: app/dispatch/k8s_state_collector.py. Node states, the cluster snapshot, and whether a
--   workload fits. `node_can_fit` is NodeState.can_fit.
-- - Slots: app/decide/slot_capacity.py. The registry of one-hour slots and their capacity, as an
--   association list that each operation returns changed. `slot_can_fit` and `slot_allocate` are
--   the methods of SlotCapacity, `can_fit` and `allocate` those of SlotCapacityRegistry.
-- - Schedule: app/decide/scheduler.py. Candidate start times (`generate_candidate_slots`), their
--   evaluation against the hard constraints with the cluster snapshot of Cluster (`evaluate`), and
--   the choice of the best of them by the ranking of Policy (`execute_schedule_job`).
-- - Ledger: app/trust/ledger.py and the table audit_events of app/shared/models.py. `append_event`
--   with its retries under concurrent writers, and `verify_chain` with all its checks.
-- - Approval: app/approval/service.py. Permission, `approve_schedule`, `decline_schedule` and
--   `resubmit_workload` on a store of jobs, schedule decisions and approvals; what the first two
--   share is `decide_schedule`, which reads one store and writes to a later one.
-- - Dispatch: app/dispatch. Dispatch.antt has the jobs and app/dispatch/job_claimer.py (the claim, the
--   recovery of expired claims, the promotion), Dispatch/Dispatcher app/dispatch/dispatcher.py with
--   the answers of Kubernetes as an argument, Dispatch/Refresh its refresh of a status, and
--   Dispatch/Tick one tick of the loop of app/dispatch/service.py. Dispatch/Required says what a
--   dispatch requires, Dispatch/Lifecycle has the steps
--   of all workers and users in any order as a relation, and Dispatch/Cancel `cancel_workload` of
--   app/api/routers/ingest.py.
-- - Contention: app/decide/batch_scheduler.py. The order of urgency and the evaluation of slots
--   (Contention.antt), the choice among them by the ranking of Policy and the registry of Slots
--   (Contention/Choosing), and the loop over the jobs (Contention/Batch), with the policy of each
--   job's company from Settings. `schedule_one` is one round of the loop of schedule_batch, for
--   a job of a supported region.
-- - Decide: app/decide/service.py. `schedule_and_store` runs Schedule with the policy from Settings
--   and stores the decision; `process_pending_jobs` is a pass over the jobs that await a schedule.
-- - Companies: app/companies/service.py. The tables with their constraints (Companies.antt), the ids
--   and user names that are generated (Companies/Naming), `register_company`
--   (Companies/Registration), the users and teams of a company (Companies/Members) and its profile
--   (Companies/Profile). Companies/Lifecycle has the requests in any order as a relation.
-- - Notify: app/notify/service.py. Notifications, the preferences that gate e-mails, and reading.
--   Notify/Approvers joins it with the permission of Approval, for those who are asked to review.
-- - Settings: app/settings/optimization_policy_service.py, with the guards of
--   app/companies/service.py. The table of policies, how one is changed, shown and resolved.
-- - Access: app/api/tenant_scope.py, app/trust/authz.py and the role tests of app/shared/auth.py.
--   `get_tenant_job` is get_tenant_jobs with a job id, `is_listed` the filters of the query without,
--   and `in_audit_scope` scope_audit_events_query as a test of one event.
-- - Accounts: app/shared/auth.py, app/api/routers/auth.py and app/api/routers/admin_router.py. The
--   tables of users, companies and API keys (Accounts.antt), the logins and the tokens
--   (Accounts/Login), the identity of a request (Accounts/Identities), the endpoints that change the
--   tables (Accounts/Administration) and that list them (Accounts/Listing), and a request with its
--   credentials (`serve` in Accounts/Requests). Accounts/Answers describes the answers to a token by
--   the user's row, Accounts/Reach what a request may change.
-- - Ledger/Anchor: app/trust/anchor.py. The root hash and the check of a historical anchor.
-- - RateLimit: app/api/rate_limit.py. The sliding window of each client, `check` and `reset`.
-- - Prelude: Boolean tests, lists over native numbers, Python's stable sort, `min`, dictionaries and
--   exceptions as values.
--
-- Numbers. Carbon, money, energy, cores and MiB are numbers of nano units, so the source's floats
-- are read as exact decimals, and a product is rounded down to a nano unit; a difference stops at 0.
-- Times are microseconds in UTC, and whole seconds in Accounts. Texts that are cut, compared or
-- hashed are lists of code points.
--
-- Bounds. The loop over candidate slots runs on as many rounds as there are hours up to the latest
-- start, and one more, and it is proved that no full hour is lost. The retry loop of the ledger
-- runs on the list of its attempts, one entry for each of max_retries. The search for a user name
-- runs on as many numbers as there are users, and it is proved that one of them is free; that for
-- a company's id runs on the random texts that are given.
--
-- Dispatch. The tables are keyed by the job's id; that ids are unique is a hypothesis where it is
-- needed. A commit that violates a unique constraint is not rolled back, so the session cannot be
-- used any more and the tick ends. The rows that other workers' transactions lock are an argument.
--
-- Parameters. SHA-256 and the JSON printer and parser are arguments of the ledger's definitions.
-- The signing of tokens, bcrypt and SHA-256 are arguments of those of Accounts. Assumed where it is
-- said: a token is read back until it expires and refused from then on; digests are equally long,
-- and what the printer wrote of a payload is read back as that payload. The clock, identifiers, the
-- telemetry and the forecaster's model are inputs.
--
-- Not modelled: texts, explanations and impact figures; logging, metrics and waiting; audit
-- records and notifications of a decision and of a dispatch; the hint of a node and pods of
-- Kubernetes; the anchor file; the other routers of the API, the dashboard,
-- ingest, analytics, the simulator and scripts, which are glue, user interface or experiments.
pub mod Access
pub mod Accounts
pub mod Approval
pub mod Cluster
pub mod Companies
pub mod Contention
pub mod Decide
pub mod Dispatch
pub mod Ledger
pub mod Notify
pub mod Policy
pub mod Prelude
pub mod RateLimit
pub mod Schedule
pub mod Settings
pub mod Slots
