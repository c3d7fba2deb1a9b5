-- ===== src/Lib.antt =====
-- CryptoHawk: the core of its Python package, src/cryptohawk.
--
-- Scanners find uses of cryptography. The risk engine scores each observation with the help of the
-- knowledge base, and the policy evaluator lays the organization's baseline over the finding. Scans
-- are jobs in a durable queue: a worker takes a slot of the job's workspace, claims the job under a
-- lease, keeps the lease by heartbeats and ends the job; the recovery takes jobs from workers whose
-- lease has expired. A scan that succeeds is compared with the states that the scans before it
-- left, and what has changed is reported as events. A finding becomes migration work, which a later
-- scan verifies. Users reach workspaces by sessions, and programs by API keys. A sweep deletes old
-- history that nothing needs.
--
--   Prelude       Boolean tests, lists, texts, tables and results
--   Domain        src/cryptohawk/domain/models.py and domain/policy.py: the records
--   Knowledge     src/cryptohawk/knowledge/algorithms.py: PROFILES, ALIASES, normalize_family,
--                 get_profile
--   Risk          src/cryptohawk/risk/engine.py: RiskEngine.assess, a rule for each branch
--   Policy        src/cryptohawk/risk/policy.py: CryptoPolicyEvaluator.apply, a rule for each block;
--                 Demands describes each control by itself
--   Store         the tables of storage/inventory.py, storage/queue.py and storage/quotas.py
--   Quotas        src/cryptohawk/storage/quotas.py: Slots has acquire_scan_slot and
--                 release_scan_slot, Limits has consume and prune_rate_limits
--   Queue         src/cryptohawk/storage/queue.py: Claims has claim_next, Leases the operations on a
--                 claimed job and the recovery, Enqueue has enqueue and the scan jobs of
--                 storage/inventory.py; Reads has the transactions that write what they read
--                 before, Steps the transactions of all of them as one relation
--   Remediation   src/cryptohawk/storage/remediation.py: Items has create_from_finding, Update has
--                 update_item, Verify has verify; Works has any sequence of them
--   Continuous    src/cryptohawk/storage/continuous.py: Schedules has the schedules, Fingerprints
--                 what a finding is compared by, Events and Drift record_successful_scan
--   Packs         src/cryptohawk/storage/policy.py: Builtins has ensure_builtins, Versions has
--                 create_pack, create_version, activate and effective_policy
--   Retention     src/cryptohawk/storage/retention.py: Protected has the jobs that a sweep keeps,
--                 Sweep prune_workspace_history
--   Network       src/cryptohawk/security/network.py: resolve_target
--   Auth          src/cryptohawk/storage/auth.py and domain/auth.py: Sessions has login,
--                 create_session, revoke_session and authenticate, Members has
--                 authorize_workspace, create_workspace, provision_member and bootstrap, Keys the
--                 API keys; Calls has any sequence of them
--   Examples      runs at concrete inputs
--
-- Operations have the names of the code. An identifier is a number, in the order of numbers; a text
-- is the list of its code points, a time counts microseconds and a confidence millionths. Case is
-- changed in ASCII. The text of a message or of a reason is a constructor with the values that the
-- code puts into it. A table is an association list from its primary key; a query with ORDER BY is
-- a sort. An exception is an `err` with its class, and the tables that go with it are those that
-- the code has committed by then. Where the code runs several transactions in one call, the
-- function runs them in order, and Queue/Steps lets those of other calls come between any two of
-- them. recover_expired_leases and request_cancel read rows and write them later by their keys,
-- without a lock; in Queue/Steps other transactions may come between as long as they leave the rows
-- of the job as they were read, which is more than the code ensures, and Queue/Races has a run
-- where they do not. A scan in a request (services/scan_jobs.py) is there by its transactions on a
-- job without a row of the queue. The loop of advance_schedule runs on fuel, one unit for each microsecond up to now, which
-- is enough for an interval that is not 0; every other loop of the code runs over a list.
--
-- Not modelled: the branches for a row that another process inserts at the same moment
-- (IntegrityError), since the database decides them; queries that only list rows; the
-- reconciliation of slots, credentials, repositories and audit; the purge of a workspace, and what
-- the database deletes by cascade; the scanners, the services, the API and the command line, which
-- are mostly libraries, sockets and processes. Digests, password hashes and random tokens are
-- arguments.
pub mod Prelude
pub mod Domain
pub mod Knowledge
pub mod Risk
pub mod Network
pub mod Policy
pub mod Packs
pub mod Store
pub mod Quotas
pub mod Queue
pub mod Remediation
pub mod Retention
pub mod Auth
pub mod Continuous
pub mod Examples
