-- ===== src/Queue/Claims.antt =====
-- `claim_next` of src/cryptohawk/storage/queue.py: the selection of one candidate for each
-- workspace, the transaction that claims a candidate, and the loop over the candidates.
use crypto_hawk.Prelude.{
  ℕ, ◌+◌, Bool, true, false, not, ◌&&◌, ◌||◌, Option, none, some, List, [], ◌∷◌, Result, ok, err,
  value_error, runtime_error, Text, Table, lookup, modify, take, is_none, leb, ltb, ◌==◌,
  if◌then◌else◌,
}
use crypto_hawk.Store.{
  Db, ScanJobRecord, running, ScanQueueRecord, seconds, is_queued, owned_by, is_blank,
}
use crypto_hawk.Quotas.{acquire_scan_slot, release_scan_slot}

pub record Candidate : Type 0 where
  pub job_id : ℕ
  pub workspace_id : ℕ
  pub requested_at : ℕ

-- The conditions on a row of the queue.
unfoldable pub is_claimable : ℕ → ScanQueueRecord → Bool
is_claimable now q =
    is_none q.lease_owner
    && (not q.cancel_requested && (leb q.next_attempt_at now && ltb q.attempts q.max_attempts))

-- The rows of the queue, joined with their jobs, that satisfy all conditions.
unfoldable pub eligible : ℕ → Table ScanJobRecord → Table ScanQueueRecord → List Candidate
eligible now jobs [] = []
eligible now jobs ((id, q) ∷ rows) =
    let rest = eligible now jobs rows in
    elim (lookup id jobs) [
      | none ↦ rest
      | some job ↦
          if is_queued job.status && is_claimable now q
          then record {
            job_id = id;
            workspace_id = job.workspace_id;
            requested_at = job.requested_at;
          }
            ∷ rest
          else rest
    ]

-- `ORDER BY requested_at, job_id`
unfoldable pub precedes : Candidate → Candidate → Bool
precedes a b =
    ltb a.requested_at b.requested_at
    || ((a.requested_at == b.requested_at) && ltb a.job_id b.job_id)

-- `row_number() OVER (PARTITION BY workspace_id ...) = 1`
unfoldable pub is_first : Candidate → List Candidate → Bool
is_first a [] = true
is_first a (b ∷ rest) = not ((b.workspace_id == a.workspace_id) && precedes b a) && is_first a rest

unfoldable pub firsts : List Candidate → List Candidate → List Candidate
firsts all [] = []
firsts all (a ∷ rest) = if is_first a all then a ∷ firsts all rest else firsts all rest

unfoldable pub insert_candidate : Candidate → List Candidate → List Candidate
insert_candidate a [] = a ∷ []
insert_candidate a (b ∷ rest) = if precedes b a then b ∷ insert_candidate a rest else a ∷ b ∷ rest

unfoldable pub sort_candidates : List Candidate → List Candidate
sort_candidates [] = []
sort_candidates (a ∷ rest) = insert_candidate a (sort_candidates rest)

unfoldable pub candidates : ℕ → Db → List Candidate
candidates now db =
    let all = eligible now db.jobs db.queue in take 20 (sort_candidates (firsts all all))

unfoldable pub leased : Text → ℕ → ℕ → ScanQueueRecord → ScanQueueRecord
leased worker expires now q = record q {
  lease_owner = some worker;
  lease_expires_at = some expires;
  last_heartbeat_at = some now;
  attempts = q.attempts + 1;
}

unfoldable pub started : ℕ → ScanJobRecord → ScanJobRecord
started now job = record job { status = running; started_at = some now }

-- The transaction that claims a job: both updates, or none of them.
unfoldable pub claim : ℕ → Text → ℕ → ℕ → Db → Db × Bool
claim id worker expires now db = elim (lookup id db.queue) [
  | none ↦ (db, false)
  | some q ↦ elim (lookup id db.jobs) [
    | none ↦ (db, false)
    | some job ↦
        if is_claimable now q && is_queued job.status
        then (
          record db {
            queue = modify id (leased worker expires now) db.queue;
            jobs = modify id (started now) db.jobs;
          },
          true,
        )
        else (db, false)
  ]
]

pub record ScanLease : Type 0 where
  pub job_id : ℕ
  pub job : ScanJobRecord
  pub worker_id : Text
  pub attempt : ℕ
  pub max_attempts : ℕ
  pub lease_expires_at : ℕ

-- The checks of `_lease_from_job_id` on the two rows.
unfoldable pub lease_of_rows : ℕ → Text → ScanJobRecord → ScanQueueRecord → Result ScanLease
lease_of_rows id worker job q =
    if owned_by worker q.lease_owner
    then elim q.lease_expires_at [
      | none ↦ err runtime_error
      | some expires ↦ ok (record {
        job_id = id;
        job = job;
        worker_id = worker;
        attempt = q.attempts;
        max_attempts = q.max_attempts;
        lease_expires_at = expires;
      })
    ]
    else err runtime_error

unfoldable pub lease_from_job_id : ℕ → Text → Db → Result ScanLease
lease_from_job_id id worker db = elim (lookup id db.jobs) [
  | none ↦ err runtime_error
  | some job ↦ elim (lookup id db.queue) [
    | none ↦ err runtime_error
    | some q ↦ lease_of_rows id worker job q
  ]
]

-- The lease of a job that was just claimed.
unfoldable pub claimed : ℕ → Text → Db → Db × Result (Option ScanLease)
claimed id worker db =
    (db, elim (lease_from_job_id id worker db) [ ok lease ↦ ok (some lease) | err e ↦ err e ])

-- `_release_capacity`: nothing without a quota repository.
unfoldable pub release_capacity : Bool → ℕ → ℕ → Db → Db × Result (Unit {0})
release_capacity quota workspace now db =
    if quota then release_scan_slot workspace now db else (db, ok tt)

module _ (worker : Text) (expires now : ℕ) where
  -- The loop without a quota repository.
  unfoldable pub claim_unlimited : List Candidate → Db → Db × Result (Option ScanLease)
  claim_unlimited [] db = (db, ok none)
  claim_unlimited (c ∷ rest) db =
      let (db', success) = claim c.job_id worker expires now db in
      let next = claim_unlimited rest db' in if success then claimed c.job_id worker db' else next

  -- The loop with a quota repository: a slot first, which goes back if the claim fails.
  unfoldable pub claim_limited : ℕ → List Candidate → Db → Db × Result (Option ScanLease)
  claim_limited limit [] db = (db, ok none)
  claim_limited limit (c ∷ rest) db =
      let (slotted, granted) = acquire_scan_slot c.workspace_id limit now db in
      elim granted [
        | err e ↦ (slotted, err e)
        | ok false ↦ claim_limited limit rest slotted
        | ok true ↦
            let (db', success) = claim c.job_id worker expires now slotted in
            let (released, outcome) = release_scan_slot c.workspace_id now db' in
            elim success [
              | true ↦ claimed c.job_id worker db'
              | false ↦ elim outcome [
                | err e ↦ (released, err e)
                | ok u ↦ claim_limited limit rest released
              ]
            ]
      ]

-- Whether the arguments pass the checks of the method.
unfoldable pub claim_arguments_valid : Bool → Text → ℕ → Option ℕ → Bool
claim_arguments_valid quota worker lease_seconds limit =
    not (is_blank worker)
    && ((leb 5 lease_seconds && leb lease_seconds 3600)
        && elim limit [ none ↦ not quota | some n ↦ leb 1 n ])

-- `concurrency_limit or 1`
abbrev pub limit_or_one : Option ℕ → ℕ
limit_or_one none = 1
limit_or_one (some n) = n

unfoldable pub claim_next : Bool → Text → ℕ → Option ℕ → ℕ → Db → Db × Result (Option ScanLease)
claim_next quota worker lease_seconds limit now db =
    let expires = now + seconds lease_seconds in
    if claim_arguments_valid quota worker lease_seconds limit
    then if quota
      then claim_limited worker expires now (limit_or_one limit) (candidates now db) db
      else claim_unlimited worker expires now (candidates now db) db
    else (db, err value_error)
