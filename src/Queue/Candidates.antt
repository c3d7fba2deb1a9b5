-- ===== src/Queue/Candidates.antt =====
-- The workspace of a candidate in `claim_next` of src/cryptohawk/storage/queue.py.
use crypto_hawk.Prelude.{
  ℕ, suc, zero, ◌≡◌, refl, ◌&&◌, Option, none, some, List, [], ◌∷◌, All, take, Table, lookup,
  Bool-cases, Option-cases, inl, inr,
}
use crypto_hawk.Store.{Db, ScanJobRecord, ScanQueueRecord, is_queued}
use crypto_hawk.Queue.Claims.{
  Candidate, is_claimable, eligible, precedes, is_first, firsts, insert_candidate, sort_candidates,
  candidates,
}

abbrev pub OfWorkspace : ℕ → Option ScanJobRecord → Type 0
OfWorkspace w none = Unit {0}
OfWorkspace w (some job) = job.workspace_id ≡ w

abbrev pub Belongs : Table ScanJobRecord → Candidate → Type 0
Belongs jobs c = OfWorkspace c.workspace_id (lookup c.job_id jobs)

eligible-Belongs :
    (now : ℕ) (jobs : Table ScanJobRecord) (rows : Table ScanQueueRecord)
    → All (Belongs jobs) (eligible now jobs rows)
unfolding eligible
eligible-Belongs now jobs [] = tt
eligible-Belongs now jobs ((id, q) ∷ rows) = elim (Option-cases (lookup id jobs)) [
  | inl e ↦ rw (e, eligible) (eligible-Belongs now jobs rows)
  | inr (job, e) ↦ elim (Bool-cases (is_queued job.status && is_claimable now q)) [
    | inl t ↦ rw (e, t, eligible) (rw e refl, eligible-Belongs now jobs rows)
    | inr t ↦ rw (e, t, eligible) (eligible-Belongs now jobs rows)
  ]
]

module _ (P : Candidate → Type 0) where
  firsts-All : (all cs : List Candidate) → All P cs → All P (firsts all cs)
  unfolding firsts
  firsts-All all [] h = tt
  firsts-All all (c ∷ cs) h = elim (Bool-cases (is_first c all)) [
    | inl e ↦ rw e (h.0, firsts-All all cs h.1)
    | inr e ↦ rw e (firsts-All all cs h.1)
  ]

  insert-All :
      (c : Candidate) (cs : List Candidate) → P c → All P cs → All P (insert_candidate c cs)
  unfolding insert_candidate
  insert-All c [] p h = (p, tt)
  insert-All c (d ∷ cs) p h = elim (Bool-cases (precedes d c)) [
    | inl e ↦ rw e (h.0, insert-All c cs p h.1)
    | inr e ↦ rw e (p, h)
  ]

  sort-All : (cs : List Candidate) → All P cs → All P (sort_candidates cs)
  unfolding sort_candidates
  sort-All [] h = tt
  sort-All (c ∷ cs) h = insert-All c (sort_candidates cs) h.0 (sort-All cs h.1)

  take-All : (n : ℕ) (cs : List Candidate) → All P cs → All P (take n cs)
  take-All zero cs h = tt
  take-All (suc n) [] h = tt
  take-All (suc n) (c ∷ cs) h = (h.0, take-All n cs h.1)

pub candidates-Belongs : (now : ℕ) (db : Db) → All (Belongs db.jobs) (candidates now db)
unfolding candidates
candidates-Belongs now db =
    let all = eligible now db.jobs db.queue in
    take-All (Belongs db.jobs) 20 (sort_candidates (firsts all all)) (
      sort-All (Belongs db.jobs) (firsts all all)
        (firsts-All (Belongs db.jobs) all all (eligible-Belongs now db.jobs db.queue)))
