-- ===== src/Queue/Calls.antt =====
-- `claim_next` of src/cryptohawk/storage/queue.py, taken apart into its transactions.
use crypto_hawk.Prelude.{
  ℕ, ◌+◌, ◌-◌, ◌≤◌, ◌≡◌, refl, Bool, true, false, ◌&&◌, Option, some, List, [], ◌∷◌, Result, ok,
  All, Text, arith, lookup, one_if, ◌==◌, Bool-cases, Result-cases, inl, inr, ap, ◌∙◌,
}
use crypto_hawk.Store.{Db, ScanJobRecord, seconds}
use crypto_hawk.Quotas.{acquire_scan_slot, release_scan_slot}
use crypto_hawk.Quotas.Capacity.{granted, is_ok, acquire-SameJobs, release-SameJobs}
use crypto_hawk.Queue.Claims.{
  Candidate, claim, claimed, claim_limited, claim_arguments_valid, claim_next, candidates,
}
use crypto_hawk.Queue.Balance.{is_of}
use crypto_hawk.Queue.Candidates.{Belongs, OfWorkspace, candidates-Belongs}
use crypto_hawk.Queue.Steps.{Sys, acquires, claims, releases, Steps, here, next}

pub Steps-trans :
    (w limit : ℕ) {s t u : Sys} → Steps w limit s t → Steps w limit t u → Steps w limit s u
Steps-trans w limit r here = r
Steps-trans w limit r (next q st) = next (Steps-trans w limit r q) st

abbrev pub sys : Db → ℕ → Sys
sys db held = record { db = db; held = held }

-- A call takes the tables from `s` to `t` by transactions, whatever slots others hold.
abbrev pub Runs : ℕ → ℕ → Db → Db → Type 0
Runs w limit s t = (held : ℕ) → (held' : ℕ) × Steps w limit (sys s held) (sys t held')

-- A failed claim changes nothing.
claim_failed :
    (id : ℕ) (worker : Text) (expires now : ℕ) (db : Db)
    → (claim id worker expires now db).1 ≡ false
    → (claim id worker expires now db).0 ≡ db
unfolding claim
claim_failed id worker expires now db h = ground arith

holds_slot :
    (w v h : ℕ) (o : Option ScanJobRecord)
    → OfWorkspace v o
    → is_of w o ≡ true
    → 1 ≤ h + one_if ((w == v) && true)
holds_slot w v h o b e = ground arith

holds_own :
    (w v h : ℕ) (x : Result Bool)
    → x ≡ ok true
    → (w == v) ≡ true
    → 1 ≤ h + one_if ((w == v) && granted x)
holds_own w v h x e same = ground arith

module _ (w limit : ℕ) (worker : Text) (expires now : ℕ) (c : Candidate) (db : Db) (held : ℕ) where
  -- The tables after each transaction of one round, and the slots held after them.
  abbrev slotted : Db
  slotted = (acquire_scan_slot c.workspace_id limit now db).0

  abbrev held_slotted : ℕ
  held_slotted =
      held
      + one_if ((w == c.workspace_id) && granted (acquire_scan_slot c.workspace_id limit now db).1)

  abbrev tried : Db
  tried = (claim c.job_id worker expires now slotted).0

  abbrev held_tried : ℕ
  held_tried =
      held_slotted
      - one_if
          ((claim c.job_id worker expires now slotted).1 && is_of w (lookup c.job_id slotted.jobs))

  abbrev released : Db
  released = (release_scan_slot c.workspace_id now tried).0

  abbrev held_released : ℕ
  held_released =
      held_tried
      - one_if ((w == c.workspace_id) && is_ok (release_scan_slot c.workspace_id now tried).1)

  slot_step : Steps w limit (sys db held) (sys slotted held_slotted)
  slot_step = next here (acquires c.workspace_id now refl refl)

  module _ (b : Belongs db.jobs c)
      (given : (acquire_scan_slot c.workspace_id limit now db).1 ≡ ok true) where
    claim_step : Steps w limit (sys db held) (sys tried held_tried)
    claim_step = next slot_step (claims c.job_id worker expires now holds refl refl)
      where
        belongs : Belongs slotted.jobs c
        belongs = rw (acquire-SameJobs c.workspace_id limit now db).jobs b

        holds : is_of w (lookup c.job_id slotted.jobs) ≡ true → 1 ≤ held_slotted
        holds e =
            rw given (holds_slot w c.workspace_id held (lookup c.job_id slotted.jobs) belongs e)

    release_step :
        (claim c.job_id worker expires now slotted).1 ≡ false
        → Steps w limit (sys db held) (sys released held_released)
    release_step failed = next claim_step (releases c.workspace_id now holds refl refl)
      where
        holds : (w == c.workspace_id) ≡ true → 1 ≤ held_tried
        holds e = rw failed (
            omega (
              arith,
              holds_own w c.workspace_id held (acquire_scan_slot c.workspace_id limit now db).1
                  given e,
            ))

    released_jobs : (claim c.job_id worker expires now slotted).1 ≡ false → released.jobs ≡ db.jobs
    released_jobs failed =
        (release-SameJobs c.workspace_id now tried).jobs
        ∙ ap (λ (t : Db). t.jobs) (claim_failed c.job_id worker expires now slotted failed)
        ∙ (acquire-SameJobs c.workspace_id limit now db).jobs

pub then_runs :
    {w limit : ℕ} {s : Sys} {t u : Db} {held : ℕ}
    → Steps w limit s (sys t held)
    → Runs w limit t u
    → (held' : ℕ) × Steps w limit s (sys u held')
then_runs {w} {limit} {held = held} r k =
    let (held', q) = k held in (held', Steps-trans w limit r q)

module _ (w limit : ℕ) (worker : Text) (expires now : ℕ) where
  claim_limited-Runs :
      (cs : List Candidate) (db : Db)
      → All (Belongs db.jobs) cs
      → Runs w limit db (claim_limited worker expires now limit cs db).0
  unfolding claim_limited claimed
  claim_limited-Runs [] db b held = (held, here)
  claim_limited-Runs (c ∷ cs) db b held =
      elim (Result-cases (acquire_scan_slot c.workspace_id limit now db).1) [
        | inr (x, e) ↦ rw (e, claim_limited) (_, slot_step w limit worker expires now c db held)
        | inl (granted, e) ↦ elim (Bool-cases granted) [
          | inr refused ↦
              rw (e, refused, claim_limited)
                (then_runs (slot_step w limit worker expires now c db held) (
                  claim_limited-Runs cs _
                    (rw (acquire-SameJobs c.workspace_id limit now db).jobs b.1)))
          | inl given ↦
              elim (Bool-cases
                (claim c.job_id worker expires now
                  (slotted w limit worker expires now c db held)).1) [
                    | inl success ↦
                        rw (e, given, success, claim_limited)
                          (_, claim_step w limit worker expires now c db held b.0 (e ∙ ap ok given))
                    | inr failed ↦
                        elim (Result-cases
                          (release_scan_slot c.workspace_id now
                            (tried w limit worker expires now c db held)).1) [
                              | inr (x, raised) ↦
                                  rw (e, given, failed, raised, claim_limited)
                                    (
                                      _,
                                      release_step w limit worker expires now c db held b.0
                                          (e ∙ ap ok given) failed,
                                    )
                              | inl (u, back) ↦
                                  rw (e, given, failed, back, claim_limited)
                                    (then_runs
                                      (release_step w limit worker expires now c db held b.0
                                        (e ∙ ap ok given) failed)
                                      (claim_limited-Runs cs _ (
                                        rw
                                          (released_jobs w limit worker expires now c db held b.0
                                            (e ∙ ap ok given) failed)
                                          b.1)))
                            ]
                  ]
        ]
      ]

-- A claim with quotas under a limit is an interleaving of the transactions under that limit,
-- whatever it returns or raises and whatever slots other calls hold.
pub claim_next-Runs :
    (w : ℕ) (worker : Text) (lease_seconds limit now : ℕ) (db : Db)
    → Runs w limit db (claim_next true worker lease_seconds (some limit) now db).0
unfolding claim_next
claim_next-Runs w worker lease_seconds limit now db =
    elim (Bool-cases (claim_arguments_valid true worker lease_seconds (some limit))) [
      | inl valid ↦ rw valid (
          claim_limited-Runs w limit worker (now + seconds lease_seconds) now (candidates now db) db
            (candidates-Belongs now db))
      | inr invalid ↦ rw invalid (λ held. (held, here))
    ]
