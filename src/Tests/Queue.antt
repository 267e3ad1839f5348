-- ===== src/Tests/Queue.antt =====
-- The job queue: one job through its three attempts.
use nyc_rental_listing_agent.Base.{
  ℕ, ◌≡◌, ◌≤◌, refl, Bool, true, false, ◌&&◌, Option, none, some, List, [], ◌∷◌, arith,
}
use nyc_rental_listing_agent.Base.Lists.{All, length}
use nyc_rental_listing_agent.Base.Result.{Result, ok, err}
use nyc_rental_listing_agent.Base.Table.{count}
use nyc_rental_listing_agent.Enums.Ops.{JobType, JobStatus}
use nyc_rental_listing_agent.Model.Ops.{Job}
use nyc_rental_listing_agent.Model.Database.{Database, empty}
use nyc_rental_listing_agent.Jobs.Queue.Enqueue.{
  JobIdentity, is_live_as, same_identity, new_job, enqueue,
}
use nyc_rental_listing_agent.Jobs.Queue.Claim.{is_due, candidates, claim, ids_of}
use nyc_rental_listing_agent.Jobs.Queue.Complete.{
  complete, heartbeat, is_expired, recover_expired_leases,
}
use nyc_rental_listing_agent.Jobs.Queue.Invariant.{IsSound, has_id}
use nyc_rental_listing_agent.Jobs.Queue.Claims.{IsClaimed, RowsOf}
use nyc_rental_listing_agent.Jobs.Queue.Candidates.{claim-total}
use nyc_rental_listing_agent.Jobs.Queue.Leases.{complete-once, claim_exclusive, claim_fences}
use nyc_rental_listing_agent.Jobs.Queue.Retries.{
  IsFailed, complete_retry, attempts_left, recover-is_due, recover_strands, enqueue-enqueue,
}
use nyc_rental_listing_agent.Jobs.Queue.Reach.{
  Reach, start, next, enqueues, claims, completes, recovers, Reach-IsSound,
}
use nyc_rental_listing_agent.Jobs.Queue.Lifecycle.{Follows}
use nyc_rental_listing_agent.Jobs.Queue.Refinement.{
  Calls, no_call, call, Calls-Follows, Calls-is_final,
}
use nyc_rental_listing_agent.Base.Table.{find_row}

abbrev normalize : JobIdentity
normalize = record {
  job_type = JobType.normalize;
  canonical_listing_id = none;
  input_hash = "obs-1";
  dependency_version = "v1";
}

abbrev all_free : ℕ → Bool
all_free i = false

-- One job with a single attempt.
abbrev queued : Database
queued = (enqueue 10 normalize none 10 1 none empty).1

abbrev state_of {ℓ} : {A : Type ℓ} → A → Result (A × Database) → A × Database
state_of a (ok r) = r
state_of a (err e) = (a, empty)

abbrev claim_run : List Job × Database
claim_run = state_of [] (claim 20 "worker" 300 1 all_free queued)

abbrev claimed : List Job
claimed = claim_run.0

abbrev running : Database
running = claim_run.1

claim_runs : claim 20 "worker" 300 1 all_free queued ≡ ok (claimed, running)
unfolding claim enqueue
claim_runs = refl

one_claimed : length claimed ≡ 1
unfolding claim enqueue
one_claimed = refl

queued-Reach : Reach queued
queued-Reach = next start (enqueues 10 normalize none 10 1 none)

running-Reach : Reach running
running-Reach = next queued-Reach (claims 20 1 all_free 300 "worker" claimed claim_runs)

abbrev failed_run : Bool × Database
failed_run = state_of false (complete 30 0 1 JobStatus.failed_retryable none 60 running)

failed_runs : complete 30 0 1 JobStatus.failed_retryable none 60 running ≡ ok (true, failed_run.1)
unfolding complete claim enqueue
failed_runs = refl

Reach-IsSound_example : IsSound running
Reach-IsSound_example = Reach-IsSound running-Reach

claim-total_example :
    (jobs : List Job) × (after : Database) × (claim 20 "worker" 300 1 all_free queued
      ≡ ok (jobs, after))
    × IsSound after
    × (ids_of jobs ≡ ids_of (candidates 20 1 all_free queued))
    × (length jobs ≤ 1)
    × All (IsClaimed queued.next_id 20 300 "worker") jobs
claim-total_example = claim-total 20 1 all_free queued 300 "worker" (Reach-IsSound queued-Reach)

complete-once_example :
    complete 40 0 1 JobStatus.succeeded none 0 failed_run.1 ≡ ok (false, failed_run.1)
complete-once_example =
    complete-once 30 0 1 JobStatus.failed_retryable none 60 running failed_run.1 40
      JobStatus.succeeded none 0 failed_runs refl

claim_exclusive_example :
    All (λ j. count (has_id j.job_id) (candidates 900000000 5 all_free running) ≡ 0) claimed
claim_exclusive_example =
    claim_exclusive 20 1 all_free 300 "worker" queued claimed running claim_runs
      (Reach-IsSound queued-Reach) 900000000 5 all_free

claim_fences_example :
    All
      (λ j.
        (complete 40 j.job_id 0 JobStatus.succeeded none 0 running ≡ ok (false, running))
        × (heartbeat 40 j.job_id 0 300 running ≡ (false, running)))
      claimed
unfolding enqueue
claim_fences_example =
    claim_fences 20 1 all_free 300 "worker" queued claimed running claim_runs
      (Reach-IsSound queued-Reach) 0 40 JobStatus.succeeded none 0 300 (omega arith) refl

complete_retry_example : RowsOf (IsFailed 30 60) 0 failed_run.1.jobs
complete_retry_example = complete_retry 30 0 1 none 60 running failed_run.1 failed_runs

recover-is_due_example :
    count (λ j. has_id 0 j && (is_expired 400000000 j && attempts_left j)) running.jobs
    ≤ count
        (λ j. has_id 0 j && is_due 500000000 j)
        (recover_expired_leases 400000000 running).1.jobs
recover-is_due_example = recover-is_due 400000000 500000000 0 running (omega arith)

recover_strands_example :
    ((now' : ℕ)
      → count
          (λ j. is_live_as normalize j && is_due now' j)
          (recover_expired_leases 400000000 running).1.jobs
        ≡ 0)
    × ((now' : ℕ) (run : Option ℕ) (priority max_attempts : ℕ) (later : Option ℕ)
        → enqueue now' normalize run priority max_attempts later
            (recover_expired_leases 400000000 running).1
          ≡ (none, (recover_expired_leases 400000000 running).1))
unfolding claim enqueue is_expired same_identity
recover_strands_example =
    recover_strands 400000000 normalize running (Reach-IsSound running-Reach) (omega arith)

enqueue-enqueue_example : enqueue 50 normalize (some 4) 0 3 none queued ≡ (none, queued)
enqueue-enqueue_example = enqueue-enqueue 10 50 normalize none (some 4) 10 0 1 3 none none empty

-- The claim and the failure of the one job.
whole_life : Calls queued failed_run.1
whole_life =
    call (call no_call (claims 20 1 all_free 300 "worker" claimed claim_runs))
      (completes 30 0 1 JobStatus.failed_retryable none 60 true failed_runs)

Calls-Follows_example : Follows queued.jobs failed_run.1.jobs
Calls-Follows_example = Calls-Follows (Reach-IsSound queued-Reach) whole_life

failed-Reach : Reach failed_run.1
failed-Reach =
    next running-Reach (completes 30 0 1 JobStatus.failed_retryable none 60 true failed_runs)

abbrev first_job : List Job → Job
first_job [] = new_job 10 0 normalize none 10 1 none
first_job (j ∷ js) = j

abbrev failed_job : Job
failed_job = first_job failed_run.1.jobs

Calls-is_final_example :
    (y : Job) × ((find_row (has_id 0) (recover_expired_leases 50 failed_run.1).1.jobs ≡ some y)
      × (y.status ≡ failed_job.status))
unfolding complete claim enqueue
Calls-is_final_example =
    Calls-is_final 0 failed_job (Reach-IsSound failed-Reach) (call no_call (recovers 50)) refl refl
