-- ===== src/Acquisition/Drain.antt =====
-- `drain_normalize_jobs` of acquisition/runner.py. `locked` are the job rows that other transactions
-- hold when a claim looks at the queue.
pub mod Soundness
use nyc_rental_listing_agent.Base.{
  ℕ, zero, suc, String, Bool, true, false, Option, none, some, List, [], ◌∷◌, if◌then◌else◌,
}
use nyc_rental_listing_agent.Base.Result.{
  Result, ok, err, Error, value_error, assertion_error, ◌>>=◌,
}
use nyc_rental_listing_agent.Base.Table.{select}
use nyc_rental_listing_agent.Enums.Ops.{JobType, JobStatus, same_job_type}
use nyc_rental_listing_agent.Enums.Listing.{DiscoveryMethod}
use nyc_rental_listing_agent.Model.Ops.{Job}
use nyc_rental_listing_agent.Model.Database.{Database}
use nyc_rental_listing_agent.Jobs.Queue.Claim.{claim}
use nyc_rental_listing_agent.Jobs.Queue.Complete.{complete}
use nyc_rental_listing_agent.Canonical.Normalization.Process.{process_observation}
use nyc_rental_listing_agent.Acquisition.Contracts.{Platform}
use nyc_rental_listing_agent.Acquisition.Runner.Source.{error_name}

-- What the worker keeps of a claimed job.
pub record Work : Type 0 where
  pub job_id : ℕ
  pub lease : ℕ
  pub observation_id : ℕ

unfoldable pub is_normalize : Job → Bool
unfolding same_job_type
is_normalize j = same_job_type j.job_type JobType.normalize

unfoldable pub work_of : Platform → Job → Result Work
work_of env j = do
  lease ← elim j.lease_token [ none ↦ err assertion_error | some t ↦ ok t ]
  observation ← elim (env.uuid_of j.input_hash) [ none ↦ err value_error | some i ↦ ok i ]
  ok (record { job_id = j.job_id; lease = lease; observation_id = observation })

unfoldable pub first_work : Platform → List Job → Result (Option Work)
unfolding work_of
first_work env [] = ok none
first_work env (j ∷ rest) = work_of env j >>= λ w. ok (some w)

-- The first session: none where there is no normalize job among the claimed.
unfoldable pub next_work :
    Platform
    → (worker_id : String) → (locked : ℕ → Bool) → Database
    → Result (Option Work × Database)
unfolding claim first_work is_normalize
next_work env worker_id locked db = do
  claimed ← claim (env.clock db.next_id) worker_id 300 1 locked db
  found ← first_work env (select is_normalize claimed.0)
  ok (found, claimed.1)

abbrev pub completed :
    Platform → Work → JobStatus → (error_code : Option String) → Database → Result Database
completed env w status error_code db = do
  done ← complete (env.clock db.next_id) w.job_id w.lease status error_code 60 db
  ok done.1

-- The second session: what raises is rolled back, and the job is completed for a retry.
unfoldable pub do_work : Platform → DiscoveryMethod → Work → Database → Result Database
unfolding process_observation complete
do_work env method w db =
    let normalized =
      process_observation (env.clock db.next_id) w.observation_id method db
      >>= (λ r. completed env w JobStatus.succeeded none r.1) in
    elim normalized [
      | ok after ↦ ok after
      | err e ↦ completed env w JobStatus.failed_retryable (some (error_name e)) db
    ]

-- The loop, with the jobs that it may still process; what was committed stands where it raises.
unfoldable pub drain :
    Platform
    → (worker_id : String) → (locked : ℕ → Bool) → DiscoveryMethod
    → (left processed : ℕ) → Database
    → Result ℕ × Database
unfolding next_work do_work
drain env worker_id locked method zero processed db = (ok processed, db)
drain env worker_id locked method (suc left) processed db =
    elim (next_work env worker_id locked db) [
      | err e ↦ (err e, db)
      | ok (found, claimed) ↦ elim found [
        | none ↦ (ok processed, claimed)
        | some w ↦ elim (do_work env method w claimed) [
          | err e ↦ (err e, claimed)
          | ok after ↦ drain env worker_id locked method left (suc processed) after
        ]
      ]
    ]

unfoldable pub drain_normalize_jobs :
    Platform
    → (worker_id : String) → (locked : ℕ → Bool) → DiscoveryMethod
    → (max_jobs : ℕ) → Database
    → Result ℕ × Database
unfolding drain
drain_normalize_jobs env worker_id locked method max_jobs db =
    drain env worker_id locked method max_jobs 0 db
