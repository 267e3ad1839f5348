-- ===== src/Jobs/Queue/Complete.antt =====
-- `heartbeat`, `complete`, `recover_expired_leases` and `queue_depth` of jobs/queue.py.
use nyc_rental_listing_agent.Base.{
  ℕ, ◌+◌, String, Bool, true, false, ◌&&◌, not, Option, none, some, ltb, leb, ◌==◌, is_some_eq,
  is_none, if◌then◌else◌,
}
use nyc_rental_listing_agent.Base.Result.{Result, ok, err, value_error, ◌>>=◌}
use nyc_rental_listing_agent.Base.Table.{select, count, update_where, scalar_one_or_none}
use nyc_rental_listing_agent.Enums.Ops.{JobStatus}
use nyc_rental_listing_agent.Model.Ops.{Job, JobAttempt, seconds}
use nyc_rental_listing_agent.Model.Database.{Database}
use nyc_rental_listing_agent.Jobs.Queue.Enqueue.{is_claimable, is_running, is_retryable}

abbrev pub holds_lease : (job_id lease_token : ℕ) → Job → Bool
holds_lease job_id token j = j.job_id == job_id && is_some_eq j.lease_token token

abbrev pub extended : (now extend_seconds : ℕ) → Job → Job
extended now extend_seconds j = record j {
  heartbeat_at = some now;
  lease_expires_at = some (now + seconds extend_seconds);
}

-- `rowcount` is the number of rows that the WHERE clause meets.
unfoldable pub heartbeat : (now job_id lease_token extend_seconds : ℕ) → Database → Bool × Database
heartbeat now job_id token extend_seconds db =
    let meets = λ (j : Job). holds_lease job_id token j && is_running j.status in
    (
      count meets db.jobs == 1,
      record db { jobs = update_where meets (extended now extend_seconds) db.jobs },
    )

abbrev pub is_completion : JobStatus → Bool
is_completion JobStatus.pending = false
is_completion JobStatus.running = false
is_completion _ = true

-- The status that is written: no retry beyond the last attempt.
unfoldable pub final_status : JobStatus → Job → JobStatus
final_status JobStatus.failed_retryable j =
    if leb j.max_attempts j.attempt_count
    then JobStatus.failed_terminal
    else JobStatus.failed_retryable
final_status status j = status

unfoldable pub finished :
    (now : ℕ) → JobStatus → Option String → (retry_delay_seconds : ℕ) → Job → Job
unfolding final_status
finished now status error_code retry_delay_seconds j =
    let final = final_status status j in
    record j {
      status = final;
      terminal_reason =
          if is_retryable status && not (is_retryable final)
          then some "max_attempts_exhausted"
          else j.terminal_reason;
      error_code = error_code;
      lease_token = none;
      leased_by = none;
      lease_expires_at = none;
      next_attempt_at =
          if is_retryable final
          then some (now + seconds retry_delay_seconds)
          else j.next_attempt_at;
      completed_at = if is_retryable final then j.completed_at else some now;
    }

abbrev pub is_attempt : (job_id attempt_number : ℕ) → JobAttempt → Bool
is_attempt job_id n a = a.job_id == job_id && a.attempt_number == n

abbrev pub closed_attempt : (now : ℕ) → JobStatus → Option String → JobAttempt → JobAttempt
closed_attempt now status error_code a = record a {
  completed_at = some now;
  outcome_status = some status;
  error_code = error_code;
}

-- The part of `complete` after the row was found.
unfoldable pub complete_row :
    (now : ℕ)
    → JobStatus
    → Option String
    → (retry_delay_seconds : ℕ) → Job
    → Database
    → Result (Bool × Database)
unfolding finished
complete_row now status error_code delay j db = do
  attempt ← scalar_one_or_none (select (is_attempt j.job_id j.attempt_count) db.attempts)
  ok (
    true,
    record db {
      jobs =
          update_where (λ r. r.job_id == j.job_id) (finished now status error_code delay) db.jobs;
      attempts =
          if is_none attempt
          then db.attempts
          else update_where (is_attempt j.job_id j.attempt_count)
              (closed_attempt now (final_status status j) error_code) db.attempts;
    },
  )

unfoldable pub complete :
    (now job_id lease_token : ℕ)
    → JobStatus
    → Option String
    → (retry_delay_seconds : ℕ) → Database
    → Result (Bool × Database)
unfolding complete_row
complete now job_id token status error_code delay db =
    if is_completion status
    then (do
      found ← scalar_one_or_none (select (holds_lease job_id token) db.jobs)
      elim found [ none ↦ ok (false, db) | some j ↦ complete_row now status error_code delay j db ])
    else err value_error

abbrev pub expired_before : Option ℕ → ℕ → Bool
expired_before none now = false
expired_before (some t) now = ltb t now

unfoldable pub is_expired : ℕ → Job → Bool
is_expired now j = is_running j.status && expired_before j.lease_expires_at now

unfoldable pub recovered : ℕ → Job → Job
recovered now j = record j {
  status = JobStatus.failed_retryable;
  lease_token = none;
  leased_by = none;
  lease_expires_at = none;
  error_code = some "LEASE_EXPIRED";
  next_attempt_at = some now;
}

unfoldable pub recover_expired_leases : (now : ℕ) → Database → ℕ × Database
unfolding is_expired recovered
recover_expired_leases now db = (
  count (is_expired now) db.jobs,
  record db { jobs = update_where (is_expired now) (recovered now) db.jobs },
)

pub queue_depth : Database → ℕ
queue_depth db = count (λ j. is_claimable j.status) db.jobs
