-- ===== src/Jobs/Queue/Enqueue.antt =====
-- `enqueue` of jobs/queue.py, and the identity of a job. `now` is what `_now()` returns at the call.
use nyc_rental_listing_agent.Base.{
  ℕ, suc, String, Bool, true, false, ◌&&◌, Option, none, some, [], ◌∷◌, ◌++◌, str_eq, opt_eq,
  if◌then◌else◌,
}
use nyc_rental_listing_agent.Base.Table.{exists}
use nyc_rental_listing_agent.Enums.Ops.{JobType, JobStatus, same_job_type}
use nyc_rental_listing_agent.Model.Ops.{Job}
use nyc_rental_listing_agent.Model.Database.{Database}

-- CLAIMABLE_STATUSES
abbrev pub is_claimable : JobStatus → Bool
is_claimable JobStatus.pending = true
is_claimable JobStatus.failed_retryable = true
is_claimable _ = false

-- The condition of the index `uq_job_active_identity`.
abbrev pub is_live : JobStatus → Bool
is_live JobStatus.failed_terminal = false
is_live JobStatus.cancelled = false
is_live _ = true

abbrev pub is_running : JobStatus → Bool
is_running JobStatus.running = true
is_running _ = false

abbrev pub is_retryable : JobStatus → Bool
is_retryable JobStatus.failed_retryable = true
is_retryable _ = false

-- The columns of the index `uq_job_active_identity`.
pub record JobIdentity : Type 0 where
  pub job_type : JobType
  pub canonical_listing_id : Option ℕ
  pub input_hash : String
  pub dependency_version : String

abbrev pub identity : Job → JobIdentity
identity j = record {
  job_type = j.job_type;
  canonical_listing_id = j.canonical_listing_id;
  input_hash = j.input_hash;
  dependency_version = j.dependency_version;
}

unfoldable pub same_identity : JobIdentity → JobIdentity → Bool
unfolding same_job_type
same_identity a b =
    same_job_type a.job_type b.job_type
    && opt_eq a.canonical_listing_id b.canonical_listing_id
    && str_eq a.input_hash b.input_hash
    && str_eq a.dependency_version b.dependency_version

-- What the unique index looks at: a live job with this identity.
abbrev pub is_live_as : JobIdentity → Job → Bool
is_live_as k j = is_live j.status && same_identity k (identity j)

pub new_job : (now id : ℕ) → JobIdentity → Option ℕ → (priority max_attempts : ℕ) → Option ℕ → Job
new_job now id k run priority max_attempts next_attempt_at = record {
  job_id = id;
  refresh_run_id = run;
  canonical_listing_id = k.canonical_listing_id;
  job_type = k.job_type;
  input_hash = k.input_hash;
  dependency_version = k.dependency_version;
  status = JobStatus.pending;
  priority = priority;
  attempt_count = 0;
  max_attempts = max_attempts;
  next_attempt_at = some (elim next_attempt_at [ none ↦ now | some t ↦ t ]);
  started_at = none;
  completed_at = none;
  error_code = none;
  lease_token = none;
  leased_by = none;
  lease_expires_at = none;
  heartbeat_at = none;
  terminal_reason = none;
  created_at = now;
}

unfoldable pub enqueue :
    (now : ℕ)
    → JobIdentity
    → (refresh_run_id : Option ℕ) → (priority max_attempts : ℕ) → (next_attempt_at : Option ℕ)
    → Database
    → Option ℕ × Database
unfolding new_job
enqueue now k run priority max_attempts next_attempt_at db =
    if exists (is_live_as k) db.jobs then (none, db) else (
      some db.next_id,
      record db {
        next_id = suc db.next_id;
        jobs = db.jobs ++ new_job now db.next_id k run priority max_attempts next_attempt_at ∷ [];
      },
    )
