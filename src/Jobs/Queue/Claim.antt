-- ===== src/Jobs/Queue/Claim.antt =====
-- `claim` of jobs/queue.py.
use nyc_rental_listing_agent.Base.{
  ℕ, suc, ◌+◌, String, Bool, true, false, ◌&&◌, ◌||◌, not, Option, none, some, List, [], ◌∷◌, ◌++◌,
  map, ltb, leb, ◌==◌,
}
use nyc_rental_listing_agent.Base.Lists.{take}
use nyc_rental_listing_agent.Base.Result.{Result, ok, err, assertion_error, ◌>>=◌}
use nyc_rental_listing_agent.Base.Table.{select, update_where, find_row, order_by}
use nyc_rental_listing_agent.Enums.Ops.{JobStatus}
use nyc_rental_listing_agent.Model.Ops.{Job, JobAttempt, seconds}
use nyc_rental_listing_agent.Model.Database.{Database}
use nyc_rental_listing_agent.Jobs.Queue.Enqueue.{is_claimable}

abbrev pub at_or_before : Option ℕ → ℕ → Bool
at_or_before none now = false
at_or_before (some t) now = leb t now

abbrev pub lease_free : Option ℕ → ℕ → Bool
lease_free none now = true
lease_free (some t) now = ltb t now

-- WHERE of `claim`.
unfoldable pub is_due : ℕ → Job → Bool
is_due now j =
    is_claimable j.status
    && at_or_before j.next_attempt_at now
    && lease_free j.lease_expires_at now
    && ltb j.attempt_count j.max_attempts

-- ORDER BY of `claim`.
unfoldable pub goes_first : Job → Job → Bool
goes_first a b =
    ltb b.priority a.priority || (a.priority == b.priority && ltb a.created_at b.created_at)

-- `locked` are the rows that other transactions hold: SKIP LOCKED passes over them.
unfoldable pub candidates : (now batch_size : ℕ) → (locked : ℕ → Bool) → Database → List Job
unfolding order_by goes_first is_due
candidates now batch_size locked db =
    take batch_size
      (order_by goes_first (select (λ j. is_due now j && not (locked j.job_id)) db.jobs))

unfoldable pub leased : (now token : ℕ) → (worker_id : String) → (lease_seconds : ℕ) → Job → Job
leased now token worker_id lease_seconds j = record j {
  status = JobStatus.running;
  lease_token = some token;
  leased_by = some worker_id;
  lease_expires_at = some (now + seconds lease_seconds);
  heartbeat_at = some now;
  attempt_count = j.attempt_count + 1;
  started_at = some now;
}

new_attempt : (now : ℕ) → (worker_id : String) → Job → JobAttempt
new_attempt now worker_id j = record {
  job_id = j.job_id;
  attempt_number = j.attempt_count;
  lease_token = j.lease_token;
  leased_by = some worker_id;
  started_at = now;
  completed_at = none;
  outcome_status = none;
  error_code = none;
}

-- The body of the loop, for the row that `get` found.
unfoldable pub lease_row : (now : ℕ) → String → ℕ → Job → Database → Job × Database
unfolding leased new_attempt
lease_row now worker_id lease_seconds j db =
    let j' = leased now db.next_id worker_id lease_seconds j in
    (
      j',
      record db {
        next_id = suc db.next_id;
        jobs =
            update_where (λ r. r.job_id == j.job_id) (leased now db.next_id worker_id lease_seconds)
              db.jobs;
        attempts = db.attempts ++ new_attempt now worker_id j' ∷ [];
      },
    )

unfoldable pub claim_rows :
    (now : ℕ) → String → ℕ → List ℕ → Database → Result (List Job × Database)
unfolding lease_row
claim_rows now worker_id lease_seconds [] db = ok ([], db)
claim_rows now worker_id lease_seconds (id ∷ ids) db =
    elim (find_row (λ j. j.job_id == id) db.jobs) [
      | none ↦ err assertion_error
      | some j ↦
          let (j', db') = lease_row now worker_id lease_seconds j db in
          claim_rows now worker_id lease_seconds ids db' >>= λ r. ok (j' ∷ r.0, r.1)
    ]

abbrev pub ids_of : List Job → List ℕ
ids_of = map (λ j. j.job_id)

unfoldable pub claim :
    (now : ℕ)
    → (worker_id : String) → (lease_seconds batch_size : ℕ) → (locked : ℕ → Bool) → Database
    → Result (List Job × Database)
unfolding candidates claim_rows
claim now worker_id lease_seconds batch_size locked db =
    claim_rows now worker_id lease_seconds (ids_of (candidates now batch_size locked db)) db
