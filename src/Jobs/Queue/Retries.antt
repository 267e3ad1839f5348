-- ===== src/Jobs/Queue/Retries.antt =====
-- Retries: what a failure and an expired lease do to a job.
use native.Mathlib.Nat.{le_trans}
use nyc_rental_listing_agent.Base.{
  ℕ, ◌+◌, ◌≤◌, ◌<◌, ◌≡◌, ◌⊎◌, refl, inl, inr, Bool, true, false, ◌&&◌, Option, none, some, [], ◌∷◌,
  ◌++◌, arith, leb, ltb, is_none, Bool-cases, String, &&_left,
}
use nyc_rental_listing_agent.Base.Result.{ok}
use nyc_rental_listing_agent.Base.Table.{count, exists}
use nyc_rental_listing_agent.Base.Table.Rules.{
  All-update_if, scalar-select, count-update_into, count-outside, count_mono, exists-counted,
  count-append,
}
use nyc_rental_listing_agent.Enums.Ops.{JobStatus}
use nyc_rental_listing_agent.Model.Ops.{Job, seconds}
use nyc_rental_listing_agent.Model.Database.{Database}
use nyc_rental_listing_agent.Jobs.Queue.Enqueue.{JobIdentity, is_live_as, new_job, enqueue}
use nyc_rental_listing_agent.Jobs.Queue.Claim.{is_due}
use nyc_rental_listing_agent.Jobs.Queue.Complete.{
  holds_lease, finished, complete, is_expired, recovered, recover_expired_leases,
}
use nyc_rental_listing_agent.Jobs.Queue.Invariant.{IsSound, has_id, same_identity_iff}
use nyc_rental_listing_agent.Jobs.Queue.Claims.{RowsOf}
use nyc_rental_listing_agent.Jobs.Queue.Updates.{complete-inv, recover-IsSound}

-- Where a job stands after a retryable failure that `complete` recorded at `now`.
pub IsFailed : (now delay : ℕ) → Job → Type 0
IsFailed now delay r =
    (is_none r.lease_token ≡ true)
    × ((r.attempt_count < r.max_attempts)
          × (r.status ≡ JobStatus.failed_retryable)
          × (r.next_attempt_at ≡ some (now + seconds delay))
        ⊎ ((r.max_attempts ≤ r.attempt_count)
            × (r.status ≡ JobStatus.failed_terminal)
            × (r.terminal_reason ≡ some "max_attempts_exhausted")
            × (r.completed_at ≡ some now)))

finished-IsFailed :
    (now : ℕ) (code : Option String) (delay : ℕ) (r : Job)
    → IsFailed now delay (finished now JobStatus.failed_retryable code delay r)
unfolding finished IsFailed
finished-IsFailed now code delay r = elim (Bool-cases (leb r.max_attempts r.attempt_count)) [
  | inl e ↦ (refl, inr (ground arith, rw e, rw e, rw e))
  | inr e ↦ (refl, inl (ground arith, rw e, rw e))
]

-- A completion as retryable frees the lease, and gives the job a time for its next attempt exactly
-- while it has attempts left; past its last attempt it is terminal, with the reason.
pub complete_retry :
    (now id token : ℕ) (code : Option String) (delay : ℕ) (db db' : Database)
    → complete now id token JobStatus.failed_retryable code delay db ≡ ok (true, db')
    → RowsOf (IsFailed now delay) id db'.jobs
complete_retry now id token code delay db db' e =
    elim (complete-inv now id token JobStatus.failed_retryable code delay db true db' e) [
      | inl (f, _) ↦ cc
      | inr (j, found, _, jobs, _, _) ↦
          let (_, holds) = scalar-select (holds_lease id token) db.jobs found in
          let at_id : j.job_id ≡ id = ground (arith, holds) in
          rw (jobs, at_id)
            (All-update_if _ (has_id id) (finished now JobStatus.failed_retryable code delay)
              (λ r m _. finished-IsFailed now code delay r) (λ r m at. cc) db.jobs)
    ]

abbrev pub attempts_left : Job → Bool
attempts_left j = ltb j.attempt_count j.max_attempts

-- For every key: after the recovery, at its time or later, at least as many jobs of that key are due as
-- had an expired lease and attempts left before it.
pub recover-is_due :
    (now now' i : ℕ) (db : Database)
    → now ≤ now'
    → count (λ j. has_id i j && (is_expired now j && attempts_left j)) db.jobs
      ≤ count (λ j. has_id i j && is_due now' j) (recover_expired_leases now db).1.jobs
unfolding recover_expired_leases is_due
recover-is_due now now' i db le =
    count-update_into _ _ (is_expired now) (recovered now) (λ x e. ground (arith, e)) db.jobs

-- A job in its last attempt.
abbrev pub spent : Job → Bool
spent j = leb j.max_attempts j.attempt_count

spent-not_due : (now : ℕ) (j : Job) → spent j ≡ true → is_due now j ≡ false
unfolding is_due
spent-not_due now j e = ground (arith, e)

recovered-spent :
    (now : ℕ) (k : JobIdentity) (db : Database)
    → count (λ j. is_live_as k j && (is_expired now j && spent j)) db.jobs
      ≤ count (λ j. is_live_as k j && spent j) (recover_expired_leases now db).1.jobs
unfolding recover_expired_leases
recovered-spent now k db =
    count-update_into _ _ (is_expired now) (recovered now) (λ x e. ground (arith, e)) db.jobs

enqueue-refused :
    (now : ℕ) (k : JobIdentity) (run : Option ℕ) (priority max_attempts : ℕ) (next : Option ℕ)
    (db : Database)
    → exists (is_live_as k) db.jobs ≡ true
    → enqueue now k run priority max_attempts next db ≡ (none, db)
unfolding enqueue
enqueue-refused now k run priority max_attempts next db e = rw e

-- Where the invariant holds and the lease of a live job has expired in its last attempt: in the state
-- after the recovery no live job of its identity is due for a claim, at any time, and enqueueing an
-- equivalent job returns nothing and changes nothing.
pub recover_strands :
    (now : ℕ) (k : JobIdentity) (db : Database)
    → IsSound db
    → 0 < count (λ j. is_live_as k j && (is_expired now j && spent j)) db.jobs
    → ((now' : ℕ)
        → count (λ j. is_live_as k j && is_due now' j) (recover_expired_leases now db).1.jobs ≡ 0)
      × ((now' : ℕ) (run : Option ℕ) (priority max_attempts : ℕ) (next : Option ℕ)
          → enqueue now' k run priority max_attempts next (recover_expired_leases now db).1
            ≡ (none, (recover_expired_leases now db).1))
recover_strands now k db h some_job = (
  λ now'.
      count-outside (is_live_as k) spent (is_due now') _ (spent-not_due now') left
        (sound.one_live k),
  λ now' run priority max_attempts next. refused now' run priority max_attempts next,
)
  where
    after : Database
    after = (recover_expired_leases now db).1

    sound : IsSound after
    sound = recover-IsSound now db h

    left : 0 < count (λ j. is_live_as k j && spent j) after.jobs
    left = le_trans some_job (recovered-spent now k db)

    refused :
        (now' : ℕ) (run : Option ℕ) (priority max_attempts : ℕ) (next : Option ℕ)
        → enqueue now' k run priority max_attempts next after ≡ (none, after)
    refused now' run priority max_attempts next =
        enqueue-refused now' k run priority max_attempts next after (
          exists-counted (is_live_as k) after.jobs (
            le_trans left
              (count_mono _ (is_live_as k) after.jobs (λ j. &&_left (is_live_as k j) (spent j)))))

enqueued-exists :
    (now : ℕ) (k : JobIdentity) (run : Option ℕ) (p m : ℕ) (next : Option ℕ) (db : Database)
    → exists (is_live_as k) (enqueue now k run p m next db).1.jobs ≡ true
unfolding enqueue
enqueued-exists now k run p m next db = elim (Bool-cases (exists (is_live_as k) db.jobs)) [
  | inl e ↦ rw e e
  | inr e ↦ rw e (
      exists-counted (is_live_as k) (db.jobs ++ new_job now db.next_id k run p m next ∷ [])
        (rw count-append (rw ((same_identity_iff k k).1 refl) (omega arith))))
]

-- An equivalent job is enqueued once: whatever its other arguments, the second call returns nothing
-- and changes nothing.
pub enqueue-enqueue :
    (now now' : ℕ) (k : JobIdentity) (run run' : Option ℕ) (p p' m m' : ℕ) (next next' : Option ℕ)
    (db : Database)
    → let after = (enqueue now k run p m next db).1 in
      enqueue now' k run' p' m' next' after ≡ (none, after)
enqueue-enqueue now now' k run run' p p' m m' next next' db =
    enqueue-refused now' k run' p' m' next' _ (enqueued-exists now k run p m next db)
