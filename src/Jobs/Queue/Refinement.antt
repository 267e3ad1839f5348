-- ===== src/Jobs/Queue/Refinement.antt =====
-- The methods of jobs/queue.py along the life of a job.
use nyc_rental_listing_agent.Base.{
  ℕ, ◌≡◌, refl, sym, inl, inr, subst, String, Bool, true, false, not, Option, some, List, [], ◌∷◌,
  arith, is_none, ◌||◌, &&_left, Bool-cases,
}
use nyc_rental_listing_agent.Base.Lists.{All-intro, All-mono2}
use nyc_rental_listing_agent.Base.Result.{ok}
use nyc_rental_listing_agent.Base.Table.{exists, find_row}
use nyc_rental_listing_agent.Enums.Ops.{JobStatus}
use nyc_rental_listing_agent.Model.Ops.{Job}
use nyc_rental_listing_agent.Model.Database.{Database}
use nyc_rental_listing_agent.Jobs.Queue.Enqueue.{
  JobIdentity, is_claimable, is_running, is_live_as, new_job, enqueue,
}
use nyc_rental_listing_agent.Jobs.Queue.Claim.{claim, candidates, ids_of}
use nyc_rental_listing_agent.Jobs.Queue.Complete.{
  is_completion, final_status, finished, extended, holds_lease, heartbeat, complete, is_expired,
  recovered, recover_expired_leases,
}
use nyc_rental_listing_agent.Jobs.Queue.Invariant.{IsSound, IsValidJob, has_id}
use nyc_rental_listing_agent.Jobs.Queue.Candidates.{candidates-IsReady}
use nyc_rental_listing_agent.Jobs.Queue.Updates.{complete-inv, holder-only}
use nyc_rental_listing_agent.Jobs.Queue.Reach.{
  Step, Step-IsSound, enqueues, claims, beats, completes, recovers,
}
use nyc_rental_listing_agent.Jobs.Queue.Lifecycle.{
  Follows, Follows-refl, Follows-trans, Lifecycle, MovesBy, append-Follows, claim_rows-Follows,
  ends, starts, stays, update-Follows,
}

final_status-is_completion :
    (status : JobStatus) (x : Job)
    → is_completion status ≡ true
    → is_completion (final_status status x) ≡ true
unfolding final_status
final_status-is_completion status x c = ground arith

finished-MovesBy :
    (now id token : ℕ) (status : JobStatus) (code : Option String) (delay : ℕ) (x : Job)
    → is_completion status ≡ true
    → IsValidJob x
    → holds_lease id token x ≡ true
    → MovesBy (finished now status code delay) x
unfolding finished
finished-MovesBy now id token status code delay x c v h = (
  refl,
  subst (λ s. Lifecycle s (final_status status x)) (sym (held x v (leased_by x h)))
      (ends (final_status-is_completion status x c) stays),
)
  where
    leased_by : (x : Job) → holds_lease id token x ≡ true → is_none x.lease_token ≡ false
    leased_by x h = ground arith

    held : (x : Job) → IsValidJob x → is_none x.lease_token ≡ false → x.status ≡ JobStatus.running
    held x v h = ground (arith, v.leased_runs)

recovered-MovesBy : (now : ℕ) (x : Job) → is_expired now x ≡ true → MovesBy (recovered now) x
unfolding is_expired recovered
recovered-MovesBy now x h = (
  refl,
  subst (λ s. Lifecycle s JobStatus.failed_retryable)
      (sym (runs x.status (&&_left (is_running x.status) _ h))) (ends refl stays),
)
  where
    runs : (s : JobStatus) → is_running s ≡ true → s ≡ JobStatus.running
    runs s h = ground arith

enqueue-Follows :
    (now : ℕ) (k : JobIdentity) (run : Option ℕ) (priority most : ℕ) (next : Option ℕ)
    (db : Database)
    → Follows db.jobs (enqueue now k run priority most next db).1.jobs
unfolding enqueue
enqueue-Follows now k run priority most next db =
    elim (Bool-cases (exists (is_live_as k) db.jobs)) [
      | inl e ↦ rw e (Follows-refl db.jobs)
      | inr e ↦
          rw e (append-Follows db.jobs (new_job now db.next_id k run priority most next) stays)
    ]

heartbeat-Follows :
    (now id token extend : ℕ) (db : Database)
    → Follows db.jobs (heartbeat now id token extend db).1.jobs
unfolding heartbeat
heartbeat-Follows now id token extend db =
    update-Follows _ (extended now extend) db.jobs (All-intro _ (λ x m. (refl, stays)) db.jobs)

recover-Follows : (now : ℕ) (db : Database) → Follows db.jobs (recover_expired_leases now db).1.jobs
unfolding recover_expired_leases
recover-Follows now db =
    update-Follows (is_expired now) (recovered now) db.jobs
      (All-intro _ (λ x m. recovered-MovesBy now x m) db.jobs)

complete-Follows :
    (now id token : ℕ) (status : JobStatus) (code : Option String) (delay : ℕ) (db db' : Database)
    (done : Bool)
    → IsSound db
    → complete now id token status code delay db ≡ ok (done, db')
    → Follows db.jobs db'.jobs
complete-Follows now id token status code delay db db' done h e =
    elim (complete-inv now id token status code delay db done db' e) [
      | inl (_, same) ↦ subst (λ d. Follows db.jobs d.jobs) (sym same) (Follows-refl db.jobs)
      | inr (j, found, c, jobs, _, _) ↦
          subst (λ js. Follows db.jobs js) (sym jobs)
            (update-Follows (has_id j.job_id) (finished now status code delay) db.jobs (
              All-mono2
                (λ x v holds m. finished-MovesBy now id token status code delay x c v (holds m))
                db.jobs h.valid (holder-only id token db h found)))
    ]

claim-Follows :
    (now batch secs : ℕ) (locked : ℕ → Bool) (worker : String) (claimed : List Job)
    (db db' : Database)
    → IsSound db
    → claim now worker secs batch locked db ≡ ok (claimed, db')
    → Follows db.jobs db'.jobs
unfolding claim
claim-Follows now batch secs locked worker claimed db db' h e =
    claim_rows-Follows now worker secs (ids_of (candidates now batch locked db)) db (claimed, db')
      (candidates-IsReady now batch locked db h) e

Step-Follows : {db db' : Database} → IsSound db → Step db db' → Follows db.jobs db'.jobs
Step-Follows {db} h (enqueues now k run p m n) = enqueue-Follows now k run p m n db
Step-Follows {db} {db'} h (claims now batch locked secs worker claimed e) =
    claim-Follows now batch secs locked worker claimed db db' h e
Step-Follows {db} h (beats now id token extend) = heartbeat-Follows now id token extend db
Step-Follows {db} {db'} h (completes now id token status code delay done e) =
    complete-Follows now id token status code delay db db' done h e
Step-Follows {db} h (recovers now) = recover-Follows now db

-- A sequence of calls.
pub data Calls (db : Database) : Database → Type 0 where
  no_call : Calls db db
  call : {db' db'' : Database} → Calls db db' → Step db' db'' → Calls db db''

Calls-IsSound : {db db' : Database} → IsSound db → Calls db db' → IsSound db'
Calls-IsSound h no_call = h
Calls-IsSound h (call c s) = Step-IsSound s (Calls-IsSound h c)

-- The queue refines the life of a job: whatever calls are made of a sound queue, in any order, at any
-- times and by any workers, each job stays under its key and its status moves along the life of a job
-- (waiting to running, running to a completion, a retryable one to running again), and the jobs that
-- came in meanwhile did so as pending ones.
pub Calls-Follows : {db db' : Database} → IsSound db → Calls db db' → Follows db.jobs db'.jobs
Calls-Follows {db} h no_call = Follows-refl db.jobs
Calls-Follows {db} {db'} h (call {db' = mid} c s) =
    Follows-trans db.jobs mid.jobs db'.jobs (Calls-Follows h c) (Step-Follows (Calls-IsSound h c) s)

-- A status from which no move leads.
abbrev pub is_final : JobStatus → Bool
is_final s = not (is_running s || is_claimable s)

final_stays : {s t : JobStatus} → is_final s ≡ true → Lifecycle s t → t ≡ s
final_stays f stays = refl
final_stays {s} f (starts c h) = absurd (ground (arith, f, c))
final_stays f (ends c h) = cc f

-- The row under a key is found again, further along its life.
Follows-find :
    (i : ℕ) (xs ys : List Job) {x : Job}
    → Follows xs ys
    → find_row (has_id i) xs ≡ some x
    → (y : Job) × ((find_row (has_id i) ys ≡ some y) × Lifecycle x.status y.status)
unfolding Follows
Follows-find i [] ys h e = cc
Follows-find i (z ∷ xs) [] h e = absurd h
Follows-find i (z ∷ xs) (y ∷ ys) {x} h e = elim (Bool-cases (has_id i z)) [
  | inl m ↦ (
    y,
    (rw (h.0, m) refl, subst (λ w. Lifecycle w.status y.status) (some_injective (rw m at e)) h.1.0),
  )
  | inr m ↦
      let (w, (found, moved)) = Follows-find i xs ys h.1.1 (rw m at e) in
      (w, (rw (h.0, m) found, moved))
]
  where
    some_injective : {a b : Job} → some a ≡ some b → a ≡ b
    some_injective q = cc

-- The outcome of a job is final: after any calls of a sound queue, a job that neither waits nor runs
-- (it succeeded, failed for good, or is blocked, cancelled or cached) is still found under its key, with the
-- same status.
pub Calls-is_final :
    {db db' : Database} (i : ℕ) (x : Job)
    → IsSound db
    → Calls db db'
    → find_row (has_id i) db.jobs ≡ some x
    → is_final x.status ≡ true
    → (y : Job) × ((find_row (has_id i) db'.jobs ≡ some y) × (y.status ≡ x.status))
Calls-is_final {db} {db'} i x h c e f =
    let (y, (found, moved)) = Follows-find i db.jobs db'.jobs (Calls-Follows h c) e in
    (y, (found, final_stays f moved))
