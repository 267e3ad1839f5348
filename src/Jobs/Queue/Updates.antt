-- ===== src/Jobs/Queue/Updates.antt =====
-- `heartbeat`, `complete` and `recover_expired_leases` as updates of the job table.
use nyc_rental_listing_agent.Base.{
  ℕ, ◌≡◌, refl, ◌⊎◌, inl, inr, Bool, true, false, ◌&&◌, Option, none, some, arith, ◌==◌, is_some_eq,
  Bool-cases, String,
}
use nyc_rental_listing_agent.Base.Lists.{All, All-mono, All-mono2}
use nyc_rental_listing_agent.Base.Result.{Result, err, ok, Result-cases}
use nyc_rental_listing_agent.Base.Table.{select, update_where, scalar_one_or_none}
use nyc_rental_listing_agent.Base.Table.Rules.{scalar-select, only_row}
use nyc_rental_listing_agent.Enums.Ops.{JobStatus}
use nyc_rental_listing_agent.Model.Ops.{Job}
use nyc_rental_listing_agent.Model.Database.{Database}
use nyc_rental_listing_agent.Jobs.Queue.Enqueue.{is_running}
use nyc_rental_listing_agent.Jobs.Queue.Complete.{
  is_completion, complete_row, is_attempt, holds_lease, extended, heartbeat, finished, complete,
  is_expired, recovered, recover_expired_leases,
}
use nyc_rental_listing_agent.Jobs.Queue.Invariant.{
  IsValidJob, TokenBelow, IsSound, Rewrites, update-IsSound, has_id,
}

extended-Rewrites :
    (n now secs id token : ℕ) (x : Job)
    → IsValidJob x
    → TokenBelow n x.lease_token
    → (holds_lease id token x && is_running x.status) ≡ true
    → Rewrites n x (extended now secs x)
extended-Rewrites n now secs id token x v t m = record {
  valid = ground arith;
  key_kept = refl;
  same_columns = refl;
  live_back = λ l. l;
  token_below = t;
}

pub heartbeat-IsSound :
    (now id token secs : ℕ) (db : Database)
    → IsSound db
    → IsSound (heartbeat now id token secs db).1
unfolding heartbeat
heartbeat-IsSound now id token secs db h =
    update-IsSound db.next_id db.next_id db.jobs _ (extended now secs) (omega arith)
      (All-mono2 (extended-Rewrites db.next_id now secs id token) db.jobs h.valid h.tokens_below) h

recovered-Rewrites :
    (n now : ℕ) (x : Job) → IsValidJob x → is_expired now x ≡ true → Rewrites n x (recovered now x)
unfolding is_expired recovered
recovered-Rewrites n now x v m = record {
  valid = ground arith;
  key_kept = refl;
  same_columns = refl;
  live_back = ground arith;
  token_below = tt;
}

pub recover-IsSound :
    (now : ℕ) (db : Database) → IsSound db → IsSound (recover_expired_leases now db).1
unfolding recover_expired_leases
recover-IsSound now db h =
    update-IsSound db.next_id db.next_id db.jobs (is_expired now) (recovered now) (omega arith)
      (All-mono _ (recovered-Rewrites db.next_id now) db.jobs h.valid) h

finished-Rewrites :
    (n now id token : ℕ) (status : JobStatus) (code : Option String) (delay : ℕ) (x : Job)
    → is_completion status ≡ true
    → IsValidJob x
    → holds_lease id token x ≡ true
    → Rewrites n x (finished now status code delay x)
unfolding finished
finished-Rewrites n now id token status code delay x c v m = record {
  valid = ground arith;
  key_kept = refl;
  same_columns = refl;
  live_back = λ _. ground arith;
  token_below = tt;
}

-- Only the row that holds the lease has its key.
pub holder-only :
    (id token : ℕ) (db : Database) {j : Job}
    → IsSound db
    → scalar_one_or_none (select (holds_lease id token) db.jobs) ≡ ok (some j)
    → All (λ x. (x.job_id == j.job_id) ≡ true → holds_lease id token x ≡ true) db.jobs
holder-only id token db {j} h e =
    let (some_row, holds) = scalar-select (holds_lease id token) db.jobs e in
    let key : j.job_id ≡ id = ground arith in
    All-mono _ (λ x k m. ground (arith, k)) db.jobs
      (only_row (has_id id) (λ x. is_some_eq x.lease_token token) db.jobs some_row
        (h.keys_unique id))

module _ (now id token : ℕ) (status : JobStatus) (code : Option String) (delay : ℕ)
    (db : Database) where
  complete_row-inv :
      (j : Job) {done : Bool} {db' : Database}
      → complete_row now status code delay j db ≡ ok (done, db')
      → (db'.jobs ≡ update_where (has_id j.job_id) (finished now status code delay) db.jobs)
        × (db'.next_id ≡ db.next_id)
        × (done ≡ true)
  unfolding complete_row
  complete_row-inv j e =
      elim (Result-cases
        (scalar_one_or_none (select (is_attempt j.job_id j.attempt_count) db.attempts))) [
          | inl (a, p) ↦ (ground (arith, p), ground (arith, p), ground (arith, p))
          | inr (x, p) ↦ absurd (ground (arith, p))
        ]

  -- What `complete` did, where it returned: nothing, or the one update of the row with the lease.
  pub complete-inv :
      (done : Bool) (db' : Database)
      → complete now id token status code delay db ≡ ok (done, db')
      → (done ≡ false) × (db' ≡ db)
        ⊎ ((j : Job) × (scalar_one_or_none (select (holds_lease id token) db.jobs) ≡ ok (some j))
            × (is_completion status ≡ true)
            × (db'.jobs ≡ update_where (has_id j.job_id) (finished now status code delay) db.jobs)
            × (db'.next_id ≡ db.next_id)
            × (done ≡ true))
  unfolding complete
  complete-inv done db' e = elim (Bool-cases (is_completion status)) [
    | inl c ↦ go c (scalar_one_or_none (select (holds_lease id token) db.jobs)) refl
    | inr c ↦ absurd (ground (arith, c))
  ]
    where
      go :
          is_completion status ≡ true
          → (r : Result (Option Job))
          → scalar_one_or_none (select (holds_lease id token) db.jobs) ≡ r
          → (done ≡ false) × (db' ≡ db)
            ⊎ ((j : Job) × (scalar_one_or_none (select (holds_lease id token) db.jobs)
                  ≡ ok (some j))
                × (is_completion status ≡ true)
                × (db'.jobs
                    ≡ update_where (has_id j.job_id) (finished now status code delay) db.jobs)
                × (db'.next_id ≡ db.next_id)
                × (done ≡ true))
      go c (ok none) p = inl (ground (arith, c, p), ground (arith, c, p))
      go c (ok (some j)) p =
          let (x, y, z) = complete_row-inv j (rw (c, p, complete) at e) in inr (j, p, c, x, y, z)
      go c (err x) p = absurd (ground (arith, c, p))

  -- `complete` keeps the invariant.
  pub complete-IsSound :
      {done : Bool} {db' : Database}
      → complete now id token status code delay db ≡ ok (done, db')
      → IsSound db
      → IsSound db'
  complete-IsSound {done} {db'} e h = elim (complete-inv done db' e) [
    | inl (a, b) ↦ rw b h
    | inr (j, found, c, jobs, next, d) ↦
        rw (jobs, next)
          (update-IsSound db.next_id db.next_id db.jobs (has_id j.job_id)
            (finished now status code delay) (omega arith)
            (All-mono2
              (λ x v holds m.
                finished-Rewrites db.next_id now id token status code delay x c v (holds m))
              db.jobs h.valid (holder-only id token db h found))
            h)
  ]
