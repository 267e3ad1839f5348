-- ===== src/Jobs/Queue/Claims.antt =====
-- The loop of `claim` over the keys of its candidates.
use nyc_rental_listing_agent.Base.{
  ℕ, suc, ◌+◌, ◌≤◌, ◌<◌, ◌≡◌, refl, sym, ap, true, some, List, [], ◌∷◌, arith, ◌==◌, ==_iff, String,
}
use nyc_rental_listing_agent.Base.Lists.{All, All-mono, All-mono2}
use nyc_rental_listing_agent.Base.Result.{ok}
use nyc_rental_listing_agent.Base.Table.{update_where, count, find_row}
use nyc_rental_listing_agent.Base.Table.Rules.{
  count-zero, All-find, All-update, find_row-counted, count-update_same,
}
use nyc_rental_listing_agent.Enums.Ops.{JobStatus}
use nyc_rental_listing_agent.Model.Ops.{Job, seconds}
use nyc_rental_listing_agent.Model.Database.{Database}
use nyc_rental_listing_agent.Jobs.Queue.Enqueue.{is_claimable}
use nyc_rental_listing_agent.Jobs.Queue.Claim.{leased, lease_row, claim_rows, ids_of}
use nyc_rental_listing_agent.Jobs.Queue.Invariant.{
  IsValidJob, IsSound, Rewrites, update-IsSound, has_id,
}

-- A job that may be given a lease.
pub record IsStartable (j : Job) : Type 0 where
  pub claimable : is_claimable j.status ≡ true
  pub attempts_left : j.attempt_count < j.max_attempts

abbrev pub RowsOf : (Job → Type 0) → ℕ → List Job → Type 0
RowsOf P i jobs = All (λ r. has_id i r ≡ true → P r) jobs

-- The keys that the loop of `claim` is yet to go through.
pub record IsReady (ids : List ℕ) (jobs : List Job) : Type 0 where
  pub once : (i : ℕ) → count (λ k. k == i) ids ≤ 1
  pub startable : All (λ k. RowsOf IsStartable k jobs) ids
  pub present : All (λ k. 0 < count (has_id k) jobs) ids

-- What `claim` hands to a worker: a job that now runs under a new token.
pub record IsClaimed (n now lease_seconds : ℕ) (worker : String) (j : Job) : Type 0 where
  pub runs : j.status ≡ JobStatus.running
  pub token : ℕ
  pub holds : j.lease_token ≡ some token
  pub new_token : n ≤ token
  pub by_worker : j.leased_by ≡ some worker
  pub until : j.lease_expires_at ≡ some (now + seconds lease_seconds)
  pub attempts_capped : j.attempt_count ≤ j.max_attempts

module _ (now secs : ℕ) (worker : String) where
  leased-Rewrites :
      (n : ℕ) (x : Job)
      → IsValidJob x
      → IsStartable x
      → Rewrites (suc n) x (leased now n worker secs x)
  unfolding leased
  leased-Rewrites n x v s = record {
    valid = ground arith;
    key_kept = refl;
    same_columns = refl;
    live_back = λ _. ground arith;
    token_below = omega arith;
  }

  -- The rest of the keys stay ready, since the update is on another.
  pub IsReady-tail :
      (n k : ℕ) (ids : List ℕ) (jobs : List Job)
      → IsReady (k ∷ ids) jobs
      → IsReady ids (update_where (has_id k) (leased now n worker secs) jobs)
  unfolding leased
  IsReady-tail n k ids jobs h = record {
    once = λ i. omega (arith, h.once i);
    startable =
        All-mono2
          (λ y other s.
            All-update _ (has_id k) (leased now n worker secs)
              (λ r at_k p at_y. absurd (ground arith)) jobs s)
          ids (count-zero (λ y. y == k) ids (ground (arith, h.once k))) h.startable.1;
    present =
        All-mono
          (λ y. 0 < count (has_id y) (update_where (has_id k) (leased now n worker secs) jobs))
          (λ y p.
            rw (count-update_same (has_id y) (has_id k) (leased now n worker secs) (λ r. refl) jobs)
              p)
          ids h.present.1;
  }

  -- A step of the loop, at a row that is ready.
  lease-IsSound :
      (j : Job) (ids : List ℕ) (db : Database)
      → IsSound db
      → IsReady (j.job_id ∷ ids) db.jobs
      → IsSound (lease_row now worker secs j db).1
  unfolding lease_row
  lease-IsSound j ids db h r =
      update-IsSound db.next_id (suc db.next_id) db.jobs (has_id j.job_id)
        (leased now db.next_id worker secs) (omega arith)
        (All-mono2 (λ y v s m. leased-Rewrites db.next_id y v (s m)) db.jobs h.valid r.startable.0)
        h

  -- What the loop returns.
  pub record Outcome (ids : List ℕ) (db : Database) : Type 0 where
    pub claimed : List Job
    pub after : Database
    pub returned : claim_rows now worker secs ids db ≡ ok (claimed, after)
    pub sound : IsSound after
    pub keys : ids_of claimed ≡ ids
    pub each : All (IsClaimed db.next_id now secs worker) claimed

  IsClaimed-row :
      (n : ℕ) (j : Job)
      → j.attempt_count < j.max_attempts
      → IsClaimed n now secs worker (leased now n worker secs j)
  unfolding leased
  IsClaimed-row n j h = record {
    runs = refl;
    token = n;
    holds = refl;
    new_token = omega arith;
    by_worker = refl;
    until = refl;
    attempts_capped = omega arith;
  }

  IsClaimed-later :
      (n : ℕ) (j : Job) → IsClaimed (suc n) now secs worker j → IsClaimed n now secs worker j
  IsClaimed-later n j c = record {
    runs = c.runs;
    token = c.token;
    holds = c.holds;
    new_token = omega (arith, c.new_token);
    by_worker = c.by_worker;
    until = c.until;
    attempts_capped = c.attempts_capped;
  }

  outcome-cons :
      (j : Job) (ids : List ℕ) (db : Database)
      → find_row (has_id j.job_id) db.jobs ≡ some j
      → j.attempt_count < j.max_attempts
      → Outcome ids (lease_row now worker secs j db).1
      → Outcome (j.job_id ∷ ids) db
  unfolding claim_rows
  outcome-cons j ids db found left o = record {
    claimed = leased now db.next_id worker secs j ∷ o.claimed;
    after = o.after;
    returned = ground (arith, found, o.returned);
    sound = o.sound;
    keys = ap (λ r. j.job_id ∷ r) o.keys;
    each =
        (IsClaimed-row db.next_id j left, All-mono _ (IsClaimed-later db.next_id) o.claimed o.each);
  }

  pub claim_rows-total :
      (ids : List ℕ) (db : Database) → IsSound db → IsReady ids db.jobs → Outcome ids db
  unfolding claim_rows
  claim_rows-total [] db h r = record {
    claimed = [];
    after = db;
    returned = refl;
    sound = h;
    keys = refl;
    each = tt;
  }
  claim_rows-total (k ∷ ids) db h r =
      let (j, found, at_k) = find_row-counted (has_id k) db.jobs r.present.0 in
      let same : k ≡ j.job_id = sym ((==_iff j.job_id k).0 at_k) in
      let start : IsStartable j = All-find _ (has_id k) db.jobs r.startable.0 found at_k in
      let ready : IsReady (j.job_id ∷ ids) db.jobs = rw same at r in
      rw same (
        outcome-cons j ids db (rw same at found) start.attempts_left (
          claim_rows-total ids (lease_row now worker secs j db).1 (lease-IsSound j ids db h ready)
            (IsReady-tail db.next_id j.job_id ids db.jobs ready)))
