-- ===== src/Jobs/Queue/Leases.antt =====
-- Leases of jobs/queue.py: what a token allows, and whom it keeps out.
use nyc_rental_listing_agent.Base.{
  ℕ, ◌≤◌, ◌<◌, ◌≡◌, refl, sym, ap, ◌∙◌, inl, inr, Bool, true, false, ◌&&◌, Option, none, some, List,
  [], ◌∷◌, arith, ==_iff, is_some_eq, Bool-cases, Option-cases, String,
}
use nyc_rental_listing_agent.Base.Lists.{All, All-mono, All-unmap}
use nyc_rental_listing_agent.Base.Result.{ok, ok-injective, Result-cases}
use mathlib.Core.Path.{subst}
use nyc_rental_listing_agent.Base.Table.{count, find_row}
use nyc_rental_listing_agent.Base.Table.Rules.{
  All-update, All-update_if, scalar-select, select-none, count-none, update-none, count-both,
  find_row_meets,
}
use nyc_rental_listing_agent.Enums.Ops.{JobStatus}
use nyc_rental_listing_agent.Model.Ops.{Job}
use nyc_rental_listing_agent.Model.Database.{Database}
use nyc_rental_listing_agent.Jobs.Queue.Enqueue.{is_running}
use nyc_rental_listing_agent.Jobs.Queue.Claim.{
  is_due, leased, lease_row, claim_rows, ids_of, candidates, claim,
}
use nyc_rental_listing_agent.Jobs.Queue.Complete.{
  holds_lease, is_completion, finished, complete, heartbeat, extended,
}
use nyc_rental_listing_agent.Jobs.Queue.Invariant.{IsSound, has_id}
use nyc_rental_listing_agent.Jobs.Queue.Claims.{RowsOf}
use nyc_rental_listing_agent.Jobs.Queue.Candidates.{
  candidates_due, count-candidates-le, claim-total,
}
use nyc_rental_listing_agent.Jobs.Queue.Updates.{complete-inv}

-- No row holds the lease: `complete` and `heartbeat` refuse.
pub NoHolder : (id token : ℕ) → Database → Type 0
NoHolder id token db = All (λ r. holds_lease id token r ≡ false) db.jobs

complete-refused :
    (now id token : ℕ) (status : JobStatus) (code : Option String) (delay : ℕ) (db : Database)
    → is_completion status ≡ true
    → NoHolder id token db
    → complete now id token status code delay db ≡ ok (false, db)
unfolding complete NoHolder
complete-refused now id token status code delay db c h =
    rw (c, select-none (holds_lease id token) db.jobs h)

heartbeat-refused :
    (now id token extend : ℕ) (db : Database)
    → NoHolder id token db
    → heartbeat now id token extend db ≡ (false, db)
unfolding heartbeat NoHolder
heartbeat-refused now id token extend db h =
    let miss : All (λ (r : Job). (holds_lease id token r && is_running r.status) ≡ false) db.jobs =
      All-mono _ (λ r e. ground (arith, e)) db.jobs h in
    rw (count-none _ db.jobs miss, update-none _ (extended now extend) db.jobs miss)

-- A token that no row of the key holds.
no-holder :
    (id token : ℕ) (db : Database)
    → RowsOf (λ r. is_some_eq r.lease_token token ≡ false) id db.jobs
    → NoHolder id token db
unfolding NoHolder
no-holder id token db h = All-mono _ (λ r m. ground (arith, m)) db.jobs h

-- After a completion that was accepted, completing the same job with the same token, as any completion
-- status, returns False and changes nothing.
pub complete-once :
    (now id token : ℕ) (status : JobStatus) (code : Option String) (delay : ℕ) (db db' : Database)
    (now' : ℕ) (status' : JobStatus) (code' : Option String) (delay' : ℕ)
    → complete now id token status code delay db ≡ ok (true, db')
    → is_completion status' ≡ true
    → complete now' id token status' code' delay' db' ≡ ok (false, db')
unfolding finished
complete-once now id token status code delay db db' now' status' code' delay' e c =
    elim (complete-inv now id token status code delay db true db' e) [
      | inl (f, _) ↦ cc
      | inr (j, found, _, jobs, _, _) ↦
          let (_, holds) = scalar-select (holds_lease id token) db.jobs found in
          let at_id : j.job_id ≡ id = ground (arith, holds) in
          complete-refused now' id token status' code' delay' db' c (
            no-holder id token db' (
              rw (jobs, at_id)
                (All-update_if _ (has_id id) (finished now status code delay) (λ r m _. released r)
                  (λ r m at. cc) db.jobs)))
    ]
  where
    released : (r : Job) → is_some_eq (finished now status code delay r).lease_token token ≡ false
    released r = refl

-- What the loop of `claim` keeps of the rows, where every lease that it writes keeps it.
claim_rows-keeps :
    (P : Job → Type 0) (n now : ℕ) (worker : String) (secs : ℕ)
    → ((m : ℕ) (r : Job) → n ≤ m → P r → P (leased now m worker secs r))
    → (ids : List ℕ) (db : Database) (claimed : List Job) (after : Database) → n ≤ db.next_id
    → claim_rows now worker secs ids db ≡ ok (claimed, after)
    → All P db.jobs
    → All P after.jobs
unfolding claim_rows
claim_rows-keeps P n now worker secs keep [] db claimed after up e h =
    subst (λ d. All P d.jobs) (ap (λ r. r.1) (ok-injective e)) h
claim_rows-keeps P n now worker secs keep (i ∷ ids) db claimed after up e h =
    elim (Option-cases (find_row (has_id i) db.jobs)) [
      | inl p ↦ absurd (ground (arith, p))
      | inr (j, p) ↦
          elim (Result-cases (claim_rows now worker secs ids (lease_row now worker secs j db).1)) [
            | inl ((c, a), q) ↦
                claim_rows-keeps P n now worker secs keep ids (lease_row now worker secs j db).1 c
                  after (omega arith) (rw q (ground (arith, p, q)))
                  (All-update P (has_id j.job_id) (leased now db.next_id worker secs)
                    (λ r _ pr. keep db.next_id r up pr) db.jobs h)
            | inr (x, q) ↦ absurd (ground (arith, p, q))
          ]
    ]

abbrev TokenFrom : ℕ → Option ℕ → Type 0
TokenFrom n none = ⊥
TokenFrom n (some t) = n ≤ t

-- A row at work under a token that was drawn at `n` or later.
pub record RunsAnew (n : ℕ) (r : Job) : Type 0 where
  pub runs : is_running r.status ≡ true
  pub token_from : TokenFrom n r.lease_token

claim_rows-RunsAnew :
    (n now : ℕ) (worker : String) (secs : ℕ) (ids : List ℕ) (db : Database) (claimed : List Job)
    (after : Database)
    → n ≤ db.next_id
    → claim_rows now worker secs ids db ≡ ok (claimed, after)
    → All (λ k. RowsOf (RunsAnew n) k after.jobs) ids
unfolding claim_rows
claim_rows-RunsAnew n now worker secs [] db claimed after up e = tt
claim_rows-RunsAnew n now worker secs (i ∷ ids) db claimed after up e =
    elim (Option-cases (find_row (has_id i) db.jobs)) [
      | inl p ↦ absurd (ground (arith, p))
      | inr (j, p) ↦
          elim (Result-cases (claim_rows now worker secs ids (lease_row now worker secs j db).1)) [
            | inl ((c, a), q) ↦
                let rest : claim_rows now worker secs ids (lease_row now worker secs j db).1
                    ≡ ok (c, after) =
                  rw q (ground (arith, p, q)) in
                let at_i : j.job_id ≡ i =
                  (==_iff j.job_id i).0 (find_row_meets (has_id i) db.jobs p) in
                (
                  claim_rows-keeps (λ r. has_id i r ≡ true → RunsAnew n r) n now worker secs
                      (λ m r le _ _. leased_anew m r le) ids (lease_row now worker secs j db).1 c
                      after (omega arith) rest
                      (All-update_if _ (has_id j.job_id) (leased now db.next_id worker secs)
                        (λ r _ _. leased_anew db.next_id r up)
                        (λ r no at. absurd (ground (arith, at_i))) db.jobs),
                  claim_rows-RunsAnew n now worker secs ids (lease_row now worker secs j db).1 c
                      after (omega arith) rest,
                )
            | inr (x, q) ↦ absurd (ground (arith, p, q))
          ]
    ]
  where
    leased_anew : (m : ℕ) (r : Job) → n ≤ m → RunsAnew n (leased now m worker secs r)
    leased_anew m r le = record { runs = refl; token_from = le }

not-due :
    {n : ℕ} (now k : ℕ) (r : Job)
    → (has_id k r ≡ true → RunsAnew n r)
    → (has_id k r && is_due now r) ≡ false
unfolding is_due
not-due now k r m = elim (Bool-cases (has_id k r)) [
  | inl e ↦ ground (arith, e, (m e).runs)
  | inr e ↦ rw e
]

newer : (old n : ℕ) (t : Option ℕ) → old < n → TokenFrom n t → is_some_eq t old ≡ false
newer old n none lt h = absurd h
newer old n (some t) lt h = ground arith

module _ (now batch : ℕ) (locked : ℕ → Bool) (secs : ℕ) (worker : String) (db : Database)
    (claimed : List Job) (after : Database)
    (done : claim now worker secs batch locked db ≡ ok (claimed, after)) (h : IsSound db) where
  -- the keys of the claimed jobs, in the table that `claim` leaves
  claimed-RunsAnew : All (λ j. RowsOf (RunsAnew db.next_id) j.job_id after.jobs) claimed
  unfolding claim
  claimed-RunsAnew =
      let (c, a, returned, _, keys, _, _) = claim-total now batch locked db secs worker h in
      let same : c ≡ claimed = ap (λ r. r.0) (ok-injective (sym returned ∙ done)) in
      All-unmap _ _ claimed (
        subst (All (λ k. RowsOf (RunsAnew db.next_id) k after.jobs)) (sym keys ∙ ap ids_of same)
          (claim_rows-RunsAnew db.next_id now worker secs _ db claimed after (omega arith) done))

  -- Where the invariant holds before a claim: in the state after it, no job that it claimed is a
  -- candidate of a further claim, at any time and with any locks.
  pub claim_exclusive :
      (now' batch' : ℕ) (locked' : ℕ → Bool)
      → All (λ j. count (has_id j.job_id) (candidates now' batch' locked' after) ≡ 0) claimed
  claim_exclusive now' batch' locked' =
      All-mono _
        (λ j rows. omega (
          arith,
          count-both (has_id j.job_id) (is_due now') (candidates now' batch' locked' after)
              (All-mono _ (λ x d. d.0) _ (candidates_due now' batch' locked' after)),
          count-candidates-le now' batch' locked' after (λ r. has_id j.job_id r && is_due now' r),
          count-none _ after.jobs (All-mono _ (λ r m. not-due now' j.job_id r m) after.jobs rows),
        ))
        claimed claimed-RunsAnew

  -- Where the invariant holds before a claim: a token drawn before it can, after it, neither complete
  -- a job that it claimed, as any completion status, nor extend its lease, and both change nothing.
  pub claim_fences :
      (old : ℕ) (now' : ℕ) (status : JobStatus) (code : Option String) (delay extend : ℕ)
      → old < db.next_id
      → is_completion status ≡ true
      → All
          (λ j.
            (complete now' j.job_id old status code delay after ≡ ok (false, after))
            × (heartbeat now' j.job_id old extend after ≡ (false, after)))
          claimed
  claim_fences old now' status code delay extend lt c =
      All-mono _
        (λ j rows.
          let none_holds : NoHolder j.job_id old after = no-holder j.job_id old after (
            All-mono _ (λ r m at. newer old db.next_id r.lease_token lt (m at).token_from)
              after.jobs rows) in
          (
            complete-refused now' j.job_id old status code delay after c none_holds,
            heartbeat-refused now' j.job_id old extend after none_holds,
          ))
        claimed claimed-RunsAnew
