-- ===== src/Acquisition/Drain/Soundness.antt =====
-- The queue under `drain_normalize_jobs` of acquisition/runner.py.
use nyc_rental_listing_agent.Base.{
  ℕ, zero, suc, ◌+◌, ◌≤◌, ◌≡◌, refl, sym, ◌∙◌, inl, inr, ap, subst, String, Bool, false, Option,
  none, some, List, [], ◌∷◌, arith,
}
use nyc_rental_listing_agent.Base.Lists.{All}
use nyc_rental_listing_agent.Base.Result.{ok, ok-injective, Result-cases}
use nyc_rental_listing_agent.Base.Table.{select}
use nyc_rental_listing_agent.Enums.Ops.{JobStatus}
use nyc_rental_listing_agent.Enums.Listing.{DiscoveryMethod}
use nyc_rental_listing_agent.Model.Ops.{Job}
use nyc_rental_listing_agent.Model.Database.{Database}
use nyc_rental_listing_agent.Jobs.Queue.Claim.{claim}
use nyc_rental_listing_agent.Jobs.Queue.Complete.{complete}
use nyc_rental_listing_agent.Jobs.Queue.Claims.{IsClaimed}
use nyc_rental_listing_agent.Jobs.Queue.Candidates.{claim-total}
use nyc_rental_listing_agent.Jobs.Queue.Updates.{complete-IsSound}
use nyc_rental_listing_agent.Jobs.Queue.Invariant.{IsSound, IsSoundTable, IsSoundTable-mono}
use nyc_rental_listing_agent.Canonical.Normalization.Process.{process_observation}
use nyc_rental_listing_agent.Canonical.Normalization.Cautious.{process_observation-IsCautious}
use nyc_rental_listing_agent.Acquisition.Contracts.{Platform}
use nyc_rental_listing_agent.Acquisition.Runner.Source.{error_name}
use nyc_rental_listing_agent.Acquisition.Drain.{
  Work, is_normalize, first_work, next_work, completed, do_work, drain, drain_normalize_jobs,
}

module _ (env : Platform) where
  claimed-IsSound :
      (worker : String) (locked : ℕ → Bool) (db : Database) (r : List Job × Database)
      → IsSound db
      → claim (env.clock db.next_id) worker 300 1 locked db ≡ ok r
      → IsSound r.1
  claimed-IsSound worker locked db r h e =
      let (c, a, returned, sound, _, _, _) =
        claim-total (env.clock db.next_id) 1 locked db 300 worker h in
      subst IsSound (ap (λ x. x.1) (ok-injective (sym returned ∙ e))) sound

  next_work-IsSound :
      (worker : String) (locked : ℕ → Bool) (db : Database) (r : Option Work × Database)
      → IsSound db
      → next_work env worker locked db ≡ ok r
      → IsSound r.1
  unfolding next_work
  next_work-IsSound worker locked db r h e =
      elim (Result-cases (claim (env.clock db.next_id) worker 300 1 locked db)) [
        | inr (x, p) ↦ cc (rw (next_work, p) at e)
        | inl (c, p) ↦ elim (Result-cases (first_work env (select is_normalize c.0))) [
          | inr (x, u) ↦ cc (rw (next_work, p, u) at e)
          | inl (w, u) ↦
              subst (λ x. IsSound x.1) (ok-injective (rw (next_work, p, u) at e))
                (claimed-IsSound worker locked db c h p)
        ]
      ]

  completed-IsSound :
      (w : Work) (status : JobStatus) (code : Option String) (db db' : Database)
      → IsSound db
      → completed env w status code db ≡ ok db'
      → IsSound db'
  completed-IsSound w status code db db' h e =
      elim (Result-cases (complete (env.clock db.next_id) w.job_id w.lease status code 60 db)) [
        | inr (x, p) ↦ cc (rw p at e)
        | inl (r, p) ↦
            subst IsSound (ok-injective (rw p at e))
              (complete-IsSound (env.clock db.next_id) w.job_id w.lease status code 60 db p h)
      ]

  do_work-IsSound :
      (method : DiscoveryMethod) (w : Work) (db db' : Database)
      → IsSound db
      → do_work env method w db ≡ ok db'
      → IsSound db'
  unfolding do_work
  do_work-IsSound method w db db' h e =
      let now = env.clock db.next_id in
      elim (Result-cases (process_observation now w.observation_id method db)) [
        | inr (x, p) ↦
            completed-IsSound w JobStatus.failed_retryable (some (error_name x)) db db' h
              (rw (do_work, p) at e)
        | inl (r, p) ↦ elim (Result-cases (completed env w JobStatus.succeeded none r.1)) [
          | inr (x, q) ↦
              completed-IsSound w JobStatus.failed_retryable (some (error_name x)) db db' h
                (rw (do_work, p, q) at e)
          | inl (after, q) ↦ subst IsSound (ok-injective (rw (do_work, p, q) at e)) (
              completed-IsSound w JobStatus.succeeded none r.1 after
                (let spared =
                    (process_observation-IsCautious now w.observation_id method db r p).spared in
                  subst (λ js. IsSoundTable r.1.next_id js) (sym spared.jobs)
                    (IsSoundTable-mono spared.ids db.jobs h))
                q)
        ]
      ]

  drain-IsSound :
      (worker : String) (locked : ℕ → Bool) (method : DiscoveryMethod) (left processed : ℕ)
      (db : Database)
      → IsSound db
      → IsSound (drain env worker locked method left processed db).1
  unfolding drain
  drain-IsSound worker locked method zero processed db h = h
  drain-IsSound worker locked method (suc left) processed db h =
      elim (Result-cases (next_work env worker locked db)) [
        | inr (x, e) ↦ rw (drain, e) h
        | inl ((none, claimed), e) ↦
            rw (drain, e) (next_work-IsSound worker locked db (none, claimed) h e)
        | inl ((some w, claimed), e) ↦
            let sound = next_work-IsSound worker locked db (some w, claimed) h e in
            elim (Result-cases (do_work env method w claimed)) [
              | inr (x, f) ↦ rw (drain, e, f) sound
              | inl (after, f) ↦
                  rw (drain, e, f)
                    (drain-IsSound worker locked method left (suc processed) after
                      (do_work-IsSound method w claimed after sound f))
            ]
      ]

  drain-within :
      (worker : String) (locked : ℕ → Bool) (method : DiscoveryMethod) (left processed n : ℕ)
      (db : Database)
      → (drain env worker locked method left processed db).0 ≡ ok n
      → (processed ≤ n) × (n ≤ processed + left)
  unfolding drain
  drain-within worker locked method zero processed n db e =
      (omega (arith, ok-injective e), omega (arith, ok-injective e))
  drain-within worker locked method (suc left) processed n db e =
      elim (Result-cases (next_work env worker locked db)) [
        | inr (x, p) ↦ cc (rw (drain, p) at e)
        | inl ((none, claimed), p) ↦
            let same = ok-injective (rw (drain, p) at e) in
            (omega (arith, same), omega (arith, same))
        | inl ((some w, claimed), p) ↦ elim (Result-cases (do_work env method w claimed)) [
          | inr (x, f) ↦ cc (rw (drain, p, f) at e)
          | inl (after, f) ↦
              let (low, high) =
                drain-within worker locked method left (suc processed) n after
                  (rw (drain, p, f) at e) in
              (omega (arith, low), omega (arith, high))
        ]
      ]

-- A drain of the normalize jobs keeps the job table sound on every path, also where it raises or where
-- an observation could not be processed (no job makes more attempts than it may, a lease stands exactly
-- while a job runs, no two live jobs have one identity); where it returns, the number that it returns
-- is at most `max_jobs`.
pub drain_normalize_jobs-IsSound :
    (env : Platform) (worker : String) (locked : ℕ → Bool) (method : DiscoveryMethod) (max_jobs : ℕ)
    (db : Database)
    → IsSound db
    → (let ran = drain_normalize_jobs env worker locked method max_jobs db in
        IsSound ran.1 × ((n : ℕ) → ran.0 ≡ ok n → n ≤ max_jobs))
unfolding drain_normalize_jobs
drain_normalize_jobs-IsSound env worker locked method max_jobs db h = (
  drain-IsSound env worker locked method max_jobs 0 db h,
  λ n e.
      let (_, high) = drain-within env worker locked method max_jobs 0 n db e in
      omega (arith, high),
)

-- A job of another type strands: where the job that the claim takes first is no normalize job, the
-- drain ends at once with no job processed, and the database that it leaves is the one after the
-- claim, in which that job is taken.
pub drain_normalize_jobs-strands :
    (env : Platform) (worker : String) (locked : ℕ → Bool) (method : DiscoveryMethod) (max_jobs : ℕ)
    (db after : Database) (j : Job)
    → IsSound db
    → claim (env.clock db.next_id) worker 300 1 locked db ≡ ok (j ∷ [], after)
    → is_normalize j ≡ false
    → (drain_normalize_jobs env worker locked method (suc max_jobs) db ≡ (ok 0, after))
      × IsClaimed db.next_id (env.clock db.next_id) 300 worker j
unfolding drain_normalize_jobs drain next_work
drain_normalize_jobs-strands env worker locked method max_jobs db after j h e other = (
  rw (drain_normalize_jobs, drain, next_work, e, other) refl,
  let (c, a, returned, _, _, _, each) =
        claim-total (env.clock db.next_id) 1 locked db 300 worker h in
      (subst (λ x. All (IsClaimed db.next_id (env.clock db.next_id) 300 worker) x.0)
        (ok-injective (sym returned ∙ e)) each).0,
)
