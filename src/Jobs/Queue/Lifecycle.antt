-- ===== src/Jobs/Queue/Lifecycle.antt =====
-- The life of a job, as an abstract machine that the methods of jobs/queue.py refine.
use nyc_rental_listing_agent.Base.{
  ℕ, ◌≡◌, refl, sym, ◌∙◌, inl, inr, ap, subst, String, Bool, true, List, [], ◌∷◌, ◌++◌, ==_iff,
  Bool-cases,
}
use nyc_rental_listing_agent.Base.Lists.{All, All-mono}
use nyc_rental_listing_agent.Base.Result.{ok, ok-injective, Result-cases}
use nyc_rental_listing_agent.Base.Table.{update_where}
use nyc_rental_listing_agent.Base.Table.Rules.{find_row-counted}
use nyc_rental_listing_agent.Enums.Ops.{JobStatus}
use nyc_rental_listing_agent.Model.Ops.{Job}
use nyc_rental_listing_agent.Model.Database.{Database}
use nyc_rental_listing_agent.Jobs.Queue.Enqueue.{is_claimable}
use nyc_rental_listing_agent.Jobs.Queue.Claim.{leased, lease_row, claim_rows}
use nyc_rental_listing_agent.Jobs.Queue.Complete.{is_completion}
use nyc_rental_listing_agent.Jobs.Queue.Invariant.{has_id}
use nyc_rental_listing_agent.Jobs.Queue.Claims.{IsReady, IsStartable, IsReady-tail}

-- A job waits, runs, and ends a run in a completion, from which only a retry starts anew.
pub data Lifecycle : JobStatus → JobStatus → Type 0 where
  stays : {s : JobStatus} → Lifecycle s s
  starts : {s t : JobStatus} → is_claimable s ≡ true → Lifecycle JobStatus.running t → Lifecycle s t
  ends : {s t : JobStatus} → is_completion s ≡ true → Lifecycle s t → Lifecycle JobStatus.running t

Lifecycle-trans : {s t u : JobStatus} → Lifecycle s t → Lifecycle t u → Lifecycle s u
Lifecycle-trans stays k = k
Lifecycle-trans (starts c h) k = starts c (Lifecycle-trans h k)
Lifecycle-trans (ends c h) k = ends c (Lifecycle-trans h k)

-- Each row stays in its place under its key and moves along the life of a job; rows that are new came
-- in as pending.
unfoldable pub Follows : List Job → List Job → Type 0
Follows [] ys = All (λ y. Lifecycle JobStatus.pending y.status) ys
Follows (x ∷ xs) [] = ⊥
Follows (x ∷ xs) (y ∷ ys) = (y.job_id ≡ x.job_id) × (Lifecycle x.status y.status × Follows xs ys)

pub Follows-refl : (xs : List Job) → Follows xs xs
unfolding Follows
Follows-refl [] = tt
Follows-refl (x ∷ xs) = (refl, (stays, Follows-refl xs))

new-Follows :
    (xs ys : List Job)
    → All (λ x. Lifecycle JobStatus.pending x.status) xs
    → Follows xs ys
    → All (λ y. Lifecycle JobStatus.pending y.status) ys
unfolding Follows
new-Follows [] ys h k = k
new-Follows (x ∷ xs) [] h k = absurd k
new-Follows (x ∷ xs) (y ∷ ys) h k = (Lifecycle-trans h.0 k.1.0, new-Follows xs ys h.1 k.1.1)

pub Follows-trans : (xs ys zs : List Job) → Follows xs ys → Follows ys zs → Follows xs zs
unfolding Follows
Follows-trans [] ys zs h k = new-Follows ys zs h k
Follows-trans (x ∷ xs) [] zs h k = absurd h
Follows-trans (x ∷ xs) (y ∷ ys) [] h k = absurd k
Follows-trans (x ∷ xs) (y ∷ ys) (z ∷ zs) h k =
    (k.0 ∙ h.0, (Lifecycle-trans h.1.0 k.1.0, Follows-trans xs ys zs h.1.1 k.1.1))

pub append-Follows :
    (xs : List Job) (y : Job) → Lifecycle JobStatus.pending y.status → Follows xs (xs ++ y ∷ [])
unfolding Follows
append-Follows [] y h = (h, tt)
append-Follows (x ∷ xs) y h = (refl, (stays, append-Follows xs y h))

-- A row that an update may write: it keeps its key and moves along the life of a job.
abbrev pub MovesBy : (Job → Job) → Job → Type 0
MovesBy f x = ((f x).job_id ≡ x.job_id) × Lifecycle x.status (f x).status

pub update-Follows :
    (p : Job → Bool) (f : Job → Job) (xs : List Job)
    → All (λ x. p x ≡ true → MovesBy f x) xs
    → Follows xs (update_where p f xs)
unfolding Follows
update-Follows p f [] h = tt
update-Follows p f (x ∷ xs) h = elim (Bool-cases (p x)) [
  | inl e ↦ rw e (let m = h.0 e in (m.0, (m.1, update-Follows p f xs h.1)))
  | inr e ↦ rw e (refl, (stays, update-Follows p f xs h.1))
]

leased-MovesBy :
    (now n : ℕ) (worker : String) (secs : ℕ) (x : Job)
    → IsStartable x
    → MovesBy (leased now n worker secs) x
unfolding leased
leased-MovesBy now n worker secs x s = (refl, starts s.claimable stays)

pub claim_rows-Follows :
    (now : ℕ) (worker : String) (secs : ℕ) (ids : List ℕ) (db : Database) (r : List Job × Database)
    → IsReady ids db.jobs
    → claim_rows now worker secs ids db ≡ ok r
    → Follows db.jobs r.1.jobs
unfolding claim_rows lease_row
claim_rows-Follows now worker secs [] db r h e =
    subst (λ x. Follows db.jobs x.1.jobs) (ok-injective e) (Follows-refl db.jobs)
claim_rows-Follows now worker secs (k ∷ ids) db r h e =
    let (j, found, at_k) = find_row-counted (has_id k) db.jobs h.present.0 in
    let same : j.job_id ≡ k = (==_iff j.job_id k).0 at_k in
    let next = (lease_row now worker secs j db).1 in
    let f = leased now db.next_id worker secs in
    let moved = update-Follows (has_id k) f db.jobs (
      All-mono _ (λ x s m. leased-MovesBy now db.next_id worker secs x (s m)) db.jobs
        h.startable.0) in
    let jobs : next.jobs ≡ update_where (has_id k) f db.jobs =
      ap (λ i. update_where (has_id i) f db.jobs) same in
    elim (Result-cases (claim_rows now worker secs ids next)) [
      | inr (x, p) ↦ cc (rw (claim_rows, found, p) at e)
      | inl (rest, p) ↦
          subst (λ x. Follows db.jobs x.1.jobs) (ok-injective (rw (claim_rows, found, p) at e))
            (Follows-trans db.jobs next.jobs rest.1.jobs
              (subst (λ js. Follows db.jobs js) (sym jobs) moved)
              (claim_rows-Follows now worker secs ids next rest
                (subst (λ js. IsReady ids js) (sym jobs)
                  (IsReady-tail now secs worker db.next_id k ids db.jobs h))
                p))
    ]
