-- ===== src/Jobs/Queue/Invariant.antt =====
-- What holds of the job table between two calls.
use nyc_rental_listing_agent.Base.{
  ℕ, ◌≤◌, ◌<◌, ◌≡◌, ◌↔◌, inl, inr, Bool, true, false, not, Option, none, some, List, [], ◌∷◌, ◌++◌,
  arith, ◌==◌, ap, is_none, str_eq_iff, opt_eq_iff, Bool-cases,
}
use nyc_rental_listing_agent.Base.Lists.{All, All-append, All-mono}
use nyc_rental_listing_agent.Base.Table.{exists, count, update_where}
use nyc_rental_listing_agent.Base.Table.Rules.{
  All-update_to, count-append, count-update-le, exists-count,
}
use nyc_rental_listing_agent.Enums.Ops.{same_job_type_iff}
use nyc_rental_listing_agent.Model.Ops.{Job}
use nyc_rental_listing_agent.Model.Database.{Database}
use nyc_rental_listing_agent.Jobs.Queue.Enqueue.{
  is_running, is_live, JobIdentity, identity, same_identity, is_live_as, new_job, enqueue,
}

-- A job has a lease exactly while it runs, and no more attempts than it may make.
pub record IsValidJob (j : Job) : Type 0 where
  pub attempts_capped : j.attempt_count ≤ j.max_attempts
  pub leased_runs : is_none j.lease_token ≡ not (is_running j.status)
  pub expiry_set : is_none j.lease_expires_at ≡ not (is_running j.status)

abbrev pub has_id : ℕ → Job → Bool
has_id i j = j.job_id == i

abbrev pub TokenBelow : ℕ → Option ℕ → Type 0
TokenBelow n none = Unit
TokenBelow n (some t) = t < n

-- The jobs of a table, where the supply stands at `n`: every job is valid, no two live jobs have one
-- identity, no two jobs one key, and every key and lease token was drawn from the supply.
pub record IsSoundTable (n : ℕ) (jobs : List Job) : Type 0 where
  pub valid : All IsValidJob jobs
  pub one_live : (k : JobIdentity) → count (is_live_as k) jobs ≤ 1
  pub keys_unique : (i : ℕ) → count (has_id i) jobs ≤ 1
  pub keys_below : All (λ j. j.job_id < n) jobs
  pub tokens_below : All (λ j. TokenBelow n j.lease_token) jobs

abbrev pub IsSound : Database → Type 0
IsSound db = IsSoundTable db.next_id db.jobs

pub same_identity_iff : (a b : JobIdentity) → (same_identity a b ≡ true) ↔ (a ≡ b)
unfolding same_identity
same_identity_iff a b = ground (
  arith,
  same_job_type_iff a.job_type b.job_type,
  opt_eq_iff a.canonical_listing_id b.canonical_listing_id,
  str_eq_iff a.input_hash b.input_hash,
  str_eq_iff a.dependency_version b.dependency_version,
)

TokenBelow-mono : {n n' : ℕ} → n ≤ n' → (t : Option ℕ) → TokenBelow n t → TokenBelow n' t
TokenBelow-mono up none h = tt
TokenBelow-mono up (some t) h = omega arith

-- The supply may go on.
pub IsSoundTable-mono :
    {n n' : ℕ} → n ≤ n' → (jobs : List Job) → IsSoundTable n jobs → IsSoundTable n' jobs
IsSoundTable-mono up jobs h = record {
  valid = h.valid;
  one_live = h.one_live;
  keys_unique = h.keys_unique;
  keys_below = All-mono _ (λ x b. omega arith) jobs h.keys_below;
  tokens_below = All-mono _ (λ x b. TokenBelow-mono up x.lease_token b) jobs h.tokens_below;
}

-- A class that no row is in gains the new row at most.
one_more :
    (q : Job → Bool) (xs : List Job) (x : Job)
    → (q x ≡ true → count q xs ≡ 0)
    → count q xs ≤ 1
    → count q (xs ++ x ∷ []) ≤ 1
one_more q xs x h k = elim (Bool-cases (q x)) [
  | inl e ↦ rw count-append (rw e (omega (arith, h e)))
  | inr e ↦ rw count-append (rw e (omega arith))
]

no_key_yet :
    (n : ℕ) (xs : List Job)
    → All (λ j. j.job_id < n) xs
    → (i : ℕ) → (n == i) ≡ true
    → count (has_id i) xs ≡ 0
no_key_yet n [] h i e = omega arith
no_key_yet n (x ∷ xs) h i e = ground (arith, no_key_yet n xs h.1 i e)

module _ (now : ℕ) (k : JobIdentity) (run : Option ℕ) (priority max_attempts : ℕ) (next : Option ℕ)
    (db : Database) where
  -- `enqueue` keeps the invariant.
  pub enqueue-IsSound : IsSound db → IsSound (enqueue now k run priority max_attempts next db).1
  unfolding enqueue
  enqueue-IsSound h = elim (Bool-cases (exists (is_live_as k) db.jobs)) [
    | inl e ↦ rw e h
    | inr e ↦ rw e (record {
      valid = All-append IsValidJob db.jobs (j ∷ []) h.valid (ground arith, tt);
      one_live = λ k'. one_more (is_live_as k') db.jobs j (fresh e k') (h.one_live k');
      keys_unique = λ i.
          one_more (has_id i) db.jobs j (no_key_yet db.next_id db.jobs h.keys_below i)
            (h.keys_unique i);
      keys_below =
          All-append _ db.jobs (j ∷ []) (All-mono _ (λ x b. omega arith) db.jobs h.keys_below)
            (omega arith);
      tokens_below =
          All-append _ db.jobs (j ∷ [])
            (All-mono _ (λ x b. TokenBelow-mono (omega arith) x.lease_token b) db.jobs
              h.tokens_below)
            (tt, tt);
    })
  ]
    where
      j : Job
      j = new_job now db.next_id k run priority max_attempts next

      fresh :
          exists (is_live_as k) db.jobs ≡ false
          → (k' : JobIdentity) → is_live_as k' j ≡ true
          → count (is_live_as k') db.jobs ≡ 0
      fresh e k' m = rw ((same_identity_iff k' k).0 m) (exists-count (is_live_as k) db.jobs e)

-- What an update may do to a job: it stays valid, keeps its key and identity, does not come back to
-- life, and its token comes from the supply.
pub record Rewrites (n : ℕ) (x y : Job) : Type 0 where
  pub valid : IsValidJob y
  pub key_kept : y.job_id ≡ x.job_id
  pub same_columns : identity y ≡ identity x
  pub live_back : is_live y.status ≡ true → is_live x.status ≡ true
  pub token_below : TokenBelow n y.lease_token

live_as_back :
    {n : ℕ} {x y : Job} (k : JobIdentity)
    → Rewrites n x y
    → is_live_as k y ≡ true
    → is_live_as k x ≡ true
live_as_back {n} {x} {y} k r m = ground (arith, r.live_back, ap (same_identity k) r.same_columns)

-- An update of such rows keeps the table sound, also where the supply went on.
pub update-IsSound :
    (n n' : ℕ) (jobs : List Job) (p : Job → Bool) (f : Job → Job)
    → n ≤ n'
    → All (λ x. p x ≡ true → Rewrites n' x (f x)) jobs
    → IsSoundTable n jobs
    → IsSoundTable n' (update_where p f jobs)
update-IsSound n n' jobs p f up ok h = record {
  valid =
      All-update_to IsValidJob p f (λ x v. v) jobs (All-mono _ (λ x r e v. (r e).valid) jobs ok)
        h.valid;
  one_live = λ k. omega (
    arith,
    h.one_live k,
    count-update-le (is_live_as k) _ p f (λ x r e m. live_as_back k (r e) m) jobs ok,
  );
  keys_unique = λ i. omega (
    arith,
    h.keys_unique i,
    count-update-le (has_id i) _ p f (λ x r e m. rw ((r e).key_kept) at m) jobs ok,
  );
  keys_below =
      All-update_to _ p f (λ x b. omega arith) jobs
        (All-mono _ (λ x r e b. omega (arith, (r e).key_kept)) jobs ok) h.keys_below;
  tokens_below =
      All-update_to _ p f (λ x b. TokenBelow-mono up x.lease_token b) jobs
        (All-mono _ (λ x r e b. (r e).token_below) jobs ok) h.tokens_below;
}
