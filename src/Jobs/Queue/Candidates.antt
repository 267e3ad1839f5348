-- ===== src/Jobs/Queue/Candidates.antt =====
-- The candidates of `claim`, and what it returns.
use native.Mathlib.Nat.{le_trans, le_of_eq}
use nyc_rental_listing_agent.Base.{
  ℕ, suc, ◌≤◌, ◌<◌, ◌≡◌, refl, ap, Bool, true, false, ◌&&◌, List, [], ◌∷◌, arith, ◌==◌, ==_refl,
  String, &&_left,
}
use nyc_rental_listing_agent.Base.Lists.{
  All, All-mono, All-mono2, All-take, All-map, length, length-take-le,
}
use nyc_rental_listing_agent.Base.Result.{ok}
use nyc_rental_listing_agent.Base.Table.{select, count}
use nyc_rental_listing_agent.Base.Table.Rules.{
  count-take-le, count-order_by, count-select-le, All-order_by, All-select_self, members_counted,
  only_row, count_mono,
}
use nyc_rental_listing_agent.Model.Ops.{Job}
use nyc_rental_listing_agent.Model.Database.{Database}
use nyc_rental_listing_agent.Jobs.Queue.Claim.{is_due, goes_first, candidates, ids_of, claim}
use nyc_rental_listing_agent.Jobs.Queue.Invariant.{IsSound, has_id}
use nyc_rental_listing_agent.Jobs.Queue.Claims.{IsStartable, IsReady, IsClaimed, claim_rows-total}

count-ids : (i : ℕ) (c : List Job) → count (λ k. k == i) (ids_of c) ≡ count (has_id i) c
count-ids i [] = refl
count-ids i (x ∷ c) = omega (arith, count-ids i c)

length-ids : (a b : List Job) → ids_of a ≡ ids_of b → length a ≡ length b
length-ids [] [] e = refl
length-ids [] (y ∷ b) e = cc
length-ids (x ∷ a) [] e = cc
length-ids (x ∷ a) (y ∷ b) e = ap suc (length-ids a b (cc e))

module _ (now batch_size : ℕ) (locked : ℕ → Bool) (db : Database) where
  pub count-candidates-le :
      (q : Job → Bool) → count q (candidates now batch_size locked db) ≤ count q db.jobs
  unfolding candidates
  count-candidates-le q = le_trans (count-take-le q batch_size _) (
      le_trans (le_of_eq (count-order_by q goes_first (select _ db.jobs)))
        (count-select-le q _ db.jobs))

  -- Every candidate is due and not locked.
  pub candidates_due :
      All
        (λ j. (is_due now j ≡ true) × (locked j.job_id ≡ false))
        (candidates now batch_size locked db)
  unfolding candidates
  candidates_due = All-take _ batch_size _ (
      All-order_by _ goes_first (select _ db.jobs)
        (All-mono _ (λ j e. ground (arith, e)) (select _ db.jobs) (All-select_self _ db.jobs)))

  length-candidates-le : length (candidates now batch_size locked db) ≤ batch_size
  unfolding candidates
  length-candidates-le = length-take-le batch_size _

  -- The row of a candidate, in the table.
  in_table :
      All
        (λ x. 0 < count (λ r. has_id x.job_id r && is_due now r) db.jobs)
        (candidates now batch_size locked db)
  in_table =
      All-mono2 (λ x due there. there (rw (==_refl x.job_id, due.0) refl))
        (candidates now batch_size locked db) candidates_due
        (members_counted (λ x r. has_id x.job_id r && is_due now r) db.jobs
          (candidates now batch_size locked db) count-candidates-le)

  due-IsStartable : (j : Job) → is_due now j ≡ true → IsStartable j
  unfolding is_due
  due-IsStartable j h = record { claimable = ground (arith, h); attempts_left = ground (arith, h) }

  pub candidates-IsReady :
      IsSound db → IsReady (ids_of (candidates now batch_size locked db)) db.jobs
  candidates-IsReady h = record {
    once = λ i.
        rw (count-ids i (candidates now batch_size locked db))
          (le_trans (count-candidates-le (has_id i)) (h.keys_unique i));
    startable = All-map _ _ _ (
        All-mono _
          (λ x there.
            All-mono _ (λ r m at_x. due-IsStartable r (m at_x)) db.jobs
              (only_row (has_id x.job_id) (is_due now) db.jobs there (h.keys_unique x.job_id)))
          _ in_table);
    present = All-map _ _ _ (
        All-mono _
          (λ x there. le_trans there (
            count_mono _ (has_id x.job_id) db.jobs
              (λ r. &&_left (has_id x.job_id r) (is_due now r))))
          _ in_table);
  }

  -- Where the invariant holds, `claim` returns without an error: the candidates in their order, at most
  -- the batch, each at work under a new token, and the invariant holds after it.
  pub claim-total :
      (lease_seconds : ℕ) (worker : String)
      → IsSound db
      → (claimed : List Job) × (after : Database) × (claim now worker lease_seconds batch_size
            locked db
          ≡ ok (claimed, after))
        × IsSound after
        × (ids_of claimed ≡ ids_of (candidates now batch_size locked db))
        × (length claimed ≤ batch_size)
        × All (IsClaimed db.next_id now lease_seconds worker) claimed
  unfolding claim
  claim-total secs worker h =
      let o =
        claim_rows-total now secs worker (ids_of (candidates now batch_size locked db)) db h
          (candidates-IsReady h) in
      (
        o.claimed,
        o.after,
        o.returned,
        o.sound,
        o.keys,
        omega (arith, length-ids o.claimed _ o.keys, length-candidates-le),
        o.each,
      )
