-- ===== src/Jobs/Queue/Reach.antt =====
-- Every state that the methods of the queue lead to from an empty database.
use nyc_rental_listing_agent.Base.{ℕ, ◌≡◌, Bool, String, Option, List, arith, ap, ◌∙◌, sym}
use mathlib.Core.Path.{subst}
use nyc_rental_listing_agent.Base.Result.{ok, ok-injective}
use nyc_rental_listing_agent.Enums.Ops.{JobStatus}
use nyc_rental_listing_agent.Model.Ops.{Job}
use nyc_rental_listing_agent.Model.Database.{Database, empty}
use nyc_rental_listing_agent.Jobs.Queue.Enqueue.{JobIdentity, enqueue}
use nyc_rental_listing_agent.Jobs.Queue.Claim.{claim}
use nyc_rental_listing_agent.Jobs.Queue.Complete.{heartbeat, complete, recover_expired_leases}
use nyc_rental_listing_agent.Jobs.Queue.Invariant.{IsSound, enqueue-IsSound}
use nyc_rental_listing_agent.Jobs.Queue.Candidates.{claim-total}
use nyc_rental_listing_agent.Jobs.Queue.Updates.{
  heartbeat-IsSound, recover-IsSound, complete-IsSound,
}

-- A call of a method, at any time and with any arguments.
pub data Step (db : Database) : Database → Type 0 where
  enqueues :
      (now : ℕ) (k : JobIdentity) (run : Option ℕ) (priority max_attempts : ℕ) (next : Option ℕ)
      → Step db (enqueue now k run priority max_attempts next db).1
  claims :
      (now batch : ℕ) (locked : ℕ → Bool) (secs : ℕ) (worker : String) (claimed : List Job)
      {db' : Database}
      → claim now worker secs batch locked db ≡ ok (claimed, db')
      → Step db db'
  beats : (now id token extend : ℕ) → Step db (heartbeat now id token extend db).1
  completes :
      (now id token : ℕ) (status : JobStatus) (code : Option String) (delay : ℕ) (done : Bool)
      {db' : Database}
      → complete now id token status code delay db ≡ ok (done, db')
      → Step db db'
  recovers : (now : ℕ) → Step db (recover_expired_leases now db).1

pub data Reach : Database → Type 0 where
  start : Reach empty
  next : {db db' : Database} → Reach db → Step db db' → Reach db'

pub Step-IsSound : {db db' : Database} → Step db db' → IsSound db → IsSound db'
Step-IsSound {db} (enqueues now k run p m n) h = enqueue-IsSound now k run p m n db h
Step-IsSound {db} {db'} (claims now batch locked secs worker claimed e) h =
    let (c, a, returned, sound, _, _, _) = claim-total now batch locked db secs worker h in
    subst IsSound (ap (λ r. r.1) (ok-injective (sym returned ∙ e))) sound
Step-IsSound {db} (beats now id token extend) h = heartbeat-IsSound now id token extend db h
Step-IsSound {db} (completes now id token status code delay done e) h =
    complete-IsSound now id token status code delay db e h
Step-IsSound {db} (recovers now) h = recover-IsSound now db h

empty-IsSound : IsSound empty
empty-IsSound = record {
  valid = tt;
  one_live = λ k. omega arith;
  keys_unique = λ i. omega arith;
  keys_below = tt;
  tokens_below = tt;
}

-- Whatever the calls, their times and their arguments: no job makes more attempts than it may, a
-- job has a lease and an expiry exactly while it runs, no two live jobs have one identity, no two
-- jobs one key, and every key and token was drawn from the supply.
pub Reach-IsSound : {db : Database} → Reach db → IsSound db
Reach-IsSound start = empty-IsSound
Reach-IsSound (next r s) = Step-IsSound s (Reach-IsSound r)
