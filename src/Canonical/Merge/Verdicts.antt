-- ===== src/Canonical/Merge/Verdicts.antt =====
-- Merges and verdicts of canonical/merge_service.py, followed by others.
use nyc_rental_listing_agent.Base.{
  ℕ, ◌<◌, if◌then◌else◌, ◌≡◌, refl, inl, inr, String, Bool, true, false, Option, some, arith, ◌==◌,
  Option-cases,
}
use nyc_rental_listing_agent.Base.Lists.{All}
use nyc_rental_listing_agent.Base.Result.{ok, err, merge_error, Result-cases}
use nyc_rental_listing_agent.Base.Table.{count, find_row}
use nyc_rental_listing_agent.Base.Table.Rules.{
  find_row_meets, All-update_if, All-find, find_row-count, find_row-counted, count-update_same,
}
use nyc_rental_listing_agent.Enums.Listing.{MergeReasonCode, DuplicateCandidateStatus}
use nyc_rental_listing_agent.Enums.Human.{ActorType}
use nyc_rental_listing_agent.Model.Listings.{CanonicalListing, CanonicalMerge, DuplicateCandidate}
use nyc_rental_listing_agent.Model.Database.{Database}
use nyc_rental_listing_agent.Canonical.Merge.{listing_is, is_merged, merge_listings}
use nyc_rental_listing_agent.Canonical.Merge.Effects.{merge-moves, candidates-merge}
use nyc_rental_listing_agent.Canonical.Merge.Inversion.{merge-inv}
use nyc_rental_listing_agent.Canonical.Merge.Resolve.{
  is_pending, candidate_is, judged, survivor_of, settle, resolve_duplicate_candidate,
}

-- In the state after a merge its source takes part in no merge, on either side, whoever asks for it.
pub merged-no_merge :
    (now s t : ℕ) (actor : String) (actor_type : ActorType) (reason : MergeReasonCode)
    (candidate : Option ℕ) (db db' : Database) (m : CanonicalMerge) (now' u : ℕ) (actor' : String)
    (actor_type' : ActorType) (reason' : MergeReasonCode) (candidate' : Option ℕ)
    (r : CanonicalMerge × Database)
    → merge_listings now s t actor actor_type reason candidate db ≡ ok (m, db')
    → (¬ (merge_listings now' s u actor' actor_type' reason' candidate' db' ≡ ok r))
      × (¬ (merge_listings now' u s actor' actor_type' reason' candidate' db' ≡ ok r))
merged-no_merge now s t actor actor_type reason candidate db db' m now' u actor' actor_type' reason'
      candidate' (m', db'') done =
    let (_, _, merged, _, _, _, _, _) =
      merge-moves now s t actor actor_type reason candidate db db' m done in
    (
      λ e.
          let d = merge-inv now' s u actor' actor_type' reason' candidate' db' m' db'' e in
          stays merged d.found_source d.source_live,
      λ e.
          let d = merge-inv now' u s actor' actor_type' reason' candidate' db' m' db'' e in
          stays merged d.found_target d.target_live,
    )
  where
    stays :
        {l : CanonicalListing}
        → All (λ x. listing_is s x ≡ true → is_merged x.lifecycle_status ≡ true) db'.listings
        → find_row (listing_is s) db'.listings ≡ some l
        → is_merged l.lifecycle_status ≡ false
        → ⊥
    stays all found live =
        let marked =
          All-find _ (listing_is s) db'.listings all found
            (find_row_meets (listing_is s) db'.listings found) in
        cc marked

-- The candidate's row, after the verdict.
settled :
    (now i : ℕ) (status : DuplicateCandidateStatus) (actor : String) (db : Database)
    → is_pending status ≡ false
    → 0 < count (candidate_is i) db.candidates
    → (c : DuplicateCandidate) × (find_row
          (candidate_is i)
          (settle now i status actor db).candidates
        ≡ some c)
      × (is_pending c.status ≡ false)
unfolding settle
settled now i status actor db s h =
    let rows = (settle now i status actor db).candidates in
    let there : 0 < count (candidate_is i) rows =
      rw
        (count-update_same (candidate_is i) (candidate_is i) (judged now status actor) (λ x. refl)
          db.candidates)
        h in
    let (c, found, at_i) = find_row-counted (candidate_is i) rows there in
    (
      c,
      found,
      All-find (λ c. candidate_is i c ≡ true → is_pending c.status ≡ false) (candidate_is i) rows
          (All-update_if _ (candidate_is i) (judged now status actor) (λ x _ _. s) (λ x e f. cc)
            db.candidates)
          found at_i,
    )

-- What a verdict that was accepted did.
record Resolved (now i : ℕ) (actor : String) (db db' : Database) : Type 0 where
  status : DuplicateCandidateStatus
  judged_pair : is_pending status ≡ false
  merged : Database
  same_candidates : merged.candidates ≡ db.candidates
  there : 0 < count (candidate_is i) db.candidates
  rows : db' ≡ settle now i status actor merged

resolve-inv :
    (now i : ℕ) (confirmed : Bool) (actor : String) (survivor : Option ℕ) (db db' : Database)
    → resolve_duplicate_candidate now i confirmed actor ActorType.human survivor db ≡ ok db'
    → Resolved now i actor db db'
unfolding resolve_duplicate_candidate
resolve-inv now i false actor survivor db db' e =
    elim (Option-cases (find_row (candidate_is i) db.candidates)) [
      | inl p ↦ absurd (ground (arith, p))
      | inr (c, p) ↦ record {
        status = DuplicateCandidateStatus.confirmed_distinct;
        judged_pair = refl;
        merged = db;
        same_candidates = refl;
        there = find_row-count (candidate_is i) db.candidates p;
        rows = ground (arith, p);
      }
    ]
resolve-inv now i true actor survivor db db' e =
    elim (Option-cases (find_row (candidate_is i) db.candidates)) [
      | inl p ↦ absurd (ground (arith, p))
      | inr (c, p) ↦
          let survivor_id = survivor_of survivor c in
          let away = if survivor_id == c.listing_a_id then c.listing_b_id else c.listing_a_id in
          elim (Result-cases (
            merge_listings now away survivor_id actor ActorType.human MergeReasonCode.manual
              (some i) db)) [
                | inl ((m, after), q) ↦ record {
                  status = DuplicateCandidateStatus.confirmed_duplicate;
                  judged_pair = refl;
                  merged = after;
                  same_candidates =
                      candidates-merge now away survivor_id actor ActorType.human
                        MergeReasonCode.manual (some i) db after m q;
                  there = find_row-count (candidate_is i) db.candidates p;
                  rows = ground (arith, p, q);
                }
                | inr (x, q) ↦ absurd (ground (arith, p, q))
              ]
    ]

-- After a human's verdict on a candidate pair, every later verdict of a human on it is refused.
pub resolve-once :
    (now now' i : ℕ) (confirmed confirmed' : Bool) (actor actor' : String)
    (survivor survivor' : Option ℕ) (db db' : Database)
    → resolve_duplicate_candidate now i confirmed actor ActorType.human survivor db ≡ ok db'
    → resolve_duplicate_candidate now' i confirmed' actor' ActorType.human survivor' db'
      ≡ err merge_error
unfolding resolve_duplicate_candidate
resolve-once now now' i confirmed confirmed' actor actor' survivor survivor' db db' e =
    let r = resolve-inv now i confirmed actor survivor db db' e in
    let (c, found, closed) =
      settled now i r.status actor r.merged r.judged_pair (rw r.same_candidates r.there) in
    rw r.rows (rw found (rw closed))
