-- ===== src/Canonical/Merge/Moves.antt =====
-- The reversal of a merge.
use nyc_rental_listing_agent.Base.{
  ℕ, ◌≤◌, ◌<◌, ◌≡◌, refl, sym, subst, max, String, true, Option, some, arith, ==_iff, ==_refl,
}
use nyc_rental_listing_agent.Base.Lists.{All, All-mono}
use nyc_rental_listing_agent.Base.Result.{ok}
use nyc_rental_listing_agent.Base.Table.{select, count, update_where, find_row}
use nyc_rental_listing_agent.Base.Table.Rules.{
  find_row-count, find_row-append_new, find_row-counted, count-update_same, All-update_if,
  find_row_meets,
}
use nyc_rental_listing_agent.Enums.Listing.{LifecycleStatus, MergeReasonCode}
use nyc_rental_listing_agent.Enums.Human.{ActorType}
use nyc_rental_listing_agent.Model.Listings.{CanonicalListing, CanonicalMerge}
use nyc_rental_listing_agent.Model.Database.{Database}
use nyc_rental_listing_agent.Canonical.Merge.{
  listing_is, links_to, link_is, merge_is, link_ids, superseded, seen_until, merge_rows,
  merge_listings,
}
use nyc_rental_listing_agent.Canonical.Merge.Reverse.{reverse_rows, reverse_merge}
use nyc_rental_listing_agent.Canonical.Merge.Inversion.{merge-inv}
use nyc_rental_listing_agent.Canonical.Merge.Restored.{moved_exactly, restored}

-- The reversal of `m` in `db'` succeeds: the links stand where they stood in `db`, the superseded
-- listing waits for a review, and the merge is marked as reversed.
pub IsReversible :
    (now s : ℕ) → String → (why : String) → (db : Database) → CanonicalMerge → Database → Type 0
IsReversible now s actor why db m db' =
    (db'' : Database) × (reverse_merge now m.canonical_merge_id actor ActorType.human why db'
      ≡ ok db'')
    × (db''.links ≡ db.links)
    × All (λ l. listing_is s l ≡ true → l.lifecycle_status ≡ LifecycleStatus.review_required)
        db''.listings
    × All (λ x. merge_is m.canonical_merge_id x ≡ true → x.reversed_at ≡ some now) db''.merges

module _ (now now' s : ℕ) (actor actor' : String) (actor_type : ActorType)
    (reason : MergeReasonCode) (why : String) (candidate : Option ℕ) (db : Database)
    (link_keys : (i : ℕ) → count (link_is i) db.links ≤ 1)
    (merge_keys : All (λ x. x.canonical_merge_id < db.next_id) db.merges)
    (source target : CanonicalListing) where
  pub after : CanonicalMerge × Database
  after = merge_rows now source target actor actor_type reason candidate db

  found_merge : find_row (merge_is after.0.canonical_merge_id) after.1.merges ≡ some after.0
  unfolding after merge_rows
  found_merge =
      find_row-append_new (merge_is db.next_id) db.merges _
        (All-mono _ (λ x lt. ground arith) db.merges merge_keys) (==_refl db.next_id)

  found_listing :
      find_row (listing_is source.canonical_listing_id) db.listings ≡ some source
      → (l : CanonicalListing) × (find_row (listing_is source.canonical_listing_id) after.1.listings
          ≡ some l)
  unfolding after merge_rows
  found_listing p =
      let src = source.canonical_listing_id in
      let once : count (listing_is src) (update_where (listing_is src) superseded db.listings)
          ≡ count (listing_is src) db.listings =
        count-update_same (listing_is src) (listing_is src) superseded (λ x. refl) db.listings in
      let still : 0 < count (listing_is src) after.1.listings =
        rw
          (count-update_same (listing_is src) (listing_is target.canonical_listing_id)
            (seen_until (max target.last_seen_at source.last_seen_at)) (λ x. refl)
            (update_where (listing_is src) superseded db.listings))
          (rw once (find_row-count (listing_is src) db.listings p)) in
      let (l, f, _) =
        find_row-counted (listing_is source.canonical_listing_id) after.1.listings still in
      (l, f)

  links_back : (reverse_rows now' after.0 actor' ActorType.human why after.1).links ≡ db.links
  unfolding after merge_rows reverse_rows
  links_back =
      restored (link_ids (select (links_to source.canonical_listing_id) db.links))
        source.canonical_listing_id target.canonical_listing_id db.links
        (moved_exactly (links_to source.canonical_listing_id) db.links link_keys)

  review :
      All
        (λ l.
          listing_is source.canonical_listing_id l ≡ true
          → l.lifecycle_status ≡ LifecycleStatus.review_required)
        (reverse_rows now' after.0 actor' ActorType.human why after.1).listings
  unfolding after merge_rows reverse_rows
  review =
      All-update_if _ (listing_is source.canonical_listing_id) _ (λ x _ _. refl) (λ x e f. cc)
        after.1.listings

  marked :
      All
        (λ x. merge_is after.0.canonical_merge_id x ≡ true → x.reversed_at ≡ some now')
        (reverse_rows now' after.0 actor' ActorType.human why after.1).merges
  unfolding after merge_rows reverse_rows
  marked = All-update_if _ (merge_is db.next_id) _ (λ x _ _. refl) (λ x e f. cc) after.1.merges

  pub rows-IsReversible :
      find_row (listing_is source.canonical_listing_id) db.listings ≡ some source
      → IsReversible now' source.canonical_listing_id actor' why db after.0 after.1
  unfolding IsReversible reverse_merge after merge_rows reverse_rows
  rows-IsReversible p =
      let (l, f) = found_listing p in
      (
        reverse_rows now' after.0 actor' ActorType.human why after.1,
        rw (found_merge, f),
        links_back,
        review,
        marked,
      )

module _ (now now' s t : ℕ) (actor actor' : String) (actor_type : ActorType)
    (reason : MergeReasonCode) (why : String) (candidate : Option ℕ) (db db' : Database)
    (m : CanonicalMerge) where
  -- A merge that succeeds can be reversed by a human at once, where no two links have one key and every
  -- merge's key was drawn before: the links are as before the merge, its source awaits a review, and the
  -- merge is marked as reversed.
  pub reverse-merge :
      merge_listings now s t actor actor_type reason candidate db ≡ ok (m, db')
      → ((i : ℕ) → count (link_is i) db.links ≤ 1)
      → All (λ x. x.canonical_merge_id < db.next_id) db.merges
      → IsReversible now' s actor' why db m db'
  unfolding after
  reverse-merge done link_keys merge_keys =
      let d = merge-inv now s t actor actor_type reason candidate db m db' done in
      let key : d.source.canonical_listing_id ≡ s =
        (==_iff d.source.canonical_listing_id s).0
          (find_row_meets (listing_is s) db.listings d.found_source) in
      subst (λ r. IsReversible now' s actor' why db r.0 r.1) d.rows
        (subst
          (λ i.
            IsReversible now' i actor' why db
              (merge_rows now d.source d.target actor actor_type reason candidate db).0
              (merge_rows now d.source d.target actor actor_type reason candidate db).1)
          key
          (rows-IsReversible now now' s actor actor' actor_type reason why candidate db link_keys
            merge_keys d.source d.target
            (subst (λ i. find_row (listing_is i) db.listings ≡ some d.source) (sym key)
              d.found_source)))
