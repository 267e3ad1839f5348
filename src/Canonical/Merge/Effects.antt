-- ===== src/Canonical/Merge/Effects.antt =====
-- What a merge changes, and what it leaves.
use mathlib.Core.Path.{subst₂}
use nyc_rental_listing_agent.Base.{
  ℕ, suc, ◌+◌, ◌≡◌, refl, sym, ap, subst, ◌∙◌, max, String, Bool, true, false, Option, List, [],
  ◌∷◌, arith, ◌==◌, ==_iff,
}
use nyc_rental_listing_agent.Base.Lists.{All}
use nyc_rental_listing_agent.Base.Result.{ok}
use nyc_rental_listing_agent.Base.Table.{count, update_where}
use nyc_rental_listing_agent.Base.Table.Rules.{All-update, All-update_if, find_row_meets}
use nyc_rental_listing_agent.Enums.Listing.{MergeReasonCode}
use nyc_rental_listing_agent.Enums.Human.{ActorType}
use nyc_rental_listing_agent.Model.Listings.{CanonicalListing, ListingSourceLink, CanonicalMerge}
use nyc_rental_listing_agent.Model.Database.{Database}
use nyc_rental_listing_agent.Canonical.Merge.{
  listing_is, links_to, is_merged, moved_to, superseded, seen_until, merge_rows, merge_listings,
}
use nyc_rental_listing_agent.Base.Lists.{length}
use nyc_rental_listing_agent.Canonical.Merge.Inversion.{merge-inv}

-- Moving all links of `s` to another listing.
moved_counts :
    (s t : ℕ) (xs : List ListingSourceLink)
    → (s == t) ≡ false
    → (count (links_to s) (update_where (links_to s) (moved_to t) xs) ≡ 0)
      × (count (links_to t) (update_where (links_to s) (moved_to t) xs)
          ≡ count (links_to t) xs + count (links_to s) xs)
moved_counts s t [] apart = (omega arith, omega arith)
moved_counts s t (x ∷ xs) apart =
    let (a, b) = moved_counts s t xs apart in (ground (arith, a), ground (arith, b))

length-update {ℓ} :
    {A : Type ℓ} (p : A → Bool) (f : A → A) (xs : List A) → length (update_where p f xs) ≡ length xs
length-update p f [] = refl
length-update p f (x ∷ xs) = ap suc (length-update p f xs)

abbrev Moved : (s t : ℕ) → (db db' : Database) → Type 0
Moved s t db db' =
    (count (links_to s) db'.links ≡ 0)
    × (count (links_to t) db'.links ≡ count (links_to t) db.links + count (links_to s) db.links)
    × All (λ l. listing_is s l ≡ true → is_merged l.lifecycle_status ≡ true) db'.listings
    × (length db'.links ≡ length db.links)
    × (length db'.listings ≡ length db.listings)
    × (db'.selections ≡ db.selections)
    × (db'.presets ≡ db.presets)
    × (db'.entries ≡ db.entries)

rows-Moved :
    (now : ℕ) (actor : String) (actor_type : ActorType) (reason : MergeReasonCode)
    (candidate : Option ℕ) (db : Database) (source target : CanonicalListing)
    → (source.canonical_listing_id == target.canonical_listing_id) ≡ false
    → Moved source.canonical_listing_id target.canonical_listing_id db
        (merge_rows now source target actor actor_type reason candidate db).1
unfolding merge_rows
rows-Moved now actor actor_type reason candidate db source target apart =
    let (a, b) =
      moved_counts source.canonical_listing_id target.canonical_listing_id db.links apart in
    (
      a,
      b,
      All-update
          (λ l.
            listing_is source.canonical_listing_id l ≡ true → is_merged l.lifecycle_status ≡ true)
          (listing_is target.canonical_listing_id)
          (seen_until (max target.last_seen_at source.last_seen_at)) (λ l _ h. h)
          (update_where (listing_is source.canonical_listing_id) superseded db.listings)
          (All-update_if _ (listing_is source.canonical_listing_id) superseded (λ l _ _. refl)
            (λ l e f. cc) db.listings),
      length-update (links_to source.canonical_listing_id) (moved_to target.canonical_listing_id)
          db.links,
      length-update (listing_is target.canonical_listing_id)
            (seen_until (max target.last_seen_at source.last_seen_at))
            (update_where (listing_is source.canonical_listing_id) superseded db.listings)
          ∙ length-update (listing_is source.canonical_listing_id) superseded db.listings,
      refl,
      refl,
      refl,
    )

-- After a merge that succeeds no link is the source's and the target has as many more as the source had;
-- the source is MERGED, the numbers of links and of listings are as before, and marketing selections,
-- presets and shortlist entries are not touched.
pub merge-moves :
    (now s t : ℕ) (actor : String) (actor_type : ActorType) (reason : MergeReasonCode)
    (candidate : Option ℕ) (db db' : Database) (m : CanonicalMerge)
    → merge_listings now s t actor actor_type reason candidate db ≡ ok (m, db')
    → (count (links_to s) db'.links ≡ 0)
      × (count (links_to t) db'.links ≡ count (links_to t) db.links + count (links_to s) db.links)
      × All (λ l. listing_is s l ≡ true → is_merged l.lifecycle_status ≡ true) db'.listings
      × (length db'.links ≡ length db.links)
      × (length db'.listings ≡ length db.listings)
      × (db'.selections ≡ db.selections)
      × (db'.presets ≡ db.presets)
      × (db'.entries ≡ db.entries)
merge-moves now s t actor actor_type reason candidate db db' m done =
    let d = merge-inv now s t actor actor_type reason candidate db m db' done in
    let key_s : d.source.canonical_listing_id ≡ s =
      (==_iff d.source.canonical_listing_id s).0
        (find_row_meets (listing_is s) db.listings d.found_source) in
    let key_t : d.target.canonical_listing_id ≡ t =
      (==_iff d.target.canonical_listing_id t).0
        (find_row_meets (listing_is t) db.listings d.found_target) in
    subst (Moved s t db) (ap (λ r. r.1) d.rows) (
      subst₂
        (λ i j.
          Moved i j db (merge_rows now d.source d.target actor actor_type reason candidate db).1)
        key_s key_t
        (rows-Moved now actor actor_type reason candidate db d.source d.target
          (rw (key_s, key_t) d.apart)))

-- A merge leaves the duplicate candidates alone.
pub candidates-merge :
    (now s t : ℕ) (actor : String) (actor_type : ActorType) (reason : MergeReasonCode)
    (candidate : Option ℕ) (db db' : Database) (m : CanonicalMerge)
    → merge_listings now s t actor actor_type reason candidate db ≡ ok (m, db')
    → db'.candidates ≡ db.candidates
unfolding merge_rows
candidates-merge now s t actor actor_type reason candidate db db' m done = sym (
    ap (λ r. r.1.candidates)
      (merge-inv now s t actor actor_type reason candidate db m db' done).rows)
