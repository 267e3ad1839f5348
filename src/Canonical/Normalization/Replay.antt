-- ===== src/Canonical/Normalization/Replay.antt =====
-- Observations processed again.
use nyc_rental_listing_agent.Base.{
  ℕ, ◌≤◌, String, ◌&&◌, ◌<◌, ◌≡◌, refl, sym, ◌∙◌, inl, inr, ap, subst, true, Option, none, some, [],
  ◌∷◌, arith, ◌==◌, ==_refl, leb, Bool-cases, if◌then◌else◌,
}
use nyc_rental_listing_agent.Base.Result.{ok, Result-cases}
use nyc_rental_listing_agent.Base.Table.{select, count, update_where, find_row}
use nyc_rental_listing_agent.Base.Table.Rules.{
  find_row-counted, select-append, select-update, scalar-none, scalar-head,
}
use nyc_rental_listing_agent.Enums.Listing.{DiscoveryMethod}
use nyc_rental_listing_agent.Model.Listings.{SourceObservation, ListingSourceLink}
use nyc_rental_listing_agent.Model.Database.{Database}
use nyc_rental_listing_agent.Canonical.Merge.{listing_is, link_is}
use nyc_rental_listing_agent.Canonical.Normalization.Identity.{
  NormalizationOutcome, Classification, found, names_link, same_identity_as, find_link,
}
use nyc_rental_listing_agent.Canonical.Normalization.Update.{
  observation_is, touch_freshness, update_existing,
}
use nyc_rental_listing_agent.Canonical.Normalization.Process.{
  is_parsed, not_resolved, process_row, process_observation,
}
use nyc_rental_listing_agent.Canonical.Normalization.Entry.{IsEntered}
use nyc_rental_listing_agent.Canonical.Normalization.Chain.{create_canonical-IsEntered}
use nyc_rental_listing_agent.Canonical.Normalization.Cautious.{
  process_observation-IsCautious, seen-IsRewritten, update_existing-cases,
}

-- An observation that is the latest of its link is left alone.
settled :
    (now : ℕ) (row : SourceObservation) (d : DiscoveryMethod) (db : Database)
    (k : ListingSourceLink)
    → find_link row db ≡ ok (some k)
    → k.latest_observation_id ≡ row.source_observation_id
    → 0 < count (listing_is k.canonical_listing_id) db.listings
    → process_row now row d db ≡ ok (found Classification.unchanged k [], db)
unfolding process_row update_existing
settled now row d db k e latest h =
    let (l, f, _) = find_row-counted (listing_is k.canonical_listing_id) db.listings h in
    rw (e, update_existing, f, latest, ==_refl row.source_observation_id) refl

entered-found :
    (row : SourceObservation) (db db' : Database) (h : IsEntered row db db')
    → find_link row db ≡ ok none
    → find_link row db' ≡ ok (some h.link)
unfolding find_link
entered-found row db db' h e =
    rw
      (
        h.appended,
        select-append (same_identity_as row) db.links (h.link ∷ []),
        scalar-none (select (same_identity_as row) db.links) e,
        h.identity_kept,
      )
      refl

abbrev pub touched : SourceObservation → ListingSourceLink → ListingSourceLink
touched row k = record k {
  last_seen_at = row.observed_at;
  latest_observation_id = row.source_observation_id;
}

touched-same :
    (row : SourceObservation) (x : ListingSourceLink)
    → same_identity_as row (touched row x) ≡ same_identity_as row x
unfolding same_identity_as
touched-same row x =
    ap (λ b. (x.source_id == row.source_id) && b) (named row.source_native_id row.source_url)
  where
    named :
        (n : Option String) (url : String) → names_link n url (touched row x) ≡ names_link n url x
    named none url = refl
    named (some i) url = refl

touched-found :
    (row : SourceObservation) (db db' : Database) (k : ListingSourceLink)
    → find_link row db ≡ ok (some k)
    → db'.links ≡ update_where (link_is k.listing_source_link_id) (touched row) db.links
    → find_link row db' ≡ ok (some (touched row k))
unfolding find_link
touched-found row db db' k e links =
    rw
      (
        links,
        select-update (same_identity_as row) (link_is k.listing_source_link_id) (touched row)
            (touched-same row) db.links,
        scalar-head (select (same_identity_as row) db.links) e,
        ==_refl k.listing_source_link_id,
      )
      refl

leb-true : (a b : ℕ) → a ≤ b → leb a b ≡ true
leb-true a b h = ground arith

touch_freshness-links :
    (k : ListingSourceLink) (i : ℕ) (row : SourceObservation) (db : Database)
    → k.last_seen_at ≤ row.observed_at
    → ((touch_freshness k i row db).links
        ≡ update_where (link_is k.listing_source_link_id) (touched row) db.links)
      × (count (listing_is i) (touch_freshness k i row db).listings
          ≡ count (listing_is i) db.listings)
unfolding touch_freshness
touch_freshness-links k i row db h =
    rw (leb-true k.last_seen_at row.observed_at h)
      (refl, (seen-IsRewritten i row.observed_at db).present i)

-- The observation is the last one of the link that it finds.
IsLatest : SourceObservation → Database → Type 0
IsLatest row db =
    (k : ListingSourceLink) × ((find_link row db ≡ ok (some k))
      × ((k.latest_observation_id ≡ row.source_observation_id)
          × (0 < count (listing_is k.canonical_listing_id) db.listings)))

process_row-IsLatest :
    (now : ℕ) (row : SourceObservation) (d : DiscoveryMethod) (db : Database)
    (r : NormalizationOutcome × Database)
    → ((k : ListingSourceLink) → find_link row db ≡ ok (some k) → k.last_seen_at ≤ row.observed_at)
    → process_row now row d db ≡ ok r
    → IsLatest row r.1
unfolding process_row IsLatest
process_row-IsLatest now row d db r in_order e = elim (Result-cases (find_link row db)) [
  | inl (none, p) ↦
      let h = create_canonical-IsEntered now row.parsed_payload row d db r (rw p at e) in
      (h.link, (entered-found row db r.1 h p, (h.latest, h.listed)))
  | inl (some k, p) ↦
      let (listed, done) = update_existing-cases now row.parsed_payload row k db r (rw p at e) in
      elim done [
        | inl (latest, same) ↦ (
          k,
          (
            subst (λ x. find_link row x ≡ ok (some k)) (sym same) p,
            (
              latest,
              subst (λ x. 0 < count (listing_is k.canonical_listing_id) x.listings) (sym same)
                  listed,
            ),
          ),
        )
        | inr h ↦
            let (links, present) =
              touch_freshness-links k k.canonical_listing_id row db (in_order k p) in
            (
              touched row k,
              (
                touched-found row db r.1 k p (h.links ∙ links),
                (refl, omega (arith, listed, present, h.present k.canonical_listing_id)),
              ),
            )
      ]
  | inr (x, p) ↦ cc (rw p at e)
]

process_row-replay :
    (now now' : ℕ) (row : SourceObservation) (d d' : DiscoveryMethod) (db : Database)
    (r : NormalizationOutcome × Database)
    → ((k : ListingSourceLink) → find_link row db ≡ ok (some k) → k.last_seen_at ≤ row.observed_at)
    → process_row now row d db ≡ ok r
    → (o : NormalizationOutcome) × ((process_row now' row d' r.1 ≡ ok (o, r.1))
        × (o.events_emitted ≡ []))
unfolding IsLatest
process_row-replay now now' row d d' db r in_order e =
    let (k, (p, (latest, listed))) = process_row-IsLatest now row d db r in_order e in
    (found Classification.unchanged k [], (settled now' row d' r.1 k p latest listed, refl))

process_observation-at :
    (now i : ℕ) (d : DiscoveryMethod) (row : SourceObservation) (db : Database)
    → find_row (observation_is i) db.observations ≡ some row
    → process_observation now i d db
      ≡ (if is_parsed row.parse_status then process_row now row d db else ok (not_resolved, db))
unfolding process_observation
process_observation-at now i d row db f = rw f refl

-- An observation processed twice counts once: where the observation `row` was processed with success,
-- and was not older than the last sight of the link that it names (if there is one), processing it
-- again, at any later point in time and with any discovery method, succeeds, emits no event and leaves
-- the database exactly as the first run left it.
pub process_observation-replay :
    (now now' i : ℕ) (d d' : DiscoveryMethod) (row : SourceObservation) (db : Database)
    (r : NormalizationOutcome × Database)
    → find_row (observation_is i) db.observations ≡ some row
    → ((k : ListingSourceLink) → find_link row db ≡ ok (some k) → k.last_seen_at ≤ row.observed_at)
    → process_observation now i d db ≡ ok r
    → (o : NormalizationOutcome) × ((process_observation now' i d' r.1 ≡ ok (o, r.1))
        × (o.events_emitted ≡ []))
process_observation-replay now now' i d d' row db r f in_order e =
    let kept = (process_observation-IsCautious now i d db r e).spared.observations in
    let first = sym (process_observation-at now i d row db f) ∙ e in
    let second =
      process_observation-at now' i d' row r.1 (ap (find_row (observation_is i)) kept ∙ f) in
    elim (Bool-cases (is_parsed row.parse_status)) [
      | inl t ↦
          let (o, (again, quiet)) =
            process_row-replay now now' row d d' db r in_order (rw t at first) in
          (o, ((rw t at second) ∙ again, quiet))
      | inr t ↦ (not_resolved, (rw t at second, refl))
    ]
