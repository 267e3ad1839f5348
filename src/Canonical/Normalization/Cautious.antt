-- ===== src/Canonical/Normalization/Cautious.antt =====
-- What processing an observation leaves to the other parts.
use nyc_rental_listing_agent.Base.{
  ℕ, ◌≤◌, ◌<◌, ◌≡◌, refl, sym, ◌∙◌, inl, inr, ◌⊎◌, ap, subst, max, none, some, arith, ◌==◌, ==_iff,
  leb, Bool-cases, Option-cases,
}
use nyc_rental_listing_agent.Base.Result.{ok, ok-injective, Result-cases}
use nyc_rental_listing_agent.Base.Table.{count, find_row}
use nyc_rental_listing_agent.Base.Table.Rules.{find_row-count}
use nyc_rental_listing_agent.Enums.Listing.{DiscoveryMethod}
use nyc_rental_listing_agent.Model.Listings.{
  ParsedSourceObservation, SourceObservation, ListingSourceLink,
}
use nyc_rental_listing_agent.Model.Database.{Database}
use nyc_rental_listing_agent.Canonical.Merge.{listing_is}
use nyc_rental_listing_agent.Canonical.Normalization.Identity.{
  NormalizationOutcome, find_link, seen_at,
}
use nyc_rental_listing_agent.Canonical.Normalization.Update.{
  observation_is, has_hash, touch_freshness, update_existing,
}
use nyc_rental_listing_agent.Canonical.Normalization.Process.{
  is_parsed, process_row, process_observation,
}
use nyc_rental_listing_agent.Canonical.Normalization.Frame.{IsSpared, IsSpared-trans, IsAside-refl}
use nyc_rental_listing_agent.Canonical.Normalization.Entry.{IsCautious, statuses, has_badge}
use nyc_rental_listing_agent.Canonical.Normalization.Chain.{create_canonical-IsEntered}
use nyc_rental_listing_agent.Canonical.Normalization.Rewrites.{
  IsRewritten, write-IsRewritten, aside-IsRewritten, apply_observation-IsRewritten,
}

pub seen-IsRewritten : (i time : ℕ) (db : Database) → IsRewritten db (seen_at i time db)
seen-IsRewritten i time db =
    write-IsRewritten i (λ l. record l { last_seen_at = max l.last_seen_at time }) db
      (record { key = λ x. refl; lifecycle = λ x. refl; badge = λ x m. m })

rewritten-IsCautious : {a b : Database} → IsRewritten a b → IsCautious a b
rewritten-IsCautious h = record {
  lifecycles = inl h.lifecycles;
  badges = h.badges;
  spared = h.spared;
}

-- A known identity: its last observation leaves all as it is, another first marks the link as seen.
pub update_existing-cases :
    (now : ℕ) (o : ParsedSourceObservation) (row : SourceObservation) (k : ListingSourceLink)
    (db : Database) (r : NormalizationOutcome × Database)
    → update_existing now o row k db ≡ ok r
    → (0 < count (listing_is k.canonical_listing_id) db.listings)
      × ((k.latest_observation_id ≡ row.source_observation_id × r.1 ≡ db)
          ⊎ IsRewritten (touch_freshness k k.canonical_listing_id row db) r.1)
unfolding update_existing
update_existing-cases now o row k db r e =
    let seen = touch_freshness k k.canonical_listing_id row db in
    elim (Option-cases (find_row (listing_is k.canonical_listing_id) db.listings)) [
      | inl f ↦ cc (rw f at e)
      | inr (l, f) ↦ (
        find_row-count (listing_is k.canonical_listing_id) db.listings f,
        elim (Bool-cases (k.latest_observation_id == row.source_observation_id)) [
          | inl t ↦ inl (
            (==_iff k.latest_observation_id row.source_observation_id).0 t,
            ap (λ x. x.1) (sym (ok-injective (rw (f, t) at e))),
          )
          | inr t ↦
              elim (Bool-cases (
                has_hash (find_row (observation_is k.latest_observation_id) db.observations)
                  row.content_hash)) [
                    | inl h ↦ inr (
                        subst (λ x. IsRewritten seen x.1) (ok-injective (rw (f, t, h) at e))
                          (aside-IsRewritten (IsAside-refl seen)))
                    | inr h ↦
                        inr (apply_observation-IsRewritten now l o row k seen r (rw (f, t, h) at e))
                  ]
        ],
      )
    ]

touch_freshness-IsCautious :
    (k : ListingSourceLink) (i : ℕ) (row : SourceObservation) (db : Database)
    → (statuses (touch_freshness k i row db) ≡ statuses db)
      × ((count has_badge (touch_freshness k i row db).listings ≤ count has_badge db.listings)
          × IsSpared db (touch_freshness k i row db))
unfolding touch_freshness
touch_freshness-IsCautious k i row db = elim (Bool-cases (leb k.last_seen_at row.observed_at)) [
  | inl t ↦ rw t (
      let h = seen-IsRewritten i row.observed_at db in
      (
        h.lifecycles,
        (
          h.badges,
          record {
            ids = omega arith;
            jobs = refl;
            attempts = refl;
            source_runs = refl;
            observations = refl;
            merges = refl;
            overrides = refl;
            selections = refl;
            presets = refl;
            entries = refl;
            audit = refl;
          },
        ),
      ))
  | inr t ↦
      rw t (let h = seen-IsRewritten i row.observed_at db in (h.lifecycles, (h.badges, h.spared)))
]

update_existing-IsCautious :
    (now : ℕ) (o : ParsedSourceObservation) (row : SourceObservation) (k : ListingSourceLink)
    (db : Database) (r : NormalizationOutcome × Database)
    → update_existing now o row k db ≡ ok r
    → IsCautious db r.1
update_existing-IsCautious now o row k db r e =
    let (_, found_or_seen) = update_existing-cases now o row k db r e in
    elim found_or_seen [
      | inl (_, same) ↦
          subst (λ x. IsCautious db x) (sym same)
            (rewritten-IsCautious (aside-IsRewritten (IsAside-refl db)))
      | inr h ↦
          let t = touch_freshness-IsCautious k k.canonical_listing_id row db in
          record {
            lifecycles = inl (h.lifecycles ∙ t.0);
            badges = omega (arith, h.badges, t.1.0);
            spared = IsSpared-trans t.1.1 h.spared;
          }
    ]

process_row-IsCautious :
    (now : ℕ) (row : SourceObservation) (d : DiscoveryMethod) (db : Database)
    (r : NormalizationOutcome × Database)
    → process_row now row d db ≡ ok r
    → IsCautious db r.1
unfolding process_row
process_row-IsCautious now row d db r e = elim (Result-cases (find_link row db)) [
  | inl (none, p) ↦
      (create_canonical-IsEntered now row.parsed_payload row d db r (rw p at e)).cautious
  | inl (some k, p) ↦ update_existing-IsCautious now row.parsed_payload row k db r (rw p at e)
  | inr (x, p) ↦ cc (rw p at e)
]

-- Processing an observation changes no lifecycle status (it can only append one new listing, as a
-- candidate), does not raise the number of listings with the indoor-laundry badge, and leaves the
-- jobs, attempts, source runs, observations, merges, overrides, selections, shortlists and the audit
-- log as they were.
pub process_observation-IsCautious :
    (now i : ℕ) (d : DiscoveryMethod) (db : Database) (r : NormalizationOutcome × Database)
    → process_observation now i d db ≡ ok r
    → IsCautious db r.1
unfolding process_observation
process_observation-IsCautious now i d db r e =
    elim (Option-cases (find_row (observation_is i) db.observations)) [
      | inl f ↦ cc (rw f at e)
      | inr (row, f) ↦ elim (Bool-cases (is_parsed row.parse_status)) [
        | inl t ↦ process_row-IsCautious now row d db r (rw (f, t) at e)
        | inr t ↦
            subst (λ x. IsCautious db x.1) (ok-injective (rw (f, t) at e))
              (rewritten-IsCautious (aside-IsRewritten (IsAside-refl db)))
      ]
    ]
