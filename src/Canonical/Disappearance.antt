-- ===== src/Canonical/Disappearance.antt =====
-- canonical/disappearance.py: links that a healthy run did not see go missing and are removed, and
-- listings without support become inactive, under a circuit breaker.
pub mod Breaker
pub mod Removal
use nyc_rental_listing_agent.Base.{
  ℕ, ◌+◌, ◌-◌, ◌/◌, min, max, String, Bool, true, false, ◌&&◌, not, Option, none, some, List, [],
  ◌∷◌, ◌++◌, map, ◌==◌, ltb, leb, str_eq, if◌then◌else◌,
}
use nyc_rental_listing_agent.Base.Lists.{length, take}
use nyc_rental_listing_agent.Base.Result.{Result, ok, err, lookup_error, ◌>>=◌}
use nyc_rental_listing_agent.Base.Table.{select, exists, count, update_where, find_row}
use nyc_rental_listing_agent.Enums.Listing.{LifecycleStatus, LinkStatus, ListingEventType}
use nyc_rental_listing_agent.Enums.Facts.{
  FactEntityType, OverrideStatus, ReviewIssueType, ReviewIssueSeverity, ReviewIssueStatus,
}
use nyc_rental_listing_agent.Model.Ops.{SourceRun, hours}
use nyc_rental_listing_agent.Model.Listings.{
  SourceObservation, CanonicalListing, ListingSourceLink, KeySuffix, of_id, of_rule,
}
use nyc_rental_listing_agent.Model.Evidence.{HumanOverride, ReviewIssue, breaker}
use nyc_rental_listing_agent.Model.Database.{Database}
use nyc_rental_listing_agent.Canonical.Events.{emit}
use nyc_rental_listing_agent.Canonical.Merge.{listing_is, link_is}

pub record DisappearanceSummary : Type 0 where
  pub refused_reason : Option String
  pub links_marked_missing : ℕ
  pub links_removed : ℕ
  pub listings_inactivated : ℕ
  pub breaker_tripped : Bool
  pub proposed_inactivations : ℕ

abbrev pub nothing_done : DisappearanceSummary
nothing_done = record {
  refused_reason = none;
  links_marked_missing = 0;
  links_removed = 0;
  listings_inactivated = 0;
  breaker_tripped = false;
  proposed_inactivations = 0;
}

abbrev pub is_active_link : LinkStatus → Bool
is_active_link LinkStatus.active = true
is_active_link _ = false

abbrev pub is_missing_link : LinkStatus → Bool
is_missing_link LinkStatus.missing = true
is_missing_link _ = false

-- The links of the source that the run judges.
abbrev pub judged_link : ℕ → ListingSourceLink → Bool
judged_link source_id k =
    k.source_id == source_id
    && elim k.link_status [ LinkStatus.active ↦ true | LinkStatus.missing ↦ true | _ ↦ false ]

-- The latest observation of the link is from the run.
abbrev pub observed_in : ℕ → List SourceObservation → ListingSourceLink → Bool
observed_in run_id observations k =
    exists (λ o. o.source_observation_id == k.latest_observation_id && o.source_run_id == run_id)
      observations

-- A run of the source that passed the gate and started after a time.
abbrev pub healthy_after : (source_id since : ℕ) → SourceRun → Bool
healthy_after source_id since r =
    r.source_id == source_id && passed_gate r.health_gate_passed && ltb since r.started_at
  where
    passed_gate : Option Bool → Bool
    passed_gate (some true) = true
    passed_gate _ = false

abbrev pub set_link : ℕ → LinkStatus → Database → Database
set_link i status db = record db {
  links = update_where (link_is i) (λ k. record k { link_status = status }) db.links;
}

abbrev pub disappearance_event : ℕ → ListingEventType → ℕ → KeySuffix → Database → Database
disappearance_event i event_type now suffix = emit (record {
  canonical_listing_id = i;
  event_type = event_type;
  event_time = now;
  source_observation_id = none;
  reason = none;
  key_suffix = suffix;
})

-- One turn of the loop over the links.
unfoldable pub judge_link :
    (now : ℕ)
    → SourceRun
    → (observed : Bool) → ListingSourceLink
    → DisappearanceSummary × Database
    → DisappearanceSummary × Database
judge_link now run observed link (s, db) =
    let i = link.listing_source_link_id in
    let misses = count (healthy_after run.source_id link.last_seen_at) db.source_runs in
    if observed
    then (if is_missing_link link.link_status
        then (s, set_link i LinkStatus.active db)
        else (s, db))
    else if leb 2 misses && leb (hours 36) (now - link.last_seen_at)
    then (record s { links_removed = s.links_removed + 1 }, set_link i LinkStatus.removed db)
    else if is_active_link link.link_status
    then (
      record s { links_marked_missing = s.links_marked_missing + 1 },
      disappearance_event link.canonical_listing_id ListingEventType.missing_started now
          (of_id run.source_run_id) (set_link i LinkStatus.missing db),
    )
    else (s, db)

-- The observed links were read before the loop, from the tables of `read`.
unfoldable pub judge_links :
    (now : ℕ)
    → SourceRun
    → (read : Database) → List ListingSourceLink
    → DisappearanceSummary × Database
    → DisappearanceSummary × Database
unfolding judge_link
judge_links now run read [] s = s
judge_links now run read (k ∷ rest) s =
    judge_links now run read rest
      (judge_link now run (observed_in run.source_run_id read.observations k) k s)

-- A link that still supports the listing.
abbrev pub supports : ℕ → ListingSourceLink → Bool
supports i k = k.canonical_listing_id == i && elim k.link_status [
  | LinkStatus.active ↦ true
  | LinkStatus.missing ↦ true
  | LinkStatus.conflicting ↦ true
  | _ ↦ false
]

-- An active override of the lifecycle.
abbrev pub keeps_lifecycle : ℕ → HumanOverride → Bool
keeps_lifecycle i o =
    o.entity_id == i
    && str_eq o.field_name "lifecycle_status"
    && elim o.override_status [ OverrideStatus.active ↦ true | _ ↦ false ]

abbrev pub is_active_listing : CanonicalListing → Bool
is_active_listing l = elim l.lifecycle_status [ LifecycleStatus.active ↦ true | _ ↦ false ]

abbrev can_lapse : CanonicalListing → Bool
can_lapse l = elim l.lifecycle_status [
  | LifecycleStatus.active ↦ true
  | LifecycleStatus.candidate ↦ true
  | _ ↦ false
]

unfoldable pub is_eligible : Database → CanonicalListing → Bool
is_eligible db l =
    can_lapse l
    && not (exists (supports l.canonical_listing_id) db.links)
    && not (exists (keeps_lifecycle l.canonical_listing_id) db.overrides)

abbrev pub cap_of : (active_count : ℕ) → ℕ
cap_of active_count = min 50 (max 1 (active_count / 4))

unfoldable pub inactivate : (now : ℕ) → List CanonicalListing → ℕ × Database → ℕ × Database
inactivate now [] (n, db) = (n, db)
inactivate now (l ∷ rest) (n, db) =
    let i = l.canonical_listing_id in
    inactivate now rest (
      n + 1,
      disappearance_event i ListingEventType.inactivated now (of_rule "disappearance-v1")
          (record db {
            listings =
                update_where (listing_is i)
                  (λ x. record x {
                    lifecycle_status = LifecycleStatus.inactive;
                    inactive_at = some now;
                  })
                  db.listings;
          }),
    )

-- The blocking issue of a tripped breaker, on the first of the listings.
abbrev pub breaker_issue : CanonicalListing → List CanonicalListing → (cap : ℕ) → ReviewIssue
breaker_issue first eligible cap = record {
  entity_type = FactEntityType.listing;
  entity_id = first.canonical_listing_id;
  issue_type = ReviewIssueType.source_failure;
  severity = ReviewIssueSeverity.blocking;
  status = ReviewIssueStatus.opened;
  details = breaker (length eligible) cap (map (λ l. l.canonical_listing_id) (take 100 eligible));
  resolved_at = none;
  resolved_by = none;
}

-- The rest of `_inactivate_unsupported`, once the eligible listings are known.
unfoldable pub apply_breaker :
    (now : ℕ)
    → List CanonicalListing
    → DisappearanceSummary
    → Database
    → DisappearanceSummary × Database
unfolding inactivate
apply_breaker now [] s db = (record s { proposed_inactivations = 0 }, db)
apply_breaker now (first ∷ rest) s db =
    let eligible = first ∷ rest in
    let proposed = record s { proposed_inactivations = length eligible } in
    let cap = cap_of (count is_active_listing db.listings) in
    let applied = inactivate now eligible (s.listings_inactivated, db) in
    if ltb cap (length eligible)
    then (
      record proposed { breaker_tripped = true },
      record db { issues = db.issues ++ breaker_issue first eligible cap ∷ [] },
    )
    else (record proposed { listings_inactivated = applied.0 }, applied.1)

unfoldable pub inactivate_unsupported :
    (now : ℕ) → DisappearanceSummary → Database → DisappearanceSummary × Database
unfolding apply_breaker is_eligible
inactivate_unsupported now s db = apply_breaker now (select (is_eligible db) db.listings) s db

unfoldable pub process_source_run :
    (now source_run_id : ℕ) → Database → Result (DisappearanceSummary × Database)
unfolding judge_links inactivate_unsupported
process_source_run now source_run_id db = do
  run ← elim (find_row (λ r. r.source_run_id == source_run_id) db.source_runs) [
    | none ↦ err lookup_error
    | some r ↦ ok r
  ]
  let (s, judged) =
      judge_links now run db (select (judged_link run.source_id) db.links) (nothing_done, db)
  ok (elim run.health_gate_passed [
    | some true ↦ inactivate_unsupported now s judged
    | _ ↦ (record nothing_done { refused_reason = some "health_gate_not_passed" }, db)
  ])
