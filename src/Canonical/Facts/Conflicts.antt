-- ===== src/Canonical/Facts/Conflicts.antt =====
-- `raise_conflict_with_override` of canonical/facts.py, called again.
use nyc_rental_listing_agent.Base.{
  ℕ, ◌≡◌, refl, inl, inr, true, String, none, [], ◌∷◌, ◌++◌, arith, ==_refl, str_eq_refl,
  Bool-cases,
}
use nyc_rental_listing_agent.Base.Table.{exists}
use nyc_rental_listing_agent.Base.Table.Rules.{count-append, exists-counted}
use nyc_rental_listing_agent.Enums.Facts.{
  FactEntityType, ReviewIssueType, ReviewIssueSeverity, ReviewIssueStatus, same_entity_type_iff,
}
use nyc_rental_listing_agent.Model.Evidence.{Value, HumanOverride, ReviewIssue, conflict}
use nyc_rental_listing_agent.Model.Database.{Database}
use nyc_rental_listing_agent.Canonical.Facts.{surfaced, raise_conflict_with_override}

surfaced-quiet :
    (o : HumanOverride) (i : ℕ) (key : String) (v : Value) (db : Database)
    → exists (surfaced i key) db.issues ≡ true
    → raise_conflict_with_override o i key v db ≡ db
unfolding raise_conflict_with_override
surfaced-quiet o i key v db e = elim (Bool-cases o.review_on_new_conflict) [
  | inl r ↦ rw (raise_conflict_with_override, r, e) refl
  | inr r ↦ rw (raise_conflict_with_override, r) refl
]

raised-surfaced :
    (o : HumanOverride) (i : ℕ) (key : String) (v : Value) (db : Database)
    → o.review_on_new_conflict ≡ true
    → exists (surfaced i key) (raise_conflict_with_override o i key v db).issues ≡ true
unfolding raise_conflict_with_override surfaced
raised-surfaced o i key v db r = elim (Bool-cases (exists (surfaced i key) db.issues)) [
  | inl e ↦ rw (raise_conflict_with_override, r, e) e
  | inr e ↦
      let row : ReviewIssue = record {
        entity_type = FactEntityType.listing;
        entity_id = i;
        issue_type = ReviewIssueType.conflict;
        severity = ReviewIssueSeverity.warning;
        status = ReviewIssueStatus.opened;
        details = conflict key o.human_override_id o.override_value v;
        resolved_at = none;
        resolved_by = none;
      } in
      let meets : surfaced i key row ≡ true =
        rw
          (
            ==_refl i,
            str_eq_refl key,
            (same_entity_type_iff FactEntityType.listing FactEntityType.listing).1 refl,
          )
          refl in
      rw (raise_conflict_with_override, r, e)
        (exists-counted (surfaced i key) (db.issues ++ row ∷ [])
          (rw (count-append (surfaced i key) db.issues (row ∷ []), meets) (omega arith)))
]

-- Where an override asks for reviews: after a conflict with it on a listing and a key was raised, raising
-- one on the same listing and key, with any override and any value, changes nothing.
pub raise_conflict-once :
    (o o' : HumanOverride) (i : ℕ) (key : String) (v v' : Value) (db : Database)
    → o.review_on_new_conflict ≡ true
    → raise_conflict_with_override o' i key v' (raise_conflict_with_override o i key v db)
      ≡ raise_conflict_with_override o i key v db
raise_conflict-once o o' i key v v' db r =
    surfaced-quiet o' i key v' (raise_conflict_with_override o i key v db)
      (raised-surfaced o i key v db r)
