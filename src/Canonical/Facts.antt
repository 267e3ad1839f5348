-- ===== src/Canonical/Facts.antt =====
-- canonical/facts.py: `FactRecorder`. A fact is named by its entity and its key.
pub mod Current
pub mod Conflicts
use nyc_rental_listing_agent.Base.{
  ℕ, ◌+◌, String, Bool, true, false, ◌&&◌, Option, none, some, List, [], ◌∷◌, ◌++◌, ◌==◌, is_none,
  str_eq, if◌then◌else◌,
}
use nyc_rental_listing_agent.Base.Result.{Result, ok, ◌>>=◌}
use nyc_rental_listing_agent.Base.Table.{select, exists, update_where, scalar_one_or_none}
use nyc_rental_listing_agent.Enums.Facts.{
  FactEntityType, ValueStatus, DerivationType, Confidence, ResolutionStatus, ResolutionMethod,
  OverrideStatus, ReviewIssueType, ReviewIssueSeverity, ReviewIssueStatus, same_entity_type,
}
use nyc_rental_listing_agent.Model.Evidence.{
  Value, FactAssertion, FactResolution, HumanOverride, IssueDetails, conflict, duplicate, breaker,
  ReviewIssue,
}
use nyc_rental_listing_agent.Model.Database.{Database}

-- `entity_type`, `entity_id` and `fact_key` of a call.
pub record Fact : Type 0 where
  pub entity_type : FactEntityType
  pub entity_id : ℕ
  pub fact_key : String

-- The other arguments of `record`.
pub record Evidence : Type 0 where
  pub value : Option Value
  pub value_status : ValueStatus
  pub derivation_type : DerivationType
  pub confidence : Confidence
  pub source_observation_id : Option ℕ
  pub evidence_text : Option String

unfoldable pub is_current : Fact → FactResolution → Bool
unfolding same_entity_type
is_current f r =
    same_entity_type r.entity_type f.entity_type
    && r.entity_id == f.entity_id
    && str_eq r.fact_key f.fact_key
    && is_none r.superseded_at

abbrev is_active_override : OverrideStatus → Bool
is_active_override OverrideStatus.active = true
is_active_override _ = false

unfoldable pub overrides_fact : Fact → HumanOverride → Bool
unfolding same_entity_type
overrides_fact f o =
    same_entity_type o.entity_type f.entity_type
    && o.entity_id == f.entity_id
    && str_eq o.field_name f.fact_key
    && is_active_override o.override_status

unfoldable pub active_override : Fact → Database → Result (Option HumanOverride)
unfolding overrides_fact
active_override f db = scalar_one_or_none (select (overrides_fact f) db.overrides)

abbrev pub resolution_of : ValueStatus → ResolutionStatus
resolution_of ValueStatus.asserted = ResolutionStatus.resolved
resolution_of _ = ResolutionStatus.unknown

abbrev pub resolve_to :
    (now : ℕ) → Fact → ValueStatus → (assertion_id : ℕ) → List FactResolution → List FactResolution
resolve_to now f status assertion_id rows =
    update_where (is_current f) (λ r. record r { superseded_at = some now }) rows
    ++ (record {
      entity_type = f.entity_type;
      entity_id = f.entity_id;
      fact_key = f.fact_key;
      effective_assertion_id = some assertion_id;
      resolution_status = resolution_of status;
      resolution_method = ResolutionMethod.recency;
      superseded_at = none;
    })
      ∷ []

abbrev pub assertion_of : ℕ → Fact → Evidence → FactAssertion
assertion_of i f v = record {
  fact_assertion_id = i;
  entity_type = f.entity_type;
  entity_id = f.entity_id;
  fact_key = f.fact_key;
  value = v.value;
  value_status = v.value_status;
  derivation_type = v.derivation_type;
  source_observation_id = v.source_observation_id;
  evidence_text = v.evidence_text;
  confidence = v.confidence;
}

abbrev pub add_assertion : FactAssertion → Database → Database
add_assertion a db = record db { next_id = db.next_id + 1; assertions = db.assertions ++ a ∷ [] }

-- `FactRecorder.record`, with the identifier of the assertion.
unfoldable pub record_fact : (now : ℕ) → Fact → Evidence → Database → Result (ℕ × Database)
unfolding active_override is_current
record_fact now f v db = do
  let i = db.next_id
  let recorded = add_assertion (assertion_of i f v) db
  override ← active_override f recorded
  ok (
    i,
    elim override [
      | some o ↦ recorded
      | none ↦ record recorded {
        resolutions = resolve_to now f v.value_status i recorded.resolutions;
      }
    ],
  )

abbrev details_about : String → IssueDetails → Bool
details_about key (conflict k o v w) = str_eq k key
details_about key _ = false

abbrev is_conflict : ReviewIssueType → Bool
is_conflict ReviewIssueType.conflict = true
is_conflict _ = false

abbrev is_open : ReviewIssueStatus → Bool
is_open ReviewIssueStatus.opened = true
is_open _ = false

-- An open conflict issue of a listing, about a key.
unfoldable pub surfaced : ℕ → String → ReviewIssue → Bool
unfolding same_entity_type
surfaced entity_id key issue =
    same_entity_type issue.entity_type FactEntityType.listing
    && issue.entity_id == entity_id
    && is_conflict issue.issue_type
    && is_open issue.status
    && details_about key issue.details

unfoldable pub raise_conflict_with_override :
    HumanOverride → (entity_id : ℕ) (fact_key : String) → (incoming : Value) → Database → Database
unfolding surfaced
raise_conflict_with_override o entity_id key incoming db =
    if o.review_on_new_conflict
    then (if exists (surfaced entity_id key) db.issues then db else record db {
      issues =
          db.issues
          ++ (record {
            entity_type = FactEntityType.listing;
            entity_id = entity_id;
            issue_type = ReviewIssueType.conflict;
            severity = ReviewIssueSeverity.warning;
            status = ReviewIssueStatus.opened;
            details = conflict key o.human_override_id o.override_value incoming;
            resolved_at = none;
            resolved_by = none;
          })
            ∷ [];
    })
    else db
