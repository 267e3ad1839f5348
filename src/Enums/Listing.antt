-- ===== src/Enums/Listing.antt =====
-- The enumerations of contracts/enums.py that the canonical layer uses. Each is stored as its text; two members
-- are the same exactly when their texts are.
use nyc_rental_listing_agent.Base.{◌≡◌, ◌↔◌, Bool, true, false, arith}
use Prim.Native.String.{String}

pub data LayoutClass : Type 0 where
  studio one_bedroom two_bedroom out_of_scope unknown conflicting : LayoutClass

unfoldable pub layout_value : LayoutClass → String
layout_value LayoutClass.studio = "STUDIO"
layout_value LayoutClass.one_bedroom = "ONE_BEDROOM"
layout_value LayoutClass.two_bedroom = "TWO_BEDROOM"
layout_value LayoutClass.out_of_scope = "OUT_OF_SCOPE"
layout_value LayoutClass.unknown = "UNKNOWN"
layout_value LayoutClass.conflicting = "CONFLICTING"

LayoutClass-discrete : Discrete LayoutClass
LayoutClass-discrete = hlevel

unfoldable pub same_layout : LayoutClass → LayoutClass → Bool
unfolding LayoutClass-discrete
same_layout a b = elim (LayoutClass-discrete a b) [ yes h ↦ true | no h ↦ false ]

pub same_layout_iff : (a b : LayoutClass) → (same_layout a b ≡ true) ↔ (a ≡ b)
unfolding same_layout
same_layout_iff a b = ground arith

pub data AvailabilityStatus : Type 0 where
  available available_future application_pending no_longer_available : AvailabilityStatus
  source_removed unknown conflicting : AvailabilityStatus

unfoldable pub availability_value : AvailabilityStatus → String
availability_value AvailabilityStatus.available = "AVAILABLE"
availability_value AvailabilityStatus.available_future = "AVAILABLE_FUTURE"
availability_value AvailabilityStatus.application_pending = "APPLICATION_PENDING"
availability_value AvailabilityStatus.no_longer_available = "NO_LONGER_AVAILABLE"
availability_value AvailabilityStatus.source_removed = "SOURCE_REMOVED"
availability_value AvailabilityStatus.unknown = "UNKNOWN"
availability_value AvailabilityStatus.conflicting = "CONFLICTING"

AvailabilityStatus-discrete : Discrete AvailabilityStatus
AvailabilityStatus-discrete = hlevel

unfoldable pub same_availability : AvailabilityStatus → AvailabilityStatus → Bool
unfolding AvailabilityStatus-discrete
same_availability a b = elim (AvailabilityStatus-discrete a b) [ yes h ↦ true | no h ↦ false ]

pub same_availability_iff : (a b : AvailabilityStatus) → (same_availability a b ≡ true) ↔ (a ≡ b)
unfolding same_availability
same_availability_iff a b = ground arith

pub data LifecycleStatus : Type 0 where
  candidate active missing inactive reappeared excluded merged review_required : LifecycleStatus

unfoldable pub lifecycle_value : LifecycleStatus → String
lifecycle_value LifecycleStatus.candidate = "CANDIDATE"
lifecycle_value LifecycleStatus.active = "ACTIVE"
lifecycle_value LifecycleStatus.missing = "MISSING"
lifecycle_value LifecycleStatus.inactive = "INACTIVE"
lifecycle_value LifecycleStatus.reappeared = "REAPPEARED"
lifecycle_value LifecycleStatus.excluded = "EXCLUDED"
lifecycle_value LifecycleStatus.merged = "MERGED"
lifecycle_value LifecycleStatus.review_required = "REVIEW_REQUIRED"

LifecycleStatus-discrete : Discrete LifecycleStatus
LifecycleStatus-discrete = hlevel

unfoldable pub same_lifecycle : LifecycleStatus → LifecycleStatus → Bool
unfolding LifecycleStatus-discrete
same_lifecycle a b = elim (LifecycleStatus-discrete a b) [ yes h ↦ true | no h ↦ false ]

pub same_lifecycle_iff : (a b : LifecycleStatus) → (same_lifecycle a b ≡ true) ↔ (a ≡ b)
unfolding same_lifecycle
same_lifecycle_iff a b = ground arith

pub data LaundryType : Type 0 where
  in_unit_washer_dryer_confirmed in_unit_washer_only in_unit_dryer_only : LaundryType
  in_unit_hookup_only building_shared_laundry offsite_or_nearby_laundry : LaundryType
  no_laundry_stated explicitly_no_laundry conflicting unknown : LaundryType

unfoldable pub laundry_value : LaundryType → String
laundry_value LaundryType.in_unit_washer_dryer_confirmed = "IN_UNIT_WASHER_DRYER_CONFIRMED"
laundry_value LaundryType.in_unit_washer_only = "IN_UNIT_WASHER_ONLY"
laundry_value LaundryType.in_unit_dryer_only = "IN_UNIT_DRYER_ONLY"
laundry_value LaundryType.in_unit_hookup_only = "IN_UNIT_HOOKUP_ONLY"
laundry_value LaundryType.building_shared_laundry = "BUILDING_SHARED_LAUNDRY"
laundry_value LaundryType.offsite_or_nearby_laundry = "OFFSITE_OR_NEARBY_LAUNDRY"
laundry_value LaundryType.no_laundry_stated = "NO_LAUNDRY_STATED"
laundry_value LaundryType.explicitly_no_laundry = "EXPLICITLY_NO_LAUNDRY"
laundry_value LaundryType.conflicting = "CONFLICTING"
laundry_value LaundryType.unknown = "UNKNOWN"

LaundryType-discrete : Discrete LaundryType
LaundryType-discrete = hlevel

unfoldable pub same_laundry : LaundryType → LaundryType → Bool
unfolding LaundryType-discrete
same_laundry a b = elim (LaundryType-discrete a b) [ yes h ↦ true | no h ↦ false ]

pub same_laundry_iff : (a b : LaundryType) → (same_laundry a b ≡ true) ↔ (a ≡ b)
unfolding same_laundry
same_laundry_iff a b = ground arith

pub data CanonicalResolutionStatus : Type 0 where
  resolved provisional conflicting review_required : CanonicalResolutionStatus

pub data LinkStatus : Type 0 where
  active missing removed superseded conflicting : LinkStatus

pub data IdentityMethod : Type 0 where
  source_native_continuity exact_address_and_unit exact_building_unit_layout : IdentityMethod
  strong_multi_field probabilistic_reviewed manual unresolved : IdentityMethod

pub data IdentityConfidence : Type 0 where
  high medium low manual : IdentityConfidence

pub data MergeReasonCode : Type 0 where
  duplicate_exact duplicate_probabilistic manual : MergeReasonCode

unfoldable pub reason_value : MergeReasonCode → String
reason_value MergeReasonCode.duplicate_exact = "DUPLICATE_EXACT"
reason_value MergeReasonCode.duplicate_probabilistic = "DUPLICATE_PROBABILISTIC"
reason_value MergeReasonCode.manual = "MANUAL"

MergeReasonCode-discrete : Discrete MergeReasonCode
MergeReasonCode-discrete = hlevel

unfoldable pub same_reason : MergeReasonCode → MergeReasonCode → Bool
unfolding MergeReasonCode-discrete
same_reason a b = elim (MergeReasonCode-discrete a b) [ yes h ↦ true | no h ↦ false ]

pub same_reason_iff : (a b : MergeReasonCode) → (same_reason a b ≡ true) ↔ (a ≡ b)
unfolding same_reason
same_reason_iff a b = ground arith

pub data PerformedByType : Type 0 where
  system llm_proposed_validated human : PerformedByType

pub data DuplicateCandidateStatus : Type 0 where
  pending auto_merged confirmed_duplicate confirmed_distinct deferred : DuplicateCandidateStatus

pub data LocationPrecision : Type 0 where
  rooftop_or_entrance building parcel interpolated_address street : LocationPrecision
  postal_code neighborhood city unknown : LocationPrecision

pub data BoundaryStatus : Type 0 where
  in_scope out_of_scope unresolved : BoundaryStatus

BoundaryStatus-discrete : Discrete BoundaryStatus
BoundaryStatus-discrete = hlevel

unfoldable pub same_boundary : BoundaryStatus → BoundaryStatus → Bool
unfolding BoundaryStatus-discrete
same_boundary a b = elim (BoundaryStatus-discrete a b) [ yes h ↦ true | no h ↦ false ]

pub same_boundary_iff : (a b : BoundaryStatus) → (same_boundary a b ≡ true) ↔ (a ≡ b)
unfolding same_boundary
same_boundary_iff a b = ground arith

pub data DiscoveryMethod : Type 0 where
  direct search_index manual_import unknown : DiscoveryMethod

pub data ListingEventType : Type 0 where
  created activated material_change price_changed availability_changed : ListingEventType
  media_changed laundry_changed address_changed missing_started reappeared : ListingEventType
  inactivated excluded merged manual_override_applied : ListingEventType
  manual_override_removed : ListingEventType

ListingEventType-discrete : Discrete ListingEventType
ListingEventType-discrete = hlevel

unfoldable pub same_event_type : ListingEventType → ListingEventType → Bool
unfolding ListingEventType-discrete
same_event_type a b = elim (ListingEventType-discrete a b) [ yes h ↦ true | no h ↦ false ]

pub same_event_type_iff : (a b : ListingEventType) → (same_event_type a b ≡ true) ↔ (a ≡ b)
unfolding same_event_type
same_event_type_iff a b = ground arith
