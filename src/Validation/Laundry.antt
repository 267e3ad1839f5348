-- ===== src/Validation/Laundry.antt =====
-- validation/laundry.py.
use nyc_rental_listing_agent.Base.{Bool, true, false, ◌&&◌, ◌||◌, not, if◌then◌else◌}
use nyc_rental_listing_agent.Enums.Listing.{LaundryType, same_laundry}
use nyc_rental_listing_agent.Enums.Facts.{ValidationStatus, ResolutionStatus}

abbrev is_passed : ValidationStatus → Bool
is_passed ValidationStatus.passed = true
is_passed _ = false

abbrev is_not_applicable : ValidationStatus → Bool
is_not_applicable ValidationStatus.not_applicable = true
is_not_applicable _ = false

abbrev is_settled : ResolutionStatus → Bool
is_settled ResolutionStatus.resolved = true
is_settled ResolutionStatus.manual_override = true
is_settled _ = false

unfoldable pub derive_badge_eligibility :
    LaundryType → ValidationStatus → ResolutionStatus → (human_confirmed : Bool) → Bool
unfolding same_laundry
derive_badge_eligibility laundry validation resolution human_confirmed =
    if not (same_laundry laundry LaundryType.in_unit_washer_dryer_confirmed)
    then false
    else if not (is_passed validation || (is_not_applicable validation && human_confirmed))
    then false
    else is_settled resolution
