-- ===== src/Canonical/Events.antt =====
-- The append of a listing event that the canonical services share (`_emit` of admission.py and
-- disappearance.py, `_emit_event` of merge_service.py and normalization.py): an insert that does
-- nothing where the idempotency key is taken.
use nyc_rental_listing_agent.Base.{
  Bool, true, false, ◌&&◌, List, [], ◌∷◌, ◌++◌, ◌==◌, str_eq, if◌then◌else◌,
}
use nyc_rental_listing_agent.Base.Table.{exists}
use nyc_rental_listing_agent.Enums.Listing.{same_event_type}
use nyc_rental_listing_agent.Model.Listings.{ListingEvent, KeySuffix, of_id, of_rule}
use nyc_rental_listing_agent.Model.Database.{Database}

unfoldable pub same_suffix : KeySuffix → KeySuffix → Bool
same_suffix (of_id a) (of_id b) = a == b
same_suffix (of_rule s) (of_rule t) = str_eq s t
same_suffix _ _ = false

-- `a` has the idempotency key of `b`.
unfoldable pub same_key : ListingEvent → ListingEvent → Bool
unfolding same_suffix same_event_type
same_key a b =
    a.canonical_listing_id == b.canonical_listing_id
    && same_event_type a.event_type b.event_type
    && same_suffix a.key_suffix b.key_suffix

-- Whether the event was inserted, and the table after.
unfoldable pub append_event : ListingEvent → List ListingEvent → Bool × List ListingEvent
unfolding same_key
append_event ev events =
    if exists (same_key ev) events then (false, events) else (true, events ++ ev ∷ [])

-- The same as a statement on the database.
unfoldable pub emit : ListingEvent → Database → Database
unfolding append_event
emit ev db = record db { events = (append_event ev db.events).1 }
