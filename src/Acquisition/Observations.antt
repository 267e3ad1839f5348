-- ===== src/Acquisition/Observations.antt =====
-- db/repositories/observations.py.
use nyc_rental_listing_agent.Base.{
  ℕ, suc, String, Bool, false, ◌&&◌, Option, none, some, [], ◌∷◌, ◌++◌, ltb, leb, ◌==◌, str_eq,
  if◌then◌else◌,
}
use nyc_rental_listing_agent.Base.Lists.{take}
use nyc_rental_listing_agent.Base.Result.{Result}
use nyc_rental_listing_agent.Base.Table.{select, exists, count, scalar_one_or_none, order_by}
use nyc_rental_listing_agent.Enums.Ops.{ParseStatus}
use nyc_rental_listing_agent.Model.Listings.{ParsedSourceObservation, SourceObservation}
use nyc_rental_listing_agent.Model.Database.{Database}

-- The column that identifies the listing in a key: the native identifier where there is one, else
-- the URL.
abbrev pub same_subject :
    (native_a : Option String) (url_a : String) → (native_b : Option String) (url_b : String) → Bool
same_subject (some a) u (some b) v = str_eq a b
same_subject none u none v = str_eq u v
same_subject _ _ _ _ = false

-- The two unique indexes of the table, `uq_source_observation_native_identity` and
-- `uq_source_observation_url_identity`.
unfoldable pub same_observation : SourceObservation → SourceObservation → Bool
same_observation a b =
    same_subject a.source_native_id a.source_url b.source_native_id b.source_url
    && a.source_id == b.source_id
    && str_eq a.content_hash b.content_hash
    && a.observed_at == b.observed_at

abbrev pub observation_row :
    (id : ℕ)
    → ParsedSourceObservation
    → (source_id source_run_id : ℕ) → (content_hash : String) → ParseStatus
    → SourceObservation
observation_row id o source_id source_run_id content_hash parse_status = record {
  source_observation_id = id;
  source_id = source_id;
  source_run_id = source_run_id;
  source_native_id = o.source_native_id;
  source_url = o.source_url;
  observed_at = o.observed_at;
  retrieved_at = o.retrieved_at;
  content_hash = content_hash;
  parsed_payload = o;
  parse_status = parse_status;
}

unfoldable pub insert_idempotent :
    ParsedSourceObservation
    → (source_id source_run_id : ℕ) → (content_hash : String) → ParseStatus
    → Database
    → Option ℕ × Database
unfolding same_observation
insert_idempotent o source_id source_run_id content_hash parse_status db =
    let row = observation_row db.next_id o source_id source_run_id content_hash parse_status in
    if exists (same_observation row) db.observations then (none, db) else (
      some db.next_id,
      record db { next_id = suc db.next_id; observations = db.observations ++ row ∷ [] },
    )

abbrev pub native_of : Option String → String → Bool
native_of none i = false
native_of (some n) i = str_eq n i

abbrev pub observed_later : SourceObservation → SourceObservation → Bool
observed_later a b = ltb b.observed_at a.observed_at

unfoldable pub latest_for_identity :
    (source_id : ℕ) → (source_native_id : String) → Database → Result (Option SourceObservation)
unfolding order_by
latest_for_identity source_id i db = scalar_one_or_none (
    take 1 (
      order_by observed_later
        (select (λ o. o.source_id == source_id && native_of o.source_native_id i) db.observations)))

unfoldable pub count_between : (source_id start end : ℕ) → Database → ℕ
count_between source_id start end db =
    count (λ o. o.source_id == source_id && leb start o.observed_at && ltb o.observed_at end)
      db.observations
