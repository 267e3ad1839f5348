-- ===== src/Tests/Usefulness.antt =====
-- The classification of a subway station at 300 m and of a bus stop.
use nyc_rental_listing_agent.Base.{◌≡◌, ◌≤◌, ◌+◌, refl, some, [], ◌∷◌, List, ℕ}
use nyc_rental_listing_agent.Base.Lists.{All}
use nyc_rental_listing_agent.Enums.Transit.{TransitMode, UsefulnessStatus}
use nyc_rental_listing_agent.Enrichment.Usefulness.{
  TransitAccess, IsHonest, classify_usefulness, classify_usefulness-IsHonest,
}

abbrev station : ℕ → TransitMode → TransitAccess
station i mode = record {
  transit_access_id = i;
  canonical_listing_id = 7;
  mode = mode;
  straight_line_distance_m = some 300;
  usefulness_status = UsefulnessStatus.candidate;
  usefulness_reasons = [];
}

abbrev stations : List TransitAccess
stations = station 1 TransitMode.subway ∷ station 2 TransitMode.bus ∷ []

none_useful : All IsHonest stations
none_useful =
    (record { near = λ u. cc; direct = λ u. cc }, (record { near = λ u. cc; direct = λ u. cc }, tt))

one_useful : (classify_usefulness 10 stations).0.useful ≡ 1
unfolding classify_usefulness
one_useful = refl

classify_usefulness-IsHonest_example :
    (let r = classify_usefulness 10 stations in
      (r.0.evaluated ≡ r.0.useful + r.0.candidate) × ((r.0.evaluated ≤ 10) × All IsHonest r.1))
classify_usefulness-IsHonest_example = classify_usefulness-IsHonest 10 stations none_useful
