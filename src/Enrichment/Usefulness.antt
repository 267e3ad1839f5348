-- ===== src/Enrichment/Usefulness.antt =====
-- enrichment/transit/usefulness.py, on the rows of `transit_access` of db/models/transit.py.
use nyc_rental_listing_agent.Base.{
  ℕ, ◌+◌, ◌≤◌, ◌≡◌, refl, inl, inr, String, Bool, true, false, Option, none, some, List, [], ◌∷◌,
  arith, leb, ◌==◌, Bool-cases, Option-cases, if◌then◌else◌,
}
use nyc_rental_listing_agent.Base.Lists.{All, take, length, length-take-le}
use nyc_rental_listing_agent.Base.Table.{select, update_where}
use nyc_rental_listing_agent.Base.Table.Rules.{All-update}
use nyc_rental_listing_agent.Enums.Transit.{TransitMode, UsefulnessStatus}

pub record TransitAccess : Type 0 where
  pub transit_access_id : ℕ
  pub canonical_listing_id : ℕ
  pub mode : TransitMode
  pub straight_line_distance_m : Option ℕ
  pub usefulness_status : UsefulnessStatus
  pub usefulness_reasons : List String

pub record UsefulnessSummary : Type 0 where
  pub evaluated : ℕ
  pub useful : ℕ
  pub candidate : ℕ

-- MODE_REASON
abbrev pub mode_reason : TransitMode → Option String
mode_reason TransitMode.subway = some "DIRECT_SUBWAY_ACCESS"
mode_reason TransitMode.path = some "DIRECT_PATH_ACCESS"
mode_reason _ = none

-- USEFUL_STRAIGHT_LINE_M
abbrev pub within_band : Option ℕ → Bool
within_band none = false
within_band (some m) = leb m 800

-- The reason for a direct access, where the row has one.
unfoldable pub direct_reason : TransitAccess → Option String
direct_reason a = if within_band a.straight_line_distance_m then mode_reason a.mode else none

abbrev pub write_reason : Option String → TransitAccess → TransitAccess
write_reason none a = record a { usefulness_reasons = "SERVICE_UNVERIFIED" ∷ [] }
write_reason (some reason) a = record a {
  usefulness_status = UsefulnessStatus.useful;
  usefulness_reasons = reason ∷ [];
}

-- The body of the loop, on the row.
unfoldable pub classified_row : TransitAccess → TransitAccess
unfolding direct_reason
classified_row a = write_reason (direct_reason a) a

abbrev pub add_row : Option String → UsefulnessSummary → UsefulnessSummary
add_row none s = record s { evaluated = s.evaluated + 1; candidate = s.candidate + 1 }
add_row (some reason) s = record s { evaluated = s.evaluated + 1; useful = s.useful + 1 }

abbrev pub access_is : ℕ → TransitAccess → Bool
access_is i a = a.transit_access_id == i

unfoldable pub classify_rows :
    List TransitAccess
    → UsefulnessSummary
    → List TransitAccess
    → UsefulnessSummary × List TransitAccess
unfolding classified_row
classify_rows [] s table = (s, table)
classify_rows (a ∷ rows) s table =
    classify_rows rows (add_row (direct_reason a) s)
      (update_where (access_is a.transit_access_id) classified_row table)

abbrev pub is_candidate : UsefulnessStatus → Bool
is_candidate UsefulnessStatus.candidate = true
is_candidate _ = false

unfoldable pub classify_usefulness :
    (limit : ℕ) → List TransitAccess → UsefulnessSummary × List TransitAccess
unfolding classify_rows
classify_usefulness limit table =
    classify_rows (take limit (select (λ a. is_candidate a.usefulness_status) table))
      (record { evaluated = 0; useful = 0; candidate = 0 }) table

-- A row is useful only by a station of the subway or of PATH within the band.
pub record IsHonest (a : TransitAccess) : Type 0 where
  pub near :
      a.usefulness_status ≡ UsefulnessStatus.useful → within_band a.straight_line_distance_m ≡ true
  pub direct :
      a.usefulness_status ≡ UsefulnessStatus.useful
      → (reason : String) × (mode_reason a.mode ≡ some reason)

classified_row-IsHonest : (a : TransitAccess) → IsHonest a → IsHonest (classified_row a)
unfolding classified_row direct_reason
classified_row-IsHonest a h = elim (Bool-cases (within_band a.straight_line_distance_m)) [
  | inr far ↦
      rw (classified_row, direct_reason, far)
        (record { near = λ u. h.near u; direct = λ u. h.direct u })
  | inl near ↦ elim (Option-cases (mode_reason a.mode)) [
    | inl m ↦
        rw (classified_row, direct_reason, near, m)
          (record { near = λ u. h.near u; direct = λ u. h.direct u })
    | inr (reason, m) ↦
        rw (classified_row, direct_reason, near, m)
          (record { near = λ u. near; direct = λ u. (reason, m) })
  ]
]

-- What the loop adds to the summary, and that it keeps the rows honest.
classify_rows-IsHonest :
    (rows : List TransitAccess) (s : UsefulnessSummary) (table : List TransitAccess)
    → s.evaluated ≡ s.useful + s.candidate
    → All IsHonest table
    → (let r = classify_rows rows s table in
        (r.0.evaluated ≡ r.0.useful + r.0.candidate)
        × ((r.0.evaluated ≡ s.evaluated + length rows) × All IsHonest r.1))
unfolding classify_rows
classify_rows-IsHonest [] s table e h = (e, (omega arith, h))
classify_rows-IsHonest (a ∷ rows) s table e h =
    let next = add_row (direct_reason a) s in
    let (sum, one) = add_row-totals (direct_reason a) s e in
    let rest =
      classify_rows-IsHonest rows next
        (update_where (access_is a.transit_access_id) classified_row table) sum
        (All-update IsHonest (access_is a.transit_access_id) classified_row
          (λ x m k. classified_row-IsHonest x k) table h) in
    (rest.0, (omega (arith, rest.1.0, one), rest.1.1))
  where
    add_row-totals :
        (r : Option String) (s : UsefulnessSummary)
        → s.evaluated ≡ s.useful + s.candidate
        → ((add_row r s).evaluated ≡ (add_row r s).useful + (add_row r s).candidate)
          × ((add_row r s).evaluated ≡ s.evaluated + 1)
    add_row-totals none s e = (omega (arith, e), omega arith)
    add_row-totals (some reason) s e = (omega (arith, e), omega arith)

-- A classification run evaluates at most `limit` rows, each of which it counts as useful or as a
-- candidate; where every useful row is near a subway or PATH station (at most 800 m in a straight
-- line), this still holds after it.
pub classify_usefulness-IsHonest :
    (limit : ℕ) (table : List TransitAccess)
    → All IsHonest table
    → (let r = classify_usefulness limit table in
        (r.0.evaluated ≡ r.0.useful + r.0.candidate) × ((r.0.evaluated ≤ limit) × All IsHonest r.1))
unfolding classify_usefulness
classify_usefulness-IsHonest limit table h =
    let rows = select (λ a. is_candidate a.usefulness_status) table in
    let (sum, (total, honest)) =
      classify_rows-IsHonest (take limit rows) (record { evaluated = 0; useful = 0; candidate = 0 })
        table refl h in
    (sum, (omega (arith, total, length-take-le limit rows), honest))
