-- ===== src/Aircraft/Layout/Accepted.antt =====
-- The seats of an accepted layout.
use booking_flight_system_mi.Base.{
  ◌+◌, ◌≤◌, ◌≡◌, refl, inl, inr, ◌&&◌, ◌||◌, List, [], ◌∷◌, ◌++◌, map, length, ltb, ◌==◌, All,
  Bool-cases, Text, text, arith, subst,
}
use booking_flight_system_mi.Aircraft.Position.Codes.{IsSeat}
use booking_flight_system_mi.Requests.{
  Value, property, is_plain_object, ValidationIssue, issue, ValidationResult, success, failure,
}
use booking_flight_system_mi.Bookings.Validation.{when, or_issues, array_of}
use booking_flight_system_mi.Aircraft.Layout.{
  LayoutSeat, Cabin, parsed_cabin, cabins_issues, count_seats_by_fare_class, seat_count,
  find_overlaps, total_seats, expand_cabins, expand_valid, expand_raw, expand_seat_layout,
  max_seats, is_array, max_cabins,
}
use booking_flight_system_mi.Aircraft.Layout.Limits.{
  IsCabin, append-nil, when-nil, cabins_issues-IsCabin, length-expand_cabins, counted,
}
use booking_flight_system_mi.Aircraft.Layout.Distinct.{
  DistinctPositions, find_overlaps-Apart, expand_cabins-Distinct, expand_cabins-IsSeat,
}

-- 1 to 900 seats, each at a position of an aircraft and no two at the same one, each in one of the
-- two counts.
pub record IsLayout (seats : List LayoutSeat) : Type 0 where
  pub some_seats : 1 ≤ length seats
  pub few_seats : length seats ≤ 900
  pub valid : All (λ s. IsSeat s.position) seats
  pub distinct : DistinctPositions seats
  pub all_counted :
      (count_seats_by_fare_class seats).0 + (count_seats_by_fare_class seats).1 ≡ length seats

pub or_issues-success :
    {A : Type 0} (is : List ValidationIssue) (r : ValidationResult A) (a : A)
    → or_issues is r failure ≡ success a
    → (is ≡ []) × (r ≡ success a)
or_issues-success [] r a e = (refl, e)
or_issues-success (i ∷ is) r a e = absurd (cc)

some_total : (cs : List Cabin) → All IsCabin cs → 1 ≤ length cs → 1 ≤ total_seats cs
unfolding total_seats seat_count
some_total [] h k = k
some_total (c ∷ cs) (ok, h) k = let letters = ok.some_letters in omega arith

expand_valid-IsLayout :
    (name : Text) (cs : List Cabin) (seats : List LayoutSeat)
    → All IsCabin cs
    → 1 ≤ length cs
    → expand_valid name cs ≡ success seats
    → IsLayout seats
unfolding expand_valid
expand_valid-IsLayout name cs seats h k e =
    let (none_there, told) = or_issues-success _ (success (expand_cabins cs)) seats e in
    let (overlaps, total) =
      append-nil (find_overlaps name 0 [] cs)
        (when (ltb max_seats (total_seats cs))
          (issue (name ++ text ".cabins") (text "TOO_MANY_SEATS")))
        none_there in
    let few =
      when-nil (ltb max_seats (total_seats cs))
        (issue (name ++ text ".cabins") (text "TOO_MANY_SEATS")) total in
    let size = length-expand_cabins cs h in
    let least = some_total cs h k in
    let expanded : expand_cabins cs ≡ seats = ground arith in
    subst IsLayout expanded (record {
      some_seats = omega arith;
      few_seats = ground arith;
      valid = expand_cabins-IsSeat cs h;
      distinct = expand_cabins-Distinct cs h (find_overlaps-Apart name 0 [] cs overlaps).1;
      all_counted = counted (expand_cabins cs);
    })

cabins_of : (vs : List Value) → 1 ≤ length vs → 1 ≤ length (map parsed_cabin vs)
cabins_of [] h = h
cabins_of (v ∷ vs) h = omega arith

expand_raw-IsLayout :
    (name : Text) (vs : List Value) (seats : List LayoutSeat)
    → expand_raw name vs ≡ success seats
    → IsLayout seats
unfolding expand_raw
expand_raw-IsLayout name vs seats e =
    elim (Bool-cases (length vs == 0 || ltb max_cabins (length vs))) [
      | inl y ↦ absurd (ground arith)
      | inr n ↦
          let (none_there, told) =
            or_issues-success (cabins_issues name 0 vs) (expand_valid name (map parsed_cabin vs))
              seats (ground arith) in
          expand_valid-IsLayout name (map parsed_cabin vs) seats
            (cabins_issues-IsCabin name 0 vs none_there) (cabins_of vs (ground arith)) told
    ]

-- An accepted seat layout expands to 1 to 900 seats, each at a row from 1 to 99 and a letter from
-- A to K, no two of them at the same position, and the counts by fare class add up to all of them.
pub expand_seat_layout-IsLayout :
    (input : Value) (name : Text) (seats : List LayoutSeat)
    → expand_seat_layout input name ≡ success seats
    → IsLayout seats
unfolding expand_seat_layout
expand_seat_layout-IsLayout input name seats e =
    elim (Bool-cases (is_plain_object input && is_array (property input (text "cabins")))) [
      | inl y ↦
          expand_raw-IsLayout name (array_of (property input (text "cabins"))) seats (ground arith)
      | inr n ↦ absurd (ground arith)
    ]
