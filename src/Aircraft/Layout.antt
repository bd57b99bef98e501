-- ===== src/Aircraft/Layout.antt =====
-- api/src/aircraft/seat-layout.ts: cabins of rows, expanded to one seat per position. A letter is a
-- code unit, as a letter outside the basic plane is refused either way.
pub mod Limits
pub mod Distinct
pub mod Accepted
use booking_flight_system_mi.Base.{
  ℕ, zero, suc, ◌+◌, ◌-◌, ◌*◌, min, max, Bool, true, false, not, ◌&&◌, ◌||◌, List, [], ◌∷◌, ◌++◌,
  map, length, any, leb, ltb, ◌==◌, if◌then◌else◌, Text, text, Option, none, some,
}
use booking_flight_system_mi.Aircraft.Position.{SeatPosition, is_seat_letter, is_seat_row}
use booking_flight_system_mi.Money.{Num, whole, other}
use booking_flight_system_mi.Store.{FareClass, economy, business}
use booking_flight_system_mi.Requests.{
  Value, undefined, null, boolean, number, string, array, object, property, is_plain_object,
  is_non_empty_string, ValidationIssue, issue, ValidationResult, success, failure, indexed,
}
use booking_flight_system_mi.Bookings.Validation.{
  when, or_issues, array_of, text_of_value, fare_class_of,
}

pub record LayoutSeat : Type 0 where
  pub position : SeatPosition
  pub fare_class : FareClass

abbrev pub max_cabins : ℕ
max_cabins = 10

abbrev pub max_letters_per_row : ℕ
max_letters_per_row = 10

abbrev pub max_seats : ℕ
max_seats = 900

pub record Cabin : Type 0 where
  pub fare_class : FareClass
  pub from_row : ℕ
  pub to_row : ℕ
  pub letters : List ℕ

abbrev is_class : Option FareClass → Bool
is_class none = false
is_class (some c) = true

abbrev pub is_fare_class : Value → Bool
is_fare_class value = is_class (fare_class_of value)

abbrev pub is_row : Value → Bool
is_row (number n) = is_seat_row n
is_row _ = false

abbrev pub row_of : Value → ℕ
row_of (number (whole n)) = n
row_of _ = 0

unfoldable pub repeats : List ℕ → Bool
repeats [] = false
repeats (c ∷ cs) = any (λ d. c == d) cs || repeats cs

-- `parseSeatLetters`.
unfoldable pub seat_letters_issues : Value → Text → List ValidationIssue
seat_letters_issues value name =
    let letters = text_of_value value in
    if not (is_non_empty_string value) || ltb max_letters_per_row (length letters)
    then issue name (text "INVALID_SEAT_LETTERS") ∷ []
    else (if any (λ c. not (is_seat_letter c)) letters
        then issue name (text "INVALID_SEAT_LETTERS") ∷ []
        else when (repeats letters) (issue name (text "DUPLICATE_SEAT_LETTER")))

-- `parseCabin`: its issues, and the cabin when there are none.
unfoldable pub cabin_issues : Value → Text → List ValidationIssue
cabin_issues value name =
    let from = property value (text "fromRow") in
    let to = property value (text "toRow") in
    if is_plain_object value
    then when (not (is_fare_class (property value (text "fareClass"))))
        (issue (name ++ text ".fareClass") (text "INVALID_FARE_CLASS"))
      ++ when (not (is_row from)) (issue (name ++ text ".fromRow") (text "INVALID_ROW"))
      ++ when (not (is_row to)) (issue (name ++ text ".toRow") (text "INVALID_ROW"))
      ++ when (is_row from && is_row to && ltb (row_of to) (row_of from))
          (issue (name ++ text ".toRow") (text "INVALID_ROW_RANGE"))
      ++ seat_letters_issues (property value (text "seatLetters")) (name ++ text ".seatLetters")
    else issue name (text "INVALID_CABIN") ∷ []

abbrev class_or_economy : Option FareClass → FareClass
class_or_economy none = economy
class_or_economy (some c) = c

abbrev pub parsed_cabin : Value → Cabin
parsed_cabin value = record {
  fare_class = class_or_economy (fare_class_of (property value (text "fareClass")));
  from_row = row_of (property value (text "fromRow"));
  to_row = row_of (property value (text "toRow"));
  letters = text_of_value (property value (text "seatLetters"));
}

unfoldable pub cabins_issues : Text → ℕ → List Value → List ValidationIssue
cabins_issues name index [] = []
cabins_issues name index (v ∷ vs) =
    cabin_issues v (indexed (name ++ text ".cabins") index) ++ cabins_issues name (suc index) vs

abbrev pub count_by : FareClass → ℕ × ℕ → ℕ × ℕ
count_by economy (e, b) = (suc e, b)
count_by business (e, b) = (e, suc b)

-- The numbers of ECONOMY and of BUSINESS seats.
unfoldable pub count_seats_by_fare_class : List LayoutSeat → ℕ × ℕ
count_seats_by_fare_class [] = (0, 0)
count_seats_by_fare_class (s ∷ seats) = count_by s.fare_class (count_seats_by_fare_class seats)

unfoldable pub seat_count : Cabin → ℕ
seat_count c = suc (c.to_row - c.from_row) * length c.letters

-- The rows that two cabins share.
abbrev pub shares_rows : Cabin → Cabin → Bool
shares_rows c other_cabin =
    leb (max c.from_row other_cabin.from_row) (min c.to_row other_cabin.to_row)

unfoldable pub overlap_issues : Text → Cabin → List Cabin → List ValidationIssue
overlap_issues name c [] = []
overlap_issues name c (d ∷ earlier) =
    when (shares_rows c d) (issue name (text "CABIN_ROWS_OVERLAP")) ++ overlap_issues name c earlier

-- Each cabin against the earlier ones.
unfoldable pub find_overlaps : Text → ℕ → List Cabin → List Cabin → List ValidationIssue
find_overlaps name index earlier [] = []
find_overlaps name index earlier (c ∷ cs) =
    overlap_issues (indexed (name ++ text ".cabins") index) c earlier
    ++ find_overlaps name (suc index) (earlier ++ c ∷ []) cs

unfoldable pub total_seats : List Cabin → ℕ
total_seats [] = 0
total_seats (c ∷ cs) = seat_count c + total_seats cs

abbrev pub layout_seat : FareClass → ℕ → ℕ → LayoutSeat
layout_seat fare_class row letter = record {
  position = record { row = row; letter = letter };
  fare_class = fare_class;
}

-- The loop over `count` rows from `row` on.
unfoldable pub expand_rows : Cabin → ℕ → ℕ → List LayoutSeat
expand_rows c zero row = []
expand_rows c (suc count) row =
    map (layout_seat c.fare_class row) c.letters ++ expand_rows c count (suc row)

unfoldable pub expand_cabins : List Cabin → List LayoutSeat
expand_cabins [] = []
expand_cabins (c ∷ cs) = expand_rows c (suc c.to_row - c.from_row) c.from_row ++ expand_cabins cs

abbrev pub is_array : Value → Bool
is_array (array vs) = true
is_array _ = false

unfoldable pub expand_valid : Text → List Cabin → ValidationResult (List LayoutSeat)
expand_valid name cabins =
    or_issues
      (find_overlaps name 0 [] cabins
        ++ when (ltb max_seats (total_seats cabins))
            (issue (name ++ text ".cabins") (text "TOO_MANY_SEATS")))
      (success (expand_cabins cabins)) failure

unfoldable pub expand_raw : Text → List Value → ValidationResult (List LayoutSeat)
expand_raw name values =
    if length values == 0 || ltb max_cabins (length values)
    then failure (issue (name ++ text ".cabins") (text "INVALID_CABIN_COUNT") ∷ [])
    else or_issues (cabins_issues name 0 values) (expand_valid name (map parsed_cabin values))
        failure

unfoldable pub expand_seat_layout : Value → Text → ValidationResult (List LayoutSeat)
expand_seat_layout input name =
    if is_plain_object input && is_array (property input (text "cabins"))
    then expand_raw name (array_of (property input (text "cabins")))
    else failure (issue name (text "INVALID_SEAT_LAYOUT") ∷ [])
