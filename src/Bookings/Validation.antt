-- ===== src/Bookings/Validation.antt =====
-- api/src/bookings/booking-validation.ts: the body of a booking request and of a seat change.
pub mod Laws
pub mod Body
use booking_flight_system_mi.Base.{
  ℕ, zero, suc, ◌+◌, Bool, true, false, not, ◌&&◌, ◌||◌, Option, none, some, List, [], ◌∷◌, ◌++◌,
  map, length, leb, ltb, ◌==◌, any, if◌then◌else◌, Text, text, same, ◌-◌,
}
use booking_flight_system_mi.Aircraft.Position.{
  SeatPosition, parse_seat_position, format_seat_position,
}
use booking_flight_system_mi.Store.{FareClass, economy, business}
use booking_flight_system_mi.Requests.{
  Value, undefined, null, boolean, number, string, array, object, Items, elems, property,
  is_plain_object, is_undefined, is_non_empty_string, trim, ValidationIssue, issue,
  ValidationResult, success, failure, indexed,
}

abbrev pub max_passengers : ℕ
max_passengers = 9

-- The names of an automatic request, or each name with its seat.
pub data CreateBookingInput : Type 0 where
  auto_seats : FareClass → List Text → CreateBookingInput
  chosen_seats : List (Text × SeatPosition) → CreateBookingInput

-- A passenger that parsed, with its seat if it names one.
abbrev pub ParsedPassenger : Type 0
ParsedPassenger = Text × Option SeatPosition

abbrev pub seat_of_value : Value → Option SeatPosition
seat_of_value (string t) = parse_seat_position t
seat_of_value _ = none

abbrev pub text_of_value : Value → Text
text_of_value (string t) = t
text_of_value _ = []

abbrev pub has_seat : Option SeatPosition → Bool
has_seat none = false
has_seat (some p) = true

abbrev pub when : Bool → ValidationIssue → List ValidationIssue
when true i = i ∷ []
when false i = []

unfoldable pub passenger_issues : Value → Text → List ValidationIssue
passenger_issues value name =
    if is_plain_object value
    then when (not (is_non_empty_string (property value (text "name"))))
        (issue (name ++ text ".name") (text "REQUIRED"))
      ++ when
          (not (is_undefined (property value (text "seat")))
            && not (has_seat (seat_of_value (property value (text "seat")))))
          (issue (name ++ text ".seat") (text "INVALID_SEAT"))
    else issue name (text "INVALID_PASSENGER") ∷ []

unfoldable pub parsed_passenger : Value → ParsedPassenger
parsed_passenger value = (
  trim (text_of_value (property value (text "name"))),
  seat_of_value (property value (text "seat")),
)

unfoldable pub passengers_issues : ℕ → List Value → List ValidationIssue
unfolding passenger_issues
passengers_issues index [] = []
passengers_issues index (v ∷ vs) =
    passenger_issues v (indexed (text "passengers") index) ++ passengers_issues (suc index) vs

unfoldable pub fare_class_of : Value → Option FareClass
unfolding same
fare_class_of (string t) =
    if same t (text "ECONOMY")
    then some economy
    else (if same t (text "BUSINESS") then some business else none)
fare_class_of _ = none

-- Everyone names a seat, nobody does, or some do.
pub data Selection : Type 0 where
  nobody_chose : List Text → Selection
  all_chose : List (Text × SeatPosition) → Selection
  mixed : Selection

abbrev pub add_passenger : ParsedPassenger → Selection → Selection
add_passenger (name, none) (nobody_chose names) = nobody_chose (name ∷ names)
add_passenger (name, some p) (all_chose pairs) = all_chose ((name, p) ∷ pairs)
add_passenger _ _ = mixed

abbrev first_passenger : ParsedPassenger → Selection
first_passenger (name, none) = nobody_chose (name ∷ [])
first_passenger (name, some p) = all_chose ((name, p) ∷ [])

unfoldable pub selection : ParsedPassenger → List ParsedPassenger → Selection
selection p [] = first_passenger p
selection p (q ∷ rest) = add_passenger p (selection q rest)

-- Each later repeat of a seat code is reported, the first use is not.
unfoldable pub duplicate_issues : ℕ → List Text → List (Text × SeatPosition) → List ValidationIssue
duplicate_issues index seen [] = []
duplicate_issues index seen ((name, p) ∷ pairs) =
    let code = format_seat_position p in
    when (any (same code) seen)
      (issue (indexed (text "passengers") index ++ text ".seat") (text "DUPLICATE_SEAT"))
    ++ duplicate_issues (suc index) (code ∷ seen) pairs

abbrev pub decide_auto : Value → List Text → ValidationResult CreateBookingInput
decide_auto undefined names = failure (issue (text "fareClass") (text "MISSING_FIELD") ∷ [])
decide_auto value names = elim (fare_class_of value) [
  | none ↦ failure (issue (text "fareClass") (text "INVALID_FARE_CLASS") ∷ [])
  | some fare_class ↦ success (auto_seats fare_class names)
]

abbrev pub or_issues {ℓ} : {A : Type ℓ} → List ValidationIssue → A → (List ValidationIssue → A) → A
or_issues [] a f = a
or_issues (i ∷ is) a f = f (i ∷ is)

unfoldable pub decide_selection : Value → Selection → ValidationResult CreateBookingInput
decide_selection fare_class (nobody_chose names) = decide_auto fare_class names
decide_selection fare_class mixed =
    failure (issue (text "passengers") (text "MIXED_SEAT_SELECTION") ∷ [])
decide_selection fare_class (all_chose pairs) =
    or_issues
      (when (not (is_undefined fare_class)) (issue (text "fareClass") (text "UNSUPPORTED_FIELD"))
        ++ duplicate_issues 0 [] pairs)
      (success (chosen_seats pairs)) failure

abbrev count_issue : ValidationIssue
count_issue = issue (text "passengers") (text "INVALID_PASSENGER_COUNT")

abbrev pub array_of : Value → List Value
array_of (array vs) = elems vs
array_of _ = []

unfoldable pub validate_passengers :
    List ValidationIssue → Value → List Value → ValidationResult CreateBookingInput
validate_passengers earlier fare_class [] = failure (earlier ++ count_issue ∷ [])
validate_passengers earlier fare_class (v ∷ vs) =
    if leb (length (v ∷ vs)) max_passengers
    then or_issues (earlier ++ passengers_issues 0 (v ∷ vs))
        (decide_selection fare_class (selection (parsed_passenger v) (map parsed_passenger vs)))
        failure
    else failure (earlier ++ count_issue ∷ [])

unfoldable pub validate_create_booking_input : Value → ValidationResult CreateBookingInput
unfolding validate_passengers
validate_create_booking_input input =
    if is_plain_object input
    then validate_passengers
        (when (not (is_undefined (property input (text "passengerName"))))
          (issue (text "passengerName") (text "UNSUPPORTED_FIELD")))
        (property input (text "fareClass")) (array_of (property input (text "passengers")))
    else failure (issue (text "body") (text "INVALID_BODY") ∷ [])

unfoldable pub validate_change_seat_input : Value → ValidationResult SeatPosition
validate_change_seat_input input =
    if is_plain_object input
    then (elim (seat_of_value (property input (text "seat"))) [
      | none ↦ failure (
          issue (text "seat") (
            if is_undefined (property input (text "seat"))
            then text "REQUIRED"
            else text "INVALID_SEAT")
          ∷ [])
      | some p ↦ success p
    ])
    else failure (issue (text "body") (text "INVALID_BODY") ∷ [])

-- `/^[1-9]$/`.
unfoldable pub parse_passenger_position : Text → Option ℕ
parse_passenger_position (c ∷ []) = if leb b'1' c && leb c b'9' then some (c - b'0') else none
parse_passenger_position _ = none
