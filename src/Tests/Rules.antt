-- ===== src/Tests/Rules.antt =====
-- The theorems on the rules that need no tables, at concrete values.
use booking_flight_system_mi.Base.{
  ◌≤◌, ◌<◌, ◌≡◌, ◌≢◌, ◌↔◌, refl, true, not, is_ok, some, [], ◌∷◌, text, ok, thrown, range_error,
  decimal, same, arith,
}
use booking_flight_system_mi.Money.{
  vnd_currency, max_safe_integer, sum_money, parse_vnd_from_database, as_string,
}
use booking_flight_system_mi.Money.Laws.{sum_money_exact, total_amount, in_vnd}
use booking_flight_system_mi.Money.Decimal.{parse_vnd_from_database-decimal}
use booking_flight_system_mi.Aircraft.Position.{
  SeatPosition, parse_seat_position, format_seat_position,
}
use booking_flight_system_mi.Aircraft.Position.Codes.{IsSeat, parse_seat_position_iff}
use booking_flight_system_mi.Flights.Lifecycle.{
  StoredFlightStatus, FlightStatus, allowed, effective_flight_status, is_bookable, on_sale_sql,
  transition_flight,
}
use booking_flight_system_mi.Flights.Lifecycle.Laws.{
  on_sale_sql-is_bookable, Moves, transition_flight_iff, opened_is_bookable,
}
use booking_flight_system_mi.Bookings.Lifecycle.{
  held, effective_booking_status, is_hold_lapsed, cancel_condition, classify_not_cancelled,
}
use booking_flight_system_mi.Bookings.Lifecycle.Laws.{
  cancel_condition-classify_not_cancelled, effective_booking_status_settled,
}
use booking_flight_system_mi.Requests.{
  Value, object, field, end, string, array, cons, nil, success, is_plain_object, property,
  property_of, is_non_empty_string, trim, trim_start,
}
use booking_flight_system_mi.Bookings.Validation.{
  chosen_seats, validate_create_booking_input, validate_passengers, passengers_issues,
  passenger_issues, parsed_passenger, selection, decide_selection, duplicate_issues,
}
use booking_flight_system_mi.Bookings.Validation.Body.{
  FromBody, validate_create_booking_input-FromBody,
}
use booking_flight_system_mi.Bookings.Validation.Laws.{IsRequest}

abbrev body : Value
body = object (
    field (text "passengers")
      (array (
        cons
          (object (
            field (text "name") (string (text " An "))
              (field (text "seat") (string (text "1A")) end)))
          nil))
      end)

abbrev seat_1a : SeatPosition
seat_1a = record { row = 1; letter = b'A' }

body_accepted :
    validate_create_booking_input body ≡ success (chosen_seats ((text "An", seat_1a) ∷ []))
unfolding validate_create_booking_input validate_passengers passengers_issues passenger_issues
    parsed_passenger selection decide_selection duplicate_issues is_plain_object property
    property_of is_non_empty_string trim trim_start parse_seat_position format_seat_position same
    decimal
body_accepted = refl

validate_create_booking_input-FromBody_example :
    IsRequest (chosen_seats ((text "An", seat_1a) ∷ []))
    × FromBody body (chosen_seats ((text "An", seat_1a) ∷ []))
validate_create_booking_input-FromBody_example =
    validate_create_booking_input-FromBody body (chosen_seats ((text "An", seat_1a) ∷ []))
      body_accepted

cancel_condition-classify_not_cancelled_example :
    cancel_condition held (some 901000) 1000000000 2000
    ≡ not (is_ok (classify_not_cancelled held (some 901000) 1000000000 2000))
cancel_condition-classify_not_cancelled_example =
    cancel_condition-classify_not_cancelled held 901000 1000000000 2000

lapsed_at_once : effective_booking_status held (some 901000) 901000 ≢ held
unfolding effective_booking_status is_hold_lapsed
lapsed_at_once = λ e. absurd (cc)

effective_booking_status_settled_example :
    effective_booking_status held (some 901000) 901001
    ≡ effective_booking_status held (some 901000) 901000
effective_booking_status_settled_example =
    effective_booking_status_settled held (some 901000) 901000 901001 (omega arith) lapsed_at_once

on_sale_sql-is_bookable_example :
    on_sale_sql StoredFlightStatus.open_ 1000000000 2000
    ≡ is_bookable StoredFlightStatus.open_ 1000000000 2000
on_sale_sql-is_bookable_example = on_sale_sql-is_bookable StoredFlightStatus.open_ 1000000000 2000

transition_flight_iff_example :
    (transition_flight FlightStatus.scheduled FlightStatus.open_
        (record { departure_at = 10000000; now = 2000 })
      ≡ allowed)
    ↔ Moves 10000000 2000 FlightStatus.scheduled FlightStatus.open_
transition_flight_iff_example =
    transition_flight_iff 10000000 2000 FlightStatus.scheduled FlightStatus.open_

opening_allowed :
    transition_flight
      (effective_flight_status StoredFlightStatus.scheduled 10000000 2000)
      FlightStatus.open_
      (record { departure_at = 10000000; now = 2000 })
    ≡ allowed
unfolding transition_flight effective_flight_status
opening_allowed = ground arith

opened_is_bookable_example : is_bookable StoredFlightStatus.open_ 10000000 2000 ≡ true
opened_is_bookable_example = opened_is_bookable 10000000 2000 opening_allowed

sum_money_exact_example :
    (total_amount (in_vnd 1500000 ∷ in_vnd 2 ∷ []) ≤ max_safe_integer
      → sum_money (in_vnd 1500000 ∷ in_vnd 2 ∷ []) vnd_currency
        ≡ ok (in_vnd (total_amount (in_vnd 1500000 ∷ in_vnd 2 ∷ []))))
    × (max_safe_integer < total_amount (in_vnd 1500000 ∷ in_vnd 2 ∷ [])
        → sum_money (in_vnd 1500000 ∷ in_vnd 2 ∷ []) vnd_currency ≡ thrown range_error)
sum_money_exact_example = sum_money_exact (in_vnd 1500000 ∷ in_vnd 2 ∷ [])

parse_vnd_from_database-decimal_example :
    parse_vnd_from_database (as_string (decimal 1500000))
    ≡ ok (record { amount = 1500000; currency = vnd_currency })
parse_vnd_from_database-decimal_example = parse_vnd_from_database-decimal 1500000 (omega arith)

parse_seat_position_iff_example :
    (parse_seat_position (text "1A") ≡ some seat_1a)
    ↔ (IsSeat seat_1a × (format_seat_position seat_1a ≡ text "1A"))
parse_seat_position_iff_example = parse_seat_position_iff (text "1A") seat_1a
