-- ===== src/Bookings/Repository/Hold.antt =====
-- `holdSeats`: the lowest free seats of a fare class, or exactly the seats that were chosen.
pub mod Outcome
pub mod Auto
pub mod Chosen
pub mod Laws
pub mod Complete
use booking_flight_system_mi.Base.{
  ℕ, Bool, true, false, not, ◌&&◌, Option, none, some, List, [], ◌∷◌, map, length, take, keep, any,
  all, find_first, sort_by, ◌==◌, same, if◌then◌else◌, Text, decimal, Result, ok, thrown, ◌>>=◌,
  traverse, seat_without_fare, seat_missing,
}
use booking_flight_system_mi.Money.{as_string, parse_vnd_from_database}
use booking_flight_system_mi.Aircraft.Position.{SeatPosition, format_seat_position}
use booking_flight_system_mi.Flights.Lifecycle.{is_bookable, on_sale_sql}
use booking_flight_system_mi.Store.{
  Database, FareClass, FareRow, SeatRow, FlightRow, HeldSeat, find_flight, same_class, is_available,
  same_position, seat_leb,
}
use booking_flight_system_mi.Bookings.Repository.Seats.{hold_rows}

pub data SeatHoldRequest : Type 0 where
  auto : ℕ → FareClass → SeatHoldRequest
  chosen : List SeatPosition → SeatHoldRequest

pub data HoldSeatsResult : Type 0 where
  seats_held : List HeldSeat → HoldSeatsResult
  not_enough_seats fare_class_not_on_flight : HoldSeatsResult
  seats_unavailable unknown_seats : List Text → HoldSeatsResult
  sales_closed flight_not_found : HoldSeatsResult

pub data NothingHeld : Type 0 where
  no_flight closed_sales bookable : NothingHeld

abbrev why_nothing_held : Option FlightRow → ℕ → NothingHeld
why_nothing_held none now = no_flight
why_nothing_held (some f) now =
    if is_bookable f.status f.departure_at now then bookable else closed_sales

unfoldable pub classify_nothing_held : Text → ℕ → Database → NothingHeld
classify_nothing_held flight_id now db = why_nothing_held (find_flight flight_id db.flights) now

-- The join with the flight and `onSaleSql`.
abbrev is_on_sale : Option FlightRow → ℕ → Bool
is_on_sale none now = false
is_on_sale (some f) now = on_sale_sql f.status f.departure_at now

unfoldable pub on_sale : Text → ℕ → Database → Bool
on_sale flight_id now db = is_on_sale (find_flight flight_id db.flights) now

-- The share-locked fares of the flight.
unfoldable pub find_fare : Text → FareClass → List FareRow → Option FareRow
find_fare flight_id fare_class =
    find_first (λ f. same f.flight_id flight_id && same_class f.fare_class fare_class)

abbrev pub priced : SeatRow → Option FareRow → Result HeldSeat
priced s none = thrown seat_without_fare
priced s (some fare) = do
  price ← parse_vnd_from_database (as_string (decimal fare.amount_vnd))
  ok (record { seat = format_seat_position s.position; fare_class = s.fare_class; price = price })

unfoldable pub to_held_seat : List FareRow → SeatRow → Result HeldSeat
to_held_seat fares s = priced s (find_fare s.flight_id s.fare_class fares)

unfoldable pub is_candidate : Text → FareClass → (SeatRow → Bool) → SeatRow → Bool
is_candidate flight_id fare_class locked s =
    same s.flight_id flight_id
    && is_available s.status
    && same_class s.fare_class fare_class
    && not (locked s)

unfoldable pub candidates : Text → ℕ → FareClass → ℕ → (SeatRow → Bool) → Database → List SeatRow
candidates flight_id count fare_class now locked db =
    if on_sale flight_id now db
    then take count (sort_by seat_leb (keep (is_candidate flight_id fare_class locked) db.seats))
    else []

-- `enough`: all of the requested count or none.
unfoldable pub enough : ℕ → List SeatRow → List SeatRow
enough count rows = if length rows == count then rows else []

unfoldable pub has_class : Text → FareClass → List SeatRow → Bool
has_class flight_id fare_class =
    any (λ s. same s.flight_id flight_id && same_class s.fare_class fare_class)

abbrev refused_auto : NothingHeld → Bool → HoldSeatsResult
refused_auto no_flight has = flight_not_found
refused_auto closed_sales has = sales_closed
refused_auto bookable has = if has then not_enough_seats else fare_class_not_on_flight

-- The seats that the statement held, with the tables after it.
unfoldable pub commit_hold :
    Text → List SeatRow → Result (List HeldSeat) → Database → Result (Database × HoldSeatsResult)
commit_hold booking_id rows priced_seats db = do
  seats ← priced_seats
  ok (record db { seats = hold_rows booking_id rows db.seats }, seats_held seats)

unfoldable pub auto_result :
    Text → Text → FareClass → ℕ → List SeatRow → Database → Result (Database × HoldSeatsResult)
auto_result flight_id booking_id fare_class now [] db = ok (
  db,
  refused_auto (classify_nothing_held flight_id now db) (has_class flight_id fare_class db.seats),
)
auto_result flight_id booking_id fare_class now (row ∷ rows) db =
    commit_hold booking_id (row ∷ rows)
      (traverse (to_held_seat db.fares) (sort_by seat_leb (row ∷ rows))) db

unfoldable pub hold_auto_seats :
    Text
    → Text
    → ℕ
    → FareClass
    → ℕ
    → (SeatRow → Bool)
    → Database
    → Result (Database × HoldSeatsResult)
hold_auto_seats flight_id booking_id count fare_class now locked db =
    auto_result flight_id booking_id fare_class now
      (enough count (candidates flight_id count fare_class now locked db)) db

-- The requested seats of a flight on sale, in lock order.
unfoldable pub requested_rows : Text → List SeatPosition → ℕ → Database → List SeatRow
requested_rows flight_id requested now db =
    if on_sale flight_id now db
    then sort_by seat_leb (
        keep (λ s. same s.flight_id flight_id && any (same_position s.position) requested) db.seats)
    else []

-- `verdict`: `bool_and` of no row is NULL.
unfoldable pub verdict : List SeatPosition → List SeatRow → Bool
verdict requested [] = false
verdict requested (row ∷ rows) =
    (length (row ∷ rows) == length requested) && all (λ s. is_available s.status) (row ∷ rows)

-- `byCode.get(code)`: the last row of a code, of which the primary key leaves one.
unfoldable pub row_of : SeatPosition → List SeatRow → Option SeatRow
row_of p = find_first (λ s. same (format_seat_position s.position) (format_seat_position p))

abbrev held_or_missing : List FareRow → Option SeatRow → Result HeldSeat
held_or_missing fares none = thrown seat_missing
held_or_missing fares (some s) = to_held_seat fares s

abbrev is_missing : Option SeatRow → Bool
is_missing none = true
is_missing (some s) = false

abbrev is_taken : Option SeatRow → Bool
is_taken none = true
is_taken (some s) = not (is_available s.status)

abbrev in_the_way : List SeatPosition → List SeatRow → HoldSeatsResult
in_the_way requested rows = elim (keep (λ p. is_missing (row_of p rows)) requested) [
  | [] ↦
      seats_unavailable (map format_seat_position (keep (λ p. is_taken (row_of p rows)) requested))
  | p ∷ ps ↦ unknown_seats (map format_seat_position (p ∷ ps))
]

abbrev refused_chosen : NothingHeld → List SeatPosition → HoldSeatsResult
refused_chosen no_flight requested = flight_not_found
refused_chosen closed_sales requested = sales_closed
refused_chosen bookable requested = in_the_way requested []

unfoldable pub explain_chosen :
    Text → List SeatPosition → ℕ → List SeatRow → Database → HoldSeatsResult
explain_chosen flight_id requested now [] db =
    refused_chosen (classify_nothing_held flight_id now db) requested
explain_chosen flight_id requested now (row ∷ rows) db = in_the_way requested (row ∷ rows)

unfoldable pub chosen_result :
    Text
    → Text
    → List SeatPosition
    → ℕ
    → List SeatRow
    → Database
    → Result (Database × HoldSeatsResult)
chosen_result flight_id booking_id requested now rows db =
    if verdict requested rows
    then commit_hold booking_id rows
        (traverse (λ p. held_or_missing db.fares (row_of p rows)) requested) db
    else ok (db, explain_chosen flight_id requested now rows db)

unfoldable pub hold_chosen_seats :
    Text → Text → List SeatPosition → ℕ → Database → Result (Database × HoldSeatsResult)
hold_chosen_seats flight_id booking_id requested now db =
    chosen_result flight_id booking_id requested now (requested_rows flight_id requested now db) db

unfoldable pub hold_seats :
    Text
    → Text
    → SeatHoldRequest
    → ℕ
    → (SeatRow → Bool)
    → Database
    → Result (Database × HoldSeatsResult)
hold_seats flight_id booking_id (auto count fare_class) now locked db =
    hold_auto_seats flight_id booking_id count fare_class now locked db
hold_seats flight_id booking_id (chosen seats) now locked db =
    hold_chosen_seats flight_id booking_id seats now db
