-- ===== src/Bookings/Create.antt =====
-- api/src/bookings/create-booking.ts.
pub mod Inserted
pub mod Laws
pub mod Outcome
pub mod Seated
use booking_flight_system_mi.Base.{
  ℕ, zero, suc, ◌+◌, ◌*◌, Bool, true, false, Option, none, some, List, [], ◌∷◌, ◌++◌, map, length,
  ◌==◌, if◌then◌else◌, Text, text, Result, ok, thrown, seat_count_mismatch, reference_exhausted,
}
use booking_flight_system_mi.Money.{Money}
use booking_flight_system_mi.Bookings.Lifecycle.{held}
use booking_flight_system_mi.Store.{
  Database, SeatRow, HeldSeat, Booking, BookingPassenger, Transaction, ◌>>=◌, ◌>>◌, return, lift,
  audit, enqueue, run_transaction, resolve_correlation_id, AuditEntry, account_actor,
  booking_target, booking_created, text_value, number_value, instant_value, Event, held_event,
  EventPassenger, booking_held_queue,
}
use booking_flight_system_mi.Requests.{Value, ValidationIssue, success, failure, is_uuid}
use booking_flight_system_mi.Bookings.Validation.{
  CreateBookingInput, auto_seats, chosen_seats, validate_create_booking_input,
}
use booking_flight_system_mi.Bookings.Repository.Hold.{
  SeatHoldRequest, auto, chosen, HoldSeatsResult, seats_held, flight_not_found, hold_seats,
}
use booking_flight_system_mi.Bookings.Repository.Rows.{
  created, reference_taken, insert_booking, booking_total,
}

abbrev pub hold_duration_ms : ℕ
hold_duration_ms = 15 * 60 * 1000

abbrev pub max_reference_attempts : ℕ
max_reference_attempts = 5

-- What one call takes from its dependencies: generated ids, the drawn references, the clock, and
-- the seats that other transactions have locked.
pub record Drawn : Type 0 where
  pub booking_id : Text
  pub reference : ℕ → Text
  pub audit_id : Text
  pub outbox_id : Text
  pub request_id : Option Text
  pub now : ℕ
  pub locked : SeatRow → Bool

pub data CreateBookingResult : Type 0 where
  booking_made : Booking → CreateBookingResult
  validation_failed : List ValidationIssue → CreateBookingResult
  not_held : HoldSeatsResult → CreateBookingResult

abbrev pub to_hold_request : CreateBookingInput → SeatHoldRequest
to_hold_request (auto_seats fare_class names) = auto (length names) fare_class
to_hold_request (chosen_seats pairs) = chosen (map (λ p. p.1) pairs)

abbrev pub names_of : CreateBookingInput → List Text
names_of (auto_seats fare_class names) = names
names_of (chosen_seats pairs) = map (λ p. p.0) pairs

abbrev pub seat_one : Text → HeldSeat → BookingPassenger
seat_one name s = record {
  name = name;
  seat = some s.seat;
  fare_class = some s.fare_class;
  price = some s.price;
}

unfoldable pub pair_seats : List Text → List HeldSeat → List BookingPassenger
pair_seats [] seats = []
pair_seats (name ∷ names) [] = []
pair_seats (name ∷ names) (s ∷ seats) = seat_one name s ∷ pair_seats names seats

unfoldable pub seat_passengers : CreateBookingInput → List HeldSeat → Result (List BookingPassenger)
seat_passengers input seats =
    if length seats == length (names_of input)
    then ok (pair_seats (names_of input) seats)
    else thrown seat_count_mismatch

unfoldable pub event_passengers : List Text → List HeldSeat → List EventPassenger
event_passengers [] seats = []
event_passengers (name ∷ names) [] = []
event_passengers (name ∷ names) (s ∷ seats) =
    record { name = name; seat = s.seat; fare_class = s.fare_class; price = s.price }
    ∷ event_passengers names seats

-- `join(",")`.
unfoldable pub join_codes : List Text → Text
join_codes [] = []
join_codes (c ∷ []) = c
join_codes (c ∷ d ∷ cs) = c ++ text "," ++ join_codes (d ∷ cs)

-- The loop of `createWithFreeReference`.
unfoldable pub try_references : ℕ → ℕ → (ℕ → Text) → Booking → Transaction Booking
try_references zero attempt draw b db = thrown reference_exhausted
try_references (suc left) attempt draw b db =
    let named = record b { reference = draw attempt } in
    elim (insert_booking named db) [
      | thrown e ↦ thrown e
      | ok (db', created) ↦ ok (db', named)
      | ok (db', reference_taken) ↦ try_references left (suc attempt) draw b db'
    ]

unfoldable pub created_audit : Drawn → Text → List HeldSeat → Booking → AuditEntry
created_audit d account_id seats b = record {
  id = d.audit_id;
  action = booking_created;
  actor = account_actor account_id;
  target = booking_target b.id;
  request_id = d.request_id;
  occurred_at = d.now;
  metadata =
      (text "flightId", text_value b.flight_id)
      ∷ (text "reference", text_value b.reference)
      ∷ (text "passengerCount", number_value (length b.passengers))
      ∷ (text "seats", text_value (join_codes (map (λ s. s.seat) seats)))
      ∷ (text "totalVnd", number_value b.total.amount)
      ∷ (text "holdExpiresAt", instant_value (d.now + hold_duration_ms))
      ∷ (text "correlationId", text_value (resolve_correlation_id d.request_id d.outbox_id))
      ∷ [];
}

unfoldable pub created_event : Drawn → List Text → List HeldSeat → Booking → Event
created_event d names seats b = record {
  event_id = d.outbox_id;
  correlation_id = resolve_correlation_id d.request_id d.outbox_id;
  occurred_at = d.now;
  body =
      held_event b.id b.reference b.flight_id b.created_at (d.now + hold_duration_ms)
        (event_passengers names seats) b.total;
}

-- The booking before its reference is drawn.
unfoldable pub new_booking : Drawn → Text → Text → List BookingPassenger → Money → Booking
new_booking d flight_id account_id passengers total = record {
  id = d.booking_id;
  reference = [];
  flight_id = flight_id;
  owner_account_id = account_id;
  passengers = passengers;
  total = total;
  created_at = d.now;
  status = held;
  hold_expires_at = some (d.now + hold_duration_ms);
}

unfoldable pub store_booking :
    Drawn → Text → CreateBookingInput → List HeldSeat → Booking → Transaction CreateBookingResult
store_booking d account_id input seats b = do
  audit (created_audit d account_id seats b)
  enqueue booking_held_queue (created_event d (names_of input) seats b)
  return (booking_made b)

-- From the held seats to the stored booking, its audit entry and its event.
unfoldable pub book_held :
    Drawn → Text → Text → CreateBookingInput → List HeldSeat → Transaction CreateBookingResult
book_held d flight_id account_id input seats = do
  passengers ← lift (seat_passengers input seats)
  total ← lift (booking_total passengers)
  b ←
      try_references max_reference_attempts 1 d.reference
        (new_booking d flight_id account_id passengers total)
  store_booking d account_id input seats b

unfoldable pub after_hold :
    Drawn → Text → Text → CreateBookingInput → HoldSeatsResult → Transaction CreateBookingResult
after_hold d flight_id account_id input (seats_held seats) =
    book_held d flight_id account_id input seats
after_hold d flight_id account_id input r = return (not_held r)

unfoldable pub create_transaction :
    Drawn → Text → Text → CreateBookingInput → Transaction CreateBookingResult
create_transaction d flight_id account_id input db =
    elim (hold_seats flight_id d.booking_id (to_hold_request input) d.now d.locked db) [
      | thrown e ↦ thrown e
      | ok (db', r) ↦ after_hold d flight_id account_id input r db'
    ]

unfoldable pub create_booking :
    Drawn → Text → Value → Text → Database → Database × Result CreateBookingResult
create_booking d flight_id body account_id db =
    if is_uuid flight_id
    then (elim (validate_create_booking_input body) [
      | failure issues ↦ (db, ok (validation_failed issues))
      | success input ↦ run_transaction (create_transaction d flight_id account_id input) db
    ])
    else (db, ok (not_held flight_not_found))
