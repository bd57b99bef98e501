-- ===== src/Bookings/Repository/Rows.antt =====
-- `create`, `cancel`, `expireDueHolds`, `confirmHold`, `findById`, `findByReference`.
pub mod Held
pub mod Confirmed
use booking_flight_system_mi.Base.{
  ℕ, suc, Bool, true, false, ◌&&◌, ◌||◌, Option, none, some, List, [], ◌∷◌, ◌++◌, map, take, keep,
  any, sort_by, update_where, find_first, leb, ltb, ◌==◌, same, text_leb, if◌then◌else◌, Text,
  decimal, Result, ok, thrown, ◌>>=◌, traverse, invalid_seat_code, unique_violation,
  foreign_key_violation,
}
use booking_flight_system_mi.Money.{
  Money, vnd_currency, sum_money, as_string, parse_vnd_from_database,
}
use booking_flight_system_mi.Aircraft.Position.{
  SeatPosition, parse_seat_position, format_seat_position,
}
use booking_flight_system_mi.Bookings.Lifecycle.{
  BookingStatus, held, confirmed, cancelled, expired, is_hold_lapsed, cancel_condition,
  classify_not_cancelled, NotCancelled,
}
use booking_flight_system_mi.Store.{
  Database, BookingRow, PassengerRow, FlightRow, Booking, BookingPassenger, BookingAccessScope,
  find_booking, find_flight, in_scope, is_id,
}
use booking_flight_system_mi.Bookings.Repository.Seats.{
  free_seat, book_seat, update_seats_of, codes_of,
}

-- `bookingTotal`: a passenger with no price adds nothing.
abbrev prices : List BookingPassenger → List Money
prices [] = []
prices (p ∷ ps) = elim p.price [ none ↦ prices ps | some price ↦ price ∷ prices ps ]

unfoldable pub booking_total : List BookingPassenger → Result Money
booking_total passengers = sum_money (prices passengers) vnd_currency

abbrev map_price : Option ℕ → Result (Option Money)
map_price none = ok none
map_price (some n) = do price ← parse_vnd_from_database (as_string (decimal n)); ok (some price)

abbrev map_code : Option SeatPosition → Option Text
map_code none = none
map_code (some p) = some (format_seat_position p)

unfoldable pub map_passenger : PassengerRow → Result BookingPassenger
map_passenger row = do
  price ← map_price row.price_vnd
  ok (record {
    name = row.name;
    seat = map_code row.seat;
    fare_class = row.fare_class;
    price = price;
  })

-- ORDER BY position.
abbrev passenger_leb : PassengerRow → PassengerRow → Bool
passenger_leb p q = leb p.position q.position

unfoldable pub map_booking : List PassengerRow → BookingRow → Result Booking
map_booking rows b = do
  passengers ←
      traverse map_passenger (sort_by passenger_leb (keep (λ p. same p.booking_id b.id) rows))
  total ← booking_total passengers
  ok (record {
    id = b.id;
    reference = b.reference;
    flight_id = b.flight_id;
    owner_account_id = b.owner_account_id;
    passengers = passengers;
    total = total;
    created_at = b.created_at;
    status = b.status;
    hold_expires_at = b.hold_expires_at;
  })

abbrev map_found : List PassengerRow → Option BookingRow → Result (Option Booking)
map_found rows none = ok none
map_found rows (some b) = do booking ← map_booking rows b; ok (some booking)

unfoldable pub find_by_id : Text → BookingAccessScope → Database → Result (Option Booking)
find_by_id id scope db =
    map_found db.passengers (find_first (λ b. same b.id id && in_scope scope b) db.bookings)

unfoldable pub find_by_reference : Text → BookingAccessScope → Database → Result (Option Booking)
find_by_reference reference scope db =
    map_found db.passengers
      (find_first (λ b. same b.reference reference && in_scope scope b) db.bookings)

abbrev pub parse_code : Option Text → Result (Option SeatPosition)
parse_code none = ok none
parse_code (some code) = elim (parse_seat_position code) [
  | none ↦ thrown invalid_seat_code
  | some p ↦ ok (some p)
]

abbrev pub amount_of : Option Money → Option ℕ
amount_of none = none
amount_of (some m) = some m.amount

unfoldable pub passenger_rows : Text → ℕ → List BookingPassenger → Result (List PassengerRow)
passenger_rows booking_id index [] = ok []
passenger_rows booking_id index (p ∷ ps) = do
  seat ← parse_code p.seat
  rows ← passenger_rows booking_id (suc index) ps
  ok (
      record {
        booking_id = booking_id;
        position = suc index;
        name = p.name;
        seat = seat;
        fare_class = p.fare_class;
        price_vnd = amount_of p.price;
      }
      ∷ rows)

pub data CreateBookingRepositoryResult : Type 0 where
  created reference_taken : CreateBookingRepositoryResult

abbrev pub row_of_booking : Booking → BookingRow
row_of_booking b = record {
  id = b.id;
  reference = b.reference;
  flight_id = b.flight_id;
  owner_account_id = b.owner_account_id;
  status = b.status;
  created_at = b.created_at;
  hold_expires_at = b.hold_expires_at;
}

abbrev pub exists {ℓ} : {A : Type ℓ} → Option A → Bool
exists none = false
exists (some a) = true

-- ON CONFLICT names the constraint on the reference; any other conflict raises.
unfoldable pub insert_booking :
    Booking → Database → Result (Database × CreateBookingRepositoryResult)
unfolding passenger_rows
insert_booking b db =
    if any (λ row. same row.reference b.reference) db.bookings
    then ok (db, reference_taken)
    else (if exists (find_booking b.id db.bookings)
        then thrown unique_violation
        else (if exists (find_flight b.flight_id db.flights)
            then (do
              rows ← passenger_rows b.id 0 b.passengers
              ok (
                record db {
                  bookings = row_of_booking b ∷ db.bookings;
                  passengers = rows ++ db.passengers;
                },
                created,
              ))
            else thrown foreign_key_violation))

-- UPDATE bookings SET status WHERE id, a primary key.
unfoldable pub set_status : Text → BookingStatus → List BookingRow → List BookingRow
set_status id status = update_where (λ b. same b.id id) (λ b. record b { status = status })

pub data CancelResult : Type 0 where
  cancel_done : (flight_id reference : Text) → List Text → CancelResult
  cancel_refused : NotCancelled → CancelResult
  cancel_not_found : CancelResult

-- One booking with its flight; the first statement's locks change nothing.
unfoldable pub cancel_row :
    BookingAccessScope → ℕ → BookingRow → FlightRow → Database → Result (Database × CancelResult)
cancel_row scope now b flight db =
    if in_scope scope b
    then (if cancel_condition b.status b.hold_expires_at flight.departure_at now
        then ok (
          record db {
            bookings = set_status b.id cancelled db.bookings;
            seats = update_seats_of (is_id b.id) free_seat db.seats;
          },
          cancel_done b.flight_id b.reference (codes_of b.id db.seats),
        )
        else (do
          reason ← classify_not_cancelled b.status b.hold_expires_at flight.departure_at now
          ok (db, cancel_refused reason)))
    else ok (db, cancel_not_found)

unfoldable pub cancel : Text → BookingAccessScope → ℕ → Database → Result (Database × CancelResult)
cancel id scope now db = elim (find_booking id db.bookings) [
  | none ↦ ok (db, cancel_not_found)
  | some b ↦ elim (find_flight b.flight_id db.flights) [
    | none ↦ ok (db, cancel_not_found)
    | some flight ↦ cancel_row scope now b flight db
  ]
]

pub record ExpiredHold : Type 0 where
  pub booking_id : Text
  pub reference : Text
  pub flight_id : Text
  pub owner_account_id : Text
  pub hold_expires_at : ℕ
  pub seats : List Text

abbrev lapsed : Option ℕ → ℕ → Bool
lapsed none now = false
lapsed (some deadline) now = is_hold_lapsed deadline now

abbrev pub is_held : BookingStatus → Bool
is_held held = true
is_held _ = false

unfoldable pub is_due : ℕ → (BookingRow → Bool) → BookingRow → Bool
is_due now locked b =
    is_held b.status && lapsed b.hold_expires_at now && (if locked b then false else true)

abbrev deadline_of : BookingRow → ℕ
deadline_of b = elim b.hold_expires_at [ none ↦ 0 | some deadline ↦ deadline ]

-- ORDER BY hold_expires_at, id.
abbrev pub deadline_leb : BookingRow → BookingRow → Bool
deadline_leb b c =
    ltb (deadline_of b) (deadline_of c) || ((deadline_of b == deadline_of c) && text_leb b.id c.id)

unfoldable pub due_holds : ℕ → ℕ → (BookingRow → Bool) → List BookingRow → List BookingRow
due_holds now limit locked bookings =
    take limit (sort_by deadline_leb (keep (is_due now locked) bookings))

-- `booking.id = due.id`.
unfoldable pub is_one_of : List BookingRow → Text → Bool
is_one_of due id = any (λ b. same b.id id) due

abbrev pub of_one_of : List BookingRow → Option Text → Bool
of_one_of due none = false
of_one_of due (some id) = is_one_of due id

unfoldable pub expire_due_holds :
    ℕ → ℕ → (BookingRow → Bool) → Database → Database × List ExpiredHold
expire_due_holds now limit locked db =
    let due = due_holds now limit locked db.bookings in
    (
      record db {
        bookings =
            update_where (λ b. is_one_of due b.id) (λ b. record b { status = expired }) db.bookings;
        seats = update_seats_of (of_one_of due) free_seat db.seats;
      },
      map
          (λ b. record {
            booking_id = b.id;
            reference = b.reference;
            flight_id = b.flight_id;
            owner_account_id = b.owner_account_id;
            hold_expires_at = deadline_of b;
            seats = codes_of b.id db.seats;
          })
          due,
    )

pub data ConfirmHoldResult : Type 0 where
  hold_confirmed : Booking → ConfirmHoldResult
  not_payable : ConfirmHoldResult

-- `hold_expires_at > $2`.
abbrev pub before_deadline : Option ℕ → ℕ → Bool
before_deadline none now = false
before_deadline (some deadline) now = ltb now deadline

unfoldable pub can_confirm : BookingAccessScope → ℕ → BookingRow → Bool
can_confirm scope now b =
    is_held b.status && before_deadline b.hold_expires_at now && in_scope scope b

unfoldable pub confirm_row : BookingRow → Database → Result (Database × ConfirmHoldResult)
confirm_row b db = do
  booking ← map_booking db.passengers (record b { status = confirmed })
  ok (
    record db {
      bookings = set_status b.id confirmed db.bookings;
      seats = update_seats_of (is_id b.id) book_seat db.seats;
    },
    hold_confirmed booking,
  )

unfoldable pub confirm_hold :
    Text → BookingAccessScope → ℕ → Database → Result (Database × ConfirmHoldResult)
confirm_hold id scope now db = elim (find_booking id db.bookings) [
  | none ↦ ok (db, not_payable)
  | some b ↦
      let done = confirm_row b db in if can_confirm scope now b then done else ok (db, not_payable)
]
