-- ===== src/Store/Lookups.antt =====
-- Reading the tables: rows by key, seats by order, bookings in a caller's scope.
use booking_flight_system_mi.Base.{
  Bool, true, false, ◌&&◌, ◌||◌, List, Option, none, some, Text, same, ltb, leb, ◌==◌, find_first,
}
use booking_flight_system_mi.Aircraft.Position.{SeatPosition}
use booking_flight_system_mi.Bookings.Lifecycle.{BookingStatus}
use booking_flight_system_mi.Store.Tables.{
  FareClass, economy, business, FlightRow, SeatRow, BookingRow, BookingAccessScope, owner, admin,
  SeatStatus, available, booked,
}

abbrev pub same_class : FareClass → FareClass → Bool
same_class economy economy = true
same_class business business = true
same_class _ _ = false

abbrev pub is_available : SeatStatus → Bool
is_available available = true
is_available _ = false

abbrev pub is_booked : SeatStatus → Bool
is_booked booked = true
is_booked _ = false

-- Equal fields are the same seat of an aircraft.
unfoldable pub same_position : SeatPosition → SeatPosition → Bool
same_position p q = (p.row == q.row) && (p.letter == q.letter)

-- The primary key of `flight_seats`.
unfoldable pub same_seat : SeatRow → SeatRow → Bool
unfolding same_position
same_seat s t = same s.flight_id t.flight_id && same_position s.position t.position

-- `bySeatOrder`, and ORDER BY row, letter.
unfoldable pub seat_leb : SeatRow → SeatRow → Bool
seat_leb s t =
    ltb s.position.row t.position.row
    || ((s.position.row == t.position.row) && leb s.position.letter t.position.letter)

-- The seats of a booking: `WHERE booking_id = $1`. NULL equals nothing.
abbrev pub is_id : Text → Option Text → Bool
is_id id none = false
is_id id (some i) = same i id

abbrev pub find_flight : Text → List FlightRow → Option FlightRow
find_flight id = find_first (λ f. same f.id id)

abbrev pub find_booking : Text → List BookingRow → Option BookingRow
find_booking id = find_first (λ b. same b.id id)

-- `AND owner_account_id = $3` for an owner, nothing for an administrator.
unfoldable pub in_scope : BookingAccessScope → BookingRow → Bool
in_scope (owner account_id) b = same b.owner_account_id account_id
in_scope admin b = true

abbrev status_of_row : Option BookingRow → Option BookingStatus
status_of_row none = none
status_of_row (some b) = some b.status

-- The stored status of a booking.
unfoldable pub status_of : List BookingRow → Text → Option BookingStatus
status_of bookings id = status_of_row (find_booking id bookings)
