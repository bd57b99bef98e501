-- ===== src/Bookings/Repository/Invariant.antt =====
-- The inventory agrees with the bookings: who a seat belongs to, and in which status.
pub mod Writes
pub mod Preserved
pub mod Inventory
use booking_flight_system_mi.Base.{◌≡◌, Option, none, some, List, All, Text}
use booking_flight_system_mi.Bookings.Lifecycle.{BookingStatus, held, confirmed}
use booking_flight_system_mi.Store.{
  Database, SeatRow, SeatStatus, available, seat_held, booked, status_of,
}

-- Of one seat, given the stored status of each booking: an AVAILABLE seat has no booking, a HELD
-- seat has a HELD booking, a BOOKED seat has a CONFIRMED one.
abbrev pub SeatOk : (Text → Option BookingStatus) → SeatStatus → Option Text → Type 0
SeatOk f available none = Unit
SeatOk f available (some id) = ⊥
SeatOk f seat_held none = ⊥
SeatOk f seat_held (some id) = f id ≡ some held
SeatOk f booked none = ⊥
SeatOk f booked (some id) = f id ≡ some confirmed

abbrev pub RowOk : (Text → Option BookingStatus) → SeatRow → Type 0
RowOk f s = SeatOk f s.status s.booking_id

-- So no cancelled or expired booking keeps a seat, and no seat is sold to nobody.
abbrev pub Consistent : Database → Type 0
Consistent db = All (RowOk (status_of db.bookings)) db.seats
