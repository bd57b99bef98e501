-- ===== src/Bookings/Repository/Seats.antt =====
-- Writing the seats of bookings: the CTEs of the holds, `updateSeatsOf` and `releaseSeatsOf`.
use booking_flight_system_mi.Base.{
  Bool, Option, none, some, List, any, update_where, keep, sort_by, map, Text,
}
use booking_flight_system_mi.Aircraft.Position.{format_seat_position}
use booking_flight_system_mi.Store.{
  SeatRow, available, seat_held, booked, same_seat, seat_leb, is_id,
}

-- SET status = 'HELD', booking_id = $2.
abbrev pub hold_for : Text → SeatRow → SeatRow
hold_for booking_id s = record s { status = seat_held; booking_id = some booking_id }

-- SET status = 'AVAILABLE', booking_id = NULL.
abbrev pub free_seat : SeatRow → SeatRow
free_seat s = record s { status = available; booking_id = none }

-- SET status = 'BOOKED'.
abbrev pub book_seat : SeatRow → SeatRow
book_seat s = record s { status = booked }

-- The row is one of those that the statement has locked.
unfoldable pub is_among : List SeatRow → SeatRow → Bool
is_among rows s = any (same_seat s) rows

unfoldable pub hold_rows : Text → List SeatRow → List SeatRow → List SeatRow
hold_rows booking_id held seats = update_where (is_among held) (hold_for booking_id) seats

-- `updateSeatsOf`, with the condition `booking_id IN (SELECT id FROM source)` as a test.
unfoldable pub update_seats_of :
    (Option Text → Bool) → (SeatRow → SeatRow) → List SeatRow → List SeatRow
update_seats_of of_source assign seats = update_where (λ s. of_source s.booking_id) assign seats

-- The codes of the locked seats, in (row, letter) order, as they were before the write.
unfoldable pub codes_of : Text → List SeatRow → List Text
codes_of booking_id seats =
    map (λ s. format_seat_position s.position)
      (sort_by seat_leb (keep (λ s. is_id booking_id s.booking_id) seats))
