-- ===== src/Bookings/Reseat.antt =====
-- api/src/bookings/change-seat.ts.
pub mod Moved
pub mod Outcome
use booking_flight_system_mi.Base.{
  ℕ, Option, none, some, [], ◌∷◌, Text, text, Result, ok, thrown, if◌then◌else◌, not_read_back,
}
use booking_flight_system_mi.Aircraft.Position.{SeatPosition}
use booking_flight_system_mi.Requests.{is_uuid}
use booking_flight_system_mi.Store.{
  Database, Booking, BookingAccessScope, Transaction, ◌>>=◌, ◌>>◌, return, fetch, audit,
  run_transaction, AuditEntry, account_actor, booking_target, booking_seat_changed, text_value,
  number_value,
}
use booking_flight_system_mi.Bookings.Repository.Rows.{find_by_id}
use booking_flight_system_mi.Bookings.Repository.Change.{
  ChangeSeatResult, changed, unchanged, not_found, change_seat,
}

pub data ReseatResult : Type 0 where
  seat_set : (moved : ChangeSeatResult) → Booking → ReseatResult
  seat_not_set : ChangeSeatResult → ReseatResult

pub record Reseating : Type 0 where
  pub audit_id : Text
  pub request_id : Option Text
  pub now : ℕ

unfoldable pub reseat_audit : Reseating → Text → Text → ℕ → Text → Text → AuditEntry
reseat_audit x booking_id account_id position from to = record {
  id = x.audit_id;
  action = booking_seat_changed;
  actor = account_actor account_id;
  target = booking_target booking_id;
  request_id = x.request_id;
  occurred_at = x.now;
  metadata =
      (text "position", number_value position)
      ∷ (text "from", text_value from)
      ∷ (text "to", text_value to)
      ∷ [];
}

abbrev answer_with : ChangeSeatResult → Option Booking → Transaction ReseatResult
answer_with r none db = thrown not_read_back
answer_with r (some b) db = ok (db, seat_set r b)

unfoldable pub read_reseated :
    Text → BookingAccessScope → ChangeSeatResult → Transaction ReseatResult
read_reseated booking_id scope r = do
  found ← fetch (find_by_id booking_id scope)
  answer_with r found

unfoldable pub after_change :
    Reseating → Text → ℕ → BookingAccessScope → Text → ChangeSeatResult → Transaction ReseatResult
after_change x booking_id position scope account_id (changed from to) = do
  audit (reseat_audit x booking_id account_id position from to)
  read_reseated booking_id scope (changed from to)
after_change x booking_id position scope account_id unchanged =
    read_reseated booking_id scope unchanged
after_change x booking_id position scope account_id r = return (seat_not_set r)

unfoldable pub reseat_transaction :
    Reseating → Text → ℕ → SeatPosition → BookingAccessScope → Text → Transaction ReseatResult
reseat_transaction x booking_id position seat scope account_id = do
  r ← change_seat booking_id position seat scope x.now
  after_change x booking_id position scope account_id r

unfoldable pub reseat :
    Reseating
    → Text
    → ℕ
    → SeatPosition
    → BookingAccessScope
    → Text
    → Database
    → Database × Result ReseatResult
reseat x booking_id position seat scope account_id db =
    if is_uuid booking_id
    then run_transaction (reseat_transaction x booking_id position seat scope account_id) db
    else (db, ok (seat_not_set not_found))
