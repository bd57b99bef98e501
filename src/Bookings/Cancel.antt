-- ===== src/Bookings/Cancel.antt =====
-- api/src/bookings/cancel-booking.ts.
pub mod Row
pub mod Outcome
use booking_flight_system_mi.Base.{
  ℕ, Option, none, some, List, [], ◌∷◌, ◌++◌, Text, text, Result, ok, thrown, if◌then◌else◌,
  not_read_back,
}
use booking_flight_system_mi.Requests.{is_uuid}
use booking_flight_system_mi.Store.{
  Database, Payment, Booking, BookingAccessScope, Transaction, ◌>>=◌, ◌>>◌, return, fetch, audit,
  enqueue, run_transaction, resolve_correlation_id, AuditEntry, AuditValue, account_actor,
  booking_target, payment_target, booking_cancelled, payment_refund_pending, text_value,
  number_value, null_value, StartedRefund, Event, cancelled_event, booking_cancelled_queue,
}
use booking_flight_system_mi.Bookings.Repository.Rows.{
  CancelResult, cancel_done, cancel_not_found, cancel, find_by_id,
}
use booking_flight_system_mi.Payments.Repository.{mark_refund_pending_for_cancelled_booking}

-- The refusals are those of the repository.
pub data CancelBookingResult : Type 0 where
  cancelled_booking : Booking → Option StartedRefund → CancelBookingResult
  not_cancelled : CancelResult → CancelBookingResult

-- What one call takes from its dependencies.
pub record Cancelling : Type 0 where
  pub audit_id : Text
  pub refund_audit_id : Text
  pub outbox_id : Text
  pub request_id : Option Text
  pub now : ℕ

abbrev pub started_refund : Option Payment → Option StartedRefund
started_refund none = none
started_refund (some p) = some (record { payment_id = p.id; amount = p.amount })

abbrev refund_metadata : Option StartedRefund → List (Text × AuditValue)
refund_metadata none = []
refund_metadata (some r) = (text "refundPaymentId", text_value r.payment_id) ∷ []

unfoldable pub cancelled_audit : Cancelling → Text → Text → Text → Option StartedRefund → AuditEntry
cancelled_audit c booking_id account_id flight_id refund = record {
  id = c.audit_id;
  action = booking_cancelled;
  actor = account_actor account_id;
  target = booking_target booking_id;
  request_id = c.request_id;
  occurred_at = c.now;
  metadata =
      (text "flightId", text_value flight_id)
      ∷ (text "correlationId", text_value (resolve_correlation_id c.request_id c.outbox_id))
      ∷ refund_metadata refund;
}

abbrev pub text_or_null : Option Text → AuditValue
text_or_null none = null_value
text_or_null (some t) = text_value t

unfoldable pub refund_started_audit : Cancelling → Text → Text → Payment → AuditEntry
refund_started_audit c booking_id account_id p = record {
  id = c.refund_audit_id;
  action = payment_refund_pending;
  actor = account_actor account_id;
  target = payment_target p.id;
  request_id = c.request_id;
  occurred_at = c.now;
  metadata =
      (text "bookingId", text_value booking_id)
      ∷ (text "amountVnd", number_value p.amount.amount)
      ∷ (text "providerReference", text_or_null p.provider_reference)
      ∷ (text "reason", text_value (text "booking-cancelled"))
      ∷ [];
}

-- Only a booking with a payment writes it.
unfoldable pub audit_refund : Cancelling → Text → Text → Option Payment → Transaction (Unit {0})
audit_refund c booking_id account_id none = return tt
audit_refund c booking_id account_id (some p) =
    audit (refund_started_audit c booking_id account_id p)

unfoldable pub cancelled_event_of :
    Cancelling → Text → Text → Text → List Text → Option StartedRefund → Event
cancelled_event_of c booking_id reference flight_id seats refund = record {
  event_id = c.outbox_id;
  correlation_id = resolve_correlation_id c.request_id c.outbox_id;
  occurred_at = c.now;
  body = cancelled_event booking_id reference flight_id seats refund;
}

-- Reading the booking back.
abbrev pub read_back : Option Booking → Option StartedRefund → Transaction CancelBookingResult
read_back none refund db = thrown not_read_back
read_back (some b) refund db = ok (db, cancelled_booking b refund)

unfoldable pub announce_cancelled :
    Cancelling
    → Text
    → BookingAccessScope
    → Text
    → Text
    → Text
    → List Text
    → Option Payment
    → Transaction CancelBookingResult
announce_cancelled c booking_id scope account_id flight_id reference seats payment = do
  audit (cancelled_audit c booking_id account_id flight_id (started_refund payment))
  audit_refund c booking_id account_id payment
  enqueue booking_cancelled_queue
      (cancelled_event_of c booking_id reference flight_id seats (started_refund payment))
  found ← fetch (find_by_id booking_id scope)
  read_back found (started_refund payment)

unfoldable pub after_cancel :
    Cancelling → Text → BookingAccessScope → Text → CancelResult → Transaction CancelBookingResult
after_cancel c booking_id scope account_id (cancel_done flight_id reference seats) = do
  payment ← mark_refund_pending_for_cancelled_booking booking_id c.now
  announce_cancelled c booking_id scope account_id flight_id reference seats payment
after_cancel c booking_id scope account_id r = return (not_cancelled r)

unfoldable pub cancel_transaction :
    Cancelling → Text → BookingAccessScope → Text → Transaction CancelBookingResult
cancel_transaction c booking_id scope account_id = do
  r ← cancel booking_id scope c.now
  after_cancel c booking_id scope account_id r

unfoldable pub cancel_booking :
    Cancelling → Text → BookingAccessScope → Text → Database → Database × Result CancelBookingResult
cancel_booking c booking_id scope account_id db =
    if is_uuid booking_id
    then run_transaction (cancel_transaction c booking_id scope account_id) db
    else (db, ok (not_cancelled cancel_not_found))
