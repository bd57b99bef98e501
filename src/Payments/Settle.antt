-- ===== src/Payments/Settle.antt =====
-- api/src/payments/settle-payment.ts and payment-response.ts: phase 3 of a payment. The stored body
-- keeps the values that the source renders into its JSON and its messages.
pub mod Laws
pub mod Once
use booking_flight_system_mi.Base.{
  ℕ, Option, none, some, List, [], ◌∷◌, Text, text, Result, ok, thrown, passenger_without_seat,
  traverse,
}
use booking_flight_system_mi.Store.{
  Database, Payment, PaymentStatus, processing, succeeded, failed, Booking, BookingPassenger, owner,
  Transaction, ◌>>=◌, ◌>>◌, return, lift, audit, enqueue, run_transaction, resolve_correlation_id,
  AuditActor, AuditEntry, AuditAction, payment_failed, payment_refund_pending, booking_confirmed,
  payment_target, booking_target, text_value, number_value, EventPassenger, Event, confirmed_event,
  booking_confirmed_queue, StoredResponse, NotPayableReason, refunded_meanwhile, confirmed_body,
  declined_body, not_payable_body, not_found_body,
}
use booking_flight_system_mi.Bookings.Repository.Rows.{
  ConfirmHoldResult, hold_confirmed, not_payable, confirm_hold,
}
use booking_flight_system_mi.Payments.Repository.{mark_succeeded, mark_failed, mark_refund_pending}
use booking_flight_system_mi.Payments.Keys.{complete_for_payment}

pub data PaymentDecision : Type 0 where
  confirmed_decision : Booking → Payment → PaymentDecision
  declined_decision : Payment → PaymentDecision
  not_payable_decision : NotPayableReason → PaymentDecision
  not_found_decision : PaymentDecision

abbrev reason_of : Option Text → Text
reason_of none = text "unknown"
reason_of (some reason) = reason

unfoldable pub to_stored_response : PaymentDecision → StoredResponse
to_stored_response (confirmed_decision b p) = record { status = 201; body = confirmed_body p b }
to_stored_response (declined_decision p) = record {
  status = 402;
  body = declined_body (reason_of p.failure_reason);
}
to_stored_response (not_payable_decision reason) = record {
  status = 409;
  body = not_payable_body reason;
}
to_stored_response not_found_decision = record { status = 404; body = not_found_body }

-- What a settlement takes from its dependencies.
pub record Settling : Type 0 where
  pub audit_id : Text
  pub outbox_id : Text
  pub request_id : Option Text
  pub now : ℕ
  pub actor : AuditActor

unfoldable pub answer : Payment → PaymentDecision → ℕ → Transaction StoredResponse
answer p decision now = do
  complete_for_payment p.id (to_stored_response decision) now
  return (to_stored_response decision)

abbrev pub declined_payment : Text → ℕ → Payment → Payment
declined_payment reason now p = record p {
  status = failed;
  failure_reason = some reason;
  payment_method_token = none;
  next_attempt_at = none;
  updated_at = now;
}

unfoldable pub declined_audit : Settling → Text → Payment → AuditEntry
declined_audit s reason p = record {
  id = s.audit_id;
  action = payment_failed;
  actor = s.actor;
  target = payment_target p.id;
  request_id = s.request_id;
  occurred_at = s.now;
  metadata =
      (text "bookingId", text_value p.booking_id)
      ∷ (text "amountVnd", number_value p.amount.amount)
      ∷ (text "reason", text_value reason)
      ∷ [];
}

unfoldable pub settle_declined : Settling → Payment → Text → Transaction StoredResponse
settle_declined s p reason = do
  mark_failed p.id reason s.now
  audit (declined_audit s reason p)
  answer p (declined_decision (declined_payment reason s.now p)) s.now

unfoldable pub refund_audit : Settling → Text → Payment → AuditEntry
refund_audit s provider_reference p = record {
  id = s.audit_id;
  action = payment_refund_pending;
  actor = s.actor;
  target = payment_target p.id;
  request_id = s.request_id;
  occurred_at = s.now;
  metadata =
      (text "bookingId", text_value p.booking_id)
      ∷ (text "amountVnd", number_value p.amount.amount)
      ∷ (text "providerReference", text_value provider_reference)
      ∷ [];
}

unfoldable pub confirmed_audit : Settling → Booking → Payment → AuditEntry
confirmed_audit s b p = record {
  id = s.audit_id;
  action = booking_confirmed;
  actor = s.actor;
  target = booking_target b.id;
  request_id = s.request_id;
  occurred_at = s.now;
  metadata =
      (text "flightId", text_value b.flight_id)
      ∷ (text "reference", text_value b.reference)
      ∷ (text "paymentId", text_value p.id)
      ∷ (text "amountVnd", number_value p.amount.amount)
      ∷ (text "correlationId", text_value (resolve_correlation_id s.request_id s.outbox_id))
      ∷ [];
}

-- A passenger with no seat, class or price throws.
abbrev event_passenger : BookingPassenger → Result EventPassenger
event_passenger p = elim p.seat [
  | none ↦ thrown passenger_without_seat
  | some seat ↦ elim p.fare_class [
    | none ↦ thrown passenger_without_seat
    | some fare_class ↦ elim p.price [
      | none ↦ thrown passenger_without_seat
      | some price ↦
          ok (record { name = p.name; seat = seat; fare_class = fare_class; price = price })
    ]
  ]
]

unfoldable pub confirmed_event_of : Settling → Booking → Payment → List EventPassenger → Event
confirmed_event_of s b p passengers = record {
  event_id = s.outbox_id;
  correlation_id = resolve_correlation_id s.request_id s.outbox_id;
  occurred_at = s.now;
  body = confirmed_event b.id b.reference b.flight_id passengers b.total p.id p.amount;
}

abbrev pub paid : Text → ℕ → Payment → Payment
paid provider_reference now p = record p {
  status = succeeded;
  provider_reference = some provider_reference;
  payment_method_token = none;
  next_attempt_at = none;
  updated_at = now;
}

-- By the answer of `confirmHold`.
unfoldable pub after_confirm :
    Settling → Payment → Text → ConfirmHoldResult → Transaction StoredResponse
after_confirm s p provider_reference not_payable = do
  mark_refund_pending p.id provider_reference s.now
  audit (refund_audit s provider_reference p)
  answer p (not_payable_decision refunded_meanwhile) s.now
after_confirm s p provider_reference (hold_confirmed b) = do
  mark_succeeded p.id provider_reference s.now
  audit (confirmed_audit s b p)
  passengers ← lift (traverse event_passenger b.passengers)
  enqueue booking_confirmed_queue (confirmed_event_of s b p passengers)
  answer p (confirmed_decision b (paid provider_reference s.now p)) s.now

unfoldable pub settle_charged : Settling → Payment → Text → Transaction StoredResponse
settle_charged s p provider_reference = do
  confirmation ← confirm_hold p.booking_id (owner p.account_id) s.now
  after_confirm s p provider_reference confirmation
