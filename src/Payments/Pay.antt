-- ===== src/Payments/Pay.antt =====
-- api/src/payments/pay-for-booking.ts: phase 1 of a payment, and what follows the gateway's answer.
pub mod Laws
pub mod Again
use booking_flight_system_mi.Base.{
  ℕ, ◌+◌, ◌*◌, Bool, true, false, not, ◌&&◌, Option, none, some, List, Text, text, same, ltb, ◌==◌,
  if◌then◌else◌, Result, ok, thrown,
}
use booking_flight_system_mi.Money.{Money, same_currency}
use booking_flight_system_mi.Requests.{is_uuid}
use booking_flight_system_mi.Bookings.Lifecycle.{BookingStatus, held}
use booking_flight_system_mi.Bookings.Repository.Rows.{find_by_id, is_held, before_deadline}
use booking_flight_system_mi.Store.{
  Database, KeyRow, Payment, Booking, BookingAccessScope, Transaction, ◌>>=◌, ◌>>◌, return, lift,
  run_transaction, StoredResponse, NotPayableReason, not_held, under_margin, account_actor,
}
use booking_flight_system_mi.Payments.Repository.{
  NewPayment, processing_payment, start, StartPaymentResult, started, payment_in_progress,
}
use booking_flight_system_mi.Payments.Keys.{
  KeyScope, ClaimResult, claimed, claim_in_progress, claim_completed, claim, attach_payment,
  complete, release,
}
use booking_flight_system_mi.Payments.Gateway.{
  ChargeResult, charge_succeeded, charge_declined, charge_unknown,
}
use booking_flight_system_mi.Payments.Settle.{
  PaymentDecision, not_payable_decision, not_found_decision, to_stored_response, Settling,
  settle_charged, settle_declined,
}

abbrev pub payment_start_margin_ms : ℕ
payment_start_margin_ms = 60 * 1000

abbrev pub pay_booking_operation : Text
pay_booking_operation = text "pay-booking"

pub record PaymentRequest : Type 0 where
  pub idempotency_key : Text
  pub fingerprint : Text
  pub payment_method_token : Text
  pub amount : Money

pub data PayForBookingResult : Type 0 where
  answered : StoredResponse → (replayed : Bool) → PayForBookingResult
  key_reused key_in_progress booking_payment_in_progress : PayForBookingResult
  amount_mismatch : Money → PayForBookingResult
  still_processing : Payment → PayForBookingResult

pub data Phase1 : Type 0 where
  finished : PayForBookingResult → Phase1
  payment_started : Payment → Phase1

-- What phase 1 takes from its dependencies.
pub record Starting : Type 0 where
  pub payment_id : Text
  pub now : ℕ
  pub reconcile_after_ms : ℕ
  pub others : ℕ → List KeyRow → List KeyRow

unfoldable pub can_start_payment : Booking → ℕ → Bool
can_start_payment b now =
    is_held b.status && before_deadline b.hold_expires_at (now + payment_start_margin_ms)

abbrev pub why_not_payable : Booking → ℕ → NotPayableReason
why_not_payable b now =
    if is_held b.status && before_deadline b.hold_expires_at now then under_margin else not_held

unfoldable pub is_same_money : Money → Money → Bool
is_same_money l r = (l.amount == r.amount) && same_currency l.currency r.currency

-- Store a final outcome with the key.
unfoldable pub answer_key : KeyScope → Text → PaymentDecision → ℕ → Transaction Phase1
answer_key scope key decision now = do
  complete scope key (to_stored_response decision) now
  return (finished (answered (to_stored_response decision) false))

abbrev pub key_scope : Text → KeyScope
key_scope account_id = record { account_id = account_id; operation = pay_booking_operation }

abbrev pub new_payment : Starting → Text → PaymentRequest → Booking → NewPayment
new_payment s account_id request b = record {
  id = s.payment_id;
  booking_id = b.id;
  account_id = account_id;
  amount = b.total;
  payment_method_token = request.payment_method_token;
  next_attempt_at = s.now + s.reconcile_after_ms;
  created_at = s.now;
}

unfoldable pub after_start :
    Starting → Text → PaymentRequest → Booking → StartPaymentResult → Transaction Phase1
after_start s account_id request b payment_in_progress = do
  release (key_scope account_id) request.idempotency_key
  return (finished booking_payment_in_progress)
after_start s account_id request b started = do
  attach_payment (key_scope account_id) request.idempotency_key s.payment_id
  return (payment_started (processing_payment (new_payment s account_id request b)))

unfoldable pub start_for : Starting → Text → PaymentRequest → Option Booking → Transaction Phase1
start_for s account_id request none =
    answer_key (key_scope account_id) request.idempotency_key not_found_decision s.now
start_for s account_id request (some b) =
    if can_start_payment b s.now
    then (if is_same_money request.amount b.total
        then (do
          r ← start (new_payment s account_id request b)
          after_start s account_id request b r)
        else (do
          release (key_scope account_id) request.idempotency_key
          return (finished (amount_mismatch b.total))))
    else answer_key (key_scope account_id) request.idempotency_key
        (not_payable_decision (why_not_payable b s.now)) s.now

abbrev find_if_uuid : Text → BookingAccessScope → Database → Result (Option Booking)
find_if_uuid booking_id scope db =
    if is_uuid booking_id then find_by_id booking_id scope db else ok none

unfoldable pub after_claim :
    Starting → Text → BookingAccessScope → Text → PaymentRequest → ClaimResult → Transaction Phase1
after_claim s booking_id scope account_id request claimed db =
    (do found ← lift (find_if_uuid booking_id scope db); start_for s account_id request found) db
after_claim s booking_id scope account_id request (claim_in_progress fingerprint) db =
    if same fingerprint request.fingerprint
    then ok (db, finished key_in_progress)
    else ok (db, finished key_reused)
after_claim s booking_id scope account_id request (claim_completed fingerprint response) db =
    if same fingerprint request.fingerprint
    then ok (db, finished (answered response true))
    else ok (db, finished key_reused)

unfoldable pub start_payment :
    Starting → Text → BookingAccessScope → Text → PaymentRequest → Transaction Phase1
start_payment s booking_id scope account_id request = do
  r ← claim s.others (key_scope account_id) request.idempotency_key request.fingerprint s.now
  after_claim s booking_id scope account_id request r

-- Phases 2 and 3 on the tables as they are by then: the gateway was called between transactions.
unfoldable pub finish_payment :
    Settling → Payment → ChargeResult → Database → Database × Result PayForBookingResult
finish_payment s p (charge_declined reason) =
    run_transaction (do response ← settle_declined s p reason; return (answered response false))
finish_payment s p (charge_unknown reason) = λ db. (db, ok (still_processing p))
finish_payment s p (charge_succeeded provider_reference) =
    run_transaction
      (do response ← settle_charged s p provider_reference; return (answered response false))
