-- ===== src/System.antt =====
-- The committed transactions on bookings and seats, in any order: a step relation on the tables.
-- A transaction runs alone here, as row locks make concurrent ones do; a rolled back one is no step.
pub mod Runs
use booking_flight_system_mi.Base.{ℕ, ◌≡◌, sym, subst, Bool, Text, ok}
use booking_flight_system_mi.Aircraft.Position.{SeatPosition}
use booking_flight_system_mi.Store.{
  Database, BookingRow, BookingAccessScope, Payment, StoredResponse,
}
use booking_flight_system_mi.Bookings.Cancel.{Cancelling, CancelBookingResult, cancel_transaction}
use booking_flight_system_mi.Bookings.Cancel.Outcome.{cancel_transaction-Consistent}
use booking_flight_system_mi.Bookings.Validation.{CreateBookingInput}
use booking_flight_system_mi.Bookings.Expire.{Expiring, expire_step}
use booking_flight_system_mi.Bookings.Expire.Drained.{expire_step-Consistent}
use booking_flight_system_mi.Bookings.Reseat.{Reseating, ReseatResult, reseat_transaction}
use booking_flight_system_mi.Bookings.Reseat.Outcome.{reseat_transaction-Consistent}
use booking_flight_system_mi.Bookings.Repository.Invariant.{Consistent}
use booking_flight_system_mi.Bookings.Create.{Drawn, CreateBookingResult, create_transaction}
use booking_flight_system_mi.Bookings.Create.Outcome.{create_transaction-Consistent}
use booking_flight_system_mi.Payments.Pay.{Starting, PaymentRequest, payment_started, start_payment}
use booking_flight_system_mi.Payments.Pay.Laws.{start_payment-started}
use booking_flight_system_mi.Payments.Settle.{Settling, settle_charged, settle_declined}
use booking_flight_system_mi.Payments.Settle.Laws.{
  settle_charged-Consistent, settle_declined-outcome,
}
use booking_flight_system_mi.Payments.Repository.{claim_due}
use booking_flight_system_mi.Payments.Gateway.{ChargeResult, RefundResult}
use booking_flight_system_mi.Payments.Reconcile.{Reconciled, record_charge, record_refund}
use booking_flight_system_mi.Payments.Reconcile.Kept.{
  claim_due-Consistent, record_charge-Consistent, record_refund-Consistent,
}

pub data Step (db db' : Database) : Type 0 where
  creates :
      (d : Drawn) (flight_id account_id : Text) (input : CreateBookingInput)
      (r : CreateBookingResult)
      → create_transaction d flight_id account_id input db ≡ ok (db', r)
      → Step db db'
  cancels :
      (c : Cancelling) (id : Text) (scope : BookingAccessScope) (account_id : Text)
      (r : CancelBookingResult)
      → cancel_transaction c id scope account_id db ≡ ok (db', r)
      → Step db db'
  expires :
      (x : Expiring) (number : ℕ) (found : ℕ × ℕ)
      → expire_step x number db ≡ ok (db', found)
      → Step db db'
  reseats :
      (x : Reseating) (id : Text) (position : ℕ) (target : SeatPosition)
      (scope : BookingAccessScope) (account_id : Text) (answer : ReseatResult)
      → reseat_transaction x id position target scope account_id db ≡ ok (db', answer)
      → Step db db'
  starts_payment :
      (s : Starting) (id : Text) (scope : BookingAccessScope) (account_id : Text)
      (request : PaymentRequest) (p : Payment)
      → start_payment s id scope account_id request db ≡ ok (db', payment_started p)
      → Step db db'
  settles_charged :
      (s : Settling) (p : Payment) (reference : Text) (response : StoredResponse)
      → settle_charged s p reference db ≡ ok (db', response)
      → Step db db'
  settles_declined :
      (s : Settling) (p : Payment) (reason : Text) (response : StoredResponse)
      → settle_declined s p reason db ≡ ok (db', response)
      → Step db db'
  claims_payments :
      (now lease_ms limit : ℕ) (locked : Payment → Bool)
      → (claim_due now lease_ms limit locked db).0 ≡ db'
      → Step db db'
  records_charge :
      (s : Settling) (p : Payment) (answer : ChargeResult) (outcome : Reconciled)
      → record_charge s p answer db ≡ ok (db', outcome)
      → Step db db'
  records_refund :
      (s : Settling) (p : Payment) (answer : RefundResult) (outcome : Reconciled)
      → record_refund s p answer db ≡ ok (db', outcome)
      → Step db db'

-- A history of committed transactions.
pub data History (db : Database) : Database → Type 0 where
  nothing_yet : History db db
  then : {d d' : Database} → History db d → Step d d' → History db d'

pub Step-Consistent : {db db' : Database} → Step db db' → Consistent db → Consistent db'
Step-Consistent {db} {db'} (creates d flight_id account_id input r e) c =
    create_transaction-Consistent d flight_id account_id input db db' r e c
Step-Consistent {db} {db'} (cancels x id scope account_id r e) c =
    cancel_transaction-Consistent x id scope account_id db db' r e c
Step-Consistent {db} {db'} (expires x number found e) c =
    expire_step-Consistent x number db db' found e c
Step-Consistent {db} {db'} (reseats x id position target scope account_id answer e) c =
    reseat_transaction-Consistent x id position target scope account_id db db' answer e c
Step-Consistent {db} {db'} (starts_payment s id scope account_id request p e) c =
    subst Consistent (sym (start_payment-started s id scope account_id request db db' p e).written)
      c
Step-Consistent {db} {db'} (settles_charged s p reference response e) c =
    settle_charged-Consistent s p reference db db' response e c
Step-Consistent {db} {db'} (settles_declined s p reason response e) c =
    subst Consistent (sym (settle_declined-outcome s p reason db db' response e).written) c
Step-Consistent {db} {db'} (claims_payments now lease_ms limit locked e) c =
    subst Consistent e (claim_due-Consistent now lease_ms limit locked db c)
Step-Consistent {db} {db'} (records_charge s p answer outcome e) c =
    record_charge-Consistent s p answer db db' outcome e c
Step-Consistent {db} {db'} (records_refund s p answer outcome e) c =
    record_refund-Consistent s p answer db db' outcome e c

-- From tables whose seats agree with the bookings, every history of committed creations,
-- cancellations, expiries, seat changes, payment starts, settlements and reconciliations leads to
-- tables whose seats agree with the bookings: an AVAILABLE seat belongs to nobody, a HELD seat to a HELD
-- booking, a BOOKED seat to a CONFIRMED one.
pub History-Consistent : {db db' : Database} → History db db' → Consistent db → Consistent db'
History-Consistent nothing_yet c = c
History-Consistent (then h step) c = Step-Consistent step (History-Consistent h c)
