-- ===== src/Payments/Reconcile/Kept.antt =====
-- The reconciliation keeps the seats in agreement with the bookings.
use booking_flight_system_mi.Base.{ℕ, ◌≡◌, sym, subst, Bool, Option, Text, ok}
use booking_flight_system_mi.Store.{Database, Payment, PaymentStatus}
use booking_flight_system_mi.Bookings.Repository.Invariant.{Consistent}
use booking_flight_system_mi.Payments.Gateway.{ChargeResult, RefundResult}
use booking_flight_system_mi.Payments.Repository.{write_payments, transition, claim_due}
use booking_flight_system_mi.Payments.Repository.Writes.{transition-written}
use booking_flight_system_mi.Payments.Settle.{Settling}
use booking_flight_system_mi.Payments.Settle.Laws.{
  settle_charged-Consistent, settle_declined-outcome,
}
use booking_flight_system_mi.Payments.Reconcile.{Reconciled, record_charge, record_refund}
use booking_flight_system_mi.Payments.Reconcile.Recorded.{
  ChargeRecorded, as_charged, as_declined, still_unknown, RefundRecorded, as_refunded, given_up,
  tried_again, record_charge-recorded, record_refund-recorded,
}

-- A write of payments touches no booking and no seat.
write_payments-Consistent :
    (sel : Payment → Bool) (f : Payment → Payment) (db db' : Database)
    → db' ≡ write_payments sel f db
    → Consistent db
    → Consistent db'
unfolding write_payments
write_payments-Consistent sel f db db' e c = subst Consistent (sym e) c

transition-Consistent :
    (id : Text) (from to : PaymentStatus) (now : ℕ) (reference reason : Option Text)
    (db db' : Database)
    → transition id from to now reference reason db ≡ ok (db', tt)
    → Consistent db
    → Consistent db'
transition-Consistent id from to now reference reason db db' e =
    write_payments-Consistent _ _ db db'
      (transition-written id from to now reference reason db db' e)

pub claim_due-Consistent :
    (now lease_ms limit : ℕ) (locked : Payment → Bool) (db : Database)
    → Consistent db
    → Consistent (claim_due now lease_ms limit locked db).0
unfolding claim_due write_payments
claim_due-Consistent now lease_ms limit locked db c = c

charge-Consistent :
    (s : Settling) (p : Payment) (answer : ChargeResult) (db db' : Database) (outcome : Reconciled)
    → ChargeRecorded s p db db' answer outcome
    → Consistent db
    → Consistent db'
charge-Consistent s p answer db db' outcome (as_charged reference response e) c =
    settle_charged-Consistent s p reference db db' response e c
charge-Consistent s p answer db db' outcome (as_declined reason response e) c =
    subst Consistent (sym (settle_declined-outcome s p reason db db' response e).written) c
charge-Consistent s p answer db db' outcome (still_unknown reason e) c =
    write_payments-Consistent _ _ db db' e c

pub record_charge-Consistent :
    (s : Settling) (p : Payment) (answer : ChargeResult) (db db' : Database) (outcome : Reconciled)
    → record_charge s p answer db ≡ ok (db', outcome)
    → Consistent db
    → Consistent db'
record_charge-Consistent s p answer db db' outcome e =
    charge-Consistent s p answer db db' outcome (record_charge-recorded s p answer db db' outcome e)

refund-Consistent :
    (s : Settling) (p : Payment) (answer : RefundResult) (db db' : Database) (outcome : Reconciled)
    → RefundRecorded s p db db' answer outcome
    → Consistent db
    → Consistent db'
refund-Consistent s p answer db db' outcome (as_refunded marked e final) c =
    subst Consistent (sym final) (transition-Consistent _ _ _ _ _ _ db marked e c)
refund-Consistent s p answer db db' outcome (given_up _ reason marked _ e final) c =
    subst Consistent (sym final) (transition-Consistent _ _ _ _ _ _ db marked e c)
refund-Consistent s p answer db db' outcome (tried_again _ reason _ _ e) c =
    write_payments-Consistent _ _ db db' e c

pub record_refund-Consistent :
    (s : Settling) (p : Payment) (answer : RefundResult) (db db' : Database) (outcome : Reconciled)
    → record_refund s p answer db ≡ ok (db', outcome)
    → Consistent db
    → Consistent db'
record_refund-Consistent s p answer db db' outcome e =
    refund-Consistent s p answer db db' outcome (record_refund-recorded s p answer db db' outcome e)
