-- ===== src/Payments/Reconcile/Recorded.antt =====
-- What the transactions of the reconciliation did, by the answer of the gateway.
use booking_flight_system_mi.Base.{
  ℕ, ◌+◌, ◌≤◌, ◌<◌, ◌≡◌, refl, sym, ◌∙◌, true, false, none, some, ◌∷◌, leb→le, Bool-cases,
  Result-cases, inl, inr, ◌⊎◌, Text, ok, arith,
}
use booking_flight_system_mi.Store.{
  Database, Payment, audit, StoredResponse, payment_refunded, payment_refund_failed,
}
use booking_flight_system_mi.Payments.Gateway.{
  ChargeResult, charge_succeeded, charge_declined, charge_unknown, RefundResult, refund_done,
  refund_refused, refund_unknown,
}
use booking_flight_system_mi.Payments.Repository.{
  is_in, write_payments, rescheduled, reschedule, mark_refunded, mark_refund_failed,
}
use booking_flight_system_mi.Payments.Repository.Writes.{reschedule-written}
use booking_flight_system_mi.Payments.Settle.{Settling, settle_charged, settle_declined}
use booking_flight_system_mi.Payments.Reconcile.{
  Reconciled, settled, refunded, refund_failed, retry_later, retried_status, retry,
  charge_retry_delay_ms, record_charge, retry_delay_ms, refund_entry, record_refunded,
  record_refund_failed, is_last_attempt, record_refund, max_refund_attempts,
}

-- What the transaction after a charge did, by the answer and by the outcome.
pub data ChargeRecorded (s : Settling) (p : Payment) (db db' : Database)
    : ChargeResult → Reconciled → Type 0 where
  as_charged :
      (reference : Text) (response : StoredResponse)
      → settle_charged s p reference db ≡ ok (db', response)
      → ChargeRecorded s p db db' (charge_succeeded reference) settled
  as_declined :
      (reason : Text) (response : StoredResponse)
      → settle_declined s p reason db ≡ ok (db', response)
      → ChargeRecorded s p db db' (charge_declined reason) settled
  still_unknown :
      (reason : Text)
      → db'
        ≡ write_payments
            (is_in p.id (retried_status p))
            (rescheduled (s.now + charge_retry_delay_ms p))
            db
      → ChargeRecorded s p db db' (charge_unknown reason) retry_later

-- What the transaction after a refund did.
pub data RefundRecorded (s : Settling) (p : Payment) (db db' : Database)
    : RefundResult → Reconciled → Type 0 where
  as_refunded :
      (marked : Database)
      → mark_refunded p.id s.now db ≡ ok (marked, tt)
      → db'
        ≡ record marked { audit_log = refund_entry s p payment_refunded none ∷ marked.audit_log }
      → RefundRecorded s p db db' refund_done refunded
  given_up :
      (answer : RefundResult) (reason : Text) (marked : Database)
      → (answer ≡ refund_refused reason false)
        ⊎ ((max_refund_attempts ≤ p.attempts)
            × ((answer ≡ refund_refused reason true) ⊎ (answer ≡ refund_unknown reason)))
      → mark_refund_failed p.id reason s.now db ≡ ok (marked, tt)
      → db' ≡ record marked {
        audit_log = refund_entry s p payment_refund_failed (some reason) ∷ marked.audit_log;
      }
      → RefundRecorded s p db db' answer refund_failed
  tried_again :
      (answer : RefundResult) (reason : Text)
      → (answer ≡ refund_refused reason true) ⊎ (answer ≡ refund_unknown reason)
      → p.attempts < max_refund_attempts
      → db'
        ≡ write_payments
            (is_in p.id (retried_status p))
            (rescheduled (s.now + retry_delay_ms p.attempts))
            db
      → RefundRecorded s p db db' answer retry_later

retry-lem :
    (s : Settling) (p : Payment) (delay_ms : ℕ) (db db' : Database) (outcome : Reconciled)
    → retry s p delay_ms db ≡ ok (db', outcome)
    → (outcome ≡ retry_later)
      × (db' ≡ write_payments (is_in p.id (retried_status p)) (rescheduled (s.now + delay_ms)) db)
unfolding retry
retry-lem s p delay_ms db db' outcome e =
    elim (Result-cases (reschedule p.id (retried_status p) (s.now + delay_ms) db)) [
      | inr (x, n) ↦ absurd (ground arith)
      | inl ((db1, u), y) ↦
          let final : db1 ≡ db' = ground arith in
          (
            ground arith,
            sym final ∙ reschedule-written p.id (retried_status p) (s.now + delay_ms) db db1 y,
          )
    ]

pub record_charge-recorded :
    (s : Settling) (p : Payment) (answer : ChargeResult) (db db' : Database) (outcome : Reconciled)
    → record_charge s p answer db ≡ ok (db', outcome)
    → ChargeRecorded s p db db' answer outcome
unfolding record_charge
record_charge-recorded s p (charge_succeeded reference) db db' outcome e =
    elim (Result-cases (settle_charged s p reference db)) [
      | inr (x, n) ↦ absurd (ground arith)
      | inl ((db1, response), y) ↦
          let told : outcome ≡ settled = ground arith in
          rw told (as_charged reference response (ground arith))
    ]
record_charge-recorded s p (charge_declined reason) db db' outcome e =
    elim (Result-cases (settle_declined s p reason db)) [
      | inr (x, n) ↦ absurd (ground arith)
      | inl ((db1, response), y) ↦
          let told : outcome ≡ settled = ground arith in
          rw told (as_declined reason response (ground arith))
    ]
record_charge-recorded s p (charge_unknown reason) db db' outcome e =
    let (told, written) = retry-lem s p (charge_retry_delay_ms p) db db' outcome e in
    rw told (still_unknown reason written)

record_refunded-recorded :
    (s : Settling) (p : Payment) (db db' : Database) (outcome : Reconciled)
    → record_refunded s p db ≡ ok (db', outcome)
    → RefundRecorded s p db db' refund_done outcome
unfolding record_refunded audit
record_refunded-recorded s p db db' outcome e = elim (Result-cases (mark_refunded p.id s.now db)) [
  | inr (x, n) ↦ absurd (ground arith)
  | inl ((db1, u), y) ↦
      let told : outcome ≡ refunded = ground arith in rw told (as_refunded db1 y (ground arith))
]

record_refund_failed-recorded :
    (s : Settling) (p : Payment) (answer : RefundResult) (reason : Text) (db db' : Database)
    (outcome : Reconciled)
    → (answer ≡ refund_refused reason false)
      ⊎ ((max_refund_attempts ≤ p.attempts)
          × ((answer ≡ refund_refused reason true) ⊎ (answer ≡ refund_unknown reason)))
    → record_refund_failed s p reason db ≡ ok (db', outcome)
    → RefundRecorded s p db db' answer outcome
unfolding record_refund_failed audit
record_refund_failed-recorded s p answer reason db db' outcome why e =
    elim (Result-cases (mark_refund_failed p.id reason s.now db)) [
      | inr (x, n) ↦ absurd (ground arith)
      | inl ((db1, u), y) ↦
          let told : outcome ≡ refund_failed = ground arith in
          rw told (given_up answer reason db1 why y (ground arith))
    ]

retry-recorded :
    (s : Settling) (p : Payment) (answer : RefundResult) (reason : Text) (db db' : Database)
    (outcome : Reconciled)
    → (answer ≡ refund_refused reason true) ⊎ (answer ≡ refund_unknown reason)
    → p.attempts < max_refund_attempts
    → retry s p (retry_delay_ms p.attempts) db ≡ ok (db', outcome)
    → RefundRecorded s p db db' answer outcome
retry-recorded s p answer reason db db' outcome why less e =
    let (told, written) = retry-lem s p (retry_delay_ms p.attempts) db db' outcome e in
    rw told (tried_again answer reason why less written)

pub record_refund-recorded :
    (s : Settling) (p : Payment) (answer : RefundResult) (db db' : Database) (outcome : Reconciled)
    → record_refund s p answer db ≡ ok (db', outcome)
    → RefundRecorded s p db db' answer outcome
unfolding record_refund
record_refund-recorded s p refund_done db db' outcome e =
    record_refunded-recorded s p db db' outcome e
record_refund-recorded s p (refund_refused reason false) db db' outcome e =
    record_refund_failed-recorded s p (refund_refused reason false) reason db db' outcome (inl refl)
      e
record_refund-recorded s p (refund_refused reason true) db db' outcome e =
    elim (Bool-cases (is_last_attempt p)) [
      | inl y ↦
          record_refund_failed-recorded s p (refund_refused reason true) reason db db' outcome
            (inr (leb→le max_refund_attempts p.attempts y, inl refl)) (rw y at e)
      | inr n ↦
          retry-recorded s p (refund_refused reason true) reason db db' outcome (inl refl)
            (ground arith) (rw n at e)
    ]
record_refund-recorded s p (refund_unknown reason) db db' outcome e =
    elim (Bool-cases (is_last_attempt p)) [
      | inl y ↦
          record_refund_failed-recorded s p (refund_unknown reason) reason db db' outcome
            (inr (leb→le max_refund_attempts p.attempts y, inr refl)) (rw y at e)
      | inr n ↦
          retry-recorded s p (refund_unknown reason) reason db db' outcome (inr refl) (ground arith)
            (rw n at e)
    ]
