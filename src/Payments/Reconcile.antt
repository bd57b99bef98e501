-- ===== src/Payments/Reconcile.antt =====
-- api/src/payments/reconcile-payments.ts. The gateway is a parameter; a step acts on the tables and
-- on the provider. The calls of a batch, which the source lets overlap, are made here one after
-- another, in the order of the claim. Log lines are left out.
pub mod Recorded
pub mod Outcome
pub mod Claims
pub mod Tallied
pub mod Kept
use booking_flight_system_mi.Base.{
  ℕ, zero, suc, ◌+◌, ◌*◌, ◌^◌, min, Bool, true, false, not, ◌||◌, Option, none, some, List, [], ◌∷◌,
  ◌++◌, length, leb, ◌==◌, if◌then◌else◌, Text, text, Result, ok, thrown, payment_without_token,
  payment_without_reference,
}
use booking_flight_system_mi.Store.{
  Database, Payment, PaymentStatus, processing, refund_pending, Transaction, ◌>>=◌, ◌>>◌, return,
  audit, run_transaction, AuditEntry, AuditActor, AuditValue, AuditAction, payment_refunded,
  payment_refund_failed, system_actor, payment_target, text_value, number_value,
}
use booking_flight_system_mi.Bookings.Cancel.{text_or_null}
use booking_flight_system_mi.Payments.Gateway.{
  ChargeRequest, ChargeResult, charge_succeeded, charge_declined, charge_unknown, RefundRequest,
  RefundResult, refund_done, refund_refused, refund_unknown, PaymentGateway,
}
use booking_flight_system_mi.Payments.Repository.{
  is_status, mark_refunded, mark_refund_failed, claim_due, reschedule,
}
use booking_flight_system_mi.Payments.Settle.{Settling, settle_charged, settle_declined}
use booking_flight_system_mi.Jobs.Batches.{BatchRun, run_batches}

abbrev pub payment_reconciliation_actor : AuditActor
payment_reconciliation_actor = system_actor (text "payment-reconciliation")

abbrev pub max_refund_attempts : ℕ
max_refund_attempts = 5

abbrev pub minute_ms : ℕ
minute_ms = 60000

abbrev pub max_charge_retry_delay_ms : ℕ
max_charge_retry_delay_ms = 10 * minute_ms

-- `MINUTE_MS * 2 ** (attempt - 1)`, half a minute for attempt 0.
unfoldable pub retry_delay_ms : ℕ → ℕ
retry_delay_ms zero = 30000
retry_delay_ms (suc n) = minute_ms * 2 ^ n

pub data Reconciled : Type 0 where
  settled refunded refund_failed retry_later failed : Reconciled

-- What a run takes from its dependencies: the clock at the claim of a batch, the clock and the
-- generated ids by batch and place in it, the payments that others have locked, and the limits.
pub record Reconciling : Type 0 where
  pub claimed_at : ℕ → ℕ
  pub now : ℕ → ℕ → ℕ
  pub audit_id : ℕ → ℕ → Text
  pub outbox_id : ℕ → ℕ → Text
  pub request_id : Option Text
  pub locked : ℕ → Payment → Bool
  pub lease_ms : ℕ
  pub batch_size : ℕ
  pub max_batches : ℕ

abbrev pub settling : Reconciling → ℕ → ℕ → Settling
settling x number place = record {
  audit_id = x.audit_id number place;
  outbox_id = x.outbox_id number place;
  request_id = x.request_id;
  now = x.now number place;
  actor = payment_reconciliation_actor;
}

abbrev pub retried_status : Payment → PaymentStatus
retried_status p = if is_status processing p then processing else refund_pending

unfoldable pub retry : Settling → Payment → ℕ → Transaction Reconciled
retry s p delay_ms = do reschedule p.id (retried_status p) (s.now + delay_ms); return retry_later

abbrev pub charge_retry_delay_ms : Payment → ℕ
charge_retry_delay_ms p = min (retry_delay_ms p.attempts) max_charge_retry_delay_ms

-- What follows the answer to a charge.
unfoldable pub record_charge : Settling → Payment → ChargeResult → Transaction Reconciled
record_charge s p (charge_succeeded provider_reference) = do
  response ← settle_charged s p provider_reference
  return settled
record_charge s p (charge_declined reason) = do
  response ← settle_declined s p reason
  return settled
record_charge s p (charge_unknown reason) = retry s p (charge_retry_delay_ms p)

abbrev reason_entry : Option Text → List (Text × AuditValue)
reason_entry none = []
reason_entry (some reason) = (text "reason", text_value reason) ∷ []

unfoldable pub refund_entry : Settling → Payment → AuditAction → Option Text → AuditEntry
refund_entry s p action reason = record {
  id = s.audit_id;
  action = action;
  actor = s.actor;
  target = payment_target p.id;
  request_id = none;
  occurred_at = s.now;
  metadata =
      (text "bookingId", text_value p.booking_id)
      ∷ (text "amountVnd", number_value p.amount.amount)
      ∷ (text "providerReference", text_or_null p.provider_reference)
      ∷ (text "attempts", number_value p.attempts)
      ∷ reason_entry reason;
}

-- `recordRefund` with PAYMENT_REFUNDED, and with PAYMENT_REFUND_FAILED.
unfoldable pub record_refunded : Settling → Payment → Transaction Reconciled
record_refunded s p = do
  mark_refunded p.id s.now
  audit (refund_entry s p payment_refunded none)
  return refunded

unfoldable pub record_refund_failed : Settling → Payment → Text → Transaction Reconciled
record_refund_failed s p reason = do
  mark_refund_failed p.id reason s.now
  audit (refund_entry s p payment_refund_failed (some reason))
  return refund_failed

abbrev pub is_last_attempt : Payment → Bool
is_last_attempt p = leb max_refund_attempts p.attempts

-- What follows the answer to a refund.
unfoldable pub record_refund : Settling → Payment → RefundResult → Transaction Reconciled
record_refund s p refund_done = record_refunded s p
record_refund s p (refund_refused reason retryable) =
    if not retryable || is_last_attempt p
    then record_refund_failed s p reason
    else retry s p (retry_delay_ms p.attempts)
record_refund s p (refund_unknown reason) =
    if is_last_attempt p
    then record_refund_failed s p reason
    else retry s p (retry_delay_ms p.attempts)

abbrev pub charge_request : Payment → Text → ChargeRequest
charge_request p token = record {
  payment_id = p.id;
  amount = p.amount;
  payment_method_token = token;
}

abbrev pub refund_request : Payment → Text → RefundRequest
refund_request p reference = record {
  payment_id = p.id;
  provider_reference = reference;
  amount = p.amount;
}

abbrev pub outcome_number : Reconciled → ℕ
outcome_number settled = 0
outcome_number refunded = 1
outcome_number refund_failed = 2
outcome_number retry_later = 3
outcome_number failed = 4

abbrev pub Tally : Type 0
Tally = Reconciled → ℕ

unfoldable pub empty_tally : Tally
empty_tally outcome = 0

-- `tally[outcome] += 1`.
unfoldable pub count_outcome : Reconciled → Tally → Tally
count_outcome outcome tally other =
    if outcome_number outcome == outcome_number other then suc (tally other) else tally other

unfoldable pub tally_all : List Reconciled → Tally
tally_all [] = empty_tally
tally_all (outcome ∷ outcomes) = count_outcome outcome (tally_all outcomes)

abbrev pub add_tally : Tally → Tally → Tally
add_tally a b outcome = a outcome + b outcome

-- A throw is caught: the transaction has rolled back, the others go on.
abbrev pub caught : Result Reconciled → Reconciled
caught (ok outcome) = outcome
caught (thrown e) = failed

module _ (gateway : PaymentGateway) where
  -- The gateway's call, then the transaction on the tables.
  unfoldable pub reconcile_charge :
      Settling
      → Payment
      → Database × gateway.Provider
      → (Database × gateway.Provider) × Result Reconciled
  reconcile_charge s p (db, g) = elim p.payment_method_token [
    | none ↦ ((db, g), thrown payment_without_token)
    | some token ↦
        let (g', answer) = gateway.charge (charge_request p token) g in
        let (db', outcome) = run_transaction (record_charge s p answer) db in
        elim (gateway.charge_throws (charge_request p token) g) [
          | some e ↦ ((db, g'), thrown e)
          | none ↦ ((db', g'), outcome)
        ]
  ]

  unfoldable pub reconcile_refund :
      Settling
      → Payment
      → Database × gateway.Provider
      → (Database × gateway.Provider) × Result Reconciled
  reconcile_refund s p (db, g) = elim p.provider_reference [
    | none ↦ ((db, g), thrown payment_without_reference)
    | some reference ↦
        let (g', answer) = gateway.refund (refund_request p reference) g in
        let (db', outcome) = run_transaction (record_refund s p answer) db in
        elim (gateway.refund_throws (refund_request p reference) g) [
          | some e ↦ ((db, g'), thrown e)
          | none ↦ ((db', g'), outcome)
        ]
  ]

  unfoldable pub reconcile :
      Settling → Payment → Database × gateway.Provider → (Database × gateway.Provider) × Reconciled
  reconcile s p st =
      let (st', outcome) =
        if is_status processing p then reconcile_charge s p st else reconcile_refund s p st in
      (st', caught outcome)

  unfoldable pub reconcile_all :
      Reconciling
      → ℕ
      → ℕ
      → List Payment
      → Database × gateway.Provider
      → (Database × gateway.Provider) × List Reconciled
  reconcile_all x number place [] st = (st, [])
  reconcile_all x number place (p ∷ ps) st =
      let (st', outcome) = reconcile (settling x number place) p st in
      let (st'', outcomes) = reconcile_all x number (suc place) ps st' in (st'', outcome ∷ outcomes)

  unfoldable pub reconcile_batch :
      Reconciling
      → ℕ
      → Database × gateway.Provider
      → (Database × gateway.Provider) × Result (Tally × ℕ)
  reconcile_batch x number (db, g) =
      let (db', claimed) =
        claim_due (x.claimed_at number) x.lease_ms x.batch_size (x.locked number) db in
      let (st, outcomes) = reconcile_all x number 0 claimed (db', g) in
      (st, ok (tally_all outcomes, length claimed))

  unfoldable pub reconcile_payments :
      Reconciling
      → Database × gateway.Provider
      → (Database × gateway.Provider) × Result (BatchRun Tally)
  reconcile_payments x =
      run_batches add_tally x.batch_size (reconcile_batch x) x.max_batches 0 empty_tally
