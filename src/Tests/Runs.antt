-- ===== src/Tests/Runs.antt =====
-- The theorems on the gateway and the reconciliation at the sample payment.
use booking_flight_system_mi.Base.{
  List, length, ◌≤◌, ◌≡◌, refl, ◌⊎◌, true, false, none, [], ◌∷◌, Text, text, ok, same,
}
use booking_flight_system_mi.Money.{vnd_currency}
use booking_flight_system_mi.Jobs.Batches.{BatchRun}
use booking_flight_system_mi.Jobs.Counted.{Counted}
use booking_flight_system_mi.System.{nothing_yet, then, creates, starts_payment, History-Consistent}
use booking_flight_system_mi.System.Runs.{reconcile_payments-Consistent}
use booking_flight_system_mi.Bookings.Repository.Invariant.{Consistent}
use booking_flight_system_mi.Bookings.Create.{booking_made}
use booking_flight_system_mi.Store.{Payment, owner}
use booking_flight_system_mi.Payments.Reconcile.Claims.{Claims}
use booking_flight_system_mi.Payments.Gateway.{
  ChargeRequest, charge_succeeded, is_unknown, RefundRequest, refund_done, is_unknown_refund,
}
use booking_flight_system_mi.Payments.Gateway.Simulated.{
  Simulator, get, simulated_charge, simulated_refund, provider, goes_unanswered, charging_tokens,
  outcome_of, refund_at_provider, attempt_of, fails_this_time,
}
use booking_flight_system_mi.Payments.Gateway.Promise.{simulated_gateway}
use booking_flight_system_mi.Payments.Gateway.Once.{
  charge_call, refund_call, after, simulated_charge_once, simulated_refund_once,
}
use booking_flight_system_mi.Payments.Reconcile.{
  Reconciled, Reconciling, Tally, settling, reconcile, reconcile_payments,
}
use booking_flight_system_mi.Payments.Reconcile.Outcome.{ReconcileOutcome, reconcile-outcome}
use booking_flight_system_mi.Payments.Reconcile.Tallied.{sum_of, times, reconcile_payments-Counted}
use booking_flight_system_mi.Tests.Sample.{
  payment_id, drawn, flight_id, account_id, booking_id, input, booking, created_sample,
}
use booking_flight_system_mi.Tests.Paid.{db2, payment, starting, request, started_sample}

-- A provider that has charged nothing, and a network that loses the third call.
abbrev fresh_simulator : Simulator
fresh_simulator = record {
  charges = [];
  tokens = [];
  unreached_once = [];
  refunded = [];
  refund_attempts = [];
  network = true ∷ true ∷ false ∷ [];
}

abbrev charge_of : Text → ChargeRequest
charge_of token = record {
  payment_id = payment_id;
  amount = record { amount = 1500000; currency = vnd_currency };
  payment_method_token = token;
}

abbrev first_charge : ChargeRequest
first_charge = charge_of (text "tok_success")

-- Another token on the second attempt changes nothing.
simulated_charge_once_example :
    ((simulated_charge (charge_of (text "tok_decline")) (
        after simulated_gateway
          (charge_call first_charge ∷ [])
          (simulated_charge first_charge fresh_simulator).0)).1
      ≡ (simulated_charge first_charge fresh_simulator).1)
    ⊎ (is_unknown
          (simulated_charge (charge_of (text "tok_decline")) (
            after simulated_gateway
              (charge_call first_charge ∷ [])
              (simulated_charge first_charge fresh_simulator).0)).1
        ≡ true)
unfolding simulated_charge provider get goes_unanswered charging_tokens outcome_of same
simulated_charge_once_example =
    simulated_charge_once first_charge (charge_of (text "tok_decline"))
      (charge_call first_charge ∷ []) fresh_simulator refl refl

abbrev charged_simulator : Simulator
charged_simulator = record fresh_simulator {
  charges = (payment_id, charge_succeeded (text "sim_ch_1")) ∷ [];
  tokens = (payment_id, text "tok_success") ∷ [];
}

abbrev refund_of_it : RefundRequest
refund_of_it = record {
  payment_id = payment_id;
  provider_reference = text "sim_ch_1";
  amount = record { amount = 1500000; currency = vnd_currency };
}

simulated_refund_once_example :
    ((simulated_refund refund_of_it (
        after simulated_gateway
          (refund_call refund_of_it ∷ [])
          (simulated_refund refund_of_it charged_simulator).0)).1
      ≡ refund_done)
    ⊎ (is_unknown_refund
          (simulated_refund refund_of_it (
            after simulated_gateway
              (refund_call refund_of_it ∷ [])
              (simulated_refund refund_of_it charged_simulator).0)).1
        ≡ true)
unfolding simulated_refund refund_at_provider get attempt_of fails_this_time same
simulated_refund_once_example =
    simulated_refund_once refund_of_it refund_of_it (refund_call refund_of_it ∷ [])
      charged_simulator refl refl refl

-- A run after the lease of the sample payment.
abbrev reconciling : Reconciling
reconciling = record {
  claimed_at = λ number. 70000;
  now = λ number place. 71000;
  audit_id = λ number place. text "audit-8";
  outbox_id = λ number place. text "event-8";
  request_id = none;
  locked = λ number p. false;
  lease_ms = 60000;
  batch_size = 20;
  max_batches = 10;
}

reconcile-outcome_example :
    let ((db', g'), outcome) =
      reconcile simulated_gateway (settling reconciling 1 0) payment (db2, fresh_simulator) in
    ReconcileOutcome simulated_gateway
      (settling reconciling 1 0)
      payment
      db2
      fresh_simulator
      db'
      g'
      outcome
reconcile-outcome_example =
    reconcile-outcome simulated_gateway (settling reconciling 1 0) payment db2 fresh_simulator

reconcile_payments-Counted_example :
    (run : BatchRun Tally) × (claimed : List Payment) × (outcomes : List Reconciled)
    × ((reconcile_payments simulated_gateway reconciling (db2, fresh_simulator)).1 ≡ ok run)
    × (run.batches ≤ 10)
    × Claims simulated_gateway reconciling 10 0
        (db2, fresh_simulator)
        claimed
        outcomes
        (reconcile_payments simulated_gateway reconciling (db2, fresh_simulator)).0
        run.batches
        run.exhausted
    × (length outcomes ≡ length claimed)
    × ((outcome : Reconciled) → run.total outcome ≡ times outcome outcomes)
    × (sum_of run.total ≡ length claimed)
    × Counted 20 (sum_of run.total) run.batches run.exhausted
reconcile_payments-Counted_example =
    reconcile_payments-Counted simulated_gateway reconciling (db2, fresh_simulator)

-- Created and its payment started.
db2-Consistent : Consistent db2
db2-Consistent =
    History-Consistent
      (then
        (then nothing_yet
          (creates drawn flight_id account_id input (booking_made booking) created_sample))
        (starts_payment starting booking_id (owner account_id) account_id request payment
          started_sample))
      (tt, (tt, tt))

reconcile_payments-Consistent_example :
    Consistent (reconcile_payments simulated_gateway reconciling (db2, fresh_simulator)).0.0
reconcile_payments-Consistent_example =
    reconcile_payments-Consistent simulated_gateway reconciling db2 fresh_simulator db2-Consistent
