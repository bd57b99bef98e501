-- ===== src/Tests/Settled.antt =====
-- The theorems on payments at the sample payment.
use booking_flight_system_mi.Base.{◌≤◌, ◌≡◌, refl, true, false, All, ok, is_ok, same}
use booking_flight_system_mi.Store.{owner}
use booking_flight_system_mi.Payments.Repository.Checks.{PaymentOk}
use booking_flight_system_mi.Tests.Paid.{db2-in_flight}
use booking_flight_system_mi.Payments.Repository.Single.{in_flight, PaymentWrite-in_flight}
use booking_flight_system_mi.Payments.Repository.Writes.{succeeds}
use booking_flight_system_mi.Payments.Repository.Claimed.{UniqueIds}
use booking_flight_system_mi.Payments.Repository.Ids.{PaymentWrite-AllOk}
use booking_flight_system_mi.Payments.Settle.{settle_charged, settle_declined}
use booking_flight_system_mi.Payments.Settle.Laws.{
  ChargeOutcome, settle_charged-outcome, DeclineOutcome, settle_declined-outcome,
}
use booking_flight_system_mi.Payments.Settle.Once.{settle_charged_once, settle_declined_once}
use booking_flight_system_mi.Payments.Pay.{start_payment, finished, answered}
use booking_flight_system_mi.Payments.Pay.Laws.{PaymentStarted, start_payment-started}
use booking_flight_system_mi.Payments.Pay.Again.{start_payment-start_payment}
use booking_flight_system_mi.Tests.Sample.{db0, db1, booking_id, account_id, payment_id}
use booking_flight_system_mi.Tests.Paid.{
  db2, db3, db_declined, db_answered, starting, request, payment, settling, reference, reason,
  confirmed_response, declined_response, not_found_response, started_sample, charged_sample,
  declined_sample, answered_sample, db_marked, marked_sample, db2-PaymentOk, db2-UniqueIds,
}

settle_charged-outcome_example : ChargeOutcome settling payment reference db2 db3 confirmed_response
settle_charged-outcome_example =
    settle_charged-outcome settling payment reference db2 db3 confirmed_response charged_sample

start_payment-started_example :
    PaymentStarted starting booking_id (owner account_id) account_id request db1 db2 payment
start_payment-started_example =
    start_payment-started starting booking_id (owner account_id) account_id request db1 db2 payment
      started_sample

settle_charged_once_example :
    (is_ok (settle_charged settling payment reference db3) ≡ false)
    × (is_ok (settle_declined settling payment reference db3) ≡ false)
settle_charged_once_example =
    settle_charged_once settling payment reference db2 db3 confirmed_response charged_sample
      settling reference

settle_declined_once_example :
    (is_ok (settle_charged settling payment reference db_declined) ≡ false)
    × (is_ok (settle_declined settling payment reference db_declined) ≡ false)
settle_declined_once_example =
    settle_declined_once settling payment reason db2 db_declined declined_response declined_sample
      settling reference

settle_declined-outcome_example :
    DeclineOutcome settling payment reason db2 db_declined declined_response
settle_declined-outcome_example =
    settle_declined-outcome settling payment reason db2 db_declined declined_response
      declined_sample

start_payment-start_payment_example :
    start_payment starting booking_id (owner account_id) account_id request db_answered
    ≡ ok (db_answered, finished (answered not_found_response true))
unfolding same
start_payment-start_payment_example =
    start_payment-start_payment starting booking_id (owner account_id) account_id request db0
      db_answered not_found_response answered_sample starting booking_id request refl refl

PaymentWrite-AllOk_example : UniqueIds db_marked.payments × All PaymentOk db_marked.payments
PaymentWrite-AllOk_example =
    PaymentWrite-AllOk (succeeds payment_id reference 3000 marked_sample) db2-UniqueIds
      db2-PaymentOk

PaymentWrite-in_flight_example : in_flight booking_id db_marked ≤ 1
PaymentWrite-in_flight_example =
    PaymentWrite-in_flight (succeeds payment_id reference 3000 marked_sample) booking_id
      db2-in_flight
