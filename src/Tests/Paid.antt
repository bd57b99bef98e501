-- ===== src/Tests/Paid.antt =====
-- The payments of the sample booking: one charged, one declined, and one for no booking.
use booking_flight_system_mi.Base.{
  length, length-keep_le, ◌≤◌, arith, ◌≡◌, refl, false, none, some, Text, text, All, ok, sort_by,
  same, text_leb, decimal_from, decimal, traverse,
}
use booking_flight_system_mi.Store.{
  Database, Payment, processing, account_actor, StoredResponse, confirmed_body, Booking, owner,
  same_position, same_seat, seat_leb, in_scope, status_of, run_transaction, resolve_correlation_id,
  audit, enqueue,
}
use booking_flight_system_mi.Bookings.Repository.Hold.{
  classify_nothing_held, on_sale, find_fare, to_held_seat, is_candidate, candidates, enough,
  has_class, commit_hold, auto_result, hold_auto_seats, requested_rows, verdict, row_of,
  explain_chosen, chosen_result, hold_chosen_seats, hold_seats,
}
use booking_flight_system_mi.Bookings.Repository.Rows.{
  booking_total, map_passenger, map_booking, find_by_id, find_by_reference, passenger_rows,
  insert_booking, set_status, cancel_row, cancel, due_holds, is_one_of, expire_due_holds,
  can_confirm, confirm_row, confirm_hold,
}
use booking_flight_system_mi.Bookings.Repository.Seats.{
  is_among, hold_rows, update_seats_of, codes_of,
}
use booking_flight_system_mi.Bookings.Repository.Change.{
  changed, is_at, is_passenger, swap_seats, change_locked, change_passenger, change_booking,
  change_seat,
}
use booking_flight_system_mi.Bookings.Create.{
  pair_seats, seat_passengers, event_passengers, join_codes, try_references, created_audit,
  created_event, new_booking, store_booking, book_held, after_hold, create_transaction,
  create_booking,
}
use booking_flight_system_mi.Bookings.Lifecycle.{
  confirmed, is_hold_lapsed, effective_booking_status, is_cancellation_window_open,
  classify_not_cancelled, cancel_condition,
}
use booking_flight_system_mi.Flights.Lifecycle.{
  to_stored_flight_status, effective_flight_status, is_bookable, on_sale_sql, flight_transitions,
  transition_flight,
}
use booking_flight_system_mi.Money.{
  vnd_currency, is_vnd_amount, vnd, add_money, sum_from, sum_money, is_database_integer,
  number_from, parse_vnd_from_database,
}
use booking_flight_system_mi.Aircraft.Position.{parse_seat_position, format_seat_position}
use booking_flight_system_mi.Payments.Repository.{
  mark_succeeded, moved, is_in, write_payments, breaks_succeeded, transition_rows, transition,
  is_processing_for, start, is_paid_for, mark_refund_pending_for_cancelled_booking, is_due,
  due_payments, is_claimed, claim_due, reschedule,
}
use booking_flight_system_mi.Payments.Keys.{
  is_key, read_key, claim_from, claim, update_one_key, is_open_key, is_open_for, attach_payment,
  complete, complete_for_payment, release, is_expired_key, same_key, delete_completed_before,
}
use booking_flight_system_mi.Payments.Settle.{
  Settling, declined_decision, paid, declined_payment, not_found_decision, to_stored_response,
  answer, declined_audit, settle_declined, refund_audit, confirmed_audit, confirmed_event_of,
  after_confirm, settle_charged,
}
use booking_flight_system_mi.Payments.Pay.{
  Starting, PaymentRequest, payment_started, finished, answered, can_start_payment, is_same_money,
  answer_key, after_start, start_for, after_claim, start_payment, finish_payment,
}
use booking_flight_system_mi.Requests.{is_uuid}
use booking_flight_system_mi.Payments.Repository.Checks.{PaymentOk}
use booking_flight_system_mi.Payments.Repository.Claimed.{UniqueIds}
use booking_flight_system_mi.Payments.Repository.Single.{in_flight}
use booking_flight_system_mi.Tests.Sample.{
  db0, db1, booking, booking_id, account_id, payment_id, seat_1b, tables_after,
}

abbrev pub starting : Starting
starting = record {
  payment_id = payment_id;
  now = 2000;
  reconcile_after_ms = 60000;
  others = λ n keys. keys;
}

abbrev pub request : PaymentRequest
request = record {
  idempotency_key = text "key-1";
  fingerprint = text "f1";
  payment_method_token = text "tok";
  amount = record { amount = 1500000; currency = vnd_currency };
}

abbrev pub payment : Payment
payment = record {
  id = payment_id;
  booking_id = booking_id;
  account_id = account_id;
  amount = record { amount = 1500000; currency = vnd_currency };
  status = processing;
  provider_reference = none;
  failure_reason = none;
  payment_method_token = some (text "tok");
  attempts = 0;
  next_attempt_at = some 62000;
  created_at = 2000;
  updated_at = 2000;
}

abbrev pub db2 : Database
db2 = tables_after db1 (start_payment starting booking_id (owner account_id) account_id request db1)

pub started_sample :
    start_payment starting booking_id (owner account_id) account_id request db1
    ≡ ok (db2, payment_started payment)
unfolding sort_by same text_leb decimal_from decimal traverse same_position same_seat seat_leb
    in_scope status_of run_transaction resolve_correlation_id audit enqueue classify_nothing_held
    on_sale find_fare to_held_seat is_candidate candidates enough has_class commit_hold auto_result
    hold_auto_seats requested_rows verdict row_of explain_chosen chosen_result hold_chosen_seats
    hold_seats booking_total map_passenger map_booking find_by_id find_by_reference passenger_rows
    insert_booking set_status cancel_row cancel is_due due_holds is_one_of expire_due_holds
    can_confirm confirm_row confirm_hold is_among hold_rows update_seats_of codes_of is_at
    is_passenger swap_seats change_locked change_passenger change_booking change_seat pair_seats
    seat_passengers event_passengers join_codes try_references created_audit created_event
    new_booking store_booking book_held after_hold create_transaction create_booking is_hold_lapsed
    effective_booking_status is_cancellation_window_open classify_not_cancelled cancel_condition
    to_stored_flight_status effective_flight_status is_bookable on_sale_sql flight_transitions
    transition_flight is_vnd_amount vnd add_money sum_from sum_money is_database_integer number_from
    parse_vnd_from_database parse_seat_position format_seat_position is_uuid moved is_in
    write_payments breaks_succeeded transition_rows transition is_processing_for start is_paid_for
    mark_refund_pending_for_cancelled_booking due_payments is_claimed claim_due reschedule is_key
    read_key claim_from claim update_one_key is_open_key is_open_for attach_payment complete
    complete_for_payment release is_expired_key same_key delete_completed_before to_stored_response
    answer declined_audit settle_declined refund_audit confirmed_audit confirmed_event_of
    after_confirm settle_charged can_start_payment is_same_money answer_key after_start start_for
    after_claim start_payment finish_payment
started_sample = refl

abbrev pub settling : Settling
settling = record {
  audit_id = text "audit-2";
  outbox_id = text "event-2";
  request_id = none;
  now = 3000;
  actor = account_actor account_id;
}

abbrev pub reference : Text
reference = text "charge-1"

abbrev pub confirmed_booking : Booking
confirmed_booking = record booking { status = confirmed }

abbrev pub confirmed_response : StoredResponse
confirmed_response = record {
  status = 201;
  body = confirmed_body (paid reference 3000 payment) confirmed_booking;
}

abbrev pub db3 : Database
db3 = tables_after db2 (settle_charged settling payment reference db2)

pub charged_sample : settle_charged settling payment reference db2 ≡ ok (db3, confirmed_response)
unfolding sort_by same text_leb decimal_from decimal traverse same_position same_seat seat_leb
    in_scope status_of run_transaction resolve_correlation_id audit enqueue classify_nothing_held
    on_sale find_fare to_held_seat is_candidate candidates enough has_class commit_hold auto_result
    hold_auto_seats requested_rows verdict row_of explain_chosen chosen_result hold_chosen_seats
    hold_seats booking_total map_passenger map_booking find_by_id find_by_reference passenger_rows
    insert_booking set_status cancel_row cancel is_due due_holds is_one_of expire_due_holds
    can_confirm confirm_row confirm_hold is_among hold_rows update_seats_of codes_of is_at
    is_passenger swap_seats change_locked change_passenger change_booking change_seat pair_seats
    seat_passengers event_passengers join_codes try_references created_audit created_event
    new_booking store_booking book_held after_hold create_transaction create_booking is_hold_lapsed
    effective_booking_status is_cancellation_window_open classify_not_cancelled cancel_condition
    to_stored_flight_status effective_flight_status is_bookable on_sale_sql flight_transitions
    transition_flight is_vnd_amount vnd add_money sum_from sum_money is_database_integer number_from
    parse_vnd_from_database parse_seat_position format_seat_position is_uuid moved is_in
    write_payments breaks_succeeded transition_rows transition is_processing_for start is_paid_for
    mark_refund_pending_for_cancelled_booking due_payments is_claimed claim_due reschedule is_key
    read_key claim_from claim update_one_key is_open_key is_open_for attach_payment complete
    complete_for_payment release is_expired_key same_key delete_completed_before to_stored_response
    answer declined_audit settle_declined refund_audit confirmed_audit confirmed_event_of
    after_confirm settle_charged can_start_payment is_same_money answer_key after_start start_for
    after_claim start_payment finish_payment
charged_sample = refl

abbrev pub reason : Text
reason = text "card_declined"

abbrev pub declined_response : StoredResponse
declined_response = to_stored_response (declined_decision (declined_payment reason 3000 payment))

abbrev pub db_declined : Database
db_declined = tables_after db2 (settle_declined settling payment reason db2)

pub declined_sample :
    settle_declined settling payment reason db2 ≡ ok (db_declined, declined_response)
unfolding sort_by same text_leb decimal_from decimal traverse same_position same_seat seat_leb
    in_scope status_of run_transaction resolve_correlation_id audit enqueue classify_nothing_held
    on_sale find_fare to_held_seat is_candidate candidates enough has_class commit_hold auto_result
    hold_auto_seats requested_rows verdict row_of explain_chosen chosen_result hold_chosen_seats
    hold_seats booking_total map_passenger map_booking find_by_id find_by_reference passenger_rows
    insert_booking set_status cancel_row cancel is_due due_holds is_one_of expire_due_holds
    can_confirm confirm_row confirm_hold is_among hold_rows update_seats_of codes_of is_at
    is_passenger swap_seats change_locked change_passenger change_booking change_seat pair_seats
    seat_passengers event_passengers join_codes try_references created_audit created_event
    new_booking store_booking book_held after_hold create_transaction create_booking is_hold_lapsed
    effective_booking_status is_cancellation_window_open classify_not_cancelled cancel_condition
    to_stored_flight_status effective_flight_status is_bookable on_sale_sql flight_transitions
    transition_flight is_vnd_amount vnd add_money sum_from sum_money is_database_integer number_from
    parse_vnd_from_database parse_seat_position format_seat_position is_uuid moved is_in
    write_payments breaks_succeeded transition_rows transition is_processing_for start is_paid_for
    mark_refund_pending_for_cancelled_booking due_payments is_claimed claim_due reschedule is_key
    read_key claim_from claim update_one_key is_open_key is_open_for attach_payment complete
    complete_for_payment release is_expired_key same_key delete_completed_before to_stored_response
    answer declined_audit settle_declined refund_audit confirmed_audit confirmed_event_of
    after_confirm settle_charged can_start_payment is_same_money answer_key after_start start_for
    after_claim start_payment finish_payment
declined_sample = refl

abbrev pub not_found_response : StoredResponse
not_found_response = to_stored_response not_found_decision

abbrev pub db_answered : Database
db_answered =
    tables_after db0 (start_payment starting booking_id (owner account_id) account_id request db0)

pub answered_sample :
    start_payment starting booking_id (owner account_id) account_id request db0
    ≡ ok (db_answered, finished (answered not_found_response false))
unfolding sort_by same text_leb decimal_from decimal traverse same_position same_seat seat_leb
    in_scope status_of run_transaction resolve_correlation_id audit enqueue classify_nothing_held
    on_sale find_fare to_held_seat is_candidate candidates enough has_class commit_hold auto_result
    hold_auto_seats requested_rows verdict row_of explain_chosen chosen_result hold_chosen_seats
    hold_seats booking_total map_passenger map_booking find_by_id find_by_reference passenger_rows
    insert_booking set_status cancel_row cancel is_due due_holds is_one_of expire_due_holds
    can_confirm confirm_row confirm_hold is_among hold_rows update_seats_of codes_of is_at
    is_passenger swap_seats change_locked change_passenger change_booking change_seat pair_seats
    seat_passengers event_passengers join_codes try_references created_audit created_event
    new_booking store_booking book_held after_hold create_transaction create_booking is_hold_lapsed
    effective_booking_status is_cancellation_window_open classify_not_cancelled cancel_condition
    to_stored_flight_status effective_flight_status is_bookable on_sale_sql flight_transitions
    transition_flight is_vnd_amount vnd add_money sum_from sum_money is_database_integer number_from
    parse_vnd_from_database parse_seat_position format_seat_position is_uuid moved is_in
    write_payments breaks_succeeded transition_rows transition is_processing_for start is_paid_for
    mark_refund_pending_for_cancelled_booking due_payments is_claimed claim_due reschedule is_key
    read_key claim_from claim update_one_key is_open_key is_open_for attach_payment complete
    complete_for_payment release is_expired_key same_key delete_completed_before to_stored_response
    answer declined_audit settle_declined refund_audit confirmed_audit confirmed_event_of
    after_confirm settle_charged can_start_payment is_same_money answer_key after_start start_for
    after_claim start_payment finish_payment
answered_sample = refl

abbrev pub db_changed : Database
db_changed = tables_after db3 (change_seat booking_id 1 seat_1b (owner account_id) 2000 db3)

pub changed_sample :
    change_seat booking_id 1 seat_1b (owner account_id) 2000 db3
    ≡ ok (db_changed, changed (text "1A") (text "1B"))
unfolding sort_by same text_leb decimal_from decimal traverse same_position same_seat seat_leb
    in_scope status_of run_transaction resolve_correlation_id audit enqueue classify_nothing_held
    on_sale find_fare to_held_seat is_candidate candidates enough has_class commit_hold auto_result
    hold_auto_seats requested_rows verdict row_of explain_chosen chosen_result hold_chosen_seats
    hold_seats booking_total map_passenger map_booking find_by_id find_by_reference passenger_rows
    insert_booking set_status cancel_row cancel is_due due_holds is_one_of expire_due_holds
    can_confirm confirm_row confirm_hold is_among hold_rows update_seats_of codes_of is_at
    is_passenger swap_seats change_locked change_passenger change_booking change_seat pair_seats
    seat_passengers event_passengers join_codes try_references created_audit created_event
    new_booking store_booking book_held after_hold create_transaction create_booking is_hold_lapsed
    effective_booking_status is_cancellation_window_open classify_not_cancelled cancel_condition
    to_stored_flight_status effective_flight_status is_bookable on_sale_sql flight_transitions
    transition_flight is_vnd_amount vnd add_money sum_from sum_money is_database_integer number_from
    parse_vnd_from_database parse_seat_position format_seat_position is_uuid moved is_in
    write_payments breaks_succeeded transition_rows transition is_processing_for start is_paid_for
    mark_refund_pending_for_cancelled_booking due_payments is_claimed claim_due reschedule is_key
    read_key claim_from claim update_one_key is_open_key is_open_for attach_payment complete
    complete_for_payment release is_expired_key same_key delete_completed_before to_stored_response
    answer declined_audit settle_declined refund_audit confirmed_audit confirmed_event_of
    after_confirm settle_charged can_start_payment is_same_money answer_key after_start start_for
    after_claim start_payment finish_payment
changed_sample = refl

abbrev pub db_marked : Database
db_marked = tables_after db2 (mark_succeeded payment_id reference 3000 db2)

pub marked_sample : mark_succeeded payment_id reference 3000 db2 ≡ ok (db_marked, tt)
unfolding sort_by same text_leb decimal_from decimal traverse same_position same_seat seat_leb
    in_scope status_of run_transaction resolve_correlation_id audit enqueue classify_nothing_held
    on_sale find_fare to_held_seat is_candidate candidates enough has_class commit_hold auto_result
    hold_auto_seats requested_rows verdict row_of explain_chosen chosen_result hold_chosen_seats
    hold_seats booking_total map_passenger map_booking find_by_id find_by_reference passenger_rows
    insert_booking set_status cancel_row cancel is_due due_holds is_one_of expire_due_holds
    can_confirm confirm_row confirm_hold is_among hold_rows update_seats_of codes_of is_at
    is_passenger swap_seats change_locked change_passenger change_booking change_seat pair_seats
    seat_passengers event_passengers join_codes try_references created_audit created_event
    new_booking store_booking book_held after_hold create_transaction create_booking is_hold_lapsed
    effective_booking_status is_cancellation_window_open classify_not_cancelled cancel_condition
    to_stored_flight_status effective_flight_status is_bookable on_sale_sql flight_transitions
    transition_flight is_vnd_amount vnd add_money sum_from sum_money is_database_integer number_from
    parse_vnd_from_database parse_seat_position format_seat_position is_uuid moved is_in
    write_payments breaks_succeeded transition_rows transition is_processing_for start is_paid_for
    mark_refund_pending_for_cancelled_booking due_payments is_claimed claim_due reschedule is_key
    read_key claim_from claim update_one_key is_open_key is_open_for attach_payment complete
    complete_for_payment release is_expired_key same_key delete_completed_before to_stored_response
    answer declined_audit settle_declined refund_audit confirmed_audit confirmed_event_of
    after_confirm settle_charged can_start_payment is_same_money answer_key after_start start_for
    after_claim start_payment finish_payment
marked_sample = refl

pub db2-PaymentOk : All PaymentOk db2.payments
unfolding sort_by same text_leb decimal_from decimal traverse same_position same_seat seat_leb
    in_scope status_of run_transaction resolve_correlation_id audit enqueue classify_nothing_held
    on_sale find_fare to_held_seat is_candidate candidates enough has_class commit_hold auto_result
    hold_auto_seats requested_rows verdict row_of explain_chosen chosen_result hold_chosen_seats
    hold_seats booking_total map_passenger map_booking find_by_id find_by_reference passenger_rows
    insert_booking set_status cancel_row cancel is_due due_holds is_one_of expire_due_holds
    can_confirm confirm_row confirm_hold is_among hold_rows update_seats_of codes_of is_at
    is_passenger swap_seats change_locked change_passenger change_booking change_seat pair_seats
    seat_passengers event_passengers join_codes try_references created_audit created_event
    new_booking store_booking book_held after_hold create_transaction create_booking is_hold_lapsed
    effective_booking_status is_cancellation_window_open classify_not_cancelled cancel_condition
    to_stored_flight_status effective_flight_status is_bookable on_sale_sql flight_transitions
    transition_flight is_vnd_amount vnd add_money sum_from sum_money is_database_integer number_from
    parse_vnd_from_database parse_seat_position format_seat_position is_uuid moved is_in
    write_payments breaks_succeeded transition_rows transition is_processing_for start is_paid_for
    mark_refund_pending_for_cancelled_booking due_payments is_claimed claim_due reschedule is_key
    read_key claim_from claim update_one_key is_open_key is_open_for attach_payment complete
    complete_for_payment release is_expired_key same_key delete_completed_before to_stored_response
    answer declined_audit settle_declined refund_audit confirmed_audit confirmed_event_of
    after_confirm settle_charged can_start_payment is_same_money answer_key after_start start_for
    after_claim start_payment finish_payment
db2-PaymentOk = (
  record {
    positive = omega arith;
    exact = omega arith;
    token = refl;
    next_attempt = refl;
    reference = refl;
    reason = refl;
  },
  tt,
)

pub db2-in_flight : in_flight booking_id db2 ≤ 1
unfolding sort_by same text_leb decimal_from decimal traverse same_position same_seat seat_leb
    in_scope status_of run_transaction resolve_correlation_id audit enqueue classify_nothing_held
    on_sale find_fare to_held_seat is_candidate candidates enough has_class commit_hold auto_result
    hold_auto_seats requested_rows verdict row_of explain_chosen chosen_result hold_chosen_seats
    hold_seats booking_total map_passenger map_booking find_by_id find_by_reference passenger_rows
    insert_booking set_status cancel_row cancel is_due due_holds is_one_of expire_due_holds
    can_confirm confirm_row confirm_hold is_among hold_rows update_seats_of codes_of is_at
    is_passenger swap_seats change_locked change_passenger change_booking change_seat pair_seats
    seat_passengers event_passengers join_codes try_references created_audit created_event
    new_booking store_booking book_held after_hold create_transaction create_booking is_hold_lapsed
    effective_booking_status is_cancellation_window_open classify_not_cancelled cancel_condition
    to_stored_flight_status effective_flight_status is_bookable on_sale_sql flight_transitions
    transition_flight is_vnd_amount vnd add_money sum_from sum_money is_database_integer number_from
    parse_vnd_from_database parse_seat_position format_seat_position is_uuid moved is_in
    write_payments breaks_succeeded transition_rows transition is_processing_for start is_paid_for
    mark_refund_pending_for_cancelled_booking due_payments is_claimed claim_due reschedule is_key
    read_key claim_from claim update_one_key is_open_key is_open_for attach_payment complete
    complete_for_payment release is_expired_key same_key delete_completed_before to_stored_response
    answer declined_audit settle_declined refund_audit confirmed_audit confirmed_event_of
    after_confirm settle_charged can_start_payment is_same_money answer_key after_start start_for
    after_claim start_payment finish_payment
db2-in_flight = omega arith

single_payment : length db2.payments ≤ 1
unfolding sort_by same text_leb decimal_from decimal traverse same_position same_seat seat_leb
    in_scope status_of run_transaction resolve_correlation_id audit enqueue classify_nothing_held
    on_sale find_fare to_held_seat is_candidate candidates enough has_class commit_hold auto_result
    hold_auto_seats requested_rows verdict row_of explain_chosen chosen_result hold_chosen_seats
    hold_seats booking_total map_passenger map_booking find_by_id find_by_reference passenger_rows
    insert_booking set_status cancel_row cancel is_due due_holds is_one_of expire_due_holds
    can_confirm confirm_row confirm_hold is_among hold_rows update_seats_of codes_of is_at
    is_passenger swap_seats change_locked change_passenger change_booking change_seat pair_seats
    seat_passengers event_passengers join_codes try_references created_audit created_event
    new_booking store_booking book_held after_hold create_transaction create_booking is_hold_lapsed
    effective_booking_status is_cancellation_window_open classify_not_cancelled cancel_condition
    to_stored_flight_status effective_flight_status is_bookable on_sale_sql flight_transitions
    transition_flight is_vnd_amount vnd add_money sum_from sum_money is_database_integer number_from
    parse_vnd_from_database parse_seat_position format_seat_position is_uuid moved is_in
    write_payments breaks_succeeded transition_rows transition is_processing_for start is_paid_for
    mark_refund_pending_for_cancelled_booking due_payments is_claimed claim_due reschedule is_key
    read_key claim_from claim update_one_key is_open_key is_open_for attach_payment complete
    complete_for_payment release is_expired_key same_key delete_completed_before to_stored_response
    answer declined_audit settle_declined refund_audit confirmed_audit confirmed_event_of
    after_confirm settle_charged can_start_payment is_same_money answer_key after_start start_for
    after_claim start_payment finish_payment
single_payment = omega arith

pub db2-UniqueIds : UniqueIds db2.payments
db2-UniqueIds id = omega (arith, length-keep_le (λ p. same p.id id) db2.payments, single_payment)
