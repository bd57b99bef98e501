-- ===== src/Tests/Later.antt =====
-- The sample booking after its payment: moved to another seat, and cancelled with its refund.
use booking_flight_system_mi.Base.{
  ◌≡◌, refl, none, some, Text, text, ok, sort_by, same, text_leb, decimal_from, decimal, traverse,
  [], ◌∷◌,
}
use booking_flight_system_mi.Store.{
  Database, Booking, owner, same_position, same_seat, seat_leb, in_scope, status_of,
  run_transaction, resolve_correlation_id, audit, enqueue,
}
use booking_flight_system_mi.Bookings.Repository.Hold.{
  classify_nothing_held, on_sale, find_fare, to_held_seat, is_candidate, candidates, enough,
  has_class, commit_hold, auto_result, hold_auto_seats, requested_rows, verdict, row_of,
  explain_chosen, chosen_result, hold_chosen_seats, hold_seats,
}
use booking_flight_system_mi.Bookings.Repository.Rows.{
  booking_total, map_passenger, map_booking, find_by_id, find_by_reference, passenger_rows,
  insert_booking, set_status, cancel_row, cancel, due_holds, is_one_of, expire_due_holds,
  can_confirm, confirm_row, confirm_hold,
}
use booking_flight_system_mi.Bookings.Repository.Seats.{
  is_among, hold_rows, update_seats_of, codes_of,
}
use booking_flight_system_mi.Bookings.Repository.Change.{
  changed, is_at, is_passenger, swap_seats, change_locked, change_passenger, change_booking,
  change_seat,
}
use booking_flight_system_mi.Bookings.Create.{
  pair_seats, seat_passengers, event_passengers, join_codes, try_references, created_audit,
  created_event, new_booking, store_booking, book_held, after_hold, create_transaction,
  create_booking,
}
use booking_flight_system_mi.Bookings.Lifecycle.{
  confirmed, is_hold_lapsed, effective_booking_status, is_cancellation_window_open,
  classify_not_cancelled, cancel_condition,
}
use booking_flight_system_mi.Flights.Lifecycle.{
  to_stored_flight_status, effective_flight_status, is_bookable, on_sale_sql, flight_transitions,
  transition_flight,
}
use booking_flight_system_mi.Money.{
  is_vnd_amount, vnd, add_money, sum_from, sum_money, is_database_integer, number_from,
  parse_vnd_from_database,
}
use booking_flight_system_mi.Aircraft.Position.{parse_seat_position, format_seat_position}
use booking_flight_system_mi.Payments.Repository.{
  moved, is_in, write_payments, breaks_succeeded, transition_rows, transition, is_processing_for,
  start, is_paid_for, mark_refund_pending_for_cancelled_booking, is_due, due_payments, is_claimed,
  claim_due, reschedule,
}
use booking_flight_system_mi.Payments.Keys.{
  is_key, read_key, claim_from, claim, update_one_key, is_open_key, is_open_for, attach_payment,
  complete, complete_for_payment, release, is_expired_key, same_key, delete_completed_before,
}
use booking_flight_system_mi.Payments.Settle.{
  to_stored_response, answer, declined_audit, settle_declined, refund_audit, confirmed_audit,
  confirmed_event_of, after_confirm, settle_charged,
}
use booking_flight_system_mi.Payments.Pay.{
  can_start_payment, is_same_money, answer_key, after_start, start_for, after_claim, start_payment,
  finish_payment,
}
use booking_flight_system_mi.Requests.{is_uuid}
use booking_flight_system_mi.Tests.Sample.{
  booking, booking_id, account_id, payment_id, seat_1b, tables_after, an,
}
use booking_flight_system_mi.Bookings.Cancel.{
  Cancelling, CancelBookingResult, cancelled_booking, cancelled_audit, refund_started_audit,
  audit_refund, cancelled_event_of, announce_cancelled, after_cancel, cancel_transaction,
  cancel_booking,
}
use booking_flight_system_mi.Bookings.Reseat.{
  Reseating, seat_set, reseat_audit, read_reseated, after_change, reseat_transaction, reseat,
}
use booking_flight_system_mi.Tests.Paid.{db3}
use booking_flight_system_mi.Store.{BookingPassenger}
use booking_flight_system_mi.Bookings.Lifecycle.{cancelled}

abbrev pub reseating : Reseating
reseating = record { audit_id = text "audit-4"; request_id = none; now = 4000 }

abbrev pub db_reseated : Database
db_reseated =
    tables_after db3
      (reseat_transaction reseating booking_id 1 seat_1b (owner account_id) account_id db3)

abbrev seat_text : Text → BookingPassenger → BookingPassenger
seat_text t p = record p { seat = some t }

abbrev pub moved_booking : Booking
moved_booking = record booking { status = confirmed; passengers = seat_text (text "1B") an ∷ [] }

pub reseated_sample :
    reseat_transaction reseating booking_id 1 seat_1b (owner account_id) account_id db3
    ≡ ok (db_reseated, seat_set (changed (text "1A") (text "1B")) moved_booking)
unfolding sort_by same text_leb decimal_from decimal traverse same_position same_seat seat_leb
    in_scope status_of run_transaction resolve_correlation_id audit enqueue classify_nothing_held
    on_sale find_fare to_held_seat is_candidate candidates enough has_class commit_hold auto_result
    hold_auto_seats requested_rows verdict row_of explain_chosen chosen_result hold_chosen_seats
    hold_seats booking_total map_passenger map_booking find_by_id find_by_reference passenger_rows
    insert_booking set_status cancel_row cancel is_due due_holds is_one_of expire_due_holds
    can_confirm confirm_row confirm_hold is_among hold_rows update_seats_of codes_of is_at
    is_passenger swap_seats change_locked change_passenger change_booking change_seat pair_seats
    seat_passengers event_passengers join_codes try_references created_audit created_event
    new_booking store_booking book_held after_hold create_transaction create_booking is_hold_lapsed
    effective_booking_status is_cancellation_window_open classify_not_cancelled cancel_condition
    to_stored_flight_status effective_flight_status is_bookable on_sale_sql flight_transitions
    transition_flight is_vnd_amount vnd add_money sum_from sum_money is_database_integer number_from
    parse_vnd_from_database parse_seat_position format_seat_position is_uuid moved is_in
    write_payments breaks_succeeded transition_rows transition is_processing_for start is_paid_for
    mark_refund_pending_for_cancelled_booking due_payments is_claimed claim_due reschedule is_key
    read_key claim_from claim update_one_key is_open_key is_open_for attach_payment complete
    complete_for_payment release is_expired_key same_key delete_completed_before to_stored_response
    answer declined_audit settle_declined refund_audit confirmed_audit confirmed_event_of
    after_confirm settle_charged can_start_payment is_same_money answer_key after_start start_for
    after_claim start_payment finish_payment reseat_audit read_reseated after_change
    reseat_transaction reseat
reseated_sample = refl

abbrev pub cancelling : Cancelling
cancelling = record {
  audit_id = text "audit-5";
  refund_audit_id = text "audit-6";
  outbox_id = text "event-5";
  request_id = none;
  now = 5000;
}

abbrev pub db_refunding : Database
db_refunding =
    tables_after db3 (cancel_transaction cancelling booking_id (owner account_id) account_id db3)

abbrev pub refunding_result : CancelBookingResult
refunding_result =
    cancelled_booking (record booking { status = cancelled })
      (some (record { payment_id = payment_id; amount = booking.total }))

pub refunding_sample :
    cancel_transaction cancelling booking_id (owner account_id) account_id db3
    ≡ ok (db_refunding, refunding_result)
unfolding sort_by same text_leb decimal_from decimal traverse same_position same_seat seat_leb
    in_scope status_of run_transaction resolve_correlation_id audit enqueue classify_nothing_held
    on_sale find_fare to_held_seat is_candidate candidates enough has_class commit_hold auto_result
    hold_auto_seats requested_rows verdict row_of explain_chosen chosen_result hold_chosen_seats
    hold_seats booking_total map_passenger map_booking find_by_id find_by_reference passenger_rows
    insert_booking set_status cancel_row cancel is_due due_holds is_one_of expire_due_holds
    can_confirm confirm_row confirm_hold is_among hold_rows update_seats_of codes_of is_at
    is_passenger swap_seats change_locked change_passenger change_booking change_seat pair_seats
    seat_passengers event_passengers join_codes try_references created_audit created_event
    new_booking store_booking book_held after_hold create_transaction create_booking is_hold_lapsed
    effective_booking_status is_cancellation_window_open classify_not_cancelled cancel_condition
    to_stored_flight_status effective_flight_status is_bookable on_sale_sql flight_transitions
    transition_flight is_vnd_amount vnd add_money sum_from sum_money is_database_integer number_from
    parse_vnd_from_database parse_seat_position format_seat_position is_uuid moved is_in
    write_payments breaks_succeeded transition_rows transition is_processing_for start is_paid_for
    mark_refund_pending_for_cancelled_booking due_payments is_claimed claim_due reschedule is_key
    read_key claim_from claim update_one_key is_open_key is_open_for attach_payment complete
    complete_for_payment release is_expired_key same_key delete_completed_before to_stored_response
    answer declined_audit settle_declined refund_audit confirmed_audit confirmed_event_of
    after_confirm settle_charged can_start_payment is_same_money answer_key after_start start_for
    after_claim start_payment finish_payment cancelled_audit refund_started_audit audit_refund
    cancelled_event_of announce_cancelled after_cancel cancel_transaction cancel_booking
refunding_sample = refl
