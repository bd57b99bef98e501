-- ===== src/Tests/Sample.antt =====
-- A small airline with one flight, and one booking that is made, paid, cancelled and expired.
use booking_flight_system_mi.Base.{
  true, ◌≤◌, keep, length, All, is_ok, arith, ℕ, ◌≡◌, refl, false, none, some, [], ◌∷◌, Text, text,
  Result, ok, thrown, sort_by, same, text_leb, decimal_from, decimal, traverse,
}
use booking_flight_system_mi.Store.{
  Database, economy, SeatRow, available, Booking, BookingPassenger, owner, HeldSeat, same_position,
  same_seat, seat_leb, in_scope, status_of, run_transaction, resolve_correlation_id, audit, enqueue,
}
use booking_flight_system_mi.Bookings.Validation.{CreateBookingInput, auto_seats}
use booking_flight_system_mi.Bookings.Repository.Hold.{
  auto, seats_held, classify_nothing_held, on_sale, find_fare, to_held_seat, is_candidate,
  candidates, enough, has_class, commit_hold, auto_result, hold_auto_seats, requested_rows, verdict,
  row_of, explain_chosen, chosen_result, hold_chosen_seats, hold_seats,
}
use booking_flight_system_mi.Bookings.Repository.Rows.{
  cancel_done, booking_total, map_passenger, map_booking, find_by_id, find_by_reference,
  passenger_rows, insert_booking, set_status, cancel_row, cancel, is_due, due_holds, is_one_of,
  expire_due_holds, can_confirm, confirm_row, confirm_hold,
}
use booking_flight_system_mi.Bookings.Repository.Seats.{
  is_among, hold_rows, update_seats_of, codes_of,
}
use booking_flight_system_mi.Bookings.Repository.Change.{
  is_at, is_passenger, swap_seats, change_locked, change_passenger, change_booking, change_seat,
}
use booking_flight_system_mi.Bookings.Create.{
  Drawn, booking_made, pair_seats, seat_passengers, event_passengers, join_codes, try_references,
  created_audit, created_event, new_booking, store_booking, book_held, after_hold,
  create_transaction, create_booking,
}
use booking_flight_system_mi.Bookings.Lifecycle.{
  held, is_hold_lapsed, effective_booking_status, is_cancellation_window_open,
  classify_not_cancelled, cancel_condition,
}
use booking_flight_system_mi.Flights.Lifecycle.{
  StoredFlightStatus, to_stored_flight_status, effective_flight_status, is_bookable, on_sale_sql,
  flight_transitions, transition_flight,
}
use booking_flight_system_mi.Money.{
  vnd_currency, is_vnd_amount, vnd, add_money, sum_from, sum_money, is_database_integer,
  number_from, parse_vnd_from_database,
}
use booking_flight_system_mi.Aircraft.Position.{
  SeatPosition, parse_seat_position, format_seat_position,
}

abbrev pub flight_id : Text
flight_id = text "00000000-0000-0000-0000-00000000000f"

abbrev pub booking_id : Text
booking_id = text "00000000-0000-0000-0000-00000000000b"

abbrev pub account_id : Text
account_id = text "00000000-0000-0000-0000-00000000000a"

abbrev pub payment_id : Text
payment_id = text "00000000-0000-0000-0000-00000000000d"

abbrev pub economy_seat : ℕ → SeatRow
economy_seat letter = record {
  flight_id = flight_id;
  position = record { row = 1; letter = letter };
  fare_class = economy;
  status = available;
  booking_id = none;
}

abbrev pub db0 : Database
db0 = record {
  flights =
      record {
        id = flight_id;
        flight_number = text "VN123";
        departure_at = 1000000000;
        status = StoredFlightStatus.open_;
      }
      ∷ [];
  fares = record { flight_id = flight_id; fare_class = economy; amount_vnd = 1500000 } ∷ [];
  seats = economy_seat b'A' ∷ economy_seat b'B' ∷ [];
  bookings = [];
  passengers = [];
  payments = [];
  keys = [];
  audit_log = [];
  outbox = [];
}

abbrev pub drawn : Drawn
drawn = record {
  booking_id = booking_id;
  reference = λ n. text "ABC234";
  audit_id = text "audit-1";
  outbox_id = text "event-1";
  request_id = none;
  now = 1000;
  locked = λ s. false;
}

abbrev pub input : CreateBookingInput
input = auto_seats economy (text "An" ∷ [])

-- The tables that a transaction leaves when it commits.
abbrev pub tables_after : {A : Type 0} → Database → Result (Database × A) → Database
tables_after db (ok (db', a)) = db'
tables_after db (thrown e) = db

abbrev pub an : BookingPassenger
an = record {
  name = text "An";
  seat = some (text "1A");
  fare_class = some economy;
  price = some (record { amount = 1500000; currency = vnd_currency });
}

abbrev pub booking : Booking
booking = record {
  id = booking_id;
  reference = text "ABC234";
  flight_id = flight_id;
  owner_account_id = account_id;
  passengers = an ∷ [];
  total = record { amount = 1500000; currency = vnd_currency };
  created_at = 1000;
  status = held;
  hold_expires_at = some 901000;
}

abbrev pub db1 : Database
db1 = tables_after db0 (create_transaction drawn flight_id account_id input db0)

pub created_sample :
    create_transaction drawn flight_id account_id input db0 ≡ ok (db1, booking_made booking)
unfolding sort_by same text_leb decimal_from decimal traverse same_position same_seat seat_leb
    in_scope status_of run_transaction resolve_correlation_id audit enqueue classify_nothing_held
    on_sale find_fare to_held_seat is_candidate candidates enough has_class commit_hold auto_result
    hold_auto_seats requested_rows verdict row_of explain_chosen chosen_result hold_chosen_seats
    hold_seats booking_total map_passenger map_booking find_by_id find_by_reference passenger_rows
    insert_booking set_status cancel_row cancel is_due due_holds is_one_of expire_due_holds
    can_confirm confirm_row confirm_hold is_among hold_rows update_seats_of codes_of is_at
    is_passenger swap_seats change_locked change_passenger change_booking change_seat pair_seats
    seat_passengers event_passengers join_codes try_references created_audit created_event
    new_booking store_booking book_held after_hold create_transaction create_booking is_hold_lapsed
    effective_booking_status is_cancellation_window_open classify_not_cancelled cancel_condition
    to_stored_flight_status effective_flight_status is_bookable on_sale_sql flight_transitions
    transition_flight is_vnd_amount vnd add_money sum_from sum_money is_database_integer number_from
    parse_vnd_from_database parse_seat_position format_seat_position
created_sample = refl

abbrev pub seat_1a : HeldSeat
seat_1a = record {
  seat = text "1A";
  fare_class = economy;
  price = record { amount = 1500000; currency = vnd_currency };
}

abbrev pub db_held : Database
db_held = tables_after db0 (hold_seats flight_id booking_id (auto 1 economy) 1000 (λ s. false) db0)

pub held_sample :
    hold_seats flight_id booking_id (auto 1 economy) 1000 (λ s. false) db0
    ≡ ok (db_held, seats_held (seat_1a ∷ []))
unfolding sort_by same text_leb decimal_from decimal traverse same_position same_seat seat_leb
    in_scope status_of run_transaction resolve_correlation_id audit enqueue classify_nothing_held
    on_sale find_fare to_held_seat is_candidate candidates enough has_class commit_hold auto_result
    hold_auto_seats requested_rows verdict row_of explain_chosen chosen_result hold_chosen_seats
    hold_seats booking_total map_passenger map_booking find_by_id find_by_reference passenger_rows
    insert_booking set_status cancel_row cancel is_due due_holds is_one_of expire_due_holds
    can_confirm confirm_row confirm_hold is_among hold_rows update_seats_of codes_of is_at
    is_passenger swap_seats change_locked change_passenger change_booking change_seat pair_seats
    seat_passengers event_passengers join_codes try_references created_audit created_event
    new_booking store_booking book_held after_hold create_transaction create_booking is_hold_lapsed
    effective_booking_status is_cancellation_window_open classify_not_cancelled cancel_condition
    to_stored_flight_status effective_flight_status is_bookable on_sale_sql flight_transitions
    transition_flight is_vnd_amount vnd add_money sum_from sum_money is_database_integer number_from
    parse_vnd_from_database parse_seat_position format_seat_position
held_sample = refl

abbrev pub db_cancelled : Database
db_cancelled = tables_after db1 (cancel booking_id (owner account_id) 2000 db1)

pub cancelled_sample :
    cancel booking_id (owner account_id) 2000 db1
    ≡ ok (db_cancelled, cancel_done flight_id (text "ABC234") (text "1A" ∷ []))
unfolding sort_by same text_leb decimal_from decimal traverse same_position same_seat seat_leb
    in_scope status_of run_transaction resolve_correlation_id audit enqueue classify_nothing_held
    on_sale find_fare to_held_seat is_candidate candidates enough has_class commit_hold auto_result
    hold_auto_seats requested_rows verdict row_of explain_chosen chosen_result hold_chosen_seats
    hold_seats booking_total map_passenger map_booking find_by_id find_by_reference passenger_rows
    insert_booking set_status cancel_row cancel is_due due_holds is_one_of expire_due_holds
    can_confirm confirm_row confirm_hold is_among hold_rows update_seats_of codes_of is_at
    is_passenger swap_seats change_locked change_passenger change_booking change_seat pair_seats
    seat_passengers event_passengers join_codes try_references created_audit created_event
    new_booking store_booking book_held after_hold create_transaction create_booking is_hold_lapsed
    effective_booking_status is_cancellation_window_open classify_not_cancelled cancel_condition
    to_stored_flight_status effective_flight_status is_bookable on_sale_sql flight_transitions
    transition_flight is_vnd_amount vnd add_money sum_from sum_money is_database_integer number_from
    parse_vnd_from_database parse_seat_position format_seat_position
cancelled_sample = refl

abbrev pub seat_1b : SeatPosition
seat_1b = record { row = 1; letter = b'B' }

pub selling_sample : on_sale flight_id 1000 db0 ≡ true
unfolding sort_by same text_leb decimal_from decimal traverse same_position same_seat seat_leb
    in_scope status_of run_transaction resolve_correlation_id audit enqueue classify_nothing_held
    on_sale find_fare to_held_seat is_candidate candidates enough has_class commit_hold auto_result
    hold_auto_seats requested_rows verdict row_of explain_chosen chosen_result hold_chosen_seats
    hold_seats booking_total map_passenger map_booking find_by_id find_by_reference passenger_rows
    insert_booking set_status cancel_row cancel is_due due_holds is_one_of expire_due_holds
    can_confirm confirm_row confirm_hold is_among hold_rows update_seats_of codes_of is_at
    is_passenger swap_seats change_locked change_passenger change_booking change_seat pair_seats
    seat_passengers event_passengers join_codes try_references created_audit created_event
    new_booking store_booking book_held after_hold create_transaction create_booking is_hold_lapsed
    effective_booking_status is_cancellation_window_open classify_not_cancelled cancel_condition
    to_stored_flight_status effective_flight_status is_bookable on_sale_sql flight_transitions
    transition_flight is_vnd_amount vnd add_money sum_from sum_money is_database_integer number_from
    parse_vnd_from_database parse_seat_position format_seat_position
selling_sample = refl

pub free_sample : 1 ≤ length (keep (is_candidate flight_id economy (λ s. false)) db0.seats)
unfolding sort_by same text_leb decimal_from decimal traverse same_position same_seat seat_leb
    in_scope status_of run_transaction resolve_correlation_id audit enqueue classify_nothing_held
    on_sale find_fare to_held_seat is_candidate candidates enough has_class commit_hold auto_result
    hold_auto_seats requested_rows verdict row_of explain_chosen chosen_result hold_chosen_seats
    hold_seats booking_total map_passenger map_booking find_by_id find_by_reference passenger_rows
    insert_booking set_status cancel_row cancel is_due due_holds is_one_of expire_due_holds
    can_confirm confirm_row confirm_hold is_among hold_rows update_seats_of codes_of is_at
    is_passenger swap_seats change_locked change_passenger change_booking change_seat pair_seats
    seat_passengers event_passengers join_codes try_references created_audit created_event
    new_booking store_booking book_held after_hold create_transaction create_booking is_hold_lapsed
    effective_booking_status is_cancellation_window_open classify_not_cancelled cancel_condition
    to_stored_flight_status effective_flight_status is_bookable on_sale_sql flight_transitions
    transition_flight is_vnd_amount vnd add_money sum_from sum_money is_database_integer number_from
    parse_vnd_from_database parse_seat_position format_seat_position
free_sample = omega arith

pub priced_sample : All (λ s. is_ok (to_held_seat db0.fares s) ≡ true) db0.seats
unfolding sort_by same text_leb decimal_from decimal traverse same_position same_seat seat_leb
    in_scope status_of run_transaction resolve_correlation_id audit enqueue classify_nothing_held
    on_sale find_fare to_held_seat is_candidate candidates enough has_class commit_hold auto_result
    hold_auto_seats requested_rows verdict row_of explain_chosen chosen_result hold_chosen_seats
    hold_seats booking_total map_passenger map_booking find_by_id find_by_reference passenger_rows
    insert_booking set_status cancel_row cancel is_due due_holds is_one_of expire_due_holds
    can_confirm confirm_row confirm_hold is_among hold_rows update_seats_of codes_of is_at
    is_passenger swap_seats change_locked change_passenger change_booking change_seat pair_seats
    seat_passengers event_passengers join_codes try_references created_audit created_event
    new_booking store_booking book_held after_hold create_transaction create_booking is_hold_lapsed
    effective_booking_status is_cancellation_window_open classify_not_cancelled cancel_condition
    to_stored_flight_status effective_flight_status is_bookable on_sale_sql flight_transitions
    transition_flight is_vnd_amount vnd add_money sum_from sum_money is_database_integer number_from
    parse_vnd_from_database parse_seat_position format_seat_position
priced_sample = (refl, (refl, tt))
