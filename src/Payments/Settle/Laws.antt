-- ===== src/Payments/Settle/Laws.antt =====
-- What a settlement leaves behind once the gateway has charged or declined.
use booking_flight_system_mi.Base.{
  ℕ, ◌≡◌, refl, sym, ◌∙◌, subst, false, none, some, List, ◌∷◌, update_where, inl, inr, Text, arith,
  ok, Result-cases, traverse,
}
use booking_flight_system_mi.Bookings.Lifecycle.{confirmed}
use booking_flight_system_mi.Bookings.Repository.Seats.{update_seats_of, book_seat}
use booking_flight_system_mi.Bookings.Repository.Rows.{
  hold_confirmed, not_payable, confirm_hold, set_status, map_booking,
}
use booking_flight_system_mi.Bookings.Repository.Invariant.{Consistent}
use booking_flight_system_mi.Bookings.Repository.Invariant.Preserved.{confirm_hold-Consistent}
use booking_flight_system_mi.Store.{
  Database, Payment, processing, succeeded, failed, refund_pending, Booking, BookingRow, owner,
  StoredResponse, find_booking, is_id, audit, enqueue, EventPassenger, refunded_meanwhile,
  booking_confirmed_queue,
}
use booking_flight_system_mi.Payments.Repository.{
  is_in, moved, mark_succeeded, mark_refund_pending, mark_failed, write_payments,
}
use booking_flight_system_mi.Payments.Repository.Writes.{transition-written}
use booking_flight_system_mi.Payments.Keys.{
  update_one_key, complete_for_payment, is_open_for, completed_key,
}
use booking_flight_system_mi.Bookings.Repository.Rows.Confirmed.{
  Payable, can_confirm-Payable, Payable-can_confirm, HoldConfirmed, confirm_hold-confirmed,
  confirm_hold-not_payable, confirmed_again,
}
use booking_flight_system_mi.Payments.Keys.Replay.{update_one_key-written}
use booking_flight_system_mi.Payments.Settle.{
  Settling, PaymentDecision, confirmed_decision, declined_decision, not_payable_decision,
  to_stored_response, answer, settle_declined, settle_charged, after_confirm, declined_audit,
  declined_payment, refund_audit, confirmed_audit, confirmed_event_of, paid, event_passenger,
}

-- The writes of a settlement that answers with `decision`, apart from the business rows.
pub answer-written :
    (p : Payment) (decision : PaymentDecision) (now : ℕ) (db db' : Database)
    (response : StoredResponse)
    → answer p decision now db ≡ ok (db', response)
    → (response ≡ to_stored_response decision)
      × (db' ≡ record db {
        keys =
            update_where
              (is_open_for p.id)
              (completed_key (to_stored_response decision) now)
              db.keys;
      })
unfolding answer complete_for_payment
answer-written p decision now db db' response e =
    elim (Result-cases
      (update_one_key (is_open_for p.id) (completed_key (to_stored_response decision) now) db)) [
        | inr (x, n) ↦ absurd (ground arith)
        | inl ((db'', u), y) ↦
            let final : db'' ≡ db' = ground arith in
            (ground arith, sym final ∙ update_one_key-written _ _ db db'' y)
      ]

-- What a charge that was settled leaves behind: the booking it paid for, confirmed, or a payment to
-- refund.
pub data ChargeOutcome (s : Settling) (p : Payment) (reference : Text) (db db' : Database)
    (response : StoredResponse) : Type 0 where
  ticketed :
      (row : BookingRow) (b : Booking) (passengers : List EventPassenger)
      → find_booking p.booking_id db.bookings ≡ some row
      → Payable p.account_id s.now row
      → map_booking db.passengers (record row { status = confirmed }) ≡ ok b
      → traverse event_passenger b.passengers ≡ ok passengers
      → (response ≡ to_stored_response (confirmed_decision b (paid reference s.now p)))
      → (db' ≡ record db {
        bookings = set_status row.id confirmed db.bookings;
        seats = update_seats_of (is_id row.id) book_seat db.seats;
        payments =
            update_where
              (is_in p.id processing)
              (moved succeeded s.now (some reference) none)
              db.payments;
        keys = update_where (is_open_for p.id) (completed_key response s.now) db.keys;
        audit_log = confirmed_audit s b p ∷ db.audit_log;
        outbox =
            record {
              id = s.outbox_id;
              event_type = booking_confirmed_queue;
              payload = confirmed_event_of s b p passengers;
              created_at = s.now;
              published = false;
            }
            ∷ db.outbox;
      })
      → ChargeOutcome s p reference db db' response
  refund_owed :
      (response ≡ to_stored_response (not_payable_decision refunded_meanwhile))
      → confirm_hold p.booking_id (owner p.account_id) s.now db ≡ ok (db, not_payable)
      → (db' ≡ record db {
        payments =
            update_where
              (is_in p.id processing)
              (moved refund_pending s.now (some reference) none)
              db.payments;
        keys = update_where (is_open_for p.id) (completed_key response s.now) db.keys;
        audit_log = refund_audit s reference p ∷ db.audit_log;
      })
      → ChargeOutcome s p reference db db' response

not_payable-outcome :
    (s : Settling) (p : Payment) (reference : Text) (db db' : Database) (response : StoredResponse)
    → confirm_hold p.booking_id (owner p.account_id) s.now db ≡ ok (db, not_payable)
    → after_confirm s p reference not_payable db ≡ ok (db', response)
    → ChargeOutcome s p reference db db' response
unfolding after_confirm audit write_payments
not_payable-outcome s p reference db db' response h e =
    elim (Result-cases (mark_refund_pending p.id reference s.now db)) [
      | inr (x, n) ↦ absurd (ground arith)
      | inl ((db1, u), y) ↦
          let written =
            transition-written p.id processing refund_pending s.now (some reference) none db db1
              y in
          let (said, final) =
            answer-written p (not_payable_decision refunded_meanwhile) s.now
              (record db1 { audit_log = refund_audit s reference p ∷ db1.audit_log }) db' response
              (ground arith) in
          refund_owed said h (rw (final, written, said) refl)
    ]

-- The last steps of a confirmation: the event and the stored answer.
announce-outcome :
    (s : Settling) (p : Payment) (reference : Text) (b : Booking) (db1 db2 db db' : Database)
    (response : StoredResponse)
    → HoldConfirmed p.booking_id (owner p.account_id) s.now db db1 b
    → db2 ≡ write_payments (is_in p.id processing) (moved succeeded s.now (some reference) none) db1
    → (passengers : List EventPassenger) → traverse event_passenger b.passengers ≡ ok passengers
    → answer p (confirmed_decision b (paid reference s.now p)) s.now (record db2 {
      audit_log = confirmed_audit s b p ∷ db2.audit_log;
      outbox =
          record {
            id = s.outbox_id;
            event_type = booking_confirmed_queue;
            payload = confirmed_event_of s b p passengers;
            created_at = s.now;
            published = false;
          }
          ∷ db2.outbox;
    })
      ≡ ok (db', response)
    → ChargeOutcome s p reference db db' response
unfolding write_payments
announce-outcome s p reference b db1 db2 db db' response h written passengers seated e =
    let (said, final) =
      answer-written p (confirmed_decision b (paid reference s.now p)) s.now _ db' response e in
    ticketed h.row b passengers h.found (can_confirm-Payable p.account_id s.now h.row h.payable)
      h.mapped seated said (rw (final, written, h.final, said) refl)

confirmed-outcome :
    (s : Settling) (p : Payment) (reference : Text) (b : Booking) (db1 db db' : Database)
    (response : StoredResponse)
    → HoldConfirmed p.booking_id (owner p.account_id) s.now db db1 b
    → after_confirm s p reference (hold_confirmed b) db1 ≡ ok (db', response)
    → ChargeOutcome s p reference db db' response
unfolding after_confirm audit enqueue confirmed_event_of
confirmed-outcome s p reference b db1 db db' response h e =
    elim (Result-cases (mark_succeeded p.id reference s.now db1)) [
      | inr (x, n) ↦ absurd (ground arith)
      | inl ((db2, u), y) ↦ elim (Result-cases (traverse event_passenger b.passengers)) [
        | inr (x, n) ↦ absurd (ground arith)
        | inl (passengers, seated) ↦
            announce-outcome s p reference b db1 db2 db db' response h
              (transition-written p.id processing succeeded s.now (some reference) none db1 db2 y)
              passengers seated (ground arith)
      ]
    ]

-- A settlement of a charge that commits has one of two outcomes. Either the booking that the
-- payment names was HELD, owned by the payer and before its deadline: then it is CONFIRMED, its
-- seats are BOOKED, the payment is SUCCEEDED with the provider's reference, and the answer stored
-- with the key is the one returned, next to one audit entry and one event. Or `confirmHold` refuses
-- it: then no booking and no seat changes, and the payment is REFUND_PENDING with that reference.
pub settle_charged-outcome :
    (s : Settling) (p : Payment) (reference : Text) (db db' : Database) (response : StoredResponse)
    → settle_charged s p reference db ≡ ok (db', response)
    → ChargeOutcome s p reference db db' response
unfolding settle_charged
settle_charged-outcome s p reference db db' response e =
    elim (Result-cases (confirm_hold p.booking_id (owner p.account_id) s.now db)) [
      | inr (x, n) ↦ absurd (ground arith)
      | inl ((db1, hold_confirmed b), y) ↦
          confirmed-outcome s p reference b db1 db db' response
            (confirm_hold-confirmed p.booking_id (owner p.account_id) s.now db db1 b y)
            (ground arith)
      | inl ((db1, not_payable), y) ↦
          let unchanged =
            confirm_hold-not_payable p.booking_id (owner p.account_id) s.now db db1 y in
          not_payable-outcome s p reference db db' response
            (subst
              (λ d. confirm_hold p.booking_id (owner p.account_id) s.now db ≡ ok (d, not_payable))
              unchanged y)
            (subst (λ d. after_confirm s p reference not_payable d ≡ ok (db', response)) unchanged
              (ground arith))
    ]

-- What a settlement of a declined charge leaves behind.
pub record DeclineOutcome (s : Settling) (p : Payment) (reason : Text) (db db' : Database)
    (response : StoredResponse) : Type 0 where
  pub said : response ≡ to_stored_response (declined_decision (declined_payment reason s.now p))
  pub written : db' ≡ record db {
    payments =
        update_where (is_in p.id processing) (moved failed s.now none (some reason)) db.payments;
    keys = update_where (is_open_for p.id) (completed_key response s.now) db.keys;
    audit_log = declined_audit s reason p ∷ db.audit_log;
  }

-- A settlement of a declined charge that commits changes no booking, no seat and no event: the
-- payment is FAILED with the reason, and the 402 answer stored with the key is the one returned.
pub settle_declined-outcome :
    (s : Settling) (p : Payment) (reason : Text) (db db' : Database) (response : StoredResponse)
    → settle_declined s p reason db ≡ ok (db', response)
    → DeclineOutcome s p reason db db' response
unfolding settle_declined audit write_payments
settle_declined-outcome s p reason db db' response e =
    elim (Result-cases (mark_failed p.id reason s.now db)) [
      | inr (x, n) ↦ absurd (ground arith)
      | inl ((db1, u), y) ↦
          let written =
            transition-written p.id processing failed s.now none (some reason) db db1 y in
          let (said, final) =
            answer-written p (declined_decision (declined_payment reason s.now p)) s.now
              (record db1 { audit_log = declined_audit s reason p ∷ db1.audit_log }) db' response
              (ground arith) in
          record { said = said; written = rw (final, written, said) refl }
    ]

charge-Consistent :
    (s : Settling) (p : Payment) (reference : Text) (db db' : Database) (response : StoredResponse)
    → ChargeOutcome s p reference db db' response
    → Consistent db
    → Consistent db'
charge-Consistent s p reference db db' response (ticketed row b _ found payable mapped _ _ final)
      c =
    subst Consistent (sym final) (
      confirm_hold-Consistent p.booking_id (owner p.account_id) s.now db _ (hold_confirmed b)
        (confirmed_again p.booking_id (owner p.account_id) s.now db row b found
          (Payable-can_confirm p.account_id s.now row payable) mapped)
        c)
charge-Consistent s p reference db db' response (refund_owed _ _ final) c =
    subst Consistent (sym final) c

-- A settlement of a charge that commits keeps the seats in agreement with the bookings.
pub settle_charged-Consistent :
    (s : Settling) (p : Payment) (reference : Text) (db db' : Database) (response : StoredResponse)
    → settle_charged s p reference db ≡ ok (db', response)
    → Consistent db
    → Consistent db'
settle_charged-Consistent s p reference db db' response e =
    charge-Consistent s p reference db db' response
      (settle_charged-outcome s p reference db db' response e)
