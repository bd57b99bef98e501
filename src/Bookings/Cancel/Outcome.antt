-- ===== src/Bookings/Cancel/Outcome.antt =====
-- A cancelled booking and its money, in one transaction.
use booking_flight_system_mi.Base.{
  ℕ, ◌≡◌, refl, sym, ap, ◌∙◌, subst, Bool, false, Option, none, some, List, [], ◌∷◌, ◌++◌, any,
  find_first, update_where, Text, Result, ok, thrown, not_read_back, Bool-cases, Option-cases,
  Result-cases, inl, inr, arith,
}
use booking_flight_system_mi.Store.{
  Database, Payment, Booking, BookingAccessScope, AuditEntry, audit, enqueue, StartedRefund,
  booking_cancelled_queue,
}
use booking_flight_system_mi.Bookings.Repository.Rows.{
  CancelResult, cancel_done, cancel_refused, cancel_not_found, cancel, find_by_id,
}
use booking_flight_system_mi.Payments.Repository.{
  is_paid_for, to_refund, mark_refund_pending_for_cancelled_booking, write_payments,
}
use booking_flight_system_mi.Bookings.Cancel.{
  CancelBookingResult, cancelled_booking, not_cancelled, Cancelling, started_refund,
  cancelled_audit, refund_started_audit, audit_refund, cancelled_event_of, announce_cancelled,
  after_cancel, cancel_transaction,
}
use booking_flight_system_mi.Bookings.Repository.Invariant.{Consistent}
use booking_flight_system_mi.Bookings.Repository.Invariant.Preserved.{cancel-Consistent}
use booking_flight_system_mi.Bookings.Cancel.Row.{RowCancelled, cancel-done, cancel-refused}

abbrev refund_entries : Cancelling → Text → Text → Option Payment → List AuditEntry
refund_entries c id account_id none = []
refund_entries c id account_id (some p) = refund_started_audit c id account_id p ∷ []

-- The payment that a cancellation refunds, as it is afterwards.
abbrev pub owed : Text → ℕ → List Payment → Option Payment
owed id now payments = elim (find_first (is_paid_for id) payments) [
  | none ↦ none
  | some p ↦ some (to_refund now p)
]

-- What a cancellation leaves behind.
pub record BookingCancelled (c : Cancelling) (id : Text) (scope : BookingAccessScope)
    (account_id : Text) (db db' : Database) (b : Booking) (refund : Option StartedRefund)
    : Type 0 where
  pub flight_id : Text
  pub reference : Text
  pub codes : List Text
  pub released : Database
  pub row : RowCancelled id scope c.now db released flight_id reference codes
  pub its_step : cancel id scope c.now db ≡ ok (released, cancel_done flight_id reference codes)
  pub its_refund : refund ≡ started_refund (owed id c.now db.payments)
  pub final : db' ≡ record released {
    payments = update_where (is_paid_for id) (to_refund c.now) db.payments;
    audit_log =
        refund_entries c id account_id (owed id c.now db.payments)
        ++ cancelled_audit c id account_id flight_id refund ∷ db.audit_log;
    outbox =
        record {
          id = c.outbox_id;
          event_type = booking_cancelled_queue;
          payload = cancelled_event_of c id reference flight_id codes refund;
          created_at = c.now;
          published = false;
        }
        ∷ db.outbox;
  }
  pub read : find_by_id id scope db' ≡ ok (some b)
  pub none_paid : any (is_paid_for id) db'.payments ≡ false

any-update_where :
    {A : Type 0} (p : A → Bool) (f : A → A)
    → ((x : A) → p (f x) ≡ false)
    → (xs : List A) → any p (update_where p f xs) ≡ false
any-update_where p f out [] = refl
any-update_where p f out (x ∷ xs) = elim (Bool-cases (p x)) [
  | inl y ↦ rw (y, out x) (any-update_where p f out xs)
  | inr n ↦ rw (n, n) (any-update_where p f out xs)
]

to_refund_unpaid : (id : Text) (now : ℕ) (p : Payment) → is_paid_for id (to_refund now p) ≡ false
unfolding is_paid_for
to_refund_unpaid id now p = ground arith

-- The outcome of a cancellation.
abbrev pub CancelOutcome :
    Cancelling
    → Text
    → BookingAccessScope
    → Text
    → Database
    → Database
    → CancelBookingResult
    → Type 0
CancelOutcome c id scope account_id db db' (cancelled_booking b refund) =
    BookingCancelled c id scope account_id db db' b refund
CancelOutcome c id scope account_id db db' (not_cancelled r) =
    (db' ≡ db) × (cancel id scope c.now db ≡ ok (db, r))

fetch_back :
    Result (Option Booking)
    → Option StartedRefund
    → Database
    → Result (Database × CancelBookingResult)
fetch_back (ok none) refund db = thrown not_read_back
fetch_back (ok (some b)) refund db = ok (db, cancelled_booking b refund)
fetch_back (thrown e) refund db = thrown e

final_tables :
    Cancelling → Text → Text → Text → Text → List Text → Option Payment → Database → Database
final_tables c id account_id flight_id reference codes payment db = record db {
  audit_log =
      refund_entries c id account_id payment
      ++ cancelled_audit c id account_id flight_id (started_refund payment) ∷ db.audit_log;
  outbox =
      record {
        id = c.outbox_id;
        event_type = booking_cancelled_queue;
        payload = cancelled_event_of c id reference flight_id codes (started_refund payment);
        created_at = c.now;
        published = false;
      }
      ∷ db.outbox;
}

announce_cancelled-final :
    (c : Cancelling) (id : Text) (scope : BookingAccessScope)
    (account_id flight_id reference : Text) (codes : List Text) (payment : Option Payment)
    (db : Database)
    → announce_cancelled c id scope account_id flight_id reference codes payment db
      ≡ fetch_back
          (find_by_id id scope (final_tables c id account_id flight_id reference codes payment db))
          (started_refund payment)
          (final_tables c id account_id flight_id reference codes payment db)
unfolding announce_cancelled audit audit_refund enqueue cancelled_event_of final_tables fetch_back
announce_cancelled-final c id scope account_id flight_id reference codes none db = ground arith
announce_cancelled-final c id scope account_id flight_id reference codes (some p) db = ground arith

fetch_back_found :
    (r : Result (Option Booking)) (refund : Option StartedRefund) (db db' : Database)
    (x : CancelBookingResult)
    → fetch_back r refund db ≡ ok (db', x)
    → (b : Booking) × (r ≡ ok (some b)) × (x ≡ cancelled_booking b refund) × (db' ≡ db)
unfolding fetch_back
fetch_back_found (ok none) refund db db' x e = absurd (cc)
fetch_back_found (ok (some b)) refund db db' x e = (b, refl, ground arith, ground arith)
fetch_back_found (thrown t) refund db db' x e = absurd (cc)

paid_moved :
    (id : Text) (now : ℕ) (db : Database)
    → mark_refund_pending_for_cancelled_booking id now db
      ≡ ok (write_payments (is_paid_for id) (to_refund now) db, owed id now db.payments)
unfolding mark_refund_pending_for_cancelled_booking
paid_moved id now db = elim (Option-cases (find_first (is_paid_for id) db.payments)) [
  | inl missing ↦ ground arith
  | inr (p, found) ↦ ground arith
]

after_cancel-final :
    (c : Cancelling) (id : Text) (scope : BookingAccessScope)
    (account_id flight_id reference : Text) (codes : List Text) (db : Database)
    → after_cancel c id scope account_id (cancel_done flight_id reference codes) db
      ≡ announce_cancelled c id scope account_id flight_id reference codes
          (owed id c.now db.payments)
          (write_payments (is_paid_for id) (to_refund c.now) db)
unfolding after_cancel
after_cancel-final c id scope account_id flight_id reference codes db =
    let moved = paid_moved id c.now db in ground arith

done-outcome :
    (c : Cancelling) (id : Text) (scope : BookingAccessScope)
    (account_id flight_id reference : Text) (codes : List Text) (db released db' : Database)
    (r : CancelBookingResult)
    → cancel id scope c.now db ≡ ok (released, cancel_done flight_id reference codes)
    → RowCancelled id scope c.now db released flight_id reference codes
    → released.payments ≡ db.payments
    → released.audit_log ≡ db.audit_log
    → released.outbox ≡ db.outbox
    → after_cancel c id scope account_id (cancel_done flight_id reference codes) released
      ≡ ok (db', r)
    → CancelOutcome c id scope account_id db db' r
unfolding final_tables write_payments
done-outcome c id scope account_id flight_id reference codes db released db' r step row pays log box
      e =
    let paid = owed id c.now db.payments in
    let (b, read, told, final) = fetch_back_found _ (started_refund paid) _ db' r (
      sym (
        announce_cancelled-final c id scope account_id flight_id reference codes paid
          (write_payments (is_paid_for id) (to_refund c.now) released))
      ∙ sym (
          subst
            (λ ps.
              after_cancel c id scope account_id (cancel_done flight_id reference codes) released
              ≡ announce_cancelled c id scope account_id flight_id reference codes
                  (owed id c.now ps) (write_payments (is_paid_for id) (to_refund c.now) released))
            pays (after_cancel-final c id scope account_id flight_id reference codes released))
      ∙ e) in
    rw told (record {
      flight_id = flight_id;
      reference = reference;
      codes = codes;
      released = released;
      row = row;
      its_step = step;
      its_refund = refl;
      final = final ∙ rw (pays, log, box) refl;
      read = rw final read;
      none_paid =
          rw (final, pays)
            (any-update_where (is_paid_for id) (to_refund c.now) (to_refund_unpaid id c.now)
              db.payments);
    })

refused-outcome :
    (c : Cancelling) (id : Text) (scope : BookingAccessScope) (account_id : Text)
    (db db' : Database) (r : CancelBookingResult) (refusal : CancelResult)
    → cancel id scope c.now db ≡ ok (db, refusal)
    → ◌≡◌ {A = Result (Database × CancelBookingResult)}
        (ok (db, not_cancelled refusal))
        (ok (db', r))
    → CancelOutcome c id scope account_id db db' r
refused-outcome c id scope account_id db db' (not_cancelled x) refusal step e =
    let told : refusal ≡ x = ground arith in
    (ground arith, subst (λ a. cancel id scope c.now db ≡ ok (db, a)) told step)
refused-outcome c id scope account_id db db' (cancelled_booking b refund) refusal step e =
    absurd (ground arith)

-- A cancellation that commits either returns the very answer that the repository's `cancel` gives on
-- these tables, a refusal that leaves every table as it was, or it cancelled a booking in the caller's scope before its deadline: the booking is
-- CANCELLED, its seats are free, and its SUCCEEDED payment, if there was one, is REFUND_PENDING and
-- due at once, so that no SUCCEEDED payment of the booking is left; the refund is in the answer, in
-- the event and, as an entry of its own, in the audit log.
pub cancel_transaction-outcome :
    (c : Cancelling) (id : Text) (scope : BookingAccessScope) (account_id : Text)
    (db db' : Database) (r : CancelBookingResult)
    → cancel_transaction c id scope account_id db ≡ ok (db', r)
    → CancelOutcome c id scope account_id db db' r
unfolding cancel_transaction after_cancel
cancel_transaction-outcome c id scope account_id db db' r e =
    elim (Result-cases (cancel id scope c.now db)) [
      | inr (x, n) ↦ absurd (ground arith)
      | inl ((db1, cancel_done flight_id reference codes), y) ↦
          let row = cancel-done id scope c.now db db1 flight_id reference codes y in
          done-outcome c id scope account_id flight_id reference codes db db1 db' r y row
            (ap (λ d. d.payments) row.final) (ap (λ d. d.audit_log) row.final)
            (ap (λ d. d.outbox) row.final) (ground arith)
      | inl ((db1, cancel_refused x), y) ↦
          let unchanged = cancel-refused id scope c.now db db1 (cancel_refused x) refl y in
          refused-outcome c id scope account_id db db' r (cancel_refused x)
            (subst (λ d. cancel id scope c.now db ≡ ok (d, cancel_refused x)) unchanged y)
            (ground arith)
      | inl ((db1, cancel_not_found), y) ↦
          let unchanged = cancel-refused id scope c.now db db1 cancel_not_found refl y in
          refused-outcome c id scope account_id db db' r cancel_not_found
            (subst (λ d. cancel id scope c.now db ≡ ok (d, cancel_not_found)) unchanged y)
            (ground arith)
    ]

outcome-Consistent :
    (c : Cancelling) (id : Text) (scope : BookingAccessScope) (account_id : Text)
    (db db' : Database) (r : CancelBookingResult)
    → CancelOutcome c id scope account_id db db' r
    → Consistent db
    → Consistent db'
outcome-Consistent c id scope account_id db db' (not_cancelled r) h k = subst Consistent (sym h.0) k
outcome-Consistent c id scope account_id db db' (cancelled_booking b refund) h k =
    subst Consistent (sym h.final) (
      cancel-Consistent id scope c.now db h.released (cancel_done h.flight_id h.reference h.codes)
        h.its_step k)

pub cancel_transaction-Consistent :
    (c : Cancelling) (id : Text) (scope : BookingAccessScope) (account_id : Text)
    (db db' : Database) (r : CancelBookingResult)
    → cancel_transaction c id scope account_id db ≡ ok (db', r)
    → Consistent db
    → Consistent db'
cancel_transaction-Consistent c id scope account_id db db' r e =
    outcome-Consistent c id scope account_id db db' r
      (cancel_transaction-outcome c id scope account_id db db' r e)
