-- ===== src/Payments/Repository.antt =====
-- api/src/payments/postgres/postgres-payment-repository.ts.
pub mod Claimed
pub mod Checks
pub mod Writes
pub mod Single
pub mod Ids
use booking_flight_system_mi.Base.{
  ℕ, suc, ◌+◌, Bool, true, false, not, ◌&&◌, ◌||◌, Option, none, some, List, [], ◌∷◌, map, take,
  keep, any, sort_by, update_where, find_first, leb, ltb, ◌==◌, same, text_leb, if◌then◌else◌, Text,
  Result, ok, thrown, wrong_payment_status, unique_violation, foreign_key_violation,
  check_violation,
}
use booking_flight_system_mi.Money.{Money, max_safe_integer}
use booking_flight_system_mi.Bookings.Repository.Rows.{exists}
use booking_flight_system_mi.Store.{
  Database, Payment, PaymentStatus, processing, succeeded, failed, refund_pending, refunded,
  refund_failed, Transaction, find_booking,
}

abbrev pub status_number : PaymentStatus → ℕ
status_number processing = 0
status_number succeeded = 1
status_number failed = 2
status_number refund_pending = 3
status_number refunded = 4
status_number refund_failed = 5

abbrev pub is_status : PaymentStatus → Payment → Bool
is_status s p = status_number p.status == status_number s

abbrev pub find_payment : Text → List Payment → Option Payment
find_payment id = find_first (λ p. same p.id id)

abbrev pub coalesce : Option Text → Option Text → Option Text
coalesce none old = old
coalesce (some new) old = some new

abbrev pub due_at : PaymentStatus → ℕ → Option ℕ
due_at refund_pending now = some now
due_at _ now = none

-- The SET of `transition`.
unfoldable pub moved : PaymentStatus → ℕ → Option Text → Option Text → Payment → Payment
moved to now provider_reference failure_reason p = record p {
  status = to;
  updated_at = now;
  provider_reference = coalesce provider_reference p.provider_reference;
  failure_reason = coalesce failure_reason p.failure_reason;
  payment_method_token = none;
  next_attempt_at = due_at to now;
  attempts = 0;
}

-- `WHERE id = $1 AND status = $2`.
unfoldable pub is_in : Text → PaymentStatus → Payment → Bool
is_in id status p = same p.id id && is_status status p

-- An UPDATE of the rows that a condition selects.
unfoldable pub write_payments : (Payment → Bool) → (Payment → Payment) → Database → Database
write_payments p f db = record db { payments = update_where p f db.payments }

-- UQ_payments_booking_succeeded.
unfoldable pub breaks_succeeded : PaymentStatus → Text → List Payment → Bool
breaks_succeeded succeeded booking_id payments =
    any (λ p. same p.booking_id booking_id && is_status succeeded p) payments
breaks_succeeded _ booking_id payments = false

-- The rows that match: the statement throws on a second SUCCEEDED payment of a booking, and the
-- method throws unless exactly one row was updated.
unfoldable pub transition_rows :
    Text
    → PaymentStatus
    → PaymentStatus
    → (Payment → Payment)
    → List Payment
    → Transaction (Unit {0})
transition_rows id from to set [] db = thrown wrong_payment_status
transition_rows id from to set (p ∷ []) db =
    if breaks_succeeded to p.booking_id db.payments
    then thrown unique_violation
    else ok (write_payments (is_in id from) set db, tt)
transition_rows id from to set (p ∷ q ∷ rows) db = thrown wrong_payment_status

unfoldable pub transition :
    Text → PaymentStatus → PaymentStatus → ℕ → Option Text → Option Text → Transaction (Unit {0})
transition id from to now provider_reference failure_reason db =
    transition_rows id from to (moved to now provider_reference failure_reason)
      (keep (is_in id from) db.payments) db

pub data StartPaymentResult : Type 0 where
  started payment_in_progress : StartPaymentResult

pub record NewPayment : Type 0 where
  pub id : Text
  pub booking_id : Text
  pub account_id : Text
  pub amount : Money
  pub payment_method_token : Text
  pub next_attempt_at : ℕ
  pub created_at : ℕ

abbrev pub processing_payment : NewPayment → Payment
processing_payment n = record {
  id = n.id;
  booking_id = n.booking_id;
  account_id = n.account_id;
  amount = n.amount;
  status = processing;
  provider_reference = none;
  failure_reason = none;
  payment_method_token = some n.payment_method_token;
  attempts = 0;
  next_attempt_at = some n.next_attempt_at;
  created_at = n.created_at;
  updated_at = n.created_at;
}

unfoldable pub is_processing_for : Text → Payment → Bool
is_processing_for booking_id p = same p.booking_id booking_id && is_status processing p

-- CHK_payments_amount_positive and CHK_payments_amount_safe.
abbrev pub is_storable_amount : ℕ → Bool
is_storable_amount amount = leb 1 amount && leb amount max_safe_integer

-- The CHECK constraints come before the conflict with a payment in flight, which inserts nothing;
-- then the primary key and FK_payments_booking_id.
unfoldable pub start : NewPayment → Transaction StartPaymentResult
start n db =
    if is_storable_amount n.amount.amount
    then (if any (is_processing_for n.booking_id) db.payments
        then ok (db, payment_in_progress)
        else (if any (λ p. same p.id n.id) db.payments
            then thrown unique_violation
            else (if exists (find_booking n.booking_id db.bookings)
                then ok (record db { payments = processing_payment n ∷ db.payments }, started)
                else thrown foreign_key_violation)))
    else thrown check_violation

abbrev pub mark_succeeded : Text → Text → ℕ → Transaction (Unit {0})
mark_succeeded id provider_reference now =
    transition id processing succeeded now (some provider_reference) none

abbrev pub mark_failed : Text → Text → ℕ → Transaction (Unit {0})
mark_failed id reason now = transition id processing failed now none (some reason)

abbrev pub mark_refund_pending : Text → Text → ℕ → Transaction (Unit {0})
mark_refund_pending id provider_reference now =
    transition id processing refund_pending now (some provider_reference) none

abbrev pub mark_refunded : Text → ℕ → Transaction (Unit {0})
mark_refunded id now = transition id refund_pending refunded now none none

abbrev pub mark_refund_failed : Text → Text → ℕ → Transaction (Unit {0})
mark_refund_failed id reason now = transition id refund_pending refund_failed now none (some reason)

unfoldable pub is_paid_for : Text → Payment → Bool
is_paid_for booking_id p = same p.booking_id booking_id && is_status succeeded p

abbrev pub to_refund : ℕ → Payment → Payment
to_refund now p = record p {
  status = refund_pending;
  updated_at = now;
  next_attempt_at = some now;
  attempts = 0;
}

-- The row returned is the updated one.
abbrev returned : ℕ → Option Payment → Option Payment
returned now none = none
returned now (some p) = some (to_refund now p)

unfoldable pub mark_refund_pending_for_cancelled_booking : Text → ℕ → Transaction (Option Payment)
mark_refund_pending_for_cancelled_booking booking_id now db = ok (
  write_payments (is_paid_for booking_id) (to_refund now) db,
  returned now (find_first (is_paid_for booking_id) db.payments),
)

abbrev past : Option ℕ → ℕ → Bool
past none now = false
past (some t) now = leb t now

unfoldable pub is_due : ℕ → (Payment → Bool) → Payment → Bool
is_due now locked p =
    (is_status processing p || is_status refund_pending p)
    && past p.next_attempt_at now
    && not (locked p)

abbrev next_of : Payment → ℕ
next_of p = elim p.next_attempt_at [ none ↦ 0 | some t ↦ t ]

-- ORDER BY next_attempt_at, id; ORDER BY id.
abbrev pub next_leb : Payment → Payment → Bool
next_leb p q = ltb (next_of p) (next_of q) || ((next_of p == next_of q) && text_leb p.id q.id)

abbrev id_leb : Payment → Payment → Bool
id_leb p q = text_leb p.id q.id

abbrev pub leased : ℕ → Payment → Payment
leased until p = record p { next_attempt_at = some until; attempts = suc p.attempts }

unfoldable pub due_payments : ℕ → ℕ → (Payment → Bool) → List Payment → List Payment
due_payments now limit locked payments =
    take limit (sort_by next_leb (keep (is_due now locked) payments))

-- `FROM due WHERE p."id" = due."id"`.
unfoldable pub is_claimed : List Payment → Payment → Bool
is_claimed due p = any (λ q. same q.id p.id) due

unfoldable pub claim_due : ℕ → ℕ → ℕ → (Payment → Bool) → Database → Database × List Payment
claim_due now lease_ms limit locked db =
    let due = due_payments now limit locked db.payments in
    (
      write_payments (is_claimed due) (leased (now + lease_ms)) db,
      sort_by id_leb (map (leased (now + lease_ms)) due),
    )

abbrev pub rescheduled : ℕ → Payment → Payment
rescheduled at p = record p { next_attempt_at = some at }

unfoldable pub reschedule : Text → PaymentStatus → ℕ → Transaction (Unit {0})
reschedule id status at db = elim (keep (is_in id status) db.payments) [
  | [] ↦ thrown wrong_payment_status
  | p ∷ [] ↦ ok (write_payments (is_in id status) (rescheduled at) db, tt)
  | p ∷ _ ∷ _ ↦ thrown wrong_payment_status
]
