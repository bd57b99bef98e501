-- ===== src/Payments/Repository/Writes.antt =====
-- Every write to the payments, as a relation on the tables, and what all of them keep.
use booking_flight_system_mi.Base.{
  IsIn, All-IsIn, All-zip, ℕ, ◌+◌, ◌≡◌, sym, Bool, true, Option, none, some, List, [], ◌∷◌, All,
  All-update_where, Bool-cases, inl, inr, ◌⊎◌, Text, arith, ok, and-right, subst,
}
use booking_flight_system_mi.Store.{
  Database, Payment, PaymentStatus, processing, succeeded, failed, refund_pending, refunded,
  refund_failed,
}
use booking_flight_system_mi.Payments.Repository.{
  is_status, is_in, moved, write_payments, transition_rows, transition, start, StartPaymentResult,
  processing_payment, NewPayment, is_storable_amount, is_paid_for, to_refund,
  mark_refund_pending_for_cancelled_booking, claim_due, due_payments, leased, rescheduled,
  reschedule, mark_succeeded, mark_failed, mark_refund_pending, mark_refunded, mark_refund_failed,
  is_claimed,
}
use booking_flight_system_mi.Payments.Repository.Claimed.{UniqueIds, is_claimed-is_due}
use booking_flight_system_mi.Payments.Repository.Checks.{
  PaymentOk, succeeded_ok, failed_ok, pending_ok, refunded_ok, refund_failed_ok, to_refund_ok,
  leased_ok, rescheduled_ok,
}

-- One call of the repository that changes the payments, and returned.
pub data PaymentWrite (db db' : Database) : Type 0 where
  starts :
      (n : NewPayment) (r : StartPaymentResult) → start n db ≡ ok (db', r) → PaymentWrite db db'
  succeeds :
      (id reference : Text) (now : ℕ)
      → mark_succeeded id reference now db ≡ ok (db', tt)
      → PaymentWrite db db'
  fails :
      (id reason : Text) (now : ℕ)
      → mark_failed id reason now db ≡ ok (db', tt)
      → PaymentWrite db db'
  owes :
      (id reference : Text) (now : ℕ)
      → mark_refund_pending id reference now db ≡ ok (db', tt)
      → PaymentWrite db db'
  refunds : (id : Text) (now : ℕ) → mark_refunded id now db ≡ ok (db', tt) → PaymentWrite db db'
  gives_up :
      (id reason : Text) (now : ℕ)
      → mark_refund_failed id reason now db ≡ ok (db', tt)
      → PaymentWrite db db'
  cancels :
      (booking_id : Text) (now : ℕ) (p : Option Payment)
      → mark_refund_pending_for_cancelled_booking booking_id now db ≡ ok (db', p)
      → PaymentWrite db db'
  claims :
      (now lease_ms limit : ℕ) (locked : Payment → Bool)
      → (claim_due now lease_ms limit locked db).0 ≡ db'
      → PaymentWrite db db'
  reschedules :
      (id : Text) (status : PaymentStatus) (at : ℕ)
      → (status ≡ processing) ⊎ (status ≡ refund_pending)
      → reschedule id status at db ≡ ok (db', tt)
      → PaymentWrite db db'

rows-written :
    (id : Text) (from to : PaymentStatus) (set : Payment → Payment) (rows : List Payment)
    (db db' : Database)
    → transition_rows id from to set rows db ≡ ok (db', tt)
    → db' ≡ write_payments (is_in id from) set db
unfolding transition_rows
rows-written id from to set [] db db' e = absurd (cc)
rows-written id from to set (p ∷ []) db db' e = ground arith
rows-written id from to set (p ∷ q ∷ rows) db db' e = absurd (cc)

-- A transition that returned has moved the rows in the state that it leaves.
pub transition-written :
    (id : Text) (from to : PaymentStatus) (now : ℕ) (reference reason : Option Text)
    (db db' : Database)
    → transition id from to now reference reason db ≡ ok (db', tt)
    → db' ≡ write_payments (is_in id from) (moved to now reference reason) db
unfolding transition
transition-written id from to now reference reason db db' e =
    rows-written id from to (moved to now reference reason) _ db db' e

write-All :
    (sel : Payment → Bool) (f : Payment → Payment) (db db' : Database)
    → ((p : Payment) → sel p ≡ true → PaymentOk p → PaymentOk (f p))
    → db' ≡ write_payments sel f db
    → All PaymentOk db.payments
    → All PaymentOk db'.payments
unfolding write_payments
write-All sel f db db' keeps e h =
    subst (λ d. All PaymentOk d.payments) (sym e)
      (All-update_where PaymentOk PaymentOk sel f
        (λ p k. elim (Bool-cases (sel p)) [ inl y ↦ rw y (keeps p y k) | inr n ↦ rw n k ])
        db.payments h)

is_in-status :
    (id : Text) (status : PaymentStatus) (p : Payment)
    → is_in id status p ≡ true
    → is_status status p ≡ true
unfolding is_in
is_in-status id status p h = and-right _ _ h

is_paid_for-status :
    (booking_id : Text) (p : Payment)
    → is_paid_for booking_id p ≡ true
    → is_status succeeded p ≡ true
unfolding is_paid_for
is_paid_for-status booking_id p h = and-right _ _ h

-- A claim changes due payments only.
claim-All :
    (now until limit : ℕ) (locked : Payment → Bool) (db db' : Database)
    → UniqueIds db.payments
    → db'
      ≡ write_payments (is_claimed (due_payments now limit locked db.payments)) (leased until) db
    → All PaymentOk db.payments
    → All PaymentOk db'.payments
unfolding write_payments
claim-All now until limit locked db db' unique e h =
    let due = due_payments now limit locked db.payments in
    subst (λ d. All PaymentOk d.payments) (sym e)
      (All-update_where (λ p. PaymentOk p × IsIn p db.payments) PaymentOk (is_claimed due)
        (leased until)
        (λ p k. elim (Bool-cases (is_claimed due p)) [
          | inr n ↦ rw n k.0
          | inl y ↦ rw y (
              leased_ok now until locked p
                (is_claimed-is_due now limit locked db.payments unique p k.1 y) k.0)
        ])
        db.payments
        (All-zip PaymentOk (λ p. IsIn p db.payments) (λ p. PaymentOk p × IsIn p db.payments)
          (λ p a i. (a, i)) db.payments h (All-IsIn db.payments)))

start-All :
    (n : NewPayment) (r : StartPaymentResult) (db db' : Database)
    → start n db ≡ ok (db', r)
    → All PaymentOk db.payments
    → All PaymentOk db'.payments
unfolding start
start-All n r db db' e h =
    let storable : is_storable_amount n.amount.amount ≡ true = ground arith in
    let fresh : PaymentOk (processing_payment n) = ground arith in
    let either : (db'.payments ≡ db.payments)
        ⊎ (db'.payments ≡ processing_payment n ∷ db.payments) =
      ground arith in
    elim either [ inl same_rows ↦ rw same_rows h | inr added ↦ rw added (fresh, h) ]

pub reschedule-written :
    (id : Text) (status : PaymentStatus) (at : ℕ) (db db' : Database)
    → reschedule id status at db ≡ ok (db', tt)
    → db' ≡ write_payments (is_in id status) (rescheduled at) db
unfolding reschedule
reschedule-written id status at db db' e = ground arith

-- While ids are unique, every write keeps the CHECK constraints of every payment: an amount of 1 to 2^53 - 1, a payment method token exactly while
-- PROCESSING, a next attempt exactly while PROCESSING or REFUND_PENDING, the provider's reference
-- from SUCCEEDED or REFUND_PENDING on, and a reason for every FAILED one.
pub PaymentWrite-PaymentOk :
    {db db' : Database}
    → PaymentWrite db db'
    → UniqueIds db.payments
    → All PaymentOk db.payments
    → All PaymentOk db'.payments
unfolding mark_refund_pending_for_cancelled_booking claim_due
PaymentWrite-PaymentOk {db} {db'} (starts n r e) unique h = start-All n r db db' e h
PaymentWrite-PaymentOk {db} {db'} (succeeds id reference now e) unique h =
    write-All _ _ db db' (λ p y k. succeeded_ok now reference p k)
      (transition-written id processing succeeded now (some reference) none db db' e) h
PaymentWrite-PaymentOk {db} {db'} (fails id reason now e) unique h =
    write-All _ _ db db' (λ p y k. failed_ok now reason p k)
      (transition-written id processing failed now none (some reason) db db' e) h
PaymentWrite-PaymentOk {db} {db'} (owes id reference now e) unique h =
    write-All _ _ db db' (λ p y k. pending_ok now reference p k)
      (transition-written id processing refund_pending now (some reference) none db db' e) h
PaymentWrite-PaymentOk {db} {db'} (refunds id now e) unique h =
    write-All _ _ db db' (λ p y. refunded_ok now p (is_in-status id refund_pending p y))
      (transition-written id refund_pending refunded now none none db db' e) h
PaymentWrite-PaymentOk {db} {db'} (gives_up id reason now e) unique h =
    write-All _ _ db db' (λ p y. refund_failed_ok now reason p (is_in-status id refund_pending p y))
      (transition-written id refund_pending refund_failed now none (some reason) db db' e) h
PaymentWrite-PaymentOk {db} {db'} (cancels booking_id now p e) unique h =
    write-All (is_paid_for booking_id) (to_refund now) db db'
      (λ q y. to_refund_ok now q (is_paid_for-status booking_id q y)) (ground arith) h
PaymentWrite-PaymentOk {db} {db'} (claims now lease_ms limit locked e) unique h =
    claim-All now (now + lease_ms) limit locked db db' unique (sym e) h
PaymentWrite-PaymentOk {db} {db'} (reschedules id status at which e) unique h =
    write-All _ _ db db' (λ p y. rescheduled_ok at status p which (is_in-status id status p y))
      (reschedule-written id status at db db' e) h
