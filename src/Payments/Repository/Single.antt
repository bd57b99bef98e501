-- ===== src/Payments/Repository/Single.antt =====
-- At most one payment of a booking is in flight.
use booking_flight_system_mi.Base.{
  ℕ, ◌+◌, ◌≤◌, ◌≡◌, refl, sym, subst, Bool, true, false, Option, none, some, List, [], ◌∷◌, keep,
  any, length, update_where, Bool-cases, inl, inr, Text, arith, ok, same_iff, and-left,
}
use booking_flight_system_mi.Store.{
  Database, Payment, PaymentStatus, processing, succeeded, failed, refund_pending, refunded,
  refund_failed,
}
use booking_flight_system_mi.Payments.Repository.{
  moved, write_payments, start, is_storable_amount, StartPaymentResult, NewPayment,
  processing_payment, is_processing_for, is_paid_for, to_refund,
  mark_refund_pending_for_cancelled_booking, claim_due, due_payments, is_claimed, leased,
  rescheduled,
}
use booking_flight_system_mi.Payments.Repository.Writes.{
  PaymentWrite, starts, succeeds, fails, owes, refunds, gives_up, cancels, claims, reschedules,
  transition-written, reschedule-written,
}

-- The payments of a booking that are in flight.
abbrev pub in_flight : Text → Database → ℕ
in_flight booking_id db = length (keep (is_processing_for booking_id) db.payments)

length-keep-update_where :
    {A : Type 0} (p sel : A → Bool) (f : A → A)
    → ((x : A) → p (f x) ≡ true → p x ≡ true)
    → (xs : List A) → length (keep p (update_where sel f xs)) ≤ length (keep p xs)
length-keep-update_where p sel f back [] = omega arith
length-keep-update_where p sel f back (x ∷ xs) =
    let rest = length-keep-update_where p sel f back xs in
    elim (Bool-cases (sel x)) [
      | inr n ↦ elim (Bool-cases (p x)) [ inl y ↦ rw (n, y) (omega arith) | inr m ↦ rw (n, m) rest ]
      | inl chosen ↦ elim (Bool-cases (p (f x))) [
        | inl y ↦ rw (chosen, y, back x y) (omega arith)
        | inr m ↦ elim (Bool-cases (p x)) [
          | inl y ↦ rw (chosen, m, y) (omega arith)
          | inr k ↦ rw (chosen, m, k) rest
        ]
      ]
    ]

write-in_flight :
    (booking_id : Text) (sel : Payment → Bool) (f : Payment → Payment) (db db' : Database)
    → ((p : Payment)
        → is_processing_for booking_id (f p) ≡ true
        → is_processing_for booking_id p ≡ true)
    → db' ≡ write_payments sel f db
    → in_flight booking_id db' ≤ in_flight booking_id db
unfolding write_payments
write-in_flight booking_id sel f db db' back e =
    rw e (length-keep-update_where (is_processing_for booking_id) sel f back db.payments)

is_open_status : PaymentStatus → Bool
is_open_status processing = true
is_open_status _ = false

moved_back :
    (booking_id : Text) (to : PaymentStatus) (now : ℕ) (reference reason : Option Text)
    → is_open_status to ≡ false
    → (p : Payment) → is_processing_for booking_id (moved to now reference reason p) ≡ true
    → is_processing_for booking_id p ≡ true
unfolding is_processing_for moved is_open_status
moved_back booking_id to now reference reason other p h = ground arith

to_refund_back :
    (booking_id : Text) (now : ℕ) (p : Payment)
    → is_processing_for booking_id (to_refund now p) ≡ true
    → is_processing_for booking_id p ≡ true
unfolding is_processing_for
to_refund_back booking_id now p h = ground arith

status_kept :
    (booking_id : Text) (p q : Payment)
    → q.booking_id ≡ p.booking_id
    → q.status ≡ p.status
    → is_processing_for booking_id q ≡ true
    → is_processing_for booking_id p ≡ true
unfolding is_processing_for
status_kept booking_id p q e k h = rw (← e, ← k) h

any-length-keep :
    {A : Type 0} (p : A → Bool) (xs : List A) → any p xs ≡ false → length (keep p xs) ≡ 0
any-length-keep p [] h = refl
any-length-keep p (x ∷ xs) h = elim (Bool-cases (p x)) [
  | inl y ↦ absurd (ground arith)
  | inr n ↦ rw n (any-length-keep p xs (ground arith))
]

is_processing_for-booking :
    (booking_id : Text) (p : Payment)
    → is_processing_for booking_id p ≡ true
    → p.booking_id ≡ booking_id
unfolding is_processing_for
is_processing_for-booking booking_id p h = (same_iff p.booking_id booking_id).0 (and-left _ _ h)

start-in_flight :
    (booking_id : Text) (n : NewPayment) (r : StartPaymentResult) (db db' : Database)
    → start n db ≡ ok (db', r)
    → in_flight booking_id db ≤ 1
    → in_flight booking_id db' ≤ 1
unfolding start
start-in_flight booking_id n r db db' e h =
    let storable : is_storable_amount n.amount.amount ≡ true = ground arith in
    elim (Bool-cases (any (is_processing_for n.booking_id) db.payments)) [
      | inl busy ↦ let same_db : db' ≡ db = ground arith in rw same_db h
      | inr alone ↦
          let added : db'.payments ≡ processing_payment n ∷ db.payments = ground arith in
          elim (Bool-cases (is_processing_for booking_id (processing_payment n))) [
            | inr other ↦ rw (added, other) h
            | inl its ↦
                let its_booking : n.booking_id ≡ booking_id =
                  is_processing_for-booking booking_id (processing_payment n) its in
                rw (added, its)
                  (rw
                    (any-length-keep (is_processing_for booking_id) db.payments (
                      subst (λ b. any (is_processing_for b) db.payments ≡ false) its_booking alone))
                    (omega arith))
          ]
    ]

-- Every write of the repository keeps at most one PROCESSING payment of a booking.
pub PaymentWrite-in_flight :
    {db db' : Database}
    → PaymentWrite db db'
    → (booking_id : Text) → in_flight booking_id db ≤ 1
    → in_flight booking_id db' ≤ 1
unfolding mark_refund_pending_for_cancelled_booking claim_due is_open_status
PaymentWrite-in_flight {db} {db'} (starts n r e) b h = start-in_flight b n r db db' e h
PaymentWrite-in_flight {db} {db'} (succeeds id reference now e) b h = omega (
  arith,
  h,
  write-in_flight b _ _ db db' (moved_back b succeeded now (some reference) none refl)
      (transition-written id processing succeeded now (some reference) none db db' e),
)
PaymentWrite-in_flight {db} {db'} (fails id reason now e) b h = omega (
  arith,
  h,
  write-in_flight b _ _ db db' (moved_back b failed now none (some reason) refl)
      (transition-written id processing failed now none (some reason) db db' e),
)
PaymentWrite-in_flight {db} {db'} (owes id reference now e) b h = omega (
  arith,
  h,
  write-in_flight b _ _ db db' (moved_back b refund_pending now (some reference) none refl)
      (transition-written id processing refund_pending now (some reference) none db db' e),
)
PaymentWrite-in_flight {db} {db'} (refunds id now e) b h = omega (
  arith,
  h,
  write-in_flight b _ _ db db' (moved_back b refunded now none none refl)
      (transition-written id refund_pending refunded now none none db db' e),
)
PaymentWrite-in_flight {db} {db'} (gives_up id reason now e) b h = omega (
  arith,
  h,
  write-in_flight b _ _ db db' (moved_back b refund_failed now none (some reason) refl)
      (transition-written id refund_pending refund_failed now none (some reason) db db' e),
)
PaymentWrite-in_flight {db} {db'} (cancels booking_id now p e) b h = omega (
  arith,
  h,
  write-in_flight b (is_paid_for booking_id) (to_refund now) db db' (to_refund_back b now)
      (ground arith),
)
PaymentWrite-in_flight {db} {db'} (claims now lease_ms limit locked e) b h = omega (
  arith,
  h,
  write-in_flight b (is_claimed (due_payments now limit locked db.payments))
      (leased (now + lease_ms)) db db' (λ p. status_kept b p (leased (now + lease_ms) p) refl refl)
      (sym e),
)
PaymentWrite-in_flight {db} {db'} (reschedules id status at which e) b h = omega (
  arith,
  h,
  write-in_flight b _ _ db db' (λ p. status_kept b p (rescheduled at p) refl refl)
      (reschedule-written id status at db db' e),
)
