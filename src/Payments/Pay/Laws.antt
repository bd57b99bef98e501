-- ===== src/Payments/Pay/Laws.antt =====
-- When phase 1 starts a payment, and what it writes.
use booking_flight_system_mi.Base.{
  ◌+◌, ◌<◌, and-left, ==_iff, Option-cases, ℕ, ◌≡◌, refl, subst, sym, ◌∙◌, true, false, none, some,
  List, ◌∷◌, any, Bool-cases, inl, inr, Text, arith, ok, Result-cases, same,
}
use booking_flight_system_mi.Store.{Database, KeyRow, Payment, Booking, BookingAccessScope}
use booking_flight_system_mi.Money.{Money}
use booking_flight_system_mi.Bookings.Lifecycle.{held}
use booking_flight_system_mi.Bookings.Repository.Rows.{find_by_id, is_held}
use booking_flight_system_mi.Bookings.Repository.Rows.Held.{is_held-held}
use booking_flight_system_mi.Payments.Repository.{processing_payment, start, is_processing_for}
use booking_flight_system_mi.Payments.Keys.{
  KeyScope, ClaimResult, claimed, claim_in_progress, claim_completed, claim, attach_payment,
  complete, update_one_key, is_open_key, max_claim_attempts, release,
}
use booking_flight_system_mi.Payments.Keys.Replay.{update_one_key-written, claim_from-frame}
use booking_flight_system_mi.Payments.Settle.{
  PaymentDecision, to_stored_response, not_payable_decision, not_found_decision,
}
use booking_flight_system_mi.Payments.Pay.{
  Starting, PaymentRequest, payment_started, start_payment, after_claim, start_for, after_start,
  can_start_payment, is_same_money, new_payment, find_if_uuid, answer_key, key_scope,
  why_not_payable, find_if_uuid,
}

-- The booking that a payment was started for, and the rows that the start wrote.
pub record PaymentStarted (s : Starting) (booking_id : Text) (scope : BookingAccessScope)
    (account_id : Text) (request : PaymentRequest) (db db' : Database) (p : Payment) : Type 0 where
  pub booking : Booking
  pub found : find_if_uuid booking_id scope db ≡ ok (some booking)
  pub held_still : booking.status ≡ held
  pub deadline : ℕ
  pub its_deadline : booking.hold_expires_at ≡ some deadline
  pub in_time : s.now + 60000 < deadline
  pub agreed : request.amount.amount ≡ booking.total.amount
  pub its_payment : p ≡ processing_payment (new_payment s account_id request booking)
  pub alone : any (is_processing_for booking.id) db.payments ≡ false
  pub fresh_id : any (λ q. same q.id s.payment_id) db.payments ≡ false
  pub written : db' ≡ record db { payments = p ∷ db.payments; keys = db'.keys }

can_start_payment-held : (b : Booking) (now : ℕ) → can_start_payment b now ≡ true → b.status ≡ held
unfolding can_start_payment
can_start_payment-held b now h =
    let check : is_held b.status ≡ true = and-left _ _ h in is_held-held b.status check

can_start_payment-deadline :
    (b : Booking) (now : ℕ)
    → can_start_payment b now ≡ true
    → (deadline : ℕ) × (b.hold_expires_at ≡ some deadline) × (now + 60000 < deadline)
unfolding can_start_payment
can_start_payment-deadline b now h = elim (Option-cases b.hold_expires_at) [
  | inl missing ↦ absurd (ground arith)
  | inr (deadline, given) ↦ (deadline, given, ground arith)
]

is_same_money-amount : (l r : Money) → is_same_money l r ≡ true → l.amount ≡ r.amount
unfolding is_same_money
is_same_money-amount l r h = (==_iff l.amount r.amount).0 (and-left _ _ h)

answer_key_finishes :
    (scope : KeyScope) (key : Text) (decision : PaymentDecision) (now : ℕ) (db db' : Database)
    (p : Payment)
    → answer_key scope key decision now db ≡ ok (db', payment_started p)
    → ⊥
unfolding answer_key
answer_key_finishes scope key decision now db db' p e =
    elim (Result-cases (complete scope key (to_stored_response decision) now db)) [
      | inr (x, n) ↦ ground arith
      | inl (r, y) ↦ ground arith
    ]

started_for :
    (s : Starting) (account_id : Text) (request : PaymentRequest) (b : Booking) (db1 db' : Database)
    (p : Payment)
    → start_for s account_id request (some b) db1 ≡ ok (db', payment_started p)
    → (can_start_payment b s.now ≡ true)
      × (is_same_money request.amount b.total ≡ true)
      × (p ≡ processing_payment (new_payment s account_id request b))
      × (any (is_processing_for b.id) db1.payments ≡ false)
      × (any (λ q. same q.id s.payment_id) db1.payments ≡ false)
      × (db' ≡ record db1 { payments = p ∷ db1.payments; keys = db'.keys })
unfolding start_for start after_start attach_payment release
started_for s account_id request b db1 db' p e = elim (Bool-cases (can_start_payment b s.now)) [
  | inr refused ↦ absurd (
      answer_key_finishes (key_scope account_id) request.idempotency_key
        (not_payable_decision (why_not_payable b s.now)) s.now db1 db' p (ground arith))
  | inl payable ↦ elim (Bool-cases (is_same_money request.amount b.total)) [
    | inr refused ↦ absurd (ground arith)
    | inl agreed ↦ elim (Bool-cases (any (is_processing_for b.id) db1.payments)) [
      | inl busy ↦ absurd (ground arith)
      | inr alone ↦ elim (Bool-cases (any (λ q. same q.id s.payment_id) db1.payments)) [
        | inl taken ↦ absurd (ground arith)
        | inr fresh ↦
            elim (Result-cases (
              update_one_key (is_open_key (key_scope account_id) request.idempotency_key)
                (λ row. record row { payment_id = some s.payment_id })
                (record db1 {
                  payments = processing_payment (new_payment s account_id request b) ∷ db1.payments;
                }))) [
                  | inr (x, n) ↦ absurd (ground arith)
                  | inl ((db2, u), y) ↦
                      let keyed = update_one_key-written _ _ _ db2 y in
                      (payable, agreed, ground arith, alone, fresh, ground arith)
                ]
      ]
    ]
  ]
]

find_if_uuid_frame :
    (booking_id : Text) (scope : BookingAccessScope) (keys : List KeyRow) (db : Database)
    → find_if_uuid booking_id scope (record db { keys = keys }) ≡ find_if_uuid booking_id scope db
unfolding find_by_id
find_if_uuid_frame booking_id scope keys db = refl

after_claim-started :
    (s : Starting) (booking_id : Text) (scope : BookingAccessScope) (account_id : Text)
    (request : PaymentRequest) (r : ClaimResult) (keys : List KeyRow) (db db' : Database)
    (p : Payment)
    → after_claim s booking_id scope account_id request r (record db { keys = keys })
      ≡ ok (db', payment_started p)
    → PaymentStarted s booking_id scope account_id request db db' p
unfolding after_claim start_for
after_claim-started s booking_id scope account_id request claimed keys db db' p e =
    elim (Result-cases (find_if_uuid booking_id scope (record db { keys = keys }))) [
      | inr (x, n) ↦ absurd (ground arith)
      | inl (none, y) ↦ absurd (
          answer_key_finishes (key_scope account_id) request.idempotency_key not_found_decision
            s.now (record db { keys = keys }) db' p (ground arith))
      | inl (some b, y) ↦
          let (payable, agreed, its, alone, fresh, final) =
            started_for s account_id request b (record db { keys = keys }) db' p (ground arith) in
          record {
            booking = b;
            found = sym (find_if_uuid_frame booking_id scope keys db) ∙ y;
            held_still = can_start_payment-held b s.now payable;
            deadline = (can_start_payment-deadline b s.now payable).0;
            its_deadline = (can_start_payment-deadline b s.now payable).1;
            in_time = (can_start_payment-deadline b s.now payable).2;
            agreed = is_same_money-amount request.amount b.total agreed;
            its_payment = its;
            alone = alone;
            fresh_id = fresh;
            written = final;
          }
    ]
after_claim-started s booking_id scope account_id request (claim_in_progress f) keys db db' p e =
    absurd (ground arith)
after_claim-started s booking_id scope account_id request (claim_completed f response) keys db db' p
      e =
    absurd (ground arith)

-- Phase 1 starts a payment only for a booking in the caller's scope that is HELD with more than 60
-- seconds left and has no PROCESSING payment, and only if the caller agreed to its total. Then it
-- adds one PROCESSING payment with a new id, the caller's account and that total, and writes no
-- other table but the keys.
pub start_payment-started :
    (s : Starting) (booking_id : Text) (scope : BookingAccessScope) (account_id : Text)
    (request : PaymentRequest) (db db' : Database) (p : Payment)
    → start_payment s booking_id scope account_id request db ≡ ok (db', payment_started p)
    → PaymentStarted s booking_id scope account_id request db db' p
unfolding start_payment claim
start_payment-started s booking_id scope account_id request db db' p e =
    elim (Result-cases (
      claim s.others (key_scope account_id) request.idempotency_key request.fingerprint s.now db)) [
        | inr (x, n) ↦ absurd (ground arith)
        | inl ((db1, r), y) ↦
            let frame =
              claim_from-frame max_claim_attempts s.others (key_scope account_id)
                request.idempotency_key request.fingerprint s.now db db1 r y in
            after_claim-started s booking_id scope account_id request r db1.keys db db' p (
              subst
                (λ d.
                  after_claim s booking_id scope account_id request r d
                  ≡ ok (db', payment_started p))
                frame (ground arith))
      ]
