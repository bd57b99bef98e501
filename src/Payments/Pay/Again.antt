-- ===== src/Payments/Pay/Again.antt =====
-- The idempotency of phase 1: a request sent again gets the stored answer.
use booking_flight_system_mi.Base.{
  ℕ, ◌≡◌, refl, subst, sym, ◌∙◌, true, false, Option, none, some, if◌then◌else◌, Bool-cases, inl,
  inr, Text, arith, ok, Result-cases, same,
}
use booking_flight_system_mi.Store.{Database, KeyRow, Booking, BookingAccessScope, StoredResponse}
use booking_flight_system_mi.Payments.Repository.{
  start, StartPaymentResult, started, payment_in_progress,
}
use booking_flight_system_mi.Payments.Keys.{
  KeyScope, ClaimResult, claimed, claim_in_progress, claim_completed, claim, max_claim_attempts,
  complete, completed_key, new_key, read_key, attach_payment, release,
}
use booking_flight_system_mi.Payments.Keys.Replay.{
  row_of, claim-present, claim_from-claimed, complete-row_of, is_key-new_key,
}
use booking_flight_system_mi.Payments.Settle.{
  PaymentDecision, to_stored_response, not_payable_decision, not_found_decision,
}
use booking_flight_system_mi.Payments.Pay.{
  Starting, PaymentRequest, answered, key_reused, finished, start_payment, after_claim, start_for,
  after_start, can_start_payment, is_same_money, new_payment, find_if_uuid, answer_key, key_scope,
  why_not_payable,
}

-- The key's row holds this answer to the request with this fingerprint.
pub record Answered (scope : KeyScope) (key fingerprint : Text) (response : StoredResponse)
    (db : Database) : Type 0 where
  pub row : KeyRow
  pub stored : row_of scope key db.keys ≡ some row
  pub its_response : read_key row ≡ ok (claim_completed fingerprint response)

-- A later request with the key gets the stored answer if it is the same request, and is refused
-- otherwise; in neither case does it write anything. `kept` says that the other transactions have
-- not deleted or changed the key's row.
pub Answered-replay :
    (s : Starting) (booking_id : Text) (scope : BookingAccessScope) (account_id fingerprint : Text)
    (request : PaymentRequest) (response : StoredResponse) (db : Database)
    → Answered (key_scope account_id) request.idempotency_key fingerprint response db
    → row_of (key_scope account_id) request.idempotency_key (s.others 2 db.keys)
      ≡ row_of (key_scope account_id) request.idempotency_key db.keys
    → start_payment s booking_id scope account_id request db
      ≡ ok (
        record db { keys = s.others 2 db.keys },
        finished
            (if same fingerprint request.fingerprint then answered response true else key_reused),
      )
unfolding start_payment claim after_claim
Answered-replay s booking_id scope account_id fingerprint request response db a kept =
    let said =
      claim-present 2 s.others (key_scope account_id) request.idempotency_key request.fingerprint
        s.now db a.row a.row (claim_completed fingerprint response) a.stored (kept ∙ a.stored)
        a.its_response in
    elim (Bool-cases (same fingerprint request.fingerprint)) [
      | inl y ↦ ground arith
      | inr n ↦ ground arith
    ]

answer_key-Answered :
    (scope : KeyScope) (key fingerprint : Text) (now created : ℕ) (decision : PaymentDecision)
    (db db' : Database) (response : StoredResponse)
    → row_of scope key db.keys ≡ some (new_key scope key fingerprint created)
    → answer_key scope key decision now db ≡ ok (db', finished (answered response false))
    → Answered scope key fingerprint response db'
unfolding answer_key read_key
answer_key-Answered scope key fingerprint now created decision db db' response new e =
    elim (Result-cases (complete scope key (to_stored_response decision) now db)) [
      | inr (x, n) ↦ absurd (ground arith)
      | inl ((db1, u), y) ↦
          let same_db : db1 ≡ db' = ground arith in
          let said : to_stored_response decision ≡ response = ground arith in
          let stored =
            complete-row_of scope key (to_stored_response decision) now db db1
              (new_key scope key fingerprint created) new refl
              (is_key-new_key scope key fingerprint created) y in
          record {
            row = completed_key response now (new_key scope key fingerprint created);
            stored = rw (sym same_db, sym said) stored;
            its_response = refl;
          }
    ]

after_start_starts :
    (s : Starting) (account_id : Text) (request : PaymentRequest) (b : Booking)
    (r : StartPaymentResult) (db db' : Database) (response : StoredResponse)
    → after_start s account_id request b r db ≡ ok (db', finished (answered response false))
    → ⊥
unfolding after_start release
after_start_starts s account_id request b payment_in_progress db db' response e = ground arith
after_start_starts s account_id request b started db db' response e =
    elim (Result-cases
      (attach_payment (key_scope account_id) request.idempotency_key s.payment_id db)) [
        | inr (x, n) ↦ ground arith
        | inl (r, y) ↦ ground arith
      ]

start_for-Answered :
    (s : Starting) (account_id : Text) (request : PaymentRequest) (b : Option Booking)
    (db db' : Database) (response : StoredResponse)
    → row_of (key_scope account_id) request.idempotency_key db.keys
      ≡ some (new_key (key_scope account_id) request.idempotency_key request.fingerprint s.now)
    → start_for s account_id request b db ≡ ok (db', finished (answered response false))
    → Answered (key_scope account_id) request.idempotency_key request.fingerprint response db'
unfolding start_for release
start_for-Answered s account_id request none db db' response new e =
    answer_key-Answered (key_scope account_id) request.idempotency_key request.fingerprint s.now
      s.now not_found_decision db db' response new e
start_for-Answered s account_id request (some b) db db' response new e =
    elim (Bool-cases (can_start_payment b s.now)) [
      | inr refused ↦
          answer_key-Answered (key_scope account_id) request.idempotency_key request.fingerprint
            s.now s.now (not_payable_decision (why_not_payable b s.now)) db db' response new
            (ground arith)
      | inl payable ↦ elim (Bool-cases (is_same_money request.amount b.total)) [
        | inr refused ↦ absurd (ground arith)
        | inl agreed ↦ elim (Result-cases (start (new_payment s account_id request b) db)) [
          | inr (x, n) ↦ absurd (ground arith)
          | inl ((db1, r), y) ↦
              absurd (after_start_starts s account_id request b r db1 db' response (ground arith))
        ]
      ]
    ]

after_claim-Answered :
    (s : Starting) (booking_id : Text) (scope : BookingAccessScope) (account_id : Text)
    (request : PaymentRequest) (r : ClaimResult) (db db' : Database) (response : StoredResponse)
    → (r ≡ claimed
        → row_of (key_scope account_id) request.idempotency_key db.keys
          ≡ some (new_key (key_scope account_id) request.idempotency_key request.fingerprint s.now))
    → after_claim s booking_id scope account_id request r db
      ≡ ok (db', finished (answered response false))
    → Answered (key_scope account_id) request.idempotency_key request.fingerprint response db'
unfolding after_claim
after_claim-Answered s booking_id scope account_id request claimed db db' response new e =
    elim (Result-cases (find_if_uuid booking_id scope db)) [
      | inr (x, n) ↦ absurd (ground arith)
      | inl (b, y) ↦
          start_for-Answered s account_id request b db db' response (new refl) (ground arith)
    ]
after_claim-Answered s booking_id scope account_id request (claim_in_progress f) db db' response new
      e =
    absurd (ground arith)
after_claim-Answered s booking_id scope account_id request (claim_completed f old) db db' response
      new e =
    absurd (ground arith)

-- An answer given by phase 1 itself (no such booking, or one that cannot be paid) is stored with
-- the key.
start_payment-Answered :
    (s : Starting) (booking_id : Text) (scope : BookingAccessScope) (account_id : Text)
    (request : PaymentRequest) (db db' : Database) (response : StoredResponse)
    → start_payment s booking_id scope account_id request db
      ≡ ok (db', finished (answered response false))
    → Answered (key_scope account_id) request.idempotency_key request.fingerprint response db'
unfolding start_payment claim
start_payment-Answered s booking_id scope account_id request db db' response e =
    elim (Result-cases (
      claim s.others (key_scope account_id) request.idempotency_key request.fingerprint s.now db)) [
        | inr (x, n) ↦ absurd (ground arith)
        | inl ((db1, r), y) ↦
            after_claim-Answered s booking_id scope account_id request r db1 db' response
              (λ won.
                claim_from-claimed max_claim_attempts s.others (key_scope account_id)
                  request.idempotency_key request.fingerprint s.now db db1
                  (subst
                    (λ c.
                      claim s.others (key_scope account_id) request.idempotency_key
                        request.fingerprint s.now db
                      ≡ ok (db1, c))
                    won y))
              (ground arith)
      ]

-- A request that phase 1 answered itself (no such booking, or one that cannot be paid), sent again
-- with its key while the other transactions leave the key's row alone, writes nothing and gets the
-- same answer, marked as replayed, whatever the booking is by then; with another fingerprint it is
-- refused as a reuse of the key.
pub start_payment-start_payment :
    (s : Starting) (booking_id : Text) (scope : BookingAccessScope) (account_id : Text)
    (request : PaymentRequest) (db db' : Database) (response : StoredResponse)
    → start_payment s booking_id scope account_id request db
      ≡ ok (db', finished (answered response false))
    → (again : Starting) (other_id : Text) (retry : PaymentRequest)
    → request.idempotency_key ≡ retry.idempotency_key
    → row_of (key_scope account_id) retry.idempotency_key (again.others 2 db'.keys)
      ≡ row_of (key_scope account_id) retry.idempotency_key db'.keys
    → start_payment again other_id scope account_id retry db'
      ≡ ok (
        record db' { keys = again.others 2 db'.keys },
        finished (
            if same request.fingerprint retry.fingerprint
            then answered response true
            else key_reused),
      )
start_payment-start_payment s booking_id scope account_id request db db' response e again other_id
      retry one kept =
    Answered-replay again other_id scope account_id request.fingerprint retry response db'
      (subst (λ key. Answered (key_scope account_id) key request.fingerprint response db') one
        (start_payment-Answered s booking_id scope account_id request db db' response e))
      kept
