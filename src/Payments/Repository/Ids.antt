-- ===== src/Payments/Repository/Ids.antt =====
-- The primary key of the payments, with the CHECK constraints, over every write.
use booking_flight_system_mi.Base.{
  suc, ◌+◌, ◌≤◌, ◌≡◌, refl, sym, ap, subst, Bool, true, false, none, some, List, [], ◌∷◌, any,
  count, All, update_where, Bool-cases, inl, inr, Text, arith, same, same_iff, ok,
}
use booking_flight_system_mi.Store.{
  Database, Payment, processing, succeeded, failed, refund_pending, refunded, refund_failed,
}
use booking_flight_system_mi.Payments.Repository.{
  moved, write_payments, start, StartPaymentResult, NewPayment, processing_payment,
  is_processing_for, is_storable_amount, is_paid_for, to_refund,
  mark_refund_pending_for_cancelled_booking, claim_due, due_payments, is_claimed, leased,
}
use booking_flight_system_mi.Payments.Repository.Checks.{PaymentOk}
use booking_flight_system_mi.Payments.Repository.Claimed.{UniqueIds}
use booking_flight_system_mi.Payments.Repository.Writes.{
  PaymentWrite, starts, succeeds, fails, owes, refunds, gives_up, cancels, claims, reschedules,
  transition-written, reschedule-written, PaymentWrite-PaymentOk,
}

abbrev has_id : Text → Payment → Bool
has_id id p = same p.id id

ids_kept :
    (sel : Payment → Bool) (f : Payment → Payment)
    → ((p : Payment) → (f p).id ≡ p.id)
    → (id : Text) (ps : List Payment)
    → count (has_id id) (update_where sel f ps) ≡ count (has_id id) ps
ids_kept sel f kept id [] = refl
ids_kept sel f kept id (p ∷ ps) =
    let rest = ids_kept sel f kept id ps in
    elim (Bool-cases (sel p)) [
      | inl y ↦ elim (Bool-cases (same p.id id)) [
        | inl k ↦ rw (y, kept p, k) (ap suc rest)
        | inr k ↦ rw (y, kept p, k) rest
      ]
      | inr n ↦ elim (Bool-cases (same p.id id)) [
        | inl k ↦ rw (n, k) (ap suc rest)
        | inr k ↦ rw (n, k) rest
      ]
    ]

write-UniqueIds :
    (sel : Payment → Bool) (f : Payment → Payment) (db db' : Database)
    → ((p : Payment) → (f p).id ≡ p.id)
    → db' ≡ write_payments sel f db
    → UniqueIds db.payments
    → UniqueIds db'.payments
unfolding write_payments
write-UniqueIds sel f db db' kept e h =
    subst (λ d. UniqueIds d.payments) (sym e)
      (λ id. subst (λ n. n ≤ 1) (sym (ids_kept sel f kept id db.payments)) (h id))

none_selected : (p : Payment → Bool) (ps : List Payment) → any p ps ≡ false → count p ps ≡ 0
none_selected p [] h = refl
none_selected p (x ∷ ps) h = elim (Bool-cases (p x)) [
  | inl y ↦ absurd (ground arith)
  | inr n ↦ rw n (none_selected p ps (ground arith))
]

added-UniqueIds :
    (p : Payment) (ps : List Payment)
    → any (has_id p.id) ps ≡ false
    → UniqueIds ps
    → UniqueIds (p ∷ ps)
added-UniqueIds p ps fresh h id = elim (Bool-cases (same p.id id)) [
  | inr n ↦ rw n (h id)
  | inl y ↦
      let its : p.id ≡ id = (same_iff p.id id).0 y in
      let no_other =
        none_selected (has_id id) ps (subst (λ i. any (has_id i) ps ≡ false) its fresh) in
      rw y (omega (arith, no_other))
]

start-UniqueIds :
    (n : NewPayment) (r : StartPaymentResult) (db db' : Database)
    → start n db ≡ ok (db', r)
    → UniqueIds db.payments
    → UniqueIds db'.payments
unfolding start
start-UniqueIds n r db db' e h =
    let storable : is_storable_amount n.amount.amount ≡ true = ground arith in
    elim (Bool-cases (any (is_processing_for n.booking_id) db.payments)) [
      | inl busy ↦ let same_db : db' ≡ db = ground arith in rw same_db h
      | inr alone ↦
          let fresh : any (has_id n.id) db.payments ≡ false = ground arith in
          let added : db'.payments ≡ processing_payment n ∷ db.payments = ground arith in
          rw added (added-UniqueIds (processing_payment n) db.payments fresh h)
    ]

-- Every write keeps the ids unique.
PaymentWrite-UniqueIds :
    {db db' : Database} → PaymentWrite db db' → UniqueIds db.payments → UniqueIds db'.payments
unfolding mark_refund_pending_for_cancelled_booking claim_due moved
PaymentWrite-UniqueIds {db} {db'} (starts n r e) h = start-UniqueIds n r db db' e h
PaymentWrite-UniqueIds {db} {db'} (succeeds id reference now e) h =
    write-UniqueIds _ _ db db' (λ p. refl)
      (transition-written id processing succeeded now (some reference) none db db' e) h
PaymentWrite-UniqueIds {db} {db'} (fails id reason now e) h =
    write-UniqueIds _ _ db db' (λ p. refl)
      (transition-written id processing failed now none (some reason) db db' e) h
PaymentWrite-UniqueIds {db} {db'} (owes id reference now e) h =
    write-UniqueIds _ _ db db' (λ p. refl)
      (transition-written id processing refund_pending now (some reference) none db db' e) h
PaymentWrite-UniqueIds {db} {db'} (refunds id now e) h =
    write-UniqueIds _ _ db db' (λ p. refl)
      (transition-written id refund_pending refunded now none none db db' e) h
PaymentWrite-UniqueIds {db} {db'} (gives_up id reason now e) h =
    write-UniqueIds _ _ db db' (λ p. refl)
      (transition-written id refund_pending refund_failed now none (some reason) db db' e) h
PaymentWrite-UniqueIds {db} {db'} (cancels booking_id now p e) h =
    write-UniqueIds (is_paid_for booking_id) (to_refund now) db db' (λ q. refl) (ground arith) h
PaymentWrite-UniqueIds {db} {db'} (claims now lease_ms limit locked e) h =
    write-UniqueIds (is_claimed (due_payments now limit locked db.payments))
      (leased (now + lease_ms)) db db' (λ p. refl) (sym e) h
PaymentWrite-UniqueIds {db} {db'} (reschedules id status at which e) h =
    write-UniqueIds _ _ db db' (λ p. refl) (reschedule-written id status at db db' e) h

-- Every write keeps the primary key and the CHECK constraints of the payments together: no two have
-- the same id, and every one has an amount of 1 to 2^53 - 1, a payment method token exactly while
-- PROCESSING, a next attempt exactly while PROCESSING or REFUND_PENDING, the provider's reference
-- from SUCCEEDED or REFUND_PENDING on, and a reason if it is FAILED.
pub PaymentWrite-AllOk :
    {db db' : Database}
    → PaymentWrite db db'
    → UniqueIds db.payments
    → All PaymentOk db.payments
    → UniqueIds db'.payments × All PaymentOk db'.payments
PaymentWrite-AllOk w unique h = (PaymentWrite-UniqueIds w unique, PaymentWrite-PaymentOk w unique h)
