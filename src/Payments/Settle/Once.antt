-- ===== src/Payments/Settle/Once.antt =====
-- A payment is settled at most once, whoever settles it: the request or the reconciliation.
use booking_flight_system_mi.Base.{
  ℕ, ◌≡◌, refl, ap, Bool, true, false, Option, none, some, List, [], ◌∷◌, update_where, keep,
  Bool-cases, inl, inr, Text, arith, ok, thrown, Result-cases, is_ok, wrong_payment_status,
}
use booking_flight_system_mi.Bookings.Repository.Rows.{
  ConfirmHoldResult, hold_confirmed, not_payable, confirm_hold,
}
use booking_flight_system_mi.Store.{
  Database, Payment, PaymentStatus, processing, succeeded, failed, refund_pending, StoredResponse,
  owner, BookingAccessScope,
}
use booking_flight_system_mi.Payments.Repository.{is_in, moved, transition, transition_rows}
use booking_flight_system_mi.Payments.Settle.{
  Settling, settle_charged, settle_declined, after_confirm,
}
use booking_flight_system_mi.Bookings.Repository.Rows.Confirmed.{
  confirm_hold-confirmed, confirm_hold-not_payable,
}
use booking_flight_system_mi.Payments.Settle.Laws.{
  ChargeOutcome, ticketed, refund_owed, settle_charged-outcome, settle_declined-outcome,
}

-- No payment of this id is PROCESSING.
abbrev pub Gone : Text → Database → Type 0
Gone id db = keep (is_in id processing) db.payments ≡ []

keep-update_where :
    {A : Type 0} (p : A → Bool) (f : A → A)
    → ((x : A) → p (f x) ≡ false)
    → (xs : List A) → keep p (update_where p f xs) ≡ []
keep-update_where p f out [] = refl
keep-update_where p f out (x ∷ xs) = elim (Bool-cases (p x)) [
  | inl y ↦ rw (y, out x) (keep-update_where p f out xs)
  | inr n ↦ rw (n, n) (keep-update_where p f out xs)
]

is_final : PaymentStatus → Bool
is_final processing = false
is_final _ = true

moved_out :
    (id : Text) (to : PaymentStatus) (now : ℕ) (reference reason : Option Text)
    → is_final to ≡ true
    → (p : Payment) → is_in id processing (moved to now reference reason p) ≡ false
unfolding is_in moved is_final
moved_out id to now reference reason h p = ground arith

moved-Gone :
    (id : Text) (to : PaymentStatus) (now : ℕ) (reference reason : Option Text)
    → is_final to ≡ true
    → (ps : List Payment)
    → keep
        (is_in id processing)
        (update_where (is_in id processing) (moved to now reference reason) ps)
      ≡ []
moved-Gone id to now reference reason h ps =
    keep-update_where (is_in id processing) (moved to now reference reason)
      (moved_out id to now reference reason h) ps

charged-Gone :
    (s : Settling) (p : Payment) (reference : Text) (db db' : Database) (response : StoredResponse)
    → ChargeOutcome s p reference db db' response
    → Gone p.id db'
unfolding is_final
charged-Gone s p reference db db' response (ticketed _ _ _ _ _ _ _ _ final) =
    rw final (moved-Gone p.id succeeded s.now (some reference) none refl db.payments)
charged-Gone s p reference db db' response (refund_owed _ _ final) =
    rw final (moved-Gone p.id refund_pending s.now (some reference) none refl db.payments)

declined-Gone :
    (s : Settling) (p : Payment) (reason : Text) (db db' : Database) (response : StoredResponse)
    → settle_declined s p reason db ≡ ok (db', response)
    → Gone p.id db'
unfolding is_final
declined-Gone s p reason db db' response e =
    rw ((settle_declined-outcome s p reason db db' response e).written)
      (moved-Gone p.id failed s.now none (some reason) refl db.payments)

Gone-transition :
    (id : Text) (to : PaymentStatus) (now : ℕ) (reference reason : Option Text) (db : Database)
    → Gone id db
    → transition id processing to now reference reason db ≡ thrown wrong_payment_status
unfolding transition transition_rows
Gone-transition id to now reference reason db h = rw h refl

Gone-settle_declined :
    (s : Settling) (p : Payment) (reason : Text) (db : Database)
    → Gone p.id db
    → settle_declined s p reason db ≡ thrown wrong_payment_status
unfolding settle_declined
Gone-settle_declined s p reason db h =
    let no = Gone-transition p.id failed s.now none (some reason) db h in ground arith

Gone-after_confirm :
    (s : Settling) (p : Payment) (reference : Text) (db : Database) (c : ConfirmHoldResult)
    → Gone p.id db
    → after_confirm s p reference c db ≡ thrown wrong_payment_status
unfolding after_confirm
Gone-after_confirm s p reference db not_payable h =
    let no = Gone-transition p.id refund_pending s.now (some reference) none db h in ground arith
Gone-after_confirm s p reference db (hold_confirmed b) h =
    let no = Gone-transition p.id succeeded s.now (some reference) none db h in ground arith

confirm_hold-Gone :
    (id : Text) (scope : BookingAccessScope) (now : ℕ) (payment_id : Text) (db db' : Database)
    (c : ConfirmHoldResult)
    → confirm_hold id scope now db ≡ ok (db', c)
    → Gone payment_id db
    → Gone payment_id db'
confirm_hold-Gone id scope now payment_id db db' not_payable e h =
    rw (confirm_hold-not_payable id scope now db db' e) h
confirm_hold-Gone id scope now payment_id db db' (hold_confirmed b) e h =
    rw ((confirm_hold-confirmed id scope now db db' b e).final) h

Gone-settle_charged :
    (s : Settling) (p : Payment) (reference : Text) (db : Database)
    → Gone p.id db
    → is_ok (settle_charged s p reference db) ≡ false
unfolding settle_charged
Gone-settle_charged s p reference db h =
    elim (Result-cases (confirm_hold p.booking_id (owner p.account_id) s.now db)) [
      | inr (x, n) ↦ ground arith
      | inl ((db1, c), y) ↦
          let no =
            Gone-after_confirm s p reference db1 c
              (confirm_hold-Gone p.booking_id (owner p.account_id) s.now p.id db db1 c y h) in
          ground arith
    ]

Gone-settled :
    (p : Payment) (db : Database)
    → Gone p.id db
    → (s : Settling) (detail : Text)
    → (is_ok (settle_charged s p detail db) ≡ false)
      × (is_ok (settle_declined s p detail db) ≡ false)
Gone-settled p db h s detail =
    (Gone-settle_charged s p detail db h, ap is_ok (Gone-settle_declined s p detail db h))

-- On the tables that a committed settlement of a charge has left, no settlement of that payment
-- commits, neither as charged nor as declined.
pub settle_charged_once :
    (s : Settling) (p : Payment) (reference : Text) (db db' : Database) (response : StoredResponse)
    → settle_charged s p reference db ≡ ok (db', response)
    → (again : Settling) (detail : Text)
    → (is_ok (settle_charged again p detail db') ≡ false)
      × (is_ok (settle_declined again p detail db') ≡ false)
settle_charged_once s p reference db db' response e = Gone-settled p db' (
    charged-Gone s p reference db db' response
      (settle_charged-outcome s p reference db db' response e))

-- On the tables that a committed settlement of a declined charge has left, no settlement of that
-- payment commits, neither as charged nor as declined.
pub settle_declined_once :
    (s : Settling) (p : Payment) (reason : Text) (db db' : Database) (response : StoredResponse)
    → settle_declined s p reason db ≡ ok (db', response)
    → (again : Settling) (detail : Text)
    → (is_ok (settle_charged again p detail db') ≡ false)
      × (is_ok (settle_declined again p detail db') ≡ false)
settle_declined_once s p reason db db' response e =
    Gone-settled p db' (declined-Gone s p reason db db' response e)
