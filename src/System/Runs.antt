-- ===== src/System/Runs.antt =====
-- The runs of the jobs are histories of committed transactions.
use booking_flight_system_mi.Base.{
  ℕ, suc, ◌≡◌, refl, inl, inr, List, [], ◌∷◌, ok, Result-cases, arith,
}
use booking_flight_system_mi.Store.{Database, Payment, Transaction, run_transaction}
use booking_flight_system_mi.Bookings.Expire.{Expiring, expire_step, expire_batch, expire_holds}
use booking_flight_system_mi.Payments.Settle.{Settling}
use booking_flight_system_mi.Payments.Gateway.{PaymentGateway}
use booking_flight_system_mi.Payments.Reconcile.{
  Reconciled, Reconciling, settling, reconcile_all, reconcile_batch, reconcile_payments, add_tally,
  empty_tally,
}
use booking_flight_system_mi.Payments.Reconcile.Outcome.{
  ReconcileOutcome, charged_again, refund_tried, left_alone, reconcile-outcome,
}
use booking_flight_system_mi.Jobs.Batches.{run_batches_inv}
use booking_flight_system_mi.Bookings.Repository.Invariant.{Consistent}
use booking_flight_system_mi.System.{
  Step, expires, claims_payments, records_charge, records_refund, History, History-Consistent,
  nothing_yet, then,
}

-- A transaction that rolled back is no step.
transaction-History :
    {A : Type 0} (t : Transaction A) (start db : Database)
    → ((db' : Database) (a : A) → t db ≡ ok (db', a) → Step db db')
    → History start db
    → History start (run_transaction t db).0
unfolding run_transaction
transaction-History t start db step h = elim (Result-cases (t db)) [
  | inr (x, n) ↦ let kept : (run_transaction t db).0 ≡ db = ground arith in rw kept h
  | inl ((db', a), y) ↦
      let final : (run_transaction t db).0 ≡ db' = ground arith in rw final (then h (step db' a y))
]

-- Whatever the run of the expiry job does to the tables is a history of committed transactions.
pub expire_holds-History : (x : Expiring) (db : Database) → History db (expire_holds x db).0
unfolding expire_holds expire_batch
expire_holds-History x db =
    run_batches_inv _ x.batch_size (expire_batch x) (History db)
      (λ number d.
        transaction-History (expire_step x number) db d (λ d' found e. expires x number found e))
      x.max_batches 0 0 db nothing_yet

module _ (gateway : PaymentGateway) where
  outcome-History :
      (s : Settling) (p : Payment) (start db : Database) (g : gateway.Provider) (db' : Database)
      (g' : gateway.Provider) (outcome : Reconciled)
      → ReconcileOutcome gateway s p db g db' g' outcome
      → History start db
      → History start db'
  outcome-History s p start db g db' g' outcome (charged_again _ answer _ _ _ _ _ _ _ e _) h =
      then h (records_charge s p answer outcome e)
  outcome-History s p start db g db' g' outcome (refund_tried _ answer _ _ _ _ _ _ _ e _) h =
      then h (records_refund s p answer outcome e)
  outcome-History s p start db g db' g' outcome (left_alone _) h = h

  reconcile_all-History :
      (x : Reconciling) (number place : ℕ) (claimed : List Payment) (start : Database)
      (st : Database × gateway.Provider)
      → History start st.0
      → History start (reconcile_all gateway x number place claimed st).0.0
  unfolding reconcile_all
  reconcile_all-History x number place [] start st h = h
  reconcile_all-History x number place (p ∷ ps) start (db, g) h =
      reconcile_all-History x number (suc place) ps start _ (
        outcome-History (settling x number place) p start db g _ _ _
          (reconcile-outcome gateway (settling x number place) p db g) h)

  reconcile_batch-History :
      (x : Reconciling) (start : Database) (number : ℕ) (st : Database × gateway.Provider)
      → History start st.0
      → History start (reconcile_batch gateway x number st).0.0
  unfolding reconcile_batch
  reconcile_batch-History x start number (db, g) h = reconcile_all-History x number 0 _ start _ (
      then h (claims_payments (x.claimed_at number) x.lease_ms x.batch_size (x.locked number) refl))

  -- The tables after a run of the reconciliation are those of a history of committed transactions.
  reconcile_payments-History :
      (x : Reconciling) (db : Database) (g : gateway.Provider)
      → History db (reconcile_payments gateway x (db, g)).0.0
  unfolding reconcile_payments
  reconcile_payments-History x db g =
      run_batches_inv add_tally x.batch_size (reconcile_batch gateway x) (λ st. History db st.0)
        (reconcile_batch-History x db) x.max_batches 0 empty_tally (db, g) nothing_yet

  -- A run of the reconciliation, whatever the gateway answers or throws and however many batches it
  -- takes, leaves the seats in agreement with the bookings if they were before: every HELD seat
  -- belongs to a HELD booking, every BOOKED one to a CONFIRMED booking, and no free seat to any.
  pub reconcile_payments-Consistent :
      (x : Reconciling) (db : Database) (g : gateway.Provider)
      → Consistent db
      → Consistent (reconcile_payments gateway x (db, g)).0.0
  reconcile_payments-Consistent x db g c = History-Consistent (reconcile_payments-History x db g) c
