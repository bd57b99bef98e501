-- ===== src/Payments/Reconcile/Claims.antt =====
-- The batches of a run of the reconciliation: what each claims, and the outcome of each payment.
use booking_flight_system_mi.Base.{
  ℕ, zero, suc, ◌<◌, ◌≤◌, Bool, true, false, List, [], ◌++◌, length,
}
use booking_flight_system_mi.Store.{Database, Payment}
use booking_flight_system_mi.Payments.Gateway.{PaymentGateway}
use booking_flight_system_mi.Payments.Repository.{claim_due}
use booking_flight_system_mi.Payments.Reconcile.{Reconciled, Reconciling, reconcile_all}

module _ (gateway : PaymentGateway) where
  -- The due payments that a batch claims, with the tables after the claim.
  abbrev pub claim_of : Reconciling → ℕ → Database × gateway.Provider → Database × List Payment
  claim_of x number st =
      claim_due (x.claimed_at number) x.lease_ms x.batch_size (x.locked number) st.0

  abbrev pub batch_claimed : Reconciling → ℕ → Database × gateway.Provider → List Payment
  batch_claimed x number st = (claim_of x number st).1

  -- The outcomes of a batch, and the state after it.
  abbrev pub batch_outcomes : Reconciling → ℕ → Database × gateway.Provider → List Reconciled
  batch_outcomes x number st =
      (reconcile_all gateway x number 0 (batch_claimed x number st)
        ((claim_of x number st).0, st.1)).1

  abbrev pub batch_state :
      Reconciling → ℕ → Database × gateway.Provider → Database × gateway.Provider
  batch_state x number st =
      (reconcile_all gateway x number 0 (batch_claimed x number st)
        ((claim_of x number st).0, st.1)).0

  -- `Claims x left done st claimed outcomes st' batches exhausted`: with `left` batches allowed and
  -- `done` run, the batches from `st` on claim these payments, give them these outcomes and end in
  -- `st'`, after as many batches in all and at the limit or not.
  pub data Claims (x : Reconciling)
      : ℕ
        → ℕ
        → Database × gateway.Provider
        → List Payment
        → List Reconciled
        → Database × gateway.Provider
        → ℕ
        → Bool
        → Type 0 where
    at_limit :
        (done : ℕ) (st : Database × gateway.Provider) → Claims x zero done st [] [] st done true
    last_batch :
        (left done : ℕ) (st : Database × gateway.Provider)
        → length (batch_claimed x (suc done) st) < x.batch_size
        → Claims x
            (suc left)
            done
            st
            (batch_claimed x (suc done) st)
            (batch_outcomes x (suc done) st)
            (batch_state x (suc done) st)
            (suc done)
            false
    full_batch :
        (left done : ℕ) (st : Database × gateway.Provider) (claimed : List Payment)
        (outcomes : List Reconciled) (st' : Database × gateway.Provider) (batches : ℕ)
        (exhausted : Bool)
        → x.batch_size ≤ length (batch_claimed x (suc done) st)
        → Claims x left
            (suc done)
            (batch_state x (suc done) st)
            claimed
            outcomes
            st'
            batches
            exhausted
        → Claims x
            (suc left)
            done
            st
            (batch_claimed x (suc done) st ++ claimed)
            (batch_outcomes x (suc done) st ++ outcomes)
            st'
            batches
            exhausted
