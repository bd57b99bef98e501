-- ===== src/Payments/Reconcile/Tallied.antt =====
-- The tally of a run: every payment that a batch claims is counted once, under its outcome.
use booking_flight_system_mi.Base.{
  count-append, keep, ◌==◌, zero, sym, subst, true, false, ◌++◌, length-append, Bool-cases, inl,
  inr, ltb, ltb→lt, Result, ℕ, suc, ◌≤◌, ◌+◌, ◌≡◌, refl, ap, ◌∙◌, List, [], ◌∷◌, map, length,
  length-map, length-take_le, length-sort_by, take, sort_by, Bool, ok, arith,
}
use booking_flight_system_mi.Store.{Database, Payment}
use booking_flight_system_mi.Payments.Gateway.{PaymentGateway}
use booking_flight_system_mi.Payments.Repository.{due_payments, claim_due}
use booking_flight_system_mi.Payments.Reconcile.{
  Reconciled, settled, refunded, refund_failed, retry_later, failed, Reconciling, Tally,
  empty_tally, count_outcome, tally_all, add_tally, reconcile_all, reconcile_batch,
  reconcile_payments, outcome_number,
}
use booking_flight_system_mi.Payments.Reconcile.Claims.{
  batch_claimed, batch_outcomes, batch_state, Claims, at_limit, last_batch, full_batch,
}
use booking_flight_system_mi.Jobs.Batches.{BatchRun, run_batches, run_short, run_full}
use booking_flight_system_mi.Jobs.Counted.{Counted, run_batches-Counted}

abbrev pub sum_of : Tally → ℕ
sum_of tally =
    tally settled + tally refunded + tally refund_failed + tally retry_later + tally failed

sum_of-count_outcome :
    (outcome : Reconciled) (tally : Tally)
    → sum_of (count_outcome outcome tally) ≡ suc (sum_of tally)
unfolding count_outcome
sum_of-count_outcome settled tally = omega arith
sum_of-count_outcome refunded tally = omega arith
sum_of-count_outcome refund_failed tally = omega arith
sum_of-count_outcome retry_later tally = omega arith
sum_of-count_outcome failed tally = omega arith

sum_of-tally_all : (outcomes : List Reconciled) → sum_of (tally_all outcomes) ≡ length outcomes
unfolding tally_all empty_tally
sum_of-tally_all [] = refl
sum_of-tally_all (outcome ∷ outcomes) =
    sum_of-count_outcome outcome (tally_all outcomes) ∙ ap suc (sum_of-tally_all outcomes)

-- The number of times that an outcome is among those of the payments.
abbrev is_outcome : Reconciled → Reconciled → Bool
is_outcome outcome r = outcome_number r == outcome_number outcome

abbrev pub times : Reconciled → List Reconciled → ℕ
times outcome outcomes = length (keep (is_outcome outcome) outcomes)

tally_all-times :
    (outcomes : List Reconciled) (outcome : Reconciled)
    → tally_all outcomes outcome ≡ times outcome outcomes
unfolding tally_all empty_tally count_outcome
tally_all-times [] outcome = refl
tally_all-times (r ∷ outcomes) outcome = elim (Bool-cases (is_outcome outcome r)) [
  | inl y ↦ rw y (ap suc (tally_all-times outcomes outcome))
  | inr n ↦ rw n (tally_all-times outcomes outcome)
]

-- A tally of the outcomes adds up to their number.
sum_of-times :
    (tally : Tally) (outcomes : List Reconciled)
    → ((outcome : Reconciled) → tally outcome ≡ times outcome outcomes)
    → sum_of tally ≡ length outcomes
sum_of-times tally outcomes each =
    let same_at = λ (outcome : Reconciled). each outcome ∙ sym (tally_all-times outcomes outcome) in
    omega (
      arith,
      same_at settled,
      same_at refunded,
      same_at refund_failed,
      same_at retry_later,
      same_at failed,
      sum_of-tally_all outcomes,
    )

ok-inj : {A : Type 0} (a b : A) → ◌≡◌ {A = Result A} (ok a) (ok b) → a ≡ b
ok-inj a b e = ground arith

length-taken :
    {A B : Type 0} (le : B → B → Bool) (f : A → B) (limit : ℕ) (xs : List A)
    → length (sort_by le (map f (take limit xs))) ≤ limit
length-taken le f limit xs = omega (
  arith,
  length-sort_by le (map f (take limit xs)),
  length-map f (take limit xs),
  length-take_le limit xs,
)

claim_due-length :
    (now lease_ms limit : ℕ) (locked : Payment → Bool) (db : Database)
    → length (claim_due now lease_ms limit locked db).1 ≤ limit
unfolding claim_due due_payments
claim_due-length now lease_ms limit locked db = length-taken _ _ limit _

module _ (gateway : PaymentGateway) where
  reconcile_all-length :
      (x : Reconciling) (number place : ℕ) (claimed : List Payment)
      (st : Database × gateway.Provider)
      → length (reconcile_all gateway x number place claimed st).1 ≡ length claimed
  unfolding reconcile_all
  reconcile_all-length x number place [] st = refl
  reconcile_all-length x number place (p ∷ ps) st =
      ap suc (reconcile_all-length x number (suc place) ps _)

  reconcile_batch-measured :
      (x : Reconciling) (number : ℕ) (st : Database × gateway.Provider)
      → (tally : Tally) × (count : ℕ) × ((reconcile_batch gateway x number st).1
          ≡ ok (tally, count))
        × (sum_of tally ≡ count)
        × (count ≤ x.batch_size)
  unfolding reconcile_batch
  reconcile_batch-measured x number (db, g) =
      let (db', claimed) =
        claim_due (x.claimed_at number) x.lease_ms x.batch_size (x.locked number) db in
      let outcomes = (reconcile_all gateway x number 0 claimed (db', g)).1 in
      (
        tally_all outcomes,
        length claimed,
        refl,
        sum_of-tally_all outcomes ∙ reconcile_all-length x number 0 claimed (db', g),
        claim_due-length (x.claimed_at number) x.lease_ms x.batch_size (x.locked number) db,
      )

  reconcile_all-taken :
      (x : Reconciling) (number : ℕ) (st : Database × gateway.Provider)
      → length (batch_outcomes gateway x number st) ≡ length (batch_claimed gateway x number st)
  reconcile_all-taken x number (db, g) =
      reconcile_all-length x number 0 (batch_claimed gateway x number (db, g)) _

  -- What a run adds to a tally, with the payments of its batches and their outcomes.
  record Run (x : Reconciling) (left done : ℕ) (total : Tally) (st : Database × gateway.Provider)
      : Type 0 where
    run : BatchRun Tally
    claimed : List Payment
    outcomes : List Reconciled
    run_returned :
        (run_batches add_tally x.batch_size (reconcile_batch gateway x) left done total st).1
        ≡ ok run
    traced :
        Claims gateway x left done st claimed outcomes
          (run_batches add_tally x.batch_size (reconcile_batch gateway x) left done total st).0
          run.batches
          run.exhausted
    one_each : length outcomes ≡ length claimed
    tallied : (outcome : Reconciled) → run.total outcome ≡ total outcome + times outcome outcomes

  batch-eq :
      (x : Reconciling) (number : ℕ) (st : Database × gateway.Provider)
      → reconcile_batch gateway x number st ≡ (
        batch_state gateway x number st,
        ok (
          tally_all (batch_outcomes gateway x number st),
          length (batch_claimed gateway x number st),
        ),
      )
  unfolding reconcile_batch
  batch-eq x number (db, g) = refl

  runs :
      (x : Reconciling) (left done : ℕ) (total : Tally) (st : Database × gateway.Provider)
      → Run x left done total st
  unfolding run_batches
  runs x zero done total st = record {
    run = record { total = total; batches = done; exhausted = true };
    claimed = [];
    outcomes = [];
    run_returned = refl;
    traced = at_limit done st;
    one_each = refl;
    tallied = λ outcome. omega arith;
  }
  runs x (suc left) done total st =
      let batch = reconcile_batch gateway x in
      let claimed = batch_claimed gateway x (suc done) st in
      let outcomes = batch_outcomes gateway x (suc done) st in
      let next = batch_state gateway x (suc done) st in
      let answered : (batch (suc done) st).1 ≡ ok (tally_all outcomes, length claimed) =
        ap (λ r. r.1) (batch-eq x (suc done) st) in
      let moved : (batch (suc done) st).0 ≡ next = ap (λ r. r.0) (batch-eq x (suc done) st) in
      let in_all = reconcile_all-taken x (suc done) st in
      elim (Bool-cases (ltb (length claimed) x.batch_size)) [
        | inl short ↦
            let step =
              run_short add_tally x.batch_size batch left done total st _ _ answered short in
            record {
              run = record {
                total = add_tally total (tally_all outcomes);
                batches = suc done;
                exhausted = false;
              };
              claimed = claimed;
              outcomes = outcomes;
              run_returned = ap (λ r. r.1) step;
              traced =
                  subst
                    (λ s. Claims gateway x (suc left) done st claimed outcomes s (suc done) false)
                    (sym (ap (λ r. r.0) step ∙ moved)) (last_batch left done st (ltb→lt _ _ short));
              one_each = in_all;
              tallied = λ outcome. omega (arith, tally_all-times outcomes outcome);
            }
        | inr full ↦
            let step = run_full add_tally x.batch_size batch left done total st _ _ answered full in
            let onward =
              step
              ∙ ap
                  (run_batches add_tally x.batch_size batch left (suc done)
                    (add_tally total (tally_all outcomes)))
                  moved in
            let rest = runs x left (suc done) (add_tally total (tally_all outcomes)) next in
            record {
              run = rest.run;
              claimed = claimed ++ rest.claimed;
              outcomes = outcomes ++ rest.outcomes;
              run_returned = ap (λ r. r.1) onward ∙ rest.run_returned;
              traced =
                  subst
                    (λ s.
                      Claims gateway x (suc left) done st (claimed ++ rest.claimed)
                        (outcomes ++ rest.outcomes) s rest.run.batches rest.run.exhausted)
                    (sym (ap (λ r. r.0) onward))
                    (full_batch left done st rest.claimed rest.outcomes _ _ _ (ground (arith, full))
                      rest.traced);
              one_each = omega (
                arith,
                length-append outcomes rest.outcomes,
                length-append claimed rest.claimed,
                in_all,
                rest.one_each,
              );
              tallied = λ outcome. omega (
                arith,
                rest.tallied outcome,
                tally_all-times outcomes outcome,
                count-append (is_outcome outcome) outcomes rest.outcomes,
              );
            }
      ]

  -- A run of the reconciliation always returns, whatever the gateway answers and whatever the
  -- settlements throw. It runs at most its limit of batches; each claims the due payments of the
  -- tables that the one before left, and reconciles them; every payment so claimed has one outcome,
  -- and the tally of each outcome is the number of the claimed payments that had it, so that the
  -- tallies add up to the payments claimed. The batches are full up to the limit if the run is
  -- exhausted, and else full but for the last, which is short.
  pub reconcile_payments-Counted :
      (x : Reconciling) (st : Database × gateway.Provider)
      → (run : BatchRun Tally) × (claimed : List Payment) × (outcomes : List Reconciled)
        × ((reconcile_payments gateway x st).1 ≡ ok run)
        × (run.batches ≤ x.max_batches)
        × Claims gateway x x.max_batches 0 st claimed outcomes
            (reconcile_payments gateway x st).0
            run.batches
            run.exhausted
        × (length outcomes ≡ length claimed)
        × ((outcome : Reconciled) → run.total outcome ≡ times outcome outcomes)
        × (sum_of run.total ≡ length claimed)
        × Counted x.batch_size (sum_of run.total) run.batches run.exhausted
  unfolding reconcile_payments empty_tally
  reconcile_payments-Counted x st =
      let (run, e, few, counted) =
        run_batches-Counted add_tally x.batch_size (reconcile_batch gateway x) sum_of
          (λ a b. omega arith) (reconcile_batch-measured x) x.max_batches 0 empty_tally st
          (omega arith) in
      let its = runs x x.max_batches 0 empty_tally st in
      let same_run : its.run ≡ run = ok-inj its.run run (sym its.run_returned ∙ e) in
      let each : (outcome : Reconciled) → its.run.total outcome ≡ times outcome its.outcomes =
        λ outcome. omega (arith, its.tallied outcome) in
      (
        its.run,
        its.claimed,
        its.outcomes,
        its.run_returned,
        subst (λ r. r.batches ≤ x.max_batches) (sym same_run) (omega arith),
        its.traced,
        its.one_each,
        each,
        sum_of-times its.run.total its.outcomes each ∙ its.one_each,
        subst (λ r. Counted x.batch_size (sum_of r.total) r.batches r.exhausted) (sym same_run)
            counted,
      )
