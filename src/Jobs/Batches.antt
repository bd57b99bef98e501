-- ===== src/Jobs/Batches.antt =====
-- The loop of the batch jobs (expire-holds.ts, cleanup-idempotency-keys.ts and
-- reconcile-payments.ts under api/src): batches, each in transactions of its own, until one is short
-- or the limit is reached. A batch that throws ends the run; what it committed stays.
use booking_flight_system_mi.Base.{
  ℕ, zero, suc, ◌≤◌, ◌<◌, ◌+◌, ◌≡◌, refl, Bool, true, false, Result, Fault, ok, thrown, ltb, ltb→lt,
  Bool-cases, Result-cases, inl, inr, arith,
}

pub record BatchRun (T : Type 0) : Type 0 where
  pub total : T
  pub batches : ℕ
  pub exhausted : Bool

-- A batch, by its number: what it does to the state, what it adds to the total, and how many items
-- it found.
abbrev pub Batch : Type 0 → Type 0 → Type 0
Batch S T = ℕ → S → S × Result (T × ℕ)

module _ {S T : Type 0} (add : T → T → T) (size : ℕ) (batch : Batch S T) where
  -- `left` batches may still run, `done` have run.
  unfoldable pub run_batches : ℕ → ℕ → T → S → S × Result (BatchRun T)
  run_batches zero done total db =
      (db, ok (record { total = total; batches = done; exhausted = true }))
  run_batches (suc left) done total db =
      let step = batch (suc done) db in
      elim step.1 [
        | thrown e ↦ (step.0, thrown e)
        | ok (n, count) ↦ elim (ltb count size) [
          | true ↦
              (step.0, ok (record { total = add total n; batches = suc done; exhausted = false }))
          | false ↦ run_batches left (suc done) (add total n) step.0
        ]
      ]

  pub run_thrown :
      (left done : ℕ) (total : T) (db : S) (x : Fault)
      → (batch (suc done) db).1 ≡ thrown x
      → run_batches (suc left) done total db ≡ ((batch (suc done) db).0, thrown x)
  unfolding run_batches
  run_thrown left done total db x e = ground arith

  pub run_short :
      (left done : ℕ) (total : T) (db : S) (n : T) (count : ℕ)
      → (batch (suc done) db).1 ≡ ok (n, count)
      → ltb count size ≡ true
      → run_batches (suc left) done total db ≡ (
        (batch (suc done) db).0,
        ok (record { total = add total n; batches = suc done; exhausted = false }),
      )
  unfolding run_batches
  run_short left done total db n count e h = ground arith

  pub run_full :
      (left done : ℕ) (total : T) (db : S) (n : T) (count : ℕ)
      → (batch (suc done) db).1 ≡ ok (n, count)
      → ltb count size ≡ false
      → run_batches (suc left) done total db
        ≡ run_batches left (suc done) (add total n) (batch (suc done) db).0
  unfolding run_batches
  run_full left done total db n count e h = ground arith

  -- What every batch keeps, whether it throws or not, the run keeps.
  pub run_batches_inv {κ} :
      (P : S → Type κ)
      → ((number : ℕ) (db : S) → P db → P (batch number db).0)
      → (left done : ℕ) (total : T) (db : S) → P db
      → P (run_batches left done total db).0
  unfolding run_batches
  run_batches_inv P keeps zero done total db h = h
  run_batches_inv P keeps (suc left) done total db h =
      let kept = keeps (suc done) db h in
      elim (Result-cases (batch (suc done) db).1) [
        | inr (x, n) ↦ rw (run_thrown left done total db x n) kept
        | inl ((n, count), y) ↦ elim (Bool-cases (ltb count size)) [
          | inl short ↦ rw (run_short left done total db n count y short) kept
          | inr full ↦
              rw (run_full left done total db n count y full)
                (run_batches_inv P keeps left (suc done) (add total n) _ kept)
        ]
      ]

  -- A run without a throw: the batches are counted, and no more than the limit.
  pub run_batches-batches :
      (left done : ℕ) (total : T) (db : S) (run : BatchRun T)
      → (run_batches left done total db).1 ≡ ok run
      → (done ≤ run.batches) × (run.batches ≤ done + left)
  unfolding run_batches
  run_batches-batches zero done total db run e = ground arith
  run_batches-batches (suc left) done total db run e = elim (Result-cases (batch (suc done) db).1) [
    | inr (x, n) ↦ absurd (ground arith)
    | inl ((n, count), y) ↦ elim (Bool-cases (ltb count size)) [
      | inl short ↦ ground arith
      | inr full ↦
          let (low, high) =
            run_batches-batches left (suc done) (add total n) (batch (suc done) db).0 run
              (ground arith) in
          (omega arith, omega arith)
    ]
  ]

  -- A run that was not stopped at its limit ended with a short batch.
  pub run_batches-last :
      (left done : ℕ) (total : T) (db : S) (run : BatchRun T)
      → (run_batches left done total db).1 ≡ ok run
      → run.exhausted ≡ false
      → (number : ℕ) × (before : S) × (n : T) × (count : ℕ) × ((batch number before).1
          ≡ ok (n, count))
        × (count < size)
        × ((run_batches left done total db).0 ≡ (batch number before).0)
  unfolding run_batches
  run_batches-last zero done total db run e stopped = absurd (ground arith)
  run_batches-last (suc left) done total db run e stopped =
      elim (Result-cases (batch (suc done) db).1) [
        | inr (x, n) ↦ absurd (ground arith)
        | inl ((n, count), y) ↦ elim (Bool-cases (ltb count size)) [
          | inl short ↦ (
            suc done,
            db,
            n,
            count,
            y,
            ltb→lt count size short,
            rw (run_short left done total db n count y short) refl,
          )
          | inr full ↦
              let (number, before, m, k, here, less, same_db) =
                run_batches-last left (suc done) (add total n) (batch (suc done) db).0 run
                  (ground arith) stopped in
              (
                number,
                before,
                m,
                k,
                here,
                less,
                rw (run_full left done total db n count y full) same_db,
              )
        ]
      ]

  -- If no batch throws, the run does not throw.
  pub run_batches_ok :
      ((number : ℕ) (db : S) → (r : T × ℕ) × ((batch number db).1 ≡ ok r))
      → (left done : ℕ) (total : T) (db : S)
      → (run : BatchRun T) × ((run_batches left done total db).1 ≡ ok run)
  unfolding run_batches
  run_batches_ok good zero done total db =
      (record { total = total; batches = done; exhausted = true }, refl)
  run_batches_ok good (suc left) done total db =
      let ((n, count), y) = good (suc done) db in
      elim (Bool-cases (ltb count size)) [
        | inl short ↦ (
          record { total = add total n; batches = suc done; exhausted = false },
          rw (run_short left done total db n count y short) refl,
        )
        | inr full ↦
            let (run, e) =
              run_batches_ok good left (suc done) (add total n) (batch (suc done) db).0 in
            (run, rw (run_full left done total db n count y full) e)
      ]
