-- ===== src/Jobs/Counted.antt =====
-- Counting what a run of batches found.
use booking_flight_system_mi.Base.{
  ℕ, zero, suc, ◌≤◌, ◌<◌, ◌+◌, ◌*◌, ◌≡◌, refl, ap, ◌∙◌, ◌⊎◌, inl, inr, Bool, true, false, ok, ltb,
  ltb→lt, Bool-cases, arith,
}
use booking_flight_system_mi.Jobs.Batches.{BatchRun, Batch, run_batches, run_short, run_full}

-- A run has found `found` items in its batches.
abbrev pub Counted : ℕ → ℕ → ℕ → Bool → Type 0
Counted size found batches exhausted =
    ((exhausted ≡ true) × (found ≡ size * batches))
    ⊎ ((exhausted ≡ false) × (found < size * batches) × (size * batches ≤ found + size))

module _ {S T : Type 0} (add : T → T → T) (size : ℕ) (batch : Batch S T) (measure : T → ℕ)
    (measure_add : (a b : T) → measure (add a b) ≡ measure a + measure b)
    (measured : (number : ℕ) (db : S)
      → (n : T) × (count : ℕ) × ((batch number db).1 ≡ ok (n, count))
        × (measure n ≡ count)
        × (count ≤ size)) where
  -- Every batch but the last is full, and a run that is not exhausted ends with one that is not.
  pub run_batches-Counted :
      (left done : ℕ) (total : T) (db : S)
      → measure total ≡ size * done
      → (run : BatchRun T) × ((run_batches add size batch left done total db).1 ≡ ok run)
        × (run.batches ≤ done + left)
        × Counted size (measure run.total) run.batches run.exhausted
  unfolding run_batches
  run_batches-Counted zero done total db h =
      (record { total = total; batches = done; exhausted = true }, refl, omega arith, inl (refl, h))
  run_batches-Counted (suc left) done total db h =
      let (n, count, y, its, small) = measured (suc done) db in
      let sum = measure_add total n in
      let more : size * suc done ≡ size * done + size = omega arith in
      elim (Bool-cases (ltb count size)) [
        | inl short ↦
            let less = ltb→lt count size short in
            (
              record { total = add total n; batches = suc done; exhausted = false },
              ap (λ r. r.1) (run_short add size batch left done total db n count y short),
              omega arith,
              inr (refl, omega arith, omega arith),
            )
        | inr full ↦
            let exact : count ≡ size = ground arith in
            let (run, e, few, counted) =
              run_batches-Counted left (suc done) (add total n) (batch (suc done) db).0
                (omega arith) in
            (
              run,
              ap (λ r. r.1) (run_full add size batch left done total db n count y full) ∙ e,
              omega arith,
              counted,
            )
      ]
