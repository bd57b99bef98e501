-- ===== src/Base/Counts.antt =====
-- How often rows of each kind occur in a list, which sorting keeps and a selection never raises.
use Prim.Native.Nat.{ℕ, zero, suc, ◌+◌, ◌≤◌}
use mathlib.Core.Path.{◌≡◌, refl, ◌∙◌}
use mathlib.Core.Bool.{Bool}
use mathlib.Core.List.{List, [], ◌∷◌, ◌++◌}
use mathlib.Core.Logic.{inl, inr}
use native.Mathlib.Omega.{arith}
use booking_flight_system_mi.Base.Tests.{if◌then◌else◌, Bool-cases}
use booking_flight_system_mi.Base.Lists.{length, keep, take}
use booking_flight_system_mi.Base.Sorting.{insert_by, sort_by}

module _ {ℓ} {A : Type ℓ} where
  -- The number of the rows that a test selects.
  abbrev pub count : (A → Bool) → List A → ℕ
  count p xs = length (keep p xs)

  -- Every row of the first list occurs in the second, at least as often.
  abbrev pub IsDrawnFrom : List A → List A → Type ℓ
  IsDrawnFrom xs ys = (p : A → Bool) → count p xs ≤ count p ys

  pub count-take : (p : A → Bool) (n : ℕ) (xs : List A) → count p (take n xs) ≤ count p xs
  count-take p zero xs = omega arith
  count-take p (suc n) [] = omega arith
  count-take p (suc n) (x ∷ xs) = elim (Bool-cases (p x)) [
    | inl e ↦ rw e (omega (arith, count-take p n xs))
    | inr e ↦ rw e (count-take p n xs)
  ]

  pub count-keep : (p q : A → Bool) (xs : List A) → count p (keep q xs) ≤ count p xs
  count-keep p q [] = omega arith
  count-keep p q (x ∷ xs) = elim (Bool-cases (q x)) [
    | inl k ↦ elim (Bool-cases (p x)) [
      | inl e ↦ rw (k, e) (omega (arith, count-keep p q xs))
      | inr e ↦ rw (k, e) (count-keep p q xs)
    ]
    | inr k ↦ elim (Bool-cases (p x)) [
      | inl e ↦ rw (k, e) (omega (arith, count-keep p q xs))
      | inr e ↦ rw (k, e) (count-keep p q xs)
    ]
  ]

  pub count-cons :
      (p : A → Bool) (x : A) (xs : List A) → count p (x ∷ xs) ≡ (if p x then 1 else 0) + count p xs
  count-cons p x xs = elim (Bool-cases (p x)) [
    | inl e ↦ rw e (omega arith)
    | inr e ↦ rw e (omega arith)
  ]

  pub count-append : (p : A → Bool) (xs ys : List A) → count p (xs ++ ys) ≡ count p xs + count p ys
  count-append p [] ys = omega arith
  count-append p (x ∷ xs) ys =
      omega (arith, count-append p xs ys, count-cons p x (xs ++ ys), count-cons p x xs)

  module _ (le : A → A → Bool) where
    count-insert_by :
        (p : A → Bool) (a : A) (xs : List A) → count p (insert_by le a xs) ≡ count p (a ∷ xs)
    unfolding insert_by
    count-insert_by p a [] = refl
    count-insert_by p a (x ∷ xs) = elim (Bool-cases (le a x)) [
      | inl e ↦ rw e refl
      | inr e ↦ rw e (
          omega (
            arith,
            count-cons p x (insert_by le a xs),
            count-insert_by p a xs,
            count-cons p a xs,
            count-cons p a (x ∷ xs),
            count-cons p x xs,
          ))
    ]

    pub count-sort_by : (p : A → Bool) (xs : List A) → count p (sort_by le xs) ≡ count p xs
    unfolding sort_by
    count-sort_by p [] = refl
    count-sort_by p (x ∷ xs) =
        count-insert_by p x (sort_by le xs)
        ∙ omega (arith, count-cons p x (sort_by le xs), count-cons p x xs, count-sort_by p xs)
