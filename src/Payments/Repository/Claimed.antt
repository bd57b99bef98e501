-- ===== src/Payments/Repository/Claimed.antt =====
-- The payments that `claimDue` changes are the due ones that it selected.
use booking_flight_system_mi.Base.{
  suc, if◌then◌else◌, ℕ, ◌≤◌, ◌≡◌, sym, ap, ◌∙◌, subst, Bool, true, List, [], ◌∷◌, keep, any,
  length, count, count-cons, All, All-zip, All-IsIn, All-keep, All-keep_test, All-take, All-sort_by,
  IsIn, Bool-cases, inl, inr, Text, arith, same, same_refl,
}
use booking_flight_system_mi.Store.{Payment}
use booking_flight_system_mi.Payments.Repository.{is_due, next_leb, due_payments, is_claimed}

-- PK_payments: no id is that of two rows.
abbrev pub UniqueIds : List Payment → Type 0
UniqueIds payments = (id : Text) → count (λ p. same p.id id) payments ≤ 1

-- A row that a test selects counts.
selected_counts :
    {A : Type 0} (p : A → Bool) (a : A) (xs : List A) → IsIn a xs → p a ≡ true → 1 ≤ count p xs
selected_counts p a [] i h = absurd i
selected_counts p a (x ∷ xs) (inl e) h =
    let first : p x ≡ true = ap p (sym e) ∙ h in rw first (omega arith)
selected_counts p a (x ∷ xs) (inr i) h =
    omega (arith, count-cons p x xs, selected_counts p a xs i h)

-- Of the rows that a test selects at most once, two are one.
selected_once :
    {A : Type 0} (p : A → Bool) (a b : A) (xs : List A)
    → IsIn a xs
    → IsIn b xs
    → p a ≡ true
    → p b ≡ true
    → count p xs ≤ 1
    → a ≡ b
selected_once p a b [] i j h k few = absurd i
selected_once p a b (x ∷ xs) (inl e) (inl f) h k few = e ∙ sym f
selected_once p a b (x ∷ xs) (inl e) (inr j) h k few =
    let first : p x ≡ true = ap p (sym e) ∙ h in
    let more = selected_counts p b xs j k in
    let fewer : suc (count p xs) ≤ 1 =
      subst (λ t. (length (if t then x ∷ keep p xs else keep p xs)) ≤ 1) first few in
    absurd (omega arith)
selected_once p a b (x ∷ xs) (inr i) (inl f) h k few =
    let first : p x ≡ true = ap p (sym f) ∙ k in
    let more = selected_counts p a xs i h in
    let fewer : suc (count p xs) ≤ 1 =
      subst (λ t. (length (if t then x ∷ keep p xs else keep p xs)) ≤ 1) first few in
    absurd (omega arith)
selected_once p a b (x ∷ xs) (inr i) (inr j) h k few =
    selected_once p a b xs i j h k (omega (arith, count-cons p x xs))

any-All :
    {A : Type 0} (p : A → Bool) (P : A → Type 0) (xs : List A)
    → any p xs ≡ true
    → All P xs
    → (a : A) × (p a ≡ true) × P a
any-All p P [] e h = absurd (cc)
any-All p P (x ∷ xs) e h = elim (Bool-cases (p x)) [
  | inl y ↦ (x, y, h.0)
  | inr n ↦ any-All p P xs (ground arith) h.1
]

module _ (now limit : ℕ) (locked : Payment → Bool) (payments : List Payment) where
  due_payments-All :
      All
        (λ q. (is_due now locked q ≡ true) × IsIn q payments)
        (due_payments now limit locked payments)
  unfolding due_payments
  due_payments-All = All-take _ limit _ (
      All-sort_by next_leb _ _ (
        All-zip (λ q. is_due now locked q ≡ true) (λ q. IsIn q payments) _ (λ q a i. (a, i))
          (keep (is_due now locked) payments) (All-keep_test _ payments)
          (All-keep _ _ payments (All-IsIn payments))))

  pub is_claimed-is_due :
      UniqueIds payments
      → (p : Payment) → IsIn p payments
      → is_claimed (due_payments now limit locked payments) p ≡ true
      → is_due now locked p ≡ true
  unfolding is_claimed
  is_claimed-is_due unique p i h =
      let (q, agreed, its) =
        any-All (λ q. same q.id p.id) _ (due_payments now limit locked payments) h
          due_payments-All in
      let one =
        selected_once (λ r. same r.id p.id) q p payments its.1 i agreed (same_refl p.id)
          (unique p.id) in
      subst (λ r. is_due now locked r ≡ true) one its.0
