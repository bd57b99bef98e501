-- ===== src/Payments/Cleanup/Kept.antt =====
-- The keys that a cleanup does not delete.
use booking_flight_system_mi.Base.{
  ℕ, ◌+◌, ◌≤◌, ◌≡◌, ◌⊎◌, refl, sym, subst, inl, inr, Bool, true, false, not, List, [], ◌∷◌, take,
  keep, any, sort_by, All, All-keep, All-keep_test, All-take, All-zip, All-imp, All-IsIn,
  All-sort_by, IsIn, Bool-cases, arith,
}
use booking_flight_system_mi.Store.{Database, KeyRow}
use booking_flight_system_mi.Payments.Keys.{
  is_expired_key, same_key, delete_completed_before, is_in_progress, created_leb,
}
use booking_flight_system_mi.Payments.Cleanup.{
  Cleaning, cutoff, idempotency_key_retention_ms, cleanup_batch, cleanup_idempotency_keys,
}
use booking_flight_system_mi.Jobs.Batches.{run_batches_inv}

-- The primary key of the keys: account, operation and key tell the rows apart.
abbrev pub UniqueKeys : List KeyRow → Type 0
UniqueKeys keys = (r s : KeyRow) → IsIn r keys → IsIn s keys → same_key r s ≡ true → r ≡ s

IsIn-keep :
    {A : Type 0} (p : A → Bool) (a : A) (xs : List A) → p a ≡ true → IsIn a xs → IsIn a (keep p xs)
IsIn-keep p a [] h i = absurd i
IsIn-keep p a (x ∷ xs) h (inl e) =
    let here : p x ≡ true = subst (λ y. p y ≡ true) e h in rw here (inl e)
IsIn-keep p a (x ∷ xs) h (inr i) = elim (Bool-cases (p x)) [
  | inl y ↦ rw y (inr (IsIn-keep p a xs h i))
  | inr n ↦ rw n (IsIn-keep p a xs h i)
]

keep-IsIn : {A : Type 0} (p : A → Bool) (a : A) (xs : List A) → IsIn a (keep p xs) → IsIn a xs
keep-IsIn p a [] i = absurd i
keep-IsIn p a (x ∷ xs) i = elim (Bool-cases (p x)) [
  | inl y ↦ elim (rw y at i) [ inl e ↦ inl e | inr there ↦ inr (keep-IsIn p a xs there) ]
  | inr n ↦ inr (keep-IsIn p a xs (rw n at i))
]

every_other :
    (r : KeyRow) (old : List KeyRow)
    → All (λ s. same_key r s ≡ false) old
    → any (same_key r) old ≡ false
every_other r [] h = refl
every_other r (s ∷ old) h = rw (h.0) (every_other r old h.1)

-- The rows that a batch selects are in the table, and old and completed.
selected :
    (le : KeyRow → KeyRow → Bool) (p : KeyRow → Bool) (limit : ℕ) (keys : List KeyRow)
    → All (λ s. IsIn s keys × (p s ≡ true)) (take limit (sort_by le (keep p keys)))
selected le p limit keys =
    let Selected = λ (s : KeyRow). IsIn s keys × (p s ≡ true) in
    All-take Selected limit (sort_by le (keep p keys)) (
      All-sort_by le Selected (keep p keys) (
        All-zip (λ s. IsIn s keys) (λ s. p s ≡ true) Selected (λ s i h. (i, h)) (keep p keys)
          (All-keep (λ s. IsIn s keys) p keys (All-IsIn keys)) (All-keep_test p keys)))

-- A key that the table keeps while the keys are told apart.
abbrev Stays : KeyRow → Database → Type 0
Stays r db = UniqueKeys db.keys × IsIn r db.keys

told_apart :
    (p : KeyRow → Bool) (r s : KeyRow) (keys : List KeyRow)
    → UniqueKeys keys
    → IsIn r keys
    → p r ≡ false
    → IsIn s keys
    → p s ≡ true
    → same_key r s ≡ false
told_apart p r s keys unique i h j k = elim (Bool-cases (same_key r s)) [
  | inr n ↦ n
  | inl y ↦
      let old : p r ≡ true = subst (λ x. p x ≡ true) (sym (unique r s i j y)) k in
      absurd (ground arith)
]

batch-Stays :
    (time limit : ℕ) (locked : KeyRow → Bool) (r : KeyRow) (db : Database)
    → is_expired_key time locked r ≡ false
    → Stays r db
    → Stays r (delete_completed_before time limit locked db).0
unfolding delete_completed_before
batch-Stays time limit locked r db h (unique, i) =
    let p = is_expired_key time locked in
    let old = take limit (sort_by created_leb (keep p db.keys)) in
    let apart : any (same_key r) old ≡ false = every_other r old (
      All-imp (λ s both. told_apart p r s db.keys unique i h both.0 both.1) old
        (selected created_leb p limit db.keys)) in
    let kept = λ (s : KeyRow). not (any (same_key s) old) in
    (
      λ a b ia ib. unique a b (keep-IsIn kept a db.keys ia) (keep-IsIn kept b db.keys ib),
      IsIn-keep kept r db.keys (rw apart refl) i,
    )

still_young :
    (c : Cleaning) (r : KeyRow)
    → (is_in_progress r.status ≡ true) ⊎ (c.now ≤ r.created_at + idempotency_key_retention_ms)
    → is_expired_key (cutoff c) c.locked r ≡ false
unfolding is_expired_key
still_young c r (inl y) = rw y refl
still_young c r (inr young) = ground arith

-- Where the keys are told apart by their primary key, a cleanup keeps every key that is in progress
-- and every key that is at most 24 hours old at the instant of the run.
pub cleanup_idempotency_keys-kept :
    (c : Cleaning) (r : KeyRow) (db : Database)
    → UniqueKeys db.keys
    → IsIn r db.keys
    → (is_in_progress r.status ≡ true) ⊎ (c.now ≤ r.created_at + idempotency_key_retention_ms)
    → IsIn r (cleanup_idempotency_keys c db).0.keys
unfolding cleanup_idempotency_keys cleanup_batch
cleanup_idempotency_keys-kept c r db unique i young =
    (run_batches_inv ◌+◌ c.batch_size (cleanup_batch c) (Stays r)
      (λ number d. batch-Stays (cutoff c) c.batch_size c.locked r d (still_young c r young))
      c.max_batches 0 0 db (unique, i)).1
