-- ===== src/Outbox/Pending.antt =====
-- What `findUnpublished` selects.
use booking_flight_system_mi.Base.{
  ℕ, zero, suc, ◌≤◌, ◌≡◌, ◌⊎◌, refl, sym, ap, ◌∙◌, subst, inl, inr, Bool, false, not, List, [], ◌∷◌,
  ◌++◌, take, keep, length, length-take_le, leb→le, All, All-imp, All-take, All-sort_by,
  All-insert_by, All-keep_test, sort_by, insert_by, count, count-sort_by, Bool-cases, arith,
}
use booking_flight_system_mi.Store.{Database, OutboxRow}
use booking_flight_system_mi.Outbox.{created_leb, find_unpublished}

-- Each row was created no later than those after it.
abbrev pub InOrder : List OutboxRow → Type 0
InOrder [] = Unit
InOrder (r ∷ rows) = All (λ s. r.created_at ≤ s.created_at) rows × InOrder rows

-- The entries of a batch, with the rows left for later ones: together they are the unpublished rows
-- of the table, each as often, and in the order of their creation.
pub record Pending (limit : ℕ) (outbox entries : List OutboxRow) : Type 0 where
  pub later : List OutboxRow
  pub unpublished : All (λ r. r.published ≡ false) entries
  pub the_table :
      (p : OutboxRow → Bool)
      → count p (entries ++ later) ≡ count p (keep (λ r. not r.published) outbox)
  pub by_creation : InOrder (entries ++ later)
  pub within : length entries ≤ limit
  pub full : (later ≡ []) ⊎ (length entries ≡ limit)

insert_by-InOrder :
    (r : OutboxRow) (rows : List OutboxRow) → InOrder rows → InOrder (insert_by created_leb r rows)
unfolding insert_by
insert_by-InOrder r [] h = (tt, tt)
insert_by-InOrder r (s ∷ rows) h = elim (Bool-cases (created_leb r s)) [
  | inl y ↦
      let first = leb→le r.created_at s.created_at y in
      rw y ((first, All-imp (λ t k. omega (arith, first, k)) rows h.0), h)
  | inr n ↦
      let first : s.created_at ≤ r.created_at = ground arith in
      rw n (
        All-insert_by created_leb (λ t. s.created_at ≤ t.created_at) r rows first h.0,
        insert_by-InOrder r rows h.1,
      )
]

sort_by-InOrder : (rows : List OutboxRow) → InOrder (sort_by created_leb rows)
unfolding sort_by
sort_by-InOrder [] = tt
sort_by-InOrder (r ∷ rows) = insert_by-InOrder r (sort_by created_leb rows) (sort_by-InOrder rows)

-- The rows past the limit.
abbrev left_over : ℕ → List OutboxRow → List OutboxRow
left_over zero rows = rows
left_over (suc n) [] = []
left_over (suc n) (r ∷ rows) = left_over n rows

take-left_over : (n : ℕ) (rows : List OutboxRow) → take n rows ++ left_over n rows ≡ rows
take-left_over zero rows = refl
take-left_over (suc n) [] = refl
take-left_over (suc n) (r ∷ rows) = ap (λ l. r ∷ l) (take-left_over n rows)

left_over_full :
    (n : ℕ) (rows : List OutboxRow) → (left_over n rows ≡ []) ⊎ (length (take n rows) ≡ n)
left_over_full zero rows = inr refl
left_over_full (suc n) [] = inl refl
left_over_full (suc n) (r ∷ rows) = elim (left_over_full n rows) [
  | inl none_left ↦ inl none_left
  | inr whole ↦ inr (ap suc whole)
]

pub find_unpublished-Pending :
    (limit : ℕ) (db : Database) → Pending limit db.outbox (find_unpublished limit db)
unfolding find_unpublished
find_unpublished-Pending limit db =
    let waiting = keep (λ r. not r.published) db.outbox in
    let rows = sort_by created_leb waiting in
    let open_rows : All (λ r. r.published ≡ false) waiting =
      All-imp (λ r h. ground arith) waiting (All-keep_test _ db.outbox) in
    record {
      later = left_over limit rows;
      unpublished = All-take _ limit rows (All-sort_by created_leb _ waiting open_rows);
      the_table =
          λ p. ap (count p) (take-left_over limit rows) ∙ count-sort_by created_leb p waiting;
      by_creation = subst InOrder (sym (take-left_over limit rows)) (sort_by-InOrder waiting);
      within = length-take_le limit rows;
      full = left_over_full limit rows;
    }
