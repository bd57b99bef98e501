-- ===== src/Payments/Keys/Replay.antt =====
-- A completed key answers every later claim with the stored response.
use booking_flight_system_mi.Base.{
  ℕ, zero, suc, ◌≡◌, refl, ap, sym, ◌∙◌, Bool, true, Option, some, List, [], ◌∷◌, update_where, any,
  find_first, Bool-cases, Option-cases, inl, inr, Text, arith, ok, Result-cases, same_refl,
}
use booking_flight_system_mi.Store.{Database, KeyRow, StoredResponse}
use booking_flight_system_mi.Payments.Keys.{
  KeyScope, ClaimResult, claimed, is_key, is_open_key, new_key, read_key, claim_from, complete,
  completed_key, update_one_key, is_in_progress,
}

-- Whether a claim found the key or wrote it, the key is in the table: `UNIQUE` rows aside, the
-- first row with it.
abbrev pub row_of : KeyScope → Text → List KeyRow → Option KeyRow
row_of scope key = find_first (is_key scope key)

-- An UPDATE that hit one row.
pub update_one_key-written :
    (sel : KeyRow → Bool) (f : KeyRow → KeyRow) (db db' : Database)
    → update_one_key sel f db ≡ ok (db', tt)
    → db' ≡ record db { keys = update_where sel f db.keys }
unfolding update_one_key
update_one_key-written sel f db db' e = ground arith

any-find_first :
    {A : Type 0} (p : A → Bool) (a : A) (xs : List A) → find_first p xs ≡ some a → any p xs ≡ true
any-find_first p a [] e = absurd (cc)
any-find_first p a (x ∷ xs) e = elim (Bool-cases (p x)) [
  | inl y ↦ rw y refl
  | inr n ↦ ground (arith, any-find_first p a xs)
]

pub claim-present :
    (left : ℕ) (others : ℕ → List KeyRow → List KeyRow) (scope : KeyScope) (key fingerprint : Text)
    (now : ℕ) (db : Database) (old row : KeyRow) (r : ClaimResult)
    → row_of scope key db.keys ≡ some old
    → row_of scope key (others left db.keys) ≡ some row
    → read_key row ≡ ok r
    → claim_from (suc left) others scope key fingerprint now db
      ≡ ok (record db { keys = others left db.keys }, r)
unfolding claim_from
claim-present left others scope key fingerprint now db old row r e y k =
    rw (any-find_first (is_key scope key) old db.keys e, y, k) refl

read_key_claimed : (row : KeyRow) → read_key row ≡ ok claimed → ⊥
unfolding read_key
read_key_claimed row e = elim (Bool-cases (is_in_progress row.status)) [
  | inl y ↦ ground arith
  | inr n ↦ elim (Option-cases row.response) [
    | inl missing ↦ ground arith
    | inr (response, given) ↦ ground arith
  ]
]

pub is_key-new_key :
    (scope : KeyScope) (key fingerprint : Text) (now : ℕ)
    → is_key scope key (new_key scope key fingerprint now) ≡ true
unfolding is_key
is_key-new_key scope key fingerprint now =
    rw (same_refl scope.account_id, same_refl scope.operation, same_refl key) refl

-- A claim that won has put the new row in the table.
pub claim_from-claimed :
    (left : ℕ) (others : ℕ → List KeyRow → List KeyRow) (scope : KeyScope) (key fingerprint : Text)
    (now : ℕ) (db db' : Database)
    → claim_from left others scope key fingerprint now db ≡ ok (db', claimed)
    → row_of scope key db'.keys ≡ some (new_key scope key fingerprint now)
unfolding claim_from
claim_from-claimed zero others scope key fingerprint now db db' e = absurd (cc)
claim_from-claimed (suc left) others scope key fingerprint now db db' e =
    elim (Bool-cases (any (is_key scope key) db.keys)) [
      | inr n ↦
          let added : db'.keys ≡ new_key scope key fingerprint now ∷ db.keys = ground arith in
          rw (added, is_key-new_key scope key fingerprint now) refl
      | inl y ↦ elim (Option-cases (row_of scope key (others left db.keys))) [
        | inl missing ↦
            claim_from-claimed left others scope key fingerprint now
              (record db { keys = others left db.keys }) db' (ground arith)
        | inr (row, found) ↦ elim (Result-cases (read_key row)) [
          | inr (x, n) ↦ absurd (ground arith)
          | inl (r, said) ↦
              let won : r ≡ claimed = ground arith in
              absurd (read_key_claimed row (said ∙ ap ok won))
        ]
      ]
    ]

find_first-update_where :
    {A : Type 0} (p sel : A → Bool) (f : A → A) (a : A)
    → ((x : A) → p (f x) ≡ p x)
    → sel a ≡ true
    → (xs : List A) → find_first p xs ≡ some a
    → find_first p (update_where sel f xs) ≡ some (f a)
find_first-update_where p sel f a keeps chosen [] e = absurd (cc)
find_first-update_where p sel f a keeps chosen (x ∷ xs) e = elim (Bool-cases (p x)) [
  | inl y ↦
      let first : x ≡ a = ground arith in rw (first, chosen, keeps a) (rw (sym first) (rw y refl))
  | inr n ↦
      let rest = find_first-update_where p sel f a keeps chosen xs (ground arith) in
      elim (Bool-cases (sel x)) [ inl y ↦ rw (y, keeps x, n) rest | inr m ↦ rw (m, n) rest ]
]

completed_key-is_key :
    (scope : KeyScope) (key : Text) (response : StoredResponse) (now : ℕ) (row : KeyRow)
    → is_key scope key (completed_key response now row) ≡ is_key scope key row
unfolding is_key
completed_key-is_key scope key response now row = refl

pub complete-row_of :
    (scope : KeyScope) (key : Text) (response : StoredResponse) (now : ℕ) (db db' : Database)
    (row : KeyRow)
    → row_of scope key db.keys ≡ some row
    → is_in_progress row.status ≡ true
    → is_key scope key row ≡ true
    → complete scope key response now db ≡ ok (db', tt)
    → row_of scope key db'.keys ≡ some (completed_key response now row)
unfolding complete is_open_key
complete-row_of scope key response now db db' row found unanswered its e =
    rw (update_one_key-written _ _ db db' e) (
      find_first-update_where (is_key scope key) (is_open_key scope key)
        (completed_key response now) row (completed_key-is_key scope key response now)
        (ground arith) db.keys found)

-- A claim writes nothing but keys.
pub claim_from-frame :
    (left : ℕ) (others : ℕ → List KeyRow → List KeyRow) (scope : KeyScope) (key fingerprint : Text)
    (now : ℕ) (db db' : Database) (r : ClaimResult)
    → claim_from left others scope key fingerprint now db ≡ ok (db', r)
    → db' ≡ record db { keys = db'.keys }
unfolding claim_from
claim_from-frame zero others scope key fingerprint now db db' r e = absurd (cc)
claim_from-frame (suc left) others scope key fingerprint now db db' r e =
    elim (Bool-cases (any (is_key scope key) db.keys)) [
      | inr n ↦ ground arith
      | inl y ↦ elim (Option-cases (row_of scope key (others left db.keys))) [
        | inl missing ↦
            claim_from-frame left others scope key fingerprint now
              (record db { keys = others left db.keys }) db' r (ground arith)
        | inr (row, found) ↦ elim (Result-cases (read_key row)) [
          | inr (x, n) ↦ absurd (ground arith)
          | inl (r', said) ↦ ground arith
        ]
      ]
    ]
