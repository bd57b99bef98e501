-- ===== src/Payments/Keys.antt =====
-- api/src/idempotency/postgres/postgres-idempotency-repository.ts. Responses are kept whole.
pub mod Replay
use booking_flight_system_mi.Base.{
  ℕ, zero, suc, Bool, true, false, not, ◌&&◌, Option, none, some, List, [], ◌∷◌, keep, take, length,
  sort_by, any, find_first, update_where, leb, ltb, same, if◌then◌else◌, Text, Result, ok, thrown,
  key_not_in_progress, key_without_response,
}
use booking_flight_system_mi.Store.{
  Database, KeyRow, KeyStatus, in_progress, completed, StoredResponse, Transaction,
}

pub record KeyScope : Type 0 where
  pub account_id : Text
  pub operation : Text

pub data ClaimResult : Type 0 where
  claimed : ClaimResult
  claim_in_progress : Text → ClaimResult
  claim_completed : Text → StoredResponse → ClaimResult

abbrev pub is_in_progress : KeyStatus → Bool
is_in_progress in_progress = true
is_in_progress completed = false

-- The primary key of the table.
unfoldable pub is_key : KeyScope → Text → KeyRow → Bool
is_key scope key row =
    same row.account_id scope.account_id && same row.operation scope.operation && same row.key key

abbrev pub new_key : KeyScope → Text → Text → ℕ → KeyRow
new_key scope key fingerprint now = record {
  account_id = scope.account_id;
  operation = scope.operation;
  key = key;
  request_fingerprint = fingerprint;
  status = in_progress;
  response = none;
  payment_id = none;
  created_at = now;
  completed_at = none;
}

unfoldable pub read_key : KeyRow → Result ClaimResult
read_key row =
    if is_in_progress row.status
    then ok (claim_in_progress row.request_fingerprint)
    else (elim row.response [
      | none ↦ thrown key_without_response
      | some response ↦ ok (claim_completed row.request_fingerprint response)
    ])

abbrev answered_with : Result ClaimResult → Transaction ClaimResult
answered_with (ok r) db = ok (db, r)
answered_with (thrown e) db = thrown e

abbrev pub max_claim_attempts : ℕ
max_claim_attempts = 3

-- `others n` is what other transactions do to the keys between the two statements of the attempt
-- with `n` left.
unfoldable pub claim_from :
    ℕ → (ℕ → List KeyRow → List KeyRow) → KeyScope → Text → Text → ℕ → Transaction ClaimResult
claim_from zero others scope key fingerprint now db = thrown key_not_in_progress
claim_from (suc left) others scope key fingerprint now db =
    let seen = record db { keys = others left db.keys } in
    let retry = claim_from left others scope key fingerprint now seen in
    if any (is_key scope key) db.keys
    then (elim (find_first (is_key scope key) seen.keys) [
      | none ↦ retry
      | some row ↦ answered_with (read_key row) seen
    ])
    else ok (record db { keys = new_key scope key fingerprint now ∷ db.keys }, claimed)

unfoldable pub claim :
    (ℕ → List KeyRow → List KeyRow) → KeyScope → Text → Text → ℕ → Transaction ClaimResult
claim others = claim_from max_claim_attempts others

-- An UPDATE that must hit exactly one row.
unfoldable pub update_one_key : (KeyRow → Bool) → (KeyRow → KeyRow) → Transaction (Unit {0})
update_one_key p f db = elim (keep p db.keys) [
  | [] ↦ thrown key_not_in_progress
  | row ∷ [] ↦ ok (record db { keys = update_where p f db.keys }, tt)
  | row ∷ _ ∷ _ ↦ thrown key_not_in_progress
]

unfoldable pub is_open_key : KeyScope → Text → KeyRow → Bool
is_open_key scope key row = is_key scope key row && is_in_progress row.status

abbrev is_payment_key : Text → Option Text → Bool
is_payment_key id none = false
is_payment_key id (some i) = same i id

unfoldable pub is_open_for : Text → KeyRow → Bool
is_open_for payment_id row = is_payment_key payment_id row.payment_id && is_in_progress row.status

abbrev pub completed_key : StoredResponse → ℕ → KeyRow → KeyRow
completed_key response now row = record row {
  status = completed;
  response = some response;
  completed_at = some now;
}

unfoldable pub attach_payment : KeyScope → Text → Text → Transaction (Unit {0})
attach_payment scope key payment_id =
    update_one_key (is_open_key scope key) (λ row. record row { payment_id = some payment_id })

unfoldable pub complete : KeyScope → Text → StoredResponse → ℕ → Transaction (Unit {0})
complete scope key response now =
    update_one_key (is_open_key scope key) (completed_key response now)

unfoldable pub complete_for_payment : Text → StoredResponse → ℕ → Transaction (Unit {0})
complete_for_payment payment_id response now =
    update_one_key (is_open_for payment_id) (completed_key response now)

unfoldable pub release : KeyScope → Text → Transaction (Unit {0})
release scope key db =
    ok (record db { keys = keep (λ row. not (is_open_key scope key row)) db.keys }, tt)

unfoldable pub is_expired_key : ℕ → (KeyRow → Bool) → KeyRow → Bool
is_expired_key cutoff locked row =
    not (is_in_progress row.status) && ltb row.created_at cutoff && not (locked row)

unfoldable pub same_key : KeyRow → KeyRow → Bool
same_key r s = same r.account_id s.account_id && same r.operation s.operation && same r.key s.key

abbrev pub created_leb : KeyRow → KeyRow → Bool
created_leb r s = leb r.created_at s.created_at

unfoldable pub delete_completed_before : ℕ → ℕ → (KeyRow → Bool) → Database → Database × ℕ
delete_completed_before cutoff limit locked db =
    let old = take limit (sort_by created_leb (keep (is_expired_key cutoff locked) db.keys)) in
    (record db { keys = keep (λ r. not (any (same_key r) old)) db.keys }, length old)
