-- ===== src/Base/Faults.antt =====
-- A computation that may throw. `Fault` names the `throw` statements of the source.
use mathlib.Core.Path.{◌≡◌, refl}
use mathlib.Core.Bool.{Bool, true, false}
use mathlib.Core.List.{List, [], ◌∷◌}
use booking_flight_system_mi.Base.Lists.{length}
use mathlib.Core.Logic.{◌⊎◌, inl, inr}
use native.Mathlib.Omega.{arith}

pub data Fault : Type 0 where
  range_error : Fault
  unexpected_status : Fault
  seat_without_fare : Fault
  seat_missing : Fault
  invalid_seat_code : Fault
  seat_count_mismatch : Fault
  reference_exhausted : Fault
  not_read_back : Fault
  seat_not_booked : Fault
  passenger_without_seat : Fault
  cancel_disagrees : Fault
  wrong_payment_status : Fault
  key_not_in_progress : Fault
  key_without_response : Fault
  payment_without_token : Fault
  payment_without_reference : Fault
  unique_violation : Fault
  foreign_key_violation : Fault
  check_violation : Fault

pub data Result {ℓ} (A : Type ℓ) : Type ℓ where
  ok : A → Result A
  thrown : Fault → Result A

infixl 5 ◌>>=◌
-- A throw ends the chain.
abbrev pub ◌>>=◌ {κ ℓ} : {X : Type κ} {Y : Type ℓ} → Result X → (X → Result Y) → Result Y
thrown fault >>= next = thrown fault
ok x >>= next = next x

-- A chain that returned has run its first step.
pub >>=-ok {κ ℓ} :
    {X : Type κ} {Y : Type ℓ} {y : Y} (first : Result X) (next : X → Result Y)
    → (first >>= next) ≡ ok y
    → (x : X) × (first ≡ ok x) × (next x ≡ ok y)
>>=-ok (thrown fault) next returned = cc
>>=-ok (ok x) next returned = (x, refl, returned)

pub Result-cases {ℓ} :
    {A : Type ℓ} (r : Result A) → ((a : A) × (r ≡ ok a)) ⊎ ((e : Fault) × (r ≡ thrown e))
Result-cases (ok a) = inl (a, refl)
Result-cases (thrown e) = inr (e, refl)

abbrev pub is_ok {ℓ} : {A : Type ℓ} → Result A → Bool
is_ok (ok a) = true
is_ok (thrown e) = false

-- `map` with a function that may throw: the first throw ends it.
unfoldable pub traverse {ℓ κ} :
    {A : Type ℓ} {B : Type κ} → (A → Result B) → List A → Result (List B)
traverse f [] = ok []
traverse f (x ∷ xs) = do y ← f x; ys ← traverse f xs; ok (y ∷ ys)

pub length-traverse {ℓ κ} :
    {A : Type ℓ} {B : Type κ} (f : A → Result B) (xs : List A) (ys : List B)
    → traverse f xs ≡ ok ys
    → length ys ≡ length xs
unfolding traverse
length-traverse f [] ys e = ground arith
length-traverse f (x ∷ xs) ys e =
    let (y, _, rest) = >>=-ok (f x) _ e in
    let (zs, more, same) = >>=-ok (traverse f xs) _ rest in
    ground (arith, length-traverse f xs zs more)
