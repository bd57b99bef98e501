-- ===== src/Payments/Gateway/Charges.antt =====
-- The simulated gateway remembers the results of its charges.
use booking_flight_system_mi.Base.{
  ◌≡◌, refl, subst, true, false, none, some, List, ◌∷◌, inl, inr, ◌⊎◌, Text, same, same_refl,
  same_iff, Bool-cases, Option-cases, arith,
}
use booking_flight_system_mi.Payments.Gateway.{ChargeRequest, ChargeResult, is_unknown}
use booking_flight_system_mi.Payments.Gateway.Simulated.{
  Simulator, get, outcome_of, goes_unanswered, provider, called, gets_through, simulated_charge,
  timeout_before_charge_token, lost_response_token,
}

get_newest :
    {A : Type 0} (key : Text) (a : A) (entries : List (Text × A))
    → get key ((key, a) ∷ entries) ≡ some a
unfolding get
get_newest key a entries = rw (same_refl key) refl

get_older :
    {A : Type 0} (key other : Text) (a : A) (entries : List (Text × A))
    → same other key ≡ false
    → get key ((other, a) ∷ entries) ≡ get key entries
unfolding get
get_older key other a entries h = rw h refl

-- A result once remembered stays: the provider only adds one for an id that has none.
provider_keeps :
    (r : ChargeRequest) (s : Simulator) (id : Text) (x : ChargeResult)
    → get id s.charges ≡ some x
    → get id (provider r s).0.charges ≡ some x
unfolding provider
provider_keeps r s id x h = elim (Option-cases (get r.payment_id s.charges)) [
  | inr (previous, y) ↦ ground arith
  | inl missing ↦ elim (Bool-cases (same r.payment_id id)) [
    | inl its ↦
        let e = (same_iff r.payment_id id).0 its in
        let none_there : get id s.charges ≡ none = subst (λ k. get k s.charges ≡ none) e missing in
        absurd (ground arith)
    | inr other ↦
        let older = get_older id r.payment_id (outcome_of r) s.charges other in
        elim (Bool-cases (goes_unanswered timeout_before_charge_token r s)) [
          | inl y ↦ ground arith
          | inr n ↦ elim (Bool-cases (goes_unanswered lost_response_token r s)) [
            | inl y ↦ ground arith
            | inr m ↦ ground arith
          ]
        ]
  ]
]

-- An answer is the result remembered.
provider_answers :
    (r : ChargeRequest) (s : Simulator) (x : ChargeResult)
    → (provider r s).1 ≡ some x
    → get r.payment_id (provider r s).0.charges ≡ some x
unfolding provider
provider_answers r s x h = elim (Option-cases (get r.payment_id s.charges)) [
  | inr (previous, y) ↦ ground arith
  | inl missing ↦
      let newest = get_newest r.payment_id (outcome_of r) s.charges in
      elim (Bool-cases (goes_unanswered timeout_before_charge_token r s)) [
        | inl y ↦ absurd (ground arith)
        | inr n ↦ elim (Bool-cases (goes_unanswered lost_response_token r s)) [
          | inl y ↦ absurd (ground arith)
          | inr m ↦ ground arith
        ]
      ]
]

provider_again :
    (r : ChargeRequest) (s : Simulator) (x : ChargeResult)
    → get r.payment_id s.charges ≡ some x
    → (provider r s).1 ≡ some x
unfolding provider
provider_again r s x h = ground arith

pub charge_keeps_lem :
    (r : ChargeRequest) (s : Simulator) (id : Text) (x : ChargeResult)
    → get id s.charges ≡ some x
    → get id (simulated_charge r s).0.charges ≡ some x
unfolding simulated_charge
charge_keeps_lem r s id x h = elim (Bool-cases (gets_through s.network)) [
  | inl y ↦ let kept = provider_keeps r (called s) id x h in ground arith
  | inr n ↦ ground arith
]

pub charge_answers_lem :
    (r : ChargeRequest) (s : Simulator)
    → is_unknown (simulated_charge r s).1 ≡ false
    → get r.payment_id (simulated_charge r s).0.charges ≡ some (simulated_charge r s).1
unfolding simulated_charge
charge_answers_lem r s h = elim (Bool-cases (gets_through s.network)) [
  | inl y ↦ elim (Option-cases (provider r (called s)).1) [
    | inl missing ↦ absurd (ground arith)
    | inr (x, e) ↦ let remembered = provider_answers r (called s) x e in ground arith
  ]
  | inr n ↦ absurd (ground arith)
]

pub charge_again_lem :
    (r : ChargeRequest) (s : Simulator) (x : ChargeResult)
    → get r.payment_id s.charges ≡ some x
    → ((simulated_charge r s).1 ≡ x) ⊎ (is_unknown (simulated_charge r s).1 ≡ true)
unfolding simulated_charge
charge_again_lem r s x h = elim (Bool-cases (gets_through s.network)) [
  | inl y ↦ let told = provider_again r (called s) x h in inl (ground arith)
  | inr n ↦ inr (ground arith)
]
