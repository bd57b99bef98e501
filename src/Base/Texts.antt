-- ===== src/Base/Texts.antt =====
-- Text as JavaScript reads it: a list of code units, with equality, order and decimal printing.
use Prim.Native.Nat.{ℕ, zero, suc, ◌+◌, ◌/◌, ◌%◌, ◌<◌, ◌≤◌}
use Prim.Native.Char.{code}
use Prim.Native.String.{String}
use mathlib.Core.Path.{◌≡◌, refl}
use mathlib.Core.Logic.{◌↔◌}
use mathlib.Core.Bool.{Bool, true, false, ◌&&◌, ◌||◌}
use mathlib.Core.List.{List, [], ◌∷◌, ◌++◌}
use native.Mathlib.Omega.{arith}
use booking_flight_system_mi.Base.Tests.{ltb, ◌==◌, if◌then◌else◌}

abbrev pub Text : Type 0
Text = List ℕ

-- A literal of the source.
abbrev pub text : String → Text
text String.[] = []
text (String.◌∷◌ c s) = code c ∷ text s

-- `===` on strings.
unfoldable pub same : Text → Text → Bool
same [] [] = true
same [] (y ∷ ys) = false
same (x ∷ xs) [] = false
same (x ∷ xs) (y ∷ ys) = (x == y) && same xs ys

same_sound : (s t : Text) → same s t ≡ true → s ≡ t
unfolding same
same_sound [] [] h = refl
same_sound [] (y ∷ ys) h = cc
same_sound (x ∷ xs) [] h = cc
same_sound (x ∷ xs) (y ∷ ys) h = ground (arith, same_sound xs ys)

pub same_refl : (s : Text) → same s s ≡ true
unfolding same
same_refl [] = refl
same_refl (x ∷ xs) = ground (arith, same_refl xs)

pub same_complete : (s t : Text) → s ≡ t → same s t ≡ true
same_complete s t e = rw e (same_refl t)

pub same_iff : (s t : Text) → (same s t ≡ true) ↔ (s ≡ t)
same_iff s t = (same_sound s t, same_complete s t)

-- `s < t` or equal, by code unit.
unfoldable pub text_leb : Text → Text → Bool
text_leb [] t = true
text_leb (x ∷ xs) [] = false
text_leb (x ∷ xs) (y ∷ ys) = ltb x y || ((x == y) && text_leb xs ys)

abbrev pub digit : ℕ → ℕ
digit n = n + b'0'

-- The decimal digits of `n`, most significant first; `n` rounds are enough.
unfoldable pub decimal_from : ℕ → ℕ → Text
decimal_from zero n = digit n ∷ []
decimal_from (suc fuel) n =
    let more = decimal_from fuel (n / 10) ++ digit (n % 10) ∷ [] in
    if ltb n 10 then digit n ∷ [] else more

unfoldable pub decimal : ℕ → Text
unfolding decimal_from
decimal n = decimal_from n n

-- Rows and positions have one or two digits.
pub decimal_one : (n : ℕ) → n < 10 → decimal n ≡ digit n ∷ []
unfolding decimal
decimal_one zero h = refl
decimal_one (suc n) h = ground arith

pub decimal_two : (n : ℕ) → 10 ≤ n → n < 100 → decimal n ≡ digit (n / 10) ∷ digit (n % 10) ∷ []
unfolding decimal
decimal_two zero h k = absurd (omega arith)
decimal_two (suc zero) h k = absurd (omega arith)
decimal_two (suc (suc n)) h k = ground arith
