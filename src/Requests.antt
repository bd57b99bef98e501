-- ===== src/Requests.antt =====
-- Request bodies and their validation: api/src/validation.ts and the issues of api/src/types.ts.
-- The messages of the issues are not modelled, their fields and codes are.
use booking_flight_system_mi.Base.{
  ℕ, zero, suc, Bool, true, false, not, ◌&&◌, ◌||◌, Option, none, some, List, [], ◌∷◌, ◌++◌, leb,
  ◌==◌, if◌then◌else◌, Text, same, text, decimal,
}
use booking_flight_system_mi.Money.{Num}
use mathlib.Core.List.{reverse}

-- A parsed JSON value; `undefined` is an absent property.
mutual
  pub data Value : Type 0 where
    undefined null : Value
    boolean : Bool → Value
    number : Num → Value
    string : Text → Value
    array : Items → Value
    object : Fields → Value

  pub data Items : Type 0 where
    nil : Items
    cons : Value → Items → Items

  pub data Fields : Type 0 where
    end : Fields
    field : Text → Value → Fields → Fields

abbrev pub elems : Items → List Value
elems nil = []
elems (cons v vs) = v ∷ elems vs

unfoldable pub property_of : Fields → Text → Value
unfolding same
property_of end key = undefined
property_of (field k v fs) key = if same k key then v else property_of fs key

-- `value.key` of a plain object.
unfoldable pub property : Value → Text → Value
unfolding property_of
property (object fs) key = property_of fs key
property _ key = undefined

unfoldable pub is_plain_object : Value → Bool
is_plain_object (object fs) = true
is_plain_object _ = false

abbrev pub is_undefined : Value → Bool
is_undefined undefined = true
is_undefined _ = false

-- White space and line terminators of ECMAScript.
abbrev pub is_space : ℕ → Bool
is_space c =
    (leb 9 c && leb c 13)
    || c == 32
    || c == 0xA0
    || c == 0x1680
    || (leb 0x2000 c && leb c 0x200A)
    || c == 0x2028
    || c == 0x2029
    || c == 0x202F
    || c == 0x205F
    || c == 0x3000
    || c == 0xFEFF

unfoldable pub trim_start : Text → Text
trim_start [] = []
trim_start (c ∷ cs) = if is_space c then trim_start cs else c ∷ cs

unfoldable pub trim : Text → Text
unfolding trim_start
trim t = reverse (trim_start (reverse (trim_start t)))

abbrev pub is_empty : Text → Bool
is_empty [] = true
is_empty (c ∷ cs) = false

unfoldable pub is_non_empty_string : Value → Bool
unfolding trim
is_non_empty_string (string t) = not (is_empty (trim t))
is_non_empty_string _ = false

pub record ValidationIssue : Type 0 where
  pub field_name : Text
  pub code : Text

abbrev pub issue : Text → Text → ValidationIssue
issue field_name code = record { field_name = field_name; code = code }

pub data ValidationResult (A : Type 0) : Type 0 where
  success : A → ValidationResult A
  failure : List ValidationIssue → ValidationResult A

-- `passengers[2]`.
abbrev pub indexed : Text → ℕ → Text
indexed name index = name ++ text "[" ++ decimal index ++ text "]"

abbrev is_hex : ℕ → Bool
is_hex c = (leb b'0' c && leb c b'9') || (leb b'a' c && leb c b'f') || (leb b'A' c && leb c b'F')

-- `n` hexadecimal digits at the head of a text, and the rest.
hex_run : ℕ → Text → Option Text
hex_run zero t = some t
hex_run (suc n) [] = none
hex_run (suc n) (c ∷ cs) = if is_hex c then hex_run n cs else none

abbrev dash : Option Text → Option Text
dash none = none
dash (some []) = none
dash (some (c ∷ cs)) = if c == b'-' then some cs else none

abbrev then_run : ℕ → Option Text → Option Text
then_run n none = none
then_run n (some t) = hex_run n t

abbrev at_end : Option Text → Bool
at_end none = false
at_end (some t) = is_empty t

-- `UUID_PATTERN.test`.
unfoldable pub is_uuid : Text → Bool
unfolding hex_run
is_uuid t =
    at_end
      (then_run 12 (dash (then_run 4 (dash (then_run 4 (dash (then_run 4 (dash (hex_run 8 t)))))))))
