-- ===== src/Params.antt =====
-- The checks of the numbers in a query (src/agent.cpp, src/globals.cpp).
pub mod Bounds
use cppagent.Base.{
  ℕ, suc, ◌+◌, ◌-◌, ◌%◌, ◌^◌, Bool, true, false, not, ◌&&◌, ◌||◌, Option, none, some, List, [], ◌∷◌,
  ◌++◌, Text, Map, codes, lookup, is_digit, is_empty, ltb, leb, ◌==◌, if◌then◌else◌, ℤ, pos, negsuc,
  eq_ℤ, ltb_ℤ, leb_ℤ,
}
use cppagent.Stream.{digits_value, is_non_negative_integer, int64_to_string}

-- A value, or the code and the message of a `ParameterError`.
pub data Checked {ℓ} (A : Type ℓ) : Type ℓ where
  ok : A → Checked A
  err : Text → Text → Checked A

infixl 5 ◌>>=◌
abbrev pub ◌>>=◌ {ℓ κ} : {A : Type ℓ} {B : Type κ} → Checked A → (A → Checked B) → Checked B
ok a >>= f = f a
err c m >>= f = err c m

-- `queries[key]`: empty for a key that is not there.
abbrev pub query : Map Text → Text → Text
query queries key = elim (lookup key queries) [ none ↦ [] | some v ↦ v ]

-- `NO_VALUE32`
abbrev pub no_value32 : ℤ
no_value32 = negsuc 0

-- `NO_VALUE64`
abbrev pub no_value64 : ℕ
no_value64 = 2 ^ 64 - 1

abbrev is_sign : ℕ → Bool
is_sign c = c == b'-' || c == b'+'

-- `isInteger`
unfoldable pub is_integer : Text → Bool
is_integer [] = true
is_integer (c ∷ s) =
    if is_sign c then is_non_negative_integer s else is_non_negative_integer (c ∷ s)

-- An integer from its sign and its size.
abbrev pub signed : Bool → ℕ → ℤ
signed false n = pos n
signed true n = if n == 0 then pos 0 else negsuc (n - 1)

-- What `stringToInt` makes of the digits behind the sign: `stoi` throws where there is none, which
-- gives 0, and where the number leaves the 32-bit range, which gives the default.
from_digits : Bool → Text → ℤ → ℤ
from_digits minus [] default = pos 0
from_digits minus (c ∷ s) default =
    let n = digits_value 0 (c ∷ s) in
    if not (is_digit c)
    then pos 0
    else if leb n (if minus then 2 ^ 31 else 2 ^ 31 - 1)
    then signed minus n
    else default

-- `stringToInt`, behind white space that `stoi` skips.
unfoldable pub string_to_int : Text → ℤ → ℤ
unfolding from_digits
string_to_int [] default = pos 0
string_to_int (c ∷ s) default =
    let skipped = string_to_int s default in
    if c == 32 || leb 9 c && leb c 13
    then skipped
    else if c == b'-'
    then from_digits true s default
    else if c == b'+'
    then from_digits false s default
    else from_digits false (c ∷ s) default

-- `strtoull` of a text of digits: the largest number where the digits leave the range.
unfoldable pub string_to_ull : Text → ℕ
string_to_ull s = let n = digits_value 0 s in if ltb n (2 ^ 64) then n else 2 ^ 64 - 1

-- `int32ToString`
unfoldable pub int32_to_string : ℤ → Text
int32_to_string (pos n) = int64_to_string n
int32_to_string (negsuc n) = b'-' ∷ int64_to_string (n + 1)

-- The message about a parameter.
abbrev about : Text → Text → Text
about param text = b'\'' ∷ (param ++ (b'\'' ∷ text))

-- The checks of `checkAndGetParam` on a value that is a number.
unfoldable pub limit_int : Text → ℤ → Bool → ℤ → ℤ → Checked ℤ
limit_int param min_value min_error max_value value =
    if not (eq_ℤ min_value no_value32) && ltb_ℤ value min_value
    then (if min_error
        then err (codes "OUT_OF_RANGE") (
            about param (
              codes " must be greater than or equal to "
              ++ (int32_to_string min_value ++ codes ".")))
        else ok min_value)
    else if not (eq_ℤ max_value no_value32) && ltb_ℤ max_value value
    then err (codes "OUT_OF_RANGE") (
        about param
          (codes " must be less than or equal to " ++ (int32_to_string max_value ++ codes ".")))
    else ok value

abbrev add_one : ℤ → ℤ
add_one (pos n) = pos (n + 1)
add_one (negsuc n) = if n == 0 then pos 0 else negsuc (n - 1)

-- The checks on a text that is there.
unfoldable pub check_int : Text → Text → ℤ → Bool → ℤ → Bool → Checked ℤ
check_int param v min_value min_error max_value positive =
    if is_empty v
    then err (codes "QUERY_ERROR") (about param (codes " cannot be empty."))
    else if positive && not (is_non_negative_integer v)
    then err (codes "OUT_OF_RANGE") (about param (codes " must be a positive integer."))
    else if not positive && not (is_integer v)
    then err (codes "OUT_OF_RANGE") (about param (codes " must an integer."))
    else limit_int param min_value min_error max_value (string_to_int v (add_one max_value))

-- `checkAndGetParam`
unfoldable pub check_and_get_param : Map Text → Text → ℤ → ℤ → Bool → ℤ → Bool → Checked ℤ
check_and_get_param queries param default_value min_value min_error max_value positive =
    elim (lookup param queries) [
      | none ↦ ok default_value
      | some v ↦ check_int param v min_value min_error max_value positive
    ]

-- The checks of `checkAndGetParam64` on a value that is a number.
unfoldable pub limit_64 : Text → ℕ → Bool → ℕ → ℕ → Checked ℕ
limit_64 param min_value min_error max_value value =
    if not (min_value == no_value64) && ltb value min_value
    then (if min_error
        then err (codes "OUT_OF_RANGE") (
            about param (
              codes " must be greater than or equal to "
              ++ (int64_to_string (min_value % 2 ^ 32) ++ codes ".")))
        else ok min_value)
    else if not (max_value == no_value64) && ltb max_value value
    then err (codes "OUT_OF_RANGE") (
        about param
          (codes " must be less than or equal to " ++ (int64_to_string max_value ++ codes ".")))
    else ok value

-- The checks on a text that is there. The message about the least value is printed by `intToString`,
-- which keeps its low 32 bits.
unfoldable pub check_64 : Text → Text → ℕ → Bool → ℕ → Checked ℕ
check_64 param v min_value min_error max_value =
    if is_empty v
    then err (codes "QUERY_ERROR") (about param (codes " cannot be empty."))
    else if not (is_non_negative_integer v)
    then err (codes "OUT_OF_RANGE") (about param (codes " must be a positive integer."))
    else limit_64 param min_value min_error max_value (string_to_ull v)

-- `checkAndGetParam64`
unfoldable pub check_and_get_param64 : Map Text → Text → ℕ → ℕ → Bool → ℕ → Checked ℕ
check_and_get_param64 queries param default_value min_value min_error max_value =
    elim (lookup param queries) [
      | none ↦ ok default_value
      | some v ↦ check_64 param v min_value min_error max_value
    ]
