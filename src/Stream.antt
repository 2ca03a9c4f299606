-- ===== src/Stream.antt =====
-- `std::istringstream` as the code uses it, and the decimal texts of src/globals.cpp.
use cppagent.Base.{
  ℕ, zero, suc, ◌+◌, ◌-◌, ◌*◌, ◌/◌, ◌%◌, Bool, true, false, ◌&&◌, Option, none, some, [], ◌∷◌, Text,
  split_first, is_digit, ◌==◌, if◌then◌else◌,
}

-- What a stream has left to read; `none` once a read has met the end.
abbrev pub Stream : Type 0
Stream = Option Text

-- `getline(stream, token, delimiter)`: the token, and the stream behind it. A stream that has met
-- its end leaves the token as it was.
unfoldable pub getline : ℕ → Stream → Text → Text × Stream
getline d none token = (token, none)
getline d (some s) token = elim (split_first (λ c. c == d) s) [
  | none ↦ (s, none)
  | some (a, b) ↦ (a, some b)
]

-- The stream as a condition after that read: it fails if nothing was there to extract.
unfoldable pub getline_ok : Stream → Bool
getline_ok none = false
getline_ok (some []) = false
getline_ok (some (c ∷ s)) = true

-- `getline(stream, token)`: the rest of the line, up to a newline.
unfoldable pub get_rest : Stream → Text → Text × Stream
unfolding getline
get_rest s token = getline 10 s token

-- `int64ToString`, `int32ToString` and `intToString`: the digits of a number, written before `acc`.
unfoldable pub digits_from : ℕ → ℕ → Text → Text
digits_from zero n acc = acc
digits_from (suc fuel) n acc =
    let rest = digits_from fuel (n / 10) ((b'0' + n % 10) ∷ acc) in
    if n / 10 == 0 then (b'0' + n % 10) ∷ acc else rest

unfoldable pub int64_to_string : ℕ → Text
unfolding digits_from
int64_to_string n = digits_from (suc n) n []

-- The number that the leading digits of a text write, as `strtoull` accumulates it.
unfoldable pub digits_value : ℕ → Text → ℕ
digits_value acc [] = acc
digits_value acc (c ∷ s) =
    let rest = digits_value (acc * 10 + (c - b'0')) s in if is_digit c then rest else acc

-- `isNonNegativeInteger`
unfoldable pub is_non_negative_integer : Text → Bool
is_non_negative_integer [] = true
is_non_negative_integer (c ∷ s) = is_digit c && is_non_negative_integer s
