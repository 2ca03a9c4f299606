-- ===== src/Base/Texts.antt =====
-- Texts as lists of byte codes: `std::string` and the parts of its interface that the code uses.
use Prim.Native.Nat.{ℕ, ◌+◌, ◌-◌}
use Prim.Native.Char.{code}
use Prim.Native.String.{String}
use mathlib.Core.Path.{◌≡◌, refl}
use mathlib.Core.Logic.{◌↔◌}
use mathlib.Core.Bool.{Bool, true, false, ◌&&◌, ◌||◌}
use mathlib.Core.List.{List, [], ◌∷◌, ◌++◌}
use mathlib.Core.Option.{Option, none, some}
use native.Mathlib.Omega.{arith}
use cppagent.Base.Tests.{if◌then◌else◌, ◌==◌, ltb, leb}
use cppagent.Base.Lists.{any_of}

abbrev pub Text : Type 0
Text = List ℕ

-- The codes of a literal. `String` has its own `[]` and `∷`.
abbrev pub codes : String → Text
codes String.[] = []
codes (String.◌∷◌ c s) = code c ∷ codes s

-- `operator==`
abbrev pub text_eq : Text → Text → Bool
text_eq [] [] = true
text_eq [] (y ∷ ys) = false
text_eq (x ∷ xs) [] = false
text_eq (x ∷ xs) (y ∷ ys) = x == y && text_eq xs ys

-- `operator<`: lexicographic.
abbrev pub text_lt : Text → Text → Bool
text_lt [] [] = false
text_lt [] (y ∷ ys) = true
text_lt (x ∷ xs) [] = false
text_lt (x ∷ xs) (y ∷ ys) = ltb x y || x == y && text_lt xs ys

pub text_eq_sound : (a b : Text) → text_eq a b ≡ true → a ≡ b
text_eq_sound [] [] h = refl
text_eq_sound [] (y ∷ ys) h = cc
text_eq_sound (x ∷ xs) [] h = cc
text_eq_sound (x ∷ xs) (y ∷ ys) h = ground (arith, text_eq_sound xs ys)

pub text_eq_refl : (a : Text) → text_eq a a ≡ true
text_eq_refl [] = refl
text_eq_refl (x ∷ xs) = ground (arith, text_eq_refl xs)

pub text_eq_iff : (a b : Text) → (text_eq a b ≡ true) ↔ (a ≡ b)
text_eq_iff a b = (text_eq_sound a b, λ e. rw e (text_eq_refl b))

-- `find_first_of`: the text before the first of the separators, and the text behind it.
abbrev pub split_first : (ℕ → Bool) → Text → Option (Text × Text)
split_first p [] = none
split_first p (c ∷ s) =
    let rest = split_first p s in
    if p c then some ([], s) else elim rest [ none ↦ none | some (a, b) ↦ some (c ∷ a, b) ]

-- `rfind`: the text before the last occurrence, and the text behind it.
abbrev pub split_last : (ℕ → Bool) → Text → Option (Text × Text)
split_last p [] = none
split_last p (c ∷ s) = elim (split_last p s) [
  | some (a, b) ↦ some (c ∷ a, b)
  | none ↦ if p c then some ([], s) else none
]

-- A text begins with another, and what follows it.
abbrev pub strip_prefix : Text → Text → Option Text
strip_prefix [] s = some s
strip_prefix (c ∷ p) [] = none
strip_prefix (c ∷ p) (d ∷ s) = let rest = strip_prefix p s in if c == d then rest else none

-- `find(p) != npos` for a text `p`.
abbrev pub contains_text : Text → Text → Bool
contains_text p [] = elim (strip_prefix p []) [ none ↦ false | some _ ↦ true ]
contains_text p (c ∷ s) =
    let rest = contains_text p s in elim (strip_prefix p (c ∷ s)) [ none ↦ rest | some _ ↦ true ]

abbrev pub has_char : ℕ → Text → Bool
has_char c = any_of (λ d. d == c)

abbrev pub is_digit : ℕ → Bool
is_digit c = leb b'0' c && leb c b'9'

abbrev pub to_upper : ℕ → ℕ
to_upper c = if leb b'a' c && leb c b'z' then c - 32 else c

abbrev pub to_lower : ℕ → ℕ
to_lower c = if leb b'A' c && leb c b'Z' then c + 32 else c

-- A text is split at a separator behind a part that has none.
pub split_first-found :
    (p : ℕ → Bool) (u t : Text) (c : ℕ)
    → any_of p u ≡ false
    → p c ≡ true
    → split_first p (u ++ (c ∷ t)) ≡ some (u, t)
split_first-found p [] t c h k = ground arith
split_first-found p (d ∷ u) t c h k = ground (arith, split_first-found p u t c)

pub split_first-none : (p : ℕ → Bool) (u : Text) → any_of p u ≡ false → split_first p u ≡ none
split_first-none p [] h = refl
split_first-none p (d ∷ u) h = ground (arith, split_first-none p u)
