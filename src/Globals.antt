-- ===== src/Globals.antt =====
-- Texts in XML (src/globals.cpp): `replaceIllegalCharacters`.
pub mod Escapes
use cppagent.Base.{
  ℕ, zero, suc, ◌*◌, Bool, true, false, Option, none, some, List, [], ◌∷◌, ◌++◌, Text, codes,
  length, ◌==◌, if◌then◌else◌,
}

-- What a character is replaced by, behind the first character of the replacement, which is an
-- ampersand.
abbrev pub replacement : ℕ → Option Text
replacement c =
    if c == b'&'
    then some (codes "amp;")
    else if c == b'<'
    then some (codes "lt;")
    else if c == b'>'
    then some (codes "gt;")
    else none

-- The loop over the positions, from a position on. It also runs over what it has put in.
unfoldable pub replace_from : ℕ → Text → Text
replace_from fuel [] = []
replace_from zero (c ∷ s) = c ∷ s
replace_from (suc fuel) (c ∷ s) = elim (replacement c) [
  | none ↦ c ∷ replace_from fuel s
  | some text ↦ b'&' ∷ replace_from fuel (text ++ s)
]

-- `replaceIllegalCharacters`: a character becomes five at most.
unfoldable pub replace_illegal_characters : Text → Text
unfolding replace_from
replace_illegal_characters s = replace_from (5 * length s) s
