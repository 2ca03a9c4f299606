-- ===== src/Observation/Values/Escapes.antt =====
-- Quoted values of a data set are read back from their escaped form (src/observation.cpp,
-- `parseDataSet`).
use cppagent.Base.{
  ℕ, ◌≡◌, refl, Bool, true, false, some, All, ◌==◌, [], ◌∷◌, ◌++◌, Text, if◌then◌else◌, arith, inl,
  inr, Bool-cases, ap,
}
use cppagent.Observation.Values.{Match, entry_of, unescape, unquoted, back, but_last}

-- A text with a backslash in front of every character of a kind.
abbrev pub escape : (ℕ → Bool) → Text → Text
escape p [] = []
escape p (c ∷ s) = if p c then b'\\' ∷ (c ∷ escape p s) else c ∷ escape p s

-- The opening quotes with the closing ones.
pub data Quotes : ℕ → ℕ → Type 0 where
  double_quotes : Quotes b'"' b'"'
  single_quotes : Quotes b'\'' b'\''
  braces : Quotes b'{' b'}'

-- Every backslash of a text is escaped.
abbrev pub EscapesBackslash : (ℕ → Bool) → Text → Type 0
EscapesBackslash p = All (λ c. (c == b'\\') ≡ true → p c ≡ true)

unescape-escape : (p : ℕ → Bool) (s : Text) → EscapesBackslash p s → unescape false (escape p s) ≡ s
unfolding unescape
unescape-escape p [] h = refl
unescape-escape p (c ∷ s) h = elim (Bool-cases (p c)) [
  | inl e ↦ rw e (ap (λ t. c ∷ t) (unescape-escape p s h.1))
  | inr e ↦ rw e (elim (Bool-cases (c == b'\\')) [
    | inl b ↦ absurd (ground (arith, h.0 b, e))
    | inr b ↦ ground (arith, unescape-escape p s h.1, b)
  ])
]

back-append : (c d : ℕ) (s : Text) → back c (s ++ (d ∷ [])) ≡ d
back-append c d [] = refl
back-append c d (x ∷ s) = back-append x d s

but_last-append : (d : ℕ) (s : Text) → but_last (s ++ (d ∷ [])) ≡ s
but_last-append d [] = refl
but_last-append d (x ∷ []) = refl
but_last-append d (x ∷ (y ∷ s)) = ap (λ t. x ∷ t) (but_last-append d (y ∷ s))

-- The same of the text of a value.
unquoted-escape :
    (p : ℕ → Bool) (s : Text) (first last : ℕ)
    → EscapesBackslash p s
    → Quotes first last
    → unquoted (first ∷ (escape p s ++ (last ∷ []))) ≡ some s
unfolding unquoted
unquoted-escape p s first last h double_quotes =
    rw
      (back-append b'"' b'"' (escape p s), but_last-append b'"' (escape p s), unescape-escape p s h)
      refl
unquoted-escape p s first last h single_quotes =
    rw
      (
        back-append b'\'' b'\'' (escape p s),
        but_last-append b'\'' (escape p s),
        unescape-escape p s h,
      )
      refl
unquoted-escape p s first last h braces =
    rw
      (back-append b'{' b'}' (escape p s), but_last-append b'}' (escape p s), unescape-escape p s h)
      refl

-- A match whose third group is a text in double quotes, single quotes or braces with a backslash in front of
-- some of its characters, of every backslash at least, gives the text without the backslashes, and is not
-- marked as removed. Which texts the expression matches is not claimed.
pub entry_of-escape :
    (m : Match) (p : ℕ → Bool) (s : Text) (first last : ℕ)
    → m.value ≡ some (first ∷ (escape p s ++ (last ∷ [])))
    → EscapesBackslash p s
    → Quotes first last
    → entry_of m ≡ some (s, false)
unfolding entry_of
entry_of-escape m p s first last v h q = ground (arith, v, unquoted-escape p s first last h q)
