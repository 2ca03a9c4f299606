-- ===== src/Params/Bounds.antt =====
-- What the checks of src/agent.cpp promise of the number that they return.
use cppagent.Base.{
  ℕ, ◌+◌, sym, ap, ◌∙◌, ◌≤◌, ◌≡◌, refl, true, false, none, some, Text, Map, lookup, arith, ℤ,
  pos_part, neg_part, ◌⊎◌, inl, inr, is_empty, ◌≢◌, Option-cases, ◌↔◌,
}
use cppagent.Stream.{is_non_negative_integer}
use cppagent.Params.{ok, no_value64, check_and_get_param64, check_64, limit_64, string_to_ull}

-- `a ≤ b` for integers.
infix 50 ◌≤ℤ◌
abbrev pub ◌≤ℤ◌ : ℤ → ℤ → Type 0
a ≤ℤ b = pos_part a + neg_part b ≤ pos_part b + neg_part a

limit_64-ok :
    (param : Text) (lo : ℕ) (hi value v : ℕ)
    → lo ≢ no_value64
    → hi ≢ no_value64
    → limit_64 param lo true hi value ≡ ok v
    → (lo ≤ v) × (v ≤ hi) × (v ≡ value)
unfolding limit_64
limit_64-ok param lo hi value v p q e = ground arith

limit_64-in_range :
    (param : Text) (lo hi value : ℕ)
    → lo ≤ value
    → value ≤ hi
    → limit_64 param lo true hi value ≡ ok value
unfolding limit_64
limit_64-in_range param lo hi value p q = ground arith

-- What a text of a parameter must be for a number to be returned: digits that write it, in the range.
abbrev pub Accepts : Text → ℕ → ℕ → ℕ → Type 0
Accepts text lo hi v =
    (is_empty text ≡ false)
    × (is_non_negative_integer text ≡ true)
    × (lo ≤ v)
    × (v ≤ hi)
    × (v ≡ string_to_ull text)

check_64-ok :
    (param text : Text) (lo hi v : ℕ)
    → lo ≢ no_value64
    → hi ≢ no_value64
    → check_64 param text lo true hi ≡ ok v
    → Accepts text lo hi v
unfolding check_64
check_64-ok param text lo hi v p q e =
    ground (arith, limit_64-ok param lo hi (string_to_ull text) v p q)

check_64-Accepts :
    (param text : Text) (lo hi v : ℕ) → Accepts text lo hi v → check_64 param text lo true hi ≡ ok v
unfolding check_64
check_64-Accepts param text lo hi v a =
    ground (arith, limit_64-in_range param lo hi (string_to_ull text))

check_and_get_param64-none :
    (queries : Map Text) (param : Text) (default_value lo hi : ℕ)
    → lookup param queries ≡ none
    → check_and_get_param64 queries param default_value lo true hi ≡ ok default_value
unfolding check_and_get_param64
check_and_get_param64-none queries param default_value lo hi n = rw (n, check_and_get_param64) refl

check_and_get_param64-some :
    (queries : Map Text) (param text : Text) (default_value lo hi : ℕ)
    → lookup param queries ≡ some text
    → check_and_get_param64 queries param default_value lo true hi ≡ check_64 param text lo true hi
unfolding check_and_get_param64
check_and_get_param64-some queries param text default_value lo hi s =
    rw (s, check_and_get_param64) refl

-- `checkAndGetParam64` with a range that is demanded: for a query without the parameter it returns
-- the default and nothing else, and for a query with it the numbers that its text writes in digits
-- and that lie in the range, and no others; any other text is an error.
pub check_and_get_param64_iff :
    (queries : Map Text) (param : Text) (default_value lo hi v : ℕ)
    → lo ≢ no_value64
    → hi ≢ no_value64
    → (check_and_get_param64 queries param default_value lo true hi ≡ ok v) ↔ (
        ((lookup param queries ≡ none) × (v ≡ default_value))
        ⊎ ((text : Text) × (lookup param queries ≡ some text) × Accepts text lo hi v))
check_and_get_param64_iff queries param default_value lo hi v p q = (to, from)
  where
    to :
        check_and_get_param64 queries param default_value lo true hi ≡ ok v
        → ((lookup param queries ≡ none) × (v ≡ default_value))
          ⊎ ((text : Text) × (lookup param queries ≡ some text) × Accepts text lo hi v)
    to e = elim (Option-cases (lookup param queries)) [
      | inl n ↦
          let d : ok default_value ≡ ok v =
            sym (check_and_get_param64-none queries param default_value lo hi n) ∙ e in
          inl (n, cc)
      | inr (text, s) ↦ inr (
        text,
        s,
        check_64-ok param text lo hi v p q
            (sym (check_and_get_param64-some queries param text default_value lo hi s) ∙ e),
      )
    ]

    from :
        ((lookup param queries ≡ none) × (v ≡ default_value))
          ⊎ ((text : Text) × (lookup param queries ≡ some text) × Accepts text lo hi v)
        → check_and_get_param64 queries param default_value lo true hi ≡ ok v
    from (inl (n, e)) =
        check_and_get_param64-none queries param default_value lo hi n ∙ ap ok (sym e)
    from (inr (text, s, a)) =
        check_and_get_param64-some queries param text default_value lo hi s
        ∙ check_64-Accepts param text lo hi v a
