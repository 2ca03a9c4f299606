-- ===== src/DataItem/Build/Camel.antt =====
-- The names of types in camel case (src/data_item.cpp, `getCamelType`).
use cppagent.Base.{
  ℕ, zero, suc, ◌<◌, ◌≡◌, refl, false, Option, none, some, List, [], ◌∷◌, ◌++◌, Text, any_of, All,
  length, length-append, split_first-found, split_first-none, is_empty, arith, ap, ◌==◌,
}
use cppagent.DataItem.Build.{camel_from, capitalize, get_camel_type, is_underscore}

-- Parts with an underscore between them.
abbrev pub joined : Text → List Text → Text
joined part [] = part
joined part (p ∷ parts) = part ++ (b'_' ∷ joined p parts)

-- Parts in camel case, one after the other.
abbrev pub in_camel_case : Text → List Text → Text
in_camel_case part [] = capitalize part
in_camel_case part (p ∷ parts) = capitalize part ++ in_camel_case p parts

camel_from-joined :
    (fuel : ℕ) (part : Text) (parts : List Text)
    → any_of is_underscore part ≡ false
    → All (λ p. any_of is_underscore p ≡ false) parts
    → length (joined part parts) < fuel
    → camel_from fuel (joined part parts) ≡ in_camel_case part parts
unfolding camel_from
camel_from-joined zero part parts h k le = absurd (omega arith)
camel_from-joined (suc fuel) part [] h k le =
    rw (split_first-none is_underscore part h, camel_from) refl
camel_from-joined (suc fuel) part (p ∷ parts) h k le =
    let len = length-append part (b'_' ∷ joined p parts) in
    rw (split_first-found is_underscore part (joined p parts) b'_' h refl, camel_from)
      (ap (λ t. capitalize part ++ t) (camel_from-joined fuel p parts k.0 k.1 (omega arith)))

no_colon :
    (t camel : Text)
    → camel_from (suc (length t)) t ≡ camel
    → any_of (λ c. c == b':') t ≡ false
    → get_camel_type t ≡ ([], camel)
unfolding get_camel_type camel_from capitalize
no_colon [] camel e n = ap (λ x. ([], x)) e
no_colon (d ∷ t) camel e n =
    rw (split_first-none (λ c. c == b':') (d ∷ t) n, get_camel_type) (ap (λ x. ([], x)) e)

-- A type with or without a prefix, and that a colon stands where it is cut: none in the prefix, and none
-- in a type without a prefix.
abbrev pub with_prefix : Option Text → Text → Text
with_prefix none type = type
with_prefix (some prefix) type = prefix ++ (b':' ∷ type)

abbrev pub IsPrefix : Option Text → Text → Type 0
IsPrefix none type = any_of (λ c. c == b':') type ≡ false
IsPrefix (some prefix) type = any_of (λ c. c == b':') prefix ≡ false

-- The parts of a type between underscores are put into camel case one by one and joined, none is left
-- out, with a prefix in front of the first colon, which is kept as it is, and without a prefix, where the
-- type has no colon and the prefix is empty.
pub get_camel_type-joined :
    (prefix : Option Text) (part : Text) (parts : List Text)
    → IsPrefix prefix (joined part parts)
    → any_of is_underscore part ≡ false
    → All (λ p. any_of is_underscore p ≡ false) parts
    → get_camel_type (with_prefix prefix (joined part parts))
      ≡ (elim prefix [ none ↦ [] | some p ↦ p ], in_camel_case part parts)
unfolding get_camel_type
get_camel_type-joined none part parts c h k =
    no_colon (joined part parts) (in_camel_case part parts)
      (camel_from-joined (suc (length (joined part parts))) part parts h k (omega arith)) c
get_camel_type-joined (some prefix) part parts c h k =
    rw
      (
        is_empty-append prefix,
        split_first-found (λ d. d == b':') prefix (joined part parts) b':' c refl,
        get_camel_type,
      )
      (ap (λ t. (prefix, t))
        (camel_from-joined (suc (length (joined part parts))) part parts h k (omega arith)))
  where
    is_empty-append : (p : Text) → is_empty (p ++ (b':' ∷ joined part parts)) ≡ false
    is_empty-append [] = refl
    is_empty-append (d ∷ p) = refl
