-- ===== src/Globals/Escapes.antt =====
-- What an XML parser reads in a text whose characters were replaced (src/globals.cpp).
use cppagent.Base.{
  ℕ, zero, suc, ◌*◌, ◌-◌, ◌≤◌, ◌≡◌, refl, none, some, [], ◌∷◌, ◌++◌, Text, codes, length, ◌==◌,
  arith, subst, sym, Bool-cases, inl, inr, false,
}
use cppagent.Globals.{replace_from, replace_illegal_characters, replacement}

-- Character data of XML, and the text that it stands for: entities for the three characters, and every
-- character other than these three for itself.
pub data Reads : Text → Text → Type 0 where
  ends : Reads [] []
  plain :
      {c : ℕ} {t s : Text}
      → (c == b'&') ≡ false
      → (c == b'<') ≡ false
      → (c == b'>') ≡ false
      → Reads t s
      → Reads (c ∷ t) (c ∷ s)
  amp : {t s : Text} → Reads t s → Reads (codes "&amp;" ++ t) (b'&' ∷ s)
  lt : {t s : Text} → Reads t s → Reads (codes "&lt;" ++ t) (b'<' ∷ s)
  gt : {t s : Text} → Reads t s → Reads (codes "&gt;" ++ t) (b'>' ∷ s)

replace_from-Reads : (fuel : ℕ) (s : Text) → 5 * length s ≤ fuel → Reads (replace_from fuel s) s
unfolding replace_from
replace_from-Reads fuel [] h = ends
replace_from-Reads zero (c ∷ s) h = absurd (omega arith)
replace_from-Reads (suc fuel) (c ∷ s) h = elim (Bool-cases (c == b'&')) [
  | inl e ↦
      let same : c ≡ b'&' = ground (arith, e) in
      let f : fuel ≡ suc (suc (suc (suc (fuel - 4)))) = omega arith in
      let r = replace_from-Reads (fuel - 4) s (omega arith) in
      subst (λ d. Reads (replace_from (suc fuel) (d ∷ s)) (d ∷ s)) (sym same)
        (subst (λ n. Reads (replace_from (suc n) (b'&' ∷ s)) (b'&' ∷ s)) (sym f) (amp r))
  | inr e ↦ elim (Bool-cases (c == b'<')) [
    | inl e' ↦
        let same : c ≡ b'<' = ground (arith, e') in
        let f : fuel ≡ suc (suc (suc (fuel - 3))) = omega arith in
        let r = replace_from-Reads (fuel - 3) s (omega arith) in
        subst (λ d. Reads (replace_from (suc fuel) (d ∷ s)) (d ∷ s)) (sym same)
          (subst (λ n. Reads (replace_from (suc n) (b'<' ∷ s)) (b'<' ∷ s)) (sym f) (lt r))
    | inr e' ↦ elim (Bool-cases (c == b'>')) [
      | inl e'' ↦
          let same : c ≡ b'>' = ground (arith, e'') in
          let f : fuel ≡ suc (suc (suc (fuel - 3))) = omega arith in
          let r = replace_from-Reads (fuel - 3) s (omega arith) in
          subst (λ d. Reads (replace_from (suc fuel) (d ∷ s)) (d ∷ s)) (sym same)
            (subst (λ n. Reads (replace_from (suc n) (b'>' ∷ s)) (b'>' ∷ s)) (sym f) (gt r))
      | inr e'' ↦
          let n : replacement c ≡ none = rw e (rw e' (rw e'' refl)) in
          let r = replace_from-Reads fuel s (omega arith) in
          subst
            (λ x.
              Reads
                (elim x [
                  | none ↦ c ∷ replace_from fuel s
                  | some text ↦ b'&' ∷ replace_from fuel (text ++ s)
                ])
                (c ∷ s))
            (sym n) (plain e e' e'' r)
    ]
  ]
]

-- An XML parser reads a text whose illegal characters were replaced as the text before.
pub replace_illegal_characters-Reads : (s : Text) → Reads (replace_illegal_characters s) s
unfolding replace_illegal_characters
replace_illegal_characters-Reads s = replace_from-Reads (5 * length s) s (omega arith)
