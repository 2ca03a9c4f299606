-- ===== src/Connector/Lines.antt =====
-- The complete lines of a text, and what the loop over the lines does with them (src/connector.cpp).
use cppagent.Base.{
  ℕ, ◌≡◌, refl, Option, none, some, List, [], ◌∷◌, ◌++◌, Text, split_last, is_empty, arith, ap, sym,
  ◌∙◌, append_assoc, Bool-cases, inl, inr, keep_if, not,
}
use cppagent.Connector.{Connector, Action, is_newline, handle_line, handle_lines, lines}

joined_cons :
    (c : ℕ) (s p q : Text) (r : Option (Text × Text))
    → split_last is_newline s ≡ r
    → ((a b : Text) → r ≡ some (a, b) → s ≡ a ++ (10 ∷ b))
    → split_last is_newline (c ∷ s) ≡ some (p, q)
    → c ∷ s ≡ p ++ (10 ∷ q)
joined_cons c s p q none d ih e = ground arith
joined_cons c s p q (some (a, b)) d ih e =
    let k : Path (Option (Text × Text)) (some (c ∷ a, b)) (some (p, q)) = rw d at e in
    let h : s ≡ a ++ (10 ∷ b) = ih a b refl in cc

pub split_last-joined : (s p q : Text) → split_last is_newline s ≡ some (p, q) → s ≡ p ++ (10 ∷ q)
split_last-joined [] p q e = cc
split_last-joined (c ∷ s) p q e =
    joined_cons c s p q (split_last is_newline s) refl (split_last-joined s) e

-- The lines that are not empty: what `parseBuffer` handles.
abbrev pub full : List Text → List Text
full ls = keep_if (λ l. not (is_empty l)) ls

lines_full : (s : Text) → (l : Text) × (ls : List Text) × (lines s ≡ l ∷ ls)
unfolding lines
lines_full [] = ([], [], refl)
lines_full (c ∷ s) =
    let (l, ls, e) = lines_full s in
    elim (Bool-cases (is_newline c)) [
      | inl n ↦ ([], lines s, rw n refl)
      | inr n ↦ (c ∷ l, ls, rw (n, e) refl)
    ]

pub lines-append : (a b : Text) → lines (a ++ (10 ∷ b)) ≡ lines a ++ lines b
unfolding lines
lines-append [] b = refl
lines-append (c ∷ a) b =
    let (l, ls, e) = lines_full a in
    let ih : lines (a ++ (10 ∷ b)) ≡ (l ∷ ls) ++ lines b =
      lines-append a b ∙ ap (λ x. x ++ lines b) e in
    elim (Bool-cases (is_newline c)) [
      | inl n ↦ rw n (ap (λ x. [] ∷ x) (lines-append a b))
      | inr n ↦ rw (n, ih, e) refl
    ]

pub full-append : (xs ys : List Text) → full (xs ++ ys) ≡ full xs ++ full ys
full-append [] ys = refl
full-append (x ∷ xs) ys = ground (arith, full-append xs ys)

pub handle_lines-full :
    (now : ℕ) (ls : List Text) (c : Connector)
    → handle_lines now ls c ≡ handle_lines now (full ls) c
unfolding handle_lines handle_line
handle_lines-full now [] c = refl
handle_lines-full now ([] ∷ ls) c = handle_lines-full now ls c
handle_lines-full now ((b ∷ l) ∷ ls) c =
    ap (λ x. (x.0, (handle_line now (b ∷ l) c).1 ++ x.1))
      (handle_lines-full now ls (handle_line now (b ∷ l) c).0)

-- Handling a list behind another.
abbrev pub then_lines : ℕ → List Text → Connector × List Action → Connector × List Action
then_lines now ls r = let x = handle_lines now ls r.0 in (x.0, r.1 ++ x.1)

pub handle_lines-append :
    (now : ℕ) (xs ys : List Text) (c : Connector)
    → handle_lines now (xs ++ ys) c ≡ then_lines now ys (handle_lines now xs c)
unfolding handle_lines
handle_lines-append now [] ys c = refl
handle_lines-append now (x ∷ xs) ys c =
    let r = handle_line now x c in
    ap (λ z. (z.0, r.1 ++ z.1)) (handle_lines-append now xs ys r.0)
    ∙ ap (λ z. ((handle_lines now ys (handle_lines now xs r.0).0).0, z))
        (sym (
          append_assoc r.1 (handle_lines now xs r.0).1
            (handle_lines now ys (handle_lines now xs r.0).0).1))
