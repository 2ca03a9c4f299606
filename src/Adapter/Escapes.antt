-- ===== src/Adapter/Escapes.antt =====
-- A value that is escaped is read back (src/adapter.cpp, `getEscapedLine`).
use cppagent.Base.{
  ℕ, zero, suc, ◌≤◌, ◌≡◌, refl, Bool, true, false, not, ◌&&◌, some, [], ◌∷◌, ◌++◌, Text, is_empty,
  length, split_first, has_char, ◌==◌, if◌then◌else◌, arith, ap, sym, ◌∙◌, append_assoc, Bool-cases,
  inl, inr,
}
use cppagent.Stream.{Stream, getline, getline_ok}
use cppagent.Adapter.{
  ends_with, front_part, read_escaped, left_of, finish_escaped, get_escaped_line,
}

-- A value with a backslash before each bar.
unfoldable pub escape_bars : Text → Text
escape_bars [] = []
escape_bars (c ∷ s) = if c == b'|' then b'\\' ∷ b'|' ∷ escape_bars s else c ∷ escape_bars s

ends_with-append : (c : ℕ) (s : Text) → ends_with c (s ++ (c ∷ [])) ≡ true
unfolding ends_with
ends_with-append c [] = ground arith
ends_with-append c (d ∷ []) = ground arith
ends_with-append c (d ∷ e ∷ s) = ends_with-append c (e ∷ s)

ends_with-other : (c d : ℕ) (s : Text) → (d == c) ≡ false → ends_with c (s ++ (d ∷ [])) ≡ false
unfolding ends_with
ends_with-other c d [] h = h
ends_with-other c d (e ∷ []) h = h
ends_with-other c d (e ∷ f ∷ s) h = ends_with-other c d (f ∷ s) h

front_part-append : (c : ℕ) (s : Text) → front_part (s ++ (c ∷ [])) ≡ s
unfolding front_part
front_part-append c [] = refl
front_part-append c (d ∷ []) = refl
front_part-append c (d ∷ e ∷ s) = ap (λ t. d ∷ t) (front_part-append c (e ∷ s))

getline-no_bar :
    (u t : Text) → has_char b'|' u ≡ false → getline b'|' (some (u ++ (b'|' ∷ t))) [] ≡ (u, some t)
unfolding getline
getline-no_bar u t h = rw (split u h, getline) refl
  where
    split :
        (u : Text)
        → has_char b'|' u ≡ false
        → split_first (λ c. c == b'|') (u ++ (b'|' ∷ t)) ≡ some (u, t)
    split [] h = refl
    split (c ∷ u) h = ground (arith, split u)

has_char-append :
    (c : ℕ) (u : Text)
    → (c == b'|') ≡ false
    → has_char b'|' u ≡ false
    → has_char b'|' (u ++ (c ∷ [])) ≡ false
has_char-append c [] n h = rw n refl
has_char-append c (d ∷ u) n h = ground (arith, has_char-append c u n)

-- What a round makes of what `getline` returns.
next_round : ℕ → Text → Stream → Text × Stream → Text × Stream × Bool
next_round fuel store s r =
    if is_empty r.0
    then (store, r.1, not (getline_ok s))
    else if not (ends_with b'\\' r.0)
    then (store ++ r.0, r.1, false)
    else read_escaped fuel (store ++ (front_part r.0 ++ (b'|' ∷ []))) r.1

read_escaped-suc :
    (fuel : ℕ) (store : Text) (s : Stream)
    → read_escaped (suc fuel) store s ≡ next_round fuel store s (getline b'|' s [])
unfolding read_escaped next_round
read_escaped-suc fuel store s = refl

is_empty-append : (u : Text) (c : ℕ) → is_empty (u ++ (c ∷ [])) ≡ false
is_empty-append [] c = refl
is_empty-append (d ∷ u) c = refl

-- A round for a text that ends the value, and one for a text before an escaped bar.
last_round :
    (fuel : ℕ) (store u rest : Text)
    → has_char b'|' u ≡ false
    → read_escaped (suc fuel) store (some (u ++ (b'"' ∷ b'|' ∷ rest)))
      ≡ (store ++ (u ++ (b'"' ∷ [])), some rest, false)
unfolding next_round
last_round fuel store u rest h =
    ap (λ t. read_escaped (suc fuel) store (some t))
      (sym (append_assoc u (b'"' ∷ []) (b'|' ∷ rest)))
    ∙ read_escaped-suc fuel store (some ((u ++ (b'"' ∷ [])) ++ (b'|' ∷ rest)))
    ∙ ap (next_round fuel store (some ((u ++ (b'"' ∷ [])) ++ (b'|' ∷ rest))))
        (getline-no_bar (u ++ (b'"' ∷ [])) rest (has_char-append b'"' u refl h))
    ∙ rw (is_empty-append u b'"', ends_with-other b'\\' b'"' u refl) refl

bar_round :
    (fuel : ℕ) (store u rest : Text)
    → has_char b'|' u ≡ false
    → read_escaped (suc fuel) store (some (u ++ (b'\\' ∷ b'|' ∷ rest)))
      ≡ read_escaped fuel (store ++ (u ++ (b'|' ∷ []))) (some rest)
unfolding next_round
bar_round fuel store u rest h =
    ap (λ t. read_escaped (suc fuel) store (some t))
      (sym (append_assoc u (b'\\' ∷ []) (b'|' ∷ rest)))
    ∙ read_escaped-suc fuel store (some ((u ++ (b'\\' ∷ [])) ++ (b'|' ∷ rest)))
    ∙ ap (next_round fuel store (some ((u ++ (b'\\' ∷ [])) ++ (b'|' ∷ rest))))
        (getline-no_bar (u ++ (b'\\' ∷ [])) rest (has_char-append b'\\' u refl h))
    ∙ rw (is_empty-append u b'\\', ends_with-append b'\\' u, front_part-append b'\\' u) refl

-- The loop reads an escaped value up to its quote.
read_escaped-escape_bars :
    (fuel : ℕ) (store u v rest : Text)
    → has_char b'|' u ≡ false
    → suc (length v) ≤ fuel
    → read_escaped fuel store (some (u ++ (escape_bars v ++ (b'"' ∷ b'|' ∷ rest))))
      ≡ (store ++ (u ++ (v ++ (b'"' ∷ []))), some rest, false)
unfolding escape_bars
read_escaped-escape_bars zero store u v rest h le = absurd (omega arith)
read_escaped-escape_bars (suc fuel) store u [] rest h le = last_round fuel store u rest h
read_escaped-escape_bars (suc fuel) store u (c ∷ v) rest h le = elim (Bool-cases (c == b'|')) [
  | inr n ↦ rw n (
      ap (λ t. read_escaped (suc fuel) store (some t))
        (sym (append_assoc u (c ∷ []) (escape_bars v ++ (b'"' ∷ b'|' ∷ rest))))
      ∙ read_escaped-escape_bars (suc fuel) store (u ++ (c ∷ [])) v rest (has_char-append c u n h)
          (omega arith)
      ∙ ap (λ t. (store ++ t, some rest, false)) (append_assoc u (c ∷ []) (v ++ (b'"' ∷ []))))
  | inl n ↦
      let same : c ≡ b'|' = ground arith in
      rw n (
        bar_round fuel store u (escape_bars v ++ (b'"' ∷ b'|' ∷ rest)) h
        ∙ read_escaped-escape_bars fuel (store ++ (u ++ (b'|' ∷ []))) [] v rest refl (omega arith)
        ∙ ap (λ t. (t, some rest, false))
            (append_assoc store (u ++ (b'|' ∷ [])) (v ++ (b'"' ∷ []))
              ∙ ap (λ t. store ++ t)
                  (append_assoc u (b'|' ∷ []) (v ++ (b'"' ∷ []))
                    ∙ ap (λ k. u ++ (k ∷ (v ++ (b'"' ∷ [])))) (sym same))))
]

-- A quoted text behind the first read, which ended at an escaped bar.
finish_quoted :
    (token w : Text) (s s' : Stream)
    → finish_escaped token s ((b'"' ∷ w) ++ (b'"' ∷ []), s', false) ≡ (w, s')
unfolding finish_escaped
finish_quoted token w s s' =
    rw (ends_with-append b'"' (b'"' ∷ w), front_part-append b'"' (b'"' ∷ w)) refl

-- `getEscapedLine`, from what the first read returns.
unfold_line : Text × Stream → Text × Stream
unfold_line r =
    if elim r.0 [ [] ↦ false | c ∷ t ↦ c == b'"' ] && ends_with b'\\' r.0
    then finish_escaped r.0 r.1
        (read_escaped (suc (length (left_of r.1))) (front_part r.0 ++ (b'|' ∷ [])) r.1)
    else (r.0, r.1)

get_escaped_line-getline : (s : Stream) → get_escaped_line s ≡ unfold_line (getline b'|' s [])
unfolding get_escaped_line unfold_line
get_escaped_line-getline s = refl

length-escape_bars : (v rest : Text) → length v ≤ length (escape_bars v ++ (b'"' ∷ rest))
unfolding escape_bars
length-escape_bars [] rest = omega arith
length-escape_bars (c ∷ v) rest = ground (arith, length-escape_bars v rest)

-- The first read ends at the first bar of the value.
first_bar :
    (u v rest : Text)
    → has_char b'|' u ≡ false
    → get_escaped_line
        (some ((b'"' ∷ u) ++ (b'\\' ∷ b'|' ∷ (escape_bars v ++ (b'"' ∷ b'|' ∷ rest)))))
      ≡ (u ++ (b'|' ∷ v), some rest)
unfolding unfold_line left_of
first_bar u v rest h =
    let t = escape_bars v ++ (b'"' ∷ b'|' ∷ rest) in
    let q : Text = (b'"' ∷ u) ++ (b'\\' ∷ []) in
    let n : has_char b'|' (b'"' ∷ u) ≡ false = h in
    ap (λ x. get_escaped_line (some x)) (sym (append_assoc (b'"' ∷ u) (b'\\' ∷ []) (b'|' ∷ t)))
    ∙ get_escaped_line-getline (some (q ++ (b'|' ∷ t)))
    ∙ ap unfold_line (getline-no_bar q t (has_char-append b'\\' (b'"' ∷ u) refl n))
    ∙ rw (ends_with-append b'\\' (b'"' ∷ u), front_part-append b'\\' (b'"' ∷ u))
        (ap (finish_escaped q (some t)) (
            read_escaped-escape_bars (suc (length t)) ((b'"' ∷ u) ++ (b'|' ∷ [])) [] v rest refl
              (omega (arith, length-escape_bars v (b'|' ∷ rest)))
            ∙ ap (λ x. (x, some rest, false))
                (append_assoc (b'"' ∷ u) (b'|' ∷ []) (v ++ (b'"' ∷ []))
                  ∙ sym (append_assoc (b'"' ∷ u) (b'|' ∷ v) (b'"' ∷ []))))
          ∙ finish_quoted q (u ++ (b'|' ∷ v)) (some t) (some rest))

line_from :
    (u v rest : Text)
    → has_char b'|' u ≡ false
    → has_char b'|' v ≡ true
    → get_escaped_line (some ((b'"' ∷ u) ++ (escape_bars v ++ (b'"' ∷ b'|' ∷ rest))))
      ≡ (u ++ v, some rest)
unfolding escape_bars
line_from u [] rest h k = absurd (ground arith)
line_from u (c ∷ v) rest h k = elim (Bool-cases (c == b'|')) [
  | inr n ↦ rw n (
      ap (λ t. get_escaped_line (some t))
        (sym (append_assoc (b'"' ∷ u) (c ∷ []) (escape_bars v ++ (b'"' ∷ b'|' ∷ rest))))
      ∙ line_from (u ++ (c ∷ [])) v rest (has_char-append c u n h) (ground arith)
      ∙ ap (λ t. (t, some rest)) (append_assoc u (c ∷ []) v))
  | inl n ↦
      let same : c ≡ b'|' = ground arith in
      rw n (first_bar u v rest h ∙ ap (λ d. (u ++ (d ∷ v), some rest)) (sym same))
]

-- `getEscapedLine` reads a value that has a bar back from its escaped form, the value in quotes with a
-- backslash before each bar, and leaves the stream behind the bar that ends it. The loop's rounds,
-- bounded by what is left of the line, are enough.
pub get_escaped_line-escape_bars :
    (v rest : Text)
    → has_char b'|' v ≡ true
    → get_escaped_line (some (b'"' ∷ (escape_bars v ++ (b'"' ∷ b'|' ∷ rest)))) ≡ (v, some rest)
get_escaped_line-escape_bars v rest h = line_from [] v rest refl h
