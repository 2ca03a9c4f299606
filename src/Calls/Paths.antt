-- ===== src/Calls/Paths.antt =====
-- The path that `devicesAndPath` (src/agent.cpp) makes for one device.
use cppagent.Base.{
  ℕ, zero, suc, ◌≤◌, ◌≡◌, refl, false, none, some, [], ◌∷◌, ◌++◌, Text, is_empty, length, ◌==◌,
  if◌then◌else◌, arith, split_first, Bool-cases, inl, inr, ap, sym, subst, ◌∙◌, append_assoc,
  append-nil, Option,
}
use cppagent.Calls.{prefix_tokens, drop_last, devices_and_path, device_prefix}
use cppagent.Stream.{getline, getline_ok, Stream}

-- A path with a prefix behind each bar; a bar at the end is dropped.
abbrev pub prefix_each : Text → Text → Text
prefix_each prefix [] = []
prefix_each prefix (c ∷ s) =
    let rest = prefix_each prefix s in
    if c == b'|' then (if is_empty s then [] else b'|' ∷ (prefix ++ rest)) else c ∷ rest

-- What stands behind a token.
abbrev after : Text → Text → Text
after prefix b = if is_empty b then [] else b'|' ∷ (prefix ++ prefix_each prefix b)

-- What a split at the first bar says of the text.
abbrev SplitsAs : Text → Text → Option (Text × Text) → Type 0
SplitsAs prefix s none = prefix_each prefix s ≡ s
SplitsAs prefix s (some (a, b)) =
    (prefix_each prefix s ≡ a ++ after prefix b) × (suc (length b) ≤ length s)

-- A character before a split.
abbrev push : ℕ → Option (Text × Text) → Option (Text × Text)
push c none = none
push c (some (a, b)) = some (c ∷ a, b)

splits_push :
    (prefix s : Text) (c : ℕ) (r : Option (Text × Text))
    → (c == b'|') ≡ false
    → SplitsAs prefix s r
    → SplitsAs prefix (c ∷ s) (push c r)
splits_push prefix s c none n h = rw n (ap (λ t. c ∷ t) h)
splits_push prefix s c (some (a, b)) n h = rw n (ap (λ t. c ∷ t) h.0, omega (arith, h.1))

split_first-push :
    (s : Text) (c : ℕ)
    → (c == b'|') ≡ false
    → split_first (λ d. d == b'|') (c ∷ s) ≡ push c (split_first (λ d. d == b'|') s)
split_first-push s c n = ground (arith, n)

splits_as : (prefix s : Text) → SplitsAs prefix s (split_first (λ d. d == b'|') s)
splits_as prefix [] = refl
splits_as prefix (c ∷ s) = elim (Bool-cases (c == b'|')) [
  | inl n ↦ rw (n, SplitsAs) (rw n refl, omega arith)
  | inr n ↦
      subst (SplitsAs prefix (c ∷ s)) (sym (split_first-push s c n))
        (splits_push prefix s c (split_first (λ d. d == b'|') s) n (splits_as prefix s))
]

prefix_tokens-none : (fuel : ℕ) (prefix : Text) → prefix_tokens fuel prefix none ≡ []
unfolding prefix_tokens getline_ok
prefix_tokens-none zero prefix = refl
prefix_tokens-none (suc fuel) prefix = refl

prefix_tokens-nil : (fuel : ℕ) (prefix : Text) → prefix_tokens fuel prefix (some []) ≡ []
unfolding prefix_tokens getline_ok
prefix_tokens-nil zero prefix = refl
prefix_tokens-nil (suc fuel) prefix = refl

-- A round of the loop, for a text that is not empty.
prefix_tokens-suc :
    (fuel : ℕ) (prefix s : Text) (c : ℕ)
    → prefix_tokens (suc fuel) prefix (some (c ∷ s)) ≡ (
        let r = getline b'|' (some (c ∷ s)) [] in
        prefix ++ (r.0 ++ (b'|' ∷ prefix_tokens fuel prefix r.1)))
unfolding prefix_tokens getline_ok
prefix_tokens-suc fuel prefix s c = refl

getline-none :
    (s token : Text)
    → split_first (λ d. d == b'|') s ≡ none
    → getline b'|' (some s) token ≡ (s, none)
unfolding getline
getline-none s token e = rw (e, getline) refl

getline-some :
    (s token a b : Text)
    → split_first (λ d. d == b'|') s ≡ some (a, b)
    → getline b'|' (some s) token ≡ (a, some b)
unfolding getline
getline-some s token a b e = rw (e, getline) refl

-- The result of a round, from what `getline` returns.
round_of : ℕ → Text → Text × Stream → Text
round_of fuel prefix r = prefix ++ (r.0 ++ (b'|' ∷ prefix_tokens fuel prefix r.1))

-- The loop of `devicesAndPath` writes the prefix before each token, and a bar at the end.
prefix_tokens-prefix_each :
    (fuel : ℕ) (prefix s : Text) (c : ℕ)
    → suc (length s) ≤ fuel
    → prefix_tokens fuel prefix (some (c ∷ s))
      ≡ (prefix ++ prefix_each prefix (c ∷ s)) ++ (b'|' ∷ [])
unfolding round_of
prefix_tokens-prefix_each zero prefix s c h = absurd (omega arith)
prefix_tokens-prefix_each (suc fuel) prefix s c h =
    prefix_tokens-suc fuel prefix s c
    ∙ go (split_first (λ d. d == b'|') (c ∷ s)) refl (splits_as prefix (c ∷ s))
        (λ b d k. prefix_tokens-prefix_each fuel prefix b d k)
  where
    go :
        (r : Option (Text × Text))
        → split_first (λ d. d == b'|') (c ∷ s) ≡ r
        → SplitsAs prefix (c ∷ s) r
        → ((b : Text) (d : ℕ)
            → suc (length b) ≤ fuel
            → prefix_tokens fuel prefix (some (d ∷ b))
              ≡ (prefix ++ prefix_each prefix (d ∷ b)) ++ (b'|' ∷ []))
        → round_of fuel prefix (getline b'|' (some (c ∷ s)) [])
          ≡ (prefix ++ prefix_each prefix (c ∷ s)) ++ (b'|' ∷ [])
    go none e k ih =
        ap (round_of fuel prefix) (getline-none (c ∷ s) [] e)
        ∙ ap (λ t. prefix ++ ((c ∷ s) ++ (b'|' ∷ t))) (prefix_tokens-none fuel prefix)
        ∙ sym (append_assoc prefix (c ∷ s) (b'|' ∷ []))
        ∙ ap (λ t. (prefix ++ t) ++ (b'|' ∷ [])) (sym k)
    go (some (a, [])) e k ih =
        ap (round_of fuel prefix) (getline-some (c ∷ s) [] a [] e)
        ∙ ap (λ t. prefix ++ (a ++ (b'|' ∷ t))) (prefix_tokens-nil fuel prefix)
        ∙ sym (append_assoc prefix a (b'|' ∷ []))
        ∙ ap (λ t. (prefix ++ t) ++ (b'|' ∷ [])) (sym (k.0 ∙ append-nil a))
    go (some (a, d ∷ b)) e k ih =
        ap (round_of fuel prefix) (getline-some (c ∷ s) [] a (d ∷ b) e)
        ∙ ap (λ t. prefix ++ (a ++ (b'|' ∷ t))) (ih b d (omega (arith, k.1)))
        ∙ sym (
            append_assoc prefix (a ++ (b'|' ∷ (prefix ++ prefix_each prefix (d ∷ b)))) (b'|' ∷ [])
            ∙ ap (λ t. prefix ++ t)
                (append_assoc a (b'|' ∷ (prefix ++ prefix_each prefix (d ∷ b))) (b'|' ∷ [])))
        ∙ ap (λ t. (prefix ++ t) ++ (b'|' ∷ [])) (sym k.0)

drop_last-append : (s : Text) (c : ℕ) → drop_last (s ++ (c ∷ [])) ≡ s
unfolding drop_last
drop_last-append [] c = refl
drop_last-append (d ∷ []) c = refl
drop_last-append (d ∷ e ∷ s) c = ap (λ t. d ∷ t) (drop_last-append (e ∷ s) c)

-- For a device and a path that are not empty, `devicesAndPath` returns the path with the device's
-- prefix at its start and behind each bar, without the bar at its end if there is one: the loop reads
-- all tokens of the path, and the bar that is erased at the end is the loop's own.
pub devices_and_path-prefix_each :
    (path device : Text)
    → is_empty path ≡ false
    → is_empty device ≡ false
    → devices_and_path path device ≡ device_prefix device ++ prefix_each (device_prefix device) path
unfolding devices_and_path
devices_and_path-prefix_each [] device h k = absurd (ground arith)
devices_and_path-prefix_each (c ∷ path) device h k = rw k (
    ap drop_last
      (prefix_tokens-prefix_each (suc (length path)) (device_prefix device) path c (omega arith))
    ∙ drop_last-append (device_prefix device ++ prefix_each (device_prefix device) (c ∷ path)) b'|')
