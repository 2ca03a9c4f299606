-- ===== src/DataItem/Order.antt =====
-- The order of data items in a document (src/data_item.cpp, `operator<`).
use cppagent.Base.{
  ℕ, ◌≡◌, refl, Bool, true, false, Text, text_lt, text_eq_iff, text_lt_irrefl, text_lt_trans,
  text_lt_total, ltb, ◌==◌, if◌then◌else◌, arith, Bool-cases, ◌⊎◌, inl, inr, sym, subst, ◌∙◌,
}
use cppagent.DataItem.{DataItem, Category, sample, event, condition}

-- A data item with the ids of its device and of its component.
pub record Placed : Type 0 where
  pub device_id : Text
  pub component_id : Text
  pub item : DataItem

-- The value of a category in `ECategory`.
abbrev rank : Category → ℕ
rank sample = 0
rank event = 1
rank condition = 2

-- A comparison of two keys, and what is compared where they are the same.
abbrev lex : Text → Text → Bool → Bool
lex a b rest = if text_lt a b then true else if text_lt b a then false else rest

abbrev by_category : Placed → Placed → Bool
by_category a b =
    if ltb (rank a.item.category) (rank b.item.category)
    then true
    else if rank a.item.category == rank b.item.category
    then text_lt a.item.id b.item.id
    else false

-- `operator<`
unfoldable pub is_before : Placed → Placed → Bool
is_before a b = lex a.device_id b.device_id (lex a.component_id b.component_id (by_category a b))

-- Keys that are in neither order are the same.
same_key : (a b : Text) → text_lt a b ≡ false → text_lt b a ≡ false → a ≡ b
same_key a b h k = ground (arith, text_lt_total a b h, text_eq_iff b a)

lex-cases :
    (a b : Text) (r : Bool) → lex a b r ≡ true → (text_lt a b ≡ true) ⊎ ((a ≡ b) × (r ≡ true))
lex-cases a b r h = elim (Bool-cases (text_lt a b)) [
  | inl e ↦ inl e
  | inr e ↦ elim (Bool-cases (text_lt b a)) [
    | inl f ↦ absurd (ground (arith, h, e, f))
    | inr f ↦ inr (same_key a b e f, ground (arith, h, e, f))
  ]
]

lex-same : (a b : Text) (r : Bool) → a ≡ b → r ≡ true → lex a b r ≡ true
lex-same a b r e h = subst (λ x. lex a x r ≡ true) e (rw (text_lt_irrefl a) h)

lex_trans :
    (a b c : Text) (r s t : Bool)
    → lex a b r ≡ true
    → lex b c s ≡ true
    → (r ≡ true → s ≡ true → t ≡ true)
    → lex a c t ≡ true
lex_trans a b c r s t h k f = elim (lex-cases a b r h) [
  | inl e ↦ elim (lex-cases b c s k) [
    | inl g ↦ rw (text_lt_trans a b c e g) refl
    | inr (g, y) ↦ rw (subst (λ x. text_lt a x ≡ true) g e) refl
  ]
  | inr (e, x) ↦ elim (lex-cases b c s k) [
    | inl g ↦ rw (subst (λ z. text_lt z c ≡ true) (sym e) g) refl
    | inr (g, y) ↦ lex-same a c t (e ∙ g) (f x y)
  ]
]

lex-incomparable :
    (a b : Text) (r s : Bool)
    → lex a b r ≡ false
    → lex b a s ≡ false
    → (a ≡ b) × (r ≡ false) × (s ≡ false)
lex-incomparable a b r s h k = elim (Bool-cases (text_lt a b)) [
  | inl e ↦ absurd (ground (arith, h, e))
  | inr e ↦ elim (Bool-cases (text_lt b a)) [
    | inl f ↦ absurd (ground (arith, k, f))
    | inr f ↦ (same_key a b e f, ground (arith, h, e, f), ground (arith, k, e, f))
  ]
]

lex_self : (a : Text) (r : Bool) → r ≡ false → lex a a r ≡ false
lex_self a r h = rw (text_lt_irrefl a) h

by_category_trans :
    (a b c : Placed) → by_category a b ≡ true → by_category b c ≡ true → by_category a c ≡ true
by_category_trans a b c h k = ground (arith, h, k, text_lt_trans a.item.id b.item.id c.item.id)

rank-same : (c d : Category) → rank c ≡ rank d → c ≡ d
rank-same sample sample e = refl
rank-same sample event e = absurd (omega arith)
rank-same sample condition e = absurd (omega arith)
rank-same event sample e = absurd (omega arith)
rank-same event event e = refl
rank-same event condition e = absurd (omega arith)
rank-same condition sample e = absurd (omega arith)
rank-same condition event e = absurd (omega arith)
rank-same condition condition e = refl

by_category-incomparable :
    (a b : Placed)
    → by_category a b ≡ false
    → by_category b a ≡ false
    → (a.item.category ≡ b.item.category) × (a.item.id ≡ b.item.id)
by_category-incomparable a b h k =
    let r : rank a.item.category ≡ rank b.item.category = ground (arith, h, k) in
    (
      rank-same a.item.category b.item.category r,
      same_key a.item.id b.item.id (ground (arith, h, r)) (ground (arith, k, r)),
    )

is_before_self : (a : Placed) → is_before a a ≡ false
unfolding is_before
is_before_self a =
    lex_self a.device_id _ (lex_self a.component_id _ (ground (arith, text_lt_irrefl a.item.id)))

before_trans : (a b c : Placed) → is_before a b ≡ true → is_before b c ≡ true → is_before a c ≡ true
unfolding is_before
before_trans a b c h k = lex_trans a.device_id b.device_id c.device_id _ _ _ h k (λ r s.
    lex_trans a.component_id b.component_id c.component_id _ _ _ r s
      (λ x y. by_category_trans a b c x y))

-- The comparison of data items is transitive, and of two data items at most one is before the other.
pub is_before_trans :
    (a b c : Placed)
    → is_before a b ≡ true
    → is_before b c ≡ true
    → (is_before a c ≡ true) × (is_before b a ≡ false) × (is_before a a ≡ false)
is_before_trans a b c h k = (before_trans a b c h k, asymmetric, is_before_self a)
  where
    asymmetric : is_before b a ≡ false
    asymmetric = elim (Bool-cases (is_before b a)) [
      | inr e ↦ e
      | inl e ↦
          let circle = before_trans a b a h e in
          let never = is_before_self a in absurd (ground (arith, circle, never))
    ]

-- Two data items of which neither is before the other have the same device, component, category and id.
pub is_before-same :
    (a b : Placed)
    → is_before a b ≡ false
    → is_before b a ≡ false
    → (a.device_id ≡ b.device_id)
      × (a.component_id ≡ b.component_id)
      × (a.item.category ≡ b.item.category)
      × (a.item.id ≡ b.item.id)
unfolding is_before
is_before-same a b h k =
    let d = lex-incomparable a.device_id b.device_id _ _ h k in
    let c = lex-incomparable a.component_id b.component_id _ _ d.1 d.2 in
    let i = by_category-incomparable a b c.1 c.2 in (d.0, c.0, i.0, i.1)
