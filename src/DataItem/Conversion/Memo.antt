-- ===== src/DataItem/Conversion/Memo.antt =====
-- The conversion factor of a data item is computed at the first use and kept (src/data_item.cpp,
-- `convertValue`): what that keeps from being seen.
use cppagent.Base.{
  ℕ, ◌≡◌, refl, true, not, ◌||◌, Option, none, some, List, [], ◌∷◌, Text, if◌then◌else◌, arith, map,
  Bool-cases, inl, inr, ap, sym, ◌∙◌,
}
use cppagent.DataItem.{DataItem}
use cppagent.DataItem.Conversion.{
  Numbers, Conversion, convert_text, convert_known, convert_float, convert_float_known,
  conversion_required, compute_conversion_factors, scaled, simple_units, quotient_units,
  units_factor,
}

-- Texts one after the other, each with the state that the one before it leaves.
unfoldable pub convert_texts :
    Numbers → DataItem → Conversion → List Text → List (Option Text) × Conversion
convert_texts N item c [] = ([], c)
convert_texts N item c (v ∷ vs) =
    let (first, c') = convert_text N item c v in
    let (rest, c'') = convert_texts N item c' vs in (first ∷ rest, c'')

-- The same for floats, the values of time series.
unfoldable pub convert_floats : Numbers → DataItem → Conversion → List ℕ → List ℕ × Conversion
convert_floats N item c [] = ([], c)
convert_floats N item c (v ∷ vs) =
    let (first, c') = convert_float N item c v in
    let (rest, c'') = convert_floats N item c' vs in (first ∷ rest, c'')

module _ (N : Numbers) (item : DataItem) where
  has_factor-scaled : (scale : Option ℕ) (c : Conversion) → (scaled N scale c).has_factor ≡ true
  unfolding scaled
  has_factor-scaled none c = refl
  has_factor-scaled (some d) c = refl

  -- `computeConversionFactors` marks the factor as known, so `convertValue` calls itself once at most.
  has_factor-compute : (c : Conversion) → (compute_conversion_factors N item c).has_factor ≡ true
  unfolding compute_conversion_factors
  has_factor-compute c = has_factor-scaled c.native_scale _

  -- The state that a conversion of a text leaves.
  abbrev settled : Conversion → Conversion
  settled c = if not c.required || c.has_factor then c else compute_conversion_factors N item c

  settled-settled : (c : Conversion) → settled (settled c) ≡ settled c
  settled-settled c = elim (Bool-cases (not c.required || c.has_factor)) [
    | inl e ↦ simp (e, e) refl
    | inr e ↦ simp (e, has_factor-compute c) (ground arith)
  ]

  convert_text-settled :
      (c : Conversion) (v : Text)
      → convert_text N item c v ≡ (convert_known N (settled c) v, settled c)
  unfolding convert_text
  convert_text-settled c v = elim (Bool-cases (not c.required || c.has_factor)) [
    | inl e ↦ simp e refl
    | inr e ↦ simp e refl
  ]

  convert_texts-settled :
      (c : Conversion) (vs : List Text)
      → (convert_texts N item (settled c) vs).0 ≡ map (convert_known N (settled c)) vs
  unfolding convert_texts
  convert_texts-settled c [] = refl
  convert_texts-settled c (v ∷ vs) =
      rw (convert_text-settled (settled c) v, settled-settled c, convert_texts-settled c vs) refl

  -- The state in which a float finds the conversion, and the one that it leaves.
  abbrev ready : Conversion → Conversion
  ready c = (conversion_required N item c).1

  determined-scaled :
      (scale : Option ℕ) (c : Conversion) → (scaled N scale c).determined ≡ c.determined
  unfolding scaled
  determined-scaled none c = refl
  determined-scaled (some d) c = refl

  determined-simple :
      (units to : Text) (c : Conversion) → (simple_units N units to c).determined ≡ c.determined
  unfolding simple_units
  determined-simple units to c = ground arith

  determined-quotient :
      (n d to : Text) (c : Conversion) → (quotient_units N n d to c).determined ≡ c.determined
  unfolding quotient_units
  determined-quotient n d to c = ground arith

  determined-units : (c : Conversion) → (units_factor N item c).determined ≡ c.determined
  unfolding units_factor
  determined-units c =
      let q : (n d : Text) → (quotient_units N n d item.units c).determined ≡ c.determined =
        λ n d. determined-quotient n d item.units c in
      ground (arith, determined-simple item.native_units item.units c, q)

  determined-compute :
      (c : Conversion) → (compute_conversion_factors N item c).determined ≡ c.determined
  unfolding compute_conversion_factors
  determined-compute c =
      determined-scaled c.native_scale (units_factor N item c) ∙ determined-units c

  determined-ready : (c : Conversion) → (ready c).determined ≡ true
  unfolding conversion_required
  determined-ready c = ground arith

  ready-determined : (c : Conversion) → c.determined ≡ true → ready c ≡ c
  unfolding conversion_required
  ready-determined c h = ground (arith, h)

  ready-settled : (c : Conversion) → c.determined ≡ true → ready (settled c) ≡ settled c
  ready-settled c h = ready-determined (settled c) (ground (arith, h, determined-compute c))

  convert_float-settled :
      (c : Conversion) (v : ℕ)
      → convert_float N item c v ≡ (convert_float_known N (settled (ready c)) v, settled (ready c))
  unfolding convert_float
  convert_float-settled c v = elim (Bool-cases (not (ready c).required || (ready c).has_factor)) [
    | inl e ↦ simp e refl
    | inr e ↦ simp e refl
  ]

  convert_floats-settled :
      (c : Conversion) (vs : List ℕ)
      → c.determined ≡ true
      → (convert_floats N item (settled c) vs).0 ≡ map (convert_float_known N (settled c)) vs
  unfolding convert_floats
  convert_floats-settled c [] h = refl
  convert_floats-settled c (v ∷ vs) h =
      rw
        (
          convert_float-settled (settled c) v,
          ready-settled c h,
          settled-settled c,
          convert_floats-settled c vs h,
        )
        refl

  map_ext {ℓ κ} :
      {A : Type ℓ} {B : Type κ} (f g : A → B)
      → ((a : A) → f a ≡ g a)
      → (xs : List A) → map f xs ≡ map g xs
  map_ext f g h [] = refl
  map_ext f g h (x ∷ xs) = rw (h x, map_ext f g h xs) refl

  convert_texts-map :
      (c : Conversion) (vs : List Text)
      → (convert_texts N item c vs).0 ≡ map (λ v. (convert_text N item c v).0) vs
  unfolding convert_texts
  convert_texts-map c [] = refl
  convert_texts-map c (v ∷ vs) =
      rw (convert_text-settled c v, convert_texts-settled c vs)
        (ap (λ r. convert_known N (settled c) v ∷ r)
          (map_ext (convert_known N (settled c)) (λ w. (convert_text N item c w).0)
            (λ w. sym (ap (λ x. x.0) (convert_text-settled c w))) vs))

  convert_floats-map :
      (c : Conversion) (vs : List ℕ)
      → (convert_floats N item c vs).0 ≡ map (λ v. (convert_float N item c v).0) vs
  unfolding convert_floats
  convert_floats-map c [] = refl
  convert_floats-map c (v ∷ vs) =
      rw (convert_float-settled c v, convert_floats-settled (ready c) vs (determined-ready c))
        (ap (λ r. convert_float_known N (settled (ready c)) v ∷ r)
          (map_ext (convert_float_known N (settled (ready c))) (λ w. (convert_float N item c w).0)
            (λ w. sym (ap (λ x. x.0) (convert_float-settled c w))) vs))

-- Converting texts or floats one after the other gives for each what it would give as the first one:
-- that the factor is computed at the first use, and whether a conversion is required decided then, does
-- not show.
pub converts-map :
    (N : Numbers) (item : DataItem) (c : Conversion) (texts : List Text) (floats : List ℕ)
    → ((convert_texts N item c texts).0 ≡ map (λ v. (convert_text N item c v).0) texts)
      × ((convert_floats N item c floats).0 ≡ map (λ v. (convert_float N item c v).0) floats)
converts-map N item c texts floats =
    (convert_texts-map N item c texts, convert_floats-map N item c floats)
