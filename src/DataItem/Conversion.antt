-- ===== src/DataItem/Conversion.antt =====
-- The conversion of values to the units of a data item (src/data_item.cpp): `setDataSource`,
-- `conversionRequired`, the two `convertValue`, `computeConversionFactors`, `setConversionFactor` and
-- `simpleFactor`, and of src/data_item.hpp the members that they change.
pub mod Memo
use cppagent.Base.{
  ℕ, zero, suc, ◌-◌, Bool, true, false, not, ◌||◌, ◌&&◌, Option, none, some, List, [], ◌∷◌, ◌++◌,
  Text, Map, codes, lookup, length, take, is_empty, text_eq, split_first, strip_prefix, ◌==◌,
  if◌then◌else◌, ℤ,
}
use cppagent.DataSet.{double_eq}
use cppagent.DataItem.{DataItem}

-- The operations of the C++ library on numbers. A double is its 64-bit pattern, a float its 32-bit
-- pattern. `strtof` gives none where no number is read, `stod` and `stoll` where they throw.
pub record Numbers : Type 0 where
  pub literal : Text → ℕ
  pub add : ℕ → ℕ → ℕ
  pub mul : ℕ → ℕ → ℕ
  pub div : ℕ → ℕ → ℕ
  pub pow : ℕ → ℕ → ℕ
  pub widen : ℕ → ℕ
  pub narrow : ℕ → ℕ
  pub atof : Text → ℕ
  pub float_to_string : ℕ → Text
  pub strtof : Text → Option (ℕ × Text)
  pub stod : Text → Option ℕ
  pub stoll : Text → Option ℤ

-- The members of `DataItem` that a conversion reads and changes. `native_scale` is none where
-- `m_hasNativeScale` is false.
pub record Conversion : Type 0 where
  pub native_scale : Option ℕ
  pub factor : ℕ
  pub offset : ℕ
  pub determined : Bool
  pub required : Bool
  pub has_factor : Bool
  pub three_d : Bool

abbrev pub is_space : ℕ → Bool
is_space c = c == b' '

-- `find_first_not_of(' ')`, as the text that begins there.
abbrev skip_spaces : Text → Option Text
skip_spaces [] = none
skip_spaces (c ∷ s) = let rest = skip_spaces s in if is_space c then rest else some (c ∷ s)

-- `find("_3D")`, as the text before it.
abbrev before_3d : Text → Option Text
before_3d [] = none
before_3d (c ∷ s) =
    let rest = before_3d s in
    elim (strip_prefix (codes "_3D") (c ∷ s)) [
      | some _ ↦ some []
      | none ↦ elim rest [ none ↦ none | some a ↦ some (c ∷ a) ]
    ]

module _ (N : Numbers) where
  open N use {literal, add, mul, div, pow, widen, narrow, atof, float_to_string}

  -- `sUnitsConversion`
  units_conversion : Map ℕ
  units_conversion =
      (codes "INCH", literal (codes "25.4"))
      ∷ (codes "FOOT", literal (codes "304.8"))
      ∷ (codes "CENTIMETER", literal (codes "10.0"))
      ∷ (codes "DECIMETER", literal (codes "100.0"))
      ∷ (codes "METER", literal (codes "1000.0"))
      ∷ (codes "FAHRENHEIT", div (literal (codes "5.0")) (literal (codes "9.0")))
      ∷ (codes "POUND", literal (codes "0.45359237"))
      ∷ (codes "GRAM", div (literal (codes "1")) (literal (codes "1000.0")))
      ∷ (codes "RADIAN", literal (codes "57.2957795"))
      ∷ (codes "MINUTE", literal (codes "60.0"))
      ∷ (codes "HOUR", literal (codes "3600.0"))
      ∷ []

  -- `simpleFactor`, with the offset that it may set.
  unfoldable pub simple_factor : Text → ℕ → ℕ × ℕ
  unfolding units_conversion
  simple_factor units offset = elim (lookup units units_conversion) [
    | none ↦ (literal (codes "1.0"), offset)
    | some f ↦ (f, if text_eq units (codes "FAHRENHEIT") then literal (codes "-32.0") else offset)
  ]

  -- Units without a slash.
  unfoldable pub simple_units : Text → Text → Conversion → Conversion
  unfolding simple_factor
  simple_units units to c =
      let cut = before_3d units in
      let units' : Text = elim cut [ none ↦ units | some a ↦ a ] in
      let three : Bool = elim cut [ none ↦ c.three_d | some _ ↦ true ] in
      let (f, offset) = simple_factor units' (literal (codes "0.0")) in
      let c' = record c { factor = f; offset = offset; three_d = three } in
      if double_eq f (literal (codes "1.0"))
      then (if text_eq to units'
          then record c' { required = false }
          else if text_eq units' (codes "KILO" ++ to)
          then record c' { factor = literal (codes "1000.0") }
          else record c' { required = false })
      else c'

  -- Units with a slash, which stands between the numerator and the denominator. The factor of the
  -- denominator is computed last here; whichever comes last, both set the same offset.
  unfoldable pub quotient_units : Text → Text → Text → Conversion → Conversion
  unfolding simple_factor
  quotient_units numerator denominator to c =
      if text_eq numerator (codes "REVOLUTION") && text_eq denominator (codes "SECOND")
      then record c { factor = literal (codes "60.0"); offset = literal (codes "0.0") }
      else if text_eq numerator (codes "POUND")
          && (text_eq denominator (codes "INCH^2") && text_eq to (codes "PASCAL"))
      then record c { factor = literal (codes "6894.76"); offset = literal (codes "0.0") }
      else elim (split_first (λ d. d == b'^') denominator) [
        | none ↦
            let (n, o) = simple_factor numerator (literal (codes "0.0")) in
            let (d, o') = simple_factor denominator o in record c { factor = div n d; offset = o' }
        | some (unit, power) ↦
            let (d, o) = simple_factor unit (literal (codes "0.0")) in
            let (n, o') = simple_factor numerator o in
            record c { factor = div n (pow d (atof power)); offset = o' }
      ]

  -- The part of `computeConversionFactors` for the units.
  unfoldable pub units_factor : DataItem → Conversion → Conversion
  unfolding simple_units quotient_units
  units_factor item c = elim (split_first (λ d. d == b'/') item.native_units) [
    | none ↦ simple_units item.native_units item.units c
    | some (numerator, denominator) ↦
        if text_eq item.native_units (codes "REVOLUTION/MINUTE")
        then record c {
          factor = literal (codes "1.0");
          offset = literal (codes "0.0");
          required = false;
        }
        else quotient_units numerator denominator item.units c
  ]

  -- The native scale, and the mark that the factor is known.
  scaled : Option ℕ → Conversion → Conversion
  scaled none c = record c { has_factor = true }
  scaled (some scale) c = record c {
    required = true;
    factor = div c.factor scale;
    has_factor = true;
  }

  -- `computeConversionFactors`
  unfoldable pub compute_conversion_factors : DataItem → Conversion → Conversion
  unfolding units_factor scaled
  compute_conversion_factors item c = scaled c.native_scale (units_factor item c)

  -- `setConversionFactor`
  unfoldable pub set_conversion_factor : ℕ → ℕ → Conversion → Conversion
  set_conversion_factor f offset c =
      let c' = record c { has_factor = true; determined = true } in
      if double_eq f (literal (codes "1.0")) && double_eq offset (literal (codes "0.0"))
      then record c' { required = false }
      else record c' { factor = f; offset = offset; required = true }

  -- A double of a text, converted.
  convert_number : Conversion → Text → Text
  convert_number c s = float_to_string (mul (add (atof s) c.offset) c.factor)

  -- The loop over the parts of a three-dimensional value. The text is what `start` leads to, none if
  -- it is `npos`, where `substr` throws. The second argument of `substr` is the position of the space.
  convert_parts : ℕ → ℕ → Conversion → Option Text → Option Text
  unfolding convert_number
  convert_parts zero total c start = some []
  convert_parts (suc n) total c none = none
  convert_parts (suc n) total c (some s) = elim (split_first is_space s) [
    | none ↦ elim (convert_parts n total c (some s)) [
      | none ↦ none
      | some r ↦ some (convert_number c s ++ r)
    ]
    | some (before, behind) ↦ elim (convert_parts n total c (skip_spaces behind)) [
      | none ↦ none
      | some r ↦ some (convert_number c (take (total - suc (length behind)) s) ++ (b' ' ∷ r))
    ]
  ]

  -- `convertValue` of a text once the factor is known. `none` is an exception.
  unfoldable pub convert_known : Conversion → Text → Option Text
  unfolding convert_parts convert_number
  convert_known c value =
      if not c.required
      then some value
      else if c.three_d
      then convert_parts 3 (length value) c (some value)
      else some (convert_number c value)

  -- `convertValue` of a text, with its call of itself after `computeConversionFactors`.
  unfoldable pub convert_text : DataItem → Conversion → Text → Option Text × Conversion
  unfolding compute_conversion_factors convert_known
  convert_text item c value =
      if not c.required || c.has_factor
      then (convert_known c value, c)
      else let c' = compute_conversion_factors item c in (convert_known c' value, c')

  -- `convertValue` of a float once the factor is known.
  unfoldable pub convert_float_known : Conversion → ℕ → ℕ
  convert_float_known c value =
      if not c.required then value else narrow (mul (add (widen value) c.offset) c.factor)

  -- `conversionRequired`
  unfoldable pub conversion_required : DataItem → Conversion → Bool × Conversion
  conversion_required item c =
      if not c.determined
      then (
        not (is_empty item.native_units),
        record c { determined = true; required = not (is_empty item.native_units) },
      )
      else (c.required, c)

  -- `convertValue` of a float.
  unfoldable pub convert_float : DataItem → Conversion → ℕ → ℕ × Conversion
  unfolding conversion_required compute_conversion_factors convert_float_known
  convert_float item c value =
      let c1 = (conversion_required item c).1 in
      if not c1.required || c1.has_factor
      then (convert_float_known c1 value, c1)
      else let c2 = compute_conversion_factors item c1 in (convert_float_known c2 value, c2)

-- `setDataSource`, where the adapter says whether it asks for conversion.
unfoldable pub set_data_source : Bool → Conversion → Conversion
set_data_source wanted c =
    if not wanted then record c { required = false; determined = true } else c
