-- ===== src/DataItem/Build/Lookups.antt =====
-- What the attributes that `buildAttributes` makes hold under each name (src/data_item.cpp).
use cppagent.Base.{
  ◌≡◌, refl, false, Option, none, some, [], ◌∷◌, Text, Map, codes, lookup, insert, lookup-insert,
  is_empty, text_eq, text_eq_refl, if◌then◌else◌, arith,
}
use cppagent.DataItem.Build.{
  Texts, Description, attribute, put_text, put_option, build_attributes, category_text,
  representation_text, map_option,
}

attribute-insert :
    (k j v : Text) (m : Map Text)
    → attribute j (insert k v m) ≡ (if text_eq k j then v else attribute j m)
attribute-insert k j v m = ground (arith, lookup-insert k j v m)

attribute-put_text :
    (k j v : Text) (m : Map Text)
    → attribute j (put_text k v m)
      ≡ (if text_eq k j then (if is_empty v then attribute j m else v) else attribute j m)
unfolding put_text
attribute-put_text k j v m = ground (arith, lookup-insert k j v m)

attribute-put_option :
    (k j : Text) (v : Option Text) (m : Map Text)
    → text_eq k j ≡ false
    → attribute j (put_option k v m) ≡ attribute j m
unfolding put_option
attribute-put_option k j none m h = refl
attribute-put_option k j (some v) m h = ground (arith, lookup-insert k j v m)

lookup-put_text :
    (k j v : Text) (m : Map Text) → text_eq k j ≡ false → lookup j (put_text k v m) ≡ lookup j m
unfolding put_text
lookup-put_text k j v m h = ground (arith, lookup-insert k j v m)

lookup-other :
    (k j v : Text) (m : Map Text) → text_eq k j ≡ false → lookup j (insert k v m) ≡ lookup j m
lookup-other k j v m h = ground (arith, lookup-insert k j v m)

-- What is under the key of an option that is put, where nothing was.
lookup-put_option :
    (k : Text) (v : Option Text) (m : Map Text)
    → lookup k m ≡ none
    → lookup k (put_option k v m) ≡ v
unfolding put_option
lookup-put_option k none m h = h
lookup-put_option k (some v) m h = ground (arith, lookup-insert k k v m, text_eq_refl k)

lookup-put_option_other :
    (k j : Text) (v : Option Text) (m : Map Text)
    → text_eq k j ≡ false
    → lookup j (put_option k v m) ≡ lookup j m
unfolding put_option
lookup-put_option_other k j none m h = refl
lookup-put_option_other k j (some v) m h = ground (arith, lookup-insert k j v m)

-- A text, or nothing where it is empty.
or_empty : (v : Text) → (if is_empty v then [] else v) ≡ v
or_empty [] = refl
or_empty (c ∷ v) = refl

module _ (T : Texts) (d : Description) where
  open d use {item}

  abbrev built : Map Text
  built = build_attributes T d

  pub attribute-id : attribute (codes "id") built ≡ item.id
  unfolding build_attributes lookup
  attribute-id = simp (attribute-put_text, attribute-insert, attribute-put_option) refl

  pub attribute-type : attribute (codes "type") built ≡ item.type
  unfolding build_attributes lookup
  attribute-type = simp (attribute-put_text, attribute-insert, attribute-put_option) refl

  pub attribute-category : attribute (codes "category") built ≡ category_text item.category
  unfolding build_attributes lookup
  attribute-category = simp (attribute-put_text, attribute-insert, attribute-put_option) refl

  pub attribute-name : attribute (codes "name") built ≡ item.name
  unfolding build_attributes lookup
  attribute-name =
      simp (attribute-put_text, attribute-insert, attribute-put_option) (or_empty item.name)

  pub attribute-sub_type : attribute (codes "subType") built ≡ item.sub_type
  unfolding build_attributes lookup
  attribute-sub_type =
      simp (attribute-put_text, attribute-insert, attribute-put_option) (or_empty item.sub_type)

  pub attribute-statistic : attribute (codes "statistic") built ≡ item.statistic
  unfolding build_attributes lookup
  attribute-statistic =
      simp (attribute-put_text, attribute-insert, attribute-put_option) (or_empty item.statistic)

  pub attribute-composition_id : attribute (codes "compositionId") built ≡ item.composition_id
  unfolding build_attributes lookup
  attribute-composition_id =
      simp (attribute-put_text, attribute-insert, attribute-put_option)
        (or_empty item.composition_id)

  pub attribute-native_units : attribute (codes "nativeUnits") built ≡ item.native_units
  unfolding build_attributes lookup
  attribute-native_units =
      simp (attribute-put_text, attribute-insert, attribute-put_option) (or_empty item.native_units)

  pub attribute-units : attribute (codes "units") built ≡ item.units
  unfolding build_attributes lookup
  attribute-units =
      simp (attribute-put_text, attribute-insert, attribute-put_option) (or_empty item.units)

  pub attribute-sample_rate : attribute (codes "sampleRate") built ≡ d.sample_rate
  unfolding build_attributes lookup
  attribute-sample_rate =
      simp (attribute-put_text, attribute-insert, attribute-put_option) (or_empty d.sample_rate)

  pub attribute-coordinate_system : attribute (codes "coordinateSystem") built ≡ d.coordinate_system
  unfolding build_attributes lookup
  attribute-coordinate_system =
      simp (attribute-put_text, attribute-insert, attribute-put_option)
        (or_empty d.coordinate_system)

  pub lookup-native_scale :
      lookup (codes "nativeScale") built ≡ map_option T.float_to_string d.native_scale
  unfolding build_attributes lookup
  lookup-native_scale =
      simp (lookup-put_text, lookup-other, lookup-put_option_other, lookup-put_option) refl

  pub lookup-significant_digits :
      lookup (codes "significantDigits") built ≡ map_option T.int_to_string d.significant_digits
  unfolding build_attributes lookup
  lookup-significant_digits =
      simp (lookup-put_text, lookup-other, lookup-put_option_other, lookup-put_option) refl

  pub attribute-representation :
      attribute (codes "representation") built ≡ representation_text item.representation
  unfolding build_attributes lookup
  attribute-representation =
      simp (attribute-put_text, attribute-insert, attribute-put_option)
        (or_empty (representation_text item.representation))

  pub attribute-discrete :
      attribute (codes "discrete") built ≡ (if item.is_discrete then codes "true" else [])
  unfolding build_attributes lookup
  attribute-discrete =
      simp (attribute-put_text, attribute-insert, attribute-put_option)
        (or_empty (if item.is_discrete then codes "true" else []))
