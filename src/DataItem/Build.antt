-- ===== src/DataItem/Build.antt =====
-- The construction of a data item from the attributes of the device file (src/data_item.cpp): the
-- constructor, `getCamelType`, `capitalize`, `buildAttributes` and `hasName`.
pub mod Camel
pub mod Lookups
pub mod Attributes
use cppagent.Base.{
  ℕ, zero, suc, Bool, true, false, not, ◌||◌, ◌&&◌, Option, none, some, List, [], ◌∷◌, ◌++◌, Text,
  Map, codes, lookup, insert, length, is_empty, text_eq, split_first, strip_prefix, any_of, is_some,
  to_upper, to_lower, map, ◌==◌, if◌then◌else◌, ℤ,
}
use cppagent.DataItem.{
  DataItem, Category, sample, event, condition, Representation, value, time_series, discrete,
  data_set, table,
}

-- The conversions of the C++ library between texts and numbers. A float is its 32-bit pattern.
pub record Texts : Type 0 where
  pub string_to_float : Text → ℕ
  pub float_to_string : ℕ → Text
  pub atoi : Text → ℤ
  pub int_to_string : ℤ → Text

-- What the constructor sets: the members that the other parts read, and those for the device file's
-- print. An option stands for a number with its `m_has` flag.
pub record Description : Type 0 where
  pub item : DataItem
  pub prefix : Text
  pub camel_type : Text
  pub prefixed_camel_type : Text
  pub sample_rate : Text
  pub native_scale : Option ℕ
  pub significant_digits : Option ℤ
  pub coordinate_system : Text

exceptions : List Text
exceptions = codes "AC" ∷ codes "DC" ∷ codes "PH" ∷ codes "IP" ∷ []

first_upper : Text → Text
first_upper [] = []
first_upper (c ∷ s) = to_upper c ∷ map to_lower s

-- `capitalize`. A part is compared with as many characters of an exception as it has.
unfoldable pub capitalize : Text → Text
unfolding exceptions first_upper
capitalize s = if any_of (λ e. is_some (strip_prefix s e)) exceptions then s else first_upper s

abbrev pub is_underscore : ℕ → Bool
is_underscore c = c == b'_'

-- The loop of `getCamelType` over the parts between underscores. Each round takes a character.
unfoldable pub camel_from : ℕ → Text → Text
unfolding capitalize
camel_from zero s = []
camel_from (suc fuel) s = elim (split_first is_underscore s) [
  | none ↦ capitalize s
  | some (part, rest) ↦ capitalize part ++ camel_from fuel rest
]

-- `getCamelType`: the prefix and the type in camel case.
unfoldable pub get_camel_type : Text → Text × Text
unfolding camel_from
get_camel_type type = if is_empty type then ([], []) else elim (split_first (λ c. c == b':') type) [
  | none ↦ ([], camel_from (suc (length type)) type)
  | some (prefix, camel) ↦ (prefix, camel_from (suc (length camel)) camel)
]

-- An attribute, or what stays where it is not there.
abbrev pub attribute : Text → Map Text → Text
attribute k a = elim (lookup k a) [ none ↦ [] | some v ↦ v ]

abbrev pub representation_of : Text → Representation
representation_of v =
    if text_eq v (codes "TIME_SERIES")
    then time_series
    else if text_eq v (codes "DISCRETE")
    then discrete
    else if text_eq v (codes "DATA_SET")
    then data_set
    else if text_eq v (codes "TABLE")
    then table
    else value

-- What the representation adds to the type.
abbrev pub suffix_of : Representation → Text
suffix_of value = []
suffix_of time_series = codes "TimeSeries"
suffix_of discrete = codes "Discrete"
suffix_of data_set = codes "DataSet"
suffix_of table = codes "Table"

-- The category, which the constructor does not set where the attribute is missing or unknown: then it
-- is what the memory holds.
abbrev pub category_of : Category → Text → Category
category_of unset v =
    if text_eq v (codes "SAMPLE")
    then sample
    else if text_eq v (codes "CONDITION")
    then condition
    else if text_eq v (codes "EVENT")
    then event
    else unset

abbrev pub native_units_of : Map Text → Text
native_units_of a =
    let native = attribute (codes "nativeUnits") a in
    if is_empty native then attribute (codes "units") a else native

-- The members of `DataItem` that the other parts read.
unfoldable pub new_item : Category → Map Text → DataItem
new_item unset a =
    let type = attribute (codes "type") a in
    record {
      id = attribute (codes "id") a;
      name = attribute (codes "name") a;
      type = type;
      sub_type = attribute (codes "subType") a;
      category = category_of unset (attribute (codes "category") a);
      representation = representation_of (attribute (codes "representation") a);
      statistic = attribute (codes "statistic") a;
      composition_id = attribute (codes "compositionId") a;
      native_units = native_units_of a;
      units = attribute (codes "units") a;
      source = [];
      is_discrete = text_eq (attribute (codes "discrete") a) (codes "true");
      is_alarm = text_eq type (codes "ALARM");
      is_message = text_eq type (codes "MESSAGE");
      is_asset_changed = text_eq type (codes "ASSET_CHANGED");
      is_asset_removed = text_eq type (codes "ASSET_REMOVED");
      reset_trigger = [];
      initial_value = [];
      values = [];
      has_constraints = false;
      has_minimum_delta = false;
      has_minimum_period = false;
    }

abbrev pub map_option {ℓ κ} : {A : Type ℓ} {B : Type κ} → (A → B) → Option A → Option B
map_option f none = none
map_option f (some a) = some (f a)

-- The constructor.
unfoldable pub new_data_item : Texts → Category → Map Text → Description
unfolding new_item get_camel_type
new_data_item T unset a =
    let item = new_item unset a in
    let (prefix, camel) = get_camel_type item.type in
    let camel_type = camel ++ suffix_of item.representation in
    record {
      item = item;
      prefix = prefix;
      camel_type = camel_type;
      prefixed_camel_type = if is_empty prefix then camel_type else prefix ++ (b':' ∷ camel_type);
      sample_rate = attribute (codes "sampleRate") a;
      native_scale = map_option T.string_to_float (lookup (codes "nativeScale") a);
      significant_digits = map_option T.atoi (lookup (codes "significantDigits") a);
      coordinate_system = attribute (codes "coordinateSystem") a;
    }

-- `attributes[k] = v` for a text that is not empty.
unfoldable pub put_text : Text → Text → Map Text → Map Text
put_text k v m = if is_empty v then m else insert k v m

unfoldable pub put_option : Text → Option Text → Map Text → Map Text
put_option k none m = m
put_option k (some v) m = insert k v m

abbrev pub category_text : Category → Text
category_text sample = codes "SAMPLE"
category_text event = codes "EVENT"
category_text condition = codes "CONDITION"

abbrev pub representation_text : Representation → Text
representation_text value = []
representation_text time_series = codes "TIME_SERIES"
representation_text discrete = codes "DISCRETE"
representation_text data_set = codes "DATA_SET"
representation_text table = codes "TABLE"

-- `buildAttributes`, the last attribute outermost.
unfoldable pub build_attributes : Texts → Description → Map Text
unfolding put_text put_option
build_attributes T d = put_text (codes "discrete") (if item.is_discrete then codes "true" else []) (
    put_text (codes "compositionId") item.composition_id (
      put_text (codes "coordinateSystem") d.coordinate_system (
        put_option (codes "significantDigits") (map_option T.int_to_string d.significant_digits) (
          put_option (codes "nativeScale") (map_option T.float_to_string d.native_scale) (
            put_text (codes "units") item.units (
              put_text (codes "nativeUnits") item.native_units (
                put_text (codes "name") item.name (
                  put_text (codes "sampleRate") d.sample_rate (
                    put_text (codes "statistic") item.statistic (
                      put_text (codes "representation") (representation_text item.representation) (
                        insert (codes "category") (category_text item.category) (
                          put_text (codes "subType") item.sub_type (
                            insert (codes "type") item.type
                              (insert (codes "id") item.id []))))))))))))))
  where
    open d use {item}

-- `hasName`
unfoldable pub has_name : DataItem → Text → Bool
has_name d name =
    text_eq d.id name || (text_eq d.name name || not (is_empty d.source) && text_eq d.source name)
