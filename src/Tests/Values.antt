-- ===== src/Tests/Values.antt =====
-- Data items and values at concrete inputs.
use cppagent.Base.{
  ◌+◌, ◌≤◌, ◌≡◌, refl, true, false, Option, none, some, [], ◌∷◌, Text, Map, codes, length,
  split_first, is_empty, ◌==◌, if◌then◌else◌, arith, pos, map,
}
use cppagent.DataItem.{Category, DataItem}
use cppagent.DataItem.Order.{Placed, is_before, is_before_trans, is_before-same}
use cppagent.DataItem.Build.{Texts, get_camel_type}
use cppagent.DataItem.Build.Camel.{get_camel_type-joined, joined, in_camel_case, with_prefix}
use cppagent.DataItem.Conversion.{Numbers, Conversion, convert_text, convert_float, is_space}
use cppagent.DataItem.Conversion.Memo.{convert_texts, convert_floats, converts-map}
use cppagent.Observation.Values.{Match, Regexes, parse_data_set, entry_of}
use cppagent.Observation.Values.Ends.{Shortens, IsParsed, parse_data_set-IsParsed}
use cppagent.Observation.Values.Escapes.{entry_of-escape, double_quotes}
use cppagent.Observation.Build.{new_observation}
use cppagent.Observation.Build.Total.{IsBuilt, ReadsNumbers, new_observation-IsBuilt}
use cppagent.Tests.Data.{set_item, event_item}

-- Numbers without a fraction.
abbrev pub whole : Numbers
whole = record {
  literal = λ t. length t;
  add = λ a b. a + b;
  mul = λ a b. a;
  div = λ a b. a;
  pow = λ a b. a;
  widen = λ a. a;
  narrow = λ a. a;
  atof = λ t. length t;
  float_to_string = λ n. n ∷ [];
  strtof = λ t. elim t [ [] ↦ none | c ∷ s ↦ some (c, s) ];
  stod = λ t. some (length t);
  stoll = λ t. some (pos (length t));
}

-- The text up to a space, and the text behind it.
abbrev word : Text → Text × Text
word s = elim (split_first is_space s) [ none ↦ (s, []) | some p ↦ p ]

-- A match of a key, or of a key and a value, in a word.
abbrev entry_in : Text → Text → Match
entry_in w rest = elim (split_first (λ c. c == b'=') w) [
  | none ↦ record { key = w; has_equals = false; value = none; suffix = rest }
  | some (k, v) ↦ record {
    key = k;
    has_equals = true;
    value = if is_empty v then none else some v;
    suffix = rest;
  }
]

-- The entries between spaces.
abbrev words : Text → Option Match
words [] = none
words (c ∷ s) = some (entry_in (c ∷ (word s).0) (word s).1)

abbrev pub regexes : Regexes
regexes = record { search = λ r. words; matches = λ r t. false }

length-word : (s : Text) → length (word s).1 ≤ length s
length-word [] = omega arith
length-word (c ∷ s) = ground (arith, length-word s)

suffix-entry_in : (w rest : Text) → (entry_in w rest).suffix ≡ rest
suffix-entry_in w rest = ground arith

words-Shortens : Shortens words
words-Shortens [] m h = absurd (ground arith)
words-Shortens (c ∷ s) m h =
    ground (arith, h, length-word s, suffix-entry_in (c ∷ (word s).0) (word s).1)

whole-ReadsNumbers : ReadsNumbers whole.strtof
whole-ReadsNumbers [] v rest h = absurd (ground arith)
whole-ReadsNumbers (c ∷ s) v rest h = ground (arith, h)

abbrev pub undetermined : Conversion
undetermined = record {
  native_scale = none;
  factor = 0;
  offset = 0;
  determined = false;
  required = false;
  has_factor = false;
  three_d = false;
}

parse_data_set-IsParsed_example :
    IsParsed (parse_data_set whole regexes (codes "b=1 a= b=2 c") false)
parse_data_set-IsParsed_example =
    parse_data_set-IsParsed whole regexes words-Shortens (codes "b=1 a= b=2 c") false

new_observation-IsBuilt_example :
    IsBuilt set_item 7 (
      new_observation whole regexes set_item 7 (codes "t@1") (codes ":MANUAL b=1 a=2") undetermined)
new_observation-IsBuilt_example =
    new_observation-IsBuilt whole regexes words-Shortens whole-ReadsNumbers set_item 7 (codes "t@1")
      (codes ":MANUAL b=1 a=2") undetermined

abbrev in_inches : DataItem
in_inches = record (event_item (codes "x1")) {
  native_units = codes "INCH";
  units = codes "MILLIMETER";
}

converts-map_example :
    ((convert_texts whole in_inches undetermined (codes "1" ∷ codes "22" ∷ [])).0
      ≡ map (λ v. (convert_text whole in_inches undetermined v).0) (codes "1" ∷ codes "22" ∷ []))
    × ((convert_floats whole in_inches undetermined (1 ∷ 2 ∷ [])).0
        ≡ map (λ v. (convert_float whole in_inches undetermined v).0) (1 ∷ 2 ∷ []))
converts-map_example =
    converts-map whole in_inches undetermined (codes "1" ∷ codes "22" ∷ []) (1 ∷ 2 ∷ [])

-- A match of `k="a\"b"`.
abbrev quoted : Match
quoted = record {
  key = codes "k";
  has_equals = true;
  value = some (codes "\"a\\\"b\"");
  suffix = [];
}

entry_of-escape_example : entry_of quoted ≡ some (codes "a\"b", false)
entry_of-escape_example =
    entry_of-escape quoted (λ c. c == b'"') (codes "a\"b") b'"' b'"' refl
      ((λ h. ground (arith, h)), ((λ h. ground (arith, h)), ((λ h. ground (arith, h)), tt)))
      double_quotes

abbrev texts : Texts
texts = record {
  string_to_float = λ t. length t;
  float_to_string = λ n. n ∷ [];
  atoi = λ t. pos (length t);
  int_to_string = λ i. codes "1";
}

abbrev position : Map Text
position =
    (codes "category", codes "SAMPLE")
    ∷ (codes "id", codes "x1")
    ∷ (codes "type", codes "POSITION")
    ∷ (codes "units", codes "MILLIMETER")
    ∷ (codes "sampleRate", codes "100")
    ∷ (codes "nativeScale", codes "2")
    ∷ (codes "significantDigits", codes "3")
    ∷ (codes "coordinateSystem", codes "WORK")
    ∷ []

get_camel_type-joined_example :
    get_camel_type (with_prefix none (joined (codes "AC") (codes "POWER" ∷ [])))
    ≡ ([], in_camel_case (codes "AC") (codes "POWER" ∷ []))
get_camel_type-joined_example =
    get_camel_type-joined none (codes "AC") (codes "POWER" ∷ []) refl refl (refl, tt)

-- A data item of a component of a device.
abbrev placed : Text → Text → DataItem → Placed
placed device component item = record { device_id = device; component_id = component; item = item }

abbrev at_axis : Placed
at_axis = placed (codes "d") (codes "x") (event_item (codes "b"))

abbrev at_device : Placed
at_device = placed (codes "d") (codes "d") (event_item (codes "c"))

abbrev at_other : Placed
at_other = placed (codes "e") (codes "e") (event_item (codes "a"))

is_before_trans_example :
    (is_before at_device at_other ≡ true)
    × (is_before at_axis at_device ≡ false)
    × (is_before at_device at_device ≡ false)
unfolding is_before
is_before_trans_example = is_before_trans at_device at_axis at_other refl refl

is_before-same_example :
    (◌≡◌ {A = Text} (codes "d") (codes "d"))
    × (◌≡◌ {A = Text} (codes "x") (codes "x"))
    × (Category.event ≡ Category.event)
    × (◌≡◌ {A = Text} (codes "b") (codes "b"))
unfolding is_before
is_before-same_example = is_before-same at_axis at_axis refl refl
