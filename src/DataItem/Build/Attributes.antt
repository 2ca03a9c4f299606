-- ===== src/DataItem/Build/Attributes.antt =====
-- The attributes that `buildAttributes` makes of a data item give the data item again
-- (src/data_item.cpp).
use cppagent.Base.{◌≡◌, ◌++◌, ℕ, ℤ, Option, ◌∷◌, Text, is_empty, if◌then◌else◌}
use cppagent.DataItem.{DataItem}
use cppagent.DataItem.Build.{Texts, Description, map_option, get_camel_type, suffix_of}

-- The native scale and the number of significant digits of a description are those that their texts are
-- read as.
abbrev pub IsReadBack : Texts → Description → Type 0
IsReadBack T d =
    (map_option T.string_to_float (map_option T.float_to_string d.native_scale) ≡ d.native_scale)
    × (map_option T.atoi (map_option T.int_to_string d.significant_digits) ≡ d.significant_digits)

-- A description, with the members that the constructor works out from the type of its item.
described : DataItem → Text → Option ℕ → Option ℤ → Text → Description
described item rate scale digits system =
    let (prefix, camel) = get_camel_type item.type in
    let camel_type = camel ++ suffix_of item.representation in
    record {
      item = item;
      prefix = prefix;
      camel_type = camel_type;
      prefixed_camel_type = if is_empty prefix then camel_type else prefix ++ (b':' ∷ camel_type);
      sample_rate = rate;
      native_scale = scale;
      significant_digits = digits;
      coordinate_system = system;
    }
