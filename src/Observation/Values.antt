-- ===== src/Observation/Values.antt =====
-- The text of a data set (src/observation.cpp): the expressions, `dataSetValue` and `parseDataSet`.
-- std::regex, which gets the texts of the expressions, is a parameter.
pub mod Ends
pub mod Escapes
use cppagent.Base.{
  ℕ, zero, suc, ◌-◌, Bool, true, false, not, ◌||◌, ◌&&◌, Option, none, some, List, [], ◌∷◌, ◌++◌,
  Text, codes, length, is_empty, ◌==◌, if◌then◌else◌,
}
use cppagent.DataSet.{DataSetValue, DataSet, set, text, int, double, nil, insert}
use cppagent.DataItem.Conversion.{Numbers}

-- How a piece of code ends: with a value, with an exception that is not caught, or out of fuel.
pub data Run {ℓ} (A : Type ℓ) : Type ℓ where
  done : A → Run A
  thrown : Run A
  unfinished : Run A

abbrev pub and_then {ℓ κ} : {A : Type ℓ} {B : Type κ} → Run A → (A → Run B) → Run B
and_then (done a) f = f a
and_then thrown f = thrown
and_then unfinished f = unfinished

abbrev pub of_option {ℓ} : {A : Type ℓ} → Option A → Run A
of_option none = thrown
of_option (some a) = done a

-- A match of `tokenizer`: the first group, whether the second one matched, the third one where it
-- matched, and the suffix.
pub record Match : Type 0 where
  pub key : Text
  pub has_equals : Bool
  pub value : Option Text
  pub suffix : Text

-- The uses of std::regex, each with the text of the expression: `regex_search`, none where nothing
-- matches or a `regex_error` is thrown, and `regex_match`.
pub record Regexes : Type 0 where
  pub search : Text → Text → Option Match
  pub matches : Text → Text → Bool

-- `WS_RE`
abbrev ws_re : Text
ws_re = codes "[ \t]*"

-- `KEY_RE`
abbrev key_re : Text
key_re = codes "([^ \t=]+)"

-- `DQ_RE`
abbrev dq_re : Text
dq_re = codes "\"([^\\\\\"]+(\\\\\")?)+\""

-- `SQ_RE`
abbrev sq_re : Text
sq_re = codes "'([^\\\\']+(\\\\')?)+'"

-- `CB_RE`
abbrev cb_re : Text
cb_re = codes "\\{([^\\}\\\\]+(\\\\\\})?)+\\}"

-- `VAL_RE`
abbrev val_re : Text
val_re = codes "[^ \t]+"

-- The text of `tokenizer`.
abbrev pub tokenizer : Text
tokenizer =
    ws_re
    ++ (key_re
        ++ (codes "(=("
            ++ (dq_re
                ++ (codes "|"
                    ++ (sq_re
                        ++ (codes "|" ++ (cb_re ++ (codes "|" ++ (val_re ++ codes ")?)?")))))))))

-- The text of `int_regex`.
abbrev pub int_reg : Text
int_reg = codes "[+-]?[0-9]+"

-- The text of `float_regex`.
abbrev pub float_reg : Text
float_reg = codes "[+-]?[0-9]*\\.[0-9]+([eE][+-]?[0-9]+)?"

-- The loop that takes escapes out, behind a backslash or not.
unfoldable pub unescape : Bool → Text → Text
unescape escaped [] = []
unescape true (c ∷ s) = c ∷ unescape false s
unescape false (c ∷ s) =
    let plain = c ∷ unescape false s in
    let behind = unescape true s in if c == b'\\' then behind else plain

-- `back()` of a text that is not empty.
abbrev pub back : ℕ → Text → ℕ
back c [] = c
back c (d ∷ s) = back d s

-- `substr(1, size() - 2)` of a text, behind its first character.
abbrev pub but_last : Text → Text
but_last [] = []
but_last (c ∷ s) = elim s [ [] ↦ [] | d ∷ t ↦ c ∷ but_last s ]

-- The text of a value, without its quotes and escapes, or none where the quote is not closed. An
-- empty group is not read: the expression matches a character at least.
unfoldable pub unquoted : Text → Option Text
unfolding unescape
unquoted [] = some []
unquoted (c ∷ s) =
    let last = back c s in
    if c == b'"' && not (last == b'"')
      || (c == b'\'' && not (last == b'\'') || c == b'{' && not (last == b'}'))
    then none
    else some
        (unescape false (if c == b'"' || (c == b'\'' || c == b'{') then but_last s else c ∷ s))

-- The value of a match and its removed flag, or none for an invalid value.
unfoldable pub entry_of : Match → Option (Text × Bool)
unfolding unquoted
entry_of m = elim m.value [
  | none ↦ some ([], not m.has_equals)
  | some v ↦ elim (unquoted v) [ none ↦ none | some t ↦ some (t, false) ]
]

-- What a round of `parseDataSet` does with an entry.
abbrev add_entry : Text → Bool → DataSet → Run DataSetValue → (DataSet → Run DataSet) → Run DataSet
add_entry key removed s (done v) more = more (insert key v removed s)
add_entry key removed s thrown more = thrown
add_entry key removed s unfinished more = unfinished

-- The loop of `parseDataSet`, with what makes a value of a text. `emplace` keeps an entry with the key.
unfoldable pub parse_entries :
    Regexes → (Text → Run DataSetValue) → ℕ → Text → DataSet → Run DataSet
unfolding entry_of
parse_entries R to_value zero rest s = unfinished
parse_entries R to_value (suc fuel) rest s = elim (R.search tokenizer rest) [
  | none ↦ done s
  | some m ↦ elim (entry_of m) [
    | none ↦ done s
    | some (v, removed) ↦
        add_entry m.key removed s (to_value v) (λ s'. parse_entries R to_value fuel m.suffix s')
  ]
]

module _ (N : Numbers) (R : Regexes) where
  -- `dataSetValue`. `stod` and `stoll` throw for a number out of range.
  unfoldable pub data_set_value : Text → Run DataSetValue
  data_set_value v =
      if R.matches float_reg v
      then and_then (of_option (N.stod v)) (λ d. done (double d))
      else if R.matches int_reg v
      then and_then (of_option (N.stoll v)) (λ i. done (int i))
      else done (text v)

  -- `parseDataSet` of a data set, which is also that of a row of a table.
  unfoldable pub parse_row : Text → Run DataSet
  unfolding parse_entries data_set_value
  parse_row s = parse_entries R data_set_value (suc (length s)) s nil

  -- `parseDataSet`
  unfoldable pub parse_data_set : Text → Bool → Run DataSet
  unfolding parse_row parse_entries
  parse_data_set s table =
      if table
      then parse_entries R (λ v. and_then (parse_row v) (λ row. done (set row))) (suc (length s)) s
          nil
      else parse_row s
