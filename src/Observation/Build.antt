-- ===== src/Observation/Build.antt =====
-- The construction of an observation from the text of an adapter (src/observation.cpp): the
-- constructor of `Observation` and `convertValue`.
pub mod Total
use cppagent.Base.{
  ℕ, zero, suc, Bool, true, false, not, ◌||◌, ◌&&◌, Option, none, some, List, [], ◌∷◌, ◌++◌, Text,
  codes, length, is_empty, text_eq, split_first, split_last, ◌==◌, if◌then◌else◌,
}
use cppagent.DataSet.{DataSet, nil}
use cppagent.DataItem.{
  DataItem, is_condition, is_time_series, is_data_set, is_table, has_reset_trigger,
  has_initial_value,
}
use cppagent.DataItem.Conversion.{
  Numbers, Conversion, convert_text, convert_float, conversion_required,
}
use cppagent.Observation.{Observation}
use cppagent.Observation.Values.{
  Run, done, thrown, unfinished, and_then, of_option, Regexes, parse_data_set,
}

-- An observation with the conversion of its data item.
abbrev pub Built : Type 0
Built = Run (Observation × Conversion)

-- The text in front of the last bar and the text behind it; both are the whole text without a bar.
unfoldable pub split_pipe : Text → Text × Text
split_pipe value = elim (split_last (λ c. c == b'|') value) [ none ↦ (value, value) | some p ↦ p ]

-- A value in front of the rest of a time series.
abbrev pub with_value : ℕ → Run (List ℕ × Conversion) → Run (List ℕ × Conversion)
with_value v (done (vs, c)) = done (v ∷ vs, c)
with_value v thrown = thrown
with_value v unfinished = unfinished

-- What a data set's text says of a reset: the trigger, and what is left of the text.
unfoldable pub take_trigger : Text → Text → Text × Text
take_trigger old [] = (old, [])
take_trigger old (c ∷ s) =
    if c == b':'
    then elim (split_first (λ d. d == b' ') s) [
      | none ↦ if is_empty s then (old, c ∷ s) else (s, [])
      | some (trigger, rest) ↦ if is_empty trigger then (old, c ∷ s) else (trigger, rest)
    ]
    else (old, c ∷ s)

-- The text and the duration of a time.
unfoldable pub split_time : Text → Text × Text
split_time time = elim (split_first (λ c. c == b'@') time) [ none ↦ (time, []) | some p ↦ p ]

-- The members before the value is read.
abbrev pub blank : DataItem → ℕ → Text → Observation
blank item sequence time = record {
  item = item;
  sequence = sequence;
  time = (split_time time).0;
  duration = (split_time time).1;
  rest = [];
  value = [];
  time_series = [];
  reset_triggered = [];
  values = nil;
}

module _ (N : Numbers) (R : Regexes) where
  -- The loop over the numbers of a time series, up to the end of the text or what is no number.
  unfoldable pub read_series : ℕ → DataItem → Conversion → Text → Run (List ℕ × Conversion)
  unfolding convert_float
  read_series fuel item c [] = done ([], c)
  read_series zero item c (d ∷ s) = unfinished
  read_series (suc fuel) item c (d ∷ s) = if d == 0 then done ([], c) else elim (N.strtof (d ∷ s)) [
    | none ↦ done ([], c)
    | some (v, rest) ↦
        let (w, c') = convert_float N item c v in with_value w (read_series fuel item c' rest)
  ]

  -- The value, with conversion where it is required. An exception leaves no observation.
  unfoldable pub converted : Observation → Conversion → Text → Built
  unfolding conversion_required convert_text
  converted o c value =
      let (needed, c1) = conversion_required N o.item c in
      if needed
      then (let (t, c2) = convert_text N o.item c1 value in
          and_then (of_option t) (λ v. done (record o { value = v }, c2)))
      else done (record o { value = value }, c1)

  -- The part for a data set.
  unfoldable pub with_data_set : Observation → Conversion → Text → Built
  unfolding take_trigger parse_data_set
  with_data_set o c value =
      let (trigger, rest) = take_trigger o.reset_triggered value in
      and_then (parse_data_set N R rest (is_table o.item))
        (λ s. done (record o { reset_triggered = trigger; values = s }, c))

  -- The part for a time series, a condition, an alarm, a message and an asset.
  unfoldable pub with_rest : Observation → Conversion → Text → Built
  unfolding split_pipe read_series
  with_rest o c value =
      let (rest, description) = split_pipe value in
      if is_time_series o.item
      then and_then (read_series (length description) o.item c description)
          (λ (vs, c'). done (record o { rest = rest; time_series = vs }, c'))
      else done (record o { rest = rest; value = description }, c)

  -- `convertValue`
  unfoldable pub convert_value : Observation → Conversion → Text → Built
  unfolding with_rest with_data_set converted
  convert_value o c value =
      if text_eq value (codes "UNAVAILABLE")
      then done (record o { value = value }, c)
      else if is_time_series o.item
          || (is_condition o.item
              || (o.item.is_alarm
                  || (o.item.is_message || (o.item.is_asset_changed || o.item.is_asset_removed))))
      then with_rest o c value
      else if is_data_set o.item
      then with_data_set o c value
      else converted o c value

  -- The constructor.
  unfoldable pub new_observation : DataItem → ℕ → Text → Text → Conversion → Built
  unfolding convert_value
  new_observation item sequence time value c =
      let o = blank item sequence time in
      if has_reset_trigger item
      then elim (split_first (λ d. d == b':') value) [
        | none ↦ convert_value o c value
        | some (v, reset) ↦
            convert_value (record o { reset_triggered = reset }) c
              (if has_initial_value item then item.initial_value else v)
      ]
      else convert_value o c value
