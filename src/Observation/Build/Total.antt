-- ===== src/Observation/Build/Total.antt =====
-- Every text of an adapter makes an observation or throws (src/observation.cpp, the constructor of
-- `Observation`).
use cppagent.Base.{
  ℕ, zero, suc, ◌<◌, ◌≤◌, ◌≡◌, refl, Bool, true, false, ◌||◌, Option, none, some, List, [], ◌∷◌,
  Text, codes, length, text_eq, split_first, if◌then◌else◌, arith, Option-cases, Bool-cases, inl,
  inr, ◌==◌,
}
use cppagent.DataSet.{DataSet}
use cppagent.DataSet.Laws.{IsOrdered}
use cppagent.DataItem.{
  DataItem, is_condition, is_time_series, is_data_set, is_table, has_reset_trigger,
  has_initial_value,
}
use cppagent.DataItem.Conversion.{
  Numbers, Conversion, convert_text, convert_float, conversion_required,
}
use cppagent.Observation.{Observation}
use cppagent.Observation.Values.{
  Run, done, thrown, unfinished, and_then, of_option, Regexes, tokenizer, parse_data_set,
}
use cppagent.Observation.Values.Ends.{Shortens, Ends, IsParsed, parse_data_set-IsParsed}
use cppagent.Observation.Build.{
  Built, blank, split_pipe, with_value, take_trigger, read_series, converted, with_data_set,
  with_rest, convert_value, new_observation,
}

-- An observation of a data item with a sequence number, whose data set is in order, or an exception.
abbrev pub IsBuilt : DataItem → ℕ → Built → Type 0
IsBuilt item sequence (done (o, c)) = (o.item ≡ item) × (o.sequence ≡ sequence) × IsOrdered o.values
IsBuilt item sequence thrown = Unit
IsBuilt item sequence unfinished = ⊥

-- A number that is read takes a character at least.
abbrev pub ReadsNumbers : (Text → Option (ℕ × Text)) → Type 0
ReadsNumbers strtof =
    (s : Text) (v : ℕ) (rest : Text) → strtof s ≡ some (v, rest) → length rest < length s

Ends-with_value : (v : ℕ) (r : Run (List ℕ × Conversion)) → Ends r → Ends (with_value v r)
Ends-with_value v (done (vs, c)) h = tt
Ends-with_value v thrown h = tt
Ends-with_value v unfinished h = elim h [ ]

-- What is left to do with the parts of an observation.
and_then-IsBuilt {ℓ} :
    {A : Type ℓ} (item : DataItem) (sequence : ℕ) (r : Run A) (f : A → Built)
    → Ends r
    → ((a : A) → r ≡ done a → IsBuilt item sequence (f a))
    → IsBuilt item sequence (and_then r f)
and_then-IsBuilt item sequence (done a) f h k = k a refl
and_then-IsBuilt item sequence thrown f h k = tt
and_then-IsBuilt item sequence unfinished f h k = elim h [ ]

module _ (N : Numbers) (R : Regexes) (shortens : Shortens (R.search tokenizer))
    (reads : ReadsNumbers N.strtof) where
  read_series-Ends :
      (fuel : ℕ) (item : DataItem) (c : Conversion) (s : Text)
      → length s ≤ fuel
      → Ends (read_series N R fuel item c s)
  unfolding read_series
  read_series-Ends fuel item c [] h = tt
  read_series-Ends zero item c (d ∷ s) h = absurd (omega arith)
  read_series-Ends (suc fuel) item c (d ∷ s) h = elim (Bool-cases (d == 0)) [
    | inl e ↦ rw (e, Ends) tt
    | inr e ↦ elim (Option-cases (N.strtof (d ∷ s))) [
      | inl n ↦ rw (e, n, Ends) tt
      | inr ((v, rest), n) ↦
          let shorter = reads (d ∷ s) v rest n in
          rw (e, n)
            (Ends-with_value (convert_float N item c v).0 _
              (read_series-Ends fuel item (convert_float N item c v).1 rest (omega arith)))
    ]
  ]

  module _ (o : Observation) (ordered : IsOrdered o.values) where
    -- What an option with a state is made into.
    option-IsBuilt :
        (x : Option Text × Conversion)
        → IsBuilt o.item o.sequence
            (and_then (of_option x.0) (λ v. done (record o { value = v }, x.1)))
    option-IsBuilt (none, c) = tt
    option-IsBuilt (some v, c) = (refl, refl, ordered)

    needed-IsBuilt :
        (value : Text) (x : Bool × Conversion)
        → IsBuilt o.item o.sequence (
            if x.0
            then and_then
                (of_option (convert_text N o.item x.1 value).0)
                (λ v. done (record o { value = v }, (convert_text N o.item x.1 value).1))
            else done (record o { value = value }, x.1))
    needed-IsBuilt value (true, c) = option-IsBuilt (convert_text N o.item c value)
    needed-IsBuilt value (false, c) = (refl, refl, ordered)

    converted-IsBuilt :
        (c : Conversion) (value : Text) → IsBuilt o.item o.sequence (converted N R o c value)
    unfolding converted
    converted-IsBuilt c value = needed-IsBuilt value (conversion_required N o.item c)

    with_data_set-IsBuilt :
        (c : Conversion) (value : Text) → IsBuilt o.item o.sequence (with_data_set N R o c value)
    unfolding with_data_set
    with_data_set-IsBuilt c value =
        let x = take_trigger o.reset_triggered value in
        go (parse_data_set N R x.1 (is_table o.item))
          (parse_data_set-IsParsed N R shortens x.1 (is_table o.item))
      where
        go :
            (r : Run DataSet)
            → IsParsed r
            → IsBuilt o.item o.sequence (
                and_then r (λ s. done (
                  record o {
                    reset_triggered = (take_trigger o.reset_triggered value).0;
                    values = s;
                  },
                  c,
                )))
        go (done s) h = (refl, refl, h)
        go thrown h = tt
        go unfinished h = elim h [ ]

    with_rest-IsBuilt :
        (c : Conversion) (value : Text) → IsBuilt o.item o.sequence (with_rest N R o c value)
    unfolding with_rest
    with_rest-IsBuilt c value = elim (Bool-cases (is_time_series o.item)) [
      | inr e ↦ rw (e, IsBuilt) (refl, refl, ordered)
      | inl e ↦
          let x = split_pipe value in
          rw e (
            and_then-IsBuilt o.item o.sequence (read_series N R (length x.1) o.item c x.1) _
              (read_series-Ends (length x.1) o.item c x.1 (omega arith))
              (λ (vs, c') h. (refl, refl, ordered)))
    ]

    convert_value-IsBuilt :
        (c : Conversion) (value : Text) → IsBuilt o.item o.sequence (convert_value N R o c value)
    unfolding convert_value
    convert_value-IsBuilt c value = elim (Bool-cases (text_eq value (codes "UNAVAILABLE"))) [
      | inl e ↦ rw (e, IsBuilt) (refl, refl, ordered)
      | inr e ↦
          elim (Bool-cases (
            is_time_series o.item
            || (is_condition o.item
                || (o.item.is_alarm
                    || (o.item.is_message
                        || (o.item.is_asset_changed || o.item.is_asset_removed)))))) [
                          | inl f ↦ rw (e, f) (with_rest-IsBuilt c value)
                          | inr f ↦ elim (Bool-cases (is_data_set o.item)) [
                            | inl g ↦ rw (e, f, g) (with_data_set-IsBuilt c value)
                            | inr g ↦ rw (e, f, g) (converted-IsBuilt c value)
                          ]
                        ]
    ]

  -- Every text makes an observation of the data item with the sequence number, whose data set has each
  -- key once and in order, or throws, if each match of the expression and each number that is read takes
  -- a character: the loops end.
  pub new_observation-IsBuilt :
      (item : DataItem) (sequence : ℕ) (time value : Text) (c : Conversion)
      → IsBuilt item sequence (new_observation N R item sequence time value c)
  unfolding new_observation
  new_observation-IsBuilt item sequence time value c = elim (Bool-cases (has_reset_trigger item)) [
    | inr e ↦ rw e (convert_value-IsBuilt (blank item sequence time) tt c value)
    | inl e ↦ elim (Option-cases (split_first (λ d. d == b':') value)) [
      | inl n ↦ rw (e, n) (convert_value-IsBuilt (blank item sequence time) tt c value)
      | inr ((v, reset), n) ↦
          rw (e, n)
            (convert_value-IsBuilt (record (blank item sequence time) { reset_triggered = reset })
              tt c (if has_initial_value item then item.initial_value else v))
    ]
  ]
