-- ===== src/Observation/Values/Ends.antt =====
-- The parsing of a data set ends, and what it makes is in order (src/observation.cpp,
-- `parseDataSet`).
use cppagent.Base.{
  ℕ, zero, suc, ◌<◌, ◌≡◌, Bool, true, false, Option, none, some, Text, length, if◌then◌else◌, arith,
  Option-cases, inl, inr,
}
use cppagent.DataSet.{DataSetValue, DataSet, set, double, int, text, nil}
use cppagent.DataSet.Laws.{IsOrdered, insert-IsOrdered}
use cppagent.DataItem.Conversion.{Numbers}
use cppagent.Observation.Values.{
  Run, done, thrown, unfinished, and_then, of_option, Match, Regexes, entry_of, add_entry,
  parse_entries, tokenizer, float_reg, int_reg, data_set_value, parse_row, parse_data_set,
}

-- A match takes a character at least: the first group of the expression is not empty.
abbrev pub Shortens : (Text → Option Match) → Type 0
Shortens search = (s : Text) (m : Match) → search s ≡ some m → length m.suffix < length s

-- A run does not stop for want of fuel.
abbrev pub Ends {ℓ} : {A : Type ℓ} → Run A → Type 0
Ends (done a) = Unit
Ends thrown = Unit
Ends unfinished = ⊥

-- A parsed set is in the order of its keys, each of which is there once, or an exception is thrown.
abbrev pub IsParsed : Run DataSet → Type 0
IsParsed (done s) = IsOrdered s
IsParsed thrown = Unit
IsParsed unfinished = ⊥

pub Ends-IsParsed : (r : Run DataSet) → IsParsed r → Ends r
Ends-IsParsed (done s) h = tt
Ends-IsParsed thrown h = tt
Ends-IsParsed unfinished h = elim h [ ]

pub Ends-and_then {ℓ κ} :
    {A : Type ℓ} {B : Type κ} (r : Run A) (f : A → Run B)
    → Ends r
    → ((a : A) → Ends (f a))
    → Ends (and_then r f)
Ends-and_then (done a) f h k = k a
Ends-and_then thrown f h k = tt
Ends-and_then unfinished f h k = elim h [ ]

pub Ends-of_option {ℓ} : {A : Type ℓ} (o : Option A) → Ends (of_option o)
Ends-of_option none = tt
Ends-of_option (some a) = tt

module _ (R : Regexes) (shortens : Shortens (R.search tokenizer))
    (to_value : Text → Run DataSetValue) (ends : (v : Text) → Ends (to_value v)) where
  add_entry-IsParsed :
      (key : Text) (removed : Bool) (s : DataSet) (r : Run DataSetValue)
      (more : DataSet → Run DataSet)
      → Ends r
      → IsOrdered s
      → ((s' : DataSet) → IsOrdered s' → IsParsed (more s'))
      → IsParsed (add_entry key removed s r more)
  add_entry-IsParsed key removed s (done v) more h o k = k _ (insert-IsOrdered key v removed s o)
  add_entry-IsParsed key removed s thrown more h o k = tt
  add_entry-IsParsed key removed s unfinished more h o k = elim h [ ]

  parse_entries-IsParsed :
      (fuel : ℕ) (rest : Text) (s : DataSet)
      → length rest < fuel
      → IsOrdered s
      → IsParsed (parse_entries R to_value fuel rest s)
  unfolding parse_entries
  parse_entries-IsParsed zero rest s h o = absurd (omega arith)
  parse_entries-IsParsed (suc fuel) rest s h o = elim (Option-cases (R.search tokenizer rest)) [
    | inl e ↦ rw (e, IsParsed) o
    | inr (m, e) ↦ elim (Option-cases (entry_of m)) [
      | inl n ↦ rw (e, n, IsParsed) o
      | inr ((v, removed), n) ↦
          let shorter = shortens rest m e in
          rw (e, n, IsParsed)
            (add_entry-IsParsed m.key removed s (to_value v)
              (λ s'. parse_entries R to_value fuel m.suffix s') (ends v) o
              (λ s' o'. parse_entries-IsParsed fuel m.suffix s' (omega arith) o'))
    ]
  ]

module _ (N : Numbers) (R : Regexes) (shortens : Shortens (R.search tokenizer)) where
  data_set_value-Ends : (v : Text) → Ends (data_set_value N R v)
  unfolding data_set_value
  data_set_value-Ends v = go (R.matches float_reg v) (R.matches int_reg v)
    where
      go :
          (f i : Bool)
          → Ends (
              if f
              then and_then (of_option (N.stod v)) (λ d. done (double d))
              else if i
              then and_then (of_option (N.stoll v)) (λ i. done (int i))
              else done (text v))
      go true i =
          Ends-and_then (of_option (N.stod v)) (λ d. done (double d)) (Ends-of_option (N.stod v))
            (λ d. tt)
      go false true =
          Ends-and_then (of_option (N.stoll v)) (λ i. done (int i)) (Ends-of_option (N.stoll v))
            (λ d. tt)
      go false false = tt

  parse_row-IsParsed : (s : Text) → IsParsed (parse_row N R s)
  unfolding parse_row
  parse_row-IsParsed s =
      parse_entries-IsParsed R shortens (data_set_value N R) data_set_value-Ends (suc (length s)) s
        nil (omega arith) tt

  -- `parseDataSet` ends for every text, of a data set and of a table, with a set in the order of its keys
  -- or with an exception, if each match of the expression takes a character.
  pub parse_data_set-IsParsed : (s : Text) (table : Bool) → IsParsed (parse_data_set N R s table)
  unfolding parse_data_set
  parse_data_set-IsParsed s false = parse_row-IsParsed s
  parse_data_set-IsParsed s true =
      let row_of : Text → Run DataSetValue =
        λ v. and_then (parse_row N R v) (λ row. done (set row)) in
      parse_entries-IsParsed R shortens row_of
        (λ v.
          Ends-and_then (parse_row N R v) (λ row. done (set row))
            (Ends-IsParsed (parse_row N R v) (parse_row-IsParsed v)) (λ row. tt))
        (suc (length s)) s nil (omega arith) tt
