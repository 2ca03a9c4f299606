-- ===== src/Availability/Losses.antt =====
-- The observations that report a loss (src/agent.cpp, `disconnected`), and what a checkpoint makes of
-- them.
use cppagent.Base.{
  ℕ, ◌≡◌, refl, Bool, true, Option, none, some, [], ◌∷◌, Text, codes, text_eq, ◌==◌, if◌then◌else◌,
  arith, Bool-cases, inl, inr, ap, sym, subst, ◌∙◌, split_first,
}
use cppagent.DataSet.{nil}
use cppagent.DataItem.{DataItem, is_condition, is_data_set, is_time_series, has_reset_trigger}
use cppagent.DataItem.Conversion.{Numbers, Conversion}
use cppagent.Observation.{Observation, Chain, Level, same_level, get_level, is_unavailable}
use cppagent.Observation.Values.{done, thrown, unfinished, Regexes}
use cppagent.Observation.Build.{new_observation, convert_value, with_rest, blank, Built, split_pipe}
use cppagent.Checkpoint.{add_condition, add_data_set, update}
use cppagent.Availability.{unavailable, condition_unavailable}

-- An observation of a data item says that its value is not available.
abbrev pub is_lost : DataItem → Observation → Bool
is_lost d o =
    if is_condition d
    then same_level (get_level o) Level.unavailable
    else text_eq o.value unavailable

abbrev pub Lost : DataItem → Option Chain → Type 0
Lost d none = ⊥
Lost d (some []) = ⊥
Lost d (some (o ∷ chain)) = is_lost d o ≡ true

-- The text that says so.
abbrev pub lost_text : DataItem → Text
lost_text d = if is_condition d then condition_unavailable else unavailable

-- The observation of that text.
abbrev pub IsLoss : DataItem → Built → Type 0
IsLoss d (done (o, c)) = (o.item ≡ d) × (is_lost d o ≡ true) × (o.values ≡ nil)
IsLoss d thrown = ⊥
IsLoss d unfinished = ⊥

is_lost-rest :
    (o : Observation)
    → is_condition o.item ≡ true
    → o.rest ≡ codes "UNAVAILABLE||"
    → is_lost o.item o ≡ true
unfolding get_level
is_lost-rest o y e = ground (arith, y, get_level-rest o y e)
  where
    get_level-rest :
        (o : Observation)
        → is_condition o.item ≡ true
        → o.rest ≡ codes "UNAVAILABLE||"
        → get_level o ≡ Level.unavailable
    get_level-rest o y e = rw (y, e, get_level) refl

module _ (N : Numbers) (R : Regexes) where
  convert_value-IsLoss :
      (o : Observation) (c : Conversion)
      → o.values ≡ nil
      → IsLoss o.item (convert_value N R o c (lost_text o.item))
  unfolding convert_value with_rest split_pipe
  convert_value-IsLoss o c e = elim (Bool-cases (is_condition o.item)) [
    | inr n ↦ rw (n, IsLoss) (refl, ground (arith, n), e)
    | inl y ↦ elim (Bool-cases (is_time_series o.item)) [
      | inl t ↦
          rw (y, t, IsLoss)
            (
              refl,
              is_lost-rest (record o { rest = codes "UNAVAILABLE||"; time_series = [] }) y refl,
              e,
            )
      | inr t ↦
          rw (y, t, IsLoss)
            (refl, is_lost-rest (record o { rest = codes "UNAVAILABLE||"; value = [] }) y refl, e)
    ]
  ]

  -- The constructor makes it, also for a data item with a reset trigger: the text has no colon.
  pub new_observation-IsLoss :
      (d : DataItem) (q : ℕ) (time : Text) (c : Conversion)
      → IsLoss d (new_observation N R d q time (lost_text d) c)
  unfolding new_observation
  new_observation-IsLoss d q time c =
      let plain : split_first (λ x. x == b':') (lost_text d) ≡ none =
        elim (Bool-cases (is_condition d)) [ inl y ↦ rw y refl | inr n ↦ rw n refl ] in
      elim (Bool-cases (has_reset_trigger d)) [
        | inr e ↦ rw (e, new_observation) (convert_value-IsLoss (blank d q time) c refl)
        | inl e ↦ rw (e, new_observation) (rw plain (convert_value-IsLoss (blank d q time) c refl))
      ]

unavailable-level : (l : Level) → same_level l Level.unavailable ≡ true → l ≡ Level.unavailable
unavailable-level Level.normal h = absurd (ground arith)
unavailable-level Level.warning h = absurd (ground arith)
unavailable-level Level.fault h = absurd (ground arith)
unavailable-level Level.unavailable h = refl

-- The last observation of a data item whose loss was stored.
pub update-Lost :
    (o : Observation) (old : Option Chain)
    → is_lost o.item o ≡ true
    → Lost o.item (some (update o old))
unfolding update is_unavailable add_condition add_data_set
update-Lost o none h = h
update-Lost o (some []) h = h
update-Lost o (some (p ∷ c)) h = elim (Bool-cases (is_condition o.item)) [
  | inl y ↦
      let level : get_level o ≡ Level.unavailable = unavailable-level (get_level o) (
        sym (
          ap
            (λ b.
              if b then same_level (get_level o) Level.unavailable else text_eq o.value unavailable)
            y)
        ∙ h) in
      let one : add_condition o p c ≡ o ∷ [] =
        rw (level, add_condition)
          (elim (Bool-cases (same_level (get_level p) Level.normal)) [
            | inl e ↦ rw e refl
            | inr e ↦ elim (Bool-cases (same_level (get_level p) Level.unavailable)) [
              | inl f ↦ rw (e, f) refl
              | inr f ↦ rw (e, f) refl
            ]
          ]) in
      subst (λ x. Lost o.item (some x))
        (sym (
          ap
            (λ b.
              if b
              then add_condition o p c
              else if is_data_set o.item
              then add_data_set o p ∷ []
              else o ∷ [])
            y
          ∙ one))
        h
  | inr n ↦
      let away : text_eq o.value unavailable ≡ true =
        sym (
          ap
            (λ b.
              if b then same_level (get_level o) Level.unavailable else text_eq o.value unavailable)
            n)
        ∙ h in
      let same : add_data_set o p ≡ o = rw (away, add_data_set) refl in
      let one : (if is_data_set o.item then add_data_set o p ∷ [] else o ∷ []) ≡ o ∷ [] =
        elim (Bool-cases (is_data_set o.item)) [ inl e ↦ rw (e, same) refl | inr e ↦ rw e refl ] in
      subst (λ x. Lost o.item (some x))
        (sym (
          ap
            (λ b.
              if b
              then add_condition o p c
              else if is_data_set o.item
              then add_data_set o p ∷ []
              else o ∷ [])
            n
          ∙ one))
        h
]
