-- ===== src/Availability.antt =====
-- What the agent reports by itself (src/agent.cpp): the first values of the constructor, and the values
-- of `connected` and `disconnected`.
pub mod Losses
pub mod Lost
pub mod Leaves
pub mod Disconnects
use cppagent.Base.{
  ℕ, zero, suc, Bool, true, false, not, ◌&&◌, ◌||◌, Option, none, some, List, [], ◌∷◌, Text, Map,
  codes, lookup, insert, length, text_eq, ltb, ◌==◌, if◌then◌else◌, is_some,
}
use cppagent.DataItem.{DataItem, is_condition, has_constant_value}
use cppagent.DataItem.Conversion.{Numbers, Conversion}
use cppagent.Observation.{Observation, Level, same_level, get_level}
use cppagent.Observation.Values.{Run, done, thrown, unfinished, and_then, Regexes}
use cppagent.Observation.Build.{new_observation}
use cppagent.SlidingBuffer.{SlidingBuffer}
use cppagent.Sequencer.{Sequencer}
use cppagent.ChangeObserver.{Signals}
use cppagent.Streaming.{add_to_buffer}
use cppagent.Adapter.Process.{Surroundings, Adapter, is_duplicate}

-- The agent with an adapter. `conversions` leads from the id of a data item to its conversion.
pub record World (Buffer Hidden : Type 0) : Type 0 where
  pub agent : Sequencer Buffer
  pub signals : Signals
  pub adapter : Adapter Hidden
  pub conversions : Text → Conversion

-- `g_unavailable` and `g_conditionUnavailable`
abbrev pub unavailable : Text
unavailable = codes "UNAVAILABLE"

abbrev pub condition_unavailable : Text
condition_unavailable = codes "UNAVAILABLE|||"

-- Whether a data item is that of an adapter: it has the adapter as its source, or it is an
-- availability without a source.
unfoldable pub belongs : (DataItem → Option ℕ) → ℕ → Bool → DataItem → Bool
belongs source adapter auto_available d = elim (source d) [
  | some i ↦ i == adapter
  | none ↦ auto_available && text_eq d.type (codes "AVAILABILITY")
]

-- The value that `disconnected` reports of a data item, from its last observation.
unfoldable pub lost_value : DataItem → Observation → Option Text
lost_value d o =
    if is_condition d
    then (if not (same_level (get_level o) Level.unavailable)
        then some condition_unavailable
        else none)
    else if d.has_constraints
    then (if ltb 1 (length d.values) && not (text_eq o.value unavailable)
        then some unavailable
        else none)
    else if not (text_eq o.value unavailable)
    then some unavailable
    else none

-- The first value of a data item.
unfoldable pub initial_value_of : DataItem → Text
initial_value_of d = if is_condition d then condition_unavailable else elim d.values [
  | [] ↦ unavailable
  | v ∷ rest ↦ if has_constant_value d then v else unavailable
]

module _ (lib : SlidingBuffer) (N : Numbers) (R : Regexes) (env : Surroundings) where
  open lib use {Buffer}
  open env use {Hidden, Offset}

  -- An observation in the buffer, with its signals.
  abbrev pub put_observation :
      DataItem → World Buffer Hidden → Run (Observation × Conversion) → Run (World Buffer Hidden)
  put_observation d w (done (o, c)) =
      let x = add_to_buffer lib o w.agent w.signals in
      done (record w {
        agent = x.1;
        signals = x.2;
        conversions = λ id. if text_eq d.id id then c else w.conversions id;
      })
  put_observation d w thrown = thrown
  put_observation d w unfinished = unfinished

  -- `addToBuffer` of a value.
  unfoldable pub add_value :
      DataItem → Text → Text → World Buffer Hidden → Run (World Buffer Hidden)
  unfolding new_observation add_to_buffer
  add_value d value time w =
      put_observation d w (new_observation N R d w.agent.sequence time value (w.conversions d.id))

  -- A value that is reported unless the adapter takes it for a duplicate.
  abbrev pub report_unless :
      DataItem
      → Text
      → Text
      → World Buffer Hidden
      → Bool × Adapter Hidden
      → Run (World Buffer Hidden)
  report_unless d value time w (true, a) = done (record w { adapter = a })
  report_unless d value time w (false, a) = add_value d value time (record w { adapter = a })

  -- The body of the loop of `disconnected` for a data item of the adapter; `nan` is the time offset.
  unfoldable pub disconnect_item :
      Offset → Text → DataItem → World Buffer Hidden → Run (World Buffer Hidden)
  unfolding add_value lost_value is_duplicate
  disconnect_item nan time d w = elim (lookup d.id w.agent.latest.events) [
    | none ↦ done w
    | some [] ↦ done w
    | some (o ∷ chain) ↦ elim (lost_value d o) [
      | none ↦ done w
      | some value ↦ report_unless d value time w (is_duplicate env d value nan w.adapter)
    ]
  ]

  -- `disconnected`, for the data items of the devices, in turn: those that belong to the adapter.
  -- `source` leads from a data item to its adapter.
  unfoldable pub disconnected :
      (DataItem → Option ℕ)
      → ℕ
      → Bool
      → Offset
      → Text
      → List DataItem
      → World Buffer Hidden
      → Run (World Buffer Hidden)
  unfolding disconnect_item belongs
  disconnected source adapter auto nan time [] w = done w
  disconnected source adapter auto nan time (d ∷ ds) w =
      and_then (if belongs source adapter auto d then disconnect_item nan time d w else done w)
        (λ w'. disconnected source adapter auto nan time ds w')

  -- The loop of `connected` over the availabilities of the devices.
  unfoldable pub connect_each :
      Text → List (Option DataItem) → World Buffer Hidden → Run (World Buffer Hidden)
  unfolding add_value
  connect_each time [] w = done w
  connect_each time (none ∷ ds) w = connect_each time ds w
  connect_each time (some d ∷ ds) w =
      and_then (add_value d (codes "AVAILABLE") time w) (λ w'. connect_each time ds w')

  -- `connected`
  unfoldable pub connected :
      Bool → Text → List (Option DataItem) → World Buffer Hidden → Run (World Buffer Hidden)
  unfolding connect_each
  connected auto_available time ds w = if not auto_available then done w else connect_each time ds w

  -- The loop of the constructor that reports the first values. A second data item with an id exits:
  -- `thrown`.
  unfoldable pub initialize :
      Text
      → List DataItem
      → Map DataItem
      → World Buffer Hidden
      → Run (Map DataItem × World Buffer Hidden)
  unfolding add_value initial_value_of
  initialize time [] items w = done (items, w)
  initialize time (d ∷ ds) items w = and_then (add_value d (initial_value_of d) time w) (λ w'.
      let rest = initialize time ds (insert d.id d items) w' in
      if is_some (lookup d.id items) then thrown else rest)
