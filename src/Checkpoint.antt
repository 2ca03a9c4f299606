-- ===== src/Checkpoint.antt =====
-- The checkpoint (src/checkpoint.hpp, src/checkpoint.cpp): the last state of every data item, with
-- the chain of active observations for a condition. The source shares the observations by reference
-- count; a chain here is the list of their values.
pub mod Laws
pub mod Condition
use cppagent.Base.{
  Bool, true, false, not, ◌&&◌, ◌||◌, Option, none, some, List, [], ◌∷◌, ◌++◌, Text, Map, TextSet,
  member, lookup, insert, keep_keys, is_empty, if◌then◌else◌,
}
use cppagent.DataSet.{nil, merge, difference, is_empty_set}
use cppagent.DataItem.{DataItem, is_condition, is_data_set}
use cppagent.Observation.{
  Observation, Chain, Level, same_level, get_level, get_code, find_code, remove_code, to_normal,
  is_unavailable,
}

-- The members of `Checkpoint`. The chains in `events` are not empty.
pub record Checkpoint : Type 0 where
  pub events : Map Chain
  pub filter : TextSet
  pub has_filter : Bool

abbrev pub empty : Checkpoint
empty = record { events = []; filter = []; has_filter = false }

-- Whether a level takes no part in a chain of active conditions.
abbrev pub is_inactive : Level → Bool
is_inactive l = same_level l Level.normal || same_level l Level.unavailable

-- The first branch for a condition: replace the observation with the same code, and chain the new one.
chain_event : Observation → Chain → Chain
chain_event event chain = elim (find_code (get_code event) chain) [
  | none ↦ event ∷ chain
  | some e ↦ event ∷ remove_code (get_code event) chain
]

-- The chain that a cleared code leaves, or a normal with no code if that was the last one.
cleared : Observation → Chain → Chain
cleared event [] = to_normal event ∷ []
cleared event (o ∷ chain) = o ∷ chain

-- The second branch for a condition: a normal with a code clears that code, one without clears all.
clear_event : Observation → Chain → Chain
unfolding cleared
clear_event event chain =
    if is_empty (get_code event) then event ∷ [] else elim (find_code (get_code event) chain) [
      | none ↦ chain
      | some e ↦ cleared event (remove_code (get_code event) chain)
    ]

-- What `addObservation` makes of the chain `o ∷ c` of a condition.
unfoldable pub add_condition : Observation → Observation → Chain → Chain
unfolding chain_event clear_event
add_condition event o c =
    if not (same_level (get_level o) Level.normal)
      && (not (same_level (get_level event) Level.normal)
          && (not (same_level (get_level o) Level.unavailable)
              && not (same_level (get_level event) Level.unavailable)))
    then chain_event event (o ∷ c)
    else if same_level (get_level event) Level.normal
    then clear_event event (o ∷ c)
    else event ∷ []

-- What it makes of the old observation of a data set: the copy of the new one, with the merged set.
unfoldable pub add_data_set : Observation → Observation → Observation
add_data_set event old =
    if not (is_unavailable event) && (not (is_unavailable old) && is_empty event.reset_triggered)
    then record event { values = merge old.values event.values }
    else event

-- The chain that a data item has after `event`, from the one that it had.
unfoldable pub update : Observation → Option Chain → Chain
unfolding add_condition add_data_set
update event none = event ∷ []
update event (some []) = event ∷ []
update event (some (o ∷ c)) =
    if is_condition event.item
    then add_condition event o c
    else if is_data_set event.item
    then add_data_set event o ∷ []
    else event ∷ []

-- `addObservation`
unfoldable pub add_observation : Observation → Checkpoint → Checkpoint
add_observation event c =
    if c.has_filter && not (member event.item.id c.filter) then c else record c {
      events = insert event.item.id (update event (lookup event.item.id c.events)) c.events;
    }

-- `copy`, into the checkpoint `c`.
unfoldable pub copy : Checkpoint → Checkpoint → Option TextSet → Checkpoint
copy c other (some f) = record {
  events = keep_keys (λ k. member k f) other.events;
  filter = f;
  has_filter = true;
}
copy c other none =
    if c.has_filter
    then record c { events = keep_keys (λ k. member k c.filter) other.events }
    else record c { events = other.events }

-- `Checkpoint(checkpoint, filterSet)`
unfoldable pub new_copy : Checkpoint → Option TextSet → Checkpoint
unfolding copy
new_copy other (some f) = copy empty other (some f)
new_copy other none =
    if other.has_filter then copy empty other (some other.filter) else copy empty other none

-- The loop of `getObservations` over the chains.
collect : (Chain → Bool) → Map Chain → List Observation
collect p [] = []
collect p ((k, chain) ∷ m) = if p chain then chain ++ collect p m else collect p m

abbrev listed : TextSet → Chain → Bool
listed f [] = false
listed f (o ∷ c) = member o.item.id f

-- `getObservations`
unfoldable pub get_observations : Checkpoint → Option TextSet → List Observation
unfolding collect
get_observations c none = collect (λ chain. true) c.events
get_observations c (some f) = collect (listed f) c.events

-- `filter`
unfoldable pub set_filter : TextSet → Checkpoint → Checkpoint
set_filter f c =
    if is_empty f
    then record c { filter = f }
    else record c { filter = f; events = keep_keys (λ k. member k f) c.events }

-- `dataSetDifference`: whether there is anything to report, and the event as it leaves it.
unfoldable pub data_set_difference : Observation → Checkpoint → Bool × Observation
data_set_difference event c =
    if is_data_set event.item && (not (is_empty_set event.values) && is_empty event.reset_triggered)
    then elim (lookup event.item.id c.events) [
      | none ↦ (true, event)
      | some [] ↦ (true, event)
      | some (o ∷ chain) ↦ (
        not (is_empty_set (difference o.values event.values)),
        record event { values = difference o.values event.values },
      )
    ]
    else (true, event)
