-- ===== src/Checkpoint/Laws.antt =====
-- What one observation changes in a checkpoint, and how a checkpoint commutes with a filter.
use cppagent.Base.{
  ◌≡◌, true, false, not, ◌&&◌, some, List, [], ◌∷◌, Text, TextSet, member, lookup, keep_keys,
  text_eq, lookup-insert, lookup-keep_keys, keep_keys-insert, KeysAscend, insert-KeysAscend,
  if◌then◌else◌, arith,
}
use cppagent.Observation.{Observation}
use cppagent.Checkpoint.{Checkpoint, update, add_observation, copy, new_copy}

-- `add_observation` over a list of observations, oldest first.
unfoldable pub replay : List Observation → Checkpoint → Checkpoint
replay [] c = c
replay (o ∷ os) c = replay os (add_observation o c)

-- Only the data item of the event changes, and it changes unless the filter leaves it out.
pub lookup-add_observation :
    (event : Observation) (c : Checkpoint) (j : Text)
    → lookup j (add_observation event c).events ≡ (
        if text_eq event.item.id j && not (c.has_filter && not (member event.item.id c.filter))
        then some (update event (lookup event.item.id c.events))
        else lookup j c.events)
unfolding add_observation
lookup-add_observation event c j =
    ground
      (arith, lookup-insert event.item.id j (update event (lookup event.item.id c.events)) c.events)

pub add_observation-KeysAscend :
    (event : Observation) (c : Checkpoint)
    → KeysAscend c.events
    → KeysAscend (add_observation event c).events
unfolding add_observation
add_observation-KeysAscend event c h = ground (
  arith,
  insert-KeysAscend event.item.id (update event (lookup event.item.id c.events)) c.events h,
)

pub replay-KeysAscend :
    (os : List Observation) (c : Checkpoint) → KeysAscend c.events → KeysAscend (replay os c).events
unfolding replay
replay-KeysAscend [] c h = h
replay-KeysAscend (o ∷ os) c h =
    replay-KeysAscend os (add_observation o c) (add_observation-KeysAscend o c h)

-- A filtered copy of a checkpoint with no filter.
abbrev pub filtered : TextSet → Checkpoint → Checkpoint
filtered f c = record {
  events = keep_keys (λ k. member k f) c.events;
  filter = f;
  has_filter = true;
}

-- The same of `filtered`.
pub filtered-add_observation :
    (f : TextSet) (event : Observation) (c : Checkpoint)
    → c.has_filter ≡ false
    → KeysAscend c.events
    → filtered f (add_observation event c) ≡ add_observation event (filtered f c)
unfolding add_observation
filtered-add_observation f event c h k = ground (
  arith,
  keep_keys-insert (λ j. member j f) event.item.id (update event (lookup event.item.id c.events))
      c.events k,
  lookup-keep_keys (λ j. member j f) event.item.id c.events,
)

-- To make a copy with a filter (the constructor of a checkpoint from another one and a filter) and then add
-- an observation is to add the observation and then make the copy, if the checkpoint has no filter of its
-- own and its keys ascend.
pub new_copy-add_observation :
    (f : TextSet) (event : Observation) (c : Checkpoint)
    → c.has_filter ≡ false
    → KeysAscend c.events
    → new_copy (add_observation event c) (some f) ≡ add_observation event (new_copy c (some f))
unfolding new_copy copy
new_copy-add_observation f event c h k = filtered-add_observation f event c h k
