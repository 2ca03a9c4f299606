-- ===== src/Sequencer.antt =====
-- The sequence numbers and the buffers of the agent (src/agent.hpp, src/agent.cpp): the members that
-- `m_sequenceLock` guards, and the insertion of an observation into them.
pub mod Window
pub mod Tracks
use cppagent.Base.{
  ℕ, ◌+◌, ◌-◌, ◌/◌, ◌%◌, ◌^◌, Bool, true, false, not, ◌&&◌, Option, none, some, List, [], ◌∷◌,
  replicate, get_elem?, set, ltb, ◌==◌, if◌then◌else◌,
}
use cppagent.Observation.{Observation}
use cppagent.DataItem.{allow_dups, is_data_set}
use cppagent.Checkpoint.{Checkpoint, empty, add_observation, copy, data_set_difference}
use cppagent.SlidingBuffer.{SlidingBuffer}

-- The sequence number, the sliding buffer and the checkpoints of `Agent`.
pub record Sequencer (Buffer : Type 0) : Type 0 where
  pub sequence : ℕ
  pub buffer : Buffer
  pub buffer_size : ℕ
  pub latest : Checkpoint
  pub first : Checkpoint
  pub checkpoints : List Checkpoint
  pub checkpoint_freq : ℕ
  pub checkpoint_count : ℕ

-- `getFirstSequence`
abbrev pub get_first_sequence : {Buffer : Type 0} → Sequencer Buffer → ℕ
get_first_sequence a = if ltb a.buffer_size a.sequence then a.sequence - a.buffer_size else 1

-- `m_checkpoints[i].copy(m_latest)`
unfoldable pub copy_into : ℕ → Checkpoint → List Checkpoint → List Checkpoint
copy_into i latest cs = elim (get_elem? cs i) [ none ↦ cs | some c ↦ set cs i (copy c latest none) ]

module _ (lib : SlidingBuffer) where
  open lib use {Buffer, fresh, at, write, element_id}

  -- What the constructor of `Agent` sets up, for `bufferSize` and `checkpointFreq`.
  unfoldable pub start : ℕ → ℕ → Sequencer Buffer
  start exponent freq = record {
    sequence = 1;
    buffer = fresh;
    buffer_size = 2 ^ exponent;
    latest = empty;
    first = empty;
    checkpoints = replicate (2 ^ exponent / freq + 1) empty;
    checkpoint_freq = freq;
    checkpoint_count = 2 ^ exponent / freq + 1;
  }

  -- Adding what a read of the buffer finds, if it finds anything.
  add_found : Option Observation → Checkpoint → Checkpoint
  add_found none c = c
  add_found (some o) c = add_observation o c

  -- `addToBuffer` from the increment of the sequence number on, before the observers are signaled.
  unfoldable pub store : Sequencer Buffer → Observation → Sequencer Buffer
  unfolding copy_into add_found
  store a event =
      let seq = a.sequence in
      let next = (seq + 1) % 2 ^ 64 in
      let buffer' = write a.buffer seq event in
      let latest' = add_observation event a.latest in
      let primed = if seq == 1 then add_observation event a.first else a.first in
      let index = element_id seq in
      record a {
        sequence = next;
        buffer = buffer';
        latest = latest';
        first = add_found (at buffer' next) primed;
        checkpoints =
            if ltb 0 a.checkpoint_count && index % a.checkpoint_freq == 0
            then copy_into (index / a.checkpoint_freq) latest' a.checkpoints
            else a.checkpoints;
      }

  -- The part of `addToBuffer` under the lock, for the observation that the constructor made with the
  -- next sequence number: `none` if it is a data set that reports nothing new, and the sequence
  -- number otherwise, with the event as it is stored.
  unfoldable pub add_event : Sequencer Buffer → Observation → Option (ℕ × Sequencer Buffer)
  unfolding store
  add_event a event =
      if not (allow_dups event.item) && is_data_set event.item
      then (let (changed, event') = data_set_difference event a.latest in
          if changed then some (a.sequence, store a event') else none)
      else some (a.sequence, store a event)
