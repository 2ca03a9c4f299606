-- ===== src/Fetch.antt =====
-- The reads of the agent's buffers (src/agent.cpp): `fetchCurrentData` and `fetchSampleData`, up to
-- the printing of what they found. `none` is a read through a null pointer.
pub mod Current
pub mod Page
pub mod Report
use cppagent.Base.{
  ℕ, zero, suc, ◌+◌, ◌-◌, ◌*◌, ◌/◌, ◌^◌, Bool, true, false, not, ◌&&◌, ◌||◌, Option, none, some,
  List, [], ◌∷◌, ◌++◌, TextSet, member, get_elem?, length, ltb, leb, ◌==◌, if◌then◌else◌, ℤ, pos,
  negsuc,
}
use cppagent.Observation.{Observation}
use cppagent.Checkpoint.{Checkpoint, add_observation, new_copy, get_observations}
use cppagent.SlidingBuffer.{SlidingBuffer}
use cppagent.Sequencer.{Sequencer, get_first_sequence}

-- `NO_START`, `NO_VALUE64`
abbrev pub no_start : ℕ
no_start = 2 ^ 64 - 1

-- What `printSample` is given: the next sequence number, the first and the last one, and the events.
pub record Sample : Type 0 where
  pub next_seq : ℕ
  pub first_seq : ℕ
  pub last_seq : ℕ
  pub events : List Observation

module _ (lib : SlidingBuffer) where
  open lib use {Buffer, at, element_id}

  -- The loop of `fetchCurrentData`: `count` observations from the position `index` on.
  unfoldable pub roll_forward : Buffer → ℕ → ℕ → Checkpoint → Option Checkpoint
  roll_forward b zero index check = some check
  roll_forward b (suc count) index check = elim (at b index) [
    | none ↦ none
    | some o ↦ roll_forward b count (index + 1) (add_observation o check)
  ]

  -- The part of `fetchCurrentData` for a sequence number `at`, from its position in the buffer and
  -- that of the first sequence number.
  unfoldable pub fetch_from : Sequencer Buffer → TextSet → ℕ → ℕ → Option (List Observation)
  unfolding roll_forward
  fetch_from a filter position first =
      let check_index = position / a.checkpoint_freq in
      let closest = check_index * a.checkpoint_freq in
      if ltb closest first && leb first position
      then (elim (roll_forward a.buffer (position - first) (first + 1)
          (new_copy a.first (some filter))) [
            | none ↦ none
            | some check ↦ some (get_observations check none)
          ])
      else elim (get_elem? a.checkpoints check_index) [
        | none ↦ none
        | some c ↦
            elim (roll_forward a.buffer (position - closest) (closest + 1)
              (new_copy c (some filter))) [
                | none ↦ none
                | some check ↦ some (get_observations check none)
              ]
      ]

  unfoldable pub fetch_at : Sequencer Buffer → TextSet → ℕ → Option (List Observation)
  fetch_at a filter at_seq =
      fetch_from a filter (element_id at_seq) (element_id (get_first_sequence a))

  -- `fetchCurrentData`
  unfoldable pub fetch_current_data : Sequencer Buffer → TextSet → ℕ → Option Sample
  unfolding fetch_at
  fetch_current_data a filter at_seq =
      let found : Option (List Observation) =
        if at_seq == no_start
        then some (get_observations a.latest (some filter))
        else fetch_at a filter at_seq in
      elim found [
        | none ↦ none
        | some events ↦ some (record {
          next_seq = a.sequence;
          first_seq = get_first_sequence a;
          last_seq = a.sequence - 1;
          events = events;
        })
      ]

  -- The loop of `fetchSampleData` for a count that is not negative: `rounds` bounds the positions
  -- left, `limit` the results left. It returns the results and the position where it stopped.
  unfoldable pub scan_up : Sequencer Buffer → TextSet → ℕ → ℕ → ℕ → Option (List Observation × ℕ)
  scan_up a filter zero limit i = some ([], i)
  scan_up a filter (suc rounds) limit i =
      let skip = scan_up a filter rounds limit (i + 1) in
      let take = scan_up a filter rounds (limit - 1) (i + 1) in
      if limit == 0 || (leb a.sequence i || ltb i (get_first_sequence a))
      then some ([], i)
      else elim (at a.buffer i) [
        | none ↦ none
        | some o ↦
            if member o.item.id filter
            then (elim take [ none ↦ none | some (os, j) ↦ some (o ∷ os, j) ])
            else skip
      ]

  -- The loop for a negative count, which goes down.
  unfoldable pub scan_down : Sequencer Buffer → TextSet → ℕ → ℕ → ℕ → Option (List Observation × ℕ)
  scan_down a filter zero limit i = some ([], i)
  scan_down a filter (suc rounds) limit i =
      let skip = scan_down a filter rounds limit (i - 1) in
      let take = scan_down a filter rounds (limit - 1) (i - 1) in
      if limit == 0 || (leb a.sequence i || ltb i (get_first_sequence a))
      then some ([], i)
      else elim (at a.buffer i) [
        | none ↦ none
        | some o ↦
            if member o.item.id filter
            then (elim take [ none ↦ none | some (os, j) ↦ some (o ∷ os, j) ])
            else skip
      ]

  -- `fetchSampleData`, with `end` and `endOfBuffer`. The loop makes no more rounds than there are
  -- sequence numbers.
  unfoldable pub fetch_sample_data : Sequencer Buffer → TextSet → ℕ → ℤ → Option (Sample × ℕ × Bool)
  unfolding scan_up scan_down
  fetch_sample_data a filter start (pos count) =
      let first = get_first_sequence a in
      let begin = if start == no_start || leb start first then first else start in
      elim (scan_up a filter a.sequence count begin) [
        | none ↦ none
        | some (os, i) ↦ some (
          record { next_seq = i; first_seq = first; last_seq = a.sequence - 1; events = os },
          i,
          leb a.sequence i,
        )
      ]
  fetch_sample_data a filter start (negsuc n) =
      let first = get_first_sequence a in
      let begin = if start == no_start || leb a.sequence start then a.sequence - 1 else start in
      elim (scan_down a filter a.sequence (n + 1) begin) [
        | none ↦ none
        | some (os, i) ↦ some (
          record { next_seq = i; first_seq = first; last_seq = a.sequence - 1; events = os },
          i,
          leb i first,
        )
      ]
