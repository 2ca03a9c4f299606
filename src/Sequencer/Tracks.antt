-- ===== src/Sequencer/Tracks.antt =====
-- The invariant of the sliding buffer and the checkpoints (src/agent.cpp): what they hold is told by
-- the list of all observations that were stored, of which the buffer keeps the last lap.
pub mod Copies
pub mod Store
pub mod Run
use cppagent.Base.{
  ℕ, zero, suc, ◌+◌, ◌-◌, ◌/◌, ◌%◌, ◌^◌, ◌≤◌, ◌<◌, ◌≡◌, refl, Bool, true, false, Option, none, some,
  List, [], ◌∷◌, length, get_elem?, set, ltb, ◌==◌, if◌then◌else◌, arith, ap, sym, ◌∙◌, subst,
}
use cppagent.Observation.{Observation}
use cppagent.Checkpoint.{Checkpoint, empty, add_observation}
use cppagent.SlidingBuffer.{SlidingBuffer, SlidingBufferLaws}
use cppagent.Sequencer.{Sequencer, get_first_sequence, store}

-- The checkpoint that the observations 1 to `s` make of `c`; `evs s` has the sequence number `s`.
unfoldable pub replay_to : Checkpoint → (ℕ → Observation) → ℕ → Checkpoint
replay_to c evs zero = c
replay_to c evs (suc s) = add_observation (evs (suc s)) (replay_to c evs s)

-- The state of the agent's buffers after the observations `evs 1`, …, `evs (sequence - 1)`.
pub record Tracks (lib : SlidingBuffer) (evs : ℕ → Observation) (a : Sequencer lib.Buffer)
    : Type 0 where
  pub laws : SlidingBufferLaws lib a.buffer_size
  pub room : 1 < a.buffer_size
  pub freq : 0 < a.checkpoint_freq
  pub count : a.checkpoint_count ≡ length a.checkpoints
  pub spans : a.buffer_size / a.checkpoint_freq < length a.checkpoints
  pub positive : 0 < a.sequence
  -- The lap that ends at the last sequence number is in the buffer.
  pub buffered :
      (s : ℕ) → get_first_sequence a ≤ s → s < a.sequence → lib.at a.buffer s ≡ some (evs s)
  -- In the first lap the positions ahead are null.
  pub unwritten : (s : ℕ) → a.sequence ≤ s → s ≤ a.buffer_size → lib.at a.buffer s ≡ none
  -- The latest checkpoint has all observations.
  pub at_latest : a.latest ≡ replay_to empty evs (a.sequence - 1)
  -- The first checkpoint has those up to the oldest one in the buffer.
  pub at_first :
      a.first ≡ (if ltb 1 a.sequence then replay_to empty evs (get_first_sequence a) else empty)
  -- A regular checkpoint has no filter.
  pub unfiltered :
      (i : ℕ) (c : Checkpoint)
      → get_elem? a.checkpoints i ≡ some c
      → (c.has_filter ≡ false) × (c.filter ≡ [])
  -- A regular checkpoint has the observations up to the one at its position.
  pub regular :
      (s : ℕ)
      → get_first_sequence a ≤ s
      → s < a.sequence
      → (s % a.buffer_size) % a.checkpoint_freq ≡ 0
      → get_elem? a.checkpoints ((s % a.buffer_size) / a.checkpoint_freq)
        ≡ some (replay_to empty evs s)

pub replay_to_pos :
    (c : Checkpoint) (evs : ℕ → Observation) (s : ℕ)
    → 0 < s
    → replay_to c evs s ≡ add_observation (evs s) (replay_to c evs (s - 1))
unfolding replay_to
replay_to_pos c evs zero h = absurd (omega arith)
replay_to_pos c evs (suc s) h =
    ap (λ k. add_observation (evs (suc s)) (replay_to c evs k)) (omega arith)

add_observation-unfiltered :
    (o : Observation) (c : Checkpoint)
    → ((add_observation o c).has_filter ≡ c.has_filter) × ((add_observation o c).filter ≡ c.filter)
unfolding add_observation
add_observation-unfiltered o c = ground arith

pub replay_to-unfiltered :
    (c : Checkpoint) (evs : ℕ → Observation) (s : ℕ)
    → ((replay_to c evs s).has_filter ≡ c.has_filter) × ((replay_to c evs s).filter ≡ c.filter)
unfolding replay_to
replay_to-unfiltered c evs zero = (refl, refl)
replay_to-unfiltered c evs (suc s) = ground (
  arith,
  add_observation-unfiltered (evs (suc s)) (replay_to c evs s),
  replay_to-unfiltered c evs s,
)
