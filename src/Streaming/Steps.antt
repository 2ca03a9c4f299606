-- ===== src/Streaming/Steps.antt =====
-- The steps of a stream and the agent (src/agent.cpp), in any order that the lock allows.
use cppagent.Base.{
  ℕ, ◌+◌, ◌<◌, ◌≤◌, ◌≡◌, not, ◌&&◌, Option, none, some, TextSet, if◌then◌else◌, arith,
}
use cppagent.Observation.{Observation}
use cppagent.DataItem.{allow_dups, is_data_set}
use cppagent.Checkpoint.{data_set_difference}
use cppagent.SlidingBuffer.{SlidingBuffer}
use cppagent.Sequencer.{Sequencer, store, add_event, get_first_sequence}
use cppagent.Fetch.{no_start}
use cppagent.ChangeObserver.{Signals, signal_observers}
use cppagent.Streaming.{Session, Phase, add_to_buffer, check_start, fetch_page, wake_up}

-- What of an observation is stored: a data set without what it repeats, or nothing.
unfoldable pub kept : {Buffer : Type 0} → Sequencer Buffer → Observation → Option Observation
kept a event =
    if not (allow_dups event.item) && is_data_set event.item
    then (let (changed, event') = data_set_difference event a.latest in
        if changed then some event' else none)
    else some event

module _ (lib : SlidingBuffer) (evs : ℕ → Observation) (f : TextSet) (count : ℕ) where
  open lib use {Buffer}

  -- An insertion, while the sequence numbers last; `evs` lists what is stored. The test, the fetch and
  -- the end of a wait, where the loop is. The test does not hold the lock, so an insertion may come
  -- between it and the fetch: here none there removes the start from the buffer.
  pub data Step (w : Session Buffer) : Session Buffer → Type 0 where
    drops : (event : Observation) → kept w.agent event ≡ none → Step w w
    adds :
        (event : Observation)
        → kept w.agent event ≡ some (evs w.agent.sequence)
        → w.agent.sequence + 1 < no_start
        → (w' : Session Buffer)
        → w' ≡ (
            let (n, a, s) = add_to_buffer lib event w.agent w.signals in
            record w { agent = a; signals = s })
        → (w.client.phase ≡ Phase.checked → get_first_sequence w'.agent ≤ w.client.start)
        → Step w w'
    checks :
        w.client.phase ≡ Phase.fetching → (w' : Session Buffer) → w' ≡ check_start lib w → Step w w'
    fetches :
        w.client.phase ≡ Phase.checked
        → (w' : Session Buffer) → fetch_page lib f count w ≡ some w'
        → Step w w'
    wakes : w.client.phase ≡ Phase.waiting → (w' : Session Buffer) → w' ≡ wake_up lib w → Step w w'

  -- The sessions that a session leads to.
  pub data Reach (w : Session Buffer) : Session Buffer → Type 0 where
    here : Reach w w
    next : {v u : Session Buffer} → Reach w v → Step v u → Reach w u

-- `addToBuffer` stores what is kept, and signals the observers of its data item.
pub add_to_buffer-kept :
    (lib : SlidingBuffer) (event e : Observation) (a : Sequencer lib.Buffer) (s : Signals)
    → kept a event ≡ some e
    → add_to_buffer lib event a s
      ≡ (a.sequence, store lib a e, signal_observers event.item.id a.sequence s)
unfolding add_to_buffer kept add_event
add_to_buffer-kept lib event e a s h = ground arith

-- What is kept is of the same data item.
pub kept-item :
    (lib : SlidingBuffer) (event e : Observation) (a : Sequencer lib.Buffer)
    → kept a event ≡ some e
    → e.item.id ≡ event.item.id
unfolding kept data_set_difference
kept-item lib event e a h = ground arith
