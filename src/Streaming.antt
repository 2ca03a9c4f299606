-- ===== src/Streaming.antt =====
-- The streams at an interval (src/agent.cpp): `addToBuffer` with its signals, and the loop of
-- `streamData`. The parts under `m_sequenceLock` are one step each: an insertion with its signals, a
-- fetch with the reset of the observer, and the choice of the next start when the wait is over. The
-- test in front of a fetch, which does not hold the lock, is a step of its own.
pub mod Steps
pub mod Sent
pub mod Inserts
pub mod Fetches
pub mod Waits
pub mod Delivers
pub mod Opens
pub mod CatchesUp
use cppagent.Base.{
  ℕ, zero, suc, Bool, true, false, not, ◌&&◌, ◌||◌, Option, none, some, List, [], ◌∷◌, ◌++◌, Text,
  TextSet, codes, get_elem?, length, ltb, ◌==◌, if◌then◌else◌, ℤ, pos,
}
use cppagent.Observation.{Observation}
use cppagent.DataItem.{DataItem}
use cppagent.SlidingBuffer.{SlidingBuffer}
use cppagent.Sequencer.{Sequencer, get_first_sequence, add_event}
use cppagent.Fetch.{Sample, no_start, fetch_current_data, fetch_sample_data}
use cppagent.ChangeObserver.{
  Observer, Signals, signal_observers, add_observer, destroy_observer, was_signaled, reset, modify,
  not_signaled,
}
use cppagent.Calls.{Response, streams, error}

-- Where the loop of `streamData` is: before the test, between the test and the fetch, in the wait, or
-- over.
pub data Phase : Type 0 where
  fetching checked waiting closed : Phase

-- The variables of `streamData`, and the documents that were sent. `observer` is its index.
pub record Client : Type 0 where
  pub current : Bool
  pub observer : ℕ
  pub start : ℕ
  pub last_end : ℕ
  pub phase : Phase
  pub sent : List Response

-- The agent with one stream.
pub record Session (Buffer : Type 0) : Type 0 where
  pub agent : Sequencer Buffer
  pub signals : Signals
  pub client : Client

-- `addObserver` for each data item of the filter.
unfoldable pub add_observers : TextSet → ℕ → Signals → Signals
unfolding add_observer
add_observers [] i s = s
add_observers (item ∷ items) i s = add_observers items i (add_observer item i s)

-- The number of the observer with an index.
abbrev pub observed : ℕ → Signals → Option Observer
observed i s = get_elem? s.observers i

module _ (lib : SlidingBuffer) where
  open lib use {Buffer}

  -- `addToBuffer`: the sequence number or 0, and the agent with its signals.
  unfoldable pub add_to_buffer :
      Observation → Sequencer Buffer → Signals → ℕ × Sequencer Buffer × Signals
  unfolding add_event signal_observers
  add_to_buffer event a s = elim (add_event lib a event) [
    | none ↦ (0, a, s)
    | some (seq, a') ↦ (seq, a', signal_observers event.item.id seq s)
  ]

  -- The start of `streamData`, for the next observer.
  unfoldable pub open_stream : TextSet → Bool → ℕ → Sequencer Buffer → Signals → Session Buffer
  unfolding add_observers
  open_stream filter current start a s =
      let first = get_first_sequence a in
      let i = length s.observers in
      record {
        agent = a;
        signals = add_observers filter i (record s {
          observers = s.observers ++ (record { signalers = []; sequence = not_signaled } ∷ []);
        });
        client = record {
          current = current;
          observer = i;
          start = if start == no_start || ltb start first then first else start;
          last_end = 0;
          phase = fetching;
          sent = [];
        };
      }

  -- What a client that has fallen behind gets.
  abbrev too_slow : Response
  too_slow =
      error (codes "OUT_OF_RANGE") (codes "Client can't keep up with event stream, disconnecting")

  -- A page of a sample: the observer is reset, and the next start is the end of the page unless that
  -- is the end of the buffer.
  pub sent_page : Session Buffer → Sample → ℕ → Bool → Session Buffer
  sent_page w s end at_end = record w {
    signals = record w.signals { observers = modify w.client.observer reset w.signals.observers };
    client = record w.client {
      sent = w.client.sent ++ (streams s ∷ []);
      last_end = end;
      start = if at_end then w.client.start else end;
      phase = if at_end then waiting else fetching;
    };
  }

  -- The documents of a client of the current state.
  send_current : Session Buffer → Option Sample → Option (Session Buffer)
  send_current w none = none
  send_current w (some s) = some (record w {
    client = record w.client { sent = w.client.sent ++ (streams s ∷ []); phase = waiting };
  })

  pub send_page : Session Buffer → Option (Sample × ℕ × Bool) → Option (Session Buffer)
  unfolding sent_page
  send_page w none = none
  send_page w (some (s, end, at_end)) = some (sent_page w s end at_end)

  -- The error that ends the stream.
  pub dropped : Session Buffer → Session Buffer
  dropped w = record w {
    client = record w.client { sent = w.client.sent ++ (too_slow ∷ []); phase = closed };
  }

  -- The test in front of a fetch of samples, which reads the sequence number without the lock.
  unfoldable pub check_start : Session Buffer → Session Buffer
  unfolding dropped
  check_start w =
      let ready = record w { client = record w.client { phase = checked } } in
      if w.client.current
      then ready
      else if ltb w.client.start (get_first_sequence w.agent)
      then dropped w
      else ready

  -- The fetch, which holds the lock, and its document. `none` is a read through a null pointer.
  unfoldable pub fetch_page : TextSet → ℕ → Session Buffer → Option (Session Buffer)
  unfolding send_current send_page
  fetch_page filter count w =
      if w.client.current
      then send_current w (fetch_current_data lib w.agent filter no_start)
      else send_page w (fetch_sample_data lib w.agent filter w.client.start (pos count))

  -- The next start behind the wait.
  next_start : Sequencer Buffer → Option Observer → ℕ → ℕ
  unfolding was_signaled
  next_start a none start = start
  next_start a (some o) start = if was_signaled o then o.sequence else a.sequence

  -- The end of the wait, by a signal or by the heartbeat.
  unfoldable pub wake_up : Session Buffer → Session Buffer
  unfolding next_start
  wake_up w = record w {
    client = record w.client {
      start =
          if w.client.current
          then w.client.start
          else next_start w.agent (observed w.client.observer w.signals) w.client.start;
      phase = fetching;
    };
  }

  -- The client goes away: the stream is closed and the observer is destroyed.
  unfoldable pub close_stream : Session Buffer → Session Buffer
  unfolding destroy_observer
  close_stream w = record w {
    signals = destroy_observer w.client.observer w.signals;
    client = record w.client { phase = closed };
  }
