-- ===== src/Streaming/Inserts.antt =====
-- An insertion in front of a stream (src/agent.cpp, `addToBuffer` and `streamData`).
use cppagent.Base.{
  ℕ, ◌+◌, ◌≤◌, ◌<◌, ◌≡◌, refl, Bool, true, TextSet, Text, member, if◌then◌else◌, Bool-cases, inl,
  inr, arith, ap, sym, ◌∙◌, subst, ltb,
}
use cppagent.Observation.{Observation}
use cppagent.Checkpoint.{empty, add_observation}
use cppagent.SlidingBuffer.{SlidingBuffer}
use cppagent.Sequencer.{Sequencer, store, get_first_sequence}
use cppagent.Sequencer.Tracks.{replay_to}
use cppagent.Sequencer.Tracks.Store.{store-Tracks}
use cppagent.Sequencer.Tracks.Run.{sequence-store}
use cppagent.Fetch.{no_start}
use cppagent.ChangeObserver.{Signals, signal_observers, observers_of, has_observer}
use cppagent.ChangeObserver.Wakes.{sequence_of, heard, sequence-signal_observers, length-signal_all}
use cppagent.Streaming.{Session, Phase}
use cppagent.Streaming.Sent.{Tells, IsAt, IsStreaming}

module _ (lib : SlidingBuffer) (evs : ℕ → Observation) (f : TextSet) where
  -- A new observation and its signal.
  Tells-signal :
      (q e m m' : ℕ) (b : Bool)
      → m' ≡ (if b then heard q m else m)
      → (member (evs q).item.id f ≡ true → b ≡ true)
      → 0 < q
      → e ≤ q
      → Tells lib evs f q e m
      → Tells lib evs f (q + 1) e m'
  Tells-signal q e m m' b new reg positive le (least, known) = (
    λ n lo hi here. elim (Bool-cases (ltb n q)) [
      | inl lt ↦ let old : m ≤ n = least n lo (ground arith) here in ground (arith, new)
      | inr ge ↦
          let same : n ≡ q = ground arith in
          let heard_it : b ≡ true = reg (ap (λ k. member (evs k).item.id f) (sym same) ∙ here) in
          ground (arith, new)
    ],
    ground (arith, new),
  )

  -- An insertion keeps what holds in each phase.
  adds-IsAt :
      (first : ℕ) (w : Session lib.Buffer) (a : Sequencer lib.Buffer) (g : Signals) (b : Bool)
      (p : Phase)
      → a.sequence ≡ w.agent.sequence + 1
      → sequence_of w.client.observer g ≡ (
          if b
          then heard w.agent.sequence (sequence_of w.client.observer w.signals)
          else sequence_of w.client.observer w.signals)
      → (member (evs w.agent.sequence).item.id f ≡ true → b ≡ true)
      → 0 < w.agent.sequence
      → (p ≡ Phase.checked → get_first_sequence a ≤ w.client.start)
      → IsAt lib evs f first w p
      → IsAt lib evs f first (record w { agent = a; signals = g }) p
  adds-IsAt first w a g b Phase.fetching s m reg positive keeps h =
      (h.0, omega (arith, s, h.1), h.2)
  adds-IsAt first w a g b Phase.checked s m reg positive keeps h =
      ((h.0.0, omega (arith, s, h.0.1), h.0.2), keeps refl)
  adds-IsAt first w a g b Phase.waiting s m reg positive keeps h =
      let (lo, hi, sent) = h.0 in
      (
        (lo, omega (arith, s, hi), sent),
        subst (λ q. Tells lib evs f q w.client.last_end (sequence_of w.client.observer g)) (sym s)
            (Tells-signal w.agent.sequence w.client.last_end
              (sequence_of w.client.observer w.signals) (sequence_of w.client.observer g) b m reg
              positive hi h.1),
      )
  adds-IsAt first w a g b Phase.closed s m reg positive keeps h = (h.0, omega (arith, s, h.1), h.2)

  -- The first observation, which the code adds twice to the first checkpoint.
  abbrev pub Restarts : Type 0
  Restarts = add_observation (evs 1) (replay_to empty evs 1) ≡ replay_to empty evs 1

  pub stores-IsStreaming :
      (first : ℕ) (w : Session lib.Buffer) (id : Text)
      → Restarts
      → id ≡ (evs w.agent.sequence).item.id
      → w.agent.sequence + 1 < no_start
      → (w.client.phase ≡ Phase.checked
          → get_first_sequence (store lib w.agent (evs w.agent.sequence)) ≤ w.client.start)
      → IsStreaming lib evs f first w
      → IsStreaming lib evs f first (record w {
        agent = store lib w.agent (evs w.agent.sequence);
        signals = signal_observers id w.agent.sequence w.signals;
      })
  unfolding signal_observers has_observer observers_of
  stores-IsStreaming first w id restart same lt keeps v =
      let next_seq : (store lib w.agent (evs w.agent.sequence)).sequence ≡ w.agent.sequence + 1 =
        sequence-store lib w.agent (evs w.agent.sequence) (omega arith) in
      record {
        tracks =
            store-Tracks lib evs w.agent (evs w.agent.sequence) v.tracks refl (omega arith) restart;
        bounded = omega (arith, next_seq);
        sampling = v.sampling;
        observing = omega (
          arith,
          v.observing,
          length-signal_all w.agent.sequence (observers_of id w.signals) w.signals.observers,
        );
        registered = v.registered;
        at =
            adds-IsAt first w (store lib w.agent (evs w.agent.sequence))
              (signal_observers id w.agent.sequence w.signals)
              (has_observer id w.client.observer w.signals) w.client.phase next_seq
              (sequence-signal_observers id w.agent.sequence w.client.observer w.signals
                v.observing)
              (λ here.
                ap (λ k. has_observer k w.client.observer w.signals) same
                ∙ v.registered (evs w.agent.sequence).item.id here)
              v.tracks.positive keeps v.at;
      }
