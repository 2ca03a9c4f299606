-- ===== src/Streaming/Delivers.antt =====
-- The steps of a stream, however they interleave, keep its invariant (src/agent.cpp, `streamData`).
use cppagent.Base.{ℕ, ◌≤◌, ◌≡◌, TextSet, ap, sym, ◌∙◌, subst}
use cppagent.Observation.{Observation}
use cppagent.Checkpoint.{empty, add_observation}
use cppagent.SlidingBuffer.{SlidingBuffer}
use cppagent.Sequencer.{store, get_first_sequence}
use cppagent.Sequencer.Tracks.{replay_to}
use cppagent.ChangeObserver.{signal_observers}
use cppagent.Streaming.{Session}
use cppagent.Streaming.Steps.{
  Step, Reach, here, next, drops, adds, checks, fetches, wakes, add_to_buffer-kept, kept-item,
}
use cppagent.Streaming.Sent.{IsAt, IsStreaming}
use cppagent.Streaming.Inserts.{Restarts, stores-IsStreaming}
use cppagent.Streaming.Fetches.{GoesOn, check_start-IsStreaming, fetch_page-GoesOn}
use cppagent.Streaming.Waits.{wakes-IsStreaming}

module _ (lib : SlidingBuffer) (evs : ℕ → Observation) (f : TextSet) where
  -- Every step keeps the invariant.
  Step-IsStreaming :
      (first count : ℕ) {w w' : Session lib.Buffer}
      → Restarts lib evs f
      → IsStreaming lib evs f first w
      → Step lib evs f count w w'
      → IsStreaming lib evs f first w'
  Step-IsStreaming first count {w} restart v (drops event k) = v
  Step-IsStreaming first count {w} restart v (adds event k lt w' e keeps) =
      let stored : w' ≡ record w {
        agent = store lib w.agent (evs w.agent.sequence);
        signals = signal_observers event.item.id w.agent.sequence w.signals;
      } =
        e
        ∙ ap (λ r. record w { agent = r.1; signals = r.2 })
            (add_to_buffer-kept lib event (evs w.agent.sequence) w.agent w.signals k) in
      subst (IsStreaming lib evs f first) (sym stored) (
        stores-IsStreaming lib evs f first w event.item.id restart
          (sym (kept-item lib event (evs w.agent.sequence) w.agent k)) lt
          (λ p. subst (λ x. get_first_sequence x.agent ≤ w.client.start) stored (keeps p)) v)
  Step-IsStreaming first count {w} restart v (checks p w' e) =
      subst (IsStreaming lib evs f first) (sym e)
        (check_start-IsStreaming lib evs f first w v (subst (IsAt lib evs f first w) p v.at))
  Step-IsStreaming first count {w} restart v (fetches p w' e) =
      subst (GoesOn lib evs f first) e
        (fetch_page-GoesOn lib evs f first count w v (subst (IsAt lib evs f first w) p v.at))
  Step-IsStreaming first count {w} restart v (wakes p w' e) =
      subst (IsStreaming lib evs f first) (sym e) (wakes-IsStreaming lib evs f first w v p)

-- Whatever steps follow, in any order, a session of a stream of samples stays one.
pub Reach-IsStreaming :
    (lib : SlidingBuffer) (evs : ℕ → Observation) (f : TextSet) (first count : ℕ)
    (w w' : Session lib.Buffer)
    → add_observation (evs 1) (replay_to empty evs 1) ≡ replay_to empty evs 1
    → IsStreaming lib evs f first w
    → Reach lib evs f count w w'
    → IsStreaming lib evs f first w'
Reach-IsStreaming lib evs f first count w w' restart v here = v
Reach-IsStreaming lib evs f first count w w' restart v (next {v = u} r st) =
    Step-IsStreaming lib evs f first count restart
      (Reach-IsStreaming lib evs f first count w u restart v r) st
