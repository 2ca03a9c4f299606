-- ===== src/Streaming/Waits.antt =====
-- The end of the wait of a stream (src/agent.cpp, `streamData`).
use cppagent.Base.{
  ℕ, ◌≤◌, ◌<◌, ◌≡◌, refl, false, Option, none, some, TextSet, member, if◌then◌else◌, Bool-cases,
  inl, inr, arith, ap, sym, subst, length, ◌==◌,
}
use cppagent.Observation.{Observation}
use cppagent.SlidingBuffer.{SlidingBuffer}
use cppagent.Sequencer.Tracks.Copies.{get_elem?-below}
use cppagent.Fetch.{no_start}
use cppagent.ChangeObserver.{Observer, was_signaled, not_signaled}
use cppagent.ChangeObserver.Wakes.{sequence_of}
use cppagent.Streaming.{Session, Phase, wake_up, next_start, observed}
use cppagent.Streaming.Sent.{Tells, HasSent, IsAt, IsStreaming, HasSent-later}

module _ (lib : SlidingBuffer) (evs : ℕ → Observation) (f : TextSet) where
  -- A position that nothing in the filter stands in front of.
  Tells-none :
      (q e m k : ℕ)
      → Tells lib evs f q e m
      → k ≤ m
      → k ≤ q
      → (n : ℕ) → e ≤ n
      → n < k
      → member (evs n).item.id f ≡ false
  Tells-none q e m k t le lq n lo hi = elim (Bool-cases (member (evs n).item.id f)) [
    | inr away ↦ away
    | inl listed ↦ absurd (omega (arith, t.0 n lo (omega arith) listed))
  ]

  -- The end of a wait.
  wakes-HasSent :
      (first : ℕ) (w : Session lib.Buffer) (o : Option Observer)
      → observed w.client.observer w.signals ≡ o
      → HasSent lib evs f first w.client.last_end w
      → Tells lib evs f w.agent.sequence w.client.last_end (sequence_of w.client.observer w.signals)
      → w.client.observer < length w.signals.observers
      → w.agent.sequence < no_start
      → HasSent lib evs f first (next_start lib w.agent o w.client.start) w
  unfolding next_start was_signaled
  wakes-HasSent first w none e h t obs lt =
      let (o, d) = get_elem?-below w.signals.observers w.client.observer obs in
      absurd (ground arith)
  wakes-HasSent first w (some o) e h t obs lt =
      let same : sequence_of w.client.observer w.signals ≡ o.sequence = ground arith in
      let t' : Tells lib evs f w.agent.sequence w.client.last_end o.sequence = rw same at t in
      elim (Bool-cases (o.sequence == not_signaled)) [
        | inl quiet ↦ simp quiet (
            HasSent-later lib evs f first w.client.last_end w.agent.sequence w h h.1 (omega arith) (
              Tells-none w.agent.sequence w.client.last_end o.sequence w.agent.sequence t'
                (ground arith) (omega arith)))
        | inr told ↦
            let there : (w.client.last_end ≤ o.sequence) × (o.sequence < w.agent.sequence) =
              elim (t'.1) [ inl m ↦ absurd (ground arith) | inr p ↦ p ] in
            simp told (
              HasSent-later lib evs f first w.client.last_end o.sequence w h there.0 (omega arith) (
                Tells-none w.agent.sequence w.client.last_end o.sequence o.sequence t' (omega arith)
                  (omega arith)))
      ]

  pub wakes-IsStreaming :
      (first : ℕ) (w : Session lib.Buffer)
      → IsStreaming lib evs f first w
      → w.client.phase ≡ Phase.waiting
      → IsStreaming lib evs f first (wake_up lib w)
  unfolding wake_up
  wakes-IsStreaming first w v e =
      let h : IsAt lib evs f first w Phase.waiting = subst (IsAt lib evs f first w) e v.at in
      let o = observed w.client.observer w.signals in
      let choice : (if w.client.current
            then w.client.start
            else next_start lib w.agent o w.client.start)
          ≡ next_start lib w.agent o w.client.start =
        ap (λ b. if b then w.client.start else next_start lib w.agent o w.client.start)
          v.sampling in
      record {
        tracks = v.tracks;
        bounded = v.bounded;
        sampling = v.sampling;
        observing = v.observing;
        registered = v.registered;
        at =
            subst (λ k. HasSent lib evs f first k w) (sym choice)
              (wakes-HasSent first w o refl h.0 h.1 v.observing v.bounded);
      }
