-- ===== src/Streaming/Fetches.antt =====
-- A fetch of a stream (src/agent.cpp, `streamData`).
use cppagent.Base.{
  pos, ℕ, zero, suc, ◌-◌, ◌≤◌, ◌<◌, ◌≡◌, refl, Bool, true, false, Option, none, some, List, [], ◌∷◌,
  ◌++◌, TextSet, if◌then◌else◌, Bool-cases, inl, inr, arith, append-nil, ap, sym, ◌∙◌, subst, ltb,
  leb,
}
use cppagent.Observation.{Observation}
use cppagent.SlidingBuffer.{SlidingBuffer}
use cppagent.Sequencer.{Sequencer, get_first_sequence}
use cppagent.Sequencer.Tracks.{Tracks}
use cppagent.Fetch.{Sample, no_start, fetch_current_data, fetch_sample_data}
use cppagent.Fetch.Page.{between, IsSampleUp, begin_up}
use cppagent.Fetch.Report.{fetch_sample_data-up}
use cppagent.ChangeObserver.{
  Observer, Signals, observers_of, has_observer, reset, modify, not_signaled,
}
use cppagent.ChangeObserver.Wakes.{sequence_of, length-modify}
use cppagent.Calls.{streams}
use cppagent.Streaming.{
  Session, Phase, check_start, fetch_page, sent_page, send_page, send_current, dropped, too_slow,
}
use cppagent.Streaming.Sent.{events_of, events_of-append, HasSent, IsAt, IsStreaming, HasSent-page}

module _ (lib : SlidingBuffer) (evs : ℕ → Observation) (f : TextSet) where
  -- The observer that is reset.
  sequence-reset :
      (i : ℕ) (os : List Observer) (g : Signals)
      → sequence_of i (record g { observers = modify i reset os }) ≡ not_signaled
  unfolding modify reset
  sequence-reset i [] g = refl
  sequence-reset zero (o ∷ os) g = refl
  sequence-reset (suc i) (o ∷ os) g = sequence-reset i os g

  -- A page is sent.
  pub page-IsStreaming :
      (first count : ℕ) (w : Session lib.Buffer) (s : Sample) (end : ℕ) (at_end : Bool)
      → IsStreaming lib evs f first w
      → HasSent lib evs f first w.client.start w
      → IsSampleUp lib evs w.agent f count w.client.start (some (s, end, at_end))
      → IsStreaming lib evs f first (sent_page lib w s end at_end)
  unfolding sent_page has_observer observers_of
  page-IsStreaming first count w s end at_end v h page =
      let sent : events_of (w.client.sent ++ (streams s ∷ [])) ≡ between evs f first (end - first) =
        events_of-append w.client.sent (streams s)
        ∙ ap (λ x. events_of w.client.sent ++ x) (append-nil s.events)
        ∙ HasSent-page lib evs f first w.client.start end s.events w h page.0.0 page.0.2 in
      record {
        tracks = v.tracks;
        bounded = v.bounded;
        sampling = v.sampling;
        observing =
            omega (arith, v.observing, length-modify reset w.client.observer w.signals.observers);
        registered = v.registered;
        at = go at_end page.4 sent;
      }
    where
      go :
          (b : Bool)
          → b ≡ leb w.agent.sequence end
          → events_of (w.client.sent ++ (streams s ∷ [])) ≡ between evs f first (end - first)
          → IsAt lib evs f first
              (sent_page lib w s end b)
              (if b then Phase.waiting else Phase.fetching)
      go false e sent = (omega (arith, h.0, page.0.0), page.0.1, sent)
      go true e sent = (
        (omega (arith, h.0, page.0.0), page.0.1, sent),
        (
          λ n lo hi here. absurd (ground (arith, e)),
          inl (sequence-reset w.client.observer w.signals.observers w.signals),
        ),
      )

  begin_up-start :
      (a : Sequencer lib.Buffer) (start : ℕ)
      → start < no_start
      → ltb start (get_first_sequence a) ≡ false
      → begin_up lib evs a f start ≡ start
  begin_up-start a start lt h = ground (arith, lt, h)

  -- There is a next session, and it is a stream as well.
  abbrev pub GoesOn : ℕ → Option (Session lib.Buffer) → Type 0
  GoesOn first none = ⊥
  GoesOn first (some w) = IsStreaming lib evs f first w

  dropped-IsStreaming :
      (first : ℕ) (w : Session lib.Buffer)
      → IsStreaming lib evs f first w
      → HasSent lib evs f first w.client.start w
      → IsStreaming lib evs f first (dropped lib w)
  unfolding dropped
  dropped-IsStreaming first w v h = record {
    tracks = v.tracks;
    bounded = v.bounded;
    sampling = v.sampling;
    observing = v.observing;
    registered = v.registered;
    at = (
      h.0,
      h.1,
      events_of-append w.client.sent (too_slow lib) ∙ append-nil (events_of w.client.sent) ∙ h.2,
    );
  }

  send_page-GoesOn :
      (first count : ℕ) (w : Session lib.Buffer) (r : Option (Sample × ℕ × Bool))
      → IsStreaming lib evs f first w
      → HasSent lib evs f first w.client.start w
      → IsSampleUp lib evs w.agent f count w.client.start r
      → GoesOn first (send_page lib w r)
  unfolding send_page
  send_page-GoesOn first count w none v h page = page
  send_page-GoesOn first count w (some (s, end, at_end)) v h page =
      page-IsStreaming first count w s end at_end v h page

  pub fetch_sample_data-start :
      (count : ℕ) (w : Session lib.Buffer)
      → Tracks lib evs w.agent
      → w.agent.sequence < no_start
      → w.client.start ≤ w.agent.sequence
      → ltb w.client.start (get_first_sequence w.agent) ≡ false
      → IsSampleUp lib evs w.agent f count w.client.start
          (fetch_sample_data lib w.agent f w.client.start (pos count))
  fetch_sample_data-start count w v lt le fast =
      subst
        (λ i.
          IsSampleUp lib evs w.agent f count i
            (fetch_sample_data lib w.agent f w.client.start (pos count)))
        (begin_up-start w.agent w.client.start (omega arith) fast)
        (fetch_sample_data-up lib evs w.agent f w.client.start count v (inl le))

  -- The test keeps what holds.
  pub check_start-IsStreaming :
      (first : ℕ) (w : Session lib.Buffer)
      → IsStreaming lib evs f first w
      → HasSent lib evs f first w.client.start w
      → IsStreaming lib evs f first (check_start lib w)
  unfolding check_start
  check_start-IsStreaming first w v h =
      subst (IsStreaming lib evs f first)
        (sym (
          ap
            (λ b.
              if b
              then ready w
              else if ltb w.client.start (get_first_sequence w.agent)
              then dropped lib w
              else ready w)
            v.sampling))
        (elim (Bool-cases (ltb w.client.start (get_first_sequence w.agent))) [
          | inl slow ↦ rw slow (dropped-IsStreaming first w v h)
          | inr fast ↦ rw fast (record {
            tracks = v.tracks;
            bounded = v.bounded;
            sampling = v.sampling;
            observing = v.observing;
            registered = v.registered;
            at = (h, ground (arith, fast));
          })
        ])
    where
      ready : Session lib.Buffer → Session lib.Buffer
      ready u = record u { client = record u.client { phase = Phase.checked } }

  pub fetch_page-sample :
      (count : ℕ) (w : Session lib.Buffer)
      → w.client.current ≡ false
      → fetch_page lib f count w
        ≡ send_page lib w (fetch_sample_data lib w.agent f w.client.start (pos count))
  unfolding fetch_page
  fetch_page-sample count w c =
      ap
        (λ b.
          if b
          then send_current lib w (fetch_current_data lib w.agent f no_start)
          else send_page lib w (fetch_sample_data lib w.agent f w.client.start (pos count)))
        c

  pub fetch_page-GoesOn :
      (first count : ℕ) (w : Session lib.Buffer)
      → IsStreaming lib evs f first w
      → IsAt lib evs f first w Phase.checked
      → GoesOn first (fetch_page lib f count w)
  fetch_page-GoesOn first count w v h =
      subst (GoesOn first) (sym (fetch_page-sample count w v.sampling)) (
        send_page-GoesOn first count w (fetch_sample_data lib w.agent f w.client.start (pos count))
          v h.0 (fetch_sample_data-start count w v.tracks v.bounded h.0.1 (ground (arith, h.1))))
