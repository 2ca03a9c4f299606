-- ===== src/Streaming/Opens.antt =====
-- The start of a stream (src/agent.cpp, `streamData`), and what it sends from there.
use cppagent.Base.{
  ℕ, ◌-◌, ◌≤◌, ◌<◌, ◌≡◌, refl, false, List, [], ◌∷◌, ◌++◌, TextSet, Text, member, any_of,
  if◌then◌else◌, arith, ◌⊎◌, length, ltb, ◌==◌, ◌||◌, text_eq, text_eq_iff, lookup-insert,
  length-append, ap, sym, ◌∙◌,
}
use cppagent.Observation.{Observation}
use cppagent.Checkpoint.{empty, add_observation}
use cppagent.SlidingBuffer.{SlidingBuffer}
use cppagent.Sequencer.{Sequencer, get_first_sequence}
use cppagent.Sequencer.Tracks.{Tracks, replay_to}
use cppagent.Fetch.{no_start}
use cppagent.Fetch.Page.{between}
use cppagent.ChangeObserver.{Signals, observers_of, has_observer, add_observer, not_signaled}
use cppagent.ChangeObserver.Wakes.{length-modify}
use cppagent.Streaming.{Session, open_stream, add_observers}
use cppagent.Streaming.Steps.{Reach}
use cppagent.Streaming.Sent.{IsStreaming}
use cppagent.Streaming.Delivers.{Reach-IsStreaming}

any_of-append :
    (i j : ℕ) (is : List ℕ)
    → any_of (λ k. k == i) (is ++ (j ∷ [])) ≡ any_of (λ k. k == i) is || j == i
any_of-append i j [] = ground arith
any_of-append i j (k ∷ is) = ground (arith, any_of-append i j is)

-- A registration adds the observer to its data item and to no other.
has_observer-add_observer :
    (item it : Text) (i : ℕ) (s : Signals)
    → has_observer item i (add_observer it i s) ≡ has_observer item i s || text_eq it item
unfolding has_observer add_observer observers_of
has_observer-add_observer item it i s = ground (
  arith,
  lookup-insert it item (observers_of it s ++ (i ∷ [])) s.signalers,
  any_of-append i i (observers_of it s),
  text_eq_iff it item,
)

has_observer-add_observers :
    (f : TextSet) (item : Text) (i : ℕ) (s : Signals)
    → has_observer item i (add_observers f i s) ≡ has_observer item i s || member item f
unfolding add_observers
has_observer-add_observers [] item i s = ground arith
has_observer-add_observers (it ∷ f) item i s = ground (
  arith,
  has_observer-add_observers f item i (add_observer it i s),
  has_observer-add_observer item it i s,
)

length-add_observers :
    (f : TextSet) (i : ℕ) (s : Signals)
    → length (add_observers f i s).observers ≡ length s.observers
unfolding add_observers add_observer
length-add_observers [] i s = refl
length-add_observers (it ∷ f) i s =
    length-add_observers f i (add_observer it i s)
    ∙ length-modify (λ o. record o { signalers = o.signalers ++ (it ∷ []) }) i s.observers

-- Where a stream begins.
abbrev pub opened_at : {Buffer : Type 0} → Sequencer Buffer → ℕ → ℕ
opened_at a start =
    if start == no_start || ltb start (get_first_sequence a) then get_first_sequence a else start

open_stream-IsStreaming :
    (lib : SlidingBuffer) (evs : ℕ → Observation) (f : TextSet) (start : ℕ)
    (a : Sequencer lib.Buffer) (s : Signals)
    → Tracks lib evs a
    → a.sequence < no_start
    → (start ≤ a.sequence) ⊎ (start ≡ no_start)
    → IsStreaming lib evs f (opened_at a start) (open_stream lib f false start a s)
unfolding open_stream between
open_stream-IsStreaming lib evs f start a s v lt h =
    let i = length s.observers in
    let s' = record s {
      observers = s.observers ++ (record { signalers = []; sequence = not_signaled } ∷ []);
    } in
    record {
      tracks = v;
      bounded = lt;
      sampling = refl;
      observing = omega (
        arith,
        length-add_observers f i s',
        length-append s.observers (record { signalers = []; sequence = not_signaled } ∷ []),
      );
      registered = λ item m. ground (arith, has_observer-add_observers f item i s', m);
      at = (
        omega arith,
        ground (arith, v.room, v.positive, h),
        let e : opened_at a start - opened_at a start ≡ 0 = omega arith in
            ap (between evs f (opened_at a start)) (sym e),
      );
    }

-- A stream of samples, from its start on and whatever steps follow, insertions with their signals,
-- tests, fetches and ends of waits in any order, as long as no insertion between a test and its fetch
-- removes the start of the fetch from the buffer: the documents sent hold the observations of its data
-- items from the start on, each once and in order, up to the next start of the loop before a fetch, up
-- to the end of the last page in a wait, and up to the last start if the client fell behind; and in a
-- wait no observation that is still to be sent has a smaller number than the observer. The buffers hold
-- their invariant at the start, the start is no more than the next sequence number or none is given, the
-- numbers do not run out, and adding the first observation a second time changes nothing.
pub open_stream-Reach :
    (lib : SlidingBuffer) (evs : ℕ → Observation) (f : TextSet) (start count : ℕ)
    (a : Sequencer lib.Buffer) (s : Signals) (w : Session lib.Buffer)
    → Tracks lib evs a
    → a.sequence < no_start
    → (start ≤ a.sequence) ⊎ (start ≡ no_start)
    → add_observation (evs 1) (replay_to empty evs 1) ≡ replay_to empty evs 1
    → Reach lib evs f count (open_stream lib f false start a s) w
    → IsStreaming lib evs f (opened_at a start) w
open_stream-Reach lib evs f start count a s w v lt h restart r =
    Reach-IsStreaming lib evs f (opened_at a start) count (open_stream lib f false start a s) w
      restart (open_stream-IsStreaming lib evs f start a s v lt h) r
