-- ===== src/Streaming/Sent.antt =====
-- What the documents of a stream hold (src/agent.cpp, `streamData`), and the invariant of its loop.
use cppagent.Base.{
  ℕ, zero, suc, ◌+◌, ◌-◌, ◌≤◌, ◌<◌, ◌≡◌, refl, true, false, List, [], ◌∷◌, ◌++◌, TextSet, Text,
  member, arith, ◌⊎◌, append-nil, append_assoc, ap, sym, ◌∙◌, length,
}
use cppagent.Observation.{Observation}
use cppagent.SlidingBuffer.{SlidingBuffer}
use cppagent.Sequencer.{get_first_sequence}
use cppagent.Sequencer.Tracks.{Tracks}
use cppagent.Fetch.{no_start}
use cppagent.Fetch.Page.{between, between-append}
use cppagent.ChangeObserver.{has_observer, not_signaled}
use cppagent.ChangeObserver.Wakes.{sequence_of}
use cppagent.Calls.{Response}
use cppagent.Streaming.{Session, Phase}

-- The observations in the documents of a stream.
abbrev pub events_of : List Response → List Observation
events_of [] = []
events_of (Response.error code message ∷ rs) = events_of rs
events_of (Response.probe ds ∷ rs) = events_of rs
events_of (Response.streams s ∷ rs) = s.events ++ events_of rs
events_of (Response.stream_data g c freq n count heartbeat ∷ rs) = events_of rs

pub events_of-append :
    (rs : List Response) (r : Response)
    → events_of (rs ++ (r ∷ [])) ≡ events_of rs ++ events_of (r ∷ [])
events_of-append [] r = refl
events_of-append (Response.error code message ∷ rs) r = events_of-append rs r
events_of-append (Response.probe ds ∷ rs) r = events_of-append rs r
events_of-append (Response.streams s ∷ rs) r =
    ap (λ x. s.events ++ x) (events_of-append rs r)
    ∙ sym (append_assoc s.events (events_of rs) (events_of (r ∷ [])))
events_of-append (Response.stream_data g c freq n count heartbeat ∷ rs) r = events_of-append rs r

module _ (lib : SlidingBuffer) (evs : ℕ → Observation) (f : TextSet) where
  -- What the number of an observer tells of the observations from `e` on: none of those in the filter
  -- has a smaller number, and the number is that of one of them or none.
  abbrev pub Tells : ℕ → ℕ → ℕ → Type 0
  Tells sequence e m =
      ((n : ℕ) → e ≤ n → n < sequence → member (evs n).item.id f ≡ true → m ≤ n)
      × ((m ≡ not_signaled) ⊎ ((e ≤ m) × (m < sequence)))

  -- The documents hold the observations in the filter from `first` up to a position.
  abbrev pub HasSent : ℕ → ℕ → Session lib.Buffer → Type 0
  HasSent first e w =
      (first ≤ e)
      × (e ≤ w.agent.sequence)
      × (events_of w.client.sent ≡ between evs f first (e - first))

  -- What holds in each phase.
  abbrev pub IsAt : ℕ → Session lib.Buffer → Phase → Type 0
  IsAt first w Phase.fetching = HasSent first w.client.start w
  IsAt first w Phase.checked =
      HasSent first w.client.start w × (get_first_sequence w.agent ≤ w.client.start)
  IsAt first w Phase.waiting =
      HasSent first w.client.last_end w
      × Tells w.agent.sequence w.client.last_end (sequence_of w.client.observer w.signals)
  IsAt first w Phase.closed = HasSent first w.client.start w

  -- A stream of samples whose observer is registered with each data item of the filter.
  pub record IsStreaming (first : ℕ) (w : Session lib.Buffer) : Type 0 where
    pub tracks : Tracks lib evs w.agent
    pub bounded : w.agent.sequence < no_start
    pub sampling : w.client.current ≡ false
    pub observing : w.client.observer < length w.signals.observers
    pub registered :
        (item : Text) → member item f ≡ true → has_observer item w.client.observer w.signals ≡ true
    pub at : IsAt first w w.client.phase

  between-nil :
      (i k : ℕ)
      → ((n : ℕ) → i ≤ n → n < i + k → member (evs n).item.id f ≡ false)
      → between evs f i k ≡ []
  unfolding between
  between-nil i zero h = refl
  between-nil i (suc k) h =
      let here : member (evs i).item.id f ≡ false = h i (omega arith) (omega arith) in
      rw here (between-nil (i + 1) k (λ n lo hi. h n (omega arith) (omega arith)))

  -- Nothing is missed by going on from a later position.
  pub HasSent-later :
      (first e m : ℕ) (w : Session lib.Buffer)
      → HasSent first e w
      → e ≤ m
      → m ≤ w.agent.sequence
      → ((n : ℕ) → e ≤ n → n < m → member (evs n).item.id f ≡ false)
      → HasSent first m w
  HasSent-later first e m w (lo, hi, sent) le lt none_there =
      let joined : e - first + (m - e) ≡ m - first = omega arith in
      let at_e : first + (e - first) ≡ e = omega arith in
      (
        omega arith,
        lt,
        sent
            ∙ sym (append-nil (between evs f first (e - first)))
            ∙ ap (λ x. between evs f first (e - first) ++ x)
                (sym (between-nil e (m - e) (λ n p q. none_there n p (omega arith))))
            ∙ ap (λ k. between evs f first (e - first) ++ between evs f k (m - e)) (sym at_e)
            ∙ between-append evs f first (e - first) (m - e)
            ∙ ap (between evs f first) joined,
      )

  -- A page goes on from where the documents end.
  pub HasSent-page :
      (first i j : ℕ) (os : List Observation) (w : Session lib.Buffer)
      → HasSent first i w
      → i ≤ j
      → os ≡ between evs f i (j - i)
      → events_of w.client.sent ++ os ≡ between evs f first (j - first)
  HasSent-page first i j os w (lo, hi, sent) le page =
      let joined : i - first + (j - i) ≡ j - first = omega arith in
      let at_i : first + (i - first) ≡ i = omega arith in
      ap (λ x. x ++ os) sent
      ∙ ap (λ x. between evs f first (i - first) ++ x) page
      ∙ ap (λ k. between evs f first (i - first) ++ between evs f k (j - i)) (sym at_i)
      ∙ between-append evs f first (i - first) (j - i)
      ∙ ap (between evs f first) joined
