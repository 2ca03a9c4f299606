-- ===== src/Streaming/CatchesUp.antt =====
-- The loop of `streamData` (src/agent.cpp) reaches the end of the buffer.
use cppagent.Base.{
  ℕ, zero, suc, ◌-◌, ◌≤◌, ◌<◌, ◌≡◌, refl, Bool, true, false, Option, none, some, TextSet,
  if◌then◌else◌, Bool-cases, inl, inr, arith, length, ltb, ap, sym, ◌∙◌, subst, pos,
}
use cppagent.Observation.{Observation}
use cppagent.SlidingBuffer.{SlidingBuffer}
use cppagent.Sequencer.{Sequencer, get_first_sequence}
use cppagent.Fetch.{Sample, fetch_sample_data}
use cppagent.Fetch.Page.{between, IsSampleUp}
use cppagent.Streaming.{Session, Phase, check_start, fetch_page, send_page, sent_page, dropped}
use cppagent.Streaming.Sent.{IsStreaming, HasSent, IsAt, events_of}
use cppagent.Streaming.Fetches.{page-IsStreaming, fetch_page-sample, fetch_sample_data-start}

abbrev is_fetching : Phase → Bool
is_fetching Phase.fetching = true
is_fetching Phase.checked = false
is_fetching Phase.waiting = false
is_fetching Phase.closed = false

abbrev and_then {ℓ} : {A : Type ℓ} → Option A → (A → Option A) → Option A
and_then none k = none
and_then (some a) k = k a

abbrev is_checked : Phase → Bool
is_checked Phase.fetching = false
is_checked Phase.checked = true
is_checked Phase.waiting = false
is_checked Phase.closed = false

-- The loop's body up to the wait where nothing comes between: the test, and then the fetch.
unfoldable pub fetch_round :
    (lib : SlidingBuffer) → TextSet → ℕ → Session lib.Buffer → Option (Session lib.Buffer)
unfolding check_start fetch_page
fetch_round lib f count w =
    let c = check_start lib w in
    if is_checked c.client.phase then fetch_page lib f count c else some c

-- Fetches, as long as the loop does not wait.
unfoldable pub fetch_rounds :
    (lib : SlidingBuffer) → TextSet → ℕ → ℕ → Session lib.Buffer → Option (Session lib.Buffer)
fetch_rounds lib f count zero w = some w
fetch_rounds lib f count (suc n) w =
    let rest = and_then (fetch_round lib f count w) (fetch_rounds lib f count n) in
    if is_fetching w.client.phase then rest else some w

module _ (lib : SlidingBuffer) (evs : ℕ → Observation) (f : TextSet) (count first : ℕ) where
  -- The loop waits, the agent is as it was, and the documents hold all observations of the filter up
  -- to the next sequence number.
  abbrev pub IsCaughtUp : Sequencer lib.Buffer → Option (Session lib.Buffer) → Type 0
  IsCaughtUp a none = ⊥
  IsCaughtUp a (some w) =
      (w.client.phase ≡ Phase.waiting)
      × (w.agent ≡ a)
      × (events_of w.client.sent ≡ between evs f first (a.sequence - first))

  waits :
      (n : ℕ) (w : Session lib.Buffer)
      → w.client.phase ≡ Phase.waiting
      → fetch_rounds lib f count n w ≡ some w
  unfolding fetch_rounds
  waits zero w e = refl
  waits (suc n) w e =
      ap
        (λ p.
          if is_fetching p
          then and_then (fetch_round lib f count w) (fetch_rounds lib f count n)
          else some w)
        e

  fetch_rounds-suc :
      (n : ℕ) (w : Session lib.Buffer) (r : Option (Session lib.Buffer))
      → w.client.phase ≡ Phase.fetching
      → fetch_round lib f count w ≡ r
      → fetch_rounds lib f count (suc n) w ≡ and_then r (fetch_rounds lib f count n)
  unfolding fetch_rounds
  fetch_rounds-suc n w r p e =
      ap
        (λ p.
          if is_fetching p
          then and_then (fetch_round lib f count w) (fetch_rounds lib f count n)
          else some w)
        p
      ∙ ap (λ x. and_then x (fetch_rounds lib f count n)) e

  abbrev ready : Session lib.Buffer → Session lib.Buffer
  ready w = record w { client = record w.client { phase = Phase.checked } }

  send_page-ready :
      (w : Session lib.Buffer) (r : Option (Sample × ℕ × Bool))
      → send_page lib (ready w) r ≡ send_page lib w r
  unfolding send_page sent_page
  send_page-ready w none = refl
  send_page-ready w (some (s, j, b)) = refl

  fetch_round-fast :
      (w : Session lib.Buffer)
      → w.client.current ≡ false
      → ltb w.client.start (get_first_sequence w.agent) ≡ false
      → fetch_round lib f count w
        ≡ send_page lib w (fetch_sample_data lib w.agent f w.client.start (pos count))
  unfolding fetch_round check_start
  fetch_round-fast w c fast =
      let passes : check_start lib w ≡ ready w =
        ap
          (λ b.
            if b
            then ready w
            else if ltb w.client.start (get_first_sequence w.agent)
            then dropped lib w
            else ready w)
          c
        ∙ ap (λ b. if b then dropped lib w else ready w) fast in
      ap (λ x. if is_checked x.client.phase then fetch_page lib f count x else some x) passes
      ∙ fetch_page-sample lib evs f count (ready w) c
      ∙ send_page-ready w (fetch_sample_data lib w.agent f w.client.start (pos count))

  -- A page that does not end the buffer is a step forward.
  page_grows :
      (a : Sequencer lib.Buffer) (i : ℕ) (s : Sample) (j : ℕ)
      → 0 < count
      → IsSampleUp lib evs a f count i (some (s, j, false))
      → i < j
  unfolding between
  page_grows a i s j h page = elim (Bool-cases (ltb i j)) [
    | inl lt ↦ ground arith
    | inr ge ↦
        let z : j - i ≡ 0 = ground (arith, page.0.0) in
        let l : length s.events ≡ 0 = ap length (page.0.2 ∙ ap (between evs f i) z) in
        absurd (ground (arith, page.0.4, page.4, h))
  ]

  abbrev Round : ℕ → Type 0
  Round n =
      (w : Session lib.Buffer)
      → IsStreaming lib evs f first w
      → w.client.phase ≡ Phase.fetching
      → get_first_sequence w.agent ≤ w.client.start
      → w.agent.sequence - w.client.start < n
      → IsCaughtUp w.agent (fetch_rounds lib f count n w)

  after_page :
      (n : ℕ) (w : Session lib.Buffer) (r : Option (Sample × ℕ × Bool))
      → 0 < count
      → Round n
      → IsStreaming lib evs f first w
      → HasSent lib evs f first w.client.start w
      → get_first_sequence w.agent ≤ w.client.start
      → w.agent.sequence - w.client.start < suc n
      → IsSampleUp lib evs w.agent f count w.client.start r
      → IsCaughtUp w.agent (and_then (send_page lib w r) (fetch_rounds lib f count n))
  unfolding send_page sent_page
  after_page n w none h ih v sent lo lt page = page
  after_page n w (some (s, j, false)) h ih v sent lo lt page =
      let grows : w.client.start < j = page_grows w.agent w.client.start s j h page in
      ih (sent_page lib w s j false)
        (page-IsStreaming lib evs f first count w s j false v sent page) refl (omega arith)
        (omega (arith, page.0.1))
  after_page n w (some (s, j, true)) h ih v sent lo lt page =
      let w' = sent_page lib w s j true in
      let v' = page-IsStreaming lib evs f first count w s j true v sent page in
      let all : j ≡ w.agent.sequence = ground (arith, page.0.1, page.4) in
      subst (IsCaughtUp w.agent) (sym (waits n w' refl))
        (refl, refl, (v'.at).0.2 ∙ ap (λ k. between evs f first (k - first)) all)

  rounds-IsCaughtUp : (n : ℕ) → 0 < count → Round n
  rounds-IsCaughtUp zero h w v p lo lt = absurd (omega arith)
  rounds-IsCaughtUp (suc n) h w v p lo lt =
      let sent : HasSent lib evs f first w.client.start w = subst (IsAt lib evs f first w) p v.at in
      let fast : ltb w.client.start (get_first_sequence w.agent) ≡ false = ground (arith, lo) in
      let page = fetch_sample_data lib w.agent f w.client.start (pos count) in
      subst (IsCaughtUp w.agent)
        (sym (fetch_rounds-suc n w (send_page lib w page) p (fetch_round-fast w v.sampling fast)))
        (after_page n w page h (rounds-IsCaughtUp n h) v sent lo lt
          (fetch_sample_data-start lib evs f count w v.tracks v.bounded sent.1 fast))

-- A loop in a state that the steps of a stream keep, that has not fallen behind and whose pages may hold
-- an observation, comes to its wait after no more rounds than there are sequence numbers from its start on and one more, if nothing is inserted
-- between its tests and fetches: none faults, and the documents then hold all observations of its data
-- items up to the next sequence number.
pub fetch_rounds-IsCaughtUp :
    (lib : SlidingBuffer) (evs : ℕ → Observation) (f : TextSet) (count first n : ℕ)
    (w : Session lib.Buffer)
    → IsStreaming lib evs f first w
    → 0 < count
    → w.client.phase ≡ Phase.fetching
    → get_first_sequence w.agent ≤ w.client.start
    → w.agent.sequence - w.client.start < n
    → IsCaughtUp lib evs f count first w.agent (fetch_rounds lib f count n w)
fetch_rounds-IsCaughtUp lib evs f count first n w v h p lo lt =
    rounds-IsCaughtUp lib evs f count first n h w v p lo lt
