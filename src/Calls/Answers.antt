-- ===== src/Calls/Answers.antt =====
-- Every call (src/agent.cpp) is answered: no read of the buffers goes through a null pointer.
use cppagent.Base.{
  ℕ, ◌+◌, ◌-◌, ◌≤◌, ◌<◌, ◌≡◌, refl, Bool, true, false, Option, none, some, Text, Map, TextSet,
  is_empty, arith, ◌⊎◌, inl, inr, ℤ, pos, negsuc, Bool-cases, ◌∙◌, ap, codes, is_some, text_eq,
  ◌||◌, ◌&&◌, if◌then◌else◌, ◌==◌, not, eq_ℤ, ltb_ℤ,
}
use cppagent.Observation.{Observation}
use cppagent.Params.{
  Checked, ok, err, ◌>>=◌, check_and_get_param64, query, check_and_get_param, signed,
}
use cppagent.Params.Bounds.{check_and_get_param64_iff}
use cppagent.SlidingBuffer.{SlidingBuffer}
use cppagent.Sequencer.{Sequencer, get_first_sequence}
use cppagent.Sequencer.Tracks.{Tracks}
use cppagent.Fetch.{Sample, no_start, fetch_current_data, fetch_sample_data}
use cppagent.Fetch.Current.{fetch_at-replay_to}
use cppagent.Fetch.Page.{IsSampleUp, IsSampleDown, begin_up, begin_down}
use cppagent.Fetch.Report.{fetch_sample_data-up, fetch_sample_data-down}
use cppagent.Calls.{
  Response, Devices, fetch_data, print_sample, handle_stream, catch_error, call_current,
  call_sample, handle_call, current_with, current_at, current_freq, sample_with, sample_from,
  sample_freq, sample_count, get_start, get_freq, no_freq, devices_and_path, find_device,
}

-- There is a response.
abbrev pub IsAnswered {ℓ} : {A : Type ℓ} → Option A → Type 0
IsAnswered none = ⊥
IsAnswered (some a) = Unit

-- The response of a request, or that of its error.
abbrev IsAnsweredIfOk : Checked (Option Response) → Type 0
IsAnsweredIfOk (ok r) = IsAnswered r
IsAnsweredIfOk (err c m) = Unit

bind-IsAnsweredIfOk {ℓ} :
    {A : Type ℓ} (m : Checked A) (f : A → Checked (Option Response))
    → ((a : A) → m ≡ ok a → IsAnsweredIfOk (f a))
    → IsAnsweredIfOk (m >>= f)
bind-IsAnsweredIfOk (ok a) f h = h a refl
bind-IsAnsweredIfOk (err c m) f h = tt

catch_error-IsAnswered :
    (lib : SlidingBuffer) (g : Text → TextSet ⊎ Text) (r : Checked (Option Response))
    → IsAnsweredIfOk r
    → IsAnswered (catch_error lib g r)
unfolding catch_error
catch_error-IsAnswered lib g (ok r) h = h
catch_error-IsAnswered lib g (err c m) h = tt

module _ (lib : SlidingBuffer) (evs : ℕ → Observation) (a : Sequencer lib.Buffer)
    (v : Tracks lib evs a) (lt : a.sequence < no_start) where
  -- A sequence number that a parameter may give: one in the range, or none.
  abbrev InRange : ℕ → ℕ → Type 0
  InRange last n = (n ≡ no_start) ⊎ ((get_first_sequence a ≤ n) × (n ≤ last))

  get-InRange :
      (queries : Map Text) (param : Text) (last n : ℕ)
      → last < no_start
      → check_and_get_param64 queries param no_start (get_first_sequence a) true last ≡ ok n
      → InRange last n
  get-InRange queries param last n h e =
      elim ((check_and_get_param64_iff queries param no_start (get_first_sequence a) last n
          (λ d. ground (arith, d, lt)) (λ d. omega (arith, d))).0
        e) [ inl (_, d) ↦ inl d | inr (text, _, acc) ↦ inr (acc.2, acc.3) ]

  current-IsAnswered :
      (filter : TextSet) (n : ℕ)
      → InRange (a.sequence - 1) n
      → IsAnswered (fetch_current_data lib a filter n)
  unfolding fetch_current_data
  current-IsAnswered filter n (inl e) = rw e tt
  current-IsAnswered filter n (inr (lo, hi)) =
      let ne : (n == no_start) ≡ false = ground arith in
      let e = fetch_at-replay_to lib evs a filter n v lo (ground (arith, v.positive)) in
      rw (ne, fetch_current_data) (rw (e, fetch_current_data) tt)

  up-IsAnswered :
      (f : TextSet) (start count i : ℕ) (r : Option (Sample × ℕ × Bool))
      → IsSampleUp lib evs a f count i r
      → IsAnswered r
  up-IsAnswered f start count i none h = h
  up-IsAnswered f start count i (some (_, _, _)) h = tt

  down-IsAnswered :
      (f : TextSet) (start count i : ℕ) (r : Option (Sample × ℕ × Bool))
      → IsSampleDown lib evs a f count i r
      → IsAnswered r
  down-IsAnswered f start count i none h = h
  down-IsAnswered f start count i (some (_, _, _)) h = tt

  sample-IsAnswered :
      (filter : TextSet) (n : ℕ) (count : ℤ)
      → InRange a.sequence n
      → IsAnswered (fetch_sample_data lib a filter n count)
  sample-IsAnswered filter n (pos count) h =
      up-IsAnswered filter n count (begin_up lib evs a filter n)
        (fetch_sample_data lib a filter n (pos count))
        (fetch_sample_data-up lib evs a filter n count v
          (elim h [ inl e ↦ inr e | inr (_, hi) ↦ inl hi ]))
  sample-IsAnswered filter n (negsuc count) h =
      down-IsAnswered filter n (count + 1) (begin_down lib evs a filter n)
        (fetch_sample_data lib a filter n (negsuc count))
        (fetch_sample_data-down lib evs a filter n count v
          (elim h [ inl e ↦ ground (arith, e, lt) | inr (lo, _) ↦ ground (arith, lo) ]))

  fetch_data-IsAnswered :
      (g : Text → TextSet ⊎ Text) (filter : TextSet) (current : Bool) (n : ℕ) (count : ℤ)
      → InRange (if current then a.sequence - 1 else a.sequence) n
      → IsAnswered (fetch_data lib g a filter current n count)
  unfolding fetch_data print_sample
  fetch_data-IsAnswered g filter true n count h =
      go (fetch_current_data lib a filter n) (current-IsAnswered filter n h)
    where
      go : (r : Option Sample) → IsAnswered r → IsAnswered (print_sample r)
      go none k = k
      go (some s) k = tt
  fetch_data-IsAnswered g filter false n count h =
      go (fetch_sample_data lib a filter n count) refl (sample-IsAnswered filter n count h)
    where
      go :
          (r : Option (Sample × ℕ × Bool))
          → fetch_sample_data lib a filter n count ≡ r
          → IsAnswered r
          → IsAnswered (fetch_data lib g a filter false n count)
      go none e k = absurd k
      go (some (_, _, _)) e k = rw (e, fetch_data) tt

  handle_stream-IsAnswered :
      (g : Text → TextSet ⊎ Text) (path : Text) (current : Bool) (freq : ℤ) (n : ℕ)
      (count heartbeat : ℤ)
      → InRange (if current then a.sequence - 1 else a.sequence) n
      → IsAnswered (handle_stream lib g a path current freq n count heartbeat)
  unfolding handle_stream
  handle_stream-IsAnswered g path current freq n count heartbeat h = go (g path) refl
    where
      go :
          (r : TextSet ⊎ Text)
          → g path ≡ r
          → IsAnswered (handle_stream lib g a path current freq n count heartbeat)
      go (inr what) e = rw (e, handle_stream) tt
      go (inl filter) e =
          rw (e, handle_stream)
            (elim (Bool-cases (is_empty filter)) [
              | inl em ↦ rw em tt
              | inr em ↦ rw em (elim (Bool-cases (eq_ℤ freq no_freq)) [
                | inl q ↦ rw q (fetch_data-IsAnswered g filter current n count h)
                | inr q ↦ rw q tt
              ])
            ])

  current_with-IsAnsweredIfOk :
      (g : Text → TextSet ⊎ Text) (queries : Map Text) (device : Text) (freq : ℤ) (at : ℕ)
      (heartbeat : ℤ)
      → InRange (a.sequence - 1) at
      → IsAnsweredIfOk (current_with lib g a queries device freq at heartbeat)
  unfolding current_with
  current_with-IsAnsweredIfOk g queries device freq at heartbeat h =
      elim (Bool-cases (not (eq_ℤ freq no_freq) && not (at == no_start))) [
        | inl q ↦ rw q tt
        | inr q ↦ rw q (
            handle_stream-IsAnswered g (devices_and_path (query queries (codes "path")) device) true
              freq at (pos 0) heartbeat h)
      ]

  call_current-IsAnsweredIfOk :
      (g : Text → TextSet ⊎ Text) (queries : Map Text) (device : Text)
      → IsAnsweredIfOk (call_current lib g a queries device)
  unfolding call_current current_freq current_at
  call_current-IsAnsweredIfOk g queries device =
      bind-IsAnsweredIfOk (get_freq lib g queries (codes "frequency") (codes "interval"))
        (current_freq lib g a queries device)
        (λ freq _.
          bind-IsAnsweredIfOk
            (check_and_get_param64 queries (codes "at") no_start (get_first_sequence a) true
              (a.sequence - 1))
            (current_at lib g a queries device freq)
            (λ at e.
              bind-IsAnsweredIfOk
                (check_and_get_param queries (codes "heartbeat") (pos 10000) (pos 10) true
                  (pos 600000) true)
                (current_with lib g a queries device freq at)
                (λ heartbeat _.
                  current_with-IsAnsweredIfOk g queries device freq at heartbeat
                    (get-InRange queries (codes "at") (a.sequence - 1) at (omega arith) e))))

  get_start-InRange :
      (g : Text → TextSet ⊎ Text) (queries : Map Text) (n : ℕ)
      → get_start lib g a queries ≡ ok n
      → InRange a.sequence n
  unfolding get_start
  get_start-InRange g queries n e =
      go
        (check_and_get_param64 queries (codes "from") no_start (get_first_sequence a) true
          a.sequence)
        refl e
    where
      go :
          (r : Checked ℕ)
          → check_and_get_param64 queries
              (codes "from")
              no_start
              (get_first_sequence a)
              true
              a.sequence
            ≡ r
          → (r >>= λ start.
              if start == no_start
              then check_and_get_param64 queries
                  (codes "start")
                  no_start
                  (get_first_sequence a)
                  true
                  a.sequence
              else ok start)
            ≡ ok n
          → InRange a.sequence n
      go (err c m) d k = cc
      go (ok start) d k = elim (Bool-cases (start == no_start)) [
        | inl q ↦ get-InRange queries (codes "start") a.sequence n lt (rw q at k)
        | inr q ↦
            let s : ok start ≡ ok n = rw q at k in
            let same : start ≡ n = cc in
            get-InRange queries (codes "from") a.sequence n lt (d ∙ ap ok same)
      ]

  sample_freq-IsAnsweredIfOk :
      (g : Text → TextSet ⊎ Text) (queries : Map Text) (device : Text) (count freq : ℤ)
      → IsAnsweredIfOk (sample_freq lib g a queries device count freq)
  unfolding sample_freq sample_from sample_with
  sample_freq-IsAnsweredIfOk g queries device count freq =
      elim (Bool-cases (ltb_ℤ count (pos 0) && not (eq_ℤ freq no_freq))) [
        | inl q ↦ rw q tt
        | inr q ↦ rw q (
            bind-IsAnsweredIfOk (get_start lib g a queries)
              (sample_from lib g a queries device count freq)
              (λ start e.
                bind-IsAnsweredIfOk
                  (check_and_get_param queries (codes "heartbeat") (pos 10000) (pos 10) true
                    (pos 600000) true)
                  (sample_with lib g a queries device count freq start)
                  (λ heartbeat _.
                    handle_stream-IsAnswered g
                      (devices_and_path (query queries (codes "path")) device) false freq start
                      count heartbeat (get_start-InRange g queries start e))))
      ]

  call_sample-IsAnsweredIfOk :
      (g : Text → TextSet ⊎ Text) (queries : Map Text) (device : Text)
      → IsAnsweredIfOk (call_sample lib g a queries device)
  unfolding call_sample sample_count
  call_sample-IsAnsweredIfOk g queries device =
      bind-IsAnsweredIfOk
        (check_and_get_param queries (codes "count") (pos 100) (signed true a.buffer_size) true
          (pos a.buffer_size) false)
        (sample_count lib g a queries device)
        (λ count _. elim (Bool-cases (eq_ℤ count (pos 0))) [
          | inl z ↦ rw z tt
          | inr z ↦ rw z (
              bind-IsAnsweredIfOk (get_freq lib g queries (codes "interval") (codes "frequency"))
                (sample_freq lib g a queries device count)
                (λ freq _. sample_freq-IsAnsweredIfOk g queries device count freq))
        ])

-- While the sequence number is below the end of its range, every call is answered, with a document
-- or an error: whatever the parameters are, those that pass the checks never lead to a read of the
-- buffers or the checkpoints through a null pointer.
pub handle_call-IsAnswered :
    (lib : SlidingBuffer) (evs : ℕ → Observation) (a : Sequencer lib.Buffer)
    (g : Text → TextSet ⊎ Text) (ds : Devices) (path : Text) (queries : Map Text)
    (call device : Text)
    → Tracks lib evs a
    → a.sequence < no_start
    → IsAnswered (handle_call lib g a ds path queries call device)
unfolding handle_call
handle_call-IsAnswered lib evs a g ds path queries call device v lt =
    elim (Bool-cases (text_eq call (codes "current"))) [
      | inl c ↦ rw c (
          catch_error-IsAnswered lib g _
            (call_current-IsAnsweredIfOk lib evs a v lt g queries device))
      | inr c ↦ rw c (elim (Bool-cases (text_eq call (codes "probe") || is_empty call)) [
        | inl p ↦ rw p tt
        | inr p ↦ rw p (elim (Bool-cases (text_eq call (codes "sample"))) [
          | inl s ↦ rw s (
              catch_error-IsAnswered lib g _
                (call_sample-IsAnsweredIfOk lib evs a v lt g queries device))
          | inr s ↦ rw s (elim (Bool-cases (is_some (find_device ds call) && is_empty device)) [
            | inl d ↦ rw d tt
            | inr d ↦ rw d tt
          ])
        ])
      ])
    ]
