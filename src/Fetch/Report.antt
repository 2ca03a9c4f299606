-- ===== src/Fetch/Report.antt =====
-- What `fetchSampleData` (src/agent.cpp) reports for each sign of its count.
use cppagent.Base.{
  ℕ, ◌+◌, ◌-◌, ◌≤◌, ◌<◌, ◌≡◌, refl, Bool, Option, none, some, List, ◌++◌, TextSet, arith, ap, ap₂,
  sym, ◌∙◌, ◌⊎◌, inl, pos, negsuc,
}
use cppagent.Observation.{Observation}
use cppagent.SlidingBuffer.{SlidingBuffer}
use cppagent.Sequencer.{Sequencer, get_first_sequence}
use cppagent.Sequencer.Tracks.{Tracks}
use cppagent.Fetch.{Sample, no_start, scan_up, scan_down, fetch_sample_data}
use cppagent.Fetch.Page.{
  between, between-append, IsPageUp, IsPageDown, scan_up-IsPageUp, scan_down-IsPageDown, begin_up,
  begin_down, IsSampleUp, IsSampleDown,
}

module _ (lib : SlidingBuffer) (evs : ℕ → Observation) (a : Sequencer lib.Buffer) (f : TextSet)
    (start count : ℕ) where
  finish_up :
      (r : Option (List Observation × ℕ))
      → scan_up lib a f a.sequence count (begin_up lib evs a f start) ≡ r
      → IsPageUp lib evs a f count (begin_up lib evs a f start) r
      → IsSampleUp lib evs a f count
          (begin_up lib evs a f start)
          (fetch_sample_data lib a f start (pos count))
  finish_up none e p = absurd p
  finish_up (some (os, j)) e p =
      unfold fetch_sample_data in rw (e, IsSampleUp) (p, refl, refl, refl, refl)

  finish_down :
      (r : Option (List Observation × ℕ))
      → scan_down lib a f a.sequence (count + 1) (begin_down lib evs a f start) ≡ r
      → IsPageDown lib evs a f (count + 1) (begin_down lib evs a f start) r
      → IsSampleDown lib evs a f
          (count + 1)
          (begin_down lib evs a f start)
          (fetch_sample_data lib a f start (negsuc count))
  finish_down none e p = absurd p
  finish_down (some (os, j)) e p =
      unfold fetch_sample_data in rw (e, IsSampleDown) (p, refl, refl, refl, refl)

-- `fetchSampleData` with a count that is not negative, for a start up to the next sequence number or
-- no start, succeeds. Its observations are the listed ones from the first sequence number or the
-- start, whichever is later, up to `end`, in order; they are `count`, or fewer if all are reported.
-- It prints `end` as the next sequence number and the range of the buffer, and `endOfBuffer` tells
-- whether `end` is the next sequence number of the agent.
pub fetch_sample_data-up :
    (lib : SlidingBuffer) (evs : ℕ → Observation) (a : Sequencer lib.Buffer) (f : TextSet)
    (start count : ℕ)
    → Tracks lib evs a
    → (start ≤ a.sequence) ⊎ (start ≡ no_start)
    → IsSampleUp lib evs a f count
        (begin_up lib evs a f start)
        (fetch_sample_data lib a f start (pos count))
fetch_sample_data-up lib evs a f start count v h =
    finish_up lib evs a f start count
      (scan_up lib a f a.sequence count (begin_up lib evs a f start)) refl
      (scan_up-IsPageUp lib evs a f v a.sequence count (begin_up lib evs a f start) (ground arith)
        (ground (arith, v.room, v.positive)) (omega arith))

-- `fetchSampleData` with a negative count, for a start from the first sequence number on, or in front
-- of it by one, or no start, succeeds. Its observations are the listed ones from the last sequence
-- number or the start, whichever is earlier, down to `end` exclusive, newest first; they are as many
-- as the count says, or fewer if the loop has passed the first sequence number.
pub fetch_sample_data-down :
    (lib : SlidingBuffer) (evs : ℕ → Observation) (a : Sequencer lib.Buffer) (f : TextSet)
    (start count : ℕ)
    → Tracks lib evs a
    → get_first_sequence a ≤ start + 1
    → IsSampleDown lib evs a f
        (count + 1)
        (begin_down lib evs a f start)
        (fetch_sample_data lib a f start (negsuc count))
fetch_sample_data-down lib evs a f start count v h =
    finish_down lib evs a f start count
      (scan_down lib a f a.sequence (count + 1) (begin_down lib evs a f start)) refl
      (scan_down-IsPageDown lib evs a f v a.sequence (count + 1) (begin_down lib evs a f start)
        (ground (arith, v.room, v.positive)) (ground (arith, v.room, v.positive))
        (ground (arith, v.room, v.positive)))

module _ (lib : SlidingBuffer) (evs : ℕ → Observation) (a : Sequencer lib.Buffer)
    (f : TextSet) where
  -- The observations of two pages, the second from the end of the first, with the end of the second.
  abbrev pub two_pages : ℕ → ℕ → ℕ → Option (List Observation × ℕ)
  two_pages start count count' = elim (fetch_sample_data lib a f start (pos count)) [
    | none ↦ none
    | some (s, j, _) ↦ elim (fetch_sample_data lib a f j (pos count')) [
      | none ↦ none
      | some (s', k, _) ↦ some (s.events ++ s'.events, k)
    ]
  ]

  -- Both pages are there, and they hold the listed observations from `i` to the end.
  abbrev pub IsJoined : ℕ → Option (List Observation × ℕ) → Type 0
  IsJoined i none = ⊥
  IsJoined i (some (os, k)) = (i ≤ k) × (k ≤ a.sequence) × (os ≡ between evs f i (k - i))

  join_two :
      (i count count' : ℕ) (s s' : Sample) (j k : ℕ) (t t' : Bool)
      → IsSampleUp lib evs a f count i (some (s, j, t))
      → IsSampleUp lib evs a f count' j (some (s', k, t'))
      → IsJoined i (some (s.events ++ s'.events, k))
  join_two i count count' s s' j k t t' p q =
      let e : i + (j - i) ≡ j = omega arith in
      let d : j - i + (k - j) ≡ k - i = omega arith in
      (
        omega arith,
        omega arith,
        ap₂ ◌++◌ p.0.2 (q.0.2 ∙ ap (λ m. between evs f m (k - j)) (sym e))
            ∙ between-append evs f i (j - i) (k - j)
            ∙ ap (between evs f i) d,
      )

  join_second :
      (i count count' start j : ℕ) (s : Sample) (t : Bool) (r : Option (Sample × ℕ × Bool))
      → IsSampleUp lib evs a f count i (some (s, j, t))
      → IsSampleUp lib evs a f count' j r
      → IsJoined i (elim r [ none ↦ none | some (s', k, _) ↦ some (s.events ++ s'.events, k) ])
  join_second i count count' start j s t none p q = q
  join_second i count count' start j s t (some (s', k, t')) p q =
      join_two i count count' s s' j k t t' p q

-- Two pages in a row, the second one from the `end` of the first, are both there and hold the listed
-- observations from where the first begins up to the `end` of the second, each once and in order.
pub two_pages-IsJoined :
    (lib : SlidingBuffer) (evs : ℕ → Observation) (a : Sequencer lib.Buffer) (f : TextSet)
    (start count count' : ℕ)
    → Tracks lib evs a
    → (start ≤ a.sequence) ⊎ (start ≡ no_start)
    → a.sequence < no_start
    → IsJoined lib evs a f (begin_up lib evs a f start) (two_pages lib evs a f start count count')
two_pages-IsJoined lib evs a f start count count' v h lt =
    go (fetch_sample_data lib a f start (pos count)) refl
      (fetch_sample_data-up lib evs a f start count v h)
  where
    i : ℕ
    i = begin_up lib evs a f start

    go :
        (r : Option (Sample × ℕ × Bool))
        → fetch_sample_data lib a f start (pos count) ≡ r
        → IsSampleUp lib evs a f count i r
        → IsJoined lib evs a f i (two_pages lib evs a f start count count')
    go none e p = absurd p
    go (some (s, j, t)) e p =
        let same : begin_up lib evs a f j ≡ j = ground (arith, p, lt) in
        rw (e, IsJoined)
          (join_second lib evs a f i count count' start j s t
            (fetch_sample_data lib a f j (pos count')) p
            (rw same at (fetch_sample_data-up lib evs a f j count' v (inl (p.0.1)))))
