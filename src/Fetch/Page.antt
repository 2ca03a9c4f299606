-- ===== src/Fetch/Page.antt =====
-- `fetchSampleData` (src/agent.cpp): which observations a page has, where it ends, and that the next
-- page goes on from there.
use cppagent.Base.{
  ℕ, zero, suc, ◌+◌, ◌-◌, ◌≤◌, ◌<◌, ◌≡◌, refl, Bool, true, false, Option, none, some, List, [], ◌∷◌,
  ◌++◌, TextSet, member, length, ltb, leb, ◌==◌, if◌then◌else◌, arith, ◌⊎◌, inl, inr, ◌||◌,
  Bool-cases,
}
use cppagent.Observation.{Observation}
use cppagent.SlidingBuffer.{SlidingBuffer}
use cppagent.Sequencer.{Sequencer, get_first_sequence}
use cppagent.Sequencer.Tracks.{Tracks}
use cppagent.Fetch.{Sample, no_start, scan_up, scan_down}

-- The listed ones among the `count` observations from `i` on.
unfoldable pub between : (ℕ → Observation) → TextSet → ℕ → ℕ → List Observation
between evs f i zero = []
between evs f i (suc count) =
    let rest = between evs f (i + 1) count in
    if member (evs i).item.id f then evs i ∷ rest else rest

-- The listed ones among the `count` observations from `i` downwards.
unfoldable pub down_from : (ℕ → Observation) → TextSet → ℕ → ℕ → List Observation
down_from evs f i zero = []
down_from evs f i (suc count) =
    let rest = down_from evs f (i - 1) count in
    if member (evs i).item.id f then evs i ∷ rest else rest

pub between-append :
    (evs : ℕ → Observation) (f : TextSet) (i m n : ℕ)
    → between evs f i m ++ between evs f (i + m) n ≡ between evs f i (m + n)
unfolding between
between-append evs f i zero n =
    let e : i + 0 ≡ i = omega arith in let d : zero + n ≡ n = omega arith in rw (e, d) refl
between-append evs f i (suc m) n =
    let e : i + suc m ≡ i + 1 + m = omega arith in
    let d : suc m + n ≡ suc (m + n) = omega arith in
    rw (e, d) (ground (arith, between-append evs f (i + 1) m n))

module _ (lib : SlidingBuffer) (evs : ℕ → Observation) (a : Sequencer lib.Buffer)
    (f : TextSet) where
  -- What the loop upwards from `i` may return: it succeeds, it stops at a position `j` up to the next
  -- sequence number, its results are the listed observations from `i` to `j`, no more than `limit`,
  -- and it has stopped because the limit or the last observation is reached.
  abbrev pub IsPageUp : ℕ → ℕ → Option (List Observation × ℕ) → Type 0
  IsPageUp limit i none = ⊥
  IsPageUp limit i (some (os, j)) =
      (i ≤ j)
      × (j ≤ a.sequence)
      × (os ≡ between evs f i (j - i))
      × (length os ≤ limit)
      × ((length os ≡ limit) ⊎ (j ≡ a.sequence))

  -- The same for the loop downwards, which ends in front of the first sequence number.
  abbrev pub IsPageDown : ℕ → ℕ → Option (List Observation × ℕ) → Type 0
  IsPageDown limit i none = ⊥
  IsPageDown limit i (some (os, j)) =
      (j ≤ i)
      × (get_first_sequence a ≤ j + 1)
      × (os ≡ down_from evs f i (i - j))
      × (length os ≤ limit)
      × ((length os ≡ limit) ⊎ (j < get_first_sequence a))

  between-step :
      (i j : ℕ)
      → i < j
      → between evs f i (j - i) ≡ (
          if member (evs i).item.id f
          then evs i ∷ between evs f (i + 1) (j - (i + 1))
          else between evs f (i + 1) (j - (i + 1)))
  between-step i j h =
      let e : j - i ≡ suc (j - (i + 1)) = omega arith in unfold between in rw e refl

  down_from-step :
      (i j : ℕ)
      → j < i
      → down_from evs f i (i - j) ≡ (
          if member (evs i).item.id f
          then evs i ∷ down_from evs f (i - 1) (i - 1 - j)
          else down_from evs f (i - 1) (i - 1 - j))
  down_from-step i j h =
      let e : i - j ≡ suc (i - 1 - j) = omega arith in unfold down_from in rw e refl

  take_up :
      (limit i : ℕ) (o : Observation) (r : Option (List Observation × ℕ))
      → o ≡ evs i
      → member o.item.id f ≡ true
      → 0 < limit
      → IsPageUp (limit - 1) (i + 1) r
      → IsPageUp limit i (elim r [ none ↦ none | some (os, j) ↦ some (o ∷ os, j) ])
  take_up limit i o none e m p v = v
  take_up limit i o (some (os, j)) e m p v = ground (arith, between-step i j)

  skip_up :
      (limit i : ℕ) (o : Observation) (r : Option (List Observation × ℕ))
      → o ≡ evs i
      → member o.item.id f ≡ false
      → IsPageUp limit (i + 1) r
      → IsPageUp limit i r
  skip_up limit i o none e m v = v
  skip_up limit i o (some (os, j)) e m v = ground (arith, between-step i j)

  stop_up :
      (limit i : ℕ)
      → i ≤ a.sequence
      → (limit ≡ 0) ⊎ (i ≡ a.sequence)
      → IsPageUp limit i (some ([], i))
  stop_up limit i hi h =
      let none_left : between evs f i (i - i) ≡ [] =
        let e : i - i ≡ 0 = omega arith in unfold between in rw e refl in
      ground (arith, none_left)

  pub scan_up-IsPageUp :
      Tracks lib evs a
      → (rounds limit i : ℕ) → get_first_sequence a ≤ i
      → i ≤ a.sequence
      → a.sequence ≤ i + rounds
      → IsPageUp limit i (scan_up lib a f rounds limit i)
  unfolding scan_up
  scan_up-IsPageUp v zero limit i lo hi r = stop_up limit i hi (inr (omega arith))
  scan_up-IsPageUp v (suc rounds) limit i lo hi r =
      let skip = scan_up-IsPageUp v rounds limit (i + 1) in
      let take = scan_up-IsPageUp v rounds (limit - 1) (i + 1) in
      elim (Bool-cases (limit == 0 || (leb a.sequence i || ltb i (get_first_sequence a)))) [
        | inl t ↦ rw (t, IsPageUp) (stop_up limit i hi (ground arith))
        | inr t ↦
            rw (t, v.buffered i lo (ground arith))
              (elim (Bool-cases (member (evs i).item.id f)) [
                | inl m ↦
                    rw (m, IsPageUp)
                      (take_up limit i (evs i) (scan_up lib a f rounds (limit - 1) (i + 1)) refl m
                        (ground arith) (take (omega arith) (ground arith) (omega arith)))
                | inr m ↦
                    rw (m, IsPageUp)
                      (skip_up limit i (evs i) (scan_up lib a f rounds limit (i + 1)) refl m
                        (skip (omega arith) (ground arith) (omega arith)))
              ])
      ]

  take_down :
      (limit i : ℕ) (o : Observation) (r : Option (List Observation × ℕ))
      → o ≡ evs i
      → member o.item.id f ≡ true
      → 0 < limit
      → 0 < i
      → IsPageDown (limit - 1) (i - 1) r
      → IsPageDown limit i (elim r [ none ↦ none | some (os, j) ↦ some (o ∷ os, j) ])
  take_down limit i o none e m p q v = v
  take_down limit i o (some (os, j)) e m p q v = ground (arith, down_from-step i j)

  skip_down :
      (limit i : ℕ) (o : Observation) (r : Option (List Observation × ℕ))
      → o ≡ evs i
      → member o.item.id f ≡ false
      → 0 < i
      → IsPageDown limit (i - 1) r
      → IsPageDown limit i r
  skip_down limit i o none e m q v = v
  skip_down limit i o (some (os, j)) e m q v = ground (arith, down_from-step i j)

  stop_down :
      (limit i : ℕ)
      → get_first_sequence a ≤ i + 1
      → (limit ≡ 0) ⊎ (i < get_first_sequence a)
      → IsPageDown limit i (some ([], i))
  stop_down limit i hi h =
      let none_left : down_from evs f i (i - i) ≡ [] =
        let e : i - i ≡ 0 = omega arith in unfold down_from in rw e refl in
      ground (arith, none_left)

  first_pos : Tracks lib evs a → 0 < get_first_sequence a
  first_pos v = ground (arith, v.room)

  pub scan_down-IsPageDown :
      Tracks lib evs a
      → (rounds limit i : ℕ) → get_first_sequence a ≤ i + 1
      → i < a.sequence
      → i + 1 ≤ get_first_sequence a + rounds
      → IsPageDown limit i (scan_down lib a f rounds limit i)
  unfolding scan_down
  scan_down-IsPageDown v zero limit i lo hi r = stop_down limit i lo (inr (omega arith))
  scan_down-IsPageDown v (suc rounds) limit i lo hi r =
      let skip = scan_down-IsPageDown v rounds limit (i - 1) in
      let take = scan_down-IsPageDown v rounds (limit - 1) (i - 1) in
      let p = first_pos v in
      elim (Bool-cases (limit == 0 || (leb a.sequence i || ltb i (get_first_sequence a)))) [
        | inl t ↦ rw (t, IsPageDown) (stop_down limit i lo (ground arith))
        | inr t ↦
            let above : get_first_sequence a ≤ i = ground arith in
            rw (t, v.buffered i above hi)
              (elim (Bool-cases (member (evs i).item.id f)) [
                | inl m ↦
                    rw (m, IsPageDown)
                      (take_down limit i (evs i) (scan_down lib a f rounds (limit - 1) (i - 1)) refl
                        m (ground arith) (omega arith)
                        (take (omega arith) (omega arith) (omega arith)))
                | inr m ↦
                    rw (m, IsPageDown)
                      (skip_down limit i (evs i) (scan_down lib a f rounds limit (i - 1)) refl m
                        (omega arith) (skip (omega arith) (omega arith) (omega arith)))
              ])
      ]

  -- Where a page with a count that is not negative begins.
  abbrev pub begin_up : ℕ → ℕ
  begin_up start =
      if start == no_start || leb start (get_first_sequence a) then get_first_sequence a else start

  -- Where one with a negative count begins.
  abbrev pub begin_down : ℕ → ℕ
  begin_down start = if start == no_start || leb a.sequence start then a.sequence - 1 else start

  -- A page upwards, the sequence numbers it is printed with, and the flag for the end of the buffer.
  abbrev pub IsSampleUp : ℕ → ℕ → Option (Sample × ℕ × Bool) → Type 0
  IsSampleUp count i none = ⊥
  IsSampleUp count i (some (s, j, at_end)) =
      IsPageUp count i (some (s.events, j))
      × (s.next_seq ≡ j)
      × (s.first_seq ≡ get_first_sequence a)
      × (s.last_seq ≡ a.sequence - 1)
      × (at_end ≡ leb a.sequence j)

  abbrev pub IsSampleDown : ℕ → ℕ → Option (Sample × ℕ × Bool) → Type 0
  IsSampleDown count i none = ⊥
  IsSampleDown count i (some (s, j, at_end)) =
      IsPageDown count i (some (s.events, j))
      × (s.next_seq ≡ j)
      × (s.first_seq ≡ get_first_sequence a)
      × (s.last_seq ≡ a.sequence - 1)
      × (at_end ≡ leb j (get_first_sequence a))
