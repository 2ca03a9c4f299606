-- ===== src/Fetch/Current.antt =====
-- `fetchCurrentData` at a sequence number (src/agent.cpp) is the replay of the observations up to it.
use cppagent.Base.{
  ℕ, zero, suc, ◌+◌, ◌-◌, ◌*◌, ◌/◌, ◌%◌, ◌≤◌, ◌<◌, ◌≡◌, refl, false, none, some, TextSet,
  KeysAscend, get_elem?, ltb, leb, arith, ap, sym, ◌∙◌, Bool-cases, inl, inr, ◌&&◌, ◌⊎◌, dec_lt,
}
use native.Mathlib.Nat.{mod-lt, div-add-mod', div-mul-le_self, mul-mod_left, mul-div_left}
use native.Mathlib.Nat.{add-mul-mod_self_right, mod-eq_of_lt}
use cppagent.Observation.{Observation}
use cppagent.Checkpoint.{Checkpoint, empty, add_observation, new_copy, get_observations}
use cppagent.Checkpoint.Laws.{filtered, filtered-add_observation, add_observation-KeysAscend}
use cppagent.SlidingBuffer.{SlidingBuffer}
use cppagent.Sequencer.{Sequencer, get_first_sequence}
use cppagent.Sequencer.Window.{lap_cases, mul_gap, position_step}
use cppagent.Sequencer.Tracks.{Tracks, replay_to, replay_to-unfiltered}
use cppagent.Fetch.{roll_forward, fetch_from, fetch_at}

replay_to-KeysAscend : (evs : ℕ → Observation) (s : ℕ) → KeysAscend (replay_to empty evs s).events
unfolding replay_to
replay_to-KeysAscend evs zero = tt
replay_to-KeysAscend evs (suc s) =
    add_observation-KeysAscend (evs (suc s)) (replay_to empty evs s) (replay_to-KeysAscend evs s)

-- The filter may be set before the replay or after it.
filtered-replay_to :
    (f : TextSet) (evs : ℕ → Observation) (s : ℕ)
    → filtered f (replay_to empty evs s) ≡ replay_to (filtered f empty) evs s
unfolding replay_to
filtered-replay_to f evs zero = refl
filtered-replay_to f evs (suc s) =
    filtered-add_observation f (evs (suc s)) (replay_to empty evs s)
      (replay_to-unfiltered empty evs s).0 (replay_to-KeysAscend evs s)
    ∙ ap (add_observation (evs (suc s))) (filtered-replay_to f evs s)

new_copy-filtered : (c : Checkpoint) (f : TextSet) → new_copy c (some f) ≡ filtered f c
unfolding new_copy
new_copy-filtered c f = refl

module _ (lib : SlidingBuffer) (evs : ℕ → Observation) (a : Sequencer lib.Buffer)
    (v : Tracks lib evs a) where
  abbrev lap : ℕ
  lap = a.buffer_size

  found :
      (s i q : ℕ)
      → s ≡ i + q * lap
      → get_first_sequence a ≤ s
      → s < a.sequence
      → lib.at a.buffer i ≡ some (evs s)
  found s i q e lo hi =
      sym (v.laws.at-mod a.buffer i)
      ∙ ap (lib.at a.buffer) (sym (position_step lap s q i e))
      ∙ v.laws.at-mod a.buffer s
      ∙ v.buffered s lo hi

  -- The loop from the position behind `s` adds the observations behind `s`.
  roll_forward-replay_to :
      (c : Checkpoint) (count s i q : ℕ)
      → s + 1 ≡ i + q * lap
      → get_first_sequence a ≤ s + 1
      → s + count < a.sequence
      → roll_forward lib a.buffer count i (replay_to c evs s) ≡ some (replay_to c evs (s + count))
  unfolding roll_forward replay_to
  roll_forward-replay_to c zero s i q e lo hi = ap (λ k. some (replay_to c evs k)) (omega arith)
  roll_forward-replay_to c (suc count) s i q e lo hi =
      let next : s + 1 ≡ suc s = omega arith in
      rw (found (s + 1) i q e lo (omega arith), roll_forward, next)
        (roll_forward-replay_to c count (suc s) (i + 1) q (omega arith) (omega arith) (omega arith)
          ∙ ap (λ k. some (replay_to c evs k)) (omega arith))

  module _ (f : TextSet) (s : ℕ) (lo : get_first_sequence a ≤ s) (hi : s < a.sequence) where
    abbrev position : ℕ
    position = s % lap

    abbrev first : ℕ
    first = get_first_sequence a % lap

    abbrev closest : ℕ
    closest = position / a.checkpoint_freq * a.checkpoint_freq

    in_lap : s < get_first_sequence a + lap
    in_lap = ground (arith, hi, v.room)

    lap_pos : 0 < lap
    lap_pos = omega (arith, v.room)

    start_first :
        new_copy a.first (some f) ≡ replay_to (filtered f empty) evs (get_first_sequence a)
    start_first =
        let e : a.first ≡ replay_to empty evs (get_first_sequence a) =
          ground (arith, v.at_first, lo, hi) in
        new_copy-filtered a.first f
        ∙ ap (filtered f) e
        ∙ filtered-replay_to f evs (get_first_sequence a)

    -- From the first checkpoint, where it lies between the regular one and `s`.
    from_first :
        closest < first
        → first ≤ position
        → roll_forward lib a.buffer (position - first) (first + 1) (new_copy a.first (some f))
          ≡ some (replay_to (filtered f empty) evs s)
    from_first h k = elim (lap_cases lap (get_first_sequence a) s lap_pos lo in_lap) [
      | inl (_, d) ↦ rw start_first (
          roll_forward-replay_to (filtered f empty) (position - first) (get_first_sequence a)
            (first + 1) (get_first_sequence a / lap)
            (omega (arith, div-add-mod' (get_first_sequence a) lap)) (omega arith) (omega arith)
          ∙ ap (λ k. some (replay_to (filtered f empty) evs k)) (omega arith))
      | inr (lt, _) ↦ absurd (omega arith)
    ]

    -- The sequence number of the regular checkpoint before `s`.
    abbrev base : ℕ
    base = closest + s / lap * lap

    closest_le : closest ≤ position
    closest_le = div-mul-le_self position a.checkpoint_freq

    base-mod : base % lap ≡ closest
    base-mod =
        add-mul-mod_self_right closest (s / lap) lap
        ∙ mod-eq_of_lt (omega (arith, closest_le, mod-lt s lap_pos))

    first-le-base : (first ≤ closest) ⊎ (position < first) → get_first_sequence a ≤ base
    first-le-base h = elim (lap_cases lap (get_first_sequence a) s lap_pos lo in_lap) [
      | inl (le, d) ↦
          omega (arith, div-add-mod' s lap, div-add-mod' (get_first_sequence a) lap, closest_le)
      | inr (lt, q) ↦ omega (
        arith,
        div-add-mod' (get_first_sequence a) lap,
        mod-lt (get_first_sequence a) lap_pos,
        mul_gap (get_first_sequence a / lap) (s / lap) lap q,
      )
    ]

    regular_slot :
        get_first_sequence a ≤ base
        → get_elem? a.checkpoints (position / a.checkpoint_freq) ≡ some (replay_to empty evs base)
    regular_slot h =
        let aligned : (base % lap) % a.checkpoint_freq ≡ 0 =
          rw base-mod (mul-mod_left (position / a.checkpoint_freq) a.checkpoint_freq) in
        let same : (base % lap) / a.checkpoint_freq ≡ position / a.checkpoint_freq =
          rw base-mod (mul-div_left (position / a.checkpoint_freq) v.freq) in
        ap (get_elem? a.checkpoints) (sym same)
        ∙ v.regular base h (omega (arith, div-add-mod' s lap, closest_le)) aligned

    -- Otherwise the regular checkpoint before `s` is in the lap.
    from_regular :
        (first ≤ closest) ⊎ (position < first)
        → (c : Checkpoint) × (get_elem? a.checkpoints (position / a.checkpoint_freq) ≡ some c)
          × (roll_forward lib a.buffer (position - closest) (closest + 1) (new_copy c (some f))
              ≡ some (replay_to (filtered f empty) evs s))
    from_regular h = (
      replay_to empty evs base,
      regular_slot (first-le-base h),
      rw (new_copy-filtered (replay_to empty evs base) f, filtered-replay_to f evs base)
          (roll_forward-replay_to (filtered f empty) (position - closest) base (closest + 1)
              (s / lap) (omega arith) (omega (arith, first-le-base h))
              (omega (arith, div-add-mod' s lap, closest_le))
            ∙ ap (λ k. some (replay_to (filtered f empty) evs k))
                (omega (arith, div-add-mod' s lap, closest_le))),
    )

    fetch_regular :
        (c : Checkpoint)
        → (ltb closest first && leb first position) ≡ false
        → get_elem? a.checkpoints (position / a.checkpoint_freq) ≡ some c
        → roll_forward lib a.buffer (position - closest) (closest + 1) (new_copy c (some f))
          ≡ some (replay_to (filtered f empty) evs s)
        → fetch_from lib a f position first
          ≡ some (get_observations (replay_to (filtered f empty) evs s) none)
    unfolding fetch_from
    fetch_regular c t e r = rw t (rw e (rw r refl))

    test_false :
        (ltb closest first && leb first position) ≡ false → (first ≤ closest) ⊎ (position < first)
    test_false h = elim (dec_lt position first) [ yes p ↦ inr p | no p ↦ inl (ground arith) ]

    fetch_from-replay_to :
        fetch_from lib a f position first
        ≡ some (get_observations (replay_to (filtered f empty) evs s) none)
    fetch_from-replay_to = elim (Bool-cases (ltb closest first && leb first position)) [
      | inl t ↦ unfold fetch_from in rw t (rw (from_first (ground arith) (ground arith)) refl)
      | inr t ↦ let (c, e, r) = from_regular (test_false t) in fetch_regular c t e r
    ]

-- `fetchCurrentData` at a sequence number in the buffer reports what a checkpoint with the filter
-- holds after all observations up to that number, from the first one the agent ever stored.
pub fetch_at-replay_to :
    (lib : SlidingBuffer) (evs : ℕ → Observation) (a : Sequencer lib.Buffer) (f : TextSet) (s : ℕ)
    → Tracks lib evs a
    → get_first_sequence a ≤ s
    → s < a.sequence
    → fetch_at lib a f s ≡ some (get_observations (replay_to (filtered f empty) evs s) none)
unfolding fetch_at
fetch_at-replay_to lib evs a f s v lo hi =
    rw (v.laws.element_id-mod s, v.laws.element_id-mod (get_first_sequence a))
      (fetch_from-replay_to lib evs a v f s lo hi)
