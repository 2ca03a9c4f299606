-- ===== src/Sequencer/Tracks/Store.antt =====
-- `addToBuffer` (src/agent.cpp) keeps the invariant of the buffers.
use cppagent.Base.{
  ℕ, ◌+◌, ◌-◌, ◌/◌, ◌%◌, ◌^◌, ◌≤◌, ◌<◌, ◌≡◌, false, none, some, List, [], length, get_elem?, ltb,
  ◌==◌, if◌then◌else◌, arith, ap, sym, ◌∙◌, dec_lt, ℕ_discrete, ◌≢◌, inl, inr, Bool-cases, ==_iff,
  ◌*◌,
}
use native.Mathlib.Nat.{
  mod-eq_of_lt, mod-lt, add-mod_right, le-div_iff_mul-le, div-mul-le_self, div-add-mod',
}
use cppagent.Observation.{Observation}
use cppagent.Checkpoint.{Checkpoint, empty, add_observation}
use cppagent.SlidingBuffer.{SlidingBuffer}
use cppagent.Sequencer.{Sequencer, get_first_sequence, store, add_found, copy_into}
use cppagent.Sequencer.Window.{position_ne}
use cppagent.Sequencer.Tracks.{Tracks, replay_to, replay_to_pos, replay_to-unfiltered}
use cppagent.Sequencer.Tracks.Copies.{
  replay_one, copy_plain, copy_into_self, copy_into-ne, length-copy_into, get_elem?-below,
}

module _ (lib : SlidingBuffer) (evs : ℕ → Observation) (a : Sequencer lib.Buffer)
    (v : Tracks lib evs a) where
  abbrev n : ℕ
  n = a.sequence

  abbrev lap : ℕ
  lap = a.buffer_size

  abbrev event : Observation
  event = evs a.sequence

  abbrev buffer' : lib.Buffer
  buffer' = lib.write a.buffer n event

  buffered' : (s : ℕ) → n + 1 ≤ s + lap → 0 < s → s < n + 1 → lib.at buffer' s ≡ some (evs s)
  buffered' s h p lt = elim (ℕ_discrete s n) [
    | yes e ↦ rw (v.laws.at-write a.buffer n s event) (ground (arith, e))
    | no e ↦ rw (v.laws.at-write a.buffer n s event) (
        ground (
          arith,
          position_ne lap s n (omega (arith, v.room)) (omega arith) (omega arith),
          v.buffered s,
        ))
  ]

  unwritten' : (s : ℕ) → n + 1 ≤ s → s ≤ lap → lib.at buffer' s ≡ none
  unwritten' s h le = rw (v.laws.at-write a.buffer n s event) (
      ground (
        arith,
        position_ne lap n s (omega (arith, v.room)) (omega arith) (omega (arith, v.positive)),
        v.unwritten s,
      ))

  abbrev latest' : Checkpoint
  latest' = add_observation event a.latest

  latest-lem : latest' ≡ replay_to empty evs n
  latest-lem = rw v.at_latest (sym (replay_to_pos empty evs n v.positive))

  latest-unfiltered : (latest'.has_filter ≡ false) × (latest'.filter ≡ [])
  latest-unfiltered = rw latest-lem (replay_to-unfiltered empty evs n)

  abbrev slot : ℕ
  slot = (n % lap) / a.checkpoint_freq

  abbrev checkpoints' : List Checkpoint
  checkpoints' =
      if (n % lap) % a.checkpoint_freq == 0
      then copy_into slot latest' a.checkpoints
      else a.checkpoints

  slot_below : slot < length a.checkpoints
  slot_below = omega (
    arith,
    v.spans,
    (le-div_iff_mul-le {x = slot} {y = lap} v.freq).1 (
        omega (
          arith,
          div-mul-le_self (n % lap) a.checkpoint_freq,
          mod-lt n {m = lap} (omega (arith, v.room)),
        )),
  )

  -- The slot of the new checkpoint holds the latest one.
  written : get_elem? (copy_into slot latest' a.checkpoints) slot ≡ some latest'
  written =
      let (c, e) = get_elem?-below a.checkpoints slot slot_below in
      copy_into_self slot latest' c a.checkpoints e slot_below
      ∙ ap some (copy_plain c latest' (v.unfiltered slot c e) latest-unfiltered)

  copied-unfiltered :
      (i : ℕ) (c : Checkpoint)
      → get_elem? (copy_into slot latest' a.checkpoints) i ≡ some c
      → (c.has_filter ≡ false) × (c.filter ≡ [])
  copied-unfiltered i c e = elim (ℕ_discrete slot i) [
    | yes p ↦
        let same : latest' ≡ c =
          cc (written, ap (get_elem? (copy_into slot latest' a.checkpoints)) p) in
        rw (← same) latest-unfiltered
    | no p ↦ v.unfiltered i c (sym (copy_into-ne slot i latest' a.checkpoints p) ∙ e)
  ]

  unfiltered' :
      (i : ℕ) (c : Checkpoint)
      → get_elem? checkpoints' i ≡ some c
      → (c.has_filter ≡ false) × (c.filter ≡ [])
  unfiltered' i c e = elim (Bool-cases ((n % lap) % a.checkpoint_freq == 0)) [
    | inl t ↦ copied-unfiltered i c (rw t at e)
    | inr t ↦ v.unfiltered i c (rw t at e)
  ]

  -- Two sequence numbers of one lap with a regular checkpoint have different slots.
  slot_ne :
      (s : ℕ)
      → n + 1 ≤ s + lap
      → s < n
      → (s % lap) % a.checkpoint_freq ≡ 0
      → (n % lap) % a.checkpoint_freq ≡ 0
      → slot ≢ (s % lap) / a.checkpoint_freq
  slot_ne s h lt d t e = position_ne lap s n (omega (arith, v.room)) lt (omega arith) (
      omega (
        arith,
        div-add-mod' (s % lap) a.checkpoint_freq,
        div-add-mod' (n % lap) a.checkpoint_freq,
        ap (λ (k : ℕ). k * a.checkpoint_freq) e,
      ))

  kept_regular :
      (s : ℕ)
      → n + 1 ≤ s + lap
      → 0 < s
      → s < n
      → (s % lap) % a.checkpoint_freq ≡ 0
      → get_elem? checkpoints' ((s % lap) / a.checkpoint_freq) ≡ some (replay_to empty evs s)
  kept_regular s h p lt d = elim (Bool-cases ((n % lap) % a.checkpoint_freq == 0)) [
    | inl t ↦ rw t (
        copy_into-ne slot ((s % lap) / a.checkpoint_freq) latest' a.checkpoints
          (slot_ne s h lt d ((==_iff ((n % lap) % a.checkpoint_freq) 0).0 t))
        ∙ v.regular s (ground arith) lt d)
    | inr t ↦ rw t (v.regular s (ground arith) lt d)
  ]

  regular' :
      (s : ℕ)
      → n + 1 ≤ s + lap
      → 0 < s
      → s < n + 1
      → (s % lap) % a.checkpoint_freq ≡ 0
      → get_elem? checkpoints' ((s % lap) / a.checkpoint_freq) ≡ some (replay_to empty evs s)
  regular' s h p lt d = elim (ℕ_discrete s n) [
    | yes e ↦
        rw (e, (==_iff ((n % lap) % a.checkpoint_freq) 0).1 (rw e at d))
          (written ∙ ap some latest-lem)
    | no e ↦ kept_regular s h p (omega arith) d
  ]

  abbrev primed : Checkpoint
  primed = if n == 1 then add_observation event a.first else a.first

  -- Once the first observation is there, the first checkpoint is that of the oldest one kept.
  primed-lem : primed ≡ replay_to empty evs (get_first_sequence a)
  primed-lem = elim (ℕ_discrete n 1) [
    | yes e ↦ ground (arith, v.at_first, v.room, replay_one empty evs, ap evs e)
    | no e ↦ ground (arith, v.at_first, v.room, v.positive)
  ]

  -- A wrapped read finds the observation that becomes the oldest.
  oldest : lap < n + 1 → lib.at buffer' (n + 1) ≡ some (evs (n + 1 - lap))
  oldest h =
      sym (v.laws.at-mod buffer' (n + 1))
      ∙ ap (lib.at buffer') wrapped
      ∙ v.laws.at-mod buffer' (n + 1 - lap)
      ∙ buffered' (n + 1 - lap) (omega arith) (omega arith) (omega (arith, v.room))
    where
      wrapped : (n + 1) % lap ≡ (n + 1 - lap) % lap
      wrapped =
          let e : n + 1 ≡ n + 1 - lap + lap = omega arith in
          ap (λ (k : ℕ). k % lap) e ∙ add-mod_right (n + 1 - lap) lap

  abbrev first' : Checkpoint
  first' = add_found lib (lib.at buffer' (n + 1)) primed

  first_lem :
      add_observation (evs 1) (replay_to empty evs 1) ≡ replay_to empty evs 1
      → first' ≡ replay_to empty evs (if ltb lap (n + 1) then n + 1 - lap else 1)
  unfolding add_found
  first_lem restart = elim (dec_lt lap (n + 1)) [
    | yes h ↦ elim (ℕ_discrete n lap) [
      | yes e ↦
          let k : n + 1 - lap ≡ 1 = omega arith in
          let g : get_first_sequence a ≡ 1 = ground arith in
          rw (oldest h) (
            ground (
              arith,
              restart,
              primed-lem,
              ap evs k,
              ap (replay_to empty evs) g,
              ap (replay_to empty evs) k,
            ))
      | no e ↦
          let g : get_first_sequence a ≡ n + 1 - lap - 1 = ground arith in
          rw (oldest h) (
            ground (
              arith,
              primed-lem,
              ap (replay_to empty evs) g,
              replay_to_pos empty evs (n + 1 - lap),
            ))
    ]
    | no h ↦ rw (unwritten' (n + 1) (omega arith) (omega arith)) (ground (arith, primed-lem))
  ]

  -- The state after the observation, with the sequence number still in its range.
  abbrev stored : Sequencer lib.Buffer
  stored = record a {
    sequence = n + 1;
    buffer = buffer';
    latest = latest';
    first = first';
    checkpoints = checkpoints';
  }

  store-stored : n + 1 < 2 ^ 64 → store lib a event ≡ stored
  unfolding store
  store-stored h = ground (arith, mod-eq_of_lt h, v.laws.element_id-mod n, v.count, slot_below)

  length-checkpoints' : length checkpoints' ≡ length a.checkpoints
  length-checkpoints' = ground (arith, length-copy_into slot latest' a.checkpoints)

  stored-Tracks :
      add_observation (evs 1) (replay_to empty evs 1) ≡ replay_to empty evs 1
      → Tracks lib evs stored
  stored-Tracks restart = record {
    laws = v.laws;
    room = v.room;
    freq = v.freq;
    count = omega (arith, v.count, length-checkpoints');
    spans = omega (arith, v.spans, length-checkpoints');
    positive = omega arith;
    buffered = λ s h lt. buffered' s (ground arith) (ground arith) lt;
    unwritten = unwritten';
    at_latest = latest-lem ∙ ap (replay_to empty evs) (omega arith);
    at_first = ground (arith, first_lem restart, v.positive);
    unfiltered = unfiltered';
    regular = λ s h lt d. regular' s (ground arith) (ground arith) lt d;
  }

-- `addToBuffer` keeps the invariant, for an observation that `evs` has at the next sequence number,
-- below the end of the 64-bit range, where adding the first observation twice is adding it once. (The
-- code does add it twice to the first checkpoint: at the start, and when the buffer is first full.)
pub store-Tracks :
    (lib : SlidingBuffer) (evs : ℕ → Observation) (a : Sequencer lib.Buffer) (event : Observation)
    → Tracks lib evs a
    → evs a.sequence ≡ event
    → a.sequence + 1 < 2 ^ 64
    → add_observation (evs 1) (replay_to empty evs 1) ≡ replay_to empty evs 1
    → Tracks lib evs (store lib a event)
store-Tracks lib evs a event v e h restart =
    rw (← e, store-stored lib evs a v h) (stored-Tracks lib evs a v restart)
