-- ===== src/Sequencer/Tracks/Run.antt =====
-- The invariant of the buffers (src/agent.cpp) holds from the constructor on, after any sequence of
-- observations.
use cppagent.Base.{
  ℕ, zero, suc, ◌+◌, ◌/◌, ◌^◌, ◌<◌, ◌≡◌, refl, true, none, some, List, [], ◌∷◌, length, get_elem?,
  replicate, length-replicate, arith, ap, text_eq_refl, sym, ◌∙◌, lookup, insert,
}
use native.Mathlib.Nat.{mod-eq_of_lt}
use cppagent.DataItem.{is_condition, is_data_set}
use cppagent.Observation.{Observation, Level, get_level, is_unavailable}
use cppagent.Checkpoint.{Checkpoint, empty, add_observation, update}
use cppagent.SlidingBuffer.{SlidingBuffer, SlidingBufferLaws}
use cppagent.Sequencer.{Sequencer, start, store}
use cppagent.Sequencer.Tracks.{Tracks, replay_to}
use cppagent.Sequencer.Tracks.Store.{store-Tracks}

get_elem?-replicate : (n i : ℕ) (c d : Checkpoint) → get_elem? (replicate n c) i ≡ some d → d ≡ c
get_elem?-replicate zero i c d e = cc
get_elem?-replicate (suc n) zero c d e = cc
get_elem?-replicate (suc n) (suc i) c d e = get_elem?-replicate n i c d e

-- The buffers that the constructor of `Agent` sets up hold the invariant, for a buffer of two places
-- or more and a checkpoint frequency that is not 0.
pub start-Tracks :
    (lib : SlidingBuffer) (evs : ℕ → Observation) (exponent freq : ℕ)
    → SlidingBufferLaws lib (2 ^ exponent)
    → 1 < 2 ^ exponent
    → 0 < freq
    → Tracks lib evs (start lib exponent freq)
unfolding start replay_to
start-Tracks lib evs exponent freq laws room pos = record {
  laws = laws;
  room = room;
  freq = pos;
  count = sym (length-replicate (2 ^ exponent / freq + 1) empty);
  spans = omega (arith, length-replicate (2 ^ exponent / freq + 1) empty);
  positive = omega arith;
  buffered = λ s h lt. absurd (ground (arith, h, lt, room));
  unwritten = λ s h lt. laws.at-fresh s;
  at_latest = refl;
  at_first = refl;
  unfiltered = λ i c e.
      let same : c ≡ empty = get_elem?-replicate (2 ^ exponent / freq + 1) i empty c e in
      rw same (refl, refl);
  regular = λ s h lt d. absurd (ground (arith, h, lt, room));
}

-- `store` for each observation of a list, in order.
unfoldable pub store_all :
    (lib : SlidingBuffer) → Sequencer lib.Buffer → List Observation → Sequencer lib.Buffer
store_all lib a [] = a
store_all lib a (o ∷ os) = store_all lib (store lib a o) os

pub sequence-store :
    (lib : SlidingBuffer) (a : Sequencer lib.Buffer) (o : Observation)
    → a.sequence + 1 < 2 ^ 64
    → (store lib a o).sequence ≡ a.sequence + 1
unfolding store
sequence-store lib a o h = mod-eq_of_lt h

-- They hold it after any list of observations, if `evs` lists those, the sequence numbers stay below
-- the end of the 64-bit range, and adding the first observation twice is adding it once.
pub store_all-Tracks :
    (lib : SlidingBuffer) (evs : ℕ → Observation) (a : Sequencer lib.Buffer) (os : List Observation)
    → Tracks lib evs a
    → ((i : ℕ) (o : Observation) → get_elem? os i ≡ some o → evs (a.sequence + i) ≡ o)
    → a.sequence + length os < 2 ^ 64
    → add_observation (evs 1) (replay_to empty evs 1) ≡ replay_to empty evs 1
    → Tracks lib evs (store_all lib a os)
unfolding store_all
store_all-Tracks lib evs a [] v h lt restart = v
store_all-Tracks lib evs a (o ∷ os) v h lt restart =
    let n : (store lib a o).sequence ≡ a.sequence + 1 = sequence-store lib a o (omega arith) in
    let first : evs a.sequence ≡ o = ap evs (omega arith) ∙ h 0 o refl in
    store_all-Tracks lib evs (store lib a o) os
      (store-Tracks lib evs a o v first (omega arith) restart)
      (λ i p e. ap evs (omega (arith, n)) ∙ h (suc i) p e) (omega (arith, n)) restart

update_again :
    (e : Observation)
    → (is_condition e.item ≡ true → get_level e ≡ Level.unavailable)
    → (is_data_set e.item ≡ true → is_unavailable e ≡ true)
    → update e (some (e ∷ [])) ≡ e ∷ []
unfolding update
update_again e h k = ground arith

update-none : (e : Observation) → update e none ≡ e ∷ []
unfolding update
update-none e = refl

-- Adding the first observation twice is adding it once where it reports UNAVAILABLE, as the
-- constructor of `Agent` does for each data item without a constant value, or where it is neither of
-- a condition nor of a data set.
pub restart_lem :
    (evs : ℕ → Observation)
    → (is_condition (evs 1).item ≡ true → get_level (evs 1) ≡ Level.unavailable)
    → (is_data_set (evs 1).item ≡ true → is_unavailable (evs 1) ≡ true)
    → add_observation (evs 1) (replay_to empty evs 1) ≡ replay_to empty evs 1
unfolding replay_to add_observation lookup insert
restart_lem evs h k =
    let same = text_eq_refl (evs 1).item.id in
    rw same (rw (update-none (evs 1)) (rw (update_again (evs 1) h k) refl))
