-- ===== src/Sequencer/Tracks/Copies.antt =====
-- The copies of the latest checkpoint into the regular ones (src/agent.cpp, `addToBuffer`).
use cppagent.Base.{
  ℕ, zero, suc, ◌<◌, ◌≡◌, refl, false, none, some, List, [], ◌∷◌, length, get_elem?, arith, ◌≢◌,
  get_elem?-set_self, get_elem?-set_ne, length-set, Option-cases, inl, inr,
}
use cppagent.Observation.{Observation}
use cppagent.Checkpoint.{Checkpoint, add_observation, copy}
use cppagent.Sequencer.{copy_into}
use cppagent.Sequencer.Tracks.{replay_to}

pub replay_one :
    (c : Checkpoint) (evs : ℕ → Observation) → replay_to c evs 1 ≡ add_observation (evs 1) c
unfolding replay_to
replay_one c evs = refl

-- A checkpoint with no filter becomes a copy of the latest one.
pub copy_plain :
    (c latest : Checkpoint)
    → (c.has_filter ≡ false) × (c.filter ≡ [])
    → (latest.has_filter ≡ false) × (latest.filter ≡ [])
    → copy c latest none ≡ latest
unfolding copy
copy_plain c latest h k = ground arith

pub copy_into_self :
    (i : ℕ) (latest c : Checkpoint) (cs : List Checkpoint)
    → get_elem? cs i ≡ some c
    → i < length cs
    → get_elem? (copy_into i latest cs) i ≡ some (copy c latest none)
unfolding copy_into
copy_into_self i latest c cs e h =
    rw (e, copy_into) (get_elem?-set_self cs i (copy c latest none) h)

pub copy_into-ne :
    (i j : ℕ) (latest : Checkpoint) (cs : List Checkpoint)
    → i ≢ j
    → get_elem? (copy_into i latest cs) j ≡ get_elem? cs j
copy_into-ne i j latest cs h = elim (Option-cases (get_elem? cs i)) [
  | inl e ↦ unfold copy_into in rw (e, copy_into) refl
  | inr (c, e) ↦ unfold copy_into in rw (e, copy_into) (get_elem?-set_ne cs (copy c latest none) h)
]

pub length-copy_into :
    (i : ℕ) (latest : Checkpoint) (cs : List Checkpoint)
    → length (copy_into i latest cs) ≡ length cs
length-copy_into i latest cs = elim (Option-cases (get_elem? cs i)) [
  | inl e ↦ unfold copy_into in rw (e, copy_into) refl
  | inr (c, e) ↦ unfold copy_into in rw (e, copy_into) (length-set cs i (copy c latest none))
]

pub get_elem?-below {ℓ} :
    {A : Type ℓ} (xs : List A) (i : ℕ) → i < length xs → (x : A) × (get_elem? xs i ≡ some x)
get_elem?-below [] i h = elim h [ ]
get_elem?-below (x ∷ xs) zero h = (x, refl)
get_elem?-below (x ∷ xs) (suc i) h = get_elem?-below xs i (omega arith)
