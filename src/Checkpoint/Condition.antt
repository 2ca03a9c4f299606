-- ===== src/Checkpoint/Condition.antt =====
-- The chain of a condition as a table from native codes to active observations: what
-- `addObservation` (src/checkpoint.cpp) does to it in each of its branches.
pub mod Keeps
use cppagent.Base.{
  ◌≡◌, refl, Bool, true, false, not, ◌&&◌, ◌||◌, Option, none, some, List, [], ◌∷◌, Text, text_eq,
  text_eq_iff, All, is_empty, if◌then◌else◌, arith, Bool-cases, Option-cases, ◌⊎◌, inl, inr, ap,
  codes,
}
use cppagent.DataItem.{is_condition}
use cppagent.Observation.{
  Observation, Chain, Level, same_level, get_level, get_code, find_code, remove_code, to_normal,
}
use cppagent.Checkpoint.{is_inactive, chain_event, cleared, clear_event, add_condition, update}

abbrev pub IsActive : Observation → Type 0
IsActive o = is_inactive (get_level o) ≡ false

-- No observation of a chain has the code.
abbrev pub IsFresh : Text → Chain → Type 0
IsFresh code = All (λ o. text_eq (get_code o) code ≡ false)

abbrev pub CodesDiffer : Chain → Type 0
CodesDiffer [] = Unit
CodesDiffer (o ∷ c) = IsFresh (get_code o) c × CodesDiffer c

-- The invariant of the chain `o ∷ c` of a condition: the codes differ, and a chain of more than one
-- observation has only warnings and faults.
pub record IsConditionChain (o : Observation) (c : Chain) : Type 0 where
  pub codes_differ : CodesDiffer (o ∷ c)
  pub active : (c ≡ []) ⊎ All IsActive (o ∷ c)

-- The warning or fault that a chain has under a code.
abbrev pub active_at : Text → Chain → Option Observation
active_at k [] = none
active_at k (o ∷ c) =
    if not (is_inactive (get_level o)) && text_eq (get_code o) k then some o else active_at k c

active_at_fresh : (k : Text) (c : Chain) → IsFresh k c → active_at k c ≡ none
active_at_fresh k [] h = refl
active_at_fresh k (o ∷ c) h = ground (arith, active_at_fresh k c h.1)

find_code-none : (k : Text) (c : Chain) → find_code k c ≡ none → IsFresh k c
unfolding find_code
find_code-none k [] h = tt
find_code-none k (o ∷ c) h = ground (arith, find_code-none k c)

-- The table of a chain without a code.
active_at-remove_code :
    (code k : Text) (c : Chain)
    → CodesDiffer c
    → active_at k (remove_code code c) ≡ (if text_eq code k then none else active_at k c)
unfolding remove_code
active_at-remove_code code k [] h = ground arith
active_at-remove_code code k (o ∷ c) h = ground (
  arith,
  active_at-remove_code code k c h.1,
  text_eq_iff (get_code o) code,
  text_eq_iff (get_code o) k,
  text_eq_iff code k,
  active_at_fresh k c,
)

get_level-to_normal :
    (event : Observation)
    → is_condition event.item ≡ true
    → get_level (to_normal event) ≡ Level.normal
unfolding get_level to_normal
get_level-to_normal event h = ground arith

active_at-cleared :
    (k : Text) (event : Observation) (c : Chain)
    → is_condition event.item ≡ true
    → active_at k (cleared event c) ≡ active_at k c
unfolding cleared
active_at-cleared k event [] h = ground (arith, get_level-to_normal event h)
active_at-cleared k event (o ∷ c) h = refl

-- The table that an event leaves: a warning or a fault is entered under its code, a normal with a
-- code takes that code out, and any other event takes all codes out.
abbrev pub entered : Observation → Text → Option Observation → Option Observation
entered event k old =
    if same_level (get_level event) Level.unavailable
    then none
    else if same_level (get_level event) Level.normal
    then (if is_empty (get_code event) || text_eq (get_code event) k then none else old)
    else if text_eq (get_code event) k
    then some event
    else old

active_at-chain_event :
    (k : Text) (event : Observation) (c : Chain)
    → is_inactive (get_level event) ≡ false
    → CodesDiffer c
    → active_at k (chain_event event c)
      ≡ (if text_eq (get_code event) k then some event else active_at k c)
unfolding chain_event
active_at-chain_event k event c h d = ground (arith, active_at-remove_code (get_code event) k c d)

active_at-clear_event :
    (k : Text) (event : Observation) (c : Chain)
    → is_condition event.item ≡ true
    → get_level event ≡ Level.normal
    → CodesDiffer c
    → active_at k (clear_event event c)
      ≡ (if is_empty (get_code event) || text_eq (get_code event) k then none else active_at k c)
unfolding clear_event
active_at-clear_event k event c h l d = ground (
  arith,
  active_at-remove_code (get_code event) k c d,
  active_at-cleared k event (remove_code (get_code event) c) h,
  find_code-none (get_code event) c,
  active_at_fresh k c,
  text_eq_iff (get_code event) k,
)

-- The table of active conditions after an observation of a condition, from the table before it: it is
-- `entered`, whatever branch is taken.
pub active_at-update :
    (k : Text) (event o : Observation) (c : Chain)
    → is_condition event.item ≡ true
    → IsConditionChain o c
    → active_at k (update event (some (o ∷ c))) ≡ entered event k (active_at k (o ∷ c))
unfolding update
active_at-update k event o c h v =
    ground (arith, active_at-chain_event k event (o ∷ c), active_at-clear_event k event (o ∷ c) h)

-- The first observation of a condition enters itself.
pub active_at-update-none :
    (k : Text) (event : Observation) → active_at k (update event none) ≡ active_at k (event ∷ [])
unfolding update
active_at-update-none k event = refl
