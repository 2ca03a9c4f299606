-- ===== src/Checkpoint/Condition/Keeps.antt =====
-- Every branch of `addObservation` (src/checkpoint.cpp) for a condition keeps the invariant of its
-- chain.
use cppagent.Base.{
  ◌≡◌, refl, true, some, [], ◌∷◌, Text, text_eq, text_eq_iff, All, is_empty, arith, Bool-cases,
  Option-cases, ◌⊎◌, inl, inr,
}
use cppagent.DataItem.{is_condition}
use cppagent.Observation.{Observation, Chain, get_code, find_code, remove_code, to_normal}
use cppagent.Checkpoint.{chain_event, cleared, clear_event, update}
use cppagent.Checkpoint.Condition.{IsActive, IsFresh, CodesDiffer, IsConditionChain, find_code-none}

-- The chain is not empty and holds the invariant.
abbrev pub IsConditionList : Chain → Type 0
IsConditionList [] = ⊥
IsConditionList (o ∷ c) = IsConditionChain o c

-- The invariant of a chain that may be empty.
abbrev IsCleared : Chain → Type 0
IsCleared [] = Unit
IsCleared (o ∷ c) = IsConditionChain o c

IsFresh-remove_code : (i code : Text) (c : Chain) → IsFresh i c → IsFresh i (remove_code code c)
unfolding remove_code
IsFresh-remove_code i code [] h = tt
IsFresh-remove_code i code (o ∷ c) h = ground (arith, IsFresh-remove_code i code c h.1)

remove_code-CodesDiffer :
    (code : Text) (c : Chain) → CodesDiffer c → CodesDiffer (remove_code code c)
unfolding remove_code
remove_code-CodesDiffer code [] h = tt
remove_code-CodesDiffer code (o ∷ c) h =
    ground (arith, remove_code-CodesDiffer code c h.1, IsFresh-remove_code (get_code o) code c h.0)

remove_code-IsFresh : (code : Text) (c : Chain) → CodesDiffer c → IsFresh code (remove_code code c)
unfolding remove_code
remove_code-IsFresh code [] h = tt
remove_code-IsFresh code (o ∷ c) h =
    ground (arith, remove_code-IsFresh code c h.1, text_eq_iff (get_code o) code)

remove_code-IsActive :
    (code : Text) (c : Chain) → All IsActive c → All IsActive (remove_code code c)
unfolding remove_code
remove_code-IsActive code [] h = tt
remove_code-IsActive code (o ∷ c) h = ground (arith, remove_code-IsActive code c h.1)

IsCleared-list : (c : Chain) → CodesDiffer c → (c ≡ []) ⊎ All IsActive c → IsCleared c
IsCleared-list [] d a = tt
IsCleared-list (o ∷ c) d (inl e) = cc
IsCleared-list (o ∷ c) d (inr a) = record { codes_differ = d; active = inr a }

remove_code-IsCleared :
    (code : Text) (o : Observation) (c : Chain)
    → IsConditionChain o c
    → IsCleared (remove_code code (o ∷ c))
remove_code-IsCleared code o [] v = elim (Bool-cases (text_eq (get_code o) code)) [
  | inl e ↦ unfold remove_code in rw e tt
  | inr e ↦ unfold remove_code in rw e v
]
remove_code-IsCleared code o (p ∷ c) v =
    IsCleared-list (remove_code code (o ∷ (p ∷ c)))
      (remove_code-CodesDiffer code (o ∷ (p ∷ c)) v.codes_differ)
      (inr (remove_code-IsActive code (o ∷ (p ∷ c)) (ground (arith, v.active))))

single : (o : Observation) → IsConditionChain o []
single o = record { codes_differ = (tt, tt); active = inl refl }

cleared-IsConditionList :
    (event : Observation) (c : Chain) → IsCleared c → IsConditionList (cleared event c)
unfolding cleared
cleared-IsConditionList event [] v = single (to_normal event)
cleared-IsConditionList event (o ∷ c) v = v

clear_event-IsConditionList :
    (event o : Observation) (c : Chain)
    → IsConditionChain o c
    → IsConditionList (clear_event event (o ∷ c))
unfolding clear_event
clear_event-IsConditionList event o c v = elim (Bool-cases (is_empty (get_code event))) [
  | inl e ↦ rw e (single event)
  | inr e ↦ rw e (elim (Option-cases (find_code (get_code event) (o ∷ c))) [
    | inl n ↦ rw n v
    | inr (a, s) ↦ rw s (
        cleared-IsConditionList event (remove_code (get_code event) (o ∷ c))
          (remove_code-IsCleared (get_code event) o c v))
  ])
]

All-IsActive :
    (o : Observation) (c : Chain) → IsActive o → IsConditionChain o c → All IsActive (o ∷ c)
All-IsActive o [] a v = (a, tt)
All-IsActive o (p ∷ c) a v = ground (arith, v.active)

chain_event-IsConditionList :
    (event o : Observation) (c : Chain)
    → IsActive event
    → IsActive o
    → IsConditionChain o c
    → IsConditionList (chain_event event (o ∷ c))
unfolding chain_event
chain_event-IsConditionList event o c a b v =
    elim (Option-cases (find_code (get_code event) (o ∷ c))) [
      | inl n ↦
          rw (n, IsConditionList)
            (record {
              codes_differ = (find_code-none (get_code event) (o ∷ c) n, v.codes_differ);
              active = inr (a, All-IsActive o c b v);
            })
      | inr (s, e) ↦
          rw (e, IsConditionList)
            (record {
              codes_differ = (
                remove_code-IsFresh (get_code event) (o ∷ c) v.codes_differ,
                remove_code-CodesDiffer (get_code event) (o ∷ c) v.codes_differ,
              );
              active =
                  inr (a, remove_code-IsActive (get_code event) (o ∷ c) (All-IsActive o c b v));
            })
    ]

-- An observation of a condition leaves a chain that is not empty, whose codes differ, and which has
-- only warnings and faults if it has more than one observation.
pub update-IsConditionList :
    (event o : Observation) (c : Chain)
    → is_condition event.item ≡ true
    → IsConditionChain o c
    → IsConditionList (update event (some (o ∷ c)))
unfolding update
update-IsConditionList event o c h v = ground (
  arith,
  chain_event-IsConditionList event o c,
  clear_event-IsConditionList event o c v,
  single event,
)
