-- ===== src/ChangeObserver.antt =====
-- Observers and signalers (src/change_observer.hpp, src/change_observer.cpp): the data items signal
-- the sequence numbers of their observations to the observers of the streams. The pointers between
-- the two sides are names: a data item is its id, an observer its index.
pub mod Wakes
use cppagent.Base.{
  ℕ, zero, suc, ◌-◌, ◌^◌, Bool, true, false, not, ◌&&◌, Option, none, some, List, [], ◌∷◌, ◌++◌,
  Text, Map, lookup, insert, text_eq, get_elem?, length, keep_if, any_of, ltb, ◌==◌, if◌then◌else◌,
}

-- `UINT64_MAX`
abbrev pub not_signaled : ℕ
not_signaled = 2 ^ 64 - 1

-- The members of `ChangeObserver`.
pub record Observer : Type 0 where
  pub signalers : List Text
  pub sequence : ℕ

-- All signalers, each with its vector of observers, and all observers.
pub record Signals : Type 0 where
  pub signalers : Map (List ℕ)
  pub observers : List Observer

-- `ChangeObserver::signal`
unfoldable pub signal : ℕ → Observer → Observer
signal seq o = if ltb seq o.sequence && not (seq == 0) then record o { sequence = seq } else o

-- `wasSignaled`
unfoldable pub was_signaled : Observer → Bool
was_signaled o = not (o.sequence == not_signaled)

-- `reset`
unfoldable pub reset : Observer → Observer
reset o = record o { sequence = not_signaled }

-- An operation on the observer with an index; a pointer to no observer does not occur.
unfoldable pub modify : ℕ → (Observer → Observer) → List Observer → List Observer
modify i f [] = []
modify zero f (o ∷ os) = f o ∷ os
modify (suc i) f (o ∷ os) = o ∷ modify i f os

-- The loop of `signalObservers`.
unfoldable pub signal_all : ℕ → List ℕ → List Observer → List Observer
unfolding modify signal
signal_all seq [] os = os
signal_all seq (i ∷ is) os = signal_all seq is (modify i (signal seq) os)

-- The observers of a signaler.
unfoldable pub observers_of : Text → Signals → List ℕ
observers_of item s = elim (lookup item s.signalers) [ none ↦ [] | some is ↦ is ]

-- `ChangeSignaler::signalObservers`
unfoldable pub signal_observers : Text → ℕ → Signals → Signals
unfolding signal_all observers_of
signal_observers item seq s = record s {
  observers = signal_all seq (observers_of item s) s.observers;
}

-- `ChangeSignaler::addObserver` with `ChangeObserver::addSignaler`
unfoldable pub add_observer : Text → ℕ → Signals → Signals
unfolding modify observers_of
add_observer item i s = record {
  signalers = insert item (observers_of item s ++ (i ∷ [])) s.signalers;
  observers = modify i (λ o. record o { signalers = o.signalers ++ (item ∷ []) }) s.observers;
}

abbrev drop_front {ℓ} : {A : Type ℓ} → ℕ → List A → List A
drop_front zero xs = xs
drop_front (suc n) [] = []
drop_front (suc n) (x ∷ xs) = drop_front n xs

-- `std::remove` moves the elements that stay to the front and leaves the tail as it was; the
-- following `erase(newEndPos)` takes out the one element at the new end. `none` if nothing matched.
unfoldable pub remove_and_erase {ℓ} : {A : Type ℓ} → (A → Bool) → List A → Option (List A)
remove_and_erase matches xs =
    let kept = keep_if (λ x. not (matches x)) xs in
    if length kept == length xs then none else some (kept ++ drop_front (suc (length kept)) xs)

-- `ChangeSignaler::removeObserver`
unfoldable pub remove_observer : Text → ℕ → Signals → Bool × Signals
unfolding remove_and_erase observers_of
remove_observer item i s = elim (remove_and_erase (λ j. j == i) (observers_of item s)) [
  | none ↦ (false, s)
  | some is ↦ (true, record s { signalers = insert item is s.signalers })
]

-- `ChangeObserver::removeSignaler`
unfoldable pub remove_signaler : Text → Observer → Bool × Observer
unfolding remove_and_erase
remove_signaler item o = elim (remove_and_erase (text_eq item) o.signalers) [
  | none ↦ (false, o)
  | some items ↦ (true, record o { signalers = items })
]

-- `ChangeSignaler::hasObserver`
unfoldable pub has_observer : Text → ℕ → Signals → Bool
unfolding observers_of
has_observer item i s = any_of (λ j. j == i) (observers_of item s)

-- The loop of `~ChangeObserver`.
unfoldable pub remove_from_all : List Text → ℕ → Signals → Signals
unfolding remove_observer
remove_from_all [] i s = s
remove_from_all (item ∷ items) i s = remove_from_all items i (remove_observer item i s).1

-- `~ChangeObserver`
unfoldable pub destroy_observer : ℕ → Signals → Signals
unfolding remove_from_all
destroy_observer i s = elim (get_elem? s.observers i) [
  | none ↦ s
  | some o ↦ remove_from_all o.signalers i s
]

-- The loop of `~ChangeSignaler`.
unfoldable pub remove_signaler_from : Text → List ℕ → List Observer → List Observer
unfolding modify remove_signaler
remove_signaler_from item [] os = os
remove_signaler_from item (i ∷ is) os =
    remove_signaler_from item is (modify i (λ o. (remove_signaler item o).1) os)
