-- ===== src/ChangeObserver/Wakes.antt =====
-- What the signals of the data items tell an observer (src/change_observer.cpp).
use cppagent.Base.{
  ℕ, zero, suc, ◌≤◌, ◌<◌, ◌≡◌, refl, true, not, ◌&&◌, none, some, List, [], ◌∷◌, Text, get_elem?,
  length, any_of, ltb, ◌==◌, if◌then◌else◌, arith, ◌≢◌, ◌⊎◌, inl, inr, subst, ◌∙◌, ap, Bool-cases,
}
use cppagent.ChangeObserver.{
  Observer, Signals, signal, signal_all, signal_observers, modify, not_signaled, has_observer,
  observers_of,
}

-- The sequence number that an observer in a list has.
abbrev sequence_in : ℕ → List Observer → ℕ
sequence_in i os = elim (get_elem? os i) [ none ↦ not_signaled | some o ↦ o.sequence ]

-- `getSequence` of the observer with an index.
abbrev pub sequence_of : ℕ → Signals → ℕ
sequence_of i s = sequence_in i s.observers

-- What a signal makes of a sequence number: the smaller one, for a signal that is not 0.
abbrev pub heard : ℕ → ℕ → ℕ
heard seq n = if ltb seq n && not (seq == 0) then seq else n

sequence-modify :
    (seq i j : ℕ) (os : List Observer)
    → i < length os
    → sequence_in i (modify j (signal seq) os)
      ≡ (if j == i then heard seq (sequence_in i os) else sequence_in i os)
unfolding modify signal
sequence-modify seq i j [] h = elim h [ ]
sequence-modify seq zero zero (o ∷ os) h = ground arith
sequence-modify seq zero (suc j) (o ∷ os) h = ground arith
sequence-modify seq (suc i) zero (o ∷ os) h = ground arith
sequence-modify seq (suc i) (suc j) (o ∷ os) h = ground (arith, sequence-modify seq i j os)

pub length-modify :
    (f : Observer → Observer) (j : ℕ) (os : List Observer) → length (modify j f os) ≡ length os
unfolding modify
length-modify f j [] = refl
length-modify f zero (o ∷ os) = refl
length-modify f (suc j) (o ∷ os) = ap suc (length-modify f j os)

pub length-signal_all :
    (seq : ℕ) (is : List ℕ) (os : List Observer) → length (signal_all seq is os) ≡ length os
unfolding signal_all
length-signal_all seq [] os = refl
length-signal_all seq (j ∷ is) os =
    length-signal_all seq is (modify j (signal seq) os) ∙ length-modify (signal seq) j os

sequence-signal_all :
    (seq i : ℕ) (is : List ℕ) (os : List Observer)
    → i < length os
    → sequence_in i (signal_all seq is os)
      ≡ (if any_of (λ j. j == i) is then heard seq (sequence_in i os) else sequence_in i os)
unfolding signal_all
sequence-signal_all seq i [] os h = refl
sequence-signal_all seq i (j ∷ is) os h =
    let ih =
      sequence-signal_all seq i is (modify j (signal seq) os)
        (omega (arith, length-modify (signal seq) j os, h)) in
    let one = sequence-modify seq i j os h in ground arith

-- A signal reaches the observers of its data item and no others.
pub sequence-signal_observers :
    (item : Text) (seq i : ℕ) (s : Signals)
    → i < length s.observers
    → sequence_of i (signal_observers item seq s)
      ≡ (if has_observer item i s then heard seq (sequence_of i s) else sequence_of i s)
unfolding signal_observers has_observer
sequence-signal_observers item seq i s h =
    sequence-signal_all seq i (observers_of item s) s.observers h

-- A list of signals, of a data item each.
unfoldable pub signal_each : List (Text × ℕ) → Signals → Signals
signal_each [] s = s
signal_each ((item, seq) ∷ es) s = signal_each es (signal_observers item seq s)

-- What an observer is to know of a list of signals if it had the number `n` before: none of those
-- that reach it is smaller than its number, which is `n` or one of them.
abbrev pub KnowsLeast : ℕ → List (Text × ℕ) → Signals → ℕ → ℕ → Type 0
KnowsLeast i es s n m =
    ((k : ℕ) (item : Text) (seq : ℕ)
      → get_elem? es k ≡ some (item, seq)
      → has_observer item i s ≡ true
      → seq ≢ 0
      → m ≤ seq)
    × (m ≤ n)
    × ((m ≡ n)
        ⊎ ((k : ℕ) × (item : Text) × (get_elem? es k ≡ some (item, m))
            × (has_observer item i s ≡ true)))

knows_first :
    (i q n m : ℕ) (it : Text) (es : List (Text × ℕ)) (s : Signals)
    → m ≤ (if has_observer it i s then heard q n else n)
    → (item : Text) (seq : ℕ) → get_elem? ((it, q) ∷ es) 0 ≡ some (item, seq)
    → has_observer item i s ≡ true
    → seq ≢ 0
    → m ≤ seq
knows_first i q n m it es s h item seq e r z =
    let a : it ≡ item = cc in
    let b : q ≡ seq = cc in
    let r' : has_observer it i s ≡ true = ap (λ x. has_observer x i s) a ∙ r in ground (arith, b, z)

knows_step :
    (i q n m : ℕ) (it : Text) (es : List (Text × ℕ)) (s : Signals)
    → KnowsLeast i es s (if has_observer it i s then heard q n else n) m
    → KnowsLeast i ((it, q) ∷ es) s n m
knows_step i q n m it es s (low, mono, known) = (low', ground (arith, mono), known')
  where
    low' :
        (k : ℕ) (item : Text) (seq : ℕ)
        → get_elem? ((it, q) ∷ es) k ≡ some (item, seq)
        → has_observer item i s ≡ true
        → seq ≢ 0
        → m ≤ seq
    low' zero = knows_first i q n m it es s mono
    low' (suc k) = low k

    known' :
        (m ≡ n)
        ⊎ ((k : ℕ) × (item : Text) × (get_elem? ((it, q) ∷ es) k ≡ some (item, m))
            × (has_observer item i s ≡ true))
    known' = elim known [
      | inr (k, item, e, r) ↦ inr (suc k, item, e, r)
      | inl e ↦ elim (Bool-cases (has_observer it i s)) [
        | inr r ↦ inl (ground (arith, e))
        | inl r ↦ elim (Bool-cases (ltb q n && not (q == 0))) [
          | inr b ↦ inl (ground (arith, e))
          | inl b ↦ let w : m ≡ q = ground (arith, e) in inr (0, it, rw w refl, r)
        ]
      ]
    ]

-- After any list of signals, the number of a registered observer is not above that of any signal of
-- its data items, so a stream that goes on from it misses none; and it is the number that the
-- observer had before, or that of a signal of one of its data items.
pub signal_each-KnowsLeast :
    (i : ℕ) (es : List (Text × ℕ)) (s : Signals)
    → i < length s.observers
    → KnowsLeast i es s (sequence_of i s) (sequence_of i (signal_each es s))
unfolding signal_each signal_observers has_observer observers_of
signal_each-KnowsLeast i [] s h = (λ k item seq e r z. absurd (cc), omega arith, inl refl)
signal_each-KnowsLeast i ((it, q) ∷ es) s h =
    let t = signal_observers it q s in
    let one = sequence-signal_observers it q i s h in
    let lt : i < length t.observers =
      omega (arith, length-signal_all q (observers_of it s) s.observers, h) in
    knows_step i q (sequence_of i s) (sequence_of i (signal_each es t)) it es s (
      subst (λ n. KnowsLeast i es s n (sequence_of i (signal_each es t))) one
        (signal_each-KnowsLeast i es t lt))
