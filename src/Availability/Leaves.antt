-- ===== src/Availability/Leaves.antt =====
-- What the loop of `disconnected` leaves (src/agent.cpp).
use cppagent.Base.{
  ◌≡◌, refl, ℕ, Bool, true, false, Option, List, [], ◌∷◌, Text, All, text_eq, text_eq_iff,
  if◌then◌else◌, arith, Bool-cases, inl, inr, ◌∙◌, sym, subst,
}
use cppagent.DataItem.{DataItem}
use cppagent.DataItem.Conversion.{Numbers}
use cppagent.Observation.{Chain}
use cppagent.Observation.Values.{Run, done, thrown, unfinished, and_then, Regexes}
use cppagent.SlidingBuffer.{SlidingBuffer}
use cppagent.Adapter.Process.{Surroundings}
use cppagent.Availability.{belongs, disconnect_item, disconnected}
use cppagent.Availability.Lost.{
  Around, latest_of, IsPlain, Gone, LeavesRun, disconnect_item-LeavesRun,
}

-- No two data items have the same id.
abbrev pub AreDistinct : List DataItem → Type 0
AreDistinct [] = Unit
AreDistinct (d ∷ ds) = All (λ e. text_eq d.id e.id ≡ false) ds × AreDistinct ds

pub All-map {ℓ κ μ} :
    {A : Type ℓ} (P : A → Type κ) (Q : A → Type μ)
    → ((a : A) → P a → Q a)
    → (xs : List A) → All P xs
    → All Q xs
All-map P Q f [] h = tt
All-map P Q f (x ∷ xs) h = (f x h.0, All-map P Q f xs h.1)

All-both {ℓ κ μ ν} :
    {A : Type ℓ} (P : A → Type κ) (Q : A → Type μ) (S : A → Type ν)
    → ((a : A) → P a → Q a → S a)
    → (xs : List A) → All P xs
    → All Q xs
    → All S xs
All-both P Q S f [] h k = tt
All-both P Q S f (x ∷ xs) h k = (f x h.0 k.0, All-both P Q S f xs h.1 k.1)

text_eq_comm : (a b : Text) → text_eq a b ≡ false → text_eq b a ≡ false
text_eq_comm a b h = ground (arith, text_eq_iff a b, text_eq_iff b a, h)

module _ (lib : SlidingBuffer) (N : Numbers) (R : Regexes) (env : Surroundings)
    (source : DataItem → Option ℕ) (adapter : ℕ) (auto : Bool) where
  -- The test of `disconnected`.
  abbrev pub own : DataItem → Bool
  own = belongs source adapter auto

  -- What the loop over the data items leaves.
  abbrev pub LeavesAll : List DataItem → Around lib N R env → Run (Around lib N R env) → Type 0
  LeavesAll ds w (done w') =
      All
        (λ d.
          own d ≡ true
          → Gone lib N R env d (latest_of lib N R env d.id w) (latest_of lib N R env d.id w'))
        ds
      × All (λ d. own d ≡ false → latest_of lib N R env d.id w' ≡ latest_of lib N R env d.id w) ds
      × ((k : Text)
          → All (λ d. text_eq d.id k ≡ false) ds
          → latest_of lib N R env k w' ≡ latest_of lib N R env k w)
  LeavesAll ds w thrown = ⊥
  LeavesAll ds w unfinished = ⊥

  -- A data item that is not the adapter's leaves the world as it is.
  abbrev LeavesIf : DataItem → Around lib N R env → Run (Around lib N R env) → Type 0
  LeavesIf d w (done w') =
      (own d ≡ true
        → Gone lib N R env d (latest_of lib N R env d.id w) (latest_of lib N R env d.id w'))
      × (own d ≡ false → latest_of lib N R env d.id w' ≡ latest_of lib N R env d.id w)
      × ((k : Text)
          → text_eq d.id k ≡ false
          → latest_of lib N R env k w' ≡ latest_of lib N R env k w)
      × (w'.agent.latest.has_filter ≡ false)
      × (w'.adapter.dup_check ≡ false)
  LeavesIf d w thrown = ⊥
  LeavesIf d w unfinished = ⊥

  item-LeavesIf :
      (nan : env.Offset) (time : Text) (d : DataItem) (w : Around lib N R env)
      → IsPlain lib N R env d
      → w.adapter.dup_check ≡ false
      → w.agent.latest.has_filter ≡ false
      → LeavesIf d w (if own d then disconnect_item lib N R env nan time d w else done w)
  item-LeavesIf nan time d w p off f = elim (Bool-cases (own d)) [
    | inr n ↦ rw (n, LeavesIf) ((λ y. absurd (ground arith)), (λ z. refl), (λ k ne. refl), f, off)
    | inl y ↦ rw y (
        go y (disconnect_item lib N R env nan time d w)
          (disconnect_item-LeavesRun lib N R env nan time d w p off f))
  ]
    where
      go :
          own d ≡ true
          → (r : Run (Around lib N R env)) → LeavesRun lib N R env d w r
          → LeavesIf d w r
      go y (done w') h = (
        λ x. h.gone,
        λ n. absurd (ground arith),
        h.others,
        h.unfiltered,
        subst (λ a. a.dup_check ≡ false) (sym h.same_adapter) off,
      )
      go y thrown h = h
      go y unfinished h = h

  -- What is there under an id is the same before or after.
  Gone-before :
      (d : DataItem) (a b c : Option Chain)
      → b ≡ a
      → Gone lib N R env d b c
      → Gone lib N R env d a c
  Gone-before d a b c e h = subst (λ x. Gone lib N R env d x c) e h

  Gone-after :
      (d : DataItem) (a b c : Option Chain)
      → c ≡ b
      → Gone lib N R env d a b
      → Gone lib N R env d a c
  Gone-after d a b c e h = subst (λ x. Gone lib N R env d a x) (sym e) h

  module _ (d : DataItem) (ds : List DataItem) (w : Around lib N R env)
      (distinct : All (λ e. text_eq d.id e.id ≡ false) ds) where
    then_rest :
        (w1 : Around lib N R env) (r : Run (Around lib N R env))
        → LeavesIf d w (done w1)
        → LeavesAll ds w1 r
        → LeavesAll (d ∷ ds) w r
    then_rest w1 (done w2) h k =
        let later : latest_of lib N R env d.id w2 ≡ latest_of lib N R env d.id w1 = k.2 d.id (
          All-map (λ e. text_eq d.id e.id ≡ false) (λ e. text_eq e.id d.id ≡ false)
            (λ e. text_eq_comm d.id e.id) ds distinct) in
        (
          (
            (λ y. Gone-after d _ _ _ later (h.0 y)),
            All-both (λ e. text_eq d.id e.id ≡ false)
                (λ e.
                  own e ≡ true
                  → Gone lib N R env e (latest_of lib N R env e.id w1)
                      (latest_of lib N R env e.id w2))
                (λ e.
                  own e ≡ true
                  → Gone lib N R env e (latest_of lib N R env e.id w)
                      (latest_of lib N R env e.id w2))
                (λ e ne g y. Gone-before e _ _ _ (h.2 e.id ne) (g y)) ds distinct k.0,
          ),
          (
            (λ n. later ∙ h.1 n),
            All-both (λ e. text_eq d.id e.id ≡ false)
                (λ e. own e ≡ false → latest_of lib N R env e.id w2 ≡ latest_of lib N R env e.id w1)
                (λ e. own e ≡ false → latest_of lib N R env e.id w2 ≡ latest_of lib N R env e.id w)
                (λ e ne g n. g n ∙ h.2 e.id ne) ds distinct k.1,
          ),
          λ i away. k.2 i away.1 ∙ h.2 i away.0,
        )
    then_rest w1 thrown h k = k
    then_rest w1 unfinished h k = k

    first_then :
        (r : Run (Around lib N R env)) (later : Around lib N R env → Run (Around lib N R env))
        → LeavesIf d w r
        → ((w1 : Around lib N R env)
            → w1.adapter.dup_check ≡ false
            → w1.agent.latest.has_filter ≡ false
            → LeavesAll ds w1 (later w1))
        → LeavesAll (d ∷ ds) w (and_then r later)
    first_then (done w1) later h k = then_rest w1 (later w1) h (k w1 h.4 h.3)
    first_then thrown later h k = h
    first_then unfinished later h k = h

  pub settles :
      (nan : env.Offset) (time : Text) (ds : List DataItem) (w : Around lib N R env)
      → AreDistinct ds
      → All (IsPlain lib N R env) ds
      → w.adapter.dup_check ≡ false
      → w.agent.latest.has_filter ≡ false
      → LeavesAll ds w (disconnected lib N R env source adapter auto nan time ds w)
  unfolding disconnected
  settles nan time [] w distinct plain off f = (tt, tt, λ k h. refl)
  settles nan time (d ∷ ds) w distinct plain off f =
      first_then d ds w distinct.0
        (if own d then disconnect_item lib N R env nan time d w else done w)
        (λ w'. disconnected lib N R env source adapter auto nan time ds w')
        (item-LeavesIf nan time d w plain.0 off f)
        (λ w1 off' f'. settles nan time ds w1 distinct.1 plain.1 off' f')
