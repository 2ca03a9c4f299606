-- ===== src/Availability/Disconnects.antt =====
-- What a client sees after an adapter is lost (src/agent.cpp, `disconnected`).
use cppagent.Base.{
  ◌≡◌, ℕ, Bool, true, false, Option, List, Text, All, text_eq, text_eq_iff, arith, Bool-cases, inl,
  inr, ◌∙◌, sym, some, none, codes, Option-cases, ap, ◌&&◌, ◌==◌,
}
use cppagent.DataItem.{DataItem}
use cppagent.DataItem.Conversion.{Numbers}
use cppagent.Observation.Values.{Run, done, thrown, unfinished, Regexes}
use cppagent.SlidingBuffer.{SlidingBuffer}
use cppagent.Adapter.Process.{Surroundings}
use cppagent.Availability.{belongs, disconnected}
use cppagent.Availability.Lost.{Around, latest_of, IsPlain, Gone}
use cppagent.Availability.Leaves.{AreDistinct, All-map, LeavesAll, settles}

module _ (source : DataItem → Option ℕ) (adapter : ℕ) (auto : Bool) where
  -- A data item is the adapter's: it has the adapter as its source, or it is an availability without a
  -- source and the adapter sets these.
  pub data Owns (d : DataItem) : Type 0 where
    sourced : source d ≡ some adapter → Owns d
    available : source d ≡ none → auto ≡ true → d.type ≡ codes "AVAILABILITY" → Owns d

  -- The test, for the source and the type of a data item.
  abbrev test : Option ℕ → Text → Bool
  test x type = elim x [
    | some i ↦ i == adapter
    | none ↦ auto && text_eq type (codes "AVAILABILITY")
  ]

  belongs-test :
      (d : DataItem) (x : Option ℕ) → source d ≡ x → belongs source adapter auto d ≡ test x d.type
  unfolding belongs
  belongs-test d x e = ap (λ y. test y d.type) e

  belongs-Owns : (d : DataItem) → Owns d → belongs source adapter auto d ≡ true
  belongs-Owns d (sourced e) = belongs-test d (some adapter) e ∙ ground arith
  belongs-Owns d (available e a t) =
      belongs-test d none e ∙ ground (arith, a, t, text_eq_iff d.type (codes "AVAILABILITY"))

  Owns-belongs : (d : DataItem) → belongs source adapter auto d ≡ true → Owns d
  Owns-belongs d h = elim (Option-cases (source d)) [
    | inl e ↦ none_own d e (sym (belongs-test d none e) ∙ h)
    | inr (i, e) ↦ some_own d i e (sym (belongs-test d (some i) e) ∙ h)
  ]
    where
      none_own :
          (d : DataItem)
          → source d ≡ none
          → (auto && text_eq d.type (codes "AVAILABILITY")) ≡ true
          → Owns d
      none_own d e h =
          available e (ground (arith, h))
            ((text_eq_iff d.type (codes "AVAILABILITY")).0 (ground (arith, h)))

      some_own : (d : DataItem) (i : ℕ) → source d ≡ some i → (i == adapter) ≡ true → Owns d
      some_own d i e h = let same : i ≡ adapter = ground (arith, h) in sourced (e ∙ ap some same)

  not-belongs : (d : DataItem) → ¬ Owns d → belongs source adapter auto d ≡ false
  not-belongs d n = elim (Bool-cases (belongs source adapter auto d)) [
    | inl y ↦ absurd (n (Owns-belongs d y))
    | inr e ↦ e
  ]

module _ (lib : SlidingBuffer) (N : Numbers) (R : Regexes) (env : Surroundings)
    (source : DataItem → Option ℕ) (adapter : ℕ) (auto : Bool) where
  -- The data items of the adapter that had a value have lost it, and no others are changed.
  abbrev pub IsDisconnected : List DataItem → Around lib N R env → Run (Around lib N R env) → Type 0
  IsDisconnected ds w (done w') =
      All
        (λ d.
          Owns source adapter auto d
          → Gone lib N R env d (latest_of lib N R env d.id w) (latest_of lib N R env d.id w'))
        ds
      × All
          (λ d.
            ¬ Owns source adapter auto d
            → latest_of lib N R env d.id w' ≡ latest_of lib N R env d.id w)
          ds
      × ((k : Text)
          → All (λ d. text_eq d.id k ≡ false) ds
          → latest_of lib N R env k w' ≡ latest_of lib N R env k w)
  IsDisconnected ds w thrown = ⊥
  IsDisconnected ds w unfinished = ⊥

  LeavesAll-IsDisconnected :
      (ds : List DataItem) (w : Around lib N R env) (r : Run (Around lib N R env))
      → LeavesAll lib N R env source adapter auto ds w r
      → IsDisconnected ds w r
  LeavesAll-IsDisconnected ds w (done w') h = (
    All-map _ _ (λ d g o. g (belongs-Owns source adapter auto d o)) ds h.0,
    All-map _ _ (λ d g n. g (not-belongs source adapter auto d n)) ds h.1,
    h.2,
  )
  LeavesAll-IsDisconnected ds w thrown h = h
  LeavesAll-IsDisconnected ds w unfinished h = h

  -- After `disconnected` every data item that belongs to the adapter and had a value reports that it is
  -- not available, and what the agent holds of a data item that does not belong to it, in the list or not,
  -- is as it was, if the ids are distinct, the adapter does not check for duplicates, the last state is not
  -- filtered, no data item has a minimum delta or period, and a constrained one has more than one value; no
  -- observation throws.
  pub disconnected-IsDisconnected :
      (nan : env.Offset) (time : Text) (ds : List DataItem) (w : Around lib N R env)
      → AreDistinct ds
      → All (IsPlain lib N R env) ds
      → w.adapter.dup_check ≡ false
      → w.agent.latest.has_filter ≡ false
      → IsDisconnected ds w (disconnected lib N R env source adapter auto nan time ds w)
  disconnected-IsDisconnected nan time ds w distinct plain off f =
      LeavesAll-IsDisconnected ds w (disconnected lib N R env source adapter auto nan time ds w)
        (settles lib N R env source adapter auto nan time ds w distinct plain off f)
