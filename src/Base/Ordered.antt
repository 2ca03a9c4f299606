-- ===== src/Base/Ordered.antt =====
-- Maps whose keys ascend, as those of `std::map` do.
use mathlib.Core.Path.{◌≡◌, refl}
use mathlib.Core.Bool.{Bool, true}
use mathlib.Core.List.{[], ◌∷◌}
use native.Mathlib.Omega.{arith}
use cppagent.Base.Tests.{if◌then◌else◌}
use cppagent.Base.Texts.{Text, text_lt, text_eq_iff}
use cppagent.Base.Maps.{Map, insert, keep_keys}
use cppagent.Base.Order.{text_lt_trans, text_lt_total, text_lt_irrefl}

module _ {ℓ} {V : Type ℓ} where
  -- Every key lies behind `k`.
  abbrev pub KeysAbove : Text → Map V → Type 0
  KeysAbove k [] = Unit
  KeysAbove k ((j, v) ∷ m) = (text_lt k j ≡ true) × KeysAbove k m

  -- The keys ascend.
  abbrev pub KeysAscend : Map V → Type 0
  KeysAscend [] = Unit
  KeysAscend ((k, v) ∷ m) = KeysAbove k m × KeysAscend m

module _ {ℓ} {V : Type ℓ} where
  pub KeysAbove-trans :
      (j k : Text) (m : Map V) → text_lt j k ≡ true → KeysAbove k m → KeysAbove j m
  KeysAbove-trans j k [] h a = tt
  KeysAbove-trans j k ((i, v) ∷ m) h a = (text_lt_trans j k i h a.0, KeysAbove-trans j k m h a.1)

  KeysAbove-insert :
      (i k : Text) (v : V) (m : Map V)
      → text_lt i k ≡ true
      → KeysAbove i m
      → KeysAbove i (insert k v m)
  unfolding insert
  KeysAbove-insert i k v [] h a = (h, tt)
  KeysAbove-insert i k v ((j, w) ∷ m) h a =
      ground (arith, text_eq_iff j k, KeysAbove-insert i k v m h a.1)

  pub insert-KeysAscend : (k : Text) (v : V) (m : Map V) → KeysAscend m → KeysAscend (insert k v m)
  unfolding insert
  insert-KeysAscend k v [] h = (tt, tt)
  insert-KeysAscend k v ((j, w) ∷ m) h = ground (
    arith,
    insert-KeysAscend k v m h.1,
    KeysAbove-insert j k v m,
    KeysAbove-trans k j m,
    text_lt_total k j,
    text_eq_iff j k,
  )

  KeysAbove-keep_keys :
      (p : Text → Bool) (i : Text) (m : Map V) → KeysAbove i m → KeysAbove i (keep_keys p m)
  unfolding keep_keys
  KeysAbove-keep_keys p i [] a = tt
  KeysAbove-keep_keys p i ((j, w) ∷ m) a = ground (arith, KeysAbove-keep_keys p i m a.1)

  pub keep_keys-KeysAscend :
      (p : Text → Bool) (m : Map V) → KeysAscend m → KeysAscend (keep_keys p m)
  unfolding keep_keys
  keep_keys-KeysAscend p [] h = tt
  keep_keys-KeysAscend p ((j, w) ∷ m) h =
      ground (arith, keep_keys-KeysAscend p m h.1, KeysAbove-keep_keys p j m h.0)

  insert_above : (k : Text) (v : V) (m : Map V) → KeysAbove k m → insert k v m ≡ (k, v) ∷ m
  unfolding insert
  insert_above k v [] a = refl
  insert_above k v ((j, w) ∷ m) a = ground (arith, text_eq_iff j k, text_lt_irrefl k)

  -- A test on the keys goes through a write.
  pub keep_keys-insert :
      (p : Text → Bool) (k : Text) (v : V) (m : Map V)
      → KeysAscend m
      → keep_keys p (insert k v m) ≡ (if p k then insert k v (keep_keys p m) else keep_keys p m)
  unfolding keep_keys insert
  keep_keys-insert p k v [] h = ground arith
  keep_keys-insert p k v ((j, w) ∷ m) h = ground (
    arith,
    text_eq_iff j k,
    keep_keys-insert p k v m h.1,
    insert_above k v (keep_keys p m),
    KeysAbove-keep_keys p k m,
    KeysAbove-trans k j m,
  )
