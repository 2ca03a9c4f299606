-- ===== src/DataSet/Merge.antt =====
-- The merge of `Checkpoint::addObservation` and the difference of `Checkpoint::dataSetDifference`
-- (src/checkpoint.cpp), key by key.
use cppagent.Base.{
  ◌≡◌, refl, Bool, true, false, Option, none, some, Text, text_eq, text_eq_iff, if◌then◌else◌,
  arith, ◌⊎◌, inl,
}
use cppagent.DataSet.{
  DataSetValue, DataSet, nil, entry, find, insert, erase, merge, difference, value_same, entry_same,
}
use cppagent.DataSet.Laws.{
  Above, IsOrdered, NoneRemoved, find-Above, find-insert, find-erase, insert-IsOrdered,
  erase-IsOrdered,
}

-- What a merge leaves under a key, from what the new set has there and what the old one has.
abbrev pub merged :
    Option (DataSetValue × Bool) → Option (DataSetValue × Bool) → Option (DataSetValue × Bool)
merged none o = o
merged (some (v, true)) o = none
merged (some (v, false)) o = some (v, false)

find-old :
    (j k : Text) (v : DataSetValue) (old : DataSet)
    → IsOrdered old
    → find j (insert k v false (erase k old))
      ≡ (if text_eq k j then some (v, false) else find j old)
find-old j k v old h = ground (
  arith,
  find-insert k j v false (erase k old),
  find-erase k k old h,
  find-erase k j old h,
  text_eq_iff k j,
  text_eq_iff k k,
)

-- After a merge a key that the new set removes is gone, one that it gives a value has that value,
-- and every other key has what it had in the old set.
pub find-merge :
    (j : Text) (old new : DataSet)
    → IsOrdered old
    → IsOrdered new
    → find j (merge old new) ≡ merged (find j new) (find j old)
unfolding merge find
find-merge j old nil h k = refl
find-merge j old (entry i v true s) h k = ground (
  arith,
  find-merge j (erase i old) s (erase-IsOrdered i old h) k.1,
  find-erase i j old h,
  text_eq_iff i j,
  find-Above i s k.0,
)
find-merge j old (entry i v false s) h k = ground (
  arith,
  find-merge j (insert i v false (erase i old)) s
      (insert-IsOrdered i v false (erase i old) (erase-IsOrdered i old h)) k.1,
  find-old j i v old h,
  text_eq_iff i j,
  find-Above i s k.0,
)

-- The new entries that differ from what the old set has under their key.
abbrev pub kept :
    Option (DataSetValue × Bool) → Option (DataSetValue × Bool) → Option (DataSetValue × Bool)
kept none o = none
kept (some (v, r)) none = some (v, r)
kept (some (v, r)) (some o) = if entry_same o v r then none else some (v, r)

Above-difference : (k : Text) (old new : DataSet) → Above k new → Above k (difference old new)
unfolding difference
Above-difference k old nil a = tt
Above-difference k old (entry i v r s) a = ground (arith, Above-difference k old s a.1)

pub difference-IsOrdered : (old new : DataSet) → IsOrdered new → IsOrdered (difference old new)
unfolding difference
difference-IsOrdered old nil h = tt
difference-IsOrdered old (entry i v r s) h =
    ground (arith, difference-IsOrdered old s h.1, Above-difference i old s h.0)

pub find-difference :
    (j : Text) (old new : DataSet)
    → IsOrdered new
    → find j (difference old new) ≡ kept (find j new) (find j old)
unfolding difference find
find-difference j old nil h = refl
find-difference j old (entry i v r s) h =
    ground (arith, find-difference j old s h.1, text_eq_iff i j, find-Above i s h.0)

-- Two entries found under one key have the same flag, and values that are equal or that
-- `DataSetValueSame` takes for the same.
abbrev pub SameEntry : Option (DataSetValue × Bool) → Option (DataSetValue × Bool) → Type 0
SameEntry none none = Unit
SameEntry none (some o) = ⊥
SameEntry (some o) none = ⊥
SameEntry (some (v, r)) (some (w, q)) = (r ≡ q) × ((v ≡ w) ⊎ (value_same v w ≡ true))

SameEntry-refl : (o : Option (DataSetValue × Bool)) → SameEntry o o
SameEntry-refl none = tt
SameEntry-refl (some (v, r)) = (refl, inl refl)

-- The found flag, `false` where nothing is found.
abbrev flag : Option (DataSetValue × Bool) → Bool
flag none = false
flag (some (v, r)) = r

flag-find : (j : Text) (s : DataSet) → NoneRemoved s → flag (find j s) ≡ false
unfolding find
flag-find j nil h = refl
flag-find j (entry k v r s) h = ground (arith, flag-find j s h.1)

merged-kept :
    (new old : Option (DataSetValue × Bool))
    → flag old ≡ false
    → SameEntry (merged (kept new old) old) (merged new old)
unfolding entry_same
merged-kept none old h = SameEntry-refl old
merged-kept (some (v, true)) none h = tt
merged-kept (some (v, false)) none h = (refl, inl refl)
merged-kept (some (v, true)) (some (w, r)) h = ground arith
merged-kept (some (v, false)) (some (w, r)) h = ground arith

-- To merge only the difference of a new set is to merge the new set, if both sets are ordered by their keys
-- and the old set holds no entry marked as removed: under every key the two results hold the same entry.
pub merge-difference :
    (j : Text) (old new : DataSet)
    → IsOrdered old
    → IsOrdered new
    → NoneRemoved old
    → SameEntry (find j (merge old (difference old new))) (find j (merge old new))
merge-difference j old new h k n =
    rw
      (
        find-merge j old new h k,
        find-merge j old (difference old new) h (difference-IsOrdered old new k),
        find-difference j old new k,
      )
      (merged-kept (find j new) (find j old) (flag-find j old n))
