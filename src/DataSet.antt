-- ===== src/DataSet.antt =====
-- Data sets (src/observation.hpp, src/observation.cpp, src/checkpoint.cpp): a `std::set` of entries
-- ordered by key, the comparison of two values, and the merge and the difference that a checkpoint
-- makes of an old set and a new one.
pub mod Laws
pub mod Merge
use cppagent.Base.{
  ℕ, ◌+◌, ◌%◌, ◌^◌, suc, Bool, true, false, not, ◌&&◌, ◌||◌, Option, none, some, Text, text_eq,
  text_lt, ltb, ◌==◌, if◌then◌else◌, ℤ, eq_ℤ,
}

-- `DataSetValue` is a variant, and `DataSet` the set of entries in the order of their keys. An entry
-- has its key, its value and its removed flag. A double is its 64-bit pattern.
mutual
  pub data DataSetValue : Type 0 where
    set : DataSet → DataSetValue
    text : Text → DataSetValue
    int : ℤ → DataSetValue
    double : ℕ → DataSetValue

  pub data DataSet : Type 0 where
    nil : DataSet
    entry : Text → DataSetValue → Bool → DataSet → DataSet

-- `==` of two doubles: no NaN is equal to anything, and the two zeros are equal.
pub double_eq : ℕ → ℕ → Bool
double_eq a b =
    not (ltb 0x7ff0000000000000 (a % 2 ^ 63))
    && not (ltb 0x7ff0000000000000 (b % 2 ^ 63))
    && (a == b || a % 2 ^ 63 == 0 && b % 2 ^ 63 == 0)

-- `set.find`
pub find : Text → DataSet → Option (DataSetValue × Bool)
find k nil = none
find k (entry j v r s) = if text_eq j k then some (v, r) else find k s

-- `set.size()`
pub size : DataSet → ℕ
size nil = 0
size (entry k v r s) = suc (size s)

-- `set.insert` and `set.emplace`: an entry with the key stays.
pub insert : Text → DataSetValue → Bool → DataSet → DataSet
insert k v r nil = entry k v r nil
insert k v r (entry j w q s) =
    let rest = insert k v r s in
    if text_eq j k
    then entry j w q s
    else if text_lt k j
    then entry k v r (entry j w q s)
    else entry j w q rest

-- `set.erase`
pub erase : Text → DataSet → DataSet
erase k nil = nil
erase k (entry j v r s) = if text_eq j k then s else entry j v r (erase k s)

unfoldable pub is_empty_set : DataSet → Bool
is_empty_set nil = true
is_empty_set (entry k v r s) = false

mutual
  unfolding double_eq find size

  -- `DataSetValueSame`, the value visited first.
  pub value_same : DataSetValue → DataSetValue → Bool
  value_same (set v) (set o) = size v == size o && entries_same v o
  value_same (set v) (text t) = false
  value_same (set v) (int i) = false
  value_same (set v) (double d) = false
  value_same (text t) (set o) = false
  value_same (text t) (text u) = text_eq t u
  value_same (text t) (int i) = false
  value_same (text t) (double d) = false
  value_same (int i) (set o) = false
  value_same (int i) (text t) = false
  value_same (int i) (int j) = eq_ℤ i j
  value_same (int i) (double d) = false
  value_same (double d) (set o) = false
  value_same (double d) (text t) = false
  value_same (double d) (int i) = false
  value_same (double d) (double e) = double_eq d e

  -- The loop over the entries of the first set.
  pub entries_same : DataSet → DataSet → Bool
  entries_same nil o = true
  entries_same (entry k v r s) o = elim (find k o) [
    | none ↦ false
    | some (w, q) ↦ value_same v w && entries_same s o
  ]

-- The loop of `Checkpoint::addObservation` over the new entries.
pub merge : DataSet → DataSet → DataSet
merge old nil = old
merge old (entry k v r s) = merge (if r then erase k old else insert k v r (erase k old)) s

-- `DataSetEntry::same`, for two entries with one key.
pub entry_same : DataSetValue × Bool → DataSetValue → Bool → Bool
entry_same (v, r) w q = (if r then q else not q) && value_same v w

-- The loop of `Checkpoint::dataSetDifference`: the new entries that the old set does not have.
pub difference : DataSet → DataSet → DataSet
difference old nil = nil
difference old (entry k v r s) = elim (find k old) [
  | none ↦ entry k v r (difference old s)
  | some o ↦ if entry_same o v r then difference old s else entry k v r (difference old s)
]
