-- ===== src/DataSet/Laws.antt =====
-- What the operations of a data set find: the laws of `find` after each of them, and the order of
-- the keys.
use cppagent.Base.{
  ◌≡◌, refl, Bool, true, false, none, some, Text, text_eq, text_lt, text_eq_iff, text_lt_irrefl,
  text_lt_trans, text_lt_total, if◌then◌else◌, arith,
}
use cppagent.DataSet.{DataSetValue, DataSet, nil, entry, find, insert, erase, merge}

-- Every key of a set lies behind `k`.
abbrev pub Above : Text → DataSet → Type 0
Above k nil = Unit
Above k (entry j v r s) = (text_lt k j ≡ true) × Above k s

-- The invariant of `std::set`: the keys ascend.
abbrev pub IsOrdered : DataSet → Type 0
IsOrdered nil = Unit
IsOrdered (entry k v r s) = Above k s × IsOrdered s

-- No entry is marked as removed.
abbrev pub NoneRemoved : DataSet → Type 0
NoneRemoved nil = Unit
NoneRemoved (entry k v r s) = (r ≡ false) × NoneRemoved s

pub Above-trans : (j k : Text) (s : DataSet) → text_lt j k ≡ true → Above k s → Above j s
Above-trans j k nil h a = tt
Above-trans j k (entry i v r s) h a = (text_lt_trans j k i h a.0, Above-trans j k s h a.1)

pub find-Above : (k : Text) (s : DataSet) → Above k s → find k s ≡ none
unfolding find
find-Above k nil a = refl
find-Above k (entry j v r s) a =
    ground (arith, text_eq_iff j k, text_lt_irrefl k, find-Above k s a.1)

pub find-insert :
    (k j : Text) (v : DataSetValue) (r : Bool) (s : DataSet)
    → find k s ≡ none
    → find j (insert k v r s) ≡ (if text_eq k j then some (v, r) else find j s)
unfolding find insert
find-insert k j v r nil h = refl
find-insert k j v r (entry i w q s) h =
    ground (arith, text_eq_iff k j, text_eq_iff i k, text_eq_iff i j, find-insert k j v r s)

pub find-erase :
    (k j : Text) (s : DataSet)
    → IsOrdered s
    → find j (erase k s) ≡ (if text_eq k j then none else find j s)
unfolding find erase
find-erase k j nil h = ground arith
find-erase k j (entry i w q s) h = ground (
  arith,
  text_eq_iff k j,
  text_eq_iff i k,
  text_eq_iff i j,
  find-Above i s h.0,
  find-erase k j s h.1,
)

Above-insert :
    (i k : Text) (v : DataSetValue) (r : Bool) (s : DataSet)
    → text_lt i k ≡ true
    → Above i s
    → Above i (insert k v r s)
unfolding insert
Above-insert i k v r nil h a = (h, tt)
Above-insert i k v r (entry j w q s) h a =
    ground (arith, text_eq_iff j k, Above-insert i k v r s h a.1)

Above-erase : (i k : Text) (s : DataSet) → Above i s → Above i (erase k s)
unfolding erase
Above-erase i k nil a = tt
Above-erase i k (entry j w q s) a = ground (arith, Above-erase i k s a.1)

-- `insert` keeps the keys in order.
pub insert-IsOrdered :
    (k : Text) (v : DataSetValue) (r : Bool) (s : DataSet)
    → IsOrdered s
    → IsOrdered (insert k v r s)
unfolding insert
insert-IsOrdered k v r nil h = (tt, tt)
insert-IsOrdered k v r (entry j w q s) h = ground (
  arith,
  insert-IsOrdered k v r s h.1,
  Above-insert j k v r s,
  Above-trans k j s,
  text_lt_total k j,
)

pub erase-IsOrdered : (k : Text) (s : DataSet) → IsOrdered s → IsOrdered (erase k s)
unfolding erase
erase-IsOrdered k nil h = tt
erase-IsOrdered k (entry j w q s) h = ground (arith, erase-IsOrdered k s h.1, Above-erase j k s h.0)

pub merge-IsOrdered : (old new : DataSet) → IsOrdered old → IsOrdered (merge old new)
unfolding merge
merge-IsOrdered old nil h = h
merge-IsOrdered old (entry k v true s) h = merge-IsOrdered (erase k old) s (erase-IsOrdered k old h)
merge-IsOrdered old (entry k v false s) h =
    merge-IsOrdered (insert k v false (erase k old)) s
      (insert-IsOrdered k v false (erase k old) (erase-IsOrdered k old h))
