-- ===== src/Tests/Chains.antt =====
-- Conditions and data sets in a checkpoint.
use cppagent.Base.{◌≡◌, refl, true, false, some, [], ◌∷◌, codes, inr}
use cppagent.Stream.{getline}
use cppagent.DataSet.{DataSet, DataSetValue, nil, entry, find, merge, difference}
use cppagent.DataSet.Laws.{IsOrdered, merge-IsOrdered}
use cppagent.DataSet.Merge.{merged, find-merge, SameEntry, merge-difference}
use cppagent.DataItem.{is_condition}
use cppagent.Observation.{Observation, get_level, get_code}
use cppagent.Checkpoint.{empty, add_observation, update, new_copy}
use cppagent.Checkpoint.Laws.{new_copy-add_observation}
use cppagent.Checkpoint.Condition.{IsConditionChain, active_at, entered, active_at-update}
use cppagent.Checkpoint.Condition.Keeps.{IsConditionList, update-IsConditionList}
use cppagent.Tests.Data.{condition_item, report, evs}

abbrev fault_a : Observation
fault_a = report condition_item 1 (codes "fault|A||")

abbrev fault_b : Observation
fault_b = report condition_item 2 (codes "fault|B||")

abbrev normal_a : Observation
normal_a = report condition_item 3 (codes "normal|A||")

two_faults : IsConditionChain fault_b (fault_a ∷ [])
unfolding get_code get_level is_condition getline
two_faults = record { codes_differ = ((refl, tt), (tt, tt)); active = inr (refl, (refl, tt)) }

active_at-update_example :
    active_at (codes "A") (update normal_a (some (fault_b ∷ fault_a ∷ [])))
    ≡ entered normal_a (codes "A") (active_at (codes "A") (fault_b ∷ fault_a ∷ []))
unfolding is_condition
active_at-update_example =
    active_at-update (codes "A") normal_a fault_b (fault_a ∷ []) refl two_faults

update-IsConditionList_example : IsConditionList (update normal_a (some (fault_b ∷ fault_a ∷ [])))
unfolding is_condition
update-IsConditionList_example =
    update-IsConditionList normal_a fault_b (fault_a ∷ []) refl two_faults

-- a=1 b=2
abbrev old_set : DataSet
old_set =
    entry (codes "a") (DataSetValue.text (codes "1")) false
      (entry (codes "b") (DataSetValue.text (codes "2")) false nil)

-- a b=2 c=3, which removes a
abbrev new_set : DataSet
new_set = entry (codes "a") (DataSetValue.text []) true (
    entry (codes "b") (DataSetValue.text (codes "2")) false
      (entry (codes "c") (DataSetValue.text (codes "3")) false nil))

find-merge_example :
    find (codes "a") (merge old_set new_set)
    ≡ merged (find (codes "a") new_set) (find (codes "a") old_set)
find-merge_example =
    find-merge (codes "a") old_set new_set ((refl, tt), (tt, tt))
      ((refl, (refl, tt)), ((refl, tt), (tt, tt)))

merge-difference_example :
    SameEntry
      (find (codes "b") (merge old_set (difference old_set new_set)))
      (find (codes "b") (merge old_set new_set))
merge-difference_example =
    merge-difference (codes "b") old_set new_set ((refl, tt), (tt, tt))
      ((refl, (refl, tt)), ((refl, tt), (tt, tt))) (refl, (refl, tt))

merge-IsOrdered_example : IsOrdered (merge old_set new_set)
merge-IsOrdered_example = merge-IsOrdered old_set new_set ((refl, tt), (tt, tt))

new_copy-add_observation_example :
    new_copy (add_observation (evs 2) empty) (some (codes "d1" ∷ []))
    ≡ add_observation (evs 2) (new_copy empty (some (codes "d1" ∷ [])))
new_copy-add_observation_example = new_copy-add_observation (codes "d1" ∷ []) (evs 2) empty refl tt
