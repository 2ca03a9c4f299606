-- ===== src/DataItem.antt =====
-- The description of a data item (src/data_item.hpp, src/data_item.cpp): what is fixed when the
-- device file is read.
pub mod Build
pub mod Order
pub mod Conversion
use cppagent.Base.{Bool, true, false, not, ◌||◌, List, [], ◌∷◌, Text, is_empty}

-- `ECategory`
pub data Category : Type 0 where
  sample event condition : Category

-- `ERepresentation`
pub data Representation : Type 0 where
  value time_series discrete data_set table : Representation

-- The members of `DataItem` that do not change once the agent runs.
pub record DataItem : Type 0 where
  pub id : Text
  pub name : Text
  pub type : Text
  pub sub_type : Text
  pub category : Category
  pub representation : Representation
  pub statistic : Text
  pub composition_id : Text
  pub native_units : Text
  pub units : Text
  pub source : Text
  pub is_discrete : Bool
  pub is_alarm : Bool
  pub is_message : Bool
  pub is_asset_changed : Bool
  pub is_asset_removed : Bool
  pub reset_trigger : Text
  pub initial_value : Text
  pub values : List Text
  pub has_constraints : Bool
  pub has_minimum_delta : Bool
  pub has_minimum_period : Bool

abbrev same_category : Category → Category → Bool
same_category sample sample = true
same_category event event = true
same_category condition condition = true
same_category _ _ = false

abbrev same_representation : Representation → Representation → Bool
same_representation value value = true
same_representation time_series time_series = true
same_representation discrete discrete = true
same_representation data_set data_set = true
same_representation table table = true
same_representation _ _ = false

-- `isCondition`
unfoldable pub is_condition : DataItem → Bool
is_condition d = same_category d.category condition

-- `isTimeSeries`
unfoldable pub is_time_series : DataItem → Bool
is_time_series d = same_representation d.representation time_series

-- `isTable`
unfoldable pub is_table : DataItem → Bool
is_table d = same_representation d.representation table

-- `isDataSet`
unfoldable pub is_data_set : DataItem → Bool
unfolding is_table
is_data_set d = same_representation d.representation data_set || is_table d

-- `allowDups`
unfoldable pub allow_dups : DataItem → Bool
allow_dups d = d.is_discrete || same_representation d.representation discrete

-- `hasResetTrigger`
unfoldable pub has_reset_trigger : DataItem → Bool
has_reset_trigger d = not (is_empty d.reset_trigger)

-- `hasInitialValue`
unfoldable pub has_initial_value : DataItem → Bool
has_initial_value d = not (is_empty d.initial_value)

-- `hasConstantValue`: exactly one constrained value.
unfoldable pub has_constant_value : DataItem → Bool
has_constant_value d = elim d.values [ [] ↦ false | v ∷ rest ↦ is_empty rest ]
