-- ===== src/Device.antt =====
-- The data items of a device (src/device.cpp, src/device.hpp): `addDeviceDataItem`, `addDataItem` and
-- `getDeviceDataItem`. The maps hold the data items, which do not change their names once they are
-- there.
pub mod Finds
use cppagent.Base.{
  Bool, true, false, not, Option, none, some, List, [], ◌∷◌, Text, Map, codes, lookup, insert,
  is_empty, is_some, text_eq, if◌then◌else◌,
}
use cppagent.DataItem.{DataItem}

-- The members of `Device` that hold data items.
pub record Items : Type 0 where
  pub by_source : Map DataItem
  pub by_name : Map DataItem
  pub by_id : Map DataItem
  pub availability : Option DataItem
  pub asset_changed : Option DataItem
  pub asset_removed : Option DataItem

-- `map[k] = d` for a key that is not empty.
unfoldable pub put_key : Text → DataItem → Map DataItem → Map DataItem
put_key k d m = if not (is_empty k) then insert k d m else m

-- `addDeviceDataItem`
unfoldable pub add_device_data_item : DataItem → Items → Items
unfolding put_key
add_device_data_item d s = record s {
  by_source = put_key d.source d s.by_source;
  by_name = put_key d.name d s.by_name;
  by_id = if is_some (lookup d.id s.by_id) then s.by_id else insert d.id d s.by_id;
}

-- `addDataItem`, as far as it concerns the device.
unfoldable pub add_data_item : DataItem → Items → Items
add_data_item d s =
    if text_eq d.type (codes "AVAILABILITY")
    then record s { availability = some d }
    else if text_eq d.type (codes "ASSET_CHANGED")
    then record s { asset_changed = some d }
    else if text_eq d.type (codes "ASSET_REMOVED")
    then record s { asset_removed = some d }
    else s

-- `getDeviceDataItem`
unfoldable pub get_device_data_item : Items → Text → Option DataItem
get_device_data_item s name = elim (lookup name s.by_source) [
  | some d ↦ some d
  | none ↦ elim (lookup name s.by_name) [ some d ↦ some d | none ↦ lookup name s.by_id ]
]
