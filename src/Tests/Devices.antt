-- ===== src/Tests/Devices.antt =====
-- Devices, commands of adapters and XML texts at concrete inputs.
use cppagent.Base.{◌≡◌, true, false, some, List, [], ◌∷◌, Text, codes, lookup, arith}
use cppagent.DataItem.{DataItem}
use cppagent.Device.{get_device_data_item}
use cppagent.Device.Finds.{add_all, no_items, found, get_device_data_item-add_all}
use cppagent.Adapter.Commands.{DeviceState, Commanded, protocol_command, find_position}
use cppagent.Adapter.Commands.Frames.{IsLinked, IsLocal, protocol_command-IsLocal}
use cppagent.Globals.{replace_illegal_characters}
use cppagent.Globals.Escapes.{Reads, replace_illegal_characters-Reads}
use cppagent.Tests.Data.{event_item}
use cppagent.Tests.Values.{whole, undetermined}

-- A data item whose name is the id of another.
abbrev two_items : List DataItem
two_items = event_item (codes "x") ∷ (record (event_item (codes "y")) { name = codes "x" } ∷ [])

get_device_data_item-add_all_example :
    get_device_data_item (add_all two_items no_items) (codes "x") ≡ found two_items (codes "x")
get_device_data_item-add_all_example = get_device_data_item-add_all two_items (codes "x")

abbrev lathe : DeviceState
lathe = record {
  uuid = codes "u1";
  native_name = [];
  description_body = [];
  description = [];
  preserve_uuid = false;
  items = no_items;
  conversions = λ id. undetermined;
}

abbrev shop : Commanded
shop = record {
  devices = lathe ∷ (record lathe { uuid = codes "u2" } ∷ []);
  uuid_map = (codes "u1", 0) ∷ [];
  name_map = (codes "lathe", 1) ∷ [];
  device = some 0;
  device_name = codes "mill";
  conversion_required = true;
  relative_time = false;
  real_time = false;
  written = [];
}

shop-IsLinked : IsLinked shop
unfolding find_position lookup
shop-IsLinked = record { own = λ i h. ground (arith, h); found = λ id i h. ground (arith, h) }

abbrev probe : Text → Text
probe name = codes "<MTConnectDevices/>"

protocol_command-IsLocal_example :
    IsLocal shop (protocol_command whole probe (codes "* device: lathe ") shop)
protocol_command-IsLocal_example =
    protocol_command-IsLocal whole probe (codes "* device: lathe ") shop shop-IsLinked

replace_illegal_characters-Reads_example :
    Reads (replace_illegal_characters (codes "a<b && c>d")) (codes "a<b && c>d")
replace_illegal_characters-Reads_example = replace_illegal_characters-Reads (codes "a<b && c>d")
