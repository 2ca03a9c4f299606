-- ===== src/Adapter/Commands.antt =====
-- The commands of an adapter (src/adapter.cpp): `protocolCommand` and `parseCalibration`. The devices
-- are a memory and the adapter's device is a position in it, or null.
pub mod Frames
use cppagent.Base.{
  ℕ, zero, suc, Bool, true, false, not, ◌&&◌, Option, none, some, List, [], ◌∷◌, ◌++◌, Text, Map,
  codes, lookup, insert, length, text_eq, split_first, get_elem?, set, ◌==◌, if◌then◌else◌,
}
use cppagent.Stream.{Stream, getline, getline_ok, int64_to_string}
use cppagent.Adapter.{trim, is_true}
use cppagent.Device.{Items, get_device_data_item}
use cppagent.DataItem.Conversion.{Numbers, Conversion, set_conversion_factor}

-- The members of `Device` that a command changes or reads. `conversions` leads from the id of
-- a data item to its conversion.
pub record DeviceState : Type 0 where
  pub uuid : Text
  pub native_name : Text
  pub description_body : Text
  pub description : Map Text
  pub preserve_uuid : Bool
  pub items : Items
  pub conversions : Text → Conversion

-- The adapter and the agent's devices, as far as a command concerns them; `written` is what was sent
-- back.
pub record Commanded : Type 0 where
  pub devices : List DeviceState
  pub uuid_map : Map ℕ
  pub name_map : Map ℕ
  pub device : Option ℕ
  pub device_name : Text
  pub conversion_required : Bool
  pub relative_time : Bool
  pub real_time : Bool
  pub written : List Text

-- What a command does: it returns, it throws `invalid_argument`, or it reads through a null pointer.
pub data Outcome : Type 0 where
  returned : Commanded → Outcome
  invalid_argument : Text → Outcome
  fault : Outcome

-- What `m_device` points to.
abbrev pub own_device : Commanded → Option (ℕ × DeviceState)
own_device a = elim a.device [
  | none ↦ none
  | some i ↦ elim (get_elem? a.devices i) [ none ↦ none | some d ↦ some (i, d) ]
]

-- What a command does with the adapter's device.
abbrev pub use_device :
    (DeviceState → Option DeviceState) → Commanded → Option (ℕ × DeviceState) → Outcome
use_device f a none = fault
use_device f a (some (i, d)) = elim (f d) [
  | none ↦ returned a
  | some d' ↦ returned (record a { devices = set a.devices i d' })
]

-- The adapter's device, changed.
unfoldable pub on_device : (DeviceState → Option DeviceState) → Commanded → Outcome
on_device f a = use_device f a (own_device a)

-- `findDeviceByUUIDorName`, as a position.
unfoldable pub find_position : Commanded → Text → Option ℕ
find_position a id = elim (lookup id a.uuid_map) [ some i ↦ some i | none ↦ lookup id a.name_map ]

-- `setConversionFactor` of the data item with a name.
unfoldable pub calibrate : Numbers → Text → Text → Text → DeviceState → DeviceState
unfolding get_device_data_item set_conversion_factor
calibrate N name factor offset d = elim (get_device_data_item d.items name) [
  | none ↦ d
  | some item ↦ record d {
    conversions = λ id.
        if text_eq item.id id
        then set_conversion_factor N (N.atof factor) (N.atof offset) (d.conversions id)
        else d.conversions id;
  }
]

-- The loop of `parseCalibration` over the triples. A round takes a character at least.
unfoldable pub calibrate_each : Numbers → ℕ → Stream → DeviceState → DeviceState
unfolding getline getline_ok calibrate
calibrate_each N zero s d = d
calibrate_each N (suc fuel) s d =
    let (name, s1) = getline b'|' s [] in
    let (factor, s2) = getline b'|' s1 [] in
    let (offset, s3) = getline b'|' s2 [] in
    let rest = calibrate_each N fuel s3 (calibrate N name factor offset d) in
    if getline_ok s && (getline_ok s1 && getline_ok s2) then rest else d

-- `parseCalibration`
unfoldable pub parse_calibration : Numbers → Text → DeviceState → DeviceState
unfolding calibrate_each
parse_calibration N line d = calibrate_each N (suc (length line)) (some line) d

-- Whether `parseCalibration` reads a triple, and so uses the device.
unfoldable pub has_triple : Text → Bool
unfolding getline getline_ok
has_triple line =
    let (name, s1) = getline b'|' (some line) [] in
    let (factor, s2) = getline b'|' s1 [] in
    getline_ok (some line) && (getline_ok s1 && getline_ok s2)

-- The command to change the device.
change_device : Text → Commanded → Outcome
unfolding find_position
change_device value a = elim (find_position a value) [
  | some i ↦ returned (record a { device = some i; device_name = value })
  | none ↦ invalid_argument (codes "Cannot find device for device name or uuid: " ++ value)
]

-- `setUuid`, unless the uuid is preserved.
abbrev pub set_uuid : Text → DeviceState → Option DeviceState
set_uuid value d = if not d.preserve_uuid then some (record d { uuid = value }) else none

-- `setManufacturer`, `setStation` and `setSerialNumber`
abbrev pub describe : Text → Text → DeviceState → Option DeviceState
describe key value d = some (record d { description = insert key value d.description })

-- `setDescription`
abbrev pub set_description : Text → DeviceState → Option DeviceState
set_description value d = some (record d { description_body = value })

-- `setNativeName`
abbrev pub set_native_name : Text → DeviceState → Option DeviceState
set_native_name value d = some (record d { native_name = value })

abbrev pub calibrated : Numbers → Text → DeviceState → Option DeviceState
calibrated N value d = some (parse_calibration N value d)

-- A chain of `else if`.
abbrev pub first_case : List (Bool × Outcome) → Outcome → Outcome
first_case [] y = y
first_case ((b, x) ∷ cases) y = let rest = first_case cases y in if b then x else rest

-- The keys of the commands, with what each one does.
pub commands : Numbers → Text → Text → Commanded → List (Bool × Outcome)
unfolding on_device parse_calibration has_triple change_device
commands N key value a =
    (text_eq key (codes "uuid"), on_device (set_uuid value) a)
    ∷ (text_eq key (codes "manufacturer"), on_device (describe key value) a)
    ∷ (text_eq key (codes "station"), on_device (describe key value) a)
    ∷ (text_eq key (codes "serialNumber"), on_device (describe key value) a)
    ∷ (text_eq key (codes "description"), on_device (set_description value) a)
    ∷ (text_eq key (codes "nativeName"), on_device (set_native_name value) a)
    ∷ (
      text_eq key (codes "calibration"),
      if has_triple value then on_device (calibrated N value) a else returned a,
    )
    ∷ (
      text_eq key (codes "conversionRequired"),
      returned (record a { conversion_required = is_true value }),
    )
    ∷ (text_eq key (codes "relativeTime"), returned (record a { relative_time = is_true value }))
    ∷ (text_eq key (codes "realTime"), returned (record a { real_time = is_true value }))
    ∷ (text_eq key (codes "device"), change_device value a)
    ∷ []

-- A command with a key and a value; an unknown key is logged.
unfoldable pub run_command : Numbers → Text → Text → Commanded → Outcome
unfolding commands
run_command N key value a = first_case (commands N key value a) (returned a)

-- The answer to a probe: its length, and the document.
unfoldable pub probe_text : Text → Text
probe_text response =
    codes "* PROBE LENGTH=" ++ (int64_to_string (length response) ++ (10 ∷ (response ++ (10 ∷ []))))

abbrev behind_two : Text → Text
behind_two (c ∷ (d ∷ s)) = s
behind_two _ = []

-- `protocolCommand`; `probe` is the document that `handleProbe` prints for a device name.
unfoldable pub protocol_command : Numbers → (Text → Text) → Text → Commanded → Outcome
unfolding run_command probe_text
protocol_command N probe line a =
    if text_eq line (codes "* PROBE")
    then returned (record a { written = a.written ++ (probe_text (probe a.device_name) ∷ []) })
    else elim (split_first (λ c. c == b':') (behind_two line)) [
      | none ↦ returned a
      | some (key, value) ↦ run_command N (trim key) (trim value) a
    ]
