-- ===== src/Adapter/Process.antt =====
-- The lines of an adapter (src/adapter.hpp, src/adapter.cpp): `processData`, `processDataItem` and
-- `processAsset`. What they call of the agent is a list of calls, in order. `none` is a use of a
-- device that is null.
pub mod Gather
use cppagent.Base.{
  ℕ, zero, suc, Bool, true, false, not, ◌&&◌, ◌||◌, Option, none, some, List, [], ◌∷◌, ◌++◌, Text,
  Map, TextSet, codes, is_empty, length, text_eq, lookup, insert, member, split_first, has_char,
  contains_text, to_upper, map, ◌==◌, if◌then◌else◌,
}
use cppagent.Stream.{Stream, getline, getline_ok, get_rest}
use cppagent.DataItem.{
  DataItem, Representation, is_condition, is_time_series, is_data_set, allow_dups,
  has_reset_trigger, has_constant_value,
}
use cppagent.Calls.{DeviceInfo}
use cppagent.Adapter.{split_key, trim, get_escaped_line, left_of}

-- What the lines use of the rest of the program: the devices and their data items, the time of a
-- line and the filter of a data item, which depend on the clock, on floating point numbers and on a
-- state of their own.
pub record Surroundings : Type 1 where
  pub Hidden : Type 0
  pub Offset : Type 0
  pub get_device : Text → Option DeviceInfo
  pub get_item : DeviceInfo → Text → Option DataItem
  pub extract_time : Text → Hidden → Text × Offset × Hidden
  pub is_filtered : DataItem → Text → Offset → Hidden → Bool × Hidden

-- The members of `Adapter` that the lines use, and the last value of each data item.
pub record Adapter (Hidden : Type 0) : Type 0 where
  pub hidden : Hidden
  pub device_name : Text
  pub device : Option DeviceInfo
  pub dup_check : Bool
  pub upcase_value : Bool
  pub log_once : TextSet
  pub last_values : Map Text
  pub gathering_asset : Bool
  pub terminator : Text
  pub body : Text
  pub time : Text
  pub asset_type : Text
  pub asset_id : Text
  pub asset_device : Option DeviceInfo

-- The calls of the agent.
pub data Call : Type 0 where
  adds_to_buffer : DataItem → Text → Text → Call
  adds_asset : Option DeviceInfo → Text → Text → Text → Text → Call
  updates_asset : Option DeviceInfo → Text → List (Text × Text) → Text → Call
  removes_asset : Option DeviceInfo → Text → Text → Call
  removes_all_assets : Option DeviceInfo → Text → Text → Call

-- `DataItem::isDuplicate`, with the last value as it is left behind.
item_is_duplicate : {H : Type 0} → DataItem → Text → Adapter H → Bool × Adapter H
item_is_duplicate d value a =
    if not (elim d.representation [ Representation.value ↦ true | _ ↦ false ]) || d.is_discrete
    then (false, a)
    else if text_eq value (elim (lookup d.id a.last_values) [ none ↦ [] | some v ↦ v ])
    then (true, a)
    else (false, record a { last_values = insert d.id value a.last_values })

-- `m_logOnce.insert(key)`, if it is not there.
abbrev log_key : Text → TextSet → TextSet
log_key key logged = if member key logged then logged else key ∷ logged

-- The id of an asset: one that begins with an @ stands behind the device's uuid.
asset_id_of : Option DeviceInfo → Text → Option Text
asset_id_of device [] = some []
asset_id_of device (c ∷ id) =
    if c == b'@' then elim device [ none ↦ none | some d ↦ some (d.uuid ++ id) ] else some (c ∷ id)

-- The device of a key, and the key without its name.
abbrev key_device : (Text → Option DeviceInfo) → Option DeviceInfo → Text → Option DeviceInfo × Text
key_device get_device own key = elim (split_key key) [
  | none ↦ (own, key)
  | some (dev, rest) ↦ (get_device dev, rest)
]

module _ (env : Surroundings) where
  open env use {Hidden, Offset, get_device, get_item, extract_time, is_filtered}

  -- `Adapter::isDuplicate`
  unfoldable pub is_duplicate : DataItem → Text → Offset → Adapter Hidden → Bool × Adapter Hidden
  unfolding item_is_duplicate
  is_duplicate d value offset a =
      if not (allow_dups d)
      then (if d.has_minimum_delta || d.has_minimum_period
          then (let (b, h) = is_filtered d value offset a.hidden in (b, record a { hidden = h }))
          else if a.dup_check
          then item_is_duplicate d value a
          else (false, a))
      else (false, a)

  -- The value that is compared: in front of a reset trigger.
  checked_value : DataItem → Text → Text
  checked_value d value =
      if has_reset_trigger d
      then elim (split_first (λ c. c == b':') value) [ none ↦ value | some (before, _) ↦ before ]
      else value

  -- The end of `processDataItem`, for a value.
  report_value : DataItem → Text → Text → Offset → Adapter Hidden → Adapter Hidden × List Call
  unfolding is_duplicate checked_value
  report_value d value time offset a =
      let v = trim value in
      let (duplicate, a') = is_duplicate d (checked_value d v) offset a in
      (a', if not duplicate then adds_to_buffer d v time ∷ [] else [])

  -- The value takes the rest of the line.
  takes_rest : DataItem → Bool → Bool
  takes_rest d first =
      first && (is_condition d || (d.is_alarm || (d.is_message || is_time_series d)))

  -- `processDataItem`: whether there may be more, the stream, the adapter and the calls.
  unfoldable pub process_data_item :
      Stream
      → Text
      → Text
      → Text
      → Offset
      → Bool
      → Adapter Hidden
      → Bool × Stream × Adapter Hidden × List Call
  unfolding report_value takes_rest
  process_data_item s key value time offset first a =
      let (device, name) = key_device get_device a.device key in
      elim device [
        | none ↦ (true, s, a, [])
        | some dev ↦ elim (get_item dev name) [
          | none ↦ (true, s, record a { log_once = log_key name a.log_once }, [])
          | some d ↦
              if has_constant_value d
              then (true, s, record a { log_once = log_key name a.log_once }, [])
              else if takes_rest d first
              then (let (rest, s') = get_rest s [] in
                  let full = if not (is_empty rest) then value ++ (b'|' ∷ rest) else value in
                  let (a', calls) = report_value d full time offset a in (false, s', a', calls))
              else (let given =
                    if a.upcase_value && not (is_data_set d) then map to_upper value else value in
                  let (a', calls) = report_value d given time offset a in (true, s, a', calls))
        ]
      ]

  -- The loop of `processData` over the pairs behind the first. Each round reads a key at least.
  unfoldable pub process_pairs :
      ℕ → Stream → Text → Offset → Adapter Hidden → Adapter Hidden × List Call
  unfolding process_data_item
  process_pairs zero s time offset a = (a, [])
  process_pairs (suc fuel) s time offset a =
      let (key, s1) = getline b'|' s [] in
      let (value, s2) = get_escaped_line s1 in
      let (_, s3, a', calls) = process_data_item s2 key value time offset false a in
      let (a'', more) = process_pairs fuel s3 time offset a' in
      if getline_ok s then (a'', calls ++ more) else (a, [])

  -- The loop of `@UPDATE_ASSET@` over texts, and the one over keys and values.
  update_texts : ℕ → Text → Stream → List (Text × Text)
  update_texts zero text s = []
  update_texts (suc fuel) text s =
      let (text', s') = getline b'|' s text in
      let more = update_texts fuel text' s' in
      (codes "xml", text) ∷ (if getline_ok s then more else [])

  update_pairs : ℕ → Text → Stream → List (Text × Text)
  update_pairs zero key s = []
  update_pairs (suc fuel) key s =
      let (value, s1) = getline b'|' s [] in
      let (key', s2) = getline b'|' s1 key in
      let more = update_pairs fuel key' s2 in
      if getline_ok s then (key, value) ∷ (if getline_ok s1 then more else []) else []

  -- `processAsset` for an asset id: the document follows, or begins.
  process_new_asset :
      Option DeviceInfo → Text → Stream → Text → Adapter Hidden → Adapter Hidden × List Call
  process_new_asset device id s time a =
      let (type, s1) = getline b'|' s [] in
      let (rest, _) = get_rest s1 [] in
      if contains_text (codes "--multiline--") rest
      then (
        record a {
          asset_device = device;
          gathering_asset = true;
          terminator = rest;
          time = time;
          asset_type = type;
          asset_id = id;
          body = [];
        },
        [],
      )
      else (a, adds_asset device id rest type time ∷ [])

  process_update :
      Option DeviceInfo → Text → Stream → Text → Adapter Hidden → Adapter Hidden × List Call
  unfolding update_texts update_pairs
  process_update device id s time a =
      let (key, s1) = getline b'|' s [] in
      let fuel = suc (length (left_of s1)) in
      let changes =
        if elim key [ [] ↦ false | c ∷ _ ↦ c == b'<' ]
        then update_texts fuel key s1
        else update_pairs fuel key s1 in
      (a, updates_asset device id changes time ∷ [])

  process_asset_key :
      Option DeviceInfo
      → Text
      → Text
      → Text
      → Stream
      → Text
      → Adapter Hidden
      → Adapter Hidden × List Call
  unfolding process_new_asset process_update
  process_asset_key device key value id s time a =
      if text_eq key (codes "@ASSET@")
      then process_new_asset device id s time a
      else if text_eq key (codes "@UPDATE_ASSET@")
      then process_update device id s time a
      else if text_eq key (codes "@REMOVE_ASSET@")
      then (a, removes_asset device id time ∷ [])
      else if text_eq key (codes "@REMOVE_ALL_ASSETS@")
      then (a, removes_all_assets device value time ∷ [])
      else (a, [])

  -- `processAsset`
  unfoldable pub process_asset :
      Stream → Text → Text → Text → Adapter Hidden → Option (Adapter Hidden × List Call)
  unfolding process_asset_key asset_id_of
  process_asset s key value time a =
      let (device, name) = key_device get_device a.device key in
      elim (asset_id_of device value) [
        | none ↦ none
        | some id ↦ some (process_asset_key device name value id s time a)
      ]

  -- A line while an asset is gathered.
  gather : Text → Adapter Hidden → Adapter Hidden × List Call
  gather line a =
      if text_eq line a.terminator
      then (
        record a { gathering_asset = false },
        adds_asset a.asset_device a.asset_id a.body a.asset_type a.time ∷ [],
      )
      else (record a { body = a.body ++ (line ++ (10 ∷ [])) }, [])

  -- The pairs of a line, the first of which may take the rest of the line.
  process_values : Stream → Text → Text → Offset → Adapter Hidden → Adapter Hidden × List Call
  unfolding process_data_item process_pairs
  process_values s key time offset a =
      let (value, s1) = get_escaped_line s in
      let (more, s2, a', calls) = process_data_item s1 key value time offset true a in
      let (a'', later) = process_pairs (suc (length (left_of s2))) s2 time offset a' in
      if more then (a'', calls ++ later) else (a', calls)

  -- `processData`
  unfoldable pub process_data : Text → Adapter Hidden → Option (Adapter Hidden × List Call)
  unfolding gather process_asset process_values
  process_data line a =
      if a.gathering_asset
      then some (gather line a)
      else (let (stamp, s1) = getline b'|' (some line) [] in
          let (time, offset, h) = extract_time stamp a.hidden in
          let (key, s2) = getline b'|' s1 stamp in
          let (value, s3) = getline b'|' s2 [] in
          if has_char b'@' key
          then process_asset s3 key (trim value) time (record a { hidden = h })
          else some (process_values s2 key time offset (record a { hidden = h })))
