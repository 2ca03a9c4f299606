-- ===== src/Calls.antt =====
-- The requests (src/agent.cpp): `handleCall`, `handleStream`, `handleProbe` and what they use. The
-- resolution of a path by the XML parser is a parameter.
pub mod Paths
pub mod Answers
use cppagent.Base.{
  ℕ, zero, suc, ◌+◌, ◌-◌, Bool, true, false, not, ◌&&◌, ◌||◌, Option, none, some, List, [], ◌∷◌,
  ◌++◌, Text, Map, TextSet, codes, lookup, is_empty, length, text_eq, ltb, ◌==◌, if◌then◌else◌, ℤ,
  pos, negsuc, eq_ℤ, ltb_ℤ, ◌⊎◌, inl, inr, is_some,
}
use cppagent.Stream.{Stream, getline, getline_ok}
use cppagent.Params.{
  Checked, ok, err, ◌>>=◌, query, signed, check_and_get_param, check_and_get_param64,
}
use cppagent.SlidingBuffer.{SlidingBuffer}
use cppagent.Sequencer.{Sequencer, get_first_sequence}
use cppagent.Fetch.{Sample, no_start, fetch_current_data, fetch_sample_data}

-- The names of a device.
pub record DeviceInfo : Type 0 where
  pub name : Text
  pub uuid : Text

-- The devices of `Agent`, by name and by uuid.
pub record Devices : Type 0 where
  pub devices : List DeviceInfo
  pub device_name_map : Map DeviceInfo
  pub device_uuid_map : Map DeviceInfo

-- What a request is answered with: an error document, a probe of devices, a stream of observations,
-- or a stream at an interval that goes on.
pub data Response : Type 0 where
  error : Text → Text → Response
  probe : List DeviceInfo → Response
  streams : Sample → Response
  stream_data : TextSet → Bool → ℤ → ℕ → ℤ → ℤ → Response

-- `NO_FREQ`
abbrev pub no_freq : ℤ
no_freq = negsuc 1

-- `SLOWEST_FREQ`
abbrev pub slowest_freq : ℤ
slowest_freq = pos 2147483646

-- `getDeviceByName`
unfoldable pub get_device_by_name : Devices → Text → Option DeviceInfo
get_device_by_name ds name = lookup name ds.device_name_map

-- `findDeviceByUUIDorName`
unfoldable pub find_device : Devices → Text → Option DeviceInfo
find_device ds id_or_name = elim (lookup id_or_name ds.device_uuid_map) [
  | none ↦ lookup id_or_name ds.device_name_map
  | some d ↦ some d
]

-- `handleProbe`
unfoldable pub handle_probe : Devices → Text → Response
unfolding find_device
handle_probe ds name = if is_empty name then probe ds.devices else elim (find_device ds name) [
  | none ↦ error (codes "NO_DEVICE") (codes "Could not find the device '" ++ (name ++ codes "'"))
  | some d ↦ probe (d ∷ [])
]

-- The loop of `devicesAndPath`: each token of the path, between the prefix and a bar.
unfoldable pub prefix_tokens : ℕ → Text → Stream → Text
unfolding getline getline_ok
prefix_tokens zero prefix s = []
prefix_tokens (suc fuel) prefix s =
    let (token, rest) = getline b'|' s [] in
    let more = prefix_tokens fuel prefix rest in
    if getline_ok s then prefix ++ (token ++ (b'|' ∷ more)) else []

-- `erase(length() - 1)`
unfoldable pub drop_last : Text → Text
drop_last [] = []
drop_last (c ∷ s) = if is_empty s then [] else c ∷ drop_last s

abbrev pub device_prefix : Text → Text
device_prefix device =
    codes "//Devices/Device[@name=\""
    ++ (device ++ (codes "\"or@uuid=\"" ++ (device ++ codes "\"]")))

-- `devicesAndPath`. A path of n characters has no more than n tokens.
unfoldable pub devices_and_path : Text → Text → Text
unfolding prefix_tokens drop_last
devices_and_path path device =
    if not (is_empty device)
    then (if not (is_empty path)
        then drop_last (prefix_tokens (length path) (device_prefix device) (some path))
        else device_prefix device)
    else if not (is_empty path)
    then path
    else codes "//Devices/Device"

-- What a read of the buffers is printed as.
unfoldable pub print_sample : Option Sample → Option Response
print_sample none = none
print_sample (some s) = some (streams s)

module _ (lib : SlidingBuffer) (get_data_items : Text → TextSet ⊎ Text) where
  -- The branch of `handleStream` without an interval.
  unfoldable pub fetch_data : Sequencer lib.Buffer → TextSet → Bool → ℕ → ℤ → Option Response
  unfolding print_sample
  fetch_data a filter true start count = print_sample (fetch_current_data lib a filter start)
  fetch_data a filter false start count = elim (fetch_sample_data lib a filter start count) [
    | none ↦ none
    | some (s, _, _) ↦ some (streams s)
  ]

  -- `handleStream`
  unfoldable pub handle_stream :
      Sequencer lib.Buffer → Text → Bool → ℤ → ℕ → ℤ → ℤ → Option Response
  unfolding fetch_data
  handle_stream a path current frequency start count heartbeat = elim (get_data_items path) [
    | inr what ↦ some (error (codes "INVALID_XPATH") what)
    | inl filter ↦
        if is_empty filter
        then some (
            error (codes "INVALID_XPATH")
              (codes "The path could not be parsed. Invalid syntax: " ++ path))
        else if not (eq_ℤ frequency no_freq)
        then some (stream_data filter current frequency start count heartbeat)
        else fetch_data a filter current start count
  ]

  -- `catch (ParameterError &)`
  unfoldable pub catch_error : Checked (Option Response) → Option Response
  catch_error (ok r) = r
  catch_error (err code message) = some (error code message)

  -- A parameter with a second name, which is read when the first gives no value.
  unfoldable pub get_freq : Map Text → Text → Text → Checked ℤ
  get_freq queries first second =
      check_and_get_param queries first no_freq (pos 0) false slowest_freq true >>= λ freq.
      if eq_ℤ freq no_freq
      then check_and_get_param queries second no_freq (pos 0) false slowest_freq true
      else ok freq

  -- The branch of `handleCall` for `current`, once the parameters are read.
  current_with : Sequencer lib.Buffer → Map Text → Text → ℤ → ℕ → ℤ → Checked (Option Response)
  unfolding handle_stream devices_and_path
  current_with a queries device freq at heartbeat =
      if not (eq_ℤ freq no_freq) && not (at == no_start)
      then ok (
          some (
            error (codes "INVALID_REQUEST") (
              codes "You cannot specify both the at and frequency arguments to a current request")))
      else ok (
          handle_stream a (devices_and_path (query queries (codes "path")) device) true freq at
            (pos 0) heartbeat)

  current_at : Sequencer lib.Buffer → Map Text → Text → ℤ → ℕ → Checked (Option Response)
  unfolding current_with
  current_at a queries device freq at =
      check_and_get_param queries (codes "heartbeat") (pos 10000) (pos 10) true (pos 600000) true
      >>= current_with a queries device freq at

  current_freq : Sequencer lib.Buffer → Map Text → Text → ℤ → Checked (Option Response)
  unfolding current_at
  current_freq a queries device freq =
      check_and_get_param64 queries (codes "at") no_start (get_first_sequence a) true
        (a.sequence - 1)
      >>= current_at a queries device freq

  -- The branch of `handleCall` for `current`: the frequency, `at` and the heartbeat, in this order.
  unfoldable pub call_current : Sequencer lib.Buffer → Map Text → Text → Checked (Option Response)
  unfolding get_freq current_freq
  call_current a queries device =
      get_freq queries (codes "frequency") (codes "interval") >>= current_freq a queries device

  -- The start of a sample: `from`, or `start` where `from` gives no value.
  unfoldable pub get_start : Sequencer lib.Buffer → Map Text → Checked ℕ
  get_start a queries =
      check_and_get_param64 queries (codes "from") no_start (get_first_sequence a) true a.sequence
      >>= λ start.
          if start == no_start
          then check_and_get_param64 queries (codes "start") no_start (get_first_sequence a) true
              a.sequence
          else ok start

  -- The branch of `handleCall` for `sample`, once the parameters are read.
  sample_with : Sequencer lib.Buffer → Map Text → Text → ℤ → ℤ → ℕ → ℤ → Checked (Option Response)
  unfolding handle_stream devices_and_path
  sample_with a queries device count freq start heartbeat = ok (
      handle_stream a (devices_and_path (query queries (codes "path")) device) false freq start
        count heartbeat)

  sample_from : Sequencer lib.Buffer → Map Text → Text → ℤ → ℤ → ℕ → Checked (Option Response)
  unfolding sample_with
  sample_from a queries device count freq start =
      check_and_get_param queries (codes "heartbeat") (pos 10000) (pos 10) true (pos 600000) true
      >>= sample_with a queries device count freq start

  sample_freq : Sequencer lib.Buffer → Map Text → Text → ℤ → ℤ → Checked (Option Response)
  unfolding get_start sample_from
  sample_freq a queries device count freq =
      if ltb_ℤ count (pos 0) && not (eq_ℤ freq no_freq)
      then err (codes "OUT_OF_RANGE") (codes "'count' must not be used with an 'interval'.")
      else get_start a queries >>= sample_from a queries device count freq

  sample_count : Sequencer lib.Buffer → Map Text → Text → ℤ → Checked (Option Response)
  unfolding get_freq sample_freq
  sample_count a queries device count =
      if eq_ℤ count (pos 0)
      then err (codes "OUT_OF_RANGE") (codes "'count' must not be 0.")
      else get_freq queries (codes "interval") (codes "frequency")
        >>= sample_freq a queries device count

  -- The branch of `handleCall` for `sample`: the count, the frequency, the start and the heartbeat.
  unfoldable pub call_sample : Sequencer lib.Buffer → Map Text → Text → Checked (Option Response)
  unfolding sample_count
  call_sample a queries device =
      check_and_get_param queries (codes "count") (pos 100) (signed true a.buffer_size) true
        (pos a.buffer_size) false
      >>= sample_count a queries device

  -- `handleCall`: `none` is a read through a null pointer.
  unfoldable pub handle_call :
      Sequencer lib.Buffer → Devices → Text → Map Text → Text → Text → Option Response
  unfolding catch_error call_current call_sample handle_probe find_device
  handle_call a ds path queries call device =
      if text_eq call (codes "current")
      then catch_error (call_current a queries device)
      else if text_eq call (codes "probe") || is_empty call
      then some (handle_probe ds device)
      else if text_eq call (codes "sample")
      then catch_error (call_sample a queries device)
      else if is_some (find_device ds call) && is_empty device
      then some (handle_probe ds call)
      else some (error (codes "UNSUPPORTED") (codes "The following path is invalid: " ++ path))
