-- ===== src/Http.antt =====
-- The HTTP requests (src/agent.cpp): `httpRequest` up to the handler that it chooses,
-- `printerForAccepts`, `handlePut` and `handleFile`.
pub mod Guards
pub mod Paths
use cppagent.Base.{
  ℕ, zero, suc, ◌<◌, Bool, true, false, not, ◌&&◌, ◌||◌, Option, none, some, List, [], ◌∷◌, ◌++◌,
  Text, Map, TextSet, member, codes, lookup, insert, is_empty, length, text_eq, split_first,
  split_last, ltb, leb, ◌==◌, if◌then◌else◌, is_some, map,
}
use cppagent.Stream.{Stream, getline, getline_ok}
use cppagent.DataItem.{DataItem}
use cppagent.Params.{query}
use cppagent.Calls.{Devices, DeviceInfo, find_device}

-- `IncomingThings`, as far as the agent reads it.
pub record Request : Type 0 where
  pub request_type : Text
  pub path : Text
  pub foreign_ip : Text
  pub accept : Option Text
  pub queries : Map Text
  pub body : Text

-- The members of `Agent` that the routing reads.
pub record Server : Type 0 where
  pub put_enabled : Bool
  pub put_allowed_hosts : TextSet
  pub printers : List Text
  pub file_map : Map Text

-- The handler of a request, with its arguments, or an error.
pub data Route : Type 0 where
  refuse : Text → Text → Route
  file : Text → Route
  get_assets : Text → Route
  put_asset : Text → Text → Route
  get : Text → Text → Text → Route
  put : Text → Text → Route

abbrev pub is_slash : ℕ → Bool
is_slash c = c == b'/'

-- `endsWith`
unfoldable pub ends_with : Text → Text → Bool
ends_with [] ending = is_empty ending
ends_with (c ∷ s) ending =
    let rest = ends_with s ending in if text_eq (c ∷ s) ending then true else rest

-- The loop of `printerForAccepts` over the printers.
unfoldable pub first_printer : Text → List Text → Option Text
unfolding ends_with
first_printer accept [] = none
first_printer accept (p ∷ ps) =
    let rest = first_printer accept ps in if ends_with accept p then some p else rest

-- The loop over the types that a client accepts. A round takes a character at least.
unfoldable pub printer_for_tokens : ℕ → Stream → Text → List Text → Option Text
unfolding getline getline_ok first_printer
printer_for_tokens zero s accept ps = none
printer_for_tokens (suc fuel) s accept ps =
    let (token, s') = getline b',' s accept in
    let rest = printer_for_tokens fuel s' token ps in
    if getline_ok s then elim (first_printer token ps) [ none ↦ rest | some p ↦ some p ] else none

-- `printerForAccepts`
unfoldable pub printer_for_accepts : Text → List Text → Option Text
unfolding printer_for_tokens
printer_for_accepts accepts ps = printer_for_tokens (suc (length accepts)) (some accepts) [] ps

-- The printer of a request: XML where nothing matches.
unfoldable pub printer_of : Request → Server → Text
unfolding printer_for_accepts
printer_of r s =
    let found : Option Text = elim r.accept [
      | none ↦ none
      | some accepts ↦ printer_for_accepts accepts s.printers
    ] in
    elim found [ none ↦ codes "xml" | some p ↦ p ]

-- The methods and the hosts that may not make a request.
unfoldable pub guard : Request → Server → Option Route
guard r s =
    let is_get = text_eq r.request_type (codes "GET") in
    if s.put_enabled && not is_get
    then (if not (text_eq r.request_type (codes "PUT"))
          && (not (text_eq r.request_type (codes "POST"))
              && not (text_eq r.request_type (codes "DELETE")))
        then some (
            refuse (codes "UNSUPPORTED")
              (codes "Only the HTTP GET, PUT, POST, and DELETE requests are supported"))
        else if not (is_empty s.put_allowed_hosts) && not (member r.foreign_ip s.put_allowed_hosts)
        then some (
            refuse (codes "UNSUPPORTED")
              (codes "HTTP PUT, POST, and DELETE are not allowed from " ++ r.foreign_ip))
        else none)
    else if not is_get
    then some (refuse (codes "UNSUPPORTED") (codes "Only the HTTP GET request is supported"))
    else none

-- The path in front of the last question mark.
unfoldable pub path_of : Text → Text
path_of path = elim (split_last (λ c. c == b'?') path) [ none ↦ path | some (before, _) ↦ before ]

-- The device and the call of a path behind its first character, or none if it is too long: `loc1` and
-- `loc2` are the first two slashes there, and one at the end does not count.
unfoldable pub device_and_call : Text → Option (Text × Text)
device_and_call rest = elim (split_first is_slash rest) [
  | none ↦ some ([], rest)
  | some (first, more) ↦
      if is_empty more then some ([], first) else elim (split_first is_slash more) [
        | none ↦ some (first, more)
        | some (call, tail) ↦ if is_empty tail then some (first, call) else none
      ]
]

-- The first part of a path, and what stands behind its slash.
unfoldable pub first_part : Text → Text × Text
first_part rest = elim (split_first is_slash rest) [ none ↦ (rest, []) | some p ↦ p ]

route_path : Request → Text → Text → Route
unfolding device_and_call first_part
route_path r path rest =
    let (first, list) = first_part rest in
    let is_get = text_eq r.request_type (codes "GET") in
    if text_eq first (codes "assets") || text_eq first (codes "asset")
    then (if is_get then get_assets list else put_asset r.request_type list)
    else elim (device_and_call rest) [
      | none ↦ refuse (codes "UNSUPPORTED") (codes "The following path is invalid: " ++ path)
      | some (device, call) ↦ if is_get then get path call device else put call device
    ]

-- `httpRequest` up to the call of the handler. An empty path throws, and its answer is empty: `none`.
unfoldable pub route : Request → Server → Option Route
unfolding guard path_of route_path
route r s = elim (guard r s) [
  | some refused ↦ some refused
  | none ↦
      let path = path_of r.path in
      if is_some (lookup path s.file_map)
      then some (file path)
      else elim path [ [] ↦ none | c ∷ rest ↦ some (route_path r (c ∷ rest) rest) ]
]

-- What `handlePut` does: a command for an adapter of the device, or a value for the buffer.
pub data PutAction : Type 0 where
  send_command : Text → Text → PutAction
  set_value : DataItem → Text → Text → PutAction

-- The commands of the queries for an adapter.
unfoldable pub command_each : Text → Map Text → List PutAction
command_each adapter [] = []
command_each adapter ((key, value) ∷ queries) =
    send_command adapter (key ++ (b'=' ∷ value)) ∷ command_each adapter queries

command_all : List Text → Map Text → List PutAction
unfolding command_each
command_all [] queries = []
command_all (adapter ∷ adapters) queries =
    command_each adapter queries ++ command_all adapters queries

-- The values of the queries, without the time.
unfoldable pub value_each : (Text → Option DataItem) → Text → Map Text → List PutAction
value_each get_item time [] = []
value_each get_item time ((key, value) ∷ queries) =
    let rest = value_each get_item time queries in
    if not (text_eq key (codes "time"))
    then elim (get_item key) [ none ↦ rest | some d ↦ set_value d value time ∷ rest ]
    else rest

-- What `handlePut` answers: an error, or success with what it did.
pub data PutAnswer : Type 0 where
  put_error : Text → PutAnswer
  put_success : List PutAction → PutAnswer

-- The part for a device; `adapters` are the names of its adapters.
put_device :
    (DeviceInfo → List Text)
    → (DeviceInfo → Text → Option DataItem)
    → Text
    → DeviceInfo
    → Map Text
    → PutAnswer
unfolding command_all value_each
put_device adapters get_item now d queries =
    if text_eq (query queries (codes "_type")) (codes "command")
    then put_success (command_all (adapters d) queries)
    else let given = query queries (codes "time") in
      put_success (value_each (get_item d) (if is_empty given then now else given) queries)

-- `handlePut`
unfoldable pub handle_put :
    Devices
    → (DeviceInfo → List Text)
    → (DeviceInfo → Text → Option DataItem)
    → Text
    → Map Text
    → Text
    → Text
    → PutAnswer
unfolding find_device put_device
handle_put ds adapters get_item now queries adapter device_name =
    if is_empty device_name && is_empty adapter
    then put_error (codes "Device must be specified for PUT")
    else let device = if is_empty device_name then adapter else device_name in
      elim (find_device ds device) [
        | none ↦ put_error (codes "Cannot find device: " ++ device)
        | some d ↦ put_device adapters get_item now d queries
      ]

-- What `handleFile` answers: a content type and the bytes, or that there is no such file.
pub data FileAnswer : Type 0 where
  file_found : Text → Text → FileAnswer
  file_not_found : FileAnswer

-- The content type of a path: that of its extension, behind the last dot or slash.
unfoldable pub content_type : Map Text → Text → Text
content_type mime_types uri =
    let unknown = codes "application/octet-stream" in
    elim (split_last (λ c. c == b'.' || c == b'/') uri) [
      | none ↦ unknown
      | some (before, ext) ↦
          if text_eq uri (before ++ (b'.' ∷ ext))
          then elim (lookup ext mime_types) [ none ↦ unknown | some t ↦ t ]
          else unknown
    ]

-- The file with a path on the disk that is read for a request; a small one is kept in the cache.
load_file : (Text → Option Text) → ℕ → Text → Map Text → Text → Map Text → FileAnswer × Map Text
load_file read_file small uri file_map type cache = elim (lookup uri file_map) [
  | none ↦ (file_not_found, cache)
  | some path ↦ elim (read_file path) [
    | none ↦ (file_not_found, cache)
    | some bytes ↦
        (file_found type bytes, if leb (length bytes) small then insert uri bytes cache else cache)
  ]
]

-- `handleFile`, with the cache; `read_file` is the disk, `none` where stat, open or read fail.
unfoldable pub handle_file :
    (Text → Option Text) → ℕ → Map Text → Map Text → Text → Map Text → FileAnswer × Map Text
unfolding content_type load_file
handle_file read_file small mime_types file_map uri cache = elim (lookup uri cache) [
  | some bytes ↦ (file_found (content_type mime_types uri) bytes, cache)
  | none ↦ load_file read_file small uri file_map (content_type mime_types uri) cache
]
