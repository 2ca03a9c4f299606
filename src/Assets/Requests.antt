-- ===== src/Assets/Requests.antt =====
-- The requests for assets (src/agent.cpp): `handleAssets` and `storeAsset`. dlib's tokenizer, which
-- gets the characters of an identifier and cuts a path into tokens, is a parameter.
pub mod Newest
pub mod Lists
use cppagent.Base.{
  ℕ, ◌-◌, Bool, true, false, not, ◌&&◌, ◌||◌, Option, none, some, List, [], ◌∷◌, ◌++◌, Text, Map,
  codes, lookup, is_empty, length, text_eq, get_elem?, ◌==◌, if◌then◌else◌, ℤ, pos, negsuc,
  pos_part, is_some, is_digit, leb, has_char,
}
use cppagent.Params.{Checked, ok, err, query, check_and_get_param, no_value32}
use cppagent.Calls.{Devices, DeviceInfo, get_device_by_name}
use cppagent.Assets.{
  Asset, Assets, AssetEvent, Outcome, touch, pointer, deref, backwards, add_asset, remove_asset,
}

-- What a request for assets is answered with: the error for an asset that is not there, or the
-- capacity, the number of assets and the listed ones. `fault` is a read through a null pointer.
pub data Answer : Type 0 where
  not_found : Text → Answer
  listed : ℕ → ℕ → List Asset → Answer
  thrown : Text → Text → Answer
  fault : Answer

-- An asset in front of a list of them.
abbrev pub with_asset : Asset → Answer → Answer
with_asset a (not_found id) = not_found id
with_asset a (listed cap size found) = listed cap size (a ∷ found)
with_asset a (thrown code message) = thrown code message
with_asset a fault = fault

-- The loop over the ids; `m_assetMap[token]` puts a null pointer where there is no entry.
unfoldable pub find_assets : List Text → Assets → Answer × Assets
unfolding deref touch
find_assets [] s = (listed s.max_assets (length s.assets) [], s)
find_assets (token ∷ tokens) s =
    let (more, s') = find_assets tokens s in
    elim (deref token s) [
      | none ↦ (not_found token, touch token s)
      | some a ↦ (with_asset a more, s')
    ]

-- Whether an asset is asked for.
unfoldable pub is_wanted : Text → Bool → Asset → Bool
is_wanted type removed a = (is_empty type || text_eq type a.type) && (removed || not a.removed)

-- The loop from the newest asset on, which looks at `count` of them.
unfoldable pub newest_assets : Text → Bool → ℕ → List Text → Assets → Answer
unfolding deref is_wanted
newest_assets type removed count [] s = listed s.max_assets (length s.assets) []
newest_assets type removed count (id ∷ ids) s =
    let more = newest_assets type removed (count - 1) ids s in
    if count == 0 then listed s.max_assets (length s.assets) [] else elim (deref id s) [
      | none ↦ fault
      | some a ↦ if is_wanted type removed a then with_asset a more else more
    ]

-- The part of `handleAssets` without ids.
unfoldable pub list_assets : Map Text → Assets → Answer
unfolding newest_assets
list_assets queries s =
    elim (check_and_get_param queries (codes "count") (pos (length s.assets)) (pos 1) false
      no_value32 true) [
        | err code message ↦ thrown code message
        | ok count ↦
            newest_assets (query queries (codes "type"))
              (is_some (lookup (codes "removed") queries)
                && text_eq (query queries (codes "removed")) (codes "true"))
              (pos_part count) (backwards s.assets) s
      ]

-- dlib's tokenizer: from the characters that an identifier starts with and those that it goes on with, the
-- tokens of a text, each with whether it is an identifier.
abbrev pub Tokenizer : Type 0
Tokenizer = (ℕ → Bool) → (ℕ → Bool) → Text → List (Bool × Text)

-- The characters that `set_identifier_token` is given: letters, digits and some others.
unfoldable pub is_asset_char : ℕ → Bool
is_asset_char c =
    leb b'a' c && leb c b'z'
    || (leb b'A' c && leb c b'Z' || (is_digit c || has_char c (codes "_.@$%&^:+-_=")))

-- The tokens of the type IDENTIFIER; the loop passes over the others.
unfoldable pub identifiers : List (Bool × Text) → List Text
identifiers [] = []
identifiers ((is_identifier, token) ∷ tokens) =
    if is_identifier then token ∷ identifiers tokens else identifiers tokens

-- `handleAssets`
unfoldable pub handle_assets : Tokenizer → Map Text → Text → Assets → Answer × Assets
unfolding find_assets list_assets is_asset_char identifiers
handle_assets tokens queries ids s =
    if not (is_empty ids)
    then find_assets (identifiers (tokens is_asset_char is_asset_char ids)) s
    else (list_assets queries s, s)

-- What `storeAsset` returns: success, or the text of a failure.
pub data Stored : Type 0 where
  success : Stored
  failure : Text → Stored

-- A failure that names the id.
abbrev failed : Text → Text → Stored
failed what id = failure (what ++ (id ++ codes ")"))

-- What an operation on the assets is answered with.
reply : Text → Text → Outcome → Option (Stored × Assets × List AssetEvent)
reply what id none = none
reply what id (some (true, s, es)) = some (success, s, es)
reply what id (some (false, s, es)) = some (failed what id, s, es)

-- `storeAsset` with the device that it has chosen, and the events of the asset; `now` is the current
-- time and `changed` the value of the latest asset-changed event.
unfoldable pub store_with :
    (Text → Text → Text → Option Asset)
    → Text
    → Option Text
    → DeviceInfo
    → Map Text
    → Text
    → Text
    → Text
    → Assets
    → Option (Stored × Assets × List AssetEvent)
unfolding reply
store_with parse_asset now changed d queries cmd id body s =
    if text_eq cmd (codes "PUT") || text_eq cmd (codes "POST")
    then reply (codes "Cannot add asset (") id
        (add_asset parse_asset now d.uuid id body (query queries (codes "type")) [] s)
    else if text_eq cmd (codes "DELETE")
    then reply (codes "Cannot remove asset (") id (remove_asset now changed id [] s)
    else some (failure (codes "Bad Command:" ++ cmd), s, [])

-- The device of a request: the one that is named, or the first one.
unfoldable pub device_of : Devices → Map Text → Option DeviceInfo
unfolding get_device_by_name
device_of ds queries =
    let name = query queries (codes "device") in
    let by_name : Option DeviceInfo =
      if not (is_empty name) then get_device_by_name ds name else none in
    elim by_name [ some d ↦ some d | none ↦ get_elem? ds.devices 0 ]

-- `storeAsset`. `none` is a use of the first device where there is none.
unfoldable pub store_asset :
    (Text → Text → Text → Option Asset)
    → Text
    → Option Text
    → Devices
    → Map Text
    → Text
    → Text
    → Text
    → Assets
    → Option (Stored × Assets × List AssetEvent)
unfolding device_of store_with
store_asset parse_asset now changed ds queries cmd id body s = elim (device_of ds queries) [
  | none ↦ none
  | some d ↦ store_with parse_asset now changed d queries cmd id body s
]
