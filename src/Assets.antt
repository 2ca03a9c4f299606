-- ===== src/Assets.antt =====
-- The assets of the agent (src/agent.cpp): `addAsset`, `removeAsset`, `removeAllAssets` and
-- `handleAssets`. An asset is shared by reference count: `objects` is the memory, and a pointer is a
-- position in it. `m_assets` lists pointers to nodes of `m_assetMap`, which are named by their keys.
-- `none` is a read through a pointer that is null or no longer valid.
pub mod IsStored
pub mod Adds
pub mod Requests
use cppagent.Base.{
  ℕ, ◌+◌, ◌-◌, Bool, true, false, not, ◌&&◌, ◌||◌, Option, none, some, List, [], ◌∷◌, ◌++◌, Text,
  Map, TextSet, codes, lookup, insert, erase, is_empty, length, get_elem?, set, text_eq, leb, ltb,
  ◌==◌, keep_if, if◌then◌else◌, ℤ, pos, negsuc, ltb_ℤ, is_some,
}
use cppagent.Params.{Checked, ok, err, ◌>>=◌, query, check_and_get_param, no_value32}

-- The members of `Asset`.
pub record Asset : Type 0 where
  pub asset_id : Text
  pub type : Text
  pub timestamp : Text
  pub device_uuid : Text
  pub removed : Bool
  pub keys : Map Text
  pub content : Text

-- The members of `Agent` that `m_assetLock` guards. A null pointer in the map is `none`.
pub record Assets : Type 0 where
  pub objects : List Asset
  pub assets : List Text
  pub asset_map : Map (Option ℕ)
  pub asset_counts : Map ℤ
  pub asset_indices : Map (Map ℕ)
  pub max_assets : ℕ

-- What goes to `addToBuffer`: the value and the time for the asset-changed or the asset-removed item.
pub data AssetEvent : Type 0 where
  asset_changed : Text → Text → AssetEvent
  asset_removed : Text → Text → AssetEvent

-- The result of an operation, the state, and the events, in order.
abbrev pub Outcome : Type 0
Outcome = Option (Bool × Assets × List AssetEvent)

-- `m_assetMap[id]`, which puts a null pointer where there is no entry.
unfoldable pub touch : Text → Assets → Assets
touch id s = elim (lookup id s.asset_map) [
  | none ↦ record s { asset_map = insert id none s.asset_map }
  | some p ↦ s
]

-- The pointer in that entry.
unfoldable pub pointer : Text → Assets → Option ℕ
pointer id s = elim (lookup id s.asset_map) [ none ↦ none | some p ↦ p ]

-- The asset behind it.
unfoldable pub deref : Text → Assets → Option Asset
unfolding pointer
deref id s = elim (pointer id s) [ none ↦ none | some p ↦ get_elem? s.objects p ]

add_int : ℤ → ℤ
add_int (pos n) = pos (n + 1)
add_int (negsuc n) = if n == 0 then pos 0 else negsuc (n - 1)

subtract_int : ℤ → ℤ
subtract_int (pos n) = if n == 0 then negsuc 0 else pos (n - 1)
subtract_int (negsuc n) = negsuc (n + 1)

-- `m_assetCounts[type]`, changed.
count_asset : (ℤ → ℤ) → Text → Map ℤ → Map ℤ
count_asset f type counts =
    insert type (f (elim (lookup type counts) [ none ↦ pos 0 | some n ↦ n ])) counts

index_of : Text → Map (Map ℕ) → Map ℕ
index_of key indices = elim (lookup key indices) [ none ↦ [] | some index ↦ index ]

-- The loops over the keys of an asset.
erase_keys : Map Text → Map (Map ℕ) → Map (Map ℕ)
unfolding index_of
erase_keys [] indices = indices
erase_keys ((k, v) ∷ keys) indices =
    erase_keys keys (insert k (erase v (index_of k indices)) indices)

add_keys : Map Text → ℕ → Map (Map ℕ) → Map (Map ℕ)
unfolding index_of
add_keys [] p indices = indices
add_keys ((k, v) ∷ keys) p indices =
    add_keys keys p (insert k (insert v p (index_of k indices)) indices)

-- `m_assets.remove(old)`
unfoldable pub remove_from : Text → List Text → List Text
remove_from id ids = keep_if (λ j. not (text_eq j id)) ids

-- `m_assets.pop_front()` and what goes with it.
drop_oldest : List Text → Assets → Option Assets
unfolding deref count_asset subtract_int erase_keys
drop_oldest [] s = none
drop_oldest (front ∷ rest) s = elim (deref front s) [
  | none ↦ none
  | some oldref ↦ some (record s {
    asset_counts = count_asset subtract_int oldref.type s.asset_counts;
    assets = rest;
    asset_map = erase oldref.asset_id s.asset_map;
    asset_indices = erase_keys oldref.keys s.asset_indices;
  })
]

-- The part of `addAsset` that makes room.
evict : Assets → Option Assets
unfolding drop_oldest
evict s = if leb s.max_assets (length s.assets) then drop_oldest s.assets s else some s

-- The part of `addAsset` that stores the new asset.
put : Asset → Text → Assets → Assets
unfolding add_keys
put a id s = record s {
  objects = s.objects ++ (a ∷ []);
  asset_map = insert id (some (length s.objects)) s.asset_map;
  assets = if not a.removed then s.assets ++ (id ∷ []) else s.assets;
  asset_indices = add_keys a.keys (length s.objects) s.asset_indices;
}

-- The event of `addAsset`.
added : Asset → Text → Text → Text → AssetEvent
added a type id time =
    if a.removed
    then asset_removed (type ++ (b'|' ∷ id)) time
    else asset_changed (type ++ (b'|' ∷ id)) time

add_object : Asset → Text → Text → Text → Assets → Outcome
unfolding evict put added
add_object a id type time s = elim (evict s) [
  | none ↦ none
  | some s' ↦ some (true, put a id s', added a type id time ∷ [])
]

-- `addAsset` from the entry of the id on.
add_parsed : Asset → Text → Text → Text → Assets → Outcome
unfolding pointer touch remove_from count_asset add_int add_object
add_parsed a id type time s =
    if not a.removed
    then (if is_some (pointer id s)
        then add_object a id type time (record s { assets = remove_from id s.assets })
        else add_object a id type time
            (record (touch id s) { asset_counts = count_asset add_int type s.asset_counts }))
    else if is_some (pointer id s)
    then add_object a id type time s
    else some (false, touch id s, [])

-- `inputTime`, or the current time.
abbrev pub time_of : Text → Text → Text
time_of now input_time = if is_empty input_time then now else input_time

-- `addAsset`; `parse_asset` is the XML parser, `none` where it throws or makes nothing.
unfoldable pub add_asset :
    (Text → Text → Text → Option Asset) → Text → Text → Text → Text → Text → Text → Assets → Outcome
unfolding add_parsed
add_asset parse_asset now device_uuid id asset type input_time s =
    if is_empty type || (is_empty asset || is_empty id)
    then some (false, s, [])
    else elim (parse_asset id type asset) [
      | none ↦ some (false, s, [])
      | some a ↦
          add_parsed
            (record a {
              asset_id = id;
              timestamp = time_of now input_time;
              device_uuid = device_uuid;
            })
            id type (time_of now input_time) s
    ]

-- `setRemoved(true)` and `setTimestamp` on the asset behind a pointer.
mark_removed : ℕ → Asset → Text → Assets → Assets
mark_removed p a time s = record s {
  objects = set s.objects p (record a { removed = true; timestamp = time });
}

-- `removeAsset`; `changed` is the value of the latest asset-changed event.
unfoldable pub remove_asset : Text → Option Text → Text → Text → Assets → Outcome
unfolding pointer touch mark_removed
remove_asset now changed id input_time s = elim (pointer id s) [
  | none ↦ some (false, touch id s, [])
  | some p ↦ elim (get_elem? s.objects p) [
    | none ↦ none
    | some a ↦
        let time = time_of now input_time in
        let gone = asset_removed (a.type ++ (b'|' ∷ id)) time in
        some (
          true,
          mark_removed p a time s,
          if elim changed [ none ↦ false | some v ↦ text_eq v id ]
              then asset_changed (a.type ++ codes "|UNAVAILABLE") time ∷ gone ∷ []
              else gone ∷ [],
        )
  ]
]

-- A round of the loop of `removeAllAssets`, for a node of the map.
remove_one : Text → Text → Text → Text → Assets → Option (Assets × List AssetEvent)
unfolding pointer mark_removed
remove_one changed_id type time id s = elim (pointer id s) [
  | none ↦ none
  | some p ↦ elim (get_elem? s.objects p) [
    | none ↦ none
    | some a ↦
        if text_eq type a.type && not a.removed
        then some (
          mark_removed p a time s,
          asset_removed (a.type ++ (b'|' ∷ a.asset_id)) time
              ∷ (if text_eq changed_id a.asset_id
                  then asset_changed (a.type ++ codes "|UNAVAILABLE") time ∷ []
                  else []),
        )
        else some (s, [])
  ]
]

-- The loop, from the newest asset on.
remove_each : Text → Text → Text → List Text → Assets → Option (Assets × List AssetEvent)
unfolding remove_one
remove_each changed_id type time [] s = some (s, [])
remove_each changed_id type time (id ∷ ids) s = elim (remove_one changed_id type time id s) [
  | none ↦ none
  | some (s', es) ↦ elim (remove_each changed_id type time ids s') [
    | none ↦ none
    | some (s'', es') ↦ some (s'', es ++ es')
  ]
]

abbrev pub backwards {ℓ} : {A : Type ℓ} → List A → List A
backwards [] = []
backwards (x ∷ xs) = backwards xs ++ (x ∷ [])

-- `removeAllAssets`
unfoldable pub remove_all_assets : Text → Option Text → Text → Text → Assets → Outcome
unfolding remove_each
remove_all_assets now changed type input_time s =
    elim (remove_each (elim changed [ none ↦ [] | some v ↦ v ]) type (time_of now input_time)
      (backwards s.assets) s) [ none ↦ none | some (s', es) ↦ some (true, s', es) ]
