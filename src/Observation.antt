-- ===== src/Observation.antt =====
-- An observation (src/observation.hpp, src/observation.cpp): what one report of a data item holds,
-- and the attributes that are read from its text on demand.
pub mod Values
pub mod Build
use cppagent.Base.{
  ℕ, Bool, true, false, ◌||◌, Option, none, some, List, [], ◌∷◌, ◌++◌, Text, codes, text_eq, map,
  to_lower, is_empty, if◌then◌else◌,
}
use cppagent.Stream.{Stream, getline, int64_to_string}
use cppagent.DataSet.{DataSet, size}
use cppagent.DataItem.{DataItem, is_condition, is_time_series, is_data_set}

-- `ELevel`
pub data Level : Type 0 where
  normal warning fault unavailable : Level

-- The members of `Observation`. The level, the code and the attributes, which the source keeps once
-- they are read, are functions of `rest` here; `m_prev` is the tail of a `Chain`. A float of the time
-- series is its bit pattern.
pub record Observation : Type 0 where
  pub item : DataItem
  pub sequence : ℕ
  pub time : Text
  pub duration : Text
  pub rest : Text
  pub value : Text
  pub time_series : List ℕ
  pub reset_triggered : Text
  pub values : DataSet

-- An observation and those that `m_prev` leads to, newest first.
abbrev pub Chain : Type 0
Chain = List Observation

abbrev pub same_level : Level → Level → Bool
same_level normal normal = true
same_level warning warning = true
same_level fault fault = true
same_level unavailable unavailable = true
same_level _ _ = false

-- `!strcasecmp(token, word)` for a word in lower case.
abbrev pub is_word : Text → Text → Bool
is_word word token = text_eq (map to_lower token) word

-- `isUnavailable`
unfoldable pub is_unavailable : Observation → Bool
is_unavailable o = text_eq o.value (codes "UNAVAILABLE")

abbrev level_of : Text → Level
level_of token =
    if is_word (codes "normal") token
    then normal
    else if is_word (codes "warning") token
    then warning
    else if is_word (codes "fault") token
    then fault
    else unavailable

-- `getLevel`, as `getAttributes` reads it from LEVEL|NATIVE_CODE|NATIVE_SEVERITY|QUALIFIER.
unfoldable pub get_level : Observation → Level
unfolding getline
get_level o = if is_condition o.item then level_of (getline b'|' (some o.rest) []).0 else normal

-- The second field of the text of a condition, empty if it is not there.
abbrev second : Text → Text
second rest = elim (getline b'|' (some rest) []).1 [
  | none ↦ []
  | some s ↦ (getline b'|' (some s) []).0
]

-- `getCode`
unfoldable pub get_code : Observation → Text
unfolding getline
get_code o = if is_condition o.item then second o.rest else []

-- `normal`
unfoldable pub to_normal : Observation → Observation
to_normal o = if is_condition o.item then record o { rest = codes "normal|||" } else o

-- An attribute: its name, its value and whether it is printed though empty.
abbrev pub Attribute : Type 0
Attribute = Text × Text × Bool

abbrev plain : Text → Text → List Attribute
plain k v = (k, v, false) ∷ []

abbrev unless_empty : Text → Text → List Attribute
unless_empty k [] = []
unless_empty k (c ∷ v) = plain k (c ∷ v)

-- A field that is read only where the stream has not met its end.
field : Text → Stream → List Attribute × Stream
unfolding getline
field k none = ([], none)
field k (some s) = let (token, rest) = getline b'|' (some s) [] in (unless_empty k token, rest)

condition_attributes : DataItem → Text → List Attribute
unfolding field
condition_attributes d rest =
    let (level, a) = getline b'|' (some rest) [] in
    let (code, b) = field (codes "nativeCode") a in
    let (severity, c) = field (codes "nativeSeverity") b in
    let (qualifier, e) = field (codes "qualifier") c in
    code ++ (severity ++ (qualifier ++ plain (codes "type") d.type))

time_series_attributes : Text → List Attribute
unfolding getline
time_series_attributes rest =
    let (token, a) = getline b'|' (some rest) [] in
    let token' = if is_empty token then codes "0" else token in
    let (rate, b) = getline b'|' a token' in
    plain (codes "sampleCount") token' ++ unless_empty (codes "sampleRate") rate

alarm_attributes : Text → List Attribute
unfolding getline
alarm_attributes rest =
    let (code, a) = getline b'|' (some rest) [] in
    let (native, b) = getline b'|' a code in
    let (severity, c) = getline b'|' b native in
    let (state, e) = getline b'|' c severity in
    plain (codes "code") code
    ++ (plain (codes "nativeCode") native
        ++ (plain (codes "severity") severity ++ plain (codes "state") state))

-- `getAttributes`
unfoldable pub get_attributes : Observation → List Attribute
unfolding condition_attributes time_series_attributes alarm_attributes
get_attributes o =
    plain (codes "dataItemId") item.id
    ++ (plain (codes "timestamp") o.time
        ++ (unless_empty (codes "name") item.name
            ++ (unless_empty (codes "compositionId") item.composition_id
                ++ (plain (codes "sequence") (int64_to_string o.sequence)
                    ++ (unless_empty (codes "subType") item.sub_type
                        ++ (unless_empty (codes "statistic") item.statistic
                            ++ (unless_empty (codes "duration") o.duration
                                ++ (unless_empty (codes "resetTriggered") o.reset_triggered
                                    ++ special))))))))
  where
    open o use {item}

    special : List Attribute
    special =
        if is_condition item
        then condition_attributes item o.rest
        else if is_time_series item
        then time_series_attributes o.rest
        else if item.is_message
        then unless_empty (codes "nativeCode") o.rest
        else if item.is_alarm
        then alarm_attributes o.rest
        else if is_data_set item
        then plain (codes "count") (int64_to_string (size o.values))
        else if item.is_asset_changed || item.is_asset_removed
        then (codes "assetType", o.rest, true) ∷ []
        else []

-- `find`: the first observation of a chain with a code, as the chain that starts there.
unfoldable pub find_code : Text → Chain → Option Chain
find_code code [] = none
find_code code (o ∷ c) = if text_eq (get_code o) code then some (o ∷ c) else find_code code c

-- `deepCopyAndRemove` of what `find` returns: the chain without the first observation with the code.
unfoldable pub remove_code : Text → Chain → Chain
remove_code code [] = []
remove_code code (o ∷ c) = if text_eq (get_code o) code then c else o ∷ remove_code code c

-- `getFirst`: the oldest observation of a chain.
unfoldable pub get_first : Observation → Chain → Observation
get_first o [] = o
get_first o (p ∷ c) = get_first p c

-- `getList`: a chain from its oldest observation on.
unfoldable pub get_list : Chain → List Observation
get_list [] = []
get_list (o ∷ c) = get_list c ++ (o ∷ [])
