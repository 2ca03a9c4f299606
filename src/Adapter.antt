-- ===== src/Adapter.antt =====
-- The texts of an adapter's lines (src/adapter.cpp): keys, blanks and escaped values.
pub mod Escapes
pub mod Commands
pub mod Process
use cppagent.Base.{
  ℕ, zero, suc, Bool, true, false, not, ◌&&◌, ◌||◌, Option, none, some, [], ◌∷◌, ◌++◌, Text, codes,
  is_empty, length, split_first, text_eq, ◌==◌, if◌then◌else◌,
}
use cppagent.Stream.{Stream, getline, getline_ok}

-- `splitKey`: the device and the key, where there is a colon.
unfoldable pub split_key : Text → Option (Text × Text)
split_key key = split_first (λ c. c == b':') key

abbrev pub is_blank : ℕ → Bool
is_blank c = c == 32 || (c == 13 || c == 9)

-- `erase(0, find_first_not_of(" \r\t"))`: nothing is erased where all is blank.
unfoldable pub trim_start : Text → Option Text
trim_start [] = none
trim_start (c ∷ s) = let rest = trim_start s in if is_blank c then rest else some (c ∷ s)

-- `erase(find_last_not_of(" \r\t") + 1)`
unfoldable pub trim_end : Text → Option Text
trim_end [] = none
trim_end (c ∷ s) = elim (trim_end s) [
  | some t ↦ some (c ∷ t)
  | none ↦ if is_blank c then none else some (c ∷ [])
]

-- What is kept where nothing was found.
unfoldable pub found_or : Option Text → Text → Text
found_or none s = s
found_or (some t) s = t

-- `trim`
unfoldable pub trim : Text → Text
unfolding trim_start trim_end found_or
trim str = let from = found_or (trim_start str) str in found_or (trim_end from) from

-- `is_true`
unfoldable pub is_true : Text → Bool
is_true v = text_eq v (codes "yes") || (text_eq v (codes "true") || text_eq v (codes "1"))

-- `back() == c`, and `false` for an empty text.
unfoldable pub ends_with : ℕ → Text → Bool
ends_with c [] = false
ends_with c (d ∷ s) = let rest = ends_with c s in if is_empty s then d == c else rest

-- All but the last character.
unfoldable pub front_part : Text → Text
front_part [] = []
front_part (c ∷ s) = let rest = front_part s in if is_empty s then [] else c ∷ rest

-- The loop of `getEscapedLine`: what the stored text has become, the stream, and whether the last
-- read failed. Each round takes one character of the stream at least.
unfoldable pub read_escaped : ℕ → Text → Stream → Text × Stream × Bool
unfolding getline getline_ok ends_with front_part
read_escaped zero store s = (store, s, true)
read_escaped (suc fuel) store s =
    let (content, s') = getline b'|' s [] in
    let more = read_escaped fuel (store ++ (front_part content ++ (b'|' ∷ []))) s' in
    if is_empty content
    then (store, s', not (getline_ok s))
    else if not (ends_with b'\\' content)
    then (store ++ content, s', false)
    else more

-- What is left to read.
unfoldable pub left_of : Stream → Text
left_of none = []
left_of (some s) = s

-- `getEscapedLine` behind the first read. A faulty text goes back to its first bar, in the text and in
-- the stream, unless the stream has failed.
unfoldable pub finish_escaped : Text → Stream → Text × Stream × Bool → Text × Stream
unfolding ends_with front_part
finish_escaped token s (store, s', failed) =
    if ends_with b'"' store
    then (elim (front_part store) [ [] ↦ [] | c ∷ t ↦ t ], s')
    else (token, if failed then none else s)

-- `getEscapedLine`: the value, and the stream behind it.
unfoldable pub get_escaped_line : Stream → Text × Stream
unfolding getline ends_with front_part read_escaped left_of finish_escaped
get_escaped_line stream =
    let (token, s) = getline b'|' stream [] in
    if elim token [ [] ↦ false | c ∷ t ↦ c == b'"' ] && ends_with b'\\' token
    then finish_escaped token s
        (read_escaped (suc (length (left_of s))) (front_part token ++ (b'|' ∷ [])) s)
    else (token, s)
