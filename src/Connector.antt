-- ===== src/Connector.antt =====
-- The connection to an adapter (src/connector.hpp, src/connector.cpp): the lines of what is read,
-- heartbeats and the loop of `connect`. Times are in milliseconds; each read of the clock is an
-- argument, and the clock does not run backwards.
mod Lines
pub mod Chunks
use cppagent.Base.{
  ℕ, zero, suc, ◌+◌, ◌-◌, ◌*◌, Bool, true, false, not, ◌&&◌, ◌||◌, Option, none, some, List, [],
  ◌∷◌, ◌++◌, Text, codes, is_empty, length, split_last, strip_prefix, is_digit, get_elem?, ltb, leb,
  ◌==◌, is_some, if◌then◌else◌, text_eq, is_digit, map,
}
use cppagent.Stream.{digits_value}

-- The members of `Connector` that the loop changes.
pub record Connector : Type 0 where
  pub buffer : Text
  pub connected : Bool
  pub heartbeats : Bool
  pub heartbeat_frequency : ℕ
  pub legacy_timeout : ℕ
  pub last_heartbeat : ℕ
  pub last_sent : ℕ

-- What a line is handed to: `protocolCommand` or `processData`.
pub data Action : Type 0 where
  command : Text → Action
  data_line : Text → Action

abbrev pub is_newline : ℕ → Bool
is_newline c = c == 10

-- Whether the digit is there that `find_first_of` looks for, and the text from it on.
unfoldable pub from_digit : Text → Option Text
from_digit [] = none
from_digit (c ∷ s) = let rest = from_digit s in if is_digit c then some (c ∷ s) else rest

abbrev pub drop_chars : ℕ → Text → Text
drop_chars zero s = s
drop_chars (suc n) [] = []
drop_chars (suc n) (c ∷ s) = drop_chars n s

-- `startHeartbeats`: half an hour is too long.
unfoldable pub start_heartbeats : Text → Connector → Connector
unfolding from_digit
start_heartbeats arg c =
    if ltb 7 (length arg) && elim (get_elem? arg 6) [ none ↦ false | some b ↦ b == 32 ]
    then elim (from_digit (drop_chars 7 arg)) [
      | none ↦ c
      | some digits ↦
          let freq = digits_value 0 digits in
          if ltb 0 freq && ltb freq 1800000
          then record c { heartbeats = true; heartbeat_frequency = freq }
          else c
    ]
    else c

-- The body of the loop over the lines, for a line that is not empty.
unfoldable pub handle_line : ℕ → Text → Connector → Connector × List Action
unfolding start_heartbeats
handle_line now [] c = (c, [])
handle_line now (b ∷ line) c =
    if b == b'*'
    then (if is_some (strip_prefix (codes "* PONG") (b ∷ line))
        then (if not c.heartbeats
            then (start_heartbeats (b ∷ line) c, [])
            else (record c { last_heartbeat = now }, []))
        else (c, command (b ∷ line) ∷ []))
    else (c, data_line (b ∷ line) ∷ [])

-- The loop over the lines.
unfoldable pub handle_lines : ℕ → List Text → Connector → Connector × List Action
unfolding handle_line
handle_lines now [] c = (c, [])
handle_lines now (l ∷ ls) c =
    let (c', done) = handle_line now l c in
    let (c'', later) = handle_lines now ls c' in (c'', done ++ later)

-- The lines that `getline` takes from a stream until it meets the end.
unfoldable pub lines : Text → List Text
lines [] = [] ∷ []
lines (c ∷ s) =
    let rest = lines s in
    if is_newline c then [] ∷ rest else elim rest [ [] ↦ (c ∷ []) ∷ [] | l ∷ ls ↦ (c ∷ l) ∷ ls ]

-- `parseBuffer`: what follows the last newline stays in the buffer.
unfoldable pub parse_buffer : ℕ → Text → Connector → Connector × List Action
unfolding handle_lines lines
parse_buffer now chunk c =
    let text = c.buffer ++ chunk in
    elim (split_last is_newline text) [
      | none ↦ (record c { buffer = text }, [])
      | some (complete, overflow) ↦
          let (c', done) =
            handle_lines now (lines (if is_empty overflow then text else complete)) c in
          (record c' { buffer = overflow }, done)
    ]

-- `sendCommand`: what is written to the socket.
unfoldable pub send_command : Text → Connector → Option Text
send_command cmd c = if c.connected then some (codes "* " ++ (cmd ++ (10 ∷ []))) else none

-- What a read of the socket says: a number of characters, a timeout, or the end or an error.
pub data Status : Type 0 where
  received : Text → Status
  timed_out : Status
  failed : Status

-- The time that a read may take.
unfoldable pub read_timeout : ℕ → Connector → ℕ
read_timeout now c =
    if c.heartbeats
    then (if ltb c.heartbeat_frequency (now - c.last_sent)
        then 1
        else c.heartbeat_frequency - (now - c.last_sent))
    else c.legacy_timeout

-- The text of a C string: it ends before a null.
unfoldable pub until_null : Text → Text
until_null [] = []
until_null (c ∷ s) = let rest = until_null s in if c == 0 then [] else c ∷ rest

-- The part of the loop of `connect` that takes the result of the read; `none` leaves the loop.
unfoldable pub after_read : ℕ → ℕ → Status → Connector → Option (Connector × List Action)
unfolding parse_buffer read_timeout until_null
after_read now later (received text) c = some (parse_buffer later (until_null text) c)
after_read now later timed_out c =
    if not c.heartbeats && leb (read_timeout now c) (later - now) then none else some (c, [])
after_read now later failed c = none

-- The part that watches the heartbeats: whether a PING is written, or `none` to leave the loop.
-- `write_ok` is the result of that write.
unfoldable pub watch_heartbeats : ℕ → Bool → Connector → Option (Connector × Bool)
watch_heartbeats now write_ok c =
    if c.heartbeats
    then (if ltb (c.heartbeat_frequency * 2) (now - c.last_heartbeat)
        then none
        else if leb c.heartbeat_frequency (now - c.last_sent)
        then (if write_ok then some (record c { last_sent = now }, true) else none)
        else some (c, false))
    else some (c, false)

-- A round of the loop of `connect`: the clock at its start, behind the read, and at the heartbeats,
-- what was read, and whether a write succeeds.
unfoldable pub round :
    ℕ → ℕ → ℕ → Status → Bool → Connector → Option (Connector × List Action × Bool)
unfolding after_read watch_heartbeats
round now later last status write_ok c = elim (after_read now later status c) [
  | none ↦ none
  | some (c', done) ↦ elim (watch_heartbeats last write_ok c') [
    | none ↦ none
    | some (c'', ping) ↦ some (c'', done, ping)
  ]
]

-- `close`, with the call of `disconnected` if there was a connection.
unfoldable pub close : Connector → Connector × Bool
close c = if c.connected then (record c { connected = false }, true) else (c, false)
