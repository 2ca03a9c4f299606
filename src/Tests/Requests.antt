-- ===== src/Tests/Requests.antt =====
-- Requests, assets and lines of an adapter at concrete inputs.
use cppagent.Base.{
  List, ℕ, ◌≡◌, refl, true, false, Option, none, some, [], ◌∷◌, ◌++◌, Text, Map, TextSet, codes,
  ◌⊎◌, inl, arith, lookup, text_eq_iff, ◌↔◌, pos,
}
use cppagent.Params.{ok, check_and_get_param64}
use cppagent.Params.Bounds.{check_and_get_param64_iff, Accepts}
use cppagent.Sequencer.{start, store}
use cppagent.Sequencer.Tracks.Run.{store_all}
use cppagent.Calls.Paths.{prefix_each, devices_and_path-prefix_each}
use cppagent.Calls.{devices_and_path, device_prefix, Devices, handle_call}
use cppagent.Calls.Answers.{handle_call-IsAnswered, IsAnswered}
use cppagent.Assets.{Asset, Assets, add_asset}
use cppagent.Assets.IsStored.{IsStored, AreDistinct}
use cppagent.Assets.Adds.{add_asset-IsAdded, IsAdded}
use cppagent.Connector.{Connector, parse_buffer}
use cppagent.Connector.Chunks.{parse_two_lem, parse_two}
use cppagent.Adapter.{get_escaped_line}
use cppagent.Adapter.Escapes.{escape_bars, get_escaped_line-escape_bars}
use cppagent.ChangeObserver.{Signals, not_signaled}
use cppagent.ChangeObserver.Wakes.{KnowsLeast, sequence_of, signal_each, signal_each-KnowsLeast}
use cppagent.Tests.Data.{evs}
use cppagent.Tests.Buffers.{lib, agent, agent-Tracks}

abbrev queries : Map Text
queries = (codes "at", codes "5") ∷ []

check_and_get_param64_iff_example :
    (check_and_get_param64 queries (codes "at") 99 1 true 7 ≡ ok 5) ↔ (
      ((lookup (codes "at") queries ≡ none) × (◌≡◌ {A = ℕ} 5 99))
      ⊎ ((text : Text) × (lookup (codes "at") queries ≡ some text) × Accepts text 1 7 5))
check_and_get_param64_iff_example =
    check_and_get_param64_iff queries (codes "at") 99 1 7 5 (λ e. omega arith) (λ e. omega arith)

-- Every path selects the item `d1`.
abbrev resolve : Text → TextSet ⊎ Text
resolve path = inl (codes "d1" ∷ [])

abbrev no_devices : Devices
no_devices = record { devices = []; device_name_map = []; device_uuid_map = [] }

handle_call-IsAnswered_example :
    IsAnswered (handle_call lib resolve agent no_devices [] queries (codes "current") [])
unfolding start store_all store
handle_call-IsAnswered_example =
    handle_call-IsAnswered lib evs agent resolve no_devices [] queries (codes "current") []
      agent-Tracks (omega arith)

-- A parser that takes every text for a tool.
abbrev pub parse_tool : Text → Text → Text → Option Asset
parse_tool id type asset = some (record {
  asset_id = [];
  type = type;
  timestamp = [];
  device_uuid = [];
  removed = false;
  keys = (codes "serial", asset) ∷ [];
  content = asset;
})

-- Room for one asset, which is there.
abbrev pub one_asset : Assets
one_asset = record {
  objects =
      record {
        asset_id = codes "a";
        type = codes "Tool";
        timestamp = codes "t";
        device_uuid = codes "u";
        removed = false;
        keys = [];
        content = codes "x";
      }
      ∷ [];
  assets = codes "a" ∷ [];
  asset_map = (codes "a", some 0) ∷ [];
  asset_counts = (codes "Tool", pos 1) ∷ [];
  asset_indices = [];
  max_assets = 1;
}

pub one_asset-IsStored : IsStored one_asset
unfolding AreDistinct lookup
one_asset-IsStored = record {
  capacity = omega arith;
  bounded = omega arith;
  distinct = (refl, tt);
  backed = λ id h. (0, ground (arith, h));
  pointed = λ id p e.
      let same : codes "a" ≡ id = ground (arith, text_eq_iff (codes "a") id, e) in
      let first : p ≡ 0 = ground (arith, e) in rw first (_, refl, same);
}

add_asset-IsAdded_example :
    IsAdded
      (record {
        asset_id = codes "b";
        type = codes "Tool";
        timestamp = codes "now";
        device_uuid = codes "u";
        removed = false;
        keys = (codes "serial", codes "y") ∷ [];
        content = codes "y";
      })
      (add_asset parse_tool
        (codes "now")
        (codes "u")
        (codes "b")
        (codes "y")
        (codes "Tool")
        []
        one_asset)
add_asset-IsAdded_example =
    add_asset-IsAdded parse_tool (codes "now") (codes "u") (codes "b") (codes "y") (codes "Tool") []
      one_asset
      (record {
        asset_id = [];
        type = codes "Tool";
        timestamp = [];
        device_uuid = [];
        removed = false;
        keys = (codes "serial", codes "y") ∷ [];
        content = codes "y";
      })
      one_asset-IsStored refl

abbrev connection : Connector
connection = record {
  buffer = codes "1|a";
  connected = true;
  heartbeats = false;
  heartbeat_frequency = 60000;
  legacy_timeout = 600000;
  last_heartbeat = 0;
  last_sent = 0;
}

parse_two_lem_example :
    parse_two 5 (codes "|3\n* PO" ++ []) (codes "NG 1000\n2|b") connection
    ≡ parse_buffer 5 (codes "|3\n* PONG 1000\n2|b") connection
parse_two_lem_example = parse_two_lem 5 (codes "|3\n* PO") (codes "NG 1000\n2|b") connection

-- An observer of two data items.
abbrev watched : Signals
watched = record {
  signalers = (codes "d1", 0 ∷ []) ∷ (codes "d2", 0 ∷ []) ∷ [];
  observers = record { signalers = codes "d1" ∷ codes "d2" ∷ []; sequence = not_signaled } ∷ [];
}

abbrev three_signals : List (Text × ℕ)
three_signals = (codes "d2", 7) ∷ (codes "d3", 8) ∷ (codes "d1", 9) ∷ []

signal_each-KnowsLeast_example :
    KnowsLeast 0 three_signals watched
      (sequence_of 0 watched)
      (sequence_of 0 (signal_each three_signals watched))
signal_each-KnowsLeast_example = signal_each-KnowsLeast 0 three_signals watched (omega arith)

devices_and_path-prefix_each_example :
    devices_and_path (codes "//A|//B|") (codes "m")
    ≡ device_prefix (codes "m") ++ prefix_each (device_prefix (codes "m")) (codes "//A|//B|")
devices_and_path-prefix_each_example =
    devices_and_path-prefix_each (codes "//A|//B|") (codes "m") refl refl

get_escaped_line-escape_bars_example :
    get_escaped_line (some (codes "\"a\\|b\\|\"|next|1")) ≡ (codes "a|b|", some (codes "next|1"))
unfolding escape_bars
get_escaped_line-escape_bars_example =
    get_escaped_line-escape_bars (codes "a|b|") (codes "next|1") refl
