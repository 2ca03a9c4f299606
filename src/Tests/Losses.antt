-- ===== src/Tests/Losses.antt =====
-- The loss of an adapter with one data item of the buffers of Tests/Buffers.antt.
use cppagent.Base.{
  ℕ, refl, true, false, List, [], ◌∷◌, codes, text_eq, arith, Option, some, none, if◌then◌else◌,
}
use cppagent.DataItem.{DataItem}
use cppagent.Checkpoint.{add_observation}
use cppagent.Sequencer.{start, store}
use cppagent.Sequencer.Tracks.Run.{store_all}
use cppagent.Availability.{World, disconnected}
use cppagent.Availability.Disconnects.{IsDisconnected, disconnected-IsDisconnected}
use cppagent.Tests.Data.{event_item}
use cppagent.Tests.Buffers.{lib, agent}
use cppagent.Tests.Streams.{no_signals}
use cppagent.Tests.Lines.{surroundings, gathering}
use cppagent.Tests.Values.{whole, regexes, undetermined}

abbrev connected_world : World lib.Buffer ℕ
connected_world = record {
  agent = agent;
  signals = no_signals;
  adapter = record gathering { dup_check = false };
  conversions = λ id. undetermined;
}

abbrev its_items : List DataItem
its_items = event_item (codes "d1") ∷ (event_item (codes "d2") ∷ [])

-- The first one has adapter 5 as its source.
abbrev source_of : DataItem → Option ℕ
source_of d = if text_eq d.id (codes "d1") then some 5 else none

disconnected-IsDisconnected_example :
    IsDisconnected lib whole regexes surroundings source_of 5 true its_items connected_world (
      disconnected lib whole regexes surroundings source_of 5 true 0
        (codes "t")
        its_items
        connected_world)
unfolding start store_all store add_observation
disconnected-IsDisconnected_example =
    disconnected-IsDisconnected lib whole regexes surroundings source_of 5 true 0 (codes "t")
      its_items connected_world ((refl, tt), (tt, tt))
      ((refl, refl, λ e. absurd (ground arith)), ((refl, refl, λ e. absurd (ground arith)), tt))
      refl refl
