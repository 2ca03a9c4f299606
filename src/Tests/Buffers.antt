-- ===== src/Tests/Buffers.antt =====
-- The buffers of the agent at a size of four with seven observations.
use cppagent.Base.{
  ◌≡◌, refl, none, some, [], ◌∷◌, TextSet, codes, inl, inr, pos, negsuc, arith, ◌+◌,
}
use cppagent.DataItem.{is_condition, is_data_set}
use cppagent.Checkpoint.{empty, add_observation, get_observations}
use cppagent.Checkpoint.Laws.{filtered}
use cppagent.SlidingBuffer.{SlidingBuffer, by_function, by_function-SlidingBufferLaws}
use cppagent.Sequencer.{Sequencer, start, store}
use cppagent.Sequencer.Tracks.{Tracks, replay_to}
use cppagent.Sequencer.Tracks.Store.{store-Tracks}
use cppagent.Sequencer.Tracks.Run.{start-Tracks, store_all, store_all-Tracks, restart_lem}
use cppagent.Fetch.{fetch_at, fetch_sample_data, no_start}
use cppagent.Fetch.Current.{fetch_at-replay_to}
use cppagent.Fetch.Page.{IsSampleUp, IsSampleDown, begin_up, begin_down}
use cppagent.Fetch.Report.{
  fetch_sample_data-up, fetch_sample_data-down, two_pages-IsJoined, two_pages, IsJoined,
}
use cppagent.Tests.Data.{evs, events_from, get_elem?-events_from}

abbrev pub lib : SlidingBuffer
lib = by_function 4

abbrev pub agent : Sequencer lib.Buffer
agent = store_all lib (start lib 2 2) (events_from 1 7)

abbrev pub listed : TextSet
listed = codes "d1" ∷ []

start-Tracks_example : Tracks lib evs (start lib 2 2)
start-Tracks_example =
    start-Tracks lib evs 2 2 (by_function-SlidingBufferLaws 4) (omega arith) (omega arith)

restart_lem_example : add_observation (evs 1) (replay_to empty evs 1) ≡ replay_to empty evs 1
unfolding is_condition is_data_set
restart_lem_example = restart_lem evs (λ h. ground (arith, h)) (λ h. ground (arith, h))

pub agent-Tracks : Tracks lib evs agent
unfolding start
agent-Tracks =
    store_all-Tracks lib evs (start lib 2 2) (events_from 1 7) start-Tracks_example
      (get_elem?-events_from 1 7) (omega arith) restart_lem_example

store_all-Tracks_example : Tracks lib evs agent
unfolding start
store_all-Tracks_example =
    store_all-Tracks lib evs (start lib 2 2) (events_from 1 7) start-Tracks_example
      (get_elem?-events_from 1 7) (omega arith) restart_lem_example

store-Tracks_example : Tracks lib evs (store lib agent (evs 8))
unfolding start store_all store
store-Tracks_example =
    store-Tracks lib evs agent (evs 8) agent-Tracks refl (omega arith) restart_lem_example

fetch_at-replay_to_example :
    fetch_at lib agent listed 5
    ≡ some (get_observations (replay_to (filtered listed empty) evs 5) none)
unfolding start store_all store
fetch_at-replay_to_example =
    fetch_at-replay_to lib evs agent listed 5 agent-Tracks (omega arith) (omega arith)

fetch_sample_data-up_example :
    IsSampleUp lib evs agent listed 2
      (begin_up lib evs agent listed 5)
      (fetch_sample_data lib agent listed 5 (pos 2))
unfolding start store_all store
fetch_sample_data-up_example =
    fetch_sample_data-up lib evs agent listed 5 2 agent-Tracks (inl (omega arith))

fetch_sample_data-down_example :
    IsSampleDown lib evs agent listed
      (1 + 1)
      (begin_down lib evs agent listed 6)
      (fetch_sample_data lib agent listed 6 (negsuc 1))
unfolding start store_all store
fetch_sample_data-down_example =
    fetch_sample_data-down lib evs agent listed 6 1 agent-Tracks (omega arith)

two_pages-IsJoined_example :
    IsJoined lib evs agent listed
      (begin_up lib evs agent listed no_start)
      (two_pages lib evs agent listed no_start 1 3)
unfolding start store_all store
two_pages-IsJoined_example =
    two_pages-IsJoined lib evs agent listed no_start 1 3 agent-Tracks (inr refl) (omega arith)

-- The same, for other tests.
pub restarts : add_observation (evs 1) (replay_to empty evs 1) ≡ replay_to empty evs 1
unfolding is_condition is_data_set
restarts = restart_lem evs (λ h. ground (arith, h)) (λ h. ground (arith, h))
