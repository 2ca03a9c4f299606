-- ===== src/Tests/Streams.antt =====
-- A stream of the buffers of Tests/Buffers.antt.
use cppagent.Base.{refl, false, [], arith, inr}
use cppagent.Sequencer.{start, store}
use cppagent.Sequencer.Tracks.Run.{store_all}
use cppagent.Fetch.{no_start, fetch_sample_data}
use cppagent.ChangeObserver.{Signals}
use cppagent.Streaming.{Session, open_stream, check_start, fetch_page}
use cppagent.Streaming.Steps.{Reach, here, next, checks, fetches}
use cppagent.Streaming.Sent.{IsStreaming}
use cppagent.Streaming.Opens.{opened_at, open_stream-Reach}
use cppagent.Streaming.CatchesUp.{fetch_rounds, fetch_rounds-IsCaughtUp, IsCaughtUp}
use cppagent.Tests.Data.{evs}
use cppagent.Tests.Buffers.{lib, agent, agent-Tracks, listed, restarts}

abbrev pub no_signals : Signals
no_signals = record { signalers = []; observers = [] }

abbrev opened : Session lib.Buffer
opened = open_stream lib listed false no_start agent no_signals

-- A test and a fetch of two observations.
fetched : (w : Session lib.Buffer) × Reach lib evs listed 2 opened w
unfolding open_stream start store_all store check_start fetch_page fetch_sample_data
fetched = (_, next (next here (checks refl _ refl)) (fetches refl _ refl))

open_stream-Reach_example : IsStreaming lib evs listed (opened_at agent no_start) fetched.0
unfolding start store_all store
open_stream-Reach_example =
    open_stream-Reach lib evs listed no_start 2 agent no_signals fetched.0 agent-Tracks
      (omega arith) (inr refl) restarts fetched.1

opened-IsStreaming : IsStreaming lib evs listed (opened_at agent no_start) opened
unfolding start store_all store
opened-IsStreaming =
    open_stream-Reach lib evs listed no_start 2 agent no_signals opened agent-Tracks (omega arith)
      (inr refl) restarts here

fetch_rounds-IsCaughtUp_example :
    IsCaughtUp lib evs listed 2
      (opened_at agent no_start)
      agent
      (fetch_rounds lib listed 2 9 opened)
unfolding start store_all store open_stream
fetch_rounds-IsCaughtUp_example =
    fetch_rounds-IsCaughtUp lib evs listed 2 (opened_at agent no_start) 9 opened opened-IsStreaming
      (omega arith) refl (omega arith) (omega arith)
