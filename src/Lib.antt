-- ===== src/Lib.antt =====
-- The MTConnect agent: adapters send it lines of observations, it keeps them in a circular buffer
-- with checkpoints of the state of all data items, and it serves them and the assets over HTTP.
--
-- How the parts interact. The connection to an adapter cuts what it reads into lines. A line makes
-- observations, which `Agent::addToBuffer` stores: it gives each one the next sequence number, writes
-- it into the sliding buffer and adds it to the checkpoints. A request is checked parameter by
-- parameter and then reads the buffer and the checkpoints: `current` rebuilds the state at a sequence
-- number, `sample` lists a range of observations. Assets are kept beside, by id.
--
-- Which file models which part:
--   Base             texts, maps, integers and tests that the other files share
--   Stream           std::istringstream as the code uses it, decimal texts of src/globals.cpp
--   DataSet          src/observation.hpp (DataSetEntry, DataSetValue, DataSet), the merge in
--                    Checkpoint::addObservation and Checkpoint::dataSetDifference of
--                    src/checkpoint.cpp; the set is a list in the order of its keys
--   DataItem         src/data_item.hpp: what is fixed when the device file is read; DataItem/Build has
--                    the constructor, buildAttributes and getCamelType of src/data_item.cpp,
--                    DataItem/Conversion the two convertValue with the state that they keep,
--                    DataItem/Order the comparison of data items
--   Device           src/device.cpp: addDeviceDataItem, addDataItem, getDeviceDataItem
--   Observation      src/observation.hpp and .cpp: level, code, attributes and chains;
--                    Observation/Build has the constructor and convertValue, Observation/Values has
--                    dataSetValue and parseDataSet
--   Checkpoint       src/checkpoint.hpp and .cpp: `add_observation` is Checkpoint::addObservation,
--                    `copy` and `new_copy` are the copies, `set_filter` is Checkpoint::filter,
--                    `get_observations` is Checkpoint::getObservations
--   ChangeObserver   src/change_observer.hpp and .cpp: ChangeObserver and ChangeSignaler
--   SlidingBuffer    the interface of dlib::sliding_buffer_kernel_1, a parameter with laws, and a
--                    function that meets them
--   Sequencer        src/agent.cpp: the constructor's buffers (`start`) and Agent::addToBuffer
--                    (`add_event`, with `store` for the part that changes them)
--   Fetch            src/agent.cpp: Agent::fetchCurrentData and Agent::fetchSampleData
--   Params           src/agent.cpp: checkAndGetParam and checkAndGetParam64, with the helpers of
--                    src/globals.cpp
--   Calls            src/agent.cpp: handleCall, handleStream, handleProbe, devicesAndPath
--   Streaming        src/agent.cpp: addToBuffer with its signals, and streamData (`open_stream`,
--                    `check_start` for the test that does not hold the lock, `fetch_page`, `wake_up`,
--                    `close_stream`), with a step relation for all orders of insertions, tests, fetches
--                    and wake-ups
--   Availability     src/agent.cpp: connected, disconnected, and the first values that the constructor
--                    reports
--   Http             src/agent.cpp: httpRequest up to the call of a handler (`route`),
--                    printerForAccepts, handlePut, handleFile
--   Assets           src/agent.cpp: addAsset, removeAsset, removeAllAssets; Assets/Requests has
--                    handleAssets and storeAsset; dlib's tokenizer gets the source's characters
--                    of an identifier
--   Connector        src/connector.hpp and .cpp: parseBuffer, startHeartbeats, sendCommand, close and
--                    a round of the loop of connect
--   Adapter          src/adapter.cpp: splitKey, trim, getEscapedLine; Adapter/Process has processData,
--                    processDataItem and processAsset, and isDuplicate of src/adapter.hpp;
--                    Adapter/Commands has protocolCommand and parseCalibration
--   Globals          src/globals.cpp: replaceIllegalCharacters
--   Tests            data, and the theorems at concrete inputs
--
-- How state is modelled. A class is a record of the members that its operations change, and an
-- operation is a function of it. `none` as the result of a read is a null pointer where the source
-- reads through it. Observations are shared by reference count and are not changed once they are
-- stored, so a chain is a list of values; the attributes that the source computes at the first use
-- are functions of the text. Assets are changed while they are shared, so the model has a memory and
-- pointers are positions in it. The members that one lock guards change in one step, in the order in
-- which the lock is taken.
--
-- Bounds. Sequence numbers wrap at 2 ^ 64 as in the source; theorems about a growing buffer ask for
-- numbers below that. The loops of fetchSampleData make at most as many rounds as there are sequence
-- numbers, since each one moves by one and stops outside the buffer. A path of n characters has at
-- most n tokens, a number n at most n + 1 digits; the loops over a line read a character in each
-- round, and so do those over the entries of a data set and the numbers of a time series, where
-- running out of fuel is a result of its own that is shown not to occur. replaceIllegalCharacters
-- makes five characters of one at most.
--
-- Not modelled: what is printed as XML or JSON (the models return the values that are printed), the
-- XPath resolution, the parsing of assets, the times of lines and the floating-point filters
-- (parameters of the functions that call them), std::regex, the disk, the tokenizer of dlib and the
-- numbers of the C++ library (parameters), sockets, threads, clocks (arguments), logs and
-- configuration, the reading of the device file, and, so far, the filters of data items,
-- the prefixes of XPath expressions, the data items that the constructor of Agent adds to a device, and
-- updateAsset, which keeps the address of a local variable. The reset of an observer
-- in Agent::fetchSampleData is part of Streaming; Fetch, whose results do not depend on it, leaves it
-- out.
pub mod Base
pub mod Stream
pub mod DataSet
pub mod DataItem
pub mod Observation
pub mod Checkpoint
pub mod ChangeObserver
pub mod SlidingBuffer
pub mod Sequencer
pub mod Fetch
pub mod Params
pub mod Calls
pub mod Streaming
pub mod Assets
pub mod Connector
pub mod Http
pub mod Adapter
pub mod Tests
pub mod Device
pub mod Globals
pub mod Availability
