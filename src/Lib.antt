-- ===== src/Lib.antt =====
-- muondetector-cluster: the part of the program that turns the hits of many muon detectors into
-- coincidences, and the supervision of the detectors.
--
-- Hits arrive as messages, which `source::mqtt` reads with `message_parser` and turns into
-- events of one hit. `supervision::station` keeps a `detector_station` for each detector, drops
-- the events of detectors that are unknown, imprecise or not reliable and sends on the others.
-- `coincidence_filter` collects hits that are close in time into `event_constructor`s and sends
-- each one off when its timeout has passed. `supervision::timebase` measures the spread of the
-- events' times, from which the filter takes its timeout. `supervision::state` counts what goes
-- in and out and shows the status of the detectors. `station_coincidence` keeps a histogram of
-- time differences for every pair of stations, on `upper_matrix` and `histogram`. `sink::mqtt`
-- publishes the coincidences and the status through a `link::mqtt`, and another instance of the
-- program can read them. A REST service answers requests through a tree of handlers. Each part
-- runs in a `thread_runner`, behind the queue of a `sink::threaded`.
--
-- The files, each with its proofs in the directory of the same name:
-- - Event.antt: include/messages/event.h and src/messages/event.cpp; `emplace` of a hit is
--   `emplace_data`, that of an event `emplace`.
-- - Coincidence.antt: include/analysis/simplecoincidence.h and
--   src/analysis/simplecoincidence.cpp.
-- - Constructor.antt: include/analysis/eventconstructor.h and
--   src/analysis/eventconstructor.cpp.
-- - Series.antt and Rate.antt: include/analysis/dataseries.h with
--   include/analysis/cachedvalue.h, and include/analysis/ratemeasurement.h.
-- - Status.antt and State.antt: include/messages/detectorstatus.h, and
--   include/supervision/state.h with src/supervision/state.cpp.
-- - Filter.antt: src/analysis/coincidencefilter.cpp. `process_event` is `process(event_t)`,
--   with `matches` for its loop over the constructors, `dispatch` for what it does with the
--   matches and `absorb_all` for the loop that merges contesting constructors; `process` is
--   `process()`.
-- - Matrix.antt and Histogram.antt: include/analysis/uppermatrix.h and
--   include/analysis/histogram.h.
-- - Detector.antt: src/analysis/detectorstation.cpp, with `on_detector_status` of
--   src/supervision/station.cpp as `notify`, which a detector calls for itself.
-- - Timebase.antt: include/supervision/timebase.h and src/supervision/timebase.cpp.
-- - Station.antt: src/supervision/station.cpp. `get_event` is `get(event_t)`,
--   `process_info_message` is `process(detector_info_t)`.
-- - State/Threads.antt: the thread of `supervision::state`, `step` as `watch_step`.
-- - Message.antt: `message_parser` and `message_constructor` of src/utility/utility.cpp.
-- - Source.antt and below: include/source/mqtt.h. Source/Run.antt is what a call may do besides
--   returning; Source/Collector.antt is `item_collector`, Source/Info.antt, Source/Events.antt
--   and Source/Log.antt are its `add` for positions, events and logs, with
--   src/messages/detectorlog.cpp; Source/Buffer.antt is `process`, for any of the three, which
--   are in Source/Kinds.antt.
-- - Publish.antt: include/sink/mqtt.h, with `get` of an event as `publish_event`. Geohash.antt:
--   include/utility/geohash.h.
-- - Runner.antt: src/utility/threadrunner.cpp. `advance` is what the thread does next in `exec`
--   and `run`; the other operations are calls from other threads. Sink.antt:
--   include/sink/base.h.
-- - Pairs.antt and below: src/analysis/stationcoincidence.cpp, with `get(event_t)` in
--   Pairs/Counting.antt.
-- - Pairs/Saving.antt: `save` and `reset` of src/analysis/stationcoincidence.cpp.
--   Aggregation.antt: the program of src/aggregation.cpp, which reads those files.
-- - Link.antt: include/link/mqtt.h and src/link/mqtt.cpp; `publisher_of` is the `publish` of a
--   topic. Link/Connect.antt: `connect`, `disconnect` and the link's thread.
-- - Database.antt: include/sink/database.h, and src/link/database.cpp up to its transmission.
-- - Rest.antt: src/utility/restservice.cpp. `handle_request` and `handle_path` are the two
--   functions `handle`; the recursion of the second over the children of a handler is
--   `dispatch_handler`. Rest/Session.antt: its `session`, with src/utility/scopeguard.cpp.
--   Rest/Base64.antt: include/utility/base64.h.
-- - Prelude.antt: numbers, lists, signed integers (Prelude/Int), sorted association lists for
--   `std::map` (Prelude/Assoc, Prelude/TextMap), and floating-point arithmetic
--   (Prelude/Floats).
--
-- An operation takes the state of its object and returns the new one, with what it sends; the
-- current time of a clock is an argument. `none` is a read or write outside a container, an
-- exception of one, or the overflow of a signed subtraction in Timebase.antt. Times and durations
-- are nanoseconds on the integers: the 64-bit counts of the program hold some 292 years and are not
-- wrapped, except that a time which a detector sends must fit them; counters of 64, 32 and 16 bits
-- are. A `double` is its bit pattern, and arithmetic on it is a parameter, so that nothing is
-- proved of rounding. Three definitions run on fuel: the loop of the parser, with one round more
-- than the text has bytes, that of the geohash, with 61 rounds for at most 12 digits of 5 bits, and
-- `connect` of the link, with one round for each call of itself; that this is enough is proved,
-- among what is said below of `parse`, of `from_coordinates` and of `connect`, there for a broker
-- that accepts no connection. Every other loop is over a list or counts down a number of rounds. In
-- Source/Run.antt `invalid` and `overflow` are exceptions, and `fault` a read outside a container
-- or the conversion of a number to an integer type that does not hold it.
--
-- Threads run one operation at a time: a runner's steps and the calls of other threads come in any
-- order, and items may come into a sink's queue while another is handled, but no operation is cut
-- in two by a lock or a data race, except where a link waits for its library's thread, for the two
-- steps of a lost connection in Link/Lost.antt, and for what is counted between putting a log and
-- clearing its counters in State/Threads.antt. A `start` while `start_synchronuos` has not yet set
-- the state, which would make a second thread, is taken for the same thread in Runner.antt.
--
-- Not modelled: the transmission to the database; output on a terminal (include/sink/ascii.h);
-- the acceptor of the service of src/utility/restservice.cpp; the wiring of
-- src/application.cpp; the resources of the process and the configuration; `guid`, whose text
-- is an argument; and the geometry of include/utility/coordinatemodel.h. Assertions are left
-- out, as in a release build, but for those of `position` that `increase` meets.
pub mod Prelude
pub mod Event
pub mod Coincidence
pub mod Constructor
pub mod Series
pub mod Rate
pub mod Status
pub mod State
pub mod Filter
pub mod Timebase
pub mod Message
pub mod Matrix
pub mod Histogram
pub mod Detector
pub mod Station
pub mod Source
pub mod Pairs
pub mod Link
pub mod Rest
pub mod Database
pub mod Aggregation
pub mod Geohash
pub mod Publish
pub mod Runner
pub mod Sink
