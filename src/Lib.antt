-- ===== src/Lib.antt =====
-- Verification of the radar software.
--
-- The parts are the configuration manager, the helpers, the two programs of the target environment, the
-- message broker, the logger, and the model of the scheduler. The configuration manager keeps a JSON document,
-- from which the others take their settings:
--
--   ConfigManager: `class ConfigManager` of ConfigManager/ConfigManager.cpp, its directory, loading, saving
--   and updating. ConfigManager.Load is about these.
--   ConfigManager.Values: the access to sections, values and arrays, with Values.Access about it.
--   ConfigManager.Tests: the theorems at concrete inputs.
--   Storage: boost::filesystem and rapidjson as records of operations, and their laws as hypotheses.
--
-- The helpers of Utils/ and of Target Environment/SatelliteUtils/utils.cpp:
--
--   Utils.Dates: `DurData`, `WychKd` and `Julian_date`. Dates.Calendar states the Gregorian calendar,
--   Months and Years are about the two loops of `DurData`.
--   Utils.Log: `class Logger` of Utils/Logger.h, a log with two buffers, with Log.Written about its files.
--   Utils.GetValue: the access to JSON values of Utils/GetValueWrapper.hpp.
--   Utils.FormatString: `string_format` of Utils/FormatString.h, over the bytes that snprintf makes.
--   Utils.Tests: the theorems at concrete inputs.
--
-- The target environment: a server that tells its clients which satellites are in their search area, and
-- its client, in Target Environment/:
--
--   TargetEnvironment: `enum ErrorCode`. TargetEnvironment.TargetTable, Messages: Shared/TargetTable.cpp
--   and Shared/Messages.h.
--   TargetEnvironment.Request: what the server reads of a request, `process_request` and `sector_check`, over
--   what they stand on, the record `Sky`. TargetEnvironment.ComputeParams: Server/ComputeParams.cpp.
--   TargetEnvironment.Server: `class Server`, its handlers and calls as functions of its state. Server.Slots
--   and Runs are about the counter of the clients over the steps of the server, Replies about what it sends.
--   TargetEnvironment.Client: `class Client`, with Client.Session about its connection and Decode about the
--   list of targets that it reads.
--   TargetEnvironment.Satellites: the satellites of the catalogue with their models, as the `Sky` of the server.
--   TargetEnvironment.RequestMsg: the message of a request, and how the server reads it. Exchange is about a
--   request and its answer, from the client through the server and back.
--   TargetEnvironment.Catalog: the reader `parse_keo` of SatelliteUtils/catalog_tle.cpp, Catalog.Orbits and
--   Epochs the numbers and the day of an entry, and Catalog.Reading what is read of a file of entries.
--   TargetEnvironment.Tests: the theorems at concrete inputs, with the data of Tests.Samples.
--
-- The prediction of the satellites' orbits, in Target Environment/SatelliteUtils/, which the server calls:
--
--   SatelliteUtils: the constants of catalog_tle.h. SatelliteUtils.Vector3, Errors, Gmst, NoradBase: vector3.cpp,
--   the masks of norad_base.h, `toGmst` of utils.cpp, and norad_base.cpp.
--   SatelliteUtils.NoradCircl, NoradSgp4: the models for circular and for near orbits.
--   SatelliteUtils.NoradSgdp4: noradSGDP4.cpp, with NoradSgdp4.Anomaly about its loop for Kepler's equation and
--   Warnings about its failures.
--   SatelliteUtils.NoradSdp4: the model for far orbits, with the terms of the sun and the moon in
--   NoradSdp4.LunarSolar, the resonances in ResonanceTerms and the integrator in Secular. Secular.Exact says
--   when times are exact, Secular.Grid is about the integrator and Kept about predictions one after another.
--   SatelliteUtils.Norad: a satellite of the catalogue with its model, with Norad.Flights about its predictions.
--   SatelliteUtils.Tests: the theorems at concrete inputs.
--
-- The coordinate systems, in CoordinateSystems/, in which the server looks at the satellites:
--
--   CoordinateSystems: CSTransform.cpp, with its constants and `struct Angle`. CoordinateSystems.Points: CSPoints.h.
--   CoordinateSystems.Eigen: the matrices of Eigen as a record of operations. Exact states the laws of exact
--   arithmetic and of the products, Rotations and RoundTrips are about the conversions there and back.
--   CoordinateSystems.Tests: the theorems at concrete inputs.
--
-- The message broker, in MessageBroker/:
--
--   MessageBroker: Message.h, and `class Client`. MessageBroker.Processing is its loop over the messages
--   that it receives, with Processing.Routes about where they go; Heartbeat the thread that sends
--   heartbeats; Sessions is about its connection and its handlers.
--   MessageBroker.Server: `class Server`, which forwards. MessageBroker.Tests: concrete inputs.
--
-- The logger, in Logger/:
--
--   Logger: `class Logger`, its session and its two channels. Logger.Ids and Sessions are about the numbers
--   of the sessions. Logger.Tests: concrete inputs.
--
-- The last part is the scheduler model of Morenos/Scheduler_Model — копия, the simulation of a radar that plans
-- its scans on timelines of 10 microsecond chunks:
--
--   Morenos.Settings, Utility: Settings.h and `multiples_of` of Utility.h.
--   Morenos.Timeline: `class Timeline`, a conveyor of time chunks in a circular array. Timeline.Ring,
--   Check, Move and View are about its operations, the last one by absolute time.
--   Morenos.Query, ControlCommand: the two records that the parts pass to each other.
--   Morenos.ScanPair, Signals: `class ScanPair` and BuildScanPair.cpp, the choice of a signal and its
--   pulse train. Signals.Total, Choice, Trains, Built and Returns are about the pairs made and the
--   exceptions.
--   Morenos.PriorityQueue, EventQueue: `std::priority_queue` as the sources use it, and EventQueue.h.
--   Morenos.CommandProcessor: the queue of commands, their execution and `validate`. Its children Run,
--   Spacing and Pairing are about the operations and the checks of `validate`.
--   Morenos.Placement: `find_index` and `place_scan` of Scheduler.cpp. Placement.Find, First and
--   ScanPlace are about the search, Emit about the commands given, Validated and Reserve about `validate`
--   on them.
--   Morenos.Scheduler: `Scheduler::run`, one planning pass. Scheduler.Passes has the proof rule for a pass,
--   Order is about the order, Outcome and Visits about a visit of a query, Lifecycle, Sweep, Removal, Kept
--   and Total about the queries over a pass, Commands about its commands.
--   Morenos.Engine: `class ModelEngine`, which executes events, calls the scheduler and hands its commands
--   to the command processor, once in each millisecond. Engine.Pending, Stops and Program are about its end.
--   Morenos.Tests: the theorems at concrete inputs.
--   Prelude: lists, options, Boolean tests and machine words. Double: the type `double`, a record of
--   operations of which nothing is assumed but what a theorem names.
--
-- Integers are natural numbers with the wrap-around of their words written out. A value is `none` where
-- the source returns -1, throws an exception or fails an assert. The loops run on the number of rounds
-- that their bounds give; the loop of ModelEngine::run has no bound, and runs on fuel: a round advances
-- the time by a millisecond, so that fuel for the time of the stop event and two rounds more is enough.
-- The loop of the integrator of SDP4 runs on fuel, and 10000 steps are enough.
-- The loop of `string_format` ends in its second round. The loops of `DurData` run on fuel for each
-- day and for the twelve months. What sockets, files, random numbers and clocks answer is an input or a
-- parameter; a handler or a thread's step is one step of its state machine.
-- `double` is a type with its operations, of which nothing is assumed; a theorem that needs exact arithmetic
-- has it as a hypothesis, for whole numbers below 2 ^ 53 where that is what the source relies on.
-- Ties in `std::priority_queue` and `std::sort`, which the standard leaves open, are taken in the order
-- of insertion. Queries are values: the pointers of the source share a query only between two lists that
-- are both filled anew in a pass.
--
-- Not modelled: console output and the text of log lines; the messages of exceptions; references into a
-- document that was replaced; worker threads inside a handler;
-- the state of a client's socket; the copies that SDP4 makes of itself for
-- debugging; the measuring of time; the libraries rapidjson, boost, zmq, spdlog and Eigen.
pub mod Prelude
pub mod Double
pub mod Float
pub mod Morenos
pub mod Storage
pub mod ConfigManager
pub mod Utils
pub mod TargetEnvironment
pub mod SatelliteUtils
pub mod CoordinateSystems
pub mod MessageBroker
pub mod Logger
