-- ===== src/Lib.antt =====
-- The communication core of the Dronecode SDK and three of its plugins: how a system is discovered,
-- connected and lost, commands, parameters, missions, log files and setpoints over MAVLink, with
-- the timeouts, queues and channels they share.
--
-- The parts and how they interact. `SystemImpl` (core/system_impl.cpp) owns a connection, a timeout
-- handler and a thread pool; the other parts send messages, register timeouts and queue calls of
-- the user through it. `MAVLinkCommands` (core/mavlink_commands.cpp) sends one command at a time
-- and waits for its acknowledgement, `MAVLinkParameters` (core/mavlink_parameters.cpp) sets and
-- gets one parameter at a time; both take their work from a `LockedQueue` (core/locked_queue.h).
-- `MissionImpl` (plugins/mission/mission_impl.cpp) uploads and downloads missions item by item, and
-- starts, pauses and steps them. `LogFilesImpl` (plugins/log_files/log_files_impl.cpp) lists and
-- downloads log files, `OffboardImpl` (plugins/offboard/offboard_impl.cpp) sends setpoints by the
-- handler of periodic calls (core/call_every_handler.cpp). `SystemImpl` also finds out, from
-- heartbeats and the autopilot's version, whether the system is there, tells its plugins, and hands
-- each message to the handlers that they have registered. `MAVLinkChannels`
-- (core/mavlink_channels.cpp) and `CliArg` (core/cli_arg.cpp) serve the connections.
--
-- Which file models which part.
--   Base, Base/Tests, Base/Lists: shared names, tests on numbers, lists over native numbers.
--   StdMap: `std::map` over numbers, as a list in the order of the keys; StdMap/Order has the lemmas
--     on that order.
--   Mavlink: the messages, results and calls of the user that the parts exchange.
--   Channels: core/mavlink_channels.cpp; Channels/Refinement has its specification.
--   CallEvery: core/call_every_handler.cpp, with `elapsed_since_s` and `shift_steady_time_by` of
--     core/global_include.cpp; CallEvery/RunAll has its proof.
--   CliArg: core/cli_arg.cpp; CliArg/Decimal has the digits of a number, RoundTrip and Accepted the
--     proofs.
--   TimeoutHandler: core/timeout_handler.cpp (`add`, `refresh`, `remove`), and
--     `steady_time_in_future` of core/global_include.cpp; TimeoutHandler/RunOnce has `run_once`, Laws,
--     Actions and Termination the proofs.
--   LockedQueue: core/locked_queue.h; the mutex is a flag, and a call that waits for it is `none`.
--   SystemImpl: what the other parts call of core/system_impl.cpp. SystemImpl/Discovery has its
--     heartbeats, versions, components and plugins, with the proofs in Events, Handlers, Watched,
--     Plugins and Components; SystemImpl/HandlerTable has the table of message handlers, with the
--     proofs in Shrinking and Deliveries.
--   Commands: core/mavlink_commands.cpp; `queue_command_int_async` and `queue_command_long_async`
--     are the two overloads of `queue_command_async`. Commands/Steps has the events that drive it,
--     Locking, Fifo, Timeouts, Timer, Retries and Progress the proofs.
--   Parameters: core/mavlink_parameters.cpp; Parameters/Names has the C strings and the cache,
--     Steps the events, Account, Handlers, Locking, Answers, Strays and Echo
--     the proofs; Reentry has the answers and timeouts with callbacks that call back into the class.
--   MissionItem: plugins/mission/mission_item_impl.cpp.
--   MissionMessages: `assemble_mavlink_messages` of plugins/mission/mission_impl.cpp, one function
--     for each part of its loop; MissionMessages/Invariants and Numbering have the proofs.
--   MissionImport: the loop of `assemble_mission_items`; MissionImport/Reading and RoundTrip have
--     the proofs.
--   Mission: the handlers of plugins/mission/mission_impl.cpp, in Mission/State, Upload, Download
--     and Control; Mission/Steps has the events, Uploads, Downloads, Timeouts and Refused the proofs.
--   LogFiles: plugins/log_files/log_files_impl.cpp, in LogFiles/State, Entries and Download;
--     Copies, Content, Written, Chunks and Listing have the proofs.
--   Offboard: plugins/offboard/offboard_impl.cpp; Offboard/Streaming and Setpoints have the proofs.
--   Tests: sample data and concrete runs.
--
-- How state and operations correspond. An object is a record of its fields, with the `SystemImpl`
-- that it refers to as its field `parent`; a method is a function from the record to the record.
-- What the surroundings decide in a call (the clock, the allocator's address for a new timeout,
-- whether a connection takes a message) is its argument of type `Surroundings`. A callback is its
-- number; a call of the user is recorded. A `float` or `double` is its bit pattern; conversions and
-- products of them are the parameter `Conversions`. The interval of a periodic call, finite and not
-- negative, is read from its pattern, without the rounding of `double`. What MAVLink's generated
-- code does (packing and decoding) is left to the constructors of `Message` and the records of the
-- incoming fields; the constants of MAVLink stand as numbers.
--
-- Bounds and fuel. Most handlers are finite chains of steps, and most loops run over lists. Two
-- loops start over when a callback has changed what they walk over, and take fuel: `run_once` of
-- the timeout handler, whose callbacks cannot make a timeout due, so that each round that starts
-- over leaves fewer that are, and `process_mavlink_message`, which starts over only after the table
-- has become shorter. `run_once` of the handler of periodic calls takes fuel for each entry. A port
-- or baudrate is an `int` below 2 ^ 31. Numbers that the wire carries in 16 bits are reduced modulo
-- 2 ^ 16 where they are sent.
--
-- Not modelled. Interleavings inside a handler: every handler is one step. Where a handler holds
-- its mutexes from end to end, they give that; the registration of plugins is under no mutex, some
-- handlers hold theirs for parts of their work only, and the orders in which handlers take two
-- mutexes are left out (`receive_timeout` and `receive_command_ack` of the commands take theirs in
-- opposite orders). The callbacks of the parameters are called under mutexes: outside of
-- Parameters/Reentry they do not call back into the class. For the plugins and for discovery,
-- `run_once` of the timeout handler enters as the event that takes an expired timeout out of the
-- map and calls it back. The blocking calls, which wait on a promise, are left out. The wire forms
-- of a parameter's value, the import of mission plans from JSON, flight modes, the other plugins,
-- the connections, threads and the network are left out.
mod Base
pub mod StdMap
pub mod CallEvery
pub mod Channels
pub mod CliArg
pub mod Mavlink
pub mod TimeoutHandler
pub mod LockedQueue
pub mod SystemImpl
pub mod Commands
pub mod Parameters
pub mod MissionItem
pub mod MissionMessages
pub mod MissionImport
pub mod Mission
pub mod LogFiles
pub mod Offboard
mod Tests
