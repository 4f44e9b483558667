-- ===== src/Lib.antt =====
-- A model of the Meshtastic-Matrix relay: the program that carries texts, replies and reactions
-- between a LoRa mesh, through one Meshtastic node, and rooms of the chat system Matrix.
--
-- The parts and how they interact. A packet that the node receives comes to
-- `on_meshtastic_message` (src/mmrelay/meshtastic/events.py), in a thread of the Meshtastic
-- library. It is a response to a health probe, which calibrates the clock of the node
-- (src/mmrelay/meshtastic/health.py), or it passes the guards, is classified by its port number
-- and the configuration (src/mmrelay/meshtastic/packet_routing.py), offered to the plugins
-- (src/mmrelay/meshtastic/plugins.py) and relayed to the Matrix rooms of its channel, to which it
-- is sent with retries (src/mmrelay/matrix/relay.py). What goes to the mesh waits in one queue
-- (src/mmrelay/message_queue.py), from which a coroutine sends over the node, one message after
-- another and no faster than the configured delay, as long as the connection is up. When it is
-- lost, a callback schedules the coroutine `reconnect` (src/mmrelay/meshtastic/events.py). What is
-- written in a Matrix room comes to `on_room_message` (src/mmrelay/matrix/events.py), which puts it
-- into the queue. The relayed messages are remembered in a database, which finds the target of a
-- reply or a reaction, with the names of the nodes (src/mmrelay/db_utils.py).
--
--   Base, Py   What the modules share: numbers, Boolean tests, integers; Python's values, with
--              the methods of texts and the conversions `int` and `float` that the program uses.
--   Queue      src/mmrelay/message_queue.py. `State` is the object of the class MessageQueue,
--              `Lifecycle` its start and stop, `Enqueue` the producers' side, `Link` and `Send`
--              the test of the connection and what follows a send, `Processor` the coroutine
--              `_process_queue`, cut at its awaits: a function for each stretch from one
--              resumption to the next await, with the point at which it then waits, the message
--              at hand and those that leave. `Trace` interleaves these stretches with the calls
--              of all other threads, in any order, each locked section being one step. `Course`
--              is the coroutine alone, with the other threads between its turns. `Status` is
--              `get_status` and `drain`.
--   Routing    src/mmrelay/meshtastic/packet_routing.py. `Portnum` names port numbers,
--              `Overrides` reads the configuration, `Classify` is `classify_packet`.
--   Health     src/mmrelay/meshtastic/health.py. `Skew` calibrates the clock from early packets,
--              `Probes` tracks the requests of health probes and claims their responses.
--   Inbound    src/mmrelay/meshtastic/events.py, with `get_interaction_settings`
--              (src/mmrelay/matrix/prefixes.py), `_run_meshtastic_plugins`
--              (src/mmrelay/meshtastic/plugins.py), `_normalize_room_channel`
--              (src/mmrelay/meshtastic/messaging.py) and the names of senders
--              (src/mmrelay/meshtastic/metadata.py). `State` is the shared state and the
--              handler's effects, `Guards` the tests that a packet must pass, `Rooms` the
--              channels, `Relays` the calls of `matrix_relay`, `Handler` the whole of
--              `on_meshtastic_message`.
--   Reconnect  src/mmrelay/meshtastic/events.py. `Loss` is `on_lost_meshtastic_connection`,
--              `Loop` the coroutine `reconnect`, cut at its awaits, with its times in seconds, and `Trace`
--              interleaves both with the writes of other threads.
--   Retry      src/mmrelay/matrix/relay.py. `Send` is `_send_matrix_message_with_retry`.
--   RoomMapping  src/mmrelay/matrix/room_mapping.py. `Entries` reads, updates and resolves the
--              rooms of the setting `matrix_rooms`.
--   Replies    src/mmrelay/matrix/replies.py. `Truncate` is `truncate_message`, by which a text
--              for the mesh is cut, and `Utf8` the encoding, of which the decoder reads what an
--              encoder wrote and a cut left of it.
--   Executors  src/mmrelay/meshtastic/executors.py. `Reset`, `Recovery` and `Available` are the
--              operations on the worker for calls over BLE, each with what follows its locked
--              sections as one step.
--   Database   src/mmrelay/db_runtime.py and db_utils.py. `Runtime` is a connection with
--              `DatabaseManager.run_sync`; a schedule says which statements and commits raise.
--              `MessageMap` is the table of message mappings, and `Ledger` its specification.
--              `NameTables` are the tables of long and short names, `Snapshot` is
--              `_collect_node_name_snapshot`, `NameSync` is `sync_name_tables_if_changed`. The
--              other children hold lemmas: `Committed` on one synchronisation, `Collected` on the
--              snapshot, `Merging` on nodes with one id.
--              `Upgrade` is the part of `initialize_database` that brings the rows of older
--              versions into `message_map`.
--   MatrixEvents  src/mmrelay/matrix/events.py, `on_room_message`, the way from a Matrix room to
--              the message queue, with what it calls: `Text` has the functions on texts, `Prefixes`
--              src/mmrelay/matrix/prefixes.py, `Guards` the tests on the event and its room,
--              `Sending` src/mmrelay/matrix/command_bridge.py and room_mapping.py, `Replying`
--              src/mmrelay/matrix/replies.py, `Reactions` the reactions, `Handler` the whole.
--              `Written` describes the texts that may be put into the queue.
--   Plugins    src/mmrelay/plugins/base_plugin.py. `Settings` is what `BasePlugin.__init__` makes of
--              the configuration, `NodeData` what a plugin keeps of a node, `Data` its table in
--              src/mmrelay/db_utils.py, `Records` the specification of both.
--   PluginLoader  src/mmrelay/plugin_loader.py. `Collect` is `_collect_requirements`, with the
--              depth of the includes for fuel, `Words` the splitting of a line into tokens, `Risk`
--              the filter of the lines. `Remote` and `Includes` describe remote tokens and includes
--              without the tables of the code.
--
-- How the code is modelled. Shared state is a record that an operation takes and returns; a
-- result that may be an exception, a refusal or None is a value. An object's identity is a
-- number, and so is a message's send function. Times are natural numbers of milliseconds, which
-- the source keeps as floats of seconds; subtraction stops at 0, as do the source's ages, which
-- it takes by `max(0.0, ..)` or of clocks that do not go back. Floats are finite and counted in
-- thousandths. Loops are recursion on the list that they walk or on the attempts that are left,
-- and fuel is used only to write a number in decimal, where
-- the number bounds its digits, to cut a list into chunks, where its length bounds their number, and
-- for the includes of requirement files, whose depth the number of files bounds.
--
-- What the model takes from elsewhere: the names of port numbers and the broadcast address of the
-- protocol's library, what a send and a plugin answer, the answers and the room ids of the Matrix
-- server, the jitter that is drawn, the clocks, `str.format`, the files of requirements and
-- their paths, `json`, what a handler finds in the database
-- and whether the queue takes a message. They are arguments, in records such as `Env` and
-- `Attempt`; a statement of SQL is the change of its table, or an error. Some of them are assumed
-- something of where it is said: that a room id is no alias, that a jitter is bounded, that `json`
-- reads what it wrote, and that the readable files are finitely many. While one
-- packet is handled the clocks stand still and no other thread writes the state that the handler
-- reads, but for the flag of a shutdown, which it reads twice.
--
-- What is not modelled: logging, also its throttling where no state is kept for it; the texts of
-- log lines; the connection itself with its BLE and serial code, which is calls of libraries;
-- Matrix login, encryption and sync; the DDL of the database; the command
-- line, the set-up, the loading of plugins by git, pip and import, and the plugins that come with the
-- program.
pub mod Base
pub mod Py
pub mod Queue
pub mod Routing
pub mod Health
pub mod Inbound
pub mod Reconnect
pub mod Retry
pub mod RoomMapping
pub mod Replies
pub mod Executors
pub mod Database
pub mod MatrixEvents
pub mod Plugins
pub mod PluginLoader
