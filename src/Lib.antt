-- ===== src/Lib.antt =====
-- A model of mcproc, a daemon that starts, watches and stops processes for developers and agents,
-- and of mcp-rs, its library for the Model Context Protocol.
--
-- The daemon keeps a registry of processes and of reserved names
-- (mcproc/src/daemon/process/registry.rs). A call to start frees and reserves a name, launches the
-- process and spawns a reader for each of its two streams and a monitor for its exit (manager.rs,
-- hyperlog.rs); a call to stop sends signals to the group of the process and removes it
-- (manager.rs, proxy.rs). The readers cut the streams into lines, which go to a writer of log files
-- (mcproc/src/daemon/log/batch_writer.rs) and to subscribers, and look for the line that a start
-- waits for. Queries read the log files back (mcproc/src/daemon/api/grpc/log_handlers.rs). The MCP
-- server answers messages of JSON-RPC by calling tools (mcp-rs/src/protocol.rs).
--
-- Prelude: lists, texts and numbers as the standard library of Rust treats them: trimming,
-- splitting, UTF-8, maps as lists of entries.
-- Names: mcproc/src/common/validation.rs, mcproc/src/common/process_key.rs and the path of a log
-- file. A text is a list of code points.
-- Process.Status, Process.Proxy: the states, their codes, and the record of a process (proxy.rs).
-- What stands behind an Arc is a field of the record, and an operation gives the next record.
-- Process.Stop: ProxyInfo::stop with its two polling loops, against any answers of the operating
-- system (Os).
-- Process.Registry: the registry, its lookups, and in Schedule the atomic steps of the calls that
-- start and stop, which a relation interleaves in any order.
-- Process.Lifecycle: the monitor, the synchronisation of states, and whole calls that start and
-- stop, when they run alone. Process.Events: events and the filter of subscribers.
-- Process.Launcher: the command line of a launch, with its toolchain (launcher.rs, toolchain.rs).
-- Process.Cleaning and Process.Restart: clean_project, clean_all_projects and
-- restart_process_with_log_stream of manager.rs. Process.Ports: a process, its descendants and
-- their ports (port_detector.rs).
-- Log.HyperLog: chunks into lines, the wait for a pattern, and in Streamer the loop with its
-- batches and timeouts. Log.BatchWriter: the writer's loop. Log.Reader: parsing a line and the tail
-- of a file. Log.ReadBack: the lines of a file as the daemon reads them. Log.Sources: which files a
-- query reads. Log.Grep: the search with the lines around each match. Log.Times: the times of a
-- search. Log.Cleaner: the deletion of log files (mcproc/src/daemon/log/cleaner.rs). Here texts are
-- bytes, and a file is its bytes or its lines.
-- Mcp: the messages, the tools and the errors of the protocol. JSON values are a type with the
-- operations that the code uses; a handler is a function of a state. Mcp.Server: the loop of the
-- server (mcp-rs/src/server.rs), with the tasks, the bounded queue and the input as parts of a
-- state, and one move for each branch that tokio may take.
-- Api: the requests that the daemon answers (mcproc/src/daemon/api/grpc). Api.Status: errors and
-- their codes. Api.Info: what is reported of a process (helpers.rs). Api.Handlers and Api.Start:
-- the requests about processes (process_handlers.rs, service.rs). Api.Grep and Api.Logs: the
-- requests for logs (log_handlers.rs). A status is its code, and the text of a message is left out.
-- Examples: runs at concrete inputs.
--
-- Bounds and fuel: the polling loops of stop run on fuel, and a call whose polls are at least 100
-- ms apart ends within any number of rounds above (t + 100) / 100, where t is its timeout and the
-- 10 seconds of the confirmation, in milliseconds; the loop over the lines of a buffer has the
-- length of the buffer as fuel, since a round takes a byte at least, and the loop over the lines of
-- a file needs more rounds than the file has bytes, for the same reason; the list of a process and
-- its descendants is complete after more rounds than there are such processes, since a round takes
-- up one that was not taken up before. All other loops are structural.
--
-- Parameters: the regular expression, the test for a UUID, the text and the reading of a time,
-- durations, the decoding of bytes that may be no UTF-8, the output of pgrep and lsof, the entries
-- of a directory and which files may be deleted, the answers of the operating system, the values of
-- JSON, and the handlers of tools. The writer of a log file and the send to it do not fail; a call
-- of a handler ends.
--
-- Limits: a log file has one writer in the model; the daemon runs one for each stream of a process
-- on the same file, whose lines may then mix. A call of ProxyInfo::stop is alone with the record;
-- the monitor of the same process, which sets the status and the exit beside it, is modelled by
-- itself. Paths are compared as texts, where Rust compares their components: here both sides are
-- joined to the same directory.
--
-- Not modelled: the command line and the client, configuration, the transports of MCP, the start of
-- the daemon, and the spawning of a child: they pass values on to a library or to the operating
-- system.
pub mod Prelude
pub mod Names
pub mod Process
pub mod Log
pub mod Mcp
pub mod Api
mod Examples
