-- ===== src/Lib.antt =====
-- CPCluster: a master that keeps tables of nodes, ports and tasks, nodes that execute tasks, and clients
-- that submit them.
--
-- The crates and the modules that model them:
--
-- - cpcluster_common/src: lib.rs is Common.Protocol (types), Common.Framing (length-prefixed frames,
--   `write_length_prefixed`, `read_length_prefixed`) and Common.Address (`is_local_ip`); config.rs is
--   Common.Config; execute.rs is Common.Execute. Common.Wire has what the crates share on top: messages
--   as frames, and a socket at the level of frames. Common.Arguments is the command line, which the
--   main.rs of the master and of the node read alike, and Common.Join the join file.
-- - CPCluster_masterNode/src: state.rs is Master.State (`MasterNode`, `save_state`, `load_state`); lib.rs
--   is Master.Ports (`allocate_port`, `release_port`), Master.Merge (`merge_state`), Master.Dispatch
--   (`send_pending_tasks`), Master.Cleanup (`cleanup_dead_nodes`) and Master.Session
--   (`handle_connection`, `handle_peer_connection`, `connect_to_peer`), Master.Startup (the tables that
--   `run` starts with) and Master.Start (`run` itself, the accept loop, and the `main` of main.rs);
--   tls.rs is Master.Tls; shell.rs is Master.Shell (`submit_task_for_node`), Master.Shell.Command (how
--   a line is read) and Master.Shell.Run (`run_shell`). Master.Invariant says when its tables are sound,
--   Master.Cluster is the step relation of handlers, clean-ups and shell commands in any order,
--   Master.Sections that of single critical sections, and Master.Locks that of single mutexes, without
--   what they guard: which of them a task holds at once.
-- - CPCluster_node/src: memory_store.rs is Node.Memory; disk_store.rs is Node.Disk and
--   Node.DirectorySize (`directory_size_sync`); internet_ports.rs is Node.Ports; lib.rs is Node.Complex
--   (`eval_complex`) and Node.Tasks (`execute_node_task`); node.rs is Node.Link (`connect_to_master`,
--   `reconnect`), Node.Tls (`connect`, `build_tls_config`), Node.Loop (`heartbeat_loop`), Node.Direct
--   (the loop of `handle_connection`) and Node.Direct.Opening (how it comes by its stream); main.rs is
--   Node.Main.
-- - cpcluster_client/src: lib.rs is Client (`submit_and_wait`), main.rs is Client.Main.
--
-- Pipeline composes the master and the node: the way of a task from a client to a worker and back.
--
-- State and operations. A `MasterNode` is the record of what the mutexes hold; a critical section is a
-- function on it, and a handler composes its critical sections in the order of the code. An `async fn`
-- that can fail is an `Action`: it returns a result beside the state, and what it changed before an
-- error stays changed. A stream takes a number of frames (or bytes) and then breaks, so every theorem
-- about a handler covers every place at which its writes begin to fail. A `HashMap` is an association
-- list; the order of the list stands for the iteration order, and theorems range over all lists.
--
-- A node works on a `NodeState`: its link to the master, the results that are open, and the worker with
-- its stores. What the outside does is an argument: the events of `select!` are a list, a connection
-- comes about or not by the number of the attempt, and the client is given the stream and the clock of
-- each pass of its loop. A panic of `unwrap` is an outcome of its own.
--
-- Fuel: the loop of `send_pending_tasks` is given one round more than there are pending tasks, since each
-- round takes one out; the walk of `directory_size_sync` one more than there are directories, since each
-- round pops one. The loop of the client recurs on the passes that it is given, and is out of fuel where
-- they end. All other loops recur on the list that they walk, or on the retries that are left.
--
-- The shell is a thread of its own: what the rest of the master does before each lock that the shell
-- takes is an argument, and so is the number of looks for which it waits for a result. A look that finds
-- one waits for a guard that the shell holds itself, until its time is up.
--
-- A write to a file that fails leaves what the file system leaves of it, and a write at a path opens the
-- file to which the last link of the path leads: both are arguments.
--
-- Parameters: serde_json (with what is read back stated as a hypothesis), the UTF-8 and address parsers
-- of the standard library, meval and the arithmetic of complex numbers, reqwest, rustls, rcgen, log,
-- sockets, and what a path means to the operating system. Times and fresh identifiers are arguments.
-- `f64` values are their 64 bits.
--
-- Not modelled: what happens inside TLS and inside sockets, below the level of frames, the logger, and
-- the sleeps of loops that only poll. The relation of single critical sections has all their orders,
-- also those that no handler takes. A merge with another master is in neither of the relations on the
-- tables: it can bring in ports that are in use here.
pub mod Prelude
pub mod Common
pub mod Master
pub mod Node
pub mod Client
pub mod Pipeline
