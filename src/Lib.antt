-- ===== src/Lib.antt =====
-- A model of server-rust: a key-value store that is replicated with Raft, its nodes and their cluster.
--
-- The parts and their files
--   * server-rust/src/raft/log.rs: Raft/Log. `LogStore` keeps the entries above a snapshot boundary;
--     Raft/Log/Valid has the invariant that they are numbered without gaps, and Raft/Log/View what
--     each operation does to `get`.
--   * server-rust/src/raft/state.rs: Raft/State, with the order on terms and votes in
--     Raft/State/Advances.
--   * server-rust/src/raft/storage.rs: Raft/Storage has the data on disk and the interface `Storage`
--     that the other parts take, Raft/Storage/File the save through a temporary file and a rename,
--     which File/Atomic makes an instance of it; File/Crash is the file system of a machine that
--     crashes in the middle of a save.
--   * server-rust/src/raft/election.rs: Raft/Election, with the votes in Votes and Refusal, the
--     comparison of logs in UpToDate, the majorities in Majority, the locks of a voter in Locks, a late
--     win in Stale, and the transfer of leadership in Transfer.
--   * server-rust/src/raft/rpc.rs: Raft/Rpc, what a follower does with `append_entries` and
--     `install_snapshot`, and Raft/Service, all the calls of `RaftServiceImpl` with the election timer.
--   * server-rust/src/raft/replication.rs: Raft/Replication, what a leader sends and what it does with
--     the answers; Commit, Apply and Snapshot have `update_commit_index`, `apply_committed_entries`
--     and `create_snapshot`. Raft/Agreement puts the two sides together: Exchange is one message
--     with its answer, CatchUp a series of them with one follower, Everyone with all of them,
--     Committed what the leader does then, and Overcount an answer that it believes too much.
--   * server-rust/src/raft/membership.rs, pending.rs and timer.rs: Raft/Membership, Raft/Pending and
--     Raft/Timer.
--   * server-rust/src/kv/store.rs and kv/service.rs: Kv/Store and Kv/Service; Service/Logged has the
--     commands that a part of the log stands for, Service/Restored a snapshot with what comes behind.
--   * server-rust/src/config.rs: Config, with the peer list in Config/Peers.
--   * server-rust/src/main.rs: Startup has what a node reads from its disk, Startup/Boot the cells that
--     `main` makes, and Startup/MainLoop one turn of the main loop, which calls elections,
--     replication and the store; Startup/Durable, Restart and Progress have the theorems. Startup/Parts
--     has the managers that `main` makes, and Startup/Process runs the loop, the Raft service, the client
--     service and the tasks that get the answers to heartbeats on the same cells. Calculator is the demo service of the same file.
--   * server-rust/src/metrics.rs: Metrics, the gauges and the HTTP routes.
--   * Cluster: the nodes together. `Step` runs a handler on one of them, `Reach` is a run of such
--     steps, with crashes, restarts and lost, late and doubled messages; Cluster/Invariant has what
--     holds in each of them. Cluster/Replicas follows the logs: `Move` adds the messages of the
--     heartbeats, which may arrive late, doubled or never, and leaves out snapshots; History has the
--     logs of the leaders of all terms, which every log of a node follows; Stores has the stores
--     that the nodes build from their logs.
--   * Examples: small clusters, disks and codecs at which the theorems are applied.
--
-- How state and tasks are modelled
--   The cells behind `Arc<RwLock<..>>` of one node are the record `Node` of Raft/Node; a handler is a
--   function on it. Where a handler gives up its locks, what the other tasks do until it has them
--   again is an argument, a function on the node (`Meanwhile`), so a theorem for all such functions
--   holds for every interleaving, and one that names `undisturbed` only for a handler alone. A handler
--   that asks for a lock it holds itself ends in `deadlocks`; an index out of bounds ends in `none`,
--   `panics` or `panicked`. `u64` additions wrap (`add64`), as in a release build; `usize` and `u32`
--   counts are numbers without a bound.
--   The clock is an argument `now` in milliseconds, the drawn election timeout an argument `ms`. The
--   network is a function from an address and a request to an optional answer. The waits of kv/service
--   take the list of what their polls see: a list with a poll past five seconds is long enough, and one
--   that stops before the wait does gives `none`. The loops over a range take the number of
--   rounds that the range has. There is no other fuel.
--
-- Parameters
--   serde_json (`KvCodec`, `DataCodec`) and tokio::fs (`FileSystem`) are records of functions with the
--   laws that the code relies on. `Storage` has the laws that a save which succeeds is what the next
--   load gives, and a save which fails leaves it. `Sqrt` is the square root of a double, of which the
--   whole part is used.
--   Of the `RwLock` of tokio, Raft/Election/Locks says that no lock of a cell is given while a write
--   lock on it is held, and no write lock while any lock is.
--
-- What is not modelled
--   The code that tonic generates, the registry and the text export of prometheus, the HTTP server of
--   hyper, the command line that clap reads, the spawning of the servers at the end of main, and the
--   JavaScript client. Log messages have no effect and are left out. In a run of the cluster each
--   handler runs by itself; what other tasks of the node do between its locks is in the theorems on
--   the single handler only.
pub mod Prelude
pub mod Kv
pub mod Raft
pub mod Startup
pub mod Cluster
pub mod Metrics
pub mod Calculator
pub mod Config
pub mod Examples
