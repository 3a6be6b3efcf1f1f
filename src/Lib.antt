-- ===== src/Lib.antt =====
-- metaDR: a replicated key-value store that runs the viewstamped replication protocol.
--
-- A cluster has one primary and backups. The primary takes the calls of the clients
-- (server/kvStoreImpl.cc), checks and prunes the keys, and changes its map
-- (server/kvMemStore.cc) once the replicator (server/vsReplicator.cc) has logged the operation, sent it
-- to the backups and counted a majority. The backups log it, and apply it when the primary announces
-- its commit. A backup that misses the heartbeats of the primary starts a view change
-- (server/viewChangeHandler.cc), which makes another replica the primary with the best of the
-- logs; a restarted replica recovers from the others (server/recoveryHandler.cc).
--
-- The files and the code:
--   Prelude: tests, lists, strings as lists of bytes, `unordered_map` as an association list
--     (Prelude/Dict), and the monad of code that throws, fails an assertion or changes a
--     state (Prelude/Exec).
--   Types: the structs and enums of include/kvStore.x, server/*.x and include/endPoint.h.
--   OpLog: server/inMemOpLogHandler.cc; OpLog/Model is the log as a list of entries.
--   ReplicaState: server/vsReplicaState.{h,cc}.
--   Quorum: server/vrCommon.{h,cc}. Node: the state of one server process, its calls and its
--     notifications.
--   MemStore: the map and its callbacks in server/kvMemStore.cc; KvStore: `set` and `remove`.
--   Replicator: server/vsReplicator.cc; Replicator/Handlers has the handlers of the messages,
--     Replicator/Consistent the invariant of a replica, Replicator/Replay its map as the replay of
--     its log.
--   ViewChange: server/viewChangeHandler.cc, its handlers; ViewChange/Update `updateNewView`,
--     ViewChange/Change `changeView`, and how an attempt ends (ViewChange/Change/Attempts).
--   Recovery: server/recoveryHandler.cc.
--   HeartBeat: the heartbeat thread of server/vsReplicator.cc, which starts the view changes.
--   Api: server/kvStoreImpl.cc, the functions on keys and `list`, Api/Format the form of
--     a key, Api/Children what a listing contains; Api/Server the calls.
--   Cluster: a primary and its backups in one view, with the calls on their way, as a step relation
--     over the handlers and the calls of the clients.
--   Config: server/configurator.cc, the parsing of the configuration file; Config/Boot `bootStrap`
--     with the constructor of the replicator.
--   Client: libClient/kvsClient.cc, include/kvsClient.h and include/clientBase.h; Client/Address
--     libClient/endPoint.cc.
--   Rpc: server/vsReplicationImpl.cc, server/viewChangeImpl.cc and server/recoveryImpl.cc.
--   Connections: the `get...Client` and `invoke...` functions of the three handler classes.
--   Wire: the serialisation, the procedures and `call_dispatch` of include/kvStore.hh and server/*.hh,
--     and the services of the two listeners of server/server.cc; Wire/Delivery and Wire/Api follow
--     a call from its sender to its handler.
--   Database: server/serverdb.cc and what it uses of server/sqlstmt.{h,cc}; no other file calls it.
--     Database/Sql says what its SQL statements do.
--   Shell: shell/shell.cc.
--   Examples: replicas at which the theorems are applied.
--
-- How the code is modelled:
--   A handler is one step, although some of them test the state before they lock their mutex; logging
--   and the locks are left out. A failed `assert` is the outcome `abort`: the build does not define
--   NDEBUG.
--   Where a thread waits (`replicate`, `changeView`, `recover`), what the other threads do
--   meanwhile and how the wait ends are arguments, the record `Surroundings`: `wait_for` returns
--   once, and the code does not test its condition again.
--   The RPC library is the parameter `Net`, which says whether a try of a call returns; a call that
--   returns is added to `sent`. Connections models the connections that the replica keeps open, as a
--   refinement of such a call, and Wire the bytes of a call. The archives of the library, which write and
--   read numbers, strings and arrays, are the parameter `Xdr`, with `IsXdr` for what its
--   documentation says of them.
--   The order of an `unordered_map` is the order of its association list, and any order is allowed.
--   A 64-bit number is an ℕ, and its increment wraps around; the theorems that need it say that a
--   number is not the largest one. A time is a count of ticks.
--   A callback is the call of `KvMemStore`, or not registered.
--   The loop of `changeView` over the candidates runs on fuel, one more than the number of the other
--   replicas; it comes to the replica itself in that many rounds.
--   The loops of the shell run on fuel, two more than the length of what is left to read.
--   The loop of `ServerDB::list` runs on fuel, more than the number of the rows.
--   A variable that the code reads without having set it is an argument, the record `Unset`.
--   A remote call of a client is a field of the record `Stub`; `connection` fills it with the handlers
--   of server/kvStoreImpl.cc on the state of one server.
--
-- Not modelled: the RPC library with its sockets, listeners and archives, and the threads of
-- server/server.cc that run them; the field names that the generated files keep for printing; `main` of
-- shell/shell.cc; SQLite, which is the parameter `Sqlite` of Database, with the copy of its header, and
-- the accessors and bind functions of server/sqlstmt.h that nothing calls; and
-- server/concurrentQueue.h, a copy of another project's queue, which is a list here.
pub mod Prelude
pub mod Types
pub mod OpLog
pub mod ReplicaState
pub mod Quorum
pub mod Node
pub mod MemStore
pub mod Replicator
pub mod KvStore
pub mod ViewChange
pub mod Recovery
pub mod HeartBeat
pub mod Api
pub mod Config
pub mod Client
pub mod Cluster
pub mod Connections
pub mod Database
pub mod Rpc
pub mod Shell
pub mod Wire
pub mod Examples
