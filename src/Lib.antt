-- ===== src/Lib.antt =====
-- QuorumCanvas is a shared drawing board whose strokes are replicated by Raft. A browser sends strokes
-- to a gateway, the gateway hands each to the leader of the replicas, and the leader appends it to its
-- log, replicates it and applies it to the boards once it is committed; the gateway then sends the
-- stroke to the other browsers of the board. This library models a replica, where the data is kept
-- and where it can be lost, the gateway between the replicas and the browsers, and the board as a
-- browser shows it.
--
-- Types          replica/src/types.ts, the strokes, log entries and RPC messages.
-- Board          the maps `boardEvents`, `undoneStrokeIds` and `boardStrokes` of
--                replica/src/raftNode.ts: `ensureBoardState`, `applyBoardEvent`, `restoreBoardState`,
--                `getStrokes` and the copy that `takeSnapshot` makes. Board/View is one
--                board alone, with its events, undone ids and visible strokes; Board/Effects and
--                Board/Shown describe what an event does to it, by relations that do not use the
--                code's filter and searches. Board/Replay is about snapshots, Board/Visible about what is shown.
-- Persistence    replica/src/persistence.ts: `MemoryPersistence` and `FilePersistence`, the latter by
--                what its three files hold once parsed.
-- Wal            the text of the log file of `FilePersistence`: `loadLog`, `appendLog`, `rewriteLog`.
-- RaftLog        replica/src/raftLog.ts: the entries above the snapshot boundary and the persistence
--                that the log and the node share. RaftLog/Contiguous is about absolute indices.
-- BoardManager   gateway/src/boardManager.ts: rooms, their users and the boards that a gateway derives.
-- RemoteClient   gateway/src/remoteRaftClient.ts: how a gateway finds the leader and repeats a write, and
--                where it reads a board. RemoteClient/Writes, Retries and Reads are about what a call
--                answers, how long it tries, and what it reads.
-- Security       gateway/src/security.ts on JSON values: `validateStroke` and `tokensMatch`.
-- Messages       gateway/src/messageHandler.ts: the handlers of messages, the rate limit and the messages
--                that are sent, over the rooms of BoardManager and an
--                interface for the Raft client (gateway/src/raftClient.ts), which RemoteClient fills.
--                Messages/Connections is gateway/src/wsServer.ts, the start and the end of a connection.
--                Messages/Written follows a stroke from the browser to the replicas and back.
-- ClusterStatus  gateway/src/clusterStatus.ts: the report of the replicas.
-- UseBoard       frontend/src/hooks/useBoard.ts: the strokes that a browser shows, its archive and its
--                pending rollbacks, against the board of the replicas. UseBoard/UndoRedo and Restored are
--                about a user's own undo and redo.
-- UseWebSocket   frontend/src/hooks/useWebSocket.ts: the connection of a page, how it is made again and
--                how it is left.
-- Canvas         frontend/src/components/Canvas.tsx and frontend/src/hooks/useDrawing.ts: the lines on the
--                canvas of a board, and the strokes that a pointer draws.
-- Settings       replica/src/config.ts, gateway/src/config.ts and what `createApp` of
--                replica/src/index.ts takes from them. Settings/Peers is about lists of addresses,
--                Settings/Cap about the batch cap.
-- Strings        the operations on JavaScript strings that Settings and Timing use.
-- Timing         replica/src/electionTimer.ts: how long an election timeout is.
-- Http           gateway/src/index.ts: the answers of a gateway to HTTP requests.
-- Node           the state of `RaftNode` in replica/src/raftNode.ts, `persistState`, the changes of
--                role, `applyCommitted`, `takeSnapshot`, the constructor; the pending timers of
--                replica/src/electionTimer.ts.
-- Node/Vote      `onElectionTimeout`, `runElection` and its callbacks, `handleRequestVote`.
-- Node/Append    `handleAppendEntries` and `handleHeartbeat`.
-- Node/Leader    `replicateOnce`, `sendInstallSnapshot`, `driveReplication`, `updateCommitIndex`,
--                `sendHeartbeats`, `handleClientWrite`.
-- Node/Follower  `handleInstallSnapshot`, `applySnapshot`, `handleSyncLog`, `requestCatchUp`.
-- Node/Reads     `confirmLeadership` and `readBoardState`.
-- Node/Step      a replica as a state machine: an event is a message of replica/src/rpcHandlers.ts, a
--                timer or an answer to an RPC, and `run` applies a sequence of them. Node/Step/Saved,
--                Synced, Stored and Durable compare the files with the memory, Node/Step/Recovery
--                restarts a replica on its files.
-- Cluster        the replicas together: elections, votes, messages of leaders, crashes and restarts, in
--                any order. Cluster/Local is about one replica, Cluster/Counting about votes,
--                Cluster/Quorum about majorities, and Cluster/Sent about a leader's messages.
-- Dashboard      frontend/src/pages/Dashboard.tsx: how the report of the replicas is kept up to date.
-- Node/Routes    the answers of replica/src/rpcHandlers.ts to reads, as RemoteClient takes them.
-- Metrics        the counters of replica/src/metrics.ts.
-- Examples       the theorems at concrete boards, replicas and files.
-- Base, Map      shared names, tests on numbers, lists, and JavaScript maps and sets as lists.
--
-- A handler is a function from its arguments and the node to the new node and the answer. JavaScript
-- runs a handler without interruption up to its `await`, so a handler with an `await` is cut there:
-- what becomes of the node while it waits is an argument (`drive`, `beat`, `sync`), or the parts are
-- events of their own (`replicateOnce`, `runElection`). RPC answers are arguments, `none` for an RPC
-- that failed. The gateway's handlers take what their Raft client does as a record of functions.
--
-- Indices and terms are natural numbers: they start at 0 and only grow, and stay far below 2 ^ 53.
-- Where the source subtracts, the guards before keep the difference from being negative, or the
-- term is moved to the other side. Loops are structural: `applyCommitted` runs `commitIndex -
-- lastApplied` rounds, `updateCommitIndex` looks at the indices from the last down to the commit
-- index, and the retries of a client write are the source's three. The remote client makes five
-- attempts (`maxWriteAttempts`), counted down from that number, so they are enough by definition.
-- No fuel is used.
--
-- Not modelled: logging, the text of the metrics and the transport of HTTP; crashes between two
-- writes of one handler; `fsync` and the rename of a file, which are taken as the write itself; the
-- start and the end of the processes. A snapshot is a JavaScript object keyed by the board, of which
-- the model assumes that every key is kept (an object literal does not keep `__proto__`). Strings are
-- taken to be well formed, and the parsing of JSON and of URLs is an argument; an answer to a read whose
-- JSON is `null` is not told apart from one without a body. The `then` and `finally` of a vote
-- request, which JavaScript runs one after the other, are one step. React is taken to run a state
-- update once, where it is requested. Of the frontend's pages only the dashboard's polling is
-- modelled; the rest of them and the toolbar are left aside. In Cluster, a leader's messages hold
-- anything, but carry a term that their sender leads or has led, as those of Node/Leader and
-- Node/Reads do.
pub mod Base
pub mod Map
pub mod Types
pub mod Board
pub mod Persistence
pub mod RaftLog
pub mod Node
pub mod Wal
pub mod BoardManager
pub mod Canvas
pub mod Cluster
pub mod ClusterStatus
pub mod Dashboard
pub mod Http
pub mod Messages
pub mod Metrics
pub mod RemoteClient
pub mod Security
pub mod Settings
pub mod Strings
pub mod Timing
pub mod UseBoard
pub mod UseWebSocket
pub mod Examples
