-- ===== src/Node/Step.antt =====
-- A replica as a state machine: what one handler, or the part of one between two waits, does to the
-- node. The routes of replica/src/rpcHandlers.ts and the timer callbacks choose the event.
pub mod Term
pub mod Saved
pub mod Stored
pub mod Durable
pub mod Recovery
pub mod Synced
pub mod Committed
pub mod Departures
use quorum_canvas.Base.{ℕ, String, Option, none, some, List, [], ◌∷◌, if◌then◌else◌}
use quorum_canvas.Types.{
  Stroke, LogEntry, RequestVoteArgs, RequestVoteResult, AppendEntriesArgs, AppendEntriesResult,
  HeartbeatArgs, HeartbeatResult, SyncLogArgs, SyncLogResult, InstallSnapshotArgs,
  InstallSnapshotResult,
}
use quorum_canvas.Node.{Node, is_leader, start, stop}
use quorum_canvas.Node.Vote.{Election, on_election_timeout, on_vote_settled, handle_request_vote}
use quorum_canvas.Node.Append.{handle_append_entries, handle_heartbeat}
use quorum_canvas.Node.Follower.{handle_install_snapshot, handle_sync_log, catch_up}
use quorum_canvas.Node.Leader.{
  on_append_reply, on_snapshot_reply, drive_replication, replication_done, update_commit_index,
  new_entry, append_own,
}
use quorum_canvas.Node.Reads.{count_acks}

pub data Event : Type 0 where
  starts stops times_out : Event
  vote_settles : Election → Option RequestVoteResult → Event
  request_vote : RequestVoteArgs → Event
  append_entries : AppendEntriesArgs → Event
  heartbeat : HeartbeatArgs → Event
  install_snapshot : InstallSnapshotArgs → Event
  sync_log : SyncLogArgs → Event
  catches_up : SyncLogResult → Event
  replicates replicated : (peer : String) → Event
  append_reply : (peer : String) → (next_idx : ℕ) → List LogEntry → AppendEntriesResult → Event
  snapshot_reply : (peer : String) → (index : ℕ) → InstallSnapshotResult → Event
  commits : Event
  client_write : Stroke → Event
  confirms : List (Option HeartbeatResult) → Event

after_timeout : Option (Node × Election × RequestVoteArgs) → Node → Node
after_timeout none n = n
after_timeout (some r) n = r.0

-- `commits` is the end of `sendHeartbeats` or of a client write, where the node has been found to be
-- the leader, and `client_write` is the start of one.
unfoldable pub step : Event → Node → Node
unfolding after_timeout
step starts n = start n
step stops n = stop n
step times_out n = after_timeout (on_election_timeout n) n
step (vote_settles v r) n = (on_vote_settled v r n).0
step (request_vote args) n = (handle_request_vote args n).0
step (append_entries args) n = (handle_append_entries args n).0
step (heartbeat args) n = (handle_heartbeat args n).0
step (install_snapshot args) n = (handle_install_snapshot args n).0
step (sync_log args) n = (handle_sync_log args n).0
step (catches_up result) n = catch_up result n
step (replicates peer) n = (drive_replication peer n).0
step (replicated peer) n = replication_done peer n
step (append_reply peer next_idx entries result) n = on_append_reply peer next_idx entries result n
step (snapshot_reply peer index result) n = on_snapshot_reply peer index result n
step commits n = if is_leader n.state then update_commit_index n else n
step (client_write stroke) n = if is_leader n.state then append_own (new_entry stroke n) n else n
step (confirms results) n = (count_acks results 1 n).0

unfoldable pub run : List Event → Node → Node
run [] n = n
run (e ∷ es) n = run es (step e n)
