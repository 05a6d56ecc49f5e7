-- ===== src/Node/Leader.antt =====
-- The leader's side of replication in replica/src/raftNode.ts: AppendEntries and InstallSnapshot to a
-- peer, the commit index and client writes. An RPC is cut in two where the source awaits it.
pub mod Quorum
pub mod Write
use quorum_canvas.Base.{
  ℕ, zero, suc, ◌+◌, ◌-◌, max, String, Bool, true, false, ◌&&◌, ◌||◌, not, Option, none, some, List,
  [], ◌∷◌, ltb, leb, ◌==◌, if◌then◌else◌, length, take,
}
use quorum_canvas.Map
use quorum_canvas.Map.StringSet
use quorum_canvas.Types.{
  LogEntry, Snapshot, Stroke, AppendEntriesArgs, AppendEntriesResult, InstallSnapshotArgs,
  InstallSnapshotResult, ClientWriteResult,
}
use quorum_canvas.Persistence.{load_snapshot}
use quorum_canvas.RaftLog
use quorum_canvas.Node.{Node, is_leader, become_follower, majority, commit_at}

-- What `replicateOnce` sends to a peer, with the values that it keeps across the RPC.
pub data Sending : Type 0 where
  nothing : Sending
  append_entries : (next_idx : ℕ) → AppendEntriesArgs → Sending
  snapshot : InstallSnapshotArgs → Sending

unfoldable pub install_snapshot_args : Snapshot → Node → InstallSnapshotArgs
install_snapshot_args s n = record {
  term = n.current_term;
  leader_id = n.replica_id;
  last_included_index = s.last_included_index;
  last_included_term = s.last_included_term;
  boards = s.boards;
}

unfoldable pub append_entries_args : ℕ → Node → AppendEntriesArgs
append_entries_args next_idx n = record {
  term = n.current_term;
  leader_id = n.replica_id;
  leader_addr = some n.self_url;
  prev_log_index = next_idx - 1;
  prev_log_term = RaftLog.get_term_at (next_idx - 1) n.log;
  entries = take n.batch_cap (RaftLog.get_entries_from next_idx n.log);
  leader_commit = n.commit_index;
}

-- `replicateOnce` up to its RPC.
unfoldable pub replicate_once : String → Node → Sending
unfolding install_snapshot_args append_entries_args
replicate_once peer n =
    let next_idx = Map.get_or peer n.next_index (RaftLog.get_last_index n.log + 1) in
    if not (is_leader n.state)
    then nothing
    else if leb next_idx (n.log).last_included_index
    then elim (load_snapshot (n.log).persistence) [
      | none ↦ nothing
      | some s ↦ snapshot (install_snapshot_args s n)
    ]
    else append_entries next_idx (append_entries_args next_idx n)

-- A peer that succeeded holds the entries sent, and so all that stands before them.
unfoldable pub record_match : String → ℕ → List LogEntry → Node → Node
record_match peer next_idx [] n = record n {
  match_index = Map.set peer (max (Map.get_or peer n.match_index 0) (next_idx - 1)) n.match_index;
}
record_match peer next_idx (e ∷ es) n = record n {
  next_index = Map.set peer (next_idx + length (e ∷ es)) n.next_index;
  match_index = Map.set peer (next_idx + length (e ∷ es) - 1) n.match_index;
}

-- `replicateOnce` after an AppendEntries RPC that has an answer.
unfoldable pub on_append_reply : String → ℕ → List LogEntry → AppendEntriesResult → Node → Node
unfolding record_match
on_append_reply peer next_idx entries result n =
    if ltb n.current_term result.term
    then become_follower result.term none none n
    else if result.success
    then record_match peer next_idx entries n
    else record n { next_index = Map.set peer (max 1 (result.current_log_length + 1)) n.next_index }

-- `sendInstallSnapshot` after an RPC that has an answer.
unfoldable pub on_snapshot_reply : String → ℕ → InstallSnapshotResult → Node → Node
on_snapshot_reply peer index result n =
    if ltb n.current_term result.term then become_follower result.term none none n else record n {
      next_index = Map.set peer (index + 1) n.next_index;
      match_index = Map.set peer index n.match_index;
    }

-- `driveReplication`: a send is begun only if none is in flight to the peer, and `finally` clears it.
unfoldable pub drive_replication : String → Node → Node × Sending
unfolding replicate_once
drive_replication peer n =
    if StringSet.has peer n.replicating
    then (n, nothing)
    else (record n { replicating = StringSet.add peer n.replicating }, replicate_once peer n)

unfoldable pub replication_done : String → Node → Node
replication_done peer n = record n { replicating = StringSet.delete peer n.replicating }

-- `replicatedCount`, without the leader itself.
unfoldable pub count_matching : ℕ → List String → List (String × ℕ) → ℕ
count_matching i [] m = 0
count_matching i (p ∷ ps) m = (if leb i (Map.get_or p m 0) then 1 else 0) + count_matching i ps m

unfoldable pub replicated_count : ℕ → Node → ℕ
unfolding count_matching
replicated_count i n = 1 + count_matching i n.peers n.match_index

-- `entry && entry.term === this.currentTerm`
abbrev pub has_term : ℕ → Option LogEntry → Bool
has_term t none = false
has_term t (some e) = e.term == t

unfoldable pub is_committable : ℕ → Node → Bool
unfolding replicated_count
is_committable i n =
    has_term n.current_term (RaftLog.get_entry i n.log) && leb (majority n) (replicated_count i n)

-- The loop of `updateCommitIndex`, by the rounds left: with `k` rounds to go it looks at index
-- `commitIndex + k`, from the last index downwards.
unfoldable pub find_committable : ℕ → Node → Option ℕ
unfolding is_committable
find_committable zero n = none
find_committable (suc k) n =
    let rest = find_committable k n in
    if is_committable (n.commit_index + suc k) n then some (n.commit_index + suc k) else rest

commit_to : Option ℕ → Node → Node
commit_to none n = n
commit_to (some i) n = commit_at i n

unfoldable pub update_commit_index : Node → Node
unfolding commit_to
update_commit_index n =
    commit_to (find_committable (RaftLog.get_last_index n.log - n.commit_index) n) n

-- `sendHeartbeats`; `drive` is what becomes of the node while the sends to all peers are awaited.
unfoldable pub send_heartbeats : (Node → Node) → Node → Node
unfolding update_commit_index
send_heartbeats drive n =
    let n1 = drive n in
    if not (is_leader n.state) then n else if is_leader n1.state then update_commit_index n1 else n1

unfoldable pub new_entry : Stroke → Node → LogEntry
new_entry stroke n = record {
  index = RaftLog.get_last_index n.log + 1;
  term = n.current_term;
  stroke = stroke;
}

unfoldable pub append_own : LogEntry → Node → Node
append_own e n = record n {
  log = RaftLog.append e n.log;
  match_index = Map.set n.replica_id e.index n.match_index;
}

-- The retry loop of `handleClientWrite`, by the attempts left: `none` where the node is no longer the
-- leader after an attempt, or else the last count of acks.
unfoldable pub write_loop : ℕ → ℕ → (ℕ → Node → Node) → ℕ → ℕ → Node → Node × Option ℕ
write_loop zero quorum drive index acks n = (n, some acks)
write_loop (suc attempts) quorum drive index acks n =
    let n1 = drive attempts n in
    let acks' = replicated_count index n1 in
    let again = write_loop attempts quorum drive index acks' n1 in
    if not (is_leader n1.state)
    then (n1, none)
    else if leb quorum acks'
    then (n1, some acks')
    else again

unfoldable pub finish_write : ℕ → Node × Option ℕ → Node × ClientWriteResult
finish_write quorum (n, none) = (n, record { success = false; leader_hint = n.leader_addr })
finish_write quorum (n, some acks) =
    if leb quorum acks
    then (update_commit_index n, record { success = true; leader_hint = none })
    else (n, record { success = false; leader_hint = none })

abbrev pub max_retries : ℕ
max_retries = 3

-- `drive k` is what becomes of the node while the sends to all peers are awaited, in the attempt
-- after which `k` are left.
unfoldable pub handle_client_write : (ℕ → Node → Node) → Stroke → Node → Node × ClientWriteResult
handle_client_write drive stroke n =
    let e = new_entry stroke n in
    if not (is_leader n.state)
    then (n, record { success = false; leader_hint = n.leader_addr })
    else finish_write (majority n)
        (write_loop max_retries (majority n) drive e.index 1 (append_own e n))
