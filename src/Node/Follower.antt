-- ===== src/Node/Follower.antt =====
-- Snapshots and catch-up in replica/src/raftNode.ts: InstallSnapshot, SyncLog and `requestCatchUp`.
pub mod Committed
use quorum_canvas.Base.{ℕ, ◌+◌, String, Option, none, some, List, [], ◌∷◌, ltb, leb, if◌then◌else◌}
use quorum_canvas.Types.{
  LogEntry, Snapshot, BoardRecord, SyncLogArgs, SyncLogResult, InstallSnapshotArgs,
  InstallSnapshotResult, truthy,
}
use quorum_canvas.Board.{restore_board_state}
use quorum_canvas.Persistence.{load_snapshot, save_snapshot}
use quorum_canvas.RaftLog
use quorum_canvas.RaftLog.{RaftLog}
use quorum_canvas.Node.{Node, is_follower, persist_state, accept_leader, advance_commit}
use quorum_canvas.Node.Vote.{adopt_term}
use quorum_canvas.Node.Append.{conflicts, append_missing}

unfoldable pub apply_snapshot : ℕ → ℕ → BoardRecord → Node → Node
apply_snapshot index term boards n =
    let log = RaftLog.install_snapshot index term n.log in
    let snapshot : Snapshot = record {
      last_included_index = index;
      last_included_term = term;
      boards = boards;
    } in
    persist_state (record n {
      log = record log { persistence = save_snapshot snapshot log.persistence };
      boards = restore_board_state boards;
      commit_index = index;
      last_applied = index;
    })

unfoldable pub handle_install_snapshot : InstallSnapshotArgs → Node → Node × InstallSnapshotResult
handle_install_snapshot args n =
    let n1 = accept_leader args.term args.leader_id none n in
    let n2 =
      if leb args.last_included_index n1.commit_index
      then n1
      else apply_snapshot args.last_included_index args.last_included_term args.boards n1 in
    if ltb args.term n.current_term
    then (n, record { term = n.current_term; responder_id = n.replica_id })
    else (n2, record { term = n2.current_term; responder_id = n2.replica_id })

-- `entries.filter((entry) => entry.index <= commitIndex)`
unfoldable pub committed_entries : ℕ → List LogEntry → List LogEntry
committed_entries c [] = []
committed_entries c (e ∷ es) =
    if leb e.index c then e ∷ committed_entries c es else committed_entries c es

unfoldable pub handle_sync_log : SyncLogArgs → Node → Node × SyncLogResult
unfolding committed_entries
handle_sync_log args n =
    let n1 = adopt_term args.term n in
    let tail : SyncLogResult = record {
      term = n1.current_term;
      entries = committed_entries n1.commit_index (RaftLog.get_entries_from args.from_index n1.log);
      commit_index = n1.commit_index;
      snapshot = none;
    } in
    if leb args.from_index (n1.log).last_included_index
    then (
      n1,
      elim (load_snapshot (n1.log).persistence) [
        | none ↦ tail
        | some s ↦ record tail { entries = []; snapshot = some s }
      ],
    )
    else (n1, tail)

-- One round of the loop over the entries of a catch-up: a conflict at or below the commit index is
-- passed over.
unfoldable pub catch_up_entry : ℕ → ℕ → LogEntry → RaftLog → RaftLog
catch_up_entry last_included commit e l =
    if leb e.index last_included
    then l
    else if conflicts (RaftLog.get_entry e.index l) e
    then (if leb e.index commit then l else append_missing e (RaftLog.truncate_from e.index l))
    else append_missing e l

unfoldable pub catch_up_loop : ℕ → ℕ → List LogEntry → RaftLog → RaftLog
unfolding catch_up_entry
catch_up_loop last_included commit [] l = l
catch_up_loop last_included commit (e ∷ es) l =
    catch_up_loop last_included commit es (catch_up_entry last_included commit e l)

-- `result.snapshot && result.snapshot.lastIncludedIndex > this.commitIndex`
unfoldable pub install_pulled : Option Snapshot → Node → Node
install_pulled none n = n
install_pulled (some s) n =
    if ltb n.commit_index s.last_included_index
    then apply_snapshot s.last_included_index s.last_included_term s.boards n
    else n

-- What `requestCatchUp` does with the answer of a target.
unfoldable pub catch_up : SyncLogResult → Node → Node
catch_up result n =
    let n1 = install_pulled result.snapshot (adopt_term result.term n) in
    let n2 = record n1 {
      log =
          catch_up_loop (n1.log).last_included_index n1.commit_index
            (committed_entries result.commit_index result.entries) n1.log;
    } in
    advance_commit result.commit_index n2

-- `leaderId ?? ''`
unfoldable pub sync_log_args : Node → SyncLogArgs
sync_log_args n = record {
  from_index = RaftLog.get_last_index n.log + 1;
  term = n.current_term;
  leader_id = elim n.leader_id [ none ↦ "" | some i ↦ i ];
}

-- `sync target args n` is what the node is and what the target has answered when the RPC ends;
-- `none` is a failed RPC, after which the next target is tried.
unfoldable pub catch_up_from :
    (String → SyncLogArgs → Node → Node × Option SyncLogResult) → List String → Node → Node
unfolding sync_log_args
catch_up_from sync [] n = n
catch_up_from sync (t ∷ ts) n =
    let (n', answer) = sync t (sync_log_args n) n in
    elim answer [ none ↦ catch_up_from sync ts n' | some r ↦ catch_up r n' ]

unfoldable pub request_catch_up :
    (String → SyncLogArgs → Node → Node × Option SyncLogResult) → Node → Node
unfolding catch_up_from
request_catch_up sync n =
    let targets : List String = elim (truthy n.leader_addr) [ none ↦ n.peers | some a ↦ a ∷ [] ] in
    if is_follower n.state then catch_up_from sync targets n else n
