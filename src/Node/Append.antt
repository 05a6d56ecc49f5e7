-- ===== src/Node/Append.antt =====
-- The follower's side of replication in replica/src/raftNode.ts: AppendEntries and Heartbeat.
pub mod Entries
pub mod Commit
pub mod Match
pub mod Applied
use quorum_canvas.Base.{
  ℕ, Bool, true, false, ◌&&◌, not, Option, none, some, List, [], ◌∷◌, ltb, leb, ◌==◌, if◌then◌else◌,
}
use quorum_canvas.Types.{
  LogEntry, AppendEntriesArgs, AppendEntriesResult, HeartbeatArgs, HeartbeatResult,
}
use quorum_canvas.RaftLog
use quorum_canvas.RaftLog.{RaftLog}
use quorum_canvas.Node.{Node, accept_leader, advance_commit}

-- `existing && existing.term !== entry.term`
abbrev pub conflicts : Option LogEntry → LogEntry → Bool
conflicts none e = false
conflicts (some x) e = not (x.term == e.term)

-- `if (!this.log.getEntry(entry.index)) this.log.append(entry)`
unfoldable pub append_missing : LogEntry → RaftLog → RaftLog
append_missing e l = elim (RaftLog.get_entry e.index l) [ none ↦ RaftLog.append e l | some _ ↦ l ]

-- One round of the loop over the entries: `none` where it returns early, on a conflict at or below
-- the commit index.
unfoldable pub append_entry : ℕ → ℕ → LogEntry → RaftLog → Option RaftLog
append_entry last_included commit e l =
    if leb e.index last_included
    then some l
    else if conflicts (RaftLog.get_entry e.index l) e
    then (if leb e.index commit
        then none
        else some (append_missing e (RaftLog.truncate_from e.index l)))
    else some (append_missing e l)

-- The loop: the log that it leaves, and whether it ran to its end.
unfoldable pub append_loop : ℕ → ℕ → List LogEntry → RaftLog → RaftLog × Bool
append_loop last_included commit [] l = (l, true)
append_loop last_included commit (e ∷ es) l = elim (append_entry last_included commit e l) [
  | none ↦ (l, false)
  | some l' ↦ append_loop last_included commit es l'
]

-- `!prevEntry || prevEntry.term !== args.prevLogTerm`
abbrev pub lacks_term : Option LogEntry → ℕ → Bool
lacks_term none t = true
lacks_term (some x) t = not (x.term == t)

-- The two tests of the consistency check that refuse the request.
unfoldable pub prev_mismatch : ℕ → ℕ → RaftLog → Bool
prev_mismatch index term l =
    if ltb l.last_included_index index
    then lacks_term (RaftLog.get_entry index l) term
    else (index == l.last_included_index && ltb 0 l.last_included_index)
      && not (l.last_included_term == term)

unfoldable pub append_result : Bool → Node → AppendEntriesResult
append_result success n = record {
  term = n.current_term;
  success = success;
  responder_id = n.replica_id;
  current_log_length = RaftLog.get_length n.log;
}

-- Past the consistency check.
unfoldable pub append_accepted : AppendEntriesArgs → Node → Node × AppendEntriesResult
append_accepted args n =
    let (log, done) = append_loop (n.log).last_included_index n.commit_index args.entries n.log in
    let n2 = record n { log = log } in
    let n3 = advance_commit args.leader_commit n2 in
    if done then (n3, append_result true n3) else (n2, append_result false n2)

unfoldable pub handle_append_entries : AppendEntriesArgs → Node → Node × AppendEntriesResult
handle_append_entries args n =
    let n1 = accept_leader args.term args.leader_id args.leader_addr n in
    if ltb args.term n.current_term
    then (n, append_result false n)
    else if prev_mismatch args.prev_log_index args.prev_log_term n1.log
    then (n1, append_result false n1)
    else append_accepted args n1

unfoldable pub handle_heartbeat : HeartbeatArgs → Node → Node × HeartbeatResult
handle_heartbeat args n =
    let n1 = accept_leader args.term args.leader_id args.leader_addr n in
    let n2 = advance_commit args.leader_commit n1 in
    if ltb args.term n.current_term
    then (n, record { term = n.current_term; success = false; responder_id = n.replica_id })
    else (n2, record { term = n2.current_term; success = true; responder_id = n2.replica_id })
