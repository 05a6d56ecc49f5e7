-- ===== src/Node/Step/Committed.antt =====
-- What is committed stays: the commit index and the committed entries of a replica through any events.
use quorum_canvas.Base.{
  ℕ, ◌+◌, ◌≤◌, ◌≡◌, refl, Option, none, some, List, [], ◌∷◌, String, arith, if◌then◌else◌,
}
use quorum_canvas.Types.{
  LogEntry, Stroke, RequestVoteArgs, RequestVoteResult, AppendEntriesResult, HeartbeatResult,
  InstallSnapshotResult, SyncLogArgs,
}
use quorum_canvas.RaftLog
use quorum_canvas.RaftLog.Contiguous.{
  IndexedFrom, append-IsContiguous, get_last_index-append, get_entry-append_old,
}
use quorum_canvas.Node.{Node, become_follower, persist_state, start, stop}
use quorum_canvas.Node.Vote.{
  Election, on_election_timeout, on_vote_settled, grant_vote, handle_request_vote,
}
use quorum_canvas.Node.Append.Entries.{boundary-append}
use quorum_canvas.Node.Append.Commit.{
  IsSound, Grows, Grows-trans, Grows-frame, frame, append_entries-Grows, heartbeat-Grows,
}
use quorum_canvas.Node.Leader.{
  on_append_reply, on_snapshot_reply, drive_replication, replication_done, new_entry, append_own,
}
use quorum_canvas.Node.Leader.Quorum.{update_commit_index-Grows}
use quorum_canvas.Node.Follower.{handle_sync_log}
use quorum_canvas.Node.Follower.Committed.{frame-adopt_term, install_snapshot-Grows, catch_up-Grows}
use quorum_canvas.Node.Reads.{count_acks}
use quorum_canvas.Node.Step.{Event, step, run}

-- What an honest sender guarantees: the entries of a message carry consecutive indices, in an
-- AppendEntries request from `prevLogIndex` on, in the answer to a catch-up from an index that the
-- log has.
abbrev pub IsInOrder : Event → Node → Type 0
IsInOrder (Event.append_entries args) n = IndexedFrom args.prev_log_index args.entries
IsInOrder (Event.catches_up r) n =
    (p : ℕ) × IndexedFrom p r.entries × (p ≤ RaftLog.get_last_index n.log)
IsInOrder _ n = Unit {0}

-- Every event is in order at the node that it meets.
abbrev pub AreInOrder : List Event → Node → Type 0
AreInOrder [] n = Unit {0}
AreInOrder (e ∷ es) n = IsInOrder e n × AreInOrder es (step e n)

frame-request_vote :
    (args : RequestVoteArgs) (n : Node) → frame (handle_request_vote args n).0 ≡ frame n
unfolding handle_request_vote grant_vote persist_state
frame-request_vote args n = ground (arith, frame-adopt_term args.term n)

frame-sync_log : (args : SyncLogArgs) (n : Node) → frame (handle_sync_log args n).0 ≡ frame n
unfolding handle_sync_log
frame-sync_log args n = ground (arith, frame-adopt_term args.term n)

frame-times_out : (n : Node) → frame (step Event.times_out n) ≡ frame n
unfolding step on_election_timeout
frame-times_out n = ground arith

frame-vote_settled :
    (v : Election) (r : Option RequestVoteResult) (n : Node)
    → frame (on_vote_settled v r n).0 ≡ frame n
unfolding on_vote_settled
frame-vote_settled v none n = ground arith
frame-vote_settled v (some r) n = ground arith

frame-count_acks :
    (rs : List (Option HeartbeatResult)) (acks : ℕ) (n : Node)
    → frame (count_acks rs acks n).0 ≡ frame n
unfolding count_acks become_follower
frame-count_acks [] acks n = refl
frame-count_acks (none ∷ rs) acks n = frame-count_acks rs acks n
frame-count_acks (some r ∷ rs) acks n =
    ground (arith, frame-count_acks rs (if r.success then acks + 1 else acks) n)

frame-append_reply :
    (peer : String) (i : ℕ) (es : List LogEntry) (r : AppendEntriesResult) (n : Node)
    → frame (on_append_reply peer i es r n) ≡ frame n
unfolding on_append_reply become_follower
frame-append_reply peer i [] r n = ground arith
frame-append_reply peer i (e ∷ es) r n = ground arith

frame-snapshot_reply :
    (peer : String) (i : ℕ) (r : InstallSnapshotResult) (n : Node)
    → frame (on_snapshot_reply peer i r n) ≡ frame n
unfolding on_snapshot_reply become_follower
frame-snapshot_reply peer i r n = ground arith

frame-drive_replication : (peer : String) (n : Node) → frame (drive_replication peer n).0 ≡ frame n
unfolding drive_replication
frame-drive_replication peer n = ground arith

append_own-Grows :
    (stroke : Stroke) (n : Node) → IsSound n → Grows n (append_own (new_entry stroke n) n)
unfolding append_own new_entry
append_own-Grows stroke n s =
    let e = new_entry stroke n in
    let boundary = boundary-append e n.log in
    let logged = s.logged in
    record {
      sound = record {
        contiguous = append-IsContiguous e n.log s.contiguous (omega arith);
        covered = rw boundary s.covered;
        logged = omega (arith, get_last_index-append e n.log);
        applied = s.applied;
      };
      commit = omega arith;
      boundary = omega (arith, boundary);
      kept = λ i above below. get_entry-append_old e n.log i (omega arith);
    }

pub step-Grows : (e : Event) (n : Node) → IsSound n → IsInOrder e n → Grows n (step e n)
unfolding step
step-Grows Event.starts n s o = Grows-frame n _ s (unfold start in refl)
step-Grows Event.stops n s o = Grows-frame n _ s (unfold stop in refl)
step-Grows Event.times_out n s o = Grows-frame n _ s (frame-times_out n)
step-Grows (Event.vote_settles v r) n s o = Grows-frame n _ s (frame-vote_settled v r n)
step-Grows (Event.request_vote args) n s o = Grows-frame n _ s (frame-request_vote args n)
step-Grows (Event.append_entries args) n s o = append_entries-Grows args n s o
step-Grows (Event.heartbeat args) n s o = heartbeat-Grows args n s
step-Grows (Event.install_snapshot args) n s o = install_snapshot-Grows args n s
step-Grows (Event.sync_log args) n s o = Grows-frame n _ s (frame-sync_log args n)
step-Grows (Event.catches_up r) n s (p, ix, within) = catch_up-Grows r p n s ix within
step-Grows (Event.replicates peer) n s o = Grows-frame n _ s (frame-drive_replication peer n)
step-Grows (Event.replicated peer) n s o = Grows-frame n _ s (unfold replication_done in refl)
step-Grows (Event.append_reply peer i es r) n s o =
    Grows-frame n _ s (frame-append_reply peer i es r n)
step-Grows (Event.snapshot_reply peer i r) n s o =
    Grows-frame n _ s (frame-snapshot_reply peer i r n)
step-Grows Event.commits n s o =
    ground (arith, update_commit_index-Grows n s, Grows-frame n n s refl)
step-Grows (Event.client_write stroke) n s o =
    ground (arith, append_own-Grows stroke n s, Grows-frame n n s refl)
step-Grows (Event.confirms rs) n s o = Grows-frame n _ s (frame-count_acks rs 1 n)

-- Through any events whose entries are in order, a sound replica stays sound, takes back no commit
-- and changes no committed entry that its snapshot has not absorbed.
pub run-Grows : (es : List Event) (n : Node) → IsSound n → AreInOrder es n → Grows n (run es n)
unfolding run
run-Grows [] n s o = Grows-frame n n s refl
run-Grows (e ∷ es) n s (first, rest) =
    let x = step-Grows e n s first in
    Grows-trans n (step e n) _ x (run-Grows es (step e n) x.sound rest)
