-- ===== src/Node/Step/Departures.antt =====
-- Where a step departs from the Raft protocol: a vote that is forgotten within its term, and entries
-- that are committed without having been compared with the leader's.
use quorum_canvas.Base.{ℕ, ◌≤◌, ◌<◌, min, ◌≡◌, ap, ◌∙◌, inl, inr, true, none, some, arith, lt→ltb}
use quorum_canvas.Types.{follower, candidate, RequestVoteArgs, HeartbeatArgs, LogEntry}
use quorum_canvas.RaftLog
use quorum_canvas.RaftLog.{RaftLog}
use quorum_canvas.RaftLog.Contiguous.{get_entry_le}
use quorum_canvas.Node.{Node, accept_leader, advance_commit}
use quorum_canvas.Node.Vote.{handle_request_vote}
use quorum_canvas.Node.Vote.Ballots.{IsUpToDate, handle_request_vote_lem}
use quorum_canvas.Node.Append.{handle_heartbeat}
use quorum_canvas.Node.Append.Commit.{
  IsSound, frame-accept_leader, last_index-frame, heartbeat-Grows,
}
use quorum_canvas.Node.Leader.Write.{commit_index-commit_at}
use quorum_canvas.Node.Step.Term.{ballot, ballot-advance_commit}

candidate-heartbeat :
    (beat : HeartbeatArgs) (n : Node)
    → n.state ≡ candidate
    → beat.term ≡ n.current_term
    → ballot (handle_heartbeat beat n).0
      ≡ record { config = n.config; term = n.current_term; vote = none; role = follower }
unfolding handle_heartbeat accept_leader
candidate-heartbeat beat n c same = ground (
  arith,
  ballot-advance_commit beat.leader_commit
      (accept_leader beat.term beat.leader_id beat.leader_addr n),
)

-- A candidate that has voted for itself and hears from the leader of its own term forgets that vote:
-- it then grants the vote of the same term to any other candidate whose log is far enough.
pub heartbeat-forgets_vote :
    (beat : HeartbeatArgs) (args : RequestVoteArgs) (n : Node)
    → n.state ≡ candidate
    → n.voted_for ≡ some n.replica_id
    → beat.term ≡ n.current_term
    → args.term ≡ n.current_term
    → let n' = (handle_heartbeat beat n).0 in
      IsUpToDate args n'.log
      → let (n'', r) = handle_request_vote args n' in
        (r.vote_granted ≡ true)
        × (n''.current_term ≡ n.current_term)
        × (n''.voted_for ≡ some args.candidate_id)
heartbeat-forgets_vote beat args n c self same_beat same_vote far =
    let n' = (handle_heartbeat beat n).0 in
    let b = candidate-heartbeat beat n c same_beat in
    let v = handle_request_vote_lem args n' in
    let term : n'.current_term ≡ n.current_term = ap (λ x. x.term) b in
    let vote : n'.voted_for ≡ none = ap (λ x. x.vote) b in
    let granted = v.0.1 (inr (omega arith, inl vote), far) in
    (granted, (v.1 granted).0 ∙ same_vote, (v.1 granted).1)

commit_index-advance_commit :
    (c : ℕ) (n : Node)
    → n.commit_index < c
    → (advance_commit c n).commit_index ≡ min c (RaftLog.get_last_index n.log)
unfolding advance_commit
commit_index-advance_commit c n h = rw (lt→ltb n.commit_index c h) (commit_index-commit_at _ n)

commit_index-heartbeat :
    (beat : HeartbeatArgs) (n : Node) (i : ℕ) (x : LogEntry)
    → n.current_term ≤ beat.term
    → n.commit_index < i
    → RaftLog.get_entry i n.log ≡ some x
    → i ≤ beat.leader_commit
    → i ≤ (handle_heartbeat beat n).0.commit_index
unfolding handle_heartbeat
commit_index-heartbeat beat n i x fresh new found covered =
    let n1 = accept_leader beat.term beat.leader_id beat.leader_addr n in
    let same = frame-accept_leader beat.term beat.leader_id beat.leader_addr n in
    ground (
      arith,
      ap (λ f. f.commit) same,
      last_index-frame n n1 same,
      get_entry_le i n.log found,
      commit_index-advance_commit beat.leader_commit n1,
    )

-- A heartbeat carries nothing about the log, and yet it makes a follower commit every entry that its
-- own log has up to the leader's commit index, and apply it, whatever the entry and its term.
pub heartbeat-commits_unchecked :
    (beat : HeartbeatArgs) (n : Node) (i : ℕ) (x : LogEntry)
    → IsSound n
    → n.current_term ≤ beat.term
    → n.commit_index < i
    → RaftLog.get_entry i n.log ≡ some x
    → i ≤ beat.leader_commit
    → let n' = (handle_heartbeat beat n).0 in (i ≤ n'.commit_index) × (i ≤ n'.last_applied)
heartbeat-commits_unchecked beat n i x s fresh new found covered =
    let up = commit_index-heartbeat beat n i x fresh new found covered in
    (up, omega (arith, up, (heartbeat-Grows beat n s).sound.applied))
