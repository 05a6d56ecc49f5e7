-- ===== src/Examples/Replicas.antt =====
-- Followers: AppendEntries, heartbeats and votes at a replica with two entries.
use quorum_canvas.Base.{
  Option, List, leb, ◌+◌, ◌-◌, ◌≤◌, ◌≡◌, refl, true, none, some, [], ◌∷◌, foldl, arith, inr,
}
use quorum_canvas.Types.{
  follower, candidate, AppendEntriesArgs, HeartbeatArgs, RequestVoteArgs, RequestVoteResult,
}
use quorum_canvas.RaftLog
use quorum_canvas.Board.{apply_board_event}
use quorum_canvas.Node.{
  Node, is_leader, majority, commit_at, accept_leader, become_follower, reset_election,
  persist_state, reset_election_timer, stop_heartbeat, advance_commit, apply_committed,
  maybe_snapshot, take_snapshot,
}
use quorum_canvas.Node.Append.{
  append_loop, prev_mismatch, append_accepted, append_entry, append_missing, append_result,
  handle_append_entries, handle_heartbeat,
}
use quorum_canvas.Node.Append.Entries.{Holds}
use quorum_canvas.Node.Append.Commit.{IsSound, Grows}
use quorum_canvas.Node.Append.Match.{append_entries-Holds}
use quorum_canvas.Node.Append.Applied.{strokes_after, boards-commit_at}
use quorum_canvas.Node.Vote.{run_election, handle_request_vote}
use quorum_canvas.Node.Vote.Replies.{settle}
use quorum_canvas.Node.Vote.Elections.{run_election-elects}
use quorum_canvas.Node.Step.{Event, run}
use quorum_canvas.Node.Step.Committed.{run-Grows}
use quorum_canvas.Node.Vote.Ballots.{IsUpToDate}
use quorum_canvas.Node.Step.Departures.{heartbeat-forgets_vote, heartbeat-commits_unchecked}
use quorum_canvas.Examples.Data.{entry, replica, two_entries}

abbrev behind : Node
behind = replica follower 1 two_entries

behind-IsSound : IsSound behind
unfolding RaftLog.get_last_index
behind-IsSound = record {
  contiguous = (refl, (refl, tt));
  covered = omega arith;
  logged = ground arith;
  applied = refl;
}

-- A leader of term 2 replaces the second entry and adds a third.
abbrev request : AppendEntriesArgs
request = record {
  term = 2;
  leader_id = "replica2";
  leader_addr = none;
  prev_log_index = 1;
  prev_log_term = 1;
  entries = entry 2 2 ∷ entry 3 2 ∷ [];
  leader_commit = 2;
}

request_succeeds : (handle_append_entries request behind).1.success ≡ true
unfolding handle_append_entries accept_leader become_follower reset_election persist_state
    reset_election_timer stop_heartbeat prev_mismatch append_accepted append_loop append_entry
    append_missing append_result advance_commit commit_at apply_committed maybe_snapshot
    take_snapshot RaftLog.get_entry RaftLog.get_last_index RaftLog.get_term_at RaftLog.truncate_from
    RaftLog.append
request_succeeds = refl

append_entries-Holds_example :
    let n' = (handle_append_entries request behind).0 in
    Holds (n'.log).last_included_index request.entries n'.log
append_entries-Holds_example =
    append_entries-Holds request behind behind-IsSound (refl, (refl, tt)) request_succeeds

boards-commit_at_example :
    (commit_at 2 behind).boards
    ≡ foldl apply_board_event behind.boards (strokes_after 1 (2 - 1) two_entries)
unfolding RaftLog.get_last_index
boards-commit_at_example = boards-commit_at 2 behind behind-IsSound (omega arith) (ground arith)

abbrev beat : HeartbeatArgs
beat = record { term = 1; leader_id = "replica2"; leader_addr = none; leader_commit = 2 }

heartbeat-commits_unchecked_example :
    let n' = (handle_heartbeat beat behind).0 in (2 ≤ n'.commit_index) × (2 ≤ n'.last_applied)
unfolding RaftLog.get_entry
heartbeat-commits_unchecked_example =
    heartbeat-commits_unchecked beat behind 2 (entry 2 1) behind-IsSound (omega arith) (omega arith)
      refl (omega arith)

abbrev ballot_request : RequestVoteArgs
ballot_request = record {
  term = 1;
  candidate_id = "replica3";
  last_log_index = 2;
  last_log_term = 1;
}

-- A candidate that has voted for itself in term 1.
abbrev running : Node
running = record (replica candidate 1 two_entries) { voted_for = some "replica1" }

end_after_beat : IsUpToDate ballot_request (handle_heartbeat beat running).0.log
unfolding handle_heartbeat accept_leader become_follower reset_election persist_state
    reset_election_timer stop_heartbeat advance_commit commit_at apply_committed maybe_snapshot
    take_snapshot RaftLog.get_entry RaftLog.get_last_index RaftLog.get_last_term
    RaftLog.last_term_of
end_after_beat = inr (refl, omega arith)

heartbeat-forgets_vote_example :
    let n' = (handle_heartbeat beat running).0 in
    let (n'', r) = handle_request_vote ballot_request n' in
    (r.vote_granted ≡ true) × (n''.current_term ≡ 1) × (n''.voted_for ≡ some "replica3")
heartbeat-forgets_vote_example =
    heartbeat-forgets_vote beat ballot_request running refl refl refl refl end_after_beat

-- A vote, the request of the new leader and its next heartbeat.
abbrev events : List Event
events =
    Event.request_vote ballot_request
    ∷ Event.append_entries request
    ∷ Event.heartbeat (record beat { term = 2; leader_commit = 3 })
    ∷ []

run-Grows_example : Grows behind (run events behind)
run-Grows_example = run-Grows events behind behind-IsSound (tt, ((refl, (refl, tt)), (tt, tt)))

-- One peer grants its vote and the request to the other fails.
abbrev replies : List (Option RequestVoteResult)
replies = some (record { term = 2; vote_granted = true; responder_id = "replica2" }) ∷ none ∷ []

run_election-elects_example :
    let (n1, v1, args) = run_election behind in
    is_leader (settle v1 replies n1).0.state ≡ leb (majority behind) (1 + 1)
run_election-elects_example = run_election-elects replies behind refl (omega arith, (tt, tt))
