-- ===== src/Examples/Lives.antt =====
-- Sequences of events at a replica whose state is on disk.
use quorum_canvas.Base.{arith, ℕ, ◌≡◌, refl, none, List, [], ◌∷◌}
use quorum_canvas.Types.{follower, RequestVoteArgs, HeartbeatArgs}
use quorum_canvas.RaftLog
use quorum_canvas.Node.{Node, construct}
use quorum_canvas.Node.Step.{Event, request_vote, append_entries, heartbeat, run}
use quorum_canvas.Node.Append.Commit.{IsSound}
use quorum_canvas.Node.Append.Match.{SameAbove}
use quorum_canvas.Node.Step.Recovery.{run-recovers}
use quorum_canvas.Node.Step.Saved.{IsSynced}
use quorum_canvas.Node.Step.Synced.{run-IsSynced}
use quorum_canvas.Examples.Data.{entry, replica, synced_log}

abbrev fresh : Node
fresh = replica follower 0 synced_log

abbrev asks : ℕ → RequestVoteArgs
asks t = record { term = t; candidate_id = "replica2"; last_log_index = 1; last_log_term = 1 }

abbrev beats : ℕ → HeartbeatArgs
beats t = record { term = t; leader_id = "replica2"; leader_addr = none; leader_commit = 1 }

-- An election in term 2, then the heartbeat of the leader that won it.
abbrev life : List Event
life = request_vote (asks 2) ∷ heartbeat (beats 2) ∷ []

run-IsSynced_example : IsSynced (run life fresh)
run-IsSynced_example = run-IsSynced life fresh refl

fresh-IsSound : IsSound fresh
unfolding RaftLog.get_last_index
fresh-IsSound = record {
  contiguous = (refl, tt);
  covered = omega arith;
  logged = ground arith;
  applied = refl;
}

-- The leader of term 2 sends an entry with its commit index, and the replica crashes afterwards.
abbrev last_life : List Event
last_life =
    request_vote (asks 2)
    ∷ append_entries (record {
      term = 2;
      leader_id = "replica2";
      leader_addr = none;
      prev_log_index = 1;
      prev_log_term = 1;
      entries = entry 2 2 ∷ [];
      leader_commit = 1;
    })
    ∷ []

run-recovers_example :
    let n' = run last_life fresh in
    let m = construct n'.config (n'.log).persistence in
    IsSound m
    × (m.commit_index ≡ n'.commit_index)
    × (m.current_term ≡ n'.current_term)
    × (m.voted_for ≡ n'.voted_for)
    × SameAbove n' m
run-recovers_example = run-recovers last_life fresh fresh-IsSound refl refl (tt, ((refl, tt), tt))
