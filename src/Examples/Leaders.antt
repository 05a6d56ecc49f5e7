-- ===== src/Examples/Leaders.antt =====
-- Leaders: what they commit, and a client write that one peer acknowledges.
use quorum_canvas.Base.{
  Option, none, some, List, All, ◌+◌, ℕ, ◌≤◌, ◌<◌, ◌≡◌, ◌⊎◌, refl, true, [], ◌∷◌, arith,
}
use quorum_canvas.Types.{leader, HeartbeatArgs, HeartbeatResult}
use quorum_canvas.Board.{get_strokes}
use quorum_canvas.Node.Reads.{
  heartbeat_args, count_acks, finish_confirm, confirm_leadership, read_board_state,
}
use quorum_canvas.Node.Reads.Confirmed.{IsNoNewer, acknowledged, read_board_state-confirmed}
use quorum_canvas.RaftLog
use quorum_canvas.Map
use quorum_canvas.Node.{Node, is_leader, commit_at, majority}
use quorum_canvas.Node.Append.Commit.{IsSound}
use quorum_canvas.Node.Leader.{
  new_entry, handle_client_write, update_commit_index, write_loop, finish_write, append_own,
  replicated_count, count_matching, find_committable,
}
use quorum_canvas.Node.Leader.Quorum.{HasQuorum, NoneAbove, update_commit_index_lem}
use quorum_canvas.Node.Leader.Write.{Keeps, handle_client_write-commits}
use quorum_canvas.Examples.Data.{drawn, replica, two_entries, three}

abbrev leading : Node
leading = record (replica leader 1 two_entries) { match_index = ("replica2", 2) ∷ [] }

leading-IsSound : IsSound leading
unfolding RaftLog.get_last_index
leading-IsSound = record {
  contiguous = (refl, (refl, tt));
  covered = omega arith;
  logged = ground arith;
  applied = refl;
}

update_commit_index_lem_example :
    ((update_commit_index leading ≡ leading) × NoneAbove 1 leading)
    ⊎ ((i : ℕ) × (update_commit_index leading ≡ commit_at i leading)
        × (1 < i)
        × HasQuorum i leading
        × NoneAbove i leading)
update_commit_index_lem_example = update_commit_index_lem leading leading-IsSound

-- Each wait of the leader, one peer acknowledges everything up to index 3.
abbrev acknowledges : ℕ → Node → Node
acknowledges k n = record n { match_index = ("replica2", 3) ∷ [] }

acknowledges-Keeps : (i k : ℕ) (m : Node) → Keeps three 1 i m → Keeps three 1 i (acknowledges k m)
acknowledges-Keeps i k m h = record {
  sound = record {
    contiguous = h.sound.contiguous;
    covered = h.sound.covered;
    logged = h.sound.logged;
    applied = h.sound.applied;
  };
  config = h.config;
  term = h.term;
  entry = h.entry;
}

write_succeeds : (handle_client_write acknowledges (drawn "new") leading).1.success ≡ true
unfolding handle_client_write write_loop finish_write new_entry append_own replicated_count
    count_matching majority update_commit_index find_committable RaftLog.append
    RaftLog.get_last_index Map.get_or Map.get
write_succeeds = refl

handle_client_write-commits_example :
    (new_entry (drawn "new") leading).index
    ≤ (handle_client_write acknowledges (drawn "new") leading).0.commit_index
handle_client_write-commits_example =
    handle_client_write-commits acknowledges (drawn "new") leading leading-IsSound
      (λ k m h _. acknowledges-Keeps _ k m h) write_succeeds

-- One peer acknowledges the heartbeat and the other does not answer.
abbrev beats : HeartbeatArgs → Node → Node × List (Option HeartbeatResult)
beats args n =
    (n, some (record { term = 1; success = true; responder_id = "replica2" }) ∷ none ∷ [])

read_succeeds : (read_board_state beats "board" leading).1.success ≡ true
unfolding read_board_state confirm_leadership finish_confirm count_acks heartbeat_args majority
read_succeeds = refl

read_board_state-confirmed_example :
    (is_leader leading.state ≡ true)
    × (is_leader leading.state ≡ true)
    × (leading.current_term ≡ 1)
    × All (IsNoNewer 1) (beats (heartbeat_args leading) leading).1
    × (majority leading ≤ 1 + acknowledged (beats (heartbeat_args leading) leading).1)
    × ((read_board_state beats "board" leading).1.strokes
        ≡ some (get_strokes "board" leading.boards))
read_board_state-confirmed_example = read_board_state-confirmed beats "board" leading read_succeeds
