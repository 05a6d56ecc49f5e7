-- ===== src/Node/Reads.antt =====
-- ReadIndex in replica/src/raftNode.ts: a read is served after a majority has confirmed the leader.
pub mod Confirmed
use quorum_canvas.Base.{
  ℕ, ◌+◌, String, Bool, true, false, ◌&&◌, not, Option, none, some, List, [], ◌∷◌, ltb, leb, ◌==◌,
  if◌then◌else◌,
}
use quorum_canvas.Types.{HeartbeatArgs, HeartbeatResult, ReadBoardStateResult}
use quorum_canvas.Board.{get_strokes}
use quorum_canvas.Node.{Node, is_leader, become_follower, majority}

unfoldable pub heartbeat_args : Node → HeartbeatArgs
heartbeat_args n = record {
  term = n.current_term;
  leader_id = n.replica_id;
  leader_addr = some n.self_url;
  leader_commit = n.commit_index;
}

-- The loop over the settled heartbeats: `none` where a higher term makes it return, or else the acks.
unfoldable pub count_acks : List (Option HeartbeatResult) → ℕ → Node → Node × Option ℕ
count_acks [] acks n = (n, some acks)
count_acks (none ∷ rs) acks n = count_acks rs acks n
count_acks (some r ∷ rs) acks n =
    let rest = count_acks rs (if r.success then acks + 1 else acks) n in
    if ltb n.current_term r.term then (become_follower r.term none none n, none) else rest

unfoldable pub finish_confirm : ℕ → ℕ → Node × Option ℕ → Node × Bool
finish_confirm term quorum (n, none) = (n, false)
finish_confirm term quorum (n, some acks) =
    (n, (is_leader n.state && n.current_term == term) && leb quorum acks)

-- `beat args n` is what the node is and what the peers have answered when the heartbeats have settled.
unfoldable pub confirm_leadership :
    (HeartbeatArgs → Node → Node × List (Option HeartbeatResult)) → Node → Node × Bool
unfolding heartbeat_args count_acks finish_confirm
confirm_leadership beat n =
    let (n1, results) = beat (heartbeat_args n) n in
    if is_leader n.state
    then finish_confirm n.current_term (majority n) (count_acks results 1 n1)
    else (n, false)

unfoldable pub read_board_state :
    (HeartbeatArgs → Node → Node × List (Option HeartbeatResult))
    → String
    → Node
    → Node × ReadBoardStateResult
read_board_state beat board_id n =
    let (n1, confirmed) = confirm_leadership beat n in
    if not (is_leader n.state)
    then (n, record { success = false; strokes = none; leader_hint = n.leader_addr })
    else if not confirmed
    then (n1, record { success = false; strokes = none; leader_hint = n1.leader_addr })
    else (
      n1,
      record {
        success = true;
        strokes = some (get_strokes board_id n1.boards);
        leader_hint = none;
      },
    )
