-- ===== src/Node/Routes.antt =====
-- The HTTP answers of replica/src/rpcHandlers.ts and replica/src/index.ts to a gateway's reads.
use quorum_canvas.Base.{
  ℕ, String, ◌≡◌, refl, Option, none, some, [], if◌then◌else◌, Bool-cases, inl, inr,
}
use quorum_canvas.Types.{ReadBoardStateResult, truthy}
use quorum_canvas.Node.{Node, is_ready}
use quorum_canvas.RemoteClient.{ReadAnswer}
use quorum_canvas.RemoteClient.Reads.{confirmed, or_empty}

-- `/board-state` once `readBoardState` has answered.
unfoldable pub read_answer : ReadBoardStateResult → ReadAnswer
read_answer r =
    if r.success
    then record { status = 200; strokes = or_empty r.strokes; leader_hint = none }
    else record { status = 421; strokes = []; leader_hint = r.leader_hint }

-- `/board-state`.
unfoldable pub board_state_answer : (String → ReadBoardStateResult) → Option String → ReadAnswer
unfolding read_answer
board_state_answer read board_id = elim (truthy board_id) [
  | none ↦ record { status = 400; strokes = []; leader_hint = none }
  | some b ↦ read_answer (read b)
]

-- `/ready`.
unfoldable pub ready_status : Node → ℕ
ready_status n = if is_ready n then 200 else 503

-- A gateway takes the answer for a confirmed board exactly if the read has succeeded.
confirmed-read_answer :
    (r : ReadBoardStateResult)
    → confirmed (some (read_answer r)) ≡ (if r.success then some (or_empty r.strokes) else none)
unfolding read_answer
confirmed-read_answer r = elim (Bool-cases r.success) [ inl y ↦ simp y refl | inr n ↦ simp n refl ]
