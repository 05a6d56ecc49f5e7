-- ===== src/Examples/Data.antt =====
-- Sample strokes, log entries and replicas of a cluster of three.
use quorum_canvas.Base.{ℕ, String, false, true, none, some, List, [], ◌∷◌}
use quorum_canvas.Types.{Stroke, undo_stroke, redo_stroke, NodeState, LogEntry}
use quorum_canvas.Persistence.{Persistence, memory, file}
use quorum_canvas.RaftLog.{RaftLog}
use quorum_canvas.Board.{no_boards}
use quorum_canvas.Node.{Node, Config}

abbrev pub drawn : String → Stroke
drawn id = record {
  id = id;
  board_id = "board";
  user_id = "user";
  color = "#000000";
  width = 4611686018427387904;
  points = (0, 0) ∷ [];
  timestamp = 0;
  action = none;
  target_stroke_id = none;
}

abbrev pub undoes : String → Stroke
undoes id = record (drawn "undo") { action = some undo_stroke; target_stroke_id = some id }

abbrev pub redoes : String → Stroke
redoes id = record (drawn "redo") { action = some redo_stroke; target_stroke_id = some id }

abbrev pub entry : ℕ → ℕ → LogEntry
entry i t = record { index = i; term = t; stroke = drawn "stroke" }

abbrev pub three : Config
three = record {
  replica_id = "replica1";
  peers = "replica2" ∷ "replica3" ∷ [];
  snapshot_threshold = 100;
  self_url = "http://replica1:3001";
  batch_cap = 50;
}

abbrev pub log_of : List LogEntry → Persistence → RaftLog
log_of es p = record {
  entries = es;
  last_included_index = 0;
  last_included_term = 0;
  persistence = p;
}

-- A replica in term 1 that has committed and applied its first `c` entries.
abbrev pub replica : NodeState → ℕ → RaftLog → Node
replica role c log = record {
  config = three;
  current_term = 1;
  voted_for = none;
  log = log;
  state = role;
  leader_id = none;
  leader_addr = none;
  commit_index = c;
  last_applied = c;
  next_index = [];
  match_index = [];
  replicating = [];
  boards = no_boards;
  timers = record { election_timer = true; heartbeat_timer = false; election_callback = true };
}

-- Two entries of term 1, kept in memory only.
abbrev pub two_entries : RaftLog
two_entries = log_of (entry 1 1 ∷ entry 2 1 ∷ []) memory

-- A log on disk, with the state file that goes with `replica role 0`.
abbrev pub synced_log : RaftLog
synced_log = log_of (entry 1 1 ∷ []) (
    file (record {
      state = some (record { current_term = 1; voted_for = none; commit_index = 0 });
      wal = entry 1 1 ∷ [];
      snapshot = none;
    }))
