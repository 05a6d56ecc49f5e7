-- ===== src/Types.antt =====
-- The data of replica/src/types.ts (and of gateway/src/types.ts, which repeats `Stroke`): strokes, log
-- entries, the arguments and results of the RPCs.
use quorum_canvas.Base.{
  ℕ, String, Bool, true, false, Option, none, some, List, if◌then◌else◌, str_eq,
}

-- A JavaScript number that is stored and passed on, as the 64 bits of its IEEE 754 pattern.
abbrev pub Double : Type 0
Double = ℕ

pub data Action : Type 0 where
  stroke undo_stroke redo_stroke : Action

pub record Stroke : Type 0 where
  pub id : String
  pub board_id : String
  pub user_id : String
  pub color : String
  pub width : Double
  pub points : List (Double × Double)
  pub timestamp : Double
  pub action : Option Action
  pub target_stroke_id : Option String

pub data NodeState : Type 0 where
  follower candidate leader : NodeState

pub record LogEntry : Type 0 where
  pub index : ℕ
  pub term : ℕ
  pub stroke : Stroke

-- `Record<string, Stroke[]>`, the per-board event lists of a snapshot, in the order of the keys.
abbrev pub BoardRecord : Type 0
BoardRecord = List (String × List Stroke)

pub record Snapshot : Type 0 where
  pub last_included_index : ℕ
  pub last_included_term : ℕ
  pub boards : BoardRecord

pub record PersistedState : Type 0 where
  pub current_term : ℕ
  pub voted_for : Option String
  pub commit_index : ℕ

pub record RequestVoteArgs : Type 0 where
  pub term : ℕ
  pub candidate_id : String
  pub last_log_index : ℕ
  pub last_log_term : ℕ

pub record RequestVoteResult : Type 0 where
  pub term : ℕ
  pub vote_granted : Bool
  pub responder_id : String

pub record AppendEntriesArgs : Type 0 where
  pub term : ℕ
  pub leader_id : String
  pub leader_addr : Option String
  pub prev_log_index : ℕ
  pub prev_log_term : ℕ
  pub entries : List LogEntry
  pub leader_commit : ℕ

pub record AppendEntriesResult : Type 0 where
  pub term : ℕ
  pub success : Bool
  pub responder_id : String
  pub current_log_length : ℕ

pub record HeartbeatArgs : Type 0 where
  pub term : ℕ
  pub leader_id : String
  pub leader_addr : Option String
  pub leader_commit : ℕ

pub record HeartbeatResult : Type 0 where
  pub term : ℕ
  pub success : Bool
  pub responder_id : String

pub record SyncLogArgs : Type 0 where
  pub from_index : ℕ
  pub term : ℕ
  pub leader_id : String

pub record SyncLogResult : Type 0 where
  pub term : ℕ
  pub entries : List LogEntry
  pub commit_index : ℕ
  pub snapshot : Option Snapshot

pub record InstallSnapshotArgs : Type 0 where
  pub term : ℕ
  pub leader_id : String
  pub last_included_index : ℕ
  pub last_included_term : ℕ
  pub boards : BoardRecord

pub record InstallSnapshotResult : Type 0 where
  pub term : ℕ
  pub responder_id : String

pub record ClientWriteResult : Type 0 where
  pub success : Bool
  pub leader_hint : Option String

pub record ReadBoardStateResult : Type 0 where
  pub success : Bool
  pub strokes : Option (List Stroke)
  pub leader_hint : Option String

pub record ReplicaStatus : Type 0 where
  pub replica_id : String
  pub state : NodeState
  pub current_term : ℕ
  pub leader_id : Option String
  pub log_length : ℕ
  pub commit_index : ℕ
  pub last_applied : ℕ

-- `event.action ?? 'stroke'`
abbrev pub action_or_stroke : Option Action → Action
action_or_stroke none = Action.stroke
action_or_stroke (some a) = a

-- A string that passes a truth test: it is there and it is not empty.
abbrev pub truthy : Option String → Option String
truthy none = none
truthy (some s) = if str_eq s "" then none else some s

abbrev pub is_stroke_action : Action → Bool
is_stroke_action Action.stroke = true
is_stroke_action _ = false
