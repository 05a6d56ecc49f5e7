-- ===== src/UseBoard.antt =====
-- frontend/src/hooks/useBoard.ts: the board as a browser shows it, with the changes that it makes before
-- the gateway has answered. A state update runs once, where it is requested, and what a callback reads
-- of the last rendering is the present state. Ids, times and what `send` answers are arguments.
pub mod Agreement
pub mod Rollbacks
pub mod Missed
pub mod UndoRedo
pub mod Restored
use quorum_canvas.Base.{
  ℕ, ◌+◌, String, Bool, true, false, ◌&&◌, not, Option, none, some, List, [], ◌∷◌, ◌++◌, ◌==◌,
  if◌then◌else◌, str_eq,
}
use quorum_canvas.Map
use quorum_canvas.Map.StringSet
use quorum_canvas.Types.{
  Double, Stroke, Action, stroke, undo_stroke, redo_stroke, action_or_stroke, truthy,
  is_stroke_action,
}
use quorum_canvas.Board.{without_id, some_id}

-- The three rollbacks that the hook keeps: of a drawing, of an undo and of a redo.
pub data Rollback : Type 0 where
  remove_stroke : String → Rollback
  undo_undo : String → Stroke → Rollback
  undo_redo : String → Rollback

-- `timers` are the handles in `pendingTimersRef`; `armed` are the timers that will fire, each with the
-- stroke of its callback.
pub record BoardState : Type 0 where
  pub strokes : List Stroke
  pub users : List String
  pub redo_stroke_ids : List String
  pub archive : List (String × Stroke)
  pub pending : List (String × Rollback)
  pub timers : List (String × ℕ)
  pub armed : List (ℕ × String)
  pub next_timer : ℕ

unfoldable pub initial_board : BoardState
initial_board = record {
  strokes = [];
  users = [];
  redo_stroke_ids = [];
  archive = [];
  pending = [];
  timers = [];
  armed = [];
  next_timer = 1;
}

-- `applyStrokeEvent`, by the action and the target of the event.
unfoldable pub apply_pointer : Action → Option String → Stroke → BoardState → BoardState
apply_pointer undo_stroke (some t) e b = record b { strokes = without_id t b.strokes }
apply_pointer redo_stroke (some t) e b =
    if some_id t b.strokes then b else elim (Map.get t b.archive) [
      | none ↦ b
      | some s ↦ record b { strokes = b.strokes ++ s ∷ [] }
    ]
apply_pointer _ _ e b =
    if some_id e.id b.strokes
    then b
    else record b { archive = Map.set e.id e b.archive; strokes = b.strokes ++ e ∷ [] }

unfoldable pub apply_stroke_event : BoardState → Stroke → BoardState
unfolding apply_pointer
apply_stroke_event b e = apply_pointer (action_or_stroke e.action) (truthy e.target_stroke_id) e b

-- `clearTimeout`.
unfoldable pub clear_timeout : ℕ → List (ℕ × String) → List (ℕ × String)
clear_timeout h [] = []
clear_timeout h ((k, i) ∷ ts) =
    let rest = clear_timeout h ts in if k == h then rest else (k, i) ∷ rest

unfoldable pub clear_existing : Option ℕ → List (ℕ × String) → List (ℕ × String)
unfolding clear_timeout
clear_existing none ts = ts
clear_existing (some h) ts = clear_timeout h ts

unfoldable pub track_pending : String → Rollback → BoardState → BoardState
unfolding clear_existing
track_pending i rollback b = record b {
  pending = Map.set i rollback b.pending;
  armed = clear_existing (Map.get i b.timers) b.armed ++ (b.next_timer, i) ∷ [];
  timers = Map.set i b.next_timer b.timers;
  next_timer = b.next_timer + 1;
}

unfoldable pub clear_pending : String → BoardState → BoardState
unfolding clear_existing
clear_pending i b = record b {
  armed = clear_existing (Map.get i b.timers) b.armed;
  timers = Map.delete i b.timers;
  pending = Map.delete i b.pending;
}

-- The callback of a timer.
unfoldable pub on_timer : ℕ → String → BoardState → BoardState
unfolding clear_timeout
on_timer h i b = record b {
  armed = clear_timeout h b.armed;
  pending = Map.delete i b.pending;
  timers = Map.delete i b.timers;
}

-- `ids.filter((id) => id !== i)`
unfoldable pub without : String → List String → List String
without i [] = []
without i (j ∷ js) = let rest = without i js in if str_eq j i then rest else j ∷ rest

unfoldable pub roll_back : Rollback → BoardState → BoardState
unfolding without
roll_back (remove_stroke i) b = record b { strokes = without_id i b.strokes }
roll_back (undo_undo i s) b = record b {
  strokes = if some_id i b.strokes then b.strokes else b.strokes ++ s ∷ [];
  redo_stroke_ids = without i b.redo_stroke_ids;
}
roll_back (undo_redo i) b = record b {
  strokes = without_id i b.strokes;
  redo_stroke_ids = b.redo_stroke_ids ++ i ∷ [];
}

-- `runPendingRollback`, by the rollback that is found.
unfoldable pub run_rollback : String → Option Rollback → BoardState → BoardState
unfolding roll_back
run_rollback i none b = record b { strokes = without_id i b.strokes }
run_rollback i (some r) b = roll_back r b

unfoldable pub run_pending_rollback : String → BoardState → BoardState
unfolding run_rollback clear_pending
run_pending_rollback i b = run_rollback i (Map.get i b.pending) (clear_pending i b)

-- When the component is taken off the page.
unfoldable pub unmount : BoardState → BoardState
unmount b = record b { armed = []; timers = []; pending = [] }

-- The messages of a gateway; an error by its code and its stroke.
pub data Incoming : Type 0 where
  join_ack : List Stroke → Incoming
  stroke_broadcast : Stroke → Incoming
  user_joined : String → Incoming
  user_left : String → Incoming
  error : Option String → Option String → Incoming

-- The drawings of a list, by id, a later one in place of an earlier one.
unfoldable pub archive_from : List (String × Stroke) → List Stroke → List (String × Stroke)
archive_from m [] = m
archive_from m (s ∷ ss) =
    let rest = archive_from m ss in
    let rest' = archive_from (Map.set s.id s m) ss in
    if is_stroke_action (action_or_stroke s.action) then rest' else rest

unfoldable pub handle_message : Incoming → BoardState → BoardState
unfolding archive_from apply_stroke_event without run_pending_rollback
handle_message (join_ack ss) b = record b {
  archive = archive_from [] ss;
  strokes = ss;
  redo_stroke_ids = [];
}
handle_message (stroke_broadcast s) b = apply_stroke_event b s
handle_message (user_joined u) b = record b {
  users = if StringSet.has u b.users then b.users else b.users ++ u ∷ [];
}
handle_message (user_left u) b = record b { users = without u b.users }
handle_message (error code none) b = b
handle_message (error none (some i)) b = b
handle_message (error (some c) (some i)) b =
    if str_eq c "RAFT_WRITE_FAILED" && not (str_eq i "") then run_pending_rollback i b else b

unfoldable pub submit_stroke_message : Bool → Stroke → Rollback → BoardState → BoardState
unfolding track_pending run_pending_rollback
submit_stroke_message sent s rollback b =
    if sent
    then track_pending s.id rollback b
    else run_pending_rollback s.id (track_pending s.id rollback b)

unfoldable pub add_stroke : Bool → Stroke → BoardState → BoardState
unfolding apply_stroke_event submit_stroke_message
add_stroke sent s b =
    let b' = apply_stroke_event (record b { archive = Map.set s.id s b.archive }) s in
    submit_stroke_message sent s (remove_stroke s.id) (record b' { redo_stroke_ids = [] })
