-- ===== src/Board.antt =====
-- The board state that a replica derives from its committed entries: `boardEvents`,
-- `undoneStrokeIds` and `boardStrokes` of replica/src/raftNode.ts, three maps keyed by the board.
pub mod View
pub mod Replay
pub mod Visible
pub mod Shown
pub mod Effects
use quorum_canvas.Base.{
  String, Bool, true, false, ◌&&◌, ◌||◌, not, Option, none, some, List, [], ◌∷◌, ◌++◌, foldl,
  str_eq, if◌then◌else◌,
}
use quorum_canvas.Map
use quorum_canvas.Map.StringSet
use quorum_canvas.Types.{
  Stroke, Action, stroke, undo_stroke, redo_stroke, BoardRecord, action_or_stroke, truthy,
  is_stroke_action,
}

pub record Boards : Type 0 where
  pub board_events : List (String × List Stroke)
  pub undone_stroke_ids : List (String × List String)
  pub board_strokes : List (String × List Stroke)

unfoldable pub no_boards : Boards
no_boards = record { board_events = []; undone_stroke_ids = []; board_strokes = [] }

-- `strokes.filter((stroke) => stroke.id !== id)`
unfoldable pub without_id : String → List Stroke → List Stroke
without_id i [] = []
without_id i (s ∷ ss) = if str_eq s.id i then without_id i ss else s ∷ without_id i ss

-- `strokes.some((stroke) => stroke.id === id)`
unfoldable pub some_id : String → List Stroke → Bool
some_id i [] = false
some_id i (s ∷ ss) = str_eq s.id i || some_id i ss

-- The first drawing event with the id, as `events.find` looks for it on a redo.
unfoldable pub find_drawn : String → List Stroke → Option Stroke
find_drawn i [] = none
find_drawn i (s ∷ ss) =
    if is_stroke_action (action_or_stroke s.action) && str_eq s.id i
    then some s
    else find_drawn i ss

-- `if (!map.has(boardId)) map.set(boardId, empty)`
unfoldable pub ensure {ℓ} : {V : Type ℓ} → String → V → List (String × V) → List (String × V)
ensure k v m = if Map.has k m then m else Map.set k v m

unfoldable pub ensure_board_state : String → Boards → Boards
unfolding ensure
ensure_board_state board_id b = record {
  board_events = ensure board_id [] b.board_events;
  undone_stroke_ids = ensure board_id [] b.undone_stroke_ids;
  board_strokes = ensure board_id [] b.board_strokes;
}

-- `visible` after a redo of `t`: the stroke comes back at the end, if it is missing and was drawn.
unfoldable pub redo_visible : String → List Stroke → List Stroke → List Stroke
unfolding some_id find_drawn
redo_visible t events visible =
    if some_id t visible
    then visible
    else elim (find_drawn t events) [ none ↦ visible | some s ↦ visible ++ s ∷ [] ]

-- The three cases of `applyBoardEvent`, after the event has been pushed. A redo that finds nothing
-- to bring back writes no list; here it writes the old one in place, which is the same map.
unfoldable pub apply_action : Action → Option String → Stroke → Boards → Boards
unfolding without_id redo_visible
apply_action undo_stroke (some t) e b = record b {
  undone_stroke_ids =
      Map.set e.board_id (StringSet.add t (Map.get_or e.board_id b.undone_stroke_ids []))
        b.undone_stroke_ids;
  board_strokes =
      Map.set e.board_id (without_id t (Map.get_or e.board_id b.board_strokes [])) b.board_strokes;
}
apply_action redo_stroke (some t) e b = record b {
  undone_stroke_ids =
      Map.set e.board_id (StringSet.delete t (Map.get_or e.board_id b.undone_stroke_ids []))
        b.undone_stroke_ids;
  board_strokes =
      Map.set e.board_id
        (redo_visible t (Map.get_or e.board_id b.board_events [])
          (Map.get_or e.board_id b.board_strokes []))
        b.board_strokes;
}
apply_action _ _ e b =
    if StringSet.has e.id (Map.get_or e.board_id b.undone_stroke_ids []) then b else record b {
      board_strokes =
          Map.set e.board_id (Map.get_or e.board_id b.board_strokes [] ++ e ∷ []) b.board_strokes;
    }

push_event : Stroke → Boards → Boards
push_event e b = record b {
  board_events =
      Map.set e.board_id (Map.get_or e.board_id b.board_events [] ++ e ∷ []) b.board_events;
}

unfoldable pub apply_board_event : Boards → Stroke → Boards
unfolding ensure_board_state push_event apply_action
apply_board_event b e =
    apply_action (action_or_stroke e.action) (truthy e.target_stroke_id) e
      (push_event e (ensure_board_state e.board_id b))

-- The two loops of `restoreBoardState`, over the boards and over the events of each.
unfoldable pub restore_from : Boards → BoardRecord → Boards
restore_from b [] = b
restore_from b ((k, events) ∷ boards) = restore_from (foldl apply_board_event b events) boards

unfoldable pub restore_board_state : BoardRecord → Boards
unfolding restore_from no_boards
restore_board_state boards = restore_from no_boards boards

-- `takeSnapshot` copies the event list of each board into an object; the board `__proto__`, which an
-- object literal does not take as a key, is left aside.
unfoldable pub snapshot_boards : Boards → BoardRecord
snapshot_boards b = b.board_events

unfoldable pub get_strokes : String → Boards → List Stroke
get_strokes board_id b = Map.get_or board_id b.board_strokes []
