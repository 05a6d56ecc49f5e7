-- ===== src/UseBoard/UndoRedo.antt =====
-- The undo and the redo of a user's own strokes, in frontend/src/hooks/useBoard.ts.
use quorum_canvas.Base.{
  String, Bool, ◌&&◌, Option, none, some, List, [], ◌∷◌, ◌++◌, if◌then◌else◌, str_eq,
}
use quorum_canvas.Map
use quorum_canvas.Types.{
  Double, Stroke, Action, undo_stroke, redo_stroke, action_or_stroke, truthy, is_stroke_action,
}
use quorum_canvas.UseBoard.{
  BoardState, undo_undo, undo_redo, apply_stroke_event, submit_stroke_message,
}

-- `ids[ids.length - 1]`
unfoldable pub last_id : List String → Option String
last_id [] = none
last_id (i ∷ []) = some i
last_id (i ∷ j ∷ js) = last_id (j ∷ js)

-- `ids.slice(0, -1)`
unfoldable pub drop_last_id : List String → List String
drop_last_id [] = []
drop_last_id (i ∷ []) = []
drop_last_id (i ∷ j ∷ js) = i ∷ drop_last_id (j ∷ js)

module _ (board_id user_id : String) where
  unfoldable pub own_visible_stroke_ids : List Stroke → List String
  own_visible_stroke_ids [] = []
  own_visible_stroke_ids (s ∷ ss) =
      let rest = own_visible_stroke_ids ss in
      if str_eq s.user_id user_id && is_stroke_action (action_or_stroke s.action)
      then s.id ∷ rest
      else rest

  abbrev pub pointer : Action → String → String → Double → Stroke
  pointer action target i now = record {
    id = i;
    board_id = board_id;
    user_id = user_id;
    color = "#000000";
    width = 0;
    points = [];
    timestamp = now;
    action = some action;
    target_stroke_id = some target;
  }

  -- The target of an undo or a redo, if it is there, with its stroke.
  unfoldable pub archived : Option String → BoardState → Option (String × Stroke)
  archived target b = elim (truthy target) [
    | none ↦ none
    | some t ↦ elim (Map.get t b.archive) [ none ↦ none | some s ↦ some (t, s) ]
  ]

  unfoldable pub undo_of :
      Bool → String → Double → Option (String × Stroke) → BoardState → BoardState
  unfolding apply_stroke_event submit_stroke_message
  undo_of sent i now none b = b
  undo_of sent i now (some (t, s)) b =
      let e = pointer undo_stroke t i now in
      let b' = apply_stroke_event b e in
      submit_stroke_message sent e (undo_undo t s)
        (record b' { redo_stroke_ids = b'.redo_stroke_ids ++ t ∷ [] })

  unfoldable pub undo_last_stroke : Bool → String → Double → BoardState → BoardState
  unfolding own_visible_stroke_ids last_id archived undo_of
  undo_last_stroke sent i now b =
      undo_of sent i now (archived (last_id (own_visible_stroke_ids b.strokes)) b) b

  unfoldable pub redo_of :
      Bool → String → Double → Option (String × Stroke) → BoardState → BoardState
  unfolding apply_stroke_event submit_stroke_message drop_last_id
  redo_of sent i now none b = b
  redo_of sent i now (some (t, s)) b =
      let e = pointer redo_stroke t i now in
      let b' = apply_stroke_event b e in
      submit_stroke_message sent e (undo_redo t)
        (record b' { redo_stroke_ids = drop_last_id b'.redo_stroke_ids })

  unfoldable pub redo_last_stroke : Bool → String → Double → BoardState → BoardState
  unfolding last_id archived redo_of
  redo_last_stroke sent i now b = redo_of sent i now (archived (last_id b.redo_stroke_ids) b) b
