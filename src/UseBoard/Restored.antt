-- ===== src/UseBoard/Restored.antt =====
-- A user's undo and the redo after it.
use quorum_canvas.Base.{
  String, ◌≡◌, refl, ap, ◌∙◌, true, false, some, List, [], ◌∷◌, ◌++◌, arith, str_eq,
}
use quorum_canvas.Map
use quorum_canvas.Types.{Double, Stroke}
use quorum_canvas.Board.{without_id, some_id}
use quorum_canvas.Board.Visible.{some_id-without_id}
use quorum_canvas.UseBoard.{
  BoardState, apply_pointer, apply_stroke_event, track_pending, submit_stroke_message,
}
use quorum_canvas.UseBoard.UndoRedo.{drop_last_id, undo_of, redo_of}

drop_last_id-append : (xs : List String) (t : String) → drop_last_id (xs ++ t ∷ []) ≡ xs
unfolding drop_last_id
drop_last_id-append [] t = refl
drop_last_id-append (x ∷ []) t = refl
drop_last_id-append (x ∷ y ∷ xs) t = ap (λ z. x ∷ z) (drop_last_id-append (y ∷ xs) t)

module _ (board_id user_id t : String) (s : Stroke) (named : str_eq t "" ≡ false) where
  strokes-undo_of :
      (i : String) (now : Double) (b : BoardState)
      → let b' = undo_of board_id user_id true i now (some (t, s)) b in
        (b'.strokes ≡ without_id t b.strokes)
        × (b'.archive ≡ b.archive)
        × (b'.redo_stroke_ids ≡ b.redo_stroke_ids ++ t ∷ [])
  unfolding undo_of submit_stroke_message track_pending apply_stroke_event
  strokes-undo_of i now b = rw named (unfold apply_pointer in (refl, refl, refl))

  strokes-redo_of :
      (i : String) (now : Double) (b : BoardState)
      → some_id t b.strokes ≡ false
      → Map.get t b.archive ≡ some s
      → let b' = redo_of board_id user_id true i now (some (t, s)) b in
        (b'.strokes ≡ b.strokes ++ s ∷ []) × (b'.redo_stroke_ids ≡ drop_last_id b.redo_stroke_ids)
  unfolding redo_of submit_stroke_message track_pending apply_stroke_event apply_pointer
  strokes-redo_of i now b hidden known =
      rw named (ground (arith, hidden, known), ground (arith, hidden, known))

  -- An undo of an archived stroke and the redo after it, both sent, show the stroke again after the
  -- strokes that stayed, and leave the strokes to redo as they were.
  redo_of-undo_of :
      (i j : String) (now now' : Double) (b : BoardState)
      → Map.get t b.archive ≡ some s
      → let undone = undo_of board_id user_id true i now (some (t, s)) b in
        let redone = redo_of board_id user_id true j now' (some (t, s)) undone in
        (redone.strokes ≡ without_id t b.strokes ++ s ∷ [])
        × (redone.redo_stroke_ids ≡ b.redo_stroke_ids)
  redo_of-undo_of i j now now' b known =
      let undone = undo_of board_id user_id true i now (some (t, s)) b in
      let (shown, kept, ids) = strokes-undo_of i now b in
      let hidden = ap (some_id t) shown ∙ some_id-without_id t b.strokes in
      let (again, rest) = strokes-redo_of j now' undone hidden (ap (Map.get t) kept ∙ known) in
      (
        again ∙ ap (λ z. z ++ s ∷ []) shown,
        rest ∙ ap drop_last_id ids ∙ drop_last_id-append b.redo_stroke_ids t,
      )
