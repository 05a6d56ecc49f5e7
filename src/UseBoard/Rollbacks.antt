-- ===== src/UseBoard/Rollbacks.antt =====
-- A drawing that the gateway does not take.
use mathlib.Core.List.{append-nil}
use quorum_canvas.Base.{
  String, ◌≡◌, refl, ap, ◌∙◌, true, false, none, some, List, [], ◌∷◌, ◌++◌, arith, str_eq, eq_refl,
}
use quorum_canvas.Map
use quorum_canvas.Map.{get-set}
use quorum_canvas.Types.{Stroke}
use quorum_canvas.Board.{without_id, some_id}
use quorum_canvas.UseBoard.{
  BoardState, remove_stroke, Rollback, apply_pointer, apply_stroke_event, track_pending,
  clear_pending, roll_back, run_rollback, run_pending_rollback, handle_message, error,
  submit_stroke_message, add_stroke,
}

without_id_absent : (i : String) (ss : List Stroke) → some_id i ss ≡ false → without_id i ss ≡ ss
unfolding some_id without_id
without_id_absent i [] h = refl
without_id_absent i (s ∷ ss) h = ground (arith, without_id_absent i ss)

without_id-append :
    (i : String) (xs ys : List Stroke)
    → without_id i (xs ++ ys) ≡ without_id i xs ++ without_id i ys
unfolding without_id
without_id-append i [] ys = refl
without_id-append i (x ∷ xs) ys = ground (arith, without_id-append i xs ys)

without_id_self : (e : Stroke) → without_id e.id (e ∷ []) ≡ []
unfolding without_id
without_id_self e = ground (arith, eq_refl e.id)

strokes-run_pending_rollback :
    (i : String) (b : BoardState)
    → Map.get i b.pending ≡ some (remove_stroke i)
    → (run_pending_rollback i b).strokes ≡ without_id i b.strokes
unfolding run_pending_rollback run_rollback roll_back clear_pending
strokes-run_pending_rollback i b h = rw h refl

pending-track_pending :
    (i : String) (r : Rollback) (b : BoardState) → Map.get i (track_pending i r b).pending ≡ some r
unfolding track_pending
pending-track_pending i r b = get-set i i r b.pending ∙ rw (eq_refl i) refl

module _ (e : Stroke) (b : BoardState) (new : some_id e.id b.strokes ≡ false)
    (draw : e.action ≡ none) where
  -- The board with the drawing, before it is sent.
  abbrev drawn : BoardState
  drawn = record (apply_stroke_event (record b { archive = Map.set e.id e b.archive }) e) {
    redo_stroke_ids = [];
  }

  strokes-drawn : drawn.strokes ≡ b.strokes ++ e ∷ []
  unfolding apply_stroke_event apply_pointer
  strokes-drawn = rw draw (simp new refl)

  tracked : BoardState
  tracked = track_pending e.id (remove_stroke e.id) drawn

  strokes-tracked : tracked.strokes ≡ b.strokes ++ e ∷ []
  unfolding tracked track_pending
  strokes-tracked = strokes-drawn

  strokes-rolled_back : (run_pending_rollback e.id tracked).strokes ≡ b.strokes
  unfolding tracked
  strokes-rolled_back =
      strokes-run_pending_rollback e.id _ (pending-track_pending e.id (remove_stroke e.id) drawn)
      ∙ ap (without_id e.id) strokes-tracked
      ∙ without_id-append e.id b.strokes (e ∷ [])
      ∙ rw (without_id_absent e.id b.strokes new, without_id_self e) (append-nil b.strokes)

  -- A drawing whose id is not empty and not shown yet is shown at once, after the others. If it
  -- cannot be sent, or the gateway answers that the write failed, the strokes are again what they
  -- were; if the gateway answers that the rate limit is exceeded, the drawing stays.
  pub add_stroke-refused :
      str_eq e.id "" ≡ false
      → let refused = λ (code : String).
        (handle_message (error (some code) (some e.id)) (add_stroke true e b)).strokes in
        ((add_stroke true e b).strokes ≡ b.strokes ++ e ∷ [])
        × ((add_stroke false e b).strokes ≡ b.strokes)
        × (refused "RAFT_WRITE_FAILED" ≡ b.strokes)
        × (refused "RATE_LIMITED" ≡ b.strokes ++ e ∷ [])
  unfolding add_stroke submit_stroke_message tracked handle_message
  add_stroke-refused named =
      (strokes-tracked, strokes-rolled_back, rw named strokes-rolled_back, strokes-tracked)
