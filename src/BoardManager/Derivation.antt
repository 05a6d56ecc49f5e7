-- ===== src/BoardManager/Derivation.antt =====
-- `addStroke` of a gateway against `applyBoardEvent` of a replica.
use quorum_canvas.Base.{
  String, Option, none, some, List, [], ◌∷◌, ◌++◌, All, foldl, ◌≡◌, refl, ap, ◌∙◌, if◌then◌else◌,
  Bool-cases, inl, inr,
}
use quorum_canvas.Map.StringSet
use quorum_canvas.Types.{Stroke, Action, stroke, undo_stroke, redo_stroke}
use quorum_canvas.Board.{no_boards, apply_board_event}
use quorum_canvas.Board.View.{View, view, empty_view, act, apply_event}
use quorum_canvas.Board.Replay.{own_events-All, view-foldl, view-no_boards}
use quorum_canvas.BoardManager.{Room, new_room, act_on_room, add_to_room}

-- What a room shows of its board.
abbrev pub room_view : Room → View
room_view r = record { events = r.events; undone = r.undone_stroke_ids; visible = r.strokes }

draws_on_room :
    (e : Stroke) (r : Room)
    → room_view (
        if StringSet.has e.id r.undone_stroke_ids
        then r
        else record r { strokes = r.strokes ++ e ∷ [] })
      ≡ (if StringSet.has e.id r.undone_stroke_ids
          then room_view r
          else record (room_view r) { visible = r.strokes ++ e ∷ [] })
draws_on_room e r = elim (Bool-cases (StringSet.has e.id r.undone_stroke_ids)) [
  | inl hidden ↦ simp hidden
  | inr shown ↦ simp shown
]

room_view-act_on_room :
    (a : Action) (t : Option String) (e : Stroke) (r : Room)
    → room_view (act_on_room a t e r) ≡ act a t e (room_view r)
unfolding act_on_room act
room_view-act_on_room stroke none e r = draws_on_room e r
room_view-act_on_room stroke (some t) e r = draws_on_room e r
room_view-act_on_room undo_stroke none e r = draws_on_room e r
room_view-act_on_room undo_stroke (some t) e r = refl
room_view-act_on_room redo_stroke none e r = draws_on_room e r
room_view-act_on_room redo_stroke (some t) e r = refl

room_view-add_to_room :
    (e : Stroke) (r : Room) → room_view (add_to_room e r) ≡ apply_event (room_view r) e
unfolding add_to_room apply_event
room_view-add_to_room e r = room_view-act_on_room _ _ e (record r { events = r.events ++ e ∷ [] })

room_view-foldl :
    (es : List Stroke) (r : Room)
    → room_view (foldl (λ q e. add_to_room e q) r es) ≡ foldl apply_event (room_view r) es
room_view-foldl [] r = refl
room_view-foldl (e ∷ es) r =
    room_view-foldl es (add_to_room e r)
    ∙ ap (λ v. foldl apply_event v es) (room_view-add_to_room e r)

-- A gateway that has been given a board's events from the beginning, in the order in which a replica
-- applied them, has the same events, undone ids and visible strokes of the board as the replica.
pub room-agrees :
    (k : String) (es : List Stroke)
    → All (λ e. e.board_id ≡ k) es
    → room_view (foldl (λ r e. add_to_room e r) (new_room k) es)
      ≡ view k (foldl apply_board_event no_boards es)
unfolding new_room empty_view
room-agrees k es own =
    room_view-foldl es (new_room k)
    ∙ rw (view-foldl k no_boards es, own_events-All k es own, view-no_boards k) refl
