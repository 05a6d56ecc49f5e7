-- ===== src/Board/View.antt =====
-- One board seen by itself: what an event does to its own board, and that it leaves others alone.
use quorum_canvas.Base.{
  String, ◌≡◌, ◌∙◌, false, Option, some, List, [], ◌∷◌, ◌++◌, arith, str_eq, eq_iff, eq_refl,
  if◌then◌else◌, Bool-cases, inl, inr,
}
use quorum_canvas.Map
use quorum_canvas.Map.StringSet
use quorum_canvas.Map.{get_or-set, get_or_absent}
use quorum_canvas.Types.{Stroke, Action, undo_stroke, redo_stroke, action_or_stroke, truthy}
use quorum_canvas.Board.{
  Boards, without_id, redo_visible, ensure, ensure_board_state, apply_action, push_event,
  apply_board_event,
}

-- The events of a board, the ids undone on it and its visible strokes.
pub record View : Type 0 where
  pub events : List Stroke
  pub undone : List String
  pub visible : List Stroke

unfoldable pub empty_view : View
empty_view = record { events = []; undone = []; visible = [] }

unfoldable pub view : String → Boards → View
view k b = record {
  events = Map.get_or k b.board_events [];
  undone = Map.get_or k b.undone_stroke_ids [];
  visible = Map.get_or k b.board_strokes [];
}

-- The cases of `applyBoardEvent` on the view of the event's board.
unfoldable pub act : Action → Option String → Stroke → View → View
act undo_stroke (some t) e v = record v {
  undone = StringSet.add t v.undone;
  visible = without_id t v.visible;
}
act redo_stroke (some t) e v = record v {
  undone = StringSet.delete t v.undone;
  visible = redo_visible t v.events v.visible;
}
act _ _ e v = if StringSet.has e.id v.undone then v else record v { visible = v.visible ++ e ∷ [] }

unfoldable pub apply_event : View → Stroke → View
unfolding act
apply_event v e =
    act (action_or_stroke e.action) (truthy e.target_stroke_id) e
      (record v { events = v.events ++ e ∷ [] })

get_or-ensure {ℓ} :
    {A : Type ℓ} (k j : String) (m : List (String × List A))
    → Map.get_or j (ensure k [] m) [] ≡ Map.get_or j m []
unfolding ensure
get_or-ensure k j m = elim (Bool-cases (Map.has k m)) [
  | inl old ↦ rw old
  | inr new ↦ rw new (ground (arith, get_or-set k j [] [] m, get_or_absent k m [] new, eq_iff k j))
]

view-ensure_board_state : (k j : String) (b : Boards) → view k (ensure_board_state j b) ≡ view k b
unfolding view ensure_board_state
view-ensure_board_state k j b = simp (
  get_or-ensure j k b.board_events,
  get_or-ensure j k b.undone_stroke_ids,
  get_or-ensure j k b.board_strokes,
)

view-push_event_self :
    (b : Boards) (e : Stroke)
    → view e.board_id (push_event e b)
      ≡ record (view e.board_id b) { events = (view e.board_id b).events ++ e ∷ [] }
unfolding view push_event
view-push_event_self b e = simp (get_or-set, eq_refl)

view-apply_action_self :
    (a : Action) (t : Option String) (e : Stroke) (b : Boards)
    → view e.board_id (apply_action a t e b) ≡ act a t e (view e.board_id b)
unfolding view apply_action act
view-apply_action_self undo_stroke (some t) e b = simp (get_or-set, eq_refl)
view-apply_action_self redo_stroke (some t) e b = simp (get_or-set, eq_refl)
view-apply_action_self _ _ e b =
    elim (Bool-cases (StringSet.has e.id (Map.get_or e.board_id b.undone_stroke_ids []))) [
      | inl h ↦ simp h
      | inr h ↦ simp (h, get_or-set, eq_refl)
    ]

module _ (k : String) (b : Boards) (e : Stroke) (other : str_eq e.board_id k ≡ false) where
  view-push_event_other : view k (push_event e b) ≡ view k b
  unfolding view push_event
  view-push_event_other = simp (get_or-set, other)

  view-apply_action_other :
      (a : Action) (t : Option String) → view k (apply_action a t e b) ≡ view k b
  unfolding view apply_action
  view-apply_action_other undo_stroke (some t) = simp (get_or-set, other)
  view-apply_action_other redo_stroke (some t) = simp (get_or-set, other)
  view-apply_action_other _ _ =
      elim (Bool-cases (StringSet.has e.id (Map.get_or e.board_id b.undone_stroke_ids []))) [
        | inl h ↦ simp h
        | inr h ↦ simp (h, get_or-set, other)
      ]

-- An event acts on the view of its own board as `apply_event` says, and no other board changes.
pub view-apply_board_event :
    (k : String) (b : Boards) (e : Stroke)
    → view k (apply_board_event b e)
      ≡ (if str_eq e.board_id k then apply_event (view k b) e else view k b)
unfolding apply_board_event apply_event
view-apply_board_event k b e = elim (Bool-cases (str_eq e.board_id k)) [
  | inl own ↦ rw (
    own,
    ← (eq_iff e.board_id k).0 own,
    view-apply_action_self,
    view-push_event_self,
    view-ensure_board_state,
  )
  | inr other ↦ rw other (
      view-apply_action_other k _ e other _ _
      ∙ view-push_event_other k _ e other
      ∙ view-ensure_board_state k e.board_id b)
]
