-- ===== src/UseBoard/Missed.antt =====
-- What a browser does not learn.
use quorum_canvas.Base.{
  String, ◌≡◌, refl, ap, ◌∙◌, true, false, none, some, List, [], ◌∷◌, ◌++◌, foldl, arith, str_eq,
  eq_refl,
}
use quorum_canvas.Map
use quorum_canvas.Map.{get-set}
use quorum_canvas.Map.StringSet
use quorum_canvas.Map.StringSet.{has-add}
use quorum_canvas.Types.{Stroke, Action, undo_stroke, redo_stroke, truthy}
use quorum_canvas.Board.{without_id, some_id, find_drawn, redo_visible}
use quorum_canvas.Board.View.{View, empty_view, act, apply_event}
use quorum_canvas.UseBoard.{
  BoardState, initial_board, archive_from, apply_pointer, apply_stroke_event, handle_message,
  join_ack, stroke_broadcast,
}

get-archive_from :
    (t : String) (ss : List Stroke) (m : List (String × Stroke))
    → some_id t ss ≡ false
    → Map.get t m ≡ none
    → Map.get t (archive_from m ss) ≡ none
unfolding archive_from some_id
get-archive_from t [] m absent empty = empty
get-archive_from t (s ∷ ss) m absent empty =
    let kept : Map.get t (Map.set s.id s m) ≡ none = ground (arith, get-set s.id t s m) in
    let old = get-archive_from t ss m (ground arith) empty in
    let added = get-archive_from t ss (Map.set s.id s m) (ground arith) kept in
    ground (arith, old, added)

find_drawn-append_found :
    (t : String) (es xs : List Stroke) (s : Stroke)
    → find_drawn t es ≡ some s
    → find_drawn t (es ++ xs) ≡ some s
unfolding find_drawn
find_drawn-append_found t [] xs s h = absurd (cc)
find_drawn-append_found t (x ∷ es) xs s h = ground (arith, find_drawn-append_found t es xs s)

module _ (d : Stroke) (draw : d.action ≡ none) where
  drawing_hidden :
      (v : View) → StringSet.has d.id v.undone ≡ true → (apply_event v d).visible ≡ v.visible
  unfolding apply_event act
  drawing_hidden v hidden = rw draw (simp hidden refl)

  drawing_shown :
      (b : BoardState)
      → some_id d.id b.strokes ≡ false
      → (apply_stroke_event b d).strokes ≡ b.strokes ++ d ∷ []
  unfolding apply_stroke_event apply_pointer
  drawing_shown b absent = rw draw (simp absent refl)

module _ (e : Stroke) (t : String) (target : e.target_stroke_id ≡ some t)
    (named : str_eq t "" ≡ false) where
  truthy_target : truthy e.target_stroke_id ≡ some t
  truthy_target = rw target (rw named refl)

  apply_event-pointer :
      (a : Action) (v : View)
      → e.action ≡ some a
      → apply_event v e ≡ act a (some t) e (record v { events = v.events ++ e ∷ [] })
  unfolding apply_event
  apply_event-pointer a v is = rw (is, truthy_target) refl

  apply_stroke_event-pointer :
      (a : Action) (b : BoardState)
      → e.action ≡ some a
      → apply_stroke_event b e ≡ apply_pointer a (some t) e b
  unfolding apply_stroke_event
  apply_stroke_event-pointer a b is = rw (is, truthy_target) refl

  redo_visible-found :
      (v : View) (s : Stroke)
      → some_id t v.visible ≡ false
      → find_drawn t v.events ≡ some s
      → redo_visible t (v.events ++ e ∷ []) v.visible ≡ v.visible ++ s ∷ []
  unfolding redo_visible
  redo_visible-found v s hidden drawn =
      ground (arith, hidden, find_drawn-append_found t v.events (e ∷ []) s drawn)

  apply_pointer-unknown :
      (b : BoardState)
      → Map.get t b.archive ≡ none
      → (apply_pointer redo_stroke (some t) e b).strokes ≡ b.strokes
  unfolding apply_pointer
  apply_pointer-unknown b unknown = ground (arith, unknown)

  -- A browser joins a board while a stroke is undone and is sent the visible strokes. When the
  -- stroke is redone, the board shows it again after the others, and the browser shows what it did
  -- before.
  pub redo_after_join-missed :
      (v : View) (s : Stroke) (b : BoardState)
      → e.action ≡ some redo_stroke
      → some_id t v.visible ≡ false
      → find_drawn t v.events ≡ some s
      → let joined = handle_message (join_ack v.visible) b in
        ((apply_event v e).visible ≡ v.visible ++ s ∷ [])
        × ((handle_message (stroke_broadcast e) joined).strokes ≡ v.visible)
  unfolding handle_message
  redo_after_join-missed v s b redo hidden drawn =
      let joined = handle_message (join_ack v.visible) b in
      let unknown = get-archive_from t v.visible [] hidden (unfold Map.get in refl) in
      (
        ap (λ w. w.visible) (apply_event-pointer redo_stroke v redo)
            ∙ (unfold act in redo_visible-found v s hidden drawn),
        ap (λ c. c.strokes) (apply_stroke_event-pointer redo_stroke joined redo)
            ∙ apply_pointer-unknown joined unknown,
      )

  -- Of an undo and then the drawing that it names, the board of the replicas shows nothing, and a
  -- browser that is sent the two shows the drawing.
  undo_before_draw-shown :
      (d : Stroke)
      → e.action ≡ some undo_stroke
      → d.action ≡ none
      → d.id ≡ t
      → ((foldl apply_event empty_view (e ∷ d ∷ [])).visible ≡ [])
        × ((foldl (λ b x. handle_message (stroke_broadcast x) b) initial_board (e ∷ d ∷ [])).strokes
            ≡ d ∷ [])
  unfolding handle_message empty_view act without_id initial_board
  undo_before_draw-shown d undo draw same =
      let v = act undo_stroke (some t) e (record empty_view { events = e ∷ [] }) in
      let b = apply_pointer undo_stroke (some t) e initial_board in
      let hidden : StringSet.has d.id v.undone ≡ true =
        unfold act empty_view StringSet.add StringSet.has in rw same (ground (arith, eq_refl t)) in
      rw
        (
          apply_event-pointer undo_stroke empty_view undo,
          apply_stroke_event-pointer undo_stroke initial_board undo,
        )
        (
          drawing_hidden d draw v hidden,
          drawing_shown d draw b (unfold apply_pointer initial_board without_id some_id in refl),
        )
