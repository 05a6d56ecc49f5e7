-- ===== src/UseBoard/Agreement.antt =====
-- A browser that has seen every event of its board, compared with the board of the replicas.
use quorum_canvas.Base.{
  String, ◌≡◌, refl, sym, ap, ◌∙◌, true, false, Option, none, some, List, [], ◌∷◌, ◌++◌, foldl, All,
  arith, if◌then◌else◌, str_eq, eq_iff,
}
use quorum_canvas.Map
use quorum_canvas.Map.{get-set}
use quorum_canvas.Map.StringSet
use quorum_canvas.Types.{
  Stroke, Action, undo_stroke, redo_stroke, action_or_stroke, truthy, is_stroke_action,
}
use quorum_canvas.Board.{
  without_id, some_id, find_drawn, redo_visible, no_boards, apply_board_event, get_strokes,
}
use quorum_canvas.Board.View.{View, view, empty_view, act, apply_event}
use quorum_canvas.Board.Replay.{own_events-All, view-foldl, view-no_boards}
use quorum_canvas.UseBoard.{
  BoardState, initial_board, apply_pointer, apply_stroke_event, handle_message, stroke_broadcast,
}

-- An undo or a redo with a target, or a drawing whose id has not been drawn, undone or shown before.
unfoldable pub IsFreshAs : Action → Option String → Stroke → View → Type 0
IsFreshAs Action.stroke t e v =
    (find_drawn e.id v.events ≡ none)
    × (StringSet.has e.id v.undone ≡ false)
    × (some_id e.id v.visible ≡ false)
IsFreshAs _ none e v = ⊥
IsFreshAs _ (some t) e v = Unit

unfoldable pub IsFresh : View → Stroke → Type 0
IsFresh v e = IsFreshAs (action_or_stroke e.action) (truthy e.target_stroke_id) e v

-- Each event is fresh where it stands.
unfoldable pub AreFresh : View → List Stroke → Type 0
AreFresh v [] = Unit
AreFresh v (e ∷ es) = IsFresh v e × AreFresh (apply_event v e) es

-- The browser shows what the board shows and has every drawing in its archive.
pub record Agrees (v : View) (b : BoardState) : Type 0 where
  pub strokes : b.strokes ≡ v.visible
  pub archive : (k : String) → Map.get k b.archive ≡ find_drawn k v.events

find_drawn-append :
    (k : String) (es : List Stroke) (e : Stroke)
    → find_drawn k (es ++ e ∷ [])
      ≡ elim (find_drawn k es) [ none ↦ find_drawn k (e ∷ []) | some s ↦ some s ]
unfolding find_drawn
find_drawn-append k [] e = refl
find_drawn-append k (s ∷ es) e = ground (arith, find_drawn-append k es e)

find_drawn-append_pointer :
    (k : String) (es : List Stroke) (e : Stroke)
    → is_stroke_action (action_or_stroke e.action) ≡ false
    → find_drawn k (es ++ e ∷ []) ≡ find_drawn k es
unfolding find_drawn
find_drawn-append_pointer k [] e h = rw h refl
find_drawn-append_pointer k (s ∷ es) e h = ground (arith, find_drawn-append_pointer k es e h)

find_drawn-append_drawing :
    (k : String) (es : List Stroke) (e : Stroke)
    → is_stroke_action (action_or_stroke e.action) ≡ true
    → find_drawn e.id es ≡ none
    → find_drawn k (es ++ e ∷ []) ≡ (if str_eq e.id k then some e else find_drawn k es)
unfolding find_drawn
find_drawn-append_drawing k [] e h new = rw h refl
find_drawn-append_drawing k (s ∷ es) e h new =
    ground
      (arith, eq_iff e.id k, eq_iff s.id k, eq_iff s.id e.id, find_drawn-append_drawing k es e h)

module _ (e : Stroke) (v : View) (b : BoardState) (agrees : Agrees v b) where
  abbrev logged : View
  logged = record v { events = v.events ++ e ∷ [] }

  pointer_archive :
      is_stroke_action (action_or_stroke e.action) ≡ false
      → (k : String) → Map.get k b.archive ≡ find_drawn k logged.events
  pointer_archive h k = agrees.archive k ∙ sym (find_drawn-append_pointer k v.events e h)

  redo_strokes :
      (t : String)
      → is_stroke_action (action_or_stroke e.action) ≡ false
      → (apply_pointer redo_stroke (some t) e b).strokes ≡ redo_visible t logged.events v.visible
  unfolding apply_pointer redo_visible
  redo_strokes t h = ground (arith, agrees.strokes, pointer_archive h t)

  redo_archive : (t : String) → (apply_pointer redo_stroke (some t) e b).archive ≡ b.archive
  unfolding apply_pointer
  redo_archive t = ground arith

  act-drawing :
      (t : Option String)
      → StringSet.has e.id v.undone ≡ false
      → act Action.stroke t e logged ≡ record logged { visible = v.visible ++ e ∷ [] }
  unfolding act
  act-drawing t kept = simp kept

  apply_pointer-drawing :
      (t : Option String)
      → some_id e.id v.visible ≡ false
      → apply_pointer Action.stroke t e b
        ≡ record b { archive = Map.set e.id e b.archive; strokes = b.strokes ++ e ∷ [] }
  unfolding apply_pointer
  apply_pointer-drawing t unseen =
      let absent : some_id e.id b.strokes ≡ false = ap (some_id e.id) agrees.strokes ∙ unseen in
      simp absent

  drawing_archive :
      is_stroke_action (action_or_stroke e.action) ≡ true
      → find_drawn e.id v.events ≡ none
      → (k : String) → Map.get k (Map.set e.id e b.archive) ≡ find_drawn k logged.events
  drawing_archive is new k = ground (
    arith,
    get-set e.id k e b.archive,
    find_drawn-append_drawing k v.events e is new,
    agrees.archive k,
  )

  apply_pointer-Agrees :
      (a : Action) (t : Option String)
      → action_or_stroke e.action ≡ a
      → IsFreshAs a t e v
      → Agrees (act a t e logged) (apply_pointer a t e b)
  unfolding IsFreshAs
  apply_pointer-Agrees undo_stroke (some t) is fresh = record {
    strokes = unfold act apply_pointer in ap (without_id t) agrees.strokes;
    archive = unfold act apply_pointer in pointer_archive (rw is refl);
  }
  apply_pointer-Agrees redo_stroke (some t) is fresh = record {
    strokes = unfold act in redo_strokes t (rw is refl);
    archive =
        unfold act in λ k. ap (λ m. Map.get k m) (redo_archive t) ∙ pointer_archive (rw is refl) k;
  }
  apply_pointer-Agrees Action.stroke t is (new, kept, unseen) = record {
    strokes =
        rw (act-drawing t kept, apply_pointer-drawing t unseen)
          (ap (λ ss. ss ++ e ∷ []) agrees.strokes);
    archive =
        rw (act-drawing t kept, apply_pointer-drawing t unseen) (drawing_archive (rw is refl) new);
  }
  apply_pointer-Agrees undo_stroke none is fresh = absurd fresh
  apply_pointer-Agrees redo_stroke none is fresh = absurd fresh

apply_stroke_event-Agrees :
    (e : Stroke) (v : View) (b : BoardState)
    → Agrees v b
    → IsFresh v e
    → Agrees (apply_event v e) (apply_stroke_event b e)
unfolding apply_event apply_stroke_event IsFresh
apply_stroke_event-Agrees e v b agrees fresh =
    apply_pointer-Agrees e v b agrees (action_or_stroke e.action) (truthy e.target_stroke_id) refl
      fresh

foldl-Agrees :
    (es : List Stroke) (v : View) (b : BoardState)
    → Agrees v b
    → AreFresh v es
    → Agrees (foldl apply_event v es) (foldl (λ c e. handle_message (stroke_broadcast e) c) b es)
unfolding AreFresh handle_message
foldl-Agrees [] v b agrees fresh = agrees
foldl-Agrees (e ∷ es) v b agrees fresh =
    foldl-Agrees es (apply_event v e) (apply_stroke_event b e)
      (apply_stroke_event-Agrees e v b agrees fresh.0) fresh.1

-- A browser that has been given every event of a board from the first on, in the order in which the
-- replicas applied them, shows the strokes that a replica answers for the board; each event is an
-- undo or a redo with a target, or a drawing whose id is new.
pub handle_message-agrees :
    (k : String) (es : List Stroke)
    → All (λ e. e.board_id ≡ k) es
    → AreFresh empty_view es
    → (foldl (λ b e. handle_message (stroke_broadcast e) b) initial_board es).strokes
      ≡ get_strokes k (foldl apply_board_event no_boards es)
unfolding empty_view initial_board get_strokes view
handle_message-agrees k es own fresh =
    let agrees : Agrees empty_view initial_board = record {
      strokes = refl;
      archive = λ k. unfold Map.get find_drawn in refl;
    } in
    let same : view k (foldl apply_board_event no_boards es) ≡ foldl apply_event empty_view es =
      rw (view-foldl k no_boards es, own_events-All k es own, view-no_boards k) refl in
    (foldl-Agrees es empty_view initial_board agrees fresh).strokes ∙ sym (ap (λ v. v.visible) same)
