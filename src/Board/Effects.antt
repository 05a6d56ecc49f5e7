-- ===== src/Board/Effects.antt =====
-- `applyBoardEvent` of replica/src/raftNode.ts against a description of what an event does to a board.
use quorum_canvas.Base.{
  String, ◌≡◌, ◌≢◌, refl, sym, ap, ◌⊎◌, inl, inr, true, false, ◌&&◌, ◌||◌, not, Option, none, some,
  [], ◌∷◌, ◌++◌, arith, str_eq, eq_iff, if◌then◌else◌, Bool-cases, ne_of_test,
}
use quorum_canvas.Map.StringSet
use quorum_canvas.Map.StringSet.{has-add, has-delete}
use quorum_canvas.Types.{Stroke, Action, stroke, undo_stroke, redo_stroke, action_or_stroke, truthy}
use quorum_canvas.Board.{Boards, apply_board_event}
use quorum_canvas.Board.View.{View, view, act, apply_event, view-apply_board_event}
use quorum_canvas.Board.Shown.{Removes, Restores, without_id-Removes, redo_visible-Restores}

-- The event names a stroke.
abbrev pub Names : Stroke → String → Type 0
Names e t = (e.target_stroke_id ≡ some t) × (t ≢ "")

-- The event neither undoes nor redoes a stroke that it names.
abbrev pub IsDrawing : Stroke → Type 0
IsDrawing e =
    ¬ (((e.action ≡ some undo_stroke) ⊎ (e.action ≡ some redo_stroke)) × ((t : String) × Names e t))

-- What an event does to the ids undone and the strokes shown.
pub data Does (e : Stroke) (v w : View) : Type 0 where
  undoes :
      (t : String)
      → e.action ≡ some undo_stroke
      → Names e t
      → ((i : String) → StringSet.has i w.undone ≡ (str_eq t i || StringSet.has i v.undone))
      → Removes t v.visible w.visible
      → Does e v w
  redoes :
      (t : String)
      → e.action ≡ some redo_stroke
      → Names e t
      → ((i : String) → StringSet.has i w.undone ≡ (not (str_eq t i) && StringSet.has i v.undone))
      → Restores t w.events v.visible w.visible
      → Does e v w
  draws :
      IsDrawing e
      → StringSet.has e.id v.undone ≡ false
      → w.undone ≡ v.undone
      → w.visible ≡ v.visible ++ e ∷ []
      → Does e v w
  stays_hidden :
      IsDrawing e
      → StringSet.has e.id v.undone ≡ true
      → w.undone ≡ v.undone
      → w.visible ≡ v.visible
      → Does e v w

-- The event is put at the end of the events, and does what it does.
abbrev pub Acts : Stroke → View → View → Type 0
Acts e v w = (w.events ≡ v.events ++ e ∷ []) × Does e v w

action_some : (o : Option Action) (a : Action) → a ≢ stroke → action_or_stroke o ≡ a → o ≡ some a
action_some none a h e = absurd (h (sym e))
action_some (some b) a h e = ap some e

named_if_some : (o : Option String) (t : String) → truthy o ≡ some t → (o ≡ some t) × (t ≢ "")
named_if_some none t h = absurd (cc)
named_if_some (some s) t h = elim (Bool-cases (str_eq s "")) [
  | inl e ↦ absurd (ground arith)
  | inr e ↦ let same : s ≡ t = ground arith in (ap some same, rw (← same) (ne_of_test s "" e))
]

unnamed_if_none : (o : Option String) (t : String) → truthy o ≡ none → o ≡ some t → t ≡ ""
unnamed_if_none o t h e = let q = eq_iff t "" in ground arith

-- Without a name, or as a plain stroke, the event is a drawing.
unnamed-IsDrawing : (e : Stroke) → truthy e.target_stroke_id ≡ none → IsDrawing e
unnamed-IsDrawing e h (_, (t, (named, there_is))) =
    there_is (unnamed_if_none e.target_stroke_id t h named)

stroke-IsDrawing : (e : Stroke) → action_or_stroke e.action ≡ stroke → IsDrawing e
stroke-IsDrawing e h (inl a, _) = ground arith
stroke-IsDrawing e h (inr a, _) = ground arith

undo_stroke_ne : undo_stroke ≢ stroke
undo_stroke_ne h = cc

redo_stroke_ne : redo_stroke ≢ stroke
redo_stroke_ne h = cc

pushed : Stroke → View → View
pushed e v = record v { events = v.events ++ e ∷ [] }

-- A drawing event, by what `act` does with it.
drawing-Does :
    (e : Stroke) (v : View)
    → IsDrawing e
    → Does e v (
        if StringSet.has e.id v.undone
        then pushed e v
        else record (pushed e v) { visible = v.visible ++ e ∷ [] })
unfolding pushed
drawing-Does e v h = elim (Bool-cases (StringSet.has e.id v.undone)) [
  | inl gone ↦ rw gone (stays_hidden h gone refl refl)
  | inr new ↦ rw new (draws h new refl refl)
]

act-Does :
    (a : Action) (o : Option String) (e : Stroke) (v : View)
    → action_or_stroke e.action ≡ a
    → truthy e.target_stroke_id ≡ o
    → Does e v (act a o e (pushed e v))
unfolding act pushed
act-Does undo_stroke (some t) e v ha ho =
    undoes t (action_some e.action undo_stroke undo_stroke_ne ha)
      (named_if_some e.target_stroke_id t ho) (λ i. has-add t i v.undone)
      (without_id-Removes t v.visible)
act-Does redo_stroke (some t) e v ha ho =
    redoes t (action_some e.action redo_stroke redo_stroke_ne ha)
      (named_if_some e.target_stroke_id t ho) (λ i. has-delete t i v.undone)
      (redo_visible-Restores t (v.events ++ e ∷ []) v.visible)
act-Does undo_stroke none e v ha ho = drawing-Does e v (unnamed-IsDrawing e ho)
act-Does redo_stroke none e v ha ho = drawing-Does e v (unnamed-IsDrawing e ho)
act-Does stroke o e v ha ho = drawing-Does e v (stroke-IsDrawing e ha)

act_events :
    (a : Action) (o : Option String) (e : Stroke) (v : View) → (act a o e v).events ≡ v.events
unfolding act
act_events undo_stroke (some t) e v = refl
act_events redo_stroke (some t) e v = refl
act_events _ _ e v = ground arith

-- On its own board an event is put at the end of the events. An undo that names a stroke adds the id to
-- those undone and takes away the strokes shown with it, a redo takes the id from those undone and
-- shows last the one drawn first under it, if none is shown with it and one was drawn, and any other
-- event is shown last unless its id is undone. Other boards do not change.
pub apply_board_event-Acts :
    (k : String) (b : Boards) (e : Stroke)
    → let w = view k (apply_board_event b e) in
      ((e.board_id ≡ k) × Acts e (view k b) w) ⊎ ((e.board_id ≢ k) × (w ≡ view k b))
unfolding apply_event
apply_board_event-Acts k b e =
    let v = view k b in
    elim (Bool-cases (str_eq e.board_id k)) [
      | inl own ↦
          rw (view-apply_board_event k b e, own)
            (inl (
              (eq_iff e.board_id k).0 own,
              (
                act_events _ _ e (record v { events = v.events ++ e ∷ [] }),
                unfold pushed in act-Does _ _ e v refl refl,
              ),
            ))
      | inr other ↦
          rw (view-apply_board_event k b e, other) (inr (ne_of_test e.board_id k other, refl))
    ]
