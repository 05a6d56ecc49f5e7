-- ===== src/Board/Visible.antt =====
-- What a board shows: its visible strokes against its events and its undone ids.
use mathlib.Core.Path.{subst}
use mathlib.Core.List.{Mem, mem-append_left, mem-append_right, mem-cons_self, mem-cons_of_mem}
use quorum_canvas.Base.{
  String, ◌≡◌, refl, sym, ap, ◌∙◌, true, false, ◌&&◌, Option, some, List, [], ◌∷◌, ◌++◌, foldl, All,
  All-mono, All-append, arith, str_eq, eq_iff, eq_refl, str_eq_comm, Bool-cases, Option-cases, inl,
  inr,
}
use quorum_canvas.Map
use quorum_canvas.Map.StringSet
use quorum_canvas.Map.StringSet.{has-add, has-delete}
use quorum_canvas.Types.{
  Stroke, Action, undo_stroke, redo_stroke, action_or_stroke, truthy, is_stroke_action,
}
use quorum_canvas.Board.{
  Boards, no_boards, without_id, some_id, find_drawn, redo_visible, apply_board_event, get_strokes,
}
use quorum_canvas.Board.View.{View, view, act, apply_event, view-apply_board_event}

-- The stroke is not undone, and it is one of the board's events.
abbrev pub IsShown : View → Stroke → Type 0
IsShown v s = (StringSet.has s.id v.undone ≡ false) × Mem s v.events

All-without_id {κ} :
    (P : Stroke → Type κ) (i : String) (ss : List Stroke)
    → All P ss
    → All (λ s. P s × (str_eq s.id i ≡ false)) (without_id i ss)
unfolding without_id
All-without_id P i [] h = tt
All-without_id P i (s ∷ ss) h = elim (Bool-cases (str_eq s.id i)) [
  | inl gone ↦ rw gone (All-without_id P i ss h.1)
  | inr kept ↦ rw kept ((h.0, kept), All-without_id P i ss h.1)
]

pub find_drawn-mem :
    (i : String) (es : List Stroke) (s : Stroke) → find_drawn i es ≡ some s → Mem s es × (s.id ≡ i)
unfolding find_drawn
find_drawn-mem i [] s h = cc
find_drawn-mem i (e ∷ es) s h =
    elim (Bool-cases (is_stroke_action (action_or_stroke e.action) && str_eq e.id i)) [
      | inl hit ↦
          let same : e ≡ s = ground arith in
          (
            subst (λ x. Mem x (e ∷ es)) same mem-cons_self,
            ap (λ x. x.id) (sym same) ∙ (eq_iff e.id i).0 (ground arith),
          )
      | inr miss ↦
          let (m, same) = find_drawn-mem i es s (rw miss at h) in (mem-cons_of_mem e m, same)
    ]

undo-IsShown :
    (t : String) (v : View)
    → All (IsShown v) v.visible
    → All (IsShown (record v { undone = StringSet.add t v.undone })) (without_id t v.visible)
undo-IsShown t v h =
    All-mono (without_id t v.visible)
      (λ s p. (rw (has-add, p.0.0, str_eq_comm t s.id, p.1) refl, p.0.1))
      (All-without_id (IsShown v) t v.visible h)

redo-IsShown :
    (t : String) (v : View)
    → All (IsShown v) v.visible
    → All
        (IsShown (record v { undone = StringSet.delete t v.undone }))
        (redo_visible t v.events v.visible)
unfolding redo_visible
redo-IsShown t v h = elim (Bool-cases (some_id t v.visible)) [
  | inl there ↦ rw there kept
  | inr missing ↦ rw missing (elim (Option-cases (find_drawn t v.events)) [
    | inl lost ↦ rw lost kept
    | inr (s, found) ↦
        let (m, same) = find_drawn-mem t v.events s found in
        rw found (
          All-append (IsShown v') v.visible (s ∷ []) kept
            ((rw (has-delete, same, eq_refl t) refl, m), tt))
  ])
]
  where
    v' : View
    v' = record v { undone = StringSet.delete t v.undone }

    kept : All (IsShown v') v.visible
    kept = All-mono v.visible (λ s p. (rw (has-delete, p.0) (ground arith), p.1)) h

act-IsShown :
    (a : Action) (t : Option String) (e : Stroke) (v : View)
    → Mem e v.events
    → All (IsShown v) v.visible
    → All (IsShown (act a t e v)) (act a t e v).visible
unfolding act
act-IsShown undo_stroke (some t) e v m h = undo-IsShown t v h
act-IsShown redo_stroke (some t) e v m h = redo-IsShown t v h
act-IsShown _ _ e v m h = elim (Bool-cases (StringSet.has e.id v.undone)) [
  | inl gone ↦ rw gone h
  | inr new ↦ rw new (All-append (IsShown v) v.visible (e ∷ []) h ((new, m), tt))
]

apply_event-IsShown :
    (v : View) (e : Stroke)
    → All (IsShown v) v.visible
    → All (IsShown (apply_event v e)) (apply_event v e).visible
unfolding apply_event
apply_event-IsShown v e h =
    act-IsShown _ _ e (record v { events = v.events ++ e ∷ [] })
      (mem-append_right v.events mem-cons_self)
      (All-mono v.visible (λ s p. (p.0, mem-append_left (e ∷ []) p.1)) h)

foldl-IsShown :
    (k : String) (b : Boards) (es : List Stroke)
    → All (IsShown (view k b)) (view k b).visible
    → let v = view k (foldl apply_board_event b es) in All (IsShown v) v.visible
foldl-IsShown k b [] h = h
foldl-IsShown k b (e ∷ es) h =
    foldl-IsShown k (apply_board_event b e) es (elim (Bool-cases (str_eq e.board_id k)) [
      | inl own ↦ simp (view-apply_board_event k b e, own) (apply_event-IsShown (view k b) e h)
      | inr other ↦ simp (view-apply_board_event k b e, other) h
    ])

-- After any events, every visible stroke of a board is one of that board's events and is not undone.
get_strokes-IsShown :
    (k : String) (es : List Stroke)
    → let b = foldl apply_board_event no_boards es in All (IsShown (view k b)) (get_strokes k b)
unfolding view get_strokes
get_strokes-IsShown k es = foldl-IsShown k no_boards es (unfold no_boards Map.get_or Map.get in tt)

pub some_id-without_id : (t : String) (ss : List Stroke) → some_id t (without_id t ss) ≡ false
unfolding some_id without_id
some_id-without_id t [] = refl
some_id-without_id t (s ∷ ss) = ground (arith, some_id-without_id t ss)

find_drawn-append :
    (t : String) (es fs : List Stroke) (s : Stroke)
    → find_drawn t es ≡ some s
    → find_drawn t (es ++ fs) ≡ some s
unfolding find_drawn
find_drawn-append t [] fs s h = cc
find_drawn-append t (e ∷ es) fs s h = ground (arith, find_drawn-append t es fs s)

has-delete_self : (t : String) (u : List String) → StringSet.has t (StringSet.delete t u) ≡ false
has-delete_self t u = rw (has-delete, eq_refl t)

apply_event_undo :
    (v : View) (u : Stroke) (t : String)
    → u.action ≡ some undo_stroke
    → truthy u.target_stroke_id ≡ some t
    → apply_event v u ≡ record {
      events = v.events ++ u ∷ [];
      undone = StringSet.add t v.undone;
      visible = without_id t v.visible;
    }
unfolding apply_event
apply_event_undo v u t ua ut = simp (ua, ut)

apply_event_redo :
    (v : View) (r : Stroke) (t : String)
    → r.action ≡ some redo_stroke
    → truthy r.target_stroke_id ≡ some t
    → apply_event v r ≡ record {
      events = v.events ++ r ∷ [];
      undone = StringSet.delete t v.undone;
      visible = redo_visible t (v.events ++ r ∷ []) v.visible;
    }
unfolding apply_event
apply_event_redo v r t ra rt = simp (ra, rt)

redo_visible_missing :
    (t : String) (es ss : List Stroke) (s : Stroke)
    → some_id t ss ≡ false
    → find_drawn t es ≡ some s
    → redo_visible t es ss ≡ ss ++ s ∷ []
unfolding redo_visible
redo_visible_missing t es ss s missing found = rw (missing, found)

-- Undoing a drawn stroke hides it, and redoing it shows it again, after the strokes that stayed.
apply_event_undo_redo :
    (v : View) (u r : Stroke) (t : String) (s : Stroke)
    → u.action ≡ some undo_stroke
    → r.action ≡ some redo_stroke
    → truthy u.target_stroke_id ≡ some t
    → truthy r.target_stroke_id ≡ some t
    → find_drawn t v.events ≡ some s
    → let hidden = apply_event v u in
      let shown = apply_event hidden r in
      (some_id t hidden.visible ≡ false)
      × (StringSet.has t hidden.undone ≡ true)
      × (shown.visible ≡ without_id t v.visible ++ s ∷ [])
      × (StringSet.has t shown.undone ≡ false)
apply_event_undo_redo v u r t s ua ra ut rt found =
    simp (apply_event_undo v u t ua ut, apply_event_redo _ r t ra rt)
      (
        some_id-without_id t v.visible,
        rw (has-add, eq_refl t) refl,
        redo_visible_missing t _ _ s (some_id-without_id t v.visible)
            (find_drawn-append t _ _ s (find_drawn-append t _ _ s found)),
        has-delete_self t _,
      )
