-- ===== src/Board/Replay.antt =====
-- Replaying events: `restoreBoardState` of replica/src/raftNode.ts against the board state that
-- produced the snapshot.
use mathlib.Core.List.{foldl-append}
use quorum_canvas.Base.{
  String, ◌≡◌, refl, sym, ap, ◌∙◌, false, Option, some, List, [], ◌∷◌, ◌++◌, foldl, All, arith,
  str_eq, eq_iff, eq_refl, str_eq_comm, if◌then◌else◌, Bool-cases, inl, inr,
}
use quorum_canvas.Map
use quorum_canvas.Map.{has-set, get_or_absent, get_or-cons, get_or-nil}
use quorum_canvas.Types.{Stroke, Action, BoardRecord, undo_stroke, redo_stroke}
use quorum_canvas.Board.{
  Boards, no_boards, ensure, apply_action, apply_board_event, restore_from, restore_board_state,
  snapshot_boards,
}
use quorum_canvas.Board.View.{View, empty_view, view, act, apply_event, view-apply_board_event}

-- The events of one board, in order.
unfoldable pub own_events : String → List Stroke → List Stroke
own_events k [] = []
own_events k (e ∷ es) = if str_eq e.board_id k then e ∷ own_events k es else own_events k es

pub view-foldl :
    (k : String) (b : Boards) (es : List Stroke)
    → view k (foldl apply_board_event b es) ≡ foldl apply_event (view k b) (own_events k es)
unfolding own_events
view-foldl k b [] = refl
view-foldl k b (e ∷ es) = elim (Bool-cases (str_eq e.board_id k)) [
  | inl own ↦ view-foldl k (apply_board_event b e) es ∙ rw (view-apply_board_event k b e, own)
  | inr other ↦ view-foldl k (apply_board_event b e) es ∙ rw (view-apply_board_event k b e, other)
]

-- The keys of a record of boards differ, and each list holds events of its own board.
abbrev pub IsWellKeyed : BoardRecord → Type 0
IsWellKeyed [] = Unit {0}
IsWellKeyed ((k, es) ∷ m) = (Map.has k m ≡ false) × All (λ e. e.board_id ≡ k) es × IsWellKeyed m

pub own_events-All :
    (k : String) (es : List Stroke) → All (λ e. e.board_id ≡ k) es → own_events k es ≡ es
unfolding own_events
own_events-All k [] h = refl
own_events-All k (e ∷ es) h = rw (h.0, eq_refl k, own_events-All k es h.1)

own_events-All_other :
    (j k : String) (es : List Stroke)
    → str_eq j k ≡ false
    → All (λ e. e.board_id ≡ j) es
    → own_events k es ≡ []
unfolding own_events
own_events-All_other j k [] o h = refl
own_events-All_other j k (e ∷ es) o h = rw (h.0, o, own_events-All_other j k es o h.1)

-- Restoring replays each board's own list on it, whatever the order of the boards.
pub view-restore_from :
    (k : String) (b : Boards) (m : BoardRecord)
    → IsWellKeyed m
    → view k (restore_from b m) ≡ foldl apply_event (view k b) (Map.get_or k m [])
unfolding restore_from
view-restore_from k b [] h = rw get_or-nil
view-restore_from k b ((j, es) ∷ m) h = elim (Bool-cases (str_eq j k)) [
  | inl own ↦
      let same : j ≡ k = (eq_iff j k).0 own in
      view-restore_from k (foldl apply_board_event b es) m h.2
      ∙ rw (
        get_or-cons,
        own,
        ← same,
        get_or_absent j m [] h.0,
        view-foldl j b es,
        own_events-All j es h.1,
      )
  | inr other ↦
      view-restore_from k (foldl apply_board_event b es) m h.2
      ∙ rw (get_or-cons, other, view-foldl k b es, own_events-All_other j k es other h.1)
]

-- What a board's history says of it: its event lists are well keyed, and its undone ids and visible
-- strokes are those that a replay of its events gives.
pub record IsDerived (b : Boards) : Type 0 where
  pub keyed : IsWellKeyed b.board_events
  pub replayed : (k : String) → view k b ≡ foldl apply_event empty_view (view k b).events

pub view-no_boards : (k : String) → view k no_boards ≡ empty_view
unfolding no_boards view empty_view Map.get_or Map.get
view-no_boards k = refl

pub no_boards-IsDerived : IsDerived no_boards
unfolding no_boards view empty_view Map.get_or Map.get
no_boards-IsDerived = record { keyed = tt; replayed = λ k. refl }

events-act :
    (a : Action) (t : Option String) (e : Stroke) (v : View) → (act a t e v).events ≡ v.events
unfolding act
events-act undo_stroke (some t) e v = refl
events-act redo_stroke (some t) e v = refl
events-act _ _ e v = ground arith

pub events-apply_event : (v : View) (e : Stroke) → (apply_event v e).events ≡ v.events ++ e ∷ []
unfolding apply_event
events-apply_event v e = events-act _ _ e _

IsWellKeyed-set :
    (k : String) (es : List Stroke) (m : BoardRecord)
    → All (λ e. e.board_id ≡ k) es
    → IsWellKeyed m
    → IsWellKeyed (Map.set k es m)
unfolding Map.set
IsWellKeyed-set k es [] a h = (unfold Map.has in refl, a, tt)
IsWellKeyed-set k es ((j, w) ∷ m) a h = elim (Bool-cases (str_eq j k)) [
  | inl own ↦ rw own (rw (← (eq_iff j k).0 own) h.0, a, h.2)
  | inr other ↦
      rw other
        (rw (has-set k j es m, h.0, str_eq_comm k j, other) refl, h.1, IsWellKeyed-set k es m a h.2)
]

All-get_or :
    (k : String) (m : BoardRecord) → IsWellKeyed m → All (λ e. e.board_id ≡ k) (Map.get_or k m [])
All-get_or k [] h = rw get_or-nil tt
All-get_or k ((j, es) ∷ m) h = elim (Bool-cases (str_eq j k)) [
  | inl own ↦ rw (get_or-cons, own, ← (eq_iff j k).0 own) h.1
  | inr other ↦ rw (get_or-cons, other) (All-get_or k m h.2)
]

All-append_one :
    (k : String) (es : List Stroke) (e : Stroke)
    → All (λ s. s.board_id ≡ k) es
    → e.board_id ≡ k
    → All (λ s. s.board_id ≡ k) (es ++ e ∷ [])
All-append_one k [] e h p = (p, tt)
All-append_one k (s ∷ es) e h p = (h.0, All-append_one k es e h.1 p)

IsWellKeyed-ensure : (k : String) (m : BoardRecord) → IsWellKeyed m → IsWellKeyed (ensure k [] m)
unfolding ensure
IsWellKeyed-ensure k m h = elim (Bool-cases (Map.has k m)) [
  | inl old ↦ rw old h
  | inr new ↦ rw new (IsWellKeyed-set k [] m tt h)
]

board_events-apply_action :
    (a : Action) (t : Option String) (e : Stroke) (b : Boards)
    → (apply_action a t e b).board_events ≡ b.board_events
unfolding apply_action
board_events-apply_action undo_stroke (some t) e b = refl
board_events-apply_action redo_stroke (some t) e b = refl
board_events-apply_action _ _ e b = ground arith

apply_board_event-IsWellKeyed :
    (b : Boards) (e : Stroke)
    → IsWellKeyed b.board_events
    → IsWellKeyed (apply_board_event b e).board_events
unfolding apply_board_event
apply_board_event-IsWellKeyed b e h =
    rw board_events-apply_action (
      IsWellKeyed-set e.board_id _ _ (All-append_one e.board_id _ e (All-get_or _ _ kept) refl)
        kept)
  where
    kept : IsWellKeyed (ensure e.board_id [] b.board_events)
    kept = IsWellKeyed-ensure e.board_id b.board_events h

apply_event-replayed :
    (v : View) (e : Stroke)
    → v ≡ foldl apply_event empty_view v.events
    → apply_event v e ≡ foldl apply_event empty_view (apply_event v e).events
apply_event-replayed v e h =
    simp (events-apply_event v e, foldl-append apply_event empty_view v.events (e ∷ []))
      (ap (λ w. apply_event w e) h)

-- Every event keeps the board state derived from its history.
pub apply_board_event-IsDerived :
    (b : Boards) (e : Stroke) → IsDerived b → IsDerived (apply_board_event b e)
apply_board_event-IsDerived b e d = record {
  keyed = apply_board_event-IsWellKeyed b e d.keyed;
  replayed = λ k. elim (Bool-cases (str_eq e.board_id k)) [
    | inl own ↦
        rw (view-apply_board_event k b e, own) (apply_event-replayed (view k b) e (d.replayed k))
    | inr other ↦ rw (view-apply_board_event k b e, other) (d.replayed k)
  ];
}

pub foldl-IsDerived :
    (b : Boards) (es : List Stroke) → IsDerived b → IsDerived (foldl apply_board_event b es)
foldl-IsDerived b [] d = d
foldl-IsDerived b (e ∷ es) d =
    foldl-IsDerived (apply_board_event b e) es (apply_board_event-IsDerived b e d)

-- A snapshot of a board state that events built restores, in any order of the boards that it is
-- written in, the same events, undone ids and visible strokes of every board.
pub restore-snapshot :
    (events : List Stroke) (boards : BoardRecord) (k : String)
    → let b = foldl apply_board_event no_boards events in
      IsWellKeyed boards
      → ((j : String) → Map.get_or j boards [] ≡ Map.get_or j (snapshot_boards b) [])
      → view k (restore_board_state boards) ≡ view k b
unfolding restore_board_state snapshot_boards Map.get_or view
restore-snapshot events boards k h same =
    view-restore_from k no_boards boards h
    ∙ rw (same k, view-no_boards k) (sym (derived.replayed k))
  where
    derived : IsDerived (foldl apply_board_event no_boards events)
    derived = foldl-IsDerived no_boards events no_boards-IsDerived
