-- ===== src/Examples/Browsers.antt =====
-- Browsers that see a board change.
use quorum_canvas.Base.{String, ◌≡◌, refl, true, false, some, List, [], ◌∷◌, ◌++◌, foldl}
use quorum_canvas.Map.StringSet
use quorum_canvas.Types.{Stroke}
use quorum_canvas.Board.{
  some_id, find_drawn, without_id, redo_visible, no_boards, apply_board_event, get_strokes,
}
use quorum_canvas.Board.View.{View, empty_view, act, apply_event}
use quorum_canvas.UseBoard.{
  BoardState, initial_board, handle_message, join_ack, stroke_broadcast, error, add_stroke,
}
use quorum_canvas.UseBoard.Agreement.{IsFresh, IsFreshAs, AreFresh, handle_message-agrees}
use quorum_canvas.UseBoard.Missed.{redo_after_join-missed}
use quorum_canvas.UseBoard.Rollbacks.{add_stroke-refused}
use quorum_canvas.UseWebSocket.{
  Event, opened, has_closed, failed, fired, step, opening, is_busy, connect, initial_hook, clean_up,
  on_close, on_timer, reconnect_delay,
}
use quorum_canvas.UseWebSocket.Reconnect.{IsAlive, connected-IsAlive, clean_up-reconnects}
use quorum_canvas.Examples.Data.{drawn, undoes, redoes}

abbrev story : List Stroke
story = drawn "a" ∷ undoes "a" ∷ redoes "a" ∷ drawn "b" ∷ []

story_is_fresh : AreFresh empty_view story
unfolding AreFresh IsFresh IsFreshAs empty_view apply_event act find_drawn some_id without_id
    StringSet.has StringSet.add StringSet.delete redo_visible
story_is_fresh = ((refl, refl, refl), (tt, (tt, ((refl, refl, refl), tt))))

handle_message-agrees_example :
    (foldl (λ b e. handle_message (stroke_broadcast e) b) initial_board story).strokes
    ≡ get_strokes "board" (foldl apply_board_event no_boards story)
handle_message-agrees_example =
    handle_message-agrees "board" story (refl, (refl, (refl, (refl, tt)))) story_is_fresh

abbrev hidden : View
hidden = record { events = drawn "a" ∷ undoes "a" ∷ []; undone = "a" ∷ []; visible = [] }

redo_after_join-missed_example :
    let joined = handle_message (join_ack []) initial_board in
    ((apply_event hidden (redoes "a")).visible ≡ drawn "a" ∷ [])
    × ((handle_message (stroke_broadcast (redoes "a")) joined).strokes ≡ [])
unfolding find_drawn some_id
redo_after_join-missed_example =
    redo_after_join-missed (redoes "a") "a" refl refl hidden (drawn "a") initial_board refl refl
      refl

abbrev shows_a : BoardState
shows_a = record initial_board { strokes = drawn "a" ∷ [] }

add_stroke-refused_example :
    let refused = λ (code : String).
      (handle_message
        (error (some code) (some "b"))
        (add_stroke true (drawn "b") shows_a)).strokes in
    ((add_stroke true (drawn "b") shows_a).strokes ≡ drawn "a" ∷ drawn "b" ∷ [])
    × ((add_stroke false (drawn "b") shows_a).strokes ≡ drawn "a" ∷ [])
    × (refused "RAFT_WRITE_FAILED" ≡ drawn "a" ∷ [])
    × (refused "RATE_LIMITED" ≡ drawn "a" ∷ drawn "b" ∷ [])
unfolding some_id
add_stroke-refused_example = add_stroke-refused (drawn "b") shows_a refl refl refl

-- A socket that fails, and one that opens after it.
abbrev unsteady : List Event
unsteady = failed 1 ∷ has_closed 1 ∷ fired 2 ∷ opened 3 ∷ []

connected-IsAlive_example : IsAlive (foldl step (connect initial_hook) unsteady)
connected-IsAlive_example = connected-IsAlive unsteady

clean_up-reconnects_example :
    let left = clean_up (connect initial_hook) in
    let ended = on_close 1 left in
    let again = on_timer left.next ended in
    (ended.armed ≡ left.armed ++ (left.next, reconnect_delay left.attempt) ∷ [])
    × (again.ws ≡ some ended.next)
    × (again.ready ≡ (ended.next, opening) ∷ ended.ready)
clean_up-reconnects_example =
    clean_up-reconnects (connect initial_hook) 1 (unfold connect is_busy initial_hook in refl)
