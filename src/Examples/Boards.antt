-- ===== src/Examples/Boards.antt =====
-- A board on which one stroke is drawn, undone and redone.
use quorum_canvas.Base.{List, [], ◌∷◌, foldl, ◌≡◌, ◌≢◌, ◌⊎◌, refl}
use quorum_canvas.Types.{Stroke}
use quorum_canvas.Board.{Boards, no_boards, apply_board_event, restore_board_state, snapshot_boards}
use quorum_canvas.Board.View.{View, view}
use quorum_canvas.Board.Effects.{Acts, apply_board_event-Acts}
use quorum_canvas.Board.Replay.{IsWellKeyed, foldl-IsDerived, no_boards-IsDerived, restore-snapshot}
use quorum_canvas.BoardManager.{new_room, add_to_room}
use quorum_canvas.BoardManager.Derivation.{room_view, room-agrees}
use quorum_canvas.Examples.Data.{drawn, undoes, redoes}

abbrev history : List Stroke
history = drawn "a" ∷ drawn "b" ∷ undoes "a" ∷ redoes "a" ∷ undoes "b" ∷ []

abbrev built : Boards
built = foldl apply_board_event no_boards history

apply_board_event-Acts_example :
    let w = view "board" (apply_board_event built (redoes "b")) in
    (((redoes "b").board_id ≡ "board") × Acts (redoes "b") (view "board" built) w)
    ⊎ (((redoes "b").board_id ≢ "board") × (w ≡ view "board" built))
apply_board_event-Acts_example = apply_board_event-Acts "board" built (redoes "b")

written_keys : IsWellKeyed (snapshot_boards built)
unfolding snapshot_boards
written_keys = (foldl-IsDerived no_boards history no_boards-IsDerived).keyed

restore-snapshot_example :
    view "board" (restore_board_state (snapshot_boards built)) ≡ view "board" built
restore-snapshot_example =
    restore-snapshot history (snapshot_boards built) "board" written_keys (λ j. refl)

abbrev two_drawn : View
two_drawn = record {
  events = drawn "a" ∷ drawn "b" ∷ [];
  undone = [];
  visible = drawn "a" ∷ drawn "b" ∷ [];
}

room-agrees_example :
    room_view (foldl (λ r e. add_to_room e r) (new_room "board") history) ≡ view "board" built
room-agrees_example = room-agrees "board" history (refl, (refl, (refl, (refl, (refl, tt)))))
