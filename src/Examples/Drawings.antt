-- ===== src/Examples/Drawings.antt =====
-- A canvas and a pointer.
use quorum_canvas.Base.{◌≤◌, ◌≡◌, ◌↔◌, refl, String, true, none, some, List, [], ◌∷◌, arith}
use quorum_canvas.Types.{Stroke}
use quorum_canvas.Security.{
  Identity, validate_stroke, utf16_length, is_hex_color, hex_digits, is_hex_digit, is_finite,
}
use quorum_canvas.UseBoard.{BoardState, initial_board, handle_message, join_ack}
use quorum_canvas.Canvas.{Canvas, Drawing, blank, redraw, draw_strokes}
use quorum_canvas.Canvas.Shown.{Shows, Paint, render, move, settled, rejoin-stale}
use quorum_canvas.Canvas.Drags.{drag, stroke_json, drag-accepted}
use quorum_canvas.Examples.Data.{drawn}

abbrev line : String → Stroke
line id = record (drawn id) { points = (0, 0) ∷ (0, 0) ∷ [] }

abbrev idle : Drawing
idle = record { is_drawing = true; points = (0, 0) ∷ [] }

-- A stroke is shown, the pointer moves, a second stroke comes, and the first is taken away.
abbrev session : List Paint
session =
    render (line "a" ∷ [])
    ∷ move "#000000" (0, 0) idle
    ∷ render (line "a" ∷ line "b" ∷ [])
    ∷ render (line "b" ∷ [])
    ∷ []

abbrev board : BoardState
board = record initial_board { strokes = line "a" ∷ [] }

abbrev canvas : Canvas
canvas = redraw (line "a" ∷ []) blank

canvas-Shows : Shows (line "a" ∷ []) canvas
unfolding draw_strokes redraw
canvas-Shows = record { painted = refl; counted = refl }

-- While the browser was away `a` was undone and `b` drawn.
rejoin-stale_example :
    ((handle_message (join_ack (line "b" ∷ [])) board).strokes ≡ line "b" ∷ [])
    × (settled (redraw (handle_message (join_ack (line "b" ∷ [])) board).strokes canvas).painted
        ≡ draw_strokes board.strokes [])
unfolding initial_board
rejoin-stale_example = rejoin-stale board (line "b" ∷ []) canvas canvas-Shows refl

abbrev connection : Identity
connection = record { board_id = "board"; user_id = "user" }

drag-accepted_example :
    (s : Stroke) × (drag "id" 0 "board" "user" "#000000" (0, 0) ((0, 0) ∷ []) idle blank ≡ some s)
    × ((validate_stroke (stroke_json s) connection ≡ none) ↔ (2 ≤ 2000))
unfolding utf16_length is_hex_color hex_digits is_hex_digit is_finite
drag-accepted_example =
    drag-accepted "id" 0 "#000000" connection (0, 0) (0, 0) [] idle blank (omega arith)
      (omega arith) refl refl ((refl, refl), ((refl, refl), tt))
