-- ===== src/Canvas.antt =====
-- frontend/src/components/Canvas.tsx, frontend/src/hooks/useDrawing.ts and `createStroke` of
-- frontend/src/utils/strokeUtils.ts: what is painted on a board's canvas, and the strokes that a pointer
-- draws. The canvas is the list of the lines painted on it since it was last cleared; the place of a
-- pointer on it (`getCanvasPoint`) is an argument.
pub mod Shown
pub mod Drags
use quorum_canvas.Base.{
  ℕ, ◌+◌, ◌^◌, ◌/◌, ◌%◌, String, Bool, true, false, ◌||◌, ◌&&◌, not, Option, none, some, List, [],
  ◌∷◌, ◌++◌, ltb, leb, ◌==◌, if◌then◌else◌, length, drop,
}
use quorum_canvas.Types.{Double, Stroke}

-- BRUSH_WIDTH, the number 3.
abbrev pub brush_width : Double
brush_width = 4613937818241073152

-- A path that has been stroked: a stroke of the board, or the latest segment (`live`) of the one that
-- is being drawn.
pub record Line : Type 0 where
  pub live : Bool
  pub color : String
  pub width : Double
  pub points : List (Double × Double)

-- Zero, with either sign, and NaN.
abbrev pub is_falsy : Double → Bool
is_falsy d = d % 2 ^ 63 == 0 || ((d / 2 ^ 52) % 2 ^ 11 == 2047 && not (d % 2 ^ 52 == 0))

-- `drawStroke`
unfoldable pub draw_stroke : Stroke → List Line → List Line
draw_stroke s painted =
    if ltb (length s.points) 2
    then painted
    else painted
      ++ (record {
        live = false;
        color = s.color;
        width = (if is_falsy s.width then brush_width else s.width);
        points = s.points;
      })
        ∷ []

-- `for (const stroke of strokes) drawStroke(ctx, stroke)`
unfoldable pub draw_strokes : List Stroke → List Line → List Line
unfolding draw_stroke
draw_strokes [] painted = painted
draw_strokes (s ∷ ss) painted = draw_strokes ss (draw_stroke s painted)

-- The canvas and `lastDrawnCountRef`.
pub record Canvas : Type 0 where
  pub painted : List Line
  pub last_drawn_count : ℕ

abbrev pub blank : Canvas
blank = record { painted = []; last_drawn_count = 0 }

-- The effect on `[strokes]`.
unfoldable pub redraw : List Stroke → Canvas → Canvas
unfolding draw_strokes
redraw strokes c = record {
  painted =
      (if ltb (length strokes) c.last_drawn_count
        then draw_strokes strokes []
        else draw_strokes (drop c.last_drawn_count strokes) c.painted);
  last_drawn_count = length strokes;
}

-- `isDrawing` and `pointsRef`.
pub record Drawing : Type 0 where
  pub is_drawing : Bool
  pub points : List (Double × Double)

unfoldable pub pointer_down : Double × Double → Drawing → Drawing
pointer_down p d = record { is_drawing = true; points = p ∷ [] }

-- The last two of the points, from which the latest segment is drawn.
unfoldable pub last_two : List (Double × Double) → List (Double × Double)
last_two [] = []
last_two (p ∷ []) = []
last_two (p ∷ q ∷ []) = p ∷ q ∷ []
last_two (p ∷ q ∷ r ∷ ps) = last_two (q ∷ r ∷ ps)

abbrev pub segment : String → List (Double × Double) → List Line
segment color [] = []
segment color (p ∷ ps) =
    (record { live = true; color = color; width = brush_width; points = p ∷ ps }) ∷ []

unfoldable pub pointer_move : String → Double × Double → Drawing × Canvas → Drawing × Canvas
unfolding last_two
pointer_move color p (d, c) =
    if d.is_drawing
    then (
      record d { points = d.points ++ p ∷ [] },
      record c { painted = c.painted ++ segment color (last_two (d.points ++ p ∷ [])) },
    )
    else (d, c)

-- `createStroke`, with a new id and the time.
unfoldable pub create_stroke :
    String → Double → String → String → String → Double → List (Double × Double) → Stroke
create_stroke id now board_id user_id color width points = record {
  id = id;
  board_id = board_id;
  user_id = user_id;
  color = color;
  width = width;
  points = points;
  timestamp = now;
  action = none;
  target_stroke_id = none;
}

-- `handlePointerUp`: the stroke that `onStrokeComplete` is given, if there is one.
unfoldable pub pointer_up :
    String → Double → String → String → String → Drawing → Drawing × Option Stroke
unfolding create_stroke
pointer_up id now board_id user_id color d = if not d.is_drawing then (d, none) else (
  record { is_drawing = false; points = [] },
  (if leb 2 (length d.points)
      then some (create_stroke id now board_id user_id color brush_width d.points)
      else none),
)
