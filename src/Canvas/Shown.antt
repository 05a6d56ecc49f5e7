-- ===== src/Canvas/Shown.antt =====
-- What the canvas shows against the strokes of the board.
use mathlib.Core.List.{append-nil}
use quorum_canvas.Base.{
  ℕ, zero, suc, ◌≤◌, ◌<◌, ◌≡◌, ◌⊎◌, inl, inr, refl, sym, ap, ◌∙◌, String, false, List, [], ◌∷◌,
  ◌++◌, arith, ltb, length, drop, if◌then◌else◌, Bool-cases,
}
use quorum_canvas.Types.{Stroke, Double}
use quorum_canvas.UseBoard.{BoardState, join_ack, handle_message}
use quorum_canvas.Canvas.{Line, Canvas, Drawing, pointer_move, draw_stroke, draw_strokes, redraw}

-- The lines but those of a stroke that is being drawn.
abbrev pub settled : List Line → List Line
settled [] = []
settled (l ∷ ls) = if l.live then settled ls else l ∷ settled ls

-- The canvas shows exactly these strokes, drawn in order on a blank canvas, apart from a stroke that is
-- being drawn.
pub record Shows (strokes : List Stroke) (c : Canvas) : Type 0 where
  pub painted : settled c.painted ≡ draw_strokes strokes []
  pub counted : c.last_drawn_count ≡ length strokes

settled-append : (xs ys : List Line) → settled (xs ++ ys) ≡ settled xs ++ settled ys
settled-append [] ys = refl
settled-append (x ∷ xs) ys = ground (arith, settled-append xs ys)

settled-draw_stroke :
    (s : Stroke) (p : List Line) → settled (draw_stroke s p) ≡ draw_stroke s (settled p)
unfolding draw_stroke
settled-draw_stroke s p = elim (Bool-cases (ltb (length s.points) 2)) [
  | inl short ↦ simp short refl
  | inr long ↦ simp long (settled-append p _)
]

settled-draw_strokes :
    (xs : List Stroke) (p : List Line) → settled (draw_strokes xs p) ≡ draw_strokes xs (settled p)
unfolding draw_strokes
settled-draw_strokes [] p = refl
settled-draw_strokes (x ∷ xs) p =
    settled-draw_strokes xs (draw_stroke x p) ∙ ap (draw_strokes xs) (settled-draw_stroke x p)

draw_strokes-append :
    (xs ys : List Stroke) (p : List Line)
    → draw_strokes (xs ++ ys) p ≡ draw_strokes ys (draw_strokes xs p)
unfolding draw_strokes
draw_strokes-append [] ys p = refl
draw_strokes-append (x ∷ xs) ys p = draw_strokes-append xs ys (draw_stroke x p)

drop_all : (xs : List Stroke) (n : ℕ) → length xs ≤ n → drop n xs ≡ []
drop_all [] zero h = refl
drop_all [] (suc n) h = refl
drop_all (x ∷ xs) zero h = absurd (omega arith)
drop_all (x ∷ xs) (suc n) h = drop_all xs n (omega arith)

-- What a redraw leaves of a canvas that shows the strokes before: all the new strokes if they are
-- fewer, and otherwise the old ones, as many as there were, and the new ones after them.
redraw_lem :
    (old new : List Stroke) (c : Canvas)
    → Shows old c
    → settled (redraw new c).painted
      ≡ draw_strokes
          (if ltb (length new) (length old) then new else old ++ drop (length old) new)
          []
unfolding redraw
redraw_lem old new c s =
    let counted = s.counted in
    elim (Bool-cases (ltb (length new) (length old))) [
      | inl fewer ↦ rw (counted, fewer) (settled-draw_strokes new [])
      | inr more ↦
          rw (counted, more)
            (settled-draw_strokes (drop (length old) new) c.painted
              ∙ ap (draw_strokes (drop (length old) new)) s.painted
              ∙ sym (draw_strokes-append old (drop (length old) new) []))
    ]

-- The strokes grow at the end, or they become fewer.
abbrev pub IsSmooth : List Stroke → List Stroke → Type 0
IsSmooth old new = ((more : List Stroke) × (new ≡ old ++ more)) ⊎ (length new < length old)

-- A render with these strokes, or a move of the pointer.
pub data Paint : Type 0 where
  render : List Stroke → Paint
  move : String → Double × Double → Drawing → Paint

unfoldable pub paint : List Paint → Canvas → Canvas
paint [] c = c
paint (render new ∷ rest) c = paint rest (redraw new c)
paint (move color p d ∷ rest) c = paint rest (pointer_move color p (d, c)).1

-- The strokes of each render follow smoothly on those of the one before.
abbrev pub AreSmooth : List Stroke → List Paint → Type 0
AreSmooth old [] = Unit
AreSmooth old (render new ∷ rest) = IsSmooth old new × AreSmooth new rest
AreSmooth old (move color p d ∷ rest) = AreSmooth old rest

abbrev pub last_of : List Stroke → List Paint → List Stroke
last_of old [] = old
last_of old (render new ∷ rest) = last_of new rest
last_of old (move color p d ∷ rest) = last_of old rest

-- A browser that joins again and is sent as many strokes as it shows has the new strokes on its board
-- and the old ones, all of them and nothing else, on its canvas.
pub rejoin-stale :
    (b : BoardState) (new : List Stroke) (c : Canvas)
    → Shows b.strokes c
    → length new ≡ length b.strokes
    → let b' = handle_message (join_ack new) b in
      (b'.strokes ≡ new) × (settled (redraw b'.strokes c).painted ≡ draw_strokes b.strokes [])
unfolding handle_message
rejoin-stale b new c s same =
    let as_many : ltb (length new) (length b.strokes) ≡ false = ground arith in
    let no_more : drop (length b.strokes) new ≡ [] =
      drop_all new (length b.strokes) (omega arith) in
    (refl, redraw_lem b.strokes new c s ∙ rw (as_many, no_more, append-nil b.strokes) refl)
