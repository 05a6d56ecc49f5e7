-- ===== src/Canvas/Drags.antt =====
-- The stroke that a pointer draws, and what a gateway makes of it.
use quorum_canvas.Base.{
  ◌≤◌, ◌≡◌, ◌↔◌, inl, inr, refl, ap, ◌∙◌, String, true, Option, none, some, List, [], ◌∷◌, ◌++◌,
  All, arith, length,
}
use mathlib.Core.List.{append_assoc, append-nil}
use quorum_canvas.Types.{Double, Stroke}
use quorum_canvas.Security.{
  Json, text, number, array, object, Elements, no_elements, element, no_properties, property,
  Identity, is_finite, field, find_property, utf16_length, is_hex_color, length_elements,
  validate_stroke,
}
use quorum_canvas.Security.Accepted.{ArePoints}
use quorum_canvas.Security.Exact.{validate_stroke_lem}
use quorum_canvas.Canvas.{
  Canvas, Drawing, brush_width, pointer_down, pointer_move, pointer_up, create_stroke,
}

-- The pointer moves to one place after the other.
unfoldable pub moves : String → List (Double × Double) → Drawing × Canvas → Drawing × Canvas
moves color [] s = s
moves color (p ∷ ps) s = moves color ps (pointer_move color p s)

-- The pointer goes down at `p`, moves over `ps` and comes up.
unfoldable pub drag :
    String
    → Double
    → String
    → String
    → String
    → Double × Double
    → List (Double × Double)
    → Drawing
    → Canvas
    → Option Stroke
unfolding moves
drag id now board user color p ps d c =
    (pointer_up id now board user color (moves color ps (pointer_down p d, c)).0).1

abbrev pub point_json : Double × Double → Json
point_json (x, y) = array (element (number x) (element (number y) no_elements))

abbrev pub points_json : List (Double × Double) → Elements
points_json [] = no_elements
points_json (p ∷ ps) = element (point_json p) (points_json ps)

-- A new stroke as JSON: it has neither an action nor a target.
unfoldable pub stroke_json : Stroke → Json
stroke_json s = object (
    property "id" (text s.id) (
      property "boardId" (text s.board_id) (
        property "userId" (text s.user_id) (
          property "color" (text s.color) (
            property "width" (number s.width) (
              property "points" (array (points_json s.points))
                (property "timestamp" (number s.timestamp) no_properties)))))))

points-moves :
    (color : String) (ps qs : List (Double × Double)) (c : Canvas)
    → (moves color ps (record { is_drawing = true; points = qs }, c)).0
      ≡ record { is_drawing = true; points = qs ++ ps }
unfolding moves pointer_move
points-moves color [] qs c = rw (append-nil qs) refl
points-moves color (p ∷ ps) qs c =
    points-moves color ps (qs ++ p ∷ []) _ ∙ rw (append_assoc qs (p ∷ []) ps) refl

-- A drag over two places or more hands over a stroke with all of them.
drag_lem :
    (id : String) (now : Double) (board user color : String) (p q : Double × Double)
    (qs : List (Double × Double)) (d : Drawing) (c : Canvas)
    → drag id now board user color p (q ∷ qs) d c
      ≡ some (create_stroke id now board user color brush_width (p ∷ q ∷ qs))
unfolding drag pointer_down pointer_up
drag_lem id now board user color p q qs d c =
    ap (λ x. (pointer_up id now board user color x).1) (points-moves color (q ∷ qs) (p ∷ []) c)
    ∙ ground arith

abbrev pub AreFinite : List (Double × Double) → Type 0
AreFinite = All (λ p. (is_finite p.0 ≡ true) × (is_finite p.1 ≡ true))

points_json-ArePoints : (ps : List (Double × Double)) → AreFinite ps → ArePoints (points_json ps)
unfolding ArePoints
points_json-ArePoints [] h = tt
points_json-ArePoints ((x, y) ∷ ps) ((fx, fy), h) =
    ((x, y, refl, fx, fy), points_json-ArePoints ps h)

length-points_json : (ps : List (Double × Double)) → length_elements (points_json ps) ≡ length ps
length-points_json [] = refl
length-points_json (p ∷ ps) = omega (arith, length-points_json ps)

action-stroke_json : (s : Stroke) → field "action" (stroke_json s) ≡ none
unfolding stroke_json field find_property
action-stroke_json s = refl

points-stroke_json :
    (s : Stroke) → field "points" (stroke_json s) ≡ some (array (points_json s.points))
unfolding stroke_json field find_property
points-stroke_json s = refl

-- A stroke that a pointer has drawn over two places or more reaches the gateway as a stroke that it
-- accepts exactly if it has at most 2000 of them.
pub drag-accepted :
    (id : String) (now : Double) (color : String) (conn : Identity) (p q : Double × Double)
    (qs : List (Double × Double)) (d : Drawing) (c : Canvas)
    → 1 ≤ utf16_length id
    → utf16_length id ≤ 200
    → is_hex_color color ≡ true
    → is_finite now ≡ true
    → AreFinite (p ∷ q ∷ qs)
    → (s : Stroke) × (drag id now conn.board_id conn.user_id color p (q ∷ qs) d c ≡ some s)
      × ((validate_stroke (stroke_json s) conn ≡ none) ↔ (length (p ∷ q ∷ qs) ≤ 2000))
unfolding stroke_json create_stroke
drag-accepted id now color conn p q qs d c some_id short hex finite points =
    let s = create_stroke id now conn.board_id conn.user_id color brush_width (p ∷ q ∷ qs) in
    let exact = validate_stroke_lem (stroke_json s) conn in
    let size = length-points_json (p ∷ q ∷ qs) in
    (
      s,
      drag_lem id now conn.board_id conn.user_id color p q qs d c,
      (
        (λ ok. elim (exact.0 ok).1 [
          | inl pointer ↦ let missing = action-stroke_json s in absurd (ground arith)
          | inr drawing ↦
              let (es, at, _, few, _) = drawing.points in
              let same = points-stroke_json s in
              let length_es : length_elements es ≡ length_elements (points_json (p ∷ q ∷ qs)) =
                ground arith in
              omega arith
        ]),
        (λ few. exact.1 (
          record {
            id = (id, unfold field find_property in refl, some_id, short);
            board = unfold field find_property in refl;
            user = unfold field find_property in refl;
            color = (color, unfold field find_property in refl, hex);
            timestamp = (now, unfold field find_property in refl, finite);
          },
          inr (record {
            action = inl (unfold field find_property in refl);
            target = inl (unfold field find_property in refl);
            width = (brush_width, unfold field find_property in refl, omega arith, omega arith);
            points = (
              points_json (p ∷ q ∷ qs),
              unfold field find_property in refl,
              omega arith,
              omega arith,
              points_json-ArePoints (p ∷ q ∷ qs) points,
            );
          }),
        )),
      ),
    )
