-- ===== src/Security/Targets.antt =====
-- An undo or a redo without a target.
use quorum_canvas.Base.{
  ◌≡◌, ◌≤◌, refl, String, true, false, none, some, List, [], ◌∷◌, ◌++◌, arith, inl,
}
use quorum_canvas.Map.StringSet
use quorum_canvas.Types.{Double, Stroke, undo_stroke}
use quorum_canvas.Board.View.{View, apply_event}
use quorum_canvas.Security.{
  Json, number, text, array, object, Elements, no_elements, element, no_properties, property,
  Identity, utf16_length, is_hex_color, is_finite, field, validate_stroke,
}
use quorum_canvas.Security.Accepted.{IsIdentified, IsPointer}
use quorum_canvas.Security.Exact.{validate_stroke_lem}

points_json : List (Double × Double) → Elements
points_json [] = no_elements
points_json ((x, y) ∷ ps) =
    element (array (element (number x) (element (number y) no_elements))) (points_json ps)

-- The object of an undo or a redo, with the fields of a stroke.
unfoldable pub pointer_json : Stroke → String → String → Json
unfolding points_json
pointer_json e action target = object (
    property "id" (text e.id) (
      property "boardId" (text e.board_id) (
        property "userId" (text e.user_id) (
          property "color" (text e.color) (
            property "width" (number e.width) (
              property "points" (array (points_json e.points)) (
                property "timestamp" (number e.timestamp) (
                  property "action" (text action)
                    (property "targetStrokeId" (text target) no_properties)))))))))

-- An undo whose target is the empty string, with an id of 1 to 200 code units, a valid color and a
-- finite timestamp, is accepted whatever its width and points are, and a board on which its id is
-- not undone shows it as a drawing.
empty_target-shown :
    (e : Stroke) (v : View)
    → 1 ≤ utf16_length e.id
    → utf16_length e.id ≤ 200
    → is_hex_color e.color ≡ true
    → is_finite e.timestamp ≡ true
    → e.action ≡ some undo_stroke
    → e.target_stroke_id ≡ some ""
    → StringSet.has e.id v.undone ≡ false
    → let conn : Identity = record { board_id = e.board_id; user_id = e.user_id } in
      (validate_stroke (pointer_json e "undo_stroke" "") conn ≡ none)
      × ((apply_event v e).visible ≡ v.visible ++ e ∷ [])
unfolding apply_event pointer_json field
empty_target-shown e v i j c t a g new =
    let conn : Identity = record { board_id = e.board_id; user_id = e.user_id } in
    let s = pointer_json e "undo_stroke" "" in
    let identified : IsIdentified conn s = record {
      id = (e.id, refl, i, j);
      board = refl;
      user = refl;
      color = (e.color, refl, c);
      timestamp = (e.timestamp, refl, t);
    } in
    let pointer : IsPointer s = record { action = inl refl; target = ("", refl) } in
    ((validate_stroke_lem s conn).1 (identified, inl pointer), ground (arith, a, g, new))
