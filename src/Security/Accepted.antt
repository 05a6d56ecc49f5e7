-- ===== src/Security/Accepted.antt =====
-- The strokes that a gateway accepts.
use quorum_canvas.Base.{
  ◌≤◌, ◌<◌, ◌≡◌, refl, ◌⊎◌, inl, inr, String, Bool, true, false, ◌||◌, Option, none, some, arith,
  str_eq, str_eq→eq, ap, ◌∙◌, Bool-cases,
}
use quorum_canvas.Types.{Double}
use quorum_canvas.Security.{
  Json, null, boolean, number, text, array, object, Elements, no_elements, element, Identity,
  max_stroke_points, utf16_length, is_hex_color, is_finite, one_hundred, is_not_positive, field,
  is_object, is_valid_id, is_same_text, is_valid_action, is_undo_redo, is_text, is_valid_target,
  is_valid_color, is_finite_number, is_valid_width, length_elements, is_valid_points,
  is_valid_point, every_valid_point, are_valid_points, validate_drawing, validate_stroke, test_text,
  test_number, test_array,
}

-- A list of pairs of finite numbers.
unfoldable pub ArePoints : Elements → Type 0
ArePoints no_elements = Unit
ArePoints (element v es) =
    ((x : Double) × (y : Double) × (v ≡ array (element (number x) (element (number y) no_elements)))
      × (is_finite x ≡ true)
      × (is_finite y ≡ true))
    × ArePoints es

-- The fields that every stroke has.
pub record IsIdentified (conn : Identity) (s : Json) : Type 0 where
  pub id :
      (i : String) × (field "id" s ≡ some (text i)) × (1 ≤ utf16_length i) × (utf16_length i ≤ 200)
  pub board : field "boardId" s ≡ some (text conn.board_id)
  pub user : field "userId" s ≡ some (text conn.user_id)
  pub color : (c : String) × (field "color" s ≡ some (text c)) × (is_hex_color c ≡ true)
  pub timestamp : (d : Double) × (field "timestamp" s ≡ some (number d)) × (is_finite d ≡ true)

-- An undo or a redo of the stroke that it names.
pub record IsPointer (s : Json) : Type 0 where
  pub action :
      (field "action" s ≡ some (text "undo_stroke"))
      ⊎ (field "action" s ≡ some (text "redo_stroke"))
  pub target : (t : String) × (field "targetStrokeId" s ≡ some (text t))

-- A drawing.
pub record IsDrawing (s : Json) : Type 0 where
  pub action : (field "action" s ≡ none) ⊎ (field "action" s ≡ some (text "stroke"))
  pub target :
      (field "targetStrokeId" s ≡ none)
      ⊎ ((t : String) × (field "targetStrokeId" s ≡ some (text t)))
  pub width : (d : Double) × (field "width" s ≡ some (number d)) × (0 < d) × (d ≤ one_hundred)
  pub points :
      (es : Elements) × (field "points" s ≡ some (array es))
      × (1 ≤ length_elements es)
      × (length_elements es ≤ max_stroke_points)
      × ArePoints es

-- The tests, all passed.
pub record Passes (conn : Identity) (s : Json) : Type 0 where
  pub is_object : is_object s ≡ true
  pub id : is_valid_id (field "id" s) ≡ true
  pub board : is_same_text conn.board_id (field "boardId" s) ≡ true
  pub user : is_same_text conn.user_id (field "userId" s) ≡ true
  pub action : is_valid_action (field "action" s) ≡ true
  pub target : is_valid_target (field "targetStrokeId" s) ≡ true
  pub has_target :
      is_undo_redo (field "action" s) ≡ true → is_text (field "targetStrokeId" s) ≡ true
  pub color : is_valid_color (field "color" s) ≡ true
  pub timestamp : is_finite_number (field "timestamp" s) ≡ true
  pub drawing : is_undo_redo (field "action" s) ≡ false → validate_drawing s ≡ none

validate_stroke-Passes :
    (s : Json) (conn : Identity) → validate_stroke s conn ≡ none → Passes conn s
unfolding validate_stroke
validate_stroke-Passes s conn h = record {
  is_object = ground arith;
  id = ground arith;
  board = ground arith;
  user = ground arith;
  action = ground arith;
  target = ground arith;
  has_target = λ u. ground arith;
  color = ground arith;
  timestamp = ground arith;
  drawing = λ u. ground arith;
}

test_text-true :
    (p : String → Bool) (o : Option Json)
    → test_text p o ≡ true
    → (t : String) × (o ≡ some (text t)) × (p t ≡ true)
test_text-true p (some (text t)) h = (t, refl, h)
test_text-true p none h = absurd (cc)
test_text-true p (some null) h = absurd (cc)
test_text-true p (some (boolean _)) h = absurd (cc)
test_text-true p (some (number _)) h = absurd (cc)
test_text-true p (some (array _)) h = absurd (cc)
test_text-true p (some (object _)) h = absurd (cc)

test_number-true :
    (p : Double → Bool) (o : Option Json)
    → test_number p o ≡ true
    → (d : Double) × (o ≡ some (number d)) × (p d ≡ true)
test_number-true p (some (number d)) h = (d, refl, h)
test_number-true p none h = absurd (cc)
test_number-true p (some null) h = absurd (cc)
test_number-true p (some (boolean _)) h = absurd (cc)
test_number-true p (some (text _)) h = absurd (cc)
test_number-true p (some (array _)) h = absurd (cc)
test_number-true p (some (object _)) h = absurd (cc)

test_array-true :
    (p : Elements → Bool) (o : Option Json)
    → test_array p o ≡ true
    → (es : Elements) × (o ≡ some (array es)) × (p es ≡ true)
test_array-true p (some (array es)) h = (es, refl, h)
test_array-true p none h = absurd (cc)
test_array-true p (some null) h = absurd (cc)
test_array-true p (some (boolean _)) h = absurd (cc)
test_array-true p (some (text _)) h = absurd (cc)
test_array-true p (some (number _)) h = absurd (cc)
test_array-true p (some (object _)) h = absurd (cc)

point_of :
    (v : Json)
    → is_valid_point v ≡ true
    → (x : Double) × (y : Double) × (v
        ≡ array (element (number x) (element (number y) no_elements)))
      × (is_finite x ≡ true)
      × (is_finite y ≡ true)
point_of (array no_elements) h = absurd (cc)
point_of (array (element a no_elements)) h = absurd (ground arith)
point_of (array (element a (element b no_elements))) h =
    let (x, ex, fx) = test_number-true is_finite (some a) (ground arith) in
    let (y, ey, fy) = test_number-true is_finite (some b) (ground arith) in
    (x, y, cc (ex, ey), fx, fy)
point_of (array (element a (element b (element c es)))) h = absurd (ground arith)
point_of null h = absurd (cc)
point_of (boolean _) h = absurd (cc)
point_of (text _) h = absurd (cc)
point_of (number _) h = absurd (cc)
point_of (object _) h = absurd (cc)

every_valid_point-ArePoints : (es : Elements) → every_valid_point es ≡ true → ArePoints es
unfolding ArePoints
every_valid_point-ArePoints no_elements h = tt
every_valid_point-ArePoints (element v es) h =
    (point_of v (ground arith), every_valid_point-ArePoints es (ground arith))

Passes-IsIdentified : (conn : Identity) (s : Json) → Passes conn s → IsIdentified conn s
unfolding is_valid_id is_valid_color
Passes-IsIdentified conn s p =
    let (i, ei, hi) = test_text-true _ (field "id" s) p.id in
    let (b, eb, hb) = test_text-true _ (field "boardId" s) p.board in
    let (u, eu, hu) = test_text-true _ (field "userId" s) p.user in
    let (d, ed, hd) = test_number-true _ (field "timestamp" s) p.timestamp in
    let (c, ec, hc) = test_text-true _ (field "color" s) p.color in
    record {
      id = (i, ei, ground arith, ground arith);
      board = eb ∙ ap (λ t. some (text t)) (str_eq→eq b conn.board_id hb);
      user = eu ∙ ap (λ t. some (text t)) (str_eq→eq u conn.user_id hu);
      color = (c, ec, hc);
      timestamp = (d, ed, hd);
    }

Passes-IsPointer :
    (conn : Identity) (s : Json)
    → Passes conn s
    → is_undo_redo (field "action" s) ≡ true
    → IsPointer s
Passes-IsPointer conn s p h =
    let (a, ea, ha) = test_text-true _ (field "action" s) h in
    let (t, et, ht) = test_text-true _ (field "targetStrokeId" s) (p.has_target h) in
    record {
      action = elim (Bool-cases (str_eq a "undo_stroke")) [
        | inl y ↦ inl (ea ∙ ap (λ t. some (text t)) (str_eq→eq a "undo_stroke" y))
        | inr n ↦ inr (ea ∙ ap (λ t. some (text t)) (str_eq→eq a "redo_stroke" (ground arith)))
      ];
      target = (t, et);
    }

is_undo_redo-text :
    (o : Option Json) (a : String)
    → o ≡ some (text a)
    → is_undo_redo o ≡ (str_eq a "undo_stroke" || str_eq a "redo_stroke")
is_undo_redo-text o a e = rw e refl

action_of_drawing :
    (o : Option Json)
    → is_valid_action o ≡ true
    → is_undo_redo o ≡ false
    → (o ≡ none) ⊎ (o ≡ some (text "stroke"))
action_of_drawing none h n = inl refl
action_of_drawing (some v) h n =
    let (a, ea, ha) = test_text-true _ (some v) h in
    let other = is_undo_redo-text (some v) a ea in
    inr (ea ∙ ap (λ t. some (text t)) (str_eq→eq a "stroke" (ground (arith, n, ha, other))))

target_of_drawing :
    (o : Option Json) → is_valid_target o ≡ true → (o ≡ none) ⊎ ((t : String) × (o ≡ some (text t)))
target_of_drawing none h = inl refl
target_of_drawing (some v) h = let (t, et, ht) = test_text-true _ (some v) h in inr (t, et)

validate_drawing-passes :
    (s : Json)
    → validate_drawing s ≡ none
    → (is_valid_width (field "width" s) ≡ true)
      × (is_valid_points (field "points" s) ≡ true)
      × (are_valid_points (field "points" s) ≡ true)
unfolding validate_drawing
validate_drawing-passes s h = (ground arith, ground arith, ground arith)

Passes-IsDrawing :
    (conn : Identity) (s : Json)
    → Passes conn s
    → is_undo_redo (field "action" s) ≡ false
    → IsDrawing s
unfolding is_valid_width is_not_positive
Passes-IsDrawing conn s p h =
    let (w, b, f) = validate_drawing-passes s (p.drawing h) in
    let (d, ed, hd) = test_number-true _ (field "width" s) w in
    let (es, ee, he) = test_array-true _ (field "points" s) b in
    record {
      action = action_of_drawing (field "action" s) p.action h;
      target = target_of_drawing (field "targetStrokeId" s) p.target;
      width = (d, ed, ground arith, ground arith);
      points = (es, ee, ground arith, ground arith, every_valid_point-ArePoints es (rw ee at f));
    }

pub validate_stroke-accepts :
    (s : Json) (conn : Identity)
    → validate_stroke s conn ≡ none
    → IsIdentified conn s × (IsPointer s ⊎ IsDrawing s)
validate_stroke-accepts s conn h =
    let p = validate_stroke-Passes s conn h in
    (
      Passes-IsIdentified conn s p,
      elim (Bool-cases (is_undo_redo (field "action" s))) [
        | inl y ↦ inl (Passes-IsPointer conn s p y)
        | inr n ↦ inr (Passes-IsDrawing conn s p n)
      ],
    )
