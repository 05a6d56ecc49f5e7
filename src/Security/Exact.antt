-- ===== src/Security/Exact.antt =====
-- A stroke as it should be is accepted.
use quorum_canvas.Base.{
  ◌≤◌, ◌<◌, ◌≡◌, refl, ◌⊎◌, inl, inr, ◌↔◌, String, true, false, none, some, arith, eq_refl,
  Bool-cases,
}
use quorum_canvas.Types.{Double}
use quorum_canvas.Security.{
  Json, null, boolean, number, text, array, object, Elements, no_elements, element, Identity,
  is_finite, one_hundred, is_not_positive, field, is_object, is_valid_id, is_valid_action,
  is_undo_redo, is_text, is_valid_target, is_valid_color, is_valid_width, is_valid_points,
  every_valid_point, are_valid_points, validate_drawing, validate_stroke,
}
use quorum_canvas.Security.Accepted.{
  ArePoints, IsIdentified, IsPointer, IsDrawing, Passes, validate_stroke-accepts,
}

field-is_object : (k : String) (s v : Json) → field k s ≡ some v → is_object s ≡ true
unfolding field
field-is_object k (object ps) v h = refl
field-is_object k (array es) v h = refl
field-is_object k null v h = absurd (cc)
field-is_object k (boolean b) v h = absurd (cc)
field-is_object k (number d) v h = absurd (cc)
field-is_object k (text t) v h = absurd (cc)

ArePoints-every_valid_point : (es : Elements) → ArePoints es → every_valid_point es ≡ true
unfolding ArePoints
ArePoints-every_valid_point no_elements h = refl
ArePoints-every_valid_point (element v es) ((x, y, e, fx, fy), h) =
    simp (e, fx, fy, ArePoints-every_valid_point es h)

is_valid_width-small :
    (d : Double) → 0 < d → d ≤ one_hundred → is_valid_width (some (number d)) ≡ true
unfolding is_valid_width is_not_positive is_finite
is_valid_width-small d h k = ground arith

validate_drawing-accepts : (s : Json) → IsDrawing s → validate_drawing s ≡ none
unfolding validate_drawing
validate_drawing-accepts s p =
    let (d, e, h, k) = p.width in
    let (es, f, i, j, q) = p.points in
    let w : is_valid_width (field "width" s) ≡ true = rw e (is_valid_width-small d h k) in
    let b : is_valid_points (field "points" s) ≡ true = rw f (ground arith) in
    let c : are_valid_points (field "points" s) ≡ true = rw f (ArePoints-every_valid_point es q) in
    simp (w, b, c)

Passes-validate_stroke :
    (s : Json) (conn : Identity) → Passes conn s → validate_stroke s conn ≡ none
unfolding validate_stroke
Passes-validate_stroke s conn p = elim (Bool-cases (is_undo_redo (field "action" s))) [
  | inl y ↦ simp (
    p.is_object,
    p.id,
    p.board,
    p.user,
    p.action,
    p.target,
    p.color,
    p.timestamp,
    y,
    p.has_target y,
  )
  | inr n ↦
      simp (
        p.is_object,
        p.id,
        p.board,
        p.user,
        p.action,
        p.target,
        p.color,
        p.timestamp,
        n,
        p.drawing n,
      )
]

identified-Passes :
    (s : Json) (conn : Identity)
    → IsIdentified conn s
    → is_valid_action (field "action" s) ≡ true
    → is_valid_target (field "targetStrokeId" s) ≡ true
    → (is_undo_redo (field "action" s) ≡ true → is_text (field "targetStrokeId" s) ≡ true)
    → (is_undo_redo (field "action" s) ≡ false → validate_drawing s ≡ none)
    → Passes conn s
unfolding is_valid_id is_valid_color
identified-Passes s conn p a t h d =
    let (i, ei, i1, i2) = p.id in
    let (c, ec, hc) = p.color in
    let (n, en, hn) = p.timestamp in
    record {
      is_object = field-is_object "id" s (text i) ei;
      id = rw ei (ground arith);
      board = rw p.board (eq_refl conn.board_id);
      user = rw p.user (eq_refl conn.user_id);
      action = a;
      target = t;
      has_target = h;
      color = rw ec hc;
      timestamp = rw en hn;
      drawing = d;
    }

pointer-Passes : (s : Json) (conn : Identity) → IsIdentified conn s → IsPointer s → Passes conn s
pointer-Passes s conn p q =
    let (t, e) = q.target in
    let target : is_text (field "targetStrokeId" s) ≡ true = rw e refl in
    let valid : is_valid_target (field "targetStrokeId" s) ≡ true = rw e refl in
    elim q.action [
      | inl u ↦
          identified-Passes s conn p (rw u refl) valid (λ h. target) (λ n. absurd (cc (rw u at n)))
      | inr u ↦
          identified-Passes s conn p (rw u refl) valid (λ h. target) (λ n. absurd (cc (rw u at n)))
    ]

drawing-Passes : (s : Json) (conn : Identity) → IsIdentified conn s → IsDrawing s → Passes conn s
drawing-Passes s conn p q =
    let valid : is_valid_target (field "targetStrokeId" s) ≡ true = elim q.target [
      | inl e ↦ rw e refl
      | inr (t, e) ↦ rw e refl
    ] in
    elim q.action [
      | inl u ↦
          identified-Passes s conn p (rw u refl) valid (λ h. absurd (cc (rw u at h)))
            (λ n. validate_drawing-accepts s q)
      | inr u ↦
          identified-Passes s conn p (rw u refl) valid (λ h. absurd (cc (rw u at h)))
            (λ n. validate_drawing-accepts s q)
    ]

-- The gateway accepts a value as a stroke exactly if it has an id of 1 to 200 code units, the board
-- and the user of the connection, a color `#rrggbb` and a finite timestamp, and it is either an
-- undo or a redo with a target that is a string, or a drawing whose target is a string if there is
-- one, whose width is positive and at most 100 and that has 1 to 2000 points, each a pair of finite
-- numbers.
pub validate_stroke_lem :
    (s : Json) (conn : Identity)
    → (validate_stroke s conn ≡ none) ↔ (IsIdentified conn s × (IsPointer s ⊎ IsDrawing s))
validate_stroke_lem s conn = (
  validate_stroke-accepts s conn,
  λ (p, q). Passes-validate_stroke s conn (elim q [
    | inl pointer ↦ pointer-Passes s conn p pointer
    | inr drawing ↦ drawing-Passes s conn p drawing
  ]),
)
