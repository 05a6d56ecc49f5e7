-- ===== src/Security.antt =====
-- gateway/src/security.ts: what a gateway checks of a client's token and of a stroke, which reaches it as
-- parsed JSON. The bytes of a text and their comparison in constant time are Node's.
pub mod Accepted
pub mod Exact
pub mod Tokens
pub mod Targets
use Prim.Native.Char.{code}
use quorum_canvas.Base.{
  ℕ, ◌+◌, ◌-◌, ◌*◌, ◌^◌, ◌/◌, ◌%◌, String, Bool, true, false, ◌&&◌, ◌||◌, not, Option, none, some,
  List, [], ◌∷◌, ltb, leb, ◌==◌, if◌then◌else◌, length, str_eq,
}
use quorum_canvas.Map
use quorum_canvas.Types.{Double}

-- A value that `JSON.parse` gives. An object is the list of its own properties, each once.
mutual
  pub data Json : Type 0 where
    null : Json
    boolean : Bool → Json
    number : Double → Json
    text : String → Json
    array : Elements → Json
    object : Properties → Json

  pub data Elements : Type 0 where
    no_elements : Elements
    element : Json → Elements → Elements

  pub data Properties : Type 0 where
    no_properties : Properties
    property : String → Json → Properties → Properties

-- The two fields of a connection that a stroke is compared with.
pub record Identity : Type 0 where
  pub board_id : String
  pub user_id : String

-- GATEWAY_SECURITY of gateway/src/config.ts.
abbrev pub max_stroke_points : ℕ
max_stroke_points = 2000

-- `s.length`: a character above U+FFFF is two code units.
unfoldable pub utf16_length : String → ℕ
utf16_length String.[] = 0
utf16_length (String.◌∷◌ c s) = (if ltb 65535 (code c) then 2 else 1) + utf16_length s

unfoldable pub is_hex_digit : ℕ → Bool
is_hex_digit c =
    (leb b'0' c && leb c b'9') || (leb b'a' c && leb c b'f') || (leb b'A' c && leb c b'F')

-- `n` digits and no more.
unfoldable pub hex_digits : ℕ → String → Bool
unfolding is_hex_digit
hex_digits n String.[] = n == 0
hex_digits n (String.◌∷◌ c s) =
    let rest = hex_digits (n - 1) s in not (n == 0) && is_hex_digit (code c) && rest

-- `HEX_COLOR.test(s)`
unfoldable pub is_hex_color : String → Bool
unfolding hex_digits
is_hex_color String.[] = false
is_hex_color (String.◌∷◌ c s) = (code c == b'#') && hex_digits 6 s

-- `Number.isFinite`: the exponent of the pattern is not all ones.
unfoldable pub is_finite : Double → Bool
is_finite d = not ((d / 2 ^ 52) % 2 ^ 11 == 2047)

-- The pattern of 100. Patterns without the sign bit are in the order of the numbers.
abbrev pub one_hundred : Double
one_hundred = 4636737291354636288

-- `d <= 0`: the sign bit is set, or the number is zero.
unfoldable pub is_not_positive : Double → Bool
is_not_positive d = leb (2 ^ 63) d || d == 0

-- A property of a value, `none` for `undefined`.
unfoldable pub find_property : String → Properties → Option Json
find_property k no_properties = none
find_property k (property j v ps) = if str_eq j k then some v else find_property k ps

unfoldable pub field : String → Json → Option Json
unfolding find_property
field k (object ps) = find_property k ps
field k _ = none

abbrev pub is_object : Json → Bool
is_object (array es) = true
is_object (object ps) = true
is_object _ = false

-- `typeof v === 'string'` and a test of the string; so for the other types.
abbrev pub test_text : (String → Bool) → Option Json → Bool
test_text p (some (text s)) = p s
test_text p _ = false

abbrev pub test_number : (Double → Bool) → Option Json → Bool
test_number p (some (number d)) = p d
test_number p _ = false

abbrev pub test_array : (Elements → Bool) → Option Json → Bool
test_array p (some (array es)) = p es
test_array p _ = false

unfoldable pub is_valid_id : Option Json → Bool
unfolding utf16_length
is_valid_id o = test_text (λ s. not (utf16_length s == 0) && leb (utf16_length s) 200) o

abbrev pub is_same_text : String → Option Json → Bool
is_same_text t o = test_text (λ s. str_eq s t) o

abbrev pub is_valid_action : Option Json → Bool
is_valid_action none = true
is_valid_action (some v) =
    test_text (λ a. str_eq a "stroke" || str_eq a "undo_stroke" || str_eq a "redo_stroke") (some v)

abbrev pub is_undo_redo : Option Json → Bool
is_undo_redo o = test_text (λ a. str_eq a "undo_stroke" || str_eq a "redo_stroke") o

abbrev pub is_text : Option Json → Bool
is_text o = test_text (λ s. true) o

abbrev pub is_valid_target : Option Json → Bool
is_valid_target none = true
is_valid_target (some v) = is_text (some v)

unfoldable pub is_valid_color : Option Json → Bool
is_valid_color o = test_text is_hex_color o

abbrev pub is_finite_number : Option Json → Bool
is_finite_number o = test_number is_finite o

unfoldable pub is_valid_width : Option Json → Bool
is_valid_width o =
    test_number (λ d. is_finite d && not (is_not_positive d) && not (ltb one_hundred d)) o

abbrev pub length_elements : Elements → ℕ
length_elements no_elements = 0
length_elements (element v es) = 1 + length_elements es

abbrev pub is_valid_points : Option Json → Bool
is_valid_points o =
    test_array (λ es. not (length_elements es == 0) && leb (length_elements es) max_stroke_points) o

abbrev pub every_finite : Elements → Bool
every_finite no_elements = true
every_finite (element v es) = is_finite_number (some v) && every_finite es

abbrev pub is_valid_point : Json → Bool
is_valid_point (array es) = (length_elements es == 2) && every_finite es
is_valid_point _ = false

abbrev pub every_valid_point : Elements → Bool
every_valid_point no_elements = true
every_valid_point (element v es) = is_valid_point v && every_valid_point es

-- The loop over `s.points`, which has been seen to be an array.
abbrev pub are_valid_points : Option Json → Bool
are_valid_points o = test_array every_valid_point o

-- `validateStroke`: the reason of a refusal, `none` for `ok`.
unfoldable pub validate_drawing : Json → Option String
validate_drawing s =
    if not (is_valid_width (field "width" s))
    then some "Invalid stroke width"
    else if not (is_valid_points (field "points" s))
    then some "Invalid stroke points"
    else if not (are_valid_points (field "points" s))
    then some "Invalid stroke point"
    else none

unfoldable pub validate_stroke : Json → Identity → Option String
validate_stroke s conn =
    if not (is_object s)
    then some "Stroke must be an object"
    else if not (is_valid_id (field "id" s))
    then some "Invalid stroke id"
    else if not (is_same_text conn.board_id (field "boardId" s))
        || not (is_same_text conn.user_id (field "userId" s))
    then some "Stroke boardId/userId must match connection"
    else if not (is_valid_action (field "action" s))
    then some "Invalid stroke action"
    else if not (is_valid_target (field "targetStrokeId" s))
    then some "Invalid targetStrokeId"
    else if is_undo_redo (field "action" s) && not (is_text (field "targetStrokeId" s))
    then some "undo_stroke/redo_stroke requires targetStrokeId"
    else if not (is_valid_color (field "color" s))
    then some "Invalid stroke color"
    else if not (is_finite_number (field "timestamp" s))
    then some "Invalid stroke timestamp"
    else if is_undo_redo (field "action" s)
    then none
    else validate_drawing s

-- `tokensMatch`, `none` where it throws. `bytes` and `equal` are `Buffer.from` and `timingSafeEqual`.
unfoldable pub tokens_match :
    {B : Type 0}
    → (String → B)
    → (B → B → Option Bool)
    → Option String
    → Option String
    → Option Bool
tokens_match bytes equal provided none = some true
tokens_match bytes equal none (some e) = some false
tokens_match bytes equal (some p) (some e) =
    if str_eq p "" || not (utf16_length p == utf16_length e)
    then some false
    else equal (bytes p) (bytes e)
