-- ===== src/Examples/Messages.antt =====
-- A stroke on its way through a gateway.
use Prim.Native.Char.{code}
use quorum_canvas.Base.{
  ℕ, ◌+◌, ◌-◌, ◌*◌, ◌/◌, ◌%◌, ◌≤◌, ◌≡◌, ◌≢◌, ◌↔◌, ◌⊎◌, ◌&&◌, ◌++◌, All, map, refl, String, Bool,
  true, false, Option, none, some, List, [], ◌∷◌, length, ltb, ◌==◌, if◌then◌else◌, arith,
}
use quorum_canvas.Map
use quorum_canvas.Types.{Stroke, ClientWriteResult, undo_stroke}
use quorum_canvas.BoardManager
use quorum_canvas.BoardManager.{get_or_create_board, add_socket, new_room}
use quorum_canvas.Security.{
  Json, number, text, array, object, Elements, no_elements, element, no_properties, property,
  Identity, is_valid_id, is_valid_color, is_valid_width, validate_drawing, is_not_positive,
  utf16_length, is_hex_color, is_finite, field, validate_stroke, tokens_match,
}
use quorum_canvas.Security.Accepted.{IsIdentified, IsPointer, IsDrawing}
use quorum_canvas.Security.Exact.{validate_stroke_lem}
use quorum_canvas.Security.Tokens.{tokens_match_lem}
use quorum_canvas.Messages.Connections.{on_close}
use quorum_canvas.Messages.{
  ConnectionInfo, Gateway, RaftClient, local_client, remote_client, identity_of, take_turn,
  handle_stroke, handle_join,
}
use quorum_canvas.Messages.Limits.{take_turns, take_turns-bounded}
use quorum_canvas.Messages.Strokes.{strokes_sent, IsReceiver, times, due, handle_stroke-sends}
use quorum_canvas.Messages.Written.{handle_stroke-written}
use quorum_canvas.RemoteClient.{Network, ReadAnswer, fresh_client, succeeded, submit_stroke}
use quorum_canvas.Messages.Joins.{handle_join-unchecked}
use quorum_canvas.Examples.Data.{drawn}

abbrev one_point : Elements
one_point = element (array (element (number 0) (element (number 0) no_elements))) no_elements

abbrev drawn_json : String → Json
drawn_json i = object (
    property "id" (text i) (
      property "boardId" (text "board") (
        property "userId" (text "user") (
          property "color" (text "#00FFaa") (
            property "width" (number 4611686018427387904) (
              property "points" (array one_point)
                (property "timestamp" (number 0) no_properties)))))))

abbrev user : Identity
user = record { board_id = "board"; user_id = "user" }

validate_stroke_lem_example : (validate_stroke (drawn_json "s") user ≡ none) ↔ (
    IsIdentified user (drawn_json "s") × (IsPointer (drawn_json "s") ⊎ IsDrawing (drawn_json "s")))
validate_stroke_lem_example = validate_stroke_lem (drawn_json "s") user

drawn_json_is_valid : validate_stroke (drawn_json "s") user ≡ none
unfolding validate_stroke field is_valid_id is_valid_color is_valid_width validate_drawing
    is_hex_color is_finite is_not_positive utf16_length
drawn_json_is_valid = refl

unicode_id_is_too_long : utf16_length "😀" ≡ 2
unfolding utf16_length
unicode_id_is_too_long = refl

-- UTF-8, for the characters below U+0800.
utf8 : String → List ℕ
utf8 String.[] = []
utf8 (String.◌∷◌ c s) =
    if ltb (code c) 128 then code c ∷ utf8 s else (192 + code c / 64) ∷ (128 + code c % 64) ∷ utf8 s

same_bytes : List ℕ → List ℕ → Bool
same_bytes [] [] = true
same_bytes [] (y ∷ ys) = false
same_bytes (x ∷ xs) [] = false
same_bytes (x ∷ xs) (y ∷ ys) = (x == y) && same_bytes xs ys

compare_bytes : List ℕ → List ℕ → Option Bool
compare_bytes x y = if length x == length y then some (same_bytes x y) else none

same_bytes-eq : (x y : List ℕ) → same_bytes x y ≡ true → x ≡ y
unfolding same_bytes
same_bytes-eq [] [] h = refl
same_bytes-eq [] (y ∷ ys) h = absurd (cc)
same_bytes-eq (x ∷ xs) [] h = absurd (cc)
same_bytes-eq (x ∷ xs) (y ∷ ys) h = ground (arith, same_bytes-eq xs ys)

same_bytes_refl : (x : List ℕ) → same_bytes x x ≡ true
unfolding same_bytes
same_bytes_refl [] = refl
same_bytes_refl (x ∷ xs) = ground (arith, same_bytes_refl xs)

compare_bytes-same :
    (x y : List ℕ) → length x ≡ length y → (compare_bytes x y ≡ some true) ↔ (x ≡ y)
unfolding compare_bytes
compare_bytes-same x y h =
    (λ e. same_bytes-eq x y (ground arith), λ e. rw e (ground (arith, same_bytes_refl y)))

compare_bytes-differ : (x y : List ℕ) → length x ≢ length y → compare_bytes x y ≡ none
unfolding compare_bytes
compare_bytes-differ x y h = ground arith

abbrev expected : String
expected = "no"

abbrev provided : String
provided = "né"

tokens_match_lem_example :
    ((tokens_match utf8 compare_bytes (some provided) (some expected) ≡ some true)
      ↔ (provided ≡ expected))
    × (utf16_length provided ≡ utf16_length expected
        → length (utf8 provided) ≢ length (utf8 expected)
        → tokens_match utf8 compare_bytes (some provided) (some expected) ≡ none)
unfolding utf8
tokens_match_lem_example =
    tokens_match_lem utf8 compare_bytes provided expected (λ h. absurd (cc)) compare_bytes-same
      compare_bytes-differ (λ h. absurd (cc))

abbrev untargeted : Stroke
untargeted = record (drawn "u") { action = some undo_stroke; target_stroke_id = some "" }

abbrev info : ConnectionInfo
info = record { board_id = "board"; user_id = "user"; stroke_count = 0; window_start = 0 }

take_turns-bounded_example :
    1000 * (take_turns (500 ∷ 999 ∷ 1500 ∷ []) info).1 ≤ 60 * (1500 - 0) + 60000
take_turns-bounded_example =
    take_turns-bounded 1500 (500 ∷ 999 ∷ 1500 ∷ []) info
      (omega arith, (omega arith, (omega arith, tt))) (omega arith)

abbrev gateway : Gateway
gateway = record {
  rooms =
      (BoardManager.join_board "board" "other" 2 (BoardManager.join_board "board" "user" 1 []).1).1;
  connections = (1, info) ∷ (2, record info { user_id = "other" }) ∷ [];
  is_open = λ s. true;
  outbox = [];
  closed = [];
  current_leader = none;
}

-- Writes the stroke to the room of its board.
abbrev client : RaftClient
client = local_client (λ s. drawn "s")

handle_stroke-sends_example :
    let after = (client.submit_stroke (drawn_json "s") gateway).0 in
    let sent = strokes_sent (handle_stroke client 10 1 (drawn_json "s") info gateway).1.outbox in
    (sent ≡ [])
    ⊎ ((sent ≡ strokes_sent after.outbox)
        × ((client.submit_stroke (drawn_json "s") gateway).1 ≡ false))
    ⊎ ((validate_stroke (drawn_json "s") (identity_of info) ≡ none)
        × ((take_turn 10 info).1 ≡ true)
        × ((client.submit_stroke (drawn_json "s") gateway).1 ≡ true)
        × ((ts : List ℕ) × All (IsReceiver 1 "board" after) ts
            × ((t : ℕ) → times t ts ≡ due 1 after.is_open (Map.get "board" after.rooms) t)
            × (sent ≡ strokes_sent after.outbox ++ map (λ t. (t, drawn_json "s")) ts)))
unfolding strokes_sent
handle_stroke-sends_example = handle_stroke-sends client 10 1 (drawn_json "s") info gateway

handle_join-unchecked_example :
    let joined = handle_join client 1 "full" "user" gateway in
    let left = on_close 1 info joined in
    (BoardManager.get_user_count "full" joined.rooms
      ≡ BoardManager.get_user_count "full" gateway.rooms + 1)
    × (BoardManager.has_user "full" "user" left.rooms ≡ true)
unfolding local_client BoardManager.has_user BoardManager.join_board get_or_create_board add_socket
    new_room Map.get Map.set Map.has Map.get_or
handle_join-unchecked_example =
    handle_join-unchecked client 1 "full" "user" info gateway (λ h. refl) refl refl

-- A replica that takes every write.
abbrev willing : Network ClientWriteResult
willing = record {
  answer = λ i t. some (record { success = true; leader_hint = none });
  meanwhile = λ i l. l;
  idle = λ i l. l;
}

abbrev silent : Network ReadAnswer
silent = record { answer = λ i t. none; meanwhile = λ i l. l; idle = λ i l. l }

handle_stroke-written_example :
    let requests = (submit_stroke willing ("a" ∷ []) (fresh_client none)).0.sent in
    let remote = remote_client ("a" ∷ []) (λ s. willing) (λ b. silent) (λ g. g) in
    let after = handle_stroke remote 10 1 (drawn_json "s") info gateway in
    (strokes_sent after.1.outbox ≡ [])
    ⊎ (strokes_sent after.1.outbox ≡ [])
    ⊎ ((before : List (String × Option ClientWriteResult)) × (t : String) × (r : Option
          ClientWriteResult)
        × (requests ≡ before ++ (t, r) ∷ [])
        × (succeeded r ≡ true))
unfolding strokes_sent
handle_stroke-written_example =
    handle_stroke-written ("a" ∷ []) (λ s. willing) (λ b. silent) (λ g. g) 10 1 (drawn_json "s")
      info gateway
