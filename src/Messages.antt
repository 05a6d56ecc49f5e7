-- ===== src/Messages.antt =====
-- gateway/src/messageHandler.ts, the state of gateway/src/wsServer.ts and the messages of
-- gateway/src/types.ts: how a gateway answers the messages of a connection. A WebSocket is a number.
-- What a handler waits for is a parameter, with what becomes of the gateway meanwhile.
pub mod Limits
pub mod Strokes
pub mod Connections
pub mod Joins
pub mod Written
use Prim.Native.String.{◌++◌ as text_append}
use quorum_canvas.Base.{
  ℕ, ◌+◌, ◌-◌, String, Bool, true, false, ◌&&◌, ◌||◌, not, Option, none, some, List, [], ◌∷◌, ◌++◌,
  map, ltb, leb, ◌==◌, if◌then◌else◌,
}
use quorum_canvas.Types.{Stroke, ClientWriteResult, truthy}
use quorum_canvas.BoardManager
use quorum_canvas.BoardManager.{Room}
use quorum_canvas.RemoteClient.{Network, ReadAnswer, fresh_client, submit_stroke, get_strokes}
use quorum_canvas.Security.{Json, Identity, field, validate_stroke, tokens_match}

pub record ErrorMessage : Type 0 where
  pub message : String
  pub code : Option String
  pub stroke_id : Option Json
  pub retryable : Option Bool

pub data ServerMessage : Type 0 where
  join_ack : String → List Stroke → ServerMessage
  stroke_broadcast : Json → ServerMessage
  user_joined : String → ServerMessage
  user_left : String → ServerMessage
  error : ErrorMessage → ServerMessage

-- A message of a client, after `JSON.parse` and the look at its type. The ids of a `join` are taken to be
-- strings, and a `stroke` message without a stroke is one whose stroke is `null`.
pub data ClientMessage : Type 0 where
  invalid_json : ClientMessage
  null_message : ClientMessage
  missing_type : ClientMessage
  join : String → String → ClientMessage
  stroke : Json → ClientMessage
  unknown : String → ClientMessage

pub record ConnectionInfo : Type 0 where
  pub board_id : String
  pub user_id : String
  pub stroke_count : ℕ
  pub window_start : ℕ

-- The gateway: the rooms of its board manager, its connections, which sockets are open, what it has
-- sent to them, with which code it has closed them, and the leader that its remote client knows.
pub record Gateway : Type 0 where
  pub rooms : List (String × Room)
  pub connections : List (ℕ × ConnectionInfo)
  pub is_open : ℕ → Bool
  pub outbox : List (ℕ × ServerMessage)
  pub closed : List (ℕ × Option ℕ)
  pub current_leader : Option String

-- `RaftClient`: the answer of a call, and the gateway once the answer is there.
pub record RaftClient : Type 0 where
  pub submit_stroke : Json → Gateway → Gateway × Bool
  pub get_strokes : String → Gateway → Gateway × List Stroke

-- GATEWAY_SECURITY of gateway/src/config.ts.
abbrev pub stroke_rate_limit_per_sec : ℕ
stroke_rate_limit_per_sec = 60

abbrev pub rate_limit_window_ms : ℕ
rate_limit_window_ms = 1000

unfoldable pub send_to : ℕ → ServerMessage → Gateway → Gateway
send_to ws m g = if g.is_open ws then record g { outbox = g.outbox ++ (ws, m) ∷ [] } else g

unfoldable pub broadcast : String → ServerMessage → Option ℕ → Gateway → Gateway
broadcast board_id m exclude g =
    let receivers = BoardManager.broadcast g.is_open board_id exclude g.rooms in
    record g { outbox = g.outbox ++ map (λ t. (t, m)) receivers }

abbrev pub plain_error : String → ServerMessage
plain_error m = error (record { message = m; code = none; stroke_id = none; retryable = none })

abbrev pub write_error : String → String → Json → ServerMessage
write_error m code s =
    error
      (record { message = m; code = some code; stroke_id = field "id" s; retryable = some true })

-- The rate limit: the connection with this stroke counted, and whether the stroke is within the limit.
unfoldable pub reset_window : ℕ → ConnectionInfo → ConnectionInfo
reset_window now info =
    if leb rate_limit_window_ms (now - info.window_start)
    then record info { window_start = now; stroke_count = 0 }
    else info

unfoldable pub take_turn : ℕ → ConnectionInfo → ConnectionInfo × Bool
unfolding reset_window
take_turn now info =
    let i = reset_window now info in
    let count = i.stroke_count + 1 in
    (record i { stroke_count = count }, leb count stroke_rate_limit_per_sec)

abbrev pub identity_of : ConnectionInfo → Identity
identity_of info = record { board_id = info.board_id; user_id = info.user_id }

module _ (client : RaftClient) where
  -- `handleStroke` from the call of the Raft client on.
  unfoldable pub submit_and_broadcast : ℕ → Json → String → Gateway → Gateway
  unfolding send_to broadcast
  submit_and_broadcast ws s board_id g =
      let (g', success) = client.submit_stroke s g in
      if success
      then broadcast board_id (stroke_broadcast s) (some ws) g'
      else send_to ws (write_error "Failed to submit stroke" "RAFT_WRITE_FAILED" s) g'

  -- `handleStroke` after the validation, and its rate limit.
  unfoldable pub limit_stroke :
      ℕ → Json → ConnectionInfo × Bool → Gateway → ConnectionInfo × Gateway
  unfolding send_to submit_and_broadcast
  limit_stroke ws s (info, true) g = (info, submit_and_broadcast ws s info.board_id g)
  limit_stroke ws s (info, false) g =
      (info, send_to ws (write_error "Rate limit exceeded" "RATE_LIMITED" s) g)

  unfoldable pub check_stroke :
      ℕ → ℕ → Json → Option String → ConnectionInfo → Gateway → ConnectionInfo × Gateway
  unfolding send_to take_turn limit_stroke
  check_stroke now ws s (some reason) info g = (info, send_to ws (plain_error reason) g)
  check_stroke now ws s none info g = limit_stroke ws s (take_turn now info) g

  unfoldable pub handle_stroke : ℕ → ℕ → Json → ConnectionInfo → Gateway → ConnectionInfo × Gateway
  unfolding check_stroke
  handle_stroke now ws s info g =
      check_stroke now ws s (validate_stroke s (identity_of info)) info g

  unfoldable pub handle_join : ℕ → String → String → Gateway → Gateway
  unfolding send_to broadcast
  handle_join ws board_id user_id g =
      let is_existing_user = BoardManager.has_user board_id user_id g.rooms in
      let (_, rooms) = BoardManager.join_board board_id user_id ws g.rooms in
      let (g', strokes) = client.get_strokes board_id (record g { rooms = rooms }) in
      let g'' = send_to ws (join_ack board_id strokes) g' in
      if is_existing_user then g'' else broadcast board_id (user_joined user_id) (some ws) g''

  -- The handler of a connection's `message`: `handleMessage`, and the error message where that throws.
  unfoldable pub on_message :
      ℕ → ℕ → ClientMessage → ConnectionInfo → Gateway → ConnectionInfo × Gateway
  unfolding send_to handle_join handle_stroke
  on_message now ws invalid_json info g = (info, send_to ws (plain_error "Invalid JSON") g)
  on_message now ws null_message info g = (info, send_to ws (plain_error "Internal server error") g)
  on_message now ws missing_type info g = (info, send_to ws (plain_error "Missing message type") g)
  on_message now ws (join b u) info g = (info, handle_join ws b u g)
  on_message now ws (stroke s) info g = handle_stroke now ws s info g
  on_message now ws (unknown t) info g =
      (info, send_to ws (plain_error (text_append "Unknown message type: " t)) g)

-- `LocalRaftClient`. `read` sees the JSON of a stroke as a `Stroke`.
unfoldable pub local_client : (Json → Stroke) → RaftClient
local_client read = record {
  submit_stroke = λ s g.
      (record g { rooms = BoardManager.add_stroke (read s).board_id (read s) g.rooms }, true);
  get_strokes = λ b g. (g, BoardManager.get_room_strokes b g.rooms);
}

-- `RemoteRaftClient`. `writes` and `reads` are the answers of the replicas; `others` is what the gateway's
-- other connections do while a call waits.
unfoldable pub remote_client :
    List String
    → (Json → Network ClientWriteResult)
    → (String → Network ReadAnswer)
    → (Gateway → Gateway)
    → RaftClient
remote_client peers writes reads others = record {
  submit_stroke = λ s g.
      let (c, success) = submit_stroke (writes s) peers (fresh_client g.current_leader) in
      (record (others g) { current_leader = c.current_leader }, success);
  get_strokes = λ b g.
      let (c, strokes) = get_strokes (reads b) peers (fresh_client g.current_leader) in
      (record (others g) { current_leader = c.current_leader }, strokes);
}
