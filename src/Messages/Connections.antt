-- ===== src/Messages/Connections.antt =====
-- The start and the end of a connection, in gateway/src/wsServer.ts.
use quorum_canvas.Base.{
  ℕ, String, Bool, true, false, ◌&&◌, not, Option, none, some, List, [], ◌∷◌, ◌++◌, ◌==◌,
  if◌then◌else◌,
}
use quorum_canvas.Types.{truthy}
use quorum_canvas.Strings.{Number}
use quorum_canvas.Settings.{is_full}
use quorum_canvas.BoardManager
use quorum_canvas.BoardManager.{Room}
use quorum_canvas.Messages.{
  ServerMessage, user_left, ConnectionInfo, Gateway, plain_error, broadcast,
}

-- `ws.send` and `ws.close` on a socket that has just been opened.
unfoldable pub refuse : ℕ → Option ServerMessage → Option ℕ → Gateway → Gateway
refuse ws m code g = record g {
  outbox = elim m [ none ↦ g.outbox | some x ↦ g.outbox ++ (ws, x) ∷ [] ];
  closed = g.closed ++ (ws, code) ∷ [];
  is_open = λ s. not (s == ws) && g.is_open s;
}

unfoldable pub set_connection :
    ℕ → ConnectionInfo → List (ℕ × ConnectionInfo) → List (ℕ × ConnectionInfo)
set_connection ws info [] = (ws, info) ∷ []
set_connection ws info ((s, i) ∷ cs) =
    let rest = set_connection ws info cs in if s == ws then (s, info) ∷ cs else (s, i) ∷ rest

unfoldable pub delete_connection : ℕ → List (ℕ × ConnectionInfo) → List (ℕ × ConnectionInfo)
delete_connection ws [] = []
delete_connection ws ((s, i) ∷ cs) =
    let rest = delete_connection ws cs in if s == ws then cs else (s, i) ∷ rest

-- The handler of `connection`, after the token: the connection's info if it is admitted.
unfoldable pub admit :
    Number → ℕ → ℕ → Option String → Option String → Gateway → Option ConnectionInfo × Gateway
unfolding refuse set_connection is_full
admit max_users now ws board user g = elim (truthy board) [
  | none ↦ (none, refuse ws (some (plain_error "Missing boardId or userId query parameter")) none g)
  | some b ↦ elim (truthy user) [
    | none ↦
        (none, refuse ws (some (plain_error "Missing boardId or userId query parameter")) none g)
    | some u ↦
        if not (BoardManager.has_user b u g.rooms)
          && is_full (BoardManager.get_user_count b g.rooms) max_users
        then (none, refuse ws (some (plain_error "Board user limit reached")) none g)
        else (let info : ConnectionInfo = record {
          board_id = b;
          user_id = u;
          stroke_count = 0;
          window_start = now;
        } in
            (some info, record g { connections = set_connection ws info g.connections }))
  ]
]

-- The handler of `connection`; `none` if it throws.
unfoldable pub on_connection :
    (Option String → Option Bool)
    → Number
    → ℕ
    → ℕ
    → Option String
    → Option String
    → Option String
    → Gateway
    → Option (Option ConnectionInfo × Gateway)
unfolding refuse admit
on_connection matches max_users now ws board user token g = elim (matches token) [
  | none ↦ none
  | some false ↦ some (none, refuse ws none (some 1008) g)
  | some true ↦ some (admit max_users now ws board user g)
]

-- The handler of a connection's `close`.
unfoldable pub on_close : ℕ → ConnectionInfo → Gateway → Gateway
unfolding delete_connection broadcast
on_close ws info g =
    let (gone, rooms) = BoardManager.leave_board info.board_id info.user_id ws g.rooms in
    let g' : Gateway = record g {
      connections = delete_connection ws g.connections;
      rooms = rooms;
    } in
    if gone then broadcast info.board_id (user_left info.user_id) (some ws) g' else g'
