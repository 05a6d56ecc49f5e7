-- ===== src/Messages/Joins.antt =====
-- A `join` for another board than the connection's.
use quorum_canvas.Base.{
  ℕ, ◌+◌, String, ◌≡◌, refl, sym, ap, ◌∙◌, true, false, Option, none, some, List, [], ◌∷◌, arith,
  length, Option-cases, str_eq, eq_refl, inl, inr,
}
use quorum_canvas.Map
use quorum_canvas.Map.{get-set, has-set}
use quorum_canvas.BoardManager
use quorum_canvas.BoardManager.{Room, new_room, get_or_create_board, add_socket, leave_room}
use quorum_canvas.Messages.Connections.{on_close}
use quorum_canvas.Messages.{ConnectionInfo, Gateway, RaftClient, send_to, broadcast, handle_join}

length-set {ℓ} :
    {V : Type ℓ} (k : String) (v : V) (m : List (String × V))
    → Map.has k m ≡ false
    → length (Map.set k v m) ≡ length m + 1
unfolding Map.has Map.set
length-set k v [] h = omega arith
length-set k v ((j, w) ∷ m) h = ground (arith, length-set k v m)

abbrev users_in : Option Room → List (String × List ℕ)
users_in none = []
users_in (some r) = r.users

users_of : String → List (String × Room) → List (String × List ℕ)
users_of b rooms = users_in (Map.get b rooms)

rooms-handle_join :
    (client : RaftClient) (ws : ℕ) (b u : String) (g : Gateway)
    → ((h : Gateway) → (client.get_strokes b h).0.rooms ≡ h.rooms)
    → (handle_join client ws b u g).rooms ≡ (BoardManager.join_board b u ws g.rooms).1
unfolding handle_join send_to broadcast
rooms-handle_join client ws b u g still =
    ground (arith, still (record g { rooms = (BoardManager.join_board b u ws g.rooms).1 }))

rooms-on_close :
    (ws : ℕ) (info : ConnectionInfo) (g : Gateway)
    → (on_close ws info g).rooms
      ≡ (BoardManager.leave_board info.board_id info.user_id ws g.rooms).1
unfolding on_close broadcast
rooms-on_close ws info g = ground arith

get-leave_board :
    (b c u : String) (ws : ℕ) (rooms : List (String × Room))
    → str_eq b c ≡ false
    → Map.get c (BoardManager.leave_board b u ws rooms).1 ≡ Map.get c rooms
unfolding BoardManager.leave_board
get-leave_board b c u ws rooms h = elim (Option-cases (Map.get b rooms)) [
  | inl e ↦ ground (arith, e)
  | inr (r, e) ↦ ground (arith, e, h, get-set b c (leave_room u ws r).1 rooms)
]

users-get_or_create_board :
    (b : String) (rooms : List (String × Room))
    → (get_or_create_board b rooms).0.users ≡ users_of b rooms
unfolding get_or_create_board users_of new_room
users-get_or_create_board b rooms = ground arith

get-join_board :
    (b u : String) (ws : ℕ) (rooms : List (String × Room))
    → (r : Room) × (ss : List ℕ) × (Map.get b (BoardManager.join_board b u ws rooms).1
        ≡ some (record r { users = Map.set u ss (users_of b rooms) }))
unfolding BoardManager.join_board
get-join_board b u ws rooms =
    let (r, rooms') = get_or_create_board b rooms in
    let same = users-get_or_create_board b rooms in
    let ss = add_socket ws (Map.get_or u r.users []) in
    let found = get-set b b (record r { users = Map.set u ss r.users }) rooms' in
    (r, ss, found ∙ rw (eq_refl b, same) refl)

has_user-users_of :
    (b u : String) (rooms : List (String × Room))
    → BoardManager.has_user b u rooms ≡ Map.has u (users_of b rooms)
unfolding BoardManager.has_user users_of Map.has
has_user-users_of b u rooms = ground arith

get_user_count-users_of :
    (b : String) (rooms : List (String × Room))
    → BoardManager.get_user_count b rooms ≡ length (users_of b rooms)
unfolding BoardManager.get_user_count users_of
get_user_count-users_of b rooms = ground arith

users_of-found :
    (b : String) (rooms : List (String × Room)) (r : Room)
    → Map.get b rooms ≡ some r
    → users_of b rooms ≡ r.users
unfolding users_of
users_of-found b rooms r e = ap users_in e

-- A `join` for a board other than the one of the connection makes a user who is not there one more
-- user of that board, and the user stays one once the connection has closed. The read of the board
-- is taken to change no room.
pub handle_join-unchecked :
    (client : RaftClient) (ws : ℕ) (b u : String) (info : ConnectionInfo) (g : Gateway)
    → ((h : Gateway) → (client.get_strokes b h).0.rooms ≡ h.rooms)
    → str_eq info.board_id b ≡ false
    → BoardManager.has_user b u g.rooms ≡ false
    → let joined = handle_join client ws b u g in
      let left = on_close ws info joined in
      (BoardManager.get_user_count b joined.rooms ≡ BoardManager.get_user_count b g.rooms + 1)
      × (BoardManager.has_user b u left.rooms ≡ true)
handle_join-unchecked client ws b u info g still other new =
    let rooms = (BoardManager.join_board b u ws g.rooms).1 in
    let (r, ss, found) = get-join_board b u ws g.rooms in
    let joined = users_of-found b rooms _ found in
    let kept = get-leave_board info.board_id b info.user_id ws rooms other in
    let left = users_of-found b _ _ (kept ∙ found) in
    let absent : Map.has u (users_of b g.rooms) ≡ false =
      sym (has_user-users_of b u g.rooms) ∙ new in
    rw
      (
        rooms-on_close,
        rooms-handle_join client ws b u g still,
        get_user_count-users_of,
        get_user_count-users_of b g.rooms,
        has_user-users_of,
        joined,
        left,
      )
      (
        length-set u ss (users_of b g.rooms) absent,
        has-set u u ss (users_of b g.rooms) ∙ rw (eq_refl u) refl,
      )
