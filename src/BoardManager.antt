-- ===== src/BoardManager.antt =====
-- gateway/src/boardManager.ts: the boards that a gateway keeps for its connected users. A WebSocket is
-- known by a number; what its `readyState` says is a parameter.
pub mod Derivation
use quorum_canvas.Base.{
  ℕ, String, Bool, true, false, ◌&&◌, not, Option, none, some, List, [], ◌∷◌, ◌++◌, filter, length,
  ◌==◌, if◌then◌else◌, str_eq,
}
use quorum_canvas.Map
use quorum_canvas.Map.StringSet
use quorum_canvas.Types.{Stroke, Action, stroke, undo_stroke, redo_stroke, action_or_stroke, truthy}
use quorum_canvas.Board.{without_id, redo_visible}

pub record Room : Type 0 where
  pub board_id : String
  pub strokes : List Stroke
  pub events : List Stroke
  pub undone_stroke_ids : List String
  pub users : List (String × List ℕ)

unfoldable pub new_room : String → Room
new_room board_id = record {
  board_id = board_id;
  strokes = [];
  events = [];
  undone_stroke_ids = [];
  users = [];
}

-- `getOrCreateBoard`: the room, and the rooms with it among them.
unfoldable pub get_or_create_board : String → List (String × Room) → Room × List (String × Room)
get_or_create_board board_id rooms = elim (Map.get board_id rooms) [
  | none ↦ (new_room board_id, Map.set board_id (new_room board_id) rooms)
  | some r ↦ (r, rooms)
]

unfoldable pub has_socket : ℕ → List ℕ → Bool
has_socket ws [] = false
has_socket ws (s ∷ ss) = if s == ws then true else has_socket ws ss

unfoldable pub add_socket : ℕ → List ℕ → List ℕ
unfolding has_socket
add_socket ws ss = if has_socket ws ss then ss else ss ++ ws ∷ []

unfoldable pub delete_socket : ℕ → List ℕ → List ℕ
delete_socket ws [] = []
delete_socket ws (s ∷ ss) = if s == ws then delete_socket ws ss else s ∷ delete_socket ws ss

unfoldable pub join_board :
    String → String → ℕ → List (String × Room) → List Stroke × List (String × Room)
join_board board_id user_id ws rooms =
    let (r, rooms') = get_or_create_board board_id rooms in
    let sockets = add_socket ws (Map.get_or user_id r.users []) in
    (r.strokes, Map.set board_id (record r { users = Map.set user_id sockets r.users }) rooms')

unfoldable pub has_user : String → String → List (String × Room) → Bool
has_user board_id user_id rooms = elim (Map.get board_id rooms) [
  | none ↦ false
  | some r ↦ Map.has user_id r.users
]

-- What is left of a user's sockets: with none left the user is taken out, and the answer is `true`.
abbrev leave_with : String → List ℕ → Room → Bool × Room
leave_with user_id [] r = (true, record r { users = Map.delete user_id r.users })
leave_with user_id (s ∷ ss) r = (false, record r { users = Map.set user_id (s ∷ ss) r.users })

unfoldable pub leave_room : String → ℕ → Room → Bool × Room
leave_room user_id ws r = elim (Map.get user_id r.users) [
  | none ↦ (false, r)
  | some ss ↦ leave_with user_id (delete_socket ws ss) r
]

unfoldable pub leave_board :
    String → String → ℕ → List (String × Room) → Bool × List (String × Room)
leave_board board_id user_id ws rooms = elim (Map.get board_id rooms) [
  | none ↦ (false, rooms)
  | some r ↦ let (gone, r') = leave_room user_id ws r in (gone, Map.set board_id r' rooms)
]

-- The branches of `addStroke`, once the event is in the list.
unfoldable pub act_on_room : Action → Option String → Stroke → Room → Room
act_on_room undo_stroke (some t) e r = record r {
  undone_stroke_ids = StringSet.add t r.undone_stroke_ids;
  strokes = without_id t r.strokes;
}
act_on_room redo_stroke (some t) e r = record r {
  undone_stroke_ids = StringSet.delete t r.undone_stroke_ids;
  strokes = redo_visible t r.events r.strokes;
}
act_on_room _ _ e r =
    if StringSet.has e.id r.undone_stroke_ids then r else record r { strokes = r.strokes ++ e ∷ [] }

unfoldable pub add_to_room : Stroke → Room → Room
add_to_room e r =
    act_on_room (action_or_stroke e.action) (truthy e.target_stroke_id) e
      (record r { events = r.events ++ e ∷ [] })

unfoldable pub add_stroke : String → Stroke → List (String × Room) → List (String × Room)
add_stroke board_id e rooms =
    let (r, rooms') = get_or_create_board board_id rooms in
    Map.set board_id (add_to_room e r) rooms'

unfoldable pub get_room_strokes : String → List (String × Room) → List Stroke
get_room_strokes board_id rooms = elim (Map.get board_id rooms) [ none ↦ [] | some r ↦ r.strokes ]

-- The sockets of a list that are open and not the excluded one.
unfoldable pub open_sockets : (ℕ → Bool) → Option ℕ → List ℕ → List ℕ
open_sockets is_open exclude [] = []
open_sockets is_open exclude (s ∷ ss) =
    let excluded : Bool = elim exclude [ none ↦ false | some x ↦ s == x ] in
    if not excluded && is_open s
    then s ∷ open_sockets is_open exclude ss
    else open_sockets is_open exclude ss

unfoldable pub all_sockets : List (String × List ℕ) → List ℕ
all_sockets [] = []
all_sockets ((u, ss) ∷ us) = ss ++ all_sockets us

-- `broadcast`: the sockets that the message is sent to, in order.
unfoldable pub broadcast : (ℕ → Bool) → String → Option ℕ → List (String × Room) → List ℕ
broadcast is_open board_id exclude rooms = elim (Map.get board_id rooms) [
  | none ↦ []
  | some r ↦ open_sockets is_open exclude (all_sockets r.users)
]

unfoldable pub get_board_count : List (String × Room) → ℕ
get_board_count rooms = length rooms

unfoldable pub get_user_count : String → List (String × Room) → ℕ
get_user_count board_id rooms = elim (Map.get board_id rooms) [ none ↦ 0 | some r ↦ length r.users ]
