-- ===== src/Messages/Strokes.antt =====
-- When a stroke reaches the other users of its board.
use mathlib.Core.List.{append-nil}
use quorum_canvas.Base.{
  ℕ, String, ◌≡◌, ◌≢◌, refl, ap, ◌∙◌, ◌⊎◌, inl, inr, Bool, true, false, ◌&&◌, not, Option, none,
  some, List, [], ◌∷◌, ◌++◌, map, All, All-mono, arith, ◌==◌, ◌+◌, if◌then◌else◌, ℕ_discrete,
  Bool-cases, Option-cases,
}
use quorum_canvas.Map
use quorum_canvas.BoardManager
use quorum_canvas.BoardManager.{Room, has_socket, open_sockets, all_sockets}
use quorum_canvas.Security.{Json, validate_stroke}
use quorum_canvas.Messages.{
  ServerMessage, stroke_broadcast, error, ErrorMessage, ConnectionInfo, Gateway, RaftClient,
  send_to, broadcast, take_turn, reset_window, submit_and_broadcast, limit_stroke, identity_of,
  handle_stroke,
}

-- The strokes among the messages sent, each with its socket.
unfoldable pub strokes_sent : List (ℕ × ServerMessage) → List (ℕ × Json)
strokes_sent [] = []
strokes_sent ((t, stroke_broadcast s) ∷ ms) = (t, s) ∷ strokes_sent ms
strokes_sent ((t, _) ∷ ms) = strokes_sent ms

strokes_sent-append :
    (xs ys : List (ℕ × ServerMessage))
    → strokes_sent (xs ++ ys) ≡ strokes_sent xs ++ strokes_sent ys
unfolding strokes_sent
strokes_sent-append [] ys = refl
strokes_sent-append ((t, stroke_broadcast s) ∷ xs) ys =
    ap (λ z. (t, s) ∷ z) (strokes_sent-append xs ys)
strokes_sent-append ((t, _) ∷ xs) ys = strokes_sent-append xs ys

strokes_sent-map :
    (s : Json) (ts : List ℕ)
    → strokes_sent (map (λ t. (t, stroke_broadcast s)) ts) ≡ map (λ t. (t, s)) ts
unfolding strokes_sent
strokes_sent-map s [] = refl
strokes_sent-map s (t ∷ ts) = ap (λ z. (t, s) ∷ z) (strokes_sent-map s ts)

strokes_sent-send_to :
    (ws : ℕ) (e : ErrorMessage) (g : Gateway)
    → strokes_sent (send_to ws (error e) g).outbox ≡ strokes_sent g.outbox
unfolding send_to strokes_sent
strokes_sent-send_to ws e g = elim (Bool-cases (g.is_open ws)) [
  | inl y ↦
      rw y (strokes_sent-append g.outbox ((ws, error e) ∷ []) ∙ append-nil (strokes_sent g.outbox))
  | inr n ↦ rw n refl
]

-- A socket of the room, open and not the sender's.
unfoldable pub IsReceiver : ℕ → String → Gateway → ℕ → Type 0
IsReceiver ws board_id g t =
    (t ≢ ws)
    × (g.is_open t ≡ true)
    × ((r : Room) × (Map.get board_id g.rooms ≡ some r)
        × (has_socket t (all_sockets r.users) ≡ true))

-- How often a socket is in a list, and how often the users of a room have it among theirs.
abbrev pub times : ℕ → List ℕ → ℕ
times t [] = 0
times t (s ∷ ss) = (if t == s then 1 else 0) + times t ss

abbrev pub listed : ℕ → List (String × List ℕ) → ℕ
listed t [] = 0
listed t ((u, ss) ∷ us) = times t ss + listed t us

-- How often a message that `ws` sends to its board is due at `t`.
abbrev pub due : ℕ → (ℕ → Bool) → Option Room → ℕ → ℕ
due ws is_open none t = 0
due ws is_open (some r) t = if t == ws then 0 else if is_open t then listed t r.users else 0

times-append : (t : ℕ) (xs ys : List ℕ) → times t (xs ++ ys) ≡ times t xs + times t ys
times-append t [] ys = omega arith
times-append t (x ∷ xs) ys = omega (arith, times-append t xs ys)

times-all_sockets : (t : ℕ) (us : List (String × List ℕ)) → times t (all_sockets us) ≡ listed t us
unfolding all_sockets
times-all_sockets t [] = refl
times-all_sockets t ((u, ss) ∷ us) =
    omega (arith, times-append t ss (all_sockets us), times-all_sockets t us)

times-open_sockets :
    (is_open : ℕ → Bool) (ws t : ℕ) (ss : List ℕ)
    → times t (open_sockets is_open (some ws) ss)
      ≡ (if t == ws then 0 else if is_open t then times t ss else 0)
unfolding open_sockets
times-open_sockets is_open ws t [] = ground arith
times-open_sockets is_open ws t (s ∷ ss) =
    let rest = times-open_sockets is_open ws t ss in
    elim (ℕ_discrete t s) [ yes e ↦ rw (← e) (ground arith) | no e ↦ ground arith ]

times-broadcast :
    (ws : ℕ) (board_id : String) (g : Gateway) (t : ℕ)
    → times t (BoardManager.broadcast g.is_open board_id (some ws) g.rooms)
      ≡ due ws g.is_open (Map.get board_id g.rooms) t
unfolding BoardManager.broadcast
times-broadcast ws board_id g t = sent_to (Map.get board_id g.rooms)
  where
    sent_to :
        (o : Option Room)
        → times t
            (elim o [ none ↦ [] | some r ↦ open_sockets g.is_open (some ws) (all_sockets r.users) ])
          ≡ due ws g.is_open o t
    sent_to none = refl
    sent_to (some r) =
        rw (times-open_sockets g.is_open ws t (all_sockets r.users), times-all_sockets t r.users)

open_sockets-All :
    (is_open : ℕ → Bool) (ws : ℕ) (ss : List ℕ)
    → All
        (λ t. (t ≢ ws) × (is_open t ≡ true) × (has_socket t ss ≡ true))
        (open_sockets is_open (some ws) ss)
unfolding open_sockets has_socket
open_sockets-All is_open ws [] = tt
open_sockets-All is_open ws (s ∷ ss) =
    let rest = open_sockets-All is_open ws ss in
    let kept = All-mono (open_sockets is_open (some ws) ss) (in_tail s) rest in
    elim (Bool-cases (not (s == ws) && is_open s)) [
      | inl y ↦ rw y ((λ (q : s ≡ ws). ground arith, ground arith, ground arith), kept)
      | inr n ↦ rw n kept
    ]
  where
    in_tail :
        (s t : ℕ)
        → (t ≢ ws) × (is_open t ≡ true) × (has_socket t ss ≡ true)
        → (t ≢ ws) × (is_open t ≡ true) × (has_socket t (s ∷ ss) ≡ true)
    in_tail s t (n, o, h) = (n, o, ground arith)

broadcast-IsReceiver :
    (ws : ℕ) (board_id : String) (g : Gateway)
    → All (IsReceiver ws board_id g) (BoardManager.broadcast g.is_open board_id (some ws) g.rooms)
unfolding BoardManager.broadcast IsReceiver
broadcast-IsReceiver ws board_id g = receivers (Map.get board_id g.rooms) refl
  where
    receivers :
        (o : Option Room)
        → Map.get board_id g.rooms ≡ o
        → All
            (IsReceiver ws board_id g)
            (elim o [ none ↦ [] | some r ↦ open_sockets g.is_open (some ws) (all_sockets r.users) ])
    receivers none e = tt
    receivers (some r) e =
        let ss = all_sockets r.users in
        All-mono (open_sockets g.is_open (some ws) ss) (λ t (n, o, h). (n, o, (r, e, h)))
          (open_sockets-All g.is_open ws ss)

module _ (client : RaftClient) (now ws : ℕ) (s : Json) (info : ConnectionInfo) (g : Gateway) where
  abbrev after : Gateway
  after = (client.submit_stroke s g).0

  limit_stroke-sends :
      (i : ConnectionInfo) (within : Bool)
      → let sent = strokes_sent (limit_stroke client ws s (i, within) g).1.outbox in
        (sent ≡ strokes_sent g.outbox)
        ⊎ ((sent ≡ strokes_sent after.outbox) × ((client.submit_stroke s g).1 ≡ false))
        ⊎ ((within ≡ true)
            × ((client.submit_stroke s g).1 ≡ true)
            × ((ts : List ℕ) × All (IsReceiver ws i.board_id after) ts
                × ((t : ℕ) → times t ts ≡ due ws after.is_open (Map.get i.board_id after.rooms) t)
                × (sent ≡ strokes_sent after.outbox ++ map (λ t. (t, s)) ts)))
  unfolding limit_stroke submit_and_broadcast broadcast
  limit_stroke-sends i false = inl (strokes_sent-send_to ws _ g)
  limit_stroke-sends i true = inr (elim (Bool-cases (client.submit_stroke s g).1) [
    | inr n ↦ inl (rw n (strokes_sent-send_to ws _ after), n)
    | inl y ↦
        let ts = BoardManager.broadcast after.is_open i.board_id (some ws) after.rooms in
        let sent = strokes_sent-append after.outbox (map (λ t. (t, stroke_broadcast s)) ts) in
        let added = ap (λ z. strokes_sent after.outbox ++ z) (strokes_sent-map s ts) in
        inr (
          refl,
          y,
          (
            ts,
            broadcast-IsReceiver ws i.board_id after,
            times-broadcast ws i.board_id after,
            rw y (sent ∙ added),
          ),
        )
  ])

  board_id-take_turn : (take_turn now info).0.board_id ≡ info.board_id
  unfolding take_turn reset_window
  board_id-take_turn = ground arith

  -- What the handler of a stroke sends to others. It sends the stroke to no one, or the stroke is valid
  -- and from the board and the user of its connection, it is within the rate limit, the Raft client
  -- has reported it as written, and it goes to the receivers, which are the open sockets of the board
  -- other than the sender's, and to each of them as often as the users of the board have it among
  -- their sockets.
  pub handle_stroke-sends :
      let sent = strokes_sent (handle_stroke client now ws s info g).1.outbox in
      (sent ≡ strokes_sent g.outbox)
      ⊎ ((sent ≡ strokes_sent after.outbox) × ((client.submit_stroke s g).1 ≡ false))
      ⊎ ((validate_stroke s (identity_of info) ≡ none)
          × ((take_turn now info).1 ≡ true)
          × ((client.submit_stroke s g).1 ≡ true)
          × ((ts : List ℕ) × All (IsReceiver ws info.board_id after) ts
              × ((t : ℕ) → times t ts ≡ due ws after.is_open (Map.get info.board_id after.rooms) t)
              × (sent ≡ strokes_sent after.outbox ++ map (λ t. (t, s)) ts)))
  unfolding handle_stroke
  handle_stroke-sends = elim (Option-cases (validate_stroke s (identity_of info))) [
    | inr (reason, e) ↦ rw e (inl (strokes_sent-send_to ws _ g))
    | inl e ↦
        let (i, within) = take_turn now info in
        rw e (elim (limit_stroke-sends i within) [
          | inl same ↦ inl same
          | inr (inl failed) ↦ inr (inl failed)
          | inr (inr (w, k, (ts, a, d, q))) ↦
              inr
                (inr (refl, w, k, (ts, rw board_id-take_turn at a, rw board_id-take_turn at d, q)))
        ])
  ]
