-- ===== src/UseWebSocket.antt =====
-- frontend/src/hooks/useWebSocket.ts: the connection of a page to the gateway. The browser's sockets and
-- timers are numbers; what they do are the events of the hook.
pub mod Reconnect
use quorum_canvas.Base.{
  ℕ, ◌+◌, ◌*◌, ◌^◌, min, Bool, true, false, Option, none, some, List, [], ◌∷◌, ◌++◌, foldl, ◌==◌,
  if◌then◌else◌,
}

pub data ConnectionStatus : Type 0 where
  connecting connected disconnected : ConnectionStatus

-- `readyState` of a socket.
pub data ReadyState : Type 0 where
  opening open_now closing closed : ReadyState

-- The hook. `ready` is the state of each socket made so far, the last first; `armed` are the timers that
-- will fire, each with its delay; `sent` are the sockets on which a `join` was sent.
pub record Hook : Type 0 where
  pub status : ConnectionStatus
  pub ws : Option ℕ
  pub ready : List (ℕ × ReadyState)
  pub attempt : ℕ
  pub timer : Option ℕ
  pub armed : List (ℕ × ℕ)
  pub next : ℕ
  pub sent : List ℕ

abbrev pub reconnect_base_delay : ℕ
reconnect_base_delay = 1000

abbrev pub reconnect_max_delay : ℕ
reconnect_max_delay = 30000

unfoldable pub initial_hook : Hook
initial_hook = record {
  status = disconnected;
  ws = none;
  ready = [];
  attempt = 0;
  timer = none;
  armed = [];
  next = 1;
  sent = [];
}

unfoldable pub ready_state : ℕ → List (ℕ × ReadyState) → ReadyState
ready_state s [] = closed
ready_state s ((k, r) ∷ ks) = if k == s then r else ready_state s ks

abbrev pub is_open : ReadyState → Bool
is_open open_now = true
is_open _ = false

abbrev pub is_starting : ReadyState → Bool
is_starting open_now = true
is_starting opening = true
is_starting _ = false

-- `send`: whether the current socket took the message.
unfoldable pub send : Hook → Bool
unfolding ready_state
send h = elim h.ws [ none ↦ false | some s ↦ is_open (ready_state s h.ready) ]

-- Whether `connect` leaves the current socket as it is.
unfoldable pub is_busy : Option ℕ → List (ℕ × ReadyState) → Bool
unfolding ready_state
is_busy none ready = false
is_busy (some s) ready = is_starting (ready_state s ready)

unfoldable pub connect : Hook → Hook
unfolding is_busy
connect h = if is_busy h.ws h.ready then h else record h {
  status = connecting;
  ws = some h.next;
  ready = (h.next, opening) ∷ h.ready;
  next = h.next + 1;
}

-- The sockets on which a `join` was sent, with the current one if it took the message.
unfoldable pub with_join : Bool → Option ℕ → List ℕ → List ℕ
with_join true (some c) sent = sent ++ c ∷ []
with_join _ _ sent = sent

-- `onopen`: the `join` goes to the current socket, if it is open.
unfoldable pub on_open : ℕ → Hook → Hook
unfolding send with_join
on_open s h =
    let h' : Hook = record h { ready = (s, open_now) ∷ h.ready; status = connected; attempt = 0 } in
    record h' { sent = with_join (send h') h'.ws h'.sent }

-- `Math.min(RECONNECT_BASE_DELAY * Math.pow(2, attempt), RECONNECT_MAX_DELAY)`
unfoldable pub reconnect_delay : ℕ → ℕ
reconnect_delay attempt = min (reconnect_base_delay * 2 ^ attempt) reconnect_max_delay

-- `onclose`.
unfoldable pub on_close : ℕ → Hook → Hook
unfolding reconnect_delay
on_close s h = record h {
  ready = (s, closed) ∷ h.ready;
  status = disconnected;
  attempt = h.attempt + 1;
  timer = some h.next;
  armed = h.armed ++ (h.next, reconnect_delay h.attempt) ∷ [];
  next = h.next + 1;
}

-- `ws.close()`, which leaves a closed socket as it is.
unfoldable pub close_ready : ReadyState → ℕ → List (ℕ × ReadyState) → List (ℕ × ReadyState)
close_ready closed s ready = ready
close_ready _ s ready = (s, closing) ∷ ready

unfoldable pub close_socket : ℕ → Hook → Hook
unfolding ready_state close_ready
close_socket s h = record h { ready = close_ready (ready_state s h.ready) s h.ready }

unfoldable pub disarm : ℕ → List (ℕ × ℕ) → List (ℕ × ℕ)
disarm t [] = []
disarm t ((k, d) ∷ ts) = let rest = disarm t ts in if k == t then rest else (k, d) ∷ rest

-- The callback of a timer.
unfoldable pub on_timer : ℕ → Hook → Hook
unfolding disarm connect
on_timer t h = connect (record h { armed = disarm t h.armed })

unfoldable pub disarm_some : Option ℕ → List (ℕ × ℕ) → List (ℕ × ℕ)
unfolding disarm
disarm_some none ts = ts
disarm_some (some t) ts = disarm t ts

unfoldable pub close_current : Option ℕ → Hook → Hook
unfolding close_socket
close_current none h = h
close_current (some s) h = close_socket s h

-- The clean-up of the effect.
unfoldable pub clean_up : Hook → Hook
unfolding disarm_some close_current
clean_up h = close_current h.ws (record h { armed = disarm_some h.timer h.armed })

-- What the browser does while the page is shown.
pub data Event : Type 0 where
  opened : ℕ → Event
  has_closed : ℕ → Event
  failed : ℕ → Event
  fired : ℕ → Event

unfoldable pub step : Hook → Event → Hook
unfolding on_open on_close close_socket on_timer
step h (opened s) = on_open s h
step h (has_closed s) = on_close s h
step h (failed s) = close_socket s h
step h (fired t) = on_timer t h
