-- ===== src/UseWebSocket/Reconnect.antt =====
-- Whether a page connects again.
use quorum_canvas.Base.{
  ℕ, ◌≤◌, ◌≡◌, refl, ◌⊎◌, inl, inr, Bool, true, false, Option, none, some, List, [], ◌∷◌, ◌++◌,
  foldl, ◌==◌, arith, length, Bool-cases, length-append,
}
use quorum_canvas.UseWebSocket.{
  Hook, ReadyState, opening, open_now, closing, closed, initial_hook, ready_state, is_busy,
  is_starting, connect, on_open, on_close, reconnect_delay, close_ready, close_socket,
  close_current, disarm, on_timer, clean_up, Event, opened, has_closed, failed, fired, step,
}

abbrev pub is_not_closed : ReadyState → Bool
is_not_closed closed = false
is_not_closed _ = true

-- The socket of the hook has not closed yet.
unfoldable pub lives : Option ℕ → List (ℕ × ReadyState) → Bool
lives none ready = false
lives (some s) ready = is_not_closed (ready_state s ready)

-- The socket has not closed yet, or a timer is armed to connect again.
unfoldable pub IsAlive : Hook → Type 0
IsAlive h = (lives h.ws h.ready ≡ true) ⊎ (1 ≤ length h.armed)

is_starting_lives : (r : ReadyState) → is_starting r ≡ true → is_not_closed r ≡ true
is_starting_lives opening h = refl
is_starting_lives open_now h = refl
is_starting_lives closing h = absurd (cc)
is_starting_lives closed h = absurd (cc)

is_busy-lives :
    (o : Option ℕ) (ready : List (ℕ × ReadyState)) → is_busy o ready ≡ true → lives o ready ≡ true
unfolding is_busy lives
is_busy-lives none ready h = h
is_busy-lives (some s) ready h = is_starting_lives (ready_state s ready) h

lives_self : (s : ℕ) (ready : List (ℕ × ReadyState)) → lives (some s) ((s, opening) ∷ ready) ≡ true
unfolding lives ready_state
lives_self s ready = ground arith

lives_still :
    (o : Option ℕ) (s : ℕ) (r : ReadyState) (ready : List (ℕ × ReadyState))
    → is_not_closed r ≡ true
    → lives o ready ≡ true
    → lives o ((s, r) ∷ ready) ≡ true
unfolding lives ready_state
lives_still none s r ready c h = h
lives_still (some k) s r ready c h = elim (Bool-cases (s == k)) [ inl y ↦ rw y c | inr n ↦ rw n h ]

connect-IsAlive : (h : Hook) → IsAlive (connect h)
unfolding connect IsAlive
connect-IsAlive h = elim (Bool-cases (is_busy h.ws h.ready)) [
  | inl y ↦ rw y (inl (is_busy-lives h.ws h.ready y))
  | inr n ↦ rw n (inl (lives_self h.next h.ready))
]

on_open-IsAlive : (s : ℕ) (h : Hook) → IsAlive h → IsAlive (on_open s h)
unfolding on_open IsAlive
on_open-IsAlive s h (inl l) = inl (lives_still h.ws s open_now h.ready refl l)
on_open-IsAlive s h (inr armed) = inr armed

lives-close_ready :
    (r : ReadyState) (o : Option ℕ) (s : ℕ) (ready : List (ℕ × ReadyState))
    → lives o ready ≡ true
    → lives o (close_ready r s ready) ≡ true
unfolding close_ready
lives-close_ready closed o s ready l = l
lives-close_ready opening o s ready l = lives_still o s closing ready refl l
lives-close_ready open_now o s ready l = lives_still o s closing ready refl l
lives-close_ready closing o s ready l = lives_still o s closing ready refl l

close_socket-IsAlive : (s : ℕ) (h : Hook) → IsAlive h → IsAlive (close_socket s h)
unfolding close_socket IsAlive
close_socket-IsAlive s h (inl l) = inl (lives-close_ready (ready_state s h.ready) h.ws s h.ready l)
close_socket-IsAlive s h (inr armed) = inr armed

on_close-IsAlive : (s : ℕ) (h : Hook) → IsAlive (on_close s h)
unfolding on_close IsAlive
on_close-IsAlive s h =
    inr (omega (arith, length-append h.armed ((h.next, reconnect_delay h.attempt) ∷ [])))

on_timer-IsAlive : (t : ℕ) (h : Hook) → IsAlive (on_timer t h)
unfolding on_timer
on_timer-IsAlive t h = connect-IsAlive (record h { armed = disarm t h.armed })

run-IsAlive : (es : List Event) (h : Hook) → IsAlive h → IsAlive (foldl step h es)
unfolding step
run-IsAlive [] h alive = alive
run-IsAlive (opened s ∷ es) h alive = run-IsAlive es _ (on_open-IsAlive s h alive)
run-IsAlive (has_closed s ∷ es) h alive = run-IsAlive es _ (on_close-IsAlive s h)
run-IsAlive (failed s ∷ es) h alive = run-IsAlive es _ (close_socket-IsAlive s h alive)
run-IsAlive (fired t ∷ es) h alive = run-IsAlive es _ (on_timer-IsAlive t h)

-- While a page is shown, whatever its sockets and timers do, its socket has not closed yet or a timer is
-- armed to connect again.
pub connected-IsAlive : (es : List Event) → IsAlive (foldl step (connect initial_hook) es)
connected-IsAlive es = run-IsAlive es (connect initial_hook) (connect-IsAlive initial_hook)

connect-starts :
    (h : Hook)
    → is_busy h.ws h.ready ≡ false
    → ((connect h).ws ≡ some h.next) × ((connect h).ready ≡ (h.next, opening) ∷ h.ready)
unfolding connect
connect-starts h idle = rw idle (refl, refl)

-- After the clean-up of a page, the end of its socket arms a timer, and that timer makes a new
-- socket, which is opening, the current one.
pub clean_up-reconnects :
    (h : Hook) (s : ℕ)
    → h.ws ≡ some s
    → let left = clean_up h in
      let ended = on_close s left in
      let again = on_timer left.next ended in
      (ended.armed ≡ left.armed ++ (left.next, reconnect_delay left.attempt) ∷ [])
      × (again.ws ≡ some ended.next)
      × (again.ready ≡ (ended.next, opening) ∷ ended.ready)
unfolding clean_up on_close on_timer close_current close_socket
clean_up-reconnects h s current =
    let ended = on_close s (clean_up h) in
    let idle : is_busy ended.ws ended.ready ≡ false =
      unfold is_busy ready_state in rw current (ground arith) in
    let (a, b) =
      connect-starts (record ended { armed = disarm (clean_up h).next ended.armed }) idle in
    (refl, a, b)
