-- ===== src/Messages/Limits.antt =====
-- The rate limit over time.
use quorum_canvas.Base.{ℕ, ◌+◌, ◌-◌, ◌*◌, ◌≤◌, min, List, [], ◌∷◌, All, arith, if◌then◌else◌}
use quorum_canvas.Messages.{ConnectionInfo, reset_window, take_turn}

-- The connection after strokes at the given times, and how many of them were within the limit.
unfoldable pub take_turns : List ℕ → ConnectionInfo → ConnectionInfo × ℕ
take_turns [] info = (info, 0)
take_turns (now ∷ times) info =
    let (info', within) = take_turn now info in
    let (info'', accepted) = take_turns times info' in
    (info'', if within then accepted + 1 else accepted)

-- What one stroke takes of the allowance that is left until `last`.
window_start-take_turn_le :
    (last now : ℕ) (info : ConnectionInfo)
    → now ≤ last
    → info.window_start ≤ last
    → (take_turn now info).0.window_start ≤ last
unfolding take_turn reset_window
window_start-take_turn_le last now info h w = ground arith

take_turn-costs :
    (last now : ℕ) (info : ConnectionInfo)
    → now ≤ last
    → let (info', within) = take_turn now info in
      (if within then 1000 else 0)
        + 1000 * min info.stroke_count 60
        + 60 * (last - info'.window_start)
      ≤ 1000 * min info'.stroke_count 60 + 60 * (last - info.window_start)
unfolding take_turn reset_window
take_turn-costs last now info h = ground arith

take_turns-bounded_from :
    (last : ℕ) (times : List ℕ) (info : ConnectionInfo)
    → All (λ t. t ≤ last) times
    → info.window_start ≤ last
    → 1000 * (take_turns times info).1 + 1000 * min info.stroke_count 60
      ≤ 60 * (last - info.window_start) + 60000
unfolding take_turns
take_turns-bounded_from last [] info h w = omega arith
take_turns-bounded_from last (now ∷ times) info h w =
    let info' = (take_turn now info).0 in
    let w' = window_start-take_turn_le last now info h.0 w in
    ground
      (arith, take_turn-costs last now info h.0, take_turns-bounded_from last times info' h.1 w')

-- Of the strokes that a connection sends until a time, at most 60 for each second since its window
-- began, and 60 more, are within the limit, at whatever times they come.
pub take_turns-bounded :
    (last : ℕ) (times : List ℕ) (info : ConnectionInfo)
    → All (λ t. t ≤ last) times
    → info.window_start ≤ last
    → 1000 * (take_turns times info).1 ≤ 60 * (last - info.window_start) + 60000
take_turns-bounded last times info h w = omega (arith, take_turns-bounded_from last times info h w)
