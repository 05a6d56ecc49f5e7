-- ===== src/Node/Reads/Confirmed.antt =====
-- What a board that `readBoardState` answers rests on.
use quorum_canvas.Base.{
  ℕ, ◌+◌, ◌≤◌, ◌≡◌, refl, sym, ap, ◌∙◌, String, true, Option, none, some, List, [], ◌∷◌, All, arith,
  ltb, if◌then◌else◌, Bool-cases, inl, inr,
}
use quorum_canvas.Types.{HeartbeatArgs, HeartbeatResult}
use quorum_canvas.Board.{get_strokes}
use quorum_canvas.Node.{Node, is_leader, majority}
use quorum_canvas.Node.Reads.{
  heartbeat_args, count_acks, finish_confirm, confirm_leadership, read_board_state,
}

abbrev acks_of : Option HeartbeatResult → ℕ
acks_of none = 0
acks_of (some r) = if r.success then 1 else 0

-- How many of the heartbeats were acknowledged.
abbrev pub acknowledged : List (Option HeartbeatResult) → ℕ
acknowledged [] = 0
acknowledged (r ∷ rs) = acks_of r + acknowledged rs

-- No reply carries a term above `t`.
abbrev pub IsNoNewer : ℕ → Option HeartbeatResult → Type 0
IsNoNewer t none = Unit {0}
IsNoNewer t (some r) = r.term ≤ t

-- A count that comes to its end leaves the node as it was and has seen no newer term.
count_acks-some :
    (rs : List (Option HeartbeatResult)) (acks : ℕ) (n : Node) {k : ℕ}
    → (count_acks rs acks n).1 ≡ some k
    → ((count_acks rs acks n).0 ≡ n)
      × (k ≡ acks + acknowledged rs)
      × All (IsNoNewer n.current_term) rs
unfolding count_acks
count_acks-some [] acks n h = (refl, ground arith, tt)
count_acks-some (none ∷ rs) acks n h =
    let (same, total, old) = count_acks-some rs acks n h in (same, omega arith, (tt, old))
count_acks-some (some r ∷ rs) acks n h = elim (Bool-cases (ltb n.current_term r.term)) [
  | inl newer ↦ absurd (ground arith)
  | inr fresh ↦
      let (same, total, old) =
        count_acks-some rs (if r.success then acks + 1 else acks) n (simp fresh at h) in
      simp fresh (same, ground arith, (ground arith, old))
]

finish_confirm-true :
    (t q : ℕ) (p : Node × Option ℕ)
    → (finish_confirm t q p).1 ≡ true
    → ((finish_confirm t q p).0 ≡ p.0)
      × (is_leader p.0.state ≡ true)
      × (p.0.current_term ≡ t)
      × ((k : ℕ) × (p.1 ≡ some k) × (q ≤ k))
unfolding finish_confirm
finish_confirm-true t q (n, none) h = cc
finish_confirm-true t q (n, some k) h = (refl, ground arith, ground arith, (k, refl, ground arith))

module _ (beat : HeartbeatArgs → Node → Node × List (Option HeartbeatResult)) (n : Node) where
  abbrev after : Node
  after = (beat (heartbeat_args n) n).0

  abbrev answers : List (Option HeartbeatResult)
  answers = (beat (heartbeat_args n) n).1

  -- `confirmLeadership` answers `true` only at a leader that a majority has acknowledged.
  confirm_leadership-true :
      (confirm_leadership beat n).1 ≡ true
      → ((confirm_leadership beat n).0 ≡ after)
        × (is_leader n.state ≡ true)
        × (is_leader after.state ≡ true)
        × (after.current_term ≡ n.current_term)
        × All (IsNoNewer after.current_term) answers
        × (majority n ≤ 1 + acknowledged answers)
  unfolding confirm_leadership
  confirm_leadership-true h = elim (Bool-cases (is_leader n.state)) [
    | inr lost ↦ absurd (ground arith)
    | inl leads ↦
        let p = count_acks answers 1 after in
        let (kept, still, term, (k, counted, many)) =
          finish_confirm-true n.current_term (majority n) p (simp leads at h) in
        let (same, total, old) = count_acks-some answers 1 after counted in
        simp leads (
          kept ∙ same,
          refl,
          ap (λ m. is_leader m.state) (sym same) ∙ still,
          ap (λ m. m.current_term) (sym same) ∙ term,
          old,
          omega arith,
        )
  ]

-- A read that succeeds comes from a node that was leader before and after it asked its peers, in one
-- term, with no reply of a newer term and with acknowledgements that make a majority with its own;
-- what it answers is its board after the wait.
pub read_board_state-confirmed :
    (beat : HeartbeatArgs → Node → Node × List (Option HeartbeatResult)) (board_id : String)
    (n : Node)
    → (read_board_state beat board_id n).1.success ≡ true
    → let (n1, results) = beat (heartbeat_args n) n in
      (is_leader n.state ≡ true)
      × (is_leader n1.state ≡ true)
      × (n1.current_term ≡ n.current_term)
      × All (IsNoNewer n1.current_term) results
      × (majority n ≤ 1 + acknowledged results)
      × ((read_board_state beat board_id n).1.strokes ≡ some (get_strokes board_id n1.boards))
unfolding read_board_state
read_board_state-confirmed beat board_id n success = elim (Bool-cases (is_leader n.state)) [
  | inr lost ↦ absurd (ground arith)
  | inl leads ↦ elim (Bool-cases (confirm_leadership beat n).1) [
    | inr refused ↦ absurd (ground arith)
    | inl confirmed ↦
        let (same, led, leads_after, term, old, many) = confirm_leadership-true beat n confirmed in
        (
          led,
          leads_after,
          term,
          old,
          many,
          simp (leads, confirmed) (ap (λ m. some (get_strokes board_id m.boards)) same),
        )
  ]
]
