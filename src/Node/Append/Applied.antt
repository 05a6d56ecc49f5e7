-- ===== src/Node/Append/Applied.antt =====
-- The board state follows the committed log.
use mathlib.Core.Path.{subst}
use quorum_canvas.Base.{
  ℕ, zero, suc, ◌+◌, ◌-◌, ◌≤◌, ◌≡◌, refl, sym, ◌∙◌, some, List, [], ◌∷◌, map, foldl, arith,
  get_elem?, take, drop, get_elem?_below,
}
use quorum_canvas.Types.{Stroke}
use quorum_canvas.Board.{Boards, apply_board_event}
use quorum_canvas.RaftLog
use quorum_canvas.RaftLog.{RaftLog}
use quorum_canvas.Node.{
  Node, persist_state, take_snapshot, maybe_snapshot, apply_entries, apply_committed, commit_at,
}
use quorum_canvas.Node.Append.Commit.{IsSound}

drop-cons {ℓ} :
    {A : Type ℓ} (xs : List A) (i : ℕ) (x : A)
    → get_elem? xs i ≡ some x
    → drop i xs ≡ x ∷ drop (suc i) xs
drop-cons [] i x h = cc
drop-cons (y ∷ xs) zero x h = ground arith
drop-cons (y ∷ xs) (suc i) x h = drop-cons xs i x h

-- The strokes of the entries from index `a + 1` to index `a + k`.
abbrev pub strokes_after : ℕ → ℕ → RaftLog → List Stroke
strokes_after a k l = map (λ e. e.stroke) (take k (drop (a - l.last_included_index) l.entries))

apply_entries-foldl :
    (k a : ℕ) (l : RaftLog) (b : Boards)
    → l.last_included_index ≤ a
    → a + k ≤ RaftLog.get_last_index l
    → apply_entries k l a b ≡ foldl apply_board_event b (strokes_after a k l)
unfolding apply_entries RaftLog.get_entry RaftLog.get_last_index
apply_entries-foldl zero a l b low high = refl
apply_entries-foldl (suc k) a l b low high =
    let p = a - l.last_included_index in
    let (x, at) = get_elem?_below l.entries p (omega arith) in
    let here : a + 1 - l.last_included_index - 1 ≡ p = omega arith in
    let next : a + 1 - l.last_included_index ≡ suc p = omega arith in
    let entry : RaftLog.get_entry (a + 1) l ≡ some x = ground arith in
    rw entry (
      apply_entries-foldl k (a + 1) l (apply_board_event b x.stroke) (omega arith) (omega arith)
      ∙ rw (next, drop-cons l.entries p x at))

boards-maybe_snapshot : (n : Node) → (maybe_snapshot n).boards ≡ n.boards
unfolding maybe_snapshot take_snapshot
boards-maybe_snapshot n = ground arith

-- When the commit index moves up from `commit_index` to `i`, the strokes of exactly the entries
-- between the two are applied to the boards, once each and in log order.
pub boards-commit_at :
    (i : ℕ) (n : Node)
    → IsSound n
    → n.commit_index ≤ i
    → i ≤ RaftLog.get_last_index n.log
    → (commit_at i n).boards
      ≡ foldl apply_board_event n.boards (strokes_after n.commit_index (i - n.commit_index) n.log)
unfolding commit_at persist_state apply_committed RaftLog.get_last_index
boards-commit_at i n s up has =
    let l = (persist_state (record n { commit_index = i })).log in
    boards-maybe_snapshot _
    ∙ subst
        (λ a.
          apply_entries (i - a) l a n.boards
          ≡ foldl apply_board_event n.boards (strokes_after n.commit_index (i - n.commit_index) l))
        (sym s.applied)
        (apply_entries-foldl (i - n.commit_index) n.commit_index l n.boards s.covered
          (omega (arith, has)))
