-- ===== src/Node/Append/Match.antt =====
-- What a successful AppendEntries answer tells the leader.
use mathlib.Core.Path.{subst}
use quorum_canvas.Base.{
  ℕ, ◌+◌, ◌-◌, ◌≤◌, ◌<◌, min, max, ◌≡◌, refl, sym, ◌∙◌, true, List, All-mono, arith, ltb,
  Bool-cases, inl, inr,
}
use quorum_canvas.Types.{LogEntry, AppendEntriesArgs}
use quorum_canvas.Board.{snapshot_boards}
use quorum_canvas.Persistence.{save_snapshot}
use quorum_canvas.RaftLog
use quorum_canvas.RaftLog.{RaftLog}
use quorum_canvas.RaftLog.Contiguous.{IndexedFrom, get_entry-compact, boundary-compact}
use quorum_canvas.Node.{
  Node, accept_leader, persist_state, take_snapshot, maybe_snapshot, apply_entries, apply_committed,
  commit_at, advance_commit,
}
use quorum_canvas.Node.Append.{
  append_loop, append_result, prev_mismatch, append_accepted, handle_append_entries,
}
use quorum_canvas.Node.Append.Entries.{Holds, append_loop-Outcome}
use quorum_canvas.Node.Append.Commit.{
  IsSound, Grows-frame, frame-accept_leader, append_loop-Grows, advance_commit-Grows, prev_le,
}

-- Above the snapshot boundary of `n'`, the logs of `n` and `n'` have the same entries.
abbrev pub SameAbove : Node → Node → Type 0
SameAbove n n' =
    (i : ℕ)
    → (n'.log).last_included_index < i
    → RaftLog.get_entry i n'.log ≡ RaftLog.get_entry i n.log

take_snapshot-SameAbove :
    (n : Node) → (n.log).last_included_index ≤ n.commit_index → SameAbove n (take_snapshot n)
unfolding take_snapshot RaftLog.get_entry
take_snapshot-SameAbove n covered i above =
    let l = record (n.log) {
      persistence =
          save_snapshot
            (record {
              last_included_index = n.commit_index;
              last_included_term = RaftLog.get_term_at n.commit_index n.log;
              boards = snapshot_boards n.boards;
            })
            (n.log).persistence;
    } in
    let t = RaftLog.get_term_at n.commit_index n.log in
    get_entry-compact n.commit_index t l i
      (omega (arith, boundary-compact n.commit_index t l covered))

pub maybe_snapshot-SameAbove :
    (n : Node) → (n.log).last_included_index ≤ n.commit_index → SameAbove n (maybe_snapshot n)
unfolding maybe_snapshot
maybe_snapshot-SameAbove n covered =
    elim (Bool-cases (ltb n.commit_index (n.snapshot_threshold + (n.log).last_included_index))) [
      | inl few ↦ simp few (λ i above. refl)
      | inr many ↦ simp many (take_snapshot-SameAbove n covered)
    ]

commit_at-SameAbove :
    (c : ℕ) (n : Node) → (n.log).last_included_index ≤ c → SameAbove n (commit_at c n)
unfolding commit_at persist_state apply_committed RaftLog.get_entry
commit_at-SameAbove c n covered =
    let saved = persist_state (record n { commit_index = c }) in
    maybe_snapshot-SameAbove
      (record saved {
        boards = apply_entries (c - n.last_applied) saved.log n.last_applied n.boards;
        last_applied = max n.last_applied c;
      })
      covered

advance_commit-SameAbove : (c : ℕ) (n : Node) → IsSound n → SameAbove n (advance_commit c n)
unfolding advance_commit
advance_commit-SameAbove c n s = elim (Bool-cases (ltb n.commit_index c)) [
  | inl more ↦ simp more (
      commit_at-SameAbove (min c (RaftLog.get_last_index n.log)) n
        (ground (arith, s.covered, s.logged)))
  | inr less ↦ simp less (λ i above. refl)
]

Holds-SameAbove :
    (n n' : Node) (es : List LogEntry)
    → SameAbove n n'
    → (n.log).last_included_index ≤ (n'.log).last_included_index
    → Holds (n.log).last_included_index es n.log
    → Holds (n'.log).last_included_index es n'.log
Holds-SameAbove n n' es same up h =
    All-mono es
      (λ e has above. let (x, found, t) = has (omega arith) in (x, same e.index above ∙ found, t)) h

append_accepted-Holds :
    (args : AppendEntriesArgs) (n : Node)
    → IsSound n
    → IndexedFrom args.prev_log_index args.entries
    → args.prev_log_index ≤ RaftLog.get_last_index n.log
    → let (n', r) = append_accepted args n in
      r.success ≡ true → Holds (n'.log).last_included_index args.entries n'.log
unfolding append_accepted append_result
append_accepted-Holds args n s ix within =
    let looped = append_loop (n.log).last_included_index n.commit_index args.entries n.log in
    let n2 = record n { log = looped.0 } in
    let n3 = advance_commit args.leader_commit n2 in
    let boundary =
      (append_loop-Outcome (n.log).last_included_index n.commit_index args.prev_log_index
        args.entries n.log refl s.contiguous ix within s.logged).0.boundary in
    let (x, held) = append_loop-Grows n args.prev_log_index args.entries s ix within in
    elim (Bool-cases looped.1) [
      | inl done ↦ simp done (λ _.
          Holds-SameAbove n2 n3 args.entries
            (advance_commit-SameAbove args.leader_commit n2 x.sound)
            (advance_commit-Grows args.leader_commit n2 x.sound).boundary
            (subst (λ b. Holds b args.entries looped.0) (sym boundary) (held done)))
      | inr stopped ↦ simp stopped (λ e. cc)
    ]

-- If the entries of an AppendEntries request are numbered one after the other from the index after its
-- previous one, and a sound replica answers it with success, then the replica's log holds every entry
-- of the request that its snapshot has not absorbed, under the entry's index and with its term.
pub append_entries-Holds :
    (args : AppendEntriesArgs) (n : Node)
    → IsSound n
    → IndexedFrom args.prev_log_index args.entries
    → let (n', r) = handle_append_entries args n in
      r.success ≡ true → Holds (n'.log).last_included_index args.entries n'.log
unfolding handle_append_entries append_result
append_entries-Holds args n s ix =
    let n1 = accept_leader args.term args.leader_id args.leader_addr n in
    let x = Grows-frame n n1 s (frame-accept_leader args.term args.leader_id args.leader_addr n) in
    elim (Bool-cases (ltb args.term n.current_term)) [
      | inl stale ↦ simp stale (λ e. cc)
      | inr fresh ↦
          elim (Bool-cases (prev_mismatch args.prev_log_index args.prev_log_term n1.log)) [
            | inl gap ↦ simp (fresh, gap) (λ e. cc)
            | inr fits ↦
                simp (fresh, fits)
                  (append_accepted-Holds args n1 x.sound ix
                    (prev_le args.prev_log_index args.prev_log_term n1.log fits))
          ]
    ]
