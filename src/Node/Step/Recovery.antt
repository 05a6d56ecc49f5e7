-- ===== src/Node/Step/Recovery.antt =====
-- A crash between two steps and the restart: what the constructor reads back from the files.
use quorum_canvas.Base.{
  ℕ, ◌-◌, ◌≤◌, ◌<◌, max, ◌≡◌, refl, sym, ap, ◌∙◌, Option, none, some, List, arith, Option-cases,
  inl, inr,
}
use quorum_canvas.Types.{LogEntry, Snapshot, PersistedState}
use quorum_canvas.Persistence.{Persistence, memory, file, load_state, load_log, load_snapshot}
use quorum_canvas.RaftLog
use quorum_canvas.RaftLog.{RaftLog, entries_above}
use quorum_canvas.RaftLog.Contiguous.{IsContiguous}
use quorum_canvas.Node.{
  Node, apply_entries, apply_committed, maybe_snapshot, take_snapshot, construct_from, construct,
  Config,
}
use quorum_canvas.Node.Append.Commit.{IsSound, maybe_snapshot-Grows}
use quorum_canvas.Node.Append.Match.{SameAbove, maybe_snapshot-SameAbove}
use quorum_canvas.Node.Follower.Committed.{entries_above_all}
use quorum_canvas.Node.Step.{Event, run}
use quorum_canvas.Node.Step.Term.{ballot-apply_committed}
use quorum_canvas.Node.Step.Saved.{saved, memory_state, IsSynced}
use quorum_canvas.Node.Step.Synced.{run-IsSynced}
use quorum_canvas.Node.Step.Stored.{on_disk, IsStored}
use quorum_canvas.Node.Step.Committed.{AreInOrder, run-Grows}
use quorum_canvas.Node.Step.Durable.{run-IsStored}

pub load_state-saved : (s : PersistedState) (p : Persistence) → saved p ≡ some s → load_state p ≡ s
unfolding load_state
load_state-saved s memory h = cc
load_state-saved s (file d) h = ground arith

same_log :
    (es : List LogEntry) (i t : ℕ) (p : Persistence) (l : RaftLog)
    → es ≡ l.entries
    → i ≡ l.last_included_index
    → t ≡ l.last_included_term
    → p ≡ l.persistence
    → record { entries = es; last_included_index = i; last_included_term = t; persistence = p } ≡ l
same_log es i t p l a b c d = rw (a, b, c, d) refl

-- The constructor of the log finds the log that the files hold.
open_log-stored :
    (p : Persistence) (l : RaftLog)
    → l.persistence ≡ p
    → on_disk p ≡ some (l.entries, (l.last_included_index, l.last_included_term))
    → IsContiguous l
    → RaftLog.open_log p ≡ l
unfolding RaftLog.open_log load_log load_snapshot
open_log-stored memory l at h c = cc
open_log-stored (file d) l at h c = elim (Option-cases d.snapshot) [
  | inl e ↦
      let h0 = simp e at h in
      simp e (
        same_log d.wal 0 0 (file d) l (ground (arith, h0)) (ground (arith, h0)) (ground (arith, h0))
          (sym at))
  | inr (s, e) ↦
      let h0 = simp e at h in
      let i : s.last_included_index ≡ l.last_included_index = ground (arith, h0) in
      let wal : d.wal ≡ l.entries = ground (arith, h0) in
      let all : entries_above s.last_included_index d.wal ≡ l.entries =
        rw (i, wal)
          (entries_above_all l.last_included_index l.last_included_index l.entries (omega arith)
            c) in
      simp e (
        same_log _ s.last_included_index s.last_included_term (file d) l all i (ground (arith, h0))
          (sym at))
]

applied_from : Option Snapshot → ℕ
applied_from none = 0
applied_from (some s) = s.last_included_index

module _ (n : Node) (contiguous : IsContiguous n.log)
    (covered : (n.log).last_included_index ≤ n.commit_index)
    (logged : n.commit_index ≤ RaftLog.get_last_index n.log)
    (behind : n.last_applied ≤ n.commit_index) where
  -- Applying what is committed makes a node sound.
  apply_committed-recovers : IsSound (apply_committed n) × SameAbove n (apply_committed n)
  unfolding apply_committed RaftLog.get_entry
  apply_committed-recovers =
      let n2 = record n {
        boards = apply_entries (n.commit_index - n.last_applied) n.log n.last_applied n.boards;
        last_applied = max n.last_applied n.commit_index;
      } in
      let s : IsSound n2 = record {
        contiguous = contiguous;
        covered = covered;
        logged = logged;
        applied = omega arith;
      } in
      ((maybe_snapshot-Grows n2 s).sound, maybe_snapshot-SameAbove n2 covered)

commit_index-apply_committed : (n : Node) → (apply_committed n).commit_index ≡ n.commit_index
unfolding apply_committed maybe_snapshot take_snapshot
commit_index-apply_committed n = ground arith

boundary-stored :
    (p : Persistence) (es : List LogEntry) (i t : ℕ)
    → on_disk p ≡ some (es, (i, t))
    → applied_from (load_snapshot p) ≡ i
unfolding load_snapshot applied_from
boundary-stored memory es i t h = cc
boundary-stored (file d) es i t h = elim (Option-cases d.snapshot) [
  | inl e ↦ let h0 = simp e at h in simp e (ground (arith, h0))
  | inr (s, e) ↦ let h0 = simp e at h in simp e (ground (arith, h0))
]

-- What a restart keeps of a saved state and a log.
abbrev Restores : PersistedState → RaftLog → Node → Type 0
Restores s l m =
    IsSound m
    × (m.commit_index ≡ s.commit_index)
    × (m.current_term ≡ s.current_term)
    × (m.voted_for ≡ s.voted_for)
    × ((i : ℕ)
        → (m.log).last_included_index < i
        → RaftLog.get_entry i m.log ≡ RaftLog.get_entry i l)

apply_committed-Restores :
    (s : PersistedState) (n : Node)
    → IsContiguous n.log
    → (n.log).last_included_index ≤ s.commit_index
    → s.commit_index ≤ RaftLog.get_last_index n.log
    → n.last_applied ≤ s.commit_index
    → n.commit_index ≡ max s.commit_index (n.log).last_included_index
    → n.current_term ≡ s.current_term
    → n.voted_for ≡ s.voted_for
    → Restores s n.log (apply_committed n)
apply_committed-Restores s n c covered logged behind commit term vote =
    let same : n.commit_index ≡ s.commit_index = omega arith in
    let (sound, above) = apply_committed-recovers n c (omega arith) (omega arith) (omega arith) in
    (
      sound,
      commit_index-apply_committed n ∙ same,
      ap (λ b. b.term) (ballot-apply_committed n) ∙ term,
      ap (λ b. b.vote) (ballot-apply_committed n) ∙ vote,
      above,
    )

construct_from-Restores :
    (c : Config) (l : RaftLog) (s : PersistedState) (snapshot : Option Snapshot)
    → IsContiguous l
    → l.last_included_index ≤ s.commit_index
    → s.commit_index ≤ RaftLog.get_last_index l
    → applied_from snapshot ≤ s.commit_index
    → Restores s l (construct_from c l s snapshot)
unfolding construct_from applied_from
construct_from-Restores c l s none h covered logged behind =
    apply_committed-Restores s _ h covered logged behind refl refl refl
construct_from-Restores c l s (some x) h covered logged behind =
    apply_committed-Restores s _ h covered logged behind refl refl refl

construct-Restores :
    (n : Node)
    → IsSound n
    → IsSynced n
    → IsStored n.log
    → Restores (memory_state n) n.log (construct n.config (n.log).persistence)
unfolding construct
construct-Restores n s synced stored =
    let p = (n.log).persistence in
    let covered = s.covered in
    let base =
      boundary-stored p (n.log).entries (n.log).last_included_index (n.log).last_included_term
        stored in
    rw
      (open_log-stored p n.log refl stored s.contiguous, load_state-saved (memory_state n) p synced)
      (construct_from-Restores n.config n.log (memory_state n) (load_snapshot p) s.contiguous
        s.covered s.logged (omega arith))

-- A replica that crashes after any events whose entries were in order and is started again on its
-- files is sound and has the term, the vote and the commit index that it had; and each index above
-- its snapshot boundary holds the entry that it held. The files were in step with the replica before
-- the events.
pub run-recovers :
    (es : List Event) (n : Node)
    → IsSound n
    → IsSynced n
    → IsStored n.log
    → AreInOrder es n
    → let n' = run es n in
      let m = construct n'.config (n'.log).persistence in
      IsSound m
      × (m.commit_index ≡ n'.commit_index)
      × (m.current_term ≡ n'.current_term)
      × (m.voted_for ≡ n'.voted_for)
      × SameAbove n' m
run-recovers es n s synced stored o =
    construct-Restores (run es n) (run-Grows es n s o).sound (run-IsSynced es n synced)
      (run-IsStored es n s o stored)
