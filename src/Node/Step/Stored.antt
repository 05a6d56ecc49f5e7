-- ===== src/Node/Step/Stored.antt =====
-- What log.jsonl and snapshot.json hold against the log in memory, while the log and the node are
-- written.
use quorum_canvas.Base.{
  ℕ, ◌-◌, ◌≤◌, ◌≡◌, refl, ap, ◌∙◌, Option, none, some, List, [], ◌∷◌, ◌++◌, arith, leb, drop, take,
  Bool-cases, Option-cases, inl, inr,
}
use quorum_canvas.Types.{LogEntry, Snapshot, PersistedState, BoardRecord}
use quorum_canvas.Board.{snapshot_boards}
use quorum_canvas.Persistence.{
  Persistence, memory, file, save_state, append_log, rewrite_log, save_snapshot,
}
use quorum_canvas.RaftLog
use quorum_canvas.RaftLog.{RaftLog, entries_above}
use quorum_canvas.Node.{
  Node, apply_committed, commit_at, persist_state, take_snapshot, maybe_snapshot,
}
use quorum_canvas.Node.Append.{append_missing, append_entry, append_loop}
use quorum_canvas.Node.Follower.{apply_snapshot, catch_up_entry, catch_up_loop}

abbrev pub boundary_of : Option Snapshot → ℕ × ℕ
boundary_of none = (0, 0)
boundary_of (some s) = (s.last_included_index, s.last_included_term)

-- The entries in the log file, with the index and the term of the snapshot file; nothing where there
-- are no files.
abbrev pub on_disk : Persistence → Option (List LogEntry × (ℕ × ℕ))
on_disk memory = none
on_disk (file d) = some (d.wal, boundary_of d.snapshot)

-- The files hold the log: its entries, and the boundary of the snapshot.
abbrev pub IsStored : RaftLog → Type 0
IsStored l = on_disk l.persistence ≡ some (l.entries, (l.last_included_index, l.last_included_term))

pub on_disk-save_state :
    (s : PersistedState) (p : Persistence) → on_disk (save_state s p) ≡ on_disk p
unfolding save_state
on_disk-save_state s memory = refl
on_disk-save_state s (file d) = refl

module _ {es : List LogEntry} {b : ℕ × ℕ} where
  on_disk-append_log :
      (e : LogEntry) (p : Persistence)
      → on_disk p ≡ some (es, b)
      → on_disk (append_log e p) ≡ some (es ++ e ∷ [], b)
  unfolding append_log
  on_disk-append_log e memory h = cc
  on_disk-append_log e (file d) h = ground arith

  on_disk-rewrite_log :
      (fs : List LogEntry) (p : Persistence)
      → on_disk p ≡ some (es, b)
      → on_disk (rewrite_log fs p) ≡ some (fs, b)
  unfolding rewrite_log
  on_disk-rewrite_log fs memory h = cc
  on_disk-rewrite_log fs (file d) h = ground arith

  on_disk-save_snapshot :
      (s : Snapshot) (p : Persistence)
      → on_disk p ≡ some (es, b)
      → on_disk (save_snapshot s p) ≡ some (es, (s.last_included_index, s.last_included_term))
  unfolding save_snapshot
  on_disk-save_snapshot s memory h = cc
  on_disk-save_snapshot s (file d) h = ground arith

pub append-IsStored : (e : LogEntry) (l : RaftLog) → IsStored l → IsStored (RaftLog.append e l)
unfolding RaftLog.append
append-IsStored e l h = on_disk-append_log e l.persistence h

truncate_from-IsStored : (i : ℕ) (l : RaftLog) → IsStored l → IsStored (RaftLog.truncate_from i l)
unfolding RaftLog.truncate_from
truncate_from-IsStored i l h =
    ground
      (arith, on_disk-rewrite_log (take (i - l.last_included_index - 1) l.entries) l.persistence h)

append_missing-IsStored : (e : LogEntry) (l : RaftLog) → IsStored l → IsStored (append_missing e l)
unfolding append_missing
append_missing-IsStored e l h = ground (arith, append-IsStored e l h)

append_entry-IsStored :
    (b c : ℕ) (e : LogEntry) (l : RaftLog) {l' : RaftLog}
    → append_entry b c e l ≡ some l'
    → IsStored l
    → IsStored l'
unfolding append_entry
append_entry-IsStored b c e l goes h = ground (
  arith,
  append_missing-IsStored e l h,
  append_missing-IsStored e (RaftLog.truncate_from e.index l) (truncate_from-IsStored e.index l h),
)

pub append_loop-IsStored :
    (b c : ℕ) (es : List LogEntry) (l : RaftLog) → IsStored l → IsStored (append_loop b c es l).0
unfolding append_loop
append_loop-IsStored b c [] l h = h
append_loop-IsStored b c (e ∷ es) l h = elim (Option-cases (append_entry b c e l)) [
  | inl stops ↦ rw (stops, append_loop) h
  | inr (l', goes) ↦
      rw (goes, append_loop) (append_loop-IsStored b c es l' (append_entry-IsStored b c e l goes h))
]

catch_up_entry-IsStored :
    (b c : ℕ) (e : LogEntry) (l : RaftLog) → IsStored l → IsStored (catch_up_entry b c e l)
unfolding catch_up_entry
catch_up_entry-IsStored b c e l h = ground (
  arith,
  append_missing-IsStored e l h,
  append_missing-IsStored e (RaftLog.truncate_from e.index l) (truncate_from-IsStored e.index l h),
)

pub catch_up_loop-IsStored :
    (b c : ℕ) (es : List LogEntry) (l : RaftLog) → IsStored l → IsStored (catch_up_loop b c es l)
unfolding catch_up_loop
catch_up_loop-IsStored b c [] l h = h
catch_up_loop-IsStored b c (e ∷ es) l h =
    catch_up_loop-IsStored b c es (catch_up_entry b c e l) (catch_up_entry-IsStored b c e l h)

pub persist_state-IsStored : (n : Node) → IsStored n.log → IsStored (persist_state n).log
unfolding persist_state
persist_state-IsStored n h = on_disk-save_state _ (n.log).persistence ∙ h

pub apply_snapshot-IsStored :
    (i t : ℕ) (boards : BoardRecord) (n : Node)
    → IsStored n.log
    → IsStored (apply_snapshot i t boards n).log
unfolding apply_snapshot persist_state RaftLog.install_snapshot
apply_snapshot-IsStored i t boards n h =
    on_disk-save_state _ _
    ∙ on_disk-save_snapshot _ _
        (on_disk-rewrite_log (entries_above i (n.log).entries) (n.log).persistence h)

-- A snapshot at the boundary that the log has already repeats the boundary's term.
take_snapshot-IsStored :
    (n : Node)
    → (n.log).last_included_index ≤ n.commit_index
    → IsStored n.log
    → IsStored (take_snapshot n).log
unfolding take_snapshot RaftLog.compact
take_snapshot-IsStored n covered h =
    let t = RaftLog.get_term_at n.commit_index n.log in
    let s : Snapshot = record {
      last_included_index = n.commit_index;
      last_included_term = t;
      boards = snapshot_boards n.boards;
    } in
    let saved = on_disk-save_snapshot s (n.log).persistence h in
    elim (Bool-cases (leb n.commit_index (n.log).last_included_index)) [
      | inl there ↦
          let same : n.commit_index ≡ (n.log).last_included_index = ground arith in
          let known : t ≡ (n.log).last_included_term = unfold RaftLog.get_term_at in ground arith in
          let b = (n.log).last_included_index in
          simp there (
            saved
            ∙ ap (λ j. some ((n.log).entries, (j, t))) same
            ∙ ap (λ u. some ((n.log).entries, (b, u))) known)
      | inr above ↦ simp above (
          on_disk-rewrite_log (drop (n.commit_index - (n.log).last_included_index) (n.log).entries)
            _ saved)
    ]

maybe_snapshot-IsStored :
    (n : Node)
    → (n.log).last_included_index ≤ n.commit_index
    → IsStored n.log
    → IsStored (maybe_snapshot n).log
unfolding maybe_snapshot
maybe_snapshot-IsStored n covered h = ground (arith, take_snapshot-IsStored n covered h)

pub apply_committed-IsStored :
    (n : Node)
    → (n.log).last_included_index ≤ n.commit_index
    → IsStored n.log
    → IsStored (apply_committed n).log
unfolding apply_committed
apply_committed-IsStored n covered h = maybe_snapshot-IsStored _ covered h

pub commit_at-IsStored :
    (i : ℕ) (n : Node)
    → (n.log).last_included_index ≤ i
    → IsStored n.log
    → IsStored (commit_at i n).log
unfolding commit_at
commit_at-IsStored i n covered h =
    let n1 = record n { commit_index = i } in
    apply_committed-IsStored (persist_state n1) (unfold persist_state in covered)
      (persist_state-IsStored n1 h)
