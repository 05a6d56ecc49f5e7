-- ===== src/Node/Append/Commit.antt =====
-- The commit index and the committed entries across the follower's handlers.
use quorum_canvas.Base.{
  ℕ, ◌+◌, ◌-◌, ◌≤◌, ◌<◌, min, max, ◌≡◌, refl, ap, ◌∙◌, inl, inr, String, true, false, Option, List,
  arith, ltb, length, Bool-cases, Option-cases,
}
use quorum_canvas.Types.{LogEntry, AppendEntriesArgs, HeartbeatArgs}
use quorum_canvas.Board.{snapshot_boards}
use quorum_canvas.Persistence.{save_snapshot}
use quorum_canvas.RaftLog
use quorum_canvas.RaftLog.{RaftLog}
use quorum_canvas.RaftLog.Contiguous.{
  IndexedFrom, IsContiguous, get_entry_le, compact-IsContiguous, get_last_index-compact,
  boundary-compact,
}
use quorum_canvas.Node.{
  Node, persist_state, accept_leader, take_snapshot, maybe_snapshot, apply_entries, apply_committed,
  commit_at, advance_commit,
}
use quorum_canvas.Node.Append.{
  append_loop, prev_mismatch, append_accepted, handle_append_entries, handle_heartbeat,
}
use quorum_canvas.Node.Append.Entries.{Holds, Extends, append_loop-Outcome, boundary_le}

-- The invariant of a replica: the log is contiguous, the snapshot covers committed entries only, the
-- committed entries are in the log or the snapshot, and they are all applied.
pub record IsSound (n : Node) : Type 0 where
  pub contiguous : IsContiguous n.log
  pub covered : (n.log).last_included_index ≤ n.commit_index
  pub logged : n.commit_index ≤ RaftLog.get_last_index n.log
  pub applied : n.last_applied ≡ n.commit_index

-- The fields that the invariant reads.
pub record Frame : Type 0 where
  pub entries : List LogEntry
  pub boundary : ℕ
  pub commit : ℕ
  pub applied : ℕ

abbrev pub frame : Node → Frame
frame n = record {
  entries = (n.log).entries;
  boundary = (n.log).last_included_index;
  commit = n.commit_index;
  applied = n.last_applied;
}

-- From `n` to `n'` the replica stays sound, no commit is taken back, and a committed entry that the
-- snapshot has not absorbed is still there, unchanged.
pub record Grows (n n' : Node) : Type 0 where
  pub sound : IsSound n'
  pub commit : n.commit_index ≤ n'.commit_index
  pub boundary : (n.log).last_included_index ≤ (n'.log).last_included_index
  pub kept :
      (i : ℕ)
      → (n'.log).last_included_index < i
      → i ≤ n.commit_index
      → RaftLog.get_entry i n'.log ≡ RaftLog.get_entry i n.log

pub Grows-trans : (a b c : Node) → Grows a b → Grows b c → Grows a c
Grows-trans a b c x y = record {
  sound = y.sound;
  commit = omega (arith, x.commit, y.commit);
  boundary = omega (arith, x.boundary, y.boundary);
  kept = λ i above below.
      y.kept i above (omega (arith, x.commit)) ∙ x.kept i (omega (arith, y.boundary)) below;
}

-- A change of other fields keeps all of this.
pub Grows-frame : (n n' : Node) → IsSound n → frame n' ≡ frame n → Grows n n'
unfolding RaftLog.get_entry RaftLog.get_last_index
Grows-frame n n' s e =
    let entries : (n'.log).entries ≡ (n.log).entries = ap (λ f. f.entries) e in
    let boundary : (n'.log).last_included_index ≡ (n.log).last_included_index =
      ap (λ f. f.boundary) e in
    let commit : n'.commit_index ≡ n.commit_index = ap (λ f. f.commit) e in
    let applied : n'.last_applied ≡ n.last_applied = ap (λ f. f.applied) e in
    let longer : length (n'.log).entries ≡ length (n.log).entries = ap length entries in
    record {
      sound = record {
        contiguous = rw (boundary, entries) s.contiguous;
        covered = omega arith;
        logged = omega arith;
        applied = omega arith;
      };
      commit = omega arith;
      boundary = omega arith;
      kept = λ i above below. rw (boundary, entries);
    }

pub frame-accept_leader :
    (t : ℕ) (id : String) (addr : Option String) (n : Node)
    → frame (accept_leader t id addr n) ≡ frame n
unfolding accept_leader
frame-accept_leader t id addr n = ground arith

-- Taking a snapshot at the commit index.
take_snapshot-Grows : (n : Node) → IsSound n → Grows n (take_snapshot n)
unfolding take_snapshot RaftLog.get_entry RaftLog.get_last_index
take_snapshot-Grows n s =
    let l = record (n.log) {
      persistence =
          save_snapshot
            (record {
              last_included_index = n.commit_index;
              last_included_term = RaftLog.get_term_at n.commit_index n.log;
              boards = snapshot_boards n.boards;
            })
            (n.log).persistence;
    } in
    let t = RaftLog.get_term_at n.commit_index n.log in
    let boundary = boundary-compact n.commit_index t l s.covered in
    record {
      sound = record {
        contiguous = compact-IsContiguous n.commit_index t l s.logged s.contiguous;
        covered = omega (arith, boundary);
        logged = rw (get_last_index-compact n.commit_index t l s.logged) s.logged;
        applied = s.applied;
      };
      commit = omega arith;
      boundary = omega (arith, boundary, s.covered);
      kept = λ i above below. absurd (omega (arith, boundary));
    }

pub maybe_snapshot-Grows : (n : Node) → IsSound n → Grows n (maybe_snapshot n)
unfolding maybe_snapshot
maybe_snapshot-Grows n s =
    elim (Bool-cases (ltb n.commit_index (n.snapshot_threshold + (n.log).last_included_index))) [
      | inl few ↦ simp few (Grows-frame n n s refl)
      | inr many ↦ simp many (take_snapshot-Grows n s)
    ]

-- Moving the commit index up to an index that the log has.
pub commit_at-Grows :
    (i : ℕ) (n : Node)
    → IsSound n
    → n.commit_index ≤ i
    → i ≤ RaftLog.get_last_index n.log
    → Grows n (commit_at i n)
unfolding commit_at persist_state apply_committed RaftLog.get_entry RaftLog.get_last_index
commit_at-Grows i n s up has =
    let saved = persist_state (record n { commit_index = i }) in
    let n2 = record saved {
      boards = apply_entries (i - n.last_applied) saved.log n.last_applied n.boards;
      last_applied = max n.last_applied i;
    } in
    let x : Grows n n2 = record {
      sound = record {
        contiguous = s.contiguous;
        covered = omega (arith, s.covered);
        logged = has;
        applied = omega (arith, s.applied);
      };
      commit = up;
      boundary = omega arith;
      kept = λ j above below. refl;
    } in
    Grows-trans n n2 (maybe_snapshot n2) x (maybe_snapshot-Grows n2 x.sound)

pub advance_commit-Grows : (c : ℕ) (n : Node) → IsSound n → Grows n (advance_commit c n)
unfolding advance_commit
advance_commit-Grows c n s = elim (Bool-cases (ltb n.commit_index c)) [
  | inl more ↦
      simp more
        (commit_at-Grows (min c (RaftLog.get_last_index n.log)) n s (ground arith) (omega arith))
  | inr less ↦ simp less (Grows-frame n n s refl)
]

-- A log that only extends the node's above its commit index.
pub Extends-Grows :
    (n : Node) (l : RaftLog) (p : ℕ)
    → IsSound n
    → Extends n.commit_index p n.log l
    → Grows n (record n { log = l })
Extends-Grows n l p s x = record {
  sound = record {
    contiguous = x.contiguous;
    covered = omega (arith, x.boundary, s.covered);
    logged = x.reaches.0;
    applied = s.applied;
  };
  commit = omega arith;
  boundary = omega (arith, x.boundary);
  kept = λ i above below. x.older i (inr below);
}

-- The entries loop, seen from the node.
pub append_loop-Grows :
    (n : Node) (p : ℕ) (es : List LogEntry)
    → IsSound n
    → IndexedFrom p es
    → p ≤ RaftLog.get_last_index n.log
    → let (l, done) = append_loop (n.log).last_included_index n.commit_index es n.log in
      Grows n (record n { log = l }) × (done ≡ true → Holds (n.log).last_included_index es l)
append_loop-Grows n p es s ix within =
    let (x, held) =
      append_loop-Outcome (n.log).last_included_index n.commit_index p es n.log refl s.contiguous ix
        within s.logged in
    (Extends-Grows n _ p s x, λ d. (held d).0)

-- A request that passes the consistency check finds its previous entry in the log or the snapshot.
pub prev_le : (i t : ℕ) (l : RaftLog) → prev_mismatch i t l ≡ false → i ≤ RaftLog.get_last_index l
unfolding prev_mismatch
prev_le i t l h = elim (Option-cases (RaftLog.get_entry i l)) [
  | inl lost ↦ ground (arith, boundary_le l)
  | inr (x, found) ↦ get_entry_le i l found
]

append_accepted-Grows :
    (args : AppendEntriesArgs) (n : Node)
    → IsSound n
    → IndexedFrom args.prev_log_index args.entries
    → args.prev_log_index ≤ RaftLog.get_last_index n.log
    → Grows n (append_accepted args n).0
unfolding append_accepted
append_accepted-Grows args n s ix within =
    let b = (n.log).last_included_index in
    let looped = append_loop b n.commit_index args.entries n.log in
    let n2 = record n { log = looped.0 } in
    let x = (append_loop-Grows n args.prev_log_index args.entries s ix within).0 in
    elim (Bool-cases looped.1) [
      | inl done ↦ simp done (
          Grows-trans n n2 (advance_commit args.leader_commit n2) x
            (advance_commit-Grows args.leader_commit n2 x.sound))
      | inr stopped ↦ simp stopped x
    ]

pub last_index-frame :
    (n n' : Node)
    → frame n' ≡ frame n
    → RaftLog.get_last_index n'.log ≡ RaftLog.get_last_index n.log
unfolding RaftLog.get_last_index
last_index-frame n n' e = ap (λ f. f.boundary + length f.entries) e

-- An AppendEntries request whose entries carry the indices after `prev_log_index` keeps a sound
-- replica sound, takes back no commit and changes no committed entry, on every branch.
pub append_entries-Grows :
    (args : AppendEntriesArgs) (n : Node)
    → IsSound n
    → IndexedFrom args.prev_log_index args.entries
    → Grows n (handle_append_entries args n).0
unfolding handle_append_entries
append_entries-Grows args n s ix =
    let n1 = accept_leader args.term args.leader_id args.leader_addr n in
    let same = frame-accept_leader args.term args.leader_id args.leader_addr n in
    let x = Grows-frame n n1 s same in
    elim (Bool-cases (ltb args.term n.current_term)) [
      | inl stale ↦ simp stale (Grows-frame n n s refl)
      | inr fresh ↦
          elim (Bool-cases (prev_mismatch args.prev_log_index args.prev_log_term n1.log)) [
            | inl gap ↦ simp (fresh, gap) x
            | inr fits ↦
                simp (fresh, fits)
                  (Grows-trans n n1 (append_accepted args n1).0 x (
                    append_accepted-Grows args n1 x.sound ix
                      (prev_le args.prev_log_index args.prev_log_term n1.log fits)))
          ]
    ]

-- A heartbeat keeps a sound replica sound, takes back no commit and changes no committed entry.
pub heartbeat-Grows :
    (args : HeartbeatArgs) (n : Node) → IsSound n → Grows n (handle_heartbeat args n).0
unfolding handle_heartbeat
heartbeat-Grows args n s =
    let n1 = accept_leader args.term args.leader_id args.leader_addr n in
    let x = Grows-frame n n1 s (frame-accept_leader args.term args.leader_id args.leader_addr n) in
    elim (Bool-cases (ltb args.term n.current_term)) [
      | inl stale ↦ simp stale (Grows-frame n n s refl)
      | inr fresh ↦ simp fresh (
          Grows-trans n n1 (advance_commit args.leader_commit n1) x
            (advance_commit-Grows args.leader_commit n1 x.sound))
    ]
