-- ===== src/Node/Follower/Committed.antt =====
-- The commit index and the committed entries across snapshots that arrive and across a catch-up.
use quorum_canvas.Base.{
  ℕ, suc, ◌+◌, ◌≤◌, ◌<◌, ◌≡◌, refl, sym, ◌∙◌, inl, inr, true, false, Option, none, some, List, [],
  ◌∷◌, arith, ltb, leb, length, Bool-cases, Option-cases, dec_lt,
}
use quorum_canvas.Types.{LogEntry, Snapshot, BoardRecord, InstallSnapshotArgs, SyncLogResult}
use quorum_canvas.RaftLog
use quorum_canvas.RaftLog.{RaftLog, entries_above}
use quorum_canvas.RaftLog.Contiguous.{IndexedFrom, IsContiguous}
use quorum_canvas.Node.{Node, persist_state, accept_leader}
use quorum_canvas.Node.Vote.{adopt_term}
use quorum_canvas.Node.Append.{append_entry}
use quorum_canvas.Node.Append.Entries.{Extends, Extends-refl, Extends-trans, append_entry-Placed}
use quorum_canvas.Node.Append.Commit.{
  IsSound, Grows, Grows-trans, Grows-frame, frame, frame-accept_leader, last_index-frame,
  Extends-Grows, advance_commit-Grows,
}
use quorum_canvas.Node.Follower.{
  apply_snapshot, handle_install_snapshot, committed_entries, catch_up_entry, catch_up_loop,
  install_pulled, catch_up,
}

pub entries_above_all :
    (i b : ℕ) (es : List LogEntry) → i ≤ b → IndexedFrom b es → entries_above i es ≡ es
unfolding entries_above
entries_above_all i b [] h ix = refl
entries_above_all i b (e ∷ es) h ix =
    ground (arith, entries_above_all i (suc b) es (omega arith) ix.1, ix.0)

-- What is left of a contiguous list above an index goes on from there and reaches as far.
IndexedFrom-entries_above :
    (i b : ℕ) (es : List LogEntry)
    → b ≤ i
    → IndexedFrom b es
    → IndexedFrom i (entries_above i es) × (b + length es ≤ i + length (entries_above i es))
unfolding entries_above
IndexedFrom-entries_above i b [] h ix = (tt, omega arith)
IndexedFrom-entries_above i b (e ∷ es) h ix = elim (dec_lt b i) [
  | yes more ↦
      let (x, y) = IndexedFrom-entries_above i (suc b) es more ix.1 in
      let gone : ltb i e.index ≡ false = ground (arith, ix.0) in simp gone (x, omega arith)
  | no here ↦
      let same : i ≡ b = omega arith in
      let kept : ltb i e.index ≡ true = ground (arith, ix.0) in
      let rest = entries_above_all i (suc b) es (omega arith) ix.1 in
      simp (kept, rest) (rw same ix, omega arith)
]

apply_snapshot-Grows :
    (i t : ℕ) (boards : BoardRecord) (n : Node)
    → IsSound n
    → n.commit_index < i
    → Grows n (apply_snapshot i t boards n)
      × (RaftLog.get_last_index n.log ≤ RaftLog.get_last_index (apply_snapshot i t boards n).log)
unfolding apply_snapshot persist_state RaftLog.install_snapshot RaftLog.get_entry
    RaftLog.get_last_index
apply_snapshot-Grows i t boards n s new =
    let covered = s.covered in
    let (x, reach) =
      IndexedFrom-entries_above i (n.log).last_included_index (n.log).entries (omega arith)
        s.contiguous in
    (
      record {
        sound = record {
          contiguous = x;
          covered = omega arith;
          logged = omega arith;
          applied = refl;
        };
        commit = omega arith;
        boundary = omega arith;
        kept = λ j above below. absurd (omega arith);
      },
      reach,
    )

-- A snapshot from the leader keeps a sound replica sound and takes back no commit.
pub install_snapshot-Grows :
    (args : InstallSnapshotArgs) (n : Node) → IsSound n → Grows n (handle_install_snapshot args n).0
unfolding handle_install_snapshot
install_snapshot-Grows args n s =
    let n1 = accept_leader args.term args.leader_id none n in
    let x = Grows-frame n n1 s (frame-accept_leader args.term args.leader_id none n) in
    elim (Bool-cases (ltb args.term n.current_term)) [
      | inl stale ↦ simp stale (Grows-frame n n s refl)
      | inr fresh ↦ elim (Bool-cases (leb args.last_included_index n1.commit_index)) [
        | inl old ↦ simp (fresh, old) x
        | inr new ↦
            simp (fresh, new)
              (Grows-trans n n1 _ x
                (apply_snapshot-Grows args.last_included_index args.last_included_term args.boards
                  n1 x.sound (ground arith)).0)
      ]
    ]

committed_entries_none :
    (c p : ℕ) (es : List LogEntry) → c ≤ p → IndexedFrom p es → committed_entries c es ≡ []
unfolding committed_entries
committed_entries_none c p [] h ix = refl
committed_entries_none c p (e ∷ es) h ix =
    ground (arith, committed_entries_none c (suc p) es (omega arith) ix.1, ix.0)

IndexedFrom-committed_entries :
    (c p : ℕ) (es : List LogEntry) → IndexedFrom p es → IndexedFrom p (committed_entries c es)
unfolding committed_entries
IndexedFrom-committed_entries c p [] ix = tt
IndexedFrom-committed_entries c p (e ∷ es) ix = elim (Bool-cases (leb e.index c)) [
  | inl within ↦ simp within (ix.0, IndexedFrom-committed_entries c (suc p) es ix.1)
  | inr beyond ↦
      let rest = committed_entries_none c (suc p) es (ground (arith, ix.0)) ix.1 in
      simp (beyond, rest) tt
]

-- A round either does what a round of AppendEntries does, or passes over a committed entry.
catch_up_entry-some :
    (b c : ℕ) (e : LogEntry) (l l' : RaftLog)
    → append_entry b c e l ≡ some l'
    → catch_up_entry b c e l ≡ l'
unfolding append_entry catch_up_entry
catch_up_entry-some b c e l l' h = ground arith

catch_up_entry-none :
    (b c : ℕ) (e : LogEntry) (l : RaftLog)
    → append_entry b c e l ≡ none
    → (catch_up_entry b c e l ≡ l) × (e.index ≤ c)
unfolding append_entry catch_up_entry
catch_up_entry-none b c e l h = ground arith

catch_up_entry-Extends :
    (c p : ℕ) (e : LogEntry) (l : RaftLog)
    → IsContiguous l
    → e.index ≡ suc p
    → p ≤ RaftLog.get_last_index l
    → c ≤ RaftLog.get_last_index l
    → let l' = catch_up_entry l.last_included_index c e l in
      Extends c p l l' × (suc p ≤ RaftLog.get_last_index l')
catch_up_entry-Extends c p e l h at within committed =
    elim (Option-cases (append_entry l.last_included_index c e l)) [
      | inl stops ↦
          let (same, low) = catch_up_entry-none l.last_included_index c e l stops in
          rw same (Extends-refl c p l h committed within, omega arith)
      | inr (l', goes) ↦
          let x = append_entry-Placed c p e l h at within committed goes in
          rw (catch_up_entry-some l.last_included_index c e l l' goes) (x.0, x.1)
    ]

catch_up_loop-Extends :
    (b c p : ℕ) (es : List LogEntry) (l : RaftLog)
    → b ≡ l.last_included_index
    → IsContiguous l
    → IndexedFrom p es
    → p ≤ RaftLog.get_last_index l
    → c ≤ RaftLog.get_last_index l
    → Extends c p l (catch_up_loop b c es l)
unfolding catch_up_loop
catch_up_loop-Extends b c p [] l eq h ix within committed = Extends-refl c p l h committed within
catch_up_loop-Extends b c p (e ∷ es) l eq h ix within committed =
    let l' = catch_up_entry b c e l in
    let (x, y) : Extends c p l l' × (suc p ≤ RaftLog.get_last_index l') =
      rw eq (catch_up_entry-Extends c p e l h ix.0 within committed) in
    Extends-trans c p l l' _ x (
      catch_up_loop-Extends b c (suc p) es l' (eq ∙ sym x.boundary) x.contiguous ix.1 y x.reaches.0)

install_pulled-Grows :
    (s : Option Snapshot) (n : Node)
    → IsSound n
    → Grows n (install_pulled s n)
      × (RaftLog.get_last_index n.log ≤ RaftLog.get_last_index (install_pulled s n).log)
unfolding install_pulled
install_pulled-Grows none n h = (Grows-frame n n h refl, omega arith)
install_pulled-Grows (some s) n h = elim (Bool-cases (ltb n.commit_index s.last_included_index)) [
  | inl new ↦
      simp new (
        apply_snapshot-Grows s.last_included_index s.last_included_term s.boards n h (ground arith))
  | inr old ↦ simp old (Grows-frame n n h refl, omega arith)
]

pub frame-adopt_term : (t : ℕ) (n : Node) → frame (adopt_term t n) ≡ frame n
unfolding adopt_term
frame-adopt_term t n = ground arith

-- The part of a catch-up that writes the log, before the commit index moves.
caught_up-Grows :
    (r : SyncLogResult) (p : ℕ) (n : Node)
    → IsSound n
    → IndexedFrom p r.entries
    → p ≤ RaftLog.get_last_index n.log
    → let n1 = install_pulled r.snapshot (adopt_term r.term n) in
      Grows n (record n1 {
        log =
            catch_up_loop
              (n1.log).last_included_index
              n1.commit_index
              (committed_entries r.commit_index r.entries)
              n1.log;
      })
caught_up-Grows r p n s ix within =
    let n0 = adopt_term r.term n in
    let same = frame-adopt_term r.term n in
    let x0 = Grows-frame n n0 s same in
    let n1 = install_pulled r.snapshot n0 in
    let (x1, reach) = install_pulled-Grows r.snapshot n0 x0.sound in
    let es = committed_entries r.commit_index r.entries in
    let y =
      catch_up_loop-Extends (n1.log).last_included_index n1.commit_index p es n1.log refl
        x1.sound.contiguous (IndexedFrom-committed_entries r.commit_index p r.entries ix)
        (omega (arith, reach, last_index-frame n n0 same)) x1.sound.logged in
    Grows-trans n n0 _ x0 (Grows-trans n0 n1 _ x1 (Extends-Grows n1 _ p x1.sound y))

pub caught_up-IsSound :
    (r : SyncLogResult) (p : ℕ) (n : Node)
    → IsSound n
    → IndexedFrom p r.entries
    → p ≤ RaftLog.get_last_index n.log
    → let n1 = install_pulled r.snapshot (adopt_term r.term n) in
      IsSound (record n1 {
        log =
            catch_up_loop
              (n1.log).last_included_index
              n1.commit_index
              (committed_entries r.commit_index r.entries)
              n1.log;
      })
caught_up-IsSound r p n s ix within = (caught_up-Grows r p n s ix within).sound

-- A catch-up whose entries go on from an index that the log has keeps a sound replica sound, takes
-- back no commit and changes no committed entry.
pub catch_up-Grows :
    (r : SyncLogResult) (p : ℕ) (n : Node)
    → IsSound n
    → IndexedFrom p r.entries
    → p ≤ RaftLog.get_last_index n.log
    → Grows n (catch_up r n)
unfolding catch_up
catch_up-Grows r p n s ix within =
    let x = caught_up-Grows r p n s ix within in
    Grows-trans n _ _ x (advance_commit-Grows r.commit_index _ x.sound)
