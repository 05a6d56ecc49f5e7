-- ===== src/Node/Step/Saved.antt =====
-- What state.json holds while the log is written.
use quorum_canvas.Base.{
  ℕ, ◌≡◌, refl, ◌∙◌, Option, none, some, List, [], ◌∷◌, arith, Option-cases, inl, inr,
}
use quorum_canvas.Types.{LogEntry, Snapshot, PersistedState}
use quorum_canvas.Persistence.{
  Persistence, memory, file, state_or_initial, save_state, append_log, rewrite_log, save_snapshot,
}
use quorum_canvas.RaftLog
use quorum_canvas.RaftLog.{RaftLog}
use quorum_canvas.Node.{Node}
use quorum_canvas.Node.Append.{append_missing, append_entry, append_loop}
use quorum_canvas.Node.Follower.{catch_up_entry, catch_up_loop}

-- What a restart reads from state.json, where the replica has a directory for its files: the initial
-- state while there is no such file.
abbrev pub saved : Persistence → Option PersistedState
saved memory = none
saved (file d) = some (state_or_initial d.state)

abbrev pub memory_state : Node → PersistedState
memory_state n = record {
  current_term = n.current_term;
  voted_for = n.voted_for;
  commit_index = n.commit_index;
}

-- The term, the vote and the commit index that the node acts on are the ones that a restart reads.
abbrev pub IsSynced : Node → Type 0
IsSynced n = saved (n.log).persistence ≡ some (memory_state n)

pub saved-save_state :
    (s x : PersistedState) (p : Persistence) → saved p ≡ some x → saved (save_state s p) ≡ some s
unfolding save_state
saved-save_state s x memory h = ground arith
saved-save_state s x (file d) h = refl

pub saved-append_log : (e : LogEntry) (p : Persistence) → saved (append_log e p) ≡ saved p
unfolding append_log
saved-append_log e memory = refl
saved-append_log e (file d) = refl

pub saved-rewrite_log : (es : List LogEntry) (p : Persistence) → saved (rewrite_log es p) ≡ saved p
unfolding rewrite_log
saved-rewrite_log es memory = refl
saved-rewrite_log es (file d) = refl

pub saved-save_snapshot : (s : Snapshot) (p : Persistence) → saved (save_snapshot s p) ≡ saved p
unfolding save_snapshot
saved-save_snapshot s memory = refl
saved-save_snapshot s (file d) = refl

abbrev pub kept : RaftLog → Option PersistedState
kept l = saved l.persistence

pub kept-append : (e : LogEntry) (l : RaftLog) → kept (RaftLog.append e l) ≡ kept l
unfolding RaftLog.append
kept-append e l = saved-append_log e l.persistence

pub kept-truncate_from : (i : ℕ) (l : RaftLog) → kept (RaftLog.truncate_from i l) ≡ kept l
unfolding RaftLog.truncate_from
kept-truncate_from i l = grind (arith, saved-rewrite_log)

pub kept-compact : (i t : ℕ) (l : RaftLog) → kept (RaftLog.compact i t l) ≡ kept l
unfolding RaftLog.compact
kept-compact i t l = grind (arith, saved-rewrite_log)

pub kept-install_snapshot : (i t : ℕ) (l : RaftLog) → kept (RaftLog.install_snapshot i t l) ≡ kept l
unfolding RaftLog.install_snapshot
kept-install_snapshot i t l = saved-rewrite_log _ l.persistence

pub kept-append_missing : (e : LogEntry) (l : RaftLog) → kept (append_missing e l) ≡ kept l
unfolding append_missing
kept-append_missing e l = ground (arith, kept-append e l)

pub kept-append_entry :
    (b c : ℕ) (e : LogEntry) (l : RaftLog) {l' : RaftLog}
    → append_entry b c e l ≡ some l'
    → kept l' ≡ kept l
unfolding append_entry
kept-append_entry b c e l h = ground (
  arith,
  kept-append_missing e l,
  kept-append_missing e (RaftLog.truncate_from e.index l),
  kept-truncate_from e.index l,
)

pub kept-append_loop :
    (b c : ℕ) (es : List LogEntry) (l : RaftLog) → kept (append_loop b c es l).0 ≡ kept l
unfolding append_loop
kept-append_loop b c [] l = refl
kept-append_loop b c (e ∷ es) l = elim (Option-cases (append_entry b c e l)) [
  | inl stops ↦ rw (stops, append_loop)
  | inr (l', goes) ↦
      rw (goes, append_loop) (kept-append_loop b c es l' ∙ kept-append_entry b c e l goes)
]

pub kept-catch_up_entry :
    (b c : ℕ) (e : LogEntry) (l : RaftLog) → kept (catch_up_entry b c e l) ≡ kept l
unfolding catch_up_entry
kept-catch_up_entry b c e l = ground (
  arith,
  kept-append_missing e l,
  kept-append_missing e (RaftLog.truncate_from e.index l),
  kept-truncate_from e.index l,
)

pub kept-catch_up_loop :
    (b c : ℕ) (es : List LogEntry) (l : RaftLog) → kept (catch_up_loop b c es l) ≡ kept l
unfolding catch_up_loop
kept-catch_up_loop b c [] l = refl
kept-catch_up_loop b c (e ∷ es) l =
    kept-catch_up_loop b c es (catch_up_entry b c e l) ∙ kept-catch_up_entry b c e l
