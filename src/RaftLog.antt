-- ===== src/RaftLog.antt =====
-- replica/src/raftLog.ts: the entries after the snapshot boundary, under absolute log indices. The
-- `persistence` object that `RaftLog` and `RaftNode` share is kept here.
pub mod Contiguous
use quorum_canvas.Base.{
  ℕ, suc, ◌+◌, ◌-◌, Bool, ◌||◌, Option, none, some, List, [], ◌∷◌, ◌++◌, filter, arith, dec_lt, ltb,
  leb, ◌==◌, if◌then◌else◌, length, get_elem?, take, drop,
}
use quorum_canvas.Types.{LogEntry, Snapshot}
use quorum_canvas.Persistence.{Persistence, load_log, load_snapshot, append_log, rewrite_log}

pub record RaftLog : Type 0 where
  pub entries : List LogEntry
  pub last_included_index : ℕ
  pub last_included_term : ℕ
  pub persistence : Persistence

-- `entries.filter((e) => e.index > boundary)`
unfoldable pub entries_above : ℕ → List LogEntry → List LogEntry
entries_above b [] = []
entries_above b (e ∷ es) = if ltb b e.index then e ∷ entries_above b es else entries_above b es

from_snapshot : Option Snapshot → Persistence → RaftLog
unfolding entries_above
from_snapshot none p = record {
  entries = load_log p;
  last_included_index = 0;
  last_included_term = 0;
  persistence = p;
}
from_snapshot (some s) p = record {
  entries = entries_above s.last_included_index (load_log p);
  last_included_index = s.last_included_index;
  last_included_term = s.last_included_term;
  persistence = p;
}

-- The constructor.
unfoldable pub open_log : Persistence → RaftLog
unfolding from_snapshot
open_log p = from_snapshot (load_snapshot p) p

unfoldable pub append : LogEntry → RaftLog → RaftLog
append e l = record l { entries = l.entries ++ e ∷ []; persistence = append_log e l.persistence }

-- The index is above the boundary where the subtraction is made, so it does not stop at 0.
unfoldable pub get_entry : ℕ → RaftLog → Option LogEntry
get_entry i l =
    if leb i l.last_included_index
    then none
    else get_elem? l.entries (i - l.last_included_index - 1)

-- `getEntry(index)?.term ?? 0`
abbrev pub term_or_zero : Option LogEntry → ℕ
term_or_zero none = 0
term_or_zero (some e) = e.term

unfoldable pub get_term_at : ℕ → RaftLog → ℕ
unfolding get_entry
get_term_at i l =
    if i == l.last_included_index then l.last_included_term else term_or_zero (get_entry i l)

unfoldable pub get_last_index : RaftLog → ℕ
get_last_index l = l.last_included_index + length l.entries

-- The term of the last entry of a list, or `t` if it is empty.
unfoldable pub last_term_of : ℕ → List LogEntry → ℕ
last_term_of t [] = t
last_term_of t (e ∷ es) = last_term_of e.term es

unfoldable pub get_last_term : RaftLog → ℕ
unfolding last_term_of
get_last_term l = last_term_of l.last_included_term l.entries

unfoldable pub get_entries_from : ℕ → RaftLog → List LogEntry
get_entries_from start l =
    let from = if leb start l.last_included_index then l.last_included_index + 1 else start in
    drop (from - l.last_included_index - 1) l.entries

unfoldable pub truncate_from : ℕ → RaftLog → RaftLog
unfolding get_last_index
truncate_from i l =
    let kept = take (i - l.last_included_index - 1) l.entries in
    if leb i l.last_included_index || ltb (get_last_index l) i
    then l
    else record l { entries = kept; persistence = rewrite_log kept l.persistence }

unfoldable pub get_length : RaftLog → ℕ
get_length l = length l.entries

unfoldable pub compact : ℕ → ℕ → RaftLog → RaftLog
compact upto term l =
    let kept = drop (upto - l.last_included_index) l.entries in
    if leb upto l.last_included_index then l else record l {
      entries = kept;
      last_included_index = upto;
      last_included_term = term;
      persistence = rewrite_log kept l.persistence;
    }

unfoldable pub install_snapshot : ℕ → ℕ → RaftLog → RaftLog
unfolding entries_above
install_snapshot index term l =
    let kept = entries_above index l.entries in
    record {
      entries = kept;
      last_included_index = index;
      last_included_term = term;
      persistence = rewrite_log kept l.persistence;
    }
