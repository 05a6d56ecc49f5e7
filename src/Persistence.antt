-- ===== src/Persistence.antt =====
-- The `Persistence` interface of replica/src/persistence.ts, with a constructor for each class that
-- implements it. A `Disk` is what the three files of a `FilePersistence` hold once parsed; Wal.antt
-- has the log file as text.
use quorum_canvas.Base.{Option, none, some, List, [], ◌∷◌, ◌++◌}
use quorum_canvas.Types.{LogEntry, Snapshot, PersistedState}

-- state.json, log.jsonl and snapshot.json; `none` where a file does not exist.
pub record Disk : Type 0 where
  pub state : Option PersistedState
  pub wal : List LogEntry
  pub snapshot : Option Snapshot

pub data Persistence : Type 0 where
  memory : Persistence
  file : Disk → Persistence

abbrev pub initial_state : PersistedState
initial_state = record { current_term = 0; voted_for = none; commit_index = 0 }

-- `existsSync` fails: the initial state.
abbrev pub state_or_initial : Option PersistedState → PersistedState
state_or_initial none = initial_state
state_or_initial (some s) = s

unfoldable pub load_state : Persistence → PersistedState
load_state memory = initial_state
load_state (file d) = state_or_initial d.state

unfoldable pub save_state : PersistedState → Persistence → Persistence
save_state s memory = memory
save_state s (file d) = file (record d { state = some s })

unfoldable pub load_log : Persistence → List LogEntry
load_log memory = []
load_log (file d) = d.wal

unfoldable pub append_log : LogEntry → Persistence → Persistence
append_log e memory = memory
append_log e (file d) = file (record d { wal = d.wal ++ e ∷ [] })

unfoldable pub rewrite_log : List LogEntry → Persistence → Persistence
rewrite_log es memory = memory
rewrite_log es (file d) = file (record d { wal = es })

unfoldable pub load_snapshot : Persistence → Option Snapshot
load_snapshot memory = none
load_snapshot (file d) = d.snapshot

unfoldable pub save_snapshot : Snapshot → Persistence → Persistence
save_snapshot s memory = memory
save_snapshot s (file d) = file (record d { snapshot = some s })
