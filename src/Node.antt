-- ===== src/Node.antt =====
-- The state of `RaftNode` in replica/src/raftNode.ts and the steps that its handlers share: saving the
-- state, the changes of role, applying committed entries and taking snapshots.
pub mod Vote
pub mod Append
pub mod Leader
pub mod Follower
pub mod Reads
pub mod Step
pub mod Routes
use quorum_canvas.Base.{
  ℕ, zero, suc, ◌+◌, ◌-◌, ◌/◌, min, max, String, Bool, true, false, ◌&&◌, ◌||◌, not, Option, none,
  some, List, [], ◌∷◌, ◌++◌, ltb, leb, ◌==◌, if◌then◌else◌, length,
}
use quorum_canvas.Map
use quorum_canvas.Types.{
  NodeState, follower, candidate, leader, LogEntry, Snapshot, PersistedState, BoardRecord, Stroke,
  ReplicaStatus,
}
use quorum_canvas.Board.{Boards, no_boards, apply_board_event, restore_board_state, snapshot_boards}
use quorum_canvas.Persistence.{Persistence, load_state, save_state, load_snapshot, save_snapshot}
use quorum_canvas.RaftLog
use quorum_canvas.RaftLog.{RaftLog}

-- The constructor's arguments.
pub record Config : Type 0 where
  pub replica_id : String
  pub peers : List String
  pub snapshot_threshold : ℕ
  pub self_url : String
  pub batch_cap : ℕ

-- replica/src/electionTimer.ts: which timers are pending, and whether the election timer has a
-- callback. The length of a timeout is drawn elsewhere and is not kept.
pub record Timers : Type 0 where
  pub election_timer : Bool
  pub heartbeat_timer : Bool
  pub election_callback : Bool

unfoldable pub reset_election_timer : Timers → Timers
reset_election_timer t = record t { election_timer = t.election_callback }

unfoldable pub start_election_timer : Timers → Timers
unfolding reset_election_timer
start_election_timer t = reset_election_timer (record t { election_callback = true })

unfoldable pub stop_election_timer : Timers → Timers
stop_election_timer t = record t { election_timer = false }

unfoldable pub stop_heartbeat : Timers → Timers
stop_heartbeat t = record t { heartbeat_timer = false }

unfoldable pub start_heartbeat : Timers → Timers
unfolding stop_heartbeat
start_heartbeat t = record (stop_heartbeat t) { heartbeat_timer = true }

-- `replicating` holds the peers with a replication RPC in flight.
pub record Node : Type 0 where
  pub config : Config
  pub open config use *
  pub current_term : ℕ
  pub voted_for : Option String
  pub log : RaftLog
  pub state : NodeState
  pub leader_id : Option String
  pub leader_addr : Option String
  pub commit_index : ℕ
  pub last_applied : ℕ
  pub next_index : List (String × ℕ)
  pub match_index : List (String × ℕ)
  pub replicating : List String
  pub boards : Boards
  pub timers : Timers

abbrev pub is_leader : NodeState → Bool
is_leader leader = true
is_leader _ = false

abbrev pub is_follower : NodeState → Bool
is_follower follower = true
is_follower _ = false

abbrev pub is_candidate : NodeState → Bool
is_candidate candidate = true
is_candidate _ = false

-- `leaderAddr ?? undefined` and the assignments that `!== undefined` guards.
abbrev pub or_else {ℓ} : {A : Type ℓ} → Option A → Option A → Option A
or_else none d = d
or_else (some a) d = some a

-- `log` and `this.persistence` share one object, so the write goes through the log.
unfoldable pub persist_state : Node → Node
persist_state n = record n {
  log = record (n.log) {
    persistence =
        save_state
          (record {
            current_term = n.current_term;
            voted_for = n.voted_for;
            commit_index = n.commit_index;
          })
          (n.log).persistence;
  };
}

unfoldable pub reset_election : Node → Node
reset_election n = record n { timers = reset_election_timer n.timers }

unfoldable pub become_follower : ℕ → Option String → Option String → Node → Node
unfolding persist_state
become_follower term leader_id leader_addr n =
    let saved = persist_state (record n {
      state = follower;
      current_term = term;
      voted_for = none;
      leader_id = or_else leader_id n.leader_id;
      leader_addr = or_else leader_addr n.leader_addr;
    }) in
    record saved {
      timers =
          reset_election_timer (if is_leader n.state then stop_heartbeat n.timers else n.timers);
    }

unfoldable pub become_candidate : Node → Node
unfolding persist_state
become_candidate n = persist_state (record n {
  state = candidate;
  current_term = n.current_term + 1;
  voted_for = some n.replica_id;
  leader_id = none;
})

-- `for (const peer of peers) map.set(peer, v)`
unfoldable pub set_all : ℕ → List String → List (String × ℕ) → List (String × ℕ)
set_all v [] m = m
set_all v (p ∷ ps) m = set_all v ps (Map.set p v m)

unfoldable pub become_leader : Node → Node
unfolding set_all
become_leader n = record n {
  state = leader;
  leader_id = some n.replica_id;
  leader_addr = some n.self_url;
  next_index = set_all (RaftLog.get_last_index n.log + 1) n.peers n.next_index;
  match_index = set_all 0 n.peers n.match_index;
  timers = start_heartbeat (stop_election_timer n.timers);
}

-- `Math.floor((this.peers.length + 1) / 2) + 1`
unfoldable pub majority : Node → ℕ
majority n = (length n.peers + 1) / 2 + 1

apply_entry : Option LogEntry → Boards → Boards
apply_entry none b = b
apply_entry (some e) b = apply_board_event b e.stroke

-- The loop of `applyCommitted`, by the rounds that are left: it starts with
-- `commitIndex - lastApplied` of them, and each raises `lastApplied` by one.
unfoldable pub apply_entries : ℕ → RaftLog → ℕ → Boards → Boards
unfolding apply_entry
apply_entries zero log applied b = b
apply_entries (suc rounds) log applied b =
    apply_entries rounds log (applied + 1) (apply_entry (RaftLog.get_entry (applied + 1) log) b)

unfoldable pub take_snapshot : Node → Node
take_snapshot n =
    let term = RaftLog.get_term_at n.commit_index n.log in
    let snapshot : Snapshot = record {
      last_included_index = n.commit_index;
      last_included_term = term;
      boards = snapshot_boards n.boards;
    } in
    record n {
      log =
          RaftLog.compact n.commit_index term
            (record (n.log) { persistence = save_snapshot snapshot (n.log).persistence });
    }

-- `commitIndex - lastIncludedIndex < snapshotThreshold`, with the difference moved over.
unfoldable pub maybe_snapshot : Node → Node
maybe_snapshot n =
    if ltb n.commit_index (n.snapshot_threshold + (n.log).last_included_index)
    then n
    else take_snapshot n

unfoldable pub apply_committed : Node → Node
apply_committed n = maybe_snapshot (record n {
  boards = apply_entries (n.commit_index - n.last_applied) n.log n.last_applied n.boards;
  last_applied = max n.last_applied n.commit_index;
})

-- The constructor: the log, the snapshot and the saved state are read back, and what is committed is
-- applied.
unfoldable pub construct_from : Config → RaftLog → PersistedState → Option Snapshot → Node
construct_from c log saved snapshot = apply_committed (record {
  config = c;
  current_term = saved.current_term;
  voted_for = saved.voted_for;
  log = log;
  state = follower;
  leader_id = none;
  leader_addr = none;
  commit_index = max saved.commit_index log.last_included_index;
  last_applied = elim snapshot [ none ↦ 0 | some s ↦ s.last_included_index ];
  next_index = [];
  match_index = [];
  replicating = [];
  boards = elim snapshot [ none ↦ no_boards | some s ↦ restore_board_state s.boards ];
  timers = record { election_timer = false; heartbeat_timer = false; election_callback = false };
})

unfoldable pub construct : Config → Persistence → Node
construct c p = construct_from c (RaftLog.open_log p) (load_state p) (load_snapshot p)

unfoldable pub start : Node → Node
start n = record n { timers = start_election_timer n.timers }

unfoldable pub stop : Node → Node
stop n = record n { timers = stop_heartbeat (stop_election_timer n.timers) }

-- The three statements that move the commit index: assign, save and apply.
unfoldable pub commit_at : ℕ → Node → Node
commit_at i n = apply_committed (persist_state (record n { commit_index = i }))

-- A follower takes over a leader's commit index, as far as its log goes.
unfoldable pub advance_commit : ℕ → Node → Node
advance_commit leader_commit n =
    if ltb n.commit_index leader_commit
    then commit_at (min leader_commit (RaftLog.get_last_index n.log)) n
    else n

-- The common opening of `handleAppendEntries`, `handleHeartbeat` and `handleInstallSnapshot` (which
-- has no address), past the check for a stale term.
unfoldable pub accept_leader : ℕ → String → Option String → Node → Node
unfolding become_follower reset_election
accept_leader term leader_id leader_addr n =
    if ltb n.current_term term || not (is_follower n.state)
    then become_follower term (some leader_id) leader_addr n
    else reset_election
        (record n { leader_id = some leader_id; leader_addr = or_else leader_addr n.leader_addr })

unfoldable pub is_ready : Node → Bool
is_ready n =
    is_leader n.state || (is_follower n.state && elim n.leader_id [ none ↦ false | some _ ↦ true ])

unfoldable pub get_status : Node → ReplicaStatus
get_status n = record {
  replica_id = n.replica_id;
  state = n.state;
  current_term = n.current_term;
  leader_id = n.leader_id;
  log_length = RaftLog.get_length n.log;
  commit_index = n.commit_index;
  last_applied = n.last_applied;
}
