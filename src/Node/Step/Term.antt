-- ===== src/Node/Step/Term.antt =====
-- What no step does to the term and to the vote of a term.
use quorum_canvas.Base.{
  ℕ, ◌+◌, ◌-◌, min, ◌≤◌, ◌<◌, ◌≡◌, refl, ◌⊎◌, String, Option, none, some, List, [], ◌∷◌, arith,
  eq_iff, if◌then◌else◌, Option-cases, inl, inr,
}
use quorum_canvas.Types.{
  NodeState, follower, Snapshot, BoardRecord, RequestVoteArgs, RequestVoteResult, AppendEntriesArgs,
  HeartbeatArgs, HeartbeatResult, InstallSnapshotArgs, InstallSnapshotResult, SyncLogArgs,
  SyncLogResult, LogEntry, AppendEntriesResult,
}
use quorum_canvas.RaftLog
use quorum_canvas.Node.{
  Node, Config, apply_committed, advance_commit, accept_leader, become_follower, persist_state,
  take_snapshot, maybe_snapshot, commit_at, start, stop,
}
use quorum_canvas.Node.Vote.{
  Election, on_election_timeout, on_vote_settled, adopt_term, may_vote_for, can_vote, grant_vote,
  handle_request_vote,
}
use quorum_canvas.Node.Append.{
  append_loop, append_accepted, handle_append_entries, handle_heartbeat,
}
use quorum_canvas.Node.Follower.{
  apply_snapshot, handle_install_snapshot, handle_sync_log, install_pulled, committed_entries,
  catch_up_loop, catch_up,
}
use quorum_canvas.Node.Leader.{
  on_append_reply, on_snapshot_reply, drive_replication, replication_done, find_committable,
  update_commit_index, append_own,
}
use quorum_canvas.Node.Reads.{count_acks}
use quorum_canvas.Node.Step.{Event, step, run}

-- The fields that decide a ballot: the term, the vote and the role, and the configuration.
pub record Ballot : Type 0 where
  pub config : Config
  pub term : ℕ
  pub vote : Option String
  pub role : NodeState

abbrev pub ballot : Node → Ballot
ballot n = record { config = n.config; term = n.current_term; vote = n.voted_for; role = n.state }

pub ballot-apply_committed : (n : Node) → ballot (apply_committed n) ≡ ballot n
unfolding apply_committed maybe_snapshot take_snapshot
ballot-apply_committed n = ground arith

ballot-commit_at : (i : ℕ) (n : Node) → ballot (commit_at i n) ≡ ballot n
unfolding commit_at persist_state
ballot-commit_at i n = ballot-apply_committed _

pub ballot-advance_commit : (c : ℕ) (n : Node) → ballot (advance_commit c n) ≡ ballot n
unfolding advance_commit
ballot-advance_commit c n =
    ground (arith, ballot-commit_at (min c (RaftLog.get_last_index n.log)) n)

pub ballot-update_commit_index : (n : Node) → ballot (update_commit_index n) ≡ ballot n
unfolding update_commit_index
ballot-update_commit_index n =
    elim (Option-cases (find_committable (RaftLog.get_last_index n.log - n.commit_index) n)) [
      | inl e ↦ rw (e, update_commit_index)
      | inr (i, e) ↦ rw (e, update_commit_index) (ballot-commit_at i n)
    ]

pub ballot-apply_snapshot :
    (i t : ℕ) (boards : BoardRecord) (n : Node) → ballot (apply_snapshot i t boards n) ≡ ballot n
unfolding apply_snapshot persist_state
ballot-apply_snapshot i t boards n = refl

-- The term rises; or it stays, and then a follower stays one and keeps a vote that it has cast.
abbrev pub Advances : Ballot → Ballot → Type 0
Advances a b =
    (a.term < b.term)
    ⊎ ((a.term ≡ b.term)
        × (a.role ≡ follower → (b.role ≡ follower) × ((a.vote ≡ none) ⊎ (b.vote ≡ a.vote))))

Advances-trans : (a b c : Ballot) → Advances a b → Advances b c → Advances a c
Advances-trans a b c h k = ground arith

accept_leader-Advances :
    (term : ℕ) (id : String) (addr : Option String) (n : Node)
    → n.current_term ≤ term
    → Advances (ballot n) (ballot (accept_leader term id addr n))
unfolding accept_leader
accept_leader-Advances term id addr n h = ground arith

adopt_term-Advances : (term : ℕ) (n : Node) → Advances (ballot n) (ballot (adopt_term term n))
unfolding adopt_term
adopt_term-Advances term n = ground arith

request_vote-Advances :
    (args : RequestVoteArgs) (n : Node)
    → Advances (ballot n) (ballot (handle_request_vote args n).0)
unfolding handle_request_vote adopt_term can_vote may_vote_for grant_vote persist_state
request_vote-Advances args n = elim (Option-cases n.voted_for) [
  | inl e ↦ ground arith
  | inr (v, e) ↦ ground (arith, eq_iff v args.candidate_id)
]

pub ballot-append_accepted :
    (args : AppendEntriesArgs) (n : Node) → ballot (append_accepted args n).0 ≡ ballot n
unfolding append_accepted
ballot-append_accepted args n = ground (
  arith,
  ballot-advance_commit args.leader_commit (record n {
    log = (append_loop (n.log).last_included_index n.commit_index args.entries n.log).0;
  }),
)

append_entries-Advances :
    (args : AppendEntriesArgs) (n : Node)
    → Advances (ballot n) (ballot (handle_append_entries args n).0)
unfolding handle_append_entries
append_entries-Advances args n = ground (
  arith,
  accept_leader-Advances args.term args.leader_id args.leader_addr n,
  ballot-append_accepted args (accept_leader args.term args.leader_id args.leader_addr n),
)

heartbeat-Advances :
    (args : HeartbeatArgs) (n : Node) → Advances (ballot n) (ballot (handle_heartbeat args n).0)
unfolding handle_heartbeat
heartbeat-Advances args n = ground (
  arith,
  accept_leader-Advances args.term args.leader_id args.leader_addr n,
  ballot-advance_commit args.leader_commit
      (accept_leader args.term args.leader_id args.leader_addr n),
)

install_snapshot-Advances :
    (args : InstallSnapshotArgs) (n : Node)
    → Advances (ballot n) (ballot (handle_install_snapshot args n).0)
unfolding handle_install_snapshot
install_snapshot-Advances args n = ground (
  arith,
  accept_leader-Advances args.term args.leader_id none n,
  ballot-apply_snapshot args.last_included_index args.last_included_term args.boards
      (accept_leader args.term args.leader_id none n),
)

pub ballot-install_pulled :
    (s : Option Snapshot) (n : Node) → ballot (install_pulled s n) ≡ ballot n
unfolding install_pulled
ballot-install_pulled none n = refl
ballot-install_pulled (some s) n =
    ground (arith, ballot-apply_snapshot s.last_included_index s.last_included_term s.boards n)

catch_up-Advances : (r : SyncLogResult) (n : Node) → Advances (ballot n) (ballot (catch_up r n))
unfolding catch_up
catch_up-Advances r n =
    let n1 = install_pulled r.snapshot (adopt_term r.term n) in
    ground (
      arith,
      adopt_term-Advances r.term n,
      ballot-install_pulled r.snapshot (adopt_term r.term n),
      ballot-advance_commit r.commit_index (record n1 {
        log =
            catch_up_loop (n1.log).last_included_index n1.commit_index
              (committed_entries r.commit_index r.entries) n1.log;
      }),
    )

vote_settled-Advances :
    (v : Election) (r : Option RequestVoteResult) (n : Node)
    → Advances (ballot n) (ballot (on_vote_settled v r n).0)
unfolding on_vote_settled
vote_settled-Advances v none n = ground arith
vote_settled-Advances v (some r) n = ground arith

times_out-Advances : (n : Node) → Advances (ballot n) (ballot (step Event.times_out n))
unfolding step on_election_timeout
times_out-Advances n = ground arith

count_acks-Advances :
    (rs : List (Option HeartbeatResult)) (acks : ℕ) (n : Node)
    → Advances (ballot n) (ballot (count_acks rs acks n).0)
unfolding count_acks become_follower
count_acks-Advances [] acks n = ground arith
count_acks-Advances (none ∷ rs) acks n = count_acks-Advances rs acks n
count_acks-Advances (some r ∷ rs) acks n =
    ground (arith, count_acks-Advances rs (if r.success then acks + 1 else acks) n)

append_reply-Advances :
    (peer : String) (i : ℕ) (es : List LogEntry) (r : AppendEntriesResult) (n : Node)
    → Advances (ballot n) (ballot (on_append_reply peer i es r n))
unfolding on_append_reply become_follower
append_reply-Advances peer i [] r n = ground arith
append_reply-Advances peer i (e ∷ es) r n = ground arith

snapshot_reply-Advances :
    (peer : String) (i : ℕ) (r : InstallSnapshotResult) (n : Node)
    → Advances (ballot n) (ballot (on_snapshot_reply peer i r n))
unfolding on_snapshot_reply become_follower
snapshot_reply-Advances peer i r n = ground arith

sync_log-Advances :
    (args : SyncLogArgs) (n : Node) → Advances (ballot n) (ballot (handle_sync_log args n).0)
unfolding handle_sync_log
sync_log-Advances args n = ground (arith, adopt_term-Advances args.term n)

replicates-Advances :
    (peer : String) (n : Node) → Advances (ballot n) (ballot (drive_replication peer n).0)
unfolding drive_replication
replicates-Advances peer n = ground arith

-- Every step advances the ballot, whatever the event.
step-Advances : (e : Event) (n : Node) → Advances (ballot n) (ballot (step e n))
unfolding step
step-Advances Event.starts n = unfold start in ground arith
step-Advances Event.stops n = unfold stop in ground arith
step-Advances Event.times_out n = times_out-Advances n
step-Advances (Event.vote_settles v r) n = vote_settled-Advances v r n
step-Advances (Event.request_vote args) n = request_vote-Advances args n
step-Advances (Event.append_entries args) n = append_entries-Advances args n
step-Advances (Event.heartbeat args) n = heartbeat-Advances args n
step-Advances (Event.install_snapshot args) n = install_snapshot-Advances args n
step-Advances (Event.sync_log args) n = sync_log-Advances args n
step-Advances (Event.catches_up r) n = catch_up-Advances r n
step-Advances (Event.replicates peer) n = replicates-Advances peer n
step-Advances (Event.replicated peer) n = unfold replication_done in ground arith
step-Advances (Event.append_reply peer i es r) n = append_reply-Advances peer i es r n
step-Advances (Event.snapshot_reply peer i r) n = snapshot_reply-Advances peer i r n
step-Advances Event.commits n = ground (arith, ballot-update_commit_index n)
step-Advances (Event.client_write stroke) n = unfold append_own in ground arith
step-Advances (Event.confirms rs) n = count_acks-Advances rs 1 n

run-Advances : (es : List Event) (n : Node) → Advances (ballot n) (ballot (run es n))
unfolding run
run-Advances [] n = ground arith
run-Advances (e ∷ es) n =
    Advances-trans (ballot n) (ballot (step e n)) (ballot (run es (step e n))) (step-Advances e n)
      (run-Advances es (step e n))

-- No sequence of events lowers a replica's term.
current_term-run_le : (es : List Event) (n : Node) → n.current_term ≤ (run es n).current_term
current_term-run_le es n = ground (arith, run-Advances es n)

-- A follower that has voted keeps that vote, and stays a follower, through any events that leave it
-- in the same term.
run-keeps_vote :
    (es : List Event) (n : Node) (v : String)
    → n.state ≡ follower
    → n.voted_for ≡ some v
    → (run es n).current_term ≡ n.current_term
    → ((run es n).voted_for ≡ some v) × ((run es n).state ≡ follower)
run-keeps_vote es n v f voted same = ground (arith, run-Advances es n)
