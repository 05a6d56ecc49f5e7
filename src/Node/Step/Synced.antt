-- ===== src/Node/Step/Synced.antt =====
-- Durability: what state.json holds against the node in memory, at the end of every step.
use quorum_canvas.Base.{
  ℕ, ◌+◌, ◌-◌, min, ◌≡◌, refl, ◌∙◌, String, Option, none, some, List, [], ◌∷◌, arith, if◌then◌else◌,
  Option-cases, inl, inr,
}
use quorum_canvas.Types.{
  LogEntry, Snapshot, PersistedState, BoardRecord, RequestVoteArgs, RequestVoteResult,
  AppendEntriesArgs, AppendEntriesResult, HeartbeatArgs, HeartbeatResult, InstallSnapshotArgs,
  InstallSnapshotResult, SyncLogResult,
}
use quorum_canvas.RaftLog
use quorum_canvas.RaftLog.{RaftLog}
use quorum_canvas.Node.{
  Node, become_follower, apply_committed, advance_commit, accept_leader, become_candidate,
  commit_at, persist_state, take_snapshot, maybe_snapshot, start, stop,
}
use quorum_canvas.Node.Vote.{
  Election, on_election_timeout, on_vote_settled, adopt_term, grant_vote, handle_request_vote,
  run_election, finalize_election, on_vote_reply, on_vote_done,
}
use quorum_canvas.Node.Append.{
  append_loop, append_accepted, handle_append_entries, handle_heartbeat,
}
use quorum_canvas.Node.Follower.{
  apply_snapshot, handle_install_snapshot, handle_sync_log, install_pulled, committed_entries,
  catch_up_loop, catch_up,
}
use quorum_canvas.Node.Leader.{
  on_append_reply, on_snapshot_reply, drive_replication, replication_done, find_committable,
  update_commit_index, new_entry, append_own,
}
use quorum_canvas.Node.Reads.{count_acks}
use quorum_canvas.Node.Step.{Event, step, run}
use quorum_canvas.Node.Step.Saved.{
  IsSynced, kept, kept-append, kept-append_loop, kept-catch_up_loop, kept-compact,
  kept-install_snapshot, memory_state, saved-save_snapshot, saved-save_state,
}

-- Saving makes the disk agree, where there is a file at all.
persist_state-IsSynced :
    (n : Node) (x : PersistedState) → kept n.log ≡ some x → IsSynced (persist_state n)
unfolding persist_state
persist_state-IsSynced n x h = saved-save_state _ x (n.log).persistence h

become_follower-IsSynced :
    (t : ℕ) (i a : Option String) (n : Node) (x : PersistedState)
    → kept n.log ≡ some x
    → IsSynced (become_follower t i a n)
unfolding become_follower
become_follower-IsSynced t i a n x h = saved-save_state _ x (n.log).persistence h

kept-take_snapshot : (n : Node) → kept (take_snapshot n).log ≡ kept n.log
unfolding take_snapshot
kept-take_snapshot n = kept-compact _ _ _ ∙ saved-save_snapshot _ (n.log).persistence

memory_state-take_snapshot : (n : Node) → memory_state (take_snapshot n) ≡ memory_state n
unfolding take_snapshot
memory_state-take_snapshot n = refl

maybe_snapshot-IsSynced : (n : Node) → IsSynced n → IsSynced (maybe_snapshot n)
unfolding maybe_snapshot
maybe_snapshot-IsSynced n h = ground (arith, kept-take_snapshot n, memory_state-take_snapshot n)

pub apply_committed-IsSynced : (n : Node) → IsSynced n → IsSynced (apply_committed n)
unfolding apply_committed
apply_committed-IsSynced n h = maybe_snapshot-IsSynced _ h

commit_at-IsSynced : (i : ℕ) (n : Node) → IsSynced n → IsSynced (commit_at i n)
unfolding commit_at
commit_at-IsSynced i n h =
    apply_committed-IsSynced (persist_state (record n { commit_index = i }))
      (persist_state-IsSynced (record n { commit_index = i }) (memory_state n) h)

advance_commit-IsSynced : (c : ℕ) (n : Node) → IsSynced n → IsSynced (advance_commit c n)
unfolding advance_commit
advance_commit-IsSynced c n h =
    ground (arith, commit_at-IsSynced (min c (RaftLog.get_last_index n.log)) n)

accept_leader-IsSynced :
    (t : ℕ) (i : String) (a : Option String) (n : Node)
    → IsSynced n
    → IsSynced (accept_leader t i a n)
unfolding accept_leader
accept_leader-IsSynced t i a n h =
    ground (arith, become_follower-IsSynced t (some i) a n (memory_state n))

adopt_term-IsSynced : (t : ℕ) (n : Node) → IsSynced n → IsSynced (adopt_term t n)
unfolding adopt_term
adopt_term-IsSynced t n h = ground (arith, become_follower-IsSynced t none none n (memory_state n))

grant_vote-IsSynced :
    (args : RequestVoteArgs) (n : Node) → IsSynced n → IsSynced (grant_vote args n)
unfolding grant_vote
grant_vote-IsSynced args n h =
    persist_state-IsSynced
      (record n { voted_for = some args.candidate_id; current_term = args.term }) (memory_state n) h

pub request_vote-IsSynced :
    (args : RequestVoteArgs) (n : Node) → IsSynced n → IsSynced (handle_request_vote args n).0
unfolding handle_request_vote
request_vote-IsSynced args n h =
    ground
      (arith, adopt_term-IsSynced args.term n, grant_vote-IsSynced args (adopt_term args.term n))

append_accepted-IsSynced :
    (args : AppendEntriesArgs) (n : Node) → IsSynced n → IsSynced (append_accepted args n).0
unfolding append_accepted
append_accepted-IsSynced args n h =
    let n2 = record n {
      log = (append_loop (n.log).last_included_index n.commit_index args.entries n.log).0;
    } in
    ground (
      arith,
      kept-append_loop (n.log).last_included_index n.commit_index args.entries n.log,
      advance_commit-IsSynced args.leader_commit n2,
    )

append_entries-IsSynced :
    (args : AppendEntriesArgs) (n : Node) → IsSynced n → IsSynced (handle_append_entries args n).0
unfolding handle_append_entries
append_entries-IsSynced args n h = ground (
  arith,
  accept_leader-IsSynced args.term args.leader_id args.leader_addr n,
  append_accepted-IsSynced args (accept_leader args.term args.leader_id args.leader_addr n),
)

heartbeat-IsSynced :
    (args : HeartbeatArgs) (n : Node) → IsSynced n → IsSynced (handle_heartbeat args n).0
unfolding handle_heartbeat
heartbeat-IsSynced args n h = ground (
  arith,
  accept_leader-IsSynced args.term args.leader_id args.leader_addr n,
  advance_commit-IsSynced args.leader_commit
      (accept_leader args.term args.leader_id args.leader_addr n),
)

apply_snapshot-IsSynced :
    (i t : ℕ) (boards : BoardRecord) (n : Node)
    → IsSynced n
    → IsSynced (apply_snapshot i t boards n)
unfolding apply_snapshot persist_state
apply_snapshot-IsSynced i t boards n h = saved-save_state _ (memory_state n) _ (
    saved-save_snapshot _ (RaftLog.install_snapshot i t n.log).persistence
    ∙ kept-install_snapshot i t n.log
    ∙ h)

install_snapshot-IsSynced :
    (args : InstallSnapshotArgs) (n : Node)
    → IsSynced n
    → IsSynced (handle_install_snapshot args n).0
unfolding handle_install_snapshot
install_snapshot-IsSynced args n h =
    let n1 = accept_leader args.term args.leader_id none n in
    ground (
      arith,
      accept_leader-IsSynced args.term args.leader_id none n,
      apply_snapshot-IsSynced args.last_included_index args.last_included_term args.boards n1,
    )

install_pulled-IsSynced :
    (s : Option Snapshot) (n : Node) → IsSynced n → IsSynced (install_pulled s n)
unfolding install_pulled
install_pulled-IsSynced none n h = h
install_pulled-IsSynced (some s) n h =
    ground (arith, apply_snapshot-IsSynced s.last_included_index s.last_included_term s.boards n)

catch_up-IsSynced : (r : SyncLogResult) (n : Node) → IsSynced n → IsSynced (catch_up r n)
unfolding catch_up
catch_up-IsSynced r n h =
    let n1 = install_pulled r.snapshot (adopt_term r.term n) in
    let caught =
      catch_up_loop (n1.log).last_included_index n1.commit_index
        (committed_entries r.commit_index r.entries) n1.log in
    advance_commit-IsSynced r.commit_index (record n1 { log = caught })
      (kept-catch_up_loop (n1.log).last_included_index n1.commit_index
          (committed_entries r.commit_index r.entries) n1.log
        ∙ install_pulled-IsSynced r.snapshot (adopt_term r.term n) (adopt_term-IsSynced r.term n h))

pub become_candidate-IsSynced : (n : Node) → IsSynced n → IsSynced (become_candidate n)
unfolding become_candidate
become_candidate-IsSynced n h = saved-save_state _ (memory_state n) (n.log).persistence h

pub finalize_election-IsSynced :
    (v : Election) (n : Node) → IsSynced n → IsSynced (finalize_election v n).0
unfolding finalize_election
finalize_election-IsSynced v n h = ground arith

pub run_election-IsSynced : (n : Node) → IsSynced n → IsSynced (run_election n).0
unfolding run_election
run_election-IsSynced n h = ground (arith, become_candidate-IsSynced n)

times_out-IsSynced : (n : Node) → IsSynced n → IsSynced (step Event.times_out n)
unfolding step on_election_timeout run_election
times_out-IsSynced n h = ground (arith, become_candidate-IsSynced n)

vote_reply-IsSynced :
    (v : Election) (r : RequestVoteResult) (n : Node)
    → IsSynced n
    → IsSynced (on_vote_reply v r n).0
unfolding on_vote_reply
vote_reply-IsSynced v r n h =
    ground (arith, become_follower-IsSynced r.term none none n (memory_state n))

vote_done-IsSynced : (p : Node × Election) → IsSynced p.0 → IsSynced (on_vote_done p).0
unfolding on_vote_done
vote_done-IsSynced (n, v) h = ground arith

pub vote_settled-IsSynced :
    (v : Election) (r : Option RequestVoteResult) (n : Node)
    → IsSynced n
    → IsSynced (on_vote_settled v r n).0
unfolding on_vote_settled
vote_settled-IsSynced v none n h = vote_done-IsSynced (n, v) h
vote_settled-IsSynced v (some r) n h =
    vote_done-IsSynced (on_vote_reply v r n) (vote_reply-IsSynced v r n h)

count_acks-IsSynced :
    (rs : List (Option HeartbeatResult)) (acks : ℕ) (n : Node)
    → IsSynced n
    → IsSynced (count_acks rs acks n).0
unfolding count_acks
count_acks-IsSynced [] acks n h = h
count_acks-IsSynced (none ∷ rs) acks n h = count_acks-IsSynced rs acks n h
count_acks-IsSynced (some r ∷ rs) acks n h = ground (
  arith,
  count_acks-IsSynced rs (if r.success then acks + 1 else acks) n,
  become_follower-IsSynced r.term none none n (memory_state n),
)

append_reply-IsSynced :
    (peer : String) (i : ℕ) (es : List LogEntry) (r : AppendEntriesResult) (n : Node)
    → IsSynced n
    → IsSynced (on_append_reply peer i es r n)
unfolding on_append_reply
append_reply-IsSynced peer i [] r n h =
    ground (arith, become_follower-IsSynced r.term none none n (memory_state n))
append_reply-IsSynced peer i (e ∷ es) r n h =
    ground (arith, become_follower-IsSynced r.term none none n (memory_state n))

snapshot_reply-IsSynced :
    (peer : String) (i : ℕ) (r : InstallSnapshotResult) (n : Node)
    → IsSynced n
    → IsSynced (on_snapshot_reply peer i r n)
unfolding on_snapshot_reply
snapshot_reply-IsSynced peer i r n h =
    ground (arith, become_follower-IsSynced r.term none none n (memory_state n))

update_commit_index-IsSynced : (n : Node) → IsSynced n → IsSynced (update_commit_index n)
unfolding update_commit_index
update_commit_index-IsSynced n h =
    elim (Option-cases (find_committable (RaftLog.get_last_index n.log - n.commit_index) n)) [
      | inl e ↦ rw (e, update_commit_index) h
      | inr (i, e) ↦ rw (e, update_commit_index) (commit_at-IsSynced i n h)
    ]

client_write-IsSynced : (e : LogEntry) (n : Node) → IsSynced n → IsSynced (append_own e n)
unfolding append_own
client_write-IsSynced e n h = kept-append e n.log ∙ h

-- Every step of a replica that saves to files leaves on disk the term, the vote and the commit index
-- that it goes on with: no reply rests on a value that a crash would forget.
pub step-IsSynced : (e : Event) (n : Node) → IsSynced n → IsSynced (step e n)
unfolding step
step-IsSynced Event.starts n h = unfold start in h
step-IsSynced Event.stops n h = unfold stop in h
step-IsSynced Event.times_out n h = times_out-IsSynced n h
step-IsSynced (Event.vote_settles v r) n h = vote_settled-IsSynced v r n h
step-IsSynced (Event.request_vote args) n h = request_vote-IsSynced args n h
step-IsSynced (Event.append_entries args) n h = append_entries-IsSynced args n h
step-IsSynced (Event.heartbeat args) n h = heartbeat-IsSynced args n h
step-IsSynced (Event.install_snapshot args) n h = install_snapshot-IsSynced args n h
step-IsSynced (Event.sync_log args) n h =
    unfold handle_sync_log in ground (arith, adopt_term-IsSynced args.term n)
step-IsSynced (Event.catches_up r) n h = catch_up-IsSynced r n h
step-IsSynced (Event.replicates peer) n h = unfold drive_replication in ground arith
step-IsSynced (Event.replicated peer) n h = unfold replication_done in h
step-IsSynced (Event.append_reply peer i es r) n h = append_reply-IsSynced peer i es r n h
step-IsSynced (Event.snapshot_reply peer i r) n h = snapshot_reply-IsSynced peer i r n h
step-IsSynced Event.commits n h = ground (arith, update_commit_index-IsSynced n)
step-IsSynced (Event.client_write stroke) n h =
    ground (arith, client_write-IsSynced (new_entry stroke n) n)
step-IsSynced (Event.confirms rs) n h = count_acks-IsSynced rs 1 n h

-- A replica whose term, vote and commit index are the ones in its state file stays so through any
-- sequence of events: none of them is ever only in memory when a handler has returned.
pub run-IsSynced : (es : List Event) (n : Node) → IsSynced n → IsSynced (run es n)
unfolding run
run-IsSynced [] n h = h
run-IsSynced (e ∷ es) n h = run-IsSynced es (step e n) (step-IsSynced e n h)
