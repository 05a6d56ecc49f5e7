-- ===== src/Node/Step/Durable.antt =====
-- What log.jsonl and snapshot.json hold at the end of every step.
use quorum_canvas.Base.{
  ℕ, ◌+◌, min, ◌∙◌, Option, none, some, List, [], ◌∷◌, String, arith, ltb, if◌then◌else◌,
  Bool-cases, inl, inr,
}
use quorum_canvas.Types.{
  LogEntry, Snapshot, RequestVoteArgs, RequestVoteResult, AppendEntriesArgs, AppendEntriesResult,
  HeartbeatArgs, HeartbeatResult, InstallSnapshotArgs, InstallSnapshotResult, SyncLogResult,
}
use quorum_canvas.RaftLog
use quorum_canvas.RaftLog.{RaftLog}
use quorum_canvas.Node.{
  Node, become_follower, become_candidate, persist_state, accept_leader, advance_commit, start,
  stop,
}
use quorum_canvas.Node.Vote.{
  Election, on_election_timeout, on_vote_settled, adopt_term, grant_vote, handle_request_vote,
}
use quorum_canvas.Node.Append.{
  append_loop, append_accepted, prev_mismatch, handle_append_entries, handle_heartbeat,
}
use quorum_canvas.Node.Append.Commit.{
  IsSound, Grows, Grows-frame, frame-accept_leader, append_loop-Grows, prev_le,
}
use quorum_canvas.Node.Leader.{
  on_append_reply, on_snapshot_reply, drive_replication, replication_done, new_entry, append_own,
  update_commit_index,
}
use quorum_canvas.Node.Leader.Quorum.{update_commit_index_lem}
use quorum_canvas.Node.Follower.{
  handle_install_snapshot, handle_sync_log, install_pulled, committed_entries, catch_up_loop,
  catch_up,
}
use quorum_canvas.Node.Reads.{count_acks}
use quorum_canvas.Node.Step.{Event, step, run}
use quorum_canvas.Node.Follower.Committed.{caught_up-IsSound}
use quorum_canvas.Node.Step.Committed.{IsInOrder, AreInOrder, step-Grows}
use quorum_canvas.Node.Step.Stored.{
  IsStored, on_disk-save_state, append-IsStored, append_loop-IsStored, catch_up_loop-IsStored,
  persist_state-IsStored, apply_snapshot-IsStored, commit_at-IsStored,
}

become_follower-IsStored :
    (t : ℕ) (i a : Option String) (n : Node)
    → IsStored n.log
    → IsStored (become_follower t i a n).log
unfolding become_follower persist_state
become_follower-IsStored t i a n h = on_disk-save_state _ (n.log).persistence ∙ h

become_candidate-IsStored : (n : Node) → IsStored n.log → IsStored (become_candidate n).log
unfolding become_candidate persist_state
become_candidate-IsStored n h = on_disk-save_state _ (n.log).persistence ∙ h

accept_leader-IsStored :
    (t : ℕ) (i : String) (a : Option String) (n : Node)
    → IsStored n.log
    → IsStored (accept_leader t i a n).log
unfolding accept_leader
accept_leader-IsStored t i a n h = ground (arith, become_follower-IsStored t (some i) a n h)

adopt_term-IsStored : (t : ℕ) (n : Node) → IsStored n.log → IsStored (adopt_term t n).log
unfolding adopt_term
adopt_term-IsStored t n h = ground (arith, become_follower-IsStored t none none n h)

request_vote-IsStored :
    (args : RequestVoteArgs) (n : Node)
    → IsStored n.log
    → IsStored (handle_request_vote args n).0.log
unfolding handle_request_vote grant_vote
request_vote-IsStored args n h =
    let n1 = adopt_term args.term n in
    let h1 = adopt_term-IsStored args.term n h in
    let n2 = record n1 { voted_for = some args.candidate_id; current_term = args.term } in
    ground (arith, h1, persist_state-IsStored n2 h1)

advance_commit-IsStored :
    (c : ℕ) (n : Node) → IsSound n → IsStored n.log → IsStored (advance_commit c n).log
unfolding advance_commit
advance_commit-IsStored c n s h =
    let covered = s.covered in
    let logged = s.logged in
    elim (Bool-cases (ltb n.commit_index c)) [
      | inl more ↦
          simp more (commit_at-IsStored (min c (RaftLog.get_last_index n.log)) n (ground arith) h)
      | inr less ↦ simp less h
    ]

append_accepted-IsStored :
    (args : AppendEntriesArgs) (n : Node)
    → Grows n (record n {
      log = (append_loop (n.log).last_included_index n.commit_index args.entries n.log).0;
    })
    → IsStored n.log
    → IsStored (append_accepted args n).0.log
unfolding append_accepted
append_accepted-IsStored args n x h =
    let looped = append_loop (n.log).last_included_index n.commit_index args.entries n.log in
    let n2 = record n { log = looped.0 } in
    let h2 = append_loop-IsStored (n.log).last_included_index n.commit_index args.entries n.log h in
    elim (Bool-cases looped.1) [
      | inl done ↦ simp done (advance_commit-IsStored args.leader_commit n2 x.sound h2)
      | inr stopped ↦ simp stopped h2
    ]

append_entries-IsStored :
    (args : AppendEntriesArgs) (n : Node)
    → IsSound n
    → IsInOrder (Event.append_entries args) n
    → IsStored n.log
    → IsStored (handle_append_entries args n).0.log
unfolding handle_append_entries
append_entries-IsStored args n s ix h =
    let n1 = accept_leader args.term args.leader_id args.leader_addr n in
    let h1 = accept_leader-IsStored args.term args.leader_id args.leader_addr n h in
    let x = Grows-frame n n1 s (frame-accept_leader args.term args.leader_id args.leader_addr n) in
    elim (Bool-cases (ltb args.term n.current_term)) [
      | inl stale ↦ simp stale h
      | inr fresh ↦
          elim (Bool-cases (prev_mismatch args.prev_log_index args.prev_log_term n1.log)) [
            | inl gap ↦ simp (fresh, gap) h1
            | inr fits ↦
                simp (fresh, fits)
                  (append_accepted-IsStored args n1
                    (append_loop-Grows n1 args.prev_log_index args.entries x.sound ix
                      (prev_le args.prev_log_index args.prev_log_term n1.log fits)).0
                    h1)
          ]
    ]

heartbeat-IsStored :
    (args : HeartbeatArgs) (n : Node)
    → IsSound n
    → IsStored n.log
    → IsStored (handle_heartbeat args n).0.log
unfolding handle_heartbeat
heartbeat-IsStored args n s h =
    let n1 = accept_leader args.term args.leader_id args.leader_addr n in
    let h1 = accept_leader-IsStored args.term args.leader_id args.leader_addr n h in
    let x = Grows-frame n n1 s (frame-accept_leader args.term args.leader_id args.leader_addr n) in
    ground (arith, advance_commit-IsStored args.leader_commit n1 x.sound h1)

install_snapshot-IsStored :
    (args : InstallSnapshotArgs) (n : Node)
    → IsStored n.log
    → IsStored (handle_install_snapshot args n).0.log
unfolding handle_install_snapshot
install_snapshot-IsStored args n h =
    let n1 = accept_leader args.term args.leader_id none n in
    let h1 = accept_leader-IsStored args.term args.leader_id none n h in
    ground (
      arith,
      h1,
      apply_snapshot-IsStored args.last_included_index args.last_included_term args.boards n1 h1,
    )

install_pulled-IsStored :
    (s : Option Snapshot) (n : Node) → IsStored n.log → IsStored (install_pulled s n).log
unfolding install_pulled
install_pulled-IsStored none n h = h
install_pulled-IsStored (some s) n h =
    ground (arith, apply_snapshot-IsStored s.last_included_index s.last_included_term s.boards n h)

times_out-IsStored : (n : Node) → IsStored n.log → IsStored (step Event.times_out n).log
unfolding step on_election_timeout
times_out-IsStored n h = ground (arith, become_candidate-IsStored n h)

vote_settled-IsStored :
    (v : Election) (r : Option RequestVoteResult) (n : Node)
    → IsStored n.log
    → IsStored (on_vote_settled v r n).0.log
unfolding on_vote_settled
vote_settled-IsStored v none n h = ground arith
vote_settled-IsStored v (some r) n h = ground (arith, become_follower-IsStored r.term none none n h)

catch_up-IsStored :
    (r : SyncLogResult) (n : Node)
    → IsSound n
    → IsInOrder (Event.catches_up r) n
    → IsStored n.log
    → IsStored (catch_up r n).log
unfolding catch_up
catch_up-IsStored r n s (p, ix, within) h =
    let n1 = install_pulled r.snapshot (adopt_term r.term n) in
    let h1 =
      install_pulled-IsStored r.snapshot (adopt_term r.term n) (adopt_term-IsStored r.term n h) in
    let es = committed_entries r.commit_index r.entries in
    advance_commit-IsStored r.commit_index
      (record n1 { log = catch_up_loop (n1.log).last_included_index n1.commit_index es n1.log })
      (caught_up-IsSound r p n s ix within)
      (catch_up_loop-IsStored (n1.log).last_included_index n1.commit_index es n1.log h1)

count_acks-IsStored :
    (rs : List (Option HeartbeatResult)) (acks : ℕ) (n : Node)
    → IsStored n.log
    → IsStored (count_acks rs acks n).0.log
unfolding count_acks
count_acks-IsStored [] acks n h = h
count_acks-IsStored (none ∷ rs) acks n h = count_acks-IsStored rs acks n h
count_acks-IsStored (some r ∷ rs) acks n h = ground (
  arith,
  count_acks-IsStored rs (if r.success then acks + 1 else acks) n h,
  become_follower-IsStored r.term none none n h,
)

append_reply-IsStored :
    (peer : String) (i : ℕ) (es : List LogEntry) (r : AppendEntriesResult) (n : Node)
    → IsStored n.log
    → IsStored (on_append_reply peer i es r n).log
unfolding on_append_reply
append_reply-IsStored peer i [] r n h =
    ground (arith, become_follower-IsStored r.term none none n h)
append_reply-IsStored peer i (e ∷ es) r n h =
    ground (arith, become_follower-IsStored r.term none none n h)

snapshot_reply-IsStored :
    (peer : String) (i : ℕ) (r : InstallSnapshotResult) (n : Node)
    → IsStored n.log
    → IsStored (on_snapshot_reply peer i r n).log
unfolding on_snapshot_reply
snapshot_reply-IsStored peer i r n h = ground (arith, become_follower-IsStored r.term none none n h)

update_commit_index-IsStored :
    (n : Node) → IsSound n → IsStored n.log → IsStored (update_commit_index n).log
update_commit_index-IsStored n s h =
    let covered = s.covered in
    elim (update_commit_index_lem n s) [
      | inl (same, _) ↦ rw same h
      | inr (i, e, above, _, _) ↦ rw e (commit_at-IsStored i n (omega arith) h)
    ]

step-IsStored :
    (e : Event) (n : Node) → IsSound n → IsInOrder e n → IsStored n.log → IsStored (step e n).log
unfolding step
step-IsStored Event.starts n s o h = unfold start in h
step-IsStored Event.stops n s o h = unfold stop in h
step-IsStored Event.times_out n s o h = times_out-IsStored n h
step-IsStored (Event.vote_settles v r) n s o h = vote_settled-IsStored v r n h
step-IsStored (Event.request_vote args) n s o h = request_vote-IsStored args n h
step-IsStored (Event.append_entries args) n s o h = append_entries-IsStored args n s o h
step-IsStored (Event.heartbeat args) n s o h = heartbeat-IsStored args n s h
step-IsStored (Event.install_snapshot args) n s o h = install_snapshot-IsStored args n h
step-IsStored (Event.sync_log args) n s o h =
    unfold handle_sync_log in ground (arith, adopt_term-IsStored args.term n h)
step-IsStored (Event.catches_up r) n s o h = catch_up-IsStored r n s o h
step-IsStored (Event.replicates peer) n s o h = unfold drive_replication in ground arith
step-IsStored (Event.replicated peer) n s o h = unfold replication_done in h
step-IsStored (Event.append_reply peer i es r) n s o h = append_reply-IsStored peer i es r n h
step-IsStored (Event.snapshot_reply peer i r) n s o h = snapshot_reply-IsStored peer i r n h
step-IsStored Event.commits n s o h = ground (arith, h, update_commit_index-IsStored n s h)
step-IsStored (Event.client_write stroke) n s o h =
    unfold append_own in ground (arith, h, append-IsStored (new_entry stroke n) n.log h)
step-IsStored (Event.confirms rs) n s o h = count_acks-IsStored rs 1 n h

-- Through any events whose entries are in order, the log file keeps exactly the entries of a sound
-- replica's log, and the snapshot file the index and the term of its boundary.
pub run-IsStored :
    (es : List Event) (n : Node)
    → IsSound n
    → AreInOrder es n
    → IsStored n.log
    → IsStored (run es n).log
unfolding run
run-IsStored [] n s o h = h
run-IsStored (e ∷ es) n s (first, rest) h =
    run-IsStored es (step e n) (step-Grows e n s first).sound rest (step-IsStored e n s first h)
