-- ===== src/Cluster/Ballots.antt =====
-- What each event may do to the term, the vote and the role of a replica.
use quorum_canvas.Base.{
  ℕ, ◌+◌, ◌≤◌, ◌<◌, ◌≡◌, ◌≢◌, ap, ◌∙◌, ◌⊎◌, inl, inr, String, true, false, Option, none, some, List,
  [], ◌∷◌, arith, eq_iff, if◌then◌else◌, Option-cases, Bool,
}
use quorum_canvas.Types.{
  follower, LogEntry, PersistedState, RequestVoteArgs, RequestVoteResult, AppendEntriesArgs,
  AppendEntriesResult, HeartbeatArgs, HeartbeatResult, InstallSnapshotArgs, InstallSnapshotResult,
  SyncLogArgs, SyncLogResult,
}
use quorum_canvas.Node.{
  Node, is_follower, is_leader, majority, accept_leader, start, stop, persist_state,
  become_candidate, become_leader, become_follower, construct, construct_from,
}
use quorum_canvas.Node.Vote.{
  Election, run_election, finalize_election, on_vote_settled, adopt_term, may_vote_for, can_vote,
  grant_vote, handle_request_vote,
}
use quorum_canvas.Node.Append.{handle_append_entries, handle_heartbeat}
use quorum_canvas.Node.Follower.{
  handle_install_snapshot, handle_sync_log, install_pulled, committed_entries, catch_up_loop,
  catch_up,
}
use quorum_canvas.Node.Leader.{
  on_append_reply, on_snapshot_reply, drive_replication, replication_done, append_own,
}
use quorum_canvas.Node.Reads.{count_acks}
use quorum_canvas.Node.Step.{Event, step}
use quorum_canvas.Node.Step.Term.{
  Ballot, ballot, ballot-advance_commit, ballot-update_commit_index, ballot-install_pulled,
  ballot-append_accepted, ballot-apply_snapshot, ballot-apply_committed,
}
use quorum_canvas.Node.Step.Saved.{IsSynced, memory_state}
use quorum_canvas.Node.Step.Recovery.{load_state-saved}
use quorum_canvas.Cluster.{is_other, leader_term}

-- The ballot stays as it is, or the replica follows in a later term.
abbrev pub Keeps : Ballot → Ballot → Type 0
Keeps a b =
    (a.config ≡ b.config)
    × ((a.term < b.term × (b.role ≡ follower))
        ⊎ ((a.term ≡ b.term) × (a.vote ≡ b.vote) × (a.role ≡ b.role)))

adopt_term-Keeps : (term : ℕ) (n : Node) → Keeps (ballot n) (ballot (adopt_term term n))
unfolding adopt_term
adopt_term-Keeps term n = ground arith

catch_up-Keeps : (r : SyncLogResult) (n : Node) → Keeps (ballot n) (ballot (catch_up r n))
unfolding catch_up
catch_up-Keeps r n =
    let n1 = install_pulled r.snapshot (adopt_term r.term n) in
    ground (
      arith,
      adopt_term-Keeps r.term n,
      ballot-install_pulled r.snapshot (adopt_term r.term n),
      ballot-advance_commit r.commit_index (record n1 {
        log =
            catch_up_loop (n1.log).last_included_index n1.commit_index
              (committed_entries r.commit_index r.entries) n1.log;
      }),
    )

sync_log-Keeps :
    (args : SyncLogArgs) (n : Node) → Keeps (ballot n) (ballot (handle_sync_log args n).0)
unfolding handle_sync_log
sync_log-Keeps args n = ground (arith, adopt_term-Keeps args.term n)

count_acks-Keeps :
    (rs : List (Option HeartbeatResult)) (acks : ℕ) (n : Node)
    → Keeps (ballot n) (ballot (count_acks rs acks n).0)
unfolding count_acks become_follower
count_acks-Keeps [] acks n = ground arith
count_acks-Keeps (none ∷ rs) acks n = count_acks-Keeps rs acks n
count_acks-Keeps (some r ∷ rs) acks n =
    ground (arith, count_acks-Keeps rs (if r.success then acks + 1 else acks) n)

append_reply-Keeps :
    (peer : String) (i : ℕ) (es : List LogEntry) (r : AppendEntriesResult) (n : Node)
    → Keeps (ballot n) (ballot (on_append_reply peer i es r n))
unfolding on_append_reply become_follower
append_reply-Keeps peer i [] r n = ground arith
append_reply-Keeps peer i (e ∷ es) r n = ground arith

snapshot_reply-Keeps :
    (peer : String) (i : ℕ) (r : InstallSnapshotResult) (n : Node)
    → Keeps (ballot n) (ballot (on_snapshot_reply peer i r n))
unfolding on_snapshot_reply become_follower
snapshot_reply-Keeps peer i r n = ground arith

pub other-Keeps : (e : Event) (n : Node) → is_other e ≡ true → Keeps (ballot n) (ballot (step e n))
unfolding step
other-Keeps Event.starts n h = unfold start in ground arith
other-Keeps Event.stops n h = unfold stop in ground arith
other-Keeps Event.times_out n h = ground arith
other-Keeps (Event.vote_settles v r) n h = ground arith
other-Keeps (Event.request_vote args) n h = ground arith
other-Keeps (Event.append_entries args) n h = ground arith
other-Keeps (Event.heartbeat args) n h = ground arith
other-Keeps (Event.install_snapshot args) n h = ground arith
other-Keeps (Event.sync_log args) n h = sync_log-Keeps args n
other-Keeps (Event.catches_up r) n h = catch_up-Keeps r n
other-Keeps (Event.replicates peer) n h = unfold drive_replication in ground arith
other-Keeps (Event.replicated peer) n h = unfold replication_done in ground arith
other-Keeps (Event.append_reply peer i es r) n h = append_reply-Keeps peer i es r n
other-Keeps (Event.snapshot_reply peer i r) n h = snapshot_reply-Keeps peer i r n
other-Keeps Event.commits n h = ground (arith, ballot-update_commit_index n)
other-Keeps (Event.client_write stroke) n h = unfold append_own in ground arith
other-Keeps (Event.confirms rs) n h = count_acks-Keeps rs 1 n

-- As `Keeps`; or a candidate or leader follows another leader of its term `t`.
abbrev pub Follows : ℕ → Ballot → Ballot → Type 0
Follows t a b =
    Keeps a b
    ⊎ ((a.config ≡ b.config)
        × (a.term ≡ t)
        × (b.term ≡ t)
        × (is_follower a.role ≡ false)
        × (b.role ≡ follower))

accept_leader-Follows :
    (term : ℕ) (id : String) (addr : Option String) (n : Node)
    → n.current_term ≤ term
    → Follows term (ballot n) (ballot (accept_leader term id addr n))
unfolding accept_leader
accept_leader-Follows term id addr n h = ground arith

append_entries-Follows :
    (args : AppendEntriesArgs) (n : Node)
    → Follows args.term (ballot n) (ballot (handle_append_entries args n).0)
unfolding handle_append_entries
append_entries-Follows args n = ground (
  arith,
  accept_leader-Follows args.term args.leader_id args.leader_addr n,
  ballot-append_accepted args (accept_leader args.term args.leader_id args.leader_addr n),
)

heartbeat-Follows :
    (args : HeartbeatArgs) (n : Node)
    → Follows args.term (ballot n) (ballot (handle_heartbeat args n).0)
unfolding handle_heartbeat
heartbeat-Follows args n = ground (
  arith,
  accept_leader-Follows args.term args.leader_id args.leader_addr n,
  ballot-advance_commit args.leader_commit
      (accept_leader args.term args.leader_id args.leader_addr n),
)

install_snapshot-Follows :
    (args : InstallSnapshotArgs) (n : Node)
    → Follows args.term (ballot n) (ballot (handle_install_snapshot args n).0)
unfolding handle_install_snapshot
install_snapshot-Follows args n = ground (
  arith,
  accept_leader-Follows args.term args.leader_id none n,
  ballot-apply_snapshot args.last_included_index args.last_included_term args.boards
      (accept_leader args.term args.leader_id none n),
)

pub leader-Follows :
    (e : Event) (t : ℕ) (n : Node)
    → leader_term e ≡ some t
    → Follows t (ballot n) (ballot (step e n))
unfolding step
leader-Follows (Event.append_entries args) t n h = ground (arith, append_entries-Follows args n)
leader-Follows (Event.heartbeat args) t n h = ground (arith, heartbeat-Follows args n)
leader-Follows (Event.install_snapshot args) t n h = ground (arith, install_snapshot-Follows args n)
leader-Follows Event.starts t n h = ground arith
leader-Follows Event.stops t n h = ground arith
leader-Follows Event.times_out t n h = ground arith
leader-Follows (Event.vote_settles v r) t n h = ground arith
leader-Follows (Event.request_vote args) t n h = ground arith
leader-Follows (Event.sync_log args) t n h = ground arith
leader-Follows (Event.catches_up r) t n h = ground arith
leader-Follows (Event.replicates peer) t n h = ground arith
leader-Follows (Event.replicated peer) t n h = ground arith
leader-Follows (Event.append_reply peer i es r) t n h = ground arith
leader-Follows (Event.snapshot_reply peer i r) t n h = ground arith
leader-Follows Event.commits t n h = ground arith
leader-Follows (Event.client_write stroke) t n h = ground arith
leader-Follows (Event.confirms rs) t n h = ground arith

-- A vote that is granted, by a replica that is not the candidate.
abbrev pub Grants : RequestVoteArgs → Ballot → Ballot → Type 0
Grants args a b =
    (a.config ≡ b.config)
    × (b.term ≡ args.term)
    × (b.vote ≡ some args.candidate_id)
    × (b.role ≡ follower)
    × ((a.term < args.term)
        ⊎ ((a.term ≡ args.term) × ((a.vote ≡ none) ⊎ (a.vote ≡ some args.candidate_id))))

-- A candidate or leader has voted for itself.
abbrev pub IsOwn : Node → Type 0
IsOwn n = is_follower n.state ≡ false → n.voted_for ≡ some n.replica_id

pub request_vote-Grants :
    (args : RequestVoteArgs) (n : Node)
    → IsOwn n
    → args.candidate_id ≢ n.replica_id
    → let (n', reply) = handle_request_vote args n in
      ((reply.vote_granted ≡ true) × Grants args (ballot n) (ballot n'))
      ⊎ ((reply.vote_granted ≡ false) × Keeps (ballot n) (ballot n'))
unfolding handle_request_vote adopt_term can_vote may_vote_for grant_vote persist_state
request_vote-Grants args n own apart = elim (Option-cases n.voted_for) [
  | inl e ↦ ground arith
  | inr (v, e) ↦ ground (arith, eq_iff v args.candidate_id)
]

-- What an election begins with.
pub record Begins (n n' : Node) (v : Election) (args : RequestVoteArgs) : Type 0 where
  pub same_config : n'.config ≡ n.config
  pub next_term : n'.current_term ≡ n.current_term + 1
  pub own_vote : n'.voted_for ≡ some n.replica_id
  pub stands : is_follower n'.state ≡ false
  pub wins : is_leader n'.state ≡ true → majority n ≤ 1
  pub of_term : v.term ≡ n.current_term + 1
  pub votes : v.votes_granted ≡ 1
  pub asks_term : args.term ≡ n.current_term + 1
  pub asks_self : args.candidate_id ≡ n.replica_id

pub run_election-Begins : (n : Node) → let (n', v, args) = run_election n in Begins n n' v args
unfolding run_election become_candidate persist_state become_leader majority finalize_election
run_election-Begins n = record {
  same_config = ground arith;
  next_term = ground arith;
  own_vote = ground arith;
  stands = ground arith;
  wins = ground arith;
  of_term = ground arith;
  votes = ground arith;
  asks_term = ground arith;
  asks_self = ground arith;
}

-- What a settled request does to the replica that has sent it: it keeps the ballot, or the election
-- is won.
pub vote_settled-Wins :
    (v : Election) (r : Option RequestVoteResult) (n : Node)
    → let (n', v') = on_vote_settled v r n in
      Keeps (ballot n) (ballot n')
      ⊎ ((n'.config ≡ n.config)
          × (n'.current_term ≡ n.current_term)
          × (n'.voted_for ≡ n.voted_for)
          × (is_follower n.state ≡ false)
          × (is_follower n'.state ≡ false)
          × (n.current_term ≡ v.term)
          × (majority n ≤ v'.votes_granted))
unfolding on_vote_settled
vote_settled-Wins v none n = ground arith
vote_settled-Wins v (some r) n = ground arith

abbrev pub gave : Option RequestVoteResult → Bool
gave none = false
gave (some r) = r.vote_granted

-- An answer adds at most the vote that it gives.
pub vote_settled-votes :
    (v : Election) (r : Option RequestVoteResult) (n : Node)
    → let v' = (on_vote_settled v r n).1 in
      (v'.term ≡ v.term) × (v'.votes_granted ≤ v.votes_granted + (if gave r then 1 else 0))
unfolding on_vote_settled
vote_settled-votes v none n = ground arith
vote_settled-votes v (some r) n = ground arith

-- A restart reads the term and the vote back.
pub ballot-construct :
    (n : Node)
    → IsSynced n
    → ballot (construct n.config (n.log).persistence) ≡ record (ballot n) { role = follower }
unfolding construct construct_from
ballot-construct n synced =
    let read = load_state-saved (memory_state n) (n.log).persistence synced in
    let restored : PersistedState → Ballot = λ s. record {
      config = n.config;
      term = s.current_term;
      vote = s.voted_for;
      role = follower;
    } in
    ballot-apply_committed _ ∙ ap restored read
