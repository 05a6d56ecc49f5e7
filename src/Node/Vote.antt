-- ===== src/Node/Vote.antt =====
-- Elections in replica/src/raftNode.ts: the timeout, the candidate's count of replies and the
-- RequestVote handler.
pub mod Ballots
pub mod Replies
pub mod Elections
use quorum_canvas.Base.{
  ℕ, ◌+◌, ◌-◌, String, Bool, true, false, ◌&&◌, ◌||◌, not, Option, none, some, str_eq, ltb, leb,
  ◌==◌, if◌then◌else◌, length,
}
use quorum_canvas.Types.{RequestVoteArgs, RequestVoteResult}
use quorum_canvas.RaftLog
use quorum_canvas.Node.{
  Node, is_leader, is_candidate, persist_state, reset_election, become_follower, become_candidate,
  become_leader, majority,
}

-- The variables that the replies of one election share: `args.term`, `votesGranted`,
-- `pendingReplies` and `settled`.
pub record Election : Type 0 where
  pub term : ℕ
  pub votes_granted : ℕ
  pub pending_replies : ℕ
  pub settled : Bool

-- `this.state === Candidate && this.currentTerm === args.term`
unfoldable pub still_candidate : Election → Node → Bool
still_candidate v n = is_candidate n.state && n.current_term == v.term

unfoldable pub finalize_election : Election → Node → Node × Election
unfolding still_candidate become_leader reset_election majority
finalize_election v n =
    let next =
      if still_candidate v n
      then (if leb (majority n) v.votes_granted then become_leader n else reset_election n)
      else n in
    if v.settled then (n, v) else (next, record v { settled = true })

unfoldable pub request_vote_args : Node → RequestVoteArgs
request_vote_args n = record {
  term = n.current_term;
  candidate_id = n.replica_id;
  last_log_index = RaftLog.get_last_index n.log;
  last_log_term = RaftLog.get_last_term n.log;
}

-- `runElection` up to the requests that it sends; with no peer it is decided at once.
unfoldable pub run_election : Node → Node × Election × RequestVoteArgs
unfolding become_candidate finalize_election request_vote_args
run_election n =
    let c = become_candidate n in
    let v : Election = record {
      term = c.current_term;
      votes_granted = 1;
      pending_replies = length c.peers;
      settled = false;
    } in
    let (n', v') = finalize_election v c in
    if v.pending_replies == 0 then (n', v', request_vote_args c) else (c, v, request_vote_args c)

unfoldable pub on_election_timeout : Node → Option (Node × Election × RequestVoteArgs)
unfolding run_election
on_election_timeout n = if is_leader n.state then none else some (run_election n)

-- The `then` callback, on the reply of a peer.
unfoldable pub on_vote_reply : Election → RequestVoteResult → Node → Node × Election
unfolding finalize_election become_follower
on_vote_reply v reply n =
    let counted = record v { votes_granted = v.votes_granted + 1 } in
    if v.settled || not (still_candidate v n)
    then (n, v)
    else if ltb n.current_term reply.term
    then finalize_election v (become_follower reply.term none none n)
    else if reply.vote_granted
    then (if leb (majority n) counted.votes_granted
        then finalize_election counted n
        else (n, counted))
    else (n, v)

-- The `finally` callback.
unfoldable pub on_vote_done : Node × Election → Node × Election
unfolding finalize_election
on_vote_done (n, v) =
    let done = record v { pending_replies = v.pending_replies - 1 } in
    if done.pending_replies == 0 then finalize_election done n else (n, done)

-- What a settled request does; `none` is a failed RPC, which `catch` ignores.
unfoldable pub on_vote_settled : Election → Option RequestVoteResult → Node → Node × Election
unfolding on_vote_reply on_vote_done
on_vote_settled v none n = on_vote_done (n, v)
on_vote_settled v (some reply) n = on_vote_done (on_vote_reply v reply n)

unfoldable pub is_log_up_to_date : ℕ → ℕ → Node → Bool
is_log_up_to_date last_index last_term n =
    let mine = RaftLog.get_last_term n.log in
    if not (last_term == mine)
    then ltb mine last_term
    else leb (RaftLog.get_last_index n.log) last_index

-- `this.votedFor === null || this.votedFor === candidateId`
unfoldable pub may_vote_for : String → Option String → Bool
may_vote_for c none = true
may_vote_for c (some v) = str_eq v c

unfoldable pub can_vote : RequestVoteArgs → Node → Bool
can_vote args n =
    leb n.current_term args.term
    && may_vote_for args.candidate_id n.voted_for
    && is_log_up_to_date args.last_log_index args.last_log_term n

-- `if (args.term > this.currentTerm) this.becomeFollower(args.term)`
unfoldable pub adopt_term : ℕ → Node → Node
unfolding become_follower
adopt_term term n = if ltb n.current_term term then become_follower term none none n else n

unfoldable pub grant_vote : RequestVoteArgs → Node → Node
unfolding reset_election
grant_vote args n =
    reset_election
      (persist_state (record n { voted_for = some args.candidate_id; current_term = args.term }))

unfoldable pub handle_request_vote : RequestVoteArgs → Node → Node × RequestVoteResult
handle_request_vote args n =
    let n1 = adopt_term args.term n in
    let granted = can_vote args n1 in
    let n2 = if granted then grant_vote args n1 else n1 in
    (n2, record { term = n2.current_term; vote_granted = granted; responder_id = n2.replica_id })
