-- ===== src/Node/Vote/Ballots.antt =====
-- Which candidate the RequestVote handler votes for.
use quorum_canvas.Base.{
  ℕ, ◌≤◌, ◌<◌, ◌≡◌, refl, ◌⊎◌, ◌↔◌, String, true, Option, none, some, arith, eq_iff,
}
use quorum_canvas.Types.{RequestVoteArgs}
use quorum_canvas.RaftLog
use quorum_canvas.RaftLog.{RaftLog}
use quorum_canvas.Node.{Node, persist_state}
use quorum_canvas.Node.Vote.{
  is_log_up_to_date, may_vote_for, can_vote, adopt_term, grant_vote, handle_request_vote,
}

-- The candidate's log is at least as far as this one: by the last term, then by the last index.
abbrev pub IsUpToDate : RequestVoteArgs → RaftLog → Type 0
IsUpToDate args l =
    (RaftLog.get_last_term l < args.last_log_term)
    ⊎ ((args.last_log_term ≡ RaftLog.get_last_term l)
        × (RaftLog.get_last_index l ≤ args.last_log_index))

-- The vote of the request's term is free: the term is new to the node, or it has not voted in it, or
-- it has voted for this candidate.
abbrev pub IsFree : RequestVoteArgs → Node → Type 0
IsFree args n =
    (n.current_term < args.term)
    ⊎ ((n.current_term ≡ args.term)
        × ((n.voted_for ≡ none) ⊎ (n.voted_for ≡ some args.candidate_id)))

is_log_up_to_date_iff :
    (args : RequestVoteArgs) (n : Node)
    → (is_log_up_to_date args.last_log_index args.last_log_term n ≡ true) ↔ IsUpToDate args n.log
unfolding is_log_up_to_date
is_log_up_to_date_iff args n = ground arith

may_vote_for_iff :
    (c : String) (vote : Option String)
    → (may_vote_for c vote ≡ true) ↔ ((vote ≡ none) ⊎ (vote ≡ some c))
unfolding may_vote_for
may_vote_for_iff c none = ground arith
may_vote_for_iff c (some v) = ground (arith, eq_iff v c)

-- Adopting a newer term frees the vote and leaves the log's end where it was.
adopt_term_lem :
    (t : ℕ) (n : Node)
    → (RaftLog.get_last_term (adopt_term t n).log ≡ RaftLog.get_last_term n.log)
      × (RaftLog.get_last_index (adopt_term t n).log ≡ RaftLog.get_last_index n.log)
      × ((n.current_term < t
            × ((adopt_term t n).current_term ≡ t)
            × ((adopt_term t n).voted_for ≡ none))
          ⊎ (t ≤ n.current_term
              × ((adopt_term t n).current_term ≡ n.current_term)
              × ((adopt_term t n).voted_for ≡ n.voted_for)))
unfolding adopt_term persist_state RaftLog.get_last_term RaftLog.get_last_index
adopt_term_lem t n = ground arith

can_vote_iff :
    (args : RequestVoteArgs) (n : Node)
    → (can_vote args (adopt_term args.term n) ≡ true) ↔ (IsFree args n × IsUpToDate args n.log)
unfolding can_vote
can_vote_iff args n =
    let n1 = adopt_term args.term n in
    ground (
      arith,
      adopt_term_lem args.term n,
      is_log_up_to_date_iff args n1,
      may_vote_for_iff args.candidate_id n1.voted_for,
    )

-- A vote is granted exactly when the vote of the term is free and the candidate's log is at least as
-- far as the voter's; the voter is then in the request's term with the vote recorded.
pub handle_request_vote_lem :
    (args : RequestVoteArgs) (n : Node)
    → let (n', r) = handle_request_vote args n in
      ((r.vote_granted ≡ true) ↔ (IsFree args n × IsUpToDate args n.log))
      × (r.vote_granted ≡ true
          → (n'.current_term ≡ args.term) × (n'.voted_for ≡ some args.candidate_id))
      × (r.term ≡ n'.current_term)
unfolding handle_request_vote
handle_request_vote_lem args n = (
  can_vote_iff args n,
  (λ granted. simp granted (unfold grant_vote persist_state in (refl, refl))),
  refl,
)
