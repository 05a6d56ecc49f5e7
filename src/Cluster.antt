-- ===== src/Cluster.antt =====
-- A cluster of the replicas of replica/src/raftNode.ts: the replicas at their addresses, the elections
-- that they hold and the answers to their vote requests. Any of them may move next: requests and
-- answers may be late or lost, and a replica may crash and start again on its files.
pub mod Ballots
pub mod Quorum
pub mod Local
pub mod Counting
pub mod Leaders
pub mod Safety
pub mod Sent
use quorum_canvas.Base.{
  ℕ, String, Bool, true, false, ◌&&◌, ◌||◌, ◌≡◌, ◌⊎◌, Option, none, some, List, str_eq, ◌==◌,
  if◌then◌else◌,
}
use quorum_canvas.Map.StringSet
use quorum_canvas.Types.{RequestVoteArgs, RequestVoteResult}
use quorum_canvas.Node.{Node, is_leader, construct}
use quorum_canvas.Node.Vote.{Election, on_election_timeout, on_vote_settled, handle_request_vote}
use quorum_canvas.Node.Step.{
  Event, append_entries, heartbeat, install_snapshot, request_vote, times_out, vote_settles, step,
}

-- An election with the request that it sends to every peer.
pub record Campaign : Type 0 where
  pub election : Election
  pub request : RequestVoteArgs

-- A replica and what became of it: its elections by their terms, the peers whose request is not
-- settled, its answers to the candidates by their ids and terms, and the terms in which it has led.
pub record Replica : Type 0 where
  pub node : Node
  pub campaigns : ℕ → Option Campaign
  pub waiting : ℕ → String → Bool
  pub answers : String → ℕ → Option RequestVoteResult
  pub led : ℕ → Bool

-- By the addresses that the replicas have in `peers`.
abbrev pub Cluster : Type 0
Cluster = String → Replica

abbrev pub put : String → Replica → Cluster → Cluster
put a r c b = if str_eq a b then r else c b

abbrev pub with_node : Node → Replica → Replica
with_node n r = record r {
  node = n;
  led = λ t. r.led t || (is_leader n.state && n.current_term == t);
}

abbrev campaign_of : Election → RequestVoteArgs → Campaign
campaign_of v args = record { election = v; request = args }

abbrev pub campaigning : Option (Node × Election × RequestVoteArgs) → Replica → Replica
campaigning none r = r
campaigning (some (n, v, args)) r = record (with_node n r) {
  campaigns = λ t. if args.term == t then some (campaign_of v args) else r.campaigns t;
  waiting = λ t q. if args.term == t then StringSet.has q n.peers else r.waiting t q;
}

-- The election timer fires.
abbrev pub timed_out : Replica → Replica
timed_out r = campaigning (on_election_timeout r.node) r

-- A vote request arrives and is answered.
abbrev pub answered : RequestVoteArgs → Replica → Replica
answered args r = record (with_node (handle_request_vote args r.node).0 r) {
  answers = λ id t.
      if str_eq args.candidate_id id && args.term == t
      then some (handle_request_vote args r.node).1
      else r.answers id t;
}

-- The request to `q` in the election of term `t` settles; `none` is a failed RPC.
abbrev pub settled : ℕ → Campaign → String → Option RequestVoteResult → Replica → Replica
settled t k q reply r = record (with_node (on_vote_settled k.election reply r.node).0 r) {
  campaigns = λ u.
      if t == u
      then some (campaign_of (on_vote_settled k.election reply r.node).1 k.request)
      else r.campaigns u;
  waiting = λ u p. if t == u && str_eq q p then false else r.waiting u p;
}

-- A crash and a restart on the files: the requests in flight are forgotten.
abbrev pub restarted : Replica → Replica
restarted r = record (with_node (construct (r.node).config ((r.node).log).persistence) r) {
  waiting = λ _ _. false;
}

-- The term of a message that only leaders send.
abbrev pub leader_term : Event → Option ℕ
leader_term (append_entries args) = some args.term
leader_term (heartbeat args) = some args.term
leader_term (install_snapshot args) = some args.term
leader_term _ = none

-- Every event but elections, votes and the messages of leaders.
abbrev pub is_other : Event → Bool
is_other times_out = false
is_other (vote_settles v r) = false
is_other (request_vote args) = false
is_other (append_entries args) = false
is_other (heartbeat args) = false
is_other (install_snapshot args) = false
is_other _ = true

-- What may become of the replica at `a` next. A vote request comes from an election that was held,
-- and reaches a peer at most once; what settles it is the peer's answer or a failure. A message of a
-- leader comes from a replica that has led its term, and holds whatever else it may hold. A restart is
-- taken to find the commit index again; the term and the vote are what it reads.
pub data Move (members : List String) (c : Cluster) (a : String) : Replica → Type 0 where
  elects : Move members c a (timed_out (c a))
  votes :
      (q : String) (t : ℕ) (k : Campaign)
      → StringSet.has q members ≡ true
      → (c q).campaigns t ≡ some k
      → StringSet.has a (c q).node.peers ≡ true
      → (c a).answers (k.request).candidate_id t ≡ none
      → Move members c a (answered k.request (c a))
  hears :
      (q : String) (t : ℕ) (e : Event)
      → StringSet.has q members ≡ true
      → (c q).led t ≡ true
      → StringSet.has a (c q).node.peers ≡ true
      → leader_term e ≡ some t
      → Move members c a (with_node (step e (c a).node) (c a))
  counts :
      (q : String) (t : ℕ) (k : Campaign) (reply : Option RequestVoteResult)
      → (c a).campaigns t ≡ some k
      → (c a).waiting t q ≡ true
      → (reply ≡ none) ⊎ (reply ≡ (c q).answers (k.request).candidate_id t)
      → Move members c a (settled t k q reply (c a))
  does : (e : Event) → is_other e ≡ true → Move members c a (with_node (step e (c a).node) (c a))
  restarts :
      (restarted (c a)).node.commit_index ≡ (c a).node.commit_index
      → Move members c a (restarted (c a))

pub data Step (members : List String) (c : Cluster) : Cluster → Type 0 where
  pick :
      (a : String) {r : Replica}
      → StringSet.has a members ≡ true
      → Move members c a r
      → Step members c (put a r c)

pub data Reach (members : List String) (s : Cluster) : Cluster → Type 0 where
  here : Reach members s s
  next : {c d : Cluster} → Reach members s c → Step members c d → Reach members s d
