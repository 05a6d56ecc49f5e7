-- ===== src/Cluster/Local.antt =====
-- What holds of each replica of a cluster by itself, and that its moves keep it.
use quorum_canvas.Base.{
  ℕ, ◌<◌, ◌≡◌, ◌≢◌, ◌⊎◌, inl, inr, refl, String, true, false, Option, some, arith, eq_iff,
  Bool-cases, Option-cases, ap, sym, ◌∙◌, max,
}
use quorum_canvas.Types.{follower, RequestVoteArgs, RequestVoteResult}
use quorum_canvas.Node.{
  Node, is_follower, is_leader, construct, construct_from, apply_committed, maybe_snapshot,
  take_snapshot,
}
use quorum_canvas.Persistence.{Persistence, load_snapshot, load_state}
use quorum_canvas.Node.Vote.{
  Election, on_election_timeout, run_election, handle_request_vote, on_vote_settled,
}
use quorum_canvas.Node.Step.Term.{ballot}
use quorum_canvas.Node.Step.Saved.{IsSynced, memory_state}
use quorum_canvas.Node.Step.Recovery.{load_state-saved}
use quorum_canvas.RaftLog
use quorum_canvas.Node.Step.Synced.{
  request_vote-IsSynced, vote_settled-IsSynced, run_election-IsSynced, apply_committed-IsSynced,
}
use quorum_canvas.Cluster.{
  Replica, Campaign, with_node, campaigning, timed_out, answered, settled, restarted,
}
use quorum_canvas.Cluster.Ballots.{
  Keeps, IsOwn, Begins, gave, request_vote-Grants, run_election-Begins, vote_settled-Wins,
  vote_settled-votes, ballot-construct,
}

-- A vote given to another is the vote of its term; a replica that has led a term has voted for itself
-- in it, and for no one else.
pub record IsOrderly (r : Replica) : Type 0 where
  pub synced : IsSynced r.node
  pub own : IsOwn r.node
  pub voted :
      (x : String) (t : ℕ)
      → gave (r.answers x t) ≡ true
      → (t < (r.node).current_term)
        ⊎ ((t ≡ (r.node).current_term)
            × ((r.node).state ≡ follower)
            × ((r.node).voted_for ≡ some x))
  pub others : (x : String) (t : ℕ) → gave (r.answers x t) ≡ true → x ≢ (r.node).replica_id
  pub once :
      (x y : String) (t : ℕ) → gave (r.answers x t) ≡ true → gave (r.answers y t) ≡ true → x ≡ y
  pub leading : is_leader (r.node).state ≡ true → r.led (r.node).current_term ≡ true
  pub led_own :
      (t : ℕ)
      → r.led t ≡ true
      → (t < (r.node).current_term)
        ⊎ ((t ≡ (r.node).current_term) × ((r.node).voted_for ≡ some (r.node).replica_id))
  pub led_alone : (t : ℕ) (x : String) → r.led t ≡ true → gave (r.answers x t) ≡ false
  pub asking :
      (t : ℕ) (k : Campaign)
      → r.campaigns t ≡ some k
      → ((k.election).term ≡ t)
        × ((k.request).term ≡ t)
        × ((k.request).candidate_id ≡ (r.node).replica_id)

-- The replica goes on in a later term, where it follows or has voted for itself; or it keeps the term
-- and the vote; or it follows another leader of its term, in which it has not led.
abbrev pub Turns : Replica → Node → Type 0
Turns r n' =
    (n'.config ≡ (r.node).config)
    × (((r.node).current_term < n'.current_term × IsOwn n')
        ⊎ (((r.node).current_term ≡ n'.current_term)
            × (n'.voted_for ≡ (r.node).voted_for)
            × ((n'.state ≡ follower) ⊎ (is_follower (r.node).state ≡ false)))
        ⊎ (((r.node).current_term ≡ n'.current_term)
            × (is_follower (r.node).state ≡ false)
            × (n'.state ≡ follower)
            × (r.led (r.node).current_term ≡ false)))

pub with_node-IsOrderly :
    (n' : Node) (r : Replica) → IsOrderly r → Turns r n' → IsSynced n' → IsOrderly (with_node n' r)
with_node-IsOrderly n' r o turns synced =
    let own = o.own in
    let own' : IsOwn n' = ground arith in
    record {
      synced = synced;
      own = own';
      voted = λ x t g. let was = o.voted x t g in ground arith;
      others = λ x t g. let was = o.others x t g in ground arith;
      once = o.once;
      leading = λ h. ground arith;
      led_own = λ t h. let was = o.led_own t in ground arith;
      led_alone = λ t x h. let was = o.led_alone t x in let gone = o.voted x t in ground arith;
      asking = λ t k h. let was = o.asking t k h in ground arith;
    }

pub Keeps-Turns : (n' : Node) (r : Replica) → Keeps (ballot r.node) (ballot n') → Turns r n'
Keeps-Turns n' r k = ground arith

-- A vote request of another replica.
pub answered-IsOrderly :
    (args : RequestVoteArgs) (r : Replica)
    → IsOrderly r
    → args.candidate_id ≢ (r.node).replica_id
    → IsOrderly (answered args r)
answered-IsOrderly args r o apart =
    let n' = (handle_request_vote args r.node).0 in
    let reply = (handle_request_vote args r.node).1 in
    let synced' : IsSynced n' = request_vote-IsSynced args r.node o.synced in
    let id = args.candidate_id in
    elim (request_vote-Grants args r.node o.own apart) [
      | inl (gives, (same, term, vote, role, free)) ↦ record {
        synced = synced';
        own = ground arith;
        voted = λ x t g. let was = o.voted x t in ground (arith, eq_iff id x);
        others = λ x t g. let was = o.others x t in ground (arith, eq_iff id x);
        once = λ x y t g h.
            let was_x = o.voted x t in
            let was_y = o.voted y t in
            let was = o.once x y t in ground (arith, eq_iff id x, eq_iff id y);
        leading = λ h. ground arith;
        led_own = λ t h. let was = o.led_own t in ground arith;
        led_alone = λ t x h.
            let was = o.led_own t in let alone = o.led_alone t x in ground (arith, eq_iff id x);
        asking = λ t k h. let was = o.asking t k h in ground arith;
      }
      | inr (denies, keeps) ↦
          let w = with_node-IsOrderly n' r o (Keeps-Turns n' r keeps) synced' in
          record {
            synced = synced';
            own = w.own;
            voted = λ x t g. let was = w.voted x t in ground (arith, eq_iff id x);
            others = λ x t g. let was = w.others x t in ground (arith, eq_iff id x);
            once = λ x y t g h. let was = w.once x y t in ground (arith, eq_iff id x, eq_iff id y);
            leading = w.leading;
            led_own = w.led_own;
            led_alone = λ t x h. let was = w.led_alone t x h in ground (arith, eq_iff id x);
            asking = w.asking;
          }
    ]

-- A new election.
campaigning-IsOrderly :
    (n' : Node) (v : Election) (args : RequestVoteArgs) (r : Replica)
    → IsOrderly r
    → Begins r.node n' v args
    → IsSynced n'
    → IsOrderly (campaigning (some (n', v, args)) r)
campaigning-IsOrderly n' v args r o b synced =
    let config = b.same_config in
    let term = b.next_term in
    let vote = b.own_vote in
    let w = with_node-IsOrderly n' r o (ground arith) synced in
    record {
      synced = synced;
      own = w.own;
      voted = w.voted;
      others = w.others;
      once = w.once;
      leading = w.leading;
      led_own = w.led_own;
      led_alone = w.led_alone;
      asking = λ t k h.
          let of_term = b.of_term in
          let asks_term = b.asks_term in
          let asks_self = b.asks_self in let was = w.asking t k in ground arith;
    }

pub timed_out-IsOrderly : (r : Replica) → IsOrderly r → IsOrderly (timed_out r)
unfolding on_election_timeout
timed_out-IsOrderly r o = elim (Bool-cases (is_leader (r.node).state)) [
  | inl leads ↦ simp leads o
  | inr stands ↦ simp stands (
      campaigning-IsOrderly (run_election r.node).0 (run_election r.node).1 (run_election r.node).2
        r o (run_election-Begins r.node) (run_election-IsSynced r.node o.synced))
]

-- A settled request of the replica's own election.
pub settled-IsOrderly :
    (t : ℕ) (k : Campaign) (q : String) (reply : Option RequestVoteResult) (r : Replica)
    → IsOrderly r
    → r.campaigns t ≡ some k
    → IsOrderly (settled t k q reply r)
settled-IsOrderly t k q reply r o held =
    let n' = (on_vote_settled k.election reply r.node).0 in
    let won = vote_settled-Wins k.election reply r.node in
    let w =
      with_node-IsOrderly n' r o (ground arith)
        (vote_settled-IsSynced k.election reply r.node o.synced) in
    record {
      synced = w.synced;
      own = w.own;
      voted = w.voted;
      others = w.others;
      once = w.once;
      leading = w.leading;
      led_own = w.led_own;
      led_alone = w.led_alone;
      asking = λ u j h.
          let was = w.asking u j in
          let asked = w.asking t k held in
          let votes = vote_settled-votes k.election reply r.node in ground arith;
    }

persistence-open_log : (p : Persistence) → (RaftLog.open_log p).persistence ≡ p
unfolding RaftLog.open_log
persistence-open_log p = elim (Option-cases (load_snapshot p)) [
  | inl e ↦ simp e refl
  | inr (s, e) ↦ simp e refl
]

commit_index-apply_committed : (n : Node) → (apply_committed n).commit_index ≡ n.commit_index
unfolding apply_committed maybe_snapshot take_snapshot
commit_index-apply_committed n = ground arith

construct-IsSynced :
    (n : Node)
    → IsSynced n
    → (construct n.config (n.log).persistence).commit_index ≡ n.commit_index
    → IsSynced (construct n.config (n.log).persistence)
unfolding construct construct_from
construct-IsSynced n synced same =
    let p = (n.log).persistence in
    let read = load_state-saved (memory_state n) p synced in
    let term : (load_state p).current_term ≡ n.current_term = ap (λ s. s.current_term) read in
    let vote : (load_state p).voted_for ≡ n.voted_for = ap (λ s. s.voted_for) read in
    let commit : max (load_state p).commit_index (RaftLog.open_log p).last_included_index
        ≡ n.commit_index =
      sym (commit_index-apply_committed _) ∙ same in
    apply_committed-IsSynced _ (rw (term, vote, commit, persistence-open_log p) synced)

pub restarted-IsOrderly :
    (r : Replica)
    → IsOrderly r
    → (restarted r).node.commit_index ≡ (r.node).commit_index
    → IsOrderly (restarted r)
restarted-IsOrderly r o same =
    let n' = construct (r.node).config ((r.node).log).persistence in
    let back = ballot-construct r.node o.synced in
    let config : n'.config ≡ (r.node).config = ap (λ b. b.config) back in
    let term : n'.current_term ≡ (r.node).current_term = ap (λ b. b.term) back in
    let vote : n'.voted_for ≡ (r.node).voted_for = ap (λ b. b.vote) back in
    let role : n'.state ≡ follower = ap (λ b. b.role) back in
    let w =
      with_node-IsOrderly n' r o (config, inr (inl (sym term, vote, inl role)))
        (construct-IsSynced r.node o.synced same) in
    record {
      synced = w.synced;
      own = w.own;
      voted = w.voted;
      others = w.others;
      once = w.once;
      leading = w.leading;
      led_own = w.led_own;
      led_alone = w.led_alone;
      asking = w.asking;
    }
