-- ===== src/Cluster/Counting.antt =====
-- The votes of a campaign against the answers of the peers.
use quorum_canvas.Base.{
  ℕ, ◌+◌, ◌/◌, ◌≤◌, ◌≡◌, ◌⊎◌, inl, inr, ap, sym, ◌∙◌, String, Bool, true, false, ◌&&◌, not, Option,
  none, some, List, arith, eq_refl, if◌then◌else◌, str_eq, Bool-cases, ◌==◌, length,
}
use quorum_canvas.Map.StringSet
use quorum_canvas.Types.{follower, RequestVoteArgs, RequestVoteResult}
use quorum_canvas.Node.{Node, is_leader, majority, construct}
use quorum_canvas.Node.Vote.{
  Election, on_election_timeout, run_election, handle_request_vote, on_vote_settled,
}
use quorum_canvas.Cluster.{
  Replica, Cluster, Campaign, with_node, campaigning, timed_out, answered, settled, restarted,
}
use quorum_canvas.Cluster.Ballots.{
  Begins, gave, run_election-Begins, vote_settled-Wins, vote_settled-votes, ballot-construct,
}
use quorum_canvas.Cluster.Quorum.{count, count_mono, count_more}
use quorum_canvas.Cluster.Local.{IsOrderly}

-- The replicas that have voted for `id` in term `t`.
abbrev pub voters : Cluster → String → ℕ → String → Bool
voters c id t q = gave ((c q).answers id t)

-- Those of them whose answer has arrived.
abbrev pub backers : Cluster → String → ℕ → (String → Bool) → String → Bool
backers c id t waiting q = voters c id t q && not (waiting q)

-- No campaign has counted more votes than peers have given it, and a replica that has led a term has
-- had the votes of a majority.
pub record IsCounted (c : Cluster) (r : Replica) : Type 0 where
  pub asked : (t : ℕ) (q : String) → r.waiting t q ≡ true → StringSet.has q (r.node).peers ≡ true
  pub votes :
      (t : ℕ) (k : Campaign)
      → r.campaigns t ≡ some k
      → (k.election).votes_granted
        ≤ 1 + count (backers c (r.node).replica_id t (r.waiting t)) (r.node).peers
  pub elected :
      (t : ℕ)
      → r.led t ≡ true
      → majority r.node ≤ 1 + count (voters c (r.node).replica_id t) (r.node).peers

-- No answer that gives a vote is taken back.
abbrev pub Gives : Cluster → Cluster → Type 0
Gives c d =
    (q x : String) (t : ℕ) → gave ((c q).answers x t) ≡ true → gave ((d q).answers x t) ≡ true

pub IsCounted-mono : (c d : Cluster) (r : Replica) → Gives c d → IsCounted c r → IsCounted d r
IsCounted-mono c d r g h =
    let id = (r.node).replica_id in
    record {
      asked = h.asked;
      votes = λ t k held.
          let more =
            count_mono (backers c id t (r.waiting t)) (backers d id t (r.waiting t)) (r.node).peers
              (λ q. let gives = g q id t in ground arith) in
          let was = h.votes t k held in omega arith;
      elected = λ t led.
          let more = count_mono (voters c id t) (voters d id t) (r.node).peers (λ q. g q id t) in
          let was = h.elected t led in omega arith;
    }

majority_config : (m n : Node) → m.config ≡ n.config → majority m ≡ majority n
unfolding majority
majority_config m n e = ap (λ c. (length c.peers + 1) / 2 + 1) e

-- A move in which the replica does not come to lead.
abbrev pub IsQuiet : Node → Node → Type 0
IsQuiet n n' =
    (n'.config ≡ n.config)
    × (is_leader n'.state ≡ true → (is_leader n.state ≡ true) × (n'.current_term ≡ n.current_term))

pub with_node-IsCounted :
    (c : Cluster) (n' : Node) (r : Replica)
    → IsOrderly r
    → IsCounted c r
    → IsQuiet r.node n'
    → IsCounted c (with_node n' r)
with_node-IsCounted c n' r o h (same, quiet) = record {
  asked = λ t q waits. rw same (h.asked t q waits);
  votes = λ t k held. rw same (h.votes t k held);
  elected = λ t led.
      let leading = o.leading in
      let earlier : r.led t ≡ true = ground arith in
      rw (majority_config n' r.node same, same) (h.elected t earlier);
}

pub answered-IsCounted :
    (c : Cluster) (args : RequestVoteArgs) (r : Replica)
    → IsOrderly r
    → IsCounted c r
    → IsQuiet r.node (handle_request_vote args r.node).0
    → IsCounted c (answered args r)
answered-IsCounted c args r o h q =
    let w = with_node-IsCounted c (handle_request_vote args r.node).0 r o h q in
    record { asked = w.asked; votes = w.votes; elected = w.elected }

pub restarted-IsCounted :
    (c : Cluster) (r : Replica) → IsOrderly r → IsCounted c r → IsCounted c (restarted r)
restarted-IsCounted c r o h =
    let n' = construct (r.node).config ((r.node).log).persistence in
    let back = ballot-construct r.node o.synced in
    let config : n'.config ≡ (r.node).config = ap (λ b. b.config) back in
    let role : n'.state ≡ follower = ap (λ b. b.role) back in
    let w = with_node-IsCounted c n' r o h (config, ground arith) in
    record {
      asked = λ t q waits. ground arith;
      votes = λ t k held.
          let id = n'.replica_id in
          let more =
            count_mono (backers c id t (r.waiting t)) (backers c id t (λ _. false)) n'.peers
              (λ q. ground arith) in
          let was = w.votes t k held in omega arith;
      elected = w.elected;
    }

-- A new election has the replica's own vote.
campaigning-IsCounted :
    (c : Cluster) (n' : Node) (v : Election) (args : RequestVoteArgs) (r : Replica)
    → IsOrderly r
    → IsCounted c r
    → Begins r.node n' v args
    → IsCounted c (campaigning (some (n', v, args)) r)
campaigning-IsCounted c n' v args r o h b =
    let same = b.same_config in
    let r' = campaigning (some (n', v, args)) r in
    let id = n'.replica_id in
    record {
      asked = λ t q waits. elim (Bool-cases (args.term == t)) [
        | inl new ↦ ground arith
        | inr old ↦ rw same (h.asked t q (ground arith))
      ];
      votes = λ t k held. elim (Bool-cases (args.term == t)) [
        | inl new ↦ let one = b.votes in ground arith
        | inr old ↦
            let more =
              count_mono (backers c id t (r.waiting t)) (backers c id t (r'.waiting t)) n'.peers
                (λ q. ground arith) in
            let was : (k.election).votes_granted
                ≤ 1 + count (backers c id t (r.waiting t)) n'.peers =
              rw same (h.votes t k (ground arith)) in
            omega arith
      ];
      elected = λ t led. elim (Bool-cases (r.led t)) [
        | inl earlier ↦ rw (majority_config n' r.node same, same) (h.elected t earlier)
        | inr new ↦
            let alone = b.wins in let quorum = majority_config n' r.node same in ground arith
      ];
    }

pub timed_out-IsCounted :
    (c : Cluster) (r : Replica) → IsOrderly r → IsCounted c r → IsCounted c (timed_out r)
unfolding on_election_timeout
timed_out-IsCounted c r o h = elim (Bool-cases (is_leader (r.node).state)) [
  | inl leads ↦ simp leads h
  | inr stands ↦ simp stands (
      campaigning-IsCounted c (run_election r.node).0 (run_election r.node).1
        (run_election r.node).2 r o h (run_election-Begins r.node))
]

-- The vote that a settled request adds is one that the peer has given.
backers_more :
    (c : Cluster) (id : String) (t : ℕ) (q : String) (w w' : String → Bool)
    (reply : Option RequestVoteResult) (peers : List String)
    → ((p : String) → w' p ≡ (if str_eq q p then false else w p))
    → w q ≡ true
    → StringSet.has q peers ≡ true
    → (reply ≡ none) ⊎ (reply ≡ (c q).answers id t)
    → count (backers c id t w) peers + (if gave reply then 1 else 0)
      ≤ count (backers c id t w') peers
backers_more c id t q w w' reply peers now waits peer from =
    let up : (p : String) → backers c id t w p ≡ true → backers c id t w' p ≡ true =
      λ p h. let at_p = now p in ground arith in
    elim (Bool-cases (gave reply)) [
      | inl yes_vote ↦
          let more =
            count_more (backers c id t w) (backers c id t w') q peers up peer (ground arith)
              (let at_q = now q in ground (arith, eq_refl q)) in
          ground arith
      | inr no_vote ↦
          let more = count_mono (backers c id t w) (backers c id t w') peers up in ground arith
    ]

pub settled-IsCounted :
    (c : Cluster) (t : ℕ) (k : Campaign) (q : String) (reply : Option RequestVoteResult)
    (r : Replica)
    → IsOrderly r
    → IsCounted c r
    → r.campaigns t ≡ some k
    → r.waiting t q ≡ true
    → (reply ≡ none) ⊎ (reply ≡ (c q).answers (k.request).candidate_id t)
    → IsCounted c (settled t k q reply r)
settled-IsCounted c t k q reply r o h held waits from =
    let v = k.election in
    let n' = (on_vote_settled v reply r.node).0 in
    let v' = (on_vote_settled v reply r.node).1 in
    let won = vote_settled-Wins v reply r.node in
    let same : n'.config ≡ (r.node).config = ground arith in
    let r' = settled t k q reply r in
    let id = n'.replica_id in
    let candidate : (k.request).candidate_id ≡ id =
      (o.asking t k held).2 ∙ ap (λ x. x.replica_id) (sym same) in
    let peer : StringSet.has q n'.peers ≡ true = rw same (h.asked t q waits) in
    let more =
      backers_more c id t q (r.waiting t) (r'.waiting t) reply n'.peers (λ p. ground arith) waits
        peer (rw (sym candidate) from) in
    let votes' : v'.votes_granted ≤ 1 + count (backers c id t (r'.waiting t)) n'.peers =
      let was : v.votes_granted ≤ 1 + count (backers c id t (r.waiting t)) n'.peers =
        rw same (h.votes t k held) in
      let counted = vote_settled-votes v reply r.node in omega arith in
    record {
      asked = λ u p still. rw same (h.asked u p (ground arith));
      votes = λ u j has. elim (Bool-cases (t == u)) [
        | inl this ↦ ground arith
        | inr other ↦
            let grown =
              count_mono (backers c id u (r.waiting u)) (backers c id u (r'.waiting u)) n'.peers
                (λ p. ground arith) in
            let was : (j.election).votes_granted
                ≤ 1 + count (backers c id u (r.waiting u)) n'.peers =
              rw same (h.votes u j (ground arith)) in
            omega arith
      ];
      elected = λ u led. elim (Bool-cases (r.led u)) [
        | inl earlier ↦ rw (majority_config n' r.node same, same) (h.elected u earlier)
        | inr new ↦
            let leading = o.leading in
            let asking = o.asking t k held in
            let voted =
              count_mono (backers c id t (r'.waiting t)) (voters c id t) n'.peers
                (λ p. ground arith) in
            let quorum = majority_config n' r.node same in ground arith
      ];
    }
