-- ===== src/Node/Vote/Elections.antt =====
-- `runElection`: who becomes leader once the replies are in.
use mathlib.Core.Path.{subst}
use quorum_canvas.Base.{
  ℕ, ◌+◌, ◌/◌, ◌<◌, ◌≡◌, refl, sym, ap, ◌∙◌, true, false, Option, List, [], ◌∷◌, All, arith, leb,
  length, ◌==◌, dec_le, inl, inr,
}
use quorum_canvas.Types.{RequestVoteResult}
use quorum_canvas.Node.{Node, is_leader, majority, become_leader, become_candidate, persist_state}
use quorum_canvas.Node.Vote.{Election, still_candidate, run_election, on_vote_settled}
use quorum_canvas.Node.Vote.Replies.{
  settle, granted, IsNoNewer, IsOpen, settle-settled, candidate_does_not_lead,
  on_vote_settled-Decided,
}

settle-none :
    (v : Election) (rs : List (Option RequestVoteResult)) (n : Node)
    → length rs ≡ 0
    → ((settle v rs n).0 ≡ n) × (granted rs ≡ 0)
unfolding settle
settle-none v [] n h = (refl, refl)
settle-none v (r ∷ rs) n h = absurd (omega arith)

settle-elects :
    (v : Election) (rs : List (Option RequestVoteResult)) (n : Node)
    → IsOpen v n
    → v.pending_replies ≡ length rs
    → All (IsNoNewer n.current_term) rs
    → is_leader (settle v rs n).0.state ≡ leb (majority n) (v.votes_granted + granted rs)
unfolding settle
settle-elects v [] n o pending old =
    let lost = candidate_does_not_lead v n o.running in let short = o.short in ground arith
settle-elects v (r ∷ rs) n o pending old =
    let n' = (on_vote_settled v r n).0 in
    let v' = (on_vote_settled v r n).1 in
    elim (on_vote_settled-Decided (length rs) v r n o pending old.0) [
      | inl (won, ended, many) ↦
          let stay = settle-settled v' rs n' ended in
          ap (λ m. is_leader m.state) stay ∙ won ∙ ground arith
      | inr (inl (same, still, votes, waits)) ↦
          let total : v'.votes_granted + granted rs ≡ v.votes_granted + granted (r ∷ rs) =
            omega arith in
          let rest = settle-elects v' rs n still waits old.1 in
          ap (λ m. is_leader (settle v' rs m).0.state) same ∙ rest ∙ ap (leb (majority n)) total
      | inr (inr (last, lost, few)) ↦
          let (stay, none_left) = settle-none v' rs n' last in
          ap (λ m. is_leader m.state) stay ∙ lost ∙ ground arith
    ]

majority_config : (m n : Node) → m.config ≡ n.config → majority m ≡ majority n
unfolding majority
majority_config m n e = ap (λ c. (length c.peers + 1) / 2 + 1) e

alone_suffices : (n : Node) (g : ℕ) → length n.peers ≡ 0 → true ≡ leb (majority n) (1 + g)
unfolding majority
alone_suffices n g h = ground arith

run_election_alone :
    (n : Node)
    → length n.peers ≡ 0
    → (is_leader (run_election n).0.state ≡ true) × ((run_election n).1.settled ≡ true)
unfolding run_election become_candidate persist_state become_leader majority
run_election_alone n h = ground arith

run_election_waits :
    (n : Node)
    → 0 < length n.peers
    → IsOpen (run_election n).1 (run_election n).0
      × ((run_election n).1.pending_replies ≡ length n.peers)
      × ((run_election n).1.votes_granted ≡ 1)
      × ((run_election n).0.current_term ≡ n.current_term + 1)
      × ((run_election n).0.config ≡ n.config)
unfolding run_election become_candidate persist_state majority still_candidate
run_election_waits n h =
    let waits : length n.peers == 0 ≡ false = ground arith in
    let more : 1 < (length n.peers + 1) / 2 + 1 = omega arith in
    simp waits
      (record { unsettled = refl; running = ground arith; short = more }, refl, refl, refl, refl)

-- Once every peer's request has settled, one after the other and with no reply of a higher term, the
-- candidate is leader exactly if the granted votes and its own are a majority of the cluster.
pub run_election-elects :
    (rs : List (Option RequestVoteResult)) (n : Node)
    → length rs ≡ length n.peers
    → All (IsNoNewer (n.current_term + 1)) rs
    → let (n1, v1, args) = run_election n in
      is_leader (settle v1 rs n1).0.state ≡ leb (majority n) (1 + granted rs)
run_election-elects rs n all old =
    let n1 = (run_election n).0 in
    let v1 = (run_election n).1 in
    elim (dec_le (length n.peers) 0) [
      | yes alone ↦
          let (leads, ended) = run_election_alone n (omega arith) in
          ap (λ m. is_leader m.state) (settle-settled v1 rs n1 ended)
          ∙ leads
          ∙ alone_suffices n (granted rs) (omega arith)
      | no others ↦
          let (o, waits, one, term, config) = run_election_waits n (omega arith) in
          settle-elects v1 rs n1 o (waits ∙ sym all)
            (subst (λ t. All (IsNoNewer t) rs) (sym term) old)
          ∙ rw (one, majority_config n1 n config) refl
    ]
