-- ===== src/Node/Vote/Replies.antt =====
-- `runElection`: what one reply to a vote request does to the election.
use quorum_canvas.Base.{
  ℕ, suc, ◌+◌, ◌-◌, ◌≤◌, ◌<◌, ◌≡◌, ◌⊎◌, refl, ap, ◌∙◌, true, false, Option, none, some, List, [],
  ◌∷◌, arith, ltb, leb, ◌==◌, if◌then◌else◌, Bool-cases, dec_le, inl, inr,
}
use quorum_canvas.Types.{RequestVoteResult}
use quorum_canvas.Node.{Node, is_leader, majority, become_leader}
use quorum_canvas.Node.Vote.{
  Election, still_candidate, finalize_election, on_vote_reply, on_vote_done, on_vote_settled,
}

-- The requests settle one after the other, with no other event in between.
unfoldable pub settle : Election → List (Option RequestVoteResult) → Node → Node × Election
settle v [] n = (n, v)
settle v (r ∷ rs) n = let (n', v') = on_vote_settled v r n in settle v' rs n'

abbrev pub grants : Option RequestVoteResult → ℕ
grants none = 0
grants (some r) = if r.vote_granted then 1 else 0

-- How many of the replies grant the vote.
abbrev pub granted : List (Option RequestVoteResult) → ℕ
granted [] = 0
granted (r ∷ rs) = grants r + granted rs

-- No reply carries a term above `t`.
abbrev pub IsNoNewer : ℕ → Option RequestVoteResult → Type 0
IsNoNewer t none = Unit {0}
IsNoNewer t (some r) = r.term ≤ t

settled_stays :
    (v : Election) (r : Option RequestVoteResult) (n : Node)
    → v.settled ≡ true
    → ((on_vote_settled v r n).0 ≡ n) × ((on_vote_settled v r n).1.settled ≡ true)
unfolding on_vote_settled
settled_stays v none n h = ground arith
settled_stays v (some r) n h = ground arith

pub settle-settled :
    (v : Election) (rs : List (Option RequestVoteResult)) (n : Node)
    → v.settled ≡ true
    → (settle v rs n).0 ≡ n
unfolding settle
settle-settled v [] n h = refl
settle-settled v (r ∷ rs) n h =
    let (same, still) = settled_stays v r n h in
    settle-settled (on_vote_settled v r n).1 rs (on_vote_settled v r n).0 still ∙ same

-- An election that is not decided: the node is its candidate and short of a majority.
pub record IsOpen (v : Election) (n : Node) : Type 0 where
  pub unsettled : v.settled ≡ false
  pub running : still_candidate v n ≡ true
  pub short : v.votes_granted < majority n

-- What one reply does to an open election that still waits for `k` others: it elects the node, it
-- lets the election run on, or, as the last, it ends it without a leader.
abbrev pub Decided : ℕ → ℕ → Election → Node → Node × Election → Type 0
Decided k g v n (n', v') =
    ((is_leader n'.state ≡ true) × (v'.settled ≡ true) × (majority n ≤ v.votes_granted + g))
    ⊎ ((n' ≡ n) × IsOpen v' n × (v'.votes_granted ≡ v.votes_granted + g) × (v'.pending_replies ≡ k))
    ⊎ ((k ≡ 0) × (is_leader n'.state ≡ false) × (v.votes_granted + g < majority n))

pub candidate_does_not_lead :
    (v : Election) (n : Node) → still_candidate v n ≡ true → is_leader n.state ≡ false
unfolding still_candidate
candidate_does_not_lead v n h = ground arith

-- A reply that counts no vote, or a failed request.
done-Decided :
    (k : ℕ) (v : Election) (n : Node)
    → IsOpen v n
    → v.pending_replies ≡ suc k
    → Decided k 0 v n (on_vote_done (n, v))
unfolding on_vote_done finalize_election still_candidate
done-Decided k v n o pending =
    let short = o.short in
    let running = o.running in
    let few : leb (majority n) v.votes_granted ≡ false = ground arith in
    elim (dec_le k 0) [
      | yes last ↦
          let ends : v.pending_replies - 1 == 0 ≡ true = ground arith in
          simp (ends, o.unsettled, few, running)
            (inr (inr (omega arith, candidate_does_not_lead v n running, omega arith)))
      | no more ↦
          let waits : v.pending_replies - 1 == 0 ≡ false = ground arith in
          simp waits (
            inr (
              inl (
                refl,
                record { unsettled = o.unsettled; running = o.running; short = o.short },
                omega arith,
                omega arith,
              )))
    ]

-- What the `then` callback does with each reply to an open election.
module _ (v : Election) (r : RequestVoteResult) (n : Node) (o : IsOpen v n)
    (old : r.term ≤ n.current_term) where
  abbrev counted : Election
  counted = record v { votes_granted = v.votes_granted + 1 }

  reply_denied : r.vote_granted ≡ false → on_vote_reply v r n ≡ (n, v)
  unfolding on_vote_reply
  reply_denied h =
      let newer : ltb n.current_term r.term ≡ false = ground arith in
      rw (o.unsettled, o.running, newer, h) refl

  reply_counted :
      r.vote_granted ≡ true
      → leb (majority n) (v.votes_granted + 1) ≡ false
      → on_vote_reply v r n ≡ (n, counted)
  unfolding on_vote_reply
  reply_counted h few =
      let newer : ltb n.current_term r.term ≡ false = ground arith in
      rw (o.unsettled, o.running, newer, h, few) refl

  reply_elects :
      r.vote_granted ≡ true
      → leb (majority n) (v.votes_granted + 1) ≡ true
      → on_vote_reply v r n ≡ (become_leader n, record counted { settled = true })
  unfolding on_vote_reply finalize_election still_candidate
  reply_elects h many =
      let newer : ltb n.current_term r.term ≡ false = ground arith in
      let running = o.running in rw (o.unsettled, running, newer, h, many) refl

done_settled :
    (v : Election) (n : Node)
    → v.settled ≡ true
    → ((on_vote_done (n, v)).0 ≡ n) × ((on_vote_done (n, v)).1.settled ≡ true)
unfolding on_vote_done
done_settled v n h = ground arith

Decided-counted :
    (k : ℕ) (v : Election) (n : Node) (x : Node × Election)
    → Decided k 0 (record v { votes_granted = v.votes_granted + 1 }) n x
    → Decided k 1 v n x
Decided-counted k v n x (inl (won, ended, many)) = inl (won, ended, omega arith)
Decided-counted k v n x (inr (inl (same, still, votes, waits))) =
    inr (inl (same, still, omega arith, waits))
Decided-counted k v n x (inr (inr (last, lost, few))) = inr (inr (last, lost, omega arith))

granted-Decided :
    (k : ℕ) (v : Election) (r : RequestVoteResult) (n : Node)
    → IsOpen v n
    → v.pending_replies ≡ suc k
    → r.term ≤ n.current_term
    → r.vote_granted ≡ true
    → Decided k 1 v n (on_vote_done (on_vote_reply v r n))
unfolding become_leader still_candidate
granted-Decided k v r n o pending old grant =
    elim (Bool-cases (leb (majority n) (v.votes_granted + 1))) [
      | inl many ↦
          let (same, ended) =
            done_settled (record (counted v r n o old) { settled = true }) (become_leader n) refl in
          rw (reply_elects v r n o old grant many)
            (inl (ap (λ m. is_leader m.state) same, ended, ground arith))
      | inr few ↦ rw (reply_counted v r n o old grant few) (
          Decided-counted k v n _ (
            done-Decided k (counted v r n o old) n
              (record { unsettled = o.unsettled; running = o.running; short = ground arith })
              pending))
    ]

on_vote_settled-none : (v : Election) (n : Node) → on_vote_settled v none n ≡ on_vote_done (n, v)
unfolding on_vote_settled
on_vote_settled-none v n = refl

on_vote_settled-some :
    (v : Election) (r : RequestVoteResult) (n : Node)
    → on_vote_settled v (some r) n ≡ on_vote_done (on_vote_reply v r n)
unfolding on_vote_settled
on_vote_settled-some v r n = refl

pub on_vote_settled-Decided :
    (k : ℕ) (v : Election) (r : Option RequestVoteResult) (n : Node)
    → IsOpen v n
    → v.pending_replies ≡ suc k
    → IsNoNewer n.current_term r
    → Decided k (grants r) v n (on_vote_settled v r n)
on_vote_settled-Decided k v none n o pending old =
    rw (on_vote_settled-none v n) (done-Decided k v n o pending)
on_vote_settled-Decided k v (some r) n o pending old = elim (Bool-cases r.vote_granted) [
  | inl grant ↦
      simp (on_vote_settled-some v r n, grant) (granted-Decided k v r n o pending old grant)
  | inr denied ↦
      simp (on_vote_settled-some v r n, denied, reply_denied v r n o old denied)
        (done-Decided k v n o pending)
]
