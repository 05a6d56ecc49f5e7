-- ===== src/Cluster/Safety.antt =====
-- Election safety: in every state that a cluster reaches, a term has at most one leader.
use quorum_canvas.Base.{
  ℕ, ◌≡◌, ◌≢◌, ◌⊎◌, inl, inr, ap, sym, ◌∙◌, String, true, List, arith, eq_iff, str_eq, Bool-cases,
}
use quorum_canvas.Map.StringSet
use quorum_canvas.Node.{is_leader}
use quorum_canvas.Node.Vote.{on_election_timeout}
use quorum_canvas.Node.Step.{step}
use quorum_canvas.Node.Step.Synced.{step-IsSynced}
use quorum_canvas.Cluster.{
  Replica, Cluster, timed_out, put, Move, elects, votes, hears, counts, does, restarts, Step, pick,
  Reach, here, next,
}
use quorum_canvas.Cluster.Ballots.{
  gave, request_vote-Grants, run_election-Begins, vote_settled-Wins, ballot-construct, other-Keeps,
  leader-Follows,
}
use quorum_canvas.Cluster.Local.{
  IsOrderly, Keeps-Turns, with_node-IsOrderly, answered-IsOrderly, timed_out-IsOrderly,
  settled-IsOrderly, restarted-IsOrderly,
}
use quorum_canvas.Cluster.Counting.{
  IsCounted, IsCounted-mono, Gives, with_node-IsCounted, answered-IsCounted, timed_out-IsCounted,
  settled-IsCounted, restarted-IsCounted,
}
use quorum_canvas.Cluster.Leaders.{IsMember, IsConfigured, IsFresh, IsRegular, one_leader}

-- What a move makes of a replica.
record IsMoved (c : Cluster) (a : String) (r : Replica) : Type 0 where
  orderly : IsOrderly r
  counted : IsCounted c r
  config : (r.node).config ≡ (c a).node.config
  gives : (x : String) (t : ℕ) → gave ((c a).answers x t) ≡ true → gave (r.answers x t) ≡ true

config-timed_out : (r : Replica) → (timed_out r).node.config ≡ (r.node).config
unfolding on_election_timeout
config-timed_out r = let same = (run_election-Begins r.node).same_config in ground arith

answers-timed_out : (r : Replica) → (timed_out r).answers ≡ r.answers
unfolding on_election_timeout
answers-timed_out r = ground arith

-- The candidate is another replica than a peer of its.
other_id :
    (members : List String) (c : Cluster) (a q : String)
    → IsRegular members c
    → IsMember members a
    → IsMember members q
    → StringSet.has a (c q).node.peers ≡ true
    → (q ≢ a) × ((c q).node.replica_id ≢ (c a).node.replica_id)
other_id members c a q reg ma mq peer =
    let others = reg.configured.others q mq in
    let distinct = reg.configured.distinct q a mq ma in
    let apart : q ≢ a = λ e. ground (arith, ap (λ x. StringSet.has x (c q).node.peers) e) in
    (apart, λ e. apart (distinct e))

Move-IsMoved :
    (members : List String) (c : Cluster) (a : String) (r : Replica)
    → IsRegular members c
    → IsMember members a
    → Move members c a r
    → IsMoved c a r
Move-IsMoved members c a _ reg m elects = record {
  orderly = timed_out-IsOrderly (c a) (reg.orderly a m);
  counted = timed_out-IsCounted c (c a) (reg.orderly a m) (reg.counted a m);
  config = config-timed_out (c a);
  gives = λ x t g. rw (answers-timed_out (c a)) g;
}
Move-IsMoved members c a _ reg m (votes q t k mq held peer first) =
    let o = reg.orderly a m in
    let asking = (reg.orderly q mq).asking t k held in
    let apart = other_id members c a q reg m mq peer in
    let other : (k.request).candidate_id ≢ (c a).node.replica_id =
      λ e. apart.1 (sym asking.2 ∙ e) in
    let g = request_vote-Grants k.request (c a).node o.own other in
    record {
      orderly = answered-IsOrderly k.request (c a) o other;
      counted = answered-IsCounted c k.request (c a) o (reg.counted a m) (ground arith);
      config = ground arith;
      gives = λ x u h. ground (arith, eq_iff (k.request).candidate_id x);
    }
Move-IsMoved members c a _ reg m (hears q t e mq led peer from) =
    let o = reg.orderly a m in
    let apart = other_id members c a q reg m mq peer in
    let f = leader-Follows e t (c a).node from in
    let alone : (c a).led t ≡ true → q ≡ a = one_leader members c q a t reg mq m led in
    record {
      orderly =
          with_node-IsOrderly (step e (c a).node) (c a) o (ground arith)
            (step-IsSynced e (c a).node o.synced);
      counted = with_node-IsCounted c (step e (c a).node) (c a) o (reg.counted a m) (ground arith);
      config = ground arith;
      gives = λ x u h. h;
    }
Move-IsMoved members c a _ reg m (counts q t k reply held waits from) =
    let o = reg.orderly a m in
    let won = vote_settled-Wins k.election reply (c a).node in
    record {
      orderly = settled-IsOrderly t k q reply (c a) o held;
      counted = settled-IsCounted c t k q reply (c a) o (reg.counted a m) held waits from;
      config = ground arith;
      gives = λ x u h. h;
    }
Move-IsMoved members c a _ reg m (does e own) =
    let o = reg.orderly a m in
    let k = other-Keeps e (c a).node own in
    record {
      orderly =
          with_node-IsOrderly (step e (c a).node) (c a) o (Keeps-Turns (step e (c a).node) (c a) k)
            (step-IsSynced e (c a).node o.synced);
      counted = with_node-IsCounted c (step e (c a).node) (c a) o (reg.counted a m) (ground arith);
      config = ground arith;
      gives = λ x u h. h;
    }
Move-IsMoved members c a _ reg m (restarts same) =
    let o = reg.orderly a m in
    record {
      orderly = restarted-IsOrderly (c a) o same;
      counted = restarted-IsCounted c (c a) o (reg.counted a m);
      config = ap (λ b. b.config) (ballot-construct (c a).node o.synced);
      gives = λ x u h. h;
    }

config-put :
    (c : Cluster) (a b : String) (r : Replica)
    → (r.node).config ≡ (c a).node.config
    → (put a r c b).node.config ≡ (c b).node.config
config-put c a b r same = ground (arith, eq_iff a b)

IsConfigured-put :
    (members : List String) (c d : Cluster)
    → ((b : String) → (d b).node.config ≡ (c b).node.config)
    → IsConfigured members c
    → IsConfigured members d
IsConfigured-put members c d same h = record {
  listed = λ a m. rw (same a) (h.listed a m);
  others = λ a m. rw (same a) (h.others a m);
  distinct = λ a b ma mb e. h.distinct a b ma mb (rw (same a, same b) at e);
}

Step-IsRegular :
    (members : List String) (c d : Cluster)
    → IsRegular members c
    → Step members c d
    → IsRegular members d
Step-IsRegular members c _ reg (pick a {r} m move) =
    let moved = Move-IsMoved members c a r reg m move in
    let gives : Gives c (put a r c) =
      λ q x t g. let at_a = moved.gives x t in ground (arith, eq_iff a q) in
    record {
      configured =
          IsConfigured-put members c (put a r c) (λ b. config-put c a b r moved.config)
            reg.configured;
      orderly = λ b mb. elim (Bool-cases (str_eq a b)) [
        | inl this ↦ simp this moved.orderly
        | inr other ↦ simp other (reg.orderly b mb)
      ];
      counted = λ b mb. elim (Bool-cases (str_eq a b)) [
        | inl this ↦ simp this (IsCounted-mono c (put a r c) r gives moved.counted)
        | inr other ↦ simp other (IsCounted-mono c (put a r c) (c b) gives (reg.counted b mb))
      ];
    }

Reach-IsRegular :
    (members : List String) (s c : Cluster)
    → IsRegular members s
    → Reach members s c
    → IsRegular members c
Reach-IsRegular members s _ reg here = reg
Reach-IsRegular members s d reg (next {c} r st) =
    Step-IsRegular members c d (Reach-IsRegular members s c reg r) st

fresh-IsOrderly : (r : Replica) → IsFresh r → IsOrderly r
fresh-IsOrderly r f =
    let follows = f.follows in
    record {
      synced = f.synced;
      own = ground arith;
      voted = λ x t g. let empty = f.no_answer x t in ground arith;
      others = λ x t g. let empty = f.no_answer x t in ground arith;
      once = λ x y t g h. let empty = f.no_answer x t in ground arith;
      leading = λ h. ground arith;
      led_own = λ t h. let empty = f.no_term t in ground arith;
      led_alone = λ t x h. let empty = f.no_term t in ground arith;
      asking = λ t k h. let empty = f.no_campaign t in ground arith;
    }

fresh-IsCounted : (c : Cluster) (r : Replica) → IsFresh r → IsCounted c r
fresh-IsCounted c r f = record {
  asked = λ t q h. let empty = f.no_request t q in ground arith;
  votes = λ t k h. let empty = f.no_campaign t in ground arith;
  elected = λ t h. let empty = f.no_term t in ground arith;
}

-- The replica leads term `t` or has led it.
abbrev pub HasLed : Replica → ℕ → Type 0
HasLed r t = (r.led t ≡ true) ⊎ ((is_leader (r.node).state ≡ true) × ((r.node).current_term ≡ t))

led_of :
    (members : List String) (c : Cluster) (a : String) (t : ℕ)
    → IsRegular members c
    → IsMember members a
    → HasLed (c a) t
    → (c a).led t ≡ true
led_of members c a t reg m (inl led) = led
led_of members c a t reg m (inr (leads, now)) = rw (sym now) ((reg.orderly a m).leading leads)

-- A cluster starts with fresh replicas whose configurations fit together. Whatever its replicas then
-- do and suffer, in any order, no two of them ever lead the same term: vote requests and answers may
-- be late or lost, leaders may send anything in the terms that they lead, and replicas may crash and
-- start again on their files.
pub one_leader_per_term :
    (members : List String) (s c : Cluster)
    → IsConfigured members s
    → ((a : String) → StringSet.has a members ≡ true → IsFresh (s a))
    → Reach members s c
    → (a b : String) (t : ℕ) → StringSet.has a members ≡ true
    → StringSet.has b members ≡ true
    → HasLed (c a) t
    → HasLed (c b) t
    → a ≡ b
one_leader_per_term members s c fit fresh r a b t ma mb la lb =
    let start : IsRegular members s = record {
      configured = fit;
      orderly = λ x m. fresh-IsOrderly (s x) (fresh x m);
      counted = λ x m. fresh-IsCounted s (s x) (fresh x m);
    } in
    let reg = Reach-IsRegular members s c start r in
    one_leader members c a b t reg ma mb (led_of members c a t reg ma la)
      (led_of members c b t reg mb lb)
