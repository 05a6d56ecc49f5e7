-- ===== src/Cluster/Leaders.antt =====
-- What holds of a cluster as a whole, and that a term then has at most one leader.
use mathlib.Core.List.{Perm}
use mathlib.Core.List.Perm
use quorum_canvas.Base.{
  ℕ, ◌+◌, ◌/◌, ◌≤◌, ◌≡◌, String, Bool, true, false, ◌||◌, none, List, [], ◌∷◌, arith, eq_iff,
  eq_refl, str_eq, length,
}
use quorum_canvas.Map.StringSet
use quorum_canvas.Types.{follower}
use quorum_canvas.Node.{majority}
use quorum_canvas.Node.Step.Saved.{IsSynced}
use quorum_canvas.Cluster.{Replica, Cluster}
use quorum_canvas.Cluster.Quorum.{count, count_mono, count-Perm, majorities_meet}
use quorum_canvas.Cluster.Local.{IsOrderly}
use quorum_canvas.Cluster.Counting.{IsCounted, voters}

abbrev pub IsMember : List String → String → Type 0
IsMember members a = StringSet.has a members ≡ true

-- The configurations fit together: each member has the addresses of the others as its peers, in some
-- order, and no two have the same id.
pub record IsConfigured (members : List String) (c : Cluster) : Type 0 where
  pub listed : (a : String) → StringSet.has a members ≡ true → Perm (a ∷ (c a).node.peers) members
  pub others :
      (a : String) → StringSet.has a members ≡ true → StringSet.has a (c a).node.peers ≡ false
  pub distinct :
      (a b : String)
      → StringSet.has a members ≡ true
      → StringSet.has b members ≡ true
      → (c a).node.replica_id ≡ (c b).node.replica_id
      → a ≡ b

-- A replica as it starts: a follower on its files, which has held no election and answered no request.
pub record IsFresh (r : Replica) : Type 0 where
  pub synced : IsSynced r.node
  pub follows : (r.node).state ≡ follower
  pub no_campaign : (t : ℕ) → r.campaigns t ≡ none
  pub no_request : (t : ℕ) (q : String) → r.waiting t q ≡ false
  pub no_answer : (x : String) (t : ℕ) → r.answers x t ≡ none
  pub no_term : (t : ℕ) → r.led t ≡ false

pub record IsRegular (members : List String) (c : Cluster) : Type 0 where
  pub configured : IsConfigured members c
  pub orderly : (a : String) → IsMember members a → IsOrderly (c a)
  pub counted : (a : String) → IsMember members a → IsCounted c (c a)

count_all : (xs : List String) → count (λ _. true) xs ≡ length xs
count_all [] = omega arith
count_all (x ∷ xs) = omega (arith, count_all xs)

-- A leader and those who voted for it are a majority of the members.
elected_by :
    (members : List String) (c : Cluster) (a : String) (t : ℕ)
    → IsRegular members c
    → IsMember members a
    → (c a).led t ≡ true
    → length members / 2 + 1 ≤ count (λ q. str_eq a q || voters c (c a).node.replica_id t q) members
unfolding majority
elected_by members c a t reg m led =
    let id = (c a).node.replica_id in
    let peers = (c a).node.peers in
    let f : String → Bool = λ q. str_eq a q || voters c id t q in
    let all = reg.configured.listed a m in
    let size = count-Perm (λ _. true) (Perm.symm all) in
    let sizes = count_all members in
    let sizes' = count_all peers in
    let same = count-Perm f all in
    let more = count_mono (voters c id t) f peers (λ q. ground arith) in
    let won = (reg.counted a m).elected t led in let self = eq_refl a in ground arith

pub one_leader :
    (members : List String) (c : Cluster) (a b : String) (t : ℕ)
    → IsRegular members c
    → IsMember members a
    → IsMember members b
    → (c a).led t ≡ true
    → (c b).led t ≡ true
    → a ≡ b
one_leader members c a b t reg ma mb la lb =
    let (x, mx, for_a, for_b) =
      majorities_meet (λ q. str_eq a q || voters c (c a).node.replica_id t q)
        (λ q. str_eq b q || voters c (c b).node.replica_id t q) members
        (elected_by members c a t reg ma la) (elected_by members c b t reg mb lb) in
    let alone_a = (reg.orderly a ma).led_alone t (c b).node.replica_id la in
    let alone_b = (reg.orderly b mb).led_alone t (c a).node.replica_id lb in
    let once = (reg.orderly x mx).once (c a).node.replica_id (c b).node.replica_id t in
    let distinct = reg.configured.distinct a b ma mb in ground (arith, eq_iff a x, eq_iff b x)
