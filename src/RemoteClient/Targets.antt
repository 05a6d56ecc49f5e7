-- ===== src/RemoteClient/Targets.antt =====
-- The replicas that a call asks: the leader it knows, then the other peers.
use quorum_canvas.Base.{
  ◌+◌, ◌≤◌, String, ◌≡◌, true, Option, none, some, List, [], ◌∷◌, arith, length, ◌||◌, str_eq,
  eq_iff,
}
use quorum_canvas.Map.StringSet
use quorum_canvas.Types.{truthy}
use quorum_canvas.RemoteClient.{other_peers, targets}

length-other_peers : (l : String) (ps : List String) → length (other_peers l ps) ≤ length ps
unfolding other_peers
length-other_peers l [] = omega arith
length-other_peers l (p ∷ ps) = ground (arith, length-other_peers l ps)

first_then_others : List String → Option String → List String
unfolding other_peers
first_then_others ps o = elim o [ none ↦ ps | some k ↦ k ∷ other_peers k ps ]

pub length-targets : (ps : List String) (l : Option String) → length (targets ps l) ≤ length ps + 1
unfolding targets first_then_others
length-targets ps l = elim (truthy l) as (λ o. length (first_then_others ps o) ≤ length ps + 1) [
  | none ↦ omega arith
  | some k ↦ omega (arith, length-other_peers k ps)
]

has-other_peers :
    (p l : String) (ps : List String)
    → StringSet.has p ps ≡ true
    → (str_eq l p || StringSet.has p (other_peers l ps)) ≡ true
unfolding other_peers StringSet.has
has-other_peers p l [] h = ground arith
has-other_peers p l (q ∷ ps) h =
    ground (arith, has-other_peers p l ps, eq_iff q l, eq_iff q p, eq_iff l p)

-- Every peer is a target.
pub has-targets :
    (p : String) (ps : List String) (l : Option String)
    → StringSet.has p ps ≡ true
    → StringSet.has p (targets ps l) ≡ true
unfolding targets first_then_others StringSet.has
has-targets p ps l h = elim (truthy l) as (λ o. StringSet.has p (first_then_others ps o) ≡ true) [
  | none ↦ h
  | some k ↦ has-other_peers p k ps h
]

pub has-nonempty : (p : String) (ps : List String) → StringSet.has p ps ≡ true → 1 ≤ length ps
unfolding StringSet.has
has-nonempty p [] h = ground arith
has-nonempty p (q ∷ ps) h = omega arith
