-- ===== src/ClusterStatus.antt =====
-- gateway/src/clusterStatus.ts: what a gateway reports of the replicas. The answers of a replica to
-- `/health` and `/status` are parameters, `none` for one that fails.
use quorum_canvas.Base.{
  ℕ, ◌+◌, ◌/◌, ◌≤◌, ◌≡◌, String, Bool, true, false, Option, none, some, List, [], ◌∷◌, map, length,
  length-map, if◌then◌else◌, str_eq, arith,
}
use quorum_canvas.Types.{ReplicaStatus, NodeState, leader}
use quorum_canvas.Node.{Node, majority}

pub record ReplicaHealth : Type 0 where
  pub status : Option String
  pub replica_id : Option String

-- The numbers of a status are there together or not at all.
pub record ReplicaClusterStatus : Type 0 where
  pub peer : String
  pub healthy : Bool
  pub replica_id : String
  pub status : Option ReplicaStatus
  pub error : Option String

pub record ClusterStatus : Type 0 where
  pub total_replicas : ℕ
  pub healthy_replicas : ℕ
  pub majority : ℕ
  pub leader_replica_id : Option String
  pub leader_count : ℕ
  pub replicas : List ReplicaClusterStatus

abbrev is_ok : Option String → Bool
is_ok none = false
is_ok (some s) = str_eq s "ok"

-- `fetchReplicaClusterStatus`: both answers, or the message of the first failure.
unfoldable pub replica_cluster_status :
    String → Option ReplicaHealth → Option ReplicaStatus → String → ReplicaClusterStatus
replica_cluster_status peer (some h) (some s) message = record {
  peer = peer;
  healthy = is_ok h.status;
  replica_id = s.replica_id;
  status = some s;
  error = none;
}
replica_cluster_status peer _ _ message = record {
  peer = peer;
  healthy = false;
  replica_id = peer;
  status = none;
  error = some message;
}

abbrev is_leader : NodeState → Bool
is_leader leader = true
is_leader _ = false

unfoldable pub reports_leader : ReplicaClusterStatus → Bool
reports_leader r = elim r.status [ none ↦ false | some s ↦ is_leader s.state ]

unfoldable pub count_healthy : List ReplicaClusterStatus → ℕ
count_healthy [] = 0
count_healthy (r ∷ rs) = (if r.healthy then 1 else 0) + count_healthy rs

unfoldable pub leaders : List ReplicaClusterStatus → List ReplicaClusterStatus
leaders [] = []
leaders (r ∷ rs) = let rest = leaders rs in if reports_leader r then r ∷ rest else rest

unfoldable pub first_id : List ReplicaClusterStatus → Option String
first_id [] = none
first_id (r ∷ rs) = some r.replica_id

-- `collectClusterStatus`, from the answers of the peers.
unfoldable pub collect_cluster_status :
    (String → ReplicaClusterStatus) → List String → ClusterStatus
collect_cluster_status fetch peers =
    let replicas = map fetch peers in
    record {
      total_replicas = length peers;
      healthy_replicas = count_healthy replicas;
      majority = length peers / 2 + 1;
      leader_replica_id = first_id (leaders replicas);
      leader_count = length (leaders replicas);
      replicas = replicas;
    }

count_healthy_le : (rs : List ReplicaClusterStatus) → count_healthy rs ≤ length rs
unfolding count_healthy
count_healthy_le [] = omega arith
count_healthy_le (r ∷ rs) = ground (arith, count_healthy_le rs)

-- A report of a gateway that knows all replicas of a cluster names the majority that a replica of the
-- cluster counts with, and counts at most all of them as healthy.
majority-collect_cluster_status :
    (fetch : String → ReplicaClusterStatus) (peers : List String) (n : Node)
    → length peers ≡ length (n.config).peers + 1
    → let report = collect_cluster_status fetch peers in
      (report.majority ≡ majority n) × (report.healthy_replicas ≤ report.total_replicas)
unfolding collect_cluster_status majority
majority-collect_cluster_status fetch peers n all =
    (ground (arith, all), omega (arith, count_healthy_le (map fetch peers), length-map fetch peers))
