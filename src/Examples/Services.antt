-- ===== src/Examples/Services.antt =====
-- Settings of a cluster of three, and requests to a gateway.
use quorum_canvas.Base.{
  ◌+◌, max, ◌≡◌, ◌≢◌, ◌↔◌, ◌⊎◌, refl, String, Bool, true, false, Option, none, some, List, [], ◌∷◌,
  ◌++◌, arith, All, inr, str_eq, if◌then◌else◌, dec_lt, ne_of_test,
}
use quorum_canvas.Map
use quorum_canvas.Map.StringSet
use quorum_canvas.Types.{follower, leader, AppendEntriesResult}
use quorum_canvas.ClusterStatus.{ClusterStatus}
use quorum_canvas.Node.{Node, majority}
use quorum_canvas.Node.Leader.{append_entries_args, replicate_once, on_append_reply}
use quorum_canvas.Strings.{integer, parse_int, split, trim, is_space}
use quorum_canvas.Settings.{Env, GatewayConfig, parse_config, node_config, parse_peers, parse_list}
use quorum_canvas.Settings.Peers.{IsAddress, has_comma, join, peers-join, trailing_comma-majority}
use quorum_canvas.Settings.Cap.{read, with_cap, cap_not_a_number-sends}
use quorum_canvas.Http.{Request, handle, cluster_status, bearer_token}
use quorum_canvas.Http.Admission.{handle-reports, handle-origin}
use quorum_canvas.Examples.Data.{replica, two_entries}

abbrev peers : List String
peers = "http://replica2:3002" ∷ "http://replica3:3003" ∷ []

peers-AreAddresses : All IsAddress peers
unfolding has_comma trim is_space
peers-AreAddresses = ((refl, refl, ne_of_test _ "" refl), ((refl, refl, ne_of_test _ "" refl), tt))

peers-join_example : (parse_peers (some (join peers)) ≡ peers) × (parse_list (join peers) ≡ peers)
peers-join_example = peers-join peers peers-AreAddresses

abbrev with_peers : List String → Node
with_peers ps =
    let n = replica follower 0 two_entries in record n { config = record (n.config) { peers = ps } }

abbrev good : Node
good = with_peers ("a" ∷ "b" ∷ [])

abbrev bad : Node
bad = with_peers ("a" ∷ "b" ∷ "" ∷ [])

trailing_comma-majority_example :
    (bad.peers ≡ good.peers ++ "" ∷ []) × (majority bad ≡ majority good + 1)
unfolding parse_peers split trim is_space
trailing_comma-majority_example =
    trailing_comma-majority "a,b" good bad (ne_of_test _ "" refl) refl refl (omega arith)

abbrev environment : Env
environment name =
    if str_eq name "REPLICA_ID"
    then some "replica1"
    else if str_eq name "APPEND_ENTRIES_BATCH_CAP"
    then some "all"
    else none

abbrev leading : Node
leading = record (replica leader 0 two_entries) {
  config = with_cap 0 (read "replica1" environment);
  next_index = ("replica2", 1) ∷ [];
}

abbrev success : AppendEntriesResult
success = record { term = 1; success = true; responder_id = "replica2"; current_log_length = 0 }

cap_not_a_number-sends_example :
    let args = append_entries_args 1 leading in
    let after = on_append_reply "replica2" 1 args.entries success leading in
    (parse_config environment ≡ inr (read "replica1" environment))
    × (node_config (read "replica1" environment) ≡ some leading.config)
    × (args.entries ≡ [])
    × (after.next_index ≡ leading.next_index)
    × (Map.get_or "replica2" after.match_index 0
        ≡ max (Map.get_or "replica2" leading.match_index 0) 0)
unfolding parse_int replicate_once Map.get_or Map.get is_space dec_lt
cap_not_a_number-sends_example =
    cap_not_a_number-sends environment "replica1" "all" refl (ne_of_test _ "" refl) refl refl
      (ne_of_test _ "" refl) refl leading refl "replica2" 1 (append_entries_args 1 leading) success
      refl refl (omega arith)

abbrev page : String
page = "http://localhost:5173"

abbrev gateway : GatewayConfig
gateway = record {
  port = integer false 8080;
  raft_peers = peers;
  max_users_per_board = integer false 50;
  auth_token = some "secret";
  allowed_origins = "http://localhost:5173" ∷ [];
}

abbrev report : ClusterStatus
report = record {
  total_replicas = 2;
  healthy_replicas = 0;
  majority = 2;
  leader_replica_id = none;
  leader_count = 0;
  replicas = [];
}

-- `tokensMatch`, as it is for tokens of ASCII characters.
matches : Option String → Option Bool
matches none = some false
matches (some t) = some (str_eq t "secret")

abbrev asks : Request
asks = record {
  method = some "GET";
  url = some "/cluster-status";
  origin = some "http://localhost:5173";
  authorization = some "Bearer secret";
}

handle-reports_example :
    ((handle matches "" (inr report) gateway asks).body ≡ cluster_status report) ↔ (
      (asks.method ≢ some "OPTIONS")
      × (asks.url ≡ some "/cluster-status")
      × (matches (bearer_token asks.authorization) ≡ some true)
      × (gateway.raft_peers ≢ [])
      × (◌≡◌ {A = String ⊎ ClusterStatus} (inr report) (inr report)))
handle-reports_example = handle-reports matches "" (inr report) gateway asks report

handle-origin_example :
    (Map.get "Access-Control-Allow-Origin" (handle matches "" (inr report) gateway asks).headers
      ≡ some page)
    ↔ (((page ≡ "*") × (StringSet.has "*" gateway.allowed_origins ≡ true))
        ⊎ ((asks.origin ≡ some page)
            × (page ≢ "")
            × (StringSet.has "*" gateway.allowed_origins ≡ false)
            × (StringSet.has page gateway.allowed_origins ≡ true)))
handle-origin_example = handle-origin matches "" (inr report) gateway asks page
