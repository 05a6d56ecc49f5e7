-- ===== src/Settings.antt =====
-- replica/src/config.ts and gateway/src/config.ts: what the environment variables say, and
-- replica/src/index.ts, what `createApp` hands to the constructor of `RaftNode`.
pub mod Peers
pub mod Cap
use quorum_canvas.Base.{
  ℕ, ◌≡◌, ◌⊎◌, inl, inr, String, Bool, true, false, not, Option, none, some, List, [], ◌∷◌, map,
  filter, str_eq, if◌then◌else◌, leb, ◌==◌,
}
use Prim.Native.String.{◌++◌ as text_append}
use quorum_canvas.Strings.{Number, nan, integer, is_nan, parse_int, split, trim, print}
use quorum_canvas.Types.{truthy}
use quorum_canvas.Node.{Config}

-- `process.env`: a variable may be missing.
abbrev pub Env : Type 0
Env = String → Option String

pub record ReplicaConfig : Type 0 where
  pub replica_id : String
  pub port : Number
  pub peers : List String
  pub data_dir : Option String
  pub snapshot_threshold_entries : Option Number
  pub append_entries_batch_cap : Option Number
  pub advertised_url : Option String

-- `v ?? d`
abbrev pub or_default {ℓ} : {A : Type ℓ} → Option A → A → A
or_default none d = d
or_default (some a) d = a

unfoldable pub parse_peers : Option String → List String
parse_peers v = elim (truthy v) [ none ↦ [] | some s ↦ map trim (split s) ]

unfoldable pub parse_number : Option String → Option Number
parse_number v = elim (truthy v) [ none ↦ none | some s ↦ some (parse_int s) ]

unfoldable pub default_url : String → Number → String
default_url id port = text_append "http://" (text_append id (text_append ":" (print port)))

-- What `parseConfig` does once the id and the port are there.
unfoldable pub replica_config : String → Number → Env → ReplicaConfig
unfolding parse_peers parse_number default_url
replica_config id port env = record {
  replica_id = id;
  port = port;
  peers = parse_peers (env "PEERS");
  data_dir = truthy (env "DATA_DIR");
  snapshot_threshold_entries = parse_number (env "SNAPSHOT_THRESHOLD");
  append_entries_batch_cap = parse_number (env "APPEND_ENTRIES_BATCH_CAP");
  advertised_url = some (or_default (truthy (env "ADVERTISED_URL")) (default_url id port));
}

with_id : Option String → Env → String ⊎ ReplicaConfig
with_id none env = inl "REPLICA_ID environment variable is required"
with_id (some id) env =
    let port = parse_int (or_default (env "PORT") "3001") in
    if is_nan port then inl "PORT must be a number" else inr (replica_config id port env)

-- `parseConfig`; `inl` holds the message of an error.
unfoldable pub parse_config : Env → String ⊎ ReplicaConfig
unfolding with_id
parse_config env = with_id (truthy (env "REPLICA_ID")) env

-- RAFT_TIMING
abbrev pub default_snapshot_threshold : ℕ
default_snapshot_threshold = 500

abbrev pub default_batch_cap : ℕ
default_batch_cap = 128

-- A difference that is not negative is never less than NaN or a negative number, nor than 0.
abbrev pub threshold_of : Number → ℕ
threshold_of (integer false n) = n
threshold_of _ = 0

-- `slice(0, cap)` takes nothing for NaN. It counts a negative number from the end, which `Node.Config`
-- does not have.
abbrev pub cap_of : Number → Option ℕ
cap_of nan = some 0
cap_of (integer false n) = some n
cap_of (integer true n) = if n == 0 then some 0 else none

abbrev pub threshold_or_default : Option Number → ℕ
threshold_or_default none = default_snapshot_threshold
threshold_or_default (some n) = threshold_of n

abbrev pub cap_or_default : Option Number → Option ℕ
cap_or_default none = some default_batch_cap
cap_or_default (some n) = cap_of n

-- The arguments of `new RaftNode`, where `Node.Config` has them.
unfoldable pub node_config : ReplicaConfig → Option Config
unfolding default_url
node_config c = elim (cap_or_default c.append_entries_batch_cap) [
  | none ↦ none
  | some cap ↦ some (record {
    replica_id = c.replica_id;
    peers = c.peers;
    snapshot_threshold = threshold_or_default c.snapshot_threshold_entries;
    self_url = or_default c.advertised_url (default_url c.replica_id c.port);
    batch_cap = cap;
  })
]

pub record GatewayConfig : Type 0 where
  pub port : Number
  pub raft_peers : List String
  pub max_users_per_board : Number
  pub auth_token : Option String
  pub allowed_origins : List String

-- `.split(',').map(trim).filter(p => p.length > 0)`
unfoldable pub without_empty : List String → List String
without_empty [] = []
without_empty (p ∷ ps) = if str_eq p "" then without_empty ps else p ∷ without_empty ps

unfoldable pub parse_list : String → List String
unfolding without_empty
parse_list s = without_empty (map trim (split s))

unfoldable pub parse_gateway_config : Env → GatewayConfig
unfolding parse_list
parse_gateway_config env = record {
  port = parse_int (or_default (env "PORT") "8080");
  raft_peers = parse_list (or_default (env "RAFT_PEERS") "");
  max_users_per_board = parse_int (or_default (env "MAX_USERS_PER_BOARD") "50");
  auth_token = truthy (env "AUTH_TOKEN");
  allowed_origins = parse_list (or_default (env "ALLOWED_ORIGINS") "http://localhost:5173");
}

-- `getUserCount(boardId) >= maxUsersPerBoard` of gateway/src/wsServer.ts.
unfoldable pub is_full : ℕ → Number → Bool
is_full users nan = false
is_full users (integer false n) = leb n users
is_full users (integer true n) = true
