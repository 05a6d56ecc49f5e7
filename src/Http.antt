-- ===== src/Http.antt =====
-- gateway/src/index.ts: how a gateway answers HTTP requests. The report of the replicas is an argument,
-- and so is the check of a token, which may throw (`tokensMatch`).
pub mod Admission
use Prim.Native.Char.{code}
use quorum_canvas.Base.{
  ℕ, ◌≡◌, ◌≢◌, ◌↔◌, ◌⊎◌, inl, inr, refl, String, Bool, true, false, ◌&&◌, ◌||◌, not, Option, none,
  some, List, [], ◌∷◌, ◌++◌, arith, str_eq, eq_iff, ◌==◌, if◌then◌else◌, Bool-cases, Option-cases,
}
use quorum_canvas.Map
use quorum_canvas.Map.StringSet
use quorum_canvas.Types.{truthy}
use quorum_canvas.ClusterStatus.{ClusterStatus}
use quorum_canvas.Settings.{GatewayConfig, or_default}

pub record Request : Type 0 where
  pub method : Option String
  pub url : Option String
  pub origin : Option String
  pub authorization : Option String

-- What the handler writes as a body.
pub data Body : Type 0 where
  no_body health : Body
  cluster_status : ClusterStatus → Body
  error_text : String → Body
  plain : String → Body

pub record Response : Type 0 where
  pub status : ℕ
  pub headers : List (String × String)
  pub body : Body

-- The header for the origin: `*` where the list has it, or the origin of the request if it is listed.
unfoldable pub origin_headers : List String → Option String → List (String × String)
origin_headers allowed origin =
    if StringSet.has "*" allowed
    then ("Access-Control-Allow-Origin", "*") ∷ []
    else elim (truthy origin) [
      | none ↦ []
      | some o ↦
          if StringSet.has o allowed
          then ("Access-Control-Allow-Origin", o) ∷ ("Vary", "Origin") ∷ []
          else []
    ]

-- `writeCors`
unfoldable pub write_cors : List String → Request → List (String × String)
unfolding origin_headers
write_cors allowed req =
    origin_headers allowed req.origin
    ++ ("Access-Control-Allow-Methods", "GET,OPTIONS")
      ∷ ("Access-Control-Allow-Headers", "Content-Type, Authorization")
      ∷ []

-- What follows `p` in a text that starts with it.
unfoldable pub strip_prefix : String → String → Option String
strip_prefix String.[] s = some s
strip_prefix (String.◌∷◌ c p) String.[] = none
strip_prefix (String.◌∷◌ c p) (String.◌∷◌ d s) =
    let rest = strip_prefix p s in if code c == code d then rest else none

unfoldable pub bearer_token : Option String → Option String
unfolding strip_prefix
bearer_token none = none
bearer_token (some header) = strip_prefix "Bearer " header

unfoldable pub send_json : List String → Request → ℕ → Body → Response
unfolding write_cors
send_json allowed req status body = record {
  status = status;
  headers = write_cors allowed req ++ ("Content-Type", "application/json") ∷ [];
  body = body;
}

-- The report, where there are replicas. `report` is the answer of `collectClusterStatus`.
unfoldable pub answer_report :
    List String → String ⊎ ClusterStatus → List String → Request → Response
unfolding send_json
answer_report [] report allowed req =
    send_json allowed req 503 (error_text "RAFT_PEERS not configured")
answer_report (p ∷ ps) (inl message) allowed req = send_json allowed req 500 (error_text message)
answer_report (p ∷ ps) (inr status) allowed req = send_json allowed req 200 (cluster_status status)

-- After the check of the token.
unfoldable pub answer_status :
    Option Bool → String → String ⊎ ClusterStatus → GatewayConfig → Request → Response
unfolding answer_report
answer_status none thrown report c req = send_json c.allowed_origins req 500 (error_text thrown)
answer_status (some false) thrown report c req =
    send_json c.allowed_origins req 401 (error_text "Unauthorized")
answer_status (some true) thrown report c req =
    answer_report c.raft_peers report c.allowed_origins req

unfoldable is_options : Option String → Bool
is_options none = false
is_options (some m) = str_eq m "OPTIONS"

-- The handler of a request. `matches` is `tokensMatch` with the configured token, `none` where it throws,
-- and `thrown` what it throws.
unfoldable pub handle :
    (Option String → Option Bool)
    → String
    → String ⊎ ClusterStatus
    → GatewayConfig
    → Request
    → Response
unfolding is_options bearer_token answer_status
handle matches thrown report c req =
    let url = or_default req.url "/" in
    if is_options req.method
    then record { status = 204; headers = write_cors c.allowed_origins req; body = no_body }
    else if str_eq url "/health"
    then send_json c.allowed_origins req 200 health
    else if str_eq url "/cluster-status"
    then answer_status (matches (bearer_token req.authorization)) thrown report c req
    else record {
      status = 200;
      headers = write_cors c.allowed_origins req ++ ("Content-Type", "text/plain") ∷ [];
      body = plain "Mini-RAFT Gateway\n";
    }
