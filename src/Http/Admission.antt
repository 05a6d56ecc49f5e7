-- ===== src/Http/Admission.antt =====
-- To whom a gateway reports the state of the replicas, and which pages may read its answers.
use mathlib.Core.List.{append_assoc, append-nil}
use quorum_canvas.Base.{
  ℕ, ◌≡◌, ◌≢◌, ◌↔◌, ◌⊎◌, inl, inr, refl, ap, sym, String, Bool, true, false, Option, none, some,
  List, [], ◌∷◌, ◌++◌, arith, str_eq, eq_iff, if◌then◌else◌,
}
use quorum_canvas.Map
use quorum_canvas.Map.StringSet
use quorum_canvas.Types.{truthy}
use quorum_canvas.ClusterStatus.{ClusterStatus}
use quorum_canvas.Settings.{GatewayConfig, or_default}
use quorum_canvas.Http.{
  Request, Body, cluster_status, health, error_text, origin_headers, write_cors, bearer_token,
  send_json, answer_report, answer_status, is_options, handle,
}

answer_report-reports :
    (ps : List String) (report : String ⊎ ClusterStatus) (allowed : List String) (req : Request)
    (s : ClusterStatus)
    → ((answer_report ps report allowed req).body ≡ cluster_status s)
      ↔ ((ps ≢ []) × (report ≡ inr s))
unfolding answer_report send_json
answer_report-reports [] report allowed req s = ground arith
answer_report-reports (p ∷ ps) (inl m) allowed req s = ground arith
answer_report-reports (p ∷ ps) (inr r) allowed req s = ground arith

is_options_iff : (m : Option String) → (is_options m ≡ true) ↔ (m ≡ some "OPTIONS")
unfolding is_options
is_options_iff none = ground arith
is_options_iff (some m) = ground (arith, eq_iff m "OPTIONS")

-- The address of the report is not that of the probe.
at_status :
    (u : Option String)
    → ((str_eq (or_default u "/") "/health" ≡ false)
        × (str_eq (or_default u "/") "/cluster-status" ≡ true))
      ↔ (u ≡ some "/cluster-status")
at_status none = ground arith
at_status (some u) = (
  λ h. ap some ((eq_iff u "/cluster-status").0 h.1),
  λ e. let same : u ≡ "/cluster-status" = ground arith in rw same (refl, refl),
)

-- What the header says.
named_origin : List String → Option String → Option String
named_origin allowed origin = if StringSet.has "*" allowed then some "*" else elim (truthy origin) [
  | none ↦ none
  | some o ↦ if StringSet.has o allowed then some o else none
]

get-origin_headers :
    (allowed : List String) (origin : Option String) (hs : List (String × String))
    → Map.get "Access-Control-Allow-Origin" hs ≡ none
    → Map.get "Access-Control-Allow-Origin" (origin_headers allowed origin ++ hs)
      ≡ named_origin allowed origin
unfolding origin_headers named_origin Map.get
get-origin_headers allowed none hs h = ground arith
get-origin_headers allowed (some o) hs h = ground arith

get-write_cors :
    (allowed : List String) (req : Request) (hs : List (String × String))
    → Map.get "Access-Control-Allow-Origin" hs ≡ none
    → Map.get "Access-Control-Allow-Origin" (write_cors allowed req ++ hs)
      ≡ named_origin allowed req.origin
unfolding write_cors
get-write_cors allowed req hs h =
    rw (append_assoc (origin_headers allowed req.origin) _ hs)
      (get-origin_headers allowed req.origin _ (unfold Map.get in h))

named_origin_iff :
    (allowed : List String) (origin : Option String) (o : String)
    → (named_origin allowed origin ≡ some o) ↔ (
        ((o ≡ "*") × (StringSet.has "*" allowed ≡ true))
        ⊎ ((origin ≡ some o)
            × (o ≢ "")
            × (StringSet.has "*" allowed ≡ false)
            × (StringSet.has o allowed ≡ true)))
unfolding named_origin
named_origin_iff allowed none o = ground arith
named_origin_iff allowed (some x) o = ground (arith, eq_iff x "")

origin-send_json :
    (allowed : List String) (req : Request) (status : ℕ) (body : Body)
    → Map.get "Access-Control-Allow-Origin" (send_json allowed req status body).headers
      ≡ named_origin allowed req.origin
unfolding send_json
origin-send_json allowed req status body =
    get-write_cors allowed req (("Content-Type", "application/json") ∷ []) (unfold Map.get in refl)

origin-answer_report :
    (ps : List String) (report : String ⊎ ClusterStatus) (allowed : List String) (req : Request)
    → Map.get "Access-Control-Allow-Origin" (answer_report ps report allowed req).headers
      ≡ named_origin allowed req.origin
unfolding answer_report
origin-answer_report [] report allowed req =
    origin-send_json allowed req 503 (error_text "RAFT_PEERS not configured")
origin-answer_report (p ∷ ps) (inl m) allowed req = origin-send_json allowed req 500 (error_text m)
origin-answer_report (p ∷ ps) (inr r) allowed req =
    origin-send_json allowed req 200 (cluster_status r)

origin-answer_status :
    (o : Option Bool) (thrown : String) (report : String ⊎ ClusterStatus) (c : GatewayConfig)
    (req : Request)
    → Map.get "Access-Control-Allow-Origin" (answer_status o thrown report c req).headers
      ≡ named_origin c.allowed_origins req.origin
unfolding answer_status
origin-answer_status none thrown report c req =
    origin-send_json c.allowed_origins req 500 (error_text thrown)
origin-answer_status (some false) thrown report c req =
    origin-send_json c.allowed_origins req 401 (error_text "Unauthorized")
origin-answer_status (some true) thrown report c req =
    origin-answer_report c.raft_peers report c.allowed_origins req

origin-write_cors :
    (allowed : List String) (req : Request)
    → Map.get "Access-Control-Allow-Origin" (write_cors allowed req)
      ≡ named_origin allowed req.origin
origin-write_cors allowed req =
    rw (sym (append-nil (write_cors allowed req)))
      (get-write_cors allowed req [] (unfold Map.get in refl))

module _ (matches : Option String → Option Bool) (thrown : String) (report : String ⊎ ClusterStatus)
    (c : GatewayConfig) (req : Request) where
  -- The cases of the three checks on the way to the report.
  answer_status-reports :
      (o : Option Bool) (s : ClusterStatus)
      → ((answer_status o thrown report c req).body ≡ cluster_status s)
        ↔ ((o ≡ some true) × (c.raft_peers ≢ []) × (report ≡ inr s))
  unfolding answer_status send_json
  answer_status-reports none s = ground arith
  answer_status-reports (some false) s = ground arith
  answer_status-reports (some true) s =
      ground (arith, answer_report-reports c.raft_peers report c.allowed_origins req s)

  -- A gateway reports the state of the replicas exactly to a request for `/cluster-status` that is not
  -- an OPTIONS request and whose bearer token passes the check, if it has replicas and their report
  -- succeeds; no other answer holds it.
  pub handle-reports :
      (s : ClusterStatus)
      → ((handle matches thrown report c req).body ≡ cluster_status s) ↔ (
          (req.method ≢ some "OPTIONS")
          × (req.url ≡ some "/cluster-status")
          × (matches (bearer_token req.authorization) ≡ some true)
          × (c.raft_peers ≢ [])
          × (report ≡ inr s))
  unfolding handle send_json
  handle-reports s = ground (
    arith,
    answer_status-reports (matches (bearer_token req.authorization)) s,
    is_options_iff req.method,
    at_status req.url,
  )

  -- On every branch the answer names an origin that may read it exactly if the list has `*`, which is
  -- then what it names, or if the request has an origin that is listed.
  pub handle-origin :
      (o : String)
      → (Map.get "Access-Control-Allow-Origin" (handle matches thrown report c req).headers
          ≡ some o)
        ↔ (((o ≡ "*") × (StringSet.has "*" c.allowed_origins ≡ true))
            ⊎ ((req.origin ≡ some o)
                × (o ≢ "")
                × (StringSet.has "*" c.allowed_origins ≡ false)
                × (StringSet.has o c.allowed_origins ≡ true)))
  unfolding handle
  handle-origin o = ground (
    arith,
    named_origin_iff c.allowed_origins req.origin o,
    origin-write_cors c.allowed_origins req,
    origin-send_json c.allowed_origins req 200 health,
    origin-answer_status (matches (bearer_token req.authorization)) thrown report c req,
    get-write_cors c.allowed_origins req (("Content-Type", "text/plain") ∷ [])
        (unfold Map.get in refl),
  )
