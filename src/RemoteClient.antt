-- ===== src/RemoteClient.antt =====
-- `RemoteRaftClient` of gateway/src/remoteRaftClient.ts: the gateway's client of the replicas. The
-- answers to its requests are parameters, `none` for a request that throws (a timeout, a status that
-- is not accepted, a network error). The client is shared by all connections, so `currentLeader` may
-- change while it waits.
pub mod Steps
pub mod Targets
pub mod Requests
pub mod Writes
pub mod Retries
pub mod Reads
use quorum_canvas.Base.{
  ℕ, zero, suc, ◌+◌, ◌-◌, ◌*◌, ◌^◌, min, String, Bool, true, false, ◌&&◌, ◌||◌, not, Option, none,
  some, List, [], ◌∷◌, ◌++◌, ◌==◌, leb, if◌then◌else◌, length, str_eq,
}
use quorum_canvas.Types.{Stroke, ClientWriteResult, truthy}

-- GATEWAY_TIMING of gateway/src/config.ts.
abbrev pub max_write_attempts : ℕ
max_write_attempts = 5

abbrev pub write_retry_base_delay_ms : ℕ
write_retry_base_delay_ms = 120

abbrev pub write_retry_max_delay_ms : ℕ
write_retry_max_delay_ms = 1200

-- What `getRaw` gives for a response with a body.
pub record ReadAnswer : Type 0 where
  pub status : ℕ
  pub strokes : List Stroke
  pub leader_hint : Option String

-- A response of `fetch`; its body is `none` if it is not JSON.
pub record Response (A : Type 0) : Type 0 where
  pub status : ℕ
  pub body : Option A

-- `post`, from what `fetch` gives, `none` where it throws.
unfoldable pub post : {A : Type 0} → Option (Response A) → Option A
post none = none
post (some r) = if leb 200 r.status && leb r.status 299 then r.body else none

-- `getRaw`: the body with the status that `tryGetStrokes` reads, whatever the status is.
unfoldable pub get_raw : Option (Response (List Stroke × Option String)) → Option ReadAnswer
get_raw none = none
get_raw (some r) = elim r.body [
  | none ↦ none
  | some (strokes, leader_hint) ↦
      some (record { status = r.status; strokes = strokes; leader_hint = leader_hint })
]

-- The client, with the requests that it has made, each with its answer, and the delays that it has
-- waited for. `A` is the type of the answers.
pub record Client (A : Type 0) : Type 0 where
  pub current_leader : Option String
  pub sent : List (String × Option A)
  pub waited : List ℕ

-- The client when a call begins: no request made, no delay waited for.
abbrev pub fresh_client : {A : Type 0} → Option String → Client A
fresh_client leader = record { current_leader = leader; sent = []; waited = [] }

-- `this.peers.filter((p) => p !== this.currentLeader)`
unfoldable pub other_peers : String → List String → List String
other_peers l [] = []
other_peers l (p ∷ ps) = if str_eq p l then other_peers l ps else p ∷ other_peers l ps

-- The known leader first, then the other peers.
unfoldable pub targets : List String → Option String → List String
unfolding other_peers
targets peers leader = elim (truthy leader) [ none ↦ peers | some l ↦ l ∷ other_peers l peers ]

-- `Math.min(WRITE_RETRY_BASE_DELAY * Math.pow(2, attempt), WRITE_RETRY_MAX_DELAY)`
unfoldable pub retry_delay : ℕ → ℕ
retry_delay attempt = min (write_retry_base_delay_ms * 2 ^ attempt) write_retry_max_delay_ms

-- The answer to the request of a number, to a target; what `currentLeader` is after the wait for it,
-- and after the delay of a number.
pub record Network (A : Type 0) : Type 0 where
  pub answer : ℕ → String → Option A
  pub meanwhile : ℕ → Option String → Option String
  pub idle : ℕ → Option String → Option String

-- One request.
unfoldable pub ask : {A : Type 0} → Network A → String → Client A → Client A × Option A
ask net t c =
    let i = length c.sent in
    let r = net.answer i t in
    (
      record c { current_leader = net.meanwhile i c.current_leader; sent = c.sent ++ (t, r) ∷ [] },
      r,
    )

abbrev pub succeeded : Option ClientWriteResult → Bool
succeeded none = false
succeeded (some r) = r.success

module _ (net : Network ClientWriteResult) where
  -- The second request, to the address that the first answer has given.
  unfoldable pub follow_hint :
      Option String → Client ClientWriteResult → Client ClientWriteResult × Bool
  follow_hint none c = (c, false)
  follow_hint (some h) c =
      let (c', r) = ask net h (record c { current_leader = some h }) in (c', succeeded r)

  unfoldable pub after_reply :
      String → Option ClientWriteResult → Client ClientWriteResult → Client ClientWriteResult × Bool
  unfolding follow_hint
  after_reply t none c = (c, false)
  after_reply t (some r) c =
      if r.success
      then (record c { current_leader = some t }, true)
      else follow_hint (truthy r.leader_hint) c

  -- The body of the loop over the targets: whether it returns `true`. Where it does not, it has set
  -- `shouldRetry`.
  unfoldable pub try_target : String → Client ClientWriteResult → Client ClientWriteResult × Bool
  unfolding after_reply
  try_target t c = let (c', r) = ask net t c in after_reply t r c'

  -- The loop: whether it returns `true`, and `shouldRetry`.
  unfoldable pub try_targets :
      List String → Bool → Client ClientWriteResult → Client ClientWriteResult × (Bool × Bool)
  try_targets [] retry c = (c, (false, retry))
  try_targets (t ∷ ts) retry c = elim (try_target t c).1 [
    | true ↦ ((try_target t c).0, (true, retry))
    | false ↦ try_targets ts true (try_target t c).0
  ]

  unfoldable pub wait_for_retry : ℕ → Client ClientWriteResult → Client ClientWriteResult
  wait_for_retry attempt c = record c {
    current_leader = net.idle attempt c.current_leader;
    waited = c.waited ++ retry_delay attempt ∷ [];
  }

  -- The loop over the attempts, by the attempts left.
  unfoldable pub try_attempts :
      List String → ℕ → ℕ → Client ClientWriteResult → Client ClientWriteResult × Bool
  try_attempts peers zero attempt c = (c, false)
  try_attempts peers (suc left) attempt c =
      let (c', (accepted, retry)) = try_targets (targets peers c.current_leader) false c in
      let again = try_attempts peers left (attempt + 1) (wait_for_retry attempt c') in
      if accepted then (c', true) else if not retry || left == 0 then (c', false) else again

  unfoldable pub submit_stroke :
      List String → Client ClientWriteResult → Client ClientWriteResult × Bool
  submit_stroke peers c = try_attempts peers max_write_attempts 0 c

module _ (net : Network ReadAnswer) where
  -- What `tryGetStrokes` does with a status that is not 200: the hint is followed once.
  unfoldable pub follow_read_hint :
      (String → Client ReadAnswer → Client ReadAnswer × Option (List Stroke))
      → Bool
      → ReadAnswer
      → Option String
      → Client ReadAnswer
      → Client ReadAnswer × Option (List Stroke)
  follow_read_hint again follow r none c = (c, none)
  follow_read_hint again follow r (some h) c =
      if (r.status == 421) && follow
      then again h (record c { current_leader = some h })
      else (c, none)

  unfoldable pub after_read :
      (String → Client ReadAnswer → Client ReadAnswer × Option (List Stroke))
      → Bool
      → String
      → Option ReadAnswer
      → Client ReadAnswer
      → Client ReadAnswer × Option (List Stroke)
  unfolding follow_read_hint
  after_read again follow t none c = (c, none)
  after_read again follow t (some r) c =
      if r.status == 200
      then (record c { current_leader = some t }, some r.strokes)
      else follow_read_hint again follow r (truthy r.leader_hint) c

  -- `tryGetStrokes(peer, boardId, false)`
  unfoldable pub try_hinted : String → Client ReadAnswer → Client ReadAnswer × Option (List Stroke)
  unfolding after_read
  try_hinted t c = let (c', r) = ask net t c in after_read (λ h d. (d, none)) false t r c'

  unfoldable pub try_get_strokes :
      String → Client ReadAnswer → Client ReadAnswer × Option (List Stroke)
  unfolding after_read try_hinted
  try_get_strokes t c = let (c', r) = ask net t c in after_read try_hinted true t r c'

  unfoldable pub get_from_targets :
      List String → Client ReadAnswer → Client ReadAnswer × List Stroke
  get_from_targets [] c = (c, [])
  get_from_targets (t ∷ ts) c = elim (try_get_strokes t c).1 [
    | none ↦ get_from_targets ts (try_get_strokes t c).0
    | some ss ↦ ((try_get_strokes t c).0, ss)
  ]

  unfoldable pub get_strokes : List String → Client ReadAnswer → Client ReadAnswer × List Stroke
  get_strokes peers c = get_from_targets (targets peers c.current_leader) c
