-- ===== src/Timing.antt =====
-- replica/src/electionTimer.ts: how long an election timeout is. Node.Timers has which timers are pending.
use Prim.Native.Char.{code}
use quorum_canvas.Base.{
  ℕ, ◌+◌, ◌-◌, ◌*◌, ◌≤◌, ◌<◌, ◌≡◌, ◌≢◌, eq_iff, String, false, ◌&&◌, Option, none, some, arith, leb,
  if◌then◌else◌,
}
use quorum_canvas.Types.{truthy}
use quorum_canvas.Strings.{Number, integer, parse_int}

-- RAFT_TIMING of replica/src/config.ts, in milliseconds.
abbrev pub election_timeout_min : ℕ
election_timeout_min = 500

abbrev pub election_timeout_max : ℕ
election_timeout_max = 800

abbrev pub heartbeat_interval : ℕ
heartbeat_interval = 150

abbrev pub election_skew_step : ℕ
election_skew_step = 300

-- `s.replace(/\D+/g, '')`
unfoldable pub digits_only : String → String
digits_only String.[] = ""
digits_only (String.◌∷◌ c s) =
    let rest = digits_only s in
    if leb b'0' (code c) && leb (code c) b'9' then String.◌∷◌ c rest else rest

skew_of : Number → ℕ
skew_of (integer false n) = n * election_skew_step
skew_of _ = 0

-- `computeElectionSkew`. A text of digits has no sign, so the number is not negative.
unfoldable pub election_skew : Option String → ℕ
unfolding skew_of digits_only
election_skew id = elim (truthy id) [ none ↦ 0 | some s ↦ skew_of (parse_int (digits_only s)) ]

-- `randomTimeout`, where `draw` is the `Math.floor` of the random number.
unfoldable pub random_timeout : ℕ → ℕ → ℕ
random_timeout draw skew = election_timeout_min + draw + skew

-- `Math.random()` is below one.
abbrev pub IsDraw : ℕ → Type 0
IsDraw draw = draw < election_timeout_max - election_timeout_min + 1

election_skew_lem :
    (id : String) (i : ℕ)
    → id ≢ ""
    → parse_int (digits_only id) ≡ integer false i
    → election_skew (some id) ≡ i * election_skew_step
unfolding election_skew
election_skew_lem id i h e = ground (arith, eq_iff id "", e)

-- Replicas whose ids have the numbers `i < j`: each timeout is more than three heartbeats long, the
-- first is at most the second, whatever is drawn, and they are equal only if the numbers follow one
-- another, the first draw is the greatest and the second the least.
pub random_timeout_order :
    (a b : String) (i j d e : ℕ)
    → a ≢ ""
    → b ≢ ""
    → parse_int (digits_only a) ≡ integer false i
    → parse_int (digits_only b) ≡ integer false j
    → i < j
    → IsDraw d
    → IsDraw e
    → let x = random_timeout d (election_skew (some a)) in
      let y = random_timeout e (election_skew (some b)) in
      (3 * heartbeat_interval < x) × (x ≤ y) × (x ≡ y → (j ≡ i + 1) × (d ≡ 300) × (e ≡ 0))
unfolding random_timeout
random_timeout_order a b i j d e ha hb na nb less da db =
    let skew_a = election_skew_lem a i ha na in
    let skew_b = election_skew_lem b j hb nb in
    (omega arith, omega arith, λ same. (omega arith, omega arith, omega arith))
