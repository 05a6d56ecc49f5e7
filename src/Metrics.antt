-- ===== src/Metrics.antt =====
-- replica/src/metrics.ts: the counters of a replica and the histogram of its write latencies. The text in
-- which they are answered is not modelled, only the values in it.
use quorum_canvas.Base.{
  ℕ, ◌+◌, ◌≡◌, refl, sym, ◌∙◌, List, [], ◌∷◌, map, foldl, arith, leb, if◌then◌else◌,
}
use quorum_canvas.Types.{NodeState, follower, candidate, leader}

abbrev pub latency_buckets_ms : List ℕ
latency_buckets_ms = 5 ∷ 10 ∷ 25 ∷ 50 ∷ 100 ∷ 250 ∷ 500 ∷ 1000 ∷ []

-- Latencies are whole milliseconds, as `Date.now` gives them.
pub record Metrics : Type 0 where
  pub elections_started : ℕ
  pub leadership_changes : ℕ
  pub latency_bucket_counts : List ℕ
  pub latency_sum : ℕ
  pub latency_count : ℕ

unfoldable pub initial_metrics : Metrics
initial_metrics = record {
  elections_started = 0;
  leadership_changes = 0;
  latency_bucket_counts = map (λ b. 0) latency_buckets_ms;
  latency_sum = 0;
  latency_count = 0;
}

unfoldable pub record_election_started : Metrics → Metrics
record_election_started m = record m { elections_started = m.elections_started + 1 }

unfoldable pub record_leadership_change : Metrics → Metrics
record_leadership_change m = record m { leadership_changes = m.leadership_changes + 1 }

-- The loop over the buckets.
unfoldable pub count_in_buckets : ℕ → List ℕ → List ℕ → List ℕ
count_in_buckets ms [] counts = counts
count_in_buckets ms (b ∷ bs) [] = []
count_in_buckets ms (b ∷ bs) (c ∷ cs) = (if leb ms b then c + 1 else c) ∷ count_in_buckets ms bs cs

unfoldable pub observe_write_latency : Metrics → ℕ → Metrics
unfolding count_in_buckets
observe_write_latency m ms = record m {
  latency_sum = m.latency_sum + ms;
  latency_count = m.latency_count + 1;
  latency_bucket_counts = count_in_buckets ms latency_buckets_ms m.latency_bucket_counts;
}

unfoldable pub state_value : NodeState → ℕ
state_value follower = 0
state_value candidate = 1
state_value leader = 2

-- How many of the latencies are at most `b`.
count_at_most : ℕ → List ℕ → ℕ
count_at_most b [] = 0
count_at_most b (ms ∷ rest) = (if leb ms b then 1 else 0) + count_at_most b rest

add_counts : List ℕ → List ℕ → List ℕ → List ℕ
add_counts latencies [] counts = counts
add_counts latencies (b ∷ bs) [] = []
add_counts latencies (b ∷ bs) (c ∷ cs) =
    (c + count_at_most b latencies) ∷ add_counts latencies bs cs

add_counts-nil : (bs cs : List ℕ) → add_counts [] bs cs ≡ cs
unfolding add_counts count_at_most
add_counts-nil [] cs = refl
add_counts-nil (b ∷ bs) [] = refl
add_counts-nil (b ∷ bs) (c ∷ cs) = ground (arith, add_counts-nil bs cs)

add_counts-count_in_buckets :
    (ms : ℕ) (rest bs cs : List ℕ)
    → add_counts rest bs (count_in_buckets ms bs cs) ≡ add_counts (ms ∷ rest) bs cs
unfolding add_counts count_at_most count_in_buckets
add_counts-count_in_buckets ms rest [] cs = refl
add_counts-count_in_buckets ms rest (b ∷ bs) [] = refl
add_counts-count_in_buckets ms rest (b ∷ bs) (c ∷ cs) =
    ground (arith, add_counts-count_in_buckets ms rest bs cs)

buckets-foldl :
    (latencies : List ℕ) (m : Metrics)
    → (foldl observe_write_latency m latencies).latency_bucket_counts
      ≡ add_counts latencies latency_buckets_ms m.latency_bucket_counts
unfolding observe_write_latency
buckets-foldl [] m = sym (add_counts-nil latency_buckets_ms m.latency_bucket_counts)
buckets-foldl (ms ∷ rest) m =
    buckets-foldl rest (observe_write_latency m ms)
    ∙ add_counts-count_in_buckets ms rest latency_buckets_ms m.latency_bucket_counts

-- The histogram is cumulative: each bucket has counted the latencies that are at most its bound.
buckets-observe_write_latency :
    (latencies : List ℕ)
    → (foldl observe_write_latency initial_metrics latencies).latency_bucket_counts
      ≡ map (λ b. count_at_most b latencies) latency_buckets_ms
unfolding initial_metrics add_counts
buckets-observe_write_latency latencies = buckets-foldl latencies initial_metrics ∙ ground arith
