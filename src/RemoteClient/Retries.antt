-- ===== src/RemoteClient/Retries.antt =====
-- How much `submitStroke` tries: its requests and delays are bounded, and it goes on long enough for a
-- replica that comes to accept.
use quorum_canvas.Base.{
  ℕ, zero, suc, ◌+◌, ◌*◌, ◌≤◌, String, ◌≡◌, refl, ap, ◌⊎◌, inl, inr, Bool, true, false, Option,
  none, some, List, [], ◌∷◌, ◌++◌, arith, length, ◌==◌, Bool-cases, not, ◌||◌, if◌then◌else◌,
  str_eq, eq_iff,
}
use quorum_canvas.Map.StringSet
use quorum_canvas.Types.{ClientWriteResult}
use quorum_canvas.RemoteClient.Steps.{
  try_targets-accepted, try_targets-refused, attempt_on, try_attempts-accepted,
  try_attempts-given_up, try_attempts-again,
}
use quorum_canvas.RemoteClient.{
  Client, Network, fresh_client, targets, retry_delay, ask, succeeded, after_reply, try_target,
  try_targets, wait_for_retry, try_attempts, max_write_attempts, submit_stroke,
}
use quorum_canvas.RemoteClient.Targets.{has-targets, has-nonempty}
use quorum_canvas.RemoteClient.Requests.{Asks, Asks-try_target, Asks-try_targets, Asks-attempt_on}

unfoldable pub sum : List ℕ → ℕ
sum [] = 0
sum (n ∷ ns) = n + sum ns

sum-snoc : (xs : List ℕ) (n : ℕ) → sum (xs ++ n ∷ []) ≡ sum xs + n
unfolding sum
sum-snoc [] n = omega arith
sum-snoc (x ∷ xs) n = omega (arith, sum-snoc xs n)

-- The delays that the attempts left may wait for.
unfoldable pub delays : ℕ → ℕ → ℕ
delays zero attempt = 0
delays (suc left) attempt =
    let rest = delays left (attempt + 1) in if left == 0 then 0 else retry_delay attempt + rest

module _ (net : Network ClientWriteResult) where
  Bounded-try_attempts :
      (peers : List String) (left attempt : ℕ) (c : Client ClientWriteResult)
      → let c' = (try_attempts net peers left attempt c).0 in
        (length c'.sent ≤ left * (2 * (length peers + 1)) + length c.sent)
        × (sum c'.waited ≤ sum c.waited + delays left attempt)
  unfolding try_attempts delays wait_for_retry Asks
  Bounded-try_attempts peers zero attempt c = (omega arith, omega arith)
  Bounded-try_attempts peers (suc left) attempt c =
      let a = Asks-attempt_on net peers c in
      let next = (wait_for_retry net attempt (attempt_on net peers c).0) in
      let w : sum (attempt_on net peers c).0.waited ≡ sum c.waited = ap sum a.2 in
      let b = Bounded-try_attempts peers left (attempt + 1) next in
      elim (Bool-cases (attempt_on net peers c).1.0) [
        | inl y ↦
            rw (try_attempts-accepted net peers left attempt c y)
              (omega (arith, a.1), omega (arith, w))
        | inr n ↦ elim (Bool-cases (not (attempt_on net peers c).1.1 || left == 0)) [
          | inl g ↦
              rw (try_attempts-given_up net peers left attempt c n g)
                (omega (arith, a.1), omega (arith, w))
          | inr r ↦ rw (try_attempts-again net peers left attempt c n r) (
            omega (arith, a.1, b.0),
            ground (
              arith,
              b.1,
              w,
              r,
              sum-snoc (attempt_on net peers c).0.waited (retry_delay attempt),
            ),
          )
        ]
      ]

  -- A call of `submitStroke` makes at most two requests for each target of each of its five attempts,
  -- and waits at most 1800 ms between them.
  pub submit_stroke-Bounded :
      (peers : List String) (leader : Option String)
      → let c = (submit_stroke net peers (fresh_client leader)).0 in
        (length c.sent ≤ 10 * (length peers + 1)) × (sum c.waited ≤ 1800)
  unfolding submit_stroke sum retry_delay
  submit_stroke-Bounded peers leader =
      let b = Bounded-try_attempts peers max_write_attempts 0 (fresh_client leader) in
      let d : delays max_write_attempts 0 ≡ 1800 = unfold delays in refl in
      (omega (arith, b.0), omega (arith, b.1, d))

  after_reply-accepts :
      (t : String) (r : Option ClientWriteResult) (c : Client ClientWriteResult)
      → succeeded r ≡ true
      → (after_reply net t r c).1 ≡ true
  unfolding after_reply
  after_reply-accepts t none c h = h
  after_reply-accepts t (some r) c h = rw h refl

  try_targets-retries :
      (ts : List String) (retry : Bool) (c : Client ClientWriteResult)
      → (try_targets net ts retry c).1.0 ≡ false
      → (retry ≡ true) ⊎ (1 ≤ length ts)
      → (try_targets net ts retry c).1.1 ≡ true
  unfolding try_targets
  try_targets-retries [] retry c refused h = ground arith
  try_targets-retries (t ∷ ts) retry c refused h = elim (Bool-cases (try_target net t c).1) [
    | inl y ↦ absurd (cc (ap (λ x. x.1.0) (try_targets-accepted net t ts retry c y)))
    | inr n ↦
        let e = try_targets-refused net t ts retry c n in
        rw e (try_targets-retries ts true (try_target net t c).0 (rw e at refused) (inl refl))
  ]

  -- The answers of `p` are successes from the request of number `from` on.
  module _ (p : String) (from : ℕ)
      (accepts : (i : ℕ) → from ≤ i → succeeded (net.answer i p) ≡ true) where
    try_target-accepts :
        (c : Client ClientWriteResult) → from ≤ length c.sent → (try_target net p c).1 ≡ true
    unfolding try_target ask
    try_target-accepts c late =
        after_reply-accepts p (net.answer (length c.sent) p) (ask net p c).0
          (accepts (length c.sent) late)

    try_targets-accepts :
        (ts : List String) (retry : Bool) (c : Client ClientWriteResult)
        → StringSet.has p ts ≡ true
        → from ≤ length c.sent
        → (try_targets net ts retry c).1.0 ≡ true
    unfolding StringSet.has Asks
    try_targets-accepts [] retry c here late = absurd (cc)
    try_targets-accepts (t ∷ ts) retry c here late =
        let a = Asks-try_target net t c in
        elim (Bool-cases (try_target net t c).1) [
          | inl y ↦ rw (try_targets-accepted net t ts retry c y) refl
          | inr n ↦ elim (Bool-cases (str_eq t p)) [
            | inl same ↦ absurd (cc (try_target-accepts c late, (eq_iff t p).0 same))
            | inr other ↦
                rw (try_targets-refused net t ts retry c n)
                  (try_targets-accepts ts true _ (rw other at here) (omega (arith, a.0)))
          ]
        ]

    try_attempts-accepts :
        (peers : List String) (left attempt : ℕ) (c : Client ClientWriteResult)
        → StringSet.has p peers ≡ true
        → from ≤ left + length c.sent
        → (try_attempts net peers (suc left) attempt c).1 ≡ true
    unfolding Asks wait_for_retry
    try_attempts-accepts peers zero attempt c here late =
        let target = has-targets p peers c.current_leader here in
        rw
          (try_attempts-accepted net peers zero attempt c
            (try_targets-accepts _ false c target (omega arith)))
          refl
    try_attempts-accepts peers (suc left) attempt c here late =
        let target = has-targets p peers c.current_leader here in
        let some_target = has-nonempty p (targets peers c.current_leader) target in
        let a = Asks-try_targets net (targets peers c.current_leader) false c in
        elim (Bool-cases (attempt_on net peers c).1.0) [
          | inl y ↦ rw (try_attempts-accepted net peers (suc left) attempt c y) refl
          | inr n ↦
              let retry =
                try_targets-retries (targets peers c.current_leader) false c n (inr some_target) in
              rw (try_attempts-again net peers (suc left) attempt c n (rw retry (ground arith))) (
                try_attempts-accepts peers left (attempt + 1) _ here
                  (omega (arith, a.0, some_target)))
        ]

    -- If a peer answers with success from the fifth request of the call on, the call reports a success,
    -- whatever the other peers answer.
    pub submit_stroke-accepts :
        (peers : List String) (leader : Option String)
        → from ≤ 4
        → StringSet.has p peers ≡ true
        → (submit_stroke net peers (fresh_client leader)).1 ≡ true
    unfolding submit_stroke
    submit_stroke-accepts peers leader early here =
        try_attempts-accepts peers 4 0 (fresh_client leader) here (omega arith)
