-- ===== src/RemoteClient/Writes.antt =====
-- What `submitStroke` reports, compared with the answers that it was given.
use quorum_canvas.Base.{
  ℕ, zero, suc, ◌+◌, String, ◌≡◌, refl, ◌⊎◌, inl, inr, Bool, true, not, ◌||◌, false, Option, none,
  some, List, [], ◌∷◌, ◌++◌, length, ◌==◌, Bool-cases,
}
use quorum_canvas.Types.{ClientWriteResult, truthy}
use quorum_canvas.RemoteClient.Steps.{
  try_targets-accepted, try_targets-refused, attempt_on, try_attempts-accepted,
  try_attempts-given_up, try_attempts-again,
}
use quorum_canvas.RemoteClient.{
  Client, Network, fresh_client, targets, ask, succeeded, follow_hint, after_reply, try_target,
  try_targets, wait_for_retry, try_attempts, max_write_attempts, submit_stroke,
}

-- The answers of a call that gives up (`false`) or accepts (`true`): a success is the last of them.
unfoldable pub Ends : Bool → List (String × Option ClientWriteResult) → Type 0
Ends ok [] = ok ≡ false
Ends ok ((t, r) ∷ rs) =
    ((ok ≡ true) × (succeeded r ≡ true) × (rs ≡ [])) ⊎ ((succeeded r ≡ false) × Ends ok rs)

Ends-snoc :
    (t : String) (r : Option ClientWriteResult) (xs : List (String × Option ClientWriteResult))
    → Ends false xs
    → Ends (succeeded r) (xs ++ (t, r) ∷ [])
unfolding Ends
Ends-snoc t r [] h = elim (Bool-cases (succeeded r)) [
  | inl y ↦ inl (y, y, refl)
  | inr n ↦ inr (n, n)
]
Ends-snoc t r (x ∷ xs) (inl h) = absurd (cc)
Ends-snoc t r (x ∷ xs) (inr (n, h)) = inr (n, Ends-snoc t r xs h)

module _ (net : Network ClientWriteResult) where
  Ends-follow_hint :
      (h : Option String) (c : Client ClientWriteResult)
      → Ends false c.sent
      → Ends (follow_hint net h c).1 (follow_hint net h c).0.sent
  unfolding follow_hint ask
  Ends-follow_hint none c e = e
  Ends-follow_hint (some h) c e = Ends-snoc h _ c.sent e

  Ends-after_reply :
      (t : String) (r : Option ClientWriteResult) (c : Client ClientWriteResult)
      → Ends (succeeded r) c.sent
      → Ends (after_reply net t r c).1 (after_reply net t r c).0.sent
  unfolding after_reply
  Ends-after_reply t none c e = e
  Ends-after_reply t (some r) c e = elim (Bool-cases r.success) [
    | inl y ↦ rw y (rw y at e)
    | inr n ↦ rw n (Ends-follow_hint (truthy r.leader_hint) c (rw n at e))
  ]

  Ends-try_target :
      (t : String) (c : Client ClientWriteResult)
      → Ends false c.sent
      → Ends (try_target net t c).1 (try_target net t c).0.sent
  unfolding try_target ask
  Ends-try_target t c h =
      let r = net.answer (length c.sent) t in
      Ends-after_reply t r (ask net t c).0 (Ends-snoc t r c.sent h)

  Ends-try_targets :
      (ts : List String) (retry : Bool) (c : Client ClientWriteResult)
      → Ends false c.sent
      → Ends (try_targets net ts retry c).1.0 (try_targets net ts retry c).0.sent
  unfolding try_targets
  Ends-try_targets [] retry c h = h
  Ends-try_targets (t ∷ ts) retry c h =
      let e = Ends-try_target t c h in
      elim (Bool-cases (try_target net t c).1) [
        | inl y ↦ rw (try_targets-accepted net t ts retry c y) (rw y at e)
        | inr n ↦
            rw (try_targets-refused net t ts retry c n) (Ends-try_targets ts true _ (rw n at e))
      ]

  Ends-try_attempts :
      (peers : List String) (left attempt : ℕ) (c : Client ClientWriteResult)
      → Ends false c.sent
      → Ends
          (try_attempts net peers left attempt c).1
          (try_attempts net peers left attempt c).0.sent
  unfolding try_attempts wait_for_retry
  Ends-try_attempts peers zero attempt c h = h
  Ends-try_attempts peers (suc left) attempt c h =
      let e = Ends-try_targets (targets peers c.current_leader) false c h in
      elim (Bool-cases (attempt_on net peers c).1.0) [
        | inl y ↦ rw (try_attempts-accepted net peers left attempt c y) (rw y at e)
        | inr n ↦ elim (Bool-cases (not (attempt_on net peers c).1.1 || left == 0)) [
          | inl g ↦ rw (try_attempts-given_up net peers left attempt c n g) (rw n at e)
          | inr a ↦ rw (try_attempts-again net peers left attempt c n a) (
              Ends-try_attempts peers left (attempt + 1)
                (wait_for_retry net attempt (attempt_on net peers c).0) (rw n at e))
        ]
      ]

  -- A call of `submitStroke` makes no request after an answer of success, and reports a success
  -- exactly if its last answer was one.
  pub submit_stroke-Ends :
      (peers : List String) (leader : Option String)
      → let (c, ok) = submit_stroke net peers (fresh_client leader) in Ends ok c.sent
  unfolding submit_stroke Ends
  submit_stroke-Ends peers leader =
      Ends-try_attempts peers max_write_attempts 0 (fresh_client leader) refl
