-- ===== src/RemoteClient/Requests.antt =====
-- How many requests the parts of an attempt make.
use quorum_canvas.Base.{
  ℕ, ◌+◌, ◌*◌, min, ◌≤◌, String, ◌≡◌, refl, inl, inr, Bool, true, false, Option, none, some, List,
  [], ◌∷◌, arith, length, Bool-cases, length-append,
}
use quorum_canvas.Types.{ClientWriteResult, truthy}
use quorum_canvas.RemoteClient.Steps.{try_targets-accepted, try_targets-refused, attempt_on}
use quorum_canvas.RemoteClient.{
  Client, Network, targets, ask, follow_hint, after_reply, try_target, try_targets,
}
use quorum_canvas.RemoteClient.Targets.{length-targets}

-- From `c` to `c'` the client has made at least `lo` and at most `hi` requests and has not waited for
-- a delay.
unfoldable pub Asks : ℕ → ℕ → Client ClientWriteResult → Client ClientWriteResult → Type 0
Asks lo hi c c' =
    (lo + length c.sent ≤ length c'.sent)
    × (length c'.sent ≤ hi + length c.sent)
    × (c'.waited ≡ c.waited)

module _ (net : Network ClientWriteResult) where
  Asks-ask : (t : String) (c : Client ClientWriteResult) → Asks 1 1 c (ask net t c).0
  unfolding Asks ask
  Asks-ask t c =
      let n = length-append c.sent ((t, net.answer (length c.sent) t) ∷ []) in
      (omega (arith, n), omega (arith, n), refl)

  Asks-follow_hint :
      (h : Option String) (c : Client ClientWriteResult) → Asks 0 1 c (follow_hint net h c).0
  unfolding follow_hint Asks
  Asks-follow_hint none c = (omega arith, omega arith, refl)
  Asks-follow_hint (some h) c =
      let a = Asks-ask h (record c { current_leader = some h }) in
      (omega (arith, a.0), omega (arith, a.1), a.2)

  Asks-after_reply :
      (t : String) (r : Option ClientWriteResult) (c : Client ClientWriteResult)
      → Asks 0 1 c (after_reply net t r c).0
  unfolding after_reply
  Asks-after_reply t none c = unfold Asks in (omega arith, omega arith, refl)
  Asks-after_reply t (some r) c = elim (Bool-cases r.success) [
    | inl y ↦ rw y (unfold Asks in (omega arith, omega arith, refl))
    | inr n ↦ rw n (Asks-follow_hint (truthy r.leader_hint) c)
  ]

  pub Asks-try_target :
      (t : String) (c : Client ClientWriteResult) → Asks 1 2 c (try_target net t c).0
  unfolding Asks try_target
  Asks-try_target t c =
      let a = Asks-ask t c in
      let b = Asks-after_reply t (ask net t c).1 (ask net t c).0 in
      (omega (arith, a.0, b.0), omega (arith, a.1, b.1), cc (a.2, b.2))

  pub Asks-try_targets :
      (ts : List String) (retry : Bool) (c : Client ClientWriteResult)
      → Asks (min 1 (length ts)) (2 * length ts) c (try_targets net ts retry c).0
  unfolding try_targets Asks
  Asks-try_targets [] retry c = (omega arith, omega arith, refl)
  Asks-try_targets (t ∷ ts) retry c =
      let a = Asks-try_target t c in
      let b = Asks-try_targets ts true (try_target net t c).0 in
      elim (Bool-cases (try_target net t c).1) [
        | inl y ↦
            rw (try_targets-accepted net t ts retry c y)
              (omega (arith, a.0), omega (arith, a.1), a.2)
        | inr n ↦
            rw (try_targets-refused net t ts retry c n)
              (omega (arith, a.0, b.0), omega (arith, a.1, b.1), cc (a.2, b.2))
      ]

  pub Asks-attempt_on :
      (peers : List String) (c : Client ClientWriteResult)
      → Asks 0 (2 * (length peers + 1)) c (attempt_on net peers c).0
  unfolding Asks
  Asks-attempt_on peers c =
      let a = Asks-try_targets (targets peers c.current_leader) false c in
      (omega (arith, a.0), omega (arith, a.1, length-targets peers c.current_leader), a.2)
