-- ===== src/RemoteClient/Steps.antt =====
-- The loops of `submitStroke`, one round at a time.
use quorum_canvas.Base.{ℕ, suc, ◌+◌, String, ◌≡◌, Bool, true, false, ◌||◌, not, List, ◌∷◌, ◌==◌}
use quorum_canvas.Types.{ClientWriteResult}
use quorum_canvas.RemoteClient.{
  Client, Network, ask, targets, try_target, try_targets, wait_for_retry, try_attempts,
}

module _ (net : Network ClientWriteResult) where
  pub try_targets-accepted :
      (t : String) (ts : List String) (retry : Bool) (c : Client ClientWriteResult)
      → (try_target net t c).1 ≡ true
      → try_targets net (t ∷ ts) retry c ≡ ((try_target net t c).0, (true, retry))
  unfolding try_targets try_target ask
  try_targets-accepted t ts retry c y = simp y

  pub try_targets-refused :
      (t : String) (ts : List String) (retry : Bool) (c : Client ClientWriteResult)
      → (try_target net t c).1 ≡ false
      → try_targets net (t ∷ ts) retry c ≡ try_targets net ts true (try_target net t c).0
  unfolding try_targets try_target ask
  try_targets-refused t ts retry c n = simp n

  -- What the loop over the targets gives in an attempt.
  abbrev pub attempt_on :
      List String → Client ClientWriteResult → Client ClientWriteResult × (Bool × Bool)
  attempt_on peers c = try_targets net (targets peers c.current_leader) false c

  pub try_attempts-accepted :
      (peers : List String) (left attempt : ℕ) (c : Client ClientWriteResult)
      → (attempt_on peers c).1.0 ≡ true
      → try_attempts net peers (suc left) attempt c ≡ ((attempt_on peers c).0, true)
  unfolding try_attempts
  try_attempts-accepted peers left attempt c y = simp y

  pub try_attempts-given_up :
      (peers : List String) (left attempt : ℕ) (c : Client ClientWriteResult)
      → (attempt_on peers c).1.0 ≡ false
      → (not (attempt_on peers c).1.1 || left == 0) ≡ true
      → try_attempts net peers (suc left) attempt c ≡ ((attempt_on peers c).0, false)
  unfolding try_attempts
  try_attempts-given_up peers left attempt c n g = simp (n, g)

  pub try_attempts-again :
      (peers : List String) (left attempt : ℕ) (c : Client ClientWriteResult)
      → (attempt_on peers c).1.0 ≡ false
      → (not (attempt_on peers c).1.1 || left == 0) ≡ false
      → try_attempts net peers (suc left) attempt c
        ≡ try_attempts net peers left
            (attempt + 1)
            (wait_for_retry net attempt (attempt_on peers c).0)
  unfolding try_attempts
  try_attempts-again peers left attempt c n g = simp (n, g)
