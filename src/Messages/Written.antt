-- ===== src/Messages/Written.antt =====
-- A stroke between the browsers and the replicas.
use quorum_canvas.Base.{ℕ, String, ◌≡◌, ap, ◌⊎◌, inl, inr, true, Option, List, [], ◌∷◌, ◌++◌}
use quorum_canvas.Types.{ClientWriteResult}
use quorum_canvas.RemoteClient.{Network, ReadAnswer, fresh_client, succeeded, submit_stroke}
use quorum_canvas.RemoteClient.Writes.{Ends, submit_stroke-Ends}
use quorum_canvas.Security.{Json}
use quorum_canvas.Messages.{ConnectionInfo, Gateway, handle_stroke, remote_client}
use quorum_canvas.Messages.Strokes.{strokes_sent, handle_stroke-sends}

-- The last request, with an answer of success.
Ends-last :
    (xs : List (String × Option ClientWriteResult))
    → Ends true xs
    → (ys : List (String × Option ClientWriteResult)) × (t : String) × (r : Option
        ClientWriteResult)
      × (xs ≡ ys ++ (t, r) ∷ [])
      × (succeeded r ≡ true)
unfolding Ends
Ends-last [] h = absurd (cc)
Ends-last ((t, r) ∷ xs) (inl (_, ok, last)) = ([], t, r, ap (λ z. (t, r) ∷ z) last, ok)
Ends-last ((t, r) ∷ xs) (inr (_, h)) =
    let (ys, u, q, e, ok) = Ends-last xs h in ((t, r) ∷ ys, u, q, ap (λ z. (t, r) ∷ z) e, ok)

-- A gateway that is connected to replicas sends a stroke to other browsers only if the last of the
-- requests that it made for it was answered with success. `others` is what its other connections do
-- meanwhile.
pub handle_stroke-written :
    (peers : List String) (writes : Json → Network ClientWriteResult)
    (reads : String → Network ReadAnswer) (others : Gateway → Gateway) (now ws : ℕ) (s : Json)
    (info : ConnectionInfo) (g : Gateway)
    → let requests = (submit_stroke (writes s) peers (fresh_client g.current_leader)).0.sent in
      let after = handle_stroke (remote_client peers writes reads others) now ws s info g in
      (strokes_sent after.1.outbox ≡ strokes_sent g.outbox)
      ⊎ (strokes_sent after.1.outbox ≡ strokes_sent (others g).outbox)
      ⊎ ((before : List (String × Option ClientWriteResult)) × (t : String) × (r : Option
            ClientWriteResult)
          × (requests ≡ before ++ (t, r) ∷ [])
          × (succeeded r ≡ true))
unfolding remote_client
handle_stroke-written peers writes reads others now ws s info g =
    let client = remote_client peers writes reads others in
    let ends = submit_stroke-Ends (writes s) peers g.current_leader in
    elim (handle_stroke-sends client now ws s info g) [
      | inl same ↦ inl same
      | inr (inl (failed, _)) ↦ inr (inl failed)
      | inr (inr (_, _, ok, _)) ↦ inr (inr (Ends-last _ (rw ok at ends)))
    ]
