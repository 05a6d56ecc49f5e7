-- ===== src/RemoteClient/Reads.antt =====
-- What `getStrokes` answers, compared with the answers that it was given.
use quorum_canvas.Base.{
  String, ◌≡◌, refl, sym, ap, inl, inr, Bool, true, false, Option, none, some, List, [], ◌∷◌, ◌++◌,
  ◌&&◌, arith, length, ◌==◌, Bool-cases, Option-cases, if◌then◌else◌,
}
use quorum_canvas.Types.{Stroke, truthy}
use quorum_canvas.RemoteClient.{
  Client, ReadAnswer, Network, fresh_client, targets, ask, try_get_strokes, get_from_targets,
  get_strokes, follow_read_hint, after_read, try_hinted,
}

-- A read that a replica has confirmed.
abbrev pub confirmed : Option ReadAnswer → Option (List Stroke)
confirmed none = none
confirmed (some r) = if r.status == 200 then some r.strokes else none

abbrev pub or_else : Option (List Stroke) → Option (List Stroke) → Option (List Stroke)
or_else none o = o
or_else (some ss) o = some ss

or_else-none : (o : Option (List Stroke)) → or_else o none ≡ o
or_else-none none = refl
or_else-none (some ss) = refl

abbrev pub or_empty : Option (List Stroke) → List Stroke
or_empty none = []
or_empty (some ss) = ss

-- The strokes of the first confirmed answer.
unfoldable pub first_confirmed : List (String × Option ReadAnswer) → Option (List Stroke)
first_confirmed [] = none
first_confirmed ((t, r) ∷ rs) = or_else (confirmed r) (first_confirmed rs)

first_confirmed-snoc :
    (xs : List (String × Option ReadAnswer)) (t : String) (r : Option ReadAnswer)
    → first_confirmed xs ≡ none
    → first_confirmed (xs ++ (t, r) ∷ []) ≡ confirmed r
unfolding first_confirmed
first_confirmed-snoc [] t r h = or_else-none (confirmed r)
first_confirmed-snoc ((u, q) ∷ xs) t r h = elim (Option-cases (confirmed q)) [
  | inl e ↦ rw e (first_confirmed-snoc xs t r (rw e at h))
  | inr (ss, e) ↦ absurd (cc (h, e))
]

module _ (net : Network ReadAnswer) where
  -- The requests of a call and its answer agree, and so do those of a nested call.
  Follows : (String → Client ReadAnswer → Client ReadAnswer × Option (List Stroke)) → Type 0
  Follows read =
      (t : String) (c : Client ReadAnswer)
      → first_confirmed c.sent ≡ none
      → first_confirmed (read t c).0.sent ≡ (read t c).1

  module _ (again : String → Client ReadAnswer → Client ReadAnswer × Option (List Stroke))
      (follow : Bool) (nested : follow ≡ true → Follows again) where
    Follows-follow_read_hint :
        (r : ReadAnswer) (h : Option String) (c : Client ReadAnswer)
        → first_confirmed c.sent ≡ none
        → let (c', o) = follow_read_hint net again follow r h c in first_confirmed c'.sent ≡ o
    unfolding follow_read_hint Follows
    Follows-follow_read_hint r none c e = e
    Follows-follow_read_hint r (some h) c e = elim (Bool-cases ((r.status == 421) && follow)) [
      | inl y ↦ rw y (nested (ground arith) h (record c { current_leader = some h }) e)
      | inr n ↦ rw n e
    ]

    Follows-after_read :
        (t : String) (r : Option ReadAnswer) (c : Client ReadAnswer)
        → first_confirmed c.sent ≡ confirmed r
        → let (c', o) = after_read net again follow t r c in first_confirmed c'.sent ≡ o
    unfolding after_read
    Follows-after_read t none c h = h
    Follows-after_read t (some r) c h = elim (Bool-cases (r.status == 200)) [
      | inl e ↦ rw e (rw e at h)
      | inr e ↦ rw e (Follows-follow_read_hint r (truthy r.leader_hint) c (rw e at h))
    ]

  Follows-try_hinted : Follows (try_hinted net)
  unfolding Follows try_hinted ask
  Follows-try_hinted t c h =
      let r = net.answer (length c.sent) t in
      Follows-after_read (λ k d. (d, none)) false (λ e. absurd (cc)) t r (ask net t c).0
        (first_confirmed-snoc c.sent t r h)

  Follows-try_get_strokes : Follows (try_get_strokes net)
  unfolding Follows try_get_strokes ask
  Follows-try_get_strokes t c h =
      let r = net.answer (length c.sent) t in
      Follows-after_read (try_hinted net) true (λ e. Follows-try_hinted) t r (ask net t c).0
        (first_confirmed-snoc c.sent t r h)

  Follows-get_from_targets :
      (ts : List String) (c : Client ReadAnswer)
      → first_confirmed c.sent ≡ none
      → let (c', ss) = get_from_targets net ts c in or_empty (first_confirmed c'.sent) ≡ ss
  unfolding get_from_targets Follows try_get_strokes ask
  Follows-get_from_targets [] c h = rw h refl
  Follows-get_from_targets (t ∷ ts) c h =
      let f = Follows-try_get_strokes t c h in
      elim (Option-cases (try_get_strokes net t c).1) [
        | inl e ↦ rw e (Follows-get_from_targets ts (try_get_strokes net t c).0 (rw e at f))
        | inr (ss, e) ↦ rw e (ap or_empty (rw e at f))
      ]

  -- A read answers the strokes of the first answer that a replica has confirmed, with status 200,
  -- and the empty list if there is none among its answers.
  pub get_strokes-confirmed :
      (peers : List String) (leader : Option String)
      → let (c, ss) = get_strokes net peers (fresh_client leader) in
        ss ≡ or_empty (first_confirmed c.sent)
  unfolding get_strokes first_confirmed
  get_strokes-confirmed peers leader =
      sym (Follows-get_from_targets (targets peers leader) (fresh_client leader) refl)
