-- ===== src/Examples/Clients.antt =====
-- A gateway's client with two replicas, of which the second accepts from its fifth request on.
use quorum_canvas.Base.{
  ℕ, ◌+◌, ◌*◌, ◌≤◌, ◌≡◌, refl, String, true, false, none, some, List, [], ◌∷◌, length, leb, le→leb,
  ◌&&◌, if◌then◌else◌, str_eq, arith,
}
use quorum_canvas.Map.StringSet
use quorum_canvas.Types.{ClientWriteResult}
use quorum_canvas.RemoteClient.{
  Network, ReadAnswer, fresh_client, submit_stroke, succeeded, get_strokes, get_from_targets,
  targets, try_get_strokes, ask,
}
use quorum_canvas.RemoteClient.Writes.{Ends, submit_stroke-Ends}
use quorum_canvas.RemoteClient.Retries.{sum, submit_stroke-Bounded, submit_stroke-accepts}
use quorum_canvas.RemoteClient.Reads.{first_confirmed, or_empty, get_strokes-confirmed}
use quorum_canvas.Examples.Data.{drawn}

abbrev peers : List String
peers = "a" ∷ "b" ∷ []

-- The first replica sends the client to a third that is not there.
abbrev late : Network ClientWriteResult
late = record {
  answer = λ i t.
      if str_eq t "a"
      then some (record { success = false; leader_hint = some "c" })
      else if str_eq t "b" && leb 4 i
      then some (record { success = true; leader_hint = none })
      else none;
  meanwhile = λ i l. l;
  idle = λ i l. l;
}

submit_stroke-Ends_example :
    let (c, ok) = submit_stroke late peers (fresh_client none) in Ends ok c.sent
submit_stroke-Ends_example = submit_stroke-Ends late peers none

submit_stroke-Bounded_example :
    let c = (submit_stroke late peers (fresh_client none)).0 in
    (length c.sent ≤ 10 * (length peers + 1)) × (sum c.waited ≤ 1800)
submit_stroke-Bounded_example = submit_stroke-Bounded late peers none

late_accepts : (i : ℕ) → 4 ≤ i → succeeded (late.answer i "b") ≡ true
late_accepts i h = rw (le→leb 4 i h) refl

submit_stroke-accepts_example : (submit_stroke late peers (fresh_client none)).1 ≡ true
unfolding StringSet.has
submit_stroke-accepts_example =
    submit_stroke-accepts late "b" 4 late_accepts peers none (omega arith) refl

-- Only the replica that the first one names has a confirmed board.
abbrev redirected : Network ReadAnswer
redirected = record {
  answer = λ i t.
      if str_eq t "b"
      then some (record { status = 200; strokes = drawn "s" ∷ []; leader_hint = none })
      else some (record { status = 421; strokes = []; leader_hint = some "b" });
  meanwhile = λ i l. l;
  idle = λ i l. l;
}

get_strokes-confirmed_example :
    let (c, ss) = get_strokes redirected ("a" ∷ []) (fresh_client none) in
    ss ≡ or_empty (first_confirmed c.sent)
get_strokes-confirmed_example = get_strokes-confirmed redirected ("a" ∷ []) none

-- It finds the stroke of the replica that it was sent to.
redirect_is_followed : (get_strokes redirected ("a" ∷ []) (fresh_client none)).1 ≡ drawn "s" ∷ []
unfolding get_strokes get_from_targets targets try_get_strokes ask
redirect_is_followed = refl
