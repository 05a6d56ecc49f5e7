-- ===== src/Dashboard.antt =====
-- frontend/src/pages/Dashboard.tsx: how the dashboard keeps the report of the replicas up to date.
use quorum_canvas.Base.{
  ◌≡◌, refl, ap, ◌∙◌, String, Bool, true, false, Option, none, some, List, [], ◌∷◌, if◌then◌else◌,
}
use quorum_canvas.ClusterStatus.{ClusterStatus}

-- The state of the page and what its effect keeps: whether it has been cleaned up, and its timer.
pub record Dashboard : Type 0 where
  pub report : Option ClusterStatus
  pub error : Option String
  pub cancelled : Bool
  pub polling : Bool

-- What becomes of one `fetch`: a report, or the message of an error. An answer whose status is not one
-- of success is an error.
pub data Fetched : Type 0 where
  reported : ClusterStatus → Fetched
  failed : String → Fetched

-- The first render and the start of its effect.
abbrev pub mounted : Dashboard
mounted = record { report = none; error = none; cancelled = false; polling = true }

-- `fetchStatus`, when its request ends.
unfoldable pub on_fetched : Fetched → Dashboard → Dashboard
on_fetched (reported s) d = if d.cancelled then d else record d { report = some s; error = none }
on_fetched (failed message) d = if d.cancelled then d else record d { error = some message }

-- The clean-up of the effect.
unfoldable pub unmount : Dashboard → Dashboard
unmount d = record d { cancelled = true; polling = false }

-- The report that the page shows beside a given one, after the requests have ended in this order: the
-- last that succeeded, even if it was sent before others.
abbrev pub last_report : Option ClusterStatus → List Fetched → Option ClusterStatus
last_report s [] = s
last_report s (reported r ∷ fs) = last_report (some r) fs
last_report s (failed m ∷ fs) = last_report s fs

abbrev pub answer : List Fetched → Dashboard → Dashboard
answer [] d = d
answer (f ∷ fs) d = answer fs (on_fetched f d)

-- A page that is shown takes the result of a request.
reported-shown :
    (s : ClusterStatus) (d : Dashboard)
    → d.cancelled ≡ false
    → on_fetched (reported s) d ≡ (record d { report = some s; error = none })
unfolding on_fetched
reported-shown s d h = rw h refl

failed-shown :
    (m : String) (d : Dashboard)
    → d.cancelled ≡ false
    → on_fetched (failed m) d ≡ (record d { error = some m })
unfolding on_fetched
failed-shown m d h = rw h refl

-- A page that is shown has the report of the request that succeeded last.
report-answer :
    (fs : List Fetched) (d : Dashboard)
    → d.cancelled ≡ false
    → (answer fs d).report ≡ last_report d.report fs
report-answer [] d h = refl
report-answer (reported s ∷ fs) d h =
    ap (λ x. (answer fs x).report) (reported-shown s d h)
    ∙ report-answer fs (record d { report = some s; error = none }) h
report-answer (failed m ∷ fs) d h =
    ap (λ x. (answer fs x).report) (failed-shown m d h)
    ∙ report-answer fs (record d { error = some m }) h

-- Nothing changes a page that has been left, whatever requests end after it.
answer-unmount : (fs : List Fetched) (d : Dashboard) → answer fs (unmount d) ≡ unmount d
unfolding on_fetched unmount
answer-unmount [] d = refl
answer-unmount (reported s ∷ fs) d = answer-unmount fs d
answer-unmount (failed m ∷ fs) d = answer-unmount fs d
