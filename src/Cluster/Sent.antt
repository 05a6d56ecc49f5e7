-- ===== src/Cluster/Sent.antt =====
-- The messages that a replica sends as a leader, as `Move` takes them.
use quorum_canvas.Base.{ℕ, ◌≡◌, refl, String, true, arith, Option-cases, inl, inr}
use quorum_canvas.Types.{AppendEntriesArgs, InstallSnapshotArgs}
use quorum_canvas.Persistence.{load_snapshot}
use quorum_canvas.Node.{is_leader}
use quorum_canvas.Node.Leader.{
  append_entries, snapshot, replicate_once, append_entries_args, install_snapshot_args,
}
use quorum_canvas.Node.Reads.{heartbeat_args}
use quorum_canvas.Cluster.{Replica}
use quorum_canvas.Cluster.Safety.{HasLed}

append_entries-HasLed :
    (peer : String) (i : ℕ) (args : AppendEntriesArgs) (r : Replica)
    → replicate_once peer r.node ≡ append_entries i args
    → HasLed r args.term
unfolding replicate_once append_entries_args
append_entries-HasLed peer i args r e =
    let n = r.node in
    elim (Option-cases (load_snapshot (n.log).persistence)) [
      | inl h ↦ inr (ground arith)
      | inr (s, h) ↦ inr (ground arith)
    ]

snapshot-HasLed :
    (peer : String) (args : InstallSnapshotArgs) (r : Replica)
    → replicate_once peer r.node ≡ snapshot args
    → HasLed r args.term
unfolding replicate_once install_snapshot_args
snapshot-HasLed peer args r e =
    let n = r.node in
    elim (Option-cases (load_snapshot (n.log).persistence)) [
      | inl h ↦ inr (ground arith)
      | inr (s, h) ↦ inr (ground arith)
    ]

-- `confirmLeadership` sends heartbeats only where the replica leads.
heartbeat-HasLed :
    (r : Replica) → is_leader (r.node).state ≡ true → HasLed r (heartbeat_args r.node).term
unfolding heartbeat_args
heartbeat-HasLed r leads = inr (leads, refl)
