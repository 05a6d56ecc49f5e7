-- ===== src/Settings/Cap.antt =====
-- APPEND_ENTRIES_BATCH_CAP from the environment to what a leader sends.
use quorum_canvas.Base.{
  ℕ, ◌-◌, max, ◌≡◌, ◌≢◌, ◌≤◌, refl, sym, inl, inr, ap, ◌∙◌, false, str_eq, eq_refl, String, true,
  some, [], arith, eq_iff, Option-cases,
}
use quorum_canvas.Types.{AppendEntriesArgs, AppendEntriesResult}
use quorum_canvas.Strings.{Number, nan, is_nan, parse_int}
use quorum_canvas.Map
use quorum_canvas.Map.{get_or-set}
use quorum_canvas.Persistence.{load_snapshot}
use quorum_canvas.Node.{Node, Config}
use quorum_canvas.Node.Leader.{
  append_entries, replicate_once, append_entries_args, on_append_reply, record_match,
}
use quorum_canvas.Settings.{
  Env, ReplicaConfig, parse_config, replica_config, parse_number, node_config, or_default,
  threshold_or_default, default_url,
}

parse_number_lem : (v : String) → v ≢ "" → parse_number (some v) ≡ some (parse_int v)
unfolding parse_number
parse_number_lem v h = ground (arith, eq_iff v "")

-- The port, and the settings that `parseConfig` reads where it does not throw.
abbrev pub port_of : Env → Number
port_of env = parse_int (or_default (env "PORT") "3001")

abbrev pub read : String → Env → ReplicaConfig
read id env = replica_config id (port_of env) env

-- The node's settings, but for the batch cap, which is given.
abbrev pub with_cap : ℕ → ReplicaConfig → Config
with_cap cap c = record {
  replica_id = c.replica_id;
  peers = c.peers;
  snapshot_threshold = threshold_or_default c.snapshot_threshold_entries;
  self_url = or_default c.advertised_url (default_url c.replica_id c.port);
  batch_cap = cap;
}

parse_config-accepts :
    (env : Env) (id : String)
    → env "REPLICA_ID" ≡ some id
    → id ≢ ""
    → is_nan (port_of env) ≡ false
    → parse_config env ≡ inr (read id env)
unfolding parse_config
parse_config-accepts env id at set port =
    let full : str_eq id "" ≡ false = ground (arith, eq_iff id "") in rw (at, full, port) refl

node_config-nan :
    (c : ReplicaConfig)
    → c.append_entries_batch_cap ≡ some nan
    → node_config c ≡ some (with_cap 0 c)
unfolding node_config
node_config-nan c h = rw h refl

entries-replicate_once :
    (peer : String) (n : Node) (i : ℕ) (args : AppendEntriesArgs)
    → n.batch_cap ≡ 0
    → replicate_once peer n ≡ append_entries i args
    → args.entries ≡ []
unfolding replicate_once append_entries_args
entries-replicate_once peer n i args h e = elim (Option-cases (load_snapshot (n.log).persistence)) [
  | inl s ↦ ground arith
  | inr (s, found) ↦ ground arith
]

match-record_match :
    (peer : String) (i : ℕ) (n : Node)
    → Map.get_or peer (record_match peer i [] n).match_index 0
      ≡ max (Map.get_or peer n.match_index 0) (i - 1)
unfolding record_match
match-record_match peer i n = rw (get_or-set, eq_refl peer)

on_append_reply-empty :
    (peer : String) (i : ℕ) (result : AppendEntriesResult) (n : Node)
    → result.success ≡ true
    → result.term ≤ n.current_term
    → on_append_reply peer i [] result n ≡ record_match peer i [] n
unfolding on_append_reply
on_append_reply-empty peer i result n ok_reply old = ground arith

-- If the environment has an id, a port that is missing or a number, and a batch cap that is there, not
-- empty and not a number, then both `parseConfig` and the node accept it, and the cap is read as zero:
-- what a leader with these settings appends at a peer has no entry, and an answer of success to it, of
-- a term not above the leader's, leaves every next index as it is and raises the peer's match index at
-- most to the index before the one that the request was sent for.
pub cap_not_a_number-sends :
    (env : Env) (id v : String)
    → env "REPLICA_ID" ≡ some id
    → id ≢ ""
    → is_nan (port_of env) ≡ false
    → env "APPEND_ENTRIES_BATCH_CAP" ≡ some v
    → v ≢ ""
    → parse_int v ≡ nan
    → (n : Node) → n.config ≡ with_cap 0 (read id env)
    → (peer : String) (i : ℕ) (args : AppendEntriesArgs) (result : AppendEntriesResult)
    → replicate_once peer n ≡ append_entries i args
    → result.success ≡ true
    → result.term ≤ n.current_term
    → let after = on_append_reply peer i args.entries result n in
      (parse_config env ≡ inr (read id env))
      × (node_config (read id env) ≡ some n.config)
      × (args.entries ≡ [])
      × (after.next_index ≡ n.next_index)
      × (Map.get_or peer after.match_index 0 ≡ max (Map.get_or peer n.match_index 0) (i - 1))
unfolding replica_config record_match
cap_not_a_number-sends env id v named there_is port at set bad n config peer i args result sent
      ok_reply old =
    let cap : (read id env).append_entries_batch_cap ≡ some nan =
      ap parse_number at ∙ parse_number_lem v set ∙ ap some bad in
    let empty = entries-replicate_once peer n i args (ap (λ x. x.batch_cap) config) sent in
    let kept = on_append_reply-empty peer i result n ok_reply old in
    (
      parse_config-accepts env id named there_is port,
      node_config-nan (read id env) cap ∙ ap some (sym config),
      empty,
      rw (empty, kept) refl,
      rw (empty, kept) (match-record_match peer i n),
    )
