-- ===== src/Examples/Clusters.antt =====
-- An election in a cluster of three replicas that start on empty disks.
use mathlib.Core.Path.{subst}
use mathlib.Core.List.{Perm}
use mathlib.Core.List.Perm
use quorum_canvas.Base.{
  ◌≡◌, refl, ap, sym, ◌∙◌, ◌⊎◌, inl, inr, String, true, false, none, some, List, [], ◌∷◌, arith,
  eq_iff, str_eq, if◌then◌else◌,
}
use quorum_canvas.Map.StringSet
use quorum_canvas.Types.{RequestVoteResult}
use quorum_canvas.Persistence.{Disk, file, load_state, load_log, load_snapshot, save_state}
use quorum_canvas.RaftLog
use quorum_canvas.Node.{
  Config, construct, construct_from, apply_committed, maybe_snapshot, take_snapshot, apply_entries,
  persist_state, become_candidate, become_follower, become_leader, majority,
}
use quorum_canvas.Node.Vote.{
  on_election_timeout, run_election, finalize_election, request_vote_args, handle_request_vote,
  adopt_term, can_vote, grant_vote, may_vote_for, is_log_up_to_date, on_vote_settled, on_vote_reply,
  on_vote_done, still_candidate,
}
use quorum_canvas.Node.Step.Term.{ballot-apply_committed}
use quorum_canvas.Node.Step.Synced.{apply_committed-IsSynced}
use quorum_canvas.Cluster.{
  Cluster, Campaign, put, timed_out, answered, settled, elects, votes, counts, pick, Reach, here,
  next,
}
use quorum_canvas.Cluster.Safety.{HasLed, one_leader_per_term}
use quorum_canvas.Cluster.Leaders.{IsConfigured, IsFresh}

abbrev one : String
one = "http://replica1:3001"

abbrev two : String
two = "http://replica2:3002"

abbrev three : String
three = "http://replica3:3003"

abbrev members : List String
members = one ∷ two ∷ three ∷ []

abbrev config_of : String → List String → Config
config_of id peers = record {
  replica_id = id;
  peers = peers;
  snapshot_threshold = 500;
  self_url = id;
  batch_cap = 128;
}

abbrev config_at : String → Config
config_at a =
    if str_eq one a
    then config_of "replica1" (two ∷ three ∷ [])
    else if str_eq two a
    then config_of "replica2" (one ∷ three ∷ [])
    else config_of "replica3" (one ∷ two ∷ [])

abbrev empty : Disk
empty = record { state = none; wal = []; snapshot = none }

abbrev initial : Cluster
initial a = record {
  node = construct (config_at a) (file empty);
  campaigns = λ _. none;
  waiting = λ _ _. false;
  answers = λ _ _. none;
  led = λ _. false;
}

member_cases : (a : String) → StringSet.has a members ≡ true → (one ≡ a) ⊎ (two ≡ a) ⊎ (three ≡ a)
unfolding StringSet.has
member_cases a h = ground (arith, eq_iff one a, eq_iff two a, eq_iff three a)

config-initial : (a : String) → (initial a).node.config ≡ config_at a
unfolding construct construct_from
config-initial a = ap (λ b. b.config) (ballot-apply_committed _)

fresh : (a : String) → StringSet.has a members ≡ true → IsFresh (initial a)
unfolding construct construct_from load_state load_snapshot RaftLog.open_log
fresh a m = record {
  synced = apply_committed-IsSynced _ refl;
  follows = ap (λ b. b.role) (ballot-apply_committed _);
  no_campaign = λ t. refl;
  no_request = λ t q. refl;
  no_answer = λ x t. refl;
  no_term = λ t. refl;
}

in_order : (a : String) → StringSet.has a members ≡ true → Perm (a ∷ (config_at a).peers) members
in_order a m = elim (member_cases a m) [
  | inl e ↦ subst (λ x. Perm (x ∷ (config_at x).peers) members) e Perm.rfl
  | inr (inl e) ↦
      subst (λ x. Perm (x ∷ (config_at x).peers) members) e (Perm.swap one two (three ∷ []))
  | inr (inr e) ↦
      subst (λ x. Perm (x ∷ (config_at x).peers) members) e
        (Perm.trans (Perm.swap one three (two ∷ [])) (Perm.cons one (Perm.swap two three [])))
]

apart : (a : String) → StringSet.has a members ≡ true → StringSet.has a (config_at a).peers ≡ false
unfolding StringSet.has
apart a m = elim (member_cases a m) [
  | inl e ↦ subst (λ x. StringSet.has x (config_at x).peers ≡ false) e refl
  | inr (inl e) ↦ subst (λ x. StringSet.has x (config_at x).peers ≡ false) e refl
  | inr (inr e) ↦ subst (λ x. StringSet.has x (config_at x).peers ≡ false) e refl
]

address : String → String
address id = if str_eq "replica1" id then one else if str_eq "replica2" id then two else three

address_of : (a : String) → StringSet.has a members ≡ true → address (config_at a).replica_id ≡ a
unfolding address
address_of a m = elim (member_cases a m) [
  | inl e ↦ subst (λ x. address (config_at x).replica_id ≡ x) e refl
  | inr (inl e) ↦ subst (λ x. address (config_at x).replica_id ≡ x) e refl
  | inr (inr e) ↦ subst (λ x. address (config_at x).replica_id ≡ x) e refl
]

configured : IsConfigured members initial
configured = record {
  listed = λ a m. rw (config-initial a) (in_order a m);
  others = λ a m. rw (config-initial a) (apart a m);
  distinct = λ a b ma mb e.
      let same = rw (config-initial a, config-initial b) at e in
      sym (address_of a ma) ∙ ap address same ∙ address_of b mb;
}

-- The first replica stands for term 1, the second votes for it, and the vote arrives.
abbrev first_campaign : Campaign
first_campaign = record {
  election = record { term = 1; votes_granted = 1; pending_replies = 2; settled = false };
  request = record { term = 1; candidate_id = "replica1"; last_log_index = 0; last_log_term = 0 };
}

abbrev granted : RequestVoteResult
granted = record { term = 1; vote_granted = true; responder_id = "replica2" }

abbrev standing : Cluster
standing = put one (timed_out (initial one)) initial

abbrev voted : Cluster
voted = put two (answered first_campaign.request (standing two)) standing

abbrev won : Cluster
won = put one (settled 1 first_campaign two (some granted) (voted one)) voted

standing-Reach : Reach members initial standing
unfolding StringSet.has
standing-Reach = next here (pick one refl elects)

voted-Reach : Reach members initial voted
unfolding StringSet.has construct construct_from apply_committed maybe_snapshot take_snapshot
    load_state load_snapshot load_log RaftLog.open_log on_election_timeout run_election
    become_candidate persist_state finalize_election request_vote_args RaftLog.get_last_index
    RaftLog.get_last_term apply_entries save_state
voted-Reach = next standing-Reach (pick two refl (votes one 1 first_campaign refl refl refl refl))

won-Reach : Reach members initial won
unfolding StringSet.has construct construct_from apply_committed maybe_snapshot take_snapshot
    load_state load_snapshot load_log RaftLog.open_log on_election_timeout run_election
    become_candidate persist_state finalize_election request_vote_args RaftLog.get_last_index
    RaftLog.get_last_term handle_request_vote adopt_term become_follower can_vote grant_vote
    may_vote_for is_log_up_to_date apply_entries save_state
won-Reach =
    next voted-Reach
      (pick one refl (counts two 1 first_campaign (some granted) refl refl (inr refl)))

one_leads : HasLed (won one) 1
unfolding StringSet.has construct construct_from apply_committed maybe_snapshot take_snapshot
    load_state load_snapshot load_log RaftLog.open_log on_election_timeout run_election
    become_candidate persist_state finalize_election request_vote_args RaftLog.get_last_index
    RaftLog.get_last_term handle_request_vote adopt_term become_follower can_vote grant_vote
    may_vote_for is_log_up_to_date apply_entries save_state on_vote_settled on_vote_reply
    on_vote_done still_candidate become_leader majority
one_leads = inr (refl, refl)

one_leader_per_term_example : one ≡ one
unfolding StringSet.has
one_leader_per_term_example =
    one_leader_per_term members initial won configured fresh won-Reach one one 1 refl refl one_leads
      one_leads
