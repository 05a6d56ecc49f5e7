-- ===== src/Node/Leader/Write.antt =====
-- `handleClientWrite`: what a successful answer to a client means.
use mathlib.Core.Path.{subst}
use quorum_canvas.Base.{
  ℕ, zero, suc, ◌+◌, ◌/◌, ◌≤◌, ◌≡◌, refl, sym, ap, inl, inr, true, Option, none, some, arith, leb,
  length, Bool-cases, dec_le,
}
use quorum_canvas.Types.{Stroke}
use quorum_canvas.RaftLog
use quorum_canvas.RaftLog.Contiguous.{
  get_entry_le, append-IsContiguous, get_last_index-append, get_entry-append_new,
}
use quorum_canvas.Node.{
  Node, Config, is_leader, majority, commit_at, maybe_snapshot, take_snapshot, apply_committed,
  persist_state,
}
use quorum_canvas.Node.Append.Entries.{HasTerm, boundary-append}
use quorum_canvas.Node.Append.Commit.{IsSound}
use quorum_canvas.Node.Leader.{
  replicated_count, update_commit_index, write_loop, finish_write, append_own, new_entry,
  max_retries, handle_client_write,
}
use quorum_canvas.Node.Leader.Quorum.{HasQuorum, length-holders, update_commit_index_lem}

-- What has to hold of the leader while it waits: it is sound, in the term and with the peers that it
-- had, and its log still has the entry of the write.
pub record Keeps (c : Config) (t i : ℕ) (n : Node) : Type 0 where
  pub sound : IsSound n
  pub config : n.config ≡ c
  pub term : n.current_term ≡ t
  pub entry : HasTerm i t n.log

pub commit_index-commit_at : (i : ℕ) (n : Node) → (commit_at i n).commit_index ≡ i
unfolding commit_at persist_state apply_committed maybe_snapshot take_snapshot
commit_index-commit_at i n = ground arith

-- A quorum for an index commits it.
quorum-commits :
    (i : ℕ) (n : Node) → IsSound n → HasQuorum i n → i ≤ (update_commit_index n).commit_index
quorum-commits i n s q = elim (update_commit_index_lem n s) [
  | inl (same, above) ↦ rw same (elim (dec_le i n.commit_index) [
    | yes old ↦ old
    | no new ↦ absurd (above i (omega arith) (get_entry_le i n.log q.0.1) q)
  ])
  | inr (j, made, _, _, above) ↦
      rw (made, commit_index-commit_at)
        (elim (dec_le i j) [
          | yes within ↦ within
          | no beyond ↦ absurd (above i (omega arith) (get_entry_le i n.log q.0.1) q)
        ])
]

acks-HasQuorum :
    (c : Config) (t i acks : ℕ) (n : Node)
    → Keeps c t i n
    → leb (majority n) (replicated_count i n) ≡ true
    → HasQuorum i n
unfolding replicated_count majority
acks-HasQuorum c t i acks n k enough =
    let same = length-holders i n.peers n.match_index in (rw k.term k.entry, ground arith)

-- What the loop's result promises: if acks were counted, the node is kept, and enough acks are a
-- quorum.
abbrev Counted : Config → ℕ → ℕ → ℕ → Node × Option ℕ → Type 0
Counted c t i q (n, none) = Unit {0}
Counted c t i q (n, some acks) =
    Keeps c t i n × (leb q acks ≡ true → leb q (replicated_count i n) ≡ true)

module _ (c : Config) (t i q : ℕ) (drive : ℕ → Node → Node)
    (stays : (k : ℕ) (m : Node)
      → Keeps c t i m
      → is_leader (drive k m).state ≡ true
      → Keeps c t i (drive k m)) where
  write_loop-Counted :
      (k acks : ℕ) (n : Node)
      → Keeps c t i n
      → (leb q acks ≡ true → leb q (replicated_count i n) ≡ true)
      → Counted c t i q (write_loop k q drive i acks n)
  unfolding write_loop
  write_loop-Counted zero acks n h a = (h, a)
  write_loop-Counted (suc k) acks n h a =
      let n1 = drive k n in
      let acks' = replicated_count i n1 in
      elim (Bool-cases (is_leader n1.state)) [
        | inl leads ↦
            let h1 = stays k n h leads in
            elim (Bool-cases (leb q acks')) [
              | inl enough ↦ simp (leads, enough) (h1, λ _. refl)
              | inr few ↦ simp (leads, few) (write_loop-Counted k acks' n1 h1 (λ x. x))
            ]
        | inr lost ↦ simp lost tt
      ]

append_own-Keeps :
    (stroke : Stroke) (n : Node)
    → IsSound n
    → Keeps n.config n.current_term (new_entry stroke n).index (append_own (new_entry stroke n) n)
unfolding append_own new_entry
append_own-Keeps stroke n s =
    let e = new_entry stroke n in
    let next : e.index ≡ suc (RaftLog.get_last_index n.log) = omega arith in
    record {
      sound = record {
        contiguous = append-IsContiguous e n.log s.contiguous next;
        covered = rw (boundary-append e n.log) s.covered;
        logged = omega (arith, s.logged, get_last_index-append e n.log);
        applied = s.applied;
      };
      config = refl;
      term = refl;
      entry = (
        e,
        subst (λ j. RaftLog.get_entry j (RaftLog.append e n.log) ≡ some e) (sym next)
            (get_entry-append_new e n.log),
        refl,
      );
    }

one_le_replicated_count :
    (q i : ℕ) (n : Node) → leb q 1 ≡ true → leb q (replicated_count i n) ≡ true
unfolding replicated_count
one_le_replicated_count q i n h = ground arith

finish_write-commits :
    (c : Config) (t i : ℕ) (q : ℕ) (r : Node × Option ℕ)
    → ((n : Node) → Keeps c t i n → majority n ≡ q)
    → Counted c t i q r
    → (finish_write q r).1.success ≡ true
    → i ≤ (finish_write q r).0.commit_index
unfolding finish_write
finish_write-commits c t i q (n, none) m h success = cc
finish_write-commits c t i q (n, some acks) m (k, counted) success =
    elim (Bool-cases (leb q acks)) [
      | inl enough ↦
          simp enough (
            quorum-commits i n k.sound
              (acks-HasQuorum c t i acks n k (rw (m n k) (counted enough))))
      | inr few ↦ absurd (ground arith)
    ]

majority_config : (n m : Node) → m.config ≡ n.config → majority m ≡ majority n
unfolding majority
majority_config n m e = ap (λ c. (length c.peers + 1) / 2 + 1) e

-- A client is told that a write succeeded only if its entry is committed: the commit index has
-- reached the index that the entry was given. While the leader waits for its peers it may do
-- anything that leaves it, if it is still the leader, sound, in its term, with its peers and with
-- the entry in its log.
pub handle_client_write-commits :
    (drive : ℕ → Node → Node) (stroke : Stroke) (n : Node)
    → let i = (new_entry stroke n).index in
      IsSound n
      → ((k : ℕ) (m : Node)
          → Keeps n.config n.current_term i m
          → is_leader (drive k m).state ≡ true
          → Keeps n.config n.current_term i (drive k m))
      → (handle_client_write drive stroke n).1.success ≡ true
      → i ≤ (handle_client_write drive stroke n).0.commit_index
unfolding handle_client_write
handle_client_write-commits drive stroke n s stays success =
    let e = new_entry stroke n in
    let q = majority n in
    let start = append_own e n in
    elim (Bool-cases (is_leader n.state)) [
      | inr lost ↦ absurd (ground arith)
      | inl leads ↦ simp leads (
          finish_write-commits n.config n.current_term e.index q
            (write_loop max_retries q drive e.index 1 start) (λ m k. majority_config n m k.config)
            (write_loop-Counted n.config n.current_term e.index q drive stays max_retries 1 start
              (append_own-Keeps stroke n s) (one_le_replicated_count q e.index start))
            (simp leads at success))
    ]
