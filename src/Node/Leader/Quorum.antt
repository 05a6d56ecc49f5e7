-- ===== src/Node/Leader/Quorum.antt =====
-- `updateCommitIndex`: which index a leader commits.
use mathlib.Core.Path.{subst}
use quorum_canvas.Base.{
  ℕ, zero, suc, ◌+◌, ◌-◌, ◌*◌, ◌≤◌, ◌<◌, ◌≡◌, refl, ◌⊎◌, inl, inr, true, false, Option, none, some,
  arith, String, List, [], ◌∷◌, filter, length, dec_le, Bool-cases, Option-cases,
}
use quorum_canvas.Map
use quorum_canvas.RaftLog
use quorum_canvas.RaftLog.Contiguous.{get_entry_le}
use quorum_canvas.Node.{Node, majority, commit_at}
use quorum_canvas.Node.Append.Entries.{HasTerm}
use quorum_canvas.Node.Append.Commit.{IsSound, Grows, Grows-frame, commit_at-Grows}
use quorum_canvas.Node.Leader.{
  count_matching, replicated_count, is_committable, find_committable, update_commit_index,
}

-- The peers among `ps` whose match index is at least `i`, which hold the entry at `i`.
abbrev pub holders : ℕ → List String → List (String × ℕ) → List String
holders i ps m = filter (λ p. dec_le i (Map.get_or p m 0)) ps

-- The entry is of the node's own term, and those who hold it, the node itself among them, are more
-- than half of the cluster, which is the peers and the node.
abbrev pub HasQuorum : ℕ → Node → Type 0
HasQuorum i n =
    HasTerm i n.current_term n.log
    × (length n.peers + 1 < 2 * (1 + length (holders i n.peers n.match_index)))

-- The code's counter is the number of the holders.
pub length-holders :
    (i : ℕ) (ps : List String) (m : List (String × ℕ))
    → length (holders i ps m) ≡ count_matching i ps m
unfolding count_matching
length-holders i [] m = refl
length-holders i (p ∷ ps) m = elim (dec_le i (Map.get_or p m 0)) [
  | yes h ↦ ground (arith, length-holders i ps m)
  | no h ↦ ground (arith, length-holders i ps m)
]

pub is_committable-HasQuorum : (i : ℕ) (n : Node) → is_committable i n ≡ true → HasQuorum i n
unfolding is_committable majority replicated_count
is_committable-HasQuorum i n h =
    let same = length-holders i n.peers n.match_index in
    elim (Option-cases (RaftLog.get_entry i n.log)) [
      | inl lost ↦ absurd (ground arith)
      | inr (x, found) ↦ ((x, found, ground arith), ground arith)
    ]

HasQuorum-is_committable : (i : ℕ) (n : Node) → HasQuorum i n → is_committable i n ≡ true
unfolding is_committable majority replicated_count
HasQuorum-is_committable i n ((x, found, own), many) =
    let same = length-holders i n.peers n.match_index in ground arith

-- The scan stops at the greatest committable index above the commit index.
abbrev pub Greatest : ℕ → Node → Option ℕ → Type 0
Greatest k n none =
    (j : ℕ) → n.commit_index < j → j ≤ n.commit_index + k → is_committable j n ≡ false
Greatest k n (some i) =
    (is_committable i n ≡ true)
    × (n.commit_index < i)
    × (i ≤ n.commit_index + k)
    × ((j : ℕ) → i < j → j ≤ n.commit_index + k → is_committable j n ≡ false)

none_above :
    (i k j : ℕ) (n : Node)
    → is_committable (n.commit_index + suc k) n ≡ false
    → ((m : ℕ) → i < m → m ≤ n.commit_index + k → is_committable m n ≡ false)
    → i < j
    → j ≤ n.commit_index + suc k
    → is_committable j n ≡ false
none_above i k j n miss rest above below = elim (dec_le j (n.commit_index + k)) [
  | yes inside ↦ rest j above inside
  | no last ↦ let e : j ≡ n.commit_index + suc k = omega arith in rw e miss
]

Greatest-suc :
    (k : ℕ) (n : Node) (r : Option ℕ)
    → is_committable (n.commit_index + suc k) n ≡ false
    → Greatest k n r
    → Greatest (suc k) n r
Greatest-suc k n none miss g = λ j above below. none_above n.commit_index k j n miss g above below
Greatest-suc k n (some i) miss (hit, above, below, rest) =
    (hit, above, omega arith, λ j a b. none_above i k j n miss rest a b)

find_committable-Greatest : (k : ℕ) (n : Node) → Greatest k n (find_committable k n)
unfolding find_committable
find_committable-Greatest zero n = λ j above below. absurd (omega arith)
find_committable-Greatest (suc k) n =
    elim (Bool-cases (is_committable (n.commit_index + suc k) n)) [
      | inl hit ↦ simp hit (refl, omega arith, omega arith, λ j above below. absurd (omega arith))
      | inr miss ↦
          simp miss (Greatest-suc k n (find_committable k n) miss (find_committable-Greatest k n))
    ]

update_commit_index-none :
    (n : Node)
    → find_committable (RaftLog.get_last_index n.log - n.commit_index) n ≡ none
    → update_commit_index n ≡ n
unfolding update_commit_index
update_commit_index-none n e = rw (e, update_commit_index)

update_commit_index-some :
    (n : Node) (i : ℕ)
    → find_committable (RaftLog.get_last_index n.log - n.commit_index) n ≡ some i
    → update_commit_index n ≡ commit_at i n
unfolding update_commit_index
update_commit_index-some n i e = rw (e, update_commit_index)

-- No index above `i` that the log has carries a quorum.
abbrev pub NoneAbove : ℕ → Node → Type 0
NoneAbove i n = (j : ℕ) → i < j → j ≤ RaftLog.get_last_index n.log → ¬ HasQuorum j n

not-HasQuorum : (j : ℕ) (n : Node) → is_committable j n ≡ false → ¬ HasQuorum j n
not-HasQuorum j n h q = ground (arith, HasQuorum-is_committable j n q)

-- A sound leader commits exactly the greatest index above its commit index whose entry is of its own
-- term and, by its match indices, held by more than half of the cluster, the leader itself included;
-- where there is none it changes nothing.
pub update_commit_index_lem :
    (n : Node)
    → IsSound n
    → ((update_commit_index n ≡ n) × NoneAbove n.commit_index n)
      ⊎ ((i : ℕ) × (update_commit_index n ≡ commit_at i n)
          × (n.commit_index < i)
          × HasQuorum i n
          × NoneAbove i n)
update_commit_index_lem n s =
    let k = RaftLog.get_last_index n.log - n.commit_index in
    let logged = s.logged in
    elim (Option-cases (find_committable k n)) [
      | inl e ↦
          let g = subst (Greatest k n) e (find_committable-Greatest k n) in
          inl (
            update_commit_index-none n e,
            λ j above below. not-HasQuorum j n (g j above (omega arith)),
          )
      | inr (i, e) ↦
          let (hit, above, _, rest) = subst (Greatest k n) e (find_committable-Greatest k n) in
          inr (
            i,
            update_commit_index-some n i e,
            above,
            is_committable-HasQuorum i n hit,
            λ j more below. not-HasQuorum j n (rest j more (omega arith)),
          )
    ]

-- Advancing the commit index keeps a sound leader sound and its committed entries unchanged.
pub update_commit_index-Grows : (n : Node) → IsSound n → Grows n (update_commit_index n)
update_commit_index-Grows n s = elim (update_commit_index_lem n s) [
  | inl (same, _) ↦ rw same (Grows-frame n n s refl)
  | inr (i, e, above, ((x, found, _), _), _) ↦
      rw e (commit_at-Grows i n s (omega arith) (get_entry_le i n.log found))
]
