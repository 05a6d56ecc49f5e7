-- ===== src/Node/Append/Entries.antt =====
-- The loop of `handleAppendEntries` over the entries of a request: what it does to the follower's log.
use mathlib.Core.Path.{subst}
use quorum_canvas.Base.{
  ℕ, All, suc, ◌+◌, ◌≤◌, ◌<◌, ◌≡◌, refl, sym, ◌∙◌, ◌⊎◌, inl, inr, Bool, true, false, none, some,
  List, [], ◌∷◌, arith, length, dec_lt, ◌==◌, Bool-cases, Option-cases,
}
use quorum_canvas.Types.{LogEntry}
use quorum_canvas.RaftLog
use quorum_canvas.RaftLog.{RaftLog}
use quorum_canvas.RaftLog.Contiguous.{
  IndexedFrom, IsContiguous, get_entry_above, get_entry_at, get_entry_le, append-IsContiguous,
  get_last_index-append, get_entry-append_old, get_entry-append_new, truncate_from-IsContiguous,
  get_entry-truncate_from_old, get_last_index-truncate_from, boundary-truncate_from,
}
use quorum_canvas.Node.Append.{append_missing, append_entry, append_loop}

-- The log has an entry of the term at the index.
abbrev pub HasTerm : ℕ → ℕ → RaftLog → Type 0
HasTerm i t l = (x : LogEntry) × (RaftLog.get_entry i l ≡ some x) × (x.term ≡ t)

-- From `l` to `l'` nothing at or below `p` or `c` has changed, and the log still reaches both.
pub record Extends (c p : ℕ) (l l' : RaftLog) : Type 0 where
  pub contiguous : IsContiguous l'
  pub boundary : l'.last_included_index ≡ l.last_included_index
  pub reaches : (c ≤ RaftLog.get_last_index l') × (p ≤ RaftLog.get_last_index l')
  pub older : (i : ℕ) → (i ≤ p) ⊎ (i ≤ c) → RaftLog.get_entry i l' ≡ RaftLog.get_entry i l

pub boundary-append :
    (e : LogEntry) (l : RaftLog) → (RaftLog.append e l).last_included_index ≡ l.last_included_index
unfolding RaftLog.append
boundary-append e l = refl

pub boundary_le : (l : RaftLog) → l.last_included_index ≤ RaftLog.get_last_index l
unfolding RaftLog.get_last_index
boundary_le l = omega arith

append_missing_absent :
    (e : LogEntry) (l : RaftLog)
    → RaftLog.get_entry e.index l ≡ none
    → append_missing e l ≡ RaftLog.append e l
unfolding append_missing
append_missing_absent e l h = rw (h, append_missing)

append_missing_present :
    (e x : LogEntry) (l : RaftLog) → RaftLog.get_entry e.index l ≡ some x → append_missing e l ≡ l
unfolding append_missing
append_missing_present e x l h = rw (h, append_missing)

module _ (c p : ℕ) (e : LogEntry) (l : RaftLog) where
  -- An entry that goes on from the last index is appended.
  append-Extends :
      IsContiguous l
      → e.index ≡ suc p
      → p ≡ RaftLog.get_last_index l
      → c ≤ RaftLog.get_last_index l
      → Extends c p l (RaftLog.append e l) × HasTerm (suc p) e.term (RaftLog.append e l)
  append-Extends h at last k = (
    record {
      contiguous = append-IsContiguous e l h (omega arith);
      boundary = boundary-append e l;
      reaches = omega (arith, get_last_index-append e l);
      older = λ i b. get_entry-append_old e l i (omega arith);
    },
    (e, rw last (get_entry-append_new e l), refl),
  )

  missing-Extends :
      IsContiguous l
      → e.index ≡ suc p
      → p ≡ RaftLog.get_last_index l
      → c ≤ RaftLog.get_last_index l
      → Extends c p l (append_missing e l) × HasTerm (suc p) e.term (append_missing e l)
  missing-Extends h at last k =
      rw (append_missing_absent e l (get_entry_above e.index l (omega arith)))
        (append-Extends h at last k)

pub Extends-refl :
    (c p : ℕ) (l : RaftLog)
    → IsContiguous l
    → c ≤ RaftLog.get_last_index l
    → p ≤ RaftLog.get_last_index l
    → Extends c p l l
Extends-refl c p l h k m = record {
  contiguous = h;
  boundary = refl;
  reaches = (k, m);
  older = λ i b. refl;
}

module _ (c p : ℕ) (e : LogEntry) (l : RaftLog) (h : IsContiguous l) (at : e.index ≡ suc p)
    (within : p ≤ RaftLog.get_last_index l) (committed : c ≤ RaftLog.get_last_index l) where
  -- A conflicting tail above the commit index is cut off and the entry takes its place.
  replace-Extends :
      l.last_included_index < e.index
      → e.index ≤ RaftLog.get_last_index l
      → c < e.index
      → let l' = append_missing e (RaftLog.truncate_from e.index l) in
        Extends c p l l' × HasTerm (suc p) e.term l'
  replace-Extends above inside free =
      let t = RaftLog.truncate_from e.index l in
      let last = get_last_index-truncate_from e.index l above inside in
      let (x, has) =
        missing-Extends c p e t (truncate_from-IsContiguous e.index l h) at (omega arith)
          (omega arith) in
      (
        record {
          contiguous = x.contiguous;
          boundary = x.boundary ∙ boundary-truncate_from e.index l;
          reaches = x.reaches;
          older = λ i b. x.older i b ∙ get_entry-truncate_from_old e.index l i (omega arith);
        },
        has,
      )

-- What a round that goes on leaves: the next index is reached, and above the boundary `b` it holds
-- an entry of the request's term.
abbrev Placed : ℕ → ℕ → ℕ → LogEntry → RaftLog → RaftLog → Type 0
Placed b c p e l l' =
    Extends c p l l' × (suc p ≤ RaftLog.get_last_index l') × (b < suc p → HasTerm (suc p) e.term l')

placed :
    (b c p : ℕ) (e : LogEntry) (l l' : RaftLog)
    → Extends c p l l' × HasTerm (suc p) e.term l'
    → Placed b c p e l l'
placed b c p e l l' (x, has) = (x, get_entry_le (suc p) l' has.1, λ _. has)

module _ (c p : ℕ) (e : LogEntry) (l : RaftLog) (h : IsContiguous l) (at : e.index ≡ suc p)
    (within : p ≤ RaftLog.get_last_index l) (committed : c ≤ RaftLog.get_last_index l) where
  abbrev base : ℕ
  base = l.last_included_index

  absent-Placed :
      base < e.index → RaftLog.get_entry e.index l ≡ none → Placed base c p e l (append_missing e l)
  absent-Placed above lost = elim (dec_lt p (RaftLog.get_last_index l)) [
    | yes inside ↦ let (x, found) = get_entry_at e.index l above (omega arith) in cc
    | no past ↦ placed base c p e l _ (missing-Extends c p e l h at (omega arith) committed)
  ]

  present-Placed :
      (x : LogEntry)
      → base < e.index
      → RaftLog.get_entry e.index l ≡ some x
      → {l' : RaftLog} → append_entry base c e l ≡ some l'
      → Placed base c p e l l'
  unfolding append_entry
  present-Placed x above found {l'} goes = elim (Bool-cases (x.term == e.term)) [
    | inl agrees ↦
        let same : l' ≡ l = ground (arith, append_missing_present e x l found) in
        rw same (
          placed base c p e l l
            (Extends-refl c p l h committed within, (x, rw (← at) found, ground arith)))
    | inr differs ↦
        let free : c < e.index = ground arith in
        let made : l' ≡ append_missing e (RaftLog.truncate_from e.index l) = ground arith in
        rw made (
          placed base c p e l _ (
            replace-Extends c p e l h at within committed above (get_entry_le e.index l found)
              free))
  ]

  pub append_entry-Placed :
      {l' : RaftLog} → append_entry base c e l ≡ some l' → Placed base c p e l l'
  unfolding append_entry
  append_entry-Placed {l'} goes = elim (dec_lt base e.index) [
    | no below ↦
        let same : l' ≡ l = ground arith in
        rw same (
          Extends-refl c p l h committed within,
          omega (arith, boundary_le l),
          λ above. absurd (omega arith),
        )
    | yes above ↦ elim (Option-cases (RaftLog.get_entry e.index l)) [
      | inl lost ↦
          let made : l' ≡ append_missing e l = ground arith in rw made (absent-Placed above lost)
      | inr (x, found) ↦ present-Placed x above found goes
    ]
  ]

-- Every entry above the boundary has its term at its index.
abbrev pub Holds : ℕ → List LogEntry → RaftLog → Type 0
Holds b es l = All (λ e. b < e.index → HasTerm e.index e.term l) es

pub Extends-trans :
    (c p : ℕ) (l m n : RaftLog) → Extends c p l m → Extends c (suc p) m n → Extends c p l n
Extends-trans c p l m n x y = record {
  contiguous = y.contiguous;
  boundary = y.boundary ∙ x.boundary;
  reaches = omega (arith, y.reaches);
  older = λ i b. y.older i (omega arith) ∙ x.older i b;
}

HasTerm-older : (c p t : ℕ) (l l' : RaftLog) → Extends c p l l' → HasTerm p t l → HasTerm p t l'
HasTerm-older c p t l l' x (e, found, same) = (e, x.older p (inl (omega arith)) ∙ found, same)

-- What the loop leaves, and whether it ran to its end.
abbrev pub Outcome : ℕ → ℕ → ℕ → List LogEntry → RaftLog → RaftLog × Bool → Type 0
Outcome b c p es l r =
    Extends c p l r.0 × (r.1 ≡ true → Holds b es r.0 × (p + length es ≤ RaftLog.get_last_index r.0))

append_loop-none :
    (b c : ℕ) (e : LogEntry) (es : List LogEntry) (l : RaftLog)
    → append_entry b c e l ≡ none
    → append_loop b c (e ∷ es) l ≡ (l, false)
unfolding append_loop
append_loop-none b c e es l stops = rw (stops, append_loop)

append_loop-some :
    (b c : ℕ) (e : LogEntry) (es : List LogEntry) (l l' : RaftLog)
    → append_entry b c e l ≡ some l'
    → append_loop b c (e ∷ es) l ≡ append_loop b c es l'
unfolding append_loop
append_loop-some b c e es l l' goes = rw (goes, append_loop)

Outcome-cons :
    (b c p : ℕ) (e : LogEntry) (es : List LogEntry) (l l' : RaftLog) (r : RaftLog × Bool)
    → e.index ≡ suc p
    → Placed b c p e l l'
    → Outcome b c (suc p) es l' r
    → Outcome b c p (e ∷ es) l r
Outcome-cons b c p e es l l' r at (x, _, has) (y, held) = (
  Extends-trans c p l l' r.0 x y,
  λ d. (
    ((λ above. rw at (HasTerm-older c (suc p) e.term l' r.0 y (has (omega arith)))), (held d).0),
    omega (arith, (held d).1),
  ),
)

-- The loop leaves everything at or below the commit index and below the first entry as it was; if it
-- runs to its end, every entry is in the log under its index and with its term.
pub append_loop-Outcome :
    (b c p : ℕ) (es : List LogEntry) (l : RaftLog)
    → b ≡ l.last_included_index
    → IsContiguous l
    → IndexedFrom p es
    → p ≤ RaftLog.get_last_index l
    → c ≤ RaftLog.get_last_index l
    → Outcome b c p es l (append_loop b c es l)
append_loop-Outcome b c p [] l eq h ix within committed =
    unfold append_loop in (Extends-refl c p l h committed within, λ _. (tt, omega arith))
append_loop-Outcome b c p (e ∷ es) l eq h ix within committed =
    elim (Option-cases (append_entry b c e l)) [
      | inl stops ↦
          subst (Outcome b c p (e ∷ es) l) (sym (append_loop-none b c e es l stops))
            (Extends-refl c p l h committed within, λ d. cc)
      | inr (l', goes) ↦
          let placed_here =
            append_entry-Placed c p e l h ix.0 within committed
              (subst (λ k. append_entry k c e l ≡ some l') eq goes) in
          let rest =
            append_loop-Outcome b c (suc p) es l' (eq ∙ sym placed_here.0.boundary)
              placed_here.0.contiguous ix.1 placed_here.1 placed_here.0.reaches.0 in
          subst (Outcome b c p (e ∷ es) l) (sym (append_loop-some b c e es l l' goes)) (
            Outcome-cons b c p e es l l' _ ix.0
              (subst (λ k. Placed k c p e l l') (sym eq) placed_here) rest)
    ]
