-- ===== src/RaftLog/Contiguous.antt =====
-- Absolute indices: the entry at position k of the list has index `last_included_index + 1 + k`, and
-- what each operation does to the entry at every index.
use quorum_canvas.Base.{
  ℕ, zero, suc, ◌+◌, ◌-◌, ◌≤◌, ◌<◌, ◌≡◌, ◌||◌, none, some, List, [], ◌∷◌, ◌++◌, arith, ltb, leb,
  length, get_elem?, take, drop, length-append, length-take, length-drop, get_elem?_above,
  get_elem?_below, get_elem?-take, get_elem?-drop, get_elem?-append_left, get_elem?-append_end,
  Bool-cases, inl, inr,
}
use quorum_canvas.Types.{LogEntry}
use quorum_canvas.RaftLog.{RaftLog, append, get_entry, get_last_index, truncate_from, compact}

-- The list carries the indices `b + 1`, `b + 2`, ….
abbrev pub IndexedFrom : ℕ → List LogEntry → Type 0
IndexedFrom b [] = Unit {0}
IndexedFrom b (e ∷ es) = (e.index ≡ suc b) × IndexedFrom (suc b) es

abbrev pub IsContiguous : RaftLog → Type 0
IsContiguous l = IndexedFrom l.last_included_index l.entries

IndexedFrom-get_elem? :
    (b : ℕ) (es : List LogEntry) (i : ℕ) {e : LogEntry}
    → IndexedFrom b es
    → get_elem? es i ≡ some e
    → e.index ≡ suc b + i
IndexedFrom-get_elem? b [] i h g = cc
IndexedFrom-get_elem? b (x ∷ es) zero h g = ground arith
IndexedFrom-get_elem? b (x ∷ es) (suc i) h g =
    omega (arith, IndexedFrom-get_elem? (suc b) es i h.1 g)

-- An entry is found under its own index.
pub index-get_entry :
    (i : ℕ) (l : RaftLog) {e : LogEntry}
    → IsContiguous l
    → get_entry i l ≡ some e
    → (e.index ≡ i) × (l.last_included_index < i)
unfolding get_entry
index-get_entry i l {e} h g = ground (
  arith,
  IndexedFrom-get_elem? l.last_included_index l.entries (i - l.last_included_index - 1) {e = e} h,
)

pub get_entry_above : (i : ℕ) (l : RaftLog) → get_last_index l < i → get_entry i l ≡ none
unfolding get_entry get_last_index
get_entry_above i l h = ground (arith, get_elem?_above l.entries (i - l.last_included_index - 1))

pub get_entry_at :
    (i : ℕ) (l : RaftLog)
    → l.last_included_index < i
    → i ≤ get_last_index l
    → (e : LogEntry) × (get_entry i l ≡ some e)
unfolding get_entry get_last_index
get_entry_at i l h k =
    let (e, found) = get_elem?_below l.entries (i - l.last_included_index - 1) (omega arith) in
    (e, ground arith)

pub get_entry_le :
    (i : ℕ) (l : RaftLog) {e : LogEntry} → get_entry i l ≡ some e → i ≤ get_last_index l
unfolding get_entry get_last_index
get_entry_le i l h = ground (arith, get_elem?_above l.entries (i - l.last_included_index - 1))

IndexedFrom-append :
    (b : ℕ) (es : List LogEntry) (e : LogEntry)
    → IndexedFrom b es
    → e.index ≡ suc (b + length es)
    → IndexedFrom b (es ++ e ∷ [])
IndexedFrom-append b [] e h k = (omega arith, tt)
IndexedFrom-append b (x ∷ es) e h k = (h.0, IndexedFrom-append (suc b) es e h.1 (omega arith))

IndexedFrom-take : (b n : ℕ) (es : List LogEntry) → IndexedFrom b es → IndexedFrom b (take n es)
IndexedFrom-take b zero es h = tt
IndexedFrom-take b (suc n) [] h = tt
IndexedFrom-take b (suc n) (e ∷ es) h = (h.0, IndexedFrom-take (suc b) n es h.1)

IndexedFrom-drop :
    (b n : ℕ) (es : List LogEntry)
    → n ≤ length es
    → IndexedFrom b es
    → IndexedFrom (b + n) (drop n es)
IndexedFrom-drop b zero es k h = let e : b + 0 ≡ b = omega arith in rw e h
IndexedFrom-drop b (suc n) [] k h = absurd (omega arith)
IndexedFrom-drop b (suc n) (x ∷ es) k h =
    let e : b + suc n ≡ suc b + n = omega arith in
    rw e (IndexedFrom-drop (suc b) n es (omega arith) h.1)

-- `append` adds the entry at the end, where its index must be the next one.
module _ (e : LogEntry) (l : RaftLog) where
  pub append-IsContiguous :
      IsContiguous l → e.index ≡ suc (get_last_index l) → IsContiguous (append e l)
  unfolding append get_last_index
  append-IsContiguous h k = IndexedFrom-append l.last_included_index l.entries e h k

  pub get_last_index-append : get_last_index (append e l) ≡ suc (get_last_index l)
  unfolding append get_last_index
  get_last_index-append = omega (arith, length-append l.entries (e ∷ []))

  pub get_entry-append_old :
      (i : ℕ) → i ≤ get_last_index l → get_entry i (append e l) ≡ get_entry i l
  unfolding append get_entry get_last_index
  get_entry-append_old i h =
      ground (arith, get_elem?-append_left l.entries (e ∷ []) (i - l.last_included_index - 1))

  pub get_entry-append_new : get_entry (suc (get_last_index l)) (append e l) ≡ some e
  unfolding append get_entry get_last_index
  get_entry-append_new =
      let here : suc (l.last_included_index + length l.entries) - l.last_included_index - 1
          ≡ length l.entries =
        omega arith in
      rw here (ground (arith, get_elem?-append_end l.entries e))

-- `truncate_from` keeps what is below the index.
module _ (j : ℕ) (l : RaftLog) where
  pub truncate_from-IsContiguous : IsContiguous l → IsContiguous (truncate_from j l)
  unfolding truncate_from
  truncate_from-IsContiguous h =
      elim (Bool-cases (leb j l.last_included_index || ltb (get_last_index l) j)) [
        | inl out ↦ simp out h
        | inr in_range ↦ simp in_range (IndexedFrom-take _ _ l.entries h)
      ]

  pub get_entry-truncate_from_old :
      (i : ℕ) → i < j → get_entry i (truncate_from j l) ≡ get_entry i l
  unfolding truncate_from get_entry
  get_entry-truncate_from_old i h =
      elim (Bool-cases (leb j l.last_included_index || ltb (get_last_index l) j)) [
        | inl out ↦ simp out
        | inr in_range ↦ simp in_range (
            ground (
              arith,
              get_elem?-take (j - l.last_included_index - 1) l.entries
                  (i - l.last_included_index - 1),
            ))
      ]

  pub get_last_index-truncate_from :
      l.last_included_index < j
      → j ≤ get_last_index l
      → suc (get_last_index (truncate_from j l)) ≡ j
  unfolding truncate_from get_last_index
  get_last_index-truncate_from h k =
      ground (arith, length-take (j - l.last_included_index - 1) l.entries)

  pub boundary-truncate_from : (truncate_from j l).last_included_index ≡ l.last_included_index
  unfolding truncate_from
  boundary-truncate_from = ground arith

-- `compact` moves the boundary, and keeps what is above it.
module _ (u t : ℕ) (l : RaftLog) where
  pub compact-IsContiguous : u ≤ get_last_index l → IsContiguous l → IsContiguous (compact u t l)
  unfolding compact get_last_index
  compact-IsContiguous k h = elim (Bool-cases (leb u l.last_included_index)) [
    | inl out ↦ simp out h
    | inr moves ↦
        let e : l.last_included_index + (u - l.last_included_index) ≡ u = ground arith in
        simp moves (
          rw e at (
            IndexedFrom-drop l.last_included_index (u - l.last_included_index) l.entries
              (omega arith) h))
  ]

  pub get_entry-compact : (i : ℕ) → u < i → get_entry i (compact u t l) ≡ get_entry i l
  unfolding compact get_entry
  get_entry-compact i h = elim (Bool-cases (leb u l.last_included_index)) [
    | inl out ↦ simp out
    | inr moves ↦
        let e : u - l.last_included_index + (i - u - 1) ≡ i - l.last_included_index - 1 =
          ground arith in
        simp moves
          (ground (arith, e, get_elem?-drop (u - l.last_included_index) l.entries (i - u - 1)))
  ]

  pub get_last_index-compact :
      u ≤ get_last_index l → get_last_index (compact u t l) ≡ get_last_index l
  unfolding compact get_last_index
  get_last_index-compact h = ground (arith, length-drop (u - l.last_included_index) l.entries)

  pub boundary-compact : l.last_included_index ≤ u → (compact u t l).last_included_index ≡ u
  unfolding compact
  boundary-compact h = ground arith
