-- ===== src/Board/Shown.antt =====
-- What `filter`, `some` and `find` of `applyBoardEvent` do to the strokes that a board shows.
use mathlib.Core.List.{Mem, mem-cons_self, mem-cons_of_mem}
use quorum_canvas.Base.{
  String, ◌≡◌, ◌≢◌, refl, ap, ◌⊎◌, inl, inr, true, false, ◌&&◌, Option, none, some, List, [], ◌∷◌,
  ◌++◌, All, arith, str_eq, eq_iff, Bool-cases, ne_of_test,
}
use quorum_canvas.Types.{
  Stroke, Action, stroke, undo_stroke, redo_stroke, action_or_stroke, is_stroke_action,
}
use quorum_canvas.Board.{without_id, some_id, find_drawn, redo_visible}

-- The event draws the stroke with the id.
abbrev pub Draws : String → Stroke → Type 0
Draws t s = ((s.action ≡ none) ⊎ (s.action ≡ some stroke)) × (s.id ≡ t)

-- `ys` has the strokes of `xs`, in their order, but for those with the id.
pub data Removes (t : String) : List Stroke → List Stroke → Type 0 where
  nil : Removes t [] []
  removed : (s : Stroke) (xs ys : List Stroke) → s.id ≡ t → Removes t xs ys → Removes t (s ∷ xs) ys
  kept :
      (s : Stroke) (xs ys : List Stroke) → s.id ≢ t → Removes t xs ys → Removes t (s ∷ xs) (s ∷ ys)

-- What a redo of `t` does to the strokes shown: nothing if one with the id is among them or none was
-- drawn, and else the stroke comes last that an event drew first under the id.
pub data Restores (t : String) (events shown after : List Stroke) : Type 0 where
  there : (s : Stroke) → Mem s shown → s.id ≡ t → after ≡ shown → Restores t events shown after
  lost :
      All (λ s. s.id ≢ t) shown
      → All (λ s. ¬ Draws t s) events
      → after ≡ shown
      → Restores t events shown after
  back :
      (before : List Stroke) (s : Stroke) (later : List Stroke)
      → All (λ s. s.id ≢ t) shown
      → events ≡ before ++ s ∷ later
      → All (λ s. ¬ Draws t s) before
      → Draws t s
      → after ≡ shown ++ s ∷ []
      → Restores t events shown after

pub without_id-Removes : (t : String) (ss : List Stroke) → Removes t ss (without_id t ss)
unfolding without_id
without_id-Removes t [] = nil
without_id-Removes t (s ∷ ss) = elim (Bool-cases (str_eq s.id t)) [
  | inl e ↦ rw e (removed s ss _ ((eq_iff s.id t).0 e) (without_id-Removes t ss))
  | inr e ↦ rw e (kept s ss _ (ne_of_test s.id t e) (without_id-Removes t ss))
]

some_id-Mem :
    (t : String) (ss : List Stroke) → some_id t ss ≡ true → (s : Stroke) × Mem s ss × (s.id ≡ t)
unfolding some_id
some_id-Mem t [] h = absurd (cc)
some_id-Mem t (s ∷ ss) h = elim (Bool-cases (str_eq s.id t)) [
  | inl e ↦ (s, mem-cons_self, (eq_iff s.id t).0 e)
  | inr e ↦ let (r, m, same) = some_id-Mem t ss (ground arith) in (r, mem-cons_of_mem s m, same)
]

some_id-All : (t : String) (ss : List Stroke) → some_id t ss ≡ false → All (λ s. s.id ≢ t) ss
unfolding some_id
some_id-All t [] h = tt
some_id-All t (s ∷ ss) h = (ne_of_test s.id t (ground arith), some_id-All t ss (ground arith))

drawn-Draws :
    (t : String) (s : Stroke)
    → (is_stroke_action (action_or_stroke s.action) && str_eq s.id t) ≡ true
    → Draws t s
drawn-Draws t s h = (drawing s.action (ground arith), (eq_iff s.id t).0 (ground arith))
  where
    drawing :
        (a : Option Action)
        → is_stroke_action (action_or_stroke a) ≡ true
        → (a ≡ none) ⊎ (a ≡ some stroke)
    drawing none h = inl refl
    drawing (some stroke) h = inr refl
    drawing (some undo_stroke) h = absurd (ground arith)
    drawing (some redo_stroke) h = absurd (ground arith)

not-Draws :
    (t : String) (s : Stroke)
    → (is_stroke_action (action_or_stroke s.action) && str_eq s.id t) ≡ false
    → ¬ Draws t s
not-Draws t s h (inl a, same) = let e = (eq_iff s.id t).1 same in ground arith
not-Draws t s h (inr a, same) = let e = (eq_iff s.id t).1 same in ground arith

-- What `find` returns, between the events before and after it.
Found : String → List Stroke → Option Stroke → Type 0
Found t es none = All (λ s. ¬ Draws t s) es
Found t es (some s) =
    (before : List Stroke) × (later : List Stroke) × (es ≡ before ++ s ∷ later)
    × All (λ s. ¬ Draws t s) before
    × Draws t s

Found-cons :
    (t : String) (e : Stroke) (es : List Stroke) (o : Option Stroke)
    → ¬ Draws t e
    → Found t es o
    → Found t (e ∷ es) o
unfolding Found
Found-cons t e es none no_hit h = (no_hit, h)
Found-cons t e es (some s) no_hit (before, later, parts, none_before, hit) =
    (e ∷ before, later, ap (λ l. e ∷ l) parts, (no_hit, none_before), hit)

find_drawn-Found : (t : String) (es : List Stroke) → Found t es (find_drawn t es)
unfolding find_drawn Found
find_drawn-Found t [] = tt
find_drawn-Found t (e ∷ es) =
    elim (Bool-cases (is_stroke_action (action_or_stroke e.action) && str_eq e.id t)) [
      | inl hit ↦ rw hit ([], es, refl, tt, drawn-Draws t e hit)
      | inr miss ↦
          rw miss (Found-cons t e es (find_drawn t es) (not-Draws t e miss) (find_drawn-Found t es))
    ]

pub redo_visible-Restores :
    (t : String) (events shown : List Stroke)
    → Restores t events shown (redo_visible t events shown)
unfolding redo_visible
redo_visible-Restores t events shown = elim (Bool-cases (some_id t shown)) [
  | inl e ↦ let (s, m, same) = some_id-Mem t shown e in rw e (there s m same refl)
  | inr e ↦ rw e (missing (find_drawn t events) (find_drawn-Found t events) (some_id-All t shown e))
]
  where
    missing :
        (o : Option Stroke)
        → Found t events o
        → All (λ s. s.id ≢ t) shown
        → Restores t events shown (elim o [ none ↦ shown | some s ↦ shown ++ s ∷ [] ])
    missing none h gone = unfold Found in lost gone h refl
    missing (some s) h gone =
        unfold Found in
        let (before, later, parts, none_before, hit) = h in
        back before s later gone parts none_before hit refl
