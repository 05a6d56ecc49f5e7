-- ===== src/Map.antt =====
-- JavaScript's `Map<string, V>` and `Set<string>`, which keep the order of insertion: `set` writes
-- an existing key in place and a new one at the end.
pub mod StringSet
use quorum_canvas.Base.{
  String, ◌≡◌, refl, Bool, true, false, ◌||◌, Option, none, some, List, [], ◌∷◌, arith, str_eq,
  eq_iff, if◌then◌else◌,
}

module _ {ℓ} {V : Type ℓ} where
  unfoldable pub get : String → List (String × V) → Option V
  get k [] = none
  get k ((j, v) ∷ m) = if str_eq j k then some v else get k m

  unfoldable pub has : String → List (String × V) → Bool
  has k [] = false
  has k ((j, v) ∷ m) = str_eq j k || has k m

  unfoldable pub set : String → V → List (String × V) → List (String × V)
  set k v [] = (k, v) ∷ []
  set k v ((j, w) ∷ m) = if str_eq j k then (k, v) ∷ m else (j, w) ∷ set k v m

  unfoldable pub delete : String → List (String × V) → List (String × V)
  delete k [] = []
  delete k ((j, v) ∷ m) = if str_eq j k then m else (j, v) ∷ delete k m

  -- `m.get(k) ?? d`
  unfoldable pub get_or : String → List (String × V) → V → V
  unfolding get
  get_or k m d = elim (get k m) [ none ↦ d | some v ↦ v ]

  pub get-set :
      (k j : String) (v : V) (m : List (String × V))
      → get j (set k v m) ≡ (if str_eq k j then some v else get j m)
  unfolding get set
  get-set k j v [] = refl
  get-set k j v ((i, w) ∷ m) = ground (arith, eq_iff k j, eq_iff i k, eq_iff i j, get-set k j v m)

  pub has-get : (k : String) (m : List (String × V)) → has k m ≡ false → get k m ≡ none
  unfolding has get
  has-get k [] h = refl
  has-get k ((j, v) ∷ m) h = ground (arith, has-get k m)

  pub get_or-set :
      (k j : String) (v d : V) (m : List (String × V))
      → get_or j (set k v m) d ≡ (if str_eq k j then v else get_or j m d)
  unfolding get_or
  get_or-set k j v d m = ground (arith, get-set k j v m)

  pub get_or_absent :
      (k : String) (m : List (String × V)) (d : V) → has k m ≡ false → get_or k m d ≡ d
  unfolding get_or
  get_or_absent k m d h = ground (arith, has-get k m)

  pub get_or-cons :
      (k j : String) (v d : V) (m : List (String × V))
      → get_or k ((j, v) ∷ m) d ≡ (if str_eq j k then v else get_or k m d)
  unfolding get_or get
  get_or-cons k j v d m = ground arith

  pub has-set :
      (k j : String) (v : V) (m : List (String × V)) → has j (set k v m) ≡ (str_eq k j || has j m)
  unfolding has set
  has-set k j v [] = refl
  has-set k j v ((i, w) ∷ m) = ground (arith, eq_iff k j, eq_iff i k, eq_iff i j, has-set k j v m)

  pub get_or-nil : (k : String) (d : V) → get_or k [] d ≡ d
  unfolding get_or get
  get_or-nil k d = refl
