-- ===== src/Map/StringSet.antt =====
-- JavaScript's `Set<string>`: its members in the order of insertion.
use quorum_canvas.Base.{
  String, ◌≡◌, refl, Bool, false, ◌||◌, ◌&&◌, not, List, [], ◌∷◌, arith, str_eq, eq_iff,
  if◌then◌else◌,
}

unfoldable pub has : String → List String → Bool
has k [] = false
has k (j ∷ s) = str_eq j k || has k s

unfoldable pub add : String → List String → List String
add k [] = k ∷ []
add k (j ∷ s) = if str_eq j k then j ∷ s else j ∷ add k s

unfoldable pub delete : String → List String → List String
delete k [] = []
delete k (j ∷ s) = if str_eq j k then delete k s else j ∷ delete k s

pub has-add : (k j : String) (s : List String) → has j (add k s) ≡ (str_eq k j || has j s)
unfolding has add
has-add k j [] = refl
has-add k j (i ∷ s) = ground (arith, eq_iff k j, eq_iff i k, eq_iff i j, has-add k j s)

pub has-delete :
    (k j : String) (s : List String) → has j (delete k s) ≡ (not (str_eq k j) && has j s)
unfolding has delete
has-delete k j [] = ground arith
has-delete k j (i ∷ s) = ground (arith, eq_iff k j, eq_iff i k, eq_iff i j, has-delete k j s)
