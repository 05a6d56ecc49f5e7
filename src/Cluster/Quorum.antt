-- ===== src/Cluster/Quorum.antt =====
-- Two majorities of one cluster have a member in common.
use mathlib.Core.List.{Perm, Permᴰ}
use mathlib.Core.Logic.{∥∥₁_elim}
use native.Mathlib.Bridge.{le_prop}
use quorum_canvas.Base.{
  ℕ, ◌+◌, ◌/◌, ◌≤◌, ◌<◌, ◌≡◌, ap, String, Bool, true, false, ◌&&◌, List, [], ◌∷◌, arith, eq_iff,
  eq_refl, str_eq, length, if◌then◌else◌, Bool-cases, inl, inr,
}
use quorum_canvas.Map.StringSet

-- How many of the addresses pass a test.
abbrev pub count : (String → Bool) → List String → ℕ
count f [] = 0
count f (x ∷ xs) = (if f x then 1 else 0) + count f xs

pub count_mono :
    (f g : String → Bool) (xs : List String)
    → ((x : String) → f x ≡ true → g x ≡ true)
    → count f xs ≤ count g xs
count_mono f g [] h = omega arith
count_mono f g (x ∷ xs) h = ground (arith, h x, count_mono f g xs h)

-- A listed address that comes to pass the test raises the count.
pub count_more :
    (f g : String → Bool) (q : String) (xs : List String)
    → ((x : String) → f x ≡ true → g x ≡ true)
    → StringSet.has q xs ≡ true
    → f q ≡ false
    → g q ≡ true
    → count f xs + 1 ≤ count g xs
unfolding StringSet.has
count_more f g q [] h m no_f yes_g = ground arith
count_more f g q (x ∷ xs) h m no_f yes_g =
    ground (arith, eq_iff x q, h x, count_mono f g xs h, count_more f g q xs h)

pub count_both :
    (f g : String → Bool) (xs : List String)
    → count f xs + count g xs ≤ length xs + count (λ x. f x && g x) xs
count_both f g [] = omega arith
count_both f g (x ∷ xs) = ground (arith, count_both f g xs)

pub count_some :
    (f : String → Bool) (xs : List String)
    → 0 < count f xs
    → (x : String) × (StringSet.has x xs ≡ true) × (f x ≡ true)
unfolding StringSet.has
count_some f [] h = absurd (omega arith)
count_some f (x ∷ xs) h = elim (Bool-cases (f x)) [
  | inl e ↦ (x, ground (arith, eq_refl x), e)
  | inr e ↦ let (y, m, p) = count_some f xs (ground arith) in (y, ground arith, p)
]

pub count_self :
    (x : String) (xs : List String) → StringSet.has x xs ≡ true → 0 < count (str_eq x) xs
unfolding StringSet.has
count_self x [] h = ground arith
count_self x (y ∷ xs) h = ground (arith, eq_iff x y, eq_iff y x, count_self x xs)

count-Permᴰ : (f : String → Bool) {xs ys : List String} → Permᴰ xs ys → count f xs ≤ count f ys
count-Permᴰ f Permᴰ.nil = omega arith
count-Permᴰ f (Permᴰ.cons e p) = ground (arith, ap f e, count-Permᴰ f p)
count-Permᴰ f (Permᴰ.swap e e') = ground (arith, ap f e, ap f e')
count-Permᴰ f (Permᴰ.trans p q) = omega (arith, count-Permᴰ f p, count-Permᴰ f q)

pub count-Perm : (f : String → Bool) {xs ys : List String} → Perm xs ys → count f xs ≤ count f ys
count-Perm f p = ∥∥₁_elim p le_prop (count-Permᴰ f)

-- Of two sets of voters that are each a majority, one voter is in both.
pub majorities_meet :
    (f g : String → Bool) (xs : List String)
    → length xs / 2 + 1 ≤ count f xs
    → length xs / 2 + 1 ≤ count g xs
    → (x : String) × (StringSet.has x xs ≡ true) × (f x ≡ true) × (g x ≡ true)
majorities_meet f g xs a b =
    let both = count_both f g xs in
    let (x, m, p) = count_some (λ x. f x && g x) xs (omega arith) in
    (x, m, ground arith, ground arith)
