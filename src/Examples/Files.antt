-- ===== src/Examples/Files.antt =====
-- A log file whose entries are numbers in unary notation, as `{`, a `1` for each unit and `0`.
use quorum_canvas.Base.{
  ℕ, zero, suc, Option, none, some, [], ◌∷◌, ◌++◌, foldl, ◌≡◌, refl, ap, ◌==◌, if◌then◌else◌,
}
use quorum_canvas.Wal.{Text, IsOneLine, Json, load_text, append_text, rewrite_text}
use quorum_canvas.Wal.RoundTrip.{load_text-appended}
use quorum_canvas.Wal.Torn.{append_after_torn_line}

abbrev units : ℕ → Text
units zero = 48 ∷ []
units (suc n) = 49 ∷ units n

abbrev add_unit : Option ℕ → Option ℕ
add_unit none = none
add_unit (some n) = some (suc n)

abbrev only_end : Text → Option ℕ
only_end [] = some 0
only_end (c ∷ t) = none

abbrev read_units : Text → Option ℕ
read_units [] = none
read_units (c ∷ t) =
    if c == 49 then add_unit (read_units t) else (if c == 48 then only_end t else none)

abbrev read_number : Text → Option ℕ
read_number [] = none
read_number (c ∷ t) = if c == 123 then read_units t else none

read_units-units : (n : ℕ) → read_units (units n) ≡ some n
read_units-units zero = refl
read_units-units (suc n) = ap add_unit (read_units-units n)

units-IsOneLine : (n : ℕ) → IsOneLine (units n)
units-IsOneLine zero = (refl, tt)
units-IsOneLine (suc n) = (refl, units-IsOneLine n)

abbrev unary : Json ℕ
unary = record {
  stringify = λ n. 123 ∷ units n;
  parse = read_number;
  parse-stringify = read_units-units;
  stringify-IsOneLine = λ n. (refl, units-IsOneLine n);
  parse-nil = refl;
}

load_text-appended_example :
    load_text unary
      (foldl (λ t f. append_text unary f t) (rewrite_text unary (1 ∷ 0 ∷ [])) (2 ∷ 3 ∷ []))
    ≡ some (1 ∷ 0 ∷ 2 ∷ 3 ∷ [])
load_text-appended_example = load_text-appended unary (1 ∷ 0 ∷ []) (2 ∷ 3 ∷ [])

append_after_torn_line_example :
    let t = append_text unary 2 (rewrite_text unary (1 ∷ 0 ∷ []) ++ 123 ∷ 49 ∷ []) in
    (load_text unary t ≡ some (1 ∷ 0 ∷ [])) × (load_text unary (append_text unary 3 t) ≡ none)
append_after_torn_line_example =
    append_after_torn_line unary (1 ∷ 0 ∷ []) 123 (49 ∷ []) 2 3 (refl, (refl, tt)) refl
