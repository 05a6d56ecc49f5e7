-- ===== src/Wal.antt =====
-- The log file of `FilePersistence` in replica/src/persistence.ts, as text: one JSON line for each
-- entry, read back with a torn last line dropped. A text is the list of its code units.
-- `JSON.stringify` and `JSON.parse` on log entries are parameters.
pub mod RoundTrip
pub mod Torn
use quorum_canvas.Base.{
  ℕ, Bool, true, false, Option, none, some, List, [], ◌∷◌, ◌++◌, All, ◌≡◌, ◌==◌, if◌then◌else◌,
}

abbrev pub Text : Type 0
Text = List ℕ

abbrev pub newline : ℕ
newline = 10

-- No code unit of the text ends a line.
abbrev pub IsOneLine : Text → Type 0
IsOneLine t = All (λ c. (c == newline) ≡ false) t

-- `JSON.stringify` with no indentation writes no line break, `JSON.parse` reads it back, and the empty
-- text is not JSON. `none` is the exception of `JSON.parse`. Nothing here looks into an entry, so the
-- type of entries is left open.
pub record Json (A : Type 0) : Type 0 where
  pub stringify : A → Text
  pub parse : Text → Option A
  pub parse-stringify : (e : A) → parse (stringify e) ≡ some e
  pub stringify-IsOneLine : (e : A) → IsOneLine (stringify e)
  pub parse-nil : parse [] ≡ none

cons_first : ℕ → List Text → List Text
cons_first c [] = (c ∷ []) ∷ []
cons_first c (l ∷ ls) = (c ∷ l) ∷ ls

-- `raw.split('\n')`
unfoldable pub split_lines : Text → List Text
unfolding cons_first
split_lines [] = [] ∷ []
split_lines (c ∷ t) = if c == newline then [] ∷ split_lines t else cons_first c (split_lines t)

-- `lines.filter((line) => line.length > 0)`
unfoldable pub non_empty : List Text → List Text
non_empty [] = []
non_empty ([] ∷ ls) = non_empty ls
non_empty ((c ∷ l) ∷ ls) = (c ∷ l) ∷ non_empty ls

abbrev pub prepend : {A : Type 0} → A → Option (List A) → Option (List A)
prepend e none = none
prepend e (some es) = some (e ∷ es)

-- A line that does not parse is dropped if it is the last, and an exception otherwise.
abbrev pub drop_last : {A : Type 0} → List Text → Option (List A)
drop_last [] = some []
drop_last (l ∷ ls) = none

module _ {A : Type 0} (json : Json A) where
  unfoldable pub parse_lines : List Text → Option (List A)
  parse_lines [] = some []
  parse_lines (l ∷ ls) = elim (json.parse l) [
    | none ↦ drop_last ls
    | some e ↦ prepend e (parse_lines ls)
  ]

  -- `loadLog` of a file that exists; `none` is the exception `corrupt WAL line`.
  unfoldable pub load_text : Text → Option (List A)
  unfolding split_lines non_empty parse_lines
  load_text t = parse_lines (non_empty (split_lines t))

  -- `appendLog` adds a line at the end of the file.
  unfoldable pub append_text : A → Text → Text
  append_text e t = t ++ (json.stringify e ++ newline ∷ [])

  -- `rewriteLog` replaces the file by the lines of the entries.
  unfoldable pub rewrite_text : List A → Text
  rewrite_text [] = []
  rewrite_text (e ∷ es) = json.stringify e ++ (newline ∷ rewrite_text es)
