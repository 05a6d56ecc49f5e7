-- ===== src/Wal/RoundTrip.antt =====
-- What is written to the log file is read back.
use mathlib.Core.Path.{subst}
use mathlib.Core.List.{append_assoc, append-nil}
use quorum_canvas.Base.{
  none, Option, some, List, [], ◌∷◌, ◌++◌, foldl, ◌≡◌, refl, sym, ap, ◌∙◌, arith,
}
use quorum_canvas.Wal.{
  Text, newline, IsOneLine, Json, split_lines, non_empty, prepend, parse_lines, load_text,
  append_text, rewrite_text,
}

-- The first line break ends the first line.
pub split_lines-append :
    (l rest : Text) → IsOneLine l → split_lines (l ++ newline ∷ rest) ≡ l ∷ split_lines rest
unfolding split_lines
split_lines-append [] rest h = refl
split_lines-append (c ∷ l) rest h = rw (h.0, split_lines-append l rest h.1)

pub split_lines-IsOneLine : (l : Text) → IsOneLine l → split_lines l ≡ l ∷ []
unfolding split_lines
split_lines-IsOneLine [] h = refl
split_lines-IsOneLine (c ∷ l) h = rw (h.0, split_lines-IsOneLine l h.1)

-- Several entries before what is read.
unfoldable pub prepend_all : {A : Type 0} → List A → Option (List A) → Option (List A)
prepend_all [] r = r
prepend_all (e ∷ es) r = prepend e (prepend_all es r)

pub prepend_all-some : {A : Type 0} (es fs : List A) → prepend_all es (some fs) ≡ some (es ++ fs)
unfolding prepend_all
prepend_all-some [] fs = refl
prepend_all-some (e ∷ es) fs = rw (prepend_all-some es fs) refl

pub prepend_all-none : {A : Type 0} (es : List A) → prepend_all es none ≡ none
unfolding prepend_all
prepend_all-none [] = refl
prepend_all-none (e ∷ es) = rw (prepend_all-none es) refl

module _ {A : Type 0} (json : Json A) where
  -- A line that parses is not empty, so it is kept.
  pub non_empty-cons :
      (l : Text) (ls : List Text) {e : A}
      → json.parse l ≡ some e
      → non_empty (l ∷ ls) ≡ l ∷ non_empty ls
  unfolding non_empty
  non_empty-cons [] ls h = absurd (ground (arith, json.parse-nil))
  non_empty-cons (c ∷ l) ls h = refl

  parse_lines_entry :
      (e : A) (ls : List Text)
      → parse_lines json (json.stringify e ∷ ls) ≡ prepend e (parse_lines json ls)
  unfolding parse_lines
  parse_lines_entry e ls = rw (json.parse-stringify e, parse_lines)

  load_text-line :
      (e : A) (rest : Text)
      → load_text json (json.stringify e ++ (newline ∷ rest)) ≡ prepend e (load_text json rest)
  unfolding load_text
  load_text-line e rest =
      rw
        (
          split_lines-append (json.stringify e) rest (json.stringify-IsOneLine e),
          non_empty-cons (json.stringify e) (split_lines rest) (json.parse-stringify e),
        )
        (parse_lines_entry e (non_empty (split_lines rest)))

  -- After the lines of entries, what is left of the file is read by itself.
  pub load_text-rewrite_text :
      (es : List A) (rest : Text)
      → load_text json (rewrite_text json es ++ rest) ≡ prepend_all es (load_text json rest)
  unfolding rewrite_text prepend_all
  load_text-rewrite_text [] rest = refl
  load_text-rewrite_text (e ∷ es) rest =
      rw
        (
          append_assoc (json.stringify e) (newline ∷ rewrite_text json es) rest,
          load_text-line e (rewrite_text json es ++ rest),
          load_text-rewrite_text es rest,
        )
        refl

  pub load_text_nil : load_text json [] ≡ some []
  unfolding load_text split_lines non_empty parse_lines
  load_text_nil = refl

  append_text-rewrite_text :
      (es : List A) (f : A)
      → append_text json f (rewrite_text json es) ≡ rewrite_text json (es ++ f ∷ [])
  unfolding rewrite_text append_text
  append_text-rewrite_text [] f = refl
  append_text-rewrite_text (e ∷ es) f =
      rw (sym (append_text-rewrite_text es f), append_text, append_assoc) refl

  -- Appending lines one by one leaves the text that a rewrite with all the entries would leave.
  pub foldl-append_text :
      (es fs : List A)
      → foldl (λ t f. append_text json f t) (rewrite_text json es) fs ≡ rewrite_text json (es ++ fs)
  foldl-append_text es [] = ap (rewrite_text json) (sym (append-nil es))
  foldl-append_text es (f ∷ fs) =
      rw (append_text-rewrite_text es f, foldl-append_text (es ++ f ∷ []) fs, append_assoc) refl

  -- A log file rewritten with some entries, to which others are then appended one by one, is read
  -- back as all of them in order.
  pub load_text-appended :
      (es fs : List A)
      → load_text json (foldl (λ t f. append_text json f t) (rewrite_text json es) fs)
        ≡ some (es ++ fs)
  load_text-appended es fs = rw (foldl-append_text es fs) (
      subst (λ t. load_text json t ≡ some (es ++ fs)) (append-nil _)
        (load_text-rewrite_text (es ++ fs) []
          ∙ rw load_text_nil (prepend_all-some (es ++ fs) [])
          ∙ ap some (append-nil (es ++ fs))))
