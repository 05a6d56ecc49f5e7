-- ===== src/Wal/Torn.antt =====
-- A crash in the middle of `appendLog` leaves the beginning of a line at the end of the log file.
use mathlib.Core.List.{append_assoc, append-nil}
use quorum_canvas.Base.{
  ℕ, All-append, false, none, some, List, [], ◌∷◌, ◌++◌, ◌≡◌, refl, sym, ap, ◌∙◌, ◌==◌,
}
use quorum_canvas.Wal.{
  Text, newline, IsOneLine, Json, split_lines, non_empty, drop_last, parse_lines, load_text,
  append_text, rewrite_text,
}
use quorum_canvas.Wal.RoundTrip.{
  split_lines-append, split_lines-IsOneLine, load_text-rewrite_text, prepend_all-some,
  prepend_all-none, non_empty-cons, load_text_nil,
}

module _ {A : Type 0} (json : Json A) where
  parse_lines-torn :
      (l : Text) (ls : List Text) → json.parse l ≡ none → parse_lines json (l ∷ ls) ≡ drop_last ls
  unfolding parse_lines
  parse_lines-torn l ls h = rw (h, parse_lines) refl

  load_text-torn : (l : Text) → IsOneLine l → json.parse l ≡ none → load_text json l ≡ some []
  unfolding load_text non_empty
  load_text-torn [] one bad = load_text_nil json
  load_text-torn (c ∷ l) one bad =
      rw (split_lines-IsOneLine (c ∷ l) one) (parse_lines-torn (c ∷ l) [] bad)

  -- A torn line at the end of the file, which is not JSON, is dropped and every entry before it is
  -- read.
  torn_line_is_dropped :
      (es : List A) (l : Text)
      → IsOneLine l
      → json.parse l ≡ none
      → load_text json (rewrite_text json es ++ l) ≡ some es
  torn_line_is_dropped es l one bad =
      load_text-rewrite_text json es l
      ∙ rw (load_text-torn l one bad) (prepend_all-some es [])
      ∙ ap some (append-nil es)

  load_text-bad_line :
      (c : ℕ) (l rest : Text)
      → IsOneLine (c ∷ l)
      → json.parse (c ∷ l) ≡ none
      → load_text json ((c ∷ l) ++ newline ∷ rest) ≡ drop_last (non_empty (split_lines rest))
  unfolding load_text non_empty
  load_text-bad_line c l rest one bad =
      rw (split_lines-append (c ∷ l) rest one)
        (parse_lines-torn (c ∷ l) (non_empty (split_lines rest)) bad)

  drop_last-line :
      (g : A)
      → drop_last {A = A} (non_empty (split_lines (json.stringify g ++ newline ∷ []))) ≡ none
  drop_last-line g =
      rw
        (
          split_lines-append (json.stringify g) [] (json.stringify-IsOneLine g),
          non_empty-cons json (json.stringify g) (split_lines []) (json.parse-stringify g),
        )
        refl

  -- The first entry appended after a torn line shares a line with it. If the two together are not
  -- JSON, that entry is not read back although it was written and synced, and once a further entry
  -- is appended the file cannot be read at all.
  pub append_after_torn_line :
      (es : List A) (c : ℕ) (l : Text) (f g : A)
      → IsOneLine (c ∷ l)
      → json.parse (c ∷ l ++ json.stringify f) ≡ none
      → let t = append_text json f (rewrite_text json es ++ c ∷ l) in
        (load_text json t ≡ some es) × (load_text json (append_text json g t) ≡ none)
  unfolding append_text non_empty split_lines
  append_after_torn_line es c l f g one bad =
      let joined = l ++ json.stringify f in
      let whole =
        All-append (λ c. (c == newline) ≡ false) (c ∷ l) (json.stringify f) one
          (json.stringify-IsOneLine f) in
      let line = json.stringify g ++ newline ∷ [] in
      (
        rw
            (
              append_assoc (rewrite_text json es) (c ∷ l) (json.stringify f ++ newline ∷ []),
              sym (append_assoc l (json.stringify f) (newline ∷ [])),
            )
            (load_text-rewrite_text json es (c ∷ joined ++ newline ∷ [])
              ∙ rw (load_text-bad_line c joined [] whole bad) (prepend_all-some es [])
              ∙ ap some (append-nil es)),
        rw
            (
              append_assoc (rewrite_text json es) (c ∷ l) (json.stringify f ++ newline ∷ []),
              sym (append_assoc l (json.stringify f) (newline ∷ [])),
              append_assoc (rewrite_text json es) (c ∷ joined ++ newline ∷ []) line,
              append_assoc joined (newline ∷ []) line,
            )
            (load_text-rewrite_text json es (c ∷ joined ++ newline ∷ line)
              ∙ rw (load_text-bad_line c joined line whole bad, drop_last-line g)
                  (prepend_all-none es)),
      )
