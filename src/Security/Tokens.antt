-- ===== src/Security/Tokens.antt =====
-- The token of a connection.
use quorum_canvas.Base.{
  ℕ, ◌≡◌, ◌≢◌, ◌↔◌, ap, String, Bool, true, false, Option, none, some, List, arith, ◌==◌, length,
  str_eq, eq_iff, Bool-cases, inl, inr,
}
use quorum_canvas.Security.{utf16_length, tokens_match}

-- `bytes` are the bytes of a text in UTF-8, and `equal` compares two lists of the same length and
-- throws where the lengths differ.
module _ (bytes : String → List ℕ) (equal : List ℕ → List ℕ → Option Bool) where
  -- A token that is not empty and whose bytes differ from those of any other is let in exactly if
  -- it is the expected one. One that has as many UTF-16 code units as the expected token but not as
  -- many bytes makes the check throw.
  pub tokens_match_lem :
      (p e : String)
      → p ≢ ""
      → ((x y : List ℕ) → length x ≡ length y → (equal x y ≡ some true) ↔ (x ≡ y))
      → ((x y : List ℕ) → length x ≢ length y → equal x y ≡ none)
      → (bytes p ≡ bytes e → p ≡ e)
      → ((tokens_match bytes equal (some p) (some e) ≡ some true) ↔ (p ≡ e))
        × (utf16_length p ≡ utf16_length e
            → length (bytes p) ≢ length (bytes e)
            → tokens_match bytes equal (some p) (some e) ≡ none)
  unfolding tokens_match
  tokens_match_lem p e given same differ inj =
      let not_empty : str_eq p "" ≡ false = ground (arith, eq_iff p "", λ (x : p ≡ ""). given x) in
      let x = bytes p in
      let y = bytes e in
      (
        (
          λ h. elim (Bool-cases (length x == length y)) [
            | inl l ↦ inj ((same x y (ground arith)).0 (ground arith))
            | inr u ↦
                absurd (ground (arith, differ x y (λ (q : length x ≡ length y). ground arith)))
          ],
          λ h.
              let equal_bytes = (same x y (ap (λ t. length (bytes t)) h)).1 (ap bytes h) in
              ground (arith, not_empty, equal_bytes, ap utf16_length h),
        ),
        λ u b. ground (arith, not_empty, differ x y b),
      )
