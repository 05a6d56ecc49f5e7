-- ===== src/Settings/Peers.antt =====
-- Lists of addresses: what a list that is joined with commas is read as, and what a comma too many does.
use mathlib.Core.List.{map-append}
use quorum_canvas.Base.{
  ◌+◌, ◌%◌, ◌<◌, ◌≡◌, ◌≢◌, refl, sym, ap, ◌∙◌, String, Bool, true, false, ◌||◌, some, List, [], ◌∷◌,
  ◌++◌, map, All, arith, eq_iff, ◌==◌, length, length-append, All-mono, Bool-cases, inl, inr,
}
use Prim.Native.Char.{Char, code}
use Prim.Native.String.{◌++◌ as text_append}
use text.Mathlib.TextLemmas.{nil-append, cons-append}
use quorum_canvas.Node.{Node, majority}
use quorum_canvas.Strings.{split, lead, trim}
use quorum_canvas.Settings.{parse_peers, parse_list, without_empty}

-- The text holds a comma.
unfoldable pub has_comma : String → Bool
has_comma String.[] = false
has_comma (String.◌∷◌ c s) = code c == b',' || has_comma s

-- The addresses with a comma between any two.
unfoldable pub join : List String → String
join [] = ""
join (p ∷ []) = p
join (p ∷ q ∷ ps) = text_append p (text_append "," (join (q ∷ ps)))

split-plain : (p : String) → has_comma p ≡ false → split p ≡ p ∷ []
unfolding has_comma split
split-plain String.[] h = refl
split-plain (String.◌∷◌ c p) h = ground (arith, split-plain p)

split_at_comma :
    (c : Char) (s : String) → code c == b',' ≡ true → split (String.◌∷◌ c s) ≡ "" ∷ split s
unfolding split
split_at_comma c s h = simp h refl

split_past :
    (c : Char) (s : String) → code c == b',' ≡ false → split (String.◌∷◌ c s) ≡ lead c (split s)
unfolding split
split_past c s h = simp h refl

split-comma : (s : String) → split (text_append "," s) ≡ "" ∷ split s
split-comma s = rw (cons-append _ "" s, nil-append s) (split_at_comma _ s refl)

lead-ne-nil : (c : Char) (xs : List String) → lead c xs ≢ []
lead-ne-nil c [] = ground arith
lead-ne-nil c (x ∷ xs) = ground arith

split-ne-nil : (s : String) → split s ≢ []
split-ne-nil String.[] = unfold split in ground arith
split-ne-nil (String.◌∷◌ c s) = elim (Bool-cases (code c == b',')) [
  | inl h ↦ rw (split_at_comma c s h) (ground arith)
  | inr h ↦ rw (split_past c s h) (lead-ne-nil c (split s))
]

lead-append : (c : Char) (xs ys : List String) → xs ≢ [] → lead c xs ++ ys ≡ lead c (xs ++ ys)
lead-append c [] ys h = absurd (h refl)
lead-append c (x ∷ xs) ys h = refl

-- What stands before a comma is a part of its own, if it has no comma.
split-append :
    (p s : String) → has_comma p ≡ false → split (text_append p (text_append "," s)) ≡ p ∷ split s
unfolding has_comma
split-append String.[] s h = rw (nil-append (text_append "," s)) (split-comma s)
split-append (String.◌∷◌ d p) s h =
    let plain : code d == b',' ≡ false = ground arith in
    rw (cons-append d p (text_append "," s), split_past d _ plain)
      (ap (lead d) (split-append p s (ground arith)))

-- A list of texts without commas, joined, is split into the same.
split-join :
    (p : String) (ps : List String)
    → All (λ q. has_comma q ≡ false) (p ∷ ps)
    → split (join (p ∷ ps)) ≡ p ∷ ps
unfolding join
split-join p [] (h, _) = split-plain p h
split-join p (q ∷ ps) (h, hs) = split-append p (join (q ∷ ps)) h ∙ ap (◌∷◌ p) (split-join q ps hs)

-- A comma at the end adds an empty part.
split_trailing : (s : String) → split (text_append s ",") ≡ split s ++ "" ∷ []
split_trailing String.[] = unfold split in refl
split_trailing (String.◌∷◌ c s) = elim (Bool-cases (code c == b',')) [
  | inl h ↦
      rw (cons-append c s ",", split_at_comma c (text_append s ",") h, split_at_comma c s h)
        (ap (◌∷◌ "") (split_trailing s))
  | inr h ↦
      rw (cons-append c s ",", split_past c (text_append s ",") h, split_past c s h)
        (ap (lead c) (split_trailing s) ∙ sym (lead-append c (split s) ("" ∷ []) (split-ne-nil s)))
]

-- An address as it should be: without a comma or white space around it, and not empty.
abbrev pub IsAddress : String → Type 0
IsAddress p = (has_comma p ≡ false) × (trim p ≡ p) × (p ≢ "")

map-trim : (ps : List String) → All IsAddress ps → map trim ps ≡ ps
map-trim [] h = refl
map-trim (p ∷ ps) ((_, t, _), hs) = rw (t, map-trim ps hs) refl

without_empty_addresses : (ps : List String) → All IsAddress ps → without_empty ps ≡ ps
unfolding without_empty
without_empty_addresses [] h = refl
without_empty_addresses (p ∷ ps) ((_, _, n), hs) =
    ground (arith, eq_iff p "", without_empty_addresses ps hs)

head_of : List String → String
head_of [] = ""
head_of (p ∷ ps) = p

join-ne-nil : (p : String) (ps : List String) → All IsAddress (p ∷ ps) → join (p ∷ ps) ≢ ""
unfolding head_of
join-ne-nil p ps h e =
    let plain = All-mono (p ∷ ps) (λ q a. a.0) h in
    let parts : split (join (p ∷ ps)) ≡ p ∷ ps = split-join p ps plain in
    h.0.2 (sym (ap head_of parts) ∙ ap (λ s. head_of (split s)) e ∙ unfold split in refl)

parse_list-join :
    (p : String) (ps : List String)
    → All IsAddress (p ∷ ps)
    → map trim (split (join (p ∷ ps))) ≡ p ∷ ps
parse_list-join p ps h =
    rw (split-join p ps (All-mono (p ∷ ps) (λ q a. a.0) h)) (map-trim (p ∷ ps) h)

-- Addresses that are joined with commas are read back as they were, by a replica and by a gateway.
pub peers-join :
    (ps : List String)
    → All IsAddress ps
    → (parse_peers (some (join ps)) ≡ ps) × (parse_list (join ps) ≡ ps)
unfolding parse_peers parse_list
peers-join [] h = unfold join split trim without_empty in (refl, refl)
peers-join (p ∷ ps) h =
    let parts = parse_list-join p ps h in
    (
      ground (arith, eq_iff (join (p ∷ ps)) "", join-ne-nil p ps h),
      rw parts (without_empty_addresses (p ∷ ps) h),
    )

length-split_trailing : (s : String) → length (split (text_append s ",")) ≡ length (split s) + 1
length-split_trailing s = rw (split_trailing s) (length-append (split s) ("" ∷ []))

parse_peers_lem : (s : String) → s ≢ "" → parse_peers (some s) ≡ map trim (split s)
unfolding parse_peers
parse_peers_lem s h = ground (arith, eq_iff s "")

length_positive : (xs : List String) → xs ≢ [] → 0 < length xs
length_positive [] h = absurd (h refl)
length_positive (x ∷ xs) h = omega arith

trailing-ne-nil : (s : String) → text_append s "," ≢ ""
trailing-ne-nil s e =
    let one = ap (λ t. length (split t)) e in
    let more = length-split_trailing s in
    let parts = length_positive (split s) (split-ne-nil s) in
    let empty : length (split "") ≡ 1 = unfold split in refl in omega arith

parse_peers_trailing :
    (s : String) → s ≢ "" → parse_peers (some (text_append s ",")) ≡ parse_peers (some s) ++ "" ∷ []
unfolding trim
parse_peers_trailing s h =
    rw
      (
        parse_peers_lem s h,
        parse_peers_lem (text_append s ",") (trailing-ne-nil s),
        split_trailing s,
      )
      (map-append trim (split s) ("" ∷ []))

-- A comma after the last address is read as one more peer, whose address is empty: a replica of a
-- cluster with an odd number of replicas then waits for one vote, or one copy, more than a majority.
pub trailing_comma-majority :
    (s : String) (m n : Node)
    → s ≢ ""
    → m.peers ≡ parse_peers (some s)
    → n.peers ≡ parse_peers (some (text_append s ","))
    → length m.peers % 2 ≡ 0
    → (n.peers ≡ m.peers ++ "" ∷ []) × (majority n ≡ majority m + 1)
unfolding majority
trailing_comma-majority s m n h em en even =
    let more : n.peers ≡ m.peers ++ "" ∷ [] =
      en ∙ parse_peers_trailing s h ∙ ap (λ ps. ps ++ "" ∷ []) (sym em) in
    let size = ap length more ∙ length-append m.peers ("" ∷ []) in (more, omega arith)
