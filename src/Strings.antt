-- ===== src/Strings.antt =====
-- The operations on strings that replica/src/config.ts, replica/src/electionTimer.ts and
-- gateway/src/config.ts take from JavaScript: `split(',')`, `trim`, `parseInt(s, 10)` and the text of a
-- whole number.
-- pub mod Lists
use Prim.Native.Char.{Char, code}
use Prim.Native.String.{◌++◌ as text_append}
use mathlib.Core.WellFounded.{Acc}
use mathlib.Core.Logic.{dite}
use quorum_canvas.Base.{
  ℕ, zero, suc, ◌+◌, ◌-◌, ◌*◌, ◌/◌, ◌%◌, ◌<◌, String, Bool, true, false, ◌&&◌, ◌||◌, List, [], ◌∷◌,
  map, arith, leb, ◌==◌, str_eq, if◌then◌else◌, dec_lt, ◌≡◌, refl,
}

-- White space and line terminators.
unfoldable pub is_space : ℕ → Bool
is_space c =
    (leb 9 c && leb c 13)
    || c == 32
    || c == 160
    || c == 5760
    || (leb 8192 c && leb c 8202)
    || c == 8232
    || c == 8233
    || c == 8239
    || c == 8287
    || c == 12288
    || c == 65279

unfoldable pub trim_start : String → String
trim_start String.[] = ""
trim_start (String.◌∷◌ c s) =
    let rest = trim_start s in if is_space (code c) then rest else String.◌∷◌ c s

unfoldable pub trim_end : String → String
trim_end String.[] = ""
trim_end (String.◌∷◌ c s) =
    let rest = trim_end s in if is_space (code c) && str_eq rest "" then "" else String.◌∷◌ c rest

unfoldable pub trim : String → String
unfolding trim_start trim_end
trim s = trim_end (trim_start s)

-- The first part begins with one more character.
abbrev pub lead : Char → List String → List String
lead c [] = String.◌∷◌ c "" ∷ []
lead c (p ∷ ps) = String.◌∷◌ c p ∷ ps

-- `s.split(',')`
unfoldable pub split : String → List String
split String.[] = "" ∷ []
split (String.◌∷◌ c s) = let rest = split s in if code c == b',' then "" ∷ rest else lead c rest

-- A whole number as `parseInt` gives it, or NaN.
pub data Number : Type 0 where
  nan : Number
  integer : (negative : Bool) → ℕ → Number

abbrev pub is_nan : Number → Bool
is_nan nan = true
is_nan (integer s n) = false

abbrev is_digit : ℕ → Bool
is_digit c = leb b'0' c && leb c b'9'

-- The digits at the front of a text, after `n`.
unfoldable pub read_digits : ℕ → String → ℕ
read_digits n String.[] = n
read_digits n (String.◌∷◌ c s) =
    let rest = read_digits (n * 10 + (code c - b'0')) s in if is_digit (code c) then rest else n

unfoldable pub read_number : Bool → String → Number
unfolding read_digits
read_number negative String.[] = nan
read_number negative (String.◌∷◌ c s) =
    if is_digit (code c) then integer negative (read_digits 0 (String.◌∷◌ c s)) else nan

read_signed : String → Number
unfolding read_number
read_signed String.[] = nan
read_signed (String.◌∷◌ c s) =
    if code c == b'-'
    then read_number true s
    else if code c == b'+'
    then read_number false s
    else read_number false (String.◌∷◌ c s)

-- `parseInt(s, 10)`
unfoldable pub parse_int : String → Number
unfolding read_signed trim_start
parse_int s = read_signed (trim_start s)

digit : ℕ → String
digit zero = "0"
digit (suc zero) = "1"
digit (suc (suc zero)) = "2"
digit (suc (suc (suc zero))) = "3"
digit (suc (suc (suc (suc zero)))) = "4"
digit (suc (suc (suc (suc (suc zero))))) = "5"
digit (suc (suc (suc (suc (suc (suc zero)))))) = "6"
digit (suc (suc (suc (suc (suc (suc (suc zero))))))) = "7"
digit (suc (suc (suc (suc (suc (suc (suc (suc zero)))))))) = "8"
digit _ = "9"

acc_below : (k n : ℕ) → n < k → Acc ◌<◌ n
acc_below zero n h = absurd (omega arith)
acc_below (suc k) n h = Acc.intro n λ m lt. acc_below k m (omega arith)

print_digits : (n : ℕ) → Acc ◌<◌ n → String → String
unfolding digit
print_digits n (Acc.intro _ smaller) out =
    dite (dec_lt 9 n)
      (λ h.
        print_digits (n / 10) (smaller (n / 10) (omega arith)) (text_append (digit (n % 10)) out))
      (λ _. text_append (digit n) out)

-- `${n}` for a number that `parseInt` has read.
unfoldable pub print : Number → String
unfolding print_digits acc_below
print nan = "NaN"
print (integer false n) = print_digits n (acc_below (suc n) n (omega arith)) ""
print (integer true n) =
    if n == 0 then "0" else text_append "-" (print_digits n (acc_below (suc n) n (omega arith)) "")

reads :
    (parse_int " 30x1" ≡ integer false 30)
    × (parse_int "-7" ≡ integer true 7)
    × (parse_int "x" ≡ nan)
unfolding parse_int is_space
reads = (refl, refl, refl)

prints : print (integer false 3001) ≡ "3001"
unfolding print dec_lt
prints = refl

splits : map trim (split "a, b, ") ≡ "a" ∷ "b" ∷ "" ∷ []
unfolding split trim is_space
splits = refl
