-- ===== src/Py/Text.antt =====
-- The string methods that the program uses: `strip`, `lower`, `startswith` and `in`, by recursion
-- on the characters.
use Prim.Native.Char.{code}
use Prim.Native.Nat.{◌/◌, ◌%◌}
use meshtastic_matrix_relay.Base.{
  ◌≡◌, refl, sym, ◌∙◌, arith, zero, suc, ℤ, pos, negsuc, ℕ, String, Bool, true, false, List, [],
  ◌∷◌, ◌==◌, leb, ◌||◌, ◌&&◌, ◌+◌, if◌then◌else◌,
}

-- `str.isspace` of one character
unfoldable pub is_space : ℕ → Bool
is_space c =
    leb 9 c && leb c 13
    || leb 28 c && leb c 32
    || c == 133
    || c == 160
    || c == 5760
    || leb 8192 c && leb c 8202
    || c == 8232
    || c == 8233
    || c == 8239
    || c == 8287
    || c == 12288

pub is_empty : String → Bool
is_empty String.[] = true
is_empty (String.◌∷◌ _ _) = false

pub lstrip : String → String
unfolding is_space
lstrip String.[] = String.[]
lstrip (String.◌∷◌ c s) = if is_space (code c) then lstrip s else String.◌∷◌ c s

pub rstrip : String → String
unfolding is_space is_empty
rstrip String.[] = String.[]
rstrip (String.◌∷◌ c s) =
    let rest = rstrip s in
    if is_space (code c) && is_empty rest then String.[] else String.◌∷◌ c rest

-- `s.strip()`
unfoldable pub strip : String → String
unfolding lstrip rstrip
strip s = rstrip (lstrip s)

pub starts_with_codes : List ℕ → String → Bool
starts_with_codes [] s = true
starts_with_codes (p ∷ ps) String.[] = false
starts_with_codes (p ∷ ps) (String.◌∷◌ c s) = p == code c && starts_with_codes ps s

-- The code points of a text.
unfoldable pub codes : String → List ℕ
codes String.[] = []
codes (String.◌∷◌ c s) = code c ∷ codes s

-- `s.startswith(prefix)`
unfoldable pub startswith : String → String → Bool
unfolding starts_with_codes codes
startswith s prefix = starts_with_codes (codes prefix) s

-- Lower case of a letter A to Z. A text that is compared with ASCII words needs no more: no other
-- character has a lower case in ASCII but the Kelvin sign, `k`.
unfoldable pub lower_code : ℕ → ℕ
lower_code c = if leb 65 c && leb c 90 then c + 32 else if c == 8490 then 107 else c

unfoldable pub lower_codes : String → List ℕ
unfolding lower_code
lower_codes String.[] = []
lower_codes (String.◌∷◌ c s) = lower_code (code c) ∷ lower_codes s

unfoldable pub is_prefix : List ℕ → List ℕ → Bool
is_prefix [] s = true
is_prefix (p ∷ ps) [] = false
is_prefix (p ∷ ps) (c ∷ s) = p == c && is_prefix ps s

unfoldable pub has_infix : List ℕ → List ℕ → Bool
unfolding is_prefix
has_infix word [] = is_prefix word []
has_infix word (c ∷ s) = is_prefix word (c ∷ s) || has_infix word s

unfoldable pub same_codes : List ℕ → List ℕ → Bool
same_codes [] [] = true
same_codes (a ∷ s) (b ∷ t) = a == b && same_codes s t
same_codes _ _ = false

-- `s.lower() == word`, for a word in lower case
unfoldable pub lower_is : String → String → Bool
unfolding lower_codes codes same_codes
lower_is s word = same_codes (lower_codes s) (codes word)

-- `word in s.lower()`, for a word in lower case
unfoldable pub lower_contains : String → String → Bool
unfolding lower_codes codes has_infix
lower_contains s word = has_infix (codes word) (lower_codes s)

-- `s + t`
unfoldable pub append : String → String → String
append String.[] t = t
append (String.◌∷◌ c s) t = String.◌∷◌ c (append s t)

digit : ℕ → String
digit n =
    if n == 0
    then "0"
    else if n == 1
    then "1"
    else if n == 2
    then "2"
    else if n == 3
    then "3"
    else if n == 4
    then "4"
    else if n == 5
    then "5"
    else if n == 6
    then "6"
    else if n == 7
    then "7"
    else if n == 8
    then "8"
    else "9"

-- The digits of `n`, for a fuel above `n`.
nat_text : ℕ → ℕ → String
unfolding append digit
nat_text zero n = ""
nat_text (suc fuel) n =
    let high = nat_text fuel (n / 10) in if leb n 9 then digit n else append high (digit (n % 10))

-- `str(z)`
unfoldable pub int_text : ℤ → String
unfolding nat_text append
int_text (pos n) = nat_text (n + 1) n
int_text (negsuc n) = append "-" (nat_text (n + 2) (n + 1))

pub same_codes-eq : (k l : List ℕ) → same_codes k l ≡ true → k ≡ l
unfolding same_codes
same_codes-eq [] [] h = refl
same_codes-eq [] (b ∷ l) h = cc
same_codes-eq (a ∷ k) [] h = cc
same_codes-eq (a ∷ k) (b ∷ l) h = ground (arith, same_codes-eq k l)

-- A text reads as one word only.
pub lower_is_unique :
    (s v w : String) → lower_is s v ≡ true → lower_is s w ≡ true → codes v ≡ codes w
unfolding lower_is
lower_is_unique s v w h k =
    sym (same_codes-eq (lower_codes s) (codes v) h) ∙ same_codes-eq (lower_codes s) (codes w) k
