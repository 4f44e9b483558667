-- ===== src/Py/Number.antt =====
-- `int` of a text: blanks stripped, an optional sign, ASCII digits with single underscores between.
use meshtastic_matrix_relay.Base.{
  ℕ, ◌+◌, ◌-◌, ◌*◌, String, Bool, false, Option, none, some, List, [], ◌∷◌, ◌==◌, leb, ◌&&◌, ℤ, pos,
  negate, if◌then◌else◌,
}
use meshtastic_matrix_relay.Py.Text.{codes}

-- The value so far, and whether the last character was a digit.
digits : List ℕ → ℕ → Bool → Option ℕ
digits [] n after_digit = if after_digit then some n else none
digits (c ∷ s) n after_digit =
    let is_digit = leb 48 c && leb c 57 in
    let n' = if is_digit then n * 10 + (c - 48) else n in
    let rest = digits s n' is_digit in
    if is_digit then rest else if c == 95 && after_digit then rest else none

signed : List ℕ → Option ℤ
unfolding digits
signed [] = none
signed (c ∷ s) =
    if c == 45
    then elim (digits s 0 false) [ none ↦ none | some n ↦ some (negate n) ]
    else if c == 43
    then elim (digits s 0 false) [ none ↦ none | some n ↦ some (pos n) ]
    else elim (digits (c ∷ s) 0 false) [ none ↦ none | some n ↦ some (pos n) ]

unfoldable pub parse_int : String → Option ℤ
unfolding signed codes
parse_int s = signed (codes s)
