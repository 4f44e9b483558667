-- ===== src/MatrixEvents/Text.antt =====
-- The operations on texts that src/mmrelay/matrix/events.py and replies.py use. A text is the list
-- of its code points.
use meshtastic_matrix_relay.Base.{
  ℕ, zero, suc, ◌+◌, ◌-◌, ◌*◌, Bool, true, false, not, Option, none, some, List, [], ◌∷◌, ◌++◌,
  ◌==◌, leb, ltb, ◌&&◌, ◌||◌, if◌then◌else◌, length, take,
}
use meshtastic_matrix_relay.Py.{is_space, codes}

abbrev pub Text : Type 0
Text = List ℕ

abbrev pub is_empty : Text → Bool
is_empty [] = true
is_empty (_ ∷ _) = false

unfoldable pub lstrip : Text → Text
lstrip [] = []
lstrip (c ∷ s) = let rest = lstrip s in if is_space c then rest else c ∷ s

unfoldable pub rstrip : Text → Text
rstrip [] = []
rstrip (c ∷ s) = let rest = rstrip s in if is_space c && is_empty rest then [] else c ∷ rest

-- `s.strip()`
unfoldable pub strip : Text → Text
strip s = rstrip (lstrip s)

-- `s.startswith(prefix)`
unfoldable pub starts_with : Text → Text → Bool
starts_with s [] = true
starts_with [] (_ ∷ _) = false
starts_with (c ∷ s) (p ∷ ps) = p == c && starts_with s ps

-- `s[n:]`
unfoldable pub drop_text : ℕ → Text → Text
drop_text zero s = s
drop_text (suc n) [] = []
drop_text (suc n) (_ ∷ s) = drop_text n s

-- the boundaries of `splitlines`
abbrev pub is_line_break : ℕ → Bool
is_line_break c = leb 10 c && leb c 13 || leb 28 c && leb c 30 || c == 133 || c == 8232 || c == 8233

-- `s.splitlines()`, with the line so far, and whether the last character was `\r`
unfoldable pub lines_from : Text → Bool → Text → List Text
lines_from line after_cr [] = if is_empty line then [] else line ∷ []
lines_from line after_cr (c ∷ s) =
    let skipped = lines_from line false s in
    let broken = line ∷ lines_from [] (c == 13) s in
    let longer = lines_from (line ++ c ∷ []) false s in
    if after_cr && c == 10 then skipped else if is_line_break c then broken else longer

unfoldable pub splitlines : Text → List Text
splitlines s = lines_from [] false s

-- The stripped lines that are no quotation and not empty, joined with single spaces.
unfoldable pub join_lines : List Text → Text
join_lines [] = []
join_lines (line ∷ lines) =
    let rest = join_lines lines in
    if starts_with (strip line) (62 ∷ []) || is_empty (strip line)
    then rest
    else if is_empty rest
    then strip line
    else strip line ++ 32 ∷ rest

-- `strip_quoted_lines`
unfoldable pub strip_quoted_lines : Text → Text
strip_quoted_lines s = strip (join_lines (splitlines s))

-- `s.replace("\n", " ").replace("\r", " ")`
unfoldable pub one_line : Text → Text
one_line [] = []
one_line (c ∷ s) = (if c == 10 || c == 13 then 32 else c) ∷ one_line s

-- MESSAGE_PREVIEW_LENGTH characters, with three dots where there are more
unfoldable pub preview : Text → Text
preview s = if ltb 40 (length s) then take 40 s ++ codes "..." else s

-- The text that a reaction quotes.
unfoldable pub quoted : Text → Text
quoted s = preview (one_line (strip_quoted_lines s))

-- Up to `" to"`, at least one character and no line break: the group of
-- `reacted (.+?) to`, from the text so far.
unfoldable pub up_to_word : Text → Text → Option Text
up_to_word found [] = none
up_to_word found (c ∷ s) =
    let longer = up_to_word (found ++ c ∷ []) s in
    if not (is_empty found) && starts_with (c ∷ s) (codes " to")
    then some found
    else if c == 10
    then none
    else longer

-- `re.search(r"reacted (.+?) to", s)`, and its group
unfoldable pub search_reaction : Text → Option Text
search_reaction [] = none
search_reaction (c ∷ s) =
    let later = search_reaction s in
    if starts_with (c ∷ s) (codes "reacted ")
    then elim (up_to_word [] (drop_text 8 (c ∷ s))) [ none ↦ later | some found ↦ some found ]
    else later

-- `s.isdigit()` and `int(s)`, of ASCII digits
unfoldable pub digits_value : ℕ → Text → Option ℕ
digits_value n [] = some n
digits_value n (c ∷ s) =
    let rest = digits_value (n * 10 + (c - 48)) s in if leb 48 c && leb c 57 then rest else none

unfoldable pub digits_of : Text → Option ℕ
digits_of [] = none
digits_of (c ∷ s) = digits_value 0 (c ∷ s)
