-- ===== src/PluginLoader/Words.antt =====
-- `shlex.split(line, posix=True, comments=True)` as plugin_loader.py (src/mmrelay) uses it, on the
-- code points of a line. `none` stands for its ValueError: a quotation that is not closed, or nothing
-- behind a backslash.
use meshtastic_matrix_relay.Base.{
  ℕ, Bool, true, false, Option, none, some, List, [], ◌∷◌, ◌++◌, ◌==◌, ◌||◌, ◌&&◌, if◌then◌else◌,
}

-- shlex.whitespace, " \t\r\n"
abbrev pub is_blank : ℕ → Bool
is_blank c = c == 32 || c == 9 || c == 13 || c == 10

-- "'" and '"'
abbrev pub is_quote : ℕ → Bool
is_quote c = c == 39 || c == 34

-- The lexer: its state, the token so far, and whether a part of it was quoted. A comment lasts until
-- the line ends.
pub data Mode : Type 0 where
  blank word comment : Mode
  quote : ℕ → Mode
  escape : Mode → Mode

pub record Lexer : Type 0 where
  pub mode : Mode
  pub token : List ℕ
  pub quoted : Bool

-- The token, if it has a character or was quoted.
abbrev pub emitted : Lexer → List (List ℕ)
emitted l = if l.quoted then l.token ∷ [] else non_empty l.token
  where
    non_empty : List ℕ → List (List ℕ)
    non_empty [] = []
    non_empty token = token ∷ []

abbrev pub fresh : Mode → Lexer
fresh m = record { mode = m; token = []; quoted = false }

abbrev pub read_char : ℕ → Mode → Lexer → Lexer
read_char c m l = record l { mode = m; token = l.token ++ c ∷ [] }

-- One character at the start of a token or within it: what is emitted, and the lexer after it.
abbrev pub read_plain : ℕ → Lexer → List (List ℕ) × Lexer
read_plain c l =
    if is_blank c
    then (emitted l, fresh blank)
    else (if c == 35
        then (emitted l, fresh comment)
        else (if c == 92
            then ([], record l { mode = escape word })
            else (if is_quote c
                then ([], record l { mode = quote c })
                else ([], read_char c word l))))

unfoldable pub read_token : ℕ → Mode → Lexer → List (List ℕ) × Lexer
read_token c comment l = ([], fresh (if c == 10 then blank else comment))
read_token c (quote q) l =
    if c == q
    then ([], record l { mode = word; quoted = true })
    else (if c == 92 && q == 34
        then ([], record l { mode = escape (quote q); quoted = true })
        else ([], record (read_char c (quote q) l) { quoted = true }))
read_token c (escape (quote q)) l = (
  [],
  if c == 92 || c == q
      then read_char c (quote q) l
      else read_char c (quote q) (read_char 92 (quote q) l),
)
read_token c (escape m) l = ([], read_char c m l)
read_token c m l = read_plain c l

-- The end of the line, where a quotation or a backslash may be open.
abbrev pub finish_split : Mode → Lexer → Option (List (List ℕ))
finish_split (quote _) l = none
finish_split (escape _) l = none
finish_split _ l = some (emitted l)

abbrev pub emit : List (List ℕ) → Option (List (List ℕ)) → Option (List (List ℕ))
emit tokens none = none
emit tokens (some rest) = some (tokens ++ rest)

unfoldable pub split_from : List ℕ → Lexer → Option (List (List ℕ))
split_from [] l = finish_split l.mode l
split_from (c ∷ cs) l = let (tokens, l') = read_token c l.mode l in emit tokens (split_from cs l')

unfoldable pub split : List ℕ → Option (List (List ℕ))
split line = split_from line (fresh blank)
