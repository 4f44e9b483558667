-- ===== src/PluginLoader/Risk.antt =====
-- plugin_loader.py (src/mmrelay): which requirement lines are flagged as risky. A line and its
-- tokens are lists of code points.
use meshtastic_matrix_relay.Base.{
  ℕ, String, Bool, false, not, Option, none, some, List, [], ◌∷◌, ◌++◌, ◌==◌, ◌||◌, ◌&&◌,
  if◌then◌else◌,
}
use meshtastic_matrix_relay.Py.{
  get, truthy, bool, Fields, codes, is_prefix, has_infix, lower_code, same_codes,
}
use meshtastic_matrix_relay.PluginLoader.Words.{split}

abbrev pub lowered : List ℕ → List ℕ
lowered [] = []
lowered (c ∷ cs) = lower_code c ∷ lowered cs

abbrev pub has_code : ℕ → List ℕ → Bool
has_code c [] = false
has_code c (d ∷ cs) = c == d || has_code c cs

abbrev pub starts_any : List String → List ℕ → Bool
starts_any [] s = false
starts_any (w ∷ ws) s = is_prefix (codes w) s || starts_any ws s

-- `s in words`
abbrev pub is_any : List String → List ℕ → Bool
is_any [] s = false
is_any (w ∷ ws) s = same_codes s (codes w) || is_any ws s

abbrev pub risky_requirement_prefixes : List String
risky_requirement_prefixes =
    "git+" ∷ "ssh://" ∷ "git://" ∷ "hg+" ∷ "bzr+" ∷ "svn+" ∷ "http://" ∷ "https://" ∷ []

abbrev pub pip_source_flags : List String
pip_source_flags =
    "-e" ∷ "--editable" ∷ "-f" ∷ "--find-links" ∷ "-i" ∷ "--index-url" ∷ "--extra-index-url" ∷ []

-- The letters of the short ones: e, f and i.
abbrev pub pip_short_source_flag : ℕ → Bool
pip_short_source_flag c = c == 101 || c == 102 || c == 105

unfoldable pub is_requirement_risky : List ℕ → Bool
is_requirement_risky s =
    starts_any risky_requirement_prefixes (lowered s) || has_code 64 s && has_infix (codes "://") s

-- `token.partition("=")`, the parts before and behind the sign
abbrev pub before_eq : List ℕ → List ℕ
before_eq [] = []
before_eq (c ∷ cs) = if c == 61 then [] else c ∷ before_eq cs

abbrev pub behind_eq : List ℕ → List ℕ
behind_eq [] = []
behind_eq (c ∷ cs) = if c == 61 then cs else behind_eq cs

-- A token that starts with one hyphen and is longer than a short flag, with the flag's letter and
-- the value behind it.
abbrev pub short_flag : List ℕ → Option (ℕ × List ℕ)
short_flag (a ∷ c ∷ d ∷ rest) = if a == 45 && not (c == 45) then some (c, d ∷ rest) else none
short_flag _ = none

abbrev pub is_long_flag : List ℕ → Bool
is_long_flag token = is_prefix (codes "-") token && has_code 61 token

abbrev pub plain_token_risky : List ℕ → Bool
plain_token_risky token =
    not (is_any pip_source_flags (lowered token)) && is_requirement_risky token

abbrev pub short_risky : List ℕ → Option (ℕ × List ℕ) → Bool
short_risky token none = plain_token_risky token
short_risky token (some (c, value)) =
    if pip_short_source_flag c then is_requirement_risky value else plain_token_risky token

-- Whether a token makes its line risky.
unfoldable pub token_risky : List ℕ → Bool
token_risky token =
    if is_long_flag token
    then is_any pip_source_flags (lowered (before_eq token))
      && is_requirement_risky (behind_eq token)
    else short_risky token (short_flag token)

unfoldable pub any_risky : List (List ℕ) → Bool
any_risky [] = false
any_risky (t ∷ ts) = token_risky t || any_risky ts

pub record Lines : Type 0 where
  pub safe : List (List ℕ)
  pub flagged : List (List ℕ)

abbrev pub place : List ℕ → List (List ℕ) → Lines → Lines
place line [] rest = rest
place line tokens rest =
    if any_risky tokens
    then record rest { flagged = line ∷ rest.flagged }
    else record rest { safe = line ∷ rest.safe }

abbrev pub place_in : List ℕ → Option (List (List ℕ)) → Option Lines → Option Lines
place_in line (some tokens) (some rest) = some (place line tokens rest)
place_in line _ _ = none

-- `_filter_risky_requirement_lines`; the first line that cannot be split raises.
unfoldable pub filter_risky_requirement_lines : List (List ℕ) → Option Lines
filter_risky_requirement_lines [] = some (record { safe = []; flagged = [] })
filter_risky_requirement_lines (line ∷ lines) =
    place_in line (split line) (filter_risky_requirement_lines lines)

-- `bool(security.get("allow_untrusted_dependencies", False))`
abbrev pub allow_untrusted : Fields → Bool
allow_untrusted security = truthy (get security "allow_untrusted_dependencies" (bool false))

-- `safe_requirements.extend(flagged_requirements)`, where it is allowed
abbrev pub effective : Bool → Lines → Lines
effective allow l = if allow then record l { safe = l.safe ++ l.flagged } else l

abbrev pub with_setting : Bool → Option Lines → Option Lines
with_setting allow none = none
with_setting allow (some l) = some (effective allow l)

-- The requirement lines of `_effective_requirements_for_repo`: `safe` is its `allowed`.
unfoldable pub effective_requirements : Fields → List (List ℕ) → Option Lines
effective_requirements security lines =
    with_setting (allow_untrusted security) (filter_risky_requirement_lines lines)

unfoldable pub installable_requirement_lines : List (List ℕ) → List (List ℕ)
installable_requirement_lines [] = []
installable_requirement_lines (line ∷ lines) =
    let rest = installable_requirement_lines lines in
    if is_prefix (codes "-") line then rest else line ∷ rest
