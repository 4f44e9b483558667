-- ===== src/PluginLoader/Tests.antt =====
-- Requirement lines (src/mmrelay/plugin_loader.py) on concrete texts.
use meshtastic_matrix_relay.Base.{
  ◌≡◌, refl, arith, ℕ, String, true, Option, none, some, List, [], ◌∷◌, ◌==◌, str_eq, is_some,
  if◌then◌else◌,
}
use meshtastic_matrix_relay.Py.{
  codes, is_prefix, has_infix, lower_code, same_codes, end, contains, is_space,
}
use meshtastic_matrix_relay.PluginLoader.Words.{split, split_from, read_token}
use meshtastic_matrix_relay.PluginLoader.Risk.{
  Lines, is_requirement_risky, token_risky, any_risky, filter_risky_requirement_lines,
  effective_requirements,
}
use meshtastic_matrix_relay.PluginLoader.Policy.{AreSafe, effective_requirements-AreSafe}
use meshtastic_matrix_relay.PluginLoader.Collect.{
  Files, Collected, requirement, read_line, collect_lines, collect_requirements,
}
use meshtastic_matrix_relay.PluginLoader.Flattened.{collect_requirements-plain}
use meshtastic_matrix_relay.PluginLoader.Includes.{ArePlain}

split_quoted :
    split (codes "a 'b c'\\ d \"\" e#f") ≡ some (codes "a" ∷ codes "b c d" ∷ [] ∷ codes "e" ∷ [])
unfolding split split_from read_token codes
split_quoted = refl

open_quotation : split (codes "it's") ≡ none
unfolding split split_from read_token codes
open_quotation = refl

risky_lines :
    filter_risky_requirement_lines (
      codes "requests>=2"
      ∷ codes "--index-url https://pypi.example"
      ∷ codes "tool @ https://x.example/t.zip"
      ∷ codes "-egit+https://x.example/t"
      ∷ [])
    ≡ some (record {
      safe = codes "requests>=2" ∷ [];
      flagged =
          codes "--index-url https://pypi.example"
          ∷ codes "tool @ https://x.example/t.zip"
          ∷ codes "-egit+https://x.example/t"
          ∷ [];
    })
unfolding filter_risky_requirement_lines any_risky token_risky is_requirement_risky is_prefix
    has_infix lower_code same_codes split split_from read_token codes
risky_lines = refl

-- Three lines by which pip takes packages or further requirements from a URL, and which are not
-- flagged: an attached `-r`, an attached `-f` whose URL has a parameter, and a shortened option.
unflagged_lines :
    filter_risky_requirement_lines (
      codes "-rhttps://x.example/more.txt"
      ∷ codes "-fhttps://x.example/?a=b"
      ∷ codes "--extra-index=https://x.example"
      ∷ [])
    ≡ some (record {
      safe =
          codes "-rhttps://x.example/more.txt"
          ∷ codes "-fhttps://x.example/?a=b"
          ∷ codes "--extra-index=https://x.example"
          ∷ [];
      flagged = [];
    })
unfolding filter_risky_requirement_lines any_risky token_risky is_requirement_risky is_prefix
    has_infix lower_code same_codes split split_from read_token codes
unflagged_lines = refl

abbrev two_lines : List (List ℕ)
two_lines = codes "requests>=2" ∷ codes "git+https://x.example/t" ∷ []

abbrev one_safe : Lines
one_safe = record {
  safe = codes "requests>=2" ∷ [];
  flagged = codes "git+https://x.example/t" ∷ [];
}

two_lines_divided : effective_requirements end two_lines ≡ some one_safe
unfolding effective_requirements filter_risky_requirement_lines any_risky token_risky
    is_requirement_risky is_prefix has_infix lower_code same_codes split split_from read_token codes
two_lines_divided = refl

effective_requirements-AreSafe_example : AreSafe one_safe.safe
effective_requirements-AreSafe_example =
    effective_requirements-AreSafe end two_lines one_safe two_lines_divided refl

-- Two files that include each other.
abbrev circle_lines : String → Option (List (List ℕ))
circle_lines p =
    if str_eq p "a"
    then some (codes " -r b # the rest" ∷ codes "x" ∷ codes "# no" ∷ [])
    else (if str_eq p "b"
        then some (codes "--requirement=a" ∷ codes "y==1 #z" ∷ codes "-c missing" ∷ [])
        else none)

abbrev circle_nested : String → List ℕ → String
circle_nested _ [] = "c"
circle_nested _ (c ∷ _) = if c == 97 then "a" else if c == 98 then "b" else "c"

abbrev circle : Files
circle = record { lines = circle_lines; nested = circle_nested }

circle-known : (p : String) → is_some (circle.lines p) ≡ true → contains p ("a" ∷ "b" ∷ []) ≡ true
circle-known p h = ground (arith, h)

collect_requirements-plain_example :
    (c : Collected) × (collect_requirements 3 circle "a" [] ≡ some c) × ArePlain c.requirements
collect_requirements-plain_example =
    collect_requirements-plain circle ("a" ∷ "b" ∷ []) "a" circle-known

circle_collected :
    collect_requirements 3 circle "a" []
    ≡ some (record { requirements = codes "y==1" ∷ codes "x" ∷ []; visited = "c" ∷ "b" ∷ "a" ∷ [] })
unfolding collect_requirements collect_lines read_line is_prefix has_infix lower_code same_codes
    is_space codes
circle_collected = refl

-- A file name that is attached to `-r` is no include for the function, though it is one for pip.
attached_include : read_line (codes "-rother.txt") ≡ requirement (codes "-rother.txt")
unfolding read_line is_prefix has_infix lower_code same_codes is_space codes
attached_include = refl
