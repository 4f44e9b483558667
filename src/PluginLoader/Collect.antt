-- ===== src/PluginLoader/Collect.antt =====
-- `_collect_requirements` of plugin_loader.py (src/mmrelay). The files and `os.path` are arguments:
-- a file is its lines, or `none` where it cannot be read, and `nested` is the absolute path of an
-- include in a file. The set `visited`, which the calls share, is passed along.
use meshtastic_matrix_relay.Base.{
  ℕ, zero, suc, String, Bool, true, false, Option, none, some, List, [], ◌∷◌, ◌++◌, ◌||◌,
  if◌then◌else◌,
}
use meshtastic_matrix_relay.Py.{codes, is_space, is_prefix, has_infix, contains}
use meshtastic_matrix_relay.PluginLoader.Risk.{lowered, starts_any, is_any, behind_eq}

pub record Files : Type 0 where
  pub lines : String → Option (List (List ℕ))
  pub nested : String → List ℕ → String

abbrev pub lstripped : List ℕ → List ℕ
lstripped [] = []
lstripped (c ∷ cs) = let rest = lstripped cs in if is_space c then rest else c ∷ cs

abbrev pub keep_inner : ℕ → List ℕ → List ℕ
keep_inner c [] = if is_space c then [] else c ∷ []
keep_inner c cs = c ∷ cs

abbrev pub rstripped : List ℕ → List ℕ
rstripped [] = []
rstripped (c ∷ cs) = keep_inner c (rstripped cs)

abbrev pub stripped : List ℕ → List ℕ
stripped s = rstripped (lstripped s)

abbrev pub is_nil : List ℕ → Bool
is_nil [] = true
is_nil _ = false

-- `line.split(" #", 1)[0]`
abbrev pub before_comment : List ℕ → List ℕ
before_comment [] = []
before_comment (c ∷ cs) =
    let rest = before_comment cs in if is_prefix (codes " #") (c ∷ cs) then [] else c ∷ rest

-- `line.split(None, 1)[1]`, empty where there is no second part
abbrev pub second_part : List ℕ → List ℕ
second_part [] = []
second_part (c ∷ cs) = let rest = second_part cs in if is_space c then lstripped cs else rest

abbrev pub eq_directives : List String
eq_directives = "--requirement=" ∷ "--constraint=" ∷ []

abbrev pub directives : List String
directives = "-r " ∷ "--requirement " ∷ "-c " ∷ "--constraint " ∷ []

abbrev pub bare_directives : List String
bare_directives = "-r" ∷ "-c" ∷ "--requirement" ∷ "--constraint" ∷ []

-- What a line is: nothing, the inclusion of a file, or a requirement.
pub data Line : Type 0 where
  skipped : Line
  include requirement : List ℕ → Line

abbrev pub included : List ℕ → Line
included [] = skipped
included rest = include (stripped rest)

abbrev pub read_directive : List ℕ → Line
read_directive line =
    if starts_any eq_directives (lowered line)
    then include (stripped (behind_eq line))
    else (if starts_any directives (lowered line)
        then included (second_part line)
        else (if is_any bare_directives (lowered line) then skipped else requirement line))

abbrev pub uncommented : List ℕ → List ℕ
uncommented line = if has_infix (codes " #") line then stripped (before_comment line) else line

unfoldable pub read_line : List ℕ → Line
read_line raw =
    if is_nil (stripped raw) || is_prefix (codes "#") (stripped raw)
    then skipped
    else (if is_nil (uncommented (stripped raw))
        then skipped
        else read_directive (uncommented (stripped raw)))

-- What has been collected, and the files that have been visited.
pub record Collected : Type 0 where
  pub requirements : List (List ℕ)
  pub visited : List String

abbrev pub prepend : List (List ℕ) → Option Collected → Option Collected
prepend ls none = none
prepend ls (some c) = some (record c { requirements = ls ++ c.requirements })

-- What one line adds; `rec` collects the file that it includes.
abbrev pub collect_line :
    (String → List String → Option Collected)
    → Files
    → String
    → Line
    → List String
    → Option Collected
collect_line rec files path skipped visited = some (record { requirements = []; visited = visited })
collect_line rec files path (requirement line) visited =
    some (record { requirements = line ∷ []; visited = visited })
collect_line rec files path (include p) visited = rec (files.nested path p) visited

unfoldable pub collect_lines :
    (String → List String → Option Collected)
    → Files
    → String
    → List (List ℕ)
    → List String
    → Option Collected
collect_lines rec files path [] visited = some (record { requirements = []; visited = visited })
collect_lines rec files path (raw ∷ lines) visited =
    elim (collect_line rec files path (read_line raw) visited) [
      | none ↦ none
      | some c ↦ prepend c.requirements (collect_lines rec files path lines c.visited)
    ]

abbrev pub collect_file :
    (String → List String → Option Collected)
    → Files
    → String
    → Option (List (List ℕ))
    → List String
    → Option Collected
collect_file rec files path none visited = some (record { requirements = []; visited = visited })
collect_file rec files path (some lines) visited = collect_lines rec files path lines visited

-- `none` means that the fuel was short.
unfoldable pub collect_requirements : ℕ → Files → String → List String → Option Collected
collect_requirements zero files path visited = none
collect_requirements (suc fuel) files path visited =
    if contains path visited
    then some (record { requirements = []; visited = visited })
    else collect_file (collect_requirements fuel files) files path (files.lines path)
        (path ∷ visited)
