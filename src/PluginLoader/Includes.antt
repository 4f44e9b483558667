-- ===== src/PluginLoader/Includes.antt =====
-- The lines of a requirements file that `_collect_requirements` (src/mmrelay/plugin_loader.py) takes for
-- includes, and those that it keeps, told without its tables.
use meshtastic_matrix_relay.Base.{
  ap, ◌∙◌, ◌≡◌, ◌≢◌, refl, arith, ℕ, String, true, false, List, [], ◌∷◌, ◌++◌,
}
use meshtastic_matrix_relay.Py.{codes, is_prefix, same_codes}
use meshtastic_matrix_relay.PluginLoader.Risk.{lowered, starts_any, is_any}
use meshtastic_matrix_relay.PluginLoader.Collect.{
  requirement, included, read_directive, read_line, eq_directives, directives, bare_directives,
  is_nil, stripped, uncommented, second_part,
}

pub data Directive : Type 0 where
  short_requirement short_constraint requirement_file constraint_file : Directive

abbrev pub spelling : Directive → String
spelling short_requirement = "-r"
spelling short_constraint = "-c"
spelling requirement_file = "--requirement"
spelling constraint_file = "--constraint"

-- The lines that the function takes for includes, in letters of any case: a directive alone, one with
-- a space behind it, or a long one with a `=` behind it. A file name that is attached to a short one is
-- not among them.
pub data Includes (line : List ℕ) : Type 0 where
  bare : (d : Directive) → lowered line ≡ codes (spelling d) → Includes line
  spaced :
      (d : Directive) (rest : List ℕ)
      → lowered line ≡ codes (spelling d) ++ 32 ∷ rest
      → Includes line
  long_requirement :
      (rest : List ℕ) → lowered line ≡ codes "--requirement" ++ 61 ∷ rest → Includes line
  long_constraint :
      (rest : List ℕ) → lowered line ≡ codes "--constraint" ++ 61 ∷ rest → Includes line

record IsUnread (line : List ℕ) : Type 0 where
  full : is_nil line ≡ false
  no_eq : starts_any eq_directives (lowered line) ≡ false
  no_space : starts_any directives (lowered line) ≡ false
  no_bare : is_any bare_directives (lowered line) ≡ false

bare_lem : (d : Directive) → is_any bare_directives (codes (spelling d)) ≡ true
unfolding codes same_codes
bare_lem short_requirement = refl
bare_lem short_constraint = refl
bare_lem requirement_file = refl
bare_lem constraint_file = refl

spaced_lem :
    (d : Directive) (rest : List ℕ) → starts_any directives (codes (spelling d) ++ 32 ∷ rest) ≡ true
unfolding codes is_prefix
spaced_lem short_requirement rest = refl
spaced_lem short_constraint rest = refl
spaced_lem requirement_file rest = refl
spaced_lem constraint_file rest = refl

eq_lem :
    (rest : List ℕ)
    → (starts_any eq_directives (codes "--requirement" ++ 61 ∷ rest) ≡ true)
      × (starts_any eq_directives (codes "--constraint" ++ 61 ∷ rest) ≡ true)
unfolding codes is_prefix
eq_lem rest = (refl, refl)

IsUnread-Includes : (line : List ℕ) → IsUnread line → ¬ Includes line
IsUnread-Includes line u (bare d p) =
    let k = ap (is_any bare_directives) p ∙ bare_lem d in let h = u.no_bare in cc
IsUnread-Includes line u (spaced d rest p) =
    let k = ap (starts_any directives) p ∙ spaced_lem d rest in let h = u.no_space in cc
IsUnread-Includes line u (long_requirement rest p) =
    let k = ap (starts_any eq_directives) p ∙ (eq_lem rest).0 in let h = u.no_eq in cc
IsUnread-Includes line u (long_constraint rest p) =
    let k = ap (starts_any eq_directives) p ∙ (eq_lem rest).1 in let h = u.no_eq in cc

-- A line that is no such include, and not empty.
abbrev pub IsPlain : List ℕ → Type 0
IsPlain line = (line ≢ []) × (¬ Includes line)

non_empty : (line : List ℕ) → is_nil line ≡ false → line ≢ []
non_empty [] h e = cc
non_empty (c ∷ cs) h e = cc

abbrev pub ArePlain : List (List ℕ) → Type 0
ArePlain [] = Unit
ArePlain (l ∷ ls) = IsPlain l × ArePlain ls

pub ArePlain-append : (ls ms : List (List ℕ)) → ArePlain ls → ArePlain ms → ArePlain (ls ++ ms)
ArePlain-append [] ms p q = q
ArePlain-append (l ∷ ls) ms p q = (p.0, ArePlain-append ls ms p.1 q)

included_lem : (s line : List ℕ) → included s ≢ requirement line
included_lem [] line h = cc
included_lem (c ∷ s) line h = cc

read_directive-IsUnread :
    (s line : List ℕ) → is_nil s ≡ false → read_directive s ≡ requirement line → IsUnread line
read_directive-IsUnread s line e h = ground (arith, included_lem (second_part s) line)

read_line-IsUnread : (raw line : List ℕ) → read_line raw ≡ requirement line → IsUnread line
unfolding read_line
read_line-IsUnread raw line h =
    ground (arith, read_directive-IsUnread (uncommented (stripped raw)) line)

pub read_line-IsPlain : (raw line : List ℕ) → read_line raw ≡ requirement line → IsPlain line
read_line-IsPlain raw line h =
    let u = read_line-IsUnread raw line h in (non_empty line u.full, IsUnread-Includes line u)
