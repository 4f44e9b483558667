-- ===== src/PluginLoader/Flattened.antt =====
-- `_collect_requirements` (src/mmrelay/plugin_loader.py) ends, and no line that it takes for an include
-- is in its result.
use meshtastic_matrix_relay.Base.{
  ◌≡◌, refl, arith, ℕ, zero, suc, ◌≤◌, ◌<◌, String, true, false, Option, none, some, List, [], ◌∷◌,
  ◌++◌, eq_iff, is_some, length, if◌then◌else◌, Bool-cases, inl, inr,
}
use meshtastic_matrix_relay.Py.{contains}
use meshtastic_matrix_relay.PluginLoader.Collect.{
  Files, Line, skipped, include, requirement, read_line, Collected, collect_lines, collect_line,
  collect_file, collect_requirements,
}
use meshtastic_matrix_relay.PluginLoader.Includes.{
  IsPlain, ArePlain, ArePlain-append, read_line-IsPlain,
}

-- How many of the known files are not visited yet.
abbrev pub unvisited : List String → List String → ℕ
unvisited [] visited = 0
unvisited (f ∷ known) visited =
    let rest = unvisited known visited in if contains f visited then rest else suc rest

abbrev Grows : List String → List String → Type 0
Grows v w = (f : String) → contains f v ≡ true → contains f w ≡ true

unvisited-Grows : (known v w : List String) → Grows v w → unvisited known w ≤ unvisited known v
unvisited-Grows [] v w g = omega arith
unvisited-Grows (f ∷ known) v w g = ground (arith, g f, unvisited-Grows known v w g)

unvisited-visit :
    (known v : List String) (p : String)
    → contains p known ≡ true
    → contains p v ≡ false
    → unvisited known (p ∷ v) < unvisited known v
unvisited-visit [] v p h g = ground arith
unvisited-visit (f ∷ known) v p h g = ground (
  arith,
  eq_iff p f,
  eq_iff f p,
  unvisited-visit known v p,
  unvisited-Grows known v (p ∷ v) (λ f' e. ground (arith, e)),
)

-- A file's collection ends with plain lines, and has forgotten no visit.
record IsDone (visited : List String) (o : Option Collected) : Type 0 where
  result : Collected
  ended : o ≡ some result
  grows : Grows visited result.visited
  plain : ArePlain result.requirements

IsDone-nothing :
    (v : List String) (o : Option Collected)
    → o ≡ some (record { requirements = []; visited = v })
    → IsDone v o
IsDone-nothing v o h = record {
  result = record { requirements = []; visited = v };
  ended = h;
  grows = λ f e. e;
  plain = tt;
}

collect_line-IsDone :
    (rec : String → List String → Option Collected) (files : Files) (path : String) (l : Line)
    (v : List String)
    → ((line : List ℕ) → l ≡ requirement line → IsPlain line)
    → ((p : String) → IsDone v (rec p v))
    → IsDone v (collect_line rec files path l v)
collect_line-IsDone rec files path skipped v plain d = IsDone-nothing v _ refl
collect_line-IsDone rec files path (requirement line) v plain d = record {
  result = record { requirements = line ∷ []; visited = v };
  ended = refl;
  grows = λ f e. e;
  plain = (plain line refl, tt);
}
collect_line-IsDone rec files path (include p) v plain d = d (files.nested path p)

collect_lines-IsDone :
    (rec : String → List String → Option Collected) (files : Files) (path : String)
    (lines : List (List ℕ)) (v : List String)
    → ((p : String) (w : List String) → Grows v w → IsDone w (rec p w))
    → IsDone v (collect_lines rec files path lines v)
unfolding collect_lines
collect_lines-IsDone rec files path [] v d = IsDone-nothing v _ refl
collect_lines-IsDone rec files path (raw ∷ lines) v d =
    let first =
      collect_line-IsDone rec files path (read_line raw) v (read_line-IsPlain raw)
        (λ p. d p v (λ f e. e)) in
    let rest =
      collect_lines-IsDone rec files path lines first.result.visited
        (λ p w g. d p w (λ f e. g f (first.grows f e))) in
    record {
      result = record rest.result {
        requirements = first.result.requirements ++ rest.result.requirements;
      };
      ended = ground (arith, first.ended, rest.ended);
      grows = λ f e. rest.grows f (first.grows f e);
      plain =
          ArePlain-append first.result.requirements rest.result.requirements first.plain rest.plain;
    }

collect-IsDone :
    (files : Files) (known : List String)
    → ((p : String) → is_some (files.lines p) ≡ true → contains p known ≡ true)
    → (fuel : ℕ) (path : String) (v : List String) → unvisited known v < fuel
    → IsDone v (collect_requirements fuel files path v)
unfolding collect_requirements
collect-IsDone files known h zero path v lt = ground arith
collect-IsDone files known h (suc fuel) path v lt = elim (Bool-cases (contains path v)) [
  | inl e ↦ IsDone-nothing v _ (ground (arith, e))
  | inr e ↦ opened (files.lines path) refl e (collect-IsDone files known h fuel)
]
  where
    opened :
        (o : Option (List (List ℕ)))
        → files.lines path ≡ o
        → contains path v ≡ false
        → ((p : String) (w : List String)
            → unvisited known w < fuel
            → IsDone w (collect_requirements fuel files p w))
        → IsDone v (
            if contains path v
            then some (record { requirements = []; visited = v })
            else collect_file
                (collect_requirements fuel files)
                files
                path
                (files.lines path)
                (path ∷ v))
    opened none q e again = record {
      result = record { requirements = []; visited = path ∷ v };
      ended = ground (arith, q, e);
      grows = λ f g. ground (arith, g);
      plain = tt;
    }
    opened (some lines) q e again =
        let seen = h path (ground (arith, q)) in
        let done =
          collect_lines-IsDone (collect_requirements fuel files) files path lines (path ∷ v)
            (λ p w g. again p w (
              omega (
                arith,
                unvisited-Grows known (path ∷ v) w g,
                unvisited-visit known v path seen e,
                lt,
              ))) in
        record {
          result = done.result;
          ended = ground (arith, q, e, done.ended);
          grows = λ f g. done.grows f (ground (arith, g));
          plain = done.plain;
        }

unvisited-none : (known : List String) → unvisited known [] ≡ length known
unvisited-none [] = refl
unvisited-none (f ∷ known) = omega (arith, unvisited-none known)

-- Collecting the requirements of a file ends, however the files include one another: where the files
-- that can be read are among some known ones, a depth of one more than their number is enough. No line
-- that is collected is empty, or is `-r`, `-c`, `--requirement` or `--constraint`, in letters of any
-- case, alone or with a space behind it, or a long one of them with a `=` behind it.
pub collect_requirements-plain :
    (files : Files) (known : List String) (path : String)
    → ((p : String) → is_some (files.lines p) ≡ true → contains p known ≡ true)
    → (c : Collected) × (collect_requirements (suc (length known)) files path [] ≡ some c)
      × ArePlain c.requirements
collect_requirements-plain files known path h =
    let done =
      collect-IsDone files known h (suc (length known)) path []
        (omega (arith, unvisited-none known)) in
    (done.result, done.ended, done.plain)
