-- ===== src/PluginLoader/Remote.antt =====
-- What plugin_loader.py (src/mmrelay) means to keep from pip, told without its tables: tokens that
-- name a package by a repository or a URL.
use meshtastic_matrix_relay.Base.{
  ◌≡◌, ◌≢◌, refl, ap, sym, ◌∙◌, arith, ℕ, String, true, false, List, [], ◌∷◌, ◌++◌,
}
use meshtastic_matrix_relay.Py.{codes, is_prefix, has_infix, lower_code, same_codes}
use meshtastic_matrix_relay.PluginLoader.Risk.{
  lowered, has_code, starts_any, risky_requirement_prefixes, is_requirement_risky, token_risky,
}

pub data Scheme : Type 0 where
  git_over ssh git mercurial bazaar subversion http https : Scheme

abbrev pub spelled : Scheme → String
spelled git_over = "git+"
spelled ssh = "ssh://"
spelled git = "git://"
spelled mercurial = "hg+"
spelled bazaar = "bzr+"
spelled subversion = "svn+"
spelled http = "http://"
spelled https = "https://"

-- A text that starts with a scheme, in letters of any case, or holds an `@` and a `://`.
pub data IsRemote (v : List ℕ) : Type 0 where
  schemed : (s : Scheme) (rest : List ℕ) → lowered v ≡ codes (spelled s) ++ rest → IsRemote v
  direct : (a b c d : List ℕ) → v ≡ a ++ 64 ∷ b → v ≡ c ++ codes "://" ++ d → IsRemote v

pub data SourceOption : Type 0 where
  e editable f find_links i index_url extra_index_url : SourceOption

abbrev pub written : SourceOption → String
written e = "-e"
written editable = "--editable"
written f = "-f"
written find_links = "--find-links"
written i = "-i"
written index_url = "--index-url"
written extra_index_url = "--extra-index-url"

pub data ShortOption : Type 0 where
  short_e short_f short_i : ShortOption

abbrev pub letter : ShortOption → String
letter short_e = "-e"
letter short_f = "-f"
letter short_i = "-i"

-- A token that is remote itself and no option; or a source option with a remote value, behind `=`, or
-- attached to a short one, if the value holds no `=`.
pub data NamesRemote (token : List ℕ) : Type 0 where
  argument :
      (c : ℕ) (rest : List ℕ) → token ≡ c ∷ rest → c ≢ 45 → IsRemote token → NamesRemote token
  behind :
      (o : SourceOption) (value : List ℕ)
      → token ≡ codes (written o) ++ 61 ∷ value
      → IsRemote value
      → NamesRemote token
  attached :
      (o : ShortOption) (value : List ℕ)
      → token ≡ codes (letter o) ++ value
      → has_code 61 value ≡ false
      → IsRemote value
      → NamesRemote token

schemed-starts :
    (s : Scheme) (rest : List ℕ)
    → starts_any risky_requirement_prefixes (codes (spelled s) ++ rest) ≡ true
unfolding codes is_prefix
schemed-starts git_over rest = refl
schemed-starts ssh rest = refl
schemed-starts git rest = refl
schemed-starts mercurial rest = refl
schemed-starts bazaar rest = refl
schemed-starts subversion rest = refl
schemed-starts http rest = refl
schemed-starts https rest = refl

has_code-append : (a b : List ℕ) (c : ℕ) → has_code c (a ++ c ∷ b) ≡ true
has_code-append [] b c = ground arith
has_code-append (x ∷ a) b c = ground (arith, has_code-append a b c)

has_infix-append : (c d : List ℕ) → has_infix (codes "://") (c ++ codes "://" ++ d) ≡ true
unfolding codes is_prefix has_infix
has_infix-append [] d = refl
has_infix-append (x ∷ c) d = ground (arith, has_infix-append c d)

remote-risky : (v : List ℕ) → IsRemote v → is_requirement_risky v ≡ true
unfolding is_requirement_risky
remote-risky v (schemed s rest p) =
    ground (arith, ap (starts_any risky_requirement_prefixes) p ∙ schemed-starts s rest)
remote-risky v (direct a b c d p q) = ground (
  arith,
  ap (has_code 64) p ∙ has_code-append a b 64,
  ap (has_infix (codes "://")) q ∙ has_infix-append c d,
)

-- A token that is no option.
argument-risky :
    (c : ℕ) (rest : List ℕ)
    → c ≢ 45
    → is_requirement_risky (c ∷ rest) ≡ true
    → token_risky (c ∷ rest) ≡ true
unfolding token_risky codes is_prefix same_codes lower_code
argument-risky c [] n h = ground arith
argument-risky c (d ∷ []) n h = ground arith
argument-risky c (d ∷ x ∷ rest) n h = ground arith

behind-risky :
    (o : SourceOption) (value : List ℕ)
    → is_requirement_risky value ≡ true
    → token_risky (codes (written o) ++ 61 ∷ value) ≡ true
unfolding token_risky codes is_prefix same_codes lower_code
behind-risky e value h = h
behind-risky editable value h = h
behind-risky f value h = h
behind-risky find_links value h = h
behind-risky i value h = h
behind-risky index_url value h = h
behind-risky extra_index_url value h = h

nothing-safe : is_requirement_risky [] ≡ false
unfolding is_requirement_risky codes is_prefix has_infix
nothing-safe = refl

attached-risky :
    (o : ShortOption) (value : List ℕ)
    → has_code 61 value ≡ false
    → is_requirement_risky value ≡ true
    → token_risky (codes (letter o) ++ value) ≡ true
unfolding token_risky codes is_prefix
attached-risky o [] n h = let k = nothing-safe in cc
attached-risky short_e (d ∷ rest) n h = ground (arith, n, h)
attached-risky short_f (d ∷ rest) n h = ground (arith, n, h)
attached-risky short_i (d ∷ rest) n h = ground (arith, n, h)

pub named-risky : (token : List ℕ) → NamesRemote token → token_risky token ≡ true
named-risky token (argument c rest p n r) =
    ap token_risky p
    ∙ argument-risky c rest n (ap is_requirement_risky (sym p) ∙ remote-risky token r)
named-risky token (behind o value p r) =
    ap token_risky p ∙ behind-risky o value (remote-risky value r)
named-risky token (attached o value p n r) =
    ap token_risky p ∙ attached-risky o value n (remote-risky value r)
