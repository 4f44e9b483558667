-- ===== src/PluginLoader/Policy.antt =====
-- The requirement lines that plugin_loader.py (src/mmrelay) hands to pip.
use meshtastic_matrix_relay.Base.{
  ◌≡◌, refl, subst, arith, ℕ, Bool, true, false, not, Option, none, some, List, [], ◌∷◌, ◌++◌, ◌||◌,
  ◌&&◌, if◌then◌else◌, Bool-cases, inl, inr,
}
use meshtastic_matrix_relay.Py.{Fields, same_codes, same_codes-eq}
use meshtastic_matrix_relay.PluginLoader.Words.{split}
use meshtastic_matrix_relay.PluginLoader.Remote.{NamesRemote, named-risky}
use meshtastic_matrix_relay.PluginLoader.Risk.{
  token_risky, any_risky, Lines, place, place_in, filter_risky_requirement_lines, allow_untrusted,
  effective, effective_requirements, with_setting,
}

abbrev pub NoneRemote : List (List ℕ) → Type 0
NoneRemote [] = Unit
NoneRemote (t ∷ ts) = (¬ NamesRemote t) × NoneRemote ts

-- A line that can be split into tokens, of which none names a package by a repository or a URL.
pub record IsSafe (line : List ℕ) : Type 0 where
  pub tokens : List (List ℕ)
  pub read : split line ≡ some tokens
  pub local : NoneRemote tokens

abbrev pub AreSafe : List (List ℕ) → Type 0
AreSafe [] = Unit
AreSafe (l ∷ ls) = IsSafe l × AreSafe ls

unnamed : (t : List ℕ) → token_risky t ≡ false → ¬ NamesRemote t
unnamed t h n = let k = named-risky t n in cc

any_risky-NoneRemote : (ts : List (List ℕ)) → any_risky ts ≡ false → NoneRemote ts
unfolding any_risky
any_risky-NoneRemote [] h = tt
any_risky-NoneRemote (t ∷ ts) h =
    (unnamed t (ground (arith, h)), any_risky-NoneRemote ts (ground (arith, h)))

place-AreSafe :
    (line : List ℕ) (ts : List (List ℕ)) (l : Lines)
    → split line ≡ some ts
    → AreSafe l.safe
    → AreSafe (place line ts l).safe
place-AreSafe line [] l e s = s
place-AreSafe line (t ∷ ts) l e s = chosen (any_risky (t ∷ ts)) refl
  where
    chosen :
        (b : Bool)
        → any_risky (t ∷ ts) ≡ b
        → AreSafe
            (if b
              then record l { flagged = line ∷ l.flagged }
              else record l { safe = line ∷ l.safe }).safe
    chosen true h = s
    chosen false h =
        (record { tokens = t ∷ ts; read = e; local = any_risky-NoneRemote (t ∷ ts) h }, s)

-- whether a line is among some lines
abbrev pub has_line : List ℕ → List (List ℕ) → Bool
has_line line [] = false
has_line line (m ∷ lines) = same_codes line m || has_line line lines

has_line-append :
    (line : List ℕ) (ls ms : List (List ℕ))
    → has_line line (ls ++ ms) ≡ (has_line line ls || has_line line ms)
has_line-append line [] ms = refl
has_line-append line (l ∷ ls) ms = ground (arith, has_line-append line ls ms)

-- What is true of the two groups of lines.
record IsSorted (lines : List (List ℕ)) (l : Lines) : Type 0 where
  safe : AreSafe l.safe
  divided :
      (line t : List ℕ) (ts : List (List ℕ))
      → split line ≡ some (t ∷ ts)
      → (has_line line l.safe ≡ (has_line line lines && not (any_risky (t ∷ ts))))
        × (has_line line l.flagged ≡ (has_line line lines && any_risky (t ∷ ts)))

abbrev AllSorted : List (List ℕ) → Option Lines → Type 0
AllSorted lines none = Unit
AllSorted lines (some l) = IsSorted lines l

place-divided :
    (m : List ℕ) (lines ns : List (List ℕ)) (l : Lines) (line t : List ℕ) (ts : List (List ℕ))
    → split m ≡ some ns
    → split line ≡ some (t ∷ ts)
    → (has_line line l.safe ≡ (has_line line lines && not (any_risky (t ∷ ts))))
      × (has_line line l.flagged ≡ (has_line line lines && any_risky (t ∷ ts)))
    → (has_line line (place m ns l).safe ≡ (has_line line (m ∷ lines) && not (any_risky (t ∷ ts))))
      × (has_line line (place m ns l).flagged ≡ (has_line line (m ∷ lines) && any_risky (t ∷ ts)))
place-divided m lines ns l line t ts e f d = elim (Bool-cases (same_codes line m)) [
  | inl h ↦ same ns e (same_codes-eq line m h) h
  | inr h ↦ other ns h
]
  where
    same :
        (ns : List (List ℕ))
        → split m ≡ some ns
        → line ≡ m
        → same_codes line m ≡ true
        → (has_line line (place m ns l).safe
            ≡ (has_line line (m ∷ lines) && not (any_risky (t ∷ ts))))
          × (has_line line (place m ns l).flagged
              ≡ (has_line line (m ∷ lines) && any_risky (t ∷ ts)))
    same [] e q h = cc
    same (n ∷ ns) e q h =
        let r : any_risky (n ∷ ns) ≡ any_risky (t ∷ ts) = cc in
        (ground (arith, r, h, d.0, d.1), ground (arith, r, h, d.0, d.1))

    other :
        (ns : List (List ℕ))
        → same_codes line m ≡ false
        → (has_line line (place m ns l).safe
            ≡ (has_line line (m ∷ lines) && not (any_risky (t ∷ ts))))
          × (has_line line (place m ns l).flagged
              ≡ (has_line line (m ∷ lines) && any_risky (t ∷ ts)))
    other [] h = (ground (arith, h, d.0), ground (arith, h, d.1))
    other (n ∷ ns) h = (ground (arith, h, d.0), ground (arith, h, d.1))

filter-AllSorted : (lines : List (List ℕ)) → AllSorted lines (filter_risky_requirement_lines lines)
unfolding filter_risky_requirement_lines
filter-AllSorted [] = record { safe = tt; divided = λ line t ts e. (ground arith, ground arith) }
filter-AllSorted (m ∷ lines) =
    placed (split m) (filter_risky_requirement_lines lines) refl (filter-AllSorted lines)
  where
    placed :
        (o : Option (List (List ℕ))) (r : Option Lines)
        → split m ≡ o
        → AllSorted lines r
        → AllSorted (m ∷ lines) (place_in m o r)
    placed none r e s = tt
    placed (some ns) none e s = tt
    placed (some ns) (some l) e s = record {
      safe = place-AreSafe m ns l e s.safe;
      divided = λ line t ts f. place-divided m lines ns l line t ts e f (s.divided line t ts f);
    }

-- What is allowed by the setting.
record IsAllowed (lines : List (List ℕ)) (allow : Bool) (l : Lines) : Type 0 where
  safe : allow ≡ false → AreSafe l.safe
  member :
      (line t : List ℕ) (ts : List (List ℕ))
      → split line ≡ some (t ∷ ts)
      → has_line line l.safe ≡ (has_line line lines && (not (any_risky (t ∷ ts)) || allow))

effective-IsAllowed :
    (lines : List (List ℕ)) (allow : Bool) (k : Lines)
    → IsSorted lines k
    → IsAllowed lines allow (effective allow k)
effective-IsAllowed lines true k s = record {
  safe = λ e. cc;
  member = λ line t ts e. ground (
    arith,
    has_line-append line k.safe k.flagged,
    (s.divided line t ts e).0,
    (s.divided line t ts e).1,
  );
}
effective-IsAllowed lines false k s = record {
  safe = λ e. s.safe;
  member = λ line t ts e. ground (arith, (s.divided line t ts e).0);
}

effective_requirements-IsAllowed :
    (security : Fields) (lines : List (List ℕ)) (l : Lines)
    → effective_requirements security lines ≡ some l
    → IsAllowed lines (allow_untrusted security) l
unfolding effective_requirements
effective_requirements-IsAllowed security lines l h =
    given (filter_risky_requirement_lines lines) (filter-AllSorted lines) (allow_untrusted security)
      h
  where
    given :
        (o : Option Lines)
        → AllSorted lines o
        → (b : Bool) → with_setting b o ≡ some l
        → IsAllowed lines b l
    given none s b h = cc
    given (some k) s b h =
        let same : effective b k ≡ l = cc in
        subst (IsAllowed lines b) same (effective-IsAllowed lines b k s)

-- Unless flagged dependencies are allowed in the configuration, every requirement line that pip is
-- given can be split into tokens, of which none is: an argument that starts with one of the eight
-- schemes of repositories and URLs, in letters of any case, or that holds an `@` and a `://`; one of
-- the seven source options with such a text behind a `=`; or `-e`, `-f` or `-i` with such a text
-- attached that holds no `=`.
pub effective_requirements-AreSafe :
    (security : Fields) (lines : List (List ℕ)) (l : Lines)
    → effective_requirements security lines ≡ some l
    → allow_untrusted security ≡ false
    → AreSafe l.safe
effective_requirements-AreSafe security lines l h a =
    (effective_requirements-IsAllowed security lines l h).safe a

-- A line with tokens is among the requirement lines that pip is given exactly if it is one of the lines
-- that were read and no token of it is flagged, or flagged dependencies are allowed.
effective_requirements-allowed :
    (security : Fields) (lines : List (List ℕ)) (l : Lines) (line t : List ℕ) (ts : List (List ℕ))
    → effective_requirements security lines ≡ some l
    → split line ≡ some (t ∷ ts)
    → has_line line l.safe
      ≡ (has_line line lines && (not (any_risky (t ∷ ts)) || allow_untrusted security))
effective_requirements-allowed security lines l line t ts h e =
    (effective_requirements-IsAllowed security lines l h).member line t ts e
