-- ===== src/Database/Collected.antt =====
-- The well-formedness of the snapshot that `_collect_node_name_snapshot` takes
-- (src/mmrelay/db_utils.py), whatever the nodes hold.
pub mod Sorting
pub mod Loop
pub mod Covering
use meshtastic_matrix_relay.Base.{
  ◌≡◌, refl, sym, ap, ◌∙◌, arith, String, Bool, true, false, not, Option, none, some, List, [], ◌∷◌,
  str_eq, eq_iff, if◌then◌else◌, ◌&&◌, is_some, Bool-cases, inl, inr,
}
use meshtastic_matrix_relay.Py.{
  Value, null, bool, int, float, str, list, tuple, set, dict, obj, Fields, end, field, get,
  contains, codes,
}
use meshtastic_matrix_relay.Database.Snapshot.{
  NodeNameEntry, NodeNameState, Snapshot, Merged, value, conflict, resolved, entry, find_entry,
  put_entry, pop_entry, skip_id, merge_entry, merge_node_name_values, place_entry, add_names,
  add_id, normalize_node_name_value, usable_id, is_malformed, collect_names, collect_user,
  collect_node, collect_nodes, codes_before, insert_entry, sort_entries, sorted, empty_snapshot,
  collect_node_name_snapshot,
}
use meshtastic_matrix_relay.Database.Committed.{IsKeyed}

-- A name that is known is not empty.
abbrev pub IsName : Option String → Type 0
IsName none = Unit
IsName (some v) = str_eq v "" ≡ false

pub record IsEntry (ids : List String) (e : NodeNameEntry) : Type 0 where
  pub current : contains e.meshtastic_id ids ≡ true
  pub long : IsName e.long_name
  pub short : IsName e.short_name

abbrev pub AllEntries : List String → NodeNameState → Type 0
AllEntries ids [] = Unit
AllEntries ids (e ∷ state) = IsEntry ids e × AllEntries ids state

pub record IsNormal (s : Snapshot) : Type 0 where
  pub keyed : IsKeyed s.state_by_id
  pub entries : AllEntries s.current_ids s.state_by_id

pub find_entry-put_entry :
    (k : String) (e : NodeNameEntry) (l : NodeNameState)
    → find_entry k (put_entry e l) ≡ (if str_eq k e.meshtastic_id then some e else find_entry k l)
unfolding find_entry put_entry
find_entry-put_entry k e [] = refl
find_entry-put_entry k e (f ∷ l) = ground (
  arith,
  eq_iff k e.meshtastic_id,
  eq_iff k f.meshtastic_id,
  eq_iff e.meshtastic_id f.meshtastic_id,
  find_entry-put_entry k e l,
)

pub put_entry-IsKeyed :
    (e : NodeNameEntry) (l : NodeNameState) → IsKeyed l → IsKeyed (put_entry e l)
unfolding find_entry put_entry
put_entry-IsKeyed e [] d = (refl, tt)
put_entry-IsKeyed e (f ∷ l) d = ground (
  arith,
  eq_iff e.meshtastic_id f.meshtastic_id,
  eq_iff f.meshtastic_id e.meshtastic_id,
  find_entry-put_entry f.meshtastic_id e l,
  put_entry-IsKeyed e l,
)

put_entry-AllEntries :
    (ids : List String) (e : NodeNameEntry) (l : NodeNameState)
    → IsEntry ids e
    → AllEntries ids l
    → AllEntries ids (put_entry e l)
unfolding put_entry
put_entry-AllEntries ids e [] h a = (h, tt)
put_entry-AllEntries ids e (f ∷ l) h a =
    elim (Bool-cases (str_eq e.meshtastic_id f.meshtastic_id)) [
      | inl same ↦ rw same (h, a.1)
      | inr other ↦ rw other (a.0, put_entry-AllEntries ids e l h a.1)
    ]

pub absent-pop_entry :
    (k j : String) (l : NodeNameState) → find_entry k l ≡ none → find_entry k (pop_entry j l) ≡ none
unfolding find_entry pop_entry
absent-pop_entry k j [] h = refl
absent-pop_entry k j (f ∷ l) h = ground (arith, absent-pop_entry k j l)

pub pop_entry-IsKeyed : (j : String) (l : NodeNameState) → IsKeyed l → IsKeyed (pop_entry j l)
unfolding find_entry pop_entry
pop_entry-IsKeyed j [] d = d
pop_entry-IsKeyed j (f ∷ l) d =
    ground (arith, absent-pop_entry f.meshtastic_id j l, pop_entry-IsKeyed j l)

pop_entry-AllEntries :
    (ids : List String) (j : String) (l : NodeNameState)
    → AllEntries ids l
    → AllEntries ids (pop_entry j l)
unfolding pop_entry
pop_entry-AllEntries ids j [] a = a
pop_entry-AllEntries ids j (f ∷ l) a = elim (Bool-cases (str_eq j f.meshtastic_id)) [
  | inl same ↦ rw same a.1
  | inr other ↦ rw other (a.0, pop_entry-AllEntries ids j l a.1)
]

-- What was current stays so when an id is added.
pub add_id-AllEntries :
    (k : String) (ids : List String) (l : NodeNameState)
    → AllEntries ids l
    → AllEntries (add_id k ids) l
add_id-AllEntries k ids [] a = a
add_id-AllEntries k ids (e ∷ l) a = (
  record { current = ground (arith, a.0.current); long = a.0.long; short = a.0.short },
  add_id-AllEntries k ids l a.1,
)

pub normalize-IsName : (v : Value) → IsName (normalize_node_name_value v)
unfolding normalize_node_name_value
normalize-IsName (str s) = elim (Bool-cases (str_eq s "")) [
  | inl blank ↦ rw blank tt
  | inr filled ↦ rw filled filled
]
normalize-IsName null = tt
normalize-IsName (bool _) = tt
normalize-IsName (int _) = tt
normalize-IsName (float _) = tt
normalize-IsName (list _) = tt
normalize-IsName (tuple _) = tt
normalize-IsName (set _) = tt
normalize-IsName (dict _) = tt
normalize-IsName (obj _ _) = tt

pub merged-IsName :
    (v w : Option String) → IsName v → IsName w → IsName (resolved (merge_node_name_values v w))
unfolding merge_node_name_values
merged-IsName none w p q = q
merged-IsName (some a) none p q = p
merged-IsName (some a) (some b) p q = elim (Bool-cases (str_eq a b)) [
  | inl same ↦ rw same p
  | inr other ↦ rw other tt
]

pub set-IsNormal :
    (s : Snapshot) (e : NodeNameEntry) (complete : Bool)
    → IsNormal s
    → IsEntry s.current_ids e
    → IsNormal (record s { state_by_id = put_entry e s.state_by_id; complete = complete })
set-IsNormal s e complete n h = record {
  keyed = put_entry-IsKeyed e s.state_by_id n.keyed;
  entries = put_entry-AllEntries s.current_ids e s.state_by_id h n.entries;
}

skip-IsNormal : (k : String) (s : Snapshot) → IsNormal s → IsNormal (skip_id k s)
skip-IsNormal k s n = record {
  keyed = pop_entry-IsKeyed k s.state_by_id n.keyed;
  entries = pop_entry-AllEntries s.current_ids k s.state_by_id n.entries;
}

-- An entry with one name in conflict, or with none left.
partial-IsNormal :
    (k : String) (long short : Option String) (s : Snapshot)
    → IsNormal s
    → contains k s.current_ids ≡ true
    → IsName long
    → IsName short
    → IsNormal (
        if is_some long
        then record s {
          state_by_id = put_entry (entry k long short) s.state_by_id;
          complete = false;
        }
        else if is_some short
        then record s {
          state_by_id = put_entry (entry k long short) s.state_by_id;
          complete = false;
        }
        else skip_id k s)
partial-IsNormal k (some v) short s n c p q =
    set-IsNormal s (entry k (some v) short) false n (record { current = c; long = p; short = q })
partial-IsNormal k none (some w) s n c p q =
    set-IsNormal s (entry k none (some w)) false n (record { current = c; long = p; short = q })
partial-IsNormal k none none s n c p q = skip-IsNormal k s n

pub merge_entry-IsNormal :
    (k : String) (long short : Merged) (s : Snapshot)
    → IsNormal s
    → contains k s.current_ids ≡ true
    → IsName (resolved long)
    → IsName (resolved short)
    → IsNormal (merge_entry k long short s)
unfolding merge_entry
merge_entry-IsNormal k conflict conflict s n c p q = skip-IsNormal k s n
merge_entry-IsNormal k (value v) (value w) s n c p q =
    set-IsNormal s (entry k v w) s.complete n (record { current = c; long = p; short = q })
merge_entry-IsNormal k conflict (value w) s n c p q = partial-IsNormal k none w s n c p q
merge_entry-IsNormal k (value v) conflict s n c p q = partial-IsNormal k v none s n c p q

pub found-IsEntry :
    (ids : List String) (k : String) (l : NodeNameState) (e : NodeNameEntry)
    → AllEntries ids l
    → find_entry k l ≡ some e
    → IsName e.long_name × IsName e.short_name
unfolding find_entry
found-IsEntry ids k [] e a h = cc
found-IsEntry ids k (f ∷ l) e a h = ground (arith, a.0.long, a.0.short, found-IsEntry ids k l e a.1)
