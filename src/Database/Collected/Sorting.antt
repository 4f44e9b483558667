-- ===== src/Database/Collected/Sorting.antt =====
-- The sort by id at the end of `_collect_node_name_snapshot` (src/mmrelay/db_utils.py).
use meshtastic_matrix_relay.Base.{
  ◌≡◌, refl, ap, ◌∙◌, arith, String, none, some, List, [], ◌∷◌, str_eq, eq_iff, if◌then◌else◌,
  Bool-cases, inl, inr,
}
use meshtastic_matrix_relay.Py.{codes}
use meshtastic_matrix_relay.Database.Snapshot.{
  NodeNameEntry, NodeNameState, find_entry, codes_before, insert_entry, sort_entries,
}
use meshtastic_matrix_relay.Database.Committed.{IsKeyed}
use meshtastic_matrix_relay.Database.Collected.{IsEntry, AllEntries}

find_entry-insert_entry :
    (k : String) (e : NodeNameEntry) (l : NodeNameState)
    → find_entry e.meshtastic_id l ≡ none
    → find_entry k (insert_entry e l)
      ≡ (if str_eq k e.meshtastic_id then some e else find_entry k l)
unfolding find_entry insert_entry
find_entry-insert_entry k e [] h = refl
find_entry-insert_entry k e (f ∷ l) h = ground (
  arith,
  eq_iff k e.meshtastic_id,
  eq_iff k f.meshtastic_id,
  eq_iff e.meshtastic_id f.meshtastic_id,
  find_entry-insert_entry k e l,
)

insert_entry-IsKeyed :
    (e : NodeNameEntry) (l : NodeNameState)
    → find_entry e.meshtastic_id l ≡ none
    → IsKeyed l
    → IsKeyed (insert_entry e l)
unfolding find_entry insert_entry
insert_entry-IsKeyed e [] h d = (refl, tt)
insert_entry-IsKeyed e (f ∷ l) h d = ground (
  arith,
  eq_iff e.meshtastic_id f.meshtastic_id,
  eq_iff f.meshtastic_id e.meshtastic_id,
  find_entry-insert_entry f.meshtastic_id e l,
  insert_entry-IsKeyed e l,
)

insert_entry-AllEntries :
    (ids : List String) (e : NodeNameEntry) (l : NodeNameState)
    → IsEntry ids e
    → AllEntries ids l
    → AllEntries ids (insert_entry e l)
unfolding insert_entry
insert_entry-AllEntries ids e [] h a = (h, tt)
insert_entry-AllEntries ids e (f ∷ l) h a =
    elim (Bool-cases (codes_before (codes f.meshtastic_id) (codes e.meshtastic_id))) [
      | inl before ↦ rw before (a.0, insert_entry-AllEntries ids e l h a.1)
      | inr after ↦ rw after (h, a)
    ]

-- Sorting changes no entry of a state that holds no id twice.
pub find_entry-sort_entries :
    (k : String) (l : NodeNameState) → IsKeyed l → find_entry k (sort_entries l) ≡ find_entry k l
unfolding find_entry sort_entries
find_entry-sort_entries k [] d = refl
find_entry-sort_entries k (e ∷ l) d =
    find_entry-insert_entry k e (sort_entries l)
      (find_entry-sort_entries e.meshtastic_id l d.1 ∙ d.0)
    ∙ ap (λ r. if str_eq k e.meshtastic_id then some e else r) (find_entry-sort_entries k l d.1)

pub sort_entries-IsKeyed : (l : NodeNameState) → IsKeyed l → IsKeyed (sort_entries l)
unfolding sort_entries
sort_entries-IsKeyed [] d = d
sort_entries-IsKeyed (e ∷ l) d =
    insert_entry-IsKeyed e (sort_entries l) (find_entry-sort_entries e.meshtastic_id l d.1 ∙ d.0)
      (sort_entries-IsKeyed l d.1)

pub sort_entries-AllEntries :
    (ids : List String) (l : NodeNameState) → AllEntries ids l → AllEntries ids (sort_entries l)
unfolding sort_entries
sort_entries-AllEntries ids [] a = a
sort_entries-AllEntries ids (e ∷ l) a =
    insert_entry-AllEntries ids e (sort_entries l) a.0 (sort_entries-AllEntries ids l a.1)
