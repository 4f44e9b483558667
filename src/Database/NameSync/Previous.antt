-- ===== src/Database/NameSync/Previous.antt =====
-- The merging of an incomplete snapshot with the previous state (`sync_name_tables_if_changed`,
-- src/mmrelay/db_utils.py) makes no id stand twice.
use meshtastic_matrix_relay.Base.{
  ◌≡◌, refl, arith, String, Bool, true, false, Option, none, some, [], ◌∷◌, eq_iff,
}
use meshtastic_matrix_relay.Database.Snapshot.{
  NodeNameEntry, NodeNameState, find_entry, put_entry, pop_entry,
}
use meshtastic_matrix_relay.Database.NameSync.{merge_with, by_id, merge_entries, settled_state}
use meshtastic_matrix_relay.Database.Committed.{IsKeyed}
use meshtastic_matrix_relay.Database.Collected.{
  put_entry-IsKeyed, pop_entry-IsKeyed, absent-pop_entry,
}
use meshtastic_matrix_relay.Database.Collected.Sorting.{sort_entries-IsKeyed}

by_id-IsKeyed : (state found : NodeNameState) → IsKeyed found → IsKeyed (by_id state found)
unfolding by_id
by_id-IsKeyed [] found d = d
by_id-IsKeyed (e ∷ state) found d =
    by_id-IsKeyed state (put_entry e found) (put_entry-IsKeyed e found d)

popped : (k : String) (l : NodeNameState) → IsKeyed l → find_entry k (pop_entry k l) ≡ none
unfolding find_entry pop_entry
popped k [] d = refl
popped k (f ∷ l) d = ground (arith, eq_iff k f.meshtastic_id, popped k l)

merge_with-id :
    (e : NodeNameEntry) (o : Option NodeNameEntry)
    → (merge_with e o).meshtastic_id ≡ e.meshtastic_id
merge_with-id e none = refl
merge_with-id e (some prev) = refl

absent-merge_entries :
    (k : String) (state previous : NodeNameState)
    → find_entry k state ≡ none
    → find_entry k previous ≡ none
    → find_entry k (merge_entries state previous) ≡ none
unfolding find_entry merge_entries
absent-merge_entries k [] previous h p = p
absent-merge_entries k (e ∷ state) previous h p = ground (
  arith,
  merge_with-id e (find_entry e.meshtastic_id previous),
  absent-merge_entries k state (pop_entry e.meshtastic_id previous),
  absent-pop_entry k e.meshtastic_id previous p,
)

merge_entries-IsKeyed :
    (state previous : NodeNameState)
    → IsKeyed state
    → IsKeyed previous
    → IsKeyed (merge_entries state previous)
unfolding merge_entries
merge_entries-IsKeyed [] previous d p = p
merge_entries-IsKeyed (e ∷ state) previous d p = (
  rw (merge_with-id e (find_entry e.meshtastic_id previous)) (
      absent-merge_entries e.meshtastic_id state (pop_entry e.meshtastic_id previous) d.0
        (popped e.meshtastic_id previous p)),
  merge_entries-IsKeyed state (pop_entry e.meshtastic_id previous) d.1
      (pop_entry-IsKeyed e.meshtastic_id previous p),
)

pub settled_state-IsKeyed :
    (complete : Bool) (state : NodeNameState) (previous : Option NodeNameState)
    → IsKeyed state
    → IsKeyed (settled_state complete state previous)
unfolding settled_state
settled_state-IsKeyed true state previous d = d
settled_state-IsKeyed false state none d = d
settled_state-IsKeyed false state (some previous) d =
    sort_entries-IsKeyed (merge_entries state (by_id previous []))
      (merge_entries-IsKeyed state (by_id previous []) d (by_id-IsKeyed previous [] tt))
