-- ===== src/Database/Collected/Loop.antt =====
-- The loop of `_collect_node_name_snapshot` (src/mmrelay/db_utils.py) keeps its variables well formed.
use meshtastic_matrix_relay.Base.{
  ◌≡◌, refl, arith, String, Bool, true, false, Option, none, some, List, eq_iff, Bool-cases, inl,
  inr,
}
use meshtastic_matrix_relay.Py.{
  Value, null, bool, int, float, str, list, tuple, set, dict, obj, Fields, end, field, get,
  contains,
}
use meshtastic_matrix_relay.Database.Snapshot.{
  NodeNameEntry, Snapshot, entry, find_entry, merge_node_name_values, place_entry, add_names,
  add_id, normalize_node_name_value, usable_id, collect_names, collect_user, collect_node,
  collect_nodes, sorted, empty_snapshot, collect_node_name_snapshot,
}
use meshtastic_matrix_relay.Database.Collected.{
  IsName, IsNormal, add_id-AllEntries, normalize-IsName, merged-IsName, set-IsNormal,
  merge_entry-IsNormal, found-IsEntry,
}
use meshtastic_matrix_relay.Database.Collected.Sorting.{
  sort_entries-IsKeyed, sort_entries-AllEntries,
}

place_entry-IsNormal :
    (k : String) (long short : Option String) (s : Snapshot) (o : Option NodeNameEntry)
    → find_entry k s.state_by_id ≡ o
    → IsNormal s
    → contains k s.current_ids ≡ true
    → IsName long
    → IsName short
    → IsNormal (place_entry k long short s o)
unfolding place_entry
place_entry-IsNormal k long short s none found n c p q =
    set-IsNormal s (entry k long short) s.complete n (record { current = c; long = p; short = q })
place_entry-IsNormal k long short s (some e) found n c p q =
    let (p', q') = found-IsEntry s.current_ids k s.state_by_id e n.entries found in
    merge_entry-IsNormal k (merge_node_name_values e.long_name long)
      (merge_node_name_values e.short_name short) s n c (merged-IsName e.long_name long p' p)
      (merged-IsName e.short_name short q' q)

contains-add_id : (k : String) (ids : List String) → contains k (add_id k ids) ≡ true
contains-add_id k ids = ground (arith, eq_iff k k)

collect_names-IsNormal :
    (raw_long raw_short : Value) (s : Snapshot) (o : Option String)
    → IsNormal s
    → IsNormal (collect_names raw_long raw_short s o)
unfolding collect_names add_names
collect_names-IsNormal raw_long raw_short s none n = record { keyed = n.keyed; entries = n.entries }
collect_names-IsNormal raw_long raw_short s (some k) n =
    elim (Bool-cases (contains k s.skipped_ids)) [
      | inl skipped ↦ rw skipped n
      | inr taken ↦ rw taken (
          place_entry-IsNormal k (normalize_node_name_value raw_long)
            (normalize_node_name_value raw_short) _ _ refl
            (record {
              keyed = n.keyed;
              entries = add_id-AllEntries k s.current_ids s.state_by_id n.entries;
            })
            (contains-add_id k s.current_ids) (normalize-IsName raw_long)
            (normalize-IsName raw_short))
    ]

incomplete-IsNormal : (s : Snapshot) → IsNormal s → IsNormal (record s { complete = false })
incomplete-IsNormal s n = record { keyed = n.keyed; entries = n.entries }

collect_user-IsNormal : (v : Value) (s : Snapshot) → IsNormal s → IsNormal (collect_user v s)
unfolding collect_user
collect_user-IsNormal (dict user) s n =
    collect_names-IsNormal (get user "longName" null) (get user "shortName" null) s
      (usable_id (get user "id" null)) n
collect_user-IsNormal null s n = incomplete-IsNormal s n
collect_user-IsNormal (bool _) s n = incomplete-IsNormal s n
collect_user-IsNormal (int _) s n = incomplete-IsNormal s n
collect_user-IsNormal (float _) s n = incomplete-IsNormal s n
collect_user-IsNormal (str _) s n = incomplete-IsNormal s n
collect_user-IsNormal (list _) s n = incomplete-IsNormal s n
collect_user-IsNormal (tuple _) s n = incomplete-IsNormal s n
collect_user-IsNormal (set _) s n = incomplete-IsNormal s n
collect_user-IsNormal (obj _ _) s n = incomplete-IsNormal s n

collect_node-IsNormal : (v : Value) (s : Snapshot) → IsNormal s → IsNormal (collect_node v s)
unfolding collect_node
collect_node-IsNormal (dict node_row) s n = collect_user-IsNormal (get node_row "user" null) s n
collect_node-IsNormal null s n = incomplete-IsNormal s n
collect_node-IsNormal (bool _) s n = incomplete-IsNormal s n
collect_node-IsNormal (int _) s n = incomplete-IsNormal s n
collect_node-IsNormal (float _) s n = incomplete-IsNormal s n
collect_node-IsNormal (str _) s n = incomplete-IsNormal s n
collect_node-IsNormal (list _) s n = incomplete-IsNormal s n
collect_node-IsNormal (tuple _) s n = incomplete-IsNormal s n
collect_node-IsNormal (set _) s n = incomplete-IsNormal s n
collect_node-IsNormal (obj _ _) s n = incomplete-IsNormal s n

pub collect_nodes-IsNormal :
    (nodes : Fields) (s : Snapshot) → IsNormal s → IsNormal (collect_nodes nodes s)
unfolding collect_nodes
collect_nodes-IsNormal end s n = n
collect_nodes-IsNormal (field _ node_row nodes) s n =
    collect_nodes-IsNormal nodes (collect_node node_row s) (collect_node-IsNormal node_row s n)

pub empty-IsNormal : (complete : Bool) → IsNormal (empty_snapshot complete)
empty-IsNormal complete = record { keyed = tt; entries = tt }

sorted-IsNormal : (s : Snapshot) → IsNormal s → IsNormal (sorted s)
sorted-IsNormal s n = record {
  keyed = sort_entries-IsKeyed s.state_by_id n.keyed;
  entries = sort_entries-AllEntries s.current_ids s.state_by_id n.entries;
}

-- The snapshot of any value of `nodes`, malformed nodes, ids and names included, is well formed: its
-- state holds no id twice, the id of each of its entries is among the current ids, and no name in it
-- is empty.
pub collect_node_name_snapshot-IsNormal :
    (nodes : Value) → IsNormal (collect_node_name_snapshot nodes)
unfolding collect_node_name_snapshot
collect_node_name_snapshot-IsNormal (dict nodes) =
    sorted-IsNormal (collect_nodes nodes (empty_snapshot true))
      (collect_nodes-IsNormal nodes (empty_snapshot true) (empty-IsNormal true))
collect_node_name_snapshot-IsNormal null = empty-IsNormal false
collect_node_name_snapshot-IsNormal (bool _) = empty-IsNormal false
collect_node_name_snapshot-IsNormal (int _) = empty-IsNormal false
collect_node_name_snapshot-IsNormal (float _) = empty-IsNormal false
collect_node_name_snapshot-IsNormal (str _) = empty-IsNormal false
collect_node_name_snapshot-IsNormal (list _) = empty-IsNormal false
collect_node_name_snapshot-IsNormal (tuple _) = empty-IsNormal false
collect_node_name_snapshot-IsNormal (set _) = empty-IsNormal false
collect_node_name_snapshot-IsNormal (obj _ _) = empty-IsNormal false
