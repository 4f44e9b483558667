-- ===== src/Database/Collected/Covering.antt =====
-- In a complete snapshot (`_collect_node_name_snapshot`, src/mmrelay/db_utils.py) every current id
-- has its entry.
use meshtastic_matrix_relay.Base.{
  ◌≡◌, refl, ap, ◌∙◌, arith, String, Bool, true, false, not, Option, none, some, List, str_eq, ◌&&◌,
  is_some, Bool-cases, inl, inr,
}
use meshtastic_matrix_relay.Py.{
  Value, null, bool, int, float, str, list, tuple, set, dict, obj, Fields, end, field, get,
  contains,
}
use meshtastic_matrix_relay.Database.Snapshot.{
  NodeNameEntry, Snapshot, Merged, value, conflict, entry, find_entry, put_entry, merge_entry,
  merge_node_name_values, place_entry, add_names, add_id, normalize_node_name_value, usable_id,
  is_malformed, collect_names, collect_user, collect_node, collect_nodes, empty_snapshot,
  collect_node_name_snapshot,
}
use meshtastic_matrix_relay.Database.Collected.{find_entry-put_entry}
use meshtastic_matrix_relay.Database.Collected.Sorting.{find_entry-sort_entries}
use meshtastic_matrix_relay.Database.Collected.Loop.{collect_nodes-IsNormal, empty-IsNormal}

-- Each current id but `k` has an entry, as long as the snapshot is complete.
abbrev CoversBut : String → Snapshot → Type 0
CoversBut k s =
    s.complete ≡ true
    → (j : String) → str_eq j k ≡ false
    → contains j s.current_ids ≡ true
    → is_some (find_entry j s.state_by_id) ≡ true

abbrev pub Covers : Snapshot → Type 0
Covers s =
    s.complete ≡ true
    → (j : String) → contains j s.current_ids ≡ true
    → is_some (find_entry j s.state_by_id) ≡ true

partial-Covers : (s : Snapshot) → s.complete ≡ false → Covers s
partial-Covers s h c j m = cc

set-Covers :
    (s : Snapshot) (e : NodeNameEntry)
    → CoversBut e.meshtastic_id s
    → Covers (record s { state_by_id = put_entry e s.state_by_id })
set-Covers s e h c j m = elim (Bool-cases (str_eq j e.meshtastic_id)) [
  | inl same ↦ ground (arith, find_entry-put_entry j e s.state_by_id)
  | inr other ↦ ground (arith, find_entry-put_entry j e s.state_by_id, h c j other m)
]

merge_entry-Covers :
    (k : String) (long short : Merged) (s : Snapshot)
    → CoversBut k s
    → Covers (merge_entry k long short s)
unfolding merge_entry
merge_entry-Covers k (value v) (value w) s h = set-Covers s (entry k v w) h
merge_entry-Covers k conflict conflict s h = partial-Covers (merge_entry k conflict conflict s) refl
merge_entry-Covers k conflict (value none) s h =
    partial-Covers (merge_entry k conflict (value none) s) refl
merge_entry-Covers k conflict (value (some w)) s h =
    partial-Covers (merge_entry k conflict (value (some w)) s) refl
merge_entry-Covers k (value none) conflict s h =
    partial-Covers (merge_entry k (value none) conflict s) refl
merge_entry-Covers k (value (some v)) conflict s h =
    partial-Covers (merge_entry k (value (some v)) conflict s) refl

place_entry-Covers :
    (k : String) (long short : Option String) (s : Snapshot) (o : Option NodeNameEntry)
    → CoversBut k s
    → Covers (place_entry k long short s o)
unfolding place_entry
place_entry-Covers k long short s none h = set-Covers s (entry k long short) h
place_entry-Covers k long short s (some e) h =
    merge_entry-Covers k (merge_node_name_values e.long_name long)
      (merge_node_name_values e.short_name short) s h

and_left : (a b c : Bool) → (a && b && c) ≡ true → a ≡ true
and_left a b c h = ground arith

added :
    (j k : String) (ids : List String)
    → str_eq j k ≡ false
    → contains j (add_id k ids) ≡ true
    → contains j ids ≡ true
added j k ids other m = ground arith

collect_names-Covers :
    (raw_long raw_short : Value) (s : Snapshot) (o : Option String)
    → Covers s
    → Covers (collect_names raw_long raw_short s o)
unfolding collect_names add_names
collect_names-Covers raw_long raw_short s none h =
    partial-Covers (record s { complete = false }) refl
collect_names-Covers raw_long raw_short s (some k) h =
    elim (Bool-cases (contains k s.skipped_ids)) [
      | inl skipped ↦ rw skipped h
      | inr taken ↦ rw taken (
          place_entry-Covers k (normalize_node_name_value raw_long)
            (normalize_node_name_value raw_short) _ _
            (λ c j other m.
              h (and_left s.complete (not (is_malformed raw_long)) (not (is_malformed raw_short)) c)
                j (added j k s.current_ids other m)))
    ]

collect_user-Covers : (v : Value) (s : Snapshot) → Covers s → Covers (collect_user v s)
unfolding collect_user
collect_user-Covers (dict user) s h =
    collect_names-Covers (get user "longName" null) (get user "shortName" null) s
      (usable_id (get user "id" null)) h
collect_user-Covers null s h = partial-Covers (record s { complete = false }) refl
collect_user-Covers (bool _) s h = partial-Covers (record s { complete = false }) refl
collect_user-Covers (int _) s h = partial-Covers (record s { complete = false }) refl
collect_user-Covers (float _) s h = partial-Covers (record s { complete = false }) refl
collect_user-Covers (str _) s h = partial-Covers (record s { complete = false }) refl
collect_user-Covers (list _) s h = partial-Covers (record s { complete = false }) refl
collect_user-Covers (tuple _) s h = partial-Covers (record s { complete = false }) refl
collect_user-Covers (set _) s h = partial-Covers (record s { complete = false }) refl
collect_user-Covers (obj _ _) s h = partial-Covers (record s { complete = false }) refl

collect_node-Covers : (v : Value) (s : Snapshot) → Covers s → Covers (collect_node v s)
unfolding collect_node
collect_node-Covers (dict node_row) s h = collect_user-Covers (get node_row "user" null) s h
collect_node-Covers null s h = partial-Covers (record s { complete = false }) refl
collect_node-Covers (bool _) s h = partial-Covers (record s { complete = false }) refl
collect_node-Covers (int _) s h = partial-Covers (record s { complete = false }) refl
collect_node-Covers (float _) s h = partial-Covers (record s { complete = false }) refl
collect_node-Covers (str _) s h = partial-Covers (record s { complete = false }) refl
collect_node-Covers (list _) s h = partial-Covers (record s { complete = false }) refl
collect_node-Covers (tuple _) s h = partial-Covers (record s { complete = false }) refl
collect_node-Covers (set _) s h = partial-Covers (record s { complete = false }) refl
collect_node-Covers (obj _ _) s h = partial-Covers (record s { complete = false }) refl

collect_nodes-Covers : (nodes : Fields) (s : Snapshot) → Covers s → Covers (collect_nodes nodes s)
unfolding collect_nodes
collect_nodes-Covers end s h = h
collect_nodes-Covers (field _ node_row nodes) s h =
    collect_nodes-Covers nodes (collect_node node_row s) (collect_node-Covers node_row s h)

-- Every current id of a complete snapshot has its entry.
pub collect_node_name_snapshot-Covers :
    (nodes : Fields) → Covers (collect_node_name_snapshot (dict nodes))
unfolding collect_node_name_snapshot
collect_node_name_snapshot-Covers nodes c j m =
    let s = collect_nodes nodes (empty_snapshot true) in
    ap is_some (
      find_entry-sort_entries j s.state_by_id
        (collect_nodes-IsNormal nodes (empty_snapshot true) (empty-IsNormal true)).keyed)
    ∙ collect_nodes-Covers nodes (empty_snapshot true) (λ _ i h. cc) c j m
