-- ===== src/Database/FirstSync.antt =====
-- The first synchronisation after a start (`sync_name_tables_if_changed` with no previous state,
-- src/mmrelay/db_utils.py), from the nodes to the tables.
use meshtastic_matrix_relay.Base.{
  ◌≡◌, refl, ap, ◌∙◌, arith, String, Bool, true, false, not, Option, none, some, List, [], ◌∷◌,
  if◌then◌else◌, ◌&&◌, is_some, eq_iff, Option-cases, inl, inr,
}
use meshtastic_matrix_relay.Py.{Value, dict, Fields, field, contains}
use meshtastic_matrix_relay.Database.Runtime.{Conn}
use meshtastic_matrix_relay.Database.NameTables.{NameTable, table_rows, name_of}
use meshtastic_matrix_relay.Database.Snapshot.{
  NodeNameEntry, NodeNameState, Snapshot, find_entry, collect_node_name_snapshot,
  build_node_name_state,
}
use meshtastic_matrix_relay.Database.NameSync.{
  name_in, sync_name_tables_atomic, settled_state, outcome, apply_state, sync_changed,
  sync_collected, sync_name_tables_if_changed,
}
use meshtastic_matrix_relay.Database.Committed.{
  IsKeyed, entry_after, sync_name_tables_atomic-synced,
}
use meshtastic_matrix_relay.Database.Collected.{AllEntries}
use meshtastic_matrix_relay.Database.Collected.Loop.{collect_node_name_snapshot-IsNormal}
use meshtastic_matrix_relay.Database.Collected.Covering.{collect_node_name_snapshot-Covers}

-- The name that a state shows for an id, if it has any.
abbrev pub shown : NameTable → Option NodeNameEntry → Option String
shown nt none = none
shown nt (some e) = name_in nt e

found-current :
    (ids : List String) (state : NodeNameState) (j : String)
    → AllEntries ids state
    → is_some (find_entry j state) ≡ true
    → contains j ids ≡ true
unfolding find_entry
found-current ids [] j a h = cc
found-current ids (e ∷ state) j a h =
    ground (arith, eq_iff j e.meshtastic_id, a.0.current, found-current ids state j a.1)

exact :
    (nt : NameTable) (o : Option NodeNameEntry) (listed : Bool) (stored : Option String)
    → (is_some o ≡ true → listed ≡ true)
    → (listed ≡ true → is_some o ≡ true)
    → (if true && not listed then none else entry_after true nt o stored) ≡ shown nt o
exact nt none true stored p q = cc (q refl)
exact nt none false stored p q = refl
exact nt (some e) false stored p q = cc (p refl)
exact nt (some e) true stored p q = elim (Option-cases (name_in nt e)) [
  | inl unknown ↦ ground (arith, unknown)
  | inr (v, known) ↦ ground (arith, known)
]

outcome_parts :
    (state : NodeNameState) (ids : List String) (r : Bool × Conn)
    → (is_some (outcome state ids true none r).0 ≡ r.0) × ((outcome state ids true none r).1 ≡ r.1)
outcome_parts state ids (true, c) = (refl, refl)
outcome_parts state ids (false, c) = (refl, refl)

applied :
    (s : Snapshot) (complete : Bool) (c : Conn)
    → s.complete ≡ complete
    → complete ≡ true
    → IsKeyed s.state_by_id
    → ((j : String) → is_some (find_entry j s.state_by_id) ≡ true → contains j s.current_ids ≡ true)
    → ((j : String) → contains j s.current_ids ≡ true → is_some (find_entry j s.state_by_id) ≡ true)
    → (nt : NameTable) (j : String)
    → name_of j (table_rows nt (sync_collected s none c).1.tables) ≡ (
        if is_some (sync_collected s none c).0
        then shown nt (find_entry j s.state_by_id)
        else name_of j (table_rows nt c.tables))
unfolding sync_collected sync_changed apply_state settled_state
applied s false c e h keyed listed covered nt j = cc
applied s true c e h keyed listed covered nt j =
    let r = sync_name_tables_atomic s.state_by_id s.current_ids true c in
    rw e (
      rw
        (
          (outcome_parts s.state_by_id s.current_ids r).0,
          (outcome_parts s.state_by_id s.current_ids r).1,
        )
        (sync_name_tables_atomic-synced s.state_by_id s.current_ids true c keyed nt j
          ∙ ap (λ v. if r.0 then v else name_of j (table_rows nt c.tables))
              (exact nt (find_entry j s.state_by_id) (contains j s.current_ids)
                (name_of j (table_rows nt c.tables)) (listed j) (covered j))))

-- The first synchronisation with a complete snapshot makes both tables the snapshot: where it
-- returns a state, an id has exactly the name that the state shows for it, and none if it shows
-- none, whatever was stored; where it returns none, because of a database error anywhere in the
-- transaction, every name is as it was stored.
pub first_sync-exact :
    (key : String) (node_row : Value) (nodes : Fields) (c : Conn)
    → (collect_node_name_snapshot (dict (field key node_row nodes))).complete ≡ true
    → (nt : NameTable) (j : String)
    → name_of j (
        table_rows nt
          (sync_name_tables_if_changed (dict (field key node_row nodes)) none c).1.tables)
      ≡ (if is_some (sync_name_tables_if_changed (dict (field key node_row nodes)) none c).0
          then shown nt (find_entry j (build_node_name_state (dict (field key node_row nodes))))
          else name_of j (table_rows nt c.tables))
unfolding sync_name_tables_if_changed build_node_name_state
first_sync-exact key node_row nodes c h nt j =
    let s = collect_node_name_snapshot (dict (field key node_row nodes)) in
    let n = collect_node_name_snapshot-IsNormal (dict (field key node_row nodes)) in
    applied s _ c refl h n.keyed (λ i. found-current s.current_ids s.state_by_id i n.entries)
      (λ i. collect_node_name_snapshot-Covers (field key node_row nodes) h i) nt j
