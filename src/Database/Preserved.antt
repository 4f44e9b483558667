-- ===== src/Database/Preserved.antt =====
-- `sync_name_tables_if_changed` (src/mmrelay/db_utils.py) as a whole, on every path: what happens to
-- a stored name.
use meshtastic_matrix_relay.Base.{
  ◌≡◌, refl, arith, String, Bool, true, false, Option, none, some, List, if◌then◌else◌, is_some,
  Bool-cases, Option-cases, inl, inr,
}
use meshtastic_matrix_relay.Py.{
  Value, null, bool, int, float, str, list, tuple, set, dict, obj, end, field,
}
use meshtastic_matrix_relay.Database.Runtime.{Conn}
use meshtastic_matrix_relay.Database.NameTables.{NameTable, table_rows, name_of}
use meshtastic_matrix_relay.Database.Snapshot.{
  NodeNameEntry, NodeNameState, Snapshot, find_entry, collect_node_name_snapshot,
}
use meshtastic_matrix_relay.Database.NameSync.{
  name_in, sync_name_tables_atomic, name_tables_match_state, settled_state, same_state,
  is_empty_state, outcome, apply_state, repaired, repair, refresh, sync_changed, sync_collected,
  sync_name_tables_if_changed,
}
use meshtastic_matrix_relay.Database.NameSync.Reads.{name_tables_match_state-tables}
use meshtastic_matrix_relay.Database.NameSync.Previous.{settled_state-IsKeyed}
use meshtastic_matrix_relay.Database.Committed.{
  IsKeyed, entry_after, sync_name_tables_atomic-synced,
}
use meshtastic_matrix_relay.Database.Collected.Loop.{collect_node_name_snapshot-IsNormal}

abbrev has_name : NameTable → String → Conn → Bool
has_name nt j c = is_some (name_of j (table_rows nt c.tables))

outcome-tables :
    (state : NodeNameState) (ids : List String) (complete : Bool) (previous : Option NodeNameState)
    (r : Bool × Conn)
    → (outcome state ids complete previous r).1 ≡ r.1
outcome-tables state ids complete previous (true, c) = refl
outcome-tables state ids complete previous (false, c) = refl

kept_name :
    (state : NodeNameState) (ids : List String) (nt : NameTable) (done : Bool)
    (o : Option NodeNameEntry) (stored last : Option String)
    → last ≡ (if done then entry_after false nt o stored else stored)
    → is_some stored ≡ true
    → is_some last ≡ true
kept_name state ids nt false o stored last h p = ground arith
kept_name state ids nt true none stored last h p = ground arith
kept_name state ids nt true (some e) stored last h p = elim (Option-cases (name_in nt e)) [
  | inl unknown ↦ ground (arith, unknown)
  | inr (v, shown) ↦ ground (arith, shown)
]

module _ (state : NodeNameState) (ids : List String) (keyed : IsKeyed state) (nt : NameTable)
    (j : String) where
  apply_state-keeps :
      (previous : Option NodeNameState) (c : Conn)
      → has_name nt j c ≡ true
      → has_name nt j (apply_state state ids false previous c).1 ≡ true
  unfolding apply_state
  apply_state-keeps previous c p =
      rw (outcome-tables state ids false previous (sync_name_tables_atomic state ids false c)) (
        kept_name state ids nt (sync_name_tables_atomic state ids false c).0 (find_entry j state)
          (name_of j (table_rows nt c.tables)) _
          (sync_name_tables_atomic-synced state ids false c keyed nt j) p)

  repaired-keeps :
      (previous : Option NodeNameState) (r : Bool × Conn)
      → has_name nt j r.1 ≡ true
      → has_name nt j (repaired state ids false previous r).1 ≡ true
  repaired-keeps previous (true, c) p = p
  repaired-keeps previous (false, c) p = apply_state-keeps previous c p

  repair-keeps :
      (previous : Option NodeNameState) (c : Conn)
      → has_name nt j c ≡ true
      → has_name nt j (repair state ids false previous c).1 ≡ true
  unfolding repair
  repair-keeps previous c p =
      repaired-keeps previous (name_tables_match_state state c)
        (rw (name_tables_match_state-tables state c) p)

  sync_changed-keeps :
      (previous : Option NodeNameState) (c : Conn)
      → has_name nt j c ≡ true
      → has_name nt j (sync_changed state ids false previous c).1 ≡ true
  unfolding sync_changed refresh
  sync_changed-keeps none c p = apply_state-keeps none c p
  sync_changed-keeps (some old) c p = elim (Bool-cases (same_state state old)) [
    | inl same ↦ rw same (repair-keeps (some old) c p)
    | inr other ↦ rw other (apply_state-keeps (some old) c p)
  ]

sync_collected-keeps :
    (s : Snapshot) (complete : Bool) (previous : Option NodeNameState) (c : Conn)
    → IsKeyed s.state_by_id
    → s.complete ≡ complete
    → complete ≡ false
    → (nt : NameTable) (j : String) → has_name nt j c ≡ true
    → has_name nt j (sync_collected s previous c).1 ≡ true
unfolding sync_collected
sync_collected-keeps s true previous c keyed e h nt j p = cc
sync_collected-keeps s false previous c keyed e h nt j p =
    rw e (chosen (is_empty_state (settled_state false s.state_by_id previous)))
  where
    chosen :
        (blank : Bool)
        → has_name nt j
            (if blank
              then (previous, c)
              else sync_changed
                  (settled_state false s.state_by_id previous)
                  s.current_ids
                  false
                  previous
                  c).1
          ≡ true
    chosen true = p
    chosen false =
        sync_changed-keeps (settled_state false s.state_by_id previous) s.current_ids
          (settled_state-IsKeyed false s.state_by_id previous keyed) nt j previous c p

-- An incomplete snapshot (a node without a usable id, a name that is no text, or names in conflict)
-- never loses a stored name, whatever the nodes, the previous state and the database errors: after
-- the synchronisation each id that had a name has one still, in both tables.
pub sync_incomplete-keeps :
    (nodes : Value) (previous : Option NodeNameState) (c : Conn)
    → (collect_node_name_snapshot nodes).complete ≡ false
    → (nt : NameTable) (j : String) → is_some (name_of j (table_rows nt c.tables)) ≡ true
    → is_some (name_of j (table_rows nt (sync_name_tables_if_changed nodes previous c).1.tables))
      ≡ true
unfolding sync_name_tables_if_changed
sync_incomplete-keeps (dict end) previous c h nt j p = p
sync_incomplete-keeps (dict (field key node_row nodes)) previous c h nt j p =
    sync_collected-keeps (collect_node_name_snapshot (dict (field key node_row nodes))) _ previous c
      (collect_node_name_snapshot-IsNormal (dict (field key node_row nodes))).keyed refl h nt j p
sync_incomplete-keeps null previous c h nt j p = p
sync_incomplete-keeps (bool _) previous c h nt j p = p
sync_incomplete-keeps (int _) previous c h nt j p = p
sync_incomplete-keeps (float _) previous c h nt j p = p
sync_incomplete-keeps (str _) previous c h nt j p = p
sync_incomplete-keeps (list _) previous c h nt j p = p
sync_incomplete-keeps (tuple _) previous c h nt j p = p
sync_incomplete-keeps (set _) previous c h nt j p = p
sync_incomplete-keeps (obj _ _) previous c h nt j p = p
