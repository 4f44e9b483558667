-- ===== src/Database/Committed.antt =====
-- What one synchronisation (`_sync_name_tables_atomic`, src/mmrelay/db_utils.py) does to each name,
-- against a description of the tables as functions from ids to names.
use meshtastic_matrix_relay.Base.{
  ◌≡◌, refl, sym, ap, ◌∙◌, arith, String, Bool, true, false, not, Option, none, some, List, [], ◌∷◌,
  str_eq, eq_iff, if◌then◌else◌, ◌&&◌, ◌⊎◌, inl, inr,
}
use meshtastic_matrix_relay.Py.{contains}
use meshtastic_matrix_relay.Database.Runtime.{
  Conn, Result, ok, sqlite_error, Cursor, ◌>>=◌, ◌>>◌, pure, execute, run_sync, >>=-eq-ok,
  committed, rolled_back,
}
use meshtastic_matrix_relay.Database.MessageMap.{swallowed}
use meshtastic_matrix_relay.Database.NameTables.{
  NameTable, longnames, shortnames, table_rows, name_of, upsert_name, delete_name, execute_upsert,
  execute_delete, delete_stale_names_core,
}
use meshtastic_matrix_relay.Database.NameTables.Rows.{
  same_table, name_of-set_names, name_of-upsert_name, name_of-delete_name,
  delete_stale_names_core-names,
}
use meshtastic_matrix_relay.Database.Snapshot.{NodeNameEntry, NodeNameState, find_entry}
use meshtastic_matrix_relay.Database.NameSync.{
  sync_name, sync_entries, prune_both, sync_both, sync_name_tables_atomic, name_in,
}

-- No id twice.
abbrev pub IsKeyed : NodeNameState → Type 0
IsKeyed [] = Unit
IsKeyed (e ∷ state) = (find_entry e.meshtastic_id state ≡ none) × IsKeyed state

-- What becomes of a stored name where the snapshot shows `shown` for it.
abbrev pub name_after : Bool → Option String → Option String → Option String
name_after complete (some v) stored = some v
name_after complete none stored = if complete then none else stored

abbrev pub entry_after : Bool → NameTable → Option NodeNameEntry → Option String → Option String
entry_after complete nt none stored = stored
entry_after complete nt (some e) stored = name_after complete (name_in nt e) stored

-- The specification: a stored name after the snapshot.
abbrev pub synced :
    NodeNameState → List String → Bool → NameTable → String → Option String → Option String
synced state current_ids complete nt j stored =
    if complete && not (contains j current_ids)
    then none
    else entry_after complete nt (find_entry j state) stored

execute_upsert-names :
    (nt table : NameTable) (j k v : String) (c : Conn)
    → (execute_upsert table k v c).0 ≡ ok tt
    → name_of j (table_rows nt (execute_upsert table k v c).1.tables)
      ≡ (if same_table nt table && str_eq j k then some v else name_of j (table_rows nt c.tables))
unfolding execute_upsert execute
execute_upsert-names nt table j k v c h = ground (
  arith,
  name_of-set_names nt table j (upsert_name k v) c.tables,
  name_of-upsert_name j k v (table_rows nt c.tables),
)

execute_delete-names :
    (nt table : NameTable) (j k : String) (c : Conn)
    → (execute_delete table k c).0 ≡ ok tt
    → name_of j (table_rows nt (execute_delete table k c).1.tables)
      ≡ (if same_table nt table && str_eq j k then none else name_of j (table_rows nt c.tables))
unfolding execute_delete execute
execute_delete-names nt table j k c h = ground (
  arith,
  name_of-set_names nt table j (delete_name k) c.tables,
  name_of-delete_name j k (table_rows nt c.tables),
)

sync_name-names :
    (complete : Bool) (nt table : NameTable) (j k : String) (shown : Option String) (c : Conn)
    → (sync_name complete table k shown c).0 ≡ ok tt
    → name_of j (table_rows nt (sync_name complete table k shown c).1.tables) ≡ (
        if same_table nt table && str_eq j k
        then name_after complete shown (name_of j (table_rows nt c.tables))
        else name_of j (table_rows nt c.tables))
unfolding sync_name
sync_name-names complete nt table j k (some v) c h = execute_upsert-names nt table j k v c h
sync_name-names true nt table j k none c h = execute_delete-names nt table j k c h
sync_name-names false nt table j k none c h = ground arith

entry_step :
    (complete : Bool) (nt : NameTable) (j : String) (e : NodeNameEntry) (state : NodeNameState)
    (stored middle last final : Option String)
    → find_entry e.meshtastic_id state ≡ none
    → middle ≡ (
        if same_table nt longnames && str_eq j e.meshtastic_id
        then name_after complete e.long_name stored
        else stored)
    → last ≡ (
        if same_table nt shortnames && str_eq j e.meshtastic_id
        then name_after complete e.short_name middle
        else middle)
    → final ≡ entry_after complete nt (find_entry j state) last
    → final ≡ entry_after complete nt (find_entry j (e ∷ state)) stored
unfolding find_entry
entry_step complete longnames j e state stored middle last final d p q r =
    ground (arith, eq_iff j e.meshtastic_id)
entry_step complete shortnames j e state stored middle last final d p q r =
    ground (arith, eq_iff j e.meshtastic_id)

sync_entries-names :
    (complete : Bool) (nt : NameTable) (j : String) (state : NodeNameState) (c : Conn)
    → IsKeyed state
    → (sync_entries complete state c).0 ≡ ok tt
    → name_of j (table_rows nt (sync_entries complete state c).1.tables)
      ≡ entry_after complete nt (find_entry j state) (name_of j (table_rows nt c.tables))
unfolding sync_entries find_entry
sync_entries-names complete nt j [] c d h = refl
sync_entries-names complete nt j (e ∷ state) c d h =
    let (_, long_done, same) =
      >>=-eq-ok (sync_name complete longnames e.meshtastic_id e.long_name)
        (λ _.
          sync_name complete shortnames e.meshtastic_id e.short_name >> sync_entries complete state)
        c h in
    let c1 = (sync_name complete longnames e.meshtastic_id e.long_name c).1 in
    let (_, short_done, same') =
      >>=-eq-ok (sync_name complete shortnames e.meshtastic_id e.short_name)
        (λ _. sync_entries complete state) c1 (sym (ap (λ r. r.0) same) ∙ h) in
    let c2 = (sync_name complete shortnames e.meshtastic_id e.short_name c1).1 in
    let rest_done = sym (ap (λ r. r.0) (same ∙ same')) ∙ h in
    rw (same ∙ same') (
      entry_step complete nt j e state (name_of j (table_rows nt c.tables))
        (name_of j (table_rows nt c1.tables)) (name_of j (table_rows nt c2.tables)) _ d.0
        (sync_name-names complete nt longnames j e.meshtastic_id e.long_name c long_done)
        (sync_name-names complete nt shortnames j e.meshtastic_id e.short_name c1 short_done)
        (sync_entries-names complete nt j state c2 d.1 rest_done))

-- A prune of both tables leaves the names of the current ids.
pub prune_both-names :
    (nt : NameTable) (j : String) (ids : List String) (c : Conn)
    → (prune_both ids c).0 ≡ ok tt
    → name_of j (table_rows nt (prune_both ids c).1.tables)
      ≡ (if not (contains j ids) then none else name_of j (table_rows nt c.tables))
unfolding prune_both
prune_both-names nt j ids c h =
    let (m, long_done, same) =
      >>=-eq-ok (delete_stale_names_core longnames ids)
        (λ _. delete_stale_names_core shortnames ids >>= λ _. pure tt) c h in
    let c1 = (delete_stale_names_core longnames ids c).1 in
    let (n, short_done, same') =
      >>=-eq-ok (delete_stale_names_core shortnames ids) (λ _. pure tt) c1
        (sym (ap (λ r. r.0) same) ∙ h) in
    rw (same ∙ same') (
      both nt (name_of j (table_rows nt c.tables)) (name_of j (table_rows nt c1.tables)) _
        (delete_stale_names_core-names nt longnames j ids c m long_done)
        (delete_stale_names_core-names nt shortnames j ids c1 n short_done))
  where
    both :
        (nt : NameTable) (stored middle last : Option String)
        → middle ≡ (if same_table nt longnames && not (contains j ids) then none else stored)
        → last ≡ (if same_table nt shortnames && not (contains j ids) then none else middle)
        → last ≡ (if not (contains j ids) then none else stored)
    both longnames stored middle last p q = ground arith
    both shortnames stored middle last p q = ground arith

sync_both-names :
    (complete : Bool) (nt : NameTable) (j : String) (state : NodeNameState) (ids : List String)
    (c : Conn)
    → IsKeyed state
    → (sync_both state ids complete c).0 ≡ ok tt
    → name_of j (table_rows nt (sync_both state ids complete c).1.tables)
      ≡ synced state ids complete nt j (name_of j (table_rows nt c.tables))
unfolding sync_both
sync_both-names complete nt j state ids c d h =
    let (_, entries_done, same) =
      >>=-eq-ok (sync_entries complete state) (λ _. if complete then prune_both ids else pure tt) c
        h in
    let c1 = (sync_entries complete state c).1 in
    rw same (
      pruned complete c1 (sym (ap (λ r. r.0) same) ∙ h)
        (sync_entries-names complete nt j state c d entries_done))
  where
    pruned :
        (complete : Bool) (c1 : Conn)
        → ((if complete then prune_both ids else pure tt) c1).0 ≡ ok tt
        → name_of j (table_rows nt c1.tables)
          ≡ entry_after complete nt (find_entry j state) (name_of j (table_rows nt c.tables))
        → name_of j (table_rows nt ((if complete then prune_both ids else pure tt) c1).1.tables)
          ≡ synced state ids complete nt j (name_of j (table_rows nt c.tables))
    pruned true c1 h p = ground (arith, prune_both-names nt j ids c1 h)
    pruned false c1 h p = p

-- A swallowed write has the effect of its callable, or none.
pub swallowed_write :
    (func : Cursor (Unit {0})) (c : Conn)
    → (((swallowed (run_sync func true c)).0 ≡ true)
        × ((func c).0 ≡ ok tt)
        × ((swallowed (run_sync func true c)).1.tables ≡ (func c).1.tables))
      ⊎ (((swallowed (run_sync func true c)).0 ≡ false)
          × ((swallowed (run_sync func true c)).1.tables ≡ c.tables))
swallowed_write func c = outcome (run_sync func true c) (committed func c tt) (rolled_back func c)
  where
    outcome :
        (r : Result (Unit {0}) × Conn)
        → (r.0 ≡ ok tt → ((func c).0 ≡ ok tt) × (r.1.tables ≡ (func c).1.tables))
        → (r.0 ≡ sqlite_error → r.1.tables ≡ c.tables)
        → (((swallowed r).0 ≡ true)
            × ((func c).0 ≡ ok tt)
            × ((swallowed r).1.tables ≡ (func c).1.tables))
          ⊎ (((swallowed r).0 ≡ false) × ((swallowed r).1.tables ≡ c.tables))
    outcome (ok tt, c') done undone = inl (refl, (done refl).0, (done refl).1)
    outcome (sqlite_error, c') done undone = inr (refl, undone refl)

-- One synchronisation, with a database error at any statement or at the commit: where it reports
-- success, every name in both tables is what the specification `synced` makes of the stored one (a
-- shown name replaces it; a complete snapshot clears a name that it does not show and one whose id
-- is not current; an incomplete one keeps it); where it reports failure, every name is as it was.
pub sync_name_tables_atomic-synced :
    (state : NodeNameState) (ids : List String) (complete : Bool) (c : Conn)
    → IsKeyed state
    → (nt : NameTable) (j : String)
    → name_of j (table_rows nt (sync_name_tables_atomic state ids complete c).1.tables) ≡ (
        if (sync_name_tables_atomic state ids complete c).0
        then synced state ids complete nt j (name_of j (table_rows nt c.tables))
        else name_of j (table_rows nt c.tables))
unfolding sync_name_tables_atomic
sync_name_tables_atomic-synced state ids complete c d nt j =
    elim (swallowed_write (sync_both state ids complete) c) [
      | inl (done, ran, tables) ↦
          rw (done, tables) (sync_both-names complete nt j state ids c d ran)
      | inr (undone, tables) ↦ rw (undone, tables)
    ]
