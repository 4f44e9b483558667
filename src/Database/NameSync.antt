-- ===== src/Database/NameSync.antt =====
-- db_utils.py (src/mmrelay): the synchronisation of both name tables with a snapshot, in one
-- transaction, and when it is done.
pub mod Reads
pub mod Previous
use meshtastic_matrix_relay.Base.{
  ℕ, zero, suc, String, Bool, true, false, not, Option, none, some, List, [], ◌∷◌, ◌++◌, str_eq,
  length, if◌then◌else◌, ◌&&◌,
}
use meshtastic_matrix_relay.Py.{Value, dict, Fields, end, field, codes, contains}
use meshtastic_matrix_relay.Database.Runtime.{
  Tables, Conn, Result, ok, sqlite_error, Cursor, ◌>>=◌, ◌>>◌, pure, execute, run_sync,
}
use meshtastic_matrix_relay.Database.MessageMap.{swallowed}
use meshtastic_matrix_relay.Database.NameTables.{
  NameTable, longnames, shortnames, table_rows, execute_upsert, execute_delete, prune_chunk_size,
  chunks, delete_stale_names_core,
}
use meshtastic_matrix_relay.Database.Snapshot.{
  NodeNameEntry, NodeNameState, Snapshot, find_entry, put_entry, pop_entry, entry, codes_before,
  sort_entries, collect_node_name_snapshot,
}

unfoldable pub sync_name : Bool → NameTable → String → Option String → Cursor (Unit {0})
sync_name complete table k none = if complete then execute_delete table k else pure tt
sync_name complete table k (some v) = execute_upsert table k v

unfoldable pub sync_entries : Bool → NodeNameState → Cursor (Unit {0})
sync_entries complete [] = pure tt
sync_entries complete (e ∷ state) = do
  sync_name complete longnames e.meshtastic_id e.long_name
  sync_name complete shortnames e.meshtastic_id e.short_name
  sync_entries complete state

-- the pruning of both tables
unfoldable pub prune_both : List String → Cursor (Unit {0})
prune_both current_ids = do
  _ ← delete_stale_names_core longnames current_ids
  _ ← delete_stale_names_core shortnames current_ids
  pure tt

unfoldable pub sync_both : NodeNameState → List String → Bool → Cursor (Unit {0})
sync_both state current_ids complete = do
  sync_entries complete state
  if complete then prune_both current_ids else pure tt

-- `_sync_name_tables_atomic`
unfoldable pub sync_name_tables_atomic : NodeNameState → List String → Bool → Conn → Bool × Conn
sync_name_tables_atomic state current_ids complete c =
    swallowed (run_sync (sync_both state current_ids complete) true c)

-- `_prune_stale_name_rows_atomic`
unfoldable pub prune_stale_name_rows_atomic : List String → Conn → Bool × Conn
prune_stale_name_rows_atomic current_ids c = swallowed (run_sync (prune_both current_ids) true c)

-- a dict from ids to normalised names
unfoldable pub set_row :
    String → Option String → List (String × Option String) → List (String × Option String)
set_row k v [] = (k, v) ∷ []
set_row k v ((j, w) ∷ rows) = if str_eq k j then (k, v) ∷ rows else (j, w) ∷ set_row k v rows

unfoldable pub update_rows :
    List (String × Option String) → List (String × Option String) → List (String × Option String)
update_rows [] rows = rows
update_rows ((k, v) ∷ new) rows = update_rows new (set_row k v rows)

unfoldable pub row_of : String → List (String × Option String) → Option (Option String)
row_of k [] = none
row_of k ((j, v) ∷ rows) = if str_eq k j then some v else row_of k rows

-- the rows of one chunk of ids, normalised; `json_each` and the list of placeholders select the same
unfoldable pub rows_in : List String → List (String × String) → List (String × Option String)
rows_in chunk [] = []
rows_in chunk ((k, v) ∷ rows) =
    let rest = rows_in chunk rows in
    if contains k chunk then (k, if str_eq v "" then none else some v) ∷ rest else rest

unfoldable pub read_chunks :
    NameTable
    → List (List String)
    → List (String × Option String)
    → Cursor (List (String × Option String))
read_chunks table [] rows_by_id = pure rows_by_id
read_chunks table (chunk ∷ rest) rows_by_id = do
  fetched_rows ← execute (λ t. (rows_in chunk (table_rows table t), t))
  read_chunks table rest (update_rows fetched_rows rows_by_id)

unfoldable pub state_ids : NodeNameState → List String
state_ids [] = []
state_ids (e ∷ state) =
    let rest = state_ids state in
    if contains e.meshtastic_id rest then rest else e.meshtastic_id ∷ rest

unfoldable pub insert_text : String → List String → List String
insert_text s [] = s ∷ []
insert_text s (t ∷ l) =
    let rest = insert_text s l in if codes_before (codes t) (codes s) then t ∷ rest else s ∷ t ∷ l

unfoldable pub sort_texts : List String → List String
sort_texts [] = []
sort_texts (s ∷ l) = insert_text s (sort_texts l)

unfoldable pub read_name_values_for_ids :
    NameTable → List String → Conn → Result (List (String × Option String)) × Conn
read_name_values_for_ids table [] c = (ok [], c)
read_name_values_for_ids table (k ∷ ids) c =
    run_sync
      (read_chunks table (chunks (length (k ∷ ids)) prune_chunk_size (sort_texts (k ∷ ids))) [])
      false c

abbrev pub name_in : NameTable → NodeNameEntry → Option String
name_in longnames e = e.long_name
name_in shortnames e = e.short_name

-- one row of the state against the table: an unknown name is not compared
unfoldable pub row_matches : Option String → Option (Option String) → Bool
row_matches none actual = true
row_matches (some v) (some (some w)) = not (str_eq w "") && str_eq v w
row_matches (some v) _ = false

unfoldable pub rows_match : NameTable → NodeNameState → List (String × Option String) → Bool
rows_match table [] rows = true
rows_match table (e ∷ state) rows =
    row_matches (name_in table e) (row_of e.meshtastic_id rows) && rows_match table state rows

abbrev pub matched :
    NameTable → NodeNameState → Result (List (String × Option String)) × Conn → Bool × Conn
matched table state (ok rows, c) = (rows_match table state rows, c)
matched table state (sqlite_error, c) = (false, c)

-- `_name_table_matches_state`
unfoldable pub name_table_matches_state : NameTable → NodeNameState → Conn → Bool × Conn
name_table_matches_state table state c =
    matched table state (read_name_values_for_ids table (state_ids state) c)

-- `and` reads the second table only where the first matches.
abbrev pub and_also : Bool × Conn → (Conn → Bool × Conn) → Bool × Conn
and_also (true, c) next = next c
and_also (false, c) next = (false, c)

-- `_name_tables_match_state`
unfoldable pub name_tables_match_state : NodeNameState → Conn → Bool × Conn
name_tables_match_state [] c = (true, c)
name_tables_match_state (e ∷ state) c =
    and_also (name_table_matches_state longnames (e ∷ state) c)
      (name_table_matches_state shortnames (e ∷ state))

abbrev pub prefer : Option String → Option String → Option String
prefer (some v) _ = some v
prefer none old = old

abbrev pub merge_with : NodeNameEntry → Option NodeNameEntry → NodeNameEntry
merge_with e none = e
merge_with e (some prev) =
    entry e.meshtastic_id (prefer e.long_name prev.long_name) (prefer e.short_name prev.short_name)

unfoldable pub by_id : NodeNameState → NodeNameState → NodeNameState
by_id [] found = found
by_id (e ∷ state) found = by_id state (put_entry e found)

-- The loop over the current entries, and `merged_entries.extend(previous_by_id.values())`.
unfoldable pub merge_entries : NodeNameState → NodeNameState → NodeNameState
merge_entries [] previous_by_id = previous_by_id
merge_entries (e ∷ state) previous_by_id =
    merge_with e (find_entry e.meshtastic_id previous_by_id)
    ∷ merge_entries state (pop_entry e.meshtastic_id previous_by_id)

-- An incomplete snapshot keeps the previous names that it does not show.
unfoldable pub settled_state : Bool → NodeNameState → Option NodeNameState → NodeNameState
settled_state true state previous = state
settled_state false state none = state
settled_state false state (some previous) = sort_entries (merge_entries state (by_id previous []))

unfoldable pub same_name : Option String → Option String → Bool
same_name none none = true
same_name (some v) (some w) = str_eq v w
same_name _ _ = false

unfoldable pub same_state : NodeNameState → NodeNameState → Bool
same_state [] [] = true
same_state (e ∷ state) (f ∷ other) =
    str_eq e.meshtastic_id f.meshtastic_id
    && same_name e.long_name f.long_name
    && same_name e.short_name f.short_name
    && same_state state other
same_state _ _ = false

abbrev pub is_empty_state : NodeNameState → Bool
is_empty_state [] = true
is_empty_state (_ ∷ _) = false

-- The parts of `sync_name_tables_if_changed` after the snapshot is taken, over its variables.
module _ (state : NodeNameState) (current_ids : List String) (complete : Bool) where
  -- `return current_state` where the write is committed, else `return previous_state`
  abbrev pub outcome : Option NodeNameState → Bool × Conn → Option NodeNameState × Conn
  outcome previous (true, c) = (some state, c)
  outcome previous (false, c) = (previous, c)

  unfoldable pub apply_state : Option NodeNameState → Conn → Option NodeNameState × Conn
  apply_state previous c = outcome previous (sync_name_tables_atomic state current_ids complete c)

  abbrev pub repaired : Option NodeNameState → Bool × Conn → Option NodeNameState × Conn
  repaired previous (true, c) = (some state, c)
  repaired previous (false, c) = apply_state previous c

  -- drift repair
  unfoldable pub repair : Option NodeNameState → Conn → Option NodeNameState × Conn
  repair previous c = repaired previous (name_tables_match_state state c)

  abbrev pub refreshed : Option NodeNameState → Bool × Conn → Option NodeNameState × Conn
  refreshed previous (true, c) = repair previous c
  refreshed previous (false, c) = (previous, c)

  unfoldable pub refresh : Option NodeNameState → Conn → Option NodeNameState × Conn
  refresh previous c =
      if complete
      then refreshed previous (prune_stale_name_rows_atomic current_ids c)
      else repair previous c

  unfoldable pub sync_changed : Option NodeNameState → Conn → Option NodeNameState × Conn
  sync_changed none c = apply_state none c
  sync_changed (some old) c =
      if same_state state old then refresh (some old) c else apply_state (some old) c

-- Not authoritative: an incomplete snapshot with no entry changes nothing.
unfoldable pub sync_collected : Snapshot → Option NodeNameState → Conn → Option NodeNameState × Conn
sync_collected s previous c =
    if not s.complete && is_empty_state (settled_state s.complete s.state_by_id previous)
    then (previous, c)
    else sync_changed (settled_state s.complete s.state_by_id previous) s.current_ids s.complete
        previous c

unfoldable pub sync_name_tables_if_changed :
    Value → Option NodeNameState → Conn → Option NodeNameState × Conn
sync_name_tables_if_changed (dict end) previous c = (previous, c)
sync_name_tables_if_changed (dict (field key node_row nodes)) previous c =
    sync_collected (collect_node_name_snapshot (dict (field key node_row nodes))) previous c
sync_name_tables_if_changed _ previous c = (previous, c)
