-- ===== src/Database/NameSync/Reads.antt =====
-- The drift check (`_name_tables_match_state`, src/mmrelay/db_utils.py) reads only.
use meshtastic_matrix_relay.Base.{
  ◌≡◌, refl, ◌∙◌, String, Bool, true, false, Option, List, [], ◌∷◌, length,
}
use meshtastic_matrix_relay.Database.Runtime.{
  Tables, Conn, Result, ok, sqlite_error, Cursor, and_then, attempt, execute, run_sync, read,
}
use meshtastic_matrix_relay.Database.NameTables.{
  NameTable, longnames, shortnames, table_rows, prune_chunk_size, chunks,
}
use meshtastic_matrix_relay.Database.Snapshot.{NodeNameState}
use meshtastic_matrix_relay.Database.NameSync.{
  rows_in, update_rows, read_chunks, sort_texts, read_name_values_for_ids, matched, state_ids,
  name_table_matches_state, and_also, name_tables_match_state,
}

read_then :
    {A B : Type 0} (faults : List Bool) (t : Tables) (a : A) (k : A → Cursor B)
    → ((a : A) (c : Conn) → (k a c).1.tables ≡ c.tables)
    → (and_then (attempt faults t (a, t)) k).1.tables ≡ t
read_then [] t a k h = h a (record { tables = t; faults = [] })
read_then (false ∷ faults) t a k h = h a (record { tables = t; faults = faults })
read_then (true ∷ faults) t a k h = refl

read_chunks-tables :
    (table : NameTable) (ls : List (List String)) (rows : List (String × Option String)) (c : Conn)
    → (read_chunks table ls rows c).1.tables ≡ c.tables
unfolding read_chunks execute
read_chunks-tables table [] rows c = refl
read_chunks-tables table (l ∷ ls) rows c =
    read_then c.faults c.tables (rows_in l (table_rows table c.tables))
      (λ fetched_rows. read_chunks table ls (update_rows fetched_rows rows))
      (λ fetched_rows c'. read_chunks-tables table ls (update_rows fetched_rows rows) c')

read_names-tables :
    (table : NameTable) (ids : List String) (c : Conn)
    → (read_name_values_for_ids table ids c).1.tables ≡ c.tables
unfolding read_name_values_for_ids run_sync read
read_names-tables table [] c = refl
read_names-tables table (k ∷ ids) c =
    read_chunks-tables table (chunks (length (k ∷ ids)) prune_chunk_size (sort_texts (k ∷ ids))) []
      c

matched-tables :
    (table : NameTable) (state : NodeNameState) (r : Result (List (String × Option String)) × Conn)
    → (matched table state r).1.tables ≡ r.1.tables
matched-tables table state (ok rows, c) = refl
matched-tables table state (sqlite_error, c) = refl

table-tables :
    (table : NameTable) (state : NodeNameState) (c : Conn)
    → (name_table_matches_state table state c).1.tables ≡ c.tables
unfolding name_table_matches_state
table-tables table state c =
    matched-tables table state (read_name_values_for_ids table (state_ids state) c)
    ∙ read_names-tables table (state_ids state) c

both-tables :
    (r : Bool × Conn) (next : Conn → Bool × Conn) (t : Tables)
    → r.1.tables ≡ t
    → ((c : Conn) → (next c).1.tables ≡ c.tables)
    → (and_also r next).1.tables ≡ t
both-tables (true, c) next t h k = k c ∙ h
both-tables (false, c) next t h k = h

-- Whatever it answers, the check leaves the tables.
pub name_tables_match_state-tables :
    (state : NodeNameState) (c : Conn) → (name_tables_match_state state c).1.tables ≡ c.tables
unfolding name_tables_match_state
name_tables_match_state-tables [] c = refl
name_tables_match_state-tables (e ∷ state) c =
    both-tables (name_table_matches_state longnames (e ∷ state) c)
      (name_table_matches_state shortnames (e ∷ state)) c.tables
      (table-tables longnames (e ∷ state) c) (table-tables shortnames (e ∷ state))
