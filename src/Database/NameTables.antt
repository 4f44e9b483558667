-- ===== src/Database/NameTables.antt =====
-- db_utils.py (src/mmrelay): the tables of long and short names, row by row, and the pruning of
-- names whose nodes are gone.
pub mod Rows
use meshtastic_matrix_relay.Base.{
  ℕ, zero, suc, ◌+◌, String, Bool, true, false, not, Option, none, some, List, [], ◌∷◌, ◌++◌,
  str_eq, length, take, if◌then◌else◌,
}
use meshtastic_matrix_relay.Py.{contains}
use meshtastic_matrix_relay.Database.Runtime.{
  Tables, Conn, Result, ok, sqlite_error, Cursor, ◌>>=◌, ◌>>◌, pure, execute, run_sync,
}
use meshtastic_matrix_relay.Database.MessageMap.{Identifier, id_key, drop, swallowed}

-- The two allow-listed tables.
pub data NameTable : Type 0 where
  longnames shortnames : NameTable

abbrev pub table_rows : NameTable → Tables → List (String × String)
table_rows longnames t = t.longnames
table_rows shortnames t = t.shortnames

abbrev pub set_names : NameTable → List (String × String) → Tables → Tables
set_names longnames rows t = record t { longnames = rows }
set_names shortnames rows t = record t { shortnames = rows }

-- `SELECT longname FROM longnames WHERE meshtastic_id=?`, the primary key
unfoldable pub name_of : String → List (String × String) → Option String
name_of k [] = none
name_of k ((j, v) ∷ rows) = if str_eq k j then some v else name_of k rows

-- `INSERT ... ON CONFLICT(meshtastic_id) DO UPDATE`
unfoldable pub upsert_name : String → String → List (String × String) → List (String × String)
upsert_name k v [] = (k, v) ∷ []
upsert_name k v ((j, w) ∷ rows) =
    if str_eq k j then (k, v) ∷ rows else (j, w) ∷ upsert_name k v rows

-- `DELETE ... WHERE meshtastic_id = ?`
unfoldable pub delete_name : String → List (String × String) → List (String × String)
delete_name k [] = []
delete_name k ((j, w) ∷ rows) =
    let rest = delete_name k rows in if str_eq k j then rest else (j, w) ∷ rest

-- `executemany` of that statement
unfoldable pub delete_names : List String → List (String × String) → List (String × String)
delete_names [] rows = rows
delete_names (k ∷ ks) rows = delete_names ks (delete_name k rows)

pub get_name : NameTable → Identifier → Conn → Option String × Conn
get_name table i c =
    found (run_sync (execute (λ t. (name_of (id_key i) (table_rows table t), t))) false c)
  where
    found : Result (Option String) × Conn → Option String × Conn
    found (ok v, c) = (v, c)
    found (sqlite_error, c) = (none, c)

abbrev pub get_longname : Identifier → Conn → Option String × Conn
get_longname = get_name longnames

abbrev pub get_shortname : Identifier → Conn → Option String × Conn
get_shortname = get_name shortnames

-- the statements of one table, as a cursor executes them
unfoldable pub execute_upsert : NameTable → String → String → Cursor (Unit {0})
execute_upsert table k v =
    execute (λ t. (tt, set_names table (upsert_name k v (table_rows table t)) t))

unfoldable pub execute_delete : NameTable → String → Cursor (Unit {0})
execute_delete table k = execute (λ t. (tt, set_names table (delete_name k (table_rows table t)) t))

unfoldable pub save_name : NameTable → Identifier → String → Conn → Bool × Conn
save_name table i v c = swallowed (run_sync (execute_upsert table (id_key i) v) true c)

abbrev pub save_longname : Identifier → String → Conn → Bool × Conn
save_longname = save_name longnames

abbrev pub save_shortname : Identifier → String → Conn → Bool × Conn
save_shortname = save_name shortnames

unfoldable pub delete_name_by_id : NameTable → Identifier → Conn → Bool × Conn
delete_name_by_id table i c = swallowed (run_sync (execute_delete table (id_key i)) true c)

-- `all_db_ids - current_ids`, in the table's order
unfoldable pub stale_ids : List String → List (String × String) → List String
stale_ids current_ids [] = []
stale_ids current_ids ((k, _) ∷ rows) =
    let rest = stale_ids current_ids rows in if contains k current_ids then rest else k ∷ rest

-- DEFAULT_NAME_PRUNE_CHUNK_SIZE
abbrev pub prune_chunk_size : ℕ
prune_chunk_size = 500

-- `for i in range(0, len(ids), size): ids[i : i + size]`. With the length of the list for fuel
-- there are as many chunks as the loop has.
unfoldable pub chunks : ℕ → ℕ → List String → List (List String)
chunks fuel size [] = []
chunks zero size (_ ∷ _) = []
chunks (suc fuel) size (k ∷ ks) = take size (k ∷ ks) ∷ chunks fuel size (drop size (k ∷ ks))

-- The loop over the chunks: one `executemany` each. `cursor.rowcount` is the number of its rows.
unfoldable pub delete_chunks : NameTable → List (List String) → ℕ → Cursor ℕ
delete_chunks table [] total_deleted = pure total_deleted
delete_chunks table (chunk ∷ rest) total_deleted = do
  execute (λ t. (tt, set_names table (delete_names chunk (table_rows table t)) t))
  delete_chunks table rest (total_deleted + length chunk)

unfoldable pub delete_stale_names_core : NameTable → List String → Cursor ℕ
delete_stale_names_core table current_ids = do
  stale ← execute (λ t. (stale_ids current_ids (table_rows table t), t))
  delete_chunks table (chunks (length stale) prune_chunk_size stale) 0

-- `_delete_stale_names(..., return_none_on_error=True)`
unfoldable pub delete_stale_names : NameTable → List String → Conn → Option ℕ × Conn
delete_stale_names table current_ids c =
    counted (run_sync (delete_stale_names_core table current_ids) true c)
  where
    counted : Result ℕ × Conn → Option ℕ × Conn
    counted (ok n, c) = (some n, c)
    counted (sqlite_error, c) = (none, c)

-- `delete_stale_longnames` and `delete_stale_shortnames`
pub delete_stale_count : NameTable → List String → Conn → ℕ × Conn
unfolding delete_stale_names
delete_stale_count table current_ids c = count (delete_stale_names table current_ids c)
  where
    count : Option ℕ × Conn → ℕ × Conn
    count (some n, c) = (n, c)
    count (none, c) = (0, c)
