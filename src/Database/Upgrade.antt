-- ===== src/Database/Upgrade.antt =====
-- db_utils.py (src/mmrelay): the upgrade of `message_map` in `initialize_database`, from tables of
-- older versions and of upgrades that did not end.
pub mod Kept
pub mod Finished
use meshtastic_matrix_relay.Base.{
  String, Bool, true, false, not, Option, none, some, List, [], ◌∷◌, ◌++◌, is_some, ◌&&◌, ◌||◌,
  if◌then◌else◌,
}
use meshtastic_matrix_relay.Database.Runtime.{Mapping}
use meshtastic_matrix_relay.Database.MessageMap.{by_event}

-- A table of mappings: whether its column `meshtastic_id` is declared as TEXT, whether it has the
-- column `meshtastic_meshnet`, and its rows, in which a missing column is NULL. An id stands for
-- what `CAST(meshtastic_id AS TEXT)` makes of it. Every table is taken to have this column.
pub record MapTable : Type 0 where
  pub text_id : Bool
  pub has_mesh : Bool
  pub rows : List Mapping

-- `message_map`, `message_map_old_temp`, `message_map_stale_temp`, `message_map_legacy`
pub record MapTables : Type 0 where
  pub current : MapTable
  pub temp : Option MapTable
  pub stale_temp : Option MapTable
  pub legacy : Option MapTable

abbrev pub inserted_row : Bool → Mapping → Mapping
inserted_row true m = m
inserted_row false m = record m { meshtastic_meshnet = none }

-- `INSERT OR IGNORE`: a row whose event is there is left out.
unfoldable pub insert_row : Bool → Mapping → List Mapping → List Mapping
insert_row with_mesh m rows =
    if is_some (by_event m.matrix_event_id rows)
    then rows
    else rows ++ inserted_row with_mesh m ∷ []

unfoldable pub insert_rows : Bool → List Mapping → List Mapping → List Mapping
insert_rows with_mesh [] rows = rows
insert_rows with_mesh (m ∷ source) rows = insert_rows with_mesh source (insert_row with_mesh m rows)

-- `INSERT OR IGNORE INTO target SELECT ... FROM source`, with or without the meshnet
abbrev pub merge_from : MapTable → MapTable → MapTable
merge_from source target = record target {
  rows = insert_rows source.has_mesh source.rows target.rows;
}

abbrev pub new_table : MapTable
new_table = record { text_id = true; has_mesh = true; rows = [] }

-- `CREATE TABLE IF NOT EXISTS`, and the column for the meshnet
unfoldable pub ensure_table : Option MapTable → MapTable
ensure_table none = new_table
ensure_table (some t) = record t { has_mesh = true }

abbrev pub merge_stale_into : Bool → MapTable → MapTable → MapTables → MapTables
merge_stale_into true t s d = record d { current = merge_from s d.current; stale_temp = none }
merge_stale_into false t s d = record d { temp = some (merge_from s t); stale_temp = none }

-- A stale temporary table takes the place of the temporary one, or is merged into it; into
-- `message_map` where only the stale one has the meshnet.
unfoldable pub recover_stale : Option MapTable → Option MapTable → MapTables → MapTables
recover_stale temp none d = d
recover_stale none (some s) d = record d { temp = some s; stale_temp = none }
recover_stale (some t) (some s) d = merge_stale_into (not t.has_mesh && s.has_mesh) t s d

unfoldable pub merge_temp : Option MapTable → MapTables → MapTables
merge_temp none d = d
merge_temp (some t) d =
    if d.current.text_id then record d { current = merge_from t d.current; temp = none } else d

unfoldable pub merge_legacy : Option MapTable → MapTables → MapTables
merge_legacy none d = d
merge_legacy (some t) d =
    if d.current.text_id then record d { current = merge_from t d.current; legacy = none } else d

abbrev pub merged : Option MapTable → MapTable → MapTable
merged none target = target
merged (some source) target = merge_from source target

-- The rebuilding of a table whose ids are no texts. Its rows are copied first, then those of the
-- legacy table; the temporary table, renamed meanwhile, is merged last, and is left where that fails.
unfoldable pub rebuild : Bool → MapTables → MapTables
rebuild merge_fails d =
    if d.current.text_id
    then d
    else (if merge_fails
        then record {
          current = merged d.legacy (record new_table { rows = d.current.rows });
          temp = none;
          stale_temp = d.temp;
          legacy = none;
        }
        else record {
          current = merged d.temp (merged d.legacy (record new_table { rows = d.current.rows }));
          temp = none;
          stale_temp = none;
          legacy = none;
        })

abbrev pub started :
    Option MapTable → Option MapTable → Option MapTable → Option MapTable → MapTables
started current temp stale_temp legacy = record {
  current = ensure_table current;
  temp = temp;
  stale_temp = stale_temp;
  legacy = legacy;
}

-- `_initialize`, as far as it changes rows, when no statement raises but the last merge, if
-- `merge_fails`.
unfoldable pub upgrade_message_map :
    Bool → Option MapTable → Option MapTable → Option MapTable → Option MapTable → MapTables
upgrade_message_map merge_fails current temp stale_temp legacy =
    let d : MapTables = started current temp stale_temp legacy in
    let d1 = recover_stale temp stale_temp d in
    let d2 = merge_temp d1.temp d1 in let d3 = merge_legacy d2.legacy d2 in rebuild merge_fails d3
