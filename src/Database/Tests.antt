-- ===== src/Database/Tests.antt =====
-- The database (src/mmrelay/db_utils.py) on concrete rows, nodes and faults.
use meshtastic_matrix_relay.Base.{
  ◌≡◌, refl, String, true, false, none, some, List, [], ◌∷◌, pos, is_some, if◌then◌else◌,
}
use meshtastic_matrix_relay.Py.{Value, int_text, str, dict, Fields, end, field, codes}
use meshtastic_matrix_relay.Database.Runtime.{Conn, execute, run_sync, write, read, Mapping}
use meshtastic_matrix_relay.Database.MessageMap.{
  number, id_key, upsert, by_event, store_message_map, store_message_map_core, prune_message_map,
  prune_message_map_core, get_message_map_by_matrix_event_id,
}
use meshtastic_matrix_relay.Database.Ledger.{
  Call, store, prune, perform, run, Ledger, Represents, note_all,
}
use meshtastic_matrix_relay.Database.Ledger.Runs.{run-Represents}
use meshtastic_matrix_relay.Database.NameTables.{
  longnames, table_rows, name_of, execute_upsert, execute_delete, upsert_name, delete_name,
  delete_names, delete_stale_names_core, delete_chunks, chunks, stale_ids,
}
use meshtastic_matrix_relay.Database.Snapshot.{
  NodeNameState, entry, collect_node_name_snapshot, collect_nodes, collect_node, collect_user,
  collect_names, usable_id, normalize_node_name_value, is_malformed, add_names, place_entry,
  find_entry, put_entry, merge_entry, sort_entries, insert_entry, codes_before,
  build_node_name_state,
}
use meshtastic_matrix_relay.Database.NameSync.{
  sync_name_tables_if_changed, sync_collected, settled_state, sync_changed, apply_state,
  sync_name_tables_atomic, sync_both, sync_entries, sync_name, prune_both,
}
use meshtastic_matrix_relay.Database.Committed.{synced, sync_name_tables_atomic-synced}
use meshtastic_matrix_relay.Database.Collected.{IsNormal}
use meshtastic_matrix_relay.Database.Collected.Loop.{collect_node_name_snapshot-IsNormal}
use meshtastic_matrix_relay.Database.Preserved.{sync_incomplete-keeps}
use meshtastic_matrix_relay.Database.Upgrade.{
  MapTable, started, ensure_table, upgrade_message_map, insert_row, insert_rows, recover_stale,
  merge_temp, merge_legacy, rebuild,
}
use meshtastic_matrix_relay.Database.Upgrade.Kept.{held}
use meshtastic_matrix_relay.Database.Upgrade.Finished.{IsUpgraded, upgrade_message_map-kept}
use meshtastic_matrix_relay.Database.FirstSync.{shown, first_sync-exact}

abbrev blank : Conn
blank = record {
  tables = record { longnames = []; shortnames = []; plugin_data = []; message_map = [] };
  faults = [];
}

-- The third statement or commit of a connection fails.
abbrev shaky : Conn
shaky = record blank { faults = false ∷ false ∷ true ∷ [] }

abbrev chat : List Call
chat =
    store (number (pos 7)) "$a" "!r" "hello" none
    ∷ store (number (pos 8)) "$b" "!r" "lost" none
    ∷ store (number (pos 9)) "$c" "!r" "more" (some "Home")
    ∷ store (number (pos 7)) "$a" "!r" "hello again" none
    ∷ prune 1
    ∷ []

abbrev no_ledger : Ledger
no_ledger = record { order = []; value = λ _. none }

blank-Represents : Represents [] no_ledger
unfolding by_event
blank-Represents = record { order = refl; value = λ e. refl; distinct = tt }

run-Represents_example :
    Represents (run chat shaky).1.tables.message_map (note_all no_ledger (run chat shaky).0)
run-Represents_example = run-Represents chat shaky no_ledger blank-Represents

-- The second store failed; the update of `$a` kept its place, so the prune removed it.
chat_kept :
    (get_message_map_by_matrix_event_id "$c" (run chat shaky).1).0
    ≡ some ("9", "!r", "more", some "Home")
unfolding run perform get_message_map_by_matrix_event_id store_message_map store_message_map_core
    prune_message_map prune_message_map_core upsert by_event execute run_sync write read id_key
    int_text
chat_kept = refl

abbrev user : String → Fields → Value
user i rest = dict (field "user" (dict (field "id" (str i) rest)) end)

abbrev alice : Value
alice = user "!a" (field "longName" (str "Alice") (field "shortName" (str "AL") end))

abbrev bob : Value
bob = user "!b" (field "longName" (str "Bob") end)

abbrev two_nodes : Fields
two_nodes = field "1" alice (field "2" bob end)

abbrev old_names : Conn
old_names = record blank {
  tables = record {
    longnames = ("!b", "Robert") ∷ ("!z", "Zoe") ∷ [];
    shortnames = ("!b", "BO") ∷ [];
    plugin_data = [];
    message_map = [];
  };
}

abbrev alice_only : NodeNameState
alice_only = entry "!a" (some "Alice") none ∷ []

sync_name_tables_atomic-synced_example :
    name_of "!b" (
      table_rows longnames (sync_name_tables_atomic alice_only ("!a" ∷ []) true old_names).1.tables)
    ≡ (if (sync_name_tables_atomic alice_only ("!a" ∷ []) true old_names).0
        then synced alice_only
            ("!a" ∷ [])
            true
            longnames
            "!b"
            (name_of "!b" (table_rows longnames old_names.tables))
        else name_of "!b" (table_rows longnames old_names.tables))
unfolding find_entry
sync_name_tables_atomic-synced_example =
    sync_name_tables_atomic-synced alice_only ("!a" ∷ []) true old_names (refl, tt) longnames "!b"

-- A node without an id makes the snapshot incomplete.
abbrev with_stranger : Value
with_stranger = dict (field "1" alice (field "2" (dict end) end))

with_stranger_incomplete : (collect_node_name_snapshot with_stranger).complete ≡ false
unfolding collect_node_name_snapshot collect_nodes collect_node collect_user collect_names usable_id
    normalize_node_name_value is_malformed add_names place_entry find_entry put_entry merge_entry
    sort_entries insert_entry codes_before codes
with_stranger_incomplete = refl

sync_incomplete-keeps_example :
    is_some (
      name_of "!z"
        (table_rows longnames (sync_name_tables_if_changed with_stranger none old_names).1.tables))
    ≡ true
unfolding name_of
sync_incomplete-keeps_example =
    sync_incomplete-keeps with_stranger none old_names with_stranger_incomplete longnames "!z" refl

two_nodes_complete : (collect_node_name_snapshot (dict two_nodes)).complete ≡ true
unfolding collect_node_name_snapshot collect_nodes collect_node collect_user collect_names usable_id
    normalize_node_name_value is_malformed add_names place_entry find_entry put_entry merge_entry
    sort_entries insert_entry codes_before codes
two_nodes_complete = refl

first_sync-exact_example :
    name_of "!z"
      (table_rows longnames (sync_name_tables_if_changed (dict two_nodes) none old_names).1.tables)
    ≡ (if is_some (sync_name_tables_if_changed (dict two_nodes) none old_names).0
        then shown longnames (find_entry "!z" (build_node_name_state (dict two_nodes)))
        else name_of "!z" (table_rows longnames old_names.tables))
first_sync-exact_example =
    first_sync-exact "1" alice (field "2" bob end) old_names two_nodes_complete longnames "!z"

-- Zoe's node is gone, and Bob has his new long name and no short name.
two_nodes_synced :
    (sync_name_tables_if_changed (dict two_nodes) none old_names).1.tables.longnames
    ≡ ("!b", "Bob") ∷ ("!a", "Alice") ∷ []
unfolding sync_name_tables_if_changed sync_collected settled_state sync_changed apply_state
    sync_name_tables_atomic sync_both sync_entries sync_name prune_both execute_upsert
    execute_delete upsert_name delete_name delete_names delete_stale_names_core delete_chunks chunks
    stale_ids execute run_sync write collect_node_name_snapshot collect_nodes collect_node
    collect_user collect_names usable_id normalize_node_name_value is_malformed add_names
    place_entry find_entry put_entry merge_entry sort_entries insert_entry codes_before codes
two_nodes_synced = refl

collect_node_name_snapshot-IsNormal_example : IsNormal (collect_node_name_snapshot (dict two_nodes))
collect_node_name_snapshot-IsNormal_example = collect_node_name_snapshot-IsNormal (dict two_nodes)

abbrev mapping : String → String → Mapping
mapping id event = record {
  meshtastic_id = id;
  matrix_event_id = event;
  matrix_room_id = "!r";
  meshtastic_text = "hello";
  meshtastic_meshnet = none;
}

-- A table of numbers, and the tables that two upgrades have left before they ended.
abbrev numbered : MapTable
numbered = record { text_id = false; has_mesh = false; rows = mapping "1" "$a" ∷ [] }

abbrev interrupted : MapTable
interrupted = record { text_id = false; has_mesh = false; rows = mapping "2" "$b" ∷ [] }

abbrev abandoned : MapTable
abandoned = record { text_id = false; has_mesh = true; rows = mapping "3" "$c" ∷ [] }

upgrade_message_map-kept_example :
    (held "$b" (upgrade_message_map false (some numbered) (some interrupted) (some abandoned) none)
      ≡ held "$b" (started (some numbered) (some interrupted) (some abandoned) none))
    × ((if is_some (by_event "$b" (ensure_table (some numbered)).rows)
          then by_event "$b"
              (upgrade_message_map false
                (some numbered)
                (some interrupted)
                (some abandoned)
                none).current.rows
          else none)
        ≡ by_event "$b" (ensure_table (some numbered)).rows)
    × IsUpgraded false
        (upgrade_message_map false (some numbered) (some interrupted) (some abandoned) none)
upgrade_message_map-kept_example =
    upgrade_message_map-kept false (some numbered) (some interrupted) (some abandoned) none "$b"

all_in_one_table :
    (upgrade_message_map false
      (some numbered)
      (some interrupted)
      (some abandoned)
      none).current.rows
    ≡ mapping "1" "$a" ∷ mapping "3" "$c" ∷ mapping "2" "$b" ∷ []
unfolding upgrade_message_map ensure_table recover_stale merge_temp merge_legacy rebuild insert_rows
    insert_row by_event
all_in_one_table = refl
