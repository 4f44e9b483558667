-- ===== src/Plugins/Data.antt =====
-- db_utils.py (src/mmrelay): the table `plugin_data`. `json.dumps` and `json.loads` are arguments.
use meshtastic_matrix_relay.Base.{
  String, Bool, true, false, Option, none, some, List, [], ◌∷◌, str_eq, ◌&&◌, if◌then◌else◌,
}
use meshtastic_matrix_relay.Py.{Value, list, nil, or_else}
use meshtastic_matrix_relay.Database.Runtime.{
  PluginRow, Conn, Result, ok, sqlite_error, execute, run_sync,
}
use meshtastic_matrix_relay.Database.MessageMap.{swallowed}

-- `json.dumps` and `json.loads`, `none` for the errors that are caught
pub record Json : Type 0 where
  pub dumps : Value → Option String
  pub loads : String → Option Value

abbrev pub is_row : String → String → PluginRow → Bool
is_row plugin_name id_key row =
    str_eq plugin_name row.plugin_name && str_eq id_key row.meshtastic_id

-- `INSERT ... ON CONFLICT (plugin_name, meshtastic_id) DO UPDATE`
unfoldable pub upsert_row : PluginRow → List PluginRow → List PluginRow
upsert_row new [] = new ∷ []
upsert_row new (row ∷ rows) =
    if is_row new.plugin_name new.meshtastic_id row then new ∷ rows else row ∷ upsert_row new rows

unfoldable pub delete_row : String → String → List PluginRow → List PluginRow
delete_row plugin_name id_key [] = []
delete_row plugin_name id_key (row ∷ rows) =
    let rest = delete_row plugin_name id_key rows in
    if is_row plugin_name id_key row then rest else row ∷ rest

unfoldable pub payload_of : String → String → List PluginRow → Option String
payload_of plugin_name id_key [] = none
payload_of plugin_name id_key (row ∷ rows) =
    if is_row plugin_name id_key row then some row.payload else payload_of plugin_name id_key rows

-- The result is whether a row was written, which the source only shows in its log.
abbrev pub store_payload : String → String → Option String → Conn → Bool × Conn
store_payload plugin_name id_key none c = (false, c)
store_payload plugin_name id_key (some payload) c = swallowed (
    run_sync
      (execute (λ t. (
        tt,
        record t {
          plugin_data =
              upsert_row
                (record { plugin_name = plugin_name; meshtastic_id = id_key; payload = payload })
                t.plugin_data;
        },
      )))
      true c)

unfoldable pub store_plugin_data : Json → String → String → Value → Conn → Bool × Conn
store_plugin_data json plugin_name id_key data_value c =
    store_payload plugin_name id_key (json.dumps data_value) c

unfoldable pub delete_plugin_data : String → String → Conn → Bool × Conn
delete_plugin_data plugin_name id_key c = swallowed (
    run_sync
      (execute (λ t. (tt, record t { plugin_data = delete_row plugin_name id_key t.plugin_data })))
      true c)

-- `json.loads(result[0] if result else "[]")`, with `[]` for an error
abbrev pub decoded_data : Json → Option String → Value
decoded_data json payload = or_else (json.loads (or_else payload "[]")) (list nil)

-- The result, and whether the read succeeded.
abbrev pub fetched_data : Json → Result (Option String) × Conn → (Value × Bool) × Conn
fetched_data json (ok payload, c) = ((decoded_data json payload, true), c)
fetched_data json (sqlite_error, c) = ((list nil, false), c)

unfoldable pub get_plugin_data_for_node : Json → String → String → Conn → (Value × Bool) × Conn
get_plugin_data_for_node json plugin_name id_key c =
    fetched_data json
      (run_sync (execute (λ t. (payload_of plugin_name id_key t.plugin_data, t))) false c)

unfoldable pub payloads : String → List PluginRow → List String
payloads plugin_name [] = []
payloads plugin_name (row ∷ rows) =
    let rest = payloads plugin_name rows in
    if str_eq plugin_name row.plugin_name then row.payload ∷ rest else rest

pub get_plugin_data : String → Conn → List String × Conn
get_plugin_data plugin_name c =
    all (run_sync (execute (λ t. (payloads plugin_name t.plugin_data, t))) false c)
  where
    all : Result (List String) × Conn → List String × Conn
    all (ok rows, c) = (rows, c)
    all (sqlite_error, c) = ([], c)
