-- ===== src/Plugins/Tests.antt =====
-- The plugins' data of nodes (src/mmrelay/plugins/base_plugin.py) on concrete calls.
use meshtastic_matrix_relay.Base.{
  ◌≡◌, ◌≤◌, refl, arith, String, true, false, Option, none, some, List, [], ◌∷◌, str_eq,
  if◌then◌else◌, pos,
}
use meshtastic_matrix_relay.Py.{
  int, eq_int, Value, null, list, Items, nil, cons, is_null, dict, float, field, end, Fields,
  lookup, or_else, truthy, bool,
}
use meshtastic_matrix_relay.Database.Runtime.{Tables, Conn, execute, run_sync, read, write}
use meshtastic_matrix_relay.Plugins.Data.{
  Json, payload_of, upsert_row, store_plugin_data, get_plugin_data_for_node,
}
use meshtastic_matrix_relay.Plugins.NodeData.{
  BasePlugin, count, last_rows, store_node_data, get_node_data,
}
use meshtastic_matrix_relay.Plugins.Records.{Call, store, run, kept, note_all, run-note_all}
use meshtastic_matrix_relay.Plugins.Settings.{
  core, custom, plugin_section, Settings, init_plugin, resolve_config, first_named, response_delay,
  global_mention, get_require_bot_mention, is_channel_enabled,
}
use meshtastic_matrix_relay.Plugins.Tiers.{located_in, init_plugin-tier}
use meshtastic_matrix_relay.Plugins.Latest.{
  stores, rows_of, all_of, healthy, store_node_data-latest,
}

-- A part of `json`: lists of at most two nulls.
abbrev written : Items → Option String
written nil = some "[]"
written (cons null nil) = some "[null]"
written (cons null (cons null nil)) = some "[null, null]"
written _ = none

abbrev parsed : String → Option Value
parsed s =
    if str_eq s "[]"
    then some (list nil)
    else (if str_eq s "[null]"
        then some (list (cons null nil))
        else (if str_eq s "[null, null]" then some (list (cons null (cons null nil))) else none))

abbrev written_value : Value → Option String
written_value (list xs) = written xs
written_value _ = none

abbrev nulls : Json
nulls = record { dumps = written_value; loads = parsed }

abbrev pings : BasePlugin
pings = record { plugin_name = "ping"; max_data_rows_per_node = 2 }

abbrev bare : Tables
bare = record { longnames = []; shortnames = []; plugin_data = []; message_map = [] }

nulls-codec :
    (xs : Items)
    → all_of is_null xs ≡ true
    → count xs ≤ 2
    → (s : String) × (nulls.dumps (list xs) ≡ some s) × (nulls.loads s ≡ some (list xs))
nulls-codec nil h g = ("[]", refl, refl)
nulls-codec (cons null nil) h g = ("[null]", refl, refl)
nulls-codec (cons null (cons null nil)) h g = ("[null, null]", refl, refl)
nulls-codec (cons null (cons null (cons _ xs))) h g = ground arith
nulls-codec xs h g = ground arith

store_node_data-latest_example :
    ((get_node_data nulls pings "!a"
        (run nulls (stores pings "!a" (null ∷ null ∷ null ∷ [])) (healthy bare)).1).0
      ≡ list (last_rows 2 (rows_of (null ∷ null ∷ null ∷ []))))
    × (count (last_rows 2 (rows_of (null ∷ null ∷ null ∷ []))) ≤ 2)
unfolding payload_of
store_node_data-latest_example =
    store_node_data-latest nulls is_null pings "!a" nulls-codec refl (omega arith)
      (null ∷ null ∷ null ∷ []) bare refl refl

-- The second call's read raises, the third's write does.
abbrev unsteady : Conn
unsteady = record {
  tables = bare;
  faults = false ∷ false ∷ false ∷ true ∷ false ∷ false ∷ false ∷ true ∷ [];
}

abbrev calls : List Call
calls = store pings "!a" null ∷ store pings "!a" null ∷ store pings "!b" null ∷ []

run-note_all_example :
    kept nulls (run nulls calls unsteady).1.tables.plugin_data
    ≡ note_all nulls (kept nulls []) (run nulls calls unsteady).0
run-note_all_example = run-note_all nulls calls unsteady

-- A read that raises makes the next store forget the rows before it.
forgotten_rows :
    kept nulls (run nulls calls unsteady).1.tables.plugin_data "ping" "!a" ≡ list (cons null nil)
unfolding run store_node_data store_plugin_data get_plugin_data_for_node execute run_sync read write
    payload_of upsert_row last_rows
forgotten_rows = refl

abbrev own_config : Fields
own_config = field "channels" (int (pos 1)) end

-- The custom section configures the plugin, and the core section names it too.
abbrev two_sections : Fields
two_sections =
    field "plugins" (dict (field "tide" (dict end) (field "require_bot_mention" (bool true) end))) (
      field "custom-plugins" (dict (field "tide" (dict own_config) end))
        (field "meshtastic" (dict (field "message_delay" (float (pos 500)) end)) end))

abbrev tide_settings : Settings
tide_settings = record {
  resolution = record {
    config = own_config;
    expected = some custom;
    resolved = some custom;
    plugin_type = some custom;
  };
  global_require_bot_mention = some true;
  mapped = nil;
  channels = cons (int (pos 1)) nil;
  delay = 2000;
}

tide_made : init_plugin (some two_sections) (located_in "tide" custom) ≡ some tide_settings
unfolding init_plugin resolve_config first_named response_delay global_mention
tide_made = refl

init_plugin-tier_example :
    (tide_settings.resolution.config ≡ own_config)
    × (tide_settings.resolution.plugin_type ≡ some custom)
    × (get_require_bot_mention tide_settings (located_in "tide" custom)
        ≡ truthy (
            or_else (lookup "require_bot_mention" own_config) (
              or_else (lookup "require_bot_mention" (plugin_section two_sections custom)) (
                or_else
                  (lookup "require_bot_mention" (plugin_section two_sections core))
                  (bool false)))))
    × (2000 ≤ tide_settings.delay)
init_plugin-tier_example =
    init_plugin-tier two_sections "tide" custom own_config tide_settings refl refl tide_made

other_channel : is_channel_enabled tide_settings (some (pos 0)) false ≡ false
unfolding is_channel_enabled eq_int
other_channel = refl
