-- ===== src/MatrixEvents/Guards.antt =====
-- matrix/events.py (src/mmrelay): the tests at the head of `on_room_message`.
use meshtastic_matrix_relay.Base.{
  ℕ, ◌+◌, ◌-◌, String, Bool, false, not, Option, none, some, str_eq, ltb, leb, ◌&&◌, ◌||◌,
  if◌then◌else◌,
}
use meshtastic_matrix_relay.Py.{Value, Items, Fields, get, as_dict, eq_str}
use meshtastic_matrix_relay.MatrixEvents.State.{Env}

-- MATRIX_EVENT_EPOCH_FLOOR_MS and the other limits, in milliseconds
abbrev pub epoch_floor_ms : ℕ
epoch_floor_ms = 946684800000

abbrev pub rollback_disable_ms : ℕ
rollback_disable_ms = 60000

abbrev pub stale_filter_window_ms : ℕ
stale_filter_window_ms = 120000

abbrev pub stale_drop_ms : ℕ
stale_drop_ms = 300000

-- `_estimate_clock_rollback_ms(...) > MATRIX_CLOCK_ROLLBACK_DISABLE_MS`
abbrev pub rollback_detected : Env → Bool
rollback_detected env = ltb (env.now_ms + rollback_disable_ms) (env.bot_start_time + env.elapsed_ms)

-- Whether an event that predates the start is dropped.
unfoldable pub is_stale_event : Env → ℕ → Bool
is_stale_event env timestamp =
    ltb timestamp env.bot_start_time
    && leb epoch_floor_ms timestamp
    && leb epoch_floor_ms env.bot_start_time
    && leb env.elapsed_ms stale_filter_window_ms
    && not (rollback_detected env)
    && ltb stale_drop_ms (env.bot_start_time - timestamp)

-- `isinstance(room_conf, dict) and room_conf.get("id") == room_id`
abbrev pub has_room_id : String → Value → Bool
has_room_id room_id (Value.dict d) = eq_str (get d "id" Value.null) room_id
has_room_id room_id _ = false

-- The loop over a list of rooms.
unfoldable pub room_in_items : String → Items → Option Fields
room_in_items room_id Items.nil = none
room_in_items room_id (Items.cons room rooms) =
    let rest = room_in_items room_id rooms in
    if has_room_id room_id room then as_dict room else rest

-- The loop over a dict of rooms, which ends at the first key or id that fits.
unfoldable pub room_in_fields : String → Fields → Option Fields
room_in_fields room_id Fields.end = none
room_in_fields room_id (Fields.field key room rooms) =
    let rest = room_in_fields room_id rooms in
    if str_eq key room_id || has_room_id room_id room then as_dict room else rest

abbrev pub direct_or : Option Fields → Option Fields → Option Fields
direct_or (some d) _ = some d
direct_or none rest = rest

abbrev pub direct_room : String → Fields → Option Fields
direct_room room_id rooms = as_dict (get rooms room_id Value.null)

-- an empty dict counts as none
abbrev pub not_empty : Option Fields → Option Fields
not_empty (some Fields.end) = none
not_empty o = o

-- The configuration of a room, `none` where it has none. The setting is a dict or a list.
unfoldable pub room_config_of : Value → String → Option Fields
room_config_of (Value.dict rooms) room_id =
    not_empty (direct_or (direct_room room_id rooms) (room_in_fields room_id rooms))
room_config_of (Value.list rooms) room_id = not_empty (room_in_items room_id rooms)
room_config_of (Value.tuple rooms) room_id = not_empty (room_in_items room_id rooms)
room_config_of _ room_id = none
