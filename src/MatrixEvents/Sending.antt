-- ===== src/MatrixEvents/Sending.antt =====
-- matrix/command_bridge.py, room_mapping.py and replies.py (src/mmrelay): the channel of a room, the
-- data of a message mapping, and the sends of replies and of detections.
use meshtastic_matrix_relay.Base.{
  ℕ, String, Bool, true, false, Option, none, some, List, [], ◌∷◌, str_eq, ℤ, pos, ◌||◌,
  if◌then◌else◌,
}
use meshtastic_matrix_relay.Py.{Value, Fields, get, truthy}
use meshtastic_matrix_relay.Py
use meshtastic_matrix_relay.Routing.Overrides.{get_meshtastic_config_value}
use meshtastic_matrix_relay.Replies.Truncate.{truncate_message}
use meshtastic_matrix_relay.MatrixEvents.Text.{Text, is_empty, strip_quoted_lines}
use meshtastic_matrix_relay.MatrixEvents.State.{
  RoomEvent, MappingInfo, SendFunction, send_text, send_data, send_text_reply, Queued, Env,
}
use meshtastic_matrix_relay.MatrixEvents.Prefixes.{get_msgs_to_keep_config}

-- DEFAULT_MESSAGE_TRUNCATE_BYTES, and `truncate_message` with it
unfoldable pub truncated : Text → Text
unfolding truncate_message
truncated s = Py.or_else (truncate_message s (pos 227)) []

-- `get_meshtastic_config_value(config, "broadcast_enabled", DEFAULT_BROADCAST_ENABLED)`
abbrev pub broadcast_enabled : Fields → Bool
broadcast_enabled config =
    truthy (get_meshtastic_config_value (Value.dict config) "broadcast_enabled" (Value.bool true))

-- The channel of a room's configuration, where it is a natural number.
unfoldable pub room_channel : Fields → Option ℕ
room_channel room_config = elim (get room_config "meshtastic_channel" Value.null) [
  | Value.int (pos n) ↦ some n
  | _ ↦ none
]

-- `_get_meshtastic_interface_and_channel`: `none` without a channel or without an interface
unfoldable pub get_interface_and_channel : Env → Fields → Option ℕ
get_interface_and_channel env room_config = if env.connected then room_channel room_config else none

-- `_create_mapping_info`
unfoldable pub create_mapping_info : String → String → Text → Text → ℤ → Option MappingInfo
create_mapping_info event_id room_id text meshnet msgs_to_keep =
    if str_eq event_id "" || str_eq room_id "" || is_empty text
    then none
    else some (record {
      matrix_event_id = event_id;
      room_id = room_id;
      text = strip_quoted_lines text;
      meshnet = meshnet;
      msgs_to_keep = msgs_to_keep;
    })

-- the mapping of an event, where messages are stored
abbrev pub mapping_for : Bool → Fields → RoomEvent → Text → Text → Option MappingInfo
mapping_for storage_enabled config event text meshnet =
    if storage_enabled
    then create_mapping_info event.event_id event.room_id text meshnet
        (get_msgs_to_keep_config config)
    else none

-- What leaves for the mesh on a room's channel: nothing without a channel, an interface or broadcast.
abbrev pub sent_on : Option ℕ → Bool → SendFunction → Text → Option MappingInfo → List Queued
sent_on none enabled function text mapping = []
sent_on (some channel) false function text mapping = []
sent_on (some channel) true function text mapping =
    record { send_function = function; text = text; channel = channel; mapping_info = mapping } ∷ []

-- `_handle_detection_sensor_packet`; the text stands for its bytes.
unfoldable pub handle_detection_sensor_packet : Env → Fields → Fields → Text → List Queued
handle_detection_sensor_packet env config room_config text =
    if truthy (get_meshtastic_config_value (Value.dict config) "detection_sensor" (Value.bool true))
    then sent_on (get_interface_and_channel env room_config) (broadcast_enabled config) send_data
        text none
    else []

-- whether the queue took what was sent, if anything was
abbrev pub all_accepted : Env → List Queued → Bool
all_accepted env [] = false
all_accepted env (m ∷ _) = env.accepts m

abbrev pub reply_function : Option ℕ → SendFunction
reply_function none = send_text
reply_function (some id) = send_text_reply id

-- `send_reply_to_meshtastic`: what it queues, and whether that was taken
unfoldable pub send_reply_to_meshtastic :
    Env → Fields → Fields → RoomEvent → Text → Text → Bool → Text → Option ℕ → List Queued × Bool
send_reply_to_meshtastic env config room_config event reply_message text storage_enabled local
      reply_id =
    let sent =
      sent_on (get_interface_and_channel env room_config) (broadcast_enabled config)
        (reply_function reply_id) reply_message
        (mapping_for storage_enabled config event text local) in
    (sent, all_accepted env sent)
