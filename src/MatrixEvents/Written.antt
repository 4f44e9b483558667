-- ===== src/MatrixEvents/Written.antt =====
-- What a message that is written in a room (src/mmrelay/matrix/events.py, `on_room_message`) becomes on
-- its way to the mesh: its length, the functions by which it is sent, and the mapping that is stored.
pub mod Relayed
pub mod Paths
use meshtastic_matrix_relay.Base.{
  ◌≡◌, ◌≢◌, refl, ap, ◌∙◌, subst, sym, arith, ℕ, ◌≤◌, String, Bool, true, false, not, Option, none,
  some, is_some, List, [], ◌∷◌, ◌++◌, str_eq, eq_iff, ◌&&◌, ◌||◌, if◌then◌else◌, length, ℤ,
}
use meshtastic_matrix_relay.Py.{Value, Fields, get, truthy, codes}
use meshtastic_matrix_relay.Routing.Overrides.{get_meshtastic_config_value}
use meshtastic_matrix_relay.Inbound.Settings.{Interactions, get_interaction_settings}
use meshtastic_matrix_relay.Replies.Utf8.{encode}
use meshtastic_matrix_relay.Replies.Truncate.{truncate_message}
use meshtastic_matrix_relay.Replies.Prefix.{truncate-bytes}
use meshtastic_matrix_relay.MatrixEvents.Text.{Text, is_empty, strip, strip_quoted_lines}
use meshtastic_matrix_relay.MatrixEvents.State.{
  RoomEvent, MappedMessage, MappingInfo, SendFunction, send_text, send_data, Queued, Env,
}
use meshtastic_matrix_relay.MatrixEvents.Guards.{is_stale_event, room_config_of}
use meshtastic_matrix_relay.MatrixEvents.Sending.{
  truncated, broadcast_enabled, get_interface_and_channel, create_mapping_info, mapping_for,
  sent_on, handle_detection_sensor_packet, send_reply_to_meshtastic, reply_function,
}
use meshtastic_matrix_relay.MatrixEvents.Prefixes.{message_storage_enabled, get_msgs_to_keep_config}
use meshtastic_matrix_relay.MatrixEvents.Replying.{
  RelayKeys, or_text, format_remote_reply, format_reply_message, reply_to_original,
  handle_matrix_reply,
}
use meshtastic_matrix_relay.MatrixEvents.Reactions.{
  Reaction, string_at, reaction_of, relay_keys_of, override_of, text_of, reply_target,
}
use meshtastic_matrix_relay.MatrixEvents.Handler.{
  handled_by_plugin, is_command, is_detection_packet, local_meshnet_name, Formatted, format_local,
  format_message, relay_formatted, after_reply, handle_message, handle_event, handle_in_room,
  on_room_message,
}

-- The text of a message: the relay's own, or else the event's.
abbrev pub message_text : RoomEvent → Text
message_text event = strip (
    or_text (override_of event.content)
      (or_text event.body (codes (string_at event.content "body"))))

abbrev pub Names : RoomEvent → Option MappingInfo → Type 0
Names event none = Unit
Names event (some info) = (info.matrix_event_id ≡ event.event_id) × (info.room_id ≡ event.room_id)

-- The mapping of an event: it is there where reactions or replies are enabled and the event has an id,
-- a room and a text, and names the event and its room.
pub record IsMapped (i : Interactions) (event : RoomEvent) (o : Option MappingInfo) : Type 0 where
  pub present : is_some o ≡ (
      (i.reactions || i.replies)
      && not (str_eq event.event_id "")
      && not (str_eq event.room_id "")
      && not (is_empty (message_text event)))
  pub names : Names event o

-- A call of the queue for a message: as a reply to a message that is known; or, where no plugin takes the
-- message and it is no command, as a text, or as the data of a detection.
pub data Written (env : Env) (config : Fields) (event : RoomEvent) (m : Queued) : Type 0 where
  reply :
      (target : String)
      → reply_target event (reaction_of event) ≡ target
      → str_eq target "" ≡ false
      → (get_interaction_settings (Value.dict config)).replies ≡ true
      → is_some (env.message_map target) ≡ true
      → m.send_function ≢ send_data
      → length (encode m.text) ≤ 227
      → IsMapped (get_interaction_settings (Value.dict config)) event m.mapping_info
      → Written env config event m
  text :
      handled_by_plugin env.plugins (message_text event) ≡ false
      → is_command env.plugins ≡ false
      → m.send_function ≡ send_text
      → length (encode m.text) ≤ 227
      → IsMapped (get_interaction_settings (Value.dict config)) event m.mapping_info
      → Written env config event m
  detection :
      handled_by_plugin env.plugins (message_text event) ≡ false
      → is_command env.plugins ≡ false
      → is_detection_packet (get event.content "meshtastic_portnum" Value.null) ≡ true
      → m.send_function ≡ send_data
      → m.text ≡ message_text event
      → m.mapping_info ≡ none
      → Written env config event m

abbrev pub AllWritten : Env → Fields → RoomEvent → List Queued → Type 0
AllWritten env config event [] = Unit
AllWritten env config event (m ∷ l) = Written env config event m × AllWritten env config event l

pub AllWritten-append :
    (env : Env) (config : Fields) (event : RoomEvent) (l k : List Queued)
    → AllWritten env config event l
    → AllWritten env config event k
    → AllWritten env config event (l ++ k)
AllWritten-append env config event [] k a b = b
AllWritten-append env config event (m ∷ l) k a b =
    (a.0, AllWritten-append env config event l k a.1 b)

-- A text that is cut to the limit has no more than 227 bytes.
pub truncated-bytes : (s : Text) → length (encode (truncated s)) ≤ 227
unfolding truncated truncate_message
truncated-bytes s = truncate-bytes s 227 (truncated s) refl

made-Names :
    (event : RoomEvent) (stored missing : Bool) (body meshnet : Text) (kept : ℤ)
    → Names event (
        if stored
        then (if missing
            then none
            else some (record {
              matrix_event_id = event.event_id;
              room_id = event.room_id;
              text = body;
              meshnet = meshnet;
              msgs_to_keep = kept;
            }))
        else none)
made-Names event false missing body meshnet kept = tt
made-Names event true true body meshnet kept = tt
made-Names event true false body meshnet kept = (refl, refl)

pub mapping_for-IsMapped :
    (i : Interactions) (config : Fields) (event : RoomEvent) (meshnet : Text)
    → IsMapped i event
        (mapping_for (message_storage_enabled i) config event (message_text event) meshnet)
unfolding create_mapping_info
mapping_for-IsMapped i config event meshnet = record {
  present = ground arith;
  names =
      made-Names event (message_storage_enabled i)
        (str_eq event.event_id "" || str_eq event.room_id "" || is_empty (message_text event))
        (strip_quoted_lines (message_text event)) meshnet (get_msgs_to_keep_config config);
}
