-- ===== src/MatrixEvents/Written/Relayed.antt =====
-- `on_room_message` (src/mmrelay/matrix/events.py): the way of a text that is no reply, and that of a
-- reply to a message that is known.
use meshtastic_matrix_relay.Base.{
  ◌≡◌, ◌≢◌, refl, arith, ℕ, ◌≤◌, String, Bool, true, false, Option, none, some, List, [], str_eq,
  ◌||◌, if◌then◌else◌, length,
}
use meshtastic_matrix_relay.Py.{Value, Fields, get, truthy}
use meshtastic_matrix_relay.Routing.Overrides.{get_meshtastic_config_value}
use meshtastic_matrix_relay.Inbound.Settings.{get_interaction_settings}
use meshtastic_matrix_relay.Replies.Utf8.{encode}
use meshtastic_matrix_relay.MatrixEvents.Text.{Text}
use meshtastic_matrix_relay.MatrixEvents.State.{
  RoomEvent, MappedMessage, MappingInfo, SendFunction, send_text, send_data, Queued, Env,
}
use meshtastic_matrix_relay.MatrixEvents.Sending.{
  truncated, broadcast_enabled, get_interface_and_channel, mapping_for, sent_on,
  handle_detection_sensor_packet, send_reply_to_meshtastic, reply_function,
}
use meshtastic_matrix_relay.MatrixEvents.Prefixes.{message_storage_enabled}
use meshtastic_matrix_relay.MatrixEvents.Replying.{
  RelayKeys, format_remote_reply, format_reply_message, reply_to_original,
}
use meshtastic_matrix_relay.MatrixEvents.Reactions.{Reaction, reaction_of, text_of, reply_target}
use meshtastic_matrix_relay.MatrixEvents.Handler.{
  handled_by_plugin, is_command, is_detection_packet, local_meshnet_name, format_local,
  format_message, relay_formatted,
}
use meshtastic_matrix_relay.MatrixEvents.Written.{
  message_text, Written, reply, text, detection, AllWritten, truncated-bytes, mapping_for-IsMapped,
}

pub text_of-plain :
    (event : RoomEvent) (r : Reaction)
    → r.is_reaction ≡ false
    → text_of event r ≡ message_text event
unfolding text_of
text_of-plain event r h = rw h

pub format-plain :
    (env : Env) (config room_config : Fields) (event : RoomEvent) (r : RelayKeys) (body : Text)
    → r.longname ≡ []
    → format_message env config room_config event r body
      ≡ some (format_local env config room_config event body)
unfolding format_message
format-plain env config room_config event r body h = rw h

module _ (env : Env) (config : Fields) (event : RoomEvent) where
  -- what is sent, if anything is
  sent-AllWritten :
      (channel : Option ℕ) (enabled : Bool) (function : SendFunction) (message : Text)
      (mapping : Option MappingInfo)
      → ((c : ℕ)
          → Written env config event (record {
            send_function = function;
            text = message;
            channel = c;
            mapping_info = mapping;
          }))
      → AllWritten env config event (sent_on channel enabled function message mapping)
  sent-AllWritten none enabled function message mapping w = tt
  sent-AllWritten (some c) false function message mapping w = tt
  sent-AllWritten (some c) true function message mapping w = (w c, tt)

  pub if-AllWritten :
      (b : Bool) (l k : List Queued)
      → (b ≡ true → AllWritten env config event l)
      → (b ≡ false → AllWritten env config event k)
      → AllWritten env config event (if b then l else k)
  if-AllWritten true l k g h = g refl
  if-AllWritten false l k g h = h refl

  message-Written :
      (message : Text) (c : ℕ)
      → handled_by_plugin env.plugins (message_text event) ≡ false
      → is_command env.plugins ≡ false
      → Written env config event (record {
        send_function = send_text;
        text = truncated message;
        channel = c;
        mapping_info =
            mapping_for
              (message_storage_enabled (get_interaction_settings (Value.dict config)))
              config
              event
              (message_text event)
              (local_meshnet_name config);
      })
  message-Written message c h k = text h k refl (truncated-bytes message) (
      mapping_for-IsMapped (get_interaction_settings (Value.dict config)) config event
        (local_meshnet_name config))

  neither : (a b : Bool) → (a || b) ≡ false → (a ≡ false) × (b ≡ false)
  neither a b h = ground arith

  -- the way of a message that is no reply, or whose reply was not taken
  pub relayed-AllWritten :
      (room_config : Fields)
      → AllWritten env config event (
          relay_formatted env config room_config event
            (message_storage_enabled (get_interaction_settings (Value.dict config)))
            (some (format_local env config room_config event (message_text event))))
  unfolding relay_formatted format_local handle_detection_sensor_packet
  relayed-AllWritten room_config =
      if-AllWritten (handled_by_plugin env.plugins (message_text event) || is_command env.plugins) _
        _ (λ _. tt)
        (λ h.
          let (plugins, command) = neither _ _ h in
          if-AllWritten (is_detection_packet (get event.content "meshtastic_portnum" Value.null)) _
            _
            (λ d.
              if-AllWritten
                (truthy (
                  get_meshtastic_config_value (Value.dict config) "detection_sensor"
                    (Value.bool true)))
                _ []
                (λ _.
                  sent-AllWritten (get_interface_and_channel env room_config)
                    (broadcast_enabled config) send_data (message_text event) none
                    (λ c. detection plugins command d refl refl refl))
                (λ _. tt))
            (λ _.
              sent-AllWritten (get_interface_and_channel env room_config) (broadcast_enabled config)
                send_text _ _ (λ c. message-Written _ c plugins command)))

  reply_function-text : (id : Option ℕ) → reply_function id ≢ send_data
  reply_function-text none h = cc
  reply_function-text (some n) h = cc

  reply_message-bytes :
      (r : RelayKeys) (local name body user : Text)
      → length (encode (format_reply_message env config r local name body user)) ≤ 227
  unfolding format_reply_message format_remote_reply
  reply_message-bytes r local name body user =
      if_bytes _ _ _ (truncated-bytes _) (truncated-bytes _)
    where
      if_bytes :
          (b : Bool) (s t : Text)
          → length (encode s) ≤ 227
          → length (encode t) ≤ 227
          → length (encode (if b then s else t)) ≤ 227
      if_bytes true s t h k = h
      if_bytes false s t h k = k

  pub replied-AllWritten :
      (room_config : Fields) (r : RelayKeys) (target : String) (o : Option MappedMessage)
      → reply_target event (reaction_of event) ≡ target
      → str_eq target "" ≡ false
      → (get_interaction_settings (Value.dict config)).replies ≡ true
      → env.message_map target ≡ o
      → AllWritten env config event
          (reply_to_original env config r
            (local_meshnet_name config)
            room_config
            event
            (message_text event)
            (message_storage_enabled (get_interaction_settings (Value.dict config)))
            o).0
  unfolding reply_to_original send_reply_to_meshtastic
  replied-AllWritten room_config r target none p q e m = tt
  replied-AllWritten room_config r target (some original) p q e m =
      sent-AllWritten (get_interface_and_channel env room_config) (broadcast_enabled config) _ _ _
        (λ c.
          reply target p q e (ground (arith, m)) (reply_function-text _)
            (reply_message-bytes r _ _ _ _)
            (mapping_for-IsMapped (get_interaction_settings (Value.dict config)) config event
              (local_meshnet_name config)))
