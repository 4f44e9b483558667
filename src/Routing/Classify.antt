-- ===== src/Routing/Classify.antt =====
-- src/mmrelay/meshtastic/packet_routing.py: `classify_packet`.
use meshtastic_matrix_relay.Base.{
  String, Bool, true, not, Option, List, [], ◌∷◌, ◌||◌, ℤ, pos, str_eq, if◌then◌else◌,
}
use meshtastic_matrix_relay.Py.{Value, Fields, truthy, contains}
use meshtastic_matrix_relay.Routing.Portnum.{
  is_encrypted_packet, get_portnum_name, is_portnum, text_message_app, detection_sensor_app,
}
use meshtastic_matrix_relay.Routing.Overrides.{
  PacketAction, relay, plugin_only, drop, get_meshtastic_config_value, get_packet_routing_overrides,
  get_encrypted_action,
}

-- `meshtastic.detection_sensor`, by default on
abbrev pub detection_sensor_enabled : Value → Bool
detection_sensor_enabled config =
    truthy (get_meshtastic_config_value config "detection_sensor" (Value.bool true))

module _ (port_name : ℤ → Option String) where
  -- The decision about a packet that is not encrypted, from the two sets of overrides.
  unfoldable pub decide : Value → Value → String → List String → List String → PacketAction
  decide portnum config name chat disabled =
      let is_detection_sensor =
        is_portnum portnum (pos 10) detection_sensor_app || str_eq name detection_sensor_app in
      let is_text_message =
        is_portnum portnum (pos 1) text_message_app || contains name (text_message_app ∷ []) in
      if contains name disabled
      then drop
      else if contains name chat
      then (if is_detection_sensor
          then (if not (detection_sensor_enabled config) then plugin_only else relay)
          else relay)
      else if is_detection_sensor
      then (if detection_sensor_enabled config then relay else plugin_only)
      else if is_text_message
      then relay
      else plugin_only

  -- `classify_packet`, with the keys that it warns of
  unfoldable pub classify_packet : Value → Value → Option Fields → PacketAction × List String
  unfolding decide
  classify_packet portnum config packet =
      if is_encrypted_packet packet
      then get_encrypted_action config
      else (let ((chat, disabled), warned) = get_packet_routing_overrides port_name config in
          (decide portnum config (get_portnum_name port_name portnum packet) chat disabled, warned))
