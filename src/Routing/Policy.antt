-- ===== src/Routing/Policy.antt =====
-- The policy of `classify_packet` as a table, and the rule for encrypted packets.
use meshtastic_matrix_relay.Base.{
  String, ◌≡◌, ◌≢◌, ◌↔◌, inl, inr, refl, Bool, true, false, Option, none, some, List, ◌||◌, ℤ, pos,
  str_eq, arith, Bool-cases, if◌then◌else◌,
}
use meshtastic_matrix_relay.Py.{
  Value, Fields, get, contains, lower_is, strip, lower_is_unique, codes,
}
use meshtastic_matrix_relay.Routing.Portnum.{
  is_encrypted_packet, get_portnum_name, is_portnum, text_message_app, detection_sensor_app,
}
use meshtastic_matrix_relay.Routing.Overrides.{
  PacketAction, relay, plugin_only, drop, section, get_packet_routing_overrides,
  get_encrypted_action, encrypted_action_of,
}
use meshtastic_matrix_relay.Routing.Classify.{detection_sensor_enabled, classify_packet}

-- The documented rules: a disabled port number is dropped; the detection sensor follows its own
-- switch, also where the chat overrides name it; text and the chat overrides are relayed; all else
-- is left to plugins.
abbrev pub policy : (disabled chat sensor sensor_enabled text : Bool) → PacketAction
policy disabled chat sensor sensor_enabled text =
    if disabled
    then drop
    else if sensor
    then (if sensor_enabled then relay else plugin_only)
    else if chat || text
    then relay
    else plugin_only

module _ (port_name : ℤ → Option String) (portnum config : Value) (packet : Option Fields) where
  abbrev pub name : String
  name = get_portnum_name port_name portnum packet

  abbrev pub chat_set : List String
  chat_set = (get_packet_routing_overrides port_name config).0.0

  abbrev pub disabled_set : List String
  disabled_set = (get_packet_routing_overrides port_name config).0.1

  -- A packet that is not encrypted is classified by the table of `policy`: from whether the
  -- disabled and the chat overrides contain its name, whether it is a detection sensor packet or a
  -- text by number or by name, and the switch of the detection sensor.
  pub classify-policy :
      is_encrypted_packet packet ≡ false
      → (classify_packet port_name portnum config packet).0
        ≡ policy
            (contains name disabled_set)
            (contains name chat_set)
            (is_portnum portnum (pos 10) detection_sensor_app || str_eq name detection_sensor_app)
            (detection_sensor_enabled config)
            (is_portnum portnum (pos 1) text_message_app || str_eq name text_message_app)
  unfolding classify_packet
  classify-policy h = ground arith

-- The value of `meshtastic.packet_routing.encrypted_action`, if both sections are mappings.
abbrev pub encrypted_setting : Value → Value
encrypted_setting config = elim (section "meshtastic" config) [
  | none ↦ Value.null
  | some mesh ↦ elim (section "packet_routing" (Value.dict mesh)) [
    | none ↦ Value.null
    | some routing ↦ get routing "encrypted_action" Value.null
  ]
]

encrypted_action_of_str :
    (s : String) → lower_is (strip s) "drop" ≡ true → (encrypted_action_of (Value.str s)).0 ≡ drop
unfolding encrypted_action_of codes
encrypted_action_of_str s h = elim (Bool-cases (lower_is (strip s) "plugin_only")) [
  | inl p ↦ absurd (plugin_only≢drop (lower_is_unique (strip s) "plugin_only" "drop" p h))
  | inr p ↦ ground arith
]
  where
    plugin_only≢drop : codes "plugin_only" ≢ codes "drop"
    plugin_only≢drop e = ground arith

Value-str_injective : (s t : String) → Value.str s ≡ Value.str t → s ≡ t
Value-str_injective s t e = cc

encrypted_action-drop :
    (v : Value)
    → ((encrypted_action_of v).0 ≡ drop)
      ↔ ((s : String) × (v ≡ Value.str s) × (lower_is (strip s) "drop" ≡ true))
unfolding encrypted_action_of
encrypted_action-drop (Value.str s) = (
  λ e. (s, refl, ground arith),
  λ p. encrypted_action_of_str s (rw (Value-str_injective s p.0 p.1) p.2),
)
encrypted_action-drop Value.null = (λ e. cc, λ p. cc p.1)
encrypted_action-drop _ = (λ e. cc, λ p. cc p.1)

encrypted_action-ne-relay : (v : Value) → (encrypted_action_of v).0 ≢ relay
unfolding encrypted_action_of
encrypted_action-ne-relay (Value.str s) = λ e. ground arith
encrypted_action-ne-relay Value.null = λ e. cc
encrypted_action-ne-relay _ = λ e. cc

get_encrypted_action-of :
    (config : Value)
    → (get_encrypted_action config).0 ≡ (encrypted_action_of (encrypted_setting config)).0
unfolding get_encrypted_action encrypted_action_of
get_encrypted_action-of config = ground arith

-- An encrypted packet is never relayed, whatever its port number and the overrides are; it is dropped
-- exactly when `encrypted_action` is a text that reads `drop`, but for case and outer blanks.
pub classify-encrypted :
    (port_name : ℤ → Option String) (portnum config : Value) (packet : Option Fields)
    → is_encrypted_packet packet ≡ true
    → ((classify_packet port_name portnum config packet).0 ≢ relay)
      × (((classify_packet port_name portnum config packet).0 ≡ drop) ↔ (
          (s : String) × (encrypted_setting config ≡ Value.str s)
          × (lower_is (strip s) "drop" ≡ true)))
unfolding classify_packet
classify-encrypted port_name portnum config packet h =
    rw (h, get_encrypted_action-of config)
      (
        encrypted_action-ne-relay (encrypted_setting config),
        encrypted_action-drop (encrypted_setting config),
      )
