-- ===== src/Routing/Portnum.antt =====
-- src/mmrelay/meshtastic/packet_routing.py: the names of port numbers.
use meshtastic_matrix_relay.Base.{
  String, Bool, false, Option, none, some, ◌||◌, ℤ, pos, str_eq, if◌then◌else◌,
}
use meshtastic_matrix_relay.Py.{
  Value, Fields, get, truthy, append, int_text, type_name, eq_int, eq_str,
}

abbrev pub text_message_app : String
text_message_app = "TEXT_MESSAGE_APP"

abbrev pub detection_sensor_app : String
detection_sensor_app = "DETECTION_SENSOR_APP"

-- `_is_encrypted_packet`
unfoldable pub is_encrypted_packet : Option Fields → Bool
is_encrypted_packet none = false
is_encrypted_packet (some packet) = truthy (get packet "encrypted" Value.null)

unknown_portnum : ℤ → String
unfolding append int_text
unknown_portnum z = append "UNKNOWN (portnum=" (append (int_text z) ")")

-- `portnum in (number, name)`
abbrev pub is_portnum : Value → ℤ → String → Bool
is_portnum v number name = eq_int v number || eq_str v name

-- `portnums_pb2.PortNum.Name`, which is not part of this program: the name of a number, or `none` for
-- its ValueError.
module _ (port_name : ℤ → Option String) where
  -- `_get_portnum_name`
  unfoldable pub get_portnum_name : Value → Option Fields → String
  unfolding unknown_portnum append type_name
  get_portnum_name Value.null packet =
      if is_encrypted_packet packet then "ENCRYPTED" else "UNKNOWN (None)"
  get_portnum_name (Value.str s) packet = if str_eq s "" then "UNKNOWN (empty string)" else s
  get_portnum_name (Value.int z) packet = elim (port_name z) [
    | none ↦ unknown_portnum z
    | some name ↦ if str_eq name "" then unknown_portnum z else name
  ]
  get_portnum_name v packet = append "UNKNOWN (type=" (append (type_name v) ")")

  -- `_is_text_message_portnum`
  unfoldable pub is_text_message_portnum : Value → Bool
  is_text_message_portnum portnum =
      is_portnum portnum (pos 1) text_message_app
      || str_eq (get_portnum_name portnum none) text_message_app
