-- ===== src/Routing/Tests.antt =====
-- Packets and configurations by example.
use meshtastic_matrix_relay.Base.{
  String, ◌≡◌, ◌≢◌, refl, Option, none, some, [], ◌∷◌, ℤ, pos, eqb_ℤ, if◌then◌else◌,
}
use meshtastic_matrix_relay.Py.{Value, Items, Fields, startswith, lower_is, strip}
use meshtastic_matrix_relay.Routing.Portnum.{is_encrypted_packet, get_portnum_name}
use meshtastic_matrix_relay.Routing.Overrides.{
  relay, drop, resolve_portnum_set, get_packet_routing_overrides, get_meshtastic_config_value,
  get_encrypted_action,
}
use meshtastic_matrix_relay.Routing.Classify.{classify_packet}
use meshtastic_matrix_relay.Routing.Policy.{classify-policy, classify-encrypted}

-- Some names of the protocol's enumeration.
abbrev names : ℤ → Option String
names z =
    if eqb_ℤ z (pos 0)
    then some "UNKNOWN_APP"
    else if eqb_ℤ z (pos 1)
    then some "TEXT_MESSAGE_APP"
    else if eqb_ℤ z (pos 66)
    then some "RANGE_TEST_APP"
    else none

abbrev one_field : String → Value → Value
one_field key v = Value.dict (Fields.field key v Fields.end)

abbrev disabling : Items
disabling = Items.cons (Value.str "UNKNOWN_APP") (Items.cons (Value.int (pos 66)) Items.nil)

abbrev routing : Fields
routing =
    Fields.field "disabled_portnums" (Value.list disabling)
      (Fields.field "encrypted_action" (Value.str " DROP ") Fields.end)

abbrev mesh : Fields
mesh = Fields.field "packet_routing" (Value.dict routing) Fields.end

abbrev config : Value
config = one_field "meshtastic" (Value.dict mesh)

abbrev sealed : Option Fields
sealed = some (Fields.field "encrypted" (Value.str "x") Fields.end)

classify-policy_example : (classify_packet names (Value.int (pos 66)) config none).0 ≡ drop
unfolding get_packet_routing_overrides resolve_portnum_set get_portnum_name
    get_meshtastic_config_value startswith is_encrypted_packet strip
classify-policy_example = classify-policy names (Value.int (pos 66)) config none refl

classify-encrypted_example : (classify_packet names Value.null config sealed).0 ≢ relay
unfolding is_encrypted_packet
classify-encrypted_example = (classify-encrypted names Value.null config sealed refl).0

sealed_is_dropped : (classify_packet names Value.null config sealed).0 ≡ drop
unfolding classify_packet is_encrypted_packet get_encrypted_action lower_is strip
sealed_is_dropped = refl

unnamed_port : get_portnum_name names (Value.int (pos 123)) none ≡ "UNKNOWN (portnum=123)"
unfolding get_portnum_name
unnamed_port = refl

-- A single text is taken as it is, a list is not.
text_is_taken :
    (resolve_portnum_set names (Value.str " UNKNOWN_APP ") "disabled_portnums").0
    ≡ "UNKNOWN_APP" ∷ []
unfolding resolve_portnum_set strip
text_is_taken = refl
