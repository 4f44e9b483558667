-- ===== src/Routing/Overrides.antt =====
-- src/mmrelay/meshtastic/packet_routing.py: the section `meshtastic.packet_routing` of the
-- configuration. A function that warns returns the keys that it hands to `_warn_once` with its
-- result, in order.
use meshtastic_matrix_relay.Base.{
  String, Bool, true, false, Option, none, some, List, [], ◌∷◌, ◌++◌, str_eq, ℤ, if◌then◌else◌,
}
use meshtastic_matrix_relay.Py.{
  Value, Items, Fields, get, lookup, or_else, as_dict, strip, startswith, lower_is, append,
  contains,
}
use meshtastic_matrix_relay.Routing.Portnum.{get_portnum_name}

pub data PacketAction : Type 0 where
  relay plugin_only drop : PacketAction

-- `_warn_once` on the set of keys that were warned of: the new set, and whether it logs.
unfoldable pub warn_once : String → List String → List String × Bool
warn_once key warned = if contains key warned then (warned, false) else (key ∷ warned, true)

-- `config.get(key, {})`, if `config` is a mapping and what is found is one
abbrev pub section : String → Value → Option Fields
section key config = elim (as_dict config) [
  | none ↦ none
  | some d ↦ as_dict (get d key (Value.dict Fields.end))
]

-- What `get_meshtastic_config_value` finds under a key of the section `meshtastic` that is not
-- required (src/mmrelay/config.py)
unfoldable pub get_meshtastic_config_value : Value → String → Value → Value
get_meshtastic_config_value config key default = elim (section "meshtastic" config) [
  | none ↦ default
  | some d ↦ or_else (lookup key d) default
]

module _ (port_name : ℤ → Option String) where
  -- The name of one entry of a list, and whether there is one.
  unfoldable pub entry_name : Value → Option String
  entry_name (Value.str s) =
      let name = get_portnum_name port_name (Value.str (strip s)) none in
      if str_eq (strip s) "" then none else if startswith name "UNKNOWN" then none else some name
  entry_name v =
      let name = get_portnum_name port_name v none in
      if startswith name "UNKNOWN" then none else some name

  -- The entries that have a name, and whether one has none.
  unfoldable pub resolve_entries : Items → List String × Bool
  resolve_entries Items.nil = ([], false)
  resolve_entries (Items.cons v items) =
      let (names, dropped) = resolve_entries items in
      elim (entry_name v) [ none ↦ (names, true) | some name ↦ (name ∷ names, dropped) ]

  unfoldable pub resolve_list : Items → String → List String × List String
  unfolding append resolve_entries entry_name
  resolve_list items setting =
      let (names, dropped) = resolve_entries items in
      (names, if dropped then append setting ":invalid_entries" ∷ [] else [])

  -- `_resolve_portnum_set`
  unfoldable pub resolve_portnum_set : Value → String → List String × List String
  unfolding append resolve_list
  resolve_portnum_set Value.null setting = ([], [])
  resolve_portnum_set (Value.str s) setting =
      if str_eq (strip s) "" then ([], append setting ":empty_string" ∷ []) else (strip s ∷ [], [])
  resolve_portnum_set (Value.list items) setting = resolve_list items setting
  resolve_portnum_set (Value.tuple items) setting = resolve_list items setting
  resolve_portnum_set (Value.set items) setting = resolve_list items setting
  resolve_portnum_set v setting = ([], append setting ":invalid_type" ∷ [])

  -- `_get_packet_routing_overrides`: the two sets
  unfoldable pub get_packet_routing_overrides : Value → (List String × List String) × List String
  get_packet_routing_overrides config = elim (section "meshtastic" config) [
    | none ↦ (([], []), [])
    | some mesh ↦ elim (section "packet_routing" (Value.dict mesh)) [
      | none ↦ (([], []), "packet_routing:not_a_mapping" ∷ [])
      | some routing ↦
          let (chat, warned) =
            resolve_portnum_set (get routing "chat_portnums" Value.null) "chat_portnums" in
          let (disabled, warned') =
            resolve_portnum_set (get routing "disabled_portnums" Value.null) "disabled_portnums" in
          ((chat, disabled), warned ++ warned')
    ]
  ]

-- The action that the value of `encrypted_action` names.
unfoldable pub encrypted_action_of : Value → PacketAction × List String
encrypted_action_of Value.null = (plugin_only, [])
encrypted_action_of (Value.str s) =
    if lower_is (strip s) "plugin_only"
    then (plugin_only, [])
    else if lower_is (strip s) "drop"
    then (drop, [])
    else (plugin_only, "encrypted_action:invalid_value" ∷ [])
encrypted_action_of v = (plugin_only, "encrypted_action:invalid_type" ∷ [])

-- `_get_encrypted_action`
unfoldable pub get_encrypted_action : Value → PacketAction × List String
unfolding encrypted_action_of
get_encrypted_action config = elim (section "meshtastic" config) [
  | none ↦ (plugin_only, [])
  | some mesh ↦ elim (section "packet_routing" (Value.dict mesh)) [
    | none ↦ (plugin_only, "encrypted_action:packet_routing_not_a_mapping" ∷ [])
    | some routing ↦ encrypted_action_of (get routing "encrypted_action" Value.null)
  ]
]
