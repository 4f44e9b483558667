-- ===== src/Inbound/Handler.antt =====
-- src/mmrelay/meshtastic/events.py: `on_meshtastic_message`.
use meshtastic_matrix_relay.Base.{
  String, Bool, true, false, not, Option, none, some, List, [], ◌∷◌, ◌++◌, ◌&&◌, ◌||◌, str_eq,
  if◌then◌else◌,
}
use meshtastic_matrix_relay.Py.{
  Value, Fields, get, or_else, as_dict, is_null, truthy, eq_int, append,
}
use meshtastic_matrix_relay.Routing.Portnum.{is_text_message_portnum}
use meshtastic_matrix_relay.Routing.Overrides.{PacketAction, drop}
use meshtastic_matrix_relay.Routing.Classify.{classify_packet}
use meshtastic_matrix_relay.Inbound.State.{Facade, Interface, Env, Effect, Result}
use meshtastic_matrix_relay.Inbound.Settings.{
  Interactions, get_interaction_settings, meshnet_name_in, logging_readable,
}
use meshtastic_matrix_relay.Inbound.Names.{text_in, same_node, is_reaction}
use meshtastic_matrix_relay.Inbound.Guards.{admit}
use meshtastic_matrix_relay.Inbound.Plugins.{run_meshtastic_plugins}
use meshtastic_matrix_relay.Inbound.Rooms.{iterable_rooms, channel_mapped, deduce_channel}
use meshtastic_matrix_relay.Inbound.Relays.{
  Received, is_relay, portnum_in, reply_id_in, relay_reaction, relay_reply, names, relay_text,
  relay_to_rooms,
}

module _ (env : Env) (i : Interface) where
  -- A text that no plugin took, sent to the rooms of its channel.
  unfoldable pub relay_channel : Facade → Received → String → String → List Effect
  relay_channel f r longname shortname =
      elim (if is_relay r.action then deduce_channel r.packet (portnum_in r.decoded) else none) [
        | none ↦ []
        | some channel ↦
            if not (truthy f.matrix_rooms)
            then []
            else if not (channel_mapped channel (iterable_rooms f.matrix_rooms))
            then []
            else relay_to_rooms env i (relay_text env i r longname shortname) channel
                (iterable_rooms f.matrix_rooms)
      ]

  -- A text: saved names, then the plugins, then the rooms.
  unfoldable pub handle_text : Facade → Received → List Effect
  unfolding append
  handle_text f r =
      let ((longname, shortname), saved) = names env i r in
      let message =
        append (env.matrix_prefix r.config longname shortname r.meshnet_name)
          (text_in r.decoded "text") in
      let found =
        (run_meshtastic_plugins env.plugins r.packet (some message) (some longname)
          (some r.meshnet_name)).0 in
      saved
      ++ Effect.run_plugins (some message) (some longname) (some r.meshnet_name)
        ∷ (if r.direct || found then [] else relay_channel f r longname shortname)

  -- A packet that is no reaction or reply to a known message.
  unfoldable pub handle_plain : Facade → Received → List Effect
  handle_plain f r =
      if str_eq (text_in r.decoded "text") ""
      then Effect.run_plugins none none none ∷ []
      else handle_text f r

  -- Whether a packet is relayed as a reaction, or as a reply, if its original is known.
  abbrev pub wants_reaction : Received → Bool
  wants_reaction r =
      is_relay r.action
      && is_text_message_portnum env.port_name (portnum_in r.decoded)
      && truthy (reply_id_in r.decoded)
      && is_reaction r.decoded
      && r.interactions.reactions

  abbrev pub wants_reply : Received → Bool
  wants_reply r =
      is_relay r.action
      && is_text_message_portnum env.port_name (portnum_in r.decoded)
      && truthy (reply_id_in r.decoded)
      && not (is_reaction r.decoded)
      && r.interactions.replies

  unfoldable pub handle_received : Facade → Received → List Effect
  handle_received f r = elim (env.message_map (reply_id_in r.decoded)) [
    | none ↦ handle_plain f r
    | some o ↦
        if wants_reaction r
        then Effect.matrix_relay (relay_reaction env i r o) ∷ []
        else if wants_reply r
        then Effect.matrix_relay (relay_reply env i r o) ∷ []
        else handle_plain f r
  ]

  -- A reaction is filtered out where reactions are off.
  abbrev pub filtered : Interactions → Fields → Bool
  filtered interactions decoded =
      is_text_message_portnum env.port_name (portnum_in decoded)
      && not (interactions.reactions)
      && not (is_null (reply_id_in decoded))
      && is_reaction decoded

  -- For whom a packet is: `some true` for the relay's node, `some false` for all, else `none`.
  abbrev pub recipient : Value → Value → Option Bool
  recipient to my_id =
      if same_node to my_id
      then some true
      else if eq_int to (env.broadcast_num) || is_null to
      then some false
      else none

  -- A packet that is to be handled, from the test of its recipient on.
  unfoldable pub deliver : Facade → Fields → Fields → Fields → PacketAction → Interactions → Result
  deliver f config packet decoded action interactions = elim i.my_info [
    | none ↦ Result.returned []
    | some my_id ↦ elim (recipient (get packet "to" Value.null) my_id) [
      | none ↦ Result.returned []
      | some direct ↦ elim (meshnet_name_in config) [
        | none ↦ Result.raised
        | some meshnet_name ↦ Result.returned (
            handle_received f (record {
              config = config;
              packet = packet;
              decoded = decoded;
              action = action;
              interactions = interactions;
              meshnet_name = meshnet_name;
              direct = direct;
            }))
      ]
    ]
  ]

  -- A packet that has passed the guards.
  unfoldable pub process : Facade → Fields → Result
  process f packet = elim f.config [
    | none ↦ Result.returned []
    | some config ↦
        let decoded = or_else (as_dict (get packet "decoded" Value.null)) Fields.end in
        let interactions = get_interaction_settings (Value.dict config) in
        elim (classify_packet env.port_name (portnum_in decoded) (Value.dict config)
          (some packet)).0 [
            | drop ↦ Result.returned []
            | action ↦
                if not (logging_readable config)
                then Result.raised
                else if filtered interactions decoded
                    || env.later_shutting_down
                    || not (f.event_loop)
                then Result.returned []
                else deliver f config packet decoded action interactions
          ]
  ]

  -- `on_meshtastic_message`
  unfoldable pub on_meshtastic_message : Value → Facade → Facade × Result
  unfolding admit process
  on_meshtastic_message packet f = elim (as_dict packet) [
    | none ↦ (f, Result.returned [])
    | some Fields.end ↦ (f, Result.returned [])
    | some fields ↦
        let (g, goes_on) = admit env i fields f in
        (g, if goes_on then process g fields else Result.returned [])
  ]
