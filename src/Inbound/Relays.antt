-- ===== src/Inbound/Relays.antt =====
-- src/mmrelay/meshtastic/events.py: what `on_meshtastic_message` hands to `matrix_relay`.
use meshtastic_matrix_relay.Base.{
  String, Bool, true, false, none, some, List, [], ◌∷◌, ◌++◌, length, ltb, ℤ, pos, str_eq,
  if◌then◌else◌,
}
use meshtastic_matrix_relay.Py.{
  Value, Items, Fields, get, lookup, or_else, as_dict, append, strip, codes,
}
use meshtastic_matrix_relay.Routing.Overrides.{PacketAction, relay, plugin_only, drop}
use meshtastic_matrix_relay.Inbound.State.{Interface, Original, Env, Relayed, Effect}
use meshtastic_matrix_relay.Inbound.Settings.{Interactions}
use meshtastic_matrix_relay.Inbound.Names.{
  text_in, shown_text, sender_of, get_name_safely, name_from_nodes, take,
}
use meshtastic_matrix_relay.Inbound.Rooms.{has_channel}

-- What a handler past its guards knows of the packet.
pub record Received : Type 0 where
  pub config : Fields
  pub packet : Fields
  pub decoded : Fields
  pub action : PacketAction
  pub interactions : Interactions
  pub meshnet_name : String
  pub direct : Bool

abbrev pub is_relay : PacketAction → Bool
is_relay relay = true
is_relay plugin_only = false
is_relay drop = false

abbrev pub portnum_in : Fields → Value
portnum_in decoded = get decoded "portnum" Value.null

abbrev pub reply_id_in : Fields → Value
reply_id_in decoded = get decoded "replyId" Value.null

-- `decoded.get("portnum", 0)`
abbrev pub relayed_portnum : Fields → Value
relayed_portnum decoded = get decoded "portnum" (Value.int (pos 0))

-- The start of a reaction's text
abbrev pub abbreviated : String → String
abbreviated s = if ltb 40 (length (codes s)) then append (take 40 s) "..." else s

-- `text.strip()`, or a sign where nothing is left
abbrev pub reaction_symbol : String → String
reaction_symbol text = if str_eq (strip text) "" then "⚠\u{fe0f}" else strip text

module _ (env : Env) (i : Interface) where
  abbrev pub longname_of : Received → String
  longname_of r =
      let sender = sender_of r.packet in get_name_safely (env.longname_row sender) sender

  abbrev pub shortname_of : Received → String
  shortname_of r =
      let sender = sender_of r.packet in get_name_safely (env.shortname_row sender) sender

  -- `meshtastic_meshnet or meshnet_name`
  abbrev pub meshnet_of : Received → Original → String
  meshnet_of r o = if str_eq o.meshtastic_meshnet "" then r.meshnet_name else o.meshtastic_meshnet

  abbrev pub prefix_of : Received → Original → String
  prefix_of r o = env.matrix_prefix r.config (longname_of r) (shortname_of r) (meshnet_of r o)

  -- A reaction to a message that the message map has.
  unfoldable pub relay_reaction : Received → Original → Relayed
  unfolding append
  relay_reaction r o = record {
    room_id = Value.str o.matrix_room_id;
    message = append "\n " (
        append (prefix_of r o) (
          append "reacted " (
            append (reaction_symbol (text_in r.decoded "text"))
              (append " to \"" (append (abbreviated o.meshtastic_text) "\"")))));
    longname = longname_of r;
    shortname = shortname_of r;
    meshnet_name = meshnet_of r o;
    portnum = relayed_portnum r.decoded;
    meshtastic_id = get r.packet "id" Value.null;
    meshtastic_reply_id = reply_id_in r.decoded;
    meshtastic_text = Value.str o.meshtastic_text;
    emote = true;
    emoji = true;
    reply_to_event_id = none;
  }

  -- A reply to a message that the message map has.
  unfoldable pub relay_reply : Received → Original → Relayed
  relay_reply r o = record {
    room_id = Value.str o.matrix_room_id;
    message = append (prefix_of r o) (shown_text r.decoded);
    longname = longname_of r;
    shortname = shortname_of r;
    meshnet_name = meshnet_of r o;
    portnum = relayed_portnum r.decoded;
    meshtastic_id = get r.packet "id" Value.null;
    meshtastic_reply_id = reply_id_in r.decoded;
    meshtastic_text = get r.decoded "text" Value.null;
    emote = false;
    emoji = false;
    reply_to_event_id = some o.matrix_event_id;
  }

  -- Names of the sender with what is saved on the way, long name first.
  abbrev pub names : Received → (String × String) × List Effect
  names r =
      let sender = sender_of r.packet in
      let node = i.nodes sender in
      let (longname, saved) =
        name_from_nodes (env.longname_row sender) "longName" sender node Effect.save_longname in
      let (shortname, saved') =
        name_from_nodes (env.shortname_row sender) "shortName" sender node Effect.save_shortname in
      ((longname, shortname), saved ++ saved')

  abbrev pub relay_text : Received → String → String → Value → Relayed
  relay_text r longname shortname room_id = record {
    room_id = room_id;
    message =
        append (env.matrix_prefix r.config longname shortname r.meshnet_name)
          (text_in r.decoded "text");
    longname = longname;
    shortname = shortname;
    meshnet_name = r.meshnet_name;
    portnum = relayed_portnum r.decoded;
    meshtastic_id = get r.packet "id" Value.null;
    meshtastic_reply_id = Value.null;
    meshtastic_text = Value.str (text_in r.decoded "text");
    emote = false;
    emoji = false;
    reply_to_event_id = none;
  }

  -- The relays to the rooms of a channel. A room without an id raises an error that is logged.
  unfoldable pub relay_to_rooms : (Value → Relayed) → ℤ → Items → List Effect
  unfolding has_channel
  relay_to_rooms make channel Items.nil = []
  relay_to_rooms make channel (Items.cons room rooms) =
      let rest = relay_to_rooms make channel rooms in
      if has_channel channel room
      then elim (lookup "id" (or_else (as_dict room) Fields.end)) [
        | none ↦ rest
        | some id ↦ Effect.matrix_relay (make id) ∷ rest
      ]
      else rest
