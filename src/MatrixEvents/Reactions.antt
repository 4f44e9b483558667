-- ===== src/MatrixEvents/Reactions.antt =====
-- matrix/events.py (src/mmrelay): what `on_room_message` reads from an event, and the relaying of
-- reactions.
use meshtastic_matrix_relay.Base.{
  String, Bool, true, false, not, Option, none, some, List, [], ◌++◌, ◌&&◌, ◌||◌, if◌then◌else◌,
  take, is_some,
}
use meshtastic_matrix_relay.Py.{Value, Fields, get, lookup, as_dict, truthy, eq_str, codes, or_else}
use meshtastic_matrix_relay.MatrixEvents.Text.{
  Text, is_empty, strip, quoted, search_reaction, digits_of,
}
use meshtastic_matrix_relay.MatrixEvents.State.{
  text_message, notice, emote, reaction, RoomEvent, MappedMessage, send_text, Queued, Env, text_at,
}
use meshtastic_matrix_relay.MatrixEvents.Prefixes.{get_meshtastic_prefix}
use meshtastic_matrix_relay.MatrixEvents.Sending.{
  broadcast_enabled, get_interface_and_channel, sent_on, reply_function,
}
use meshtastic_matrix_relay.MatrixEvents.Replying.{RelayKeys, or_text, text_or_empty}

pub record Reaction : Type 0 where
  pub is_reaction : Bool
  pub emoji : Text
  pub original_event_id : String

abbrev pub no_reaction : Reaction
no_reaction = record { is_reaction = false; emoji = []; original_event_id = "" }

-- `content.get("m.relates_to") or {}`
abbrev pub relates_to : Fields → Fields
relates_to content = or_else (as_dict (get content "m.relates_to" Value.null)) Fields.end

abbrev pub string_at : Fields → String → String
string_at d key = or_else (text_at d key) ""

-- A reaction event: its emoji and its target stand in `m.relates_to`, both or none.
unfoldable pub reaction_of_event : Fields → Reaction
reaction_of_event relates =
    if is_some (lookup "event_id" relates) && is_some (lookup "key" relates)
    then record {
      is_reaction = true;
      emoji = codes (string_at relates "key");
      original_event_id = string_at relates "event_id";
    }
    else record { is_reaction = true; emoji = []; original_event_id = "" }

-- An emote is a reaction where a relay says so or its relation is an annotation.
unfoldable pub reaction_of_emote : Fields → Reaction
reaction_of_emote content =
    if truthy (get content "meshtastic_replyId" Value.null)
      || eq_str (get (relates_to content) "rel_type" Value.null) "m.annotation"
    then record {
      is_reaction = true;
      emoji = elim (search_reaction (codes (string_at content "body"))) [
        | none ↦ codes "?"
        | some found ↦ strip found
      ];
      original_event_id = string_at (relates_to content) "event_id";
    }
    else no_reaction

unfoldable pub reaction_of : RoomEvent → Reaction
reaction_of event = elim event.kind [
  | reaction ↦ reaction_of_event (relates_to event.content)
  | emote ↦ reaction_of_emote event.content
  | text_message ↦ no_reaction
  | notice ↦ no_reaction
]

-- `mesh_text_override`, empty for None
unfoldable pub override_of : Fields → Text
override_of content = strip (codes (string_at content "meshtastic_text"))

unfoldable pub relay_keys_of : Fields → RelayKeys
relay_keys_of content = record {
  longname = text_or_empty (text_at content "meshtastic_longname");
  shortname = text_or_empty (text_at content "meshtastic_shortname");
  meshnet_name = text_or_empty (text_at content "meshtastic_meshnet");
  text_override = override_of content;
}

-- The text of an event; a reaction has one only from a relay.
unfoldable pub text_of : RoomEvent → Reaction → Text
text_of event r =
    if not r.is_reaction || not (is_empty (override_of event.content))
    then strip (
        or_text (override_of event.content)
          (or_text event.body (codes (string_at event.content "body"))))
    else []

-- `reply_to_event_id`, "" where the event is no reply
unfoldable pub reply_target : RoomEvent → Reaction → String
reply_target event r =
    if r.is_reaction
    then ""
    else string_at
        (or_else (as_dict (get (relates_to event.content) "m.in_reply_to" Value.null)) Fields.end)
        "event_id"

-- `<who>reacted <emoji> to "<text>"`
abbrev pub reaction_text : Text → Text → Text → Text
reaction_text who emoji original_text =
    who ++ codes "reacted " ++ emoji ++ codes " to \"" ++ quoted original_text ++ codes "\""

-- A reaction that the relay of another mesh has put into the room.
unfoldable pub relay_remote_reaction : Env → Fields → Fields → RoomEvent → Reaction → List Queued
relay_remote_reaction env config room_config event r =
    let relayed = relay_keys_of event.content in
    let short =
      or_text relayed.shortname
        (if is_empty relayed.longname then codes "???" else take 3 relayed.longname) in
    sent_on (get_interface_and_channel env room_config) (broadcast_enabled config) send_text
      (reaction_text (short ++ codes "/" ++ take 4 relayed.meshnet_name ++ codes " ") r.emoji
        (codes (string_at event.content "meshtastic_text")))
      none

-- A reaction to a message of the map, which goes out as a reply to it.
unfoldable pub relay_local_reaction :
    Env → Fields → Fields → Reaction → Option MappedMessage → List Queued
relay_local_reaction env config room_config r none = []
relay_local_reaction env config room_config r (some original) =
    sent_on (get_interface_and_channel env room_config) (broadcast_enabled config)
      (reply_function (digits_of original.meshtastic_id))
      (reaction_text (get_meshtastic_prefix env.format config env.display_name []) r.emoji
        original.meshtastic_text)
      none
