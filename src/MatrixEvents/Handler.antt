-- ===== src/MatrixEvents/Handler.antt =====
-- matrix/events.py (src/mmrelay): `on_room_message`. A stage returns what it puts into the queue.
use meshtastic_matrix_relay.Base.{
  Bool, true, false, not, Option, none, some, List, [], ◌∷◌, ◌++◌, str_eq, pos, ◌&&◌, ◌||◌,
  if◌then◌else◌, take, length, ◌==◌,
}
use meshtastic_matrix_relay.Py.{Value, Fields, get, truthy, eq_int, codes}
use meshtastic_matrix_relay.Routing.Overrides.{get_meshtastic_config_value}
use meshtastic_matrix_relay.Inbound.Settings.{Interactions, get_interaction_settings}
use meshtastic_matrix_relay.MatrixEvents.Text.{Text, is_empty, starts_with, drop_text, digits_of}
use meshtastic_matrix_relay.MatrixEvents.State.{
  emote, RoomEvent, RoomPlugin, send_text, Queued, Env, text_at,
}
use meshtastic_matrix_relay.MatrixEvents.Prefixes.{
  message_storage_enabled, get_meshtastic_prefix, get_matrix_prefix,
}
use meshtastic_matrix_relay.MatrixEvents.Guards.{is_stale_event, room_config_of}
use meshtastic_matrix_relay.MatrixEvents.Sending.{
  truncated, broadcast_enabled, get_interface_and_channel, mapping_for, sent_on,
  handle_detection_sensor_packet,
}
use meshtastic_matrix_relay.MatrixEvents.Replying.{
  same_text, or_text, RelayKeys, handle_matrix_reply,
}
use meshtastic_matrix_relay.MatrixEvents.Reactions.{
  Reaction, reaction_of, relay_keys_of, text_of, reply_target, relay_remote_reaction,
  relay_local_reaction,
}

-- The plugins in their order until one handles the event; one that raises does not.
unfoldable pub handled_by_plugin : List RoomPlugin → Text → Bool
handled_by_plugin [] text = false
handled_by_plugin (plugin ∷ plugins) text = elim (plugin.handle_room_message text) [
  | some true ↦ true
  | some false ↦ handled_by_plugin plugins text
  | none ↦ handled_by_plugin plugins text
]

-- `any(_matches_command(plugin) for plugin in plugins)`
unfoldable pub is_command : List RoomPlugin → Bool
is_command [] = false
is_command (plugin ∷ plugins) = elim plugin.matches_command [
  | some true ↦ true
  | some false ↦ is_command plugins
  | none ↦ is_command plugins
]

-- `portnum == PORTNUM_DETECTION_SENSOR_APP`, after a text is read as a number or a name
unfoldable pub is_detection_packet : Value → Bool
is_detection_packet (Value.str s) = elim (digits_of (codes s)) [
  | some n ↦ n == 10
  | none ↦ str_eq s "DETECTION_SENSOR_APP"
]
is_detection_packet v = eq_int v (pos 10)

-- `local_meshnet_name`, a text
abbrev pub local_meshnet_name : Fields → Text
local_meshnet_name config =
    elim (get_meshtastic_config_value (Value.dict config) "meshnet_name" (Value.str "")) [
      | Value.str s ↦ codes s
      | _ ↦ []
    ]

-- A text that is to be relayed: what the plugins see of it, and what is sent.
pub record Formatted : Type 0 where
  pub text : Text
  pub full_message : Text

module _ (env : Env) (config : Fields) (room_config : Fields) (event : RoomEvent) where
  -- the text of a message from another mesh, without the prefix of its relay, cut to the limit
  unfoldable pub remote_text : RelayKeys → Text → Text → Text
  remote_text r short text =
      let shown = or_text r.text_override text in
      let original_prefix = get_matrix_prefix env.format config r.longname short r.meshnet_name in
      let stripped =
        if not (is_empty original_prefix) && starts_with shown original_prefix
        then drop_text (length original_prefix) shown
        else shown in
      truncated (or_text stripped r.text_override)

  -- `shortname`, which falls back to the long name only where it is missing
  abbrev pub short_or_long : RelayKeys → Text
  short_or_long r = elim (text_at event.content "meshtastic_shortname") [
    | some s ↦ codes s
    | none ↦ take 3 r.longname
  ]

  unfoldable pub format_remote : RelayKeys → Text → Option Formatted
  format_remote r text =
      let shown = remote_text r (short_or_long r) text in
      if is_empty shown
      then none
      else some (record {
        text = shown;
        full_message =
            get_matrix_prefix env.format config r.longname (short_or_long r) (take 4 r.meshnet_name)
            ++ shown;
      })

  unfoldable pub format_local : Text → Formatted
  format_local text = record {
    text = text;
    full_message =
        truncated
          (get_meshtastic_prefix env.format config env.display_name (codes event.sender) ++ text);
  }

  -- A message with the names of another relay comes from another mesh, or else from this one, and is
  -- then not sent back.
  unfoldable pub format_message : RelayKeys → Text → Option Formatted
  format_message r text =
      if not (is_empty r.longname) && not (is_empty r.meshnet_name)
      then (if same_text r.meshnet_name (local_meshnet_name config)
          then none
          else format_remote r text)
      else some (format_local text)

  -- after the formatting: plugins, commands, detections, and the relaying of the rest
  unfoldable pub relay_formatted : Bool → Option Formatted → List Queued
  relay_formatted storage_enabled none = []
  relay_formatted storage_enabled (some f) =
      if handled_by_plugin env.plugins f.text || is_command env.plugins
      then []
      else if is_detection_packet (get event.content "meshtastic_portnum" Value.null)
      then handle_detection_sensor_packet env config room_config f.text
      else sent_on (get_interface_and_channel env room_config) (broadcast_enabled config) send_text
          f.full_message
          (mapping_for storage_enabled config event f.text (local_meshnet_name config))

  abbrev pub relay_message : Bool → Text → List Queued
  relay_message storage_enabled text =
      relay_formatted storage_enabled (format_message (relay_keys_of event.content) text)

  -- A reply that is handled ends there; one that is not goes on as a message.
  unfoldable pub after_reply : Bool → Text → List Queued × Bool → List Queued
  after_reply storage_enabled text (sent, true) = sent
  after_reply storage_enabled text (sent, false) = sent ++ relay_message storage_enabled text

  unfoldable pub handle_message : Interactions → Reaction → List Queued
  handle_message interactions r =
      let text = text_of event r in
      let target = reply_target event r in
      let storage_enabled = message_storage_enabled interactions in
      if not (str_eq target "") && interactions.replies
      then after_reply storage_enabled text (
          handle_matrix_reply env config (relay_keys_of event.content) (local_meshnet_name config)
            room_config event text storage_enabled target)
      else relay_message storage_enabled text

  -- an emote of another relay that carries a reaction
  unfoldable pub is_remote_reaction : Bool
  is_remote_reaction =
      let meshnet = (relay_keys_of event.content).meshnet_name in
      not (is_empty meshnet)
      && not (same_text meshnet (local_meshnet_name config))
      && truthy (get event.content "meshtastic_replyId" Value.null)
      && (elim event.kind [ emote ↦ true | _ ↦ false ])

  -- A reaction with no target goes on as a message.
  unfoldable pub handle_reaction : Interactions → Reaction → List Queued
  handle_reaction interactions r =
      if not interactions.reactions
      then []
      else if is_remote_reaction
      then relay_remote_reaction env config room_config event r
      else if str_eq r.original_event_id ""
      then handle_message interactions r
      else relay_local_reaction env config room_config r (env.message_map r.original_event_id)

  unfoldable pub handle_event : List Queued
  handle_event =
      let interactions = get_interaction_settings (Value.dict config) in
      let r = reaction_of event in
      if truthy (get event.content "mmrelay_suppress" Value.null)
      then []
      else if r.is_reaction
      then handle_reaction interactions r
      else handle_message interactions r

unfoldable pub handle_in_room : Env → RoomEvent → Option Fields → Option Fields → List Queued
handle_in_room env event (some config) (some room_config) =
    handle_event env config room_config event
handle_in_room env event _ _ = []

unfoldable pub on_room_message : Env → RoomEvent → List Queued
on_room_message env event =
    if is_stale_event env event.server_timestamp || str_eq event.sender env.bot_user_id
    then []
    else handle_in_room env event env.config (room_config_of env.matrix_rooms event.room_id)
