-- ===== src/MatrixEvents/Tests.antt =====
-- `on_room_message` (src/mmrelay/matrix/events.py) on concrete events.
use meshtastic_matrix_relay.Base.{
  ◌≡◌, ◌≢◌, refl, sym, eq_iff, String, true, Option, none, some, List, [], ◌∷◌, pos,
}
use meshtastic_matrix_relay.Py.{
  Value, Items, Fields, end, field, codes, int, str, dict, bool, append, int_text, eq_int, is_space,
}
use meshtastic_matrix_relay.Replies.Utf8.{encode, decode}
use meshtastic_matrix_relay.MatrixEvents.Text.{
  Text, strip, lstrip, rstrip, strip_quoted_lines, splitlines, lines_from, join_lines, starts_with,
  quoted, preview, one_line, search_reaction, up_to_word, drop_text, digits_of, digits_value,
}
use meshtastic_matrix_relay.MatrixEvents.State.{
  text_message, reaction, RoomEvent, Queued, Env, send_text, send_text_reply,
}
use meshtastic_matrix_relay.MatrixEvents.Guards.{is_stale_event, room_config_of, room_in_items}
use meshtastic_matrix_relay.MatrixEvents.Guarded.{IsAdmitted, on_room_message-IsAdmitted}
use meshtastic_matrix_relay.MatrixEvents.Handler.{
  on_room_message, handle_in_room, handle_event, handle_message, handle_reaction,
  is_remote_reaction, relay_formatted, format_message, format_local, after_reply,
  is_detection_packet, handled_by_plugin, is_command,
}
use meshtastic_matrix_relay.MatrixEvents.Reactions.{
  reaction_of, reaction_of_event, reaction_of_emote, relay_keys_of, text_of, reply_target,
  override_of, relay_local_reaction,
}
use meshtastic_matrix_relay.MatrixEvents.Sending.{
  get_interface_and_channel, room_channel, truncated, create_mapping_info,
}
use meshtastic_matrix_relay.MatrixEvents.Prefixes.{
  get_msgs_to_keep_config, get_meshtastic_prefix, name_and_server, split_colon, truncated_vars,
}
use meshtastic_matrix_relay.MatrixEvents.Replying.{same_text}
use meshtastic_matrix_relay.Inbound.Settings.{get_interaction_settings}
use meshtastic_matrix_relay.Routing.Overrides.{get_meshtastic_config_value}
use meshtastic_matrix_relay.MatrixEvents.Written.{AllWritten}
use meshtastic_matrix_relay.MatrixEvents.Written.Paths.{on_room_message-AllWritten}

-- A formatter that knows the default formats only.
abbrev bare_format : String → List (String × Text) → Option Text
bare_format _ _ = none

abbrev config : Fields
config =
    field "meshtastic"
      (dict (
        field "message_interactions"
          (dict (field "reactions" (bool true) (field "replies" (bool true) end))) end))
      end

abbrev room_config : Fields
room_config = field "id" (str "!r") (field "meshtastic_channel" (int (pos 2)) end)

abbrev env : Env
env = record {
  bot_user_id = "@bot:s";
  bot_start_time = 1700000000000;
  elapsed_ms = 1000;
  now_ms = 1700000001000;
  matrix_rooms = Value.list (Items.cons (dict room_config) Items.nil);
  config = some config;
  format = bare_format;
  display_name = codes "Alice";
  message_map = λ _. some (record { meshtastic_id = codes "77"; meshtastic_text = codes "hi" });
  connected = true;
  plugins = [];
  accepts = λ _. true;
}

abbrev hello : RoomEvent
hello = record {
  kind = text_message;
  sender = "@alice:s";
  event_id = "$1";
  room_id = "!r";
  server_timestamp = 1700000000500;
  body = codes " hello ";
  content = end;
}

abbrev thumb : RoomEvent
thumb = record hello {
  kind = reaction;
  content =
      field "m.relates_to" (dict (field "event_id" (str "$0") (field "key" (str "+1") end))) end;
}

abbrev sent_hello : List Queued
sent_hello =
    record {
      send_function = send_text;
      text = codes "Alice[M]: hello";
      channel = 2;
      mapping_info = some (record {
        matrix_event_id = "$1";
        room_id = "!r";
        text = codes "hello";
        meshnet = [];
        msgs_to_keep = pos 500;
      });
    }
    ∷ []

hello_sent : on_room_message env hello ≡ sent_hello
unfolding on_room_message handle_in_room handle_event handle_message handle_reaction
    is_remote_reaction relay_formatted format_message format_local after_reply reaction_of
    reaction_of_event reaction_of_emote relay_keys_of text_of reply_target override_of
    relay_local_reaction is_stale_event room_config_of room_in_items get_interaction_settings
    get_meshtastic_config_value get_interface_and_channel room_channel truncated create_mapping_info
    get_msgs_to_keep_config get_meshtastic_prefix name_and_server split_colon truncated_vars append
    int_text same_text is_detection_packet eq_int handled_by_plugin is_command strip lstrip rstrip
    strip_quoted_lines splitlines lines_from join_lines starts_with quoted preview one_line
    search_reaction up_to_word drop_text digits_of digits_value is_space codes encode decode
hello_sent = refl

-- A reaction becomes a reply to the message that it is about.
thumb_sent :
    on_room_message env thumb
    ≡ record {
      send_function = send_text_reply 77;
      text = codes "Alice[M]: reacted +1 to \"hi\"";
      channel = 2;
      mapping_info = none;
    }
      ∷ []
unfolding on_room_message handle_in_room handle_event handle_message handle_reaction
    is_remote_reaction relay_formatted format_message format_local after_reply reaction_of
    reaction_of_event reaction_of_emote relay_keys_of text_of reply_target override_of
    relay_local_reaction is_stale_event room_config_of room_in_items get_interaction_settings
    get_meshtastic_config_value get_interface_and_channel room_channel truncated create_mapping_info
    get_msgs_to_keep_config get_meshtastic_prefix name_and_server split_colon truncated_vars append
    int_text same_text is_detection_packet eq_int handled_by_plugin is_command strip lstrip rstrip
    strip_quoted_lines splitlines lines_from join_lines starts_with quoted preview one_line
    search_reaction up_to_word drop_text digits_of digits_value is_space codes encode decode
thumb_sent = refl

-- A reaction that names no event goes out as a prefix without a text.
thumb_without_target :
    on_room_message env (record thumb { content = end; body = [] })
    ≡ record {
      send_function = send_text;
      text = codes "Alice[M]: ";
      channel = 2;
      mapping_info = none;
    }
      ∷ []
unfolding on_room_message handle_in_room handle_event handle_message handle_reaction
    is_remote_reaction relay_formatted format_message format_local after_reply reaction_of
    reaction_of_event reaction_of_emote relay_keys_of text_of reply_target override_of
    relay_local_reaction is_stale_event room_config_of room_in_items get_interaction_settings
    get_meshtastic_config_value get_interface_and_channel room_channel truncated create_mapping_info
    get_msgs_to_keep_config get_meshtastic_prefix name_and_server split_colon truncated_vars append
    int_text same_text is_detection_packet eq_int handled_by_plugin is_command strip lstrip rstrip
    strip_quoted_lines splitlines lines_from join_lines starts_with quoted preview one_line
    search_reaction up_to_word drop_text digits_of digits_value is_space codes encode decode
thumb_without_target = refl

quotation_stripped : strip_quoted_lines (codes "> old\n\n new ") ≡ codes "new"
unfolding on_room_message handle_in_room handle_event handle_message handle_reaction
    is_remote_reaction relay_formatted format_message format_local after_reply reaction_of
    reaction_of_event reaction_of_emote relay_keys_of text_of reply_target override_of
    relay_local_reaction is_stale_event room_config_of room_in_items get_interaction_settings
    get_meshtastic_config_value get_interface_and_channel room_channel truncated create_mapping_info
    get_msgs_to_keep_config get_meshtastic_prefix name_and_server split_colon truncated_vars append
    int_text same_text is_detection_packet eq_int handled_by_plugin is_command strip lstrip rstrip
    strip_quoted_lines splitlines lines_from join_lines starts_with quoted preview one_line
    search_reaction up_to_word drop_text digits_of digits_value is_space codes encode decode
quotation_stripped = refl

emoji_found : search_reaction (codes "Bob reacted +1 to \"x\"") ≡ some (codes "+1")
unfolding on_room_message handle_in_room handle_event handle_message handle_reaction
    is_remote_reaction relay_formatted format_message format_local after_reply reaction_of
    reaction_of_event reaction_of_emote relay_keys_of text_of reply_target override_of
    relay_local_reaction is_stale_event room_config_of room_in_items get_interaction_settings
    get_meshtastic_config_value get_interface_and_channel room_channel truncated create_mapping_info
    get_msgs_to_keep_config get_meshtastic_prefix name_and_server split_colon truncated_vars append
    int_text same_text is_detection_packet eq_int handled_by_plugin is_command strip lstrip rstrip
    strip_quoted_lines splitlines lines_from join_lines starts_with quoted preview one_line
    search_reaction up_to_word drop_text digits_of digits_value is_space codes encode decode
emoji_found = refl

hello-foreign : hello.sender ≢ env.bot_user_id
hello-foreign h = cc (sym ((eq_iff hello.sender env.bot_user_id).1 h))

on_room_message-IsAdmitted_example : IsAdmitted env hello sent_hello
on_room_message-IsAdmitted_example = on_room_message-IsAdmitted env hello _ [] hello_sent

on_room_message-AllWritten_example : AllWritten env config hello (on_room_message env hello)
unfolding reaction_of relay_keys_of strip codes
on_room_message-AllWritten_example = on_room_message-AllWritten env config hello refl refl refl
