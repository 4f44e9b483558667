-- ===== src/MatrixEvents/Written/Paths.antt =====
-- `on_room_message` (src/mmrelay/matrix/events.py) on every path of a message that is no reaction.
use meshtastic_matrix_relay.Base.{
  ◌≡◌, refl, subst, sym, arith, Bool, true, false, not, Option, none, some, List, [], str_eq, ◌&&◌,
  ◌||◌, if◌then◌else◌,
}
use meshtastic_matrix_relay.Py.{Value, Fields, get, truthy}
use meshtastic_matrix_relay.Inbound.Settings.{get_interaction_settings}
use meshtastic_matrix_relay.MatrixEvents.Text.{Text}
use meshtastic_matrix_relay.MatrixEvents.State.{RoomEvent, Queued, Env}
use meshtastic_matrix_relay.MatrixEvents.Guards.{is_stale_event, room_config_of}
use meshtastic_matrix_relay.MatrixEvents.Prefixes.{message_storage_enabled}
use meshtastic_matrix_relay.MatrixEvents.Replying.{handle_matrix_reply}
use meshtastic_matrix_relay.MatrixEvents.Reactions.{reaction_of, relay_keys_of, reply_target}
use meshtastic_matrix_relay.MatrixEvents.Handler.{
  local_meshnet_name, format_message, relay_formatted, after_reply, handle_message, handle_event,
  handle_in_room, on_room_message,
}
use meshtastic_matrix_relay.MatrixEvents.Written.{message_text, AllWritten, AllWritten-append}
use meshtastic_matrix_relay.MatrixEvents.Written.Relayed.{
  text_of-plain, format-plain, if-AllWritten, relayed-AllWritten, replied-AllWritten,
}

module _ (env : Env) (config : Fields) (event : RoomEvent) where
  -- a message without the names of another relay
  plain-AllWritten :
      (room_config : Fields)
      → (relay_keys_of event.content).longname ≡ []
      → AllWritten env config event (
          relay_formatted env config room_config event
            (message_storage_enabled (get_interaction_settings (Value.dict config)))
            (format_message env config room_config event
              (relay_keys_of event.content)
              (message_text event)))
  plain-AllWritten room_config h =
      subst
        (λ o. AllWritten env config event (
          relay_formatted env config room_config event
            (message_storage_enabled (get_interaction_settings (Value.dict config))) o))
        (sym (
          format-plain env config room_config event (relay_keys_of event.content)
            (message_text event) h))
        (relayed-AllWritten env config event room_config)

  after_reply-AllWritten :
      (room_config : Fields) (sent : List Queued × Bool)
      → (relay_keys_of event.content).longname ≡ []
      → AllWritten env config event sent.0
      → AllWritten env config event (
          after_reply env config room_config event
            (message_storage_enabled (get_interaction_settings (Value.dict config)))
            (message_text event)
            sent)
  unfolding after_reply
  after_reply-AllWritten room_config (sent, true) h w = w
  after_reply-AllWritten room_config (sent, false) h w =
      AllWritten-append env config event sent _ w (plain-AllWritten room_config h)

  -- the two ways of a message, with its text
  ways : Fields → Text → List Queued
  ways room_config body =
      let storage = message_storage_enabled (get_interaction_settings (Value.dict config)) in
      let keys = relay_keys_of event.content in
      let target = reply_target event (reaction_of event) in
      if not (str_eq target "") && (get_interaction_settings (Value.dict config)).replies
      then after_reply env config room_config event storage body (
          handle_matrix_reply env config keys (local_meshnet_name config) room_config event body
            storage target)
      else relay_formatted env config room_config event storage
          (format_message env config room_config event keys body)

  ways-AllWritten :
      (room_config : Fields)
      → (relay_keys_of event.content).longname ≡ []
      → AllWritten env config event (ways room_config (message_text event))
  unfolding ways handle_matrix_reply
  ways-AllWritten room_config h =
      if-AllWritten env config event
        (not (str_eq (reply_target event (reaction_of event)) "")
          && (get_interaction_settings (Value.dict config)).replies)
        _ _
        (λ e.
          let (named, enabled) = both _ _ e in
          after_reply-AllWritten room_config _ h (
            replied-AllWritten env config event room_config (relay_keys_of event.content)
              (reply_target event (reaction_of event)) _ refl named enabled refl))
        (λ _. plain-AllWritten room_config h)
    where
      both : (a b : Bool) → (not a && b) ≡ true → (a ≡ false) × (b ≡ true)
      both a b e = ground arith

  message-AllWritten :
      (room_config : Fields)
      → (reaction_of event).is_reaction ≡ false
      → (relay_keys_of event.content).longname ≡ []
      → AllWritten env config event (
          handle_message env config room_config event
            (get_interaction_settings (Value.dict config))
            (reaction_of event))
  unfolding handle_message ways
  message-AllWritten room_config h k =
      subst (λ body. AllWritten env config event (ways room_config body))
        (sym (text_of-plain event (reaction_of event) h)) (ways-AllWritten room_config k)

  event-AllWritten :
      (room_config : Fields)
      → (reaction_of event).is_reaction ≡ false
      → (relay_keys_of event.content).longname ≡ []
      → AllWritten env config event (handle_event env config room_config event)
  unfolding handle_event
  event-AllWritten room_config h k =
      if-AllWritten env config event (truthy (get event.content "mmrelay_suppress" Value.null)) _ _
        (λ _. tt)
        (λ _.
          if-AllWritten env config event (reaction_of event).is_reaction _ _
            (λ e. absurd (opposite e h)) (λ _. message-AllWritten room_config h k))
    where
      opposite : {b : Bool} → b ≡ true → b ≡ false → ⊥
      opposite e f = cc

  room-AllWritten :
      (c r : Option Fields)
      → c ≡ some config
      → (reaction_of event).is_reaction ≡ false
      → (relay_keys_of event.content).longname ≡ []
      → AllWritten env config event (handle_in_room env event c r)
  unfolding handle_in_room
  room-AllWritten none r e h k = tt
  room-AllWritten (some c) none e h k = tt
  room-AllWritten (some c) (some room_config) e h k =
      let same : config ≡ c = cc in
      subst (λ d. AllWritten env config event (handle_event env d room_config event)) same
        (event-AllWritten room_config h k)

-- Whatever a message in a room, which is no reaction and comes without the long name of another relay,
-- puts into the queue is one of three. As a reply: the message names one to which it replies and that
-- is known, and replies are enabled. As a plain text: no plugin takes it, and it is no command. As the
-- data of a detection: likewise, and its port number is that of detections. A reply and a text have at
-- most 227 bytes of UTF-8, and a mapping exactly if reactions or replies are enabled and the event has
-- an id, a room and a text; the mapping names the event and its room.
pub on_room_message-AllWritten :
    (env : Env) (config : Fields) (event : RoomEvent)
    → env.config ≡ some config
    → (reaction_of event).is_reaction ≡ false
    → (relay_keys_of event.content).longname ≡ []
    → AllWritten env config event (on_room_message env event)
unfolding on_room_message
on_room_message-AllWritten env config event e h k =
    if-AllWritten env config event
      (is_stale_event env event.server_timestamp || str_eq event.sender env.bot_user_id) _ _
      (λ _. tt)
      (λ _.
        room-AllWritten env config event env.config (room_config_of env.matrix_rooms event.room_id)
          e h k)
