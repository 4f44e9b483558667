-- ===== src/MatrixEvents/State.antt =====
-- What src/mmrelay/matrix/events.py handles: an event in a room, what the handler takes from
-- elsewhere, and what it puts into the message queue.
use meshtastic_matrix_relay.Base.{ℕ, String, Bool, Option, none, some, List, ℤ}
use meshtastic_matrix_relay.Py.{Value, Fields, get}
use meshtastic_matrix_relay.MatrixEvents.Text.{Text}

pub data EventKind : Type 0 where
  text_message notice emote reaction : EventKind

-- `content` is `event.source["content"]`. In it, `m.relates_to` and what stands under
-- `m.in_reply_to` are dicts where they are there, and the relay's own keys hold texts.
pub record RoomEvent : Type 0 where
  pub kind : EventKind
  pub sender : String
  pub event_id : String
  pub room_id : String
  pub server_timestamp : ℕ
  pub body : Text
  pub content : Fields

-- A row of the message map, found by its Matrix event.
pub record MappedMessage : Type 0 where
  pub meshtastic_id : Text
  pub meshtastic_text : Text

-- A Matrix-side plugin: whether it handles the event with the given text, and whether the event is a
-- command of its own (by `matches` or `get_matrix_commands`); `none` is an exception.
pub record RoomPlugin : Type 0 where
  pub handle_room_message : Text → Option Bool
  pub matches_command : Option Bool

-- `mapping_info` of a queued message
pub record MappingInfo : Type 0 where
  pub matrix_event_id : String
  pub room_id : String
  pub text : Text
  pub meshnet : Text
  pub msgs_to_keep : ℤ

-- The send function of a queued message, with the message that it replies to.
pub data SendFunction : Type 0 where
  send_text send_data : SendFunction
  send_text_reply : ℕ → SendFunction

-- The arguments of a call of `queue_message`.
pub record Queued : Type 0 where
  pub send_function : SendFunction
  pub text : Text
  pub channel : ℕ
  pub mapping_info : Option MappingInfo

-- What one event's handling takes from elsewhere. `elapsed_ms` is the time since the start by the
-- monotonic clock, `now_ms` the wall clock. `format` is `str.format`, `none` for its errors;
-- `display_name` is what `get_user_display_name` answers; `connected` whether
-- `connect_meshtastic` returns an interface; `accepts` what `queue_message` answers.
pub record Env : Type 0 where
  pub bot_user_id : String
  pub bot_start_time : ℕ
  pub elapsed_ms : ℕ
  pub now_ms : ℕ
  pub matrix_rooms : Value
  pub config : Option Fields
  pub format : String → List (String × Text) → Option Text
  pub display_name : Text
  pub message_map : String → Option MappedMessage
  pub connected : Bool
  pub plugins : List RoomPlugin
  pub accepts : Queued → Bool

-- `content.get(key)`, for a key that holds a text
abbrev pub text_at : Fields → String → Option String
text_at content key = elim (get content key Value.null) [ Value.str s ↦ some s | _ ↦ none ]
