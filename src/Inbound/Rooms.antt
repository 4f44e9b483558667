-- ===== src/Inbound/Rooms.antt =====
-- src/mmrelay/meshtastic/events.py and messaging.py: the channel of a packet and the rooms that are
-- mapped to it.
use meshtastic_matrix_relay.Base.{
  Bool, false, Option, none, some, ◌||◌, ℤ, pos, eqb_ℤ, if◌then◌else◌,
}
use meshtastic_matrix_relay.Py.{Value, Items, Fields, get, as_dict, int_of}
use meshtastic_matrix_relay.Routing.Portnum.{is_portnum, text_message_app, detection_sensor_app}

-- `d.values()`
unfoldable pub values : Fields → Items
values Fields.end = Items.nil
values (Fields.field _ v d) = Items.cons v (values d)

-- `_get_iterable_matrix_rooms`
unfoldable pub iterable_rooms : Value → Items
unfolding values
iterable_rooms (Value.dict d) = values d
iterable_rooms (Value.list items) = items
iterable_rooms (Value.tuple items) = items
iterable_rooms (Value.set items) = items
iterable_rooms _ = Items.nil

-- `_normalize_room_channel`
unfoldable pub normalize_room_channel : Fields → Option ℤ
normalize_room_channel room = elim (get room "meshtastic_channel" Value.null) [
  | Value.null ↦ none
  | v ↦ int_of v
]

-- `isinstance(room, dict)` and the room's channel is the given one
unfoldable pub has_channel : ℤ → Value → Bool
unfolding normalize_room_channel
has_channel channel room = elim (as_dict room) [
  | none ↦ false
  | some d ↦ elim (normalize_room_channel d) [ none ↦ false | some c ↦ eqb_ℤ c channel ]
]

unfoldable pub channel_mapped : ℤ → Items → Bool
unfolding has_channel
channel_mapped channel Items.nil = false
channel_mapped channel (Items.cons room rooms) =
    has_channel channel room || channel_mapped channel rooms

-- `portnum in (1, 10, "TEXT_MESSAGE_APP", "DETECTION_SENSOR_APP")`
abbrev pub is_channel_portnum : Value → Bool
is_channel_portnum portnum =
    is_portnum portnum (pos 1) text_message_app || is_portnum portnum (pos 10) detection_sensor_app

-- The channel of a packet that is to be relayed, `none` where the Matrix relay is skipped. Chat and
-- the detection sensor have the channel 0 where theirs is missing or no number.
unfoldable pub deduce_channel : Fields → Value → Option ℤ
deduce_channel packet portnum = elim (int_of (get packet "channel" Value.null)) [
  | some channel ↦ some channel
  | none ↦ if is_channel_portnum portnum then some (pos 0) else none
]
