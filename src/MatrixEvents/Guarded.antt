-- ===== src/MatrixEvents/Guarded.antt =====
-- `on_room_message` (src/mmrelay/matrix/events.py) on every path: what may leave for the mesh.
use meshtastic_matrix_relay.Base.{
  ◌≡◌, ◌≢◌, refl, arith, ℕ, ◌+◌, ◌≤◌, Bool, true, false, Option, none, some, List, [], ◌∷◌, ◌++◌,
  str_eq, eq_iff, subst, ◌||◌, if◌then◌else◌,
}
use meshtastic_matrix_relay.Py.{Value, Fields, get, truthy}
use meshtastic_matrix_relay.Inbound.Settings.{Interactions, get_interaction_settings}
use meshtastic_matrix_relay.MatrixEvents.Text.{Text}
use meshtastic_matrix_relay.MatrixEvents.State.{
  RoomEvent, MappedMessage, MappingInfo, SendFunction, send_text, send_data, Queued, Env,
}
use meshtastic_matrix_relay.MatrixEvents.Guards.{is_stale_event, room_config_of}
use meshtastic_matrix_relay.MatrixEvents.Sending.{
  broadcast_enabled, room_channel, get_interface_and_channel, sent_on, all_accepted,
  handle_detection_sensor_packet, send_reply_to_meshtastic,
}
use meshtastic_matrix_relay.MatrixEvents.Replying.{
  RelayKeys, reply_to_original, handle_matrix_reply,
}
use meshtastic_matrix_relay.MatrixEvents.Reactions.{
  Reaction, reaction_of, relay_keys_of, text_of, reply_target, relay_remote_reaction,
  relay_local_reaction,
}
use meshtastic_matrix_relay.MatrixEvents.Handler.{
  Formatted, relay_formatted, after_reply, handle_message, handle_reaction, handle_event,
  handle_in_room, on_room_message, local_meshnet_name,
}

-- The message is for the channel that the room's configuration names, over an interface, and the
-- configuration lets it out.
pub record IsOpen (env : Env) (config room_config : Fields) (m : Queued) : Type 0 where
  pub channel : room_channel room_config ≡ some m.channel
  pub connected : env.connected ≡ true
  pub broadcast : broadcast_enabled config ≡ true

abbrev pub AllOpen : Env → Fields → Fields → List Queued → Type 0
AllOpen env config room_config [] = Unit
AllOpen env config room_config (m ∷ l) =
    IsOpen env config room_config m × AllOpen env config room_config l

-- How many of the calls of `queue_message` the queue takes.
abbrev pub accepted : Env → List Queued → ℕ
accepted env [] = 0
accepted env (m ∷ l) = (if env.accepts m then 1 else 0) + accepted env l

-- At most one of the calls is taken, and all of them are open.
pub record IsGuarded (env : Env) (config room_config : Fields) (l : List Queued) : Type 0 where
  pub open_calls : AllOpen env config room_config l
  pub once : accepted env l ≤ 1

AllOpen-append :
    (env : Env) (config room_config : Fields) (l k : List Queued)
    → AllOpen env config room_config l
    → AllOpen env config room_config k
    → AllOpen env config room_config (l ++ k)
AllOpen-append env config room_config [] k a b = b
AllOpen-append env config room_config (m ∷ l) k a b =
    (a.0, AllOpen-append env config room_config l k a.1 b)

accepted-append :
    (env : Env) (l k : List Queued) → accepted env (l ++ k) ≡ accepted env l + accepted env k
accepted-append env [] k = omega arith
accepted-append env (m ∷ l) k = omega (arith, accepted-append env l k)

sent-AllOpen :
    (env : Env) (config room_config : Fields) (channel : Option ℕ) (enabled : Bool)
    (function : SendFunction) (text : Text) (mapping : Option MappingInfo)
    → get_interface_and_channel env room_config ≡ channel
    → broadcast_enabled config ≡ enabled
    → AllOpen env config room_config (sent_on channel enabled function text mapping)
unfolding get_interface_and_channel
sent-AllOpen env config room_config none enabled function text mapping h k = tt
sent-AllOpen env config room_config (some channel) false function text mapping h k = tt
sent-AllOpen env config room_config (some channel) true function text mapping h k =
    (record { channel = ground (arith, h); connected = ground (arith, h); broadcast = k }, tt)

sent_once :
    (env : Env) (channel : Option ℕ) (enabled : Bool) (function : SendFunction) (text : Text)
    (mapping : Option MappingInfo)
    → accepted env (sent_on channel enabled function text mapping)
      ≡ (if all_accepted env (sent_on channel enabled function text mapping) then 1 else 0)
sent_once env none enabled function text mapping = refl
sent_once env (some channel) false function text mapping = refl
sent_once env (some channel) true function text mapping = ground arith

module _ (env : Env) (config room_config : Fields) (event : RoomEvent) where
  -- one call, over what the room and the configuration give
  sent-IsGuarded :
      (function : SendFunction) (text : Text) (mapping : Option MappingInfo)
      → IsGuarded env config room_config (
          sent_on
            (get_interface_and_channel env room_config)
            (broadcast_enabled config)
            function
            text
            mapping)
  sent-IsGuarded function text mapping = record {
    open_calls =
        sent-AllOpen env config room_config (get_interface_and_channel env room_config)
          (broadcast_enabled config) function text mapping refl refl;
    once = ground (
      arith,
      sent_once env (get_interface_and_channel env room_config) (broadcast_enabled config) function
          text mapping,
    );
  }

  nothing-IsGuarded : IsGuarded env config room_config []
  nothing-IsGuarded = record { open_calls = tt; once = omega arith }

  if-IsGuarded :
      (b : Bool) (l k : List Queued)
      → IsGuarded env config room_config l
      → IsGuarded env config room_config k
      → IsGuarded env config room_config (if b then l else k)
  if-IsGuarded true l k g h = g
  if-IsGuarded false l k g h = h

  detection-IsGuarded :
      (text : Text)
      → IsGuarded env config room_config
          (handle_detection_sensor_packet env config room_config text)
  unfolding handle_detection_sensor_packet
  detection-IsGuarded text =
      if-IsGuarded _ _ _ (sent-IsGuarded send_data text none) nothing-IsGuarded

  relay_formatted-IsGuarded :
      (storage_enabled : Bool) (o : Option Formatted)
      → IsGuarded env config room_config
          (relay_formatted env config room_config event storage_enabled o)
  unfolding relay_formatted
  relay_formatted-IsGuarded storage_enabled none = nothing-IsGuarded
  relay_formatted-IsGuarded storage_enabled (some f) =
      if-IsGuarded _ _ _ nothing-IsGuarded (
        if-IsGuarded _ _ _ (detection-IsGuarded f.text) (sent-IsGuarded send_text f.full_message _))

  -- A reply's call, and that it is unhandled exactly if the queue takes nothing.
  reply-IsGuarded :
      (r : RelayKeys) (local text : Text) (storage_enabled : Bool) (o : Option MappedMessage)
      → IsGuarded env config room_config
          (reply_to_original env config r local room_config event text storage_enabled o).0
        × (accepted env
              (reply_to_original env config r local room_config event text storage_enabled o).0
            ≡ (if (reply_to_original env config r local room_config event text storage_enabled o).1
                then 1
                else 0))
  unfolding reply_to_original send_reply_to_meshtastic
  reply-IsGuarded r local text storage_enabled none = (nothing-IsGuarded, refl)
  reply-IsGuarded r local text storage_enabled (some original) =
      (sent-IsGuarded _ _ _, sent_once env _ _ _ _ _)

  after_reply-IsGuarded :
      (storage_enabled : Bool) (text : Text) (sent : List Queued) (handled : Bool)
      → IsGuarded env config room_config sent
      → accepted env sent ≡ (if handled then 1 else 0)
      → IsGuarded env config room_config
          (after_reply env config room_config event storage_enabled text (sent, handled))
  unfolding after_reply
  after_reply-IsGuarded storage_enabled text sent true g h = g
  after_reply-IsGuarded storage_enabled text sent false g h =
      let next = relay_formatted-IsGuarded storage_enabled _ in
      record {
        open_calls = AllOpen-append env config room_config sent _ g.open_calls next.open_calls;
        once = omega (arith, accepted-append env sent _, h, next.once);
      }

  replied-IsGuarded :
      (storage_enabled : Bool) (text : Text) (sent : List Queued × Bool)
      → IsGuarded env config room_config sent.0 × (accepted env sent.0 ≡ (if sent.1 then 1 else 0))
      → IsGuarded env config room_config
          (after_reply env config room_config event storage_enabled text sent)
  replied-IsGuarded storage_enabled text (sent, handled) g =
      after_reply-IsGuarded storage_enabled text sent handled g.0 g.1

  handle_message-IsGuarded :
      (interactions : Interactions) (r : Reaction)
      → IsGuarded env config room_config
          (handle_message env config room_config event interactions r)
  unfolding handle_message handle_matrix_reply
  handle_message-IsGuarded interactions r =
      if-IsGuarded _ _ _
        (replied-IsGuarded _ (text_of event r) _ (
          reply-IsGuarded (relay_keys_of event.content) (local_meshnet_name config)
            (text_of event r) _ (env.message_map (reply_target event r))))
        (relay_formatted-IsGuarded _ _)

  local_reaction-IsGuarded :
      (r : Reaction) (o : Option MappedMessage)
      → IsGuarded env config room_config (relay_local_reaction env config room_config r o)
  unfolding relay_local_reaction
  local_reaction-IsGuarded r none = nothing-IsGuarded
  local_reaction-IsGuarded r (some original) = sent-IsGuarded _ _ none

  handle_reaction-IsGuarded :
      (interactions : Interactions) (r : Reaction)
      → IsGuarded env config room_config
          (handle_reaction env config room_config event interactions r)
  unfolding handle_reaction relay_remote_reaction
  handle_reaction-IsGuarded interactions r = if-IsGuarded _ _ _ nothing-IsGuarded (
      if-IsGuarded _ _ _ (sent-IsGuarded send_text _ none) (
        if-IsGuarded _ _ _ (handle_message-IsGuarded interactions r)
          (local_reaction-IsGuarded r (env.message_map r.original_event_id))))

  handle_event-IsGuarded :
      IsGuarded env config room_config (handle_event env config room_config event)
  unfolding handle_event
  handle_event-IsGuarded = if-IsGuarded _ _ _ nothing-IsGuarded (
      if-IsGuarded _ _ _
        (handle_reaction-IsGuarded (get_interaction_settings (Value.dict config))
          (reaction_of event))
        (handle_message-IsGuarded (get_interaction_settings (Value.dict config))
          (reaction_of event)))

-- Why a message may leave: the event is not the bot's own and not suppressed; its timestamp, if it is
-- plausible, is at most five minutes before the start, in the first two minutes and with a wall clock
-- that has not gone back by more than one; and the room has a configuration by which it is open.
pub record IsAdmitted (env : Env) (event : RoomEvent) (l : List Queued) : Type 0 where
  pub config : Fields
  pub room_config : Fields
  pub configured : env.config ≡ some config
  pub room : room_config_of env.matrix_rooms event.room_id ≡ some room_config
  pub foreign : event.sender ≢ env.bot_user_id
  pub fresh :
      946684800000 ≤ event.server_timestamp
      → env.elapsed_ms ≤ 120000
      → env.bot_start_time + env.elapsed_ms ≤ env.now_ms + 60000
      → env.bot_start_time ≤ event.server_timestamp + 300000
  pub shown : truthy (get event.content "mmrelay_suppress" Value.null) ≡ false
  pub guarded : IsGuarded env config room_config l

fresh_lem :
    (env : Env) (timestamp : ℕ)
    → is_stale_event env timestamp ≡ false
    → 946684800000 ≤ timestamp
    → env.elapsed_ms ≤ 120000
    → env.bot_start_time + env.elapsed_ms ≤ env.now_ms + 60000
    → env.bot_start_time ≤ timestamp + 300000
unfolding is_stale_event
fresh_lem env timestamp h a b c = ground arith

in_room-IsAdmitted :
    (env : Env) (event : RoomEvent) (config room_config : Option Fields) (m : Queued)
    (l : List Queued)
    → env.config ≡ config
    → room_config_of env.matrix_rooms event.room_id ≡ room_config
    → is_stale_event env event.server_timestamp ≡ false
    → event.sender ≢ env.bot_user_id
    → handle_in_room env event config room_config ≡ m ∷ l
    → IsAdmitted env event (m ∷ l)
unfolding handle_in_room handle_event
in_room-IsAdmitted env event none room_config m l p q fresh foreign h = cc
in_room-IsAdmitted env event (some config) none m l p q fresh foreign h = cc
in_room-IsAdmitted env event (some config) (some room_config) m l p q fresh foreign h = record {
  config = config;
  room_config = room_config;
  configured = p;
  room = q;
  foreign = foreign;
  fresh = fresh_lem env event.server_timestamp fresh;
  shown = not_suppressed (truthy (get event.content "mmrelay_suppress" Value.null)) _ h;
  guarded =
      subst (IsGuarded env config room_config) h
        (handle_event-IsGuarded env config room_config event);
}
  where
    not_suppressed :
        (suppress : Bool) (rest : List Queued)
        → (if suppress then [] else rest) ≡ m ∷ l
        → suppress ≡ false
    not_suppressed true rest e = cc
    not_suppressed false rest e = refl

-- Whatever the handler puts into the message queue for a Matrix event, on each of its paths
-- (messages, replies, reactions, detections, messages and reactions of another mesh): the event is
-- not the bot's own and not suppressed, and is not a stale one, by the limits written out in
-- `IsAdmitted`; each message is for the channel that the configuration of the event's room names,
-- with an interface at hand and broadcast enabled; and the queue takes at most one message for the
-- event, also where a reply that it refuses goes on as a plain message.
pub on_room_message-IsAdmitted :
    (env : Env) (event : RoomEvent) (m : Queued) (l : List Queued)
    → on_room_message env event ≡ m ∷ l
    → IsAdmitted env event (m ∷ l)
unfolding on_room_message
on_room_message-IsAdmitted env event m l h =
    open_to (is_stale_event env event.server_timestamp) (str_eq event.sender env.bot_user_id) refl
      refl h
  where
    open_to :
        (stale own : Bool)
        → is_stale_event env event.server_timestamp ≡ stale
        → str_eq event.sender env.bot_user_id ≡ own
        → (if stale || own
            then []
            else handle_in_room env event env.config
                (room_config_of env.matrix_rooms event.room_id))
          ≡ m ∷ l
        → IsAdmitted env event (m ∷ l)
    open_to true own p q e = cc
    open_to false true p q e = cc
    open_to false false p q e =
        in_room-IsAdmitted env event env.config (room_config_of env.matrix_rooms event.room_id) m l
          refl refl p (ground (arith, eq_iff event.sender env.bot_user_id)) e
