-- ===== src/Inbound/Tests.antt =====
-- Packet handling on a concrete packet.
use mathlib.Core.List.{map}
use meshtastic_matrix_relay.Base.{
  ◌≡◌, refl, String, true, false, none, some, List, [], ◌∷◌, pos, ◌⊎◌, str_eq, ◌||◌, if◌then◌else◌,
}
use meshtastic_matrix_relay.Py.{
  Value, Items, Fields, append, parse_int, strip, int_of, float_of, eq_int,
}
use meshtastic_matrix_relay.Routing.Portnum.{
  is_text_message_portnum, get_portnum_name, is_encrypted_packet,
}
use meshtastic_matrix_relay.Routing.Overrides.{
  PacketAction, get_packet_routing_overrides, get_meshtastic_config_value, resolve_portnum_set,
}
use meshtastic_matrix_relay.Routing.Classify.{classify_packet, decide}
use meshtastic_matrix_relay.Health.Skew.{Clock, seed_connect_time_skew, rx_time_of}
use meshtastic_matrix_relay.Health.Probes.{claim_health_probe_response, extract_packet_request_id}
use meshtastic_matrix_relay.Inbound.Settings.{get_interaction_settings}
use meshtastic_matrix_relay.Inbound.Rooms.{
  has_channel, normalize_room_channel, channel_mapped, deduce_channel, iterable_rooms,
}
use meshtastic_matrix_relay.Inbound.State.{Facade, Interface, Env, Effect, Result, Outcome}
use meshtastic_matrix_relay.Inbound.Names.{text_in}
use meshtastic_matrix_relay.Inbound.Handler.{
  process, deliver, handle_received, handle_plain, handle_text, relay_channel,
  on_meshtastic_message,
}
use meshtastic_matrix_relay.Inbound.Guards.{admit, probe_gate, drain_gate, age_gate, is_current}
use meshtastic_matrix_relay.Inbound.Relays.{Received, relay_reply, relay_text, relay_to_rooms}
use meshtastic_matrix_relay.Inbound.Admission.{IsAdmitted}
use meshtastic_matrix_relay.Inbound.Safety.{MayAct, acts-IsAdmitted}
use meshtastic_matrix_relay.Inbound.Dispatch.{relays, offers, target_ids}
use meshtastic_matrix_relay.Inbound.Delivery.{taken, plain-relays, Answers, received-dispatch}
use meshtastic_matrix_relay.Inbound.Pipeline.{Plugin, Ran, run-Taken}
use meshtastic_matrix_relay.Inbound.Plugins.{run_meshtastic_plugins, resolve_plugin_result}

abbrev passes : Plugin
passes _ _ _ _ = Outcome.awaited false

abbrev env : Env
env = record {
  wall = 2000000;
  monotonic = 50000;
  port_name = λ z. none;
  broadcast_num = pos 4294967295;
  later_shutting_down = false;
  longname_row = λ v. some "Alice";
  shortname_row = λ v. some "A";
  message_map = λ v. none;
  matrix_prefix = λ c l s m. "[A] ";
  plugins = passes ∷ [];
}

abbrev node : Interface
node = record {
  identity = 7;
  my_info = some (Value.int (pos 11));
  local_node_num = Value.null;
  nodes = λ v. none;
}

abbrev room : String → Value → Value
room id channel =
    Value.dict
      (Fields.field "id" (Value.str id) (Fields.field "meshtastic_channel" channel Fields.end))

abbrev rooms : Value
rooms = Value.list (
    Items.cons (room "!a" (Value.int (pos 0))) (
      Items.cons (room "!b" (Value.int (pos 1)))
        (Items.cons (room "!c" (Value.str "0")) Items.nil)))

abbrev config : Fields
config =
    Fields.field "meshtastic"
      (Value.dict (Fields.field "meshnet_name" (Value.str "net") Fields.end)) Fields.end

abbrev clock : Clock
clock = record {
  skew = none;
  relay_start_time = 1000000;
  connection_started = 0;
  drain_deadline = none;
  reconnect_deadline = none;
}

abbrev relay_state : Facade
relay_state = record {
  shutting_down = false;
  meshtastic_client = some 7;
  relay_active_client_id = some 7;
  callbacks_tearing_down = false;
  subscribed_to_messages = true;
  subscribed_to_connection_lost = true;
  reconnecting = false;
  clock = clock;
  deadlines = [];
  drain_timer = none;
  drain_complete = true;
  event_loop = true;
  config = some config;
  matrix_rooms = rooms;
}

abbrev decoded : Fields
decoded =
    Fields.field "portnum" (Value.str "TEXT_MESSAGE_APP")
      (Fields.field "text" (Value.str "hi") Fields.end)

abbrev packet : Fields
packet = Fields.field "decoded" (Value.dict decoded) (
    Fields.field "fromId" (Value.str "!1") (
      Fields.field "to" (Value.int (pos 4294967295))
        (Fields.field "rxTime" (Value.int (pos 1999)) Fields.end)))

abbrev received : Received
received = record {
  config = config;
  packet = packet;
  decoded = decoded;
  action = PacketAction.relay;
  interactions = record { reactions = false; replies = false };
  meshnet_name = "net";
  direct = false;
}

abbrev sent : Value → Effect
sent id = Effect.matrix_relay (relay_text env node received "Alice" "A" id)

abbrev effects : List Effect
effects = sent (Value.str "!a") ∷ sent (Value.str "!c") ∷ []

handles :
    (on_meshtastic_message env node (Value.dict packet) relay_state).1
    ≡ Result.returned (Effect.run_plugins (some "[A] hi") (some "Alice") (some "net") ∷ effects)
unfolding on_meshtastic_message append probe_gate drain_gate age_gate rx_time_of
    seed_connect_time_skew claim_health_probe_response extract_packet_request_id int_of float_of
    process deliver handle_received handle_plain handle_text relay_channel relay_to_rooms
    has_channel normalize_room_channel channel_mapped deduce_channel iterable_rooms
    run_meshtastic_plugins resolve_plugin_result get_interaction_settings classify_packet decide
    get_packet_routing_overrides is_text_message_portnum get_portnum_name is_encrypted_packet
    parse_int strip eq_int get_meshtastic_config_value resolve_portnum_set is_current
handles = refl

acts-IsAdmitted_example :
    (p : Fields) × (Value.dict packet ≡ Value.dict p)
    × IsAdmitted env node p relay_state
    × MayAct env node p (admit env node p relay_state).0
acts-IsAdmitted_example =
    acts-IsAdmitted env node (Value.dict packet) relay_state
      (Effect.run_plugins (some "[A] hi") (some "Alice") (some "net")) effects handles

plain-relays_example : relays (handle_plain env node relay_state received) ≡ (
    if str_eq (text_in decoded "text") "" || false || taken env node received
    then []
    else map (relay_text env node received "Alice" "A") (target_ids relay_state received))
plain-relays_example = plain-relays env node relay_state received

received-dispatch_example :
    (offers (handle_received env node relay_state received) ≡ 1)
    ⊎ Answers env node relay_state received
received-dispatch_example = received-dispatch env node relay_state received

run-Taken_example :
    Ran packet none none none
      (passes ∷ [])
      (run_meshtastic_plugins (passes ∷ []) packet none none none)
run-Taken_example = run-Taken packet none none none (passes ∷ [])

-- A reply whose text is missing is relayed with the word None.
textless_reply :
    (relay_reply env node
      (record received { decoded = Fields.end })
      (record {
        matrix_event_id = "$e";
        matrix_room_id = "!a";
        meshtastic_text = "x";
        meshtastic_meshnet = "";
      })).message
    ≡ "[A] None"
unfolding relay_reply append
textless_reply = refl
