-- ===== src/Inbound/State.antt =====
-- The shared state that packet handling reads and writes (the module-level names of
-- src/mmrelay/meshtastic_utils.py), an interface, what the handler takes from elsewhere, and what it
-- does. An object's identity, Python's `id`, is a number.
use meshtastic_matrix_relay.Base.{ℕ, String, Bool, Option, List, ℤ}
use meshtastic_matrix_relay.Py.{Value, Fields}
use meshtastic_matrix_relay.Health.Skew.{Clock}
use meshtastic_matrix_relay.Health.Probes.{Deadlines}

-- `drain_timer` is `_relay_startup_drain_expiry_timer`, with what its `is_alive` answers;
-- `drain_complete` is whether the event of the drain's end is set; `event_loop` is whether there is
-- one. `matrix_rooms` is a list or a dict.
pub record Facade : Type 0 where
  pub shutting_down : Bool
  pub meshtastic_client : Option ℕ
  pub relay_active_client_id : Option ℕ
  pub callbacks_tearing_down : Bool
  pub subscribed_to_messages : Bool
  pub subscribed_to_connection_lost : Bool
  pub reconnecting : Bool
  pub clock : Clock
  pub deadlines : Deadlines
  pub drain_timer : Option Bool
  pub drain_complete : Bool
  pub event_loop : Bool
  pub config : Option Fields
  pub matrix_rooms : Value

-- `my_info` holds `myInfo.my_node_num`, `local_node_num` is `localNode.nodeNum`, None where missing;
-- `nodes` is `interface.nodes.get`.
pub record Interface : Type 0 where
  pub identity : ℕ
  pub my_info : Option Value
  pub local_node_num : Value
  pub nodes : Value → Option Fields

-- A row of the message map: the Matrix event and room, the text and the meshnet of a
-- message, which is empty where it is None.
pub record Original : Type 0 where
  pub matrix_event_id : String
  pub matrix_room_id : String
  pub meshtastic_text : String
  pub meshtastic_meshnet : String

-- What a plugin's handler comes to: a plain result; an awaitable that answers, that cannot be
-- submitted or that does not answer in time; an exception.
pub data Outcome : Type 0 where
  answered awaited : Bool → Outcome
  not_submitted timed_out failed : Outcome

-- What one packet's handling takes from elsewhere: the clocks, which stand still meanwhile; the
-- protocol's names of port numbers and its broadcast address; the rows of the database; the prefix
-- that is set before a relayed text, from configuration, long name, short name and meshnet; and the
-- plugins, from packet, message, long name and meshnet. `later_shutting_down` is the shutdown flag at
-- its second test.
pub record Env : Type 0 where
  pub wall : ℕ
  pub monotonic : ℕ
  pub port_name : ℤ → Option String
  pub broadcast_num : ℤ
  pub later_shutting_down : Bool
  pub longname_row : Value → Option String
  pub shortname_row : Value → Option String
  pub message_map : Value → Option Original
  pub matrix_prefix : Fields → String → String → String → String
  pub plugins : List (Fields → Option String → Option String → Option String → Outcome)

-- The arguments of a call of `matrix_relay`.
pub record Relayed : Type 0 where
  pub room_id : Value
  pub message : String
  pub longname : String
  pub shortname : String
  pub meshnet_name : String
  pub portnum : Value
  pub meshtastic_id : Value
  pub meshtastic_reply_id : Value
  pub meshtastic_text : Value
  pub emote : Bool
  pub emoji : Bool
  pub reply_to_event_id : Option String

-- What the handler does, in order: it saves names, offers the packet to the plugins and starts
-- relays.
pub data Effect : Type 0 where
  save_longname save_shortname : Value → String → Effect
  run_plugins : Option String → Option String → Option String → Effect
  matrix_relay : Relayed → Effect

-- How the handler ends: it returns, or an exception leaves it before it has done anything.
pub data Result : Type 0 where
  returned : List Effect → Result
  raised : Result
