-- ===== src/Queue/Link.antt =====
-- src/mmrelay/message_queue.py: `_should_send_message`, which reads the connection's state in
-- `mmrelay.meshtastic_utils`.
use meshtastic_matrix_relay.Base.{Bool, true, false, Option, none, some, if◌then◌else◌}

-- The Meshtastic client's `is_connected`: missing, a value, or a method, which may raise.
pub data Client : Type 0 where
  no_attribute : Client
  value : Bool → Client
  method : Option Bool → Client

-- What the module offers at the time of a test; the import fails while modules are unloaded.
pub record Link : Type 0 where
  pub importable : Bool
  pub reconnecting : Bool
  pub meshtastic_client : Option Client

-- `raises`: the client's method raised, which the processor's outer handler catches.
-- `stops`: the answer is no, and a thread is started that stops the queue.
pub data Check : Type 0 where
  ready not_ready stops raises : Check

abbrev connected : Client → Check
connected no_attribute = ready
connected (value true) = ready
connected (value false) = not_ready
connected (method none) = raises
connected (method (some true)) = ready
connected (method (some false)) = not_ready

unfoldable pub should_send_message : Link → Check
should_send_message l =
    if l.importable
    then (if l.reconnecting
        then not_ready
        else elim l.meshtastic_client [ none ↦ not_ready | some c ↦ connected c ])
    else stops
