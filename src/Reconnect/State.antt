-- ===== src/Reconnect/State.antt =====
-- The shared state of a session that a lost connection touches (module-level names of
-- src/mmrelay/meshtastic_utils.py), and the calls that its handler makes.
use meshtastic_matrix_relay.Base.{ℕ, String, Bool, Option, List}

-- The attempt to connect over BLE: `future` is its future, with what `done` answers; the executor is
-- known by its identity; `degraded` are the addresses whose executor is degraded.
pub record Ble : Type 0 where
  pub future : Option Bool
  pub future_address : Option String
  pub future_started_at : Option ℕ
  pub future_timeout_secs : Option ℕ
  pub timeout_counts : List (String × ℕ)
  pub executor : Option ℕ
  pub degraded : List String

-- `probe_timer` is whether the timer of the probe at connect time is pending.
pub record Session : Type 0 where
  pub shutting_down : Bool
  pub meshtastic_client : Option ℕ
  pub meshtastic_iface : Option ℕ
  pub relay_active_client_id : Option ℕ
  pub callbacks_tearing_down : Bool
  pub subscribed_to_connection_lost : Bool
  pub reconnecting : Bool
  pub probe_timer : Bool
  pub ble : Ble

-- `event_loop`: None or closed, one that refuses the coroutine by a RuntimeError, or a running one.
pub data EventLoop : Type 0 where
  unavailable refusing running : EventLoop

pub data Act : Type 0 where
  disconnect_ble close_client cancel_probe_timer cancel_future shutdown_executor : Act
  dispose_late reset_degraded : String → Act
  reset_all_degraded schedule_reconnect : Act
