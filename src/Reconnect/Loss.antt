-- ===== src/Reconnect/Loss.antt =====
-- src/mmrelay/meshtastic/events.py: `on_lost_meshtastic_connection`. What closing a client raises is
-- caught. The source of the detection is only logged.
use meshtastic_matrix_relay.Base.{
  ℕ, String, Bool, true, false, not, Option, none, some, List, [], ◌∷◌, ◌++◌, ◌==◌, ◌||◌, str_eq,
  is_some, if◌then◌else◌,
}
use meshtastic_matrix_relay.Py.{or_else}
use meshtastic_matrix_relay.Reconnect.State.{Ble, Session, EventLoop, Act}

abbrev pub is_same : ℕ → Option ℕ → Bool
is_same c none = false
is_same c (some d) = c == d

-- `_tear_down_meshtastic_client_for_disconnect`
unfoldable pub tear_down : Session → Session × List Act
tear_down s = elim s.meshtastic_client [
  | none ↦ (s, [])
  | some client ↦
      if is_same client s.meshtastic_iface
      then (record s { meshtastic_iface = none }, Act.disconnect_ble ∷ [])
      else (s, Act.close_client ∷ [])
]

-- `_ble_timeout_counts.pop(address, None)`
unfoldable pub pop_count : String → List (String × ℕ) → List (String × ℕ)
pop_count address [] = []
pop_count address ((a, n) ∷ l) =
    let rest = pop_count address l in if str_eq a address then rest else (a, n) ∷ rest

-- An address that is set and not empty.
abbrev pub address_text : Option String → String
address_text a = or_else a ""

-- `_clear_stale_ble_future_for_reconnect`, on a future that is not done; and whether there was an
-- executor.
unfoldable pub clear_future : Ble → Ble
unfolding pop_count
clear_future b =
    let address = address_text b.future_address in
    record b {
      future = none;
      timeout_counts =
          if str_eq address "" then b.timeout_counts else pop_count address b.timeout_counts;
      future_address = none;
      future_started_at = none;
      future_timeout_secs = none;
      executor = none;
    }

-- Whether there is a future that is not done.
abbrev pub is_pending : Ble → Bool
is_pending b = elim b.future [ none ↦ false | some done ↦ not done ]

unfoldable pub clear_stale_ble_future : Ble → Ble
unfolding clear_future
clear_stale_ble_future b = if is_pending b then clear_future b else b

-- `_finalize_stale_ble_cleanup`
unfoldable pub finalize_stale_ble_cleanup : Ble → List Act
finalize_stale_ble_cleanup b =
    if is_pending b
    then (let address = address_text b.future_address in
        (if str_eq address ""
          then Act.cancel_future ∷ []
          else Act.dispose_late address ∷ Act.cancel_future ∷ [])
        ++ (if is_some b.executor then Act.shutdown_executor ∷ [] else []))
    else []

-- `_reset_ble_degraded_state_after_disconnect`
unfoldable pub reset_degraded_state : Ble → List Act
reset_degraded_state b = elim b.future_address [
  | some address ↦ Act.reset_degraded address ∷ []
  | none ↦ elim b.degraded [ [] ↦ [] | _ ∷ _ ↦ Act.reset_all_degraded ∷ [] ]
]

-- `_schedule_reconnect_after_disconnect`
unfoldable pub schedule_reconnect : EventLoop → Session → Session × List Act
schedule_reconnect EventLoop.running s =
    (record s { reconnecting = true }, Act.schedule_reconnect ∷ [])
schedule_reconnect EventLoop.refusing s = (record s { reconnecting = false }, [])
schedule_reconnect EventLoop.unavailable s = (record s { reconnecting = false }, [])

-- An event of no interface that is known, while none is active and callbacks are subscribed; or of an
-- interface that is not the active one.
abbrev pub is_stale : Option ℕ → Session → Bool
is_stale none s = false
is_stale (some i) s = elim s.meshtastic_client [
  | none ↦ s.callbacks_tearing_down || s.subscribed_to_connection_lost || s.shutting_down
  | some client ↦ not (i == or_else s.relay_active_client_id client)
]

-- The connection is given up, and a reconnection scheduled.
unfoldable pub give_up : EventLoop → Session → Session × List Act
unfolding tear_down clear_stale_ble_future finalize_stale_ble_cleanup reset_degraded_state
    schedule_reconnect
give_up loop s =
    let (torn, acts) = tear_down s in
    let cleared = record torn {
      meshtastic_client = none;
      relay_active_client_id = none;
      probe_timer = false;
      ble = clear_stale_ble_future s.ble;
    } in
    let (scheduled, last) = schedule_reconnect loop cleared in
    (
      scheduled,
      acts
          ++ (if s.probe_timer then Act.cancel_probe_timer ∷ [] else [])
          ++ finalize_stale_ble_cleanup s.ble
          ++ reset_degraded_state s.ble
          ++ last,
    )

-- `on_lost_meshtastic_connection`, for the interface that the event names
unfoldable pub on_lost_meshtastic_connection : Option ℕ → EventLoop → Session → Session × List Act
unfolding give_up
on_lost_meshtastic_connection i loop s =
    if s.shutting_down
    then (s, [])
    else if is_stale i s
    then (s, [])
    else if s.reconnecting
    then (s, [])
    else give_up loop s
