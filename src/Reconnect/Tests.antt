-- ===== src/Reconnect/Tests.antt =====
-- A session that loses its connection.
use meshtastic_matrix_relay.Base.{◌≡◌, ◌⊎◌, refl, true, false, some, List, [], ◌∷◌}
use meshtastic_matrix_relay.Reconnect.State.{Ble, Session, EventLoop, Act}
use meshtastic_matrix_relay.Reconnect.Loss.{
  on_lost_meshtastic_connection, give_up, tear_down, finalize_stale_ble_cleanup,
  reset_degraded_state, schedule_reconnect,
}
use meshtastic_matrix_relay.Reconnect.Loop.{
  Point, Wake, reconnect, begin_attempt, count_down, finish,
}
use meshtastic_matrix_relay.Reconnect.Trace.{Event, run, step, resume, IsSingle}
use meshtastic_matrix_relay.Reconnect.Single.{run-IsSingle}
use meshtastic_matrix_relay.Reconnect.Backoff.{Failure, fail_all, reconnect-backoff, shutdown_ends}
use meshtastic_matrix_relay.Reconnect.Cleared.{is_ignored, GaveUp, on_lost-GaveUp}

abbrev attempt : Ble
attempt = record {
  future = some false;
  future_address = some "AA";
  future_started_at = some 5;
  future_timeout_secs = some 30;
  timeout_counts = ("AA", 2) ∷ ("BB", 1) ∷ [];
  executor = some 3;
  degraded = [];
}

abbrev session : Session
session = record {
  shutting_down = false;
  meshtastic_client = some 7;
  meshtastic_iface = some 7;
  relay_active_client_id = some 7;
  callbacks_tearing_down = false;
  subscribed_to_connection_lost = true;
  reconnecting = false;
  probe_timer = true;
  ble = attempt;
}

abbrev losses : List Event
losses =
    Event.loses (some 7) EventLoop.running
    ∷ Event.loses (some 7) EventLoop.running
    ∷ Event.resumes true 0 Wake.begins
    ∷ []

one_is_left :
    (run losses (record { session = session; coroutines = [] })).coroutines ≡ Point.resting 10 ∷ []
unfolding run step resume reconnect begin_attempt on_lost_meshtastic_connection give_up tear_down
    finalize_stale_ble_cleanup reset_degraded_state schedule_reconnect
one_is_left = refl

run-IsSingle_example : IsSingle (run losses (record { session = session; coroutines = [] }))
run-IsSingle_example = run-IsSingle losses session

calls :
    (on_lost_meshtastic_connection (some 7) EventLoop.running session).1
    ≡ Act.disconnect_ble
      ∷ Act.cancel_probe_timer
      ∷ Act.dispose_late "AA"
      ∷ Act.cancel_future
      ∷ Act.shutdown_executor
      ∷ Act.reset_degraded "AA"
      ∷ Act.schedule_reconnect
      ∷ []
unfolding on_lost_meshtastic_connection give_up tear_down finalize_stale_ble_cleanup
    reset_degraded_state schedule_reconnect
calls = refl

on_lost-GaveUp_example :
    ((is_ignored (some 7) session ≡ true)
      × (on_lost_meshtastic_connection (some 7) EventLoop.running session ≡ (session, [])))
    ⊎ ((is_ignored (some 7) session ≡ false)
        × GaveUp EventLoop.running
            (on_lost_meshtastic_connection (some 7) EventLoop.running session).0)
on_lost-GaveUp_example = on_lost-GaveUp (some 7) EventLoop.running session

abbrev failures : List Failure
failures = Failure.no_client ∷ Failure.exception ∷ []

reconnect-backoff_example :
    fail_all failures (reconnect true Wake.begins session Point.scheduled)
    ≡ (session, Point.resting 40)
reconnect-backoff_example = reconnect-backoff failures session refl

abbrev closing : Session
closing = record session { shutting_down = true; reconnecting = true }

shutdown_ends_example :
    reconnect true Wake.slept closing (Point.resting 10)
    ≡ (record closing { reconnecting = false }, Point.ended)
shutdown_ends_example = shutdown_ends true Wake.slept closing (Point.resting 10) refl refl

-- The new connection is lost before the coroutine that made it runs on: the loss is ignored, the
-- coroutine ends, and the lost client stays.
abbrev late_loss : List Event
late_loss =
    Event.loses (some 7) EventLoop.running
    ∷ Event.resumes true 0 Wake.begins
    ∷ Event.resumes true 0 Wake.slept
    ∷ Event.writes (record session { meshtastic_client = some 8; relay_active_client_id = some 8 })
    ∷ Event.loses (some 8) EventLoop.running
    ∷ Event.resumes true 0 (Wake.connects true)
    ∷ []

loss_is_missed :
    let y = run late_loss (record { session = session; coroutines = [] }) in
    (y.coroutines ≡ []) × (y.session.meshtastic_client ≡ some 8) × (y.session.reconnecting ≡ false)
unfolding run step resume reconnect begin_attempt count_down finish on_lost_meshtastic_connection
    give_up tear_down finalize_stale_ble_cleanup reset_degraded_state schedule_reconnect
loss_is_missed = (refl, refl, refl)
