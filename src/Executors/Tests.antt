-- ===== src/Executors/Tests.antt =====
-- A worker that hangs five times for one device.
use meshtastic_matrix_relay.Base.{
  ◌≡◌, ◌<◌, refl, true, false, none, some, List, [], ◌∷◌, ◌++◌, arith,
}
use meshtastic_matrix_relay.Executors.State.{Worker, count_of, set_count}
use meshtastic_matrix_relay.Executors.Reset.{
  maybe_reset_ble_executor, degrade, replace, record_ble_timeout,
}
use meshtastic_matrix_relay.Executors.Available.{
  ensure_ble_worker_available, available-stale, force_reset,
}
use meshtastic_matrix_relay.Executors.Orphans.{Event, run, orphans_of, Resets, run-bounded}

abbrev fresh : Worker
fresh = record {
  future = none;
  future_address = none;
  future_started_at = none;
  future_timeout_secs = none;
  timeout_counts = [];
  executor = some (0, false);
  orphaned_workers = [];
  degraded_addresses = [];
  next_executor = 1;
}

abbrev hangs : List Event
hangs = Event.submits 7 "AA" 1000 5000 ∷ Event.checks "AA" 9000 2000 3 ∷ []

degraded_at_the_fifth :
    (run (hangs ++ hangs ++ hangs ++ hangs ++ hangs) fresh).degraded_addresses ≡ "AA" ∷ []
unfolding run ensure_ble_worker_available force_reset record_ble_timeout maybe_reset_ble_executor
    degrade replace count_of set_count
degraded_at_the_fifth = refl

run-bounded_example :
    (orphans_of "AA" (run (hangs ++ hangs) fresh) < 5)
    × Resets "AA" 3 3
        (run (hangs ++ hangs) fresh)
        (maybe_reset_ble_executor "AA" 3 3 (run (hangs ++ hangs) fresh)).0
unfolding count_of
run-bounded_example = run-bounded (hangs ++ hangs) "AA" fresh 3 3 (omega arith)

abbrev hanging : Worker
hanging = record fresh {
  future = some (7, false);
  future_address = some "AA";
  future_started_at = some 1000;
  future_timeout_secs = some 5000;
}

available-stale_example :
    (let (after, available) = ensure_ble_worker_available "BB" 9000 2000 3 hanging in
      (available ≡ true) × (after.0.future ≡ none))
available-stale_example = available-stale "BB" 9000 2000 3 hanging refl refl refl
