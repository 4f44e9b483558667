-- ===== src/Executors/Recovery.antt =====
-- src/mmrelay/meshtastic/executors.py: `reset_executor_degraded_state`, its part for BLE, and
-- `_get_ble_executor`.
use meshtastic_matrix_relay.Base.{
  ℕ, ◌+◌, String, Bool, true, false, Option, none, some, List, [], ◌∷◌, if◌then◌else◌,
}
use meshtastic_matrix_relay.Py.{contains}
use meshtastic_matrix_relay.Executors.State.{Worker, Act, drop_count, discard_address}

abbrev pub retires : Option (ℕ × Bool) → List Act
retires none = []
retires (some (id, _)) = Act.shut_down id ∷ []

-- For one address; and whether it was degraded.
unfoldable pub reset_degraded : String → Worker → (Worker × List Act) × Bool
reset_degraded address w =
    if contains address w.degraded_addresses
    then (
      (
        record w {
          degraded_addresses = discard_address address w.degraded_addresses;
          orphaned_workers = drop_count address w.orphaned_workers;
          executor = none;
        },
        retires w.executor,
      ),
      true,
    )
    else ((w, []), false)

-- For all addresses.
unfoldable pub reset_all_degraded : Worker → (Worker × List Act) × Bool
reset_all_degraded w = elim w.degraded_addresses [
  | [] ↦ ((w, []), false)
  | _ ∷ _ ↦ (
    (
      record w { degraded_addresses = []; orphaned_workers = []; executor = none },
      retires w.executor,
    ),
    true,
  )
]

-- `_get_ble_executor`
unfoldable pub get_ble_executor : Worker → Worker × ℕ
get_ble_executor w = elim w.executor [
  | some (id, false) ↦ (w, id)
  | _ ↦ (
    record w { executor = some (w.next_executor, false); next_executor = w.next_executor + 1 },
    w.next_executor,
  )
]
