-- ===== src/Executors/Reset.antt =====
-- src/mmrelay/meshtastic/executors.py: `_record_ble_timeout`, `_clear_ble_future` and
-- `_maybe_reset_ble_executor`.
use meshtastic_matrix_relay.Base.{
  ℕ, ◌+◌, String, Bool, true, false, not, Option, none, some, List, [], ◌∷◌, ◌++◌, ◌==◌, ltb, leb,
  str_eq, if◌then◌else◌,
}
use meshtastic_matrix_relay.Py.{contains, or_else}
use meshtastic_matrix_relay.Executors.State.{
  Worker, Act, executor_orphan_threshold, count_of, set_count, drop_count, add_address, untracked,
}

-- `_record_ble_timeout`
unfoldable pub record_ble_timeout : String → Worker → Worker × ℕ
record_ble_timeout address w =
    let count = count_of address w.timeout_counts + 1 in
    (record w { timeout_counts = set_count address count w.timeout_counts }, count)

-- `_clear_ble_future`, for the future that is done
unfoldable pub clear_ble_future : ℕ → Worker → Worker
clear_ble_future done w = elim w.future [
  | none ↦ w
  | some (id, _) ↦
      if id == done
      then (let address = or_else w.future_address "" in
          untracked (record w {
            timeout_counts =
                if str_eq address "" then w.timeout_counts else drop_count address w.timeout_counts;
          }))
      else w
]

abbrev pub cancels : Option (ℕ × Bool) → List Act
cancels none = []
cancels (some (id, _)) = Act.cancel id ∷ []

-- An executor that is not shut down yet is shut down.
abbrev pub shuts_down : Option (ℕ × Bool) → List Act
shuts_down none = []
shuts_down (some (_, true)) = []
shuts_down (some (id, false)) = Act.shut_down id ∷ []

abbrev pub is_live : Option (ℕ × Bool) → Bool
is_live none = false
is_live (some (_, down)) = not down

-- The device is degraded. Its executor stays where it is, shut down.
unfoldable pub degrade : String → Worker → Worker × List Act
degrade address w = (
  untracked (record w {
    degraded_addresses = add_address address w.degraded_addresses;
    executor = elim w.executor [ none ↦ none | some (id, _) ↦ some (id, true) ];
    timeout_counts = set_count address 0 w.timeout_counts;
  }),
  cancels w.future ++ shuts_down w.executor,
)

-- The executor is replaced; one that was alive counts as an orphan.
unfoldable pub replace : String → Worker → Worker × List Act
replace address w = (
  untracked (record w {
    orphaned_workers =
        if is_live w.executor
        then set_count address (count_of address w.orphaned_workers + 1) w.orphaned_workers
        else w.orphaned_workers;
    executor = some (w.next_executor, false);
    next_executor = w.next_executor + 1;
    timeout_counts = set_count address 0 w.timeout_counts;
  }),
  (if is_live w.future then cancels w.future else []) ++ shuts_down w.executor,
)

-- `_maybe_reset_ble_executor`, for a count of timeouts and the threshold of the configuration
unfoldable pub maybe_reset_ble_executor : String → ℕ → ℕ → Worker → Worker × List Act
unfolding degrade replace
maybe_reset_ble_executor address timeout_count reset_threshold w =
    if contains address w.degraded_addresses
    then (w, [])
    else if ltb timeout_count reset_threshold
    then (w, [])
    else if leb executor_orphan_threshold (count_of address w.orphaned_workers + 1)
    then degrade address w
    else replace address w
