-- ===== src/Executors/Available.antt =====
-- src/mmrelay/meshtastic/executors.py: `_ensure_ble_worker_available`. The reset of the library's
-- connection gate is left out. What follows a locked section is one step with it.
use meshtastic_matrix_relay.Base.{
  ℕ, ◌+◌, ◌-◌, ◌≡◌, String, Bool, true, false, not, none, some, List, [], leb, str_eq, arith,
  if◌then◌else◌,
}
use meshtastic_matrix_relay.Py.{contains, or_else}
use meshtastic_matrix_relay.Executors.State.{Worker, Act}
use meshtastic_matrix_relay.Executors.Reset.{
  record_ble_timeout, maybe_reset_ble_executor, is_live, degrade, replace,
}

-- The future is not done, and has been running for its timeout and the grace.
abbrev pub is_stale : ℕ → ℕ → Worker → Bool
is_stale now grace w = elim w.future_started_at [
  | none ↦ false
  | some started ↦ elim w.future_timeout_secs [
    | none ↦ false
    | some timeout ↦ leb (timeout + grace) (now - started)
  ]
]

-- `_ble_future_address or ble_address`
abbrev pub stale_address : String → Worker → String
stale_address address w =
    let known = or_else w.future_address "" in if str_eq known "" then address else known

-- A worker that hangs is reset at once, whatever the count of its timeouts.
unfoldable pub force_reset : String → ℕ → Worker → Worker × List Act
unfolding record_ble_timeout
force_reset address reset_threshold w =
    let (counted, count) = record_ble_timeout address w in
    maybe_reset_ble_executor address (if leb reset_threshold count then count else reset_threshold)
      reset_threshold counted

-- Whether the worker is free; if not, the source raises a TimeoutError.
unfoldable pub ensure_ble_worker_available :
    String → ℕ → ℕ → ℕ → Worker → (Worker × List Act) × Bool
unfolding force_reset
ensure_ble_worker_available address now grace reset_threshold w =
    if not (is_live w.future)
    then ((w, []), true)
    else if is_stale now grace w
    then (let (reset, acts) = force_reset (stale_address address w) reset_threshold w in
        ((reset, acts), not (is_live reset.future)))
    else ((w, []), false)

forced-free :
    (address : String) (reset_threshold : ℕ) (w : Worker)
    → contains address w.degraded_addresses ≡ false
    → (force_reset address reset_threshold w).0.future ≡ none
unfolding force_reset record_ble_timeout maybe_reset_ble_executor degrade replace
forced-free address reset_threshold w h = ground arith

-- If a future has been under way for its timeout and the grace, and the device that it is for is not
-- degraded, then a call over BLE is let through, and the future is no longer tracked.
pub available-stale :
    (address : String) (now grace reset_threshold : ℕ) (w : Worker)
    → is_live w.future ≡ true
    → is_stale now grace w ≡ true
    → contains (stale_address address w) w.degraded_addresses ≡ false
    → (let (after, available) = ensure_ble_worker_available address now grace reset_threshold w in
        (available ≡ true) × (after.0.future ≡ none))
unfolding ensure_ble_worker_available
available-stale address now grace reset_threshold w h k m =
    let free = forced-free (stale_address address w) reset_threshold w m in
    (ground (arith, h, k, free), ground (arith, h, k, free))
