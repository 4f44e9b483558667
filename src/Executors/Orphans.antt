-- ===== src/Executors/Orphans.antt =====
-- The number of workers that are given up for one device stays below the threshold.
use meshtastic_matrix_relay.Base.{
  ℕ, ◌+◌, ◌<◌, ◌≡◌, refl, ap, sym, ◌∙◌, String, true, false, some, List, [], ◌∷◌, str_eq, eq_iff,
  arith, if◌then◌else◌,
}
use meshtastic_matrix_relay.Base.{not, ◌&&◌, ◌||◌, ◌==◌, leb}
use meshtastic_matrix_relay.Py.{contains}
use meshtastic_matrix_relay.Executors.State.{
  Worker, executor_orphan_threshold, count_of, set_count, drop_count, add_address,
}
use meshtastic_matrix_relay.Executors.Reset.{
  record_ble_timeout, clear_ble_future, maybe_reset_ble_executor, degrade, replace, is_live,
}
use meshtastic_matrix_relay.Executors.Recovery.{
  reset_degraded, reset_all_degraded, get_ble_executor,
}
use meshtastic_matrix_relay.Executors.Available.{
  stale_address, ensure_ble_worker_available, force_reset,
}

-- No device has more orphans than the threshold allows.
abbrev pub orphans_of : String → Worker → ℕ
orphans_of a w = count_of a w.orphaned_workers

same_test : (c b a : String) → str_eq c b ≡ true → str_eq c a ≡ str_eq b a
same_test c b a h = ap (λ s. str_eq s a) ((eq_iff c b).0 h)

joined_test : (c b a : String) → str_eq c a ≡ true → str_eq b a ≡ true → str_eq c b ≡ true
joined_test c b a h k = (eq_iff c b).1 ((eq_iff c a).0 h ∙ sym ((eq_iff b a).0 k))

count-set :
    (a b : String) (n : ℕ) (l : List (String × ℕ))
    → count_of a (set_count b n l) ≡ (if str_eq b a then n else count_of a l)
unfolding count_of set_count
count-set a b n [] = refl
count-set a b n ((c, m) ∷ l) = ground (arith, same_test c b a, joined_test c b a, count-set a b n l)

count-drop :
    (a b : String) (l : List (String × ℕ))
    → count_of a (drop_count b l) ≡ (if str_eq b a then 0 else count_of a l)
unfolding count_of drop_count
count-drop a b [] = ground arith
count-drop a b ((c, m) ∷ l) = ground (arith, same_test c b a, joined_test c b a, count-drop a b l)

-- What threads do with the worker. A call that is submitted sets the future and its fields.
pub data Event : Type 0 where
  submits : ℕ → String → ℕ → ℕ → Event
  times_out : String → Event
  finishes : ℕ → Event
  resets : String → ℕ → ℕ → Event
  recovers : String → Event
  recovers_all fetches : Event
  checks : String → ℕ → ℕ → ℕ → Event

abbrev pub step : Event → Worker → Worker
step (submits id address now timeout) w = record w {
  future = some (id, false);
  future_address = some address;
  future_started_at = some now;
  future_timeout_secs = some timeout;
}
step (times_out address) w = (record_ble_timeout address w).0
step (finishes id) w = clear_ble_future id w
step (resets address count threshold) w = (maybe_reset_ble_executor address count threshold w).0
step (recovers address) w = (reset_degraded address w).0.0
step recovers_all w = (reset_all_degraded w).0.0
step fetches w = (get_ble_executor w).0
step (checks address now grace threshold) w =
    (ensure_ble_worker_available address now grace threshold w).0.0

unfoldable pub run : List Event → Worker → Worker
run [] w = w
run (e ∷ l) w = run l (step e w)

abbrev IsBounded : String → Worker → Type 0
IsBounded a w = orphans_of a w < executor_orphan_threshold

reset-IsBounded :
    (a b : String) (count threshold : ℕ) (w : Worker)
    → IsBounded a w
    → IsBounded a (maybe_reset_ble_executor b count threshold w).0
unfolding maybe_reset_ble_executor degrade replace
reset-IsBounded a b count threshold w h =
    ground (arith, h, count-set a b (count_of b w.orphaned_workers + 1) w.orphaned_workers)

recover-IsBounded :
    (a b : String) (w : Worker) → IsBounded a w → IsBounded a (reset_degraded b w).0.0
unfolding reset_degraded
recover-IsBounded a b w h = ground (arith, h, count-drop a b w.orphaned_workers)

recover_all-IsBounded :
    (a : String) (w : Worker) → IsBounded a w → IsBounded a (reset_all_degraded w).0.0
unfolding reset_all_degraded count_of
recover_all-IsBounded a w h = ground (arith, h)

force-IsBounded :
    (a b : String) (threshold : ℕ) (w : Worker)
    → IsBounded a w
    → IsBounded a (force_reset b threshold w).0
unfolding force_reset record_ble_timeout
force-IsBounded a b threshold w h = reset-IsBounded a b _ threshold _ h

available-IsBounded :
    (a b : String) (now grace threshold : ℕ) (w : Worker)
    → IsBounded a w
    → IsBounded a (ensure_ble_worker_available b now grace threshold w).0.0
unfolding ensure_ble_worker_available
available-IsBounded a b now grace threshold w h =
    ground (arith, h, force-IsBounded a (stale_address b w) threshold w h)

step-IsBounded : (e : Event) (a : String) (w : Worker) → IsBounded a w → IsBounded a (step e w)
unfolding record_ble_timeout clear_ble_future get_ble_executor
step-IsBounded (submits id address now timeout) a w h = h
step-IsBounded (times_out address) a w h = h
step-IsBounded (finishes id) a w h = ground (arith, h)
step-IsBounded (resets address count threshold) a w h =
    reset-IsBounded a address count threshold w h
step-IsBounded (recovers address) a w h = recover-IsBounded a address w h
step-IsBounded recovers_all a w h = recover_all-IsBounded a w h
step-IsBounded fetches a w h = ground (arith, h)
step-IsBounded (checks address now grace threshold) a w h =
    available-IsBounded a address now grace threshold w h

run-IsBounded : (l : List Event) (a : String) (w : Worker) → IsBounded a w → IsBounded a (run l w)
unfolding run
run-IsBounded [] a w h = h
run-IsBounded (e ∷ l) a w h = run-IsBounded l a (step e w) (step-IsBounded e a w h)

contains-add : (a : String) (l : List String) → contains a (add_address a l) ≡ true
contains-add a l = ground (arith, eq_iff a a)

-- What a reset of the executor does for a device with `orphans` orphans: it degrades the device, or
-- replaces the executor, or is none.
pub record Resets (a : String) (timeouts threshold : ℕ) (w w' : Worker) : Type 0 where
  pub degrades :
      contains a w'.degraded_addresses
      ≡ (contains a w.degraded_addresses || leb threshold timeouts && orphans_of a w == 4)
  pub shut :
      (not (contains a w.degraded_addresses)
        && contains a w'.degraded_addresses
        && is_live w'.executor)
      ≡ false
  pub orphaned : orphans_of a w' ≡ (
      if leb threshold timeouts && not (contains a w'.degraded_addresses) && is_live w.executor
      then orphans_of a w + 1
      else orphans_of a w)

reset-Resets :
    (a : String) (timeouts threshold : ℕ) (w : Worker)
    → IsBounded a w
    → Resets a timeouts threshold w (maybe_reset_ble_executor a timeouts threshold w).0
unfolding maybe_reset_ble_executor degrade replace
reset-Resets a timeouts threshold w h = record {
  degrades = ground (arith, h, contains-add a w.degraded_addresses);
  shut = ground (arith, h);
  orphaned = ground (
    arith,
    h,
    eq_iff a a,
    contains-add a w.degraded_addresses,
    count-set a a (count_of a w.orphaned_workers + 1) w.orphaned_workers,
  );
}

-- For every sequence of calls, timeouts, resets and recoveries, from a worker for which the device has
-- fewer than 5 orphans: it has fewer than 5 afterwards. A reset that follows counts one more, if it
-- replaces an executor that is alive; it degrades the device exactly where the timeouts have reached
-- the threshold and there are 4 orphans, or the device is degraded already, and shuts its executor
-- down where it degrades it.
pub run-bounded :
    (l : List Event) (a : String) (w : Worker) (timeouts threshold : ℕ)
    → orphans_of a w < 5
    → (orphans_of a (run l w) < 5)
      × Resets a timeouts threshold
          (run l w)
          (maybe_reset_ble_executor a timeouts threshold (run l w)).0
run-bounded l a w timeouts threshold h =
    let bounded = run-IsBounded l a w h in
    (bounded, reset-Resets a timeouts threshold (run l w) bounded)
