-- ===== src/Executors/State.antt =====
-- The state of the BLE worker (module-level names of src/mmrelay/meshtastic_utils.py), and its counts.
use meshtastic_matrix_relay.Base.{
  ℕ, String, Bool, Option, none, List, [], ◌∷◌, str_eq, if◌then◌else◌,
}
use meshtastic_matrix_relay.Py.{contains}

-- EXECUTOR_ORPHAN_THRESHOLD
abbrev pub executor_orphan_threshold : ℕ
executor_orphan_threshold = 5

-- A future has an identity and whether it is done, an executor one and whether it is shut down. Times
-- are in milliseconds.
pub record Worker : Type 0 where
  pub future : Option (ℕ × Bool)
  pub future_address : Option String
  pub future_started_at : Option ℕ
  pub future_timeout_secs : Option ℕ
  pub timeout_counts : List (String × ℕ)
  pub executor : Option (ℕ × Bool)
  pub orphaned_workers : List (String × ℕ)
  pub degraded_addresses : List String
  pub next_executor : ℕ

-- What is called on a future or an executor, outside the locks.
pub data Act : Type 0 where
  cancel shut_down : ℕ → Act

-- `counts.get(address, 0)`
unfoldable pub count_of : String → List (String × ℕ) → ℕ
count_of address [] = 0
count_of address ((a, n) ∷ l) =
    let rest = count_of address l in if str_eq a address then n else rest

-- `counts[address] = n`
unfoldable pub set_count : String → ℕ → List (String × ℕ) → List (String × ℕ)
set_count address n [] = (address, n) ∷ []
set_count address n ((a, m) ∷ l) =
    let rest = set_count address n l in if str_eq a address then (a, n) ∷ l else (a, m) ∷ rest

-- `counts.pop(address, None)`
unfoldable pub drop_count : String → List (String × ℕ) → List (String × ℕ)
drop_count address [] = []
drop_count address ((a, n) ∷ l) =
    let rest = drop_count address l in if str_eq a address then rest else (a, n) ∷ rest

-- `addresses.add(address)` and `addresses.discard(address)`
abbrev pub add_address : String → List String → List String
add_address a l = if contains a l then l else a ∷ l

unfoldable pub discard_address : String → List String → List String
discard_address a [] = []
discard_address a (b ∷ l) = let rest = discard_address a l in if str_eq b a then rest else b ∷ rest

-- No future is tracked.
abbrev pub untracked : Worker → Worker
untracked w = record w {
  future = none;
  future_address = none;
  future_started_at = none;
  future_timeout_secs = none;
}
