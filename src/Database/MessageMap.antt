-- ===== src/Database/MessageMap.antt =====
-- db_utils.py (src/mmrelay): the operations on `message_map`, and `run_async` of db_runtime.py.
-- An operation that swallows a database error returns whether its write was committed, which the
-- source shows in its log only.
use meshtastic_matrix_relay.Base.{
  ℕ, ◌-◌, String, Bool, true, false, Option, none, some, List, [], ◌∷◌, str_eq, ltb, length, ℤ,
  if◌then◌else◌, zero, suc,
}
use meshtastic_matrix_relay.Py.{int_text}
use meshtastic_matrix_relay.Database.Runtime.{
  Mapping, Conn, Result, ok, sqlite_error, Cursor, ◌>>=◌, ◌>>◌, pure, execute, run_sync,
}

-- `meshtastic_id: int | str`
pub data Identifier : Type 0 where
  number : ℤ → Identifier
  text : String → Identifier

-- `str(meshtastic_id)`
unfoldable pub id_key : Identifier → String
id_key (number z) = int_text z
id_key (text s) = s

-- `INSERT ... ON CONFLICT(matrix_event_id) DO UPDATE`: an update keeps the row's place.
unfoldable pub upsert : Mapping → List Mapping → List Mapping
upsert m [] = m ∷ []
upsert m (row ∷ rows) =
    if str_eq m.matrix_event_id row.matrix_event_id then m ∷ rows else row ∷ upsert m rows

-- the first row of `WHERE matrix_event_id=?`
unfoldable pub by_event : String → List Mapping → Option Mapping
by_event e [] = none
by_event e (row ∷ rows) = if str_eq e row.matrix_event_id then some row else by_event e rows

-- the first row of `WHERE meshtastic_id=?`
unfoldable pub by_meshtastic_id : String → List Mapping → Option Mapping
by_meshtastic_id i [] = none
by_meshtastic_id i (row ∷ rows) =
    if str_eq i row.meshtastic_id then some row else by_meshtastic_id i rows

-- `DELETE ... WHERE rowid IN (SELECT rowid ... ORDER BY rowid ASC LIMIT ?)`
abbrev pub drop {ℓ} : {A : Type ℓ} → ℕ → List A → List A
drop zero l = l
drop (suc n) [] = []
drop (suc n) (_ ∷ l) = drop n l

unfoldable pub store_message_map_core : Mapping → Cursor (Unit {0})
store_message_map_core m = execute (λ t. (tt, record t { message_map = upsert m t.message_map }))

-- `except sqlite3.Error: logger.exception(...)`
abbrev pub swallowed : {A : Type 0} → Result A × Conn → Bool × Conn
swallowed (ok _, c) = (true, c)
swallowed (sqlite_error, c) = (false, c)

abbrev pub mapping_of : Identifier → String → String → String → Option String → Mapping
mapping_of i event room body meshnet = record {
  meshtastic_id = id_key i;
  matrix_event_id = event;
  matrix_room_id = room;
  meshtastic_text = body;
  meshtastic_meshnet = meshnet;
}

unfoldable pub store_message_map :
    Identifier → String → String → String → Option String → Conn → Bool × Conn
store_message_map i event room body meshnet c =
    swallowed (run_sync (store_message_map_core (mapping_of i event room body meshnet)) true c)

abbrev pub fetched : {B : Type 0} → (Mapping → B) → Result (Option Mapping) × Conn → Option B × Conn
fetched row_of (ok (some m), c) = (some (row_of m), c)
fetched row_of (ok none, c) = (none, c)
fetched row_of (sqlite_error, c) = (none, c)

unfoldable pub get_message_map_by_meshtastic_id :
    Identifier → Conn → Option (String × String × String × Option String) × Conn
get_message_map_by_meshtastic_id i c =
    fetched (λ m. (m.matrix_event_id, m.matrix_room_id, m.meshtastic_text, m.meshtastic_meshnet))
      (run_sync (execute (λ t. (by_meshtastic_id (id_key i) t.message_map, t))) false c)

unfoldable pub get_message_map_by_matrix_event_id :
    String → Conn → Option (String × String × String × Option String) × Conn
get_message_map_by_matrix_event_id e c =
    fetched (λ m. (m.meshtastic_id, m.matrix_room_id, m.meshtastic_text, m.meshtastic_meshnet))
      (run_sync (execute (λ t. (by_event e t.message_map, t))) false c)

unfoldable pub wipe_message_map : Conn → Bool × Conn
wipe_message_map c =
    swallowed (run_sync (execute (λ t. (tt, record t { message_map = [] }))) true c)

-- The callers ask to keep a positive number of rows.
unfoldable pub prune_message_map_core : ℕ → Cursor ℕ
prune_message_map_core msgs_to_keep = do
  total ← execute (λ t. (length t.message_map, t))
  if ltb msgs_to_keep total
      then (do
        execute (λ t. (tt, record t { message_map = drop (total - msgs_to_keep) t.message_map }))
        pure (total - msgs_to_keep))
      else pure 0

unfoldable pub prune_message_map : ℕ → Conn → Bool × Conn
prune_message_map msgs_to_keep c = swallowed (run_sync (prune_message_map_core msgs_to_keep) true c)

-- Whether the manager accepts submissions: `close` ends that, and a submission then raises
-- `sqlite3.ProgrammingError`, a `sqlite3.Error`.
unfoldable pub run_async : {A : Type 0} → Bool → Cursor A → Bool → Cursor A
run_async accepting func is_write c =
    if accepting then run_sync func is_write c else (sqlite_error, c)

unfoldable pub async_store_message_map :
    Bool → Identifier → String → String → String → Option String → Conn → Bool × Conn
async_store_message_map accepting i event room body meshnet c =
    swallowed
      (run_async accepting (store_message_map_core (mapping_of i event room body meshnet)) true c)

unfoldable pub async_prune_message_map : Bool → ℕ → Conn → Bool × Conn
async_prune_message_map accepting msgs_to_keep c =
    swallowed (run_async accepting (prune_message_map_core msgs_to_keep) true c)
