-- ===== src/Database/Runtime.antt =====
-- db_runtime.py (src/mmrelay): a connection, its statements, and `run_sync` with commit and rollback.
-- A statement or a commit raises a `sqlite3.Error` where the schedule `faults` says so: one entry for
-- each, none left meaning success. The statements' SQL is in db_utils.py, lines 138-344.
use meshtastic_matrix_relay.Base.{
  ◌≡◌, refl, arith, String, Bool, true, false, Option, List, [], ◌∷◌, if◌then◌else◌,
}

-- A row of `message_map`. Rows stand in the order of their rowids, which is that of insertion.
pub record Mapping : Type 0 where
  pub meshtastic_id : String
  pub matrix_event_id : String
  pub matrix_room_id : String
  pub meshtastic_text : String
  pub meshtastic_meshnet : Option String

-- A row of `plugin_data`; `payload` is its column `data`.
pub record PluginRow : Type 0 where
  pub plugin_name : String
  pub meshtastic_id : String
  pub payload : String

pub record Tables : Type 0 where
  pub longnames : List (String × String)
  pub shortnames : List (String × String)
  pub plugin_data : List PluginRow
  pub message_map : List Mapping

pub record Conn : Type 0 where
  pub tables : Tables
  pub faults : List Bool

pub data Result (A : Type 0) : Type 0 where
  ok : A → Result A
  sqlite_error : Result A

-- A callable that is given a cursor. A read of `Tables` in the middle of it sees its own writes.
abbrev pub Cursor : Type 0 → Type 0
Cursor A = Conn → Result A × Conn

abbrev pub and_then : {A B : Type 0} → Result A × Conn → (A → Cursor B) → Result B × Conn
and_then (ok a, c) k = k a c
and_then (sqlite_error, c) k = (sqlite_error, c)

infixl 5 ◌>>=◌ ◌>>◌
abbrev pub ◌>>=◌ : {A B : Type 0} → Cursor A → (A → Cursor B) → Cursor B
◌>>=◌ m k c = and_then (m c) k

abbrev pub ◌>>◌ : {B : Type 0} → Cursor (Unit {0}) → Cursor B → Cursor B
m >> k = m >>= λ _. k

abbrev pub pure : {A : Type 0} → A → Cursor A
pure a c = (ok a, c)

abbrev pub attempt : {A : Type 0} → List Bool → Tables → A × Tables → Result A × Conn
attempt [] old (a, t) = (ok a, record { tables = t; faults = [] })
attempt (false ∷ faults) old (a, t) = (ok a, record { tables = t; faults = faults })
attempt (true ∷ faults) old _ = (sqlite_error, record { tables = old; faults = faults })

-- `cursor.execute(...)`, with what is fetched from it
unfoldable pub execute : {A : Type 0} → (Tables → A × Tables) → Cursor A
execute statement c = attempt c.faults c.tables (statement c.tables)

-- `conn.commit()`, or `conn.rollback()` to the tables at the start of the transaction
abbrev pub commit_or_rollback : {A : Type 0} → Tables → Result A × Conn → Result A × Conn
commit_or_rollback before (ok a, c) = attempt c.faults before (a, c.tables)
commit_or_rollback before (sqlite_error, c) = (sqlite_error, record c { tables = before })

unfoldable pub write : {A : Type 0} → Cursor A → Cursor A
write func c = commit_or_rollback c.tables (func c)

unfoldable pub read : {A : Type 0} → Cursor A → Cursor A
read func c = func c

unfoldable pub run_sync : {A : Type 0} → Cursor A → Bool → Cursor A
unfolding write read
run_sync func is_write c = if is_write then write func c else read func c

-- A transaction that raises leaves the tables as they were.
pub rolled_back :
    {A : Type 0} (func : Cursor A) (c : Conn)
    → (run_sync func true c).0 ≡ sqlite_error
    → (run_sync func true c).1.tables ≡ c.tables
unfolding run_sync write
rolled_back func c h = settled (func c) c.tables h
  where
    settled :
        {A : Type 0} (r : Result A × Conn) (before : Tables)
        → (commit_or_rollback before r).0 ≡ sqlite_error
        → (commit_or_rollback before r).1.tables ≡ before
    settled (sqlite_error, c) before h = refl
    settled (ok a, c) before h = stopped c.faults before a c.tables h
      where
        stopped :
            {A : Type 0} (faults : List Bool) (old : Tables) (a : A) (t : Tables)
            → (attempt faults old (a, t)).0 ≡ sqlite_error
            → (attempt faults old (a, t)).1.tables ≡ old
        stopped [] old a t h = ground arith
        stopped (false ∷ faults) old a t h = ground arith
        stopped (true ∷ faults) old a t h = refl

bind_parts :
    {A B : Type 0} (r : Result A × Conn) (k : A → Cursor B) {b : B}
    → (and_then r k).0 ≡ ok b
    → (a : A) × (r.0 ≡ ok a) × (and_then r k ≡ k a r.1)
bind_parts (ok a, c) k h = (a, refl, refl)
bind_parts (sqlite_error, c) k h = cc

-- A sequence that does not raise has run both parts.
pub >>=-eq-ok :
    {A B : Type 0} (m : Cursor A) (k : A → Cursor B) (c : Conn) {b : B}
    → ((m >>= k) c).0 ≡ ok b
    → (a : A) × ((m c).0 ≡ ok a) × ((m >>= k) c ≡ k a (m c).1)
>>=-eq-ok m k c h = bind_parts (m c) k h

-- A committed transaction leaves what its callable left.
pub committed :
    {A : Type 0} (func : Cursor A) (c : Conn) (a : A)
    → (run_sync func true c).0 ≡ ok a
    → ((func c).0 ≡ ok a) × ((run_sync func true c).1.tables ≡ (func c).1.tables)
unfolding run_sync write
committed func c a h = settled (func c) c.tables a h
  where
    settled :
        {A : Type 0} (r : Result A × Conn) (before : Tables) (a : A)
        → (commit_or_rollback before r).0 ≡ ok a
        → (r.0 ≡ ok a) × ((commit_or_rollback before r).1.tables ≡ r.1.tables)
    settled (sqlite_error, c) before a h = cc
    settled (ok b, c) before a h = made c.faults before a b c.tables h
      where
        made :
            {A : Type 0} (faults : List Bool) (old : Tables) (a b : A) (t : Tables)
            → (attempt faults old (b, t)).0 ≡ ok a
            → (◌≡◌ {A = Result A} (ok b) (ok a)) × ((attempt faults old (b, t)).1.tables ≡ t)
        made [] old a b t h = (h, refl)
        made (false ∷ faults) old a b t h = (h, refl)
        made (true ∷ faults) old a b t h = cc

-- A statement that is followed by more has succeeded, where all of it does not raise.
pub execute_then :
    {A B : Type 0} (f : Tables → A × Tables) (k : A → Cursor B) (c : Conn) {b : B}
    → ((execute f >>= k) c).0 ≡ ok b
    → (c' : Conn) × (c'.tables ≡ (f c.tables).1) × ((execute f >>= k) c ≡ k (f c.tables).0 c')
unfolding execute
execute_then f k c h = next c.faults c.tables (f c.tables) k h
  where
    next :
        {A B : Type 0} (faults : List Bool) (old : Tables) (new : A × Tables) (k : A → Cursor B)
        {b : B}
        → (and_then (attempt faults old new) k).0 ≡ ok b
        → (c' : Conn) × (c'.tables ≡ new.1) × (and_then (attempt faults old new) k ≡ k new.0 c')
    next [] old (a, t) k h = (record { tables = t; faults = [] }, refl, refl)
    next (false ∷ faults) old (a, t) k h = (record { tables = t; faults = faults }, refl, refl)
    next (true ∷ faults) old (a, t) k h = cc
