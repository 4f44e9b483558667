-- ===== src/Database/Ledger.antt =====
-- The message map (src/mmrelay/db_utils.py) against a ledger that knows neither rows nor
-- transactions: the message ids in the order of their first storing, and what each stands for.
pub mod Rows
pub mod Runs
use meshtastic_matrix_relay.Base.{
  ◌≡◌, refl, sym, ap, ◌∙◌, subst, arith, ℕ, zero, suc, ◌-◌, ◌≤◌, String, Bool, true, false, Option,
  none, some, List, [], ◌∷◌, ◌++◌, str_eq, eq_iff, ltb, length, if◌then◌else◌, ◌||◌, Bool-cases,
  inl, inr, ◌<◌,
}
use meshtastic_matrix_relay.Py.{contains}
use meshtastic_matrix_relay.Database.Runtime.{
  Mapping, Tables, Conn, Result, ok, sqlite_error, Cursor, ◌>>=◌, ◌>>◌, execute, run_sync, write,
}
use meshtastic_matrix_relay.Database.MessageMap.{
  Identifier, mapping_of, upsert, by_event, drop, swallowed, store_message_map_core,
  store_message_map, wipe_message_map, prune_message_map_core, prune_message_map, run_async,
  async_store_message_map, async_prune_message_map,
}

pub data Call : Type 0 where
  store : Identifier → String → String → String → Option String → Call
  async_store : Bool → Identifier → String → String → String → Option String → Call
  prune : ℕ → Call
  async_prune : Bool → ℕ → Call
  wipe : Call

unfoldable pub perform : Call → Conn → Bool × Conn
perform (store i e r b m) c = store_message_map i e r b m c
perform (async_store accepting i e r b m) c = async_store_message_map accepting i e r b m c
perform (prune n) c = prune_message_map n c
perform (async_prune accepting n) c = async_prune_message_map accepting n c
perform wipe c = wipe_message_map c

-- The calls in their order, each with whether it was committed, and the connection after them.
unfoldable pub run : List Call → Conn → List (Call × Bool) × Conn
run [] c = ([], c)
run (k ∷ ks) c =
    let (done, c') = perform k c in let (log, last) = run ks c' in ((k, done) ∷ log, last)

unfoldable pub effect : Call → List Mapping → List Mapping
effect (store i e r b m) rows = upsert (mapping_of i e r b m) rows
effect (async_store _ i e r b m) rows = upsert (mapping_of i e r b m) rows
effect (prune n) rows = drop (length rows - n) rows
effect (async_prune _ n) rows = drop (length rows - n) rows
effect wipe rows = []

pub record Ledger : Type 0 where
  pub order : List String
  pub value : String → Option Mapping

unfoldable pub put : Mapping → Ledger → Ledger
put m l = record {
  order = if contains m.matrix_event_id l.order then l.order else l.order ++ m.matrix_event_id ∷ [];
  value = λ e. if str_eq e m.matrix_event_id then some m else l.value e;
}

unfoldable pub keep_newest : ℕ → Ledger → Ledger
keep_newest n l = record {
  order = drop (length l.order - n) l.order;
  value = λ e. if contains e (drop (length l.order - n) l.order) then l.value e else none;
}

-- A call that was not committed is not noted.
unfoldable pub note : Ledger → Call × Bool → Ledger
unfolding put keep_newest
note l (_, false) = l
note l (store i e r b m, true) = put (mapping_of i e r b m) l
note l (async_store _ i e r b m, true) = put (mapping_of i e r b m) l
note l (prune n, true) = keep_newest n l
note l (async_prune _ n, true) = keep_newest n l
note l (wipe, true) = record { order = []; value = λ _. none }

unfoldable pub note_all : Ledger → List (Call × Bool) → Ledger
note_all l [] = l
note_all l (k ∷ ks) = note_all (note l k) ks

abbrev pub events : List Mapping → List String
events [] = []
events (m ∷ rows) = m.matrix_event_id ∷ events rows

abbrev pub IsDistinct : List Mapping → Type 0
IsDistinct [] = Unit
IsDistinct (m ∷ rows) = (contains m.matrix_event_id (events rows) ≡ false) × IsDistinct rows

pub record Represents (rows : List Mapping) (l : Ledger) : Type 0 where
  pub order : events rows ≡ l.order
  pub value : (e : String) → by_event e rows ≡ l.value e
  pub distinct : IsDistinct rows
