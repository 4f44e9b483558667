-- ===== src/Database/Ledger/Runs.antt =====
-- Runs of message-map calls (src/mmrelay/db_utils.py), against the ledger that notes them.
use meshtastic_matrix_relay.Base.{
  ◌≡◌, refl, sym, subst, arith, Bool, true, false, none, List, [], ◌∷◌, if◌then◌else◌,
}
use meshtastic_matrix_relay.Database.Runtime.{Mapping, Conn, execute, run_sync, write}
use meshtastic_matrix_relay.Database.MessageMap.{
  mapping_of, by_event, store_message_map_core, store_message_map, wipe_message_map,
  prune_message_map_core, prune_message_map, run_async, async_store_message_map,
  async_prune_message_map,
}
use meshtastic_matrix_relay.Database.Ledger.{
  Call, store, async_store, prune, async_prune, wipe, perform, run, effect, Ledger, note, note_all,
  Represents,
}
use meshtastic_matrix_relay.Database.Ledger.Rows.{upsert-Represents, drop-Represents}

-- What a call does to the rows: all of it where it is committed, nothing where it is not.
pub perform_lem :
    (k : Call) (c : Conn)
    → (perform k c).1.tables.message_map
      ≡ (if (perform k c).0 then effect k c.tables.message_map else c.tables.message_map)
unfolding perform effect store_message_map async_store_message_map prune_message_map
    async_prune_message_map wipe_message_map store_message_map_core prune_message_map_core run_async
    run_sync write execute
perform_lem (store i e r b m) c = ground arith
perform_lem (async_store accepting i e r b m) c = ground arith
perform_lem (prune n) c = ground arith
perform_lem (async_prune accepting n) c = ground arith
perform_lem wipe c = ground arith

note-Represents :
    (k : Call) (done : Bool) (rows : List Mapping) (l : Ledger)
    → Represents rows l
    → Represents (if done then effect k rows else rows) (note l (k, done))
unfolding note effect by_event
note-Represents k false rows l r = r
note-Represents (store i e b m n) true rows l r = upsert-Represents (mapping_of i e b m n) rows l r
note-Represents (async_store _ i e b m n) true rows l r =
    upsert-Represents (mapping_of i e b m n) rows l r
note-Represents (prune n) true rows l r = drop-Represents n rows l r
note-Represents (async_prune _ n) true rows l r = drop-Represents n rows l r
note-Represents wipe true rows l r = emptied
  where
    emptied : Represents [] (record { order = []; value = λ _. none })
    emptied = record { order = refl; value = λ e. refl; distinct = tt }

-- The message map refines the ledger: after any calls, with database errors anywhere, the rows are
-- those of the ledger that notes exactly the committed calls. An event is found as the row last
-- stored under it since the last wipe, a prune keeps the events whose rows were inserted last, and
-- no event has two rows.
pub run-Represents :
    (ks : List Call) (c : Conn) (l : Ledger)
    → Represents c.tables.message_map l
    → Represents (run ks c).1.tables.message_map (note_all l (run ks c).0)
unfolding run note_all
run-Represents [] c l r = r
run-Represents (k ∷ ks) c l r = run-Represents ks (perform k c).1 (note l (k, (perform k c).0)) (
    subst (λ rows. Represents rows (note l (k, (perform k c).0))) (sym (perform_lem k c))
      (note-Represents k (perform k c).0 c.tables.message_map l r))
