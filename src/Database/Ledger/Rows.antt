-- ===== src/Database/Ledger/Rows.antt =====
-- The rows of the message map (src/mmrelay/db_utils.py) under its statements, and the ledger.
use meshtastic_matrix_relay.Base.{
  ◌≡◌, refl, ap, ◌∙◌, arith, ℕ, zero, suc, ◌-◌, String, false, none, some, List, [], ◌∷◌, ◌++◌,
  str_eq, eq_iff, length, if◌then◌else◌, ◌||◌, Bool-cases, inl, inr,
}
use meshtastic_matrix_relay.Py.{contains}
use meshtastic_matrix_relay.Database.Runtime.{Mapping}
use meshtastic_matrix_relay.Database.MessageMap.{upsert, by_event, drop}
use meshtastic_matrix_relay.Database.Ledger.{
  Ledger, put, keep_newest, events, IsDistinct, Represents,
}

by_event_absent :
    (e : String) (rows : List Mapping) → contains e (events rows) ≡ false → by_event e rows ≡ none
unfolding by_event
by_event_absent e [] h = refl
by_event_absent e (m ∷ rows) h = ground (arith, by_event_absent e rows)

events-upsert :
    (m : Mapping) (rows : List Mapping)
    → events (upsert m rows) ≡ (
        if contains m.matrix_event_id (events rows)
        then events rows
        else events rows ++ m.matrix_event_id ∷ [])
unfolding upsert
events-upsert m [] = refl
events-upsert m (row ∷ rows) =
    ground (arith, eq_iff m.matrix_event_id row.matrix_event_id, events-upsert m rows)

by_event-upsert :
    (e : String) (m : Mapping) (rows : List Mapping)
    → by_event e (upsert m rows) ≡ (if str_eq e m.matrix_event_id then some m else by_event e rows)
unfolding by_event upsert
by_event-upsert e m [] = refl
by_event-upsert e m (row ∷ rows) = ground (
  arith,
  eq_iff m.matrix_event_id row.matrix_event_id,
  eq_iff e row.matrix_event_id,
  eq_iff e m.matrix_event_id,
  by_event-upsert e m rows,
)

contains-append :
    (e f : String) (l : List String) → contains e (l ++ f ∷ []) ≡ (contains e l || str_eq e f)
contains-append e f [] = ground arith
contains-append e f (g ∷ l) = ground (arith, contains-append e f l)

upsert-IsDistinct :
    (m : Mapping) (rows : List Mapping) → IsDistinct rows → IsDistinct (upsert m rows)
unfolding upsert
upsert-IsDistinct m [] d = ground arith
upsert-IsDistinct m (row ∷ rows) d = ground (
  arith,
  eq_iff m.matrix_event_id row.matrix_event_id,
  eq_iff row.matrix_event_id m.matrix_event_id,
  events-upsert m rows,
  contains-append row.matrix_event_id m.matrix_event_id (events rows),
  upsert-IsDistinct m rows,
)

events-drop : (n : ℕ) (rows : List Mapping) → events (drop n rows) ≡ drop n (events rows)
events-drop zero rows = refl
events-drop (suc n) [] = refl
events-drop (suc n) (m ∷ rows) = events-drop n rows

length-events : (rows : List Mapping) → length (events rows) ≡ length rows
length-events [] = refl
length-events (m ∷ rows) = omega (arith, length-events rows)

drop-IsDistinct : (n : ℕ) (rows : List Mapping) → IsDistinct rows → IsDistinct (drop n rows)
drop-IsDistinct zero rows d = d
drop-IsDistinct (suc n) [] d = d
drop-IsDistinct (suc n) (m ∷ rows) d = drop-IsDistinct n rows d.1

contains-drop :
    (e : String) (n : ℕ) (l : List String) → contains e l ≡ false → contains e (drop n l) ≡ false
contains-drop e zero l h = h
contains-drop e (suc n) [] h = h
contains-drop e (suc n) (f ∷ l) h = ground (arith, contains-drop e n l)

-- What is left of distinct rows is found as before, and the rest is gone.
by_event-drop :
    (e : String) (n : ℕ) (rows : List Mapping)
    → IsDistinct rows
    → by_event e (drop n rows)
      ≡ (if contains e (drop n (events rows)) then by_event e rows else none)
unfolding by_event
by_event-drop e zero rows d = elim (Bool-cases (contains e (events rows))) [
  | inl h ↦ rw h
  | inr h ↦ rw h (by_event_absent e rows h)
]
by_event-drop e (suc n) [] d = refl
by_event-drop e (suc n) (m ∷ rows) d = ground (
  arith,
  by_event-drop e n rows d.1,
  eq_iff e m.matrix_event_id,
  contains-drop m.matrix_event_id n (events rows) d.0,
)

pub upsert-Represents :
    (m : Mapping) (rows : List Mapping) (l : Ledger)
    → Represents rows l
    → Represents (upsert m rows) (put m l)
unfolding put
upsert-Represents m rows l r = record {
  order =
      events-upsert m rows
      ∙ ap
          (λ (o : List String).
            if contains m.matrix_event_id o then o else o ++ m.matrix_event_id ∷ [])
          r.order;
  value = λ e. ground (arith, by_event-upsert e m rows, r.value e);
  distinct = upsert-IsDistinct m rows r.distinct;
}

pub drop-Represents :
    (n : ℕ) (rows : List Mapping) (l : Ledger)
    → Represents rows l
    → Represents (drop (length rows - n) rows) (keep_newest n l)
unfolding keep_newest
drop-Represents n rows l r = record {
  order = ground (arith, events-drop (length rows - n) rows, length-events rows, r.order);
  value = λ e. ground (
    arith,
    by_event-drop e (length rows - n) rows r.distinct,
    length-events rows,
    r.order,
    r.value e,
  );
  distinct = drop-IsDistinct (length rows - n) rows r.distinct;
}
