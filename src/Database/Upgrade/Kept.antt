-- ===== src/Database/Upgrade/Kept.antt =====
-- The upgrade of `message_map` (src/mmrelay/db_utils.py) loses no mapping.
use meshtastic_matrix_relay.Base.{
  ◌≡◌, refl, ap, ◌∙◌, arith, String, Bool, true, false, not, Option, none, some, List, [], ◌∷◌,
  ◌++◌, str_eq, eq_iff, is_some, ◌&&◌, ◌||◌, if◌then◌else◌,
}
use meshtastic_matrix_relay.Database.Runtime.{Mapping}
use meshtastic_matrix_relay.Database.MessageMap.{by_event}
use meshtastic_matrix_relay.Database.Upgrade.{
  MapTable, MapTables, inserted_row, insert_row, insert_rows, merge_from, merge_stale_into,
  new_table, recover_stale, merge_temp, merge_legacy, merged, rebuild,
}

abbrev pub found_in : String → Option MapTable → Bool
found_in e none = false
found_in e (some t) = is_some (by_event e t.rows)

-- Whether an event has a row in any of the four tables.
abbrev pub held : String → MapTables → Bool
held e d =
    is_some (by_event e d.current.rows)
    || found_in e d.temp
    || found_in e d.stale_temp
    || found_in e d.legacy

by_event-append :
    (e : String) (rows : List Mapping) (m : Mapping)
    → by_event e (rows ++ m ∷ []) ≡ (
        if is_some (by_event e rows)
        then by_event e rows
        else if str_eq e m.matrix_event_id
        then some m
        else none)
unfolding by_event
by_event-append e [] m = refl
by_event-append e (n ∷ rows) m = ground (arith, by_event-append e rows m)

inserted_row-event :
    (w : Bool) (m : Mapping) → (inserted_row w m).matrix_event_id ≡ m.matrix_event_id
inserted_row-event true m = refl
inserted_row-event false m = refl

by_event-insert_row :
    (w : Bool) (e : String) (m : Mapping) (rows : List Mapping)
    → by_event e (insert_row w m rows) ≡ (
        if is_some (by_event e rows)
        then by_event e rows
        else if str_eq e m.matrix_event_id
        then some (inserted_row w m)
        else none)
unfolding insert_row
by_event-insert_row w e m rows = ground (
  arith,
  by_event-append e rows (inserted_row w m),
  inserted_row-event w m,
  eq_iff e m.matrix_event_id,
)

-- A merge keeps what the target finds, and adds what the source finds.
by_event-insert_rows :
    (w : Bool) (e : String) (source rows : List Mapping)
    → (is_some (by_event e rows) ≡ true → by_event e (insert_rows w source rows) ≡ by_event e rows)
      × (is_some (by_event e (insert_rows w source rows))
          ≡ (is_some (by_event e rows) || is_some (by_event e source)))
unfolding insert_rows by_event
by_event-insert_rows w e [] rows = (λ _. refl, ground arith)
by_event-insert_rows w e (m ∷ source) rows =
    let (kept, found) = by_event-insert_rows w e source (insert_row w m rows) in
    (
      λ h.
          kept (ground (arith, by_event-insert_row w e m rows))
          ∙ ground (arith, by_event-insert_row w e m rows),
      ground (arith, found, by_event-insert_row w e m rows),
    )

-- What a step keeps of an event.
pub record Keeps (e : String) (d d' : MapTables) : Type 0 where
  pub holds : held e d' ≡ held e d
  pub current :
      is_some (by_event e d.current.rows) ≡ true
      → by_event e d'.current.rows ≡ by_event e d.current.rows

pub Keeps-trans :
    {e : String} {d d' d'' : MapTables} → Keeps e d d' → Keeps e d' d'' → Keeps e d d''
Keeps-trans k l = record {
  holds = l.holds ∙ k.holds;
  current = λ h. l.current (ap is_some (k.current h) ∙ h) ∙ k.current h;
}

merge_from-current :
    (e : String) (s t : MapTable)
    → is_some (by_event e t.rows) ≡ true
    → by_event e (merge_from s t).rows ≡ by_event e t.rows
merge_from-current e s t h = (by_event-insert_rows s.has_mesh e s.rows t.rows).0 h

merge_from-found :
    (e : String) (s t : MapTable)
    → is_some (by_event e (merge_from s t).rows)
      ≡ (is_some (by_event e t.rows) || is_some (by_event e s.rows))
merge_from-found e s t = (by_event-insert_rows s.has_mesh e s.rows t.rows).1

pub recover_stale-Keeps :
    (e : String) (temp stale : Option MapTable) (d : MapTables)
    → d.temp ≡ temp
    → d.stale_temp ≡ stale
    → Keeps e d (recover_stale temp stale d)
unfolding recover_stale
recover_stale-Keeps e temp none d p q = record { holds = refl; current = λ _. refl }
recover_stale-Keeps e none (some s) d p q = record {
  holds = ground (arith, p, q);
  current = λ _. refl;
}
recover_stale-Keeps e (some t) (some s) d p q = chosen (not t.has_mesh && s.has_mesh)
  where
    chosen : (b : Bool) → Keeps e d (merge_stale_into b t s d)
    chosen true = record {
      holds = ground (arith, p, q, merge_from-found e s d.current);
      current = merge_from-current e s d.current;
    }
    chosen false = record {
      holds = ground (arith, p, q, merge_from-found e s t);
      current = λ _. refl;
    }

pub merge_temp-Keeps :
    (e : String) (temp : Option MapTable) (d : MapTables)
    → d.temp ≡ temp
    → Keeps e d (merge_temp temp d)
unfolding merge_temp
merge_temp-Keeps e none d p = record { holds = refl; current = λ _. refl }
merge_temp-Keeps e (some t) d p = chosen d.current.text_id
  where
    chosen :
        (b : Bool)
        → Keeps e d (if b then record d { current = merge_from t d.current; temp = none } else d)
    chosen true = record {
      holds = ground (arith, p, merge_from-found e t d.current);
      current = merge_from-current e t d.current;
    }
    chosen false = record { holds = refl; current = λ _. refl }

pub merge_legacy-Keeps :
    (e : String) (legacy : Option MapTable) (d : MapTables)
    → d.legacy ≡ legacy
    → Keeps e d (merge_legacy legacy d)
unfolding merge_legacy
merge_legacy-Keeps e none d p = record { holds = refl; current = λ _. refl }
merge_legacy-Keeps e (some t) d p = chosen d.current.text_id
  where
    chosen :
        (b : Bool)
        → Keeps e d (if b then record d { current = merge_from t d.current; legacy = none } else d)
    chosen true = record {
      holds = ground (arith, p, merge_from-found e t d.current);
      current = merge_from-current e t d.current;
    }
    chosen false = record { holds = refl; current = λ _. refl }

merged-current :
    (e : String) (o : Option MapTable) (t : MapTable)
    → is_some (by_event e t.rows) ≡ true
    → by_event e (merged o t).rows ≡ by_event e t.rows
merged-current e none t h = refl
merged-current e (some s) t h = merge_from-current e s t h

merged-found :
    (e : String) (o : Option MapTable) (t : MapTable)
    → is_some (by_event e (merged o t).rows) ≡ (is_some (by_event e t.rows) || found_in e o)
merged-found e none t = ground arith
merged-found e (some s) t = merge_from-found e s t

-- Where a table is rebuilt, the stale temporary one has been recovered.
pub rebuild-Keeps :
    (e : String) (merge_fails : Bool) (d : MapTables)
    → d.stale_temp ≡ none
    → Keeps e d (rebuild merge_fails d)
unfolding rebuild
rebuild-Keeps e merge_fails d p = chosen d.current.text_id merge_fails
  where
    chosen :
        (b fails : Bool)
        → Keeps e d (
            if b
            then d
            else (if fails
                then record {
                  current = merged d.legacy (record new_table { rows = d.current.rows });
                  temp = none;
                  stale_temp = d.temp;
                  legacy = none;
                }
                else record {
                  current =
                      merged d.temp (merged d.legacy (record new_table { rows = d.current.rows }));
                  temp = none;
                  stale_temp = none;
                  legacy = none;
                }))
    chosen true fails = record { holds = refl; current = λ _. refl }
    chosen false true = record {
      holds =
          ground (arith, p, merged-found e d.legacy (record new_table { rows = d.current.rows }));
      current = merged-current e d.legacy (record new_table { rows = d.current.rows });
    }
    chosen false false = record {
      holds = ground (
        arith,
        p,
        merged-found e d.temp (merged d.legacy (record new_table { rows = d.current.rows })),
        merged-found e d.legacy (record new_table { rows = d.current.rows }),
      );
      current = λ h. ground (
        arith,
        merged-current e d.temp (merged d.legacy (record new_table { rows = d.current.rows })),
        merged-current e d.legacy (record new_table { rows = d.current.rows }) h,
      );
    }
