-- ===== src/Database/Upgrade/Finished.antt =====
-- The tables after the upgrade of `message_map` (src/mmrelay/db_utils.py).
use meshtastic_matrix_relay.Base.{
  ◌≡◌, refl, ◌∙◌, String, Bool, true, false, not, Option, none, some, is_some, ◌&&◌, if◌then◌else◌,
}
use meshtastic_matrix_relay.Database.Runtime.{Mapping}
use meshtastic_matrix_relay.Database.MessageMap.{by_event}
use meshtastic_matrix_relay.Database.Upgrade.{
  MapTable, MapTables, merge_from, merge_stale_into, new_table, ensure_table, started,
  recover_stale, merge_temp, merge_legacy, merged, rebuild, upgrade_message_map,
}
use meshtastic_matrix_relay.Database.Upgrade.Kept.{
  held, Keeps-trans, recover_stale-Keeps, merge_temp-Keeps, merge_legacy-Keeps, rebuild-Keeps,
}

-- What is true of the tables between the steps.
record IsRecovered (d : MapTables) : Type 0 where
  stale_gone : d.stale_temp ≡ none
  has_mesh : d.current.has_mesh ≡ true

ensure_table-mesh : (o : Option MapTable) → (ensure_table o).has_mesh ≡ true
unfolding ensure_table
ensure_table-mesh none = refl
ensure_table-mesh (some t) = refl

recover_stale-IsRecovered :
    (temp stale : Option MapTable) (d : MapTables)
    → d.stale_temp ≡ stale
    → d.current.has_mesh ≡ true
    → IsRecovered (recover_stale temp stale d)
unfolding recover_stale
recover_stale-IsRecovered temp none d p h = record { stale_gone = p; has_mesh = h }
recover_stale-IsRecovered none (some s) d p h = record { stale_gone = refl; has_mesh = h }
recover_stale-IsRecovered (some t) (some s) d p h = chosen (not t.has_mesh && s.has_mesh)
  where
    chosen : (b : Bool) → IsRecovered (merge_stale_into b t s d)
    chosen true = record { stale_gone = refl; has_mesh = h }
    chosen false = record { stale_gone = refl; has_mesh = h }

-- After the merges a table of texts has taken the others in.
record IsMerged (d : MapTables) : Type 0 where
  recovered : IsRecovered d
  temp_gone : d.current.text_id ≡ true → d.temp ≡ none
  legacy_gone : d.current.text_id ≡ true → d.legacy ≡ none

merge_temp-gone :
    (temp : Option MapTable) (d : MapTables)
    → d.temp ≡ temp
    → IsRecovered d
    → IsRecovered (merge_temp temp d)
      × ((merge_temp temp d).current.text_id ≡ true → (merge_temp temp d).temp ≡ none)
unfolding merge_temp
merge_temp-gone none d p r = (r, λ _. p)
merge_temp-gone (some t) d p r = chosen d.current.text_id refl
  where
    chosen :
        (b : Bool)
        → d.current.text_id ≡ b
        → IsRecovered (if b then record d { current = merge_from t d.current; temp = none } else d)
          × ((if b
                  then record d { current = merge_from t d.current; temp = none }
                  else d).current.text_id
                ≡ true
              → (if b then record d { current = merge_from t d.current; temp = none } else d).temp
                ≡ none)
    chosen true e = (record { stale_gone = r.stale_gone; has_mesh = r.has_mesh }, λ _. refl)
    chosen false e = (r, λ h. cc)

merge_legacy-IsMerged :
    (legacy : Option MapTable) (d : MapTables)
    → d.legacy ≡ legacy
    → IsRecovered d
    → (d.current.text_id ≡ true → d.temp ≡ none)
    → IsMerged (merge_legacy legacy d)
unfolding merge_legacy
merge_legacy-IsMerged none d p r h = record { recovered = r; temp_gone = h; legacy_gone = λ _. p }
merge_legacy-IsMerged (some t) d p r h = chosen d.current.text_id refl
  where
    chosen :
        (b : Bool)
        → d.current.text_id ≡ b
        → IsMerged (if b then record d { current = merge_from t d.current; legacy = none } else d)
    chosen true e = record {
      recovered = record { stale_gone = r.stale_gone; has_mesh = r.has_mesh };
      temp_gone = h;
      legacy_gone = λ _. refl;
    }
    chosen false e = record { recovered = r; temp_gone = h; legacy_gone = λ k. cc }

-- The upgraded schema: one table, with ids as texts and the meshnet.
pub record IsUpgraded (merge_fails : Bool) (d : MapTables) : Type 0 where
  pub text_id : d.current.text_id ≡ true
  pub has_mesh : d.current.has_mesh ≡ true
  pub temp_gone : d.temp ≡ none
  pub legacy_gone : d.legacy ≡ none
  pub stale_gone : (if merge_fails then none else d.stale_temp) ≡ none

merged-schema :
    (o : Option MapTable) (t : MapTable)
    → ((merged o t).text_id ≡ t.text_id) × ((merged o t).has_mesh ≡ t.has_mesh)
merged-schema none t = (refl, refl)
merged-schema (some s) t = (refl, refl)

rebuild-IsUpgraded :
    (merge_fails : Bool) (d : MapTables)
    → IsMerged d
    → IsUpgraded merge_fails (rebuild merge_fails d)
unfolding rebuild
rebuild-IsUpgraded merge_fails d m = chosen d.current.text_id merge_fails refl
  where
    stale_gone_lem : (fails : Bool) → (if fails then none else d.stale_temp) ≡ none
    stale_gone_lem true = refl
    stale_gone_lem false = m.recovered.stale_gone

    chosen :
        (b fails : Bool)
        → d.current.text_id ≡ b
        → IsUpgraded fails (
            if b
            then d
            else (if fails
                then record {
                  current = merged d.legacy (record new_table { rows = d.current.rows });
                  temp = none;
                  stale_temp = d.temp;
                  legacy = none;
                }
                else record {
                  current =
                      merged d.temp (merged d.legacy (record new_table { rows = d.current.rows }));
                  temp = none;
                  stale_temp = none;
                  legacy = none;
                }))
    chosen true fails e = record {
      text_id = e;
      has_mesh = m.recovered.has_mesh;
      temp_gone = m.temp_gone e;
      legacy_gone = m.legacy_gone e;
      stale_gone = stale_gone_lem fails;
    }
    chosen false true e =
        let (typed, meshed) = merged-schema d.legacy (record new_table { rows = d.current.rows }) in
        record {
          text_id = typed;
          has_mesh = meshed;
          temp_gone = refl;
          legacy_gone = refl;
          stale_gone = refl;
        }
    chosen false false e =
        let (typed, meshed) = merged-schema d.legacy (record new_table { rows = d.current.rows }) in
        let (typed', meshed') =
          merged-schema d.temp (merged d.legacy (record new_table { rows = d.current.rows })) in
        record {
          text_id = typed' ∙ typed;
          has_mesh = meshed' ∙ meshed;
          temp_gone = refl;
          legacy_gone = refl;
          stale_gone = refl;
        }

-- The upgrade of the message map, from tables of any of the older forms and from whatever an upgrade
-- that did not end has left: an event has a row in one of the four tables afterwards exactly if it had
-- one before; a row of `message_map` itself is found unchanged; and there is one table then, with ids
-- as texts and the column of the meshnet, where the last merge, whose error is caught, succeeds. If
-- it fails, only the stale temporary table may be left beside it.
pub upgrade_message_map-kept :
    (merge_fails : Bool) (current temp stale_temp legacy : Option MapTable) (e : String)
    → (held e (upgrade_message_map merge_fails current temp stale_temp legacy)
        ≡ held e (started current temp stale_temp legacy))
      × ((if is_some (by_event e (ensure_table current).rows)
            then by_event e
                (upgrade_message_map merge_fails current temp stale_temp legacy).current.rows
            else none)
          ≡ by_event e (ensure_table current).rows)
      × IsUpgraded merge_fails (upgrade_message_map merge_fails current temp stale_temp legacy)
unfolding upgrade_message_map
upgrade_message_map-kept merge_fails current temp stale_temp legacy e =
    let d = started current temp stale_temp legacy in
    let d1 = recover_stale temp stale_temp d in
    let d2 = merge_temp d1.temp d1 in
    let d3 = merge_legacy d2.legacy d2 in
    let r1 = recover_stale-IsRecovered temp stale_temp d refl (ensure_table-mesh current) in
    let (r2, gone) = merge_temp-gone d1.temp d1 refl r1 in
    let m3 = merge_legacy-IsMerged d2.legacy d2 refl r2 gone in
    let kept = Keeps-trans (recover_stale-Keeps e temp stale_temp d refl refl) (
      Keeps-trans (merge_temp-Keeps e d1.temp d1 refl) (
        Keeps-trans (merge_legacy-Keeps e d2.legacy d2 refl)
          (rebuild-Keeps e merge_fails d3 m3.recovered.stale_gone))) in
    (
      kept.holds,
      found_lem (by_event e (ensure_table current).rows) kept.current,
      rebuild-IsUpgraded merge_fails d3 m3,
    )
  where
    found_lem :
        {n : Option Mapping} (o : Option Mapping)
        → (is_some o ≡ true → n ≡ o)
        → (if is_some o then n else none) ≡ o
    found_lem none h = refl
    found_lem (some m) h = h refl
