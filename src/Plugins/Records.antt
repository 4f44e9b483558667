-- ===== src/Plugins/Records.antt =====
-- The data that plugins keep of nodes (src/mmrelay/plugins/base_plugin.py), against a function from
-- plugins and nodes to values that knows neither rows nor transactions.
use meshtastic_matrix_relay.Base.{
  ◌≡◌, refl, ap, ◌∙◌, arith, String, Bool, true, false, Option, none, some, List, [], ◌∷◌, str_eq,
  eq_iff, ◌&&◌, if◌then◌else◌,
}
use mathlib.Core.Path.{fun_ext}
use meshtastic_matrix_relay.Py.{Value, list, nil, or_else}
use meshtastic_matrix_relay.Database.Runtime.{
  PluginRow, Tables, Conn, execute, run_sync, read, write,
}
use meshtastic_matrix_relay.Plugins.Data.{
  Json, upsert_row, delete_row, payload_of, store_payload, store_plugin_data, delete_plugin_data,
  decoded_data, get_plugin_data_for_node,
}
use meshtastic_matrix_relay.Plugins.NodeData.{
  BasePlugin, extend, last_rows, as_list, normalized, store_after, store_node_data, set_node_data,
  delete_node_data,
}

pub data Call : Type 0 where
  store set_all : BasePlugin → String → Value → Call
  delete : BasePlugin → String → Call

-- Whether the stored value was read, and whether the call's write was committed.
pub record CallOutcome : Type 0 where
  pub was_read : Bool
  pub done : Bool

abbrev pub perform : Json → Call → Conn → CallOutcome × Conn
perform json (store p i v) c =
    let ((was_read, done), c') = store_node_data json p i v c in
    (record { was_read = was_read; done = done }, c')
perform json (set_all p i v) c =
    let (done, c') = set_node_data json p i v c in (record { was_read = true; done = done }, c')
perform json (delete p i) c =
    let (done, c') = delete_node_data p i c in (record { was_read = true; done = done }, c')

unfoldable pub run : Json → List Call → Conn → List (Call × CallOutcome) × Conn
run json [] c = ([], c)
run json (k ∷ ks) c =
    let (o, c') = perform json k c in let (log, last) = run json ks c' in ((k, o) ∷ log, last)

-- What each plugin keeps of each node.
abbrev pub Kept : Type 0
Kept = String → String → Value

-- What a value is when it is read again.
abbrev pub reread : Json → Value → Value
reread json v = or_else (json.loads (or_else (json.dumps v) "[]")) (list nil)

abbrev pub keep : String → String → Value → Kept → Kept
keep p i v s q j = if str_eq q p && str_eq j i then v else s q j

-- Where the stored value could not be read, the new rows replace it.
abbrev pub note : Json → Kept → Call × CallOutcome → Kept
note json s (store p i v, o) =
    if o.done
    then keep p.plugin_name i
        (reread json (
          list (
            last_rows p.max_data_rows_per_node
              (extend (as_list (if o.was_read then s p.plugin_name i else list nil)) (as_list v)))))
        s
    else s
note json s (set_all p i v, o) =
    if o.done
    then keep p.plugin_name i
        (reread json (list (last_rows p.max_data_rows_per_node (normalized v)))) s
    else s
note json s (delete p i, o) =
    if o.done then keep p.plugin_name i (or_else (json.loads "[]") (list nil)) s else s

unfoldable pub note_all : Json → Kept → List (Call × CallOutcome) → Kept
note_all json s [] = s
note_all json s (k ∷ ks) = note_all json (note json s k) ks

-- What is read of a node when the read succeeds.
abbrev pub kept : Json → List PluginRow → Kept
kept json rows p i = decoded_data json (payload_of p i rows)

pub payload_of-upsert :
    (q j : String) (new : PluginRow) (rows : List PluginRow)
    → payload_of q j (upsert_row new rows) ≡ (
        if str_eq q new.plugin_name && str_eq j new.meshtastic_id
        then some new.payload
        else payload_of q j rows)
unfolding payload_of upsert_row
payload_of-upsert q j new [] = refl
payload_of-upsert q j new (row ∷ rows) = ground (
  arith,
  payload_of-upsert q j new rows,
  eq_iff q new.plugin_name,
  eq_iff j new.meshtastic_id,
  eq_iff new.plugin_name row.plugin_name,
  eq_iff new.meshtastic_id row.meshtastic_id,
)

payload_of-delete :
    (q j p i : String) (rows : List PluginRow)
    → payload_of q j (delete_row p i rows)
      ≡ (if str_eq q p && str_eq j i then none else payload_of q j rows)
unfolding payload_of delete_row
payload_of-delete q j p i [] = ground arith
payload_of-delete q j p i (row ∷ rows) = ground (
  arith,
  payload_of-delete q j p i rows,
  eq_iff q p,
  eq_iff j i,
  eq_iff p row.plugin_name,
  eq_iff i row.meshtastic_id,
)

stored_rows :
    (p i s : String) (c : Conn)
    → (store_payload p i (some s) c).1.tables.plugin_data ≡ (
        if (store_payload p i (some s) c).0
        then upsert_row
            (record { plugin_name = p; meshtastic_id = i; payload = s })
            c.tables.plugin_data
        else c.tables.plugin_data)
unfolding execute run_sync write
stored_rows p i s c = ground arith

deleted_rows :
    (p i : String) (c : Conn)
    → (delete_plugin_data p i c).1.tables.plugin_data ≡ (
        if (delete_plugin_data p i c).0
        then delete_row p i c.tables.plugin_data
        else c.tables.plugin_data)
unfolding execute run_sync write delete_plugin_data
deleted_rows p i c = ground arith

fetched_lem :
    (json : Json) (p i : String) (c : Conn)
    → ((get_plugin_data_for_node json p i c).0.0 ≡ (
        if (get_plugin_data_for_node json p i c).0.1
        then kept json c.tables.plugin_data p i
        else list nil))
      × ((get_plugin_data_for_node json p i c).1.tables ≡ c.tables)
unfolding execute run_sync read get_plugin_data_for_node
fetched_lem json p i c = ground arith

kept-store :
    (json : Json) (p i : String) (v : Value) (c : Conn) (q j : String)
    → kept json (store_plugin_data json p i v c).1.tables.plugin_data q j
      ≡ (if (store_plugin_data json p i v c).0
            then keep p i (reread json v) (kept json c.tables.plugin_data)
            else kept json c.tables.plugin_data)
          q j
unfolding store_plugin_data
kept-store json p i v c q j = chosen (json.dumps v)
  where
    chosen :
        (o : Option String)
        → decoded_data json (payload_of q j (store_payload p i o c).1.tables.plugin_data)
          ≡ (if (store_payload p i o c).0
                then keep p i
                    (or_else (json.loads (or_else o "[]")) (list nil))
                    (kept json c.tables.plugin_data)
                else kept json c.tables.plugin_data)
              q j
    chosen none = refl
    chosen (some s) =
        ap (λ rows. decoded_data json (payload_of q j rows)) (stored_rows p i s c)
        ∙ made (store_payload p i (some s) c).0
      where
        made :
            (b : Bool)
            → decoded_data json (
                payload_of q j (
                  if b
                  then upsert_row
                      (record { plugin_name = p; meshtastic_id = i; payload = s })
                      c.tables.plugin_data
                  else c.tables.plugin_data))
              ≡ (if b
                    then keep p i
                        (or_else (json.loads s) (list nil))
                        (kept json c.tables.plugin_data)
                    else kept json c.tables.plugin_data)
                  q j
        made true = ground (
          arith,
          payload_of-upsert q j (record { plugin_name = p; meshtastic_id = i; payload = s })
              c.tables.plugin_data,
        )
        made false = refl

kept-delete :
    (json : Json) (p i : String) (c : Conn) (q j : String)
    → kept json (delete_plugin_data p i c).1.tables.plugin_data q j
      ≡ (if (delete_plugin_data p i c).0
            then keep p i (or_else (json.loads "[]") (list nil)) (kept json c.tables.plugin_data)
            else kept json c.tables.plugin_data)
          q j
kept-delete json p i c q j =
    ap (λ rows. decoded_data json (payload_of q j rows)) (deleted_rows p i c)
    ∙ made (delete_plugin_data p i c).0
  where
    made :
        (b : Bool)
        → decoded_data json (
            payload_of q j
              (if b then delete_row p i c.tables.plugin_data else c.tables.plugin_data))
          ≡ (if b
                then keep p i
                    (or_else (json.loads "[]") (list nil))
                    (kept json c.tables.plugin_data)
                else kept json c.tables.plugin_data)
              q j
    made true = ground (arith, payload_of-delete q j p i c.tables.plugin_data)
    made false = refl

abbrev appended : BasePlugin → Value → Value → Value
appended p v old = list (last_rows p.max_data_rows_per_node (extend (as_list old) (as_list v)))

store_after-kept :
    (json : Json) (p : BasePlugin) (i : String) (v : Value) (rows : List PluginRow)
    (r : (Value × Bool) × Conn) (q j : String)
    → r.0.0 ≡ (if r.0.1 then kept json rows p.plugin_name i else list nil)
    → r.1.tables.plugin_data ≡ rows
    → kept json (store_after json p i v r).1.tables.plugin_data q j
      ≡ (if (store_after json p i v r).0.1
            then keep p.plugin_name i
                (reread json
                  (appended p v (if r.0.1 then kept json rows p.plugin_name i else list nil)))
                (kept json rows)
            else kept json rows)
          q j
store_after-kept json p i v rows ((old, was_read), c) q j h e =
    kept-store json p.plugin_name i (appended p v old) c q j
    ∙ ap
        (λ (x : Value × List PluginRow).
          (if (store_plugin_data json p.plugin_name i (appended p v old) c).0
              then keep p.plugin_name i (reread json (appended p v x.0)) (kept json x.1)
              else kept json x.1)
            q j)
        {x = (old, c.tables.plugin_data)}
        {y = (if was_read then kept json rows p.plugin_name i else list nil, rows)}
        (λ t. (h t, e t))

-- A call changes what is kept as it is noted.
perform-note :
    (json : Json) (k : Call) (c : Conn) (q j : String)
    → kept json (perform json k c).1.tables.plugin_data q j
      ≡ note json (kept json c.tables.plugin_data) (k, (perform json k c).0) q j
unfolding store_node_data set_node_data
perform-note json (store p i v) c q j =
    let (h, e) = fetched_lem json p.plugin_name i c in
    store_after-kept json p i v c.tables.plugin_data
      (get_plugin_data_for_node json p.plugin_name i c) q j h (ap (λ (t : Tables). t.plugin_data) e)
perform-note json (set_all p i v) c q j =
    kept-store json p.plugin_name i (list (last_rows p.max_data_rows_per_node (normalized v))) c q j
perform-note json (delete p i) c q j = kept-delete json p.plugin_name i c q j

-- The plugins' data refine a function from plugins and nodes to values: after any calls, with
-- database errors anywhere and whatever JSON makes of a value, what is read of a node is what the
-- committed calls have left in that function. A store appends to what is kept of its own plugin and
-- node alone and cuts the front to the plugin's limit, except that it starts from nothing when its
-- read failed; a call that was not committed changes nothing.
pub run-note_all :
    (json : Json) (ks : List Call) (c : Conn)
    → kept json (run json ks c).1.tables.plugin_data
      ≡ note_all json (kept json c.tables.plugin_data) (run json ks c).0
unfolding run note_all
run-note_all json [] c = refl
run-note_all json (k ∷ ks) c =
    run-note_all json ks (perform json k c).1
    ∙ ap (λ s. note_all json s (run json ks (perform json k c).1).0)
        (fun_ext (λ q. fun_ext (λ j. perform-note json k c q j)))
