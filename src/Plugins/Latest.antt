-- ===== src/Plugins/Latest.antt =====
-- What `store_node_data` (src/mmrelay/plugins/base_plugin.py) leaves of a node after many calls.
use meshtastic_matrix_relay.Base.{
  ◌≡◌, refl, sym, ap, ◌∙◌, arith, ℕ, zero, suc, ◌+◌, ◌-◌, ◌≤◌, ◌<◌, String, Bool, true, none, some,
  List, [], ◌∷◌, eq_iff, ◌&&◌,
}
use meshtastic_matrix_relay.Py.{Value, list, Items, nil, cons, or_else}
use meshtastic_matrix_relay.Database.Runtime.{Tables, Conn, execute, run_sync, read, write}
use meshtastic_matrix_relay.Plugins.Data.{
  Json, upsert_row, payload_of, store_payload, store_plugin_data, get_plugin_data_for_node,
}
use meshtastic_matrix_relay.Plugins.NodeData.{
  BasePlugin, extend, count, skip, last_rows, as_list, store_after, store_node_data, get_node_data,
}
use meshtastic_matrix_relay.Plugins.Records.{Call, store, perform, run, kept, payload_of-upsert}

abbrev pub stores : BasePlugin → String → List Value → List Call
stores p i [] = []
stores p i (v ∷ vs) = store p i v ∷ stores p i vs

-- All rows that the calls append, in their order.
abbrev pub rows_of : List Value → Items
rows_of [] = nil
rows_of (v ∷ vs) = extend (as_list v) (rows_of vs)

abbrev pub all_of : (Value → Bool) → Items → Bool
all_of f nil = true
all_of f (cons x xs) = f x && all_of f xs

extend_assoc : (xs ys zs : Items) → extend (extend xs ys) zs ≡ extend xs (extend ys zs)
extend_assoc nil ys zs = refl
extend_assoc (cons x xs) ys zs = ap (cons x) (extend_assoc xs ys zs)

count-extend : (xs ys : Items) → count (extend xs ys) ≡ count xs + count ys
count-extend nil ys = omega arith
count-extend (cons x xs) ys = omega (arith, count-extend xs ys)

count-skip : (n : ℕ) (xs : Items) → count (skip n xs) ≡ count xs - n
count-skip zero xs = omega arith
count-skip (suc n) nil = omega arith
count-skip (suc n) (cons x xs) = omega (arith, count-skip n xs)

skip_nil : (n : ℕ) → skip n nil ≡ nil
skip_nil zero = refl
skip_nil (suc n) = refl

skip-skip : (a k : ℕ) (xs : Items) → skip a (skip k xs) ≡ skip (k + a) xs
skip-skip a zero xs = ground arith
skip-skip a (suc k) nil = ground (arith, skip_nil a, skip_nil (suc k + a))
skip-skip a (suc k) (cons x xs) =
    let shifted : suc (k + a) ≡ suc k + a = omega arith in
    skip-skip a k xs ∙ ap (λ n. skip n (cons x xs)) shifted

skip-extend : (n : ℕ) (xs ys : Items) → n ≤ count xs → skip n (extend xs ys) ≡ extend (skip n xs) ys
skip-extend zero xs ys h = refl
skip-extend (suc n) nil ys h = ground arith
skip-extend (suc n) (cons x xs) ys h = skip-extend n xs ys (omega arith)

-- Rows that were cut before more are appended would be cut afterwards as well.
last_rows-extend :
    (n : ℕ) (xs ys : Items) → last_rows n (extend (last_rows n xs) ys) ≡ last_rows n (extend xs ys)
unfolding last_rows
last_rows-extend zero xs ys = refl
last_rows-extend (suc n) xs ys =
    let k = count xs - suc n in
    ap (λ zs. skip (count zs - suc n) zs) (sym (skip-extend k xs ys (omega arith)))
    ∙ skip-skip (count (skip k (extend xs ys)) - suc n) k (extend xs ys)
    ∙ ap (λ a. skip a (extend xs ys))
        (omega (arith, count-skip k (extend xs ys), count-extend xs ys))

last_rows-count : (n : ℕ) (xs : Items) → 0 < n → count (last_rows n xs) ≤ n
unfolding last_rows
last_rows-count zero xs h = ground arith
last_rows-count (suc n) xs h = omega (arith, count-skip (count xs - suc n) xs)

last_rows_nil : (n : ℕ) → last_rows n nil ≡ nil
unfolding last_rows
last_rows_nil zero = refl
last_rows_nil (suc n) = skip_nil (0 - suc n)

extend_nil : (xs : Items) → extend xs nil ≡ xs
extend_nil nil = refl
extend_nil (cons x xs) = ap (cons x) (extend_nil xs)

all_of-extend :
    (f : Value → Bool) (xs ys : Items) → all_of f (extend xs ys) ≡ (all_of f xs && all_of f ys)
all_of-extend f nil ys = refl
all_of-extend f (cons x xs) ys = ground (arith, all_of-extend f xs ys)

all_of-skip :
    (f : Value → Bool) (n : ℕ) (xs : Items) → all_of f xs ≡ true → all_of f (skip n xs) ≡ true
all_of-skip f zero xs h = h
all_of-skip f (suc n) nil h = h
all_of-skip f (suc n) (cons x xs) h = ground (arith, all_of-skip f n xs)

all_of-last_rows :
    (f : Value → Bool) (n : ℕ) (xs : Items) → all_of f xs ≡ true → all_of f (last_rows n xs) ≡ true
unfolding last_rows
all_of-last_rows f zero xs h = h
all_of-last_rows f (suc n) xs h = all_of-skip f (count xs - suc n) xs h

-- A connection on which nothing raises.
abbrev pub healthy : Tables → Conn
healthy t = record { tables = t; faults = [] }

abbrev with_payload : BasePlugin → String → String → Tables → Tables
with_payload p i s t = record t {
  plugin_data =
      upsert_row (record { plugin_name = p.plugin_name; meshtastic_id = i; payload = s })
        t.plugin_data;
}

perform-healthy :
    (json : Json) (p : BasePlugin) (i : String) (v : Value) (t : Tables) (xs : Items) (s : String)
    → kept json t.plugin_data p.plugin_name i ≡ list xs
    → json.dumps (list (last_rows p.max_data_rows_per_node (extend xs (as_list v)))) ≡ some s
    → (perform json (store p i v) (healthy t)).1 ≡ healthy (with_payload p i s t)
unfolding store_node_data store_plugin_data get_plugin_data_for_node execute run_sync read write
perform-healthy json p i v t xs s h d =
    ap (λ w. (store_after json p i v ((w, true), healthy t)).1) h
    ∙ ap (λ o. (store_payload p.plugin_name i o (healthy t)).1) d

kept-with_payload :
    (json : Json) (p : BasePlugin) (i s : String) (t : Tables) (v : Value)
    → json.loads s ≡ some v
    → kept json (with_payload p i s t).plugin_data p.plugin_name i ≡ v
kept-with_payload json p i s t v h = ground (
  arith,
  h,
  payload_of-upsert p.plugin_name i
      (record { plugin_name = p.plugin_name; meshtastic_id = i; payload = s }) t.plugin_data,
  eq_iff p.plugin_name p.plugin_name,
  eq_iff i i,
)

latest_after :
    (json : Json) (readable : Value → Bool) (p : BasePlugin) (i : String)
    → ((xs : Items)
        → all_of readable xs ≡ true
        → count xs ≤ p.max_data_rows_per_node
        → (s : String) × (json.dumps (list xs) ≡ some s) × (json.loads s ≡ some (list xs)))
    → 0 < p.max_data_rows_per_node
    → (vs : List Value) (acc : Items) (t : Tables) → all_of readable acc ≡ true
    → all_of readable (rows_of vs) ≡ true
    → kept json t.plugin_data p.plugin_name i ≡ list (last_rows p.max_data_rows_per_node acc)
    → (t' : Tables) × ((run json (stores p i vs) (healthy t)).1 ≡ healthy t')
      × (kept json t'.plugin_data p.plugin_name i
          ≡ list (last_rows p.max_data_rows_per_node (extend acc (rows_of vs))))
unfolding run
latest_after json readable p i codec positive [] acc t a r h =
    (t, refl, h ∙ ap (λ xs. list (last_rows p.max_data_rows_per_node xs)) (sym (extend_nil acc)))
latest_after json readable p i codec positive (v ∷ vs) acc t a r h =
    let n = p.max_data_rows_per_node in
    let next = extend acc (as_list v) in
    let (first, rest) = parts (all_of-extend readable (as_list v) (rows_of vs)) r in
    let a' = all_of-extend readable acc (as_list v) ∙ both a first in
    let (s, dumped, loaded) =
      codec (last_rows n next) (all_of-last_rows readable n next a')
        (last_rows-count n next positive) in
    let d = ap (λ xs. json.dumps (list xs)) (last_rows-extend n acc (as_list v)) ∙ dumped in
    let (t', e, k) =
      latest_after json readable p i codec positive vs next (with_payload p i s t) a' rest
        (kept-with_payload json p i s t (list (last_rows n next)) loaded) in
    (
      t',
      ap (λ c. (run json (stores p i vs) c).1)
            (perform-healthy json p i v t (last_rows n acc) s h d)
          ∙ e,
      k ∙ ap (λ xs. list (last_rows n xs)) (extend_assoc acc (as_list v) (rows_of vs)),
    )
  where
    parts : {b c d : Bool} → b ≡ (c && d) → b ≡ true → (c ≡ true) × (d ≡ true)
    parts e h = ground (arith, e, h)

    both : {b c : Bool} → b ≡ true → c ≡ true → (b && c) ≡ true
    both g h = ground (arith, g, h)

-- After any number of `store_node_data` for one node of a plugin, from tables that have nothing of
-- it, `get_node_data` returns the latest of all the rows that were appended, in their order, and no
-- more than the plugin's limit. This holds while no statement raises, for a positive limit, and for
-- rows whose lists, within the limit, `json` reads back as it wrote them.
pub store_node_data-latest :
    (json : Json) (readable : Value → Bool) (p : BasePlugin) (i : String)
    → ((xs : Items)
        → all_of readable xs ≡ true
        → count xs ≤ p.max_data_rows_per_node
        → (s : String) × (json.dumps (list xs) ≡ some s) × (json.loads s ≡ some (list xs)))
    → json.loads "[]" ≡ some (list nil)
    → 0 < p.max_data_rows_per_node
    → (vs : List Value) (t : Tables) → all_of readable (rows_of vs) ≡ true
    → payload_of p.plugin_name i t.plugin_data ≡ none
    → ((get_node_data json p i (run json (stores p i vs) (healthy t)).1).0
        ≡ list (last_rows p.max_data_rows_per_node (rows_of vs)))
      × (count (last_rows p.max_data_rows_per_node (rows_of vs)) ≤ p.max_data_rows_per_node)
unfolding get_plugin_data_for_node execute run_sync read
store_node_data-latest json readable p i codec empty positive vs t r h =
    let n = p.max_data_rows_per_node in
    let started =
      ap (λ o. or_else (json.loads (or_else o "[]")) (list nil)) h
      ∙ ap (λ o. or_else o (list nil)) empty
      ∙ ap list (sym (last_rows_nil n)) in
    let (t', e, k) = latest_after json readable p i codec positive vs nil t refl r started in
    (ap (λ c. (get_node_data json p i c).0) e ∙ k, last_rows-count n (rows_of vs) positive)
