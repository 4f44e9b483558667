-- ===== src/Plugins/NodeData.antt =====
-- base_plugin.py (src/mmrelay/plugins): what a plugin keeps of a node. The plugin's name is
-- initialised, and node ids are texts; an object of a class without a model is taken for no iterable.
use meshtastic_matrix_relay.Base.{ℕ, zero, suc, ◌-◌, String, Bool, List}
use meshtastic_matrix_relay.Py.{Value, list, tuple, set, Items, nil, cons}
use meshtastic_matrix_relay.Database.Runtime.{Conn}
use meshtastic_matrix_relay.Plugins.Data.{
  Json, store_plugin_data, delete_plugin_data, get_plugin_data_for_node, get_plugin_data,
}

pub record BasePlugin : Type 0 where
  pub plugin_name : String
  pub max_data_rows_per_node : ℕ

abbrev pub extend : Items → Items → Items
extend nil ys = ys
extend (cons x xs) ys = cons x (extend xs ys)

abbrev pub count : Items → ℕ
count nil = 0
count (cons _ xs) = suc (count xs)

abbrev pub skip : ℕ → Items → Items
skip zero xs = xs
skip (suc n) nil = nil
skip (suc n) (cons _ xs) = skip n xs

-- `data[-n:]`, which is the whole list for `n = 0`
unfoldable pub last_rows : ℕ → Items → Items
last_rows zero xs = xs
last_rows (suc n) xs = skip (count xs - suc n) xs

-- `if not isinstance(data, list): data = [data]`
abbrev pub as_list : Value → Items
as_list (list xs) = xs
as_list v = cons v nil

-- The first result is whether the stored value was read, the second whether a row was written.
abbrev pub store_after :
    Json → BasePlugin → String → Value → (Value × Bool) × Conn → (Bool × Bool) × Conn
store_after json plugin i node_data ((data_value, was_read), c) =
    let (done, c') =
      store_plugin_data json plugin.plugin_name i
        (list (
          last_rows plugin.max_data_rows_per_node
            (extend (as_list data_value) (as_list node_data))))
        c in
    ((was_read, done), c')

unfoldable pub store_node_data : Json → BasePlugin → String → Value → Conn → (Bool × Bool) × Conn
store_node_data json plugin i node_data c =
    store_after json plugin i node_data (get_plugin_data_for_node json plugin.plugin_name i c)

abbrev pub normalized : Value → Items
normalized (list xs) = xs
normalized (tuple xs) = xs
normalized (set xs) = xs
normalized v = cons v nil

unfoldable pub set_node_data : Json → BasePlugin → String → Value → Conn → Bool × Conn
set_node_data json plugin i node_data c =
    store_plugin_data json plugin.plugin_name i
      (list (last_rows plugin.max_data_rows_per_node (normalized node_data))) c

abbrev pub delete_node_data : BasePlugin → String → Conn → Bool × Conn
delete_node_data plugin i c = delete_plugin_data plugin.plugin_name i c

abbrev pub get_node_data : Json → BasePlugin → String → Conn → Value × Conn
get_node_data json plugin i c =
    let ((v, _), c') = get_plugin_data_for_node json plugin.plugin_name i c in (v, c')

abbrev pub get_data : BasePlugin → Conn → List String × Conn
get_data plugin c = get_plugin_data plugin.plugin_name c
