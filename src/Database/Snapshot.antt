-- ===== src/Database/Snapshot.antt =====
-- db_utils.py (src/mmrelay): the normalised snapshot of node names that is taken from the nodes of
-- the Meshtastic client.
use meshtastic_matrix_relay.Base.{
  ℕ, String, Bool, true, false, not, Option, none, some, List, [], ◌∷◌, str_eq, if◌then◌else◌, ltb,
  ◌==◌, is_some, ◌&&◌,
}
use meshtastic_matrix_relay.Py.{
  Value, null, int, str, dict, Fields, end, field, get, contains, int_text, codes, Value,
}

pub record NodeNameEntry : Type 0 where
  pub meshtastic_id : String
  pub long_name : Option String
  pub short_name : Option String

abbrev pub NodeNameState : Type 0
NodeNameState = List NodeNameEntry

-- `_normalize_node_name_value`
unfoldable pub normalize_node_name_value : Value → Option String
normalize_node_name_value (str s) = if str_eq s "" then none else some s
normalize_node_name_value _ = none

-- `str(user["id"])`, where the id is of use
unfoldable pub usable_id : Value → Option String
usable_id (str s) = if str_eq s "" then none else some s
usable_id (int z) = some (int_text z)
usable_id _ = none

-- `raw is not None and not isinstance(raw, str)`
unfoldable pub is_malformed : Value → Bool
is_malformed null = false
is_malformed (str _) = false
is_malformed _ = true

pub data Merged : Type 0 where
  value : Option String → Merged
  conflict : Merged

-- `_merge_node_name_values`
unfoldable pub merge_node_name_values : Option String → Option String → Merged
merge_node_name_values none incoming = value incoming
merge_node_name_values (some a) none = value (some a)
merge_node_name_values (some a) (some b) = if str_eq a b then value (some a) else conflict

-- a dict from ids, in insertion order
unfoldable pub find_entry : String → List NodeNameEntry → Option NodeNameEntry
find_entry k [] = none
find_entry k (e ∷ l) = if str_eq k e.meshtastic_id then some e else find_entry k l

unfoldable pub put_entry : NodeNameEntry → List NodeNameEntry → List NodeNameEntry
put_entry e [] = e ∷ []
put_entry e (f ∷ l) = if str_eq e.meshtastic_id f.meshtastic_id then e ∷ l else f ∷ put_entry e l

unfoldable pub pop_entry : String → List NodeNameEntry → List NodeNameEntry
pop_entry k [] = []
pop_entry k (e ∷ l) = if str_eq k e.meshtastic_id then l else e ∷ pop_entry k l

-- The variables of `_collect_node_name_snapshot`.
pub record Snapshot : Type 0 where
  pub state_by_id : List NodeNameEntry
  pub current_ids : List String
  pub skipped_ids : List String
  pub complete : Bool

abbrev pub resolved : Merged → Option String
resolved (value v) = v
resolved conflict = none

abbrev pub entry : String → Option String → Option String → NodeNameEntry
entry k long short = record { meshtastic_id = k; long_name = long; short_name = short }

-- No unambiguous name is left for the id: skip it in this snapshot.
abbrev pub skip_id : String → Snapshot → Snapshot
skip_id k s = record s {
  state_by_id = pop_entry k s.state_by_id;
  skipped_ids = k ∷ s.skipped_ids;
  complete = false;
}

unfoldable pub merge_entry : String → Merged → Merged → Snapshot → Snapshot
merge_entry k conflict conflict s = skip_id k s
merge_entry k (value long) (value short) s = record s {
  state_by_id = put_entry (entry k long short) s.state_by_id;
}
merge_entry k long short s =
    if is_some (resolved long)
    then record s {
      state_by_id = put_entry (entry k (resolved long) (resolved short)) s.state_by_id;
      complete = false;
    }
    else if is_some (resolved short)
    then record s {
      state_by_id = put_entry (entry k (resolved long) (resolved short)) s.state_by_id;
      complete = false;
    }
    else skip_id k s

-- `state_by_id.get(id_key)` is none, or the entry so far: merge the two.
unfoldable pub place_entry :
    String → Option String → Option String → Snapshot → Option NodeNameEntry → Snapshot
place_entry k long short s none = record s {
  state_by_id = put_entry (entry k long short) s.state_by_id;
}
place_entry k long short s (some e) =
    merge_entry k (merge_node_name_values e.long_name long)
      (merge_node_name_values e.short_name short) s

unfoldable pub add_names : String → Option String → Option String → Snapshot → Snapshot
add_names k long short s = place_entry k long short s (find_entry k s.state_by_id)

abbrev pub add_id : String → List String → List String
add_id k ids = if contains k ids then ids else k ∷ ids

-- the body of the loop, once the raw names and the usable id are at hand
unfoldable pub collect_names : Value → Value → Snapshot → Option String → Snapshot
collect_names raw_long raw_short s none = record s { complete = false }
collect_names raw_long raw_short s (some k) =
    if contains k s.skipped_ids
    then s
    else add_names k (normalize_node_name_value raw_long) (normalize_node_name_value raw_short)
        (record s {
          current_ids = add_id k s.current_ids;
          complete = s.complete && not (is_malformed raw_long) && not (is_malformed raw_short);
        })

unfoldable pub collect_user : Value → Snapshot → Snapshot
collect_user (dict user) s =
    collect_names (get user "longName" null) (get user "shortName" null) s
      (usable_id (get user "id" null))
collect_user _ s = record s { complete = false }

unfoldable pub collect_node : Value → Snapshot → Snapshot
collect_node (dict node_row) s = collect_user (get node_row "user" null) s
collect_node _ s = record s { complete = false }

unfoldable pub collect_nodes : Fields → Snapshot → Snapshot
collect_nodes end s = s
collect_nodes (field _ node_row nodes) s = collect_nodes nodes (collect_node node_row s)

-- `<` of texts, by code points
unfoldable pub codes_before : List ℕ → List ℕ → Bool
codes_before [] [] = false
codes_before [] (_ ∷ _) = true
codes_before (_ ∷ _) [] = false
codes_before (a ∷ s) (b ∷ t) =
    let rest = codes_before s t in if ltb a b then true else if a == b then rest else false

-- `sort(key=lambda entry: entry.meshtastic_id)`, which is stable
unfoldable pub insert_entry : NodeNameEntry → List NodeNameEntry → List NodeNameEntry
insert_entry e [] = e ∷ []
insert_entry e (f ∷ l) =
    let rest = insert_entry e l in
    if codes_before (codes f.meshtastic_id) (codes e.meshtastic_id) then f ∷ rest else e ∷ f ∷ l

unfoldable pub sort_entries : List NodeNameEntry → List NodeNameEntry
sort_entries [] = []
sort_entries (e ∷ l) = insert_entry e (sort_entries l)

abbrev pub empty_snapshot : Bool → Snapshot
empty_snapshot complete = record {
  state_by_id = [];
  current_ids = [];
  skipped_ids = [];
  complete = complete;
}

abbrev pub sorted : Snapshot → Snapshot
sorted s = record s { state_by_id = sort_entries s.state_by_id }

-- `_collect_node_name_snapshot`: the state is sorted by id.
unfoldable pub collect_node_name_snapshot : Value → Snapshot
collect_node_name_snapshot (dict nodes) = sorted (collect_nodes nodes (empty_snapshot true))
collect_node_name_snapshot _ = empty_snapshot false

unfoldable pub build_node_name_state : Value → NodeNameState
unfolding collect_node_name_snapshot
build_node_name_state nodes = (collect_node_name_snapshot nodes).state_by_id
