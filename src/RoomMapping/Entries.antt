-- ===== src/RoomMapping/Entries.antt =====
-- src/mmrelay/matrix/room_mapping.py: the setting `matrix_rooms`, a list or a dict whose entries are
-- room ids or aliases, or dicts that hold one under "id". The source changes it in place; an entry is
-- taken to stand in it once.
use meshtastic_matrix_relay.Base.{
  String, Bool, false, Option, none, some, ◌||◌, str_eq, if◌then◌else◌,
}
use meshtastic_matrix_relay.Py.{Value, Items, Fields, get, eq_str, startswith}

-- `_is_room_alias`
unfoldable pub is_room_alias : Value → Bool
is_room_alias (Value.str s) = startswith s "#"
is_room_alias _ = false

-- `d[k] = v`
unfoldable pub set_field : String → Value → Fields → Fields
set_field k v Fields.end = Fields.field k v Fields.end
set_field k v (Fields.field j w d) =
    let rest = set_field k v d in if str_eq j k then Fields.field j v d else Fields.field j w rest

-- What `_iter_room_alias_entries` yields for an entry: its alias or id, and what the setter makes of
-- it.
abbrev pub alias_of : Value → Value
alias_of (Value.dict d) = get d "id" (Value.str "")
alias_of entry = entry

unfoldable pub set_entry : String → Value → Value
unfolding set_field
set_entry id (Value.dict d) = Value.dict (set_field "id" (Value.str id) d)
set_entry id entry = Value.str id

-- `existing_alias == alias`
abbrev pub is_entry : String → Value → Bool
is_entry alias entry = eq_str (alias_of entry) alias

unfoldable pub any_item : String → Items → Bool
any_item alias Items.nil = false
any_item alias (Items.cons entry items) = is_entry alias entry || any_item alias items

unfoldable pub any_field : String → Fields → Bool
any_field alias Fields.end = false
any_field alias (Fields.field _ entry d) = is_entry alias entry || any_field alias d

-- `_is_room_mapped`
unfoldable pub is_room_mapped : Value → String → Bool
unfolding any_item any_field
is_room_mapped (Value.list items) alias = any_item alias items
is_room_mapped (Value.dict d) alias = any_field alias d
is_room_mapped _ alias = false

-- The first entry of the alias is set to the id.
unfoldable pub update_items : String → String → Items → Items
unfolding set_entry
update_items alias id Items.nil = Items.nil
update_items alias id (Items.cons entry items) =
    let rest = update_items alias id items in
    if is_entry alias entry then Items.cons (set_entry id entry) items else Items.cons entry rest

unfoldable pub update_fields : String → String → Fields → Fields
unfolding set_entry
update_fields alias id Fields.end = Fields.end
update_fields alias id (Fields.field k entry d) =
    let rest = update_fields alias id d in
    if is_entry alias entry
    then Fields.field k (set_entry id entry) d
    else Fields.field k entry rest

-- `_update_room_id_in_mapping`
unfoldable pub update_room_id_in_mapping : Value → String → String → Value × Bool
unfolding update_items update_fields any_item any_field
update_room_id_in_mapping (Value.list items) alias id =
    (Value.list (update_items alias id items), any_item alias items)
update_room_id_in_mapping (Value.dict d) alias id =
    (Value.dict (update_fields alias id d), any_field alias d)
update_room_id_in_mapping mapping alias id = (mapping, false)

-- `resolver`, which asks the Matrix server for the id of an alias: None where that fails.
module _ (resolver : String → Option String) where
  -- One round of the loop of `_resolve_aliases_in_mapping`.
  unfoldable pub resolve_entry : Value → Value
  unfolding is_room_alias set_entry
  resolve_entry entry = elim (alias_of entry) [
    | Value.str alias ↦
        if startswith alias "#"
        then elim (resolver alias) [
          | none ↦ entry
          | some id ↦ if str_eq id "" then entry else set_entry id entry
        ]
        else entry
    | _ ↦ entry
  ]

  unfoldable pub resolve_items : Items → Items
  unfolding resolve_entry
  resolve_items Items.nil = Items.nil
  resolve_items (Items.cons entry items) = Items.cons (resolve_entry entry) (resolve_items items)

  unfoldable pub resolve_fields : Fields → Fields
  unfolding resolve_entry
  resolve_fields Fields.end = Fields.end
  resolve_fields (Fields.field k entry d) = Fields.field k (resolve_entry entry) (resolve_fields d)

  -- `_resolve_aliases_in_mapping`
  unfoldable pub resolve_aliases_in_mapping : Value → Value
  unfolding resolve_items resolve_fields
  resolve_aliases_in_mapping (Value.list items) = Value.list (resolve_items items)
  resolve_aliases_in_mapping (Value.dict d) = Value.dict (resolve_fields d)
  resolve_aliases_in_mapping mapping = mapping
