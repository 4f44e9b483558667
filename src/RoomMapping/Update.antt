-- ===== src/RoomMapping/Update.antt =====
-- The replacement of one alias.
use meshtastic_matrix_relay.Base.{
  String, ◌≡◌, refl, ap, ◌∙◌, true, false, some, str_eq, eq_iff, arith, Bool-cases, ◌⊎◌, inl, inr,
}
use meshtastic_matrix_relay.Py.{Value, Items, Fields, lookup, eq_str}
use meshtastic_matrix_relay.RoomMapping.Entries.{
  set_field, set_entry, alias_of, is_entry, any_item, any_field, is_room_mapped, update_items,
  update_fields, update_room_id_in_mapping,
}

str_eq-same : (s : String) → str_eq s s ≡ true
str_eq-same s = (eq_iff s s).1 refl

lookup-set_field : (k : String) (v : Value) (d : Fields) → lookup k (set_field k v d) ≡ some v
unfolding set_field
lookup-set_field k v Fields.end = ground (arith, str_eq-same k)
lookup-set_field k v (Fields.field j w d) = ground (arith, lookup-set_field k v d)

-- What the setter leaves has the new id.
pub alias-set_entry : (id : String) (entry : Value) → alias_of (set_entry id entry) ≡ Value.str id
unfolding set_entry
alias-set_entry id (Value.dict d) = ground (arith, lookup-set_field "id" (Value.str id) d)
alias-set_entry id _ = refl

is_entry-set : (id : String) (entry : Value) → is_entry id (set_entry id entry) ≡ true
is_entry-set id entry = ap (λ v. eq_str v id) (alias-set_entry id entry) ∙ str_eq-same id

items-mapped :
    (alias id : String) (items : Items)
    → any_item alias items ≡ true
    → any_item id (update_items alias id items) ≡ true
unfolding any_item update_items
items-mapped alias id Items.nil h = cc
items-mapped alias id (Items.cons entry items) h =
    ground (arith, is_entry-set id entry, items-mapped alias id items)

fields-mapped :
    (alias id : String) (d : Fields)
    → any_field alias d ≡ true
    → any_field id (update_fields alias id d) ≡ true
unfolding any_field update_fields
fields-mapped alias id Fields.end h = cc
fields-mapped alias id (Fields.field k entry d) h =
    ground (arith, is_entry-set id entry, fields-mapped alias id d)

items-unmapped :
    (alias id : String) (items : Items)
    → any_item alias items ≡ false
    → update_items alias id items ≡ items
unfolding any_item update_items
items-unmapped alias id Items.nil h = refl
items-unmapped alias id (Items.cons entry items) h = ground (arith, items-unmapped alias id items)

fields-unmapped :
    (alias id : String) (d : Fields) → any_field alias d ≡ false → update_fields alias id d ≡ d
unfolding any_field update_fields
fields-unmapped alias id Fields.end h = refl
fields-unmapped alias id (Fields.field k entry d) h = ground (arith, fields-unmapped alias id d)

eq_str-other :
    (v : Value) (alias other : String)
    → eq_str v alias ≡ true
    → str_eq alias other ≡ false
    → eq_str v other ≡ false
eq_str-other (Value.str t) alias other h n = ap (λ s. str_eq s other) ((eq_iff t alias).0 h) ∙ n
eq_str-other _ alias other h n = refl

items-kept :
    (alias id other : String) (items : Items)
    → str_eq alias other ≡ false
    → any_item other items ≡ true
    → any_item other (update_items alias id items) ≡ true
unfolding any_item update_items
items-kept alias id other Items.nil n h = cc
items-kept alias id other (Items.cons entry items) n h =
    ground (arith, eq_str-other (alias_of entry) alias other, items-kept alias id other items n)

fields-kept :
    (alias id other : String) (d : Fields)
    → str_eq alias other ≡ false
    → any_field other d ≡ true
    → any_field other (update_fields alias id d) ≡ true
unfolding any_field update_fields
fields-kept alias id other Fields.end n h = cc
fields-kept alias id other (Fields.field k entry d) n h =
    ground (arith, eq_str-other (alias_of entry) alias other, fields-kept alias id other d n)

-- A room that is mapped under another name than the alias stays mapped when the alias is replaced.
pub update-kept :
    (mapping : Value) (alias id other : String)
    → str_eq alias other ≡ false
    → is_room_mapped mapping other ≡ true
    → is_room_mapped (update_room_id_in_mapping mapping alias id).0 other ≡ true
unfolding is_room_mapped update_room_id_in_mapping
update-kept (Value.list items) alias id other n h = items-kept alias id other items n h
update-kept (Value.dict d) alias id other n h = fields-kept alias id other d n h
update-kept _ alias id other n h = cc

-- Either the alias is mapped, the update says so, and its id is mapped afterwards; or the alias is not
-- mapped, the update says that, and the mapping is what it was.
pub update-mapped :
    (mapping : Value) (alias id : String)
    → (let (updated, found) = update_room_id_in_mapping mapping alias id in
        ((is_room_mapped mapping alias ≡ true)
          × (found ≡ true)
          × (is_room_mapped updated id ≡ true))
        ⊎ ((is_room_mapped mapping alias ≡ false) × (found ≡ false) × (updated ≡ mapping)))
unfolding is_room_mapped update_room_id_in_mapping
update-mapped (Value.list items) alias id = elim (Bool-cases (any_item alias items)) [
  | inl h ↦ inl (h, h, items-mapped alias id items h)
  | inr h ↦ inr (h, h, ap Value.list (items-unmapped alias id items h))
]
update-mapped (Value.dict d) alias id = elim (Bool-cases (any_field alias d)) [
  | inl h ↦ inl (h, h, fields-mapped alias id d h)
  | inr h ↦ inr (h, h, ap Value.dict (fields-unmapped alias id d h))
]
update-mapped _ alias id = inr (refl, refl, refl)
