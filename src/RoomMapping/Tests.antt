-- ===== src/RoomMapping/Tests.antt =====
-- A list of three rooms.
use meshtastic_matrix_relay.Base.{
  String, ◌≡◌, refl, true, false, Option, none, some, ◌⊎◌, str_eq, if◌then◌else◌, arith, subst,
}
use meshtastic_matrix_relay.Py.{Value, Items, Fields, startswith}
use meshtastic_matrix_relay.RoomMapping.Entries.{
  is_room_mapped, update_room_id_in_mapping, resolve_aliases_in_mapping, any_item, resolve_items,
  resolve_entry, set_entry, set_field, update_items,
}
use meshtastic_matrix_relay.RoomMapping.Update.{update-kept, update-mapped}
use meshtastic_matrix_relay.RoomMapping.Resolve.{resolve-twice}

abbrev room : String → Value
room id =
    Value.dict
      (Fields.field "id" (Value.str id) (Fields.field "meshtastic_channel" Value.null Fields.end))

abbrev rooms : String → Value
rooms id =
    Value.list
      (Items.cons (room "!a:x") (Items.cons (room id) (Items.cons (Value.str "#c:x") Items.nil)))

-- The server knows one alias.
abbrev server : String → Option String
server alias = if str_eq alias "#b:x" then some "!b:x" else none

server_ids : (alias id : String) → server alias ≡ some id → startswith id "#" ≡ false
unfolding startswith
server_ids alias id h =
    let e : "!b:x" ≡ id = ground arith in subst (λ s. startswith s "#" ≡ false) e refl

resolves : resolve_aliases_in_mapping server (rooms "#b:x") ≡ rooms "!b:x"
unfolding resolve_aliases_in_mapping resolve_items resolve_entry set_entry set_field startswith
resolves = refl

updates : update_room_id_in_mapping (rooms "#b:x") "#b:x" "!b:x" ≡ (rooms "!b:x", true)
unfolding update_room_id_in_mapping update_items any_item set_entry set_field
updates = refl

resolve-twice_example :
    resolve_aliases_in_mapping server (resolve_aliases_in_mapping server (rooms "#b:x"))
    ≡ resolve_aliases_in_mapping server (rooms "#b:x")
resolve-twice_example = resolve-twice server server_ids (rooms "#b:x")

update-kept_example :
    is_room_mapped (update_room_id_in_mapping (rooms "#b:x") "#b:x" "!b:x").0 "#c:x" ≡ true
unfolding is_room_mapped any_item
update-kept_example = update-kept (rooms "#b:x") "#b:x" "!b:x" "#c:x" refl refl

update-mapped_example :
    (let (updated, found) = update_room_id_in_mapping (rooms "#b:x") "#b:x" "!b:x" in
      ((is_room_mapped (rooms "#b:x") "#b:x" ≡ true)
        × (found ≡ true)
        × (is_room_mapped updated "!b:x" ≡ true))
      ⊎ ((is_room_mapped (rooms "#b:x") "#b:x" ≡ false)
          × (found ≡ false)
          × (updated ≡ rooms "#b:x")))
update-mapped_example = update-mapped (rooms "#b:x") "#b:x" "!b:x"
