-- ===== src/RoomMapping/Resolve.antt =====
-- The resolution of all aliases.
use meshtastic_matrix_relay.Base.{
  String, ◌≡◌, refl, ap, ◌∙◌, false, Option, none, some, str_eq, arith, Bool-cases, ◌⊎◌, inl, inr,
  sym,
}
use meshtastic_matrix_relay.Py.{Value, Items, Fields, startswith}
use meshtastic_matrix_relay.RoomMapping.Entries.{
  alias_of, set_entry, resolve_entry, resolve_items, resolve_fields, resolve_aliases_in_mapping,
}
use meshtastic_matrix_relay.RoomMapping.Update.{alias-set_entry}

module _ (resolver : String → Option String) where
  -- An entry that no alias is in is left alone.
  settled :
      (entry : Value) (id : String)
      → alias_of entry ≡ Value.str id
      → startswith id "#" ≡ false
      → resolve_entry resolver entry ≡ entry
  unfolding resolve_entry
  settled entry id e h = ground arith

  answered :
      (entry : Value) (alias : String) (o : Option String)
      → alias_of entry ≡ Value.str alias
      → resolver alias ≡ o
      → (resolve_entry resolver entry ≡ entry)
        ⊎ ((id : String) × (resolver alias ≡ some id)
            × (resolve_entry resolver entry ≡ set_entry id entry))
  unfolding resolve_entry
  answered entry alias none e r = inl (ground arith)
  answered entry alias (some id) e r = elim (Bool-cases (startswith alias "#")) [
    | inr plain ↦ inl (ground arith)
    | inl hash ↦ elim (Bool-cases (str_eq id "")) [
      | inl empty ↦ inl (ground arith)
      | inr full ↦ inr (id, r, ground arith)
    ]
  ]

  resolved :
      (entry v : Value)
      → alias_of entry ≡ v
      → (resolve_entry resolver entry ≡ entry)
        ⊎ ((alias id : String) × (resolver alias ≡ some id)
            × (resolve_entry resolver entry ≡ set_entry id entry))
  unfolding resolve_entry
  resolved entry (Value.str alias) e = elim (answered entry alias (resolver alias) e refl) [
    | inl same ↦ inl same
    | inr (id, r, set) ↦ inr (alias, id, r, set)
  ]
  resolved entry _ e = inl (ground arith)

  module _ (ids : (alias id : String) → resolver alias ≡ some id → startswith id "#" ≡ false) where
    entry-twice :
        (entry : Value)
        → resolve_entry resolver (resolve_entry resolver entry) ≡ resolve_entry resolver entry
    entry-twice entry = elim (resolved entry (alias_of entry) refl) [
      | inl same ↦ ap (resolve_entry resolver) same
      | inr (alias, id, r, set) ↦
          ap (resolve_entry resolver) set
          ∙ settled (set_entry id entry) id (alias-set_entry id entry) (ids alias id r)
          ∙ sym set
    ]

    items-twice :
        (items : Items)
        → resolve_items resolver (resolve_items resolver items) ≡ resolve_items resolver items
    unfolding resolve_items
    items-twice Items.nil = refl
    items-twice (Items.cons entry items) =
        ap (λ e. Items.cons e (resolve_items resolver (resolve_items resolver items)))
          (entry-twice entry)
        ∙ ap (Items.cons (resolve_entry resolver entry)) (items-twice items)

    fields-twice :
        (d : Fields)
        → resolve_fields resolver (resolve_fields resolver d) ≡ resolve_fields resolver d
    unfolding resolve_fields
    fields-twice Fields.end = refl
    fields-twice (Fields.field k entry d) =
        ap (λ e. Fields.field k e (resolve_fields resolver (resolve_fields resolver d)))
          (entry-twice entry)
        ∙ ap (Fields.field k (resolve_entry resolver entry)) (fields-twice d)

    -- If no id that the server returns looks like an alias, a second resolution of the aliases changes
    -- nothing, whatever the server does not know.
    pub resolve-twice :
        (mapping : Value)
        → resolve_aliases_in_mapping resolver (resolve_aliases_in_mapping resolver mapping)
          ≡ resolve_aliases_in_mapping resolver mapping
    unfolding resolve_aliases_in_mapping
    resolve-twice (Value.list items) = ap Value.list (items-twice items)
    resolve-twice (Value.dict d) = ap Value.dict (fields-twice d)
    resolve-twice _ = refl
