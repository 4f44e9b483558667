-- ===== src/Inbound/Settings.antt =====
-- The settings that packet handling reads: src/mmrelay/matrix/prefixes.py,
-- `get_interaction_settings`, and the lookups of src/mmrelay/meshtastic/events.py.
use meshtastic_matrix_relay.Base.{String, Bool, false, Option, none, some, is_some}
use meshtastic_matrix_relay.Py.{Value, Fields, get, lookup, as_dict}

pub record Interactions : Type 0 where
  pub reactions : Bool
  pub replies : Bool

-- `v if isinstance(v, bool) else False`
abbrev pub bool_or_false : Value → Bool
bool_or_false (Value.bool b) = b
bool_or_false _ = false

abbrev pub disabled : Interactions
disabled = record { reactions = false; replies = false }

structured : Value → Interactions
structured interactions = elim (as_dict interactions) [
  | none ↦ disabled
  | some d ↦ record {
    reactions = bool_or_false (get d "reactions" (Value.bool false));
    replies = bool_or_false (get d "replies" (Value.bool false));
  }
]

-- The setting `relay_reactions` of old
legacy : Fields → Interactions
legacy section = elim (lookup "relay_reactions" section) [
  | none ↦ disabled
  | some v ↦ record { reactions = bool_or_false v; replies = false }
]

interactions_in : Fields → Interactions
unfolding structured legacy
interactions_in section = elim (get section "message_interactions" Value.null) [
  | Value.null ↦ legacy section
  | v ↦ structured v
]

unfoldable pub get_interaction_settings : Value → Interactions
unfolding interactions_in
get_interaction_settings config = elim (as_dict config) [
  | none ↦ disabled
  | some c ↦ elim (as_dict (get c "meshtastic" (Value.dict Fields.end))) [
    | none ↦ disabled
    | some section ↦ interactions_in section
  ]
]

-- `config["meshtastic"]["meshnet_name"]`, `none` for its errors. A meshnet name is a text.
abbrev pub meshnet_name_in : Fields → Option String
meshnet_name_in config = elim (lookup "meshtastic" config) [
  | some (Value.dict section) ↦ elim (lookup "meshnet_name" section) [
    | some (Value.str s) ↦ some s
    | _ ↦ none
  ]
  | _ ↦ none
]

-- Whether `config.get("logging", {}).get("debug", {}).get("full_packets")` is read without an error.
abbrev pub logging_readable : Fields → Bool
logging_readable config = elim (as_dict (get config "logging" (Value.dict Fields.end))) [
  | none ↦ false
  | some d ↦ is_some (as_dict (get d "debug" (Value.dict Fields.end)))
]
