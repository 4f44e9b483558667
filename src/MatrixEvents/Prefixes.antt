-- ===== src/MatrixEvents/Prefixes.antt =====
-- matrix/prefixes.py (src/mmrelay): the prefixes of relayed texts, and the number of message
-- mappings to keep.
use meshtastic_matrix_relay.Base.{
  ℕ, zero, suc, ◌+◌, String, Bool, true, Option, none, some, List, [], ◌∷◌, ◌++◌, ◌==◌, ℤ, pos,
  ◌||◌, if◌then◌else◌, take,
}
use meshtastic_matrix_relay.Py.{
  Value, Fields, get, as_dict, truthy, append, int_text, codes, or_else,
}
use meshtastic_matrix_relay.Inbound.Settings.{Interactions}
use meshtastic_matrix_relay.MatrixEvents.Text.{Text}

-- `message_storage_enabled`
abbrev pub message_storage_enabled : Interactions → Bool
message_storage_enabled interactions = interactions.reactions || interactions.replies

-- `_get_msg_map_config`
abbrev pub msg_map_config : Value → Option Fields
msg_map_config section = elim (as_dict section) [
  | none ↦ none
  | some d ↦ as_dict (get d "msg_map" Value.null)
]

abbrev pub int_or : Value → ℤ → ℤ
int_or (Value.int z) _ = z
int_or _ default = default

-- DEFAULT_MSGS_TO_KEEP
abbrev pub msgs_to_keep_default : ℤ
msgs_to_keep_default = pos 500

-- `_get_msgs_to_keep_config` of the configuration that it is given
unfoldable pub get_msgs_to_keep_config : Fields → ℤ
get_msgs_to_keep_config config =
    let section =
      or_else (msg_map_config (get config "database" Value.null))
        (or_else (msg_map_config (get config "db" Value.null)) Fields.end) in
    int_or (get section "msgs_to_keep" (Value.int msgs_to_keep_default)) msgs_to_keep_default

-- `_add_truncated_vars`: prefix1 to prefix20, for the number of them still to be added.
unfoldable pub truncated_vars : ℕ → ℕ → String → Text → List (String × Text)
truncated_vars zero i prefix text = []
truncated_vars (suc more) i prefix text =
    (append prefix (int_text (pos i)), take i text) ∷ truncated_vars more (i + 1) prefix text

abbrev pub add_truncated_vars : String → Text → List (String × Text)
add_truncated_vars = truncated_vars 20 1

-- the text before the first `:` and the text behind it
unfoldable pub split_colon : Text → Option (Text × Text)
split_colon [] = none
split_colon (c ∷ s) =
    let rest = split_colon s in
    if c == 58 then some ([], s) else elim rest [ none ↦ none | some (a, b) ↦ some (c ∷ a, b) ]

-- `username` and `server` of `@localpart:server`
unfoldable pub name_and_server : Text → Text × Text
name_and_server (c ∷ s) =
    if c == 64 then elim (split_colon s) [ none ↦ ([], []) | some p ↦ p ] else ([], [])
name_and_server [] = ([], [])

-- the section of the configuration, empty where it is no dict
abbrev pub section_of : String → Fields → Fields
section_of name config = or_else (as_dict (get config name Value.null)) Fields.end

-- `prefix_format`, a text where it is there; None counts as missing
abbrev pub format_in : Fields → String → String
format_in section default = elim (get section "prefix_format" Value.null) [
  | Value.str s ↦ s
  | _ ↦ default
]

module _ (format : String → List (String × Text) → Option Text) where
  -- `get_meshtastic_prefix`
  unfoldable pub get_meshtastic_prefix : Fields → Text → Text → Text
  get_meshtastic_prefix config display_name user_id =
      let section = section_of "meshtastic" config in
      let (username, server) = name_and_server user_id in
      if truthy (get section "prefix_enabled" (Value.bool true))
      then or_else
          (format (format_in section "{display5}[M]: ") (
            ("display", display_name)
            ∷ ("user", user_id)
            ∷ ("username", username)
            ∷ ("server", server)
            ∷ add_truncated_vars "display" display_name))
          (take 5 display_name ++ codes "[M]: ")
      else []

  -- `get_matrix_prefix`
  unfoldable pub get_matrix_prefix : Fields → Text → Text → Text → Text
  get_matrix_prefix config longname shortname meshnet_name =
      let section = section_of "matrix" config in
      if truthy (get section "prefix_enabled" (Value.bool true))
      then or_else
          (format (format_in section "[{long}/{mesh}]: ") (
            ("long", longname)
            ∷ ("short", shortname)
            ∷ ("mesh", meshnet_name)
            ∷ (add_truncated_vars "long" longname ++ add_truncated_vars "mesh" meshnet_name)))
          (codes "[" ++ longname ++ codes "/" ++ meshnet_name ++ codes "]: ")
      else []
