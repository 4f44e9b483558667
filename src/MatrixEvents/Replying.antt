-- ===== src/MatrixEvents/Replying.antt =====
-- matrix/replies.py (src/mmrelay): `format_reply_message` and `handle_matrix_reply`.
use meshtastic_matrix_relay.Base.{
  String, Bool, true, false, not, Option, none, some, List, [], ◌∷◌, ◌++◌, ◌==◌, ◌&&◌,
  if◌then◌else◌, take, length,
}
use meshtastic_matrix_relay.Py.{Fields, codes}
use meshtastic_matrix_relay.MatrixEvents.Text.{
  Text, is_empty, strip, lstrip, rstrip, starts_with, drop_text, strip_quoted_lines, digits_of,
}
use meshtastic_matrix_relay.MatrixEvents.State.{RoomEvent, MappedMessage, Queued, Env}
use meshtastic_matrix_relay.MatrixEvents.Prefixes.{get_meshtastic_prefix, get_matrix_prefix}
use meshtastic_matrix_relay.MatrixEvents.Sending.{truncated, send_reply_to_meshtastic}

-- equality of texts
unfoldable pub same_text : Text → Text → Bool
same_text [] [] = true
same_text (a ∷ s) (b ∷ t) = a == b && same_text s t
same_text _ _ = false

-- `a or b`
abbrev pub or_text : Text → Text → Text
or_text [] b = b
or_text (c ∷ a) _ = c ∷ a

-- a text that may be None, as an empty one
abbrev pub text_or_empty : Option String → Text
text_or_empty none = []
text_or_empty (some s) = codes s

-- The loop over the candidates: the first that the text begins with is cut off.
unfoldable pub strip_candidate : List Text → Text → Text
strip_candidate [] text = text
strip_candidate (candidate ∷ rest) text =
    let next = strip_candidate rest text in
    if not (is_empty candidate) && starts_with text candidate
    then lstrip (drop_text (length candidate) text)
    else next

abbrev pub colon : Text
colon = codes ": "

-- What the relay of another mesh may have set before a text.
unfoldable pub prefix_candidates : Text → Text → Text → Text → Text → Text → List Text
prefix_candidates long short meshnet short_meshnet full_prefix short_prefix =
    (codes "[" ++ long ++ codes "/" ++ meshnet ++ codes "]: ")
    ∷ (codes "[" ++ long ++ codes "/" ++ short_meshnet ++ codes "]: ")
    ∷ (long ++ codes "/" ++ meshnet ++ colon)
    ∷ (long ++ codes "/" ++ short_meshnet ++ colon)
    ∷ (short ++ codes "/" ++ meshnet ++ colon)
    ∷ (short ++ codes "/" ++ short_meshnet ++ colon)
    ∷ full_prefix
    ∷ short_prefix
    ∷ []

-- The relay's keys of an event, None as empty.
pub record RelayKeys : Type 0 where
  pub longname : Text
  pub shortname : Text
  pub meshnet_name : Text
  pub text_override : Text

module _ (env : Env) (config : Fields) (r : RelayKeys) (local : Text) where
  -- the branch for a reply that comes from another mesh
  unfoldable pub format_remote_reply : Text → Text → Text
  format_remote_reply display_name clean_text =
      let long = or_text r.longname (or_text display_name (or_text r.shortname (codes "???"))) in
      let short = or_text r.shortname (or_text (take 3 long) (codes "???")) in
      let short_meshnet = take 4 r.meshnet_name in
      let full_prefix = get_matrix_prefix env.format config long short r.meshnet_name in
      let short_prefix = get_matrix_prefix env.format config long short short_meshnet in
      let stripped =
        strip_candidate
          (prefix_candidates long short r.meshnet_name short_meshnet full_prefix short_prefix)
          clean_text in
      let text = or_text stripped (strip (strip_quoted_lines r.text_override)) in
      let mesh_prefix =
        or_text short_prefix
          (or_text full_prefix (short ++ codes "/" ++ short_meshnet ++ codes ":")) in
      truncated (strip (mesh_prefix ++ (if is_empty text then [] else 32 ∷ text)))

  -- `format_reply_message`
  unfoldable pub format_reply_message : Text → Text → Text → Text
  format_reply_message display_name text user_id =
      let clean_text = strip (strip_quoted_lines (or_text r.text_override text)) in
      let prefix = get_meshtastic_prefix env.format config display_name user_id in
      if not (is_empty r.meshnet_name)
        && not (is_empty local)
        && not (same_text r.meshnet_name local)
      then format_remote_reply display_name clean_text
      else truncated (if is_empty clean_text then rstrip prefix else prefix ++ clean_text)

  -- `handle_matrix_reply` for the row found: the sends, and whether the reply is handled
  unfoldable pub reply_to_original :
      Fields → RoomEvent → Text → Bool → Option MappedMessage → List Queued × Bool
  reply_to_original room_config event text storage_enabled none = ([], false)
  reply_to_original room_config event text storage_enabled (some original) =
      send_reply_to_meshtastic env config room_config event
        (format_reply_message env.display_name text (codes event.sender)) text storage_enabled local
        (digits_of original.meshtastic_id)

  unfoldable pub handle_matrix_reply :
      Fields → RoomEvent → Text → Bool → String → List Queued × Bool
  handle_matrix_reply room_config event text storage_enabled reply_to_event_id =
      reply_to_original room_config event text storage_enabled (env.message_map reply_to_event_id)
