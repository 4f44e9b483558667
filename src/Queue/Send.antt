-- ===== src/Queue/Send.antt =====
-- src/mmrelay/message_queue.py: what `_process_queue` does with the result of a send, or with the
-- exception that it raised, and `_handle_message_mapping`.
use meshtastic_matrix_relay.Base.{
  Bool, false, Option, none, some, List, [], ◌∷◌, String, pos, is_positive, ◌&&◌, ◌||◌,
  if◌then◌else◌,
}
use meshtastic_matrix_relay.Py.{Value, Fields, get, truthy, is_null, lower_contains}
use meshtastic_matrix_relay.Queue.State.{default_msgs_to_keep}

-- An exception: whether it is a ConnectionError, an OSError or a TimeoutError, and its text.
pub record Exception : Type 0 where
  pub is_transport : Bool
  pub text : String

-- CONNECTION_ERROR_KEYWORDS
abbrev connection_error_keywords : List String
connection_error_keywords =
    "connection" ∷ "disconnected" ∷ "not connected" ∷ "timeout" ∷ "refused" ∷ "reset" ∷ "broken"
    ∷ "closed" ∷ "unreachable" ∷ "network" ∷ []

pub any_contained : List String → String → Bool
any_contained [] text = false
any_contained (w ∷ words) text = lower_contains text w || any_contained words text

unfoldable pub is_connection_error : Exception → Bool
unfolding any_contained lower_contains
is_connection_error e = e.is_transport || any_contained connection_error_keywords e.text

-- `result.id`, or `result["id"]`; `None` where there is neither
unfoldable pub msg_id : Value → Value
msg_id (Value.obj _ attributes) = get attributes "id" Value.null
msg_id (Value.dict d) = get d "id" Value.null
msg_id _ = Value.null

-- The calls of the database. The message's id is passed as a text, `str(result.id)`.
pub data Effect : Type 0 where
  store_message_map : Value → Value → Value → Value → Value → Effect
  prune_message_map : Value → Effect

-- `msgs_to_keep > 0`; other types raise, which the handler catches
abbrev keeps_some : Value → Bool
keeps_some (Value.int z) = is_positive z
keeps_some (Value.float z) = is_positive z
keeps_some (Value.bool b) = b
keeps_some _ = false

unfoldable pub handle_message_mapping : Value → Fields → List Effect
handle_message_mapping id info =
    let event = get info "matrix_event_id" Value.null in
    let room = get info "room_id" Value.null in
    let text = get info "text" Value.null in
    let keep = get info "msgs_to_keep" (Value.int (pos default_msgs_to_keep)) in
    if truthy event && truthy room && truthy text
    then store_message_map id event room text (get info "meshnet" Value.null)
      ∷ (if keeps_some keep then prune_message_map keep ∷ [] else [])
    else []

-- Whether a result leads to `_handle_message_mapping`.
unfoldable pub mapping_due : Value → Option Fields → Option Fields
mapping_due result none = none
mapping_due result (some info) =
    if truthy (Value.dict info) then (if is_null (msg_id result) then none else some info) else none
