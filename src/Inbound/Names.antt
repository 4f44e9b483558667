-- ===== src/Inbound/Names.antt =====
-- The values that packet handling reads from a packet, and the names of its sender
-- (src/mmrelay/meshtastic/events.py and metadata.py).
use meshtastic_matrix_relay.Base.{
  ℕ, zero, suc, String, Bool, false, not, Option, none, some, List, [], ◌∷◌, pos, str_eq, ◌||◌,
  if◌then◌else◌,
}
use meshtastic_matrix_relay.Py.{
  Value, Fields, get, or_else, as_dict, is_null, truthy, eq_int, eq_str, int_text,
}
use meshtastic_matrix_relay.Inbound.State.{Effect}

-- `decoded.get("text")`, which is a text or missing; "" where it is missing
abbrev pub text_in : Fields → String → String
text_in d key = elim (get d key Value.null) [ Value.str s ↦ s | _ ↦ "" ]

-- `f"{text}"`, where a missing text is None
abbrev pub shown_text : Fields → String
shown_text d = elim (get d "text" Value.null) [ Value.str s ↦ s | _ ↦ "None" ]

-- `str(sender)`, for a sender that is a text, a number or missing
abbrev pub sender_text : Value → String
sender_text (Value.str s) = s
sender_text (Value.int z) = int_text z
sender_text _ = "None"

-- `packet.get("fromId") or packet.get("from")`
abbrev pub sender_of : Fields → Value
sender_of packet =
    let from_id = get packet "fromId" Value.null in
    if truthy from_id then from_id else get packet "from" Value.null

-- `name_func(sender) or str(sender)`
abbrev pub get_name_safely : Option String → Value → String
get_name_safely row sender = elim row [
  | none ↦ sender_text sender
  | some name ↦ if str_eq name "" then sender_text sender else name
]

-- `toId == myId`, for ids that are numbers, texts or missing
abbrev pub same_node : Value → Value → Bool
same_node to (Value.int z) = eq_int to z
same_node to (Value.str s) = eq_str to s
same_node to Value.null = is_null to
same_node to _ = false

abbrev pub is_reaction : Fields → Bool
is_reaction decoded = eq_int (get decoded "emoji" Value.null) (pos 1)

-- `node.get("user")`, an empty dict where either is missing
abbrev pub user_of : Option Fields → Fields
user_of none = Fields.end
user_of (some node) = or_else (as_dict (get node "user" Value.null)) Fields.end

-- The name that the node list has for a sender whose row has none: it is saved and used.
abbrev pub name_from_nodes :
    Option String
    → String
    → Value
    → Option Fields
    → (Value → String → Effect)
    → String × List Effect
name_from_nodes row key sender node save =
    let name = or_else row "" in
    if not (str_eq name "")
    then (name, [])
    else (let found = text_in (user_of node) key in
        if str_eq found "" || is_null sender
        then (sender_text sender, [])
        else (found, save sender found ∷ []))

-- `s[:n]`, as the source writes it only to shorten a quoted text
unfoldable pub take : ℕ → String → String
take zero s = ""
take (suc n) String.[] = ""
take (suc n) (String.◌∷◌ c s) = String.◌∷◌ c (take n s)
