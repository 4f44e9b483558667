-- ===== src/Inbound/Dispatch.antt =====
-- Who receives a packet: the plugins, a room that has the message it answers, or the rooms of its
-- channel.
use mathlib.Core.List.{map}
use meshtastic_matrix_relay.Base.{
  ℕ, suc, ◌≡◌, refl, ap, ◌∙◌, append_assoc, String, false, Option, none, some, List, [], ◌∷◌, ◌++◌,
  ℤ, if◌then◌else◌, arith,
}
use meshtastic_matrix_relay.Py.{Value, Items, Fields, lookup, or_else, as_dict, truthy}
use meshtastic_matrix_relay.Inbound.State.{Facade, Interface, Env, Relayed, Effect}
use meshtastic_matrix_relay.Inbound.Names.{sender_of, name_from_nodes}
use meshtastic_matrix_relay.Inbound.Rooms.{
  iterable_rooms, has_channel, channel_mapped, deduce_channel, values,
}
use meshtastic_matrix_relay.Inbound.Relays.{
  Received, is_relay, portnum_in, names, relay_text, relay_to_rooms,
}
use meshtastic_matrix_relay.Inbound.Handler.{relay_channel}

-- The relays among the effects, and the number of offers to the plugins.
unfoldable pub relays : List Effect → List Relayed
relays [] = []
relays (Effect.matrix_relay r ∷ l) = r ∷ relays l
relays (_ ∷ l) = relays l

unfoldable pub offers : List Effect → ℕ
offers [] = 0
offers (Effect.run_plugins _ _ _ ∷ l) = suc (offers l)
offers (_ ∷ l) = offers l

-- The ids of the rooms of a channel, in order; a room without an id has none.
unfoldable pub ids_on : ℤ → Items → List Value
ids_on channel Items.nil = []
ids_on channel (Items.cons room rooms) =
    let rest = ids_on channel rooms in
    if has_channel channel room
    then elim (lookup "id" (or_else (as_dict room) Fields.end)) [
      | none ↦ rest
      | some id ↦ id ∷ rest
    ]
    else rest

-- Effects that only save names.
unfoldable pub IsSaving : List Effect → Type 0
IsSaving l =
    (rest : List Effect) → (relays (l ++ rest) ≡ relays rest) × (offers (l ++ rest) ≡ offers rest)

relays-rooms :
    (env : Env) (i : Interface) (make : Value → Relayed) (channel : ℤ) (rooms : Items)
    → relays (relay_to_rooms env i make channel rooms) ≡ map make (ids_on channel rooms)
unfolding relays relay_to_rooms ids_on
relays-rooms env i make channel Items.nil = refl
relays-rooms env i make channel (Items.cons room rooms) =
    ground (arith, relays-rooms env i make channel rooms)

offers-rooms :
    (env : Env) (i : Interface) (make : Value → Relayed) (channel : ℤ) (rooms : Items)
    → offers (relay_to_rooms env i make channel rooms) ≡ 0
unfolding offers relay_to_rooms
offers-rooms env i make channel Items.nil = refl
offers-rooms env i make channel (Items.cons room rooms) =
    ground (arith, offers-rooms env i make channel rooms)

ids_on-unmapped :
    (channel : ℤ) (rooms : Items) → channel_mapped channel rooms ≡ false → ids_on channel rooms ≡ []
unfolding ids_on channel_mapped
ids_on-unmapped channel Items.nil h = refl
ids_on-unmapped channel (Items.cons room rooms) h = ground (arith, ids_on-unmapped channel rooms)

ids_on-falsy :
    (channel : ℤ) (rooms : Value)
    → truthy rooms ≡ false
    → ids_on channel (iterable_rooms rooms) ≡ []
unfolding ids_on iterable_rooms values
ids_on-falsy channel (Value.list Items.nil) h = refl
ids_on-falsy channel (Value.list (Items.cons _ _)) h = cc
ids_on-falsy channel (Value.tuple Items.nil) h = refl
ids_on-falsy channel (Value.tuple (Items.cons _ _)) h = cc
ids_on-falsy channel (Value.set Items.nil) h = refl
ids_on-falsy channel (Value.set (Items.cons _ _)) h = cc
ids_on-falsy channel (Value.dict Fields.end) h = refl
ids_on-falsy channel (Value.dict (Fields.field _ _ _)) h = cc
ids_on-falsy channel _ h = refl

saved_longname-IsSaving :
    (row : Option String) (key : String) (sender : Value) (entry : Option Fields)
    → IsSaving (name_from_nodes row key sender entry Effect.save_longname).1
unfolding IsSaving relays offers
saved_longname-IsSaving row key sender entry rest = ground arith

saved_shortname-IsSaving :
    (row : Option String) (key : String) (sender : Value) (entry : Option Fields)
    → IsSaving (name_from_nodes row key sender entry Effect.save_shortname).1
unfolding IsSaving relays offers
saved_shortname-IsSaving row key sender entry rest = ground arith

append-IsSaving : (k l : List Effect) → IsSaving k → IsSaving l → IsSaving (k ++ l)
unfolding IsSaving
append-IsSaving k l a b rest = (
  ap relays (append_assoc k l rest) ∙ (a (l ++ rest)).0 ∙ (b rest).0,
  ap offers (append_assoc k l rest) ∙ (a (l ++ rest)).1 ∙ (b rest).1,
)

pub names-IsSaving : (env : Env) (i : Interface) (r : Received) → IsSaving (names env i r).1
names-IsSaving env i r =
    let sender = sender_of r.packet in
    let node = i.nodes sender in
    append-IsSaving _ _ (saved_longname-IsSaving (env.longname_row sender) "longName" sender node)
      (saved_shortname-IsSaving (env.shortname_row sender) "shortName" sender node)

-- The rooms that a text is for: those of the packet's channel, where it is to be relayed.
abbrev pub target_ids : Facade → Received → List Value
target_ids f r =
    elim (if is_relay r.action then deduce_channel r.packet (portnum_in r.decoded) else none) [
      | none ↦ []
      | some channel ↦ ids_on channel (iterable_rooms f.matrix_rooms)
    ]

abbrev pub channel_of : Received → Option ℤ
channel_of r = if is_relay r.action then deduce_channel r.packet (portnum_in r.decoded) else none

relays-channel_at :
    (env : Env) (i : Interface) (f : Facade) (r : Received) (longname shortname : String)
    (o : Option ℤ)
    → channel_of r ≡ o
    → relays (relay_channel env i f r longname shortname)
      ≡ map (relay_text env i r longname shortname) (target_ids f r)
unfolding relay_channel relays
relays-channel_at env i f r longname shortname none e = ground arith
relays-channel_at env i f r longname shortname (some channel) e =
    let rooms = iterable_rooms f.matrix_rooms in
    ground (
      arith,
      relays-rooms env i (relay_text env i r longname shortname) channel rooms,
      ids_on-unmapped channel rooms,
      ids_on-falsy channel f.matrix_rooms,
    )

pub relays-channel :
    (env : Env) (i : Interface) (f : Facade) (r : Received) (longname shortname : String)
    → relays (relay_channel env i f r longname shortname)
      ≡ map (relay_text env i r longname shortname) (target_ids f r)
relays-channel env i f r longname shortname =
    relays-channel_at env i f r longname shortname (channel_of r) refl

pub offers-channel_at :
    (env : Env) (i : Interface) (f : Facade) (r : Received) (longname shortname : String)
    (o : Option ℤ)
    → channel_of r ≡ o
    → offers (relay_channel env i f r longname shortname) ≡ 0
unfolding relay_channel offers
offers-channel_at env i f r longname shortname none e = ground arith
offers-channel_at env i f r longname shortname (some channel) e = ground (
  arith,
  offers-rooms env i (relay_text env i r longname shortname) channel
      (iterable_rooms f.matrix_rooms),
)
