-- ===== src/Inbound/Safety.antt =====
-- The handler acts only on what it should act on.
use meshtastic_matrix_relay.Base.{◌≡◌, ◌≢◌, refl, true, false, Option, none, some, List, ◌∷◌, arith}
use meshtastic_matrix_relay.Py.{Value, Fields, get, or_else, as_dict}
use meshtastic_matrix_relay.Routing.Overrides.{PacketAction, drop}
use meshtastic_matrix_relay.Routing.Classify.{classify_packet}
use meshtastic_matrix_relay.Inbound.State.{Facade, Interface, Env, Effect, Result}
use meshtastic_matrix_relay.Inbound.Settings.{Interactions, get_interaction_settings}
use meshtastic_matrix_relay.Inbound.Guards.{admit}
use meshtastic_matrix_relay.Inbound.Relays.{portnum_in}
use meshtastic_matrix_relay.Inbound.Handler.{
  filtered, recipient, deliver, process, on_meshtastic_message,
}
use meshtastic_matrix_relay.Inbound.Admission.{IsAdmitted, admit-IsAdmitted}

-- `packet["decoded"]`, where it is a dict
abbrev pub decoded_in : Fields → Fields
decoded_in packet = or_else (as_dict (get packet "decoded" Value.null)) Fields.end

abbrev pub action_of : Env → Fields → Fields → PacketAction
action_of env config packet =
    (classify_packet env.port_name (portnum_in (decoded_in packet)) (Value.dict config)
      (some packet)).0

-- A packet that the configuration does not drop, to the relay's node or to all, with a loop to relay
-- on.
pub record MayAct (env : Env) (i : Interface) (packet : Fields) (f : Facade) : Type 0 where
  pub config : Fields
  pub configured : f.config ≡ some config
  pub kept : action_of env config packet ≢ drop
  pub wanted :
      filtered env i (get_interaction_settings (Value.dict config)) (decoded_in packet) ≡ false
  pub running : env.later_shutting_down ≡ false
  pub looped : f.event_loop ≡ true
  pub my_id : Value
  pub known : i.my_info ≡ some my_id
  pub addressed : recipient env i (get packet "to" Value.null) my_id ≢ none

deliver-addressed :
    (env : Env) (i : Interface) (f : Facade) (config packet decoded : Fields)
    (action : PacketAction) (interactions : Interactions) (o : Option Value) (e : Effect)
    (l : List Effect)
    → i.my_info ≡ o
    → deliver env i f config packet decoded action interactions ≡ Result.returned (e ∷ l)
    → (my_id : Value) × (i.my_info ≡ some my_id)
      × (recipient env i (get packet "to" Value.null) my_id ≢ none)
unfolding deliver
deliver-addressed env i f config packet decoded action interactions none e l q h = ground arith
deliver-addressed env i f config packet decoded action interactions (some my_id) e l q h =
    (my_id, q, ground arith)

process_at-MayAct :
    (env : Env) (i : Interface) (packet : Fields) (f : Facade) (o : Option Fields)
    (action : PacketAction) (e : Effect) (l : List Effect)
    → f.config ≡ o
    → ((config : Fields) → o ≡ some config → action_of env config packet ≡ action)
    → process env i f packet ≡ Result.returned (e ∷ l)
    → MayAct env i packet f
unfolding process
process_at-MayAct env i packet f none action e l q a h = ground arith
process_at-MayAct env i packet f (some config) drop e l q a h = ground (arith, a config refl)
process_at-MayAct env i packet f (some config) action e l q a h =
    let interactions = get_interaction_settings (Value.dict config) in
    let b = a config refl in
    let delivered : deliver env i f config packet (decoded_in packet) action interactions
        ≡ Result.returned (e ∷ l) =
      ground (arith, b) in
    let (my_id, known, addressed) =
      deliver-addressed env i f config packet (decoded_in packet) action interactions i.my_info e l
        refl delivered in
    record {
      config = config;
      configured = q;
      kept = ground (arith, b);
      wanted = ground (arith, b);
      running = ground (arith, b);
      looped = ground (arith, b);
      my_id = my_id;
      known = known;
      addressed = addressed;
    }

process-MayAct :
    (env : Env) (i : Interface) (packet : Fields) (f : Facade) (o : Option Fields) (e : Effect)
    (l : List Effect)
    → f.config ≡ o
    → process env i f packet ≡ Result.returned (e ∷ l)
    → MayAct env i packet f
unfolding process
process-MayAct env i packet f none e l q h = ground arith
process-MayAct env i packet f (some config) e l q h =
    process_at-MayAct env i packet f (some config) (action_of env config packet) e l q (λ c r. cc) h

on_dict :
    (env : Env) (i : Interface) (packet : Fields) (f : Facade) (e : Effect) (l : List Effect)
    → (on_meshtastic_message env i (Value.dict packet) f).1 ≡ Result.returned (e ∷ l)
    → ((admit env i packet f).1 ≡ true)
      × (process env i (admit env i packet f).0 packet ≡ Result.returned (e ∷ l))
unfolding on_meshtastic_message
on_dict env i Fields.end f e l h = ground arith
on_dict env i (Fields.field k v d) f e l h = ground arith

-- Where the handler does anything at all, it was given a dict that passes the guards: no shutdown,
-- the active interface, no response to a health probe, the startup drain over, and a time not before
-- the start on the calibrated clock. Moreover the configuration neither drops the packet nor filters
-- it out as a reaction, the packet is addressed to the relay's node or to all, and there is an event
-- loop.
pub acts-IsAdmitted :
    (env : Env) (i : Interface) (v : Value) (f : Facade) (e : Effect) (l : List Effect)
    → (on_meshtastic_message env i v f).1 ≡ Result.returned (e ∷ l)
    → (packet : Fields) × (v ≡ Value.dict packet)
      × IsAdmitted env i packet f
      × MayAct env i packet (admit env i packet f).0
unfolding on_meshtastic_message
acts-IsAdmitted env i (Value.dict packet) f e l h =
    let (admitted, processed) = on_dict env i packet f e l h in
    let g = (admit env i packet f).0 in
    (
      packet,
      refl,
      admit-IsAdmitted env i packet f admitted,
      process-MayAct env i packet g g.config e l refl processed,
    )
acts-IsAdmitted env i _ f e l h = ground arith
