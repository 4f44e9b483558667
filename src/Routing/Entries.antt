-- ===== src/Routing/Entries.antt =====
-- The overrides that a list gives, and the warnings.
use meshtastic_matrix_relay.Base.{
  String, ◌≡◌, ◌≢◌, inl, inr, refl, true, false, Option, none, some, List, [], ◌∷◌, ℤ, eq_iff,
  arith, Option-cases, if◌then◌else◌,
}
use meshtastic_matrix_relay.Py.{Value, Items, Fields, get, contains, startswith}
use meshtastic_matrix_relay.Routing.Portnum.{is_encrypted_packet, get_portnum_name}
use meshtastic_matrix_relay.Routing.Overrides.{
  drop, section, warn_once, entry_name, resolve_entries, resolve_portnum_set,
  get_packet_routing_overrides,
}
use meshtastic_matrix_relay.Routing.Classify.{classify_packet}
use meshtastic_matrix_relay.Routing.Policy.{classify-policy}

-- `list(...)`, in the three shapes that are read alike
abbrev pub as_entries : Value → Option Items
as_entries (Value.list items) = some items
as_entries (Value.tuple items) = some items
as_entries (Value.set items) = some items
as_entries _ = none

module _ (port_name : ℤ → Option String) where
  entry_name-known :
      (v : Value) (name : String)
      → entry_name port_name v ≡ some name
      → startswith name "UNKNOWN" ≡ false
  unfolding entry_name
  entry_name-known (Value.str s) name e = ground arith
  entry_name-known Value.null name e = ground arith
  entry_name-known _ name e = ground arith

  resolve_entries-known :
      (items : Items) (name : String)
      → startswith name "UNKNOWN" ≡ true
      → contains name (resolve_entries port_name items).0 ≡ false
  unfolding resolve_entries
  resolve_entries-known Items.nil name h = refl
  resolve_entries-known (Items.cons v items) name h = elim (Option-cases (entry_name port_name v)) [
    | inl e ↦ ground (arith, resolve_entries-known items name h)
    | inr (n, e) ↦
        ground (arith, resolve_entries-known items name h, entry_name-known v n e, eq_iff name n)
  ]

  resolve_list-known :
      (v : Value) (items : Items) (setting name : String)
      → as_entries v ≡ some items
      → startswith name "UNKNOWN" ≡ true
      → contains name (resolve_portnum_set port_name v setting).0 ≡ false
  unfolding resolve_portnum_set
  resolve_list-known (Value.list l) items setting name e h = resolve_entries-known l name h
  resolve_list-known (Value.tuple l) items setting name e h = resolve_entries-known l name h
  resolve_list-known (Value.set l) items setting name e h = resolve_entries-known l name h
  resolve_list-known _ items setting name e h = cc

  -- Where `disabled_portnums` is a list, a packet that is not encrypted and whose name begins with
  -- UNKNOWN is not dropped, whatever the list holds: also the port number UNKNOWN_APP.
  classify-unknown :
      (portnum config : Value) (packet : Option Fields) (mesh routing : Fields) (items : Items)
      → is_encrypted_packet packet ≡ false
      → section "meshtastic" config ≡ some mesh
      → section "packet_routing" (Value.dict mesh) ≡ some routing
      → as_entries (get routing "disabled_portnums" Value.null) ≡ some items
      → startswith (get_portnum_name port_name portnum packet) "UNKNOWN" ≡ true
      → (classify_packet port_name portnum config packet).0 ≢ drop
  unfolding get_packet_routing_overrides
  classify-unknown portnum config packet mesh routing items plain m r l u =
      let name = get_portnum_name port_name portnum packet in
      let absent : contains name (get_packet_routing_overrides port_name config).0.1 ≡ false =
        rw (m, get_packet_routing_overrides)
          (rw (r, get_packet_routing_overrides)
            (resolve_list-known (get routing "disabled_portnums" Value.null) items
              "disabled_portnums" name l u)) in
      rw (classify-policy port_name portnum config packet plain, absent) (λ e. ground arith)

-- The keys that a sequence of warnings logs, from those that were warned of before.
abbrev pub logged : List String → List String → List String
logged [] warned = []
logged (key ∷ keys) warned =
    let (warned', logs) = warn_once key warned in
    let rest = logged keys warned' in if logs then key ∷ rest else rest

-- No key twice.
abbrev pub IsDistinct : List String → Type 0
IsDistinct [] = Unit
IsDistinct (key ∷ keys) = (contains key keys ≡ false) × IsDistinct keys

logged-old :
    (keys warned : List String) (k : String)
    → contains k warned ≡ true
    → contains k (logged keys warned) ≡ false
unfolding warn_once
logged-old [] warned k h = refl
logged-old (key ∷ keys) warned k h =
    ground (arith, logged-old keys warned k h, logged-old keys (key ∷ warned) k, eq_iff k key)

logged-new :
    (keys warned : List String) (k : String)
    → contains k keys ≡ true
    → contains k warned ≡ false
    → contains k (logged keys warned) ≡ true
unfolding warn_once
logged-new [] warned k h n = cc
logged-new (key ∷ keys) warned k h n =
    ground (arith, logged-new keys warned k, logged-new keys (key ∷ warned) k, eq_iff k key)

logged-IsDistinct : (keys warned : List String) → IsDistinct (logged keys warned)
unfolding warn_once
logged-IsDistinct [] warned = tt
logged-IsDistinct (key ∷ keys) warned = ground (
  arith,
  logged-IsDistinct keys warned,
  logged-IsDistinct keys (key ∷ warned),
  logged-old keys (key ∷ warned) key,
  eq_iff key key,
)

-- Over any sequence of warnings each key is logged at most once, and a key of the sequence that was
-- not warned of before is logged.
pub warn_once-logged :
    (keys : List String) (k : String)
    → contains k keys ≡ true
    → IsDistinct (logged keys []) × (contains k (logged keys []) ≡ true)
warn_once-logged keys k h = (logged-IsDistinct keys [], logged-new keys [] k h refl)
