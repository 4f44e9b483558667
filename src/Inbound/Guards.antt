-- ===== src/Inbound/Guards.antt =====
-- src/mmrelay/meshtastic/events.py: the first half of `on_meshtastic_message`, which decides whether a
-- packet is current traffic of the active interface. A guard returns whether the handler goes on.
use meshtastic_matrix_relay.Base.{
  ℕ, ◌+◌, Bool, true, false, not, none, some, ◌==◌, ltb, ◌||◌, ◌&&◌, pos, negsuc, if◌then◌else◌,
}
use meshtastic_matrix_relay.Py.{Value, Fields, get, or_else, is_null}
use meshtastic_matrix_relay.Health.Skew.{Clock, rx_time_of, seed_connect_time_skew}
use meshtastic_matrix_relay.Health.Probes.{claim_health_probe_response}
use meshtastic_matrix_relay.Inbound.State.{Facade, Interface, Env}

-- Without a client, only a handler that is called outside any session goes on.
unfoldable pub is_current : Interface → Facade → Bool
is_current i f = elim f.meshtastic_client [
  | none ↦
      not
        (f.callbacks_tearing_down || f.subscribed_to_messages || f.reconnecting || f.shutting_down)
  | some client ↦ i.identity == or_else f.relay_active_client_id client
]

-- `interface.myInfo.my_node_num`, or else `interface.localNode.nodeNum`
abbrev pub local_num : Interface → Value
local_num i =
    let num = or_else i.my_info Value.null in if is_null num then i.local_node_num else num

abbrev pub seed : Env → ℕ → Facade → Facade × Bool
seed env rx_time f =
    let (clock, calibrated) = seed_connect_time_skew env.wall env.monotonic rx_time f.clock in
    (record f { clock = clock }, calibrated)

-- The drain has ended: its deadline is cleared, unless a timer that still runs will do so.
abbrev pub end_drain : Facade → Facade
end_drain f = elim (or_else f.drain_timer false) [
  | true ↦ f
  | false ↦ record f {
    drain_timer = none;
    clock = record (f.clock) { drain_deadline = none };
    drain_complete = true;
  }
]

unfoldable pub drain_gate : Env → ℕ → Facade → Facade × Bool
drain_gate env rx_time f = elim f.clock.drain_deadline [
  | none ↦ (f, true)
  | some deadline ↦
      if ltb env.monotonic deadline then ((seed env rx_time f).0, false) else (end_drain f, true)
]

-- `rx_time < relay_start_time - skew`, for a packet with a time
abbrev pub is_old : ℕ → Clock → Bool
is_old rx_time c = ltb 0 rx_time && elim c.skew [
  | none ↦ ltb rx_time c.relay_start_time
  | some (pos s) ↦ ltb (rx_time + s) c.relay_start_time
  | some (negsuc s) ↦ ltb rx_time (c.relay_start_time + s + 1)
]

-- A packet from before the start that calibrates the clock is used up by that.
unfoldable pub age_gate : Env → ℕ → Facade → Facade × Bool
age_gate env rx_time f =
    let (g, calibrated) = seed env rx_time f in
    (g, not (calibrated && ltb rx_time f.clock.relay_start_time) && not (is_old rx_time g.clock))

unfoldable pub probe_gate : Env → Interface → Fields → Facade → Facade × Bool
probe_gate env i packet f =
    let ((deadlines, clock), claimed) =
      claim_health_probe_response env.wall env.monotonic packet (local_num i)
        (rx_time_of (get packet "rxTime" (Value.int (pos 0)))) f.deadlines f.clock in
    (record f { deadlines = deadlines; clock = clock }, not claimed)

abbrev pub and_then : Facade × Bool → (Facade → Facade × Bool) → Facade × Bool
and_then (f, true) next = next f
and_then (f, false) next = (f, false)

-- All guards in order, for a packet that is a dict and not empty.
unfoldable pub admit : Env → Interface → Fields → Facade → Facade × Bool
unfolding is_current probe_gate drain_gate age_gate
admit env i packet f =
    let rx_time = rx_time_of (get packet "rxTime" (Value.int (pos 0))) in
    if f.shutting_down
    then (f, false)
    else if not (is_current i f)
    then (f, false)
    else and_then (and_then (probe_gate env i packet f) (drain_gate env rx_time))
        (age_gate env rx_time)
