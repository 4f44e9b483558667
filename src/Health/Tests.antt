-- ===== src/Health/Tests.antt =====
-- Health probes and the clock on concrete packets.
use meshtastic_matrix_relay.Base.{
  sub_ℕ, if◌then◌else◌, ◌≡◌, ◌↔◌, refl, true, false, none, some, List, [], ◌∷◌, pos, negsuc,
}
use meshtastic_matrix_relay.Py.{Value, Fields, int_of}
use meshtastic_matrix_relay.Health.Skew.{Clock, seed_connect_time_skew}
use meshtastic_matrix_relay.Health.Probes.{
  Deadlines, claim_health_probe_response, extract_packet_request_id, claim,
  prune_health_probe_tracking, forget,
}
use meshtastic_matrix_relay.Health.Calibration.{
  Calibrates, seed-policy, Event, observe_all, observe_all-kept,
}
use meshtastic_matrix_relay.Health.Claiming.{claimed_once}

abbrev clock : Clock
clock = record {
  skew = none;
  relay_start_time = 1000000;
  connection_started = 0;
  drain_deadline = some 9000;
  reconnect_deadline = none;
}

-- A response that names the request 5 and comes from the node 11.
abbrev response : Fields
response =
    Fields.field "from" (Value.int (pos 11))
      (Fields.field "requestId" (Value.int (pos 5)) Fields.end)

abbrev node : Value
node = Value.int (pos 11)

seed-policy_example :
    let (after, calibrated) = seed_connect_time_skew 1002000 3000 999000 clock in
    ((calibrated ≡ true) ↔ Calibrates 1002000 3000 999000 clock)
    × (after.skew ≡ (if calibrated then some (sub_ℕ 1002000 999000) else clock.skew))
    × (after.relay_start_time ≡ clock.relay_start_time)
    × (after.connection_started ≡ clock.connection_started)
    × (after.drain_deadline ≡ clock.drain_deadline)
seed-policy_example = seed-policy 1002000 3000 999000 clock

abbrev events : List Event
events = Event.seed 1002000 3000 999000 ∷ Event.respond 1003000 4000 response node 1001000 ∷ []

observe_all-kept_example :
    (observe_all events ([], record clock { skew = some (negsuc 3) })).1.skew ≡ some (negsuc 3)
observe_all-kept_example =
    observe_all-kept events ([], record clock { skew = some (negsuc 3) }) (negsuc 3) refl

abbrev tracked : Deadlines
tracked = (5, 61000) ∷ []

claimed : (claim_health_probe_response 1003000 4000 response node 1001000 tracked clock).1 ≡ true
unfolding claim_health_probe_response claim extract_packet_request_id int_of
    prune_health_probe_tracking forget
claimed = refl

claimed_once_example :
    (let after =
        observe_all events
          (claim_health_probe_response 1003000 4000 response node 1001000 tracked clock).0 in
      (claim_health_probe_response 1005000 6000 response node 1001000 after.0 after.1).1)
    ≡ false
unfolding extract_packet_request_id int_of
claimed_once_example =
    claimed_once 1003000 4000 response node 1001000 tracked clock 5 events 1005000 6000 response
      node 1001000 refl claimed refl
