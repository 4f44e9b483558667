-- ===== src/Health/Claiming.antt =====
-- A health probe's response is claimed in time, and once.
use meshtastic_matrix_relay.Base.{
  ℕ, ◌+◌, ◌<◌, ◌≡◌, refl, true, false, Option, none, some, List, [], ◌∷◌, arith,
}
use meshtastic_matrix_relay.Py.{Value, Fields, get}
use meshtastic_matrix_relay.Health.Skew.{Clock}
use meshtastic_matrix_relay.Health.Probes.{
  Deadlines, is_tracked, forget, prune_health_probe_tracking, track_health_probe_request_id, claim,
  claim_health_probe_response, extract_packet_request_id, coerce_positive_int_id, from_local_node,
  track_grace, at_least_second,
}
use meshtastic_matrix_relay.Health.Calibration.{Event, seed, respond, observe_all}

is_tracked-forget : (id : ℕ) (l : Deadlines) → is_tracked id (forget id l) ≡ false
unfolding forget
is_tracked-forget id [] = refl
is_tracked-forget id ((j, d) ∷ l) = ground (arith, is_tracked-forget id l)

prune-untracked :
    (id now : ℕ) (l : Deadlines)
    → is_tracked id l ≡ false
    → is_tracked id (prune_health_probe_tracking now l) ≡ false
unfolding prune_health_probe_tracking
prune-untracked id now [] h = refl
prune-untracked id now ((j, d) ∷ l) h = ground (arith, prune-untracked id now l)

claim-forgets :
    (now_wall now : ℕ) (packet : Fields) (local_num : Value) (rx_time : ℕ) (l : Deadlines)
    (c : Clock) (id : ℕ)
    → extract_packet_request_id packet ≡ some id
    → (claim_health_probe_response now_wall now packet local_num rx_time l c).1 ≡ true
    → is_tracked id (claim_health_probe_response now_wall now packet local_num rx_time l c).0.0
      ≡ false
unfolding claim_health_probe_response
claim-forgets now_wall now packet local_num rx_time l c id e h =
    ground (arith, is_tracked-forget id (prune_health_probe_tracking now l))

claim-untracked :
    (now_wall now : ℕ) (packet : Fields) (local_num : Value) (rx_time : ℕ) (l : Deadlines)
    (c : Clock) (id : ℕ)
    → extract_packet_request_id packet ≡ some id
    → is_tracked id l ≡ false
    → (claim_health_probe_response now_wall now packet local_num rx_time l c).1 ≡ false
unfolding claim_health_probe_response
claim-untracked now_wall now packet local_num rx_time l c id e h =
    ground (arith, prune-untracked id now l h)

is_tracked-forget-other :
    (id j : ℕ) (l : Deadlines) → is_tracked id l ≡ false → is_tracked id (forget j l) ≡ false
unfolding forget
is_tracked-forget-other id j [] h = refl
is_tracked-forget-other id j ((k, d) ∷ l) h = ground (arith, is_tracked-forget-other id j l)

claim-others :
    (now_wall now rx_time j : ℕ) (l : Deadlines) (c : Clock) (id : ℕ)
    → is_tracked id l ≡ false
    → is_tracked id (claim now_wall now rx_time j l c).0.0 ≡ false
unfolding claim
claim-others now_wall now rx_time j l c id h =
    let pruned = prune_health_probe_tracking now l in
    let untracked : is_tracked id pruned ≡ false = prune-untracked id now l h in
    ground (arith, untracked, is_tracked-forget-other id j pruned untracked)

respond_by_id-untracked :
    (now_wall now : ℕ) (packet : Fields) (local_num : Value) (rx_time : ℕ) (l : Deadlines)
    (c : Clock) (id : ℕ) (o : Option ℕ)
    → extract_packet_request_id packet ≡ o
    → is_tracked id l ≡ false
    → is_tracked id (claim_health_probe_response now_wall now packet local_num rx_time l c).0.0
      ≡ false
unfolding claim_health_probe_response
respond_by_id-untracked now_wall now packet local_num rx_time l c id none e h = ground arith
respond_by_id-untracked now_wall now packet local_num rx_time l c id (some j) e h =
    ground (arith, claim-others now_wall now rx_time j l c id h)

respond-untracked :
    (now_wall now : ℕ) (packet : Fields) (local_num : Value) (rx_time : ℕ) (l : Deadlines)
    (c : Clock) (id : ℕ)
    → is_tracked id l ≡ false
    → is_tracked id (claim_health_probe_response now_wall now packet local_num rx_time l c).0.0
      ≡ false
respond-untracked now_wall now packet local_num rx_time l c id h =
    respond_by_id-untracked now_wall now packet local_num rx_time l c id
      (extract_packet_request_id packet) refl h

observe_all-untracked :
    (l : List Event) (d : Deadlines) (c : Clock) (id : ℕ)
    → is_tracked id d ≡ false
    → is_tracked id (observe_all l (d, c)).0 ≡ false
unfolding observe_all
observe_all-untracked [] d c id h = h
observe_all-untracked (seed now_wall now rx_time ∷ l) d c id h = observe_all-untracked l d _ id h
observe_all-untracked (respond now_wall now packet local_num rx_time ∷ l) d c id h =
    observe_all-untracked l _ _ id
      (respond-untracked now_wall now packet local_num rx_time d c id h)

tracked_after :
    (raw : Value) (timeout now later id : ℕ) (l : Deadlines)
    → coerce_positive_int_id raw ≡ some id
    → later < now + at_least_second timeout + track_grace
    → is_tracked id
        (prune_health_probe_tracking later (track_health_probe_request_id raw timeout now l).0)
      ≡ true
unfolding track_health_probe_request_id prune_health_probe_tracking
tracked_after raw timeout now later id l e h = ground arith

-- The response to a probe that carries its id and comes from the local node is claimed if it arrives
-- before the deadline: the timeout, of at least a second, and a minute of grace.
claim-track :
    (raw : Value) (timeout now now_wall later id rx_time : ℕ) (packet : Fields) (local_num : Value)
    (l : Deadlines) (c : Clock)
    → coerce_positive_int_id raw ≡ some id
    → extract_packet_request_id packet ≡ some id
    → from_local_node (get packet "from" Value.null) local_num ≡ true
    → later < now + at_least_second timeout + track_grace
    → (claim_health_probe_response now_wall later packet local_num rx_time
        (track_health_probe_request_id raw timeout now l).0
        c).1
      ≡ true
unfolding claim_health_probe_response claim
claim-track raw timeout now now_wall later id rx_time packet local_num l c e f g h =
    ground (arith, tracked_after raw timeout now later id l e h)

-- A response is claimed once: after a packet has claimed a request, whatever packets come next, no
-- packet with the same request id is claimed, as long as the id is not tracked again.
pub claimed_once :
    (now_wall now : ℕ) (packet : Fields) (local_num : Value) (rx_time : ℕ) (l : Deadlines)
    (c : Clock) (id : ℕ) (between : List Event) (later_wall later : ℕ) (again : Fields)
    (later_num : Value) (later_rx : ℕ)
    → extract_packet_request_id packet ≡ some id
    → (claim_health_probe_response now_wall now packet local_num rx_time l c).1 ≡ true
    → extract_packet_request_id again ≡ some id
    → (let after =
          observe_all between
            (claim_health_probe_response now_wall now packet local_num rx_time l c).0 in
        (claim_health_probe_response later_wall later again later_num later_rx after.0 after.1).1)
      ≡ false
claimed_once now_wall now packet local_num rx_time l c id between later_wall later again later_num
      later_rx e h f =
    claim-untracked later_wall later again later_num later_rx _ _ id f (
      observe_all-untracked between _ _ id
        (claim-forgets now_wall now packet local_num rx_time l c id e h))
