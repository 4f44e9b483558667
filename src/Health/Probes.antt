-- ===== src/Health/Probes.antt =====
-- src/mmrelay/meshtastic/health.py: the request ids of health probes, tracked with a deadline, and
-- the responses that claim them.
use meshtastic_matrix_relay.Base.{
  ℕ, ◌+◌, Bool, true, false, Option, none, some, List, [], ◌∷◌, ◌==◌, ltb, ◌||◌, pos, negsuc, eqb_ℤ,
  sub_ℕ, abs, is_some, if◌then◌else◌,
}
use meshtastic_matrix_relay.Py.{Value, Fields, get, as_dict, int_of}
use meshtastic_matrix_relay.Health.Skew.{Clock, bootstrap_max_skew}

-- HEALTH_PROBE_TRACK_GRACE_SECS
abbrev pub track_grace : ℕ
track_grace = 60000

-- `_coerce_positive_int_id`
abbrev pub coerce_positive_int_id : Value → Option ℕ
coerce_positive_int_id v = elim (int_of v) [
  | none ↦ none
  | some z ↦ elim z [ pos n ↦ (if ltb 0 n then some n else none) | negsuc _ ↦ none ]
]

abbrev first_some : Option ℕ → Option ℕ → Option ℕ
first_some none b = b
first_some (some a) b = some a

-- The id under either spelling.
abbrev request_id_in : Fields → Option ℕ
request_id_in d =
    first_some (coerce_positive_int_id (get d "requestId" Value.null))
      (coerce_positive_int_id (get d "request_id" Value.null))

-- `_extract_packet_request_id`
unfoldable pub extract_packet_request_id : Fields → Option ℕ
extract_packet_request_id packet =
    first_some (request_id_in packet)
      (elim (as_dict (get packet "decoded" Value.null)) [ none ↦ none | some d ↦ request_id_in d ])

-- `_health_probe_request_deadlines`
abbrev pub Deadlines : Type 0
Deadlines = List (ℕ × ℕ)

abbrev pub is_tracked : ℕ → Deadlines → Bool
is_tracked id [] = false
is_tracked id ((j, _) ∷ l) = j == id || is_tracked id l

-- `_prune_health_probe_tracking`
unfoldable pub prune_health_probe_tracking : ℕ → Deadlines → Deadlines
prune_health_probe_tracking now [] = []
prune_health_probe_tracking now ((id, deadline) ∷ l) =
    let rest = prune_health_probe_tracking now l in
    if ltb now deadline then (id, deadline) ∷ rest else rest

-- `deadlines.pop(id, None)`
unfoldable pub forget : ℕ → Deadlines → Deadlines
forget id [] = []
forget id ((j, deadline) ∷ l) =
    let rest = forget id l in if j == id then rest else (j, deadline) ∷ rest

abbrev pub at_least_second : ℕ → ℕ
at_least_second t = if ltb t 1000 then 1000 else t

-- `_track_health_probe_request_id`
unfoldable pub track_health_probe_request_id : Value → ℕ → ℕ → Deadlines → Deadlines × Option ℕ
unfolding prune_health_probe_tracking forget
track_health_probe_request_id raw timeout now l = elim (coerce_positive_int_id raw) [
  | none ↦ (l, none)
  | some id ↦ (
    (id, now + at_least_second timeout + track_grace)
        ∷ forget id (prune_health_probe_tracking now l),
    some id,
  )
]

-- The sender may be the local node: both ids are integers and differ otherwise.
abbrev pub from_local_node : Value → Value → Bool
from_local_node sender local_num = elim (int_of sender) [
  | none ↦ true
  | some a ↦ elim (int_of local_num) [ none ↦ true | some b ↦ eqb_ℤ a b ]
]

-- `_is_health_probe_response_packet`
unfoldable pub is_health_probe_response_packet : ℕ → Fields → Value → Deadlines → Deadlines × Bool
is_health_probe_response_packet now packet local_num l = elim (extract_packet_request_id packet) [
  | none ↦ (l, false)
  | some id ↦
      let pruned = prune_health_probe_tracking now l in
      if from_local_node (get packet "from" Value.null) local_num
      then (pruned, is_tracked id pruned)
      else (l, false)
]

-- A claimed response calibrates the clock, if it is not calibrated yet.
abbrev calibrate_from_probe : ℕ → ℕ → Clock → Clock
calibrate_from_probe now_wall rx_time c =
    let observed = sub_ℕ now_wall rx_time in
    if rx_time == 0 || ltb bootstrap_max_skew (abs observed) || is_some c.skew
    then c
    else record c { skew = some observed }

unfoldable pub claim : ℕ → ℕ → ℕ → ℕ → Deadlines → Clock → (Deadlines × Clock) × Bool
claim now_wall now rx_time id l c =
    let pruned = prune_health_probe_tracking now l in
    if is_tracked id pruned
    then ((forget id pruned, calibrate_from_probe now_wall rx_time c), true)
    else ((pruned, c), false)

-- `_claim_health_probe_response_and_maybe_calibrate`
unfoldable pub claim_health_probe_response :
    ℕ → ℕ → Fields → Value → ℕ → Deadlines → Clock → (Deadlines × Clock) × Bool
unfolding claim
claim_health_probe_response now_wall now packet local_num rx_time l c =
    elim (extract_packet_request_id packet) [
      | none ↦ ((l, c), false)
      | some id ↦
          if from_local_node (get packet "from" Value.null) local_num
          then claim now_wall now rx_time id l c
          else ((l, c), false)
    ]
