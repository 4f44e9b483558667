-- ===== src/Health/Calibration.antt =====
-- Which packet calibrates the clock, and that none does so twice.
use meshtastic_matrix_relay.Base.{
  ℕ, ◌-◌, ◌≤◌, ◌<◌, ◌≡◌, ◌≢◌, ◌↔◌, ◌⊎◌, refl, true, Option, none, some, List, [], ◌∷◌, arith, ℤ,
  sub_ℕ, abs, if◌then◌else◌,
}
use meshtastic_matrix_relay.Py.{Value, Fields}
use meshtastic_matrix_relay.Health.Skew.{
  Clock, bootstrap_window, bootstrap_max_skew, still_open, seed_connect_time_skew,
}
use meshtastic_matrix_relay.Health.Probes.{Deadlines, claim_health_probe_response}

-- An allowance for packets from before the start is open.
abbrev pub AllowsEarly : ℕ → Clock → Type 0
AllowsEarly now c =
    (c.drain_deadline ≢ none)
    ⊎ ((deadline : ℕ) × (c.reconnect_deadline ≡ some deadline) × (now ≤ deadline))

pub record Calibrates (now_wall now rx_time : ℕ) (c : Clock) : Type 0 where
  pub uncalibrated : c.skew ≡ none
  pub dated : 0 < rx_time
  pub near : abs (sub_ℕ now_wall rx_time) ≤ bootstrap_max_skew
  pub timely :
      (c.relay_start_time ≤ rx_time)
      ⊎ ((now - c.connection_started ≤ bootstrap_window) × AllowsEarly now c)

still_open-deadline :
    (d : Option ℕ) (now : ℕ)
    → still_open d now ≡ true
    → (deadline : ℕ) × (d ≡ some deadline) × (now ≤ deadline)
still_open-deadline none now h = cc
still_open-deadline (some deadline) now h = (deadline, refl, ground arith)

seed-Calibrates :
    (now_wall now rx_time : ℕ) (c : Clock)
    → (seed_connect_time_skew now_wall now rx_time c).1 ≡ true
    → Calibrates now_wall now rx_time c
unfolding seed_connect_time_skew
seed-Calibrates now_wall now rx_time c h = record {
  uncalibrated = ground arith;
  dated = ground arith;
  near = ground arith;
  timely = ground (arith, still_open-deadline c.reconnect_deadline now);
}

Calibrates-seed :
    (now_wall now rx_time : ℕ) (c : Clock)
    → Calibrates now_wall now rx_time c
    → ((seed_connect_time_skew now_wall now rx_time c).1 ≡ true)
      × ((seed_connect_time_skew now_wall now rx_time c).0.skew ≡ some (sub_ℕ now_wall rx_time))
unfolding seed_connect_time_skew
Calibrates-seed now_wall now rx_time c h = ground arith

seed-effect :
    (now_wall now rx_time : ℕ) (c : Clock)
    → let (after, calibrated) = seed_connect_time_skew now_wall now rx_time c in
      (after.skew ≡ (if calibrated then some (sub_ℕ now_wall rx_time) else c.skew))
      × (after.relay_start_time ≡ c.relay_start_time)
      × (after.connection_started ≡ c.connection_started)
      × (after.drain_deadline ≡ c.drain_deadline)
unfolding seed_connect_time_skew
seed-effect now_wall now rx_time c = ground arith

-- A packet calibrates the clock exactly if the clock has no skew yet, the packet has a positive time
-- within two days of the host's clock, and it is from after the start or came in a connection's first
-- three minutes under an allowance that is open. The skew is then the host's time less the packet's,
-- and stays as it was otherwise; the times of the start, of the connection and of the drain stay.
pub seed-policy :
    (now_wall now rx_time : ℕ) (c : Clock)
    → let (after, calibrated) = seed_connect_time_skew now_wall now rx_time c in
      ((calibrated ≡ true) ↔ Calibrates now_wall now rx_time c)
      × (after.skew ≡ (if calibrated then some (sub_ℕ now_wall rx_time) else c.skew))
      × (after.relay_start_time ≡ c.relay_start_time)
      × (after.connection_started ≡ c.connection_started)
      × (after.drain_deadline ≡ c.drain_deadline)
seed-policy now_wall now rx_time c =
    let (skew, start, connection, drain) = seed-effect now_wall now rx_time c in
    (
      (seed-Calibrates now_wall now rx_time c, λ h. (Calibrates-seed now_wall now rx_time c h).0),
      skew,
      start,
      connection,
      drain,
    )

-- What reaches the clock: a packet seen early, or a response to a health probe.
pub data Event : Type 0 where
  seed : ℕ → ℕ → ℕ → Event
  respond : ℕ → ℕ → Fields → Value → ℕ → Event

abbrev pub observe : Event → Deadlines × Clock → Deadlines × Clock
observe (seed now_wall now rx_time) (l, c) = (l, (seed_connect_time_skew now_wall now rx_time c).0)
observe (respond now_wall now packet local_num rx_time) (l, c) =
    (claim_health_probe_response now_wall now packet local_num rx_time l c).0

unfoldable pub observe_all : List Event → Deadlines × Clock → Deadlines × Clock
observe_all [] s = s
observe_all (e ∷ l) s = observe_all l (observe e s)

seed-kept :
    (now_wall now rx_time : ℕ) (c : Clock) (z : ℤ)
    → c.skew ≡ some z
    → (seed_connect_time_skew now_wall now rx_time c).0.skew ≡ some z
unfolding seed_connect_time_skew
seed-kept now_wall now rx_time c z h = ground arith

respond-kept :
    (now_wall now : ℕ) (packet : Fields) (local_num : Value) (rx_time : ℕ) (l : Deadlines)
    (c : Clock) (z : ℤ)
    → c.skew ≡ some z
    → (claim_health_probe_response now_wall now packet local_num rx_time l c).0.1.skew ≡ some z
unfolding claim_health_probe_response
respond-kept now_wall now packet local_num rx_time l c z h = ground arith

-- Once the clock has a skew, no packet and no probe response, in whatever order they come, changes it.
pub observe_all-kept :
    (l : List Event) (s : Deadlines × Clock) (z : ℤ)
    → s.1.skew ≡ some z
    → (observe_all l s).1.skew ≡ some z
unfolding observe_all
observe_all-kept [] s z h = h
observe_all-kept (seed now_wall now rx_time ∷ l) (d, c) z h =
    observe_all-kept l (d, (seed_connect_time_skew now_wall now rx_time c).0) z
      (seed-kept now_wall now rx_time c z h)
observe_all-kept (respond now_wall now packet local_num rx_time ∷ l) (d, c) z h =
    observe_all-kept l (claim_health_probe_response now_wall now packet local_num rx_time d c).0 z
      (respond-kept now_wall now packet local_num rx_time d c z h)
