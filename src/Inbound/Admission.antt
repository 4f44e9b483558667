-- ===== src/Inbound/Admission.antt =====
-- Which packets pass the guards.
use meshtastic_matrix_relay.Base.{
  ℕ, ◌≡◌, refl, ap, subst, ◌∙◌, if◌then◌else◌, Bool, true, false, not, none, some, ltb, pos, arith,
}
use meshtastic_matrix_relay.Py.{Value, Fields, get}
use meshtastic_matrix_relay.Health.Skew.{Clock, rx_time_of}
use meshtastic_matrix_relay.Health.Probes.{claim_health_probe_response, claim}
use meshtastic_matrix_relay.Inbound.State.{Facade, Interface, Env}
use meshtastic_matrix_relay.Inbound.Guards.{
  is_current, is_old, probe_gate, drain_gate, age_gate, and_then, admit,
}

abbrev pub is_draining : ℕ → Clock → Bool
is_draining now c = elim c.drain_deadline [ none ↦ false | some deadline ↦ ltb now deadline ]

abbrev pub rx_time_in : Fields → ℕ
rx_time_in packet = rx_time_of (get packet "rxTime" (Value.int (pos 0)))

-- A packet of the active interface, no response to a probe, after the drain, not older than the start
-- on the clock that the guards leave.
pub record IsAdmitted (env : Env) (i : Interface) (packet : Fields) (f : Facade) : Type 0 where
  pub running : f.shutting_down ≡ false
  pub current : is_current i f ≡ true
  pub unclaimed : (probe_gate env i packet f).1 ≡ true
  pub drained : is_draining env.monotonic f.clock ≡ false
  pub timely : is_old (rx_time_in packet) (admit env i packet f).0.clock ≡ false

and_then-both :
    (p : Facade × Bool) (next : Facade → Facade × Bool)
    → (and_then p next).1 ≡ true
    → (p.1 ≡ true) × (next p.0 ≡ and_then p next)
and_then-both (f, true) next h = (refl, refl)
and_then-both (f, false) next h = cc

probe_gate-drain :
    (env : Env) (i : Interface) (packet : Fields) (f : Facade)
    → (probe_gate env i packet f).0.clock.drain_deadline ≡ f.clock.drain_deadline
unfolding probe_gate claim_health_probe_response claim
probe_gate-drain env i packet f = ground arith

drain_gate-over :
    (env : Env) (rx_time : ℕ) (f : Facade)
    → (drain_gate env rx_time f).1 ≡ true
    → is_draining env.monotonic f.clock ≡ false
unfolding drain_gate
drain_gate-over env rx_time f h = ground arith

age_gate-timely :
    (env : Env) (rx_time : ℕ) (f : Facade)
    → (age_gate env rx_time f).1 ≡ true
    → is_old rx_time (age_gate env rx_time f).0.clock ≡ false
unfolding age_gate
age_gate-timely env rx_time f h = ground arith

abbrev gates : Env → Interface → Fields → Facade → Facade × Bool
gates env i packet f =
    and_then (and_then (probe_gate env i packet f) (drain_gate env (rx_time_in packet)))
      (age_gate env (rx_time_in packet))

admit-open :
    (env : Env) (i : Interface) (packet : Fields) (f : Facade)
    → (admit env i packet f).1 ≡ true
    → (f.shutting_down ≡ false)
      × (is_current i f ≡ true)
      × (gates env i packet f ≡ admit env i packet f)
unfolding admit
admit-open env i packet f h =
    elim (f.shutting_down)
        as (λ b.
          (if b
              then (f, false)
              else if not (is_current i f)
              then (f, false)
              else gates env i packet f).1
            ≡ true
          → (b ≡ false)
            × (is_current i f ≡ true)
            × (gates env i packet f ≡ (
                if b
                then (f, false)
                else if not (is_current i f)
                then (f, false)
                else gates env i packet f))) [
                  | true ↦ λ e. cc
                  | false ↦
                      elim (is_current i f)
                        as (λ b.
                          (if not b then (f, false) else gates env i packet f).1 ≡ true
                          → (false ≡ false)
                            × (b ≡ true)
                            × (gates env i packet f
                                ≡ (if not b then (f, false) else gates env i packet f))) [
                                  | true ↦ λ e. (refl, refl, refl)
                                  | false ↦ λ e. cc
                                ]
                ]
      h

pub admit-IsAdmitted :
    (env : Env) (i : Interface) (packet : Fields) (f : Facade)
    → (admit env i packet f).1 ≡ true
    → IsAdmitted env i packet f
admit-IsAdmitted env i packet f h =
    let (running, current, opened) = admit-open env i packet f h in
    let rx_time = rx_time_in packet in
    let probed = probe_gate env i packet f in
    let drained = and_then probed (drain_gate env rx_time) in
    let (two, aged) = and_then-both drained (age_gate env rx_time) (ap (λ p. p.1) opened ∙ h) in
    let (one, over) = and_then-both probed (drain_gate env rx_time) two in
    record {
      running = running;
      current = current;
      unclaimed = one;
      drained =
          subst
            (λ d.
              (elim d as (λ _. Bool) [ none ↦ false | some deadline ↦ ltb env.monotonic deadline ])
              ≡ false)
            (probe_gate-drain env i packet f)
            (drain_gate-over env rx_time probed.0 (ap (λ p. p.1) over ∙ two));
      timely =
          subst (λ p. is_old rx_time p.0.clock ≡ false) (aged ∙ opened)
            (age_gate-timely env rx_time drained.0 (ap (λ p. p.1) (aged ∙ opened) ∙ h));
    }
