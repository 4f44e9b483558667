-- ===== src/Reconnect/Single.antt =====
-- There is never more than one coroutine that reconnects.
use meshtastic_matrix_relay.Base.{
  ℕ, zero, suc, ◌≡◌, sym, subst, append-nil, ◌∙◌, refl, Bool, true, false, Option, none, List, [],
  ◌∷◌, ◌++◌, arith, ◌⊎◌, inl, inr, Bool-cases, if◌then◌else◌,
}
use meshtastic_matrix_relay.Reconnect.State.{Ble, Session, EventLoop, Act}
use meshtastic_matrix_relay.Reconnect.Loss.{
  tear_down, clear_stale_ble_future, finalize_stale_ble_cleanup, reset_degraded_state,
  schedule_reconnect, give_up, on_lost_meshtastic_connection,
}
use meshtastic_matrix_relay.Reconnect.Loop.{
  Point, Wake, finish, count_down, begin_attempt, attempt_again, reconnect,
}
use meshtastic_matrix_relay.Reconnect.Trace.{
  System, Event, loses, resumes, writes, is_scheduled, keep, resume, step, run, IsSingle,
}

-- A turn ends the coroutine or leaves the flag as it is.
abbrev Leaves : Session → Session × Point → Type 0
Leaves s r = (r.1 ≡ Point.ended) ⊎ (r.0.reconnecting ≡ s.reconnecting)

count_down-Leaves : (s : Session) (backoff left : ℕ) → Leaves s (count_down s backoff left)
unfolding count_down finish
count_down-Leaves s backoff zero = ground arith
count_down-Leaves s backoff (suc left) = ground arith

begin_attempt-Leaves :
    (is_service : Bool) (s : Session) (backoff : ℕ) → Leaves s (begin_attempt is_service s backoff)
unfolding begin_attempt finish
begin_attempt-Leaves is_service s backoff = elim (Bool-cases s.shutting_down) [
  | inl d ↦ ground arith
  | inr d ↦ elim is_service [
    | true ↦ ground arith
    | false ↦ ground (arith, count_down-Leaves s backoff backoff)
  ]
]

attempt_again-Leaves :
    (is_service : Bool) (s : Session) (backoff : ℕ) → Leaves s (attempt_again is_service s backoff)
unfolding attempt_again finish
attempt_again-Leaves is_service s backoff = ground (arith, begin_attempt-Leaves is_service s _)

reconnect-Leaves :
    (is_service : Bool) (w : Wake) (s : Session) (p : Point) → Leaves s (reconnect is_service w s p)
unfolding reconnect finish
reconnect-Leaves is_service Wake.begins s Point.scheduled = begin_attempt-Leaves is_service s _
reconnect-Leaves is_service Wake.cancels s Point.scheduled = inl refl
reconnect-Leaves is_service Wake.slept s (Point.resting b) = count_down-Leaves s b 0
reconnect-Leaves is_service Wake.slept s (Point.counting b left) = count_down-Leaves s b left
reconnect-Leaves is_service (Wake.connects true) s (Point.connecting b) = inl refl
reconnect-Leaves is_service (Wake.connects false) s (Point.connecting b) =
    attempt_again-Leaves is_service s b
reconnect-Leaves is_service Wake.fails s (Point.connecting b) = attempt_again-Leaves is_service s b
reconnect-Leaves is_service Wake.cancels s (Point.resting _) = inl refl
reconnect-Leaves is_service Wake.cancels s (Point.counting _ _) = inl refl
reconnect-Leaves is_service Wake.cancels s (Point.connecting _) = inl refl
reconnect-Leaves is_service _ s p = inr refl

is_scheduled-append :
    (k l : List Act) → is_scheduled k ≡ false → is_scheduled (k ++ l) ≡ is_scheduled l
is_scheduled-append [] l h = refl
is_scheduled-append (Act.schedule_reconnect ∷ k) l h = cc
is_scheduled-append (_ ∷ k) l h = is_scheduled-append k l h

tear_down-quiet : (s : Session) → is_scheduled (tear_down s).1 ≡ false
unfolding tear_down
tear_down-quiet s = ground arith

finalize-quiet : (b : Ble) → is_scheduled (finalize_stale_ble_cleanup b) ≡ false
unfolding finalize_stale_ble_cleanup
finalize-quiet b = ground arith

reset-quiet : (b : Ble) → is_scheduled (reset_degraded_state b) ≡ false
unfolding reset_degraded_state
reset-quiet b = ground arith

schedule-flag :
    (loop : EventLoop) (s : Session)
    → is_scheduled (schedule_reconnect loop s).1 ≡ (schedule_reconnect loop s).0.reconnecting
unfolding schedule_reconnect
schedule-flag EventLoop.running s = refl
schedule-flag EventLoop.refusing s = refl
schedule-flag EventLoop.unavailable s = refl

give_up-flag :
    (loop : EventLoop) (s : Session)
    → is_scheduled (give_up loop s).1 ≡ (give_up loop s).0.reconnecting
unfolding give_up
give_up-flag loop s =
    let cleared = record ((tear_down s).0) {
      meshtastic_client = none;
      relay_active_client_id = none;
      probe_timer = false;
      ble = clear_stale_ble_future s.ble;
    } in
    let last = (schedule_reconnect loop cleared).1 in
    let acts = (tear_down s).1 in
    let timer = if s.probe_timer then Act.cancel_probe_timer ∷ [] else [] in
    let stale = finalize_stale_ble_cleanup s.ble in
    let degraded = reset_degraded_state s.ble in
    let quiet_timer : is_scheduled timer ≡ false = ground arith in
    let quiet = is_scheduled-append acts timer (tear_down-quiet s) ∙ quiet_timer in
    let quiet_stale = is_scheduled-append (acts ++ timer) stale quiet ∙ finalize-quiet s.ble in
    let quiet_all =
      is_scheduled-append (acts ++ timer ++ stale) degraded quiet_stale ∙ reset-quiet s.ble in
    is_scheduled-append (acts ++ timer ++ stale ++ degraded) last quiet_all
    ∙ schedule-flag loop cleared

-- A loss is ignored, or it comes while nothing reconnects and raises the flag as it schedules.
on_lost-flag :
    (i : Option ℕ) (loop : EventLoop) (s : Session)
    → (on_lost_meshtastic_connection i loop s ≡ (s, []))
      ⊎ ((s.reconnecting ≡ false)
          × (is_scheduled (on_lost_meshtastic_connection i loop s).1
              ≡ (on_lost_meshtastic_connection i loop s).0.reconnecting))
unfolding on_lost_meshtastic_connection
on_lost-flag i loop s = ground (arith, give_up-flag loop s)

kept-IsSingle :
    (s : Session) (q : Point)
    → (q ≡ Point.ended) ⊎ (s.reconnecting ≡ true)
    → IsSingle (record { session = s; coroutines = keep q [] })
kept-IsSingle s Point.ended h = inl refl
kept-IsSingle s q (inl e) = cc
kept-IsSingle s q (inr r) = inr (q, refl, r)

resume-IsSingle :
    (is_service : Bool) (n : ℕ) (w : Wake) (s : Session) (l : List Point)
    → IsSingle (record { session = s; coroutines = l })
    → IsSingle (record {
      session = (resume is_service n w s l).0;
      coroutines = (resume is_service n w s l).1;
    })
unfolding resume
resume-IsSingle is_service n w s [] h = inl refl
resume-IsSingle is_service zero w s (p ∷ []) (inl e) = cc
resume-IsSingle is_service zero w s (p ∷ []) (inr (q, e, r)) =
    let t = reconnect is_service w s p in
    kept-IsSingle t.0 t.1
      (elim (reconnect-Leaves is_service w s p) [ inl ends ↦ inl ends | inr same ↦ inr (same ∙ r) ])
resume-IsSingle is_service (suc n) w s (p ∷ []) h = h
resume-IsSingle is_service n w s (p ∷ q ∷ l) (inl e) = cc
resume-IsSingle is_service n w s (p ∷ q ∷ l) (inr (r, e, _)) = cc

on_lost-IsSingle :
    (i : Option ℕ) (loop : EventLoop) (y : System) → IsSingle y → IsSingle (step (loses i loop) y)
unfolding step
on_lost-IsSingle i loop y h = elim (on_lost-flag i loop y.session) [
  | inl same ↦
      subst
        (λ r. IsSingle (record {
          session = r.0;
          coroutines = y.coroutines ++ (if is_scheduled r.1 then Point.scheduled ∷ [] else []);
        }))
        (sym same)
        (subst (λ l. IsSingle (record { session = y.session; coroutines = l }))
          (sym (append-nil y.coroutines)) h)
  | inr (down, flag) ↦ elim h [
    | inr (p, e, up) ↦ cc
    | inl none_there ↦
        elim (Bool-cases (is_scheduled (on_lost_meshtastic_connection i loop y.session).1)) [
          | inl up ↦ inr (Point.scheduled, ground arith, sym flag ∙ up)
          | inr quiet ↦ inl (ground arith)
        ]
  ]
]

step-IsSingle : (e : Event) (y : System) → IsSingle y → IsSingle (step e y)
unfolding step
step-IsSingle (loses i loop) y h = on_lost-IsSingle i loop y h
step-IsSingle (resumes is_service n w) y h = resume-IsSingle is_service n w y.session y.coroutines h
step-IsSingle (writes s) y h = h

-- For every sequence of lost connections, turns of the coroutines and writes of other threads to the
-- rest of the session, from a session without a coroutine: at most one coroutine reconnects at any
-- time, and while one does, `reconnecting` is set.
pub run-IsSingle :
    (l : List Event) (s : Session) → IsSingle (run l (record { session = s; coroutines = [] }))
unfolding run
run-IsSingle l s = from l (record { session = s; coroutines = [] }) (inl refl)
  where
    from : (l : List Event) (y : System) → IsSingle y → IsSingle (run l y)
    from [] y h = h
    from (e ∷ l) y h = from l (step e y) (step-IsSingle e y h)
