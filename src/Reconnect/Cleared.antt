-- ===== src/Reconnect/Cleared.antt =====
-- What a lost connection leaves behind.
use meshtastic_matrix_relay.Base.{
  ℕ, ◌≡◌, refl, Bool, true, false, Option, none, [], ◌||◌, arith, ◌⊎◌, inl, inr, Bool-cases, subst,
  sym,
}
use meshtastic_matrix_relay.Reconnect.State.{Ble, Session, EventLoop}
use meshtastic_matrix_relay.Reconnect.Loss.{
  is_stale, is_pending, clear_future, clear_stale_ble_future, schedule_reconnect, give_up,
  on_lost_meshtastic_connection,
}

abbrev pub is_ignored : Option ℕ → Session → Bool
is_ignored i s = s.shutting_down || is_stale i s || s.reconnecting

abbrev pub takes_coroutine : EventLoop → Bool
takes_coroutine EventLoop.running = true
takes_coroutine EventLoop.refusing = false
takes_coroutine EventLoop.unavailable = false

pub record GaveUp (loop : EventLoop) (s : Session) : Type 0 where
  pub no_client : s.meshtastic_client ≡ none
  pub no_client_id : s.relay_active_client_id ≡ none
  pub no_probe : s.probe_timer ≡ false
  pub no_attempt : is_pending s.ble ≡ false
  pub flagged : s.reconnecting ≡ takes_coroutine loop

clear-settled : (b : Ble) → is_pending (clear_stale_ble_future b) ≡ false
unfolding clear_stale_ble_future clear_future
clear-settled b = ground arith

schedule-GaveUp :
    (loop : EventLoop) (s : Session)
    → s.meshtastic_client ≡ none
    → s.relay_active_client_id ≡ none
    → s.probe_timer ≡ false
    → is_pending s.ble ≡ false
    → GaveUp loop (schedule_reconnect loop s).0
unfolding schedule_reconnect
schedule-GaveUp EventLoop.running s a b c d = record {
  no_client = a;
  no_client_id = b;
  no_probe = c;
  no_attempt = d;
  flagged = refl;
}
schedule-GaveUp EventLoop.refusing s a b c d = record {
  no_client = a;
  no_client_id = b;
  no_probe = c;
  no_attempt = d;
  flagged = refl;
}
schedule-GaveUp EventLoop.unavailable s a b c d = record {
  no_client = a;
  no_client_id = b;
  no_probe = c;
  no_attempt = d;
  flagged = refl;
}

give_up-GaveUp : (loop : EventLoop) (s : Session) → GaveUp loop (give_up loop s).0
unfolding give_up
give_up-GaveUp loop s = schedule-GaveUp loop _ refl refl refl (clear-settled s.ble)

on_lost-taken :
    (i : Option ℕ) (loop : EventLoop) (s : Session)
    → is_ignored i s ≡ false
    → on_lost_meshtastic_connection i loop s ≡ give_up loop s
unfolding on_lost_meshtastic_connection
on_lost-taken i loop s h = ground arith

on_lost-ignored :
    (i : Option ℕ) (loop : EventLoop) (s : Session)
    → is_ignored i s ≡ true
    → on_lost_meshtastic_connection i loop s ≡ (s, [])
unfolding on_lost_meshtastic_connection
on_lost-ignored i loop s h = ground arith

-- A lost connection changes nothing and makes no call during a shutdown, from an interface that is not
-- the active one, or while a reconnection is under way. Otherwise no client, no client id, no pending
-- probe and no unfinished attempt over BLE is left, and `reconnecting` is set exactly if the event
-- loop took the coroutine.
pub on_lost-GaveUp :
    (i : Option ℕ) (loop : EventLoop) (s : Session)
    → ((is_ignored i s ≡ true) × (on_lost_meshtastic_connection i loop s ≡ (s, [])))
      ⊎ ((is_ignored i s ≡ false) × GaveUp loop (on_lost_meshtastic_connection i loop s).0)
on_lost-GaveUp i loop s = elim (Bool-cases (is_ignored i s)) [
  | inl h ↦ inl (h, on_lost-ignored i loop s h)
  | inr h ↦
      inr (h, subst (λ r. GaveUp loop r.0) (sym (on_lost-taken i loop s h)) (give_up-GaveUp loop s))
]
