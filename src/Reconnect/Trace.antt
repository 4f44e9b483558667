-- ===== src/Reconnect/Trace.antt =====
-- Lost connections, the coroutines that they schedule and the other threads, in any order.
use meshtastic_matrix_relay.Base.{
  ℕ, zero, suc, ◌≡◌, Bool, true, false, Option, List, [], ◌∷◌, ◌++◌, ◌⊎◌, if◌then◌else◌,
}
use meshtastic_matrix_relay.Reconnect.State.{Session, EventLoop, Act}
use meshtastic_matrix_relay.Reconnect.Loss.{on_lost_meshtastic_connection}
use meshtastic_matrix_relay.Reconnect.Loop.{Point, Wake, reconnect}

pub record System : Type 0 where
  pub session : Session
  pub coroutines : List Point

-- What a shutdown, a new connection and other threads write: all but `reconnecting`.
pub data Event : Type 0 where
  loses : Option ℕ → EventLoop → Event
  resumes : Bool → ℕ → Wake → Event
  writes : Session → Event

abbrev pub is_scheduled : List Act → Bool
is_scheduled [] = false
is_scheduled (Act.schedule_reconnect ∷ l) = true
is_scheduled (_ ∷ l) = is_scheduled l

-- A coroutine that has returned is gone.
abbrev pub keep : Point → List Point → List Point
keep Point.ended l = l
keep p l = p ∷ l

-- The turn of one of the coroutines.
unfoldable pub resume : Bool → ℕ → Wake → Session → List Point → Session × List Point
resume is_service n w s [] = (s, [])
resume is_service zero w s (p ∷ l) = let (s', q) = reconnect is_service w s p in (s', keep q l)
resume is_service (suc n) w s (p ∷ l) = let (s', l') = resume is_service n w s l in (s', p ∷ l')

unfoldable pub step : Event → System → System
unfolding on_lost_meshtastic_connection
step (loses i loop) y =
    let (s, acts) = on_lost_meshtastic_connection i loop y.session in
    record {
      session = s;
      coroutines = y.coroutines ++ (if is_scheduled acts then Point.scheduled ∷ [] else []);
    }
step (resumes is_service n w) y =
    let (s, l) = resume is_service n w y.session y.coroutines in
    record { session = s; coroutines = l }
step (writes s) y = record y { session = record s { reconnecting = y.session.reconnecting } }

unfoldable pub run : List Event → System → System
run [] y = y
run (e ∷ l) y = run l (step e y)

-- There is no coroutine, or there is one and the flag is up.
abbrev pub IsSingle : System → Type 0
IsSingle y =
    (y.coroutines ≡ []) ⊎ ((p : Point) × (y.coroutines ≡ p ∷ []) × (y.session.reconnecting ≡ true))
