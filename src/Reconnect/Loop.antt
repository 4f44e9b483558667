-- ===== src/Reconnect/Loop.antt =====
-- src/mmrelay/meshtastic/events.py: the coroutine `reconnect`, cut at its awaits. Times are in seconds.
use meshtastic_matrix_relay.Base.{ℕ, zero, suc, ◌*◌, min, Bool, true, false, if◌then◌else◌}
use meshtastic_matrix_relay.Reconnect.State.{Session}

abbrev pub default_backoff_time : ℕ
default_backoff_time = 10

-- Where the coroutine waits: not begun; for the whole backoff; counting it down by seconds, so many
-- left behind the one it sleeps; for `connect_meshtastic`; or it has returned.
pub data Point : Type 0 where
  scheduled : Point
  resting : ℕ → Point
  counting : ℕ → ℕ → Point
  connecting : ℕ → Point
  ended : Point

-- What resumes it: its first turn, the end of a sleep, the answer of `connect_meshtastic`, or a
-- cancellation.
pub data Wake : Type 0 where
  begins slept fails : Wake
  connects : Bool → Wake
  cancels : Wake

-- `finally`
unfoldable pub finish : Session → Session × Point
finish s = (record s { reconnecting = false }, Point.ended)

-- The countdown, of which `left` seconds are left.
unfoldable pub count_down : Session → ℕ → ℕ → Session × Point
unfolding finish
count_down s backoff zero = if s.shutting_down then finish s else (s, Point.connecting backoff)
count_down s backoff (suc left) =
    if s.shutting_down then finish s else (s, Point.counting backoff left)

-- The head of the loop; the countdown is shown where the program is no service.
unfoldable pub begin_attempt : Bool → Session → ℕ → Session × Point
unfolding finish count_down
begin_attempt is_service s backoff =
    if s.shutting_down
    then finish s
    else if is_service
    then (s, Point.resting backoff)
    else count_down s backoff backoff

unfoldable pub next_backoff : ℕ → ℕ
next_backoff backoff = min (backoff * 2) 300

-- Behind an attempt that made no client.
unfoldable pub attempt_again : Bool → Session → ℕ → Session × Point
unfolding finish begin_attempt next_backoff
attempt_again is_service s backoff =
    if s.shutting_down then finish s else begin_attempt is_service s (next_backoff backoff)

-- One turn of `reconnect`, from the await at which it waits to the next.
unfoldable pub reconnect : Bool → Wake → Session → Point → Session × Point
unfolding finish count_down begin_attempt attempt_again
reconnect is_service Wake.begins s Point.scheduled = begin_attempt is_service s default_backoff_time
reconnect is_service Wake.cancels s Point.scheduled = (s, Point.ended)
reconnect is_service Wake.slept s (Point.resting backoff) = count_down s backoff 0
reconnect is_service Wake.slept s (Point.counting backoff left) = count_down s backoff left
reconnect is_service (Wake.connects true) s (Point.connecting backoff) = finish s
reconnect is_service (Wake.connects false) s (Point.connecting backoff) =
    attempt_again is_service s backoff
reconnect is_service Wake.fails s (Point.connecting backoff) = attempt_again is_service s backoff
reconnect is_service Wake.cancels s (Point.resting _) = finish s
reconnect is_service Wake.cancels s (Point.counting _ _) = finish s
reconnect is_service Wake.cancels s (Point.connecting _) = finish s
reconnect is_service _ s p = (s, p)
