-- ===== src/Health/Skew.antt =====
-- src/mmrelay/meshtastic/health.py: `_seed_connect_time_skew`.
use meshtastic_matrix_relay.Base.{
  ℕ, ◌-◌, ◌==◌, Bool, true, false, not, Option, none, some, is_some, ltb, leb, ◌&&◌, ◌||◌, ℤ, pos,
  negsuc, sub_ℕ, abs, if◌then◌else◌,
}
use meshtastic_matrix_relay.Py.{Value, float_of}

-- RX_TIME_SKEW_BOOTSTRAP_WINDOW_SECS, RX_TIME_SKEW_BOOTSTRAP_MAX_SKEW_SECS
abbrev pub bootstrap_window : ℕ
bootstrap_window = 180000

abbrev pub bootstrap_max_skew : ℕ
bootstrap_max_skew = 172800000

-- The clock state that the relay keeps under `_relay_rx_time_clock_skew_lock`. Monotonic times but
-- for `relay_start_time`.
pub record Clock : Type 0 where
  pub skew : Option ℤ
  pub relay_start_time : ℕ
  pub connection_started : ℕ
  pub drain_deadline : Option ℕ
  pub reconnect_deadline : Option ℕ

-- `float(packet.get("rxTime", 0))`, 0 where that raises. What is below 0 counts as 0: the code only
-- uses a time that is positive.
abbrev pub positive_part : ℤ → ℕ
positive_part (pos n) = n
positive_part (negsuc _) = 0

unfoldable pub rx_time_of : Value → ℕ
rx_time_of v = elim (float_of v) [ none ↦ 0 | some z ↦ positive_part z ]

-- `deadline is not None and deadline >= now`
abbrev pub still_open : Option ℕ → ℕ → Bool
still_open none now = false
still_open (some deadline) now = leb now deadline

-- A reconnect deadline that has passed is cleared.
abbrev expire_reconnect : ℕ → Clock → Clock
expire_reconnect now c =
    if still_open c.reconnect_deadline now then c else record c { reconnect_deadline = none }

-- Whether a packet may calibrate: one from after the start always, an earlier one while the
-- connection is young and the drain or the reconnect allowance is open.
abbrev pub may_calibrate : ℕ → ℕ → Clock → Bool
may_calibrate now rx_time c =
    leb c.relay_start_time rx_time
    || leb (now - c.connection_started) bootstrap_window
      && (is_some c.drain_deadline || still_open c.reconnect_deadline now)

-- The skew is set; an earlier packet outside the drain uses up the reconnect allowance.
abbrev calibrate : ℕ → ℕ → ℤ → Clock → Clock
calibrate now rx_time observed c = record c {
  skew = some observed;
  reconnect_deadline =
      if not (leb c.relay_start_time rx_time)
        && not (is_some c.drain_deadline)
        && still_open c.reconnect_deadline now
      then none
      else c.reconnect_deadline;
}

seed_open : ℕ → ℕ → ℕ → Clock → Clock × Bool
seed_open now_wall now rx_time c =
    let observed = sub_ℕ now_wall rx_time in
    if not (may_calibrate now rx_time c)
    then (expire_reconnect now c, false)
    else if ltb bootstrap_max_skew (abs observed)
    then (expire_reconnect now c, false)
    else (calibrate now rx_time observed (expire_reconnect now c), true)

-- The clock afterwards, and whether this packet calibrated it.
unfoldable pub seed_connect_time_skew : ℕ → ℕ → ℕ → Clock → Clock × Bool
unfolding seed_open
seed_connect_time_skew now_wall now rx_time c =
    if rx_time == 0 || is_some c.skew then (c, false) else seed_open now_wall now rx_time c
