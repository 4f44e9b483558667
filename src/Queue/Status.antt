-- ===== src/Queue/Status.antt =====
-- src/mmrelay/message_queue.py: `get_status` and `drain`.
use meshtastic_matrix_relay.Base.{
  ℕ, ◌-◌, Bool, true, false, not, Option, none, some, List, [], ◌∷◌, ltb, ◌||◌, if◌then◌else◌,
}
use meshtastic_matrix_relay.Queue.State.{
  QueuedMessage, MessageQueue, task_active, get_queue_size, default_msgs_to_keep,
}

pub record Status : Type 0 where
  pub running : Bool
  pub queue_size : ℕ
  pub message_delay : ℕ
  pub stop_failed : Bool
  pub processor_task_active : Bool
  pub last_send_time : ℕ
  pub time_since_last_send : Option ℕ
  pub in_flight : Bool
  pub dropped_messages : ℕ
  pub default_msgs_to_keep : ℕ

unfoldable pub get_status : ℕ → MessageQueue → Status
get_status monotonic q = record {
  running = q.running;
  queue_size = get_queue_size q;
  message_delay = q.message_delay;
  stop_failed = q.stop_failed;
  processor_task_active = task_active q;
  last_send_time = q.last_send_time;
  time_since_last_send =
      if ltb 0 q.last_send_mono then some (monotonic - q.last_send_mono) else none;
  in_flight = q.in_flight;
  dropped_messages = q.dropped_messages;
  default_msgs_to_keep = default_msgs_to_keep;
}

abbrev is_nonempty : List QueuedMessage → Bool
is_nonempty [] = false
is_nonempty (_ ∷ _) = true

-- `self._queue or self._in_flight or self._has_current`
abbrev pub is_busy : MessageQueue → Bool
is_busy q = is_nonempty q.queue || q.in_flight || q.has_current

abbrev past : Option ℕ → ℕ → Bool
past none now = false
past (some deadline) now = ltb deadline now

-- `drain` looks at the queue every tenth of a second: what it sees and when, look by look. `none`:
-- after the last look it still waits.
unfoldable pub drain : Option ℕ → List (MessageQueue × ℕ) → Option Bool
drain deadline [] = none
drain deadline ((q, now) ∷ looks) =
    let rest = drain deadline looks in
    if is_busy q
    then (if not q.running then some false else if past deadline now then some false else rest)
    else some true
