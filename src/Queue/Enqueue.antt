-- ===== src/Queue/Enqueue.antt =====
-- src/mmrelay/message_queue.py: `enqueue` and `_requeue_message`.
use meshtastic_matrix_relay.Base.{
  ℕ, ◌+◌, ◌-◌, Bool, true, false, not, Option, none, some, [], ◌∷◌, ◌++◌, length, leb, ◌||◌,
  if◌then◌else◌,
}
use meshtastic_matrix_relay.Queue.State.{
  QueuedMessage, MessageQueue, max_queue_size, queue_full_log_interval,
}
use meshtastic_matrix_relay.Queue.Lifecycle.{
  clear_failed_stop_state_if_recovered_locked, ensure_processor_started,
}

-- `waits`: the caller sleeps with the lock released and comes back by `enqueue_retry`.
pub data Answer : Type 0 where
  accepted refused dropped waits : Answer

-- `elapsed >= timeout`, where there is a timeout
abbrev timed_out : Option ℕ → ℕ → Bool
timed_out none elapsed = false
timed_out (some timeout) elapsed = leb timeout elapsed

-- The warning that the queue is full comes at most every five seconds.
abbrev note_full : ℕ → MessageQueue → MessageQueue
note_full now q = elim q.last_queue_full_log_time [
  | none ↦ record q { last_queue_full_log_time = some now }
  | some t ↦
      if leb queue_full_log_interval (now - t)
      then record q { last_queue_full_log_time = some now }
      else q
]

abbrev count_drop : MessageQueue → MessageQueue
count_drop q = record q { dropped_messages = q.dropped_messages + 1 }

-- One round of the loop in `enqueue`, begun at `start` and now at `now`.
unfoldable pub try_append :
    Bool → Option ℕ → ℕ → ℕ → QueuedMessage → MessageQueue → MessageQueue × Answer
try_append wait timeout start now message q =
    if leb max_queue_size (length q.queue)
    then (if wait
        then (if timed_out timeout (now - start)
            then (count_drop q, dropped)
            else (note_full now q, waits))
        else (count_drop q, dropped))
    else (record q { queue = q.queue ++ message ∷ []; last_queue_full_log_time = none }, accepted)

enqueue_recovered : Bool → Option ℕ → ℕ → QueuedMessage → MessageQueue → MessageQueue × Answer
unfolding try_append
enqueue_recovered wait timeout now message q =
    if q.stop_failed
    then (q, refused)
    else if not q.running || q.stopping
    then (q, refused)
    else try_append wait timeout now now message q

-- `enqueue` under the lock, up to its answer or its first sleep
unfoldable pub enqueue_locked :
    Bool → Option ℕ → ℕ → QueuedMessage → MessageQueue → MessageQueue × Answer
unfolding enqueue_recovered
enqueue_locked wait timeout now message q =
    enqueue_recovered wait timeout now message (clear_failed_stop_state_if_recovered_locked q).0

-- `enqueue`, when no other thread comes between its two sections
unfoldable pub enqueue :
    Bool → Bool → Option ℕ → ℕ → QueuedMessage → MessageQueue → MessageQueue × Answer
unfolding enqueue_locked
enqueue loop_running wait timeout now message q =
    enqueue_locked wait timeout now message (ensure_processor_started loop_running q)

-- `enqueue` with `wait`, behind a sleep
unfoldable pub enqueue_retry :
    Option ℕ → ℕ → ℕ → QueuedMessage → MessageQueue → MessageQueue × Answer
unfolding try_append
enqueue_retry timeout start now message q =
    if not q.running || q.stopping
    then (q, refused)
    else try_append true timeout start now message q

unfoldable pub requeue_message : QueuedMessage → MessageQueue → MessageQueue × Bool
requeue_message message q =
    if leb max_queue_size (length q.queue)
    then (count_drop q, false)
    else (record q { queue = message ∷ q.queue }, true)
