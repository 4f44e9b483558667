-- ===== src/Queue/Frame.antt =====
-- What the sections of the object's code leave alone, and what an answer of `enqueue` means.
use meshtastic_matrix_relay.Base.{
  ℕ, ◌+◌, ◌≤◌, ◌≡◌, refl, Bool, true, Option, some, [], ◌∷◌, ◌++◌, arith, length, length-append,
}
use meshtastic_matrix_relay.Queue.State.{QueuedMessage, MessageQueue, max_queue_size}
use meshtastic_matrix_relay.Queue.Lifecycle.{
  StopCall, TaskLoop, clear_failed_stop_state_if_recovered_locked, start, ensure_processor_started,
  reset_failed_stop_state, finalize_stop_state, on_task_done, stop,
}
use meshtastic_matrix_relay.Queue.Enqueue.{
  Answer, accepted, refused, dropped, waits, try_append, enqueue_locked, enqueue_retry,
}
use meshtastic_matrix_relay.Queue.Processor.{Point, finished}
use meshtastic_matrix_relay.Queue.Trace.{finish_task}

-- The messages and their count of drops.
pub record Untouched (q q' : MessageQueue) : Type 0 where
  pub same_queue : q'.queue ≡ q.queue
  pub same_drops : q'.dropped_messages ≡ q.dropped_messages

pub clear-Untouched :
    (q : MessageQueue) → Untouched q (clear_failed_stop_state_if_recovered_locked q).0
unfolding clear_failed_stop_state_if_recovered_locked
clear-Untouched q = ground arith

pub ensure-Untouched :
    (loop : Bool) (q : MessageQueue) → Untouched q (ensure_processor_started loop q)
unfolding ensure_processor_started
ensure-Untouched loop q = ground arith

pub start-Untouched :
    (loop : Bool) (delay : ℕ) (q : MessageQueue) → Untouched q (start loop delay q).0
unfolding start
start-Untouched loop delay q = ground (arith, clear-Untouched q)

pub reset-Untouched : (q : MessageQueue) → Untouched q (reset_failed_stop_state q).0
unfolding reset_failed_stop_state
reset-Untouched q = ground (arith, clear-Untouched q)

pub finalize-Untouched : (c : StopCall) (q : MessageQueue) → Untouched q (finalize_stop_state c q)
unfolding finalize_stop_state clear_failed_stop_state_if_recovered_locked
finalize-Untouched c q = ground arith

pub stop-Untouched :
    (w : TaskLoop) (b : Bool) (q : MessageQueue) (r : StopCall × MessageQueue)
    → stop w b q ≡ some r
    → Untouched q r.1
unfolding stop on_task_done
stop-Untouched w b q r e = grind (arith, finalize-Untouched)

-- An accepted message goes to the end, where there is room; a message that is dropped is counted;
-- any other answer leaves both alone.
abbrev pub Answers : QueuedMessage → MessageQueue → MessageQueue × Answer → Type 0
Answers m q (q', accepted) =
    (q'.queue ≡ q.queue ++ m ∷ [])
    × (q'.dropped_messages ≡ q.dropped_messages)
    × (length q'.queue ≤ max_queue_size)
Answers m q (q', refused) = Untouched q q'
Answers m q (q', dropped) = (q'.queue ≡ q.queue) × (q'.dropped_messages ≡ q.dropped_messages + 1)
Answers m q (q', waits) = Untouched q q'

try_append-Answers :
    (wait : Bool) (timeout : Option ℕ) (begun now : ℕ) (m : QueuedMessage) (q : MessageQueue)
    → Answers m q (try_append wait timeout begun now m q)
unfolding try_append
try_append-Answers wait timeout begun now m q = ground (arith, length-append q.queue (m ∷ []))

pub enqueue_locked-Answers :
    (wait : Bool) (timeout : Option ℕ) (now : ℕ) (m : QueuedMessage) (q : MessageQueue)
    → Answers m q (enqueue_locked wait timeout now m q)
unfolding enqueue_locked
enqueue_locked-Answers wait timeout now m q =
    let q' = (clear_failed_stop_state_if_recovered_locked q).0 in
    ground (arith, clear-Untouched q, try_append-Answers wait timeout now now m q')

pub enqueue_retry-Answers :
    (timeout : Option ℕ) (begun now : ℕ) (m : QueuedMessage) (q : MessageQueue)
    → Answers m q (enqueue_retry timeout begun now m q)
unfolding enqueue_retry
enqueue_retry-Answers timeout begun now m q =
    ground (arith, try_append-Answers true timeout begun now m q)

pub finish_task-Untouched : (p : Point) (q : MessageQueue) → Untouched q (finish_task p q)
unfolding finish_task
finish_task-Untouched finished q = record { same_queue = refl; same_drops = refl }
finish_task-Untouched _ q = record { same_queue = refl; same_drops = refl }
