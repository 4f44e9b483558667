-- ===== src/Queue/Account.antt =====
-- The bound and the count of drops, over every interleaving.
use meshtastic_matrix_relay.Base.{
  ◌+◌, ◌≤◌, ◌≡◌, refl, Option, none, some, List, [], ◌∷◌, ◌++◌, arith, length,
}
use meshtastic_matrix_relay.Queue.State.{QueuedMessage, MessageQueue, max_queue_size}
use meshtastic_matrix_relay.Queue.Lifecycle.{
  StopCall, ensure_processor_started, on_task_done, on_executor_shutdown, stop, mark_stop_failed,
}
use meshtastic_matrix_relay.Queue.Enqueue.{
  Answer, accepted, refused, dropped, waits, enqueue_locked, enqueue_retry,
}
use meshtastic_matrix_relay.Queue.Processor.{
  Env, Outcome, Turn, Fate, Point, loop_head, error_wait, rate_wait, sending, storing, finished,
  run_loop, after_rate_wait, after_send, after_storing, on_cancelled, on_cancelled_in_error,
}
use meshtastic_matrix_relay.Queue.Frame.{
  Untouched, ensure-Untouched, start-Untouched, reset-Untouched, finalize-Untouched,
  finish_task-Untouched, stop-Untouched, Answers, enqueue_locked-Answers, enqueue_retry-Answers,
}
use meshtastic_matrix_relay.Queue.Bounds.{
  count_no_room, count_no_room-append, Keeps, run_loop-Keeps, after_rate_wait-Keeps,
  after_send-Keeps, after_storing-Keeps, on_cancelled-Keeps, on_cancelled_in_error-Keeps,
}
use meshtastic_matrix_relay.Queue.Trace.{
  System, Event, initial, update, admit, depart, take_turn, wake, complete, store, cancel,
  begin_stop, step, run,
}

-- The queue is within its limit, and its counter is the number of calls that found it full and of
-- messages that could not be put back.
pub record IsCounted (s : System) : Type 0 where
  pub bounded : length s.queue.queue ≤ max_queue_size
  pub counted : s.queue.dropped_messages ≡ s.turned_away + count_no_room s.left

take_turn-IsCounted :
    (t : Turn) (s : System) → Keeps s.queue t → IsCounted s → IsCounted (take_turn t s)
unfolding take_turn
take_turn-IsCounted t s k h = record {
  bounded = k.bounded;
  counted = omega (arith, k.counted, h.counted, count_no_room-append s.left t.leaves);
}

count_no_room-depart :
    (left : List (QueuedMessage × Fate)) (c : Option QueuedMessage)
    → count_no_room (left ++ depart c) ≡ count_no_room left
count_no_room-depart left none = omega (arith, count_no_room-append left [])
count_no_room-depart left (some m) = omega (arith, count_no_room-append left (depart (some m)))

update-IsCounted :
    (q : MessageQueue) (s : System) → Untouched s.queue q → IsCounted s → IsCounted (update q s)
unfolding update
update-IsCounted q s u h = ground (arith, count_no_room-depart s.left s.current)

set-IsCounted :
    (q : MessageQueue) (s : System)
    → Untouched s.queue q
    → IsCounted s
    → IsCounted (record s { queue = q })
set-IsCounted q s u h = ground arith

admit-IsCounted :
    (m : QueuedMessage) (r : MessageQueue × Answer) (s : System)
    → Answers m s.queue r
    → IsCounted s
    → IsCounted (admit m r s)
admit-IsCounted m (q, accepted) s a h = record {
  bounded = a.2;
  counted = omega (arith, a.1, h.counted);
}
admit-IsCounted m (q, refused) s a h = set-IsCounted q s a h
admit-IsCounted m (q, dropped) s a h = ground arith
admit-IsCounted m (q, waits) s a h = set-IsCounted q s a h

wake-IsCounted :
    (env : Env) (p : Point) (c : Option QueuedMessage) (s : System)
    → IsCounted s
    → IsCounted (wake env p c s)
unfolding wake
wake-IsCounted env loop_head c s h =
    take_turn-IsCounted (run_loop env s.queue c) s (run_loop-Keeps env s.queue c h.bounded) h
wake-IsCounted env error_wait c s h =
    take_turn-IsCounted (run_loop env s.queue c) s (run_loop-Keeps env s.queue c h.bounded) h
wake-IsCounted env (rate_wait w) none s h = h
wake-IsCounted env (rate_wait w) (some m) s h =
    take_turn-IsCounted (after_rate_wait env s.queue m) s
      (after_rate_wait-Keeps env s.queue m h.bounded) h
wake-IsCounted env sending c s h = h
wake-IsCounted env (storing i f) c s h = h
wake-IsCounted env finished c s h = h

complete-IsCounted :
    (env : Env) (o : Outcome) (p : Point) (c : Option QueuedMessage) (s : System)
    → IsCounted s
    → IsCounted (complete env o p c s)
unfolding complete
complete-IsCounted env o sending none s h = h
complete-IsCounted env o sending (some m) s h =
    take_turn-IsCounted (after_send env o s.queue m) s (after_send-Keeps env o s.queue m h.bounded)
      h
complete-IsCounted env o _ c s h = h

store-IsCounted :
    (p : Point) (c : Option QueuedMessage) (s : System) → IsCounted s → IsCounted (store p c s)
unfolding store
store-IsCounted (storing id info) none s h = h
store-IsCounted (storing id info) (some m) s h =
    take_turn-IsCounted (after_storing id info s.queue m) s
      (after_storing-Keeps id info s.queue m h.bounded) h
store-IsCounted _ c s h = h

cancel-IsCounted : (p : Point) (s : System) → IsCounted s → IsCounted (cancel p s)
unfolding cancel
cancel-IsCounted finished s h = h
cancel-IsCounted error_wait s h =
    take_turn-IsCounted (on_cancelled_in_error s.queue s.current) s
      (on_cancelled_in_error-Keeps s.queue s.current h.bounded) h
cancel-IsCounted _ s h =
    take_turn-IsCounted (on_cancelled s.queue s.current) s
      (on_cancelled-Keeps s.queue s.current h.bounded) h

begin_stop-IsCounted :
    (r : Option (StopCall × MessageQueue)) (s : System)
    → ((c : StopCall × MessageQueue) → r ≡ some c → Untouched s.queue c.1)
    → IsCounted s
    → IsCounted (begin_stop r s)
unfolding begin_stop
begin_stop-IsCounted none s e h = h
begin_stop-IsCounted (some (c, q)) s e h = set-IsCounted q s (e (c, q) refl) h

step-IsCounted : (s : System) (e : Event) → IsCounted s → IsCounted (step s e)
unfolding step mark_stop_failed on_task_done on_executor_shutdown
step-IsCounted s (Event.enqueues loop wait timeout now m) h =
    let s' = update (ensure_processor_started loop s.queue) s in
    admit-IsCounted m (enqueue_locked wait timeout now m s'.queue) s'
      (enqueue_locked-Answers wait timeout now m s'.queue)
      (update-IsCounted (ensure_processor_started loop s.queue) s (ensure-Untouched loop s.queue) h)
step-IsCounted s (Event.retries timeout begun now m) h =
    admit-IsCounted m (enqueue_retry timeout begun now m s.queue) s
      (enqueue_retry-Answers timeout begun now m s.queue) h
step-IsCounted s (Event.starts loop delay) h =
    update-IsCounted _ s (start-Untouched loop delay s.queue) h
step-IsCounted s (Event.ensures loop) h = update-IsCounted _ s (ensure-Untouched loop s.queue) h
step-IsCounted s Event.resets h = set-IsCounted _ s (reset-Untouched s.queue) h
step-IsCounted s (Event.begins_stop w b) h =
    begin_stop-IsCounted (stop w b s.queue) s (stop-Untouched w b s.queue) h
step-IsCounted s (Event.ends_task c) h = set-IsCounted _ s (finalize-Untouched _ s.queue) h
step-IsCounted s (Event.ends_executor c) h = set-IsCounted _ s (finalize-Untouched _ s.queue) h
step-IsCounted s Event.times_out h = record { bounded = h.bounded; counted = h.counted }
step-IsCounted s (Event.wakes env) h = wake-IsCounted env s.point s.current s h
step-IsCounted s (Event.completes env o) h = complete-IsCounted env o s.point s.current s h
step-IsCounted s Event.stores h = store-IsCounted s.point s.current s h
step-IsCounted s Event.cancels h = cancel-IsCounted s.point s h
step-IsCounted s Event.finishes h = set-IsCounted _ s (finish_task-Untouched s.point s.queue) h

run-IsCounted_from : (s : System) (es : List Event) → IsCounted s → IsCounted (run s es)
unfolding run
run-IsCounted_from s [] h = h
run-IsCounted_from s (e ∷ es) h = run-IsCounted_from (step s e) es (step-IsCounted s e h)

-- For every sequence of events from a new queue: at most 500 messages wait, and `dropped_messages`
-- is the number of calls of `enqueue` that were answered that the queue is full, and of messages
-- that the coroutine could not put back.
pub run-IsCounted : (es : List Event) → IsCounted (run initial es)
run-IsCounted es =
    run-IsCounted_from initial es (record { bounded = omega arith; counted = omega arith })
