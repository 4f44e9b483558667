-- ===== src/Queue/Fifo.antt =====
-- First in, first out, over every interleaving of callers, coroutine and threads.
use meshtastic_matrix_relay.Base.{
  ◌≡◌, refl, Option, none, some, List, [], ◌∷◌, ◌++◌, append_assoc, append-nil, arith, to_list,
}
use meshtastic_matrix_relay.Queue.State.{QueuedMessage, MessageQueue}
use meshtastic_matrix_relay.Queue.Lifecycle.{
  StopCall, ensure_processor_started, on_task_done, on_executor_shutdown, stop, mark_stop_failed,
}
use meshtastic_matrix_relay.Queue.Enqueue.{
  Answer, accepted, refused, dropped, waits, enqueue_locked, enqueue_retry,
}
use meshtastic_matrix_relay.Queue.Processor.{
  Fate, Env, Outcome, Turn, Point, loop_head, error_wait, rate_wait, sending, storing, finished,
  run_loop, after_rate_wait, after_send, after_storing, on_cancelled, on_cancelled_in_error,
}
use meshtastic_matrix_relay.Queue.Order.{
  messages, messages-append, Conserves, run_loop-Conserves, after_rate_wait-Conserves,
  after_send-Conserves, after_storing-Conserves, on_cancelled-Conserves,
  on_cancelled_in_error-Conserves,
}
use meshtastic_matrix_relay.Queue.Frame.{
  Untouched, ensure-Untouched, start-Untouched, reset-Untouched, finalize-Untouched,
  finish_task-Untouched, stop-Untouched, Answers, enqueue_locked-Answers, enqueue_retry-Answers,
}
use meshtastic_matrix_relay.Queue.Trace.{
  depart, System, Event, initial, update, admit, take_turn, wake, complete, store, cancel,
  begin_stop, step, run,
}

-- The messages that have left, the one at hand and those that wait, in this order, are those that
-- were accepted.
abbrev pub IsOrdered : System → Type 0
IsOrdered s = messages s.left ++ (to_list s.current ++ s.queue.queue) ≡ s.admitted

take_turn-IsOrdered :
    (t : Turn) (s : System)
    → Conserves (to_list s.current ++ s.queue.queue) t
    → IsOrdered s
    → IsOrdered (take_turn t s)
unfolding take_turn
take_turn-IsOrdered t s c h = rw (messages-append s.left t.leaves, append_assoc, c) h

messages-depart :
    (left : List (QueuedMessage × Fate)) (c : Option QueuedMessage) (l : List QueuedMessage)
    → messages (left ++ depart c) ++ l ≡ messages left ++ (to_list c ++ l)
messages-depart left none l = rw (append-nil left)
messages-depart left (some m) l = simp (messages-append, append_assoc)

-- A section that leaves the messages alone.
update-IsOrdered :
    (q : MessageQueue) (s : System) → q.queue ≡ s.queue.queue → IsOrdered s → IsOrdered (update q s)
unfolding update
update-IsOrdered q s e h = ground (arith, messages-depart s.left s.current q.queue)

admit-IsOrdered :
    (m : QueuedMessage) (r : MessageQueue × Answer) (s : System)
    → Answers m s.queue r
    → IsOrdered s
    → IsOrdered (admit m r s)
admit-IsOrdered m (q, accepted) s a h = simp (a.0, ← h, append_assoc)
admit-IsOrdered m (q, refused) s a h = rw a.same_queue h
admit-IsOrdered m (q, dropped) s a h = rw a.0 h
admit-IsOrdered m (q, waits) s a h = rw a.same_queue h

wake-IsOrdered :
    (env : Env) (p : Point) (c : Option QueuedMessage) (s : System)
    → s.current ≡ c
    → IsOrdered s
    → IsOrdered (wake env p c s)
unfolding wake
wake-IsOrdered env loop_head c s e h =
    take_turn-IsOrdered (run_loop env s.queue c) s (rw e (run_loop-Conserves env s.queue c)) h
wake-IsOrdered env error_wait c s e h =
    take_turn-IsOrdered (run_loop env s.queue c) s (rw e (run_loop-Conserves env s.queue c)) h
wake-IsOrdered env (rate_wait w) none s e h = h
wake-IsOrdered env (rate_wait w) (some m) s e h =
    take_turn-IsOrdered (after_rate_wait env s.queue m) s
      (rw e (after_rate_wait-Conserves env s.queue m)) h
wake-IsOrdered env sending c s e h = h
wake-IsOrdered env (storing i f) c s e h = h
wake-IsOrdered env finished c s e h = h

complete-IsOrdered :
    (env : Env) (o : Outcome) (p : Point) (c : Option QueuedMessage) (s : System)
    → s.current ≡ c
    → IsOrdered s
    → IsOrdered (complete env o p c s)
unfolding complete
complete-IsOrdered env o sending none s e h = h
complete-IsOrdered env o sending (some m) s e h =
    take_turn-IsOrdered (after_send env o s.queue m) s (rw e (after_send-Conserves env o s.queue m))
      h
complete-IsOrdered env o _ c s e h = h

store-IsOrdered :
    (p : Point) (c : Option QueuedMessage) (s : System)
    → s.current ≡ c
    → IsOrdered s
    → IsOrdered (store p c s)
unfolding store
store-IsOrdered (storing id info) none s e h = h
store-IsOrdered (storing id info) (some m) s e h =
    take_turn-IsOrdered (after_storing id info s.queue m) s
      (rw e (after_storing-Conserves id info s.queue m)) h
store-IsOrdered _ c s e h = h

cancel-IsOrdered : (p : Point) (s : System) → IsOrdered s → IsOrdered (cancel p s)
unfolding cancel
cancel-IsOrdered finished s h = h
cancel-IsOrdered error_wait s h =
    take_turn-IsOrdered (on_cancelled_in_error s.queue s.current) s
      (on_cancelled_in_error-Conserves s.queue s.current) h
cancel-IsOrdered _ s h =
    take_turn-IsOrdered (on_cancelled s.queue s.current) s
      (on_cancelled-Conserves s.queue s.current) h

begin_stop-IsOrdered :
    (r : Option (StopCall × MessageQueue)) (s : System)
    → ((c : StopCall × MessageQueue) → r ≡ some c → Untouched s.queue c.1)
    → IsOrdered s
    → IsOrdered (begin_stop r s)
unfolding begin_stop
begin_stop-IsOrdered none s e h = h
begin_stop-IsOrdered (some (c, q)) s e h = rw (e (c, q) refl).same_queue h

queue-update : (q : MessageQueue) (s : System) → (update q s).queue ≡ q
unfolding update
queue-update q s = ground arith

step-IsOrdered : (s : System) (e : Event) → IsOrdered s → IsOrdered (step s e)
unfolding step mark_stop_failed on_task_done on_executor_shutdown
step-IsOrdered s (Event.enqueues loop wait timeout now m) h =
    let s' = update (ensure_processor_started loop s.queue) s in
    admit-IsOrdered m (enqueue_locked wait timeout now m s'.queue) s'
      (enqueue_locked-Answers wait timeout now m s'.queue)
      (update-IsOrdered (ensure_processor_started loop s.queue) s
        (ensure-Untouched loop s.queue).same_queue h)
step-IsOrdered s (Event.retries timeout begun now m) h =
    admit-IsOrdered m (enqueue_retry timeout begun now m s.queue) s
      (enqueue_retry-Answers timeout begun now m s.queue) h
step-IsOrdered s (Event.starts loop delay) h =
    update-IsOrdered _ s (start-Untouched loop delay s.queue).same_queue h
step-IsOrdered s (Event.ensures loop) h =
    update-IsOrdered _ s (ensure-Untouched loop s.queue).same_queue h
step-IsOrdered s Event.resets h = rw (reset-Untouched s.queue).same_queue h
step-IsOrdered s (Event.begins_stop w b) h =
    begin_stop-IsOrdered (stop w b s.queue) s (stop-Untouched w b s.queue) h
step-IsOrdered s (Event.ends_task c) h = rw (finalize-Untouched _ s.queue).same_queue h
step-IsOrdered s (Event.ends_executor c) h = rw (finalize-Untouched _ s.queue).same_queue h
step-IsOrdered s Event.times_out h = h
step-IsOrdered s (Event.wakes env) h = wake-IsOrdered env s.point s.current s refl h
step-IsOrdered s (Event.completes env o) h = complete-IsOrdered env o s.point s.current s refl h
step-IsOrdered s Event.stores h = store-IsOrdered s.point s.current s refl h
step-IsOrdered s Event.cancels h = cancel-IsOrdered s.point s h
step-IsOrdered s Event.finishes h = rw (finish_task-Untouched s.point s.queue).same_queue h

run-IsOrdered_from : (s : System) (es : List Event) → IsOrdered s → IsOrdered (run s es)
unfolding run
run-IsOrdered_from s [] h = h
run-IsOrdered_from s (e ∷ es) h = run-IsOrdered_from (step s e) es (step-IsOrdered s e h)

-- For every sequence of events from a new queue: the messages that have left for good, in the order
-- in which they left, then the one at hand, then those that wait, are exactly the messages that
-- `enqueue` accepted, in the order of their acceptance.
pub run-IsOrdered : (es : List Event) → IsOrdered (run initial es)
run-IsOrdered es = run-IsOrdered_from initial es refl
