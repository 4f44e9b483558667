-- ===== src/Queue/Trace.antt =====
-- The queue of src/mmrelay/message_queue.py in use: its callers, its coroutine, the threads of `stop`
-- and the watchdogs, as a sequence of events. An event carries what its code reads from outside.
-- A call of `stop` may be any, also one that has gone stale.
use meshtastic_matrix_relay.Base.{
  ℕ, ◌+◌, Bool, true, false, Option, none, some, List, [], ◌∷◌, ◌++◌, ◌==◌, if◌then◌else◌,
}
use meshtastic_matrix_relay.Queue.State.{QueuedMessage, MessageQueue, Task, init}
use meshtastic_matrix_relay.Queue.Lifecycle.{
  StopCall, TaskLoop, start, reset_failed_stop_state, mark_stop_failed, on_task_done,
  on_executor_shutdown, stop, ensure_processor_started,
}
use meshtastic_matrix_relay.Queue.Enqueue.{
  Answer, accepted, refused, dropped, waits, enqueue_locked, enqueue_retry,
}
use meshtastic_matrix_relay.Queue.Processor.{
  Env, Outcome, Point, loop_head, error_wait, rate_wait, sending, storing, finished, Fate,
  abandoned, Turn, run_loop, after_rate_wait, after_send, after_storing, on_cancelled,
  on_cancelled_in_error,
}

-- The object and its coroutine; with them the messages that were accepted and those that have left,
-- oldest first, and how many calls of `enqueue` were answered that the queue is full.
pub record System : Type 0 where
  pub queue : MessageQueue
  pub current : Option QueuedMessage
  pub point : Point
  pub admitted : List QueuedMessage
  pub left : List (QueuedMessage × Fate)
  pub turned_away : ℕ

pub data Event : Type 0 where
  enqueues : Bool → Bool → Option ℕ → ℕ → QueuedMessage → Event
  retries : Option ℕ → ℕ → ℕ → QueuedMessage → Event
  starts : Bool → ℕ → Event
  ensures : Bool → Event
  resets : Event
  begins_stop : TaskLoop → Bool → Event
  ends_task ends_executor : StopCall → Event
  times_out : Event
  wakes : Env → Event
  completes : Env → Outcome → Event
  stores : Event
  cancels : Event
  finishes : Event

abbrev pub initial : System
initial = record {
  queue = init;
  current = none;
  point = finished;
  admitted = [];
  left = [];
  turned_away = 0;
}

abbrev is_task : Option Task → Option Task → Bool
is_task none _ = true
is_task (some t) none = false
is_task (some t) (some u) = t.ident == u.ident

abbrev pub depart : Option QueuedMessage → List (QueuedMessage × Fate)
depart none = []
depart (some m) = (m, abandoned) ∷ []

-- A section of the object's code. If it created a task, a coroutine begins, and what an earlier one
-- still held is gone.
unfoldable pub update : MessageQueue → System → System
update q s =
    if is_task q.processor_task s.queue.processor_task then record s { queue = q } else record s {
      queue = q;
      current = none;
      point = loop_head;
      left = s.left ++ depart s.current;
    }

abbrev pub admit : QueuedMessage → MessageQueue × Answer → System → System
admit m (q, accepted) s = record s { queue = q; admitted = s.admitted ++ m ∷ [] }
admit m (q, refused) s = record s { queue = q }
admit m (q, dropped) s = record s { queue = q; turned_away = s.turned_away + 1 }
admit m (q, waits) s = record s { queue = q }

unfoldable pub take_turn : Turn → System → System
take_turn t s = record s {
  queue = t.queue;
  current = t.current;
  point = t.point;
  left = s.left ++ t.leaves;
}

-- The coroutine goes on where its sleep is over.
unfoldable pub wake : Env → Point → Option QueuedMessage → System → System
unfolding take_turn
wake env loop_head current s = take_turn (run_loop env s.queue current) s
wake env error_wait current s = take_turn (run_loop env s.queue current) s
wake env (rate_wait _) (some m) s = take_turn (after_rate_wait env s.queue m) s
wake env _ _ s = s

unfoldable pub complete : Env → Outcome → Point → Option QueuedMessage → System → System
unfolding take_turn
complete env o sending (some m) s = take_turn (after_send env o s.queue m) s
complete env o _ _ s = s

unfoldable pub store : Point → Option QueuedMessage → System → System
unfolding take_turn
store (storing id info) (some m) s = take_turn (after_storing id info s.queue m) s
store _ _ s = s

unfoldable pub cancel : Point → System → System
unfolding take_turn
cancel finished s = s
cancel error_wait s = take_turn (on_cancelled_in_error s.queue s.current) s
cancel _ s = take_turn (on_cancelled s.queue s.current) s

-- The task of a coroutine that has returned is done, wherever `_processor_task` still names it.
unfoldable pub finish_task : Point → MessageQueue → MessageQueue
finish_task finished q = record q {
  processor_task = elim q.processor_task [ none ↦ none | some t ↦ some (record t { done = true }) ];
}
finish_task _ q = q

unfoldable pub begin_stop : Option (StopCall × MessageQueue) → System → System
begin_stop none s = s
begin_stop (some (_, q)) s = record s { queue = q }

unfoldable pub step : System → Event → System
unfolding update wake complete store cancel begin_stop
step s (enqueues loop wait timeout now m) =
    let s' = update (ensure_processor_started loop s.queue) s in
    admit m (enqueue_locked wait timeout now m s'.queue) s'
step s (retries timeout start now m) = admit m (enqueue_retry timeout start now m s.queue) s
step s (starts loop delay) = update (start loop delay s.queue).0 s
step s (ensures loop) = update (ensure_processor_started loop s.queue) s
step s resets = record s { queue = (reset_failed_stop_state s.queue).0 }
step s (begins_stop where_ scheduled) = begin_stop (stop where_ scheduled s.queue) s
step s (ends_task c) = record s { queue = (on_task_done c s.queue).1 }
step s (ends_executor c) = record s { queue = (on_executor_shutdown c s.queue).1 }
step s times_out = record s { queue = mark_stop_failed s.queue }
step s (wakes env) = wake env s.point s.current s
step s (completes env o) = complete env o s.point s.current s
step s stores = store s.point s.current s
step s cancels = cancel s.point s
step s finishes = record s { queue = finish_task s.point s.queue }

unfoldable pub run : System → List Event → System
run s [] = s
run s (e ∷ es) = run (step s e) es
