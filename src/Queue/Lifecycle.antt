-- ===== src/Queue/Lifecycle.antt =====
-- src/mmrelay/message_queue.py: `start`, `stop` and what they share. Each function is one section
-- under the lock. A call of `stop` is the sequence of its sections, between which other threads run.
use meshtastic_matrix_relay.Base.{
  ℕ, ◌+◌, Bool, true, false, not, Option, none, some, is_some, ◌==◌, ◌&&◌, ◌||◌, if◌then◌else◌,
}
use meshtastic_matrix_relay.Queue.State.{MessageQueue, Task, task_active}

-- A finished task is forgotten.
abbrev forget_done_task : Option Task → Option Task
forget_done_task none = none
forget_done_task (some t) = if t.done then none else some t

unfoldable pub clear_failed_stop_state_if_recovered_locked : MessageQueue → MessageQueue × Bool
clear_failed_stop_state_if_recovered_locked q =
    if not q.stop_failed
    then (q, false)
    else if q.running || task_active q || is_some q.executor
    then (q, false)
    else (
      record q {
        processor_task = forget_done_task q.processor_task;
        stopping = false;
        stop_failed = false;
      },
      true,
    )

-- `loop.create_task(self._process_queue())`, where a loop runs on this thread
abbrev create_processor_task : Bool → MessageQueue → MessageQueue
create_processor_task false q = q
create_processor_task true q = record q {
  processor_task = some (record { ident = q.next_ident; done = false });
  next_ident = q.next_ident + 1;
}

-- A `ThreadPoolExecutor`, unless there is one.
abbrev create_executor : MessageQueue → MessageQueue
create_executor q =
    if is_some q.executor
    then q
    else record q { executor = some q.next_ident; next_ident = q.next_ident + 1 }

-- The rest of `start`, behind the recovery of a failed stop. `loop_running` says whether an event
-- loop runs on the calling thread.
start_recovered : Bool → ℕ → MessageQueue → MessageQueue × Bool
start_recovered loop_running message_delay q =
    if q.stop_failed
    then (q, false)
    else if q.running
    then (q, true)
    else if q.stopping
    then (q, false)
    else (
      create_processor_task loop_running (
          create_executor
            (record q { message_delay = message_delay; running = true; stop_logged = false })),
      true,
    )

unfoldable pub start : Bool → ℕ → MessageQueue → MessageQueue × Bool
unfolding start_recovered
start loop_running message_delay q =
    start_recovered loop_running message_delay (clear_failed_stop_state_if_recovered_locked q).0

unfoldable pub ensure_processor_started : Bool → MessageQueue → MessageQueue
ensure_processor_started loop_running q =
    let inactive = not (task_active q) in
    let q' = record q { processor_task = if inactive then none else q.processor_task } in
    if q.running && not q.stop_failed && inactive then create_processor_task loop_running q' else q'

unfoldable pub reset_failed_stop_state : MessageQueue → MessageQueue × Bool
reset_failed_stop_state q =
    if q.stopping
    then (q, false)
    else if not q.stop_failed
    then (q, true)
    else clear_failed_stop_state_if_recovered_locked q

-- What a call of `stop` holds on to: the task and the executor that it cleans up, and whether
-- either clean-up is complete.
pub record StopCall : Type 0 where
  pub task : Option Task
  pub exec_ref : Option ℕ
  pub task_cleanup_complete : Bool
  pub executor_cleanup_complete : Bool

-- The first section of `stop`; a queue that does not run is left alone.
unfoldable pub stop_begin : MessageQueue → Option (StopCall × MessageQueue)
stop_begin q =
    if not q.running
    then none
    else some (
      record {
        task = q.processor_task;
        exec_ref = q.executor;
        task_cleanup_complete = not (is_some q.processor_task);
        executor_cleanup_complete = not (is_some q.executor);
      },
      record q { running = false; stopping = true },
    )

-- `_mark_stop_failed`, of a watchdog whose wait ran out
unfoldable pub mark_stop_failed : MessageQueue → MessageQueue
mark_stop_failed q = record q { stop_failed = true }

-- `self._processor_task is task`, `self._executor is exec_ref`
abbrev is_same_task : Option Task → Option Task → Bool
is_same_task (some t) (some u) = t.ident == u.ident
is_same_task _ _ = false

abbrev is_same_executor : Option ℕ → Option ℕ → Bool
is_same_executor (some a) (some b) = a == b
is_same_executor _ _ = false

unfoldable pub release_task : StopCall → MessageQueue → MessageQueue
release_task c q =
    if is_same_task c.task q.processor_task
    then record q { processor_task = none; in_flight = false; has_current = false }
    else q

unfoldable pub release_executor : StopCall → MessageQueue → MessageQueue
release_executor c q =
    if is_same_executor c.exec_ref q.executor then record q { executor = none } else q

-- `if not self._stop_logged: self._stop_logged = True`
abbrev log_stop : MessageQueue → MessageQueue
log_stop q = record q { stop_logged = true }

unfoldable pub settle_stop : MessageQueue → MessageQueue
settle_stop q =
    if q.stop_failed
    then (let (q', cleared) = clear_failed_stop_state_if_recovered_locked q in
        if cleared then log_stop q' else q')
    else log_stop (record q { stopping = false })

-- `_finalize_stop_state`
unfoldable pub finalize_stop_state : StopCall → MessageQueue → MessageQueue
unfolding release_task release_executor settle_stop
finalize_stop_state c q =
    if not (c.task_cleanup_complete && c.executor_cleanup_complete)
    then q
    else settle_stop (release_executor c (release_task c q))

-- `_on_task_done`
unfoldable pub on_task_done : StopCall → MessageQueue → StopCall × MessageQueue
on_task_done c q =
    let complete = record c { task_cleanup_complete = true } in
    (complete, finalize_stop_state complete q)

-- Where the loop of the processor's task stands when `stop` looks at it.
pub data TaskLoop : Type 0 where
  closed own_thread other_thread not_running : TaskLoop

-- Whether the cancellation is left to the loop: on one that runs it is scheduled, unless the loop
-- has closed meanwhile.
abbrev pub waits_for_loop : TaskLoop → Bool → Bool
waits_for_loop own_thread scheduled = scheduled
waits_for_loop other_thread scheduled = scheduled
waits_for_loop _ _ = false

-- The task's part of `stop`. Its clean-up completes when the loop has ended the task, and at once
-- where the loop is not to be waited for.
unfoldable pub begin_task_cleanup :
    TaskLoop → Bool → StopCall → MessageQueue → StopCall × MessageQueue
unfolding on_task_done
begin_task_cleanup where_ scheduled c q =
    if not (is_some c.task) || waits_for_loop where_ scheduled then (c, q) else on_task_done c q

-- `_shutdown_and_finalize`, once the executor has shut down
unfoldable pub on_executor_shutdown : StopCall → MessageQueue → StopCall × MessageQueue
on_executor_shutdown c q =
    let complete = record c { executor_cleanup_complete = true } in
    (complete, finalize_stop_state complete q)

-- All that a call of `stop` does by itself. The callbacks of the task, the executor and the
-- watchdogs come on their own threads.
unfoldable pub stop : TaskLoop → Bool → MessageQueue → Option (StopCall × MessageQueue)
unfolding stop_begin begin_task_cleanup
stop where_ scheduled q = elim (stop_begin q) [
  | none ↦ none
  | some (c, q1) ↦
      let (c', q2) = begin_task_cleanup where_ scheduled c q1 in
      some (c', finalize_stop_state c' q2)
]
