-- ===== src/Queue/Recovery.antt =====
-- Stopping and starting again: what a call of `stop` leaves behind, and what is refused meanwhile.
use meshtastic_matrix_relay.Base.{
  ℕ, ◌≡◌, ◌⊎◌, inl, inr, ◌&&◌, Bool-cases, refl, Bool, true, false, Option, none, some, arith,
  is_some, if◌then◌else◌, not, ◌||◌, List, [], ◌∷◌, ◌∙◌,
}
use meshtastic_matrix_relay.Queue.State.{QueuedMessage, MessageQueue, task_active}
use meshtastic_matrix_relay.Queue.Lifecycle.{
  StopCall, clear_failed_stop_state_if_recovered_locked, start, ensure_processor_started,
  reset_failed_stop_state, finalize_stop_state, on_task_done, on_executor_shutdown, stop_begin,
  mark_stop_failed, release_task, release_executor, settle_stop,
}
use meshtastic_matrix_relay.Queue.Enqueue.{
  Answer, accepted, refused, enqueue_locked, enqueue, enqueue_retry,
}

-- Nothing of the old run is left.
pub record IsIdle (q : MessageQueue) : Type 0 where
  pub not_running : q.running ≡ false
  pub not_stopping : q.stopping ≡ false
  pub not_failed : q.stop_failed ≡ false
  pub no_task : q.processor_task ≡ none
  pub no_executor : q.executor ≡ none

-- Both clean-ups, the task's first or the executor's.
abbrev pub clean_up : Bool → StopCall → MessageQueue → MessageQueue
clean_up true c q = let (c', q') = on_task_done c q in (on_executor_shutdown c' q').1
clean_up false c q = let (c', q') = on_executor_shutdown c q in (on_task_done c' q').1

-- A watchdog may have given up in between.
abbrev pub watched : Bool → MessageQueue → MessageQueue
watched gave_up q = if gave_up then mark_stop_failed q else q

-- The queue has been told to stop, and holds no task or executor but those of the call.
record Owned (c : StopCall) (q : MessageQueue) : Type 0 where
  halted : q.running ≡ false
  tasks : (q.processor_task ≡ c.task) ⊎ (q.processor_task ≡ none)
  executors : (q.executor ≡ c.exec_ref) ⊎ (q.executor ≡ none)

module _ (c : StopCall) (q : MessageQueue) (h : Owned c q) where
  released : MessageQueue
  released = release_executor c (release_task c q)

  released_task : released.processor_task ≡ none
  unfolding released release_task release_executor
  released_task = ground arith

  released_executor : released.executor ≡ none
  unfolding released release_task release_executor
  released_executor = ground arith

  released_halted : released.running ≡ false
  unfolding released release_task release_executor
  released_halted = ground (arith, h.halted)

settle_stop-IsIdle :
    (q : MessageQueue)
    → q.running ≡ false
    → q.processor_task ≡ none
    → q.executor ≡ none
    → IsIdle (settle_stop q)
unfolding settle_stop clear_failed_stop_state_if_recovered_locked
settle_stop-IsIdle q h t e = ground arith

finalize-IsIdle :
    (c : StopCall) (q : MessageQueue)
    → Owned c q
    → c.task_cleanup_complete ≡ true
    → c.executor_cleanup_complete ≡ true
    → IsIdle (finalize_stop_state c q)
unfolding finalize_stop_state released
finalize-IsIdle c q h t e =
    rw (t, e)
      (settle_stop-IsIdle (released c q h) (released_halted c q h) (released_task c q h)
        (released_executor c q h))

-- A clean-up that is the first of two changes nothing; else the queue is idle.
finalize-Owned : (c : StopCall) (q : MessageQueue) → Owned c q → Owned c (finalize_stop_state c q)
finalize-Owned c q h = elim (Bool-cases (c.task_cleanup_complete && c.executor_cleanup_complete)) [
  | inl both ↦
      let i = finalize-IsIdle c q h (ground arith) (ground arith) in
      record { halted = i.not_running; tasks = inr i.no_task; executors = inr i.no_executor }
  | inr part ↦ unfold finalize_stop_state in rw part h
]

stop_begin-Owned :
    (q : MessageQueue) (c : StopCall) (q1 : MessageQueue) (gave_up : Bool)
    → stop_begin q ≡ some (c, q1)
    → Owned c (watched gave_up q1)
unfolding stop_begin mark_stop_failed
stop_begin-Owned q c q1 gave_up e = ground arith

clean_up-IsIdle :
    (c : StopCall) (q : MessageQueue) (task_first : Bool)
    → Owned c q
    → IsIdle (clean_up task_first c q)
unfolding on_task_done on_executor_shutdown
clean_up-IsIdle c q true h =
    let c1 : StopCall = record c { task_cleanup_complete = true } in
    let c2 : StopCall = record c1 { executor_cleanup_complete = true } in
    let h1 =
      finalize-Owned c1 q
        (record { halted = h.halted; tasks = h.tasks; executors = h.executors }) in
    finalize-IsIdle c2 (finalize_stop_state c1 q)
      (record { halted = h1.halted; tasks = h1.tasks; executors = h1.executors }) refl refl
clean_up-IsIdle c q false h =
    let c1 : StopCall = record c { executor_cleanup_complete = true } in
    let c2 : StopCall = record c1 { task_cleanup_complete = true } in
    let h1 =
      finalize-Owned c1 q
        (record { halted = h.halted; tasks = h.tasks; executors = h.executors }) in
    finalize-IsIdle c2 (finalize_stop_state c1 q)
      (record { halted = h1.halted; tasks = h1.tasks; executors = h1.executors }) refl refl

-- A queue that is started: it runs, and has a coroutine if a loop runs on the caller's thread.
abbrev pub Starts : Bool → MessageQueue × Bool → Type 0
Starts loop (q, answer) =
    (answer ≡ true) × (q.running ≡ true) × (q.stop_failed ≡ false) × (task_active q ≡ loop)

start-Starts :
    (loop : Bool) (delay : ℕ) (q : MessageQueue) → IsIdle q → Starts loop (start loop delay q)
unfolding start clear_failed_stop_state_if_recovered_locked
start-Starts loop delay q h = ground arith

-- Whenever `stop` began, and whichever clean-up comes first, also if a watchdog has given up and the
-- stop counts as failed: behind both clean-ups nothing of the old run is left, and `start` succeeds.
pub stop_recovers :
    (q : MessageQueue) (c : StopCall) (q1 : MessageQueue) (task_first gave_up loop : Bool)
    (delay : ℕ)
    → stop_begin q ≡ some (c, q1)
    → let q2 = clean_up task_first c (watched gave_up q1) in
      IsIdle q2 × Starts loop (start loop delay q2)
stop_recovers q c q1 task_first gave_up loop delay e =
    let idle =
      clean_up-IsIdle c (watched gave_up q1) task_first (stop_begin-Owned q c q1 gave_up e) in
    (idle, start-Starts loop delay _ idle)

-- What a caller may try.
pub data Attempt : Type 0 where
  starts : Bool → ℕ → Attempt
  enqueues : Bool → Bool → Option ℕ → ℕ → QueuedMessage → Attempt
  retries : Option ℕ → ℕ → ℕ → QueuedMessage → Attempt
  resets : Attempt
  ensures : Bool → Attempt

abbrev is_accepted : Answer → Bool
is_accepted accepted = true
is_accepted _ = false

-- The queue afterwards, and whether the caller got what it asked for.
abbrev pub try_call : Attempt → MessageQueue → MessageQueue × Bool
try_call (starts loop delay) q = start loop delay q
try_call (enqueues loop wait timeout now m) q =
    let (q', answer) = enqueue loop wait timeout now m q in (q', is_accepted answer)
try_call (retries timeout began now m) q =
    let (q', answer) = enqueue_retry timeout began now m q in (q', is_accepted answer)
try_call resets q = reset_failed_stop_state q
try_call (ensures loop) q = (ensure_processor_started loop q, false)

unfoldable pub try_all : List Attempt → MessageQueue → MessageQueue × Bool
try_all [] q = (q, false)
try_all (a ∷ rest) q =
    let (q', got) = try_call a q in let (last, later) = try_all rest q' in (last, got || later)

-- A stop is under way, or has failed with a task or an executor left that has not ended.
pub record IsShut (q : MessageQueue) : Type 0 where
  pub halted : q.running ≡ false
  pub stopping : q.stopping ≡ true
  pub held : (q.stop_failed && not (task_active q) && not (is_some q.executor)) ≡ false

-- The same queue, but that a task which is done may be forgotten.
pub record SameRun (q q' : MessageQueue) : Type 0 where
  pub same_queue : q'.queue ≡ q.queue
  pub same_failed : q'.stop_failed ≡ q.stop_failed
  pub same_active : task_active q' ≡ task_active q
  pub same_executor : q'.executor ≡ q.executor
  pub same_drops : q'.dropped_messages ≡ q.dropped_messages

try_call-IsShut :
    (a : Attempt) (q : MessageQueue)
    → IsShut q
    → ((try_call a q).1 ≡ false) × IsShut (try_call a q).0 × SameRun q (try_call a q).0
unfolding start enqueue enqueue_locked enqueue_retry reset_failed_stop_state
    clear_failed_stop_state_if_recovered_locked ensure_processor_started
try_call-IsShut (starts loop delay) q h = ground (arith, h.halted, h.stopping, h.held)
try_call-IsShut (enqueues loop wait timeout now m) q h =
    ground (arith, h.halted, h.stopping, h.held)
try_call-IsShut (retries timeout began now m) q h = ground (arith, h.halted, h.stopping, h.held)
try_call-IsShut resets q h = ground (arith, h.halted, h.stopping, h.held)
try_call-IsShut (ensures loop) q h = ground (arith, h.halted, h.stopping, h.held)

SameRun-trans : {q q' q'' : MessageQueue} → SameRun q q' → SameRun q' q'' → SameRun q q''
SameRun-trans s t = record {
  same_queue = t.same_queue ∙ s.same_queue;
  same_failed = t.same_failed ∙ s.same_failed;
  same_active = t.same_active ∙ s.same_active;
  same_executor = t.same_executor ∙ s.same_executor;
  same_drops = t.same_drops ∙ s.same_drops;
}

-- While a stop is under way, and after one has failed for as long as its task or executor is there,
-- any number of calls of `start`, `enqueue`, also behind a sleep, the reset and the check of the
-- coroutine, in any order, are all refused: no message is taken, none is counted as dropped, the
-- waiting messages, the failure and the executor stay, no coroutine is started, and the stop is still
-- under way.
pub stopping_refuses :
    (calls : List Attempt) (q : MessageQueue)
    → IsShut q
    → ((try_all calls q).1 ≡ false) × IsShut (try_all calls q).0 × SameRun q (try_all calls q).0
unfolding try_all
stopping_refuses [] q h = (
  refl,
  h,
  record {
    same_queue = refl;
    same_failed = refl;
    same_active = refl;
    same_executor = refl;
    same_drops = refl;
  },
)
stopping_refuses (a ∷ calls) q h =
    let (refused_now, shut, same) = try_call-IsShut a q h in
    let (refused_later, still, same_later) = stopping_refuses calls (try_call a q).0 shut in
    (ground (arith, refused_now, refused_later), still, SameRun-trans same same_later)

-- A watchdog that marks a queue which runs again by then leaves it running and shut: every call of
-- `enqueue`, `start` and the reset is refused, and no coroutine is started for it.
late_mark_refuses :
    (q : MessageQueue) (loop wait : Bool) (delay now : ℕ) (timeout : Option ℕ) (m : QueuedMessage)
    → q.running ≡ true
    → let q' = mark_stop_failed q in
      (start loop delay q' ≡ (q', false))
      × (enqueue_locked wait timeout now m q' ≡ (q', refused))
      × ((reset_failed_stop_state q').1 ≡ false)
      × (task_active (ensure_processor_started loop q') ≡ task_active q)
unfolding start enqueue_locked reset_failed_stop_state clear_failed_stop_state_if_recovered_locked
    mark_stop_failed ensure_processor_started
late_mark_refuses q loop wait delay now timeout m h = ground arith
