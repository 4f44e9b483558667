-- ===== src/Queue/Processor.antt =====
-- src/mmrelay/message_queue.py: the coroutine `_process_queue`, cut at its awaits. Each function runs
-- from one await to the next; between them the event loop and other threads run.
-- (The loop's next round begins a new turn too, where the code goes on without an await.)
use meshtastic_matrix_relay.Base.{
  ℕ, ◌+◌, ◌-◌, true, false, Option, none, some, List, [], ◌∷◌, ltb, ◌&&◌, if◌then◌else◌,
}
use meshtastic_matrix_relay.Py.{Value, Fields}
use meshtastic_matrix_relay.Queue.State.{QueuedMessage, MessageQueue}
use meshtastic_matrix_relay.Queue.Enqueue.{requeue_message}
use meshtastic_matrix_relay.Queue.Link.{Link, ready, not_ready, stops, raises, should_send_message}
use meshtastic_matrix_relay.Queue.Send.{
  Exception, Effect, is_connection_error, msg_id, handle_message_mapping, mapping_due,
}

-- Where the coroutine waits: in a sleep behind which the loop begins anew, in the sleep behind an
-- unexpected error, which is the same but for a cancellation, in the sleep of the rate limit until a
-- time, for the executor, for the database, or no more.
pub data Point : Type 0 where
  loop_head : Point
  error_wait : Point
  rate_wait : ℕ → Point
  sending : Point
  storing : Value → Fields → Point
  finished : Point

-- How a message leaves the queue for good.
pub data Fate : Type 0 where
  sent failed no_room cancelled abandoned : Fate

-- The queue, the variable `current_message`, where the coroutine waits, the messages that have left
-- in this turn and the calls of the database.
pub record Turn : Type 0 where
  pub queue : MessageQueue
  pub current : Option QueuedMessage
  pub point : Point
  pub leaves : List (QueuedMessage × Fate)
  pub effects : List Effect

-- What the coroutine reads while it runs: the two clocks, and the connection at its first test and
-- at the last one before the send.
pub record Env : Type 0 where
  pub monotonic : ℕ
  pub time : ℕ
  pub first : Link
  pub final : Link

-- The message stays the current one.
abbrev pub keep_waiting : Point → MessageQueue → QueuedMessage → Turn
keep_waiting p q m = record { queue = q; current = some m; point = p; leaves = []; effects = [] }

-- `current_message = None`, and the flags
abbrev clear_current : MessageQueue → QueuedMessage → Fate → List Effect → Turn
clear_current q m fate effects = record {
  queue = record q { in_flight = false; has_current = false };
  current = none;
  point = loop_head;
  leaves = (m, fate) ∷ [];
  effects = effects;
}

-- The message goes back to the front; where there is no room it is dropped.
unfoldable pub put_back : MessageQueue → QueuedMessage → Turn
put_back q m =
    let (q', kept) = requeue_message m q in
    record {
      queue = record q' { has_current = false };
      current = none;
      point = loop_head;
      leaves = if kept then [] else (m, no_room) ∷ [];
      effects = [];
    }

-- The inner handler, of what the send raised.
unfoldable pub on_send_error : Exception → MessageQueue → QueuedMessage → Turn
unfolding put_back
on_send_error e q m =
    if is_connection_error e
    then put_back (record q { in_flight = false }) m
    else clear_current q m failed []

abbrev executor_missing : Exception
executor_missing = record {
  is_transport = false;
  text = "MessageQueue executor is not initialized";
}

-- The send is handed to the executor, if there is one.
unfoldable pub dispatch : MessageQueue → QueuedMessage → Turn
unfolding on_send_error
dispatch q m = elim q.executor [
  | none ↦ on_send_error executor_missing (record q { in_flight = true }) m
  | some _ ↦ keep_waiting sending (record q { in_flight = true }) m
]

-- The last test of the connection.
unfoldable pub final_check : Link → MessageQueue → QueuedMessage → Turn
unfolding dispatch put_back
final_check link q m = elim (should_send_message link) [
  | ready ↦ dispatch q m
  | not_ready ↦ put_back q m
  | stops ↦ put_back q m
  | raises ↦ keep_waiting error_wait q m
]

-- The wait for the delay between messages, if one has been sent.
unfoldable pub rate_limit : Env → MessageQueue → QueuedMessage → Turn
unfolding final_check
rate_limit env q m =
    let since = env.monotonic - q.last_send_mono in
    if ltb 0 q.last_send_mono && ltb since q.message_delay
    then keep_waiting (rate_wait (env.monotonic + (q.message_delay - since))) q m
    else final_check env.final q m

-- From the test of the connection on.
unfoldable pub prepare : Env → MessageQueue → QueuedMessage → Turn
unfolding rate_limit
prepare env q m = elim (should_send_message env.first) [
  | ready ↦ rate_limit env q m
  | not_ready ↦ keep_waiting loop_head q m
  | stops ↦ keep_waiting loop_head q m
  | raises ↦ keep_waiting error_wait q m
]

-- The message at hand leaves as `fate`, and the coroutine returns.
abbrev leave : Fate → MessageQueue → Option QueuedMessage → Turn
leave fate q current = record {
  queue = q;
  current = none;
  point = finished;
  leaves = elim current [ none ↦ [] | some m ↦ (m, fate) ∷ [] ];
  effects = [];
}

unfoldable pub take_next : Env → MessageQueue → List QueuedMessage → Turn
unfolding prepare
take_next env q [] = record {
  queue = q;
  current = none;
  point = loop_head;
  leaves = [];
  effects = [];
}
take_next env q (m ∷ rest) = prepare env (record q { queue = rest; has_current = true }) m

-- One round of the loop, from its head.
unfoldable pub run_loop : Env → MessageQueue → Option QueuedMessage → Turn
unfolding take_next prepare
run_loop env q current =
    if q.running
    then elim current [ none ↦ take_next env q q.queue | some m ↦ prepare env q m ]
    else leave abandoned q current

-- Behind the sleep of the rate limit, where the connection is tested again.
unfoldable pub after_rate_wait : Env → MessageQueue → QueuedMessage → Turn
unfolding final_check put_back
after_rate_wait env q m = elim (should_send_message env.first) [
  | ready ↦ final_check env.final q m
  | not_ready ↦ put_back q m
  | stops ↦ put_back q m
  | raises ↦ keep_waiting error_wait q m
]

-- What comes back from the executor.
pub data Outcome : Type 0 where
  returned : Value → Outcome
  raised : Exception → Outcome

abbrev record_send : Env → MessageQueue → MessageQueue
record_send env q = record q { last_send_time = env.time; last_send_mono = env.monotonic }

unfoldable pub after_send : Env → Outcome → MessageQueue → QueuedMessage → Turn
unfolding on_send_error
after_send env (returned result) q m = elim (mapping_due result m.mapping_info) [
  | none ↦ clear_current (record_send env q) m sent []
  | some info ↦ keep_waiting (storing (msg_id result) info) (record_send env q) m
]
after_send env (raised e) q m = on_send_error e q m

-- Behind the calls of the database, whose exceptions are caught.
unfoldable pub after_storing : Value → Fields → MessageQueue → QueuedMessage → Turn
after_storing id info q m = clear_current q m sent (handle_message_mapping id info)

-- `except asyncio.CancelledError`
unfoldable pub on_cancelled : MessageQueue → Option QueuedMessage → Turn
on_cancelled q current =
    leave cancelled (record q { in_flight = false; has_current = false }) current

-- A cancellation in the sleep of the last `except Exception`, outside of the `try`, which leaves the
-- flags as they are.
unfoldable pub on_cancelled_in_error : MessageQueue → Option QueuedMessage → Turn
on_cancelled_in_error q current = leave cancelled q current
