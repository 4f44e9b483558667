-- ===== src/Queue/Tests.antt =====
-- The queue on concrete messages.
use meshtastic_matrix_relay.Base.{ℕ, ◌≡◌, refl, true, false, none, some, List, [], ◌∷◌, arith, pos}
use meshtastic_matrix_relay.Py.{Value, Items, Fields}
use meshtastic_matrix_relay.Queue.State.{QueuedMessage, MessageQueue, init, task_active}
use meshtastic_matrix_relay.Queue.Lifecycle.{
  StopCall, ensure_processor_started, start, stop_begin,
  clear_failed_stop_state_if_recovered_locked,
}
use meshtastic_matrix_relay.Queue.Enqueue.{enqueue_locked, requeue_message}
use meshtastic_matrix_relay.Queue.Link.{Link, Client, Check, should_send_message}
use meshtastic_matrix_relay.Queue.Send.{
  store_message_map, prune_message_map, handle_message_mapping, is_connection_error, mapping_due,
  msg_id,
}
use meshtastic_matrix_relay.Queue.Processor.{
  Env, Outcome, returned, raised, Turn, Point, run_loop, after_send, after_storing, sending, Fate,
  on_cancelled_in_error,
}
use meshtastic_matrix_relay.Queue.Trace.{Event, initial, run, step, finish_task}
use meshtastic_matrix_relay.Queue.Fifo.{IsOrdered, run-IsOrdered}
use meshtastic_matrix_relay.Queue.Account.{IsCounted, run-IsCounted}
use meshtastic_matrix_relay.Queue.Recovery.{
  IsIdle, Starts, clean_up, watched, stop_recovers, stopping_refuses, Attempt, IsShut, SameRun,
  try_all,
}
use meshtastic_matrix_relay.Queue.Course.{Between, loops, begins}
use meshtastic_matrix_relay.Queue.Rate.{Spaced, sends_paced}
use meshtastic_matrix_relay.Queue.Status.{drain}
use meshtastic_matrix_relay.Queue.Drained.{here, Look, SomeDrained, drain_sound}

abbrev mapping : Fields
mapping = Fields.field "matrix_event_id" (Value.str "$e") (
    Fields.field "room_id" (Value.str "!r") (
      Fields.field "text" (Value.str "hi")
        (Fields.field "msgs_to_keep" (Value.int (pos 3)) Fields.end)))

abbrev message : ℕ → QueuedMessage
message n = record {
  timestamp = n;
  send_function = n;
  args = Items.nil;
  kwargs = Fields.end;
  description = "m";
  mapping_info = some mapping;
}

abbrev up : Link
up = record {
  importable = true;
  reconnecting = false;
  meshtastic_client = some (Client.value true);
}

abbrev down : Link
down = record up { reconnecting = true }

abbrev at : ℕ → Link → Env
at now link = record { monotonic = now; time = now; first = link; final = link }

abbrev sent_result : Outcome
sent_result = returned (Value.dict (Fields.field "id" (Value.int (pos 7)) Fields.end))

-- Two messages: the first waits for the connection, fails once and is sent; the second waits.
abbrev history : List Event
history =
    Event.starts true 2500
    ∷ Event.enqueues true false none 0 (message 1)
    ∷ Event.wakes (at 10 down)
    ∷ Event.enqueues true false none 20 (message 2)
    ∷ Event.wakes (at 1010 up)
    ∷ Event.completes (at 1100 up) (raised (record { is_transport = true; text = "" }))
    ∷ Event.wakes (at 2100 up)
    ∷ Event.completes (at 2200 up) sent_result
    ∷ Event.stores
    ∷ Event.wakes (at 2300 up)
    ∷ []

history_ends :
    let s = run initial history in
    (s.left ≡ (message 1, Fate.sent) ∷ [])
    × (s.current ≡ some (message 2))
    × (s.point ≡ Point.rate_wait 4700)
unfolding run step enqueue_locked clear_failed_stop_state_if_recovered_locked
    ensure_processor_started start run_loop should_send_message after_send is_connection_error
    requeue_message mapping_due msg_id after_storing
history_ends = (refl, refl, refl)

run-IsOrdered_example : IsOrdered (run initial history)
run-IsOrdered_example = run-IsOrdered history

run-IsCounted_example : IsCounted (run initial history)
run-IsCounted_example = run-IsCounted history

abbrev broken : Link
broken = record up { meshtastic_client = some (Client.method none) }

-- The test of the connection raises, and the coroutine is cancelled in the sleep behind that: its
-- message is lost, the flag stays, and the task is done.
cancelled_in_error :
    let s = run initial (
      Event.starts true 2500
      ∷ Event.enqueues true false none 0 (message 1)
      ∷ Event.wakes (at 10 broken)
      ∷ Event.cancels
      ∷ Event.finishes
      ∷ []) in
    (s.left ≡ (message 1, Fate.cancelled) ∷ [])
    × (s.queue.has_current ≡ true)
    × (task_active s.queue ≡ false)
unfolding run step enqueue_locked clear_failed_stop_state_if_recovered_locked
    ensure_processor_started start run_loop should_send_message on_cancelled_in_error finish_task
cancelled_in_error = (refl, refl, refl)

abbrev running : MessageQueue
running = record init {
  running = true;
  processor_task = some (record { ident = 1; done = false });
  executor = some 0;
}

abbrev call : StopCall
call = record {
  task = some (record { ident = 1; done = false });
  exec_ref = some 0;
  task_cleanup_complete = false;
  executor_cleanup_complete = false;
}

abbrev halting : MessageQueue
halting = record running { running = false; stopping = true }

stop_recovers_example :
    let q2 = clean_up false call (watched true halting) in
    IsIdle q2 × Starts true (start true 2500 q2)
unfolding stop_begin
stop_recovers_example = stop_recovers running call halting false true true 2500 refl

abbrev tries : List Attempt
tries =
    Attempt.starts true 2500
    ∷ Attempt.enqueues true false none 5 (message 1)
    ∷ Attempt.ensures true
    ∷ Attempt.resets
    ∷ []

halting-IsShut : IsShut halting
halting-IsShut = record { halted = refl; stopping = refl; held = refl }

stopping_refuses_example :
    ((try_all tries halting).1 ≡ false)
    × IsShut (try_all tries halting).0
    × SameRun halting (try_all tries halting).0
stopping_refuses_example = stopping_refuses tries halting halting-IsShut

abbrev fresh : Turn
fresh = record {
  queue = running;
  current = none;
  point = Point.loop_head;
  leaves = [];
  effects = [];
}

abbrev loaded : MessageQueue
loaded = record running { queue = message 1 ∷ [] }

still : Between running running
still = record { same_current = refl; same_flight = refl; same_delay = refl; same_last = refl }

unchanged : Between running loaded
unchanged = record { same_current = refl; same_flight = refl; same_delay = refl; same_last = refl }

sends_at_once : (run_loop (at 10 up) loaded none).point ≡ sending
unfolding run_loop should_send_message
sends_at_once = refl

sends_paced_example :
    (should_send_message up ≡ Check.ready)
    × Spaced (at 10 up) (run_loop (at 10 up) loaded none).queue
sends_paced_example =
    sends_paced {t = fresh} {env = at 10 up} (begins running refl refl)
      (loops loaded unchanged refl refl (omega arith)) sends_at_once

abbrev first_look : Look
first_look = record { turn = fresh; seen = loaded; now = 5 }

abbrev second_look : Look
second_look = record { turn = fresh; seen = running; now = 6 }

drain_sound_example : SomeDrained (first_look ∷ second_look ∷ [])
unfolding drain
drain_sound_example =
    drain_sound none fresh (first_look ∷ second_look ∷ []) (begins running refl refl)
      ((here, unchanged), ((here, still), tt)) refl

-- A mapping is stored under the id, and the map is pruned to three.
mapping_calls :
    handle_message_mapping (Value.int (pos 7)) mapping
    ≡ store_message_map
        (Value.int (pos 7))
        (Value.str "$e")
        (Value.str "!r")
        (Value.str "hi")
        Value.null
      ∷ prune_message_map (Value.int (pos 3))
      ∷ []
unfolding handle_message_mapping
mapping_calls = refl

missing_executor_is_no_connection_error :
    is_connection_error
      (record { is_transport = false; text = "MessageQueue executor is not initialized" })
    ≡ false
unfolding is_connection_error
missing_executor_is_no_connection_error = refl

refused_connection :
    is_connection_error (record { is_transport = false; text = "[Errno 111] Connection Refused" })
    ≡ true
unfolding is_connection_error
refused_connection = refl
