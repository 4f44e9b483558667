-- ===== src/Queue/Bounds.antt =====
-- The queue stays within MAX_QUEUE_SIZE, and every message that finds no room is counted.
use meshtastic_matrix_relay.Base.{
  ℕ, ◌+◌, ◌≤◌, ◌≡◌, refl, true, Option, none, some, List, [], ◌∷◌, ◌++◌, arith, length, suc, ap,
}
use meshtastic_matrix_relay.Py.{Value, Fields}
use meshtastic_matrix_relay.Queue.State.{QueuedMessage, MessageQueue, max_queue_size}
use meshtastic_matrix_relay.Queue.Enqueue.{requeue_message}
use meshtastic_matrix_relay.Queue.Link.{Link}
use meshtastic_matrix_relay.Queue.Send.{Exception}
use meshtastic_matrix_relay.Queue.Processor.{
  Env, Outcome, returned, raised, Turn, Fate, no_room, put_back, on_send_error, dispatch,
  final_check, rate_limit, prepare, take_next, run_loop, after_rate_wait, after_send, after_storing,
  on_cancelled, on_cancelled_in_error,
}

abbrev pub count_no_room : List (QueuedMessage × Fate) → ℕ
count_no_room [] = 0
count_no_room ((_, no_room) ∷ l) = suc (count_no_room l)
count_no_room ((_, _) ∷ l) = count_no_room l

pub count_no_room-append :
    (k l : List (QueuedMessage × Fate)) → count_no_room (k ++ l) ≡ count_no_room k + count_no_room l
count_no_room-append [] l = omega arith
count_no_room-append ((_, Fate.sent) ∷ k) l = count_no_room-append k l
count_no_room-append ((_, Fate.failed) ∷ k) l = count_no_room-append k l
count_no_room-append ((_, no_room) ∷ k) l = omega (arith, count_no_room-append k l)
count_no_room-append ((_, Fate.cancelled) ∷ k) l = count_no_room-append k l
count_no_room-append ((_, Fate.abandoned) ∷ k) l = count_no_room-append k l

-- A turn from a queue within the limit.
pub record Keeps (q : MessageQueue) (t : Turn) : Type 0 where
  pub bounded : length t.queue.queue ≤ max_queue_size
  pub counted : t.queue.dropped_messages ≡ q.dropped_messages + count_no_room t.leaves

abbrev Fits : MessageQueue → Type 0
Fits q = length q.queue ≤ max_queue_size

put_back-Keeps : (q : MessageQueue) (m : QueuedMessage) → Fits q → Keeps q (put_back q m)
unfolding put_back requeue_message
put_back-Keeps q m h = ground arith

on_send_error-Keeps :
    (e : Exception) (q : MessageQueue) (m : QueuedMessage) → Fits q → Keeps q (on_send_error e q m)
unfolding on_send_error put_back requeue_message
on_send_error-Keeps e q m h = ground arith

dispatch-Keeps : (q : MessageQueue) (m : QueuedMessage) → Fits q → Keeps q (dispatch q m)
unfolding dispatch on_send_error put_back requeue_message
dispatch-Keeps q m h = ground arith

final_check-Keeps :
    (l : Link) (q : MessageQueue) (m : QueuedMessage) → Fits q → Keeps q (final_check l q m)
unfolding final_check
final_check-Keeps l q m h = ground (arith, dispatch-Keeps q m h, put_back-Keeps q m h)

rate_limit-Keeps :
    (env : Env) (q : MessageQueue) (m : QueuedMessage) → Fits q → Keeps q (rate_limit env q m)
unfolding rate_limit
rate_limit-Keeps env q m h = ground (arith, final_check-Keeps env.final q m h)

prepare-Keeps :
    (env : Env) (q : MessageQueue) (m : QueuedMessage) → Fits q → Keeps q (prepare env q m)
unfolding prepare
prepare-Keeps env q m h = ground (arith, rate_limit-Keeps env q m h)

take_next-Keeps :
    (env : Env) (q : MessageQueue) (l : List QueuedMessage)
    → q.queue ≡ l
    → Fits q
    → Keeps q (take_next env q l)
unfolding take_next
take_next-Keeps env q [] e h = record { bounded = h; counted = omega arith }
take_next-Keeps env q (m ∷ rest) e h =
    let fits : length rest ≤ max_queue_size = omega (arith, ap length e) in
    let k = prepare-Keeps env (record q { queue = rest; has_current = true }) m fits in
    record { bounded = k.bounded; counted = k.counted }

pub run_loop-Keeps :
    (env : Env) (q : MessageQueue) (c : Option QueuedMessage) → Fits q → Keeps q (run_loop env q c)
unfolding run_loop
run_loop-Keeps env q none h = ground (arith, take_next-Keeps env q q.queue refl h)
run_loop-Keeps env q (some m) h = ground (arith, prepare-Keeps env q m h)

pub after_rate_wait-Keeps :
    (env : Env) (q : MessageQueue) (m : QueuedMessage) → Fits q → Keeps q (after_rate_wait env q m)
unfolding after_rate_wait
after_rate_wait-Keeps env q m h =
    ground (arith, final_check-Keeps env.final q m h, put_back-Keeps q m h)

pub after_send-Keeps :
    (env : Env) (o : Outcome) (q : MessageQueue) (m : QueuedMessage)
    → Fits q
    → Keeps q (after_send env o q m)
unfolding after_send
after_send-Keeps env (returned v) q m h = ground arith
after_send-Keeps env (raised e) q m h = on_send_error-Keeps e q m h

pub after_storing-Keeps :
    (id : Value) (info : Fields) (q : MessageQueue) (m : QueuedMessage)
    → Fits q
    → Keeps q (after_storing id info q m)
unfolding after_storing
after_storing-Keeps id info q m h = ground arith

pub on_cancelled-Keeps :
    (q : MessageQueue) (c : Option QueuedMessage) → Fits q → Keeps q (on_cancelled q c)
unfolding on_cancelled
on_cancelled-Keeps q c h = ground arith

pub on_cancelled_in_error-Keeps :
    (q : MessageQueue) (c : Option QueuedMessage) → Fits q → Keeps q (on_cancelled_in_error q c)
unfolding on_cancelled_in_error
on_cancelled_in_error-Keeps q c h = ground arith
