-- ===== src/Queue/Order.antt =====
-- The order of the messages: what has left the queue, with what is still in it, is what was accepted.
use meshtastic_matrix_relay.Base.{
  ◌≡◌, refl, ap, true, Option, none, some, List, [], ◌∷◌, ◌++◌, arith, to_list,
}
use meshtastic_matrix_relay.Py.{Value, Fields}
use meshtastic_matrix_relay.Queue.State.{QueuedMessage, MessageQueue}
use meshtastic_matrix_relay.Queue.Enqueue.{requeue_message}
use meshtastic_matrix_relay.Queue.Link.{Link}
use meshtastic_matrix_relay.Queue.Send.{Exception}
use meshtastic_matrix_relay.Queue.Processor.{
  Env, Outcome, returned, raised, Turn, Fate, put_back, on_send_error, dispatch, final_check,
  rate_limit, prepare, run_loop, after_rate_wait, after_send, after_storing, on_cancelled,
  on_cancelled_in_error, take_next,
}

abbrev pub messages : List (QueuedMessage × Fate) → List QueuedMessage
messages [] = []
messages ((m, _) ∷ l) = m ∷ messages l

pub messages-append :
    (k l : List (QueuedMessage × Fate)) → messages (k ++ l) ≡ messages k ++ messages l
messages-append [] l = refl
messages-append ((m, _) ∷ k) l = ap (◌∷◌ m) (messages-append k l)

-- A turn that began with `pending`, the current message first.
abbrev pub Conserves : List QueuedMessage → Turn → Type 0
Conserves pending t = messages t.leaves ++ (to_list t.current ++ t.queue.queue) ≡ pending

put_back-Conserves : (q : MessageQueue) (m : QueuedMessage) → Conserves (m ∷ q.queue) (put_back q m)
unfolding put_back requeue_message
put_back-Conserves q m = ground arith

on_send_error-Conserves :
    (e : Exception) (q : MessageQueue) (m : QueuedMessage)
    → Conserves (m ∷ q.queue) (on_send_error e q m)
unfolding on_send_error put_back requeue_message
on_send_error-Conserves e q m = ground arith

dispatch-Conserves : (q : MessageQueue) (m : QueuedMessage) → Conserves (m ∷ q.queue) (dispatch q m)
unfolding dispatch on_send_error put_back requeue_message
dispatch-Conserves q m = ground arith

final_check-Conserves :
    (l : Link) (q : MessageQueue) (m : QueuedMessage) → Conserves (m ∷ q.queue) (final_check l q m)
unfolding final_check
final_check-Conserves l q m = ground (arith, dispatch-Conserves q m, put_back-Conserves q m)

rate_limit-Conserves :
    (env : Env) (q : MessageQueue) (m : QueuedMessage)
    → Conserves (m ∷ q.queue) (rate_limit env q m)
unfolding rate_limit
rate_limit-Conserves env q m = ground (arith, final_check-Conserves env.final q m)

prepare-Conserves :
    (env : Env) (q : MessageQueue) (m : QueuedMessage) → Conserves (m ∷ q.queue) (prepare env q m)
unfolding prepare
prepare-Conserves env q m = ground (arith, rate_limit-Conserves env q m)

take_next-Conserves :
    (env : Env) (q : MessageQueue) (l : List QueuedMessage)
    → q.queue ≡ l
    → Conserves l (take_next env q l)
unfolding take_next
take_next-Conserves env q [] e = e
take_next-Conserves env q (m ∷ rest) e =
    prepare-Conserves env (record q { queue = rest; has_current = true }) m

pub run_loop-Conserves :
    (env : Env) (q : MessageQueue) (c : Option QueuedMessage)
    → Conserves (to_list c ++ q.queue) (run_loop env q c)
unfolding run_loop
run_loop-Conserves env q none = ground (arith, take_next-Conserves env q q.queue refl)
run_loop-Conserves env q (some m) = ground (arith, prepare-Conserves env q m)

pub after_rate_wait-Conserves :
    (env : Env) (q : MessageQueue) (m : QueuedMessage)
    → Conserves (m ∷ q.queue) (after_rate_wait env q m)
unfolding after_rate_wait
after_rate_wait-Conserves env q m =
    ground (arith, final_check-Conserves env.final q m, put_back-Conserves q m)

pub after_send-Conserves :
    (env : Env) (o : Outcome) (q : MessageQueue) (m : QueuedMessage)
    → Conserves (m ∷ q.queue) (after_send env o q m)
unfolding after_send
after_send-Conserves env (returned v) q m = ground arith
after_send-Conserves env (raised e) q m = on_send_error-Conserves e q m

pub after_storing-Conserves :
    (id : Value) (info : Fields) (q : MessageQueue) (m : QueuedMessage)
    → Conserves (m ∷ q.queue) (after_storing id info q m)
unfolding after_storing
after_storing-Conserves id info q m = refl

pub on_cancelled-Conserves :
    (q : MessageQueue) (c : Option QueuedMessage)
    → Conserves (to_list c ++ q.queue) (on_cancelled q c)
unfolding on_cancelled
on_cancelled-Conserves q none = refl
on_cancelled-Conserves q (some m) = refl

pub on_cancelled_in_error-Conserves :
    (q : MessageQueue) (c : Option QueuedMessage)
    → Conserves (to_list c ++ q.queue) (on_cancelled_in_error q c)
unfolding on_cancelled_in_error
on_cancelled_in_error-Conserves q none = refl
on_cancelled_in_error-Conserves q (some m) = refl
