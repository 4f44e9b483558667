-- ===== src/Queue/Course.antt =====
-- The course of one coroutine: its turns one after another, while the queue runs. Between two turns
-- other threads enqueue and read; they do not touch the fields that the coroutine alone writes then.
use meshtastic_matrix_relay.Base.{ℕ, ◌≤◌, ◌≡◌, true, false, none, some, []}
use meshtastic_matrix_relay.Py.{Value, Fields}
use meshtastic_matrix_relay.Queue.State.{QueuedMessage, MessageQueue}
use meshtastic_matrix_relay.Queue.Processor.{
  Env, Outcome, Turn, loop_head, error_wait, rate_wait, sending, storing, run_loop, after_rate_wait,
  after_send, after_storing,
}

pub record Between (q q' : MessageQueue) : Type 0 where
  pub same_current : q'.has_current ≡ q.has_current
  pub same_flight : q'.in_flight ≡ q.in_flight
  pub same_delay : q'.message_delay ≡ q.message_delay
  pub same_last : q'.last_send_mono ≡ q.last_send_mono

-- A sleep until `w` ends no earlier than that, and the monotonic clock does not go back.
pub data Follows (t : Turn) (env : Env) : Turn → Type 0 where
  loops :
      (q : MessageQueue)
      → Between t.queue q
      → t.point ≡ loop_head
      → q.running ≡ true
      → q.last_send_mono ≤ env.monotonic
      → Follows t env (run_loop env q t.current)
  recovers :
      (q : MessageQueue)
      → Between t.queue q
      → t.point ≡ error_wait
      → q.running ≡ true
      → q.last_send_mono ≤ env.monotonic
      → Follows t env (run_loop env q t.current)
  wakes :
      (q : MessageQueue) (m : QueuedMessage) (w : ℕ)
      → Between t.queue q
      → t.current ≡ some m
      → t.point ≡ rate_wait w
      → w ≤ env.monotonic
      → Follows t env (after_rate_wait env q m)
  completes :
      (q : MessageQueue) (m : QueuedMessage) (o : Outcome)
      → Between t.queue q
      → t.current ≡ some m
      → t.point ≡ sending
      → Follows t env (after_send env o q m)
  stores :
      (q : MessageQueue) (m : QueuedMessage) (id : Value) (info : Fields)
      → Between t.queue q
      → t.current ≡ some m
      → t.point ≡ storing id info
      → Follows t env (after_storing id info q m)

-- It begins with no message at hand and the flags down.
pub data Course : Turn → Type 0 where
  begins :
      (q : MessageQueue)
      → q.has_current ≡ false
      → q.in_flight ≡ false
      → Course (record { queue = q; current = none; point = loop_head; leaves = []; effects = [] })
  goes_on : {t u : Turn} (env : Env) → Course t → Follows t env u → Course u
