-- ===== src/Queue/Drained.antt =====
-- `drain` of message_queue.py (src/mmrelay) against the course of the coroutine, whose flags `_in_flight`
-- and `_has_current` tell what it holds.
use meshtastic_matrix_relay.Base.{
  ℕ, ◌≡◌, ◌⊎◌, inl, inr, refl, Bool, true, false, Option, none, some, List, [], ◌∷◌, ◌++◌, arith,
  is_some, to_list, Bool-cases,
}
use meshtastic_matrix_relay.Queue.State.{QueuedMessage, MessageQueue}
use meshtastic_matrix_relay.Queue.Enqueue.{requeue_message}
use meshtastic_matrix_relay.Queue.Link.{Link}
use meshtastic_matrix_relay.Queue.Send.{Exception}
use meshtastic_matrix_relay.Queue.Processor.{
  Env, Outcome, returned, raised, Turn, Point, sending, storing, put_back, on_send_error, dispatch,
  final_check, rate_limit, prepare, take_next, run_loop, after_rate_wait, after_send, after_storing,
}
use meshtastic_matrix_relay.Queue.Course.{
  Between, Follows, loops, recovers, wakes, completes, stores, Course, begins, goes_on,
}
use meshtastic_matrix_relay.Queue.Status.{is_busy, drain}

-- The points at which a send is under way.
abbrev pub is_sending : Point → Bool
is_sending sending = true
is_sending (storing _ _) = true
is_sending _ = false

pub record IsFlagged (t : Turn) : Type 0 where
  pub current_flag : t.queue.has_current ≡ is_some t.current
  pub flight_flag : t.queue.in_flight ≡ is_sending t.point

-- What a turn begins with, between two sends.
record IsCalm (q : MessageQueue) (c : Option QueuedMessage) : Type 0 where
  holds : q.has_current ≡ is_some c
  still : q.in_flight ≡ false

put_back-IsFlagged :
    (q : MessageQueue) (m : QueuedMessage) → q.in_flight ≡ false → IsFlagged (put_back q m)
unfolding put_back requeue_message
put_back-IsFlagged q m h = ground arith

on_send_error-IsFlagged :
    (e : Exception) (q : MessageQueue) (m : QueuedMessage) → IsFlagged (on_send_error e q m)
unfolding on_send_error put_back requeue_message
on_send_error-IsFlagged e q m = ground arith

final_check-IsFlagged :
    (l : Link) (q : MessageQueue) (m : QueuedMessage)
    → IsCalm q (some m)
    → IsFlagged (final_check l q m)
unfolding final_check dispatch
final_check-IsFlagged l q m h = ground (
  arith,
  put_back-IsFlagged q m h.still,
  on_send_error-IsFlagged
      (record { is_transport = false; text = "MessageQueue executor is not initialized" })
      (record q { in_flight = true }) m,
)

prepare-IsFlagged :
    (env : Env) (q : MessageQueue) (m : QueuedMessage)
    → IsCalm q (some m)
    → IsFlagged (prepare env q m)
unfolding prepare rate_limit
prepare-IsFlagged env q m h = ground (arith, final_check-IsFlagged env.final q m h)

take_next-IsFlagged :
    (env : Env) (q : MessageQueue) (l : List QueuedMessage)
    → IsCalm q none
    → IsFlagged (take_next env q l)
unfolding take_next
take_next-IsFlagged env q [] h = record { current_flag = h.holds; flight_flag = h.still }
take_next-IsFlagged env q (m ∷ rest) h =
    prepare-IsFlagged env (record q { queue = rest; has_current = true }) m
      (record { holds = refl; still = h.still })

run_loop-IsFlagged :
    (env : Env) (q : MessageQueue) (c : Option QueuedMessage)
    → q.running ≡ true
    → IsCalm q c
    → IsFlagged (run_loop env q c)
unfolding run_loop
run_loop-IsFlagged env q none r h = ground (arith, take_next-IsFlagged env q q.queue h)
run_loop-IsFlagged env q (some m) r h = ground (arith, prepare-IsFlagged env q m h)

after_rate_wait-IsFlagged :
    (env : Env) (q : MessageQueue) (m : QueuedMessage)
    → IsCalm q (some m)
    → IsFlagged (after_rate_wait env q m)
unfolding after_rate_wait
after_rate_wait-IsFlagged env q m h =
    ground (arith, final_check-IsFlagged env.final q m h, put_back-IsFlagged q m h.still)

after_send-IsFlagged :
    (env : Env) (o : Outcome) (q : MessageQueue) (m : QueuedMessage)
    → q.has_current ≡ true
    → q.in_flight ≡ true
    → IsFlagged (after_send env o q m)
unfolding after_send
after_send-IsFlagged env (returned v) q m h f = ground arith
after_send-IsFlagged env (raised e) q m h f = on_send_error-IsFlagged e q m

Follows-IsFlagged : {t : Turn} {env : Env} {u : Turn} → Follows t env u → IsFlagged t → IsFlagged u
Follows-IsFlagged {t} (loops q b p r _) h =
    run_loop-IsFlagged _ q t.current r (record { holds = ground arith; still = ground arith })
Follows-IsFlagged {t} (recovers q b p r _) h =
    run_loop-IsFlagged _ q t.current r (record { holds = ground arith; still = ground arith })
Follows-IsFlagged (wakes q m w b c p l) h =
    after_rate_wait-IsFlagged _ q m (record { holds = ground arith; still = ground arith })
Follows-IsFlagged (completes q m o b c p) h =
    after_send-IsFlagged _ o q m (ground arith) (ground arith)
Follows-IsFlagged (stores q m id info b c p) h =
    unfold after_storing in record { current_flag = refl; flight_flag = refl }

Course-IsFlagged : {t : Turn} → Course t → IsFlagged t
Course-IsFlagged (begins q h f) = record { current_flag = h; flight_flag = f }
Course-IsFlagged (goes_on env c f) = Follows-IsFlagged f (Course-IsFlagged c)

-- Nothing waits in the queue, nothing is at hand, and no send is under way.
abbrev pub IsDrained : Turn → MessageQueue → Type 0
IsDrained t q = (to_list t.current ++ q.queue ≡ []) × (is_sending t.point ≡ false)

idle-IsDrained :
    (t : Turn) (q : MessageQueue)
    → IsFlagged t
    → Between t.queue q
    → is_busy q ≡ false
    → IsDrained t q
idle-IsDrained t q h between b =
    ground (arith, h.current_flag, h.flight_flag, between.same_current, between.same_flight, b)

-- A turn of the same course, no earlier than `t`.
pub data Later (t : Turn) : Turn → Type 0 where
  here : Later t t
  on : {u v : Turn} (env : Env) → Later t u → Follows u env v → Later t v

-- A look at the queue: the turn that the coroutine has made last, what is seen, and when.
pub record Look : Type 0 where
  pub turn : Turn
  pub seen : MessageQueue
  pub now : ℕ

abbrev pub looks_of : List Look → List (MessageQueue × ℕ)
looks_of [] = []
looks_of (l ∷ ls) = (l.seen, l.now) ∷ looks_of ls

-- The looks of one watcher, which follow the course from the turn `t` on. Each sees the queue as its
-- turn has left it, but for what other threads did since.
abbrev pub Watches : Turn → List Look → Type 0
Watches t [] = Unit {0}
Watches t (l ∷ ls) = (Later t l.turn × Between l.turn.queue l.seen) × Watches l.turn ls

-- At one of the looks nothing was left.
abbrev pub SomeDrained : List Look → Type 0
SomeDrained [] = ⊥
SomeDrained (l ∷ ls) = IsDrained l.turn l.seen ⊎ SomeDrained ls

Later-IsFlagged : {t u : Turn} → Later t u → IsFlagged t → IsFlagged u
Later-IsFlagged here h = h
Later-IsFlagged (on env l f) h = Follows-IsFlagged f (Later-IsFlagged l h)

watched-drained :
    (deadline : Option ℕ) (t : Turn) (looks : List Look)
    → IsFlagged t
    → Watches t looks
    → drain deadline (looks_of looks) ≡ some true
    → SomeDrained looks
unfolding drain
watched-drained deadline t [] h w e = cc
watched-drained deadline t (l ∷ ls) h ((later, between), w) e =
    let flagged = Later-IsFlagged later h in
    elim (Bool-cases (is_busy l.seen)) [
      | inl busy ↦ inr (watched-drained deadline l.turn ls flagged w (ground arith))
      | inr idle ↦ inl (idle-IsDrained l.turn l.seen flagged between idle)
    ]

-- A watcher looks at the queue from time to time along the course of the coroutine, which makes any
-- number of turns between two looks, while other threads enqueue. Where `drain` answers yes to what it
-- saw, there was a look at which the coroutine, as it then stood, held no message and had no send under
-- way, and no message waited.
pub drain_sound :
    (deadline : Option ℕ) (t : Turn) (looks : List Look)
    → Course t
    → Watches t looks
    → drain deadline (looks_of looks) ≡ some true
    → SomeDrained looks
drain_sound deadline t looks course w e =
    watched-drained deadline t looks (Course-IsFlagged course) w e
