-- ===== src/Queue/Rate.antt =====
-- When a message is handed to the node: over a connection that has just been tested, and no sooner
-- after the last send than the configured delay.
use meshtastic_matrix_relay.Base.{
  ℕ, ◌+◌, ◌-◌, ◌≤◌, ◌≡◌, ◌≢◌, subst, ltb, ◌&&◌, Bool-cases, ◌⊎◌, inl, inr, refl, true, Option, none,
  some, List, [], ◌∷◌, arith,
}
use meshtastic_matrix_relay.Queue.State.{QueuedMessage, MessageQueue}
use meshtastic_matrix_relay.Queue.Enqueue.{requeue_message}
use meshtastic_matrix_relay.Queue.Link.{Check, ready, should_send_message}
use meshtastic_matrix_relay.Queue.Processor.{
  Env, Outcome, returned, raised, Turn, loop_head, error_wait, rate_wait, sending, put_back,
  on_send_error, dispatch, final_check, rate_limit, prepare, take_next, run_loop, after_rate_wait,
  after_send, after_storing, keep_waiting,
}
use meshtastic_matrix_relay.Queue.Course.{
  Follows, loops, recovers, wakes, completes, stores, Course, begins, goes_on,
}

-- How a turn may end, at the time and over the links of `env`: if a send has begun, the last test
-- passed and the delay is over; a wait ends with the delay.
record IsPaced (env : Env) (t : Turn) : Type 0 where
  pub tested : t.point ≡ sending → should_send_message env.final ≡ ready
  pub spaced :
      t.point ≡ sending
      → (t.queue.last_send_mono ≡ 0)
        ⊎ (t.queue.last_send_mono + t.queue.message_delay ≤ env.monotonic)
  pub waits : (w : ℕ) → t.point ≡ rate_wait w → t.queue.last_send_mono + t.queue.message_delay ≤ w

-- A turn that neither sends nor waits for the delay.
abbrev IsQuiet : Turn → Type 0
IsQuiet t = (t.point ≡ sending → ⊥) × ((w : ℕ) → t.point ≡ rate_wait w → ⊥)

quiet-IsPaced : (env : Env) (t : Turn) → IsQuiet t → IsPaced env t
quiet-IsPaced env t h = record {
  tested = λ e. absurd (h.0 e);
  spaced = λ e. absurd (h.0 e);
  waits = λ w e. absurd (h.1 w e);
}

put_back-IsQuiet : (q : MessageQueue) (m : QueuedMessage) → IsQuiet (put_back q m)
unfolding put_back
put_back-IsQuiet q m = (λ e. cc, λ w e. cc)

loop_head-IsQuiet : (t : Turn) → t.point ≡ loop_head → IsQuiet t
loop_head-IsQuiet t h = (λ e. cc, λ w e. cc)

loop_head-IsPaced : (env : Env) (t : Turn) → t.point ≡ loop_head → IsPaced env t
loop_head-IsPaced env t h = quiet-IsPaced env t (loop_head-IsQuiet t h)

-- Nothing was sent before, or the delay since the last send has passed.
abbrev pub Spaced : Env → MessageQueue → Type 0
Spaced env q = (q.last_send_mono ≡ 0) ⊎ (q.last_send_mono + q.message_delay ≤ env.monotonic)

final_check-IsPaced :
    (env : Env) (q : MessageQueue) (m : QueuedMessage)
    → Spaced env q
    → IsPaced env (final_check env.final q m)
unfolding final_check dispatch on_send_error put_back requeue_message
final_check-IsPaced env q m h = record {
  tested = λ e. ground arith;
  spaced = λ e. ground arith;
  waits = λ w e. ground arith;
}

rate_limit-IsPaced :
    (env : Env) (q : MessageQueue) (m : QueuedMessage)
    → q.last_send_mono ≤ env.monotonic
    → IsPaced env (rate_limit env q m)
unfolding rate_limit
rate_limit-IsPaced env q m h =
    elim (Bool-cases
      (ltb 0 q.last_send_mono && ltb (env.monotonic - q.last_send_mono) q.message_delay)) [
        | inl early ↦
            rw early (record { tested = λ e. cc; spaced = λ e. cc; waits = λ w e. ground arith })
        | inr late ↦ rw late (final_check-IsPaced env q m (ground arith))
      ]

prepare-IsPaced :
    (env : Env) (q : MessageQueue) (m : QueuedMessage)
    → q.last_send_mono ≤ env.monotonic
    → IsPaced env (prepare env q m)
unfolding prepare
prepare-IsPaced env q m h = go (should_send_message env.first) refl
  where
    quiet : should_send_message env.first ≢ ready → IsPaced env (prepare env q m)
    quiet ne = quiet-IsPaced env (prepare env q m) (λ e. ground arith, λ w e. ground arith)

    go : (c : Check) → should_send_message env.first ≡ c → IsPaced env (prepare env q m)
    go ready e = rw (e, prepare) (rate_limit-IsPaced env q m h)
    go Check.not_ready e = quiet (λ r. cc)
    go Check.stops e = quiet (λ r. cc)
    go Check.raises e = quiet (λ r. cc)

take_next-IsPaced :
    (env : Env) (q : MessageQueue) (l : List QueuedMessage)
    → q.last_send_mono ≤ env.monotonic
    → IsPaced env (take_next env q l)
unfolding take_next
take_next-IsPaced env q [] h = loop_head-IsPaced env (take_next env q []) refl
take_next-IsPaced env q (m ∷ rest) h =
    prepare-IsPaced env (record q { queue = rest; has_current = true }) m h

run_loop-IsPaced :
    (env : Env) (q : MessageQueue) (c : Option QueuedMessage)
    → q.running ≡ true
    → q.last_send_mono ≤ env.monotonic
    → IsPaced env (run_loop env q c)
unfolding run_loop
run_loop-IsPaced env q none r h =
    subst (IsPaced env) (ground arith) (take_next-IsPaced env q q.queue h)
run_loop-IsPaced env q (some m) r h = subst (IsPaced env) (ground arith) (prepare-IsPaced env q m h)

after_rate_wait-IsPaced :
    (env : Env) (q : MessageQueue) (m : QueuedMessage)
    → Spaced env q
    → IsPaced env (after_rate_wait env q m)
unfolding after_rate_wait
after_rate_wait-IsPaced env q m h = go (should_send_message env.first) refl
  where
    go : (c : Check) → should_send_message env.first ≡ c → IsPaced env (after_rate_wait env q m)
    go ready e = rw (e, after_rate_wait) (final_check-IsPaced env q m h)
    go Check.not_ready e = rw (e, after_rate_wait) (quiet-IsPaced env _ (put_back-IsQuiet q m))
    go Check.stops e = rw (e, after_rate_wait) (quiet-IsPaced env _ (put_back-IsQuiet q m))
    go Check.raises e =
        rw (e, after_rate_wait)
          (quiet-IsPaced env (keep_waiting error_wait q m) (λ r. cc, λ w r. cc))

after_send-IsPaced :
    (env : Env) (o : Outcome) (q : MessageQueue) (m : QueuedMessage)
    → IsPaced env (after_send env o q m)
unfolding after_send on_send_error put_back
after_send-IsPaced env (returned v) q m =
    quiet-IsPaced env _ (λ e. ground arith, λ w e. ground arith)
after_send-IsPaced env (raised x) q m = quiet-IsPaced env _ (λ e. ground arith, λ w e. ground arith)

-- The part of `IsPaced` that a turn leaves for the next.
abbrev Waits : Turn → Type 0
Waits t = (w : ℕ) → t.point ≡ rate_wait w → t.queue.last_send_mono + t.queue.message_delay ≤ w

Follows-IsPaced : {t : Turn} {env : Env} {u : Turn} → Follows t env u → Waits t → IsPaced env u
unfolding after_storing
Follows-IsPaced {t} {env} (loops q b p r l) h = run_loop-IsPaced env q t.current r l
Follows-IsPaced {t} {env} (recovers q b p r l) h = run_loop-IsPaced env q t.current r l
Follows-IsPaced {t} {env} (wakes q m w b c p l) h =
    let over = h w p in
    after_rate_wait-IsPaced env q m (inr (omega (arith, over, b.same_last, b.same_delay, l)))
Follows-IsPaced {t} {env} (completes q m o b c p) h = after_send-IsPaced env o q m
Follows-IsPaced {t} {env} (stores q m id info b c p) h =
    loop_head-IsPaced env (after_storing id info q m) refl

Course-Waits : {t : Turn} → Course t → Waits t
Course-Waits (begins q h f) = λ w e. cc
Course-Waits (goes_on env c f) = (Follows-IsPaced f (Course-Waits c)).waits

-- In every course of the coroutine: a turn that hands a message to the node does so right behind a
-- test that found the connection ready, and either nothing has been sent before or the configured
-- delay has passed since the last send.
pub sends_paced :
    {t : Turn} {env : Env} {u : Turn}
    → Course t
    → Follows t env u
    → u.point ≡ sending
    → (should_send_message env.final ≡ ready) × Spaced env u.queue
sends_paced c f h =
    let paced = Follows-IsPaced f (Course-Waits c) in (paced.tested h, paced.spaced h)
