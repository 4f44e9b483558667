-- ===== src/Reconnect/Backoff.antt =====
-- How long the coroutine waits, and that a shutdown ends it.
use native.Mathlib.Nat.{mul-le-mul_right, mul_assoc, one-le-pow, pow-succ'}
use meshtastic_matrix_relay.Base.{
  leb, Bool-cases, ℕ, zero, suc, ◌*◌, ◌^◌, min, ◌≤◌, ◌≡◌, refl, ap, ◌∙◌, sym, Bool, true, false,
  ◌&&◌, List, [], ◌∷◌, length, arith, inl, inr,
}
use meshtastic_matrix_relay.Reconnect.State.{Session}
use meshtastic_matrix_relay.Reconnect.Loop.{
  Point, Wake, finish, count_down, begin_attempt, attempt_again, next_backoff, reconnect,
}

-- An attempt that makes no client: None, or an exception.
pub data Failure : Type 0 where
  no_client exception : Failure

abbrev pub wake_of : Failure → Wake
wake_of no_client = Wake.connects false
wake_of exception = Wake.fails

-- The sleep ends and the attempt fails.
unfoldable pub fail_again : Failure → Session × Point → Session × Point
fail_again e (s, p) = let (s', q) = reconnect true Wake.slept s p in reconnect true (wake_of e) s' q

unfoldable pub fail_all : List Failure → Session × Point → Session × Point
fail_all [] r = r
fail_all (e ∷ l) r = fail_all l (fail_again e r)

fail_again-resting :
    (e : Failure) (s : Session) (b : ℕ)
    → s.shutting_down ≡ false
    → fail_again e (s, Point.resting b) ≡ (s, Point.resting (min (b * 2) 300))
unfolding fail_again reconnect count_down attempt_again begin_attempt next_backoff
fail_again-resting no_client s b h = ground arith
fail_again-resting exception s b h = ground arith

capped : (c x : ℕ) → 1 ≤ x → min (min c 300 * x) 300 ≡ min (c * x) 300
capped c x h = elim (Bool-cases (leb c 300)) [
  | inl small ↦ let e : min c 300 ≡ c = ground arith in ap (λ n. min (n * x) 300) e
  | inr large ↦
      let e : min c 300 ≡ 300 = ground arith in
      let le : 300 ≤ c = ground arith in
      let more : 300 * x ≤ c * x = mul-le-mul_right x le in
      ap (λ n. min (n * x) 300) e ∙ omega (arith, more, h)
]

fail_all-resting :
    (l : List Failure) (s : Session) (b : ℕ)
    → s.shutting_down ≡ false
    → b ≤ 300
    → fail_all l (s, Point.resting b) ≡ (s, Point.resting (min (b * 2 ^ length l) 300))
unfolding fail_all
fail_all-resting [] s b h k =
    let e : b ≡ min (b * 1) 300 = omega arith in ap (λ n. (s, Point.resting n)) e
fail_all-resting (e ∷ l) s b h k =
    let power = 2 ^ length l in
    let positive : 1 ≤ power = one-le-pow (length l) 2 (omega arith) in
    let next = min (b * 2) 300 in
    let more : b * 2 * power ≡ b * 2 ^ suc (length l) =
      mul_assoc b 2 power ∙ ap (λ n. b * n) (sym (pow-succ' 2 (length l))) in
    ap (fail_all l) (fail_again-resting e s b h)
    ∙ fail_all-resting l s next h (omega arith)
    ∙ ap (λ n. (s, Point.resting n)) (capped (b * 2) power positive ∙ ap (λ n. min n 300) more)

-- As a service that is not shut down, the coroutine waits 10 seconds before its first attempt, and
-- after any number of attempts that made no client or failed, 10 seconds doubled as often, but at most
-- 300.
pub reconnect-backoff :
    (l : List Failure) (s : Session)
    → s.shutting_down ≡ false
    → fail_all l (reconnect true Wake.begins s Point.scheduled)
      ≡ (s, Point.resting (min (10 * 2 ^ length l) 300))
unfolding reconnect begin_attempt
reconnect-backoff l s h =
    let first : reconnect true Wake.begins s Point.scheduled ≡ (s, Point.resting 10) =
      ground arith in
    ap (fail_all l) first ∙ fail_all-resting l s 10 h (omega arith)

-- A wake that the coroutine may get where it waits.
abbrev pub fits : Wake → Point → Bool
fits Wake.begins Point.scheduled = true
fits Wake.slept (Point.resting _) = true
fits Wake.slept (Point.counting _ _) = true
fits (Wake.connects _) (Point.connecting _) = true
fits Wake.fails (Point.connecting _) = true
fits Wake.cancels Point.scheduled = true
fits Wake.cancels (Point.resting _) = true
fits Wake.cancels (Point.counting _ _) = true
fits Wake.cancels (Point.connecting _) = true
fits _ _ = false

count_down-ends :
    (s : Session) (b left : ℕ) → s.shutting_down ≡ true → count_down s b left ≡ finish s
unfolding count_down
count_down-ends s b zero h = ground arith
count_down-ends s b (suc left) h = ground arith

-- A cancellation of a coroutine that has not begun to run.
abbrev pub never_begins : Wake → Point → Bool
never_begins Wake.cancels Point.scheduled = true
never_begins _ _ = false

-- Once a shutdown has begun, whatever the coroutine gets next where it waits ends it, without a
-- further attempt, and clears `reconnecting`; only a cancellation before its first turn, which runs
-- none of it, leaves `reconnecting` as it was.
pub shutdown_ends :
    (is_service : Bool) (w : Wake) (s : Session) (p : Point)
    → s.shutting_down ≡ true
    → fits w p ≡ true
    → reconnect is_service w s p
      ≡ (record s { reconnecting = never_begins w p && s.reconnecting }, Point.ended)
unfolding reconnect begin_attempt attempt_again finish
shutdown_ends is_service Wake.begins s Point.scheduled h f = ground arith
shutdown_ends is_service Wake.slept s (Point.resting b) h f = count_down-ends s b 0 h ∙ ground arith
shutdown_ends is_service Wake.slept s (Point.counting b left) h f =
    count_down-ends s b left h ∙ ground arith
shutdown_ends is_service (Wake.connects true) s (Point.connecting b) h f = refl
shutdown_ends is_service (Wake.connects false) s (Point.connecting b) h f = ground arith
shutdown_ends is_service Wake.fails s (Point.connecting b) h f = ground arith
shutdown_ends is_service Wake.cancels s Point.scheduled h f = refl
shutdown_ends is_service Wake.cancels s (Point.resting _) h f = refl
shutdown_ends is_service Wake.cancels s (Point.counting _ _) h f = refl
shutdown_ends is_service Wake.cancels s (Point.connecting _) h f = refl
shutdown_ends is_service _ s p h f = cc
