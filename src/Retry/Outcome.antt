-- ===== src/Retry/Outcome.antt =====
-- The call ends with the first attempt that decides it.
use meshtastic_matrix_relay.Base.{
  ℕ, zero, suc, ◌+◌, ◌≤◌, ◌≡◌, refl, ◌∙◌, Bool, true, not, Option, none, some, List, [], ◌∷◌,
  length, ◌&&◌, is_some, leb, arith, ◌⊎◌, inl, inr,
}
use meshtastic_matrix_relay.Retry.Send.{
  Attempt, Ending, Sent, retry_backoff_delay, ending_of, sends_of, send_from,
  send_matrix_message_with_retry,
}

module _ (attempts : ℕ → Attempt) (base_delay max_delay : ℕ) where
  -- The attempts from one on, so many of them, are all to be repeated.
  unfoldable pub all_fail : ℕ → ℕ → Bool
  all_fail attempt zero = true
  all_fail attempt (suc n) =
      not (is_some (ending_of (attempts attempt))) && all_fail (suc attempt) n

  pub record Decided (attempt left : ℕ) (s : Sent) : Type 0 where
    pub failures : ℕ
    pub within : failures ≤ left
    pub failed : all_fail attempt failures ≡ true
    pub last : ℕ
    pub numbered : last ≡ attempt + failures
    pub decides : ending_of (attempts last) ≡ some (s.ending)
    pub sends : s.sends ≡ failures + sends_of (attempts last)
    pub slept : length s.sleeps ≡ failures

  pub record Exhausted (attempt left : ℕ) (s : Sent) : Type 0 where
    pub failed : all_fail attempt (suc left) ≡ true
    pub ending : s.ending ≡ Ending.exhausted
    pub sends : s.sends ≡ suc left
    pub slept : length s.sleeps ≡ left

  later-Decided :
      (attempt left : ℕ)
      → ending_of (attempts attempt) ≡ none
      → Decided (suc attempt) left (send_from attempts base_delay max_delay (suc attempt) left)
      → Decided attempt (suc left) (send_from attempts base_delay max_delay attempt (suc left))
  unfolding all_fail send_from
  later-Decided attempt left h d = record {
    failures = suc d.failures;
    within = omega (arith, d.within);
    failed = ground (arith, h, d.failed);
    last = d.last;
    numbered = omega (arith, d.numbered);
    decides = d.decides ∙ ground (arith, h);
    sends = ground (arith, h, d.sends);
    slept = ground (arith, h, d.slept);
  }

  at_once-Decided :
      (attempt left : ℕ) (e : Ending)
      → ending_of (attempts attempt) ≡ some e
      → Decided attempt left (send_from attempts base_delay max_delay attempt left)
  unfolding all_fail send_from
  at_once-Decided attempt zero e h = record {
    failures = 0;
    within = omega arith;
    failed = refl;
    last = attempt;
    numbered = omega arith;
    decides = ground arith;
    sends = ground arith;
    slept = ground arith;
  }
  at_once-Decided attempt (suc left) e h = record {
    failures = 0;
    within = omega arith;
    failed = refl;
    last = attempt;
    numbered = omega arith;
    decides = ground arith;
    sends = ground arith;
    slept = ground arith;
  }

  later-Exhausted :
      (attempt left : ℕ)
      → ending_of (attempts attempt) ≡ none
      → Exhausted (suc attempt) left (send_from attempts base_delay max_delay (suc attempt) left)
      → Exhausted attempt (suc left) (send_from attempts base_delay max_delay attempt (suc left))
  unfolding all_fail send_from
  later-Exhausted attempt left h d = record {
    failed = ground (arith, h, d.failed);
    ending = ground (arith, h, d.ending);
    sends = ground (arith, h, d.sends);
    slept = ground (arith, h, d.slept);
  }

  last-Exhausted :
      (attempt : ℕ)
      → ending_of (attempts attempt) ≡ none
      → Exhausted attempt 0 (send_from attempts base_delay max_delay attempt 0)
  unfolding all_fail send_from
  last-Exhausted attempt h = record {
    failed = ground arith;
    ending = ground arith;
    sends = ground arith;
    slept = ground arith;
  }

  from-Decided :
      (attempt left : ℕ) (o : Option Ending)
      → ending_of (attempts attempt) ≡ o
      → Decided attempt left (send_from attempts base_delay max_delay attempt left)
        ⊎ Exhausted attempt left (send_from attempts base_delay max_delay attempt left)
  from-Decided attempt left (some e) h = inl (at_once-Decided attempt left e h)
  from-Decided attempt zero none h = inr (last-Exhausted attempt h)
  from-Decided attempt (suc left) none h =
      elim (from-Decided (suc attempt) left (ending_of (attempts (suc attempt))) refl) [
        | inl d ↦ inl (later-Decided attempt left h d)
        | inr d ↦ inr (later-Exhausted attempt left h d)
      ]

  -- Either some attempt, the last one allowed or an earlier one, is the first that is not to be
  -- repeated: then the call ends as that one says, behind one send and one sleep for each attempt
  -- before it. Or all attempts that are allowed fail: then the call returns nothing, behind one send
  -- for each of them and a sleep between any two.
  pub send-Decided :
      (max_retries : ℕ)
      → Decided 0 max_retries
          (send_matrix_message_with_retry attempts base_delay max_delay max_retries)
        ⊎ Exhausted 0 max_retries
            (send_matrix_message_with_retry attempts base_delay max_delay max_retries)
  unfolding send_matrix_message_with_retry
  send-Decided max_retries = from-Decided 0 max_retries (ending_of (attempts 0)) refl

  unfoldable pub all_within : ℕ → List ℕ → Bool
  all_within bound [] = true
  all_within bound (n ∷ l) = leb n bound && all_within bound l

  from-within :
      (jitter : ℕ)
      → ((n : ℕ) → (attempts n).jitter ≤ jitter)
      → (attempt left : ℕ)
      → all_within
          (max_delay + jitter)
          (send_from attempts base_delay max_delay attempt left).sleeps
        ≡ true
  unfolding all_within send_from retry_backoff_delay
  from-within jitter j attempt zero = ground arith
  from-within jitter j attempt (suc left) =
      ground (arith, j attempt, from-within jitter j (suc attempt) left)

  -- No sleep is longer than the longest delay and the largest jitter that is drawn.
  send-within :
      (jitter max_retries : ℕ)
      → ((n : ℕ) → (attempts n).jitter ≤ jitter)
      → all_within
          (max_delay + jitter)
          (send_matrix_message_with_retry attempts base_delay max_delay max_retries).sleeps
        ≡ true
  unfolding send_matrix_message_with_retry
  send-within jitter max_retries j = from-within jitter j 0 max_retries
