-- ===== src/Retry/Tests.antt =====
-- A message that is sent at the third attempt.
use meshtastic_matrix_relay.Base.{ℕ, zero, suc, ◌≤◌, ◌≡◌, ◌⊎◌, refl, false, some, [], ◌∷◌, arith}
use meshtastic_matrix_relay.Py.{Value}
use meshtastic_matrix_relay.Retry.Send.{
  Answer, Attempt, Ending, send_from, send_matrix_message_with_retry, retry_backoff_delay,
}
use meshtastic_matrix_relay.Retry.Outcome.{Decided, Exhausted, send-Decided}

abbrev answering : Answer → Attempt
answering a = record { encrypted = some false; e2ee_enabled = false; answer = a; jitter = 50 }

abbrev attempts : ℕ → Attempt
attempts zero = answering Answer.times_out
attempts (suc zero) = answering Answer.api_error
attempts (suc (suc _)) = answering (Answer.response (Value.str "$event"))

third_succeeds : send_matrix_message_with_retry attempts 1000 30000 3 ≡ (record {
  ending = Ending.returned (Value.str "$event");
  sends = 3;
  sleeps = 1050 ∷ 2050 ∷ [];
})
unfolding send_matrix_message_with_retry send_from retry_backoff_delay
third_succeeds = refl

send-Decided_example :
    Decided attempts 1000 30000 0 3 (send_matrix_message_with_retry attempts 1000 30000 3)
    ⊎ Exhausted attempts 1000 30000 0 3 (send_matrix_message_with_retry attempts 1000 30000 3)
send-Decided_example = send-Decided attempts 1000 30000 3

jitters : (n : ℕ) → (attempts n).jitter ≤ 50
jitters zero = omega arith
jitters (suc zero) = omega arith
jitters (suc (suc n)) = omega arith
