-- ===== src/Retry/Send.antt =====
-- src/mmrelay/matrix/relay.py: `_send_matrix_message_with_retry`. What the client and the server do at
-- each attempt is an argument.
use meshtastic_matrix_relay.Base.{
  ℕ, zero, suc, ◌+◌, ◌*◌, ◌^◌, min, Bool, false, not, Option, none, some, List, [], ◌∷◌, ◌&&◌,
  if◌then◌else◌,
}
use meshtastic_matrix_relay.Py.{Value}

-- How `room_send` ends: a response, a response that is an error, no response in time, a network or
-- transport exception, or any other exception.
pub data Answer : Type 0 where
  response : Value → Answer
  api_error times_out network_error : Answer
  other_error : Answer

-- One attempt: whether the client knows the room and then whether it is encrypted, whether the client
-- encrypts, the answer, and the jitter that is drawn if it is to be repeated.
pub record Attempt : Type 0 where
  pub encrypted : Option Bool
  pub e2ee_enabled : Bool
  pub answer : Answer
  pub jitter : ℕ

pub data Ending : Type 0 where
  returned : Value → Ending
  blocked exhausted raised : Ending

-- The end of the call, the number of sends and the sleeps between them.
pub record Sent : Type 0 where
  pub ending : Ending
  pub sends : ℕ
  pub sleeps : List ℕ

-- `_retry_backoff_delay`
unfoldable pub retry_backoff_delay : ℕ → ℕ → ℕ → ℕ
retry_backoff_delay attempt_index base_delay max_delay =
    min (base_delay * 2 ^ attempt_index) max_delay

-- The room is known to be encrypted, and the client does not encrypt.
abbrev pub is_blocked : Attempt → Bool
is_blocked a = elim a.encrypted [ none ↦ false | some e ↦ e && not (a.e2ee_enabled) ]

-- The end that an attempt brings, if it is not to be repeated.
abbrev pub ending_of : Attempt → Option Ending
ending_of a = if is_blocked a then some Ending.blocked else elim a.answer [
  | Answer.response v ↦ some (Ending.returned v)
  | Answer.other_error ↦ some Ending.raised
  | _ ↦ none
]

-- The sends of an attempt that ends the call.
abbrev pub sends_of : Attempt → ℕ
sends_of a = if is_blocked a then 0 else 1

module _ (attempts : ℕ → Attempt) (base_delay max_delay : ℕ) where
  -- The loop, at an attempt behind which so many are left.
  unfoldable pub send_from : ℕ → ℕ → Sent
  unfolding retry_backoff_delay
  send_from attempt zero = elim (ending_of (attempts attempt)) [
    | some e ↦ record { ending = e; sends = sends_of (attempts attempt); sleeps = [] }
    | none ↦ record { ending = Ending.exhausted; sends = 1; sleeps = [] }
  ]
  send_from attempt (suc left) =
      let rest = send_from (suc attempt) left in
      elim (ending_of (attempts attempt)) [
        | some e ↦ record { ending = e; sends = sends_of (attempts attempt); sleeps = [] }
        | none ↦ record {
          ending = rest.ending;
          sends = suc rest.sends;
          sleeps =
              (retry_backoff_delay attempt base_delay max_delay + (attempts attempt).jitter)
              ∷ rest.sleeps;
        }
      ]

  -- `_send_matrix_message_with_retry`
  unfoldable pub send_matrix_message_with_retry : ℕ → Sent
  unfolding send_from
  send_matrix_message_with_retry max_retries = send_from 0 max_retries
