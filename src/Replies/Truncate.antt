-- ===== src/Replies/Truncate.antt =====
-- src/mmrelay/matrix/replies.py: `truncate_message`.
use meshtastic_matrix_relay.Base.{ℕ, zero, suc, Option, none, some, List, [], ℤ, pos, negsuc, take}
use meshtastic_matrix_relay.Replies.Utf8.{encode, decode, Pending}

-- `none` is the ValueError.
unfoldable pub truncate_message : List ℕ → ℤ → Option (List ℕ)
truncate_message text (negsuc _) = none
truncate_message text (pos zero) = some []
truncate_message text (pos (suc n)) = some (decode Pending.ready (take (suc n) (encode text)))
