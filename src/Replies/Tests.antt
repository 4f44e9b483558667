-- ===== src/Replies/Tests.antt =====
-- A text of an ASCII letter, a letter of two bytes and a sign of four bytes.
use meshtastic_matrix_relay.Base.{ℕ, ◌≡◌, refl, some, List, [], ◌∷◌, pos}
use meshtastic_matrix_relay.Replies.Utf8.{encode_char, encode, decode, begin_char}
use meshtastic_matrix_relay.Replies.Truncate.{truncate_message}
use meshtastic_matrix_relay.Replies.Prefix.{fitting, truncate-fitting}

abbrev text : List ℕ
text = 97 ∷ 233 ∷ 128512 ∷ []

encoded : encode text ≡ 97 ∷ 195 ∷ 169 ∷ 240 ∷ 159 ∷ 152 ∷ 128 ∷ []
unfolding encode encode_char
encoded = refl

cut_in_the_sign : truncate_message text (pos 6) ≡ some (97 ∷ 233 ∷ [])
unfolding truncate_message encode encode_char decode begin_char
cut_in_the_sign = refl

truncate-fitting_example : truncate_message text (pos 6) ≡ some (fitting 6 text)
truncate-fitting_example = truncate-fitting text 6
