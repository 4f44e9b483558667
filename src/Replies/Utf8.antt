-- ===== src/Replies/Utf8.antt =====
-- Python's `str.encode("utf-8")` and `bytes.decode("utf-8", "ignore")`. A text is the list of its code
-- points, none of them a surrogate, for which the encoder raises. The decoder leaves out what is no
-- whole character; of the bytes that are no part of an encoding it knows those that a cut leaves.
use Prim.Native.Nat.{◌/◌, ◌%◌}
use meshtastic_matrix_relay.Base.{
  ℕ, zero, suc, ◌+◌, ◌-◌, ◌*◌, List, [], ◌∷◌, ◌++◌, ltb, leb, ◌&&◌, if◌then◌else◌,
}

unfoldable pub encode_char : ℕ → List ℕ
encode_char c =
    if ltb c 128
    then c ∷ []
    else if ltb c 2048
    then (192 + c / 64) ∷ (128 + c % 64) ∷ []
    else if ltb c 65536
    then (224 + c / 4096) ∷ (128 + c / 64 % 64) ∷ (128 + c % 64) ∷ []
    else (240 + c / 262144) ∷ (128 + c / 4096 % 64) ∷ (128 + c / 64 % 64) ∷ (128 + c % 64) ∷ []

unfoldable pub encode : List ℕ → List ℕ
unfolding encode_char
encode [] = []
encode (c ∷ l) = encode_char c ++ encode l

-- Between two characters, or within one: what its bytes have given, and how many are missing behind
-- the next.
pub data Pending : Type 0 where
  ready : Pending
  within : ℕ → ℕ → Pending

-- A byte that begins a character: what the decoder waits for then. A single byte is a character.
unfoldable pub begin_char : ℕ → Pending
begin_char b =
    if ltb b 192
    then Pending.ready
    else if ltb b 224
    then Pending.within (b - 192) 0
    else if ltb b 240
    then Pending.within (b - 224) 1
    else Pending.within (b - 240) 2

unfoldable pub decode : Pending → List ℕ → List ℕ
unfolding begin_char
decode p [] = []
decode Pending.ready (b ∷ l) =
    let rest = decode (begin_char b) l in if ltb b 128 then b ∷ rest else rest
decode (Pending.within value zero) (b ∷ l) =
    let character = decode Pending.ready l in
    let other = decode (begin_char b) l in
    if leb 128 b && ltb b 192
    then (value * 64 + (b - 128)) ∷ character
    else if ltb b 128
    then b ∷ other
    else other
decode (Pending.within value (suc left)) (b ∷ l) =
    let more = decode (Pending.within (value * 64 + (b - 128)) left) l in
    let other = decode (begin_char b) l in
    if leb 128 b && ltb b 192 then more else if ltb b 128 then b ∷ other else other
