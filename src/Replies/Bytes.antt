-- ===== src/Replies/Bytes.antt =====
-- How the decoder reads the bytes of one character, whole or cut.
use Prim.Native.Nat.{◌/◌, ◌%◌}
use meshtastic_matrix_relay.Base.{
  ℕ, suc, ◌+◌, ◌-◌, ◌*◌, ◌≤◌, ◌<◌, ◌≡◌, refl, ap, ◌∙◌, true, false, List, [], ◌∷◌, ltb, arith,
}
use meshtastic_matrix_relay.Replies.Utf8.{encode_char, begin_char, decode, Pending}

pub lead_1 :
    (b : ℕ) (l : List ℕ) → b < 128 → decode Pending.ready (b ∷ l) ≡ b ∷ decode Pending.ready l
unfolding decode begin_char
lead_1 b l h = ground arith

pub begin_2 : (x : ℕ) → x < 32 → begin_char (192 + x) ≡ Pending.within x 0
unfolding begin_char
begin_2 x h = ground arith

pub begin_3 : (x : ℕ) → x < 16 → begin_char (224 + x) ≡ Pending.within x 1
unfolding begin_char
begin_3 x h = ground arith

pub begin_4 : (x : ℕ) → begin_char (240 + x) ≡ Pending.within x 2
unfolding begin_char
begin_4 x = ground arith

pub lead :
    (b : ℕ) (p : Pending) (l : List ℕ)
    → 128 ≤ b
    → begin_char b ≡ p
    → decode Pending.ready (b ∷ l) ≡ decode p l
unfolding decode
lead b p l h e = ground (arith, e)

last_byte :
    (v y : ℕ) (l : List ℕ)
    → y < 64
    → decode (Pending.within v 0) ((128 + y) ∷ l) ≡ (v * 64 + y) ∷ decode Pending.ready l
unfolding decode
last_byte v y l h = ground arith

pub inner_byte :
    (v y k : ℕ) (l : List ℕ)
    → y < 64
    → decode (Pending.within v (suc k)) ((128 + y) ∷ l) ≡ decode (Pending.within (v * 64 + y) k) l
unfolding decode
inner_byte v y k l h =
    let e : 128 + y - 128 ≡ y = omega arith in
    let same : decode (Pending.within (v * 64 + (128 + y - 128)) k) l
        ≡ decode (Pending.within (v * 64 + y) k) l =
      ap (λ n. decode (Pending.within (v * 64 + n) k) l) e in
    ground (arith, same)

pub two : (c : ℕ) → c < 2048 → (c / 64 < 32) × (c % 64 < 64) × (c / 64 * 64 + c % 64 ≡ c)
two c h = (omega arith, omega arith, omega arith)

pub three :
    (c : ℕ)
    → c < 65536
    → (c / 4096 < 16)
      × (c / 64 % 64 < 64)
      × (c % 64 < 64)
      × ((c / 4096 * 64 + c / 64 % 64) * 64 + c % 64 ≡ c)
three c h = (omega arith, omega arith, omega arith, omega arith)

pub four :
    (c : ℕ)
    → (c / 4096 % 64 < 64)
      × (c / 64 % 64 < 64)
      × (c % 64 < 64)
      × (((c / 262144 * 64 + c / 4096 % 64) * 64 + c / 64 % 64) * 64 + c % 64 ≡ c)
four c = (omega arith, omega arith, omega arith, omega arith)

pub encode_1 : (c : ℕ) → ltb c 128 ≡ true → encode_char c ≡ c ∷ []
unfolding encode_char
encode_1 c h = ground arith

pub encode_2 :
    (c : ℕ)
    → ltb c 128 ≡ false
    → ltb c 2048 ≡ true
    → encode_char c ≡ (192 + c / 64) ∷ (128 + c % 64) ∷ []
unfolding encode_char
encode_2 c h k = rw (h, k) refl

pub encode_3 :
    (c : ℕ)
    → ltb c 128 ≡ false
    → ltb c 2048 ≡ false
    → ltb c 65536 ≡ true
    → encode_char c ≡ (224 + c / 4096) ∷ (128 + c / 64 % 64) ∷ (128 + c % 64) ∷ []
unfolding encode_char
encode_3 c h k m = rw (h, k, m) refl

pub encode_4 :
    (c : ℕ)
    → ltb c 128 ≡ false
    → ltb c 2048 ≡ false
    → ltb c 65536 ≡ false
    → encode_char c
      ≡ (240 + c / 262144) ∷ (128 + c / 4096 % 64) ∷ (128 + c / 64 % 64) ∷ (128 + c % 64) ∷ []
unfolding encode_char
encode_4 c h k m = rw (h, k, m) refl

pub whole_2 :
    (x y : ℕ) (l : List ℕ)
    → x < 32
    → y < 64
    → decode Pending.ready ((192 + x) ∷ (128 + y) ∷ l) ≡ (x * 64 + y) ∷ decode Pending.ready l
whole_2 x y l h k =
    lead (192 + x) (Pending.within x 0) ((128 + y) ∷ l) (omega arith) (begin_2 x h)
    ∙ last_byte x y l k

pub whole_3 :
    (x y z : ℕ) (l : List ℕ)
    → x < 16
    → y < 64
    → z < 64
    → decode Pending.ready ((224 + x) ∷ (128 + y) ∷ (128 + z) ∷ l)
      ≡ ((x * 64 + y) * 64 + z) ∷ decode Pending.ready l
whole_3 x y z l h k m =
    lead (224 + x) (Pending.within x 1) ((128 + y) ∷ (128 + z) ∷ l) (omega arith) (begin_3 x h)
    ∙ inner_byte x y 0 ((128 + z) ∷ l) k
    ∙ last_byte (x * 64 + y) z l m

pub whole_4 :
    (x y z w : ℕ) (l : List ℕ)
    → y < 64
    → z < 64
    → w < 64
    → decode Pending.ready ((240 + x) ∷ (128 + y) ∷ (128 + z) ∷ (128 + w) ∷ l)
      ≡ (((x * 64 + y) * 64 + z) * 64 + w) ∷ decode Pending.ready l
whole_4 x y z w l k m n =
    lead (240 + x) (Pending.within x 2) ((128 + y) ∷ (128 + z) ∷ (128 + w) ∷ l) (omega arith)
      (begin_4 x)
    ∙ inner_byte x y 1 ((128 + z) ∷ (128 + w) ∷ l) k
    ∙ inner_byte (x * 64 + y) z 0 ((128 + w) ∷ l) m
    ∙ last_byte ((x * 64 + y) * 64 + z) w l n
