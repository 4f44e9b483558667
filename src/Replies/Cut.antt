-- ===== src/Replies/Cut.antt =====
-- The bytes of one character, whole and cut.
use Prim.Native.Nat.{◌/◌, ◌%◌}
use meshtastic_matrix_relay.Base.{
  ℕ, zero, suc, ◌+◌, ◌*◌, ◌<◌, ◌≡◌, refl, ap, ◌∙◌, true, false, List, [], ◌∷◌, ◌++◌, ltb, take,
  length, arith, if◌then◌else◌, Bool-cases, inl, inr,
}
use meshtastic_matrix_relay.Replies.Utf8.{encode_char, decode, Pending}
use meshtastic_matrix_relay.Replies.Bytes.{
  lead_1, lead, inner_byte, begin_2, begin_3, begin_4, two, three, four, encode_1, encode_2,
  encode_3, encode_4, whole_2, whole_3, whole_4,
}

-- The bytes of a character.
abbrev pub size : ℕ → ℕ
size c = if ltb c 128 then 1 else if ltb c 2048 then 2 else if ltb c 65536 then 3 else 4

-- A character whose bytes have the given shape is read whole, and not at all if it is cut.
abbrev pub IsRead : ℕ → Type 0
IsRead c =
    ((l : List ℕ) → decode Pending.ready (encode_char c ++ l) ≡ c ∷ decode Pending.ready l)
    × ((n : ℕ) (l : List ℕ) → n < size c → decode Pending.ready (take n (encode_char c ++ l)) ≡ [])

cut_1 : (n : ℕ) (l : List ℕ) → n < 1 → decode Pending.ready (take n l) ≡ []
unfolding decode
cut_1 zero l h = refl
cut_1 (suc n) l h = ground arith

cut_2 :
    (n x y : ℕ) (l : List ℕ)
    → x < 32
    → n < 2
    → decode Pending.ready (take n ((192 + x) ∷ (128 + y) ∷ l)) ≡ []
unfolding decode
cut_2 zero x y l h k = refl
cut_2 (suc zero) x y l h k = lead (192 + x) (Pending.within x 0) [] (omega arith) (begin_2 x h)
cut_2 (suc (suc n)) x y l h k = ground arith

cut_3 :
    (n x y z : ℕ) (l : List ℕ)
    → x < 16
    → y < 64
    → n < 3
    → decode Pending.ready (take n ((224 + x) ∷ (128 + y) ∷ (128 + z) ∷ l)) ≡ []
unfolding decode
cut_3 zero x y z l h m k = refl
cut_3 (suc zero) x y z l h m k = lead (224 + x) (Pending.within x 1) [] (omega arith) (begin_3 x h)
cut_3 (suc (suc zero)) x y z l h m k =
    lead (224 + x) (Pending.within x 1) ((128 + y) ∷ []) (omega arith) (begin_3 x h)
    ∙ inner_byte x y 0 [] m
cut_3 (suc (suc (suc n))) x y z l h m k = ground arith

cut_4 :
    (n x y z w : ℕ) (l : List ℕ)
    → y < 64
    → z < 64
    → n < 4
    → decode Pending.ready (take n ((240 + x) ∷ (128 + y) ∷ (128 + z) ∷ (128 + w) ∷ l)) ≡ []
unfolding decode
cut_4 zero x y z w l m p k = refl
cut_4 (suc zero) x y z w l m p k = lead (240 + x) (Pending.within x 2) [] (omega arith) (begin_4 x)
cut_4 (suc (suc zero)) x y z w l m p k =
    lead (240 + x) (Pending.within x 2) ((128 + y) ∷ []) (omega arith) (begin_4 x)
    ∙ inner_byte x y 1 [] m
cut_4 (suc (suc (suc zero))) x y z w l m p k =
    lead (240 + x) (Pending.within x 2) ((128 + y) ∷ (128 + z) ∷ []) (omega arith) (begin_4 x)
    ∙ inner_byte x y 1 ((128 + z) ∷ []) m
    ∙ inner_byte (x * 64 + y) z 0 [] p
cut_4 (suc (suc (suc (suc n)))) x y z w l m p k = ground arith

one_byte-IsRead : (c : ℕ) → ltb c 128 ≡ true → IsRead c
one_byte-IsRead c h = (
  λ l. ap (λ k. decode Pending.ready (k ++ l)) (encode_1 c h) ∙ lead_1 c l (ground arith),
  λ n l k. cut_1 n (encode_char c ++ l) (ground arith),
)

two_bytes-IsRead : (c : ℕ) → ltb c 128 ≡ false → ltb c 2048 ≡ true → IsRead c
two_bytes-IsRead c h k =
    let (x, y, e) = two c (ground arith) in
    (
      λ l.
          ap (λ b. decode Pending.ready (b ++ l)) (encode_2 c h k)
          ∙ whole_2 (c / 64) (c % 64) l x y
          ∙ ap (λ n. n ∷ decode Pending.ready l) e,
      λ n l m.
          ap (λ b. decode Pending.ready (take n (b ++ l))) (encode_2 c h k)
          ∙ cut_2 n (c / 64) (c % 64) l x (ground arith),
    )

three_bytes-IsRead :
    (c : ℕ) → ltb c 128 ≡ false → ltb c 2048 ≡ false → ltb c 65536 ≡ true → IsRead c
three_bytes-IsRead c h k j =
    let (x, y, z, e) = three c (ground arith) in
    (
      λ l.
          ap (λ b. decode Pending.ready (b ++ l)) (encode_3 c h k j)
          ∙ whole_3 (c / 4096) (c / 64 % 64) (c % 64) l x y z
          ∙ ap (λ n. n ∷ decode Pending.ready l) e,
      λ n l m.
          ap (λ b. decode Pending.ready (take n (b ++ l))) (encode_3 c h k j)
          ∙ cut_3 n (c / 4096) (c / 64 % 64) (c % 64) l x y (ground arith),
    )

four_bytes-IsRead :
    (c : ℕ) → ltb c 128 ≡ false → ltb c 2048 ≡ false → ltb c 65536 ≡ false → IsRead c
four_bytes-IsRead c h k j =
    let (y, z, w, e) = four c in
    (
      λ l.
          ap (λ b. decode Pending.ready (b ++ l)) (encode_4 c h k j)
          ∙ whole_4 (c / 262144) (c / 4096 % 64) (c / 64 % 64) (c % 64) l y z w
          ∙ ap (λ n. n ∷ decode Pending.ready l) e,
      λ n l m.
          ap (λ b. decode Pending.ready (take n (b ++ l))) (encode_4 c h k j)
          ∙ cut_4 n (c / 262144) (c / 4096 % 64) (c / 64 % 64) (c % 64) l y z (ground arith),
    )

pub char-IsRead : (c : ℕ) → IsRead c
char-IsRead c = elim (Bool-cases (ltb c 128)) [
  | inl h ↦ one_byte-IsRead c h
  | inr h ↦ elim (Bool-cases (ltb c 2048)) [
    | inl k ↦ two_bytes-IsRead c h k
    | inr k ↦ elim (Bool-cases (ltb c 65536)) [
      | inl j ↦ three_bytes-IsRead c h k j
      | inr j ↦ four_bytes-IsRead c h k j
    ]
  ]
]

pub length-encode_char : (c : ℕ) → length (encode_char c) ≡ size c
unfolding encode_char
length-encode_char c = ground arith
