-- ===== src/Replies/Prefix.antt =====
-- What is left of a text that is cut.
use meshtastic_matrix_relay.Base.{
  ℕ, zero, suc, ◌-◌, ◌≤◌, ◌≡◌, refl, ap, ◌∙◌, subst, some, List, [], ◌∷◌, ◌++◌, leb, pos, take,
  length, length-append, arith, if◌then◌else◌, Bool-cases, inl, inr,
}
use meshtastic_matrix_relay.Replies.Utf8.{encode_char, encode, decode, Pending}
use meshtastic_matrix_relay.Replies.Cut.{size, char-IsRead, length-encode_char}
use meshtastic_matrix_relay.Replies.Truncate.{truncate_message}

-- The longest beginning of a text that has no more bytes than given.
unfoldable pub fitting : ℕ → List ℕ → List ℕ
fitting n [] = []
fitting n (c ∷ l) = let rest = fitting (n - size c) l in if leb (size c) n then c ∷ rest else []

take-append : (n : ℕ) (k l : List ℕ) → length k ≤ n → take n (k ++ l) ≡ k ++ take (n - length k) l
take-append n [] l h = let e : n ≡ n - 0 = omega arith in ap (λ m. take m l) e
take-append zero (b ∷ k) l h = ground arith
take-append (suc n) (b ∷ k) l h =
    let e : n - length k ≡ suc n - suc (length k) = omega arith in
    ap (λ r. b ∷ r) (take-append n k l (omega (arith, h))) ∙ ap (λ m. b ∷ (k ++ take m l)) e

decode-take : (l : List ℕ) (n : ℕ) → decode Pending.ready (take n (encode l)) ≡ fitting n l
unfolding encode fitting decode
decode-take [] zero = refl
decode-take [] (suc n) = refl
decode-take (c ∷ l) n = elim (Bool-cases (leb (size c) n)) [
  | inl h ↦
      let e = length-encode_char c in
      let whole : take n (encode_char c ++ encode l)
          ≡ encode_char c ++ take (n - length (encode_char c)) (encode l) =
        take-append n (encode_char c) (encode l) (ground (arith, e)) in
      ap (decode Pending.ready) whole
      ∙ (char-IsRead c).0 (take (n - length (encode_char c)) (encode l))
      ∙ ap (λ m. c ∷ decode Pending.ready (take (n - m) (encode l))) e
      ∙ ap (λ r. c ∷ r) (decode-take l (n - size c))
      ∙ ground (arith, h)
  | inr h ↦ (char-IsRead c).1 n (encode l) (ground (arith, h)) ∙ ground (arith, h)
]

fitting-bytes : (n : ℕ) (l : List ℕ) → length (encode (fitting n l)) ≤ n
unfolding fitting encode
fitting-bytes n [] = omega arith
fitting-bytes n (c ∷ l) = elim (Bool-cases (leb (size c) n)) [
  | inl h ↦
      let rest = fitting (n - size c) l in
      let b : size c ≤ n = ground (arith, h) in
      let total : length (encode_char c ++ encode rest) ≤ n = omega (
        arith,
        length-append (encode_char c) (encode rest),
        length-encode_char c,
        fitting-bytes (n - size c) l,
        b,
      ) in
      rw h total
  | inr h ↦ rw h (omega arith)
]

-- Cut to `n` bytes, a text keeps exactly its longest beginning of whole characters that has no more
-- than `n` bytes.
pub truncate-fitting :
    (text : List ℕ) (n : ℕ) → truncate_message text (pos n) ≡ some (fitting n text)
unfolding truncate_message decode
truncate-fitting text zero = ap some (decode-take text zero)
truncate-fitting text (suc n) = ap some (decode-take text (suc n))

-- What is left of a text that is cut to `n` bytes has no more than `n` bytes.
pub truncate-bytes :
    (text : List ℕ) (n : ℕ) (cut : List ℕ)
    → truncate_message text (pos n) ≡ some cut
    → length (encode cut) ≤ n
truncate-bytes text n cut h =
    let same : fitting n text ≡ cut = ground (arith, truncate-fitting text n, h) in
    subst (λ l. length (encode l) ≤ n) same (fitting-bytes n text)
